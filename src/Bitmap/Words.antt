-- ===== src/Bitmap/Words.antt =====
-- The words of a bitmap: an `unsigned long` of 64 bits as the list of its bits, lowest first, and
-- the bit operations of source/kernel/arch/amd64/include/arch/bitops.h.
use infinity_os.Base.{
  ℕ, zero, suc, ◌+◌, ◌-◌, ◌≤◌, ◌<◌, ◌≡◌, refl, Bool, true, false, not, ◌&&◌, ◌||◌, List, [], ◌∷◌,
  ◌++◌, arith, length, take, drop, replicate, set, if◌then◌else◌, ltb, ◌==◌, length-replicate,
  length-append, length-drop, length-take, ap, leb, ◌∙◌,
}

abbrev pub Word : Type 0
Word = List Bool

abbrev pub word_bits : ℕ
word_bits = 64

-- The bit at a position, false behind the end.
abbrev pub bit : List Bool → ℕ → Bool
bit [] i = false
bit (b ∷ bs) zero = b
bit (b ∷ bs) (suc i) = bit bs i

-- `bts` and `btr` on a word in memory.
abbrev pub set_bit : Word → ℕ → Word
set_bit w i = set w i true

abbrev pub clear_bit : Word → ℕ → Word
clear_bit w i = set w i false

unfoldable pub complement : Word → Word
complement [] = []
complement (b ∷ w) = not b ∷ complement w

unfoldable pub nonzero : Word → Bool
nonzero [] = false
nonzero (b ∷ w) = b || nonzero w

-- `bsf`: the lowest bit that is set. The callers do not ask for a zero.
unfoldable pub ffs : Word → ℕ
ffs [] = 0
ffs (true ∷ w) = 0
ffs (false ∷ w) = suc (ffs w)

-- `bsf` on the complement.
unfoldable pub ffz : Word → ℕ
unfolding ffs complement
ffz w = ffs (complement w)

unfoldable pub word_and : Word → Word → Word
word_and [] w = []
word_and (b ∷ v) [] = []
word_and (b ∷ v) (c ∷ w) = (b && c) ∷ word_and v w

unfoldable pub word_or : Word → Word → Word
word_or [] w = []
word_or (b ∷ v) [] = []
word_or (b ∷ v) (c ∷ w) = (b || c) ∷ word_or v w

-- `~0UL`, and the shifts by less than the width.
unfoldable pub all_ones : Word
all_ones = replicate word_bits true

unfoldable pub shift_right : Word → ℕ → Word
shift_right w k = drop k w ++ replicate k false

unfoldable pub shift_left : Word → ℕ → Word
shift_left w k = take word_bits (replicate k false ++ w)

pub bit_of_ge : (bs : List Bool) (i : ℕ) → length bs ≤ i → bit bs i ≡ false
bit_of_ge [] i h = refl
bit_of_ge (b ∷ bs) zero h = absurd (omega arith)
bit_of_ge (b ∷ bs) (suc i) h = bit_of_ge bs i (omega arith)

pub bit-append :
    (bs cs : List Bool) (i : ℕ)
    → bit (bs ++ cs) i ≡ (if ltb i (length bs) then bit bs i else bit cs (i - length bs))
bit-append [] cs i = ground arith
bit-append (b ∷ bs) cs zero = ground arith
bit-append (b ∷ bs) cs (suc i) = ground (arith, bit-append bs cs i)

pub bit-replicate : (n : ℕ) (b : Bool) (i : ℕ) → bit (replicate n b) i ≡ (ltb i n && b)
bit-replicate zero b i = ground arith
bit-replicate (suc n) b zero = ground arith
bit-replicate (suc n) b (suc i) = ground (arith, bit-replicate n b i)

pub bit-set_self : (bs : List Bool) (i : ℕ) (b : Bool) → i < length bs → bit (set bs i b) i ≡ b
bit-set_self [] i b h = absurd (omega arith)
bit-set_self (c ∷ bs) zero b h = refl
bit-set_self (c ∷ bs) (suc i) b h = bit-set_self bs i b (omega arith)

pub bit-set_other :
    (bs : List Bool) (i j : ℕ) (b : Bool) → (i == j) ≡ false → bit (set bs i b) j ≡ bit bs j
bit-set_other [] i j b h = refl
bit-set_other (c ∷ bs) zero zero b h = cc
bit-set_other (c ∷ bs) zero (suc j) b h = refl
bit-set_other (c ∷ bs) (suc i) zero b h = refl
bit-set_other (c ∷ bs) (suc i) (suc j) b h = bit-set_other bs i j b (ground arith)

pub bit-complement : (w : Word) (i : ℕ) → i < length w → bit (complement w) i ≡ not (bit w i)
unfolding complement
bit-complement [] i h = absurd (omega arith)
bit-complement (b ∷ w) zero h = refl
bit-complement (b ∷ w) (suc i) h = bit-complement w i (omega arith)

pub bit-and : (v w : Word) (i : ℕ) → bit (word_and v w) i ≡ (bit v i && bit w i)
unfolding word_and
bit-and [] w i = refl
bit-and (b ∷ v) [] zero = ground arith
bit-and (b ∷ v) [] (suc i) = ground arith
bit-and (b ∷ v) (c ∷ w) zero = refl
bit-and (b ∷ v) (c ∷ w) (suc i) = bit-and v w i

pub length-and : (v w : Word) → length v ≡ length w → length (word_and v w) ≡ length v
unfolding word_and
length-and [] w h = refl
length-and (b ∷ v) [] h = absurd (omega arith)
length-and (b ∷ v) (c ∷ w) h = ap suc (length-and v w (omega arith))

pub length-or : (v w : Word) → length v ≡ length w → length (word_or v w) ≡ length v
unfolding word_or
length-or [] w h = refl
length-or (b ∷ v) [] h = absurd (omega arith)
length-or (b ∷ v) (c ∷ w) h = ap suc (length-or v w (omega arith))

pub length-complement : (w : Word) → length (complement w) ≡ length w
unfolding complement
length-complement [] = refl
length-complement (b ∷ w) = ap suc (length-complement w)

pub bit-or : (v w : Word) (i : ℕ) → length v ≡ length w → bit (word_or v w) i ≡ (bit v i || bit w i)
unfolding word_or
bit-or [] [] i h = refl
bit-or [] (c ∷ w) i h = absurd (omega arith)
bit-or (b ∷ v) [] i h = absurd (omega arith)
bit-or (b ∷ v) (c ∷ w) zero h = refl
bit-or (b ∷ v) (c ∷ w) (suc i) h = bit-or v w i (omega arith)

-- A word with a set bit: `ffs` is the lowest.
pub ffs-lowest :
    (w : Word)
    → nonzero w ≡ true
    → (bit w (ffs w) ≡ true) × (ffs w < length w) × ((j : ℕ) → j < ffs w → bit w j ≡ false)
unfolding nonzero ffs
ffs-lowest [] h = cc
ffs-lowest (true ∷ w) h = (refl, omega arith, λ j l. absurd (omega arith))
ffs-lowest (false ∷ w) h = let ih = ffs-lowest w h in (ih.0, omega (arith, ih.1), below w ih.2)
  where
    below :
        (w : Word)
        → ((j : ℕ) → j < ffs w → bit w j ≡ false)
        → (j : ℕ) → j < suc (ffs w)
        → bit (false ∷ w) j ≡ false
    below w ih zero l = refl
    below w ih (suc j) l = ih j (omega arith)

pub nonzero-none : (w : Word) → nonzero w ≡ false → (j : ℕ) → bit w j ≡ false
unfolding nonzero
nonzero-none [] h j = refl
nonzero-none (b ∷ w) h zero = ground arith
nonzero-none (b ∷ w) h (suc j) = nonzero-none w (ground arith) j

pub bit-drop : (k : ℕ) (w : List Bool) (i : ℕ) → bit (drop k w) i ≡ bit w (k + i)
bit-drop zero w i = ap (bit w) (omega arith)
bit-drop (suc k) [] i = refl
bit-drop (suc k) (b ∷ w) i = bit-drop k w i ∙ ground arith

bit-take : (k : ℕ) (w : List Bool) (i : ℕ) → bit (take k w) i ≡ (ltb i k && bit w i)
bit-take zero w i = ground arith
bit-take (suc k) [] i = ground arith
bit-take (suc k) (b ∷ w) zero = ground arith
bit-take (suc k) (b ∷ w) (suc i) = ground (arith, bit-take k w i)

-- `~0UL >> (64 - n)` has the lowest n bits.
pub bit-low_mask :
    (n i : ℕ) → n ≤ word_bits → bit (shift_right all_ones (word_bits - n)) i ≡ ltb i n
unfolding shift_right all_ones
bit-low_mask n i h =
    let k : ℕ = word_bits - n in
    ground (
      arith,
      bit-append (drop k (replicate word_bits true)) (replicate k false) i,
      bit-drop k (replicate word_bits true) i,
      bit-replicate word_bits true (k + i),
      bit-replicate k false (i - length (drop k (replicate word_bits true))),
      length-drop k (replicate word_bits true),
    )

-- `~0UL << n` has the bits from n up.
pub bit-high_mask :
    (n i : ℕ) → n ≤ word_bits → bit (shift_left all_ones n) i ≡ (leb n i && ltb i word_bits)
unfolding shift_left all_ones
bit-high_mask n i h = ground (
  arith,
  bit-take word_bits (replicate n false ++ replicate word_bits true) i,
  bit-append (replicate n false) (replicate word_bits true) i,
  bit-replicate n false i,
  length-replicate n false,
  bit-replicate word_bits true (i - n),
)

pub length-high_mask : (n : ℕ) → length (shift_left all_ones n) ≡ 64
unfolding shift_left all_ones
length-high_mask n = omega (
  arith,
  length-take word_bits (replicate n false ++ replicate word_bits true),
  length-append (replicate n false) (replicate word_bits true),
)

pub length-low_mask : (n : ℕ) → n ≤ word_bits → length (shift_right all_ones (word_bits - n)) ≡ 64
unfolding shift_right all_ones
length-low_mask n h =
    let k : ℕ = word_bits - n in
    omega (
      arith,
      length-append (drop k (replicate word_bits true)) (replicate k false),
      length-drop k (replicate word_bits true),
      length-replicate k false,
    )
