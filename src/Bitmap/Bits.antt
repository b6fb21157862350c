-- ===== src/Bitmap/Bits.antt =====
-- A bitmap as a function from positions to bits, and what the updates do to it.
use infinity_os.Base.{
  ℕ, zero, suc, ◌+◌, ◌-◌, ◌*◌, ◌/◌, ◌%◌, ◌≤◌, ◌<◌, ◌≡◌, refl, Bool, true, false, ◌&&◌, some, List,
  [], ◌∷◌, ◌++◌, arith, if◌then◌else◌, ltb, leb, ◌==◌, get_elem?, set, length, ap, length-set,
  replicate, drop, min, length-replicate, length-append, length-drop,
}
use infinity_os.Bitmap.Words.{
  Word, word_bits, bit, bit-set_self, bit-set_other, bit-append, bit-replicate, bit-drop,
}
use infinity_os.Bitmap.{bitmap_bytes, zero_bits, bitmap_zero, bitmap_set, bitmap_clear, bitmap_test}

-- Every word has 64 bits.
abbrev pub IsBitmap : List Word → Type 0
IsBitmap [] = Unit {0}
IsBitmap (w ∷ ws) = (length w ≡ word_bits) × IsBitmap ws

unfoldable pub bits : List Word → ℕ → Bool
bits [] i = false
bits (w ∷ ws) i = if ltb i word_bits then bit w i else bits ws (i - word_bits)

-- The bit of the word that the index picks.
pub get_elem?-bits :
    (bm : List Word) (q r : ℕ)
    → r < word_bits
    → q < length bm
    → (w : Word) × (get_elem? bm q ≡ some w) × (bit w r ≡ bits bm (q * word_bits + r))
unfolding bits
get_elem?-bits [] q r h l = absurd (omega arith)
get_elem?-bits (w ∷ ws) zero r h l = (w, refl, ground arith)
get_elem?-bits (w ∷ ws) (suc q) r h l =
    let (v, e, p) = get_elem?-bits ws q r h (omega arith) in (v, e, ground arith)

-- A test of a bit in the memory of the bitmap yields that bit.
pub bitmap_test-bits :
    (bm : List Word) (i : ℕ) → i < word_bits * length bm → bitmap_test bm i ≡ some (bits bm i)
unfolding bitmap_test
bitmap_test-bits bm i h =
    let (w, e, p) = get_elem?-bits bm (i / word_bits) (i % word_bits) (omega arith) (omega arith) in
    let whole : i / word_bits * word_bits + i % word_bits ≡ i = omega arith in ground arith

bits-set :
    (bm : List Word) (q r j : ℕ) (b : Bool) (w : Word)
    → r < word_bits
    → IsBitmap bm
    → get_elem? bm q ≡ some w
    → bits (set bm q (set w r b)) j ≡ (if (q * word_bits + r) == j then b else bits bm j)
unfolding bits
bits-set [] q r j b w h v e = cc
bits-set (x ∷ ws) zero r j b w h v e =
    ground (arith, v.0, bit-set_self w r b, bit-set_other w r j b)
bits-set (x ∷ ws) (suc q) r j b w h v e =
    ground (arith, bits-set ws q r (j - word_bits) b w h v.1 e)

set-IsBitmap :
    (bm : List Word) (q r : ℕ) (b : Bool) (w : Word)
    → get_elem? bm q ≡ some w
    → IsBitmap bm
    → IsBitmap (set bm q (set w r b))
set-IsBitmap [] q r b w e v = tt
set-IsBitmap (x ∷ ws) zero r b w e v = (ground (arith, v.0, length-set w r b), v.1)
set-IsBitmap (x ∷ ws) (suc q) r b w e v = (v.0, set-IsBitmap ws q r b w e v.1)

-- The bitmap after an update of one bit.
pub record Updated (bm : List Word) (i : ℕ) (b : Bool) (bm' : List Word) : Type 0 where
  pub well_formed : IsBitmap bm'
  pub size : length bm' ≡ length bm
  pub changed : bits bm' i ≡ b
  pub others : (j : ℕ) → (i == j) ≡ false → bits bm' j ≡ bits bm j

module _ (bm : List Word) (i : ℕ) (v : IsBitmap bm) (h : i < word_bits * length bm) where
  update-Updated :
      (b : Bool) (w : Word)
      → get_elem? bm (i / word_bits) ≡ some w
      → Updated bm i b (set bm (i / word_bits) (set w (i % word_bits) b))
  update-Updated b w e =
      let whole : i / word_bits * word_bits + i % word_bits ≡ i = omega arith in
      let small : i % word_bits < word_bits = omega arith in
      record {
        well_formed = set-IsBitmap bm (i / word_bits) (i % word_bits) b w e v;
        size = length-set bm (i / word_bits) (set w (i % word_bits) b);
        changed = ground (arith, bits-set bm (i / word_bits) (i % word_bits) i b w small v e);
        others =
            λ j ne. ground (arith, bits-set bm (i / word_bits) (i % word_bits) j b w small v e);
      }

  -- Setting a bit in the memory of a bitmap makes that bit true and changes no other.
  pub bitmap_set-Updated :
      (bm' : List Word) × (bitmap_set bm i ≡ some bm') × (Updated bm i true bm')
  unfolding bitmap_set
  bitmap_set-Updated =
      let (w, e, p) =
        get_elem?-bits bm (i / word_bits) (i % word_bits) (omega arith) (omega arith) in
      (
        set bm (i / word_bits) (set w (i % word_bits) true),
        rw (e, bitmap_set) refl,
        update-Updated true w e,
      )

  -- Clearing a bit in the memory of a bitmap makes that bit false and changes no other.
  pub bitmap_clear-Updated :
      (bm' : List Word) × (bitmap_clear bm i ≡ some bm') × (Updated bm i false bm')
  unfolding bitmap_clear
  bitmap_clear-Updated =
      let (w, e, p) =
        get_elem?-bits bm (i / word_bits) (i % word_bits) (omega arith) (omega arith) in
      (
        set bm (i / word_bits) (set w (i % word_bits) false),
        rw (e, bitmap_clear) refl,
        update-Updated false w e,
      )

-- The word of which the lowest n bits are cleared.
zero_word :
    (n j : ℕ) (w : Word)
    → length w ≡ word_bits
    → j < word_bits
    → bit (replicate (min n word_bits) false ++ drop n w) j ≡ (leb n j && bit w j)
zero_word n j w l h = ground (
  arith,
  bit-append (replicate (min n word_bits) false) (drop n w) j,
  bit-replicate (min n word_bits) false j,
  length-replicate (min n word_bits) false,
  bit-drop n w (j - min n word_bits),
)

bits-zero_bits :
    (n : ℕ) (bm : List Word) (j : ℕ)
    → IsBitmap bm
    → bits (zero_bits n bm) j ≡ (leb n j && bits bm j)
unfolding bits zero_bits
bits-zero_bits n [] j v = ground arith
bits-zero_bits n (w ∷ ws) j v =
    ground (arith, zero_word n j w v.0, bits-zero_bits (n - word_bits) ws (j - word_bits) v.1)

zero_bits-IsBitmap : (n : ℕ) (bm : List Word) → IsBitmap bm → IsBitmap (zero_bits n bm)
unfolding zero_bits
zero_bits-IsBitmap n [] v = tt
zero_bits-IsBitmap n (w ∷ ws) v = (
  omega (
    arith,
    v.0,
    length-append (replicate (min n word_bits) false) (drop n w),
    length-replicate (min n word_bits) false,
    length-drop n w,
  ),
  zero_bits-IsBitmap (n - word_bits) ws v.1,
)

length-zero_bits : (n : ℕ) (bm : List Word) → length (zero_bits n bm) ≡ length bm
unfolding zero_bits
length-zero_bits n [] = refl
length-zero_bits n (w ∷ ws) = ap suc (length-zero_bits (n - word_bits) ws)

-- Zeroing clears every bit of the bitmap, and none behind its last byte.
pub bitmap_zero-bits :
    (bm : List Word) (nbits : ℕ)
    → IsBitmap bm
    → (IsBitmap (bitmap_zero bm nbits))
      × (length (bitmap_zero bm nbits) ≡ length bm)
      × ((j : ℕ) → j < nbits → bits (bitmap_zero bm nbits) j ≡ false)
      × ((j : ℕ) → bitmap_bytes nbits * 8 ≤ j → bits (bitmap_zero bm nbits) j ≡ bits bm j)
unfolding bitmap_zero
bitmap_zero-bits bm nbits v =
    let n : ℕ = bitmap_bytes nbits * 8 in
    (
      zero_bits-IsBitmap n bm v,
      length-zero_bits n bm,
      λ j h. ground (arith, bits-zero_bits n bm j v),
      λ j h. ground (arith, bits-zero_bits n bm j v),
    )
