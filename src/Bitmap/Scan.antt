-- ===== src/Bitmap/Scan.antt =====
-- What a scan of a bitmap is to find, and how the answer for a word extends to the bitmap.
pub mod Loops
pub mod Zero
pub mod Next
use infinity_os.Base.{
  ℕ, zero, suc, ◌+◌, ◌-◌, ◌*◌, ◌/◌, ◌%◌, ◌≤◌, ◌<◌, ◌≡◌, refl, Bool, true, false, not, ◌&&◌, Option,
  none, some, List, [], ◌∷◌, ◌++◌, arith, if◌then◌else◌, ltb, leb, ◌==◌, length, ap, ◌∙◌,
  Bool-cases, inl, inr, subst,
}
use infinity_os.Bitmap.Words.{
  Word, word_bits, bit, complement, nonzero, ffs, ffz, word_and, word_or, all_ones, shift_right,
  shift_left, ffs-lowest, nonzero-none, bit-and, bit-or, bit-complement, bit-low_mask,
  bit-high_mask, length-low_mask,
}
use infinity_os.Bitmap.Bits.{IsBitmap, bits}
use infinity_os.Bitmap.{
  Found, found, absent, fault, found_in, ffs_loop, bitmap_ffs, ffz_loop, bitmap_ffz, next_loop,
  bitmap_next,
}

-- The answer of a scan of the positions from `start` up to `nbits` for a bit `b`: the first such
-- position, or that there is none. `base` is added to the position.
abbrev pub Finds : Bool → (ℕ → Bool) → (start nbits base : ℕ) → Found → Type 0
Finds b f start nbits base (found i) =
    (k : ℕ) × (i ≡ base + k)
    × (start ≤ k)
    × (k < nbits)
    × (f k ≡ b)
    × ((j : ℕ) → start ≤ j → j < k → f j ≡ not b)
Finds b f start nbits base absent = (j : ℕ) → start ≤ j → j < nbits → f j ≡ not b
Finds b f start nbits base fault = ⊥

-- A word that was masked to the positions from `start` up to `n`.
pub word_Finds :
    (f : ℕ → Bool) (value : Word) (start n base : ℕ)
    → n ≤ length value
    → ((j : ℕ) → j < length value → bit value j ≡ (leb start j && (ltb j n && f j)))
    → Finds true f start n base (found_in base value)
word_Finds f value start n base l m = elim (Bool-cases (nonzero value)) [
  | inl some_bit ↦
      let (hit, small, low) = ffs-lowest value some_bit in
      rw some_bit (
        ffs value,
        refl,
        ground (arith, m (ffs value)),
        ground (arith, m (ffs value)),
        ground (arith, m (ffs value)),
        λ j s h. ground (arith, m j, low j, m (ffs value)),
      )
  | inr no_bit ↦ rw no_bit (λ j s h. ground (arith, m j, nonzero-none value no_bit j))
]

-- One more word in front of what a scan found.
pub Finds-next :
    (b : Bool) (f : ℕ → Bool) (start nbits base : ℕ) (r : Found)
    → ((j : ℕ) → start ≤ j → j < word_bits → f j ≡ not b)
    → word_bits ≤ nbits
    → Finds b (λ j. f (word_bits + j)) (start - word_bits) (nbits - word_bits) (base + word_bits) r
    → Finds b f start nbits base r
Finds-next b f start nbits base (found i) before more (k, e, s, l, hit, low) = (
  word_bits + k,
  omega arith,
  omega arith,
  omega arith,
  hit,
  λ j s' h. elim (Bool-cases (ltb j word_bits)) [
    | inl early ↦ before j s' (ground arith)
    | inr late ↦
        let e' : word_bits + (j - word_bits) ≡ j = ground arith in
        subst (λ x. f x ≡ not b) e' (low (j - word_bits) (omega arith) (ground arith))
  ],
)
Finds-next b f start nbits base absent before more rest = λ j s' h.
    elim (Bool-cases (ltb j word_bits)) [
      | inl early ↦ before j s' (ground arith)
      | inr late ↦
          let e' : word_bits + (j - word_bits) ≡ j = ground arith in
          subst (λ x. f x ≡ not b) e' (rest (j - word_bits) (omega arith) (ground arith))
    ]
Finds-next b f start nbits base fault before more rest = rest

-- A hit in the first word.
pub Finds-word :
    (b : Bool) (f : ℕ → Bool) (start n nbits base : ℕ) (i : ℕ)
    → n ≤ nbits
    → Finds b f start n base (found i)
    → Finds b f start nbits base (found i)
Finds-word b f start n nbits base i l (k, e, s, h, hit, low) = (k, e, s, omega arith, hit, low)

pub bits-tail : (w : Word) (ws : List Word) (j : ℕ) → bits (w ∷ ws) (word_bits + j) ≡ bits ws j
unfolding bits
bits-tail w ws j =
    let e : word_bits + j - word_bits ≡ j = omega arith in ground (arith, ap (bits ws) e)

pub bits-head : (w : Word) (ws : List Word) (j : ℕ) → j < word_bits → bits (w ∷ ws) j ≡ bit w j
unfolding bits
bits-head w ws j h = ground arith
