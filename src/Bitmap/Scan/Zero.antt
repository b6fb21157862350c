-- ===== src/Bitmap/Scan/Zero.antt =====
-- `bitmap_ffz`: the scan for a clear bit is a scan of the complement.
use mathlib.Core.Path.{fun_ext}
use infinity_os.Base.{
  ℕ, ◌+◌, ◌-◌, ◌*◌, ◌≤◌, ◌<◌, ◌≡◌, Bool, true, false, not, ◌&&◌, List, [], ◌∷◌, arith, ltb, leb,
  ◌==◌, length, ap, ◌∙◌, Bool-cases, inl, inr, sym,
}
use infinity_os.Bitmap.Words.{
  Word, word_bits, bit, complement, ffz, word_or, all_ones, shift_left, bit-or, bit-complement,
  bit-high_mask, length-or, length-complement, length-high_mask,
}
use infinity_os.Bitmap.Bits.{IsBitmap, bits}
use infinity_os.Bitmap.{Found, found, absent, fault, ffz_loop, bitmap_ffz}
use infinity_os.Bitmap.Scan.{Finds, word_Finds, bits-tail, bits-head}
use infinity_os.Bitmap.Scan.Loops.{full_word-Finds}

-- Looking for a true bit of the complement is looking for a false one.
Finds-not :
    (f : ℕ → Bool) (start nbits base : ℕ) (r : Found)
    → Finds true (λ j. not (f j)) start nbits base r
    → Finds false f start nbits base r
Finds-not f start nbits base (found i) (k, e, s, h, hit, low) =
    (k, e, s, h, ground arith, λ j s' l. ground (arith, low j s' l))
Finds-not f start nbits base absent none_there = λ j s l. ground (arith, none_there j s l)
Finds-not f start nbits base fault h = h

not_tail :
    (w : Word) (ws : List Word)
    → ◌≡◌ {A = ℕ → Bool} (λ j. not (bits (w ∷ ws) (word_bits + j))) (λ j. not (bits ws j))
not_tail w ws = fun_ext (λ j. ap not (bits-tail w ws j))

-- The complement of a last word whose bits from n up were set.
filled_bit :
    (w : Word) (ws : List Word) (n j : ℕ)
    → length w ≡ word_bits
    → n ≤ word_bits
    → j < word_bits
    → bit (complement (word_or w (shift_left all_ones n))) j ≡ (ltb j n && not (bits (w ∷ ws) j))
filled_bit w ws n j l h s = ground (
  arith,
  bit-complement (word_or w (shift_left all_ones n)) j,
  length-or w (shift_left all_ones n),
  length-high_mask n,
  bit-or w (shift_left all_ones n) j,
  bit-high_mask n j h,
  bits-head w ws j,
)

filled_length :
    (w : Word) (n : ℕ)
    → length w ≡ word_bits
    → length (complement (word_or w (shift_left all_ones n))) ≡ word_bits
filled_length w n l =
    length-complement (word_or w (shift_left all_ones n))
    ∙ length-or w (shift_left all_ones n) (l ∙ sym (length-high_mask n))
    ∙ l

ffz_loop-Finds :
    (bm : List Word) (nbits base : ℕ)
    → IsBitmap bm
    → nbits ≤ word_bits * length bm
    → Finds true (λ j. not (bits bm j)) 0 nbits base (ffz_loop bm nbits base)
unfolding ffz_loop ffz
ffz_loop-Finds [] nbits base v h =
    let e : (nbits == 0) ≡ true = ground arith in rw e (λ j s l. absurd (ground arith))
ffz_loop-Finds (w ∷ ws) nbits base v h = elim (Bool-cases (leb word_bits nbits)) [
  | inl full ↦
      let ih = ffz_loop-Finds ws (nbits - word_bits) (base + word_bits) v.1 (ground arith) in
      let len = length-complement w ∙ v.0 in
      rw full (
        full_word-Finds (λ j. not (bits (w ∷ ws) j)) (complement w) 0 nbits base _ len
          (ground arith) (λ j l. ground (arith, bits-head w ws j, bit-complement w j))
          (rw (not_tail w ws) ih))
  | inr last ↦ rw last (elim (Bool-cases (nbits == 0)) [
    | inl none_left ↦ rw none_left (λ j s l. absurd (ground arith))
    | inr some_left ↦
        let small : nbits ≤ word_bits = ground arith in
        let len = filled_length w nbits v.0 in
        rw some_left (
          word_Finds (λ j. not (bits (w ∷ ws) j))
            (complement (word_or w (shift_left all_ones nbits))) 0 nbits base (omega arith)
            (λ j l. ground (arith, filled_bit w ws nbits j v.0 small)))
  ])
]

-- In a bitmap whose memory holds `nbits` bits, `bitmap_ffz` returns the first clear bit below
-- `nbits`, all bits before it being set, or -1 if every bit below `nbits` is set.
pub bitmap_ffz-Finds :
    (bm : List Word) (nbits : ℕ)
    → IsBitmap bm
    → nbits ≤ word_bits * length bm
    → Finds false (bits bm) 0 nbits 0 (bitmap_ffz bm nbits)
unfolding bitmap_ffz
bitmap_ffz-Finds bm nbits v h = Finds-not (bits bm) 0 nbits 0 _ (ffz_loop-Finds bm nbits 0 v h)
