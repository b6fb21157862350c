-- ===== src/Bitmap/Scan/Next.antt =====
-- `bitmap_next`: the scan for a set bit behind a given one.
use infinity_os.Base.{
  ℕ, ◌+◌, ◌-◌, ◌*◌, ◌≤◌, ◌<◌, ◌≡◌, true, List, [], ◌∷◌, arith, ltb, leb, ◌==◌, length, ◌∙◌,
  Bool-cases, inl, inr, sym,
}
use infinity_os.Bitmap.Words.{
  Word, word_bits, word_and, all_ones, shift_right, shift_left, bit-and, bit-high_mask, length-and,
  length-high_mask,
}
use infinity_os.Bitmap.Bits.{IsBitmap, bits}
use infinity_os.Bitmap.{next_loop, bitmap_next}
use infinity_os.Bitmap.Scan.{Finds, word_Finds, Finds-next, bits-head}
use infinity_os.Bitmap.Scan.Loops.{tail_fun, full_word-Finds, masked_bit, masked_length}

-- A word under the mask of the bits from a position up.
high_length :
    (w : Word) (n : ℕ)
    → length w ≡ word_bits
    → length (word_and w (shift_left all_ones n)) ≡ word_bits
high_length w n l = length-and w (shift_left all_ones n) (l ∙ sym (length-high_mask n)) ∙ l

next_loop-Finds :
    (bm : List Word) (nbits current base : ℕ)
    → IsBitmap bm
    → nbits ≤ word_bits * length bm
    → current ≤ nbits
    → Finds true (bits bm) current nbits base (next_loop bm nbits current base)
unfolding next_loop
next_loop-Finds [] nbits current base v h c =
    let e : (nbits == 0) ≡ true = ground arith in rw e (λ j s l. absurd (ground arith))
next_loop-Finds (w ∷ ws) nbits current base v h c = elim (Bool-cases (leb word_bits nbits)) [
  | inl full ↦ elim (Bool-cases (ltb current word_bits)) [
    | inl here ↦
        let ih =
          next_loop-Finds ws (nbits - word_bits) 0 (base + word_bits) v.1 (ground arith)
            (omega arith) in
        let e : current - word_bits ≡ 0 = ground arith in
        rw (full, here)
          (full_word-Finds (bits (w ∷ ws)) (word_and w (shift_left all_ones current)) current nbits
            base _ (high_length w current v.0) (ground arith)
            (λ j l. ground (
              arith,
              high_length w current v.0,
              bits-head w ws j,
              bit-and w (shift_left all_ones current) j,
              bit-high_mask current j (ground arith),
            ))
            (rw (tail_fun w ws, e) ih))
    | inr later ↦
        let ih =
          next_loop-Finds ws (nbits - word_bits) (current - word_bits) (base + word_bits) v.1
            (ground arith) (omega arith) in
        rw (full, later)
          (Finds-next true (bits (w ∷ ws)) current nbits base _ (λ j s l. absurd (ground arith))
            (ground arith) (rw (tail_fun w ws) ih))
  ]
  | inr last ↦ elim (Bool-cases (nbits == 0)) [
    | inl none_left ↦ rw (last, none_left) (λ j s l. absurd (ground arith))
    | inr some_left ↦
        let small : nbits ≤ word_bits = ground arith in
        let here : ltb current word_bits ≡ true = ground arith in
        let masked = word_and w (shift_right all_ones (word_bits - nbits)) in
        let len = masked_length w nbits v.0 small in
        let len' = high_length masked current len in
        rw (last, some_left, here)
          (word_Finds (bits (w ∷ ws)) (word_and masked (shift_left all_ones current)) current nbits
            base (omega arith)
            (λ j l. ground (
              arith,
              masked_bit w ws nbits j v.0 small,
              bit-and masked (shift_left all_ones current) j,
              bit-high_mask current j (ground arith),
            )))
  ]
]

-- In a bitmap whose memory holds `nbits` bits, `bitmap_next` returns, for a current bit below
-- `nbits`, the first set bit behind it and below `nbits`, or -1 if there is none.
pub bitmap_next-Finds :
    (bm : List Word) (nbits current : ℕ)
    → IsBitmap bm
    → nbits ≤ word_bits * length bm
    → current < nbits
    → Finds true (bits bm) (current + 1) nbits 0 (bitmap_next bm nbits current)
unfolding bitmap_next
bitmap_next-Finds bm nbits current v h c =
    next_loop-Finds bm nbits (current + 1) 0 v h (omega arith)
