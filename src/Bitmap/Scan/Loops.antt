-- ===== src/Bitmap/Scan/Loops.antt =====
-- `bitmap_ffs`, and what the other scans share with it.
use mathlib.Core.Path.{fun_ext}
use infinity_os.Base.{
  ℕ, ◌+◌, ◌-◌, ◌*◌, ◌≤◌, ◌<◌, ◌≡◌, Bool, true, ◌&&◌, List, [], ◌∷◌, arith, if◌then◌else◌, ltb, leb,
  ◌==◌, length, ◌∙◌, Bool-cases, inl, inr, sym,
}
use infinity_os.Bitmap.Words.{
  Word, word_bits, bit, nonzero, ffs, word_and, all_ones, shift_right, bit-and, bit-low_mask,
  length-low_mask, length-and,
}
use infinity_os.Bitmap.Bits.{IsBitmap, bits}
use infinity_os.Bitmap.{Found, found, ffs_loop, bitmap_ffs}
use infinity_os.Bitmap.Scan.{Finds, word_Finds, Finds-next, Finds-word, bits-tail, bits-head}

-- The function of the words behind the first.
pub tail_fun :
    (w : Word) (ws : List Word) → ◌≡◌ {A = ℕ → Bool} (λ j. bits (w ∷ ws) (word_bits + j)) (bits ws)
tail_fun w ws = fun_ext (bits-tail w ws)

-- A full word: a hit in it, or what the scan of the rest finds.
pub full_word-Finds :
    (f : ℕ → Bool) (value : Word) (start nbits base : ℕ) (r : Found)
    → length value ≡ word_bits
    → word_bits ≤ nbits
    → ((j : ℕ) → j < length value → bit value j ≡ (leb start j && (ltb j word_bits && f j)))
    → Finds true
        (λ j. f (word_bits + j))
        (start - word_bits)
        (nbits - word_bits)
        (base + word_bits)
        r
    → Finds true f start nbits base (if nonzero value then found (base + ffs value) else r)
full_word-Finds f value start nbits base r l more m rest =
    let here = word_Finds f value start word_bits base (omega arith) m in
    elim (Bool-cases (nonzero value)) [
      | inl hit ↦ rw hit (Finds-word true f start word_bits nbits base _ more (rw hit at here))
      | inr miss ↦
          rw miss
            (Finds-next true f start nbits base r (λ j s h. (rw miss at here) j s h) more rest)
    ]

-- The bits of a last word under the mask.
pub masked_bit :
    (w : Word) (ws : List Word) (n j : ℕ)
    → length w ≡ word_bits
    → n ≤ word_bits
    → bit (word_and w (shift_right all_ones (word_bits - n))) j ≡ (ltb j n && bits (w ∷ ws) j)
masked_bit w ws n j l h = ground (
  arith,
  bit-and w (shift_right all_ones (word_bits - n)) j,
  bit-low_mask n j h,
  bits-head w ws j,
)

pub masked_length :
    (w : Word) (n : ℕ)
    → length w ≡ word_bits
    → n ≤ word_bits
    → length (word_and w (shift_right all_ones (word_bits - n))) ≡ word_bits
masked_length w n l h =
    length-and w (shift_right all_ones (word_bits - n)) (l ∙ sym (length-low_mask n h)) ∙ l

pub ffs_loop-Finds :
    (bm : List Word) (nbits base : ℕ)
    → IsBitmap bm
    → nbits ≤ word_bits * length bm
    → Finds true (bits bm) 0 nbits base (ffs_loop bm nbits base)
unfolding ffs_loop
ffs_loop-Finds [] nbits base v h =
    let e : (nbits == 0) ≡ true = ground arith in rw e (λ j s l. absurd (ground arith))
ffs_loop-Finds (w ∷ ws) nbits base v h = elim (Bool-cases (leb word_bits nbits)) [
  | inl full ↦
      let ih = ffs_loop-Finds ws (nbits - word_bits) (base + word_bits) v.1 (ground arith) in
      rw full (
        full_word-Finds (bits (w ∷ ws)) w 0 nbits base _ v.0 (ground arith)
          (λ j l. ground (arith, bits-head w ws j)) (rw (tail_fun w ws) ih))
  | inr last ↦ rw last (elim (Bool-cases (nbits == 0)) [
    | inl none_left ↦ rw none_left (λ j s l. absurd (ground arith))
    | inr some_left ↦
        let small : nbits ≤ word_bits = ground arith in
        let len = masked_length w nbits v.0 small in
        rw some_left (
          word_Finds (bits (w ∷ ws)) (word_and w (shift_right all_ones (word_bits - nbits))) 0 nbits
            base (omega arith) (λ j l. ground (arith, masked_bit w ws nbits j v.0 small)))
  ])
]

-- In a bitmap whose memory holds `nbits` bits, `bitmap_ffs` returns the first set bit below
-- `nbits`, all bits before it being clear, or -1 if every bit below `nbits` is clear.
pub bitmap_ffs-Finds :
    (bm : List Word) (nbits : ℕ)
    → IsBitmap bm
    → nbits ≤ word_bits * length bm
    → Finds true (bits bm) 0 nbits 0 (bitmap_ffs bm nbits)
unfolding bitmap_ffs
bitmap_ffs-Finds bm nbits v h = ffs_loop-Finds bm nbits 0 v h
