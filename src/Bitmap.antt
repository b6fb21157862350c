-- ===== src/Bitmap.antt =====
-- source/kernel/lib/bitmap.c: bitmaps in arrays of 64-bit words.
--
-- A bitmap is the list of the words from its first one to the end of its memory; a word read or
-- written behind that is a fault. A position that the source returns as -1 is `absent`. The scan
-- loops recur on the words that are left.
pub mod Words
pub mod Bits
pub mod Scan
mod Examples
use infinity_os.Base.{
  ℕ, zero, suc, ◌+◌, ◌-◌, ◌*◌, ◌/◌, ◌%◌, Bool, true, false, Option, none, some, List, [], ◌∷◌, ◌++◌,
  min, if◌then◌else◌, ltb, leb, ◌==◌, get_elem?, set, replicate, drop,
}
use Words.{
  Word, word_bits, bit, set_bit, clear_bit, complement, nonzero, ffs, ffz, word_and, word_or,
  all_ones, shift_right, shift_left,
}

-- `BITMAP_BYTES`.
abbrev pub bitmap_bytes : ℕ → ℕ
bitmap_bytes nbits = (nbits + 7) / 8 * 8 / 8

-- `memset` with zeros over a number of bits.
unfoldable pub zero_bits : ℕ → List Word → List Word
zero_bits n [] = []
zero_bits n (w ∷ ws) =
    (replicate (min n word_bits) false ++ drop n w) ∷ zero_bits (n - word_bits) ws

unfoldable pub bitmap_zero : List Word → ℕ → List Word
bitmap_zero bitmap nbits = zero_bits (bitmap_bytes nbits * 8) bitmap

-- `memory` is what `kmalloc` returned.
unfoldable pub bitmap_alloc : Option (List Word) → ℕ → Option (List Word)
bitmap_alloc none nbits = none
bitmap_alloc (some memory) nbits = some (bitmap_zero memory nbits)

unfoldable pub bitmap_set : List Word → ℕ → Option (List Word)
bitmap_set bitmap i = elim (get_elem? bitmap (i / word_bits)) [
  | none ↦ none
  | some w ↦ some (set bitmap (i / word_bits) (set_bit w (i % word_bits)))
]

unfoldable pub bitmap_clear : List Word → ℕ → Option (List Word)
bitmap_clear bitmap i = elim (get_elem? bitmap (i / word_bits)) [
  | none ↦ none
  | some w ↦ some (set bitmap (i / word_bits) (clear_bit w (i % word_bits)))
]

unfoldable pub bitmap_test : List Word → ℕ → Option Bool
bitmap_test bitmap i = elim (get_elem? bitmap (i / word_bits)) [
  | none ↦ none
  | some w ↦ some (bit w (i % word_bits))
]

pub data Found : Type 0 where
  found : ℕ → Found
  absent fault : Found

abbrev pub found_in : ℕ → Word → Found
found_in result value = if nonzero value then found (result + ffs value) else absent

-- The words are full while 64 bits or more are left; the bits of the last word are masked.
unfoldable pub ffs_loop : List Word → ℕ → ℕ → Found
ffs_loop [] nbits result = if nbits == 0 then absent else fault
ffs_loop (w ∷ ws) nbits result =
    let rest = ffs_loop ws (nbits - word_bits) (result + word_bits) in
    if leb word_bits nbits
    then if nonzero w then found (result + ffs w) else rest
    else if nbits == 0
    then absent
    else found_in result (word_and w (shift_right all_ones (word_bits - nbits)))

unfoldable pub bitmap_ffs : List Word → ℕ → Found
unfolding ffs_loop
bitmap_ffs bitmap nbits = ffs_loop bitmap nbits 0

-- `value != ~0UL` is `nonzero (complement value)`.
unfoldable pub ffz_loop : List Word → ℕ → ℕ → Found
ffz_loop [] nbits result = if nbits == 0 then absent else fault
ffz_loop (w ∷ ws) nbits result =
    let rest = ffz_loop ws (nbits - word_bits) (result + word_bits) in
    let value = word_or w (shift_left all_ones nbits) in
    if leb word_bits nbits
    then if nonzero (complement w) then found (result + ffz w) else rest
    else if nbits == 0
    then absent
    else if nonzero (complement value)
    then found (result + ffz value)
    else absent

unfoldable pub bitmap_ffz : List Word → ℕ → Found
unfolding ffz_loop
bitmap_ffz bitmap nbits = ffz_loop bitmap nbits 0

-- In the last word a shift by 64 or more is undefined, and a fault here.
unfoldable pub next_loop : List Word → ℕ → ℕ → ℕ → Found
next_loop [] nbits current result = if nbits == 0 then absent else fault
next_loop (w ∷ ws) nbits current result =
    let value = word_and w (shift_left all_ones current) in
    let fresh = next_loop ws (nbits - word_bits) 0 (result + word_bits) in
    let later = next_loop ws (nbits - word_bits) (current - word_bits) (result + word_bits) in
    let masked = word_and w (shift_right all_ones (word_bits - nbits)) in
    if leb word_bits nbits
    then if ltb current word_bits
      then if nonzero value then found (result + ffs value) else fresh
      else later
    else if nbits == 0
    then absent
    else if ltb current word_bits
    then found_in result (word_and masked (shift_left all_ones current))
    else fault

unfoldable pub bitmap_next : List Word → ℕ → ℕ → Found
unfolding next_loop
bitmap_next bitmap nbits current = next_loop bitmap nbits (current + 1) 0
