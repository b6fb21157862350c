-- ===== src/Bitmap/Examples.antt =====
-- The theorems on bitmaps at concrete ones.
use infinity_os.Base.{refl, true, false, List, [], ◌∷◌, arith, replicate}
use infinity_os.Bitmap.Words.{Word}
use infinity_os.Bitmap.{bitmap_ffs, bitmap_next}
use infinity_os.Bitmap.Bits.{bits}
use infinity_os.Bitmap.Scan.{Finds}
use infinity_os.Bitmap.Scan.Loops.{bitmap_ffs-Finds}
use infinity_os.Bitmap.Scan.Next.{bitmap_next-Finds}

-- Two words: bits 0 to 66 are set, the others are clear.
abbrev two_words : List Word
two_words = replicate 64 true ∷ (true ∷ true ∷ true ∷ replicate 61 false) ∷ []

bitmap_ffs-Finds_example : Finds true (bits two_words) 0 100 0 (bitmap_ffs two_words 100)
bitmap_ffs-Finds_example = bitmap_ffs-Finds two_words 100 (refl, (refl, tt)) (omega arith)

bitmap_next-Finds_example : Finds true (bits two_words) 66 100 0 (bitmap_next two_words 100 65)
bitmap_next-Finds_example =
    bitmap_next-Finds two_words 100 65 (refl, (refl, tt)) (omega arith) (omega arith)
