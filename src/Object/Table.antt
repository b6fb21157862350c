-- ===== src/Object/Table.antt =====
-- The table of a process: the bitmap has the entries that are in use, and only entries for objects
-- that can be transferred are inheritable.
use infinity_os.Base.{
  ℕ, ◌+◌, ◌*◌, ◌≤◌, ◌<◌, ◌≡◌, refl, Bool, true, false, Option, none, some, ◌==◌, arith, ap, ◌∙◌,
  sym, length,
}
use infinity_os.Bitmap.Words.{word_bits}
use infinity_os.Bitmap.Bits.{IsBitmap, bits, bitmap_set-Updated}
use infinity_os.Object.{
  is_transferrable, is_inheritable, Handle, Heap, HandleTable, put_at, place, handle_table_size,
}
use infinity_os.Object.Counts.{
  one, slots, slots-put_at, put_at-here, put_at-away, everywhere, Owned, SameTypes,
}
use infinity_os.Object.Release.{slots-same}

abbrev pub is_used : Option ℕ → Bool
is_used none = false
is_used (some h) = true

-- A handle whose object can be transferred.
abbrev pub Transferrable : (ℕ → Handle) → Option ℕ → Type 0
Transferrable hs o = (h : ℕ) × (o ≡ some h) × (is_transferrable ((hs h).type) ≡ true)

pub record IsTable (hs : ℕ → Handle) (t : HandleTable) : Type 0 where
  pub words : IsBitmap t.bitmap
  pub room : handle_table_size ≤ word_bits * length t.bitmap
  pub in_use : (i : ℕ) → i < handle_table_size → bits t.bitmap i ≡ is_used (t.handles i)
  pub inheritable :
      (i : ℕ)
      → i < handle_table_size
      → is_inheritable (t.flags i) ≡ true
      → Transferrable hs (t.handles i)

pub IsTable-SameTypes :
    (hs hs' : ℕ → Handle) (t : HandleTable) → SameTypes hs hs' → IsTable hs t → IsTable hs' t
IsTable-SameTypes hs hs' t same v = record {
  words = v.words;
  room = v.room;
  in_use = v.in_use;
  inheritable =
      λ i l p. let (h, e, q) = v.inheritable i l p in (h, e, ap is_transferrable (same h) ∙ q);
}

-- The references of a table and of others.
abbrev pub refs_of : HandleTable → (ℕ → ℕ) → ℕ → ℕ
refs_of t ext h = slots handle_table_size (t.handles) h + ext h

-- The handles and the table of a process, which others hold references next to.
abbrev pub IsConsistent : Heap → HandleTable → (ℕ → ℕ) → Type 0
IsConsistent heap t ext = IsTable (heap.handles) t × Owned (heap.handles) (refs_of t ext)

-- The table with one entry changed.
abbrev pub Entered : HandleTable → ℕ → Option ℕ → HandleTable → Type 0
Entered t i o t' =
    (t'.handles i ≡ o)
    × ((j : ℕ) → (i == j) ≡ false → (t'.handles j ≡ t.handles j) × (t'.flags j ≡ t.flags j))

pub refs_of-Entered :
    (t t' : HandleTable) (ext : ℕ → ℕ) (i : ℕ) (o : Option ℕ) (h : ℕ)
    → i < handle_table_size
    → t'.handles ≡ put_at (t.handles) i o
    → refs_of t' ext h + one (t.handles i) h ≡ refs_of t ext h + one o h
refs_of-Entered t t' ext i o h lt e =
    let moved = slots-put_at handle_table_size (t.handles) i o h lt in rw e (omega (arith, moved))

pub refs_of-after :
    (t t' : HandleTable) (ext : ℕ → ℕ) (i : ℕ) (o : Option ℕ) (h : ℕ)
    → i < handle_table_size
    → Entered t i o t'
    → refs_of t' ext h + one (t.handles i) h ≡ refs_of t ext h + one o h
refs_of-after t t' ext i o h lt (here, others) =
    let same : (j : ℕ) → t'.handles j ≡ put_at (t.handles) i o j =
      everywhere {P = λ j. t'.handles j ≡ put_at (t.handles) i o j} i
        (here ∙ sym (put_at-here (t.handles) i o))
        (λ j away. (others j away).0 ∙ sym (put_at-away (t.handles) i o j away)) in
    let moved = slots-put_at handle_table_size (t.handles) i o h lt in
    let equal = slots-same handle_table_size (t'.handles) (put_at (t.handles) i o) h same in
    omega (arith, moved, equal)

-- What `place` makes of a table.
pub place-IsTable :
    (hs : ℕ → Handle) (t : HandleTable) (id h flags : ℕ)
    → IsTable hs t
    → id < handle_table_size
    → (is_inheritable flags ≡ true → is_transferrable ((hs h).type) ≡ true)
    → (t' : HandleTable) × (place t id h flags ≡ some t')
      × IsTable hs t'
      × ((t'.handles ≡ put_at (t.handles) id (some h)) × (t'.flags ≡ put_at (t.flags) id flags))
place-IsTable hs t id h flags v lt allowed =
    let (bm, set, u) = bitmap_set-Updated (t.bitmap) id v.words (omega (arith, v.room)) in
    let hs' = put_at (t.handles) id (some h) in
    (
      record t { handles = hs'; flags = put_at (t.flags) id flags; bitmap = bm },
      rw (set, place) refl,
      record {
        words = u.well_formed;
        room = omega (arith, v.room, u.size);
        in_use =
            everywhere {P = λ i. i < handle_table_size → bits bm i ≡ is_used (hs' i)} id
              (λ l. u.changed ∙ ap is_used (sym (put_at-here (t.handles) id (some h))))
              (λ i away l.
                u.others i away
                ∙ v.in_use i l
                ∙ ap is_used (sym (put_at-away (t.handles) id (some h) i away)));
        inheritable =
            everywhere
              {P = λ i.
                i < handle_table_size
                → is_inheritable (put_at (t.flags) id flags i) ≡ true
                → Transferrable hs (hs' i)}
              id
              (λ l p. (
                h,
                put_at-here (t.handles) id (some h),
                allowed (ap is_inheritable (sym (put_at-here (t.flags) id flags)) ∙ p),
              ))
              (λ i away l p.
                let (x, e, q) =
                  v.inheritable i l
                    (ap is_inheritable (sym (put_at-away (t.flags) id flags i away)) ∙ p) in
                (x, put_at-away (t.handles) id (some h) i away ∙ e, q));
      },
      (refl, refl),
    )
