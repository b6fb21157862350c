-- ===== src/Object/Inherit.antt =====
-- One table takes over a handle of another one.
use infinity_os.Base.{
  ℕ, ◌+◌, ◌<◌, ◌≡◌, refl, true, false, Option, none, some, ltb, arith, ap, ◌∙◌, sym, subst,
  Bool-cases, ltb→lt, Option-cases, ◌⊎◌, inl, inr,
}
use infinity_os.Base.Int.{ℤ, pos, negsuc}
use infinity_os.Status.{Status, success, invalid_handle, already_exists, not_supported}
use infinity_os.Object.{
  Heap, HandleTable, put_at, Detached, is_success, is_transferrable, handle_table_size,
  object_handle_retain, attach_call, attach_to, place,
}
use infinity_os.Object.Counts.{
  one, Owned, Owned-same, SameTypes, more, object_handle_retain-Leaves, handles-call,
}
use infinity_os.Object.Table.{
  IsTable, IsTable-SameTypes, IsConsistent, refs_of, refs_of-Entered, place-IsTable,
}
use infinity_os.Object.Processes.{inherit_handle, inherit_entry, inherited}

-- The entry of a source is a new entry at a destination that was free.
abbrev pub Fills :
    HandleTable → HandleTable → Heap → (ℕ → ℕ) → (s d h : ℕ) → Option Detached → Type 0
Fills parent n heap ext s d h o =
    (n' : HandleTable) × (heap' : Heap) × (o ≡ some (success, n', heap'))
    × (n'.handles ≡ put_at (n.handles) d (some h))
    × (n'.flags ≡ put_at (n.flags) d (parent.flags s))
    × IsConsistent heap' n' ext
    × SameTypes (heap.handles) (heap'.handles)

abbrev inherited_heap : ℕ → Option ℕ → Heap → Heap
inherited_heap h none heap = heap
inherited_heap h (some p) heap = attach_call h p heap

handles-inherited_heap :
    (h : ℕ) (process : Option ℕ) (heap : Heap)
    → (inherited_heap h process heap).handles ≡ heap.handles
handles-inherited_heap h none heap = refl
handles-inherited_heap h (some p) heap =
    handles-call ((heap.handles h).type.has_attach) (attach_to h p) heap

inherited-made :
    (n n' : HandleTable) (d h flags : ℕ) (process : Option ℕ) (heap : Heap)
    → place n d h flags ≡ some n'
    → inherited n d h flags process (some heap) ≡ some (success, n', inherited_heap h process heap)
inherited-made n n' d h flags none heap e = rw (e, inherited) refl
inherited-made n n' d h flags (some p) heap e = rw (e, inherited) refl

module _ (parent n : HandleTable) (process : Option ℕ) (heap : Heap) (ext : ℕ → ℕ)
    (c : IsConsistent heap n ext) where
  inherited-Fills :
      (s d h : ℕ)
      → 0 < ext h
      → d < handle_table_size
      → n.handles d ≡ none
      → is_transferrable ((heap.handles h).type) ≡ true
      → Fills parent n heap ext s d h
          (inherited n d h (parent.flags s) process (object_handle_retain h heap))
  inherited-Fills s d h live lt free allowed =
      let (heap', kept, owned, types) =
        object_handle_retain-Leaves h heap (refs_of n ext) (c.1) (omega (arith, live)) in
      let (n', made, v, (p, q)) =
        place-IsTable (heap'.handles) n d h (parent.flags s)
          (IsTable-SameTypes (heap.handles) (heap'.handles) n types (c.0)) lt
          (λ e. ap is_transferrable (types h) ∙ allowed) in
      let called = inherited_heap h process heap' in
      let same = handles-inherited_heap h process heap' in
      let owned' : Owned (heap'.handles) (refs_of n' ext) =
        Owned-same (heap'.handles) (more (refs_of n ext) h) (refs_of n' ext)
          (λ k.
            let counted =
              subst (λ o. refs_of n' ext k + one o k ≡ refs_of n ext k + one (some h) k) free
                (refs_of-Entered n n' ext d (some h) k lt p) in
            omega (arith, counted))
          owned in
      (
        n',
        called,
        ap (inherited n d h (parent.flags s) process) kept
            ∙ inherited-made n n' d h (parent.flags s) process heap' made,
        p,
        q,
        (
          subst (λ f. IsTable f n') (sym same) v,
          subst (λ f. Owned f (refs_of n' ext)) (sym same) owned',
        ),
        subst (λ f. SameTypes (heap.handles) f) (sym same) types,
      )

  -- What `inherit_handle` does: it fails and changes nothing, or it fills an entry.
  abbrev pub Inherits : ℤ → ℤ → Option Detached → Type 0
  Inherits source dest o =
      ((status : Status) × (is_success status ≡ false) × (o ≡ some (status, n, heap)))
      ⊎ ((s : ℕ) × (d : ℕ) × (h : ℕ) × (source ≡ pos s)
          × (s < handle_table_size)
          × (dest ≡ pos d)
          × (d < handle_table_size)
          × (parent.handles s ≡ some h)
          × (n.handles d ≡ none)
          × Fills parent n heap ext s d h o)

  inherit_entry-Inherits :
      ((s h : ℕ) → s < handle_table_size → parent.handles s ≡ some h → 0 < ext h)
      → (s d : ℕ) → s < handle_table_size
      → d < handle_table_size
      → Inherits (pos s) (pos d) (inherit_entry n d parent s process heap)
  inherit_entry-Inherits backed s d ls ld = elim (Option-cases (parent.handles s)) [
    | inl none_there ↦ inl (invalid_handle, refl, rw (none_there, inherit_entry) refl)
    | inr (h, here) ↦ elim (Option-cases (n.handles d)) [
      | inr (old, taken) ↦
          inl (already_exists, refl, rw (here, inherit_entry) (rw (taken, inherit_entry) refl))
      | inl free ↦ elim (Bool-cases (is_transferrable ((heap.handles h).type))) [
        | inr refused ↦ inl (
          not_supported,
          refl,
          rw (here, inherit_entry) (rw (free, inherit_entry) (rw (refused, inherit_entry) refl)),
        )
        | inl allowed ↦
            let runs : inherit_entry n d parent s process heap
                ≡ inherited n d h (parent.flags s) process (object_handle_retain h heap) =
              rw (here, inherit_entry)
                (rw (free, inherit_entry) (rw (allowed, inherit_entry) refl)) in
            inr (
              s,
              d,
              h,
              refl,
              ls,
              refl,
              ld,
              here,
              free,
              subst (Fills parent n heap ext s d h) (sym runs)
                  (inherited-Fills s d h (backed s h ls here) ld free allowed),
            )
      ]
    ]
  ]

  pub inherit_handle-Inherits :
      ((s h : ℕ) → s < handle_table_size → parent.handles s ≡ some h → 0 < ext h)
      → (source dest : ℤ) → Inherits source dest (inherit_handle n dest parent source process heap)
  unfolding inherit_handle
  inherit_handle-Inherits backed (negsuc s) dest = inl (invalid_handle, refl, refl)
  inherit_handle-Inherits backed (pos s) (negsuc d) = elim (Bool-cases (ltb s handle_table_size)) [
    | inr out ↦ inl (invalid_handle, refl, rw (out, inherit_handle) refl)
    | inl ls ↦ inl (invalid_handle, refl, rw (ls, inherit_handle) refl)
  ]
  inherit_handle-Inherits backed (pos s) (pos d) = elim (Bool-cases (ltb s handle_table_size)) [
    | inr out ↦ inl (invalid_handle, refl, rw (out, inherit_handle) refl)
    | inl ls ↦ elim (Bool-cases (ltb d handle_table_size)) [
      | inr out ↦
          inl (invalid_handle, refl, rw (ls, inherit_handle) (rw (out, inherit_handle) refl))
      | inl ld ↦
          let runs : inherit_handle n (pos d) parent (pos s) process heap
              ≡ inherit_entry n d parent s process heap =
            rw (ls, inherit_handle) (rw (ld, inherit_handle) refl) in
          subst (Inherits (pos s) (pos d)) (sym runs) (
            inherit_entry-Inherits backed s d (ltb→lt s handle_table_size ls)
              (ltb→lt d handle_table_size ld))
    ]
  ]
