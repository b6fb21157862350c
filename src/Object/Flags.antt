-- ===== src/Object/Flags.antt =====
-- `kern_handle_set_flags`.
use infinity_os.Base.{
  ℕ, ◌<◌, ◌≡◌, refl, Bool, true, false, not, ◌&&◌, none, some, ltb, arith, ap, ◌∙◌, sym, Bool-cases,
  lt→ltb, ◌⊎◌, inl, inr,
}
use infinity_os.Base.Int.{ℤ, pos, negsuc}
use infinity_os.Status.{Status, success, invalid_handle, not_supported}
use infinity_os.Object.{
  is_transferrable, is_inheritable, Heap, HandleTable, put_at, entry_at, handle_table_size,
}
use infinity_os.Object.Counts.{everywhere, put_at-here, put_at-away}
use infinity_os.Object.Table.{Transferrable, IsConsistent}
use infinity_os.Object.Detach.{entry_at-cases}
use infinity_os.Object.Calls.{kern_handle_set_flags}

set_flags_absent :
    (id : ℤ) (flags : ℕ) (t : HandleTable) (heap : Heap)
    → entry_at t id ≡ none
    → kern_handle_set_flags id flags t heap ≡ (invalid_handle, t)
unfolding kern_handle_set_flags
set_flags_absent (negsuc n) flags t heap free = refl
set_flags_absent (pos n) flags t heap free = elim (Bool-cases (ltb n handle_table_size)) [
  | inr out ↦ rw (out, kern_handle_set_flags) refl
  | inl lt ↦
      let gone : t.handles n ≡ none = sym (rw (lt, entry_at) refl) ∙ free in
      rw (lt, kern_handle_set_flags) (rw (gone, kern_handle_set_flags) refl)
]

flags_allowed : (a b : Bool) → (a && not b) ≡ false → a ≡ true → b ≡ true
flags_allowed a b p q = ground arith

set_flags_table :
    (i h flags : ℕ) (t : HandleTable) (heap : Heap) (ext : ℕ → ℕ)
    → IsConsistent heap t ext
    → t.handles i ≡ some h
    → (is_inheritable flags && not (is_transferrable ((heap.handles h).type))) ≡ false
    → IsConsistent heap (record t { flags = put_at (t.flags) i flags }) ext
set_flags_table i h flags t heap ext (v, owned) here allowed = (
  record {
    words = v.words;
    room = v.room;
    in_use = v.in_use;
    inheritable =
        everywhere
          {P = λ j.
            j < handle_table_size
            → is_inheritable (put_at (t.flags) i flags j) ≡ true
            → Transferrable (heap.handles) (t.handles j)}
          i
          (λ lt p. (
            h,
            here,
            flags_allowed (is_inheritable flags) (is_transferrable ((heap.handles h).type)) allowed
                (ap is_inheritable (sym (put_at-here (t.flags) i flags)) ∙ p),
          ))
          (λ j away lt p.
            v.inheritable j lt
              (ap is_inheritable (sym (put_at-away (t.flags) i flags j away)) ∙ p));
  },
  owned,
)

-- What `kern_handle_set_flags` does: flags that the entry cannot have are refused.
abbrev pub SetsFlags : ℤ → ℕ → HandleTable → Heap → (ℕ → ℕ) → Status × HandleTable → Type 0
SetsFlags id flags t heap ext r =
    ((entry_at t id ≡ none) × (r ≡ (invalid_handle, t)))
    ⊎ ((i : ℕ) × (h : ℕ) × (id ≡ pos i)
        × (t.handles i ≡ some h)
        × (((is_inheritable flags && not (is_transferrable ((heap.handles h).type))) ≡ true)
              × (r ≡ (not_supported, t))
            ⊎ ((r ≡ (success, record t { flags = put_at (t.flags) i flags }))
                × IsConsistent heap (record t { flags = put_at (t.flags) i flags }) ext)))

pub kern_handle_set_flags-SetsFlags :
    (id : ℤ) (flags : ℕ) (t : HandleTable) (heap : Heap) (ext : ℕ → ℕ)
    → IsConsistent heap t ext
    → SetsFlags id flags t heap ext (kern_handle_set_flags id flags t heap)
unfolding kern_handle_set_flags
kern_handle_set_flags-SetsFlags id flags t heap ext c = elim (entry_at-cases t id) [
  | inl free ↦ inl (free, set_flags_absent id flags t heap free)
  | inr (i, h, same, lt, here) ↦
      let in_range = lt→ltb i handle_table_size lt in
      inr (
        i,
        h,
        same,
        here,
        elim (Bool-cases (is_inheritable flags && not (is_transferrable ((heap.handles h).type)))) [
          | inl refused ↦ inl (
            refused,
            rw same (
                rw (in_range, kern_handle_set_flags)
                  (rw (here, kern_handle_set_flags) (rw (refused, kern_handle_set_flags) refl))),
          )
          | inr allowed ↦ inr (
            rw same (
                rw (in_range, kern_handle_set_flags)
                  (rw (here, kern_handle_set_flags) (rw (allowed, kern_handle_set_flags) refl))),
            set_flags_table i h flags t heap ext c here allowed,
          )
        ],
      )
]
