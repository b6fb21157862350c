-- ===== src/Object/System.antt =====
-- A process that works on its table in any order, next to others that hold references to handles.
use infinity_os.Base.{
  ℕ, zero, suc, ◌+◌, ◌*◌, length, ◌≤◌, ◌<◌, ◌≡◌, ◌≢◌, refl, true, false, Option, none, some, List,
  arith, ap, ◌∙◌, sym, subst, inl, inr,
}
use mathlib.Core.Option.{some-injective}
use mathlib.Core.Bool.{true≢false}
use infinity_os.Base.Int.{ℤ, pos}
use infinity_os.Status.{Status, success}
use infinity_os.Object.{
  ObjectType, Lookup, is_inheritable, is_transferrable, Heap, HandleTable, Outcome, is_success,
  handle_table_size, object_handle_attach, object_handle_open, object_handle_lookup,
  object_handle_release, object_handle_detach,
}
use infinity_os.Bitmap.Words.{Word, word_bits}
use infinity_os.Bitmap.Bits.{IsBitmap, bits, bitmap_zero-bits}
use infinity_os.Object.Processes.{object_process_init}
use infinity_os.Object.Counts.{slots, Owned, Owned-same, more}
use infinity_os.Object.Release.{slots-positive, object_handle_release-Leaves}
use infinity_os.Object.Table.{IsTable-SameTypes, IsConsistent, refs_of, is_used}
use infinity_os.Object.Calls.{kern_handle_set_flags, kern_handle_duplicate, destination, slot}
use infinity_os.Object.Keeps.{
  Keeps, object_handle_attach-Keeps, object_handle_open-Keeps, object_handle_detach-Keeps, LooksUp,
  lookup_handle-LooksUp,
}
use infinity_os.Object.Flags.{SetsFlags, kern_handle_set_flags-SetsFlags}
use infinity_os.Object.Duplicate.{kern_handle_duplicate-Keeps}

-- What the calls change. References that others hold: those that a lookup gave, until they are
-- released.
pub record System : Type 0 where
  pub table : HandleTable
  pub heap : Heap
  pub others : ℕ → ℕ

abbrev pub IsSystem : System → Type 0
IsSystem s = IsConsistent s.heap s.table s.others

pub data Step (process : ℕ) : System → System → Type 0 where
  attach :
      (s : System) (h : ℕ) (uidp : Option Status) (status : Status) (id : Option ℕ)
      (t : HandleTable) (heap : Heap)
      → 0 < refs_of s.table s.others h
      → object_handle_attach process h uidp s.table s.heap ≡ some (status, id, t, heap)
      → Step process s (record { table = t; heap = heap; others = s.others })
  open_handle :
      (s : System) (type : ObjectType) (h : ℕ) (uidp : Option Status) (status : Status)
      (id : Option ℕ) (t : HandleTable) (heap : Heap)
      → (s.heap.handles h).freed ≡ true
      → object_handle_open process type h uidp s.table s.heap ≡ some (status, id, t, heap)
      → Step process s (record { table = t; heap = heap; others = s.others })
  detach :
      (s : System) (id : ℤ) (status : Status) (t : HandleTable) (heap : Heap)
      → object_handle_detach process id s.table s.heap ≡ some (status, t, heap)
      → Step process s (record { table = t; heap = heap; others = s.others })
  lookup :
      (s : System) (id type : ℤ) (h : ℕ) (heap : Heap)
      → object_handle_lookup id type s.table s.heap ≡ some (success, some h, heap)
      → Step process s (record { table = s.table; heap = heap; others = more s.others h })
  release :
      (s : System) (h : ℕ) (refs : ℕ → ℕ) (heap : Heap)
      → ((k : ℕ) → s.others k ≡ more refs h k)
      → object_handle_release h s.heap ≡ some heap
      → Step process s (record { table = s.table; heap = heap; others = refs })
  set_flags :
      (s : System) (id : ℤ) (flags : ℕ)
      → Step process s (record {
        table = (kern_handle_set_flags id flags s.table s.heap).1;
        heap = s.heap;
        others = s.others;
      })
  duplicate :
      (s : System) (null : Status) (handle dest : ℤ) (newp : Option Status) (status : Status)
      (id : Option ℕ) (t : HandleTable) (heap : Heap)
      → ((i : ℕ) → handle ≡ pos i → destination dest newp ≢ slot i)
      → kern_handle_duplicate process null handle dest newp s.table s.heap
        ≡ some (status, id, t, heap)
      → Step process s (record { table = t; heap = heap; others = s.others })

Keeps-outcome :
    (ext : ℕ → ℕ) (o : Option Outcome) (status : Status) (id : Option ℕ) (t : HandleTable)
    (heap : Heap)
    → Keeps ext o
    → o ≡ some (status, id, t, heap)
    → IsConsistent heap t ext
Keeps-outcome ext o status id t heap (status', id', t', heap', e, c) here =
    let ends = some-injective _ _ (sym e ∙ here) in
    subst (λ x. IsConsistent heap x ext) (ap (λ x. x.2) ends)
      (subst (λ y. IsConsistent y t' ext) (ap (λ x. x.3) ends) c)

looked_up :
    (s : System) (heap : Heap) (h : ℕ) (o : Option Lookup)
    → LooksUp s.table s.heap s.others o
    → o ≡ some (success, some h, heap)
    → IsConsistent heap s.table (more s.others h)
looked_up s heap h o (inl e) here =
    absurd (true≢false (ap (λ x. is_success (x.0)) (some-injective _ _ (sym here ∙ e))))
looked_up s heap h o (inr (k, heap', e, c)) here =
    let ends = some-injective _ _ (sym e ∙ here) in
    let same : k ≡ h = some-injective _ _ (ap (λ x. x.1) ends) in
    subst (λ x. IsConsistent heap s.table (more s.others x)) same
      (subst (λ y. IsConsistent y s.table (more s.others k)) (ap (λ x. x.2) ends) c)

flags_set :
    (s : System) (id : ℤ) (flags : ℕ) (r : Status × HandleTable)
    → SetsFlags id flags s.table s.heap s.others r
    → IsSystem s
    → IsConsistent s.heap (r.1) s.others
flags_set s id flags r (inl (free, e)) c =
    subst (λ x. IsConsistent s.heap x s.others) (sym (ap (λ x. x.1) e)) c
flags_set s id flags r (inr (i, h, same, here, inl (refused, e))) c =
    subst (λ x. IsConsistent s.heap x s.others) (sym (ap (λ x. x.1) e)) c
flags_set s id flags r (inr (i, h, same, here, inr (e, c'))) c =
    subst (λ x. IsConsistent s.heap x s.others) (sym (ap (λ x. x.1) e)) c'

slots-empty : (n h : ℕ) → slots n (λ i. none) h ≡ 0
unfolding slots
slots-empty zero h = refl
slots-empty (suc n) h = omega (arith, slots-empty n h)

-- A new table has no entries.
pub init-IsSystem :
    (memory : List Word) (heap : Heap) (others : ℕ → ℕ)
    → IsBitmap memory
    → handle_table_size ≤ word_bits * length memory
    → Owned (heap.handles) others
    → IsConsistent heap (object_process_init memory) others
init-IsSystem memory heap others words large owned =
    let (w, l, clear, _) = bitmap_zero-bits memory handle_table_size words in
    (
      record {
        words = w;
        room = omega (arith, large, l);
        in_use = λ i lt. clear i lt;
        inheritable = λ i lt p. absurd (ground (arith, p));
      },
      Owned-same (heap.handles) others (refs_of (object_process_init memory) others)
          (λ h. omega (arith, slots-empty handle_table_size h)) owned,
    )

Step-IsSystem : (process : ℕ) (s s' : System) → Step process s s' → IsSystem s → IsSystem s'
Step-IsSystem process s _ (attach _ h uidp status id t heap live e) c =
    Keeps-outcome s.others _ status id t heap
      (object_handle_attach-Keeps process h uidp s.table s.heap s.others c live) e
Step-IsSystem process s _ (open_handle _ type h uidp status id t heap new e) c =
    Keeps-outcome s.others _ status id t heap
      (object_handle_open-Keeps type h s.table s.heap s.others c new process uidp) e
Step-IsSystem process s _ (detach _ id status t heap e) c =
    let (status', t', heap', e', c') =
      object_handle_detach-Keeps process id s.table s.heap s.others c in
    let ends = some-injective _ _ (sym e' ∙ e) in
    subst (λ x. IsConsistent heap x s.others) (ap (λ x. x.1) ends)
      (subst (λ y. IsConsistent y t' s.others) (ap (λ x. x.2) ends) c')
Step-IsSystem process s _ (lookup _ id type h heap e) c =
    looked_up s heap h _ (lookup_handle-LooksUp id type s.table s.heap s.others c) e
Step-IsSystem process s _ (release _ h refs heap same e) c =
    let owned =
      Owned-same (s.heap.handles) (refs_of s.table s.others) (more (refs_of s.table refs) h)
        (λ k. omega (arith, same k)) (c.1) in
    let (heap', done, owned', types) =
      object_handle_release-Leaves h s.heap (refs_of s.table refs) owned in
    subst (λ y. IsConsistent y s.table refs) (some-injective _ _ (sym done ∙ e))
      (IsTable-SameTypes (s.heap.handles) (heap'.handles) s.table types (c.0), owned')
Step-IsSystem process s _ (set_flags _ id flags) c =
    flags_set s id flags _ (kern_handle_set_flags-SetsFlags id flags s.table s.heap s.others c) c
Step-IsSystem process s _ (duplicate _ null handle dest newp status id t heap other e) c =
    Keeps-outcome s.others _ status id t heap
      (kern_handle_duplicate-Keeps process null handle dest newp s.table s.heap s.others c other) e

-- The states of a process from its start.
pub data Reach (process : ℕ) : System → Type 0 where
  start :
      (memory : List Word) (heap : Heap) (others : ℕ → ℕ)
      → IsBitmap memory
      → handle_table_size ≤ word_bits * length memory
      → Owned (heap.handles) others
      → Reach process (record { table = object_process_init memory; heap = heap; others = others })
  step : (s s' : System) → Reach process s → Step process s s' → Reach process s'

pub Reach-IsSystem : (process : ℕ) (s : System) → Reach process s → IsSystem s
Reach-IsSystem process _ (start memory heap others words large owned) =
    init-IsSystem memory heap others words large owned
Reach-IsSystem process s (step s₀ _ r move) =
    Step-IsSystem process s₀ s move (Reach-IsSystem process s₀ r)

-- An entry names a handle that was not freed, and that nobody frees while the entry is there: its
-- count has the entry in it. Only objects that can be transferred are inherited.
abbrev pub IsAlive : System → (i h : ℕ) → Type 0
IsAlive s i h =
    ((s.heap.handles h).freed ≡ false)
    × ((s.heap.handles h).count ≡ slots handle_table_size (s.table.handles) h + s.others h)
    × (0 < slots handle_table_size (s.table.handles) h)
    × (is_inheritable (s.table.flags i) ≡ true → is_transferrable ((s.heap.handles h).type) ≡ true)

-- In every state that a process reaches, an entry is in the bitmap and names a handle that is alive:
-- not freed, with all its references counted, and inheritable only if it can be transferred.
pub Reach-IsAlive :
    (process : ℕ) (s : System) (i h : ℕ)
    → Reach process s
    → i < handle_table_size
    → s.table.handles i ≡ some h
    → (bits s.table.bitmap i ≡ true) × IsAlive s i h
Reach-IsAlive process s i h r lt here =
    let (v, owned) = Reach-IsSystem process s r in
    let live = slots-positive handle_table_size (s.table.handles) h i lt here in
    (
      v.in_use i lt ∙ ap is_used here,
      (
        (owned h).1 ∙ ground (arith, live),
        (owned h).0,
        live,
        λ p.
            let (k, e, q) = v.inheritable i lt p in
            subst (λ x. is_transferrable ((s.heap.handles x).type) ≡ true)
              (some-injective _ _ (sym e ∙ here)) q,
      ),
    )
