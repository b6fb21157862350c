-- ===== src/RadixTree/Map.antt =====
-- A radix tree as a map from keys to values.
use infinity_os.Base.{
  ℕ, ◌≡◌, refl, not, ◌&&◌, Option, none, some, List, [], ◌∷◌, if◌then◌else◌, arith, ◌∙◌, ap, sym,
}
use infinity_os.RadixTree.{
  Node, node, Children, no_child, radix_tree_node_lookup, find_child, insert_child,
  radix_tree_insert, radix_tree_lookup, radix_tree_init, put_below,
}
use infinity_os.RadixTree.Strings.{same}
use infinity_os.RadixTree.Insert.{
  is_nil, root_match, lookup_root, insert_node-longer, insert_child-InsertedChild,
}

module _ (value : Option ℕ) (children : Children) (c : ℕ) (cs : List ℕ) (v : ℕ) where
  -- Inserting a value under a key that is not empty never ends in the fatal error, and then a lookup
  -- of that key finds the value, and a lookup of any other key finds what it found before.
  pub radix_tree_insert-lookup :
      (f : Children) × (radix_tree_insert (node [] value children) (c ∷ cs) v
        ≡ some (node [] value f))
      × ((other : List ℕ)
          → radix_tree_lookup (node [] value f) other ≡ (
              if same other (c ∷ cs)
              then some v
              else radix_tree_lookup (node [] value children) other))
  unfolding radix_tree_insert radix_tree_lookup
  radix_tree_insert-lookup =
      let (f, e, at) = insert_child-InsertedChild children (c ∷ cs) v refl in
      (f, inserted f e, λ other. looked f at other)
    where
      inserted :
          (f : Children)
          → insert_child children (c ∷ cs) v ≡ some f
          → radix_tree_insert (node [] value children) (c ∷ cs) v ≡ some (node [] value f)
      inserted f e =
          insert_node-longer [] value children (c ∷ cs) v (root_match (c ∷ cs))
          ∙ ap (λ f. put_below [] value f) e

      looked :
          (f : Children)
          → ((other : List ℕ)
              → find_child f other
                ≡ (if same other (c ∷ cs) then some v else find_child children other))
          → (other : List ℕ)
          → radix_tree_lookup (node [] value f) other ≡ (
              if same other (c ∷ cs)
              then some v
              else radix_tree_lookup (node [] value children) other)
      looked f at [] = refl
      looked f at (o ∷ os) =
          lookup_root value f (o ∷ os)
          ∙ at (o ∷ os)
          ∙ ap (λ x. if same (o ∷ os) (c ∷ cs) then some v else x)
              (sym (lookup_root value children (o ∷ os)))

-- A sequence of insertions, the last one first, and the map that it stands for.
pub insert_all : List (List ℕ × ℕ) → Node → Option Node
insert_all [] root = some root
insert_all ((k, v) ∷ ps) root = elim (insert_all ps root) [
  | none ↦ none
  | some r ↦ radix_tree_insert r k v
]

pub last_value : List (List ℕ × ℕ) → List ℕ → Option ℕ
last_value [] k = none
last_value ((key, v) ∷ ps) k =
    let before = last_value ps k in if same k key && not (is_nil key) then some v else before

no_child_lookup : (k : List ℕ) → find_child no_child k ≡ none
unfolding radix_tree_node_lookup
no_child_lookup k = refl

empty_lookup : (k : List ℕ) → radix_tree_lookup radix_tree_init k ≡ none
unfolding radix_tree_lookup
empty_lookup [] = refl
empty_lookup (c ∷ cs) = lookup_root none no_child (c ∷ cs) ∙ no_child_lookup (c ∷ cs)

nothing_inserted :
    (value : Option ℕ) (f : Children) (v : ℕ)
    → radix_tree_insert (node [] value f) [] v ≡ some (node [] value f)
unfolding radix_tree_insert
nothing_inserted value f v = refl

insert_all-cases :
    (ps : List (List ℕ × ℕ))
    → (f : Children) × (insert_all ps radix_tree_init ≡ some (node [] none f))
      × ((k : List ℕ) → radix_tree_lookup (node [] none f) k ≡ last_value ps k)
unfolding insert_all last_value
insert_all-cases [] = (no_child, refl, λ k. empty_lookup k)
insert_all-cases (([], v) ∷ ps) =
    let (f, e, at) = insert_all-cases ps in
    (f, rw e (nothing_inserted none f v), λ k. at k ∙ ground arith)
insert_all-cases ((c ∷ cs, v) ∷ ps) =
    let (f, e, at) = insert_all-cases ps in
    let (f', e', at') = radix_tree_insert-lookup none f c cs v in
    (f', rw e e', λ k. at' k ∙ ground (arith, at k))

-- After any sequence of insertions into a new tree, none of which ends in the fatal error, a lookup
-- finds the value that was inserted last under the key, and nothing for a key that was never
-- inserted or is empty.
pub insert_all-last_value :
    (ps : List (List ℕ × ℕ))
    → (root : Node) × (insert_all ps radix_tree_init ≡ some root)
      × ((k : List ℕ) → radix_tree_lookup root k ≡ last_value ps k)
insert_all-last_value ps = let (f, e, at) = insert_all-cases ps in (node [] none f, e, at)
