-- ===== src/RadixTree/Insert.antt =====
-- Insertion into a radix tree, as a change of the map that lookups read.
use infinity_os.Base.{
  ℕ, ◌≡◌, ◌≢◌, refl, Bool, true, false, Option, none, some, List, [], ◌∷◌, if◌then◌else◌, ◌==◌,
  length, drop, arith, Bool-cases, inl, inr, ◌∙◌, ap, sym, ◌⊎◌,
}
use infinity_os.RadixTree.{
  Node, node, Children, no_child, child, first, key_of, Match, different, partial, exact, longer,
  match_rest, radix_tree_node_match, radix_tree_key_common, radix_tree_node_lookup, find_child,
  split, insert_node, insert_child, put_below, put_here, put_there,
}
use infinity_os.RadixTree.Strings.{same, found, look, lookup-look, leaf, look-split}

abbrev pub is_nil : List ℕ → Bool
is_nil [] = true
is_nil (c ∷ cs) = false

-- The map after the value of one key was set.
abbrev pub InsertedNode : Node → List ℕ → ℕ → Option Node → Type 0
InsertedNode n str v r =
    (n' : Node) × (r ≡ some n')
    × (first (key_of n') ≡ first (key_of n))
    × ((other : List ℕ)
        → radix_tree_node_lookup n' other
          ≡ (if same other str then some v else radix_tree_node_lookup n other))

abbrev pub InsertedChild : Children → List ℕ → ℕ → Option Children → Type 0
InsertedChild f str v r =
    (f' : Children) × (r ≡ some f')
    × ((other : List ℕ)
        → find_child f' other ≡ (if same other str then some v else find_child f other))

-- Where a key is longer than that of a node, the rest of it is not empty.
drop-longer :
    (key str : List ℕ) → match_rest key str ≡ longer → is_nil (drop (length key) str) ≡ false
unfolding match_rest
drop-longer [] [] h = cc
drop-longer [] (c ∷ cs) h = refl
drop-longer (k ∷ ks) [] h = cc
drop-longer (k ∷ ks) (c ∷ cs) h = ground (arith, drop-longer ks cs)

found_exact :
    (key str other : List ℕ) (value below : Option ℕ) (v : ℕ)
    → match_rest key str ≡ exact
    → found (match_rest key other) (some v) below
      ≡ (if same other str then some v else found (match_rest key other) value below)
unfolding match_rest
found_exact [] [] [] value below v h = refl
found_exact [] [] (o ∷ os) value below v h = refl
found_exact [] (c ∷ cs) other value below v h = cc
found_exact (k ∷ ks) [] other value below v h = cc
found_exact (k ∷ ks) (c ∷ cs) [] value below v h = refl
found_exact (k ∷ ks) (c ∷ cs) (o ∷ os) value below v h =
    ground (arith, found_exact ks cs os value below v)

found_longer :
    (key str other : List ℕ) (value a b : Option ℕ) (v : ℕ)
    → match_rest key str ≡ longer
    → a ≡ (if same (drop (length key) other) (drop (length key) str) then some v else b)
    → found (match_rest key other) value a
      ≡ (if same other str then some v else found (match_rest key other) value b)
unfolding match_rest
found_longer [] [] other value a b v h e = cc
found_longer [] (c ∷ cs) [] value a b v h e = refl
found_longer [] (c ∷ cs) (o ∷ os) value a b v h e = e
found_longer (k ∷ ks) [] other value a b v h e = cc
found_longer (k ∷ ks) (c ∷ cs) [] value a b v h e = refl
found_longer (k ∷ ks) (c ∷ cs) (o ∷ os) value a b v h e =
    ground (arith, found_longer ks cs os value a b v)

same-first : (other str : List ℕ) → same other str ≡ true → first other ≡ first str
same-first [] [] h = refl
same-first [] (c ∷ cs) h = cc
same-first (o ∷ os) [] h = cc
same-first (o ∷ os) (c ∷ cs) h = ground arith

lookup-split :
    (key : List ℕ) (value : Option ℕ) (children : Children) (str : List ℕ) (v c : ℕ)
    (cs other : List ℕ)
    → (radix_tree_node_lookup (split key value children str v (c ∷ cs)) other
        ≡ look (split key value children str v (c ∷ cs)) other)
      × (first (key_of (split key value children str v (c ∷ cs))) ≡ c)
lookup-split key value children str v c cs other = with_rest (drop (length (c ∷ cs)) str) refl
  where
    with_rest :
        (rest : List ℕ)
        → drop (length (c ∷ cs)) str ≡ rest
        → (radix_tree_node_lookup (split key value children str v (c ∷ cs)) other
            ≡ look (split key value children str v (c ∷ cs)) other)
          × (first (key_of (split key value children str v (c ∷ cs))) ≡ c)
    with_rest [] e = rw e (lookup-look c cs (some v) _ other, refl)
    with_rest (d ∷ ds) e = rw e (lookup-look c cs none _ other, refl)

Match-cases : (m : Match) → (m ≡ exact) ⊎ (m ≡ longer) ⊎ (m ≡ partial) ⊎ (m ≡ different)
Match-cases exact = inl refl
Match-cases longer = inr (inl refl)
Match-cases partial = inr (inr (inl refl))
Match-cases different = inr (inr (inr refl))

never_different : (key str : List ℕ) → match_rest key str ≢ different
unfolding match_rest
never_different [] [] = λ h. cc
never_different [] (c ∷ cs) = λ h. cc
never_different (k ∷ ks) [] = λ h. cc
never_different (k ∷ ks) (c ∷ cs) = λ h. ground (arith, never_different ks cs)

-- Where the first bytes agree, the first test of the match changes nothing.
match_first :
    (k : ℕ) (ks str : List ℕ)
    → (k == first str) ≡ true
    → radix_tree_node_match (k ∷ ks) str ≡ match_rest (k ∷ ks) str
unfolding radix_tree_node_match
match_first k ks str h = rw h refl

-- What an insertion at a node does for each result of the match.
insert_node-exact :
    (key : List ℕ) (value : Option ℕ) (children : Children) (str : List ℕ) (v : ℕ)
    → radix_tree_node_match key str ≡ exact
    → insert_node (node key value children) str v ≡ some (node key (some v) children)
unfolding insert_node
insert_node-exact key value children str v m = ground arith

pub insert_node-longer :
    (key : List ℕ) (value : Option ℕ) (children : Children) (str : List ℕ) (v : ℕ)
    → radix_tree_node_match key str ≡ longer
    → insert_node (node key value children) str v
      ≡ put_below key value (insert_child children (drop (length key) str) v)
unfolding insert_node
insert_node-longer key value children str v m = ground arith

insert_node-partial :
    (key : List ℕ) (value : Option ℕ) (children : Children) (str : List ℕ) (v : ℕ)
    → radix_tree_node_match key str ≡ partial
    → insert_node (node key value children) str v
      ≡ some (split key value children str v (radix_tree_key_common str key))
unfolding insert_node
insert_node-partial key value children str v m = ground arith

-- Setting the value of the node itself, or below it, or splitting it.
insert_exact :
    (k : ℕ) (ks : List ℕ) (value : Option ℕ) (children : Children) (str : List ℕ) (v : ℕ)
    → (k == first str) ≡ true
    → match_rest (k ∷ ks) str ≡ exact
    → InsertedNode
        (node (k ∷ ks) value children)
        str
        v
        (insert_node (node (k ∷ ks) value children) str v)
insert_exact k ks value children str v h m = (
  node (k ∷ ks) (some v) children,
  insert_node-exact (k ∷ ks) value children str v (match_first k ks str h ∙ m),
  refl,
  λ other.
      lookup-look k ks (some v) children other
      ∙ found_exact (k ∷ ks) str other value _ v m
      ∙ ap (λ x. if same other str then some v else x)
          (sym (lookup-look k ks value children other)),
)

insert_longer :
    (k : ℕ) (ks : List ℕ) (value : Option ℕ) (children : Children) (str : List ℕ) (v : ℕ)
    → (k == first str) ≡ true
    → match_rest (k ∷ ks) str ≡ longer
    → InsertedChild children
        (drop (length (k ∷ ks)) str)
        v
        (insert_child children (drop (length (k ∷ ks)) str) v)
    → InsertedNode
        (node (k ∷ ks) value children)
        str
        v
        (insert_node (node (k ∷ ks) value children) str v)
insert_longer k ks value children str v h m (f, e, at) = (
  node (k ∷ ks) value f,
  insert_node-longer (k ∷ ks) value children str v (match_first k ks str h ∙ m)
      ∙ ap (λ f. put_below (k ∷ ks) value f) e,
  refl,
  λ other.
      lookup-look k ks value f other
      ∙ found_longer (k ∷ ks) str other value _ _ v m (at (drop (length (k ∷ ks)) other))
      ∙ ap (λ x. if same other str then some v else x)
          (sym (lookup-look k ks value children other)),
)

common_cons :
    (c : ℕ) (cs : List ℕ) (k : ℕ) (ks : List ℕ)
    → (k == c) ≡ true
    → radix_tree_key_common (c ∷ cs) (k ∷ ks) ≡ c ∷ radix_tree_key_common cs ks
unfolding radix_tree_key_common
common_cons c cs k ks h = ground arith

insert_partial :
    (k : ℕ) (ks : List ℕ) (value : Option ℕ) (children : Children) (c : ℕ) (cs : List ℕ) (v : ℕ)
    → (k == c) ≡ true
    → match_rest (k ∷ ks) (c ∷ cs) ≡ partial
    → InsertedNode
        (node (k ∷ ks) value children)
        (c ∷ cs)
        v
        (insert_node (node (k ∷ ks) value children) (c ∷ cs) v)
insert_partial k ks value children c cs v h m =
    let common : radix_tree_key_common (c ∷ cs) (k ∷ ks) ≡ c ∷ radix_tree_key_common cs ks =
      common_cons c cs k ks h in
    (
      split (k ∷ ks) value children (c ∷ cs) v (radix_tree_key_common (c ∷ cs) (k ∷ ks)),
      insert_node-partial (k ∷ ks) value children (c ∷ cs) v (match_first k ks (c ∷ cs) h ∙ m),
      rw common ((lookup-split (k ∷ ks) value children (c ∷ cs) v c _ []).1 ∙ ground arith),
      λ other.
          rw common (lookup-split (k ∷ ks) value children (c ∷ cs) v c _ other).0
          ∙ look-split (k ∷ ks) value children (c ∷ cs) v other m
          ∙ ap (λ x. if same other (c ∷ cs) then some v else x)
              (sym (lookup-look k ks value children other)),
    )

insert_absent :
    (c : ℕ) (cs : List ℕ) (v : ℕ) (other : List ℕ)
    → find_child (child (node (c ∷ cs) (some v) no_child) no_child) other
      ≡ (if same other (c ∷ cs) then some v else none)
unfolding radix_tree_node_lookup
insert_absent c cs v other = ground (
  arith,
  lookup-look c cs (some v) no_child other,
  leaf (c ∷ cs) other v,
  same-first other (c ∷ cs),
)

pub root_match : (str : List ℕ) → radix_tree_node_match [] str ≡ longer
unfolding radix_tree_node_match
root_match str = refl

pub lookup_root :
    (value : Option ℕ) (f : Children) (other : List ℕ)
    → radix_tree_node_lookup (node [] value f) other ≡ find_child f other
unfolding radix_tree_node_lookup radix_tree_node_match
lookup_root value f other = refl

new_child :
    (c : ℕ) (cs : List ℕ) (v : ℕ)
    → InsertedChild no_child (c ∷ cs) v (insert_child no_child (c ∷ cs) v)
unfolding insert_node radix_tree_node_lookup
new_child c cs v =
    (child (node (c ∷ cs) (some v) no_child) no_child, refl, λ other. insert_absent c cs v other)

first_agrees :
    (k : ℕ) (ks str : List ℕ)
    → radix_tree_node_match (k ∷ ks) str ≢ different
    → (k == first str) ≡ true
unfolding radix_tree_node_match
first_agrees k ks str ne = ground (arith, ne)

agrees :
    (n : Node) (str : List ℕ)
    → (first (key_of n) == first str) ≡ true
    → radix_tree_node_match (key_of n) str ≢ different
unfolding radix_tree_node_match
agrees (node [] value children) str e = λ h. cc
agrees (node (k ∷ ks) value children) str e =
    λ h. never_different (k ∷ ks) str (sym (match_first k ks str e) ∙ h)

insert_root :
    (value : Option ℕ) (children : Children) (str : List ℕ) (v : ℕ)
    → InsertedChild children str v (insert_child children str v)
    → InsertedNode (node [] value children) str v (insert_node (node [] value children) str v)
insert_root value children str v (f, e, at) = (
  node [] value f,
  insert_node-longer [] value children str v (root_match str) ∙ ap (λ f. put_below [] value f) e,
  refl,
  λ other.
      lookup_root value f other
      ∙ at other
      ∙ ap (λ x. if same other str then some v else x) (sym (lookup_root value children other)),
)

insert_here :
    (n : Node) (rest : Children) (str : List ℕ) (v : ℕ)
    → (first (key_of n) == first str) ≡ true
    → InsertedNode n str v (insert_node n str v)
    → InsertedChild (child n rest) str v (insert_child (child n rest) str v)
unfolding insert_node radix_tree_node_lookup
insert_here n rest str v h (n', e, f, at) = (
  child n' rest,
  rw h (ap (put_here rest) e),
  λ other. ground (arith, at other, same-first other str),
)

insert_there :
    (n : Node) (rest : Children) (str : List ℕ) (v : ℕ)
    → (first (key_of n) == first str) ≡ false
    → InsertedChild rest str v (insert_child rest str v)
    → InsertedChild (child n rest) str v (insert_child (child n rest) str v)
unfolding insert_node radix_tree_node_lookup
insert_there n rest str v h (f, e, at) =
    (child n f, rw h (ap (put_there n) e), λ other. ground (arith, at other, same-first other str))

mutual
  insert_node-InsertedNode :
      (n : Node) (str : List ℕ) (v : ℕ)
      → is_nil str ≡ false
      → radix_tree_node_match (key_of n) str ≢ different
      → InsertedNode n str v (insert_node n str v)
  insert_node-InsertedNode (node [] value children) str v h ne =
      insert_root value children str v (insert_child-InsertedChild children str v h)
  insert_node-InsertedNode (node (k ∷ ks) value children) [] v h ne = cc
  insert_node-InsertedNode (node (k ∷ ks) value children) (c ∷ cs) v h ne =
      let below = insert_child-InsertedChild children (drop (length (k ∷ ks)) (c ∷ cs)) v in
      let agreed = first_agrees k ks (c ∷ cs) ne in
      elim (Match-cases (match_rest (k ∷ ks) (c ∷ cs))) [
        | inl e ↦ insert_exact k ks value children (c ∷ cs) v agreed e
        | inr (inl e) ↦
            insert_longer k ks value children (c ∷ cs) v agreed e
              (below (drop-longer (k ∷ ks) (c ∷ cs) e))
        | inr (inr (inl e)) ↦ insert_partial k ks value children c cs v agreed e
        | inr (inr (inr e)) ↦ absurd (never_different (k ∷ ks) (c ∷ cs) e)
      ]

  pub insert_child-InsertedChild :
      (f : Children) (str : List ℕ) (v : ℕ)
      → is_nil str ≡ false
      → InsertedChild f str v (insert_child f str v)
  insert_child-InsertedChild no_child [] v h = cc
  insert_child-InsertedChild no_child (c ∷ cs) v h = new_child c cs v
  insert_child-InsertedChild (child n rest) str v h =
      elim (Bool-cases (first (key_of n) == first str)) [
        | inl e ↦ insert_here n rest str v e (insert_node-InsertedNode n str v h (agrees n str e))
        | inr e ↦ insert_there n rest str v e (insert_child-InsertedChild rest str v h)
      ]
