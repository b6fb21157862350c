-- ===== src/RadixTree/Strings.antt =====
-- Matching of keys, and what a split of a node does to lookups.
use infinity_os.Base.{
  ℕ, ◌≡◌, refl, Bool, true, false, ◌&&◌, Option, none, some, List, [], ◌∷◌, if◌then◌else◌, ◌==◌,
  length, drop, arith,
}
use infinity_os.RadixTree.{
  Node, node, Children, no_child, Match, different, partial, exact, longer, match_rest,
  radix_tree_node_match, radix_tree_key_common, radix_tree_node_lookup, find_child, split,
}

abbrev pub same : List ℕ → List ℕ → Bool
same [] [] = true
same [] (d ∷ ds) = false
same (c ∷ cs) [] = false
same (c ∷ cs) (d ∷ ds) = (c == d) && same cs ds

abbrev pub found : Match → Option ℕ → Option ℕ → Option ℕ
found exact value below = value
found longer value below = below
found partial value below = none
found different value below = none

-- A lookup without the first test of the match.
abbrev pub look : Node → List ℕ → Option ℕ
look (node key value children) str =
    found (match_rest key str) value (find_child children (drop (length key) str))

pub lookup-look :
    (k : ℕ) (ks : List ℕ) (value : Option ℕ) (children : Children) (str : List ℕ)
    → radix_tree_node_lookup (node (k ∷ ks) value children) str
      ≡ look (node (k ∷ ks) value children) str
unfolding radix_tree_node_lookup radix_tree_node_match match_rest
lookup-look k ks value children [] = ground arith
lookup-look k ks value children (c ∷ cs) = ground arith

-- A node without children has its own key only.
pub leaf :
    (key str : List ℕ) (v : ℕ)
    → look (node key (some v) no_child) str ≡ (if same str key then some v else none)
unfolding match_rest radix_tree_node_lookup
leaf [] [] v = refl
leaf [] (c ∷ cs) v = refl
leaf (k ∷ ks) [] v = refl
leaf (k ∷ ks) (c ∷ cs) v = ground (arith, leaf ks cs v)

pub look-split :
    (key : List ℕ) (value : Option ℕ) (children : Children) (str : List ℕ) (v : ℕ) (other : List ℕ)
    → match_rest key str ≡ partial
    → look (split key value children str v (radix_tree_key_common str key)) other
      ≡ (if same other str then some v else look (node key value children) other)
unfolding match_rest radix_tree_key_common radix_tree_node_lookup
look-split [] value children [] v other h = cc
look-split [] value children (c ∷ cs) v other h = cc
look-split (k ∷ ks) value children [] v [] h = refl
look-split (k ∷ ks) value children [] v (o ∷ os) h =
    ground (arith, lookup-look k ks value children (o ∷ os))
look-split (k ∷ ks) value children (c ∷ cs) v [] h = ground arith
look-split (k ∷ ks) value children (c ∷ cs) v (o ∷ os) h = ground (
  arith,
  lookup-look k ks value children (o ∷ os),
  lookup-look c cs (some v) no_child (o ∷ os),
  leaf (c ∷ cs) (o ∷ os) v,
  look-split ks value children cs v os,
)
