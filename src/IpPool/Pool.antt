-- ===== src/IpPool/Pool.antt =====
-- `IPPool` of pkg/tools/ippool/ippool.go: its operations on the tree. `none` is a nil dereference,
-- or fuel that ran out.
pub mod Walk
pub mod Valid
pub mod Add
pub mod Remove
pub mod Access
use nsm_sdk.Prelude.{
  ℕ, zero, suc, ◌+◌, ◌-◌, ◌%◌, ◌^◌, List, [], ◌∷◌, ◌++◌, Option, none, some, Bool, true, false,
  if◌then◌else◌,
}
use nsm_sdk.IpPool.Address.{Address, before, at, after, equal, next}
use nsm_sdk.IpPool.Range.{
  Range, compare, compare_range, Relation, far_before, next_before, crossing, next_after, far_after,
  unite, sub,
}
use nsm_sdk.IpPool.Prefixes.{Prefix, get_prefixes}
use nsm_sdk.IpPool.Tree.{Color, black, red, Tree, leaf, node, left_of, right_of, Spine, plug}
use nsm_sdk.IpPool.Tree.Insert.{insert_case1}
use nsm_sdk.IpPool.Tree.Delete.{remove_node}

pub record Pool : Type 0 where
  pub root : Tree
  pub size : ℕ
  pub ip_length : ℕ

-- Where a walk down the tree ends: at a nil child, or at a node.
pub data Found : Type 0 where
  vacant : Spine → Found
  reached : Range → Color → Tree → Tree → Spine → Found

-- The walk of `addRange`: a range that meets or adjoins stops it.
unfoldable pub add_place : Range → Tree → Spine → Found
add_place r leaf up = vacant up
add_place r (node v c l s) up = elim (compare_range v r) [
  | far_before ↦ add_place r l (left_of v c s ∷ up)
  | next_before ↦ reached v c l s up
  | crossing ↦ reached v c l s up
  | next_after ↦ reached v c l s up
  | far_after ↦ add_place r s (right_of v c l ∷ up)
]

-- The walk of `deleteRange` and `ContainsNet`: only a range that meets stops it.
unfoldable pub meet_place : Range → Tree → Spine → Found
meet_place r leaf up = vacant up
meet_place r (node v c l s) up = elim (compare_range v r) [
  | far_before ↦ meet_place r l (left_of v c s ∷ up)
  | next_before ↦ meet_place r l (left_of v c s ∷ up)
  | crossing ↦ reached v c l s up
  | next_after ↦ meet_place r s (right_of v c l ∷ up)
  | far_after ↦ meet_place r s (right_of v c l ∷ up)
]

-- `lookup`
unfoldable pub lookup : Address → Tree → Option Range
lookup ip leaf = none
lookup ip (node v c l s) = elim (compare v ip) [
  | at ↦ some v
  | before ↦ lookup ip l
  | after ↦ lookup ip s
]

-- `tree.size--` and `tree.size++` wrap.
unfoldable pub shrink : Pool → Tree → Pool
shrink p t = record p { root = t; size = (p.size + 2 ^ 64 - 1) % 2 ^ 64 }

unfoldable pub grow : Pool → Tree → Pool
grow p t = record p { root = t; size = (p.size + 1) % 2 ^ 64 }

unfoldable pub node_count : Tree → ℕ
node_count leaf = 0
node_count (node v c l r) = node_count l + suc (node_count r)

unfoldable pub add_range_loop : ℕ → Range → Pool → Option Pool
unfolding shrink grow
add_range_loop zero r p = none
add_range_loop (suc f) r p = elim (add_place r p.root []) [
  | vacant up ↦ elim (insert_case1 (node r red leaf leaf) up) [
    | none ↦ none
    | some t ↦ some (grow p t)
  ]
  | reached v c l s up ↦ elim (remove_node (node v c l s) up) [
    | none ↦ none
    | some t ↦ add_range_loop f (unite v r) (shrink p t)
  ]
]

-- Each recursive call comes after the removal of a node.
unfoldable pub add_range : Range → Pool → Option Pool
unfolding add_range_loop node_count
add_range r p = add_range_loop (suc (node_count p.root)) r p

abbrev pub add_range? : Option Range → Pool → Option Pool
add_range? none p = some p
add_range? (some r) p = add_range r p

unfoldable pub delete_range_loop : ℕ → Range → Pool → Option Pool
unfolding shrink add_range
delete_range_loop zero r p = none
delete_range_loop (suc f) r p = elim (meet_place r p.root []) [
  | vacant up ↦ some p
  | reached v c l s up ↦ elim (remove_node (node v c l s) up) [
    | none ↦ none
    | some t ↦ elim (delete_range_loop f r (shrink p t)) [
      | none ↦ none
      | some q ↦ elim (add_range? (sub v r).0 q) [
        | none ↦ none
        | some q' ↦ add_range? (sub v r).1 q'
      ]
    ]
  ]
]

unfoldable pub delete_range : Range → Pool → Option Pool
unfolding delete_range_loop node_count
delete_range r p = delete_range_loop (suc (node_count p.root)) r p
