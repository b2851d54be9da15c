-- ===== src/IpPool/Pool/Access.antt =====
-- The exported methods of `IPPool` in pkg/tools/ippool/ippool.go over the tree operations. The outer
-- `none` is a nil dereference, or fuel that ran out. A call is one step: the methods that change a pool
-- or pull from it take its lock for their whole run. `Contains`, `ContainsNet` and `Empty` take none,
-- and are modelled as run with no other call beside them.
pub mod Pull
pub mod Query
pub mod Exclude
pub mod Iterate
pub mod Nets
use nsm_sdk.Prelude.{
  ℕ, zero, suc, List, [], ◌∷◌, ◌++◌, Option, none, some, Bool, true, false, not, ◌&&◌, ◌==◌,
  if◌then◌else◌,
}
use nsm_sdk.IpPool.Address.{Address, equal, next}
use nsm_sdk.IpPool.Range.{
  Range, compare_range, far_before, next_before, crossing, next_after, far_after, sub,
}
use nsm_sdk.IpPool.Prefixes.{Prefix, get_prefixes}
use nsm_sdk.IpPool.Tree.{Tree, leaf, node, Frame, left_of, right_of, Spine, join, plug}
use nsm_sdk.IpPool.Tree.Delete.{remove_node}
use nsm_sdk.IpPool.Pool.{Pool, lookup, shrink, node_count, add_range, delete_range}

infixl 5 ◌>>=◌
abbrev pub ◌>>=◌ {ℓ κ} : {A : Type ℓ} {B : Type κ} → Option A → (A → Option B) → Option B
none >>= f = none
some a >>= f = f a

-- A `net.IP` or `net.IPNet` that is not nil: its length in bytes, and the address or the range that
-- tools.go reads from it.
pub record Ip : Type 0 where
  pub bytes : ℕ
  pub value : Address

pub record IpNet : Type 0 where
  pub bytes : ℕ
  pub range : Range

abbrev pub single : Address → Range
single a = record { start = a; end = a }

unfoldable pub new : ℕ → Pool
new ip_length = record { root = leaf; size = 0; ip_length = ip_length }

unfoldable pub clone_tree : Tree → Tree
clone_tree leaf = leaf
clone_tree (node v c l r) = node v c (clone_tree l) (clone_tree r)

unfoldable pub clone : Pool → Pool
unfolding clone_tree
clone p = record p { root = clone_tree p.root }

-- `Add` and `AddNet` pass over a nil value and one of another length; `Exclude` only over nil.
unfoldable pub add : Option Ip → Pool → Option Pool
add none p = some p
add (some ip) p = if p.ip_length == ip.bytes then add_range (single ip.value) p else some p

unfoldable pub add_net : Option IpNet → Pool → Option Pool
add_net none p = some p
add_net (some net) p = if p.ip_length == net.bytes then add_range net.range p else some p

unfoldable pub exclude : Option IpNet → Pool → Option Pool
exclude none p = some p
exclude (some net) p = delete_range net.range p

unfoldable pub empty : Pool → Bool
empty p = elim p.root [ leaf ↦ true | node v c l r ↦ false ]

unfoldable pub is_some {ℓ} : {A : Type ℓ} → Option A → Bool
is_some none = false
is_some (some a) = true

unfoldable pub contains_address : Address → Pool → Bool
unfolding is_some
contains_address ip p = is_some (lookup ip p.root)

unfoldable pub contains : Option Ip → Pool → Bool
unfolding contains_address
contains none p = false
contains (some ip) p = contains_address ip.value p

-- The walk of `ContainsNet`.
unfoldable pub contains_range : Range → Tree → Bool
unfolding is_some
contains_range r leaf = false
contains_range r (node v c l s) = elim (compare_range v r) [
  | far_before ↦ contains_range r l
  | next_before ↦ contains_range r l
  | crossing ↦ not (is_some (sub r v).0) && not (is_some (sub r v).1)
  | next_after ↦ contains_range r s
  | far_after ↦ contains_range r s
]

unfoldable pub contains_net : Option IpNet → Pool → Bool
contains_net none p = false
contains_net (some net) p = contains_range net.range p.root

-- `left`: the first node, with its frames.
unfoldable pub leftmost : Tree → Spine → Tree × Spine
leftmost leaf up = (leaf, up)
leftmost (node v c leaf r) up = (node v c leaf r, up)
leftmost (node v c (node w d a b) r) up = leftmost (node w d a b) (left_of v c r ∷ up)

-- `pull`: the first address, taken from the first node or with it.
unfoldable pub pull_node : Pool → Tree × Spine → Option (Option Address × Pool)
unfolding shrink
pull_node p (leaf, up) = some (none, p)
pull_node p (node v c l r, up) =
    if equal v.start v.end
    then remove_node (node v c l r) up >>= (λ t. some (some v.start, shrink p t))
    else some
        (some v.start, record p { root = plug up (node (record v { start = next v.start }) c l r) })

unfoldable pub pull : Pool → Option (Option Address × Pool)
unfolding leftmost pull_node
pull p = pull_node p (leftmost p.root [])

-- `excludePool` and `excludeNode`: the ranges of a pool are deleted in their order.
unfoldable pub exclude_node : Tree → Pool → Option Pool
exclude_node leaf p = some p
exclude_node (node v c l r) p =
    exclude_node l p >>= λ q. delete_range v q >>= λ q'. exclude_node r q'

unfoldable pub exclude_pools : List (Option Pool) → Pool → Option Pool
unfolding exclude_node
exclude_pools [] p = some p
exclude_pools (none ∷ es) p = exclude_pools es p
exclude_pools (some e ∷ es) p = exclude_node e.root p >>= exclude_pools es

-- `PullIP`: the inner `none` is the error that the pool does not contain the address.
unfoldable pub pull_ip : Option Ip → List (Option Pool) → Pool → Option (Option Ip × Pool)
unfolding clone exclude_pools contains
pull_ip none es p = exclude_pools es (clone p) >>= λ q. some (none, p)
pull_ip (some ip) es p = exclude_pools es (clone p) >>= λ q.
    if contains (some ip) q
    then delete_range (single ip.value) p >>= (λ q'. some (some ip, q'))
    else some (none, p)

-- `PullP2PAddrs`: the inner `none` is the error that the pool is empty.
unfoldable pub pull_p2p : List (Option Pool) → Pool → Option (Option (Address × Address) × Pool)
unfolding clone exclude_pools
pull_p2p es p = exclude_pools es (clone p) >>= λ q. pull q >>= λ (src?, q'). elim src? [
  | none ↦ some (none, p)
  | some src ↦ pull q' >>= λ (dst?, q''). elim dst? [
    | none ↦ some (none, p)
    | some dst ↦ delete_range (single src) p >>= λ r.
        delete_range (single dst) r >>= λ r'. some (some (src, dst), r')
  ]
]

-- The ranges in order that the iterator yields, each written as networks.
unfoldable pub prefixes_of : List Range → List Prefix
prefixes_of [] = []
prefixes_of (r ∷ rs) = get_prefixes r ++ prefixes_of rs

-- `iterator.Next` from a node with its frames to the next: the least node on the right, or the first
-- frame of which the node is on the left.
unfoldable pub climb : Tree → Spine → Tree × Spine
unfolding join
climb t [] = (leaf, [])
climb t (left_of v c r ∷ up) = (join (left_of v c r) t, up)
climb t (right_of v c l ∷ up) = climb (join (right_of v c l) t) up

unfoldable pub next_node : Tree → Spine → Tree × Spine
unfolding climb leftmost
next_node leaf up = (leaf, up)
next_node (node v c l leaf) up = climb (node v c l leaf) up
next_node (node v c l (node w d a b)) up = leftmost (node w d a b) (right_of v c l ∷ up)

unfoldable pub iterate : ℕ → Tree × Spine → List Range
unfolding next_node
iterate zero place = []
iterate (suc f) (leaf, up) = []
iterate (suc f) (node v c l r, up) = v ∷ iterate f (next_node (node v c l r) up)

unfoldable pub get_prefixes_of : Pool → List Prefix
unfolding clone leftmost iterate prefixes_of node_count
get_prefixes_of p =
    let t = (clone p).root in prefixes_of (iterate (suc (node_count t)) (leftmost t []))
