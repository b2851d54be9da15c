-- ===== src/PrefixPool/Release.antt =====
-- pkg/tools/prefixpool/prefixpool.go: `releasePrefixes`, `ReleaseExcludedPrefixes` and `Release`. The
-- order in which Go ranges over a map, and that of the sorted texts, is the argument `order`.
pub mod Nested
pub mod Merged
pub mod Groups
pub mod Passes
pub mod Orders
pub mod Loop
pub mod Returned
use nsm_sdk.Prelude.{
  ℕ, zero, suc, ◌+◌, ◌-◌, ◌*◌, ◌/◌, ◌%◌, ◌^◌, List, [], ◌∷◌, ◌++◌, Option, none, some, Bool, true,
  false, not, ◌&&◌, ◌==◌, ltb, if◌then◌else◌, length, String, same,
}
use nsm_sdk.PrefixPool.{
  Ip, Prefix, unknown_connection, not_parsed, Split, parted, failed, out_of_fuel, host, network,
  intersect, same_prefix,
}
use nsm_sdk.PrefixPool.Pool.{ConnectionRecord, PrefixPool}
use nsm_sdk.PrefixPool.Exclude.{keep_others}

abbrev pub holds : Prefix → List Prefix → Bool
holds q [] = false
holds q (p ∷ ps) = if same_prefix p q then true else holds q ps

-- A map of texts to nothing.
abbrev pub insert : Prefix → List Prefix → List Prefix
insert p ps = if holds p ps then ps else ps ++ p ∷ []

-- The inner loop of `removeNestedNetworks`: whether the prefix meets another one, and the map.
unfoldable pub nested_in : ℕ → Prefix → ℕ → List Prefix → Bool × List Prefix → Bool × List Prefix
nested_in i p j [] (met, kept) = (met, kept)
nested_in i p j (q ∷ qs) (met, kept) = nested_in i p (suc j) qs (
    if j == i
    then (met, kept)
    else if (intersect (network q) (network p)).0
    then (
      true,
      if (intersect (network q) (network p)).1 then kept else insert p (keep_others q kept),
    )
    else (met, kept))

unfoldable pub remove_nested_from : List Prefix → ℕ → List Prefix → List Prefix → List Prefix
unfolding nested_in
remove_nested_from all i [] kept = kept
remove_nested_from all i (p ∷ ps) kept =
    let (met, kept') = nested_in i p 0 all (false, kept) in
    remove_nested_from all (suc i) ps (if met then kept' else insert p kept')

-- `removeNestedNetworks`.
unfoldable pub remove_nested_networks : List Prefix → List Prefix
unfolding remove_nested_from
remove_nested_networks all = remove_nested_from all 0 all []

-- The networks by the length of their masks.
abbrev pub Groups : Type 0
Groups = List (ℕ × List Prefix)

abbrev pub group_at : ℕ → Groups → List Prefix
group_at k [] = []
group_at k ((l, ns) ∷ gs) = if l == k then ns else group_at k gs

abbrev pub put_group : ℕ → List Prefix → Groups → Groups
put_group k ms [] = (k, ms) ∷ []
put_group k ms ((l, ns) ∷ gs) =
    let rest = put_group k ms gs in if l == k then (l, ms) ∷ gs else (l, ns) ∷ rest

unfoldable pub group_all : List Prefix → Groups → Groups
group_all [] gs = gs
group_all (p ∷ ps) gs = group_all ps (put_group p.len (group_at p.len gs ++ network p ∷ []) gs)

-- `clearNetIndexInIP`: the bit behind the last one of the rest is cleared.
abbrev pub clear_net_index_in_ip : Ip → ℕ → Ip
clear_net_index_in_ip a len =
    if a.value / 2 ^ (a.bits - len) % 2 == 1
    then record a { value = a.value - 2 ^ (a.bits - len) }
    else a

abbrev pub base_of : Prefix → Prefix
base_of p = record p { ip = clear_net_index_in_ip p.ip p.len }

-- The bases of a group that one network has had so far.
abbrev pub Bases : Type 0
Bases = List (Prefix × Prefix)

abbrev pub find_base : Prefix → Bases → Option Prefix
find_base b [] = none
find_base b ((c, p) ∷ bs) = if same_prefix c b then some p else find_base b bs

abbrev pub delete_base : Prefix → Bases → Bases
delete_base b [] = []
delete_base b ((c, p) ∷ bs) =
    let rest = delete_base b bs in if same_prefix c b then rest else (c, p) ∷ rest

abbrev pub parent_of : Prefix → Prefix
parent_of p = record { ip = (base_of p).ip; len = p.len - 1 }

-- The loop over one group: the bases that are left over, and the parents.
unfoldable pub merge_nets : List Prefix → Bases → List Prefix → Bases × List Prefix
merge_nets [] bs parents = (bs, parents)
merge_nets (p ∷ ps) bs parents = elim (find_base (base_of p) bs) [
  | none ↦ merge_nets ps (bs ++ (base_of p, p) ∷ []) parents
  | some q ↦ merge_nets ps (delete_base (base_of p) bs) (parents ++ parent_of p ∷ [])
]

abbrev pub nets_of : Bases → List Prefix
nets_of [] = []
nets_of ((b, p) ∷ bs) = p ∷ nets_of bs

-- One group of a pass: the new groups and the number of changes.
unfoldable pub merge_group : (List Prefix → List Prefix) → ℕ → List Prefix → Groups × ℕ → Groups × ℕ
unfolding merge_nets
merge_group order len nets (new, changes) =
    let all = group_at len new ++ nets in
    if ltb (length all) 2
    then (put_group len all new, changes)
    else let (bs, parents) = merge_nets all [] [] in
      let new' = put_group len (order (nets_of bs)) new in
      (put_group (len - 1) (group_at (len - 1) new' ++ parents) new', changes + length parents)

unfoldable pub merge_pass : (List Prefix → List Prefix) → Groups → Groups × ℕ → Groups × ℕ
unfolding merge_group
merge_pass order [] s = s
merge_pass order ((len, nets) ∷ gs) s = merge_pass order gs (merge_group order len nets s)

abbrev pub all_nets : Groups → List Prefix
all_nets [] = []
all_nets ((l, ns) ∷ gs) = ns ++ all_nets gs

-- The passes, until one changes nothing; `order_groups` is the order of the range over the groups.
unfoldable pub merge_loop :
    (List Prefix → List Prefix) → (Groups → Groups) → ℕ → Groups → Split (List Prefix)
unfolding merge_pass
merge_loop order order_groups zero gs = out_of_fuel
merge_loop order order_groups (suc n) gs =
    let (new, changes) = merge_pass order (order_groups gs) ([], 0) in
    elim (changes == 0) [
      | true ↦ parted (all_nets (order_groups new))
      | false ↦ merge_loop order order_groups n new
    ]

unfoldable pub release_prefixes :
    (List Prefix → List Prefix)
    → (Groups → Groups)
    → List Prefix
    → List Prefix
    → Split (List Prefix)
unfolding remove_nested_networks group_all merge_loop
release_prefixes order order_groups ps [] = parted ps
release_prefixes order order_groups ps (r ∷ rs) =
    let all = ps ++ r ∷ rs in
    merge_loop order order_groups (suc (length all))
      (group_all (order (remove_nested_networks all)) [])

-- `ReleaseExcludedPrefixes`.
unfoldable pub release_excluded_prefixes :
    (List Prefix → List Prefix)
    → (Groups → Groups)
    → List Prefix
    → PrefixPool
    → Split Unit × PrefixPool
unfolding release_prefixes
release_excluded_prefixes order order_groups excluded s =
    elim (release_prefixes order order_groups s.prefixes excluded) [
      | parted ps ↦ (parted tt, record s { prefixes = order ps })
      | failed e ↦ (failed e, s)
      | out_of_fuel ↦ (out_of_fuel, s)
    ]

abbrev pub forget : String → PrefixPool → PrefixPool
forget id s = record s { connections = λ k. if same id k then none else s.connections k }

-- The text of a nil `ipNet` does not parse.
unfoldable pub release_record :
    (List Prefix → List Prefix)
    → (Groups → Groups)
    → ConnectionRecord
    → List Prefix
    → Split (List Prefix)
unfolding release_prefixes
release_record order order_groups c ps = elim (release_prefixes order order_groups ps c.prefixes) [
  | parted qs ↦ elim c.ip_net [
    | none ↦ failed not_parsed
    | some n ↦ release_prefixes order order_groups qs (n ∷ [])
  ]
  | failed e ↦ failed e
  | out_of_fuel ↦ out_of_fuel
]

-- `Release`: the record is deleted first, whatever comes of the prefixes.
unfoldable pub release :
    (List Prefix → List Prefix) → (Groups → Groups) → String → PrefixPool → Split Unit × PrefixPool
unfolding release_record
release order order_groups id s = elim (s.connections id) [
  | none ↦ (failed unknown_connection, s)
  | some c ↦ elim (release_record order order_groups c s.prefixes) [
    | parted ps ↦ (parted tt, record (forget id s) { prefixes = ps })
    | failed e ↦ (failed e, forget id s)
    | out_of_fuel ↦ (out_of_fuel, forget id s)
  ]
]
