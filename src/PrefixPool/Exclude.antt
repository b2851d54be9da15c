-- ===== src/PrefixPool/Exclude.antt =====
-- pkg/tools/prefixpool/prefixpool.go: `ExcludePrefixes`.
pub mod Meeting
pub mod Removed
pub mod Whole
pub mod Apart
use nsm_sdk.Prelude.{List, [], ◌∷◌, ◌++◌, Option, none, some, Bool, true, false, if◌then◌else◌}
use nsm_sdk.PrefixPool.{
  Prefix, pool_empty, Split, parted, failed, out_of_fuel, network, intersect, same_prefix,
  extract_subnet,
}
use nsm_sdk.PrefixPool.Pool.{PrefixPool}

-- The first prefix that the excluded one meets, and whether the excluded one is bigger.
unfoldable pub first_met : Prefix → List Prefix → Option (Prefix × Bool)
first_met x [] = none
first_met x (p ∷ ps) =
    let rest = first_met x ps in
    if (intersect x (network p)).0 then some (network p, (intersect x (network p)).1) else rest

-- The prefixes whose text is another.
unfoldable pub keep_others : Prefix → List Prefix → List Prefix
keep_others q [] = []
keep_others q (p ∷ ps) = let rest = keep_others q ps in if same_prefix p q then rest else p ∷ rest

-- The prefixes that are left and those that are removed.
abbrev pub Excluded : Type 0
Excluded = List Prefix × List Prefix

unfoldable pub exclude_one : Prefix → Excluded → Split Excluded
exclude_one x (ps, removed) = elim (first_met (network x) ps) [
  | none ↦ parted (ps, removed)
  | some (q, true) ↦ parted (keep_others q ps, removed ++ q ∷ [])
  | some (q, false) ↦ elim (extract_subnet q (network x)) [
    | parted pieces ↦ parted (pieces ++ keep_others q ps, removed ++ network x ∷ [])
    | failed e ↦ failed e
    | out_of_fuel ↦ out_of_fuel
  ]
]

unfoldable pub exclude_all : List Prefix → Excluded → Split Excluded
unfolding exclude_one
exclude_all [] s = parted s
exclude_all (x ∷ xs) s = elim (exclude_one x s) [
  | parted t ↦ exclude_all xs t
  | failed e ↦ failed e
  | out_of_fuel ↦ out_of_fuel
]

-- An error leaves the pool as it is.
unfoldable pub exclude_prefixes : List Prefix → PrefixPool → Split (List Prefix) × PrefixPool
unfolding exclude_all
exclude_prefixes xs s = elim (exclude_all xs (s.prefixes, [])) [
  | parted ([], removed) ↦ (failed pool_empty, s)
  | parted (p ∷ ps, removed) ↦ (parted removed, record s { prefixes = p ∷ ps })
  | failed e ↦ (failed e, s)
  | out_of_fuel ↦ (out_of_fuel, s)
]
