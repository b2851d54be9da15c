-- ===== src/Tests/Releasing.antt =====
-- The theorems on what the prefix pool takes back at samples.
use nsm_sdk.Prelude.{◌+◌, ◌≤◌, ◌≡◌, refl, List, [], ◌∷◌, none, some, false, arith}
use nsm_sdk.PrefixPool.{Ip, Prefix, not_parsed, parted, failed, contains, intersect}
use nsm_sdk.PrefixPool.Halves.{hits, covers, IsNetwork}
use nsm_sdk.PrefixPool.Pool.{PrefixPool, ConnectionRecord}
use mathlib.Core.List.{Permᴰ}
use nsm_sdk.PrefixPool.Exclude.Apart.{intersect-apart}
use nsm_sdk.PrefixPool.Release.{
  release, release_record, release_prefixes, remove_nested_networks, remove_nested_from, nested_in,
  group_all, merge_loop, merge_pass, merge_group, merge_nets, forget,
}
use nsm_sdk.PrefixPool.Release.Merged.{IsProper}
use nsm_sdk.PrefixPool.Release.Orders.{IsOrder}
use nsm_sdk.PrefixPool.Release.Returned.{release_lem, release-lost}
use nsm_sdk.Tests.Prefixing.{ten}

-- The half of the pool that has been given comes back.
abbrev low : Prefix
low = ten 0 25

abbrev high : Prefix
high = ten 128 25

low-IsNetwork : IsNetwork low
low-IsNetwork = record { index = 1310720; value_eq = refl; len_le = omega arith }

high-IsNetwork : IsNetwork high
high-IsNetwork = record { index = 1310721; value_eq = refl; len_le = omega arith }

-- The order of the list itself.
abbrev as_is : {A : Type 0} → List A → List A
as_is xs = xs

as_is-IsOrder : {A : Type 0} → IsOrder (as_is {A = A})
as_is-IsOrder [] = Permᴰ.nil
as_is-IsOrder (x ∷ xs) = Permᴰ.cons refl (as_is-IsOrder xs)

not_intersect : (intersect low high).0 ≡ false
unfolding intersect contains
not_intersect = refl

apart : (a : Ip) → hits low a + hits high a ≤ 1
apart a = intersect-apart low high a (omega arith) (omega arith) not_intersect

low-IsProper : IsProper low
low-IsProper = omega arith

high-IsProper : IsProper high
high-IsProper = omega arith

abbrev record_of_high : ConnectionRecord
record_of_high = record { ip_net = some high; prefixes = [] }

abbrev used : PrefixPool
used = record { prefixes = low ∷ []; connections = λ k. some record_of_high }

release_lem_example :
    (t : PrefixPool) × (release as_is as_is "1" used ≡ (parted tt, t))
    × (t.connections "1" ≡ none)
    × ((a : Ip) → covers t.prefixes a ≡ covers (low ∷ []) a + covers [] a + hits high a)
release_lem_example =
    release_lem as_is as_is as_is-IsOrder as_is-IsOrder "1" used record_of_high high refl refl
      ((low-IsNetwork, low-IsProper), tt) tt (high-IsNetwork, high-IsProper)
      (λ a. omega (arith, apart a))

released : (release as_is as_is "1" used).1.prefixes ≡ ten 0 24 ∷ []
unfolding release release_record release_prefixes remove_nested_networks remove_nested_from
    nested_in group_all merge_loop merge_pass merge_group merge_nets intersect contains
released = refl

abbrev record_of_prefixes : ConnectionRecord
record_of_prefixes = record { ip_net = none; prefixes = high ∷ [] }

abbrev used_for_prefixes : PrefixPool
used_for_prefixes = record { prefixes = low ∷ []; connections = λ k. some record_of_prefixes }

release-lost_example :
    release as_is as_is "1" used_for_prefixes ≡ (failed not_parsed, forget "1" used_for_prefixes)
release-lost_example =
    release-lost as_is as_is as_is-IsOrder as_is-IsOrder "1" used_for_prefixes record_of_prefixes
      refl refl ((low-IsNetwork, low-IsProper), tt) ((high-IsNetwork, high-IsProper), tt)
      (λ a. omega (arith, apart a))
