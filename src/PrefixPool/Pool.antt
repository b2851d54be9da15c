-- ===== src/PrefixPool/Pool.antt =====
-- pkg/tools/prefixpool/prefixpool.go: the pool with its connections. `IsValid` of a request, which is
-- of the API, is the argument `is_valid`.
pub mod Extract
pub mod Give
use nsm_sdk.Prelude.{
  ℕ, zero, suc, ◌+◌, ◌-◌, ◌*◌, ◌/◌, ◌%◌, ◌^◌, List, [], ◌∷◌, ◌++◌, Option, none, some, Bool, true,
  false, not, ◌&&◌, ◌==◌, if◌then◌else◌, String, same,
}
use nsm_sdk.PrefixPool.{
  Ip, Prefix, PoolError, nothing_extracted, not_valid, overflowed, pool_empty, unknown_connection,
  Split, parted, failed, out_of_fuel, network, contains, intersect, same_prefix, extract_prefix,
  extract_subnet,
}

pub record Request : Type 0 where
  pub required : ℕ
  pub requested : ℕ
  pub prefix_len : ℕ

-- What is extracted, and what is left.
abbrev pub Extracted : Type 0
Extracted = List Prefix × List Prefix

-- The first loop, over the numbers that are required: an error ends it.
unfoldable pub extract_required : ℕ → ℕ → Extracted → Split Extracted
extract_required zero len (result, ps) = parted (result, ps)
extract_required (suc n) len (result, ps) = elim (extract_prefix ps len) [
  | parted (q, rest) ↦ extract_required n len (result ++ q ∷ [], rest)
  | failed e ↦ failed e
  | out_of_fuel ↦ out_of_fuel
]

unfoldable pub extract_all_required : List Request → Extracted → Split Extracted
unfolding extract_required
extract_all_required [] x = parted x
extract_all_required (r ∷ rs) x = elim (extract_required r.required r.prefix_len x) [
  | parted y ↦ extract_all_required rs y
  | failed e ↦ failed e
  | out_of_fuel ↦ out_of_fuel
]

-- The second loop, over what is requested beyond that: an error ends the inner loop only.
unfoldable pub extract_requested : ℕ → ℕ → Extracted → Extracted
extract_requested zero len (result, ps) = (result, ps)
extract_requested (suc n) len (result, ps) = elim (extract_prefix ps len) [
  | parted (q, rest) ↦ extract_requested n len (result ++ q ∷ [], rest)
  | failed e ↦ (result, ps)
  | out_of_fuel ↦ (result, ps)
]

unfoldable pub extract_all_requested : List Request → Extracted → Extracted
unfolding extract_requested
extract_all_requested [] x = x
extract_all_requested (r ∷ rs) x =
    extract_all_requested rs (extract_requested (r.requested - r.required) r.prefix_len x)

abbrev pub all_valid : (Request → Bool) → List Request → Bool
all_valid is_valid [] = true
all_valid is_valid (r ∷ rs) = is_valid r && all_valid is_valid rs

abbrev nothing : List Prefix → Bool
nothing [] = true
nothing (p ∷ ps) = false

abbrev finish : Extracted → Split Extracted
finish (result, ps) = if nothing result then failed nothing_extracted else parted (result, ps)

-- `ExtractPrefixes` on a list of prefixes. An error leaves the list as it is.
unfoldable pub extract_prefixes : (Request → Bool) → List Prefix → List Request → Split Extracted
unfolding extract_all_required extract_all_requested
extract_prefixes is_valid ps rs =
    if all_valid is_valid rs
    then elim (extract_all_required rs ([], ps)) [
      | parted x ↦ finish (extract_all_requested rs x)
      | failed e ↦ failed e
      | out_of_fuel ↦ out_of_fuel
    ]
    else failed not_valid

-- `ipNet` is nil in the record of a connection that has got prefixes only.
pub record ConnectionRecord : Type 0 where
  pub ip_net : Option Prefix
  pub prefixes : List Prefix

pub record PrefixPool : Type 0 where
  pub prefixes : List Prefix
  pub connections : String → Option ConnectionRecord

abbrev pub put_connection : String → ConnectionRecord → PrefixPool → PrefixPool
put_connection id c s = record s {
  connections = λ k. if same id k then some c else s.connections k;
}

-- The address behind, of the same number of bits: the last one is followed by the first.
unfoldable pub increment_ip : Ip → Prefix → Option Ip
increment_ip a net =
    let b = record a { value = (a.value + 1) % 2 ^ a.bits } in
    if contains net b then some b else none

pub record Given : Type 0 where
  pub src : Prefix
  pub dst : Prefix
  pub requested : List Prefix

pub data IpFamily : Type 0 where
  ipv4 : IpFamily
  ipv6 : IpFamily

abbrev pub family_len : IpFamily → ℕ
family_len ipv4 = 30
family_len ipv6 = 126

abbrev whole_request : IpFamily → Request
whole_request family = record { required = 1; requested = 1; prefix_len = family_len family }

-- The prefixes that are asked for besides, from what is left.
abbrev extract_more : (Request → Bool) → List Prefix → List Request → Split Extracted
extract_more is_valid ps [] = parted ([], ps)
extract_more is_valid ps (r ∷ rs) = extract_prefixes is_valid ps (r ∷ rs)

-- The end of `Extract`: the source and the destination, the prefixes and the record.
unfoldable pub give :
    (Request → Bool)
    → String
    → List Request
    → Prefix
    → List Prefix
    → PrefixPool
    → Split Given × PrefixPool
unfolding increment_ip extract_prefixes
give is_valid id requests q left s = elim (increment_ip q.ip (network q)) [
  | none ↦ (failed overflowed, s)
  | some src ↦ elim (increment_ip src (network q)) [
    | none ↦ (failed overflowed, s)
    | some dst ↦ elim (extract_more is_valid left requests) [
      | parted (got, rest) ↦ (
        parted record {
          src = record { ip = src; len = q.len };
          dst = record { ip = dst; len = q.len };
          requested = got;
        },
        put_connection id (record { ip_net = some (network q); prefixes = got })
            (record s { prefixes = rest }),
      )
      | failed e ↦ (failed e, s)
      | out_of_fuel ↦ (out_of_fuel, s)
    ]
  ]
]

unfoldable pub extract :
    (Request → Bool) → String → IpFamily → List Request → PrefixPool → Split Given × PrefixPool
unfolding give extract_prefixes
extract is_valid id family requests s =
    elim (extract_prefixes is_valid s.prefixes (whole_request family ∷ [])) [
      | parted ([], left) ↦ (failed nothing_extracted, s)
      | parted (q ∷ qs, left) ↦ give is_valid id requests q left s
      | failed e ↦ (failed e, s)
      | out_of_fuel ↦ (out_of_fuel, s)
    ]

abbrev pub add_record : Option ConnectionRecord → List Prefix → ConnectionRecord
add_record none got = record { ip_net = none; prefixes = got }
add_record (some c) got = record c { prefixes = c.prefixes ++ got }

-- The method `ExtractPrefixes`.
unfoldable pub extract_for :
    (Request → Bool) → String → List Request → PrefixPool → Split (List Prefix) × PrefixPool
unfolding extract_prefixes
extract_for is_valid id [] s = (parted [], s)
extract_for is_valid id (r ∷ rs) s = elim (extract_prefixes is_valid s.prefixes (r ∷ rs)) [
  | parted (got, rest) ↦ (
    parted got,
    put_connection id (add_record (s.connections id) got) (record s { prefixes = rest }),
  )
  | failed e ↦ (failed e, s)
  | out_of_fuel ↦ (out_of_fuel, s)
]

-- The method `Intersect`.
unfoldable pub intersects : Prefix → List Prefix → Bool
intersects p [] = false
intersects p (q ∷ qs) = if (intersect (network q) (network p)).0 then true else intersects p qs

unfoldable pub get_connection_information :
    String → PrefixPool → Split (Option Prefix × List Prefix)
get_connection_information id s = elim (s.connections id) [
  | none ↦ failed unknown_connection
  | some c ↦ parted (c.ip_net, c.prefixes)
]

-- `New`.
unfoldable pub new : List Prefix → PrefixPool
new ps = record { prefixes = ps; connections = λ k. none }
