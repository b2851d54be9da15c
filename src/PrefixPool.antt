-- ===== src/PrefixPool.antt =====
-- pkg/tools/prefixpool/prefixpool.go: prefixes, their halves and their differences. A text that spells
-- a prefix is the address and the length it spells: texts that do not parse are outside the model, and
-- two texts are the same if they spell the same. A `big.Int` is a natural number.
pub mod Halves
pub mod Subnets
pub mod Search
pub mod Room
pub mod Pool
pub mod Exclude
pub mod Release
use nsm_sdk.Prelude.{
  ℕ, zero, suc, ◌+◌, ◌-◌, ◌*◌, ◌/◌, ◌%◌, ◌^◌, List, [], ◌∷◌, ◌++◌, Option, none, some, Bool, true,
  false, not, ◌&&◌, ◌==◌, ltb, leb, if◌then◌else◌, length, get_elem?, take, drop, String, same,
}

-- An address of 32 or 128 bits.
pub record Ip : Type 0 where
  pub bits : ℕ
  pub value : ℕ

-- An address with the length of a mask; `net.IPNet` where the address is that of the network.
pub record Prefix : Type 0 where
  pub ip : Ip
  pub len : ℕ

pub data PoolError : Type 0 where
  insufficient_space : PoolError
  split_failed : PoolError
  no_room : PoolError
  pool_empty : PoolError
  not_valid : PoolError
  nothing_extracted : PoolError
  overflowed : PoolError
  unknown_connection : PoolError
  not_parsed : PoolError

-- The number of bits behind the mask.
abbrev pub host : Prefix → ℕ
host p = p.ip.bits - p.len

-- The network of `net.ParseCIDR`.
abbrev pub network : Prefix → Prefix
network p = record p { ip = record p.ip { value = p.ip.value / 2 ^ host p * 2 ^ host p } }

-- `IPNet.Contains`, which reads an IPv6 text of an IPv4 address as the IPv4 one: a prefix is taken to
-- have the bits of the address that package net makes of its text.
unfoldable pub contains : Prefix → Ip → Bool
contains p a = (a.bits == p.ip.bits) && (a.value / 2 ^ host p == p.ip.value / 2 ^ host p)

abbrev pub same_ip : Ip → Ip → Bool
same_ip a b = (a.bits == b.bits) && (a.value == b.value)

abbrev pub same_prefix : Prefix → Prefix → Bool
same_prefix p q = same_ip p.ip q.ip && (p.len == q.len)

-- The first result tells that the prefixes meet, the second that the first one is bigger.
unfoldable pub intersect : Prefix → Prefix → Bool × Bool
unfolding contains
intersect p q = if ltb p.len q.len then (contains p q.ip, true) else (contains q p.ip, false)

-- `Or` with the bit `k`, if it is to be set.
abbrev pub set_net_index_in_ip : Ip → Bool → ℕ → Ip
set_net_index_in_ip a false k = a
set_net_index_in_ip a true k =
    if a.value / 2 ^ k % 2 == 1 then a else record a { value = a.value + 2 ^ k }

-- The two halves are the calls with 0 and with 1.
unfoldable pub subnet : Prefix → Bool → Option Prefix
subnet p index =
    if ltb p.ip.bits (p.len + 1)
    then none
    else some
        record { ip = set_net_index_in_ip p.ip index (p.ip.bits - (p.len + 1)); len = p.len + 1 }

-- What a loop that splits a prefix gives. The loops run on fuel.
pub data Split (A : Type 0) : Type 0 where
  parted : A → Split A
  failed : PoolError → Split A
  out_of_fuel : Split A

unfoldable pub halves : Prefix → Option (Prefix × Prefix)
unfolding subnet
halves p = elim (subnet p false) [
  | none ↦ none
  | some sub1 ↦ elim (subnet p true) [ none ↦ none | some sub2 ↦ some (sub1, sub2) ]
]

unfoldable pub extract_subnet_loop :
    ℕ → Prefix → Prefix → List Prefix → List Prefix → Split (List Prefix)
unfolding halves contains
extract_subnet_loop zero root smaller left right = out_of_fuel
extract_subnet_loop (suc n) root smaller left right = elim (root.len == smaller.len) [
  | true ↦ parted (left ++ right)
  | false ↦ elim (halves root) [
    | none ↦ failed insufficient_space
    | some (sub1, sub2) ↦ elim (contains sub1 smaller.ip) [
      | true ↦ extract_subnet_loop n sub1 smaller left (right ++ sub2 ∷ [])
      | false ↦ elim (contains sub2 smaller.ip) [
        | true ↦ extract_subnet_loop n sub2 smaller (left ++ sub1 ∷ []) right
        | false ↦ failed split_failed
      ]
    ]
  ]
]

unfoldable pub extract_subnet : Prefix → Prefix → Split (List Prefix)
unfolding extract_subnet_loop
extract_subnet wider smaller = extract_subnet_loop (suc (host wider)) wider smaller [] []

-- The loop that splits the root down to the length: the left half each time.
unfoldable pub split_loop : ℕ → Prefix → ℕ → List Prefix → Split (Prefix × List Prefix)
unfolding halves
split_loop zero root len right = out_of_fuel
split_loop (suc n) root len right = elim (root.len == len) [
  | true ↦ parted (root, right)
  | false ↦ elim (halves root) [
    | none ↦ failed insufficient_space
    | some (sub1, sub2) ↦ split_loop n sub1 len (right ++ sub2 ∷ [])
  ]
]

-- The place that the search of `extractPrefix` stops at or comes back to.
pub data Place : Type 0 where
  exact : ℕ → Place
  root_at : ℕ → Place
  nowhere : Place

abbrev place_of : Option (ℕ × ℕ) → Place
place_of none = nowhere
place_of (some (i, l)) = root_at i

-- Whether the prefix at hand is to be the root: `maxPrefix` is 0 where there is none.
abbrev is_better : ℕ → ℕ → Option (ℕ × ℕ) → Bool
is_better l len none = ltb l len
is_better l len (some (i, max)) = ltb l len && (if max == 0 then true else ltb max l)

unfoldable pub search_root : ℕ → List Prefix → ℕ → Option (ℕ × ℕ) → Place
search_root len [] i max = place_of max
search_root len (p ∷ ps) i max = elim (len == p.len) [
  | true ↦ exact i
  | false ↦ search_root len ps (suc i) (if is_better p.len len max then some (i, p.len) else max)
]

abbrev pub reverse : List Prefix → List Prefix
reverse [] = []
reverse (p ∷ ps) = reverse ps ++ p ∷ []

unfoldable pub extract_prefix : List Prefix → ℕ → Split (Prefix × List Prefix)
unfolding search_root split_loop
extract_prefix ps len = elim (search_root len ps 0 none) [
  | nowhere ↦ failed no_room
  | exact i ↦ elim (get_elem? ps i) [
    | none ↦ failed no_room
    | some p ↦ parted (p, take i ps ++ drop (suc i) ps)
  ]
  | root_at i ↦ elim (get_elem? ps i) [
    | none ↦ failed no_room
    | some p ↦ elim (split_loop (suc (host p)) (network p) len []) [
      | parted (q, right) ↦ parted (q, take i ps ++ reverse right ++ drop (suc i) ps)
      | failed e ↦ failed e
      | out_of_fuel ↦ out_of_fuel
    ]
  ]
]
