-- ===== src/SinglePointIpam.antt =====
-- pkg/networkservice/ipam/singlepointipam/server.go: the server that gives a connection one address,
-- over the pools of IpPool. `none` is a crash, an index out of range, or fuel that ran out; an inner
-- `none` is an error. The text of an address with the mask of its prefix is the argument `text`; the
-- map of connections is a function, and what the rest of the chain answers is an argument.
pub mod Leaks
use nsm_sdk.Prelude.{
  ℕ, zero, suc, ◌+◌, ◌^◌, List, [], ◌∷◌, ◌++◌, Option, none, some, Bool, true, false, not, ◌==◌,
  ◌&&◌, ◌||◌, leb, if◌then◌else◌, length, get_elem?, set, String, same,
}
use nsm_sdk.IpPool.Address.{Address}
use nsm_sdk.IpPool.Pool.{Pool}
use nsm_sdk.IpPool.Pool.Access.{
  ◌>>=◌, Ip, IpNet, single, new, add_net, contains_address, pull, pull_ip,
}
use nsm_sdk.Ipam.{bytes_of, exclude_pools_of}

-- The pool by its place among those of the server.
pub record Info : Type 0 where
  pub ip_pool : ℕ
  pub src_addr : Address
  pub dst_addr : Address

pub record Server : Type 0 where
  pub ip_pools : List Pool
  pub masks : List ℕ
  pub my_ips : List Address
  pub infos : String → Option Info

pub record IpContext : Type 0 where
  pub src_addrs : List String
  pub dst_addrs : List String
  pub excluded : List (Option IpNet)

unfoldable pub should_update : Info → Pool → Bool
should_update i excluded =
    contains_address i.src_addr excluded || contains_address i.dst_addr excluded

-- The pool of a prefix: the broadcast address of one of IPv4, `broadcast`, is pulled.
unfoldable pub init_pool : IpNet → Address → Option (Option Pool)
unfolding bytes_of
init_pool net broadcast = add_net (some net) (new net.bytes) >>= λ p.
    if bytes_of net.range.start == 4
    then pull_ip (some (record { bytes = 16; value = broadcast })) [] p
      >>= (λ (r, q). elim r [ none ↦ some none | some ip ↦ some (some q) ])
    else some (some p)

-- An address that one of the two pools of excluded addresses has.
unfoldable pub is_excluded : Pool → Pool → Address → Bool
is_excluded ip4 ip6 a = contains_address a ip4 || contains_address a ip6

abbrev pub with_pool : ℕ → Pool → Server → Server
with_pool i p s = record s { ip_pools = set s.ip_pools i p }

-- `setMyIP`: whether the pool has given an address.
unfoldable pub set_my_ip : ℕ → Server → Option (Bool × Server)
set_my_ip i s = elim (get_elem? s.ip_pools i) [
  | none ↦ none
  | some p ↦ pull p >>= λ (a?, q). elim a? [
    | none ↦ some (false, with_pool i q s)
    | some a ↦ some (
      true,
      record (with_pool i q s) {
        my_ips = if leb (length s.my_ips) i then s.my_ips ++ a ∷ [] else set s.my_ips i a;
      },
    )
  ]
]

-- The first inner loop of `getAddrs`: the address of the endpoint itself.
unfoldable pub dst_loop : ℕ → ℕ → Pool → Pool → Server → Option (Option Address × Server)
unfolding set_my_ip
dst_loop zero i ip4 ip6 s = none
dst_loop (suc n) i ip4 ip6 s = elim (get_elem? s.my_ips i) [
  | none ↦ none
  | some a ↦ elim (is_excluded ip4 ip6 a) [
    | false ↦ some (some a, s)
    | true ↦ set_my_ip i s >>= λ (ok, t). elim ok [
      | true ↦ dst_loop n i ip4 ip6 t
      | false ↦ some (none, t)
    ]
  ]
]

-- The second inner loop: addresses are pulled until one is not excluded and there is one for the
-- endpoint.
unfoldable pub src_loop : ℕ → Bool → Pool → Pool → Pool → Option (Option Address × Pool)
src_loop zero dst_set ip4 ip6 p = none
src_loop (suc n) dst_set ip4 ip6 p = pull p >>= λ (a?, q). elim a? [
  | none ↦ some (none, q)
  | some a ↦ elim (not (is_excluded ip4 ip6 a) && dst_set) [
    | true ↦ some (some a, q)
    | false ↦ src_loop n dst_set ip4 ip6 q
  ]
]

-- A pool of addresses of 128 bits gives no more addresses than these.
abbrev pub fuel : ℕ
fuel = 2 ^ 128 + 2

-- The body of the loop of `getAddrs` at a prefix with an address of the endpoint.
unfoldable pub get_addr : ℕ → Pool → Pool → Server → Option (Option Info × Server)
unfolding dst_loop src_loop
get_addr i ip4 ip6 s = dst_loop fuel i ip4 ip6 s >>= λ (dst?, t). elim (get_elem? t.ip_pools i) [
  | none ↦ none
  | some p ↦ elim dst? [
    | none ↦ src_loop fuel false ip4 ip6 p >>= λ (src?, q). some (none, with_pool i q t)
    | some dst ↦ src_loop fuel true ip4 ip6 p >>= λ (src?, q). elim src? [
      | none ↦ some (none, with_pool i q t)
      | some src ↦
          some (some (record { ip_pool = i; src_addr = src; dst_addr = dst }), with_pool i q t)
    ]
  ]
]

-- `getAddrs` over the prefixes that are left, the first argument.
unfoldable pub get_addrs : ℕ → ℕ → Pool → Pool → Server → Option (Option Info × Server)
unfolding get_addr set_my_ip
get_addrs zero i ip4 ip6 s = some (none, s)
get_addrs (suc k) i ip4 ip6 s = elim (leb (length s.my_ips) i) [
  | true ↦ set_my_ip i s >>= λ (ok, t). elim ok [
    | false ↦ get_addrs k (suc i) ip4 ip6 t
    | true ↦ get_addr i ip4 ip6 t >>= λ (r, u). elim r [
      | none ↦ get_addrs k (suc i) ip4 ip6 u
      | some x ↦ some (some x, u)
    ]
  ]
  | false ↦ get_addr i ip4 ip6 s >>= λ (r, u). elim r [
    | none ↦ get_addrs k (suc i) ip4 ip6 u
    | some x ↦ some (some x, u)
  ]
]

-- `free`: the source address is added.
unfoldable pub free : Info → Server → Option Server
free i s = elim (get_elem? s.ip_pools i.ip_pool) [
  | none ↦ none
  | some p ↦
      add_net (some (record { bytes = bytes_of i.src_addr; range = single i.src_addr })) p >>= λ q.
      some (with_pool i.ip_pool q s)
]

-- `Close`, up to the call of the rest of the chain: the entry stays in the map.
unfoldable pub close : String → Server → Option Server
unfolding free
close id s = elim (s.infos id) [ none ↦ some s | some i ↦ free i s ]

unfoldable pub add_addr : String → List String → List String
add_addr t [] = t ∷ []
add_addr t (u ∷ us) = let rest = add_addr t us in if same u t then u ∷ us else u ∷ rest

unfoldable pub delete_addr : String → List String → List String
delete_addr t [] = []
delete_addr t (u ∷ us) = let rest = delete_addr t us in if same u t then us else u ∷ rest

abbrev pub Answer : Type 0
Answer = Option (Option IpContext × Server)

-- The end of `Request` once there is an info: the rest of the chain, and its error.
unfoldable pub finish : (ℕ → Address → String) → Bool → Bool → Info → IpContext → Server → Answer
unfolding add_addr free
finish text next_ok loaded i c s =
    if next_ok
    then some (some (record c { src_addrs = add_addr (text i.ip_pool i.src_addr) c.src_addrs }), s)
    else if loaded
    then some (none, s)
    else free i s >>= λ t. some (none, t)

abbrev pub store : String → Info → Server → Server
store id i s = record s { infos = λ k. if same id k then some i else s.infos k }

unfoldable pub allocate :
    (ℕ → Address → String) → Bool → Pool → Pool → String → IpContext → Server → Answer
unfolding get_addrs finish
allocate text next_ok ip4 ip6 id c s = get_addrs (length s.ip_pools) 0 ip4 ip6 s >>= λ (r, t).
    elim r [ none ↦ some (none, t) | some i ↦ finish text next_ok false i c (store id i t) ]

abbrev pub without : (ℕ → Address → String) → Info → IpContext → IpContext
without text i c = record c {
  src_addrs = delete_addr (text i.ip_pool i.src_addr) c.src_addrs;
  dst_addrs = delete_addr (text i.ip_pool i.dst_addr) c.dst_addrs;
}

-- `Request` of an initialised server.
unfoldable pub request : (ℕ → Address → String) → Bool → String → IpContext → Server → Answer
unfolding should_update delete_addr free allocate finish
request text next_ok id c s = exclude_pools_of c.excluded >>= λ (ip4, ip6). elim (s.infos id) [
  | none ↦ allocate text next_ok ip4 ip6 id c s
  | some i ↦
      if should_update i ip4 || should_update i ip6
      then free i s >>= (λ t. allocate text next_ok ip4 ip6 id (without text i c) t)
      else finish text next_ok true i c s
]
