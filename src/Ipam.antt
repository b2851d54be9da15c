-- ===== src/Ipam.antt =====
-- pkg/networkservice/ipam/point2pointipam: the server of server.go and `exclude` of tools.go, over
-- the pools of IpPool. `none` is a crash of a pool, as there. The map of connections is a function;
-- the calls are one after another, and what the rest of the chain answers to a request is an argument.
pub mod Pairs
pub mod Release
pub mod Requests
use nsm_sdk.Prelude.{
  ℕ, zero, suc, ◌/◌, ◌^◌, List, [], ◌∷◌, Option, none, some, Bool, true, false, ◌&&◌, ◌||◌, ◌==◌,
  if◌then◌else◌, get_elem?, set, String, same,
}
use nsm_sdk.IpPool.Address.{Address, equal}
use nsm_sdk.IpPool.Pool.{Pool}
use nsm_sdk.IpPool.Pool.Access.{
  ◌>>=◌, Ip, IpNet, single, new, add_net, contains_address, pull_ip, pull_p2p,
}

-- A network that `net.ParseCIDR` reads has 4 bytes if its address is one of IPv4.
unfoldable pub bytes_of : Address → ℕ
bytes_of a = if (a.high == 0) && ((a.low / 2 ^ 32) == 65535) then 4 else 16

-- A string of the IP context: one that `net.IPNet.String` writes of a single address, or another one
-- with the address that `net.ParseCIDR` reads from it.
pub data Text : Type 0 where
  full : Address → Text
  other : String → Option Address → Text

unfoldable pub parse : Text → Option Address
parse (full a) = some a
parse (other s a?) = a?

unfoldable pub text_equal : Text → Text → Bool
text_equal (full a) (full b) = equal a b
text_equal (full a) (other t b?) = false
text_equal (other s a?) (full b) = false
text_equal (other s a?) (other t b?) = same s t

pub record IpContext : Type 0 where
  pub src_addrs : List Text
  pub dst_addrs : List Text
  pub src_routes : List Text
  pub dst_routes : List Text
  pub excluded : List (Option IpNet)

-- `connectionInfo`: the pool by its place among those of the server.
pub record Info : Type 0 where
  pub ip_pool : ℕ
  pub src_addr : Address
  pub dst_addr : Address

pub record Server : Type 0 where
  pub ip_pools : List Pool
  pub infos : String → Option Info

unfoldable pub should_update : Info → Pool → Bool
should_update i excluded =
    contains_address i.src_addr excluded || contains_address i.dst_addr excluded

-- `init`: the inner `none` is its error.
unfoldable pub init : List (Option IpNet) → Option (Option (List Pool))
init [] = some (some [])
init (none ∷ ps) = some none
init (some net ∷ ps) =
    let rest = init ps in
    add_net (some net) (new net.bytes) >>= λ p.
    rest >>= λ pools?. some (elim pools? [ none ↦ none | some pools ↦ some (p ∷ pools) ])

-- `exclude`
unfoldable pub add_nets : List (Option IpNet) → Pool → Option Pool
add_nets [] p = some p
add_nets (net ∷ nets) p = add_net net p >>= add_nets nets

unfoldable pub exclude_pools_of : List (Option IpNet) → Option (Pool × Pool)
unfolding add_nets
exclude_pools_of nets =
    add_nets nets (new 4) >>= λ ip4. add_nets nets (new 16) >>= λ ip6. some (ip4, ip6)

-- The first of the addresses that the pool gives by `PullIPString`.
unfoldable pub pull_first : List (Option Pool) → List Text → Pool → Option (Option Address × Pool)
unfolding parse
pull_first es [] p = some (none, p)
pull_first es (t ∷ ts) p = elim (parse t) [
  | none ↦ pull_first es ts p
  | some a ↦ pull_ip (some (record { bytes = 16; value = a })) es p >>= λ (r, q). elim r [
    | none ↦ pull_first es ts q
    | some ip ↦ some (some ip.value, q)
  ]
]

unfoldable pub recover_from :
    List (Option Pool) → List Text → List Text → ℕ → List Pool → Option (Option Info × List Pool)
unfolding pull_first
recover_from es srcs dsts k [] = some (none, [])
recover_from es srcs dsts k (p ∷ ps) =
    let rest = recover_from es srcs dsts (suc k) ps in
    pull_first es srcs p >>= λ (s, q). pull_first es dsts q >>= λ (d, q'). elim s [
      | none ↦ rest >>= λ (r, ps'). some (r, q' ∷ ps')
      | some a ↦ elim d [
        | none ↦ rest >>= λ (r, ps'). some (r, q' ∷ ps')
        | some b ↦ some (some (record { ip_pool = k; src_addr = a; dst_addr = b }), q' ∷ ps)
      ]
    ]

abbrev pub is_nil {ℓ} : {A : Type ℓ} → List A → Bool
is_nil [] = true
is_nil (x ∷ xs) = false

unfoldable pub recover_addrs :
    List (Option Pool) → List Text → List Text → List Pool → Option (Option Info × List Pool)
unfolding recover_from
recover_addrs es srcs dsts ps =
    if is_nil srcs || is_nil dsts then some (none, ps) else recover_from es srcs dsts 0 ps

-- `getP2PAddrs`: the pool gives the address of the destination first.
unfoldable pub get_p2p_addrs : List (Option Pool) → ℕ → List Pool → Option (Option Info × List Pool)
get_p2p_addrs es k [] = some (none, [])
get_p2p_addrs es k (p ∷ ps) =
    let rest = get_p2p_addrs es (suc k) ps in
    pull_p2p es p >>= λ (r, q). elim r [
      | none ↦ rest >>= λ (r', ps'). some (r', q ∷ ps')
      | some (dst, src) ↦
          some (some (record { ip_pool = k; src_addr = src; dst_addr = dst }), q ∷ ps)
    ]

-- `free`: each address is added as a string of its own network.
unfoldable pub free_in : Info → Pool → Option Pool
unfolding bytes_of
free_in i p =
    add_net (some (record { bytes = bytes_of i.src_addr; range = single i.src_addr })) p
    >>= add_net (some (record { bytes = bytes_of i.dst_addr; range = single i.dst_addr }))

unfoldable pub free : Info → List Pool → Option (List Pool)
unfolding free_in
free i ps = elim (get_elem? ps i.ip_pool) [
  | none ↦ none
  | some p ↦ free_in i p >>= λ q. some (set ps i.ip_pool q)
]

abbrev pub store : String → Info → (String → Option Info) → String → Option Info
store id i m j = if same id j then some i else m j

abbrev pub forget : String → (String → Option Info) → String → Option Info
forget id m j = if same id j then none else m j

-- `Close`, up to the call of the rest of the chain.
unfoldable pub close : String → Server → Option Server
unfolding free
close id s = elim (s.infos id) [
  | none ↦ some s
  | some i ↦ free i s.ip_pools >>= λ ps. some (record { ip_pools = ps; infos = forget id s.infos })
]

-- `addAddr`, `addRoute` and `deleteAddr`, `deleteRoute`.
unfoldable pub add_text : Text → List Text → List Text
unfolding text_equal
add_text t [] = t ∷ []
add_text t (u ∷ us) = let rest = add_text t us in if text_equal u t then u ∷ us else u ∷ rest

unfoldable pub delete_text : Text → List Text → List Text
unfolding text_equal
delete_text t [] = []
delete_text t (u ∷ us) = let rest = delete_text t us in if text_equal u t then us else u ∷ rest

unfoldable pub add_info : Info → IpContext → IpContext
unfolding add_text
add_info i c = record c {
  src_addrs = add_text (full i.src_addr) c.src_addrs;
  src_routes = add_text (full i.dst_addr) c.src_routes;
  dst_addrs = add_text (full i.dst_addr) c.dst_addrs;
  dst_routes = add_text (full i.src_addr) c.dst_routes;
}

unfoldable pub delete_info : Info → IpContext → IpContext
unfolding delete_text
delete_info i c = record c {
  src_addrs = delete_text (full i.src_addr) c.src_addrs;
  dst_addrs = delete_text (full i.dst_addr) c.dst_addrs;
  src_routes = delete_text (full i.dst_addr) c.src_routes;
  dst_routes = delete_text (full i.src_addr) c.dst_routes;
}

-- The answer to a request, `none` an error, and the server after it.
abbrev pub Answer : Type 0
Answer = Option (Option IpContext × Server)

-- The end of `Request` once there is an info: the rest of the chain, and its error.
unfoldable pub finish : Bool → Bool → Info → IpContext → Server → Answer
unfolding add_info free
finish next_ok loaded i c s =
    if next_ok
    then some (some (add_info i c), s)
    else if loaded
    then some (none, s)
    else free i s.ip_pools >>= (λ ps. some (none, record s { ip_pools = ps }))

unfoldable pub allocate : Bool → List (Option Pool) → String → IpContext → Server → Answer
unfolding recover_addrs get_p2p_addrs finish
allocate next_ok es id c s = recover_addrs es c.src_addrs c.dst_addrs s.ip_pools >>= λ (r, ps).
    elim r [
      | some i ↦ finish next_ok false i c (record { ip_pools = ps; infos = store id i s.infos })
      | none ↦ get_p2p_addrs es 0 ps >>= λ (r', ps'). elim r' [
        | none ↦ some (none, record s { ip_pools = ps' })
        | some i ↦ finish next_ok false i c (record { ip_pools = ps'; infos = store id i s.infos })
      ]
    ]

-- `Request` of an initialised server.
unfoldable pub request : Bool → String → IpContext → Server → Answer
unfolding exclude_pools_of should_update delete_info free allocate finish
request next_ok id c s = exclude_pools_of c.excluded >>= λ (ip4, ip6). elim (s.infos id) [
  | none ↦ allocate next_ok (some ip4 ∷ some ip6 ∷ []) id c s
  | some i ↦
      if should_update i ip4 || should_update i ip6
      then free i s.ip_pools >>= (λ ps.
        allocate next_ok (some ip4 ∷ some ip6 ∷ []) id (delete_info i c)
          (record s { ip_pools = ps }))
      else finish next_ok true i c s
]
