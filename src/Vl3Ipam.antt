-- ===== src/Vl3Ipam.antt =====
-- pkg/ipam/vl3ipam/server.go: the server that hands out prefixes of one pool to the clients of a vL3
-- network. `none` is a crash of the pool, as in IpPool. A session is the list of the messages of its
-- client, up to the error that ends it; a response is always sent.
pub mod Grants
use nsm_sdk.Prelude.{
  ℕ, ◌+◌, ◌-◌, ◌*◌, ◌/◌, ◌%◌, ◌^◌, List, [], ◌∷◌, ◌++◌, Option, none, some, Bool, true, false, ltb,
  ◌==◌, ◌&&◌, if◌then◌else◌, String, same,
}
use nsm_sdk.IpPool.Address.{Address, num, equal}
use nsm_sdk.IpPool.Range.{Range}
use nsm_sdk.IpPool.Pool.{Pool}
use nsm_sdk.IpPool.Pool.Access.{◌>>=◌, IpNet, clone, add_net, exclude, contains_net, pull}
use nsm_sdk.Ipam.{bytes_of}

-- The network of `bits` host bits around an address.
unfoldable pub block : ℕ → Address → Range
block bits a =
    let first = num a / 2 ^ bits * 2 ^ bits in
    let last = first + 2 ^ bits - 1 in
    record {
      start = record { high = first / 2 ^ 64; low = first % 2 ^ 64 };
      end = record { high = last / 2 ^ 64; low = last % 2 ^ 64 };
    }

-- A prefix: one that the server writes of an address with the size of its mask and the bytes of the
-- address, or another string with the network that `net.ParseCIDR` reads from it.
pub data Prefix : Type 0 where
  written : Address → ℕ → ℕ → Prefix
  given : String → Option IpNet → Prefix

-- A mask that is too long for its address is no mask, and its network is not read.
unfoldable pub net_of : Prefix → Option IpNet
unfolding block bytes_of
net_of (given s net) = net
net_of (written a size bytes) =
    if ltb (bytes * 8) size
    then none
    else some (record { bytes = bytes_of a; range = block (bytes * 8 - size) a })

unfoldable pub exclude_all : List (Option IpNet) → Pool → Option Pool
exclude_all [] p = some p
exclude_all (net ∷ nets) p = exclude net p >>= exclude_all nets

-- The prefix is taken from the pool.
unfoldable pub grant : Prefix → Pool → Option (Option Prefix × Pool)
unfolding net_of
grant prefix p = exclude (net_of prefix) p >>= λ q. some (some prefix, q)

-- `allocate`: the inner `none` is the error that the pool is empty.
unfoldable pub allocate : ℕ → Prefix → List (Option IpNet) → Pool → Option (Option Prefix × Pool)
unfolding exclude_all grant net_of
allocate size wanted excluded p = exclude_all excluded (clone p) >>= λ q.
    if contains_net (net_of wanted) p
    then grant wanted p
    else pull q >>= λ (a?, q'). elim a? [
      | none ↦ some (none, p)
      | some a ↦ grant (written a size p.ip_length) p
    ]

unfoldable pub delete : Prefix → Pool → Option Pool
unfolding net_of
delete prefix p = add_net (net_of prefix) p

pub data Message : Type 0 where
  undefined : Message
  allocation : Prefix → List (Option IpNet) → Message
  deletion : Prefix → Message

abbrev pub prefix_equal : Prefix → Prefix → Bool
prefix_equal (written a s b) (written c t d) = equal a c && (s == t) && (b == d)
prefix_equal (written a s b) (given t net) = false
prefix_equal (given s net) (written a t b) = false
prefix_equal (given s net) (given t net') = same s t

-- The first prefix of the client that is equal, taken out of the list.
unfoldable pub take_prefix : Prefix → List Prefix → Option (List Prefix)
take_prefix x [] = none
take_prefix x (y ∷ ys) =
    let rest = take_prefix x ys in
    if prefix_equal y x then some ys else elim rest [ none ↦ none | some zs ↦ some (y ∷ zs) ]

unfoldable pub return_all : List Prefix → Pool → Option Pool
unfolding net_of
return_all [] p = some p
return_all (x ∷ xs) p = add_net (net_of x) p >>= return_all xs

-- `ManagePrefixes`: the pool after a session of which the client holds the given prefixes. After a
-- message of no type the server returns at once.
unfoldable pub manage : ℕ → List Message → List Prefix → Pool → Option Pool
unfolding allocate delete take_prefix return_all
manage size [] held p = return_all held p
manage size (undefined ∷ ms) held p = some p
manage size (allocation wanted excluded ∷ ms) held p =
    allocate size wanted excluded p >>= λ (x?, q). elim x? [
      | none ↦ return_all held q
      | some x ↦ manage size ms (held ++ x ∷ []) q
    ]
manage size (deletion x ∷ ms) held p = elim (take_prefix x held) [
  | none ↦ manage size ms held p
  | some rest ↦ delete x p >>= manage size ms rest
]
