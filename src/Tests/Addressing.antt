-- ===== src/Tests/Addressing.antt =====
-- The theorems on the IPAM server at a sample server.
use nsm_sdk.Prelude.{
  ℕ, ◌/◌, ◌^◌, ◌≤◌, ◌<◌, ◌≡◌, ◌↔◌, ◌⊎◌, inl, inr, refl, arith, [], ◌∷◌, none, some, true, false,
  get_elem?, set,
}
use nsm_sdk.IpPool.Address.{Address, IsWord, num}
use nsm_sdk.IpPool.Tree.{to_list}
use nsm_sdk.IpPool.Pool.{Pool}
use nsm_sdk.IpPool.Pool.Valid.{Has, IsPool}
use nsm_sdk.Ipam.{bytes_of, IpContext, Info, Server, close, add_info, request}
use nsm_sdk.Ipam.Release.{Fits, close_lem}
use nsm_sdk.Ipam.Requests.{Same, Families, New, request-close, request_failed}
use nsm_sdk.Tests.{ip4, ip4-IsWord, three, three-IsPool}

abbrev empty_context : IpContext
empty_context = record {
  src_addrs = [];
  dst_addrs = [];
  src_routes = [];
  dst_routes = [];
  excluded = none ∷ [];
}

abbrev server : Server
server = record { ip_pools = three ∷ []; infos = λ id. none }

four_bytes :
    (a : Address) → IsWord a → 281470681743360 ≤ num a → num a < 281474976710656 → bytes_of a ≡ 4
unfolding bytes_of
four_bytes a w h k =
    let high : a.high ≡ 0 = omega (arith, w.low_lt) in
    let low : a.low / 2 ^ 32 ≡ 65535 = omega arith in rw (high, low) refl

three-Families : Families (three ∷ [])
unfolding to_list
three-Families = (
  (λ a w m. elim m [
    | inl h ↦ four_bytes a w (omega arith) (omega arith)
    | inr k ↦ elim k [
      | inl h ↦ four_bytes a w (omega arith) (omega arith)
      | inr n ↦ elim n [ inl h ↦ four_bytes a w (omega arith) (omega arith) | inr o ↦ absurd o ]
    ]
  ]),
  tt,
)

server-New : New "id" empty_context server
server-New = record {
  unknown = refl;
  no_addrs = refl;
  excluded = tt;
  valid = (three-IsPool, tt);
  families = three-Families;
}

request-close_example :
    (request true "id" empty_context server ≡ some (none, server))
    ⊎ ((i : Info) × (t : Server) × (request true "id" empty_context server
          ≡ some (some (add_info i empty_context), t))
        × (t.infos "id" ≡ some i)
        × ((u : Server) × (close "id" t ≡ some u)
            × (u.infos "id" ≡ none)
            × Same (three ∷ []) u.ip_pools))
request-close_example = request-close "id" empty_context server server-New

request_failed_example :
    (t : Server) × (request false "id" empty_context server ≡ some (none, t))
    × Same (three ∷ []) t.ip_pools
    × ((t ≡ server)
        ⊎ ((i : Info) × (p : Pool) × (t.infos "id" ≡ some i)
            × (get_elem? t.ip_pools i.ip_pool ≡ some p)
            × Has p (num i.src_addr)
            × Has p (num i.dst_addr)))
request_failed_example = request_failed "id" empty_context server server-New

abbrev info : Info
info = record { ip_pool = 0; src_addr = ip4 1; dst_addr = ip4 2 }

abbrev busy : Server
busy = record { ip_pools = three ∷ []; infos = λ id. some info }

info-Fits : Fits info three
unfolding bytes_of
info-Fits = record {
  src_word = ip4-IsWord 1 (omega arith);
  dst_word = ip4-IsWord 2 (omega arith);
  src_bytes = refl;
  dst_bytes = refl;
}

close_lem_example :
    (q : Pool) × (t : Server) × (close "id" busy ≡ some t)
    × (t.ip_pools ≡ set (three ∷ []) 0 q)
    × (t.infos "id" ≡ none)
    × IsPool q
    × ((n : ℕ) → Has q n ↔ ((n ≡ num (ip4 1)) ⊎ (n ≡ num (ip4 2)) ⊎ Has three n))
    × (close "id" t ≡ some t)
close_lem_example = close_lem "id" busy info three refl refl info-Fits three-IsPool
