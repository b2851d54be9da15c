-- ===== src/Tests/Drawing.antt =====
-- The theorems on the VNI server at samples.
use nsm_sdk.Prelude.{
  ◌≡◌, ◌≢◌, ℕ, zero, suc, refl, arith, [], ◌∷◌, none, some, true, false, String, same, get_elem?,
}
use nsm_sdk.Vni.{Mechanism, VniServer, Answer, holds, request, close, generate, with_dst}
use nsm_sdk.Vni.Keys.{key, from, request-close_vni, request_refused-generate}

abbrev mechanism : Mechanism
mechanism = record { src_ip = none; dst_ip = ""; dst_port = 0; vni = 0 }

abbrev server : VniServer
server = record {
  tunnel_ip = "192.0.2.2";
  tunnel_port = 4789;
  keys = key "192.0.2.1" 5 ∷ [];
  metadata = λ k. none;
}

five_used : holds (key "192.0.2.1" 5) server.keys ≡ true
unfolding holds
five_used = refl

seven_free : holds (key "192.0.2.1" 7) server.keys ≡ false
unfolding holds
seven_free = refl

not_zero : (u v : ℕ) → u ≢ 0 → some u ≡ some v → v ≢ 0
not_zero u v n e z = n (same_number e z)
  where
    same_number : some u ≡ some v → v ≡ 0 → u ≡ 0
    same_number a b = cc

positive : (j v : ℕ) → get_elem? (5 ∷ 7 ∷ []) j ≡ some v → v ≢ 0
positive zero v h = not_zero 5 v (λ e. omega arith) h
positive (suc zero) v h = not_zero 7 v (λ e. omega arith) h
positive (suc (suc j)) v h = absurd cc

request-close_vni_example :
    (v : ℕ) × (t : VniServer) × (request
        (some 5 ∷ some 7 ∷ [])
        true
        "1"
        (some (from "192.0.2.1" 0 mechanism))
        server
      ≡ some (record {
        accepted = true;
        mechanism = some (with_dst server (from "192.0.2.1" v mechanism));
        server = t;
      }))
    × (holds (key "192.0.2.1" v) server.keys ≡ false)
    × (holds (key "192.0.2.1" v) t.keys ≡ true)
    × (t.metadata "1" ≡ some v)
    × ((close "1" (some (with_dst server (from "192.0.2.1" v mechanism))) t).keys ≡ server.keys)
    × ((k : String)
        → (close "1" (some (with_dst server (from "192.0.2.1" v mechanism))) t).metadata k
          ≡ server.metadata k)
request-close_vni_example =
    request-close_vni (5 ∷ 7 ∷ []) 1 7 "1" "192.0.2.1" mechanism server refl seven_free positive
      refl

request_refused-generate_example :
    (a : Answer) × (request [] false "1" (some (from "192.0.2.1" 5 mechanism)) server ≡ some a)
    × (holds (key "192.0.2.1" 5) a.server.keys ≡ false)
    × ((k : String) → same "1" k ≡ false → a.server.metadata k ≡ server.metadata k)
    × (generate (some 5 ∷ []) "192.0.2.1" a.server.keys ≡ some (some 5))
request_refused-generate_example =
    request_refused-generate [] [] "1" "192.0.2.1" 5 mechanism server (λ e. omega arith) refl
      five_used
