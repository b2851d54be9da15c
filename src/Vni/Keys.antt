-- ===== src/Vni/Keys.antt =====
-- The keys of the VNI server of pkg/networkservice/common/mechanisms/vxlan/vni/server.go: drawing,
-- giving back, and sharing one.
use nsm_sdk.Prelude.{
  ℕ, ◌≡◌, ◌≢◌, inl, inr, refl, sym, ◌∙◌, ap, arith, map, get_elem?, zero, suc, List, [], ◌∷◌,
  Option, none, some, Bool, true, false, ◌==◌, String, same, same→≡, ≡→same, Bool-cases, ==_iff,
}
use nsm_sdk.Vni.{
  VniKey, Mechanism, VniServer, Answer, same_key, holds, store_key, delete_key, generate, finish,
  has_vni, remember, assign, request, close, with_dst, forget, write, load_or_store, is_loaded,
}

same_key_refl : (k : VniKey) → same_key k k ≡ true
same_key_refl k = rw (≡→same k.src_ip_string k.src_ip_string refl, (==_iff k.vni k.vni).1 refl) refl

holds-delete_key : (k : VniKey) (ls : List VniKey) → holds k (delete_key k ls) ≡ false
unfolding holds delete_key
holds-delete_key k [] = refl
holds-delete_key k (l ∷ ls) = elim (Bool-cases (same_key l k)) [
  | inl e ↦ rw (e) (holds-delete_key k ls)
  | inr e ↦ rw (e, e) (holds-delete_key k ls)
]

holds-tail :
    (k l : VniKey) (ls : List VniKey)
    → holds k (l ∷ ls) ≡ false
    → (same_key l k ≡ false) × (holds k ls ≡ false)
unfolding holds
holds-tail k l ls h = elim (Bool-cases (same_key l k)) [
  | inl e ↦ absurd (true≢false (sym (rw (e) refl) ∙ h))
  | inr e ↦ (e, sym (rw (e) refl) ∙ h)
]
  where
    true≢false : true ≡ false → ⊥
    true≢false e = cc

delete-fresh : (k : VniKey) (ls : List VniKey) → holds k ls ≡ false → delete_key k ls ≡ ls
unfolding delete_key
delete-fresh k [] h = refl
delete-fresh k (l ∷ ls) h =
    let (e, f) = holds-tail k l ls h in rw (e) (ap (λ xs. l ∷ xs) (delete-fresh k ls f))

holds-store : (k : VniKey) (ls : List VniKey) → holds k ls ≡ false → holds k (store_key k ls) ≡ true
unfolding holds store_key
holds-store k ls h = rw (h, same_key_refl k) refl

delete-store :
    (k : VniKey) (ls : List VniKey) → holds k ls ≡ false → delete_key k (store_key k ls) ≡ ls
unfolding store_key delete_key
delete-store k ls h = rw (h, same_key_refl k) (delete-fresh k ls h)

abbrev pub key : String → ℕ → VniKey
key ip v = record { src_ip_string = ip; vni = v }

-- A mechanism with its source address and a VNI, 0 for none.
abbrev pub from : String → ℕ → Mechanism → Mechanism
from ip v m = record m { src_ip = some ip; vni = v }

-- The loop stops at the first VNI that is not in use, if the generator comes to one.
generate_lem :
    (vs : List ℕ) (i w : ℕ) (ip : String) (ls : List VniKey)
    → get_elem? vs i ≡ some w
    → holds (key ip w) ls ≡ false
    → (j v : ℕ) × (get_elem? vs j ≡ some v)
      × (holds (key ip v) ls ≡ false)
      × (generate (map some vs) ip ls ≡ some (some v))
unfolding generate
generate_lem [] i w ip ls g h = absurd cc
generate_lem (v ∷ vs) zero w ip ls g h = let n = holds_at g h in (0, v, refl, n, rw (n) refl)
  where
    holds_at : some v ≡ some w → holds (key ip w) ls ≡ false → holds (key ip v) ls ≡ false
    holds_at e f = cc
generate_lem (v ∷ vs) (suc i) w ip ls g h = elim (Bool-cases (holds (key ip v) ls)) [
  | inr e ↦ (0, v, refl, e, rw (e) refl)
  | inl e ↦ let (j, x, y, f, r) = generate_lem vs i w ip ls g h in (suc j, x, y, f, rw (e) r)
]

rewrite_none :
    (id : String) (v : ℕ) (f : String → Option ℕ)
    → f id ≡ none
    → (k : String) → write id none (write id (some v) f) k ≡ f k
rewrite_none id v f h k = elim (Bool-cases (same id k)) [
  | inl e ↦ rw (e) (sym h ∙ ap f (same→≡ id k e))
  | inr e ↦ rw (e) refl
]

positive : (v : ℕ) → v ≢ 0 → (v == 0) ≡ false
positive v n = ground arith

-- The server behind a VNI that was drawn.
abbrev given : String → String → ℕ → VniServer → VniServer
given id ip v s = record s {
  keys = store_key (key ip v) s.keys;
  metadata = write id (some v) s.metadata;
}

drawn :
    (draws : List (Option ℕ)) (next_ok : Bool) (id ip : String) (v : ℕ) (m : Mechanism)
    (s : VniServer)
    → generate draws ip s.keys ≡ some (some v)
    → s.metadata id ≡ none
    → request draws next_ok id (some (from ip 0 m)) s
      ≡ some (finish next_ok id false (key ip v) (with_dst s (from ip v m)) (given id ip v s))
unfolding request has_vni assign
drawn draws next_ok id ip v m s g n = rw (assign, n, g) refl

-- A request without a VNI, of a connection that is not known yet, is given one that no connection
-- with its source address holds, provided that one of the numbers drawn is free: the loop stops. It
-- is then in use, and kept for the connection. A `Close` with the mechanism that the request gave
-- leaves the keys and the metadata as they were before; numbers drawn are not 0.
pub request-close_vni :
    (vs : List ℕ) (i w : ℕ) (id ip : String) (m : Mechanism) (s : VniServer)
    → get_elem? vs i ≡ some w
    → holds (key ip w) s.keys ≡ false
    → ((j v : ℕ) → get_elem? vs j ≡ some v → v ≢ 0)
    → s.metadata id ≡ none
    → (v : ℕ) × (t : VniServer) × (request (map some vs) true id (some (from ip 0 m)) s
        ≡ some
            (record { accepted = true; mechanism = some (with_dst s (from ip v m)); server = t }))
      × (holds (key ip v) s.keys ≡ false)
      × (holds (key ip v) t.keys ≡ true)
      × (t.metadata id ≡ some v)
      × ((close id (some (with_dst s (from ip v m))) t).keys ≡ s.keys)
      × ((k : String) → (close id (some (with_dst s (from ip v m))) t).metadata k ≡ s.metadata k)
unfolding finish close has_vni
request-close_vni vs i w id ip m s g h u n =
    let (j, v, there, free, r) = generate_lem vs i w ip s.keys g h in
    (
      v,
      given id ip v s,
      drawn (map some vs) true id ip v m s r n,
      free,
      holds-store (key ip v) s.keys free,
      rw (≡→same id id refl) refl,
      rw (positive v (u j v there)) (delete-store (key ip v) s.keys free),
      rw (positive v (u j v there)) (rewrite_none id v s.metadata n),
    )

-- When the rest of the chain refuses such a request, the VNI is given back at once.
pub request-refused_vni :
    (vs : List ℕ) (i w : ℕ) (id ip : String) (m : Mechanism) (s : VniServer)
    → get_elem? vs i ≡ some w
    → holds (key ip w) s.keys ≡ false
    → s.metadata id ≡ none
    → (a : Answer) × (request (map some vs) false id (some (from ip 0 m)) s ≡ some a)
      × (a.accepted ≡ false)
      × (a.server.keys ≡ s.keys)
      × ((k : String) → a.server.metadata k ≡ s.metadata k)
unfolding finish
request-refused_vni vs i w id ip m s g h n =
    let (j, v, there, free, r) = generate_lem vs i w ip s.keys g h in
    (
      finish false id false (key ip v) (with_dst s (from ip v m)) (given id ip v s),
      drawn (map some vs) false id ip v m s r n,
      refl,
      delete-store (key ip v) s.keys free,
      rewrite_none id v s.metadata n,
    )

-- A connection that is not known yet may ask for a VNI that another one with the same source address
-- holds. When the rest of the chain refuses the request, the key is deleted, although the other
-- connection has the VNI still: it is no longer in use, and is the next one given if it is the next
-- one drawn.
pub request_refused-generate :
    (draws ds : List (Option ℕ)) (id ip : String) (v : ℕ) (m : Mechanism) (s : VniServer)
    → v ≢ 0
    → s.metadata id ≡ none
    → holds (key ip v) s.keys ≡ true
    → (a : Answer) × (request draws false id (some (from ip v m)) s ≡ some a)
      × (holds (key ip v) a.server.keys ≡ false)
      × ((k : String) → same id k ≡ false → a.server.metadata k ≡ s.metadata k)
      × (generate (some v ∷ ds) ip a.server.keys ≡ some (some v))
unfolding request has_vni remember finish generate store_key load_or_store
request_refused-generate draws ds id ip v m s z n h =
    let gone = holds-delete_key (key ip v) s.keys in
    (
      record {
        accepted = false;
        mechanism = some (with_dst s (from ip v m));
        server = forget id (key ip v) (record s { metadata = write id (some v) s.metadata });
      },
      rw (positive v z, remember, is_loaded, load_or_store, n, h) refl,
      gone,
      λ k e. rw (e) refl,
      rw (gone) refl,
    )
