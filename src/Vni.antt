-- ===== src/Vni.antt =====
-- pkg/networkservice/common/mechanisms/vxlan/vni/server.go with metadata.go beside it: the server
-- that gives a VXLAN mechanism its VNI. The map of keys is a list without order, the metadata of the
-- connections one function of their ids, and an address its text, where `none` is a nil address.
-- What `GenerateRandomVNI` of the API answers, call by call, and whether the rest of the chain
-- accepts the request are arguments. `none` is a loop that still draws behind the last answer.
pub mod Keys
use nsm_sdk.Prelude.{
  ℕ, List, [], ◌∷◌, Option, none, some, Bool, true, false, not, ◌==◌, ◌&&◌, if◌then◌else◌, String,
  same,
}

pub record VniKey : Type 0 where
  pub src_ip_string : String
  pub vni : ℕ

pub record Mechanism : Type 0 where
  pub src_ip : Option String
  pub dst_ip : String
  pub dst_port : ℕ
  pub vni : ℕ

pub record VniServer : Type 0 where
  pub tunnel_ip : String
  pub tunnel_port : ℕ
  pub keys : List VniKey
  pub metadata : String → Option ℕ

abbrev pub to_string : Option String → String
to_string none = "<nil>"
to_string (some t) = t

abbrev pub key_of : Mechanism → VniKey
key_of m = record { src_ip_string = to_string m.src_ip; vni = m.vni }

abbrev pub same_key : VniKey → VniKey → Bool
same_key k l = same k.src_ip_string l.src_ip_string && (k.vni == l.vni)

-- The operations of the map.
unfoldable pub holds : VniKey → List VniKey → Bool
holds k [] = false
holds k (l ∷ ls) = let rest = holds k ls in if same_key l k then true else rest

unfoldable pub store_key : VniKey → List VniKey → List VniKey
unfolding holds
store_key k ls = if holds k ls then ls else k ∷ ls

unfoldable pub delete_key : VniKey → List VniKey → List VniKey
delete_key k [] = []
delete_key k (l ∷ ls) = let rest = delete_key k ls in if same_key l k then rest else l ∷ rest

-- `store` and `delete` of the metadata, and what `loadOrStore` leaves in it.
abbrev pub write : String → Option ℕ → (String → Option ℕ) → String → Option ℕ
write id v f i = if same id i then v else f i

unfoldable pub load_or_store : String → ℕ → (String → Option ℕ) → String → Option ℕ
load_or_store id v f = elim (f id) [ none ↦ write id (some v) f | some w ↦ f ]

-- A connection is known when its metadata has a VNI.
abbrev pub is_loaded : String → VniServer → Bool
is_loaded id s = elim (s.metadata id) [ none ↦ false | some v ↦ true ]

-- The loop that draws a VNI: an answer `none` is the error of the generator.
unfoldable pub generate : List (Option ℕ) → String → List VniKey → Option (Option ℕ)
unfolding holds
generate [] ip ls = none
generate (none ∷ ds) ip ls = some none
generate (some v ∷ ds) ip ls =
    let rest = generate ds ip ls in
    if holds (record { src_ip_string = ip; vni = v }) ls then rest else some (some v)

pub record Answer : Type 0 where
  pub accepted : Bool
  pub mechanism : Option Mechanism
  pub server : VniServer

abbrev pub forget : String → VniKey → VniServer → VniServer
forget id k s = record s { keys = delete_key k s.keys; metadata = write id none s.metadata }

-- The end of `Request`: the rest of the chain, and its error.
unfoldable pub finish : Bool → String → Bool → VniKey → Mechanism → VniServer → Answer
unfolding delete_key
finish next_ok id loaded k m s = record {
  accepted = next_ok;
  mechanism = some m;
  server = if next_ok then s else if loaded then s else forget id k s;
}

-- Whether the mechanism carries a VNI, and an address to keep it under.
unfoldable pub has_vni : Mechanism → Bool
has_vni m = not (m.vni == 0) && elim m.src_ip [ none ↦ false | some t ↦ true ]

-- The request that carries its VNI.
unfoldable pub remember : Bool → String → Mechanism → VniServer → Answer
unfolding store_key load_or_store finish
remember next_ok id m s =
    finish next_ok id (is_loaded id s) (key_of m) m (record s {
      keys = store_key (key_of m) s.keys;
      metadata = load_or_store id m.vni s.metadata;
    })

-- The request without: the VNI of its metadata, or one that is not in use.
unfoldable pub assign : List (Option ℕ) → Bool → String → Mechanism → VniServer → Option Answer
unfolding generate store_key finish
assign draws next_ok id m s = elim (s.metadata id) [
  | some v ↦ some (finish next_ok id true (key_of m) (record m { vni = v }) s)
  | none ↦ elim (generate draws (to_string m.src_ip) s.keys) [
    | none ↦ none
    | some none ↦ some (record { accepted = false; mechanism = some m; server = s })
    | some (some v) ↦
        let n : Mechanism = record m { vni = v } in
        some (
          finish next_ok id false (key_of n) n (record s {
            keys = store_key (key_of n) s.keys;
            metadata = write id (some v) s.metadata;
          }))
  ]
]

abbrev pub with_dst : VniServer → Mechanism → Mechanism
with_dst s m = record m { dst_ip = s.tunnel_ip; dst_port = s.tunnel_port }

-- `Request`: another mechanism than VXLAN is `none`.
unfoldable pub request :
    List (Option ℕ) → Bool → String → Option Mechanism → VniServer → Option Answer
unfolding has_vni remember assign
request draws next_ok id none s = some (record { accepted = next_ok; mechanism = none; server = s })
request draws next_ok id (some m) s =
    if has_vni m
    then some (remember next_ok id (with_dst s m) s)
    else assign draws next_ok id (with_dst s m) s

-- `Close`, up to the call of the rest of the chain.
unfoldable pub close : String → Option Mechanism → VniServer → VniServer
unfolding has_vni delete_key
close id none s = s
close id (some m) s = if has_vni m then forget id (key_of m) s else s
