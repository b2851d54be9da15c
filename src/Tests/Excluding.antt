-- ===== src/Tests/Excluding.antt =====
-- The theorems on excluded prefixes at samples.
use nsm_sdk.Prelude.{
  ◌≡◌, ◌∙◌, sym, refl, inl, inr, arith, ℕ, String, [], ◌∷◌, Option, none, some, Bool, true, not,
  ◌&&◌, ◌||◌, ◌==◌, if◌then◌else◌, same, Bool-cases, subst,
}
use nsm_sdk.IpPool.Address.{num}
use nsm_sdk.IpPool.Range.Algebra.{Holds}
use nsm_sdk.IpPool.Pool.{lookup}
use nsm_sdk.IpPool.Pool.Access.{Ip, IpNet, new, contains}
use nsm_sdk.ExcludedPrefixes.{
  other_groups, IpContext, Client, Answer, has, request, close, validate_ips, sent_prefixes,
  check_awareness_groups,
}
use nsm_sdk.ExcludedPrefixes.Shared.{Unique, released, request-close_shared}
use nsm_sdk.ExcludedPrefixes.Valid.{IsRead, read_inj, Reads, validate_ips_lem}
use nsm_sdk.Tests.{ip4, ip4-IsWord, between, between-IsRange}

abbrev nine : Ip × IpNet
nine = (record { bytes = 16; value = ip4 9 }, record { bytes = 4; range = between 9 9 })

abbrev quad : Ip × IpNet
quad = (record { bytes = 16; value = ip4 4 }, record { bytes = 4; range = between 4 7 })

nine-IsRead : IsRead nine
nine-IsRead =
    (ip4-IsWord 9 (omega arith), between-IsRange 9 9 (omega arith) (omega arith), inl refl)

quad-IsRead : IsRead quad
quad-IsRead =
    (ip4-IsWord 4 (omega arith), between-IsRange 4 7 (omega arith) (omega arith), inl refl)

abbrev parse : String → Option (Ip × IpNet)
parse t = if same t "0.0.0.9/32" then some nine else if same t "0.0.0.4/30" then some quad else none

abbrev mask_size : String → ℕ × ℕ
mask_size t = if same t "0.0.0.4/30" then (30, 32) else (32, 32)

abbrev empty_context : IpContext
empty_context = record {
  src_ip_addrs = [];
  dst_ip_addrs = [];
  src_routes = [];
  dst_routes = [];
  excluded_prefixes = [];
}

abbrev answered : IpContext
answered = record empty_context { src_ip_addrs = "0.0.0.9/32" ∷ [] }

abbrev client : Client
client = record { excluded_prefixes = "0.0.0.4/30" ∷ []; awareness_groups = [] }

no_group : check_awareness_groups "ns" client.awareness_groups ≡ none
unfolding check_awareness_groups
no_group = refl

accepted :
    validate_ips mask_size parse answered (
      sent_prefixes empty_context client.excluded_prefixes
        (other_groups 0 none client.awareness_groups))
    ≡ some true
unfolding validate_ips sent_prefixes contains lookup new other_groups
accepted = refl

parse-Reads : Reads parse
parse-Reads p x h = elim (Bool-cases (same p "0.0.0.9/32")) [
  | inl e ↦ subst IsRead (read_inj nine x (sym (rw (e) refl) ∙ h)) nine-IsRead
  | inr e ↦ elim (Bool-cases (same p "0.0.0.4/30")) [
    | inl f ↦ subst IsRead (read_inj quad x (sym (rw (e, f) refl) ∙ h)) quad-IsRead
    | inr f ↦ absurd (nothing x (sym (rw (e, f) refl) ∙ h))
  ]
]
  where
    nothing : (y : Ip × IpNet) → none ≡ some y → ⊥
    nothing y k = cc

validate_ips_lem_example :
    (b : Bool) × (validate_ips mask_size parse answered ("0.0.0.9/32" ∷ []) ≡ some b)
    × ((b ≡ true)
        → (a p : String) (ip jp : Ip) (net met : IpNet) → has a ("0.0.0.9/32" ∷ []) ≡ true
        → parse a ≡ some (ip, met)
        → has p ("0.0.0.9/32" ∷ []) ≡ true
        → parse p ≡ some (jp, net)
        → ((mask_size p).0 == (mask_size p).1) ≡ true
        → Holds net.range (num ip.value)
        → ⊥)
validate_ips_lem_example = validate_ips_lem mask_size parse answered ("0.0.0.9/32" ∷ []) parse-Reads

request-close_shared_example :
    (a : Answer) × (request mask_size parse "ns" (λ c. some answered) empty_context client ≡ some a)
    × (a.response ≡ some answered)
    × (a.ip_context ≡ empty_context)
    × Unique a.client.excluded_prefixes
    × ((x : String)
        → has x a.client.excluded_prefixes
          ≡ (has x ("0.0.0.4/30" ∷ []) || has x (released mask_size answered)))
    × ((x : String)
        → has x (close mask_size "ns" answered a.client).excluded_prefixes
          ≡ (has x ("0.0.0.4/30" ∷ []) && not (has x (released mask_size answered))))
request-close_shared_example =
    request-close_shared mask_size parse "ns" (λ c. some answered) empty_context answered client
      no_group refl accepted
