-- ===== src/Tests/Matching.antt =====
-- The theorems on the matching of labels and endpoints at sample endpoints.
use nsm_sdk.Prelude.{
  ℕ, ◌≤◌, ◌≡◌, ◌↔◌, ◌⊎◌, refl, [], ◌∷◌, Option, none, some, true, false, ◌||◌, String, same, length,
}
use nsm_sdk.MatchUtils.{
  Labels, is_subset, Endpoint, Match, Service, match_endpoint, labels_test,
  match_network_service_endpoints, all_match, labels_contains, entry_test, find, entries_or_empty,
}
use nsm_sdk.MatchUtils.Subset.{Entry, Agrees, is_subset_lem}
use nsm_sdk.MatchUtils.Endpoints.{Among, Suits, Applies, NoneApplies, match_endpoint_lem}
use nsm_sdk.MatchUtils.Crash.{LabelsCrash, match_network_service_endpoints_crash}

-- A template that gives back what it reads.
abbrev plain : String → Labels → Option String
plain s vars = some s

abbrev labels : Labels
labels = ("app", "db") ∷ ("zone", "a") ∷ []

abbrev wanted : Labels
wanted = ("app", "db") ∷ []

is_subset_lem_example : (is_subset plain labels wanted [] ≡ true) ↔ (
    (length wanted ≤ length labels)
    × ((k v : String) → Entry k v wanted → Agrees plain labels [] k v))
is_subset_lem_example = is_subset_lem plain labels wanted []

abbrev endpoint : Endpoint
endpoint = record {
  name = "nse-1";
  labels = some (("db-service", some labels) ∷ []);
  expiration = none;
  service_names = some ("db-service" ∷ []);
  url = "tcp://1";
}

abbrev to_db : Match
to_db = record {
  source_selector = [];
  routes = wanted ∷ [];
  is_fallthrough = false;
  has_metadata = false;
}

-- A match that asks for a label that the request has not.
abbrev to_web : Match
to_web = record to_db { source_selector = ("app", "web") ∷ [] }

abbrev service : Service
service = record { name = "db-service"; payload = "IP"; matches = to_web ∷ to_db ∷ [] }

web_fails : NoneApplies plain [] "db-service" (to_web ∷ []) (endpoint ∷ [])
unfolding is_subset
web_fails = ((λ (e, f). absurd cc), tt)

db-Applies : Applies plain [] "db-service" to_db (endpoint ∷ [])
unfolding is_subset all_match
db-Applies = (refl, refl)

match_endpoint_lem_example : Among endpoint (match_endpoint plain [] service (endpoint ∷ [])) ↔ (
    Among endpoint (endpoint ∷ [])
    × ((d : Labels) × Among d (wanted ∷ []) × Suits plain [] "db-service" d endpoint))
match_endpoint_lem_example =
    match_endpoint_lem plain [] service (endpoint ∷ []) (to_web ∷ []) to_db [] endpoint refl
      web_fails db-Applies refl

abbrev dated : Endpoint
dated = record endpoint { expiration = some 60 }

match_network_service_endpoints_crash_example :
    (match_network_service_endpoints same dated endpoint ≡ none) ↔ (
      ((same "nse-1" "" || same "nse-1" "nse-1") ≡ true)
      × (LabelsCrash dated.labels endpoint.labels
          ⊎ ((labels_test dated.labels endpoint.labels ≡ some true)
              × ((t : ℕ) × (dated.expiration ≡ some t))
              × (endpoint.expiration ≡ none))))
match_network_service_endpoints_crash_example =
    match_network_service_endpoints_crash same dated endpoint

-- A query whose entry for the service is nil.
abbrev blank : Endpoint
blank = record endpoint { labels = some (("db-service", none) ∷ []) }

nil_entry : match_network_service_endpoints same blank endpoint ≡ none
unfolding match_network_service_endpoints labels_contains entry_test find entries_or_empty
nil_entry = refl
