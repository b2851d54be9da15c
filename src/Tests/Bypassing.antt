-- ===== src/Tests/Bypassing.antt =====
-- The theorems on the local bypass and the selection of endpoints at samples.
use nsm_sdk.Prelude.{ℕ, ◌≡◌, ◌≢◌, refl, List, [], ◌∷◌, Option, none, some, false, String, same→≢}
use nsm_sdk.MatchUtils.{Endpoint}
use nsm_sdk.LocalBypass.{Bypass, register, known_url, forward, send}
use nsm_sdk.LocalBypass.Urls.{send-register, register_failed}
use nsm_sdk.RoundRobin.{Counters}

abbrev parse : String → Option String
parse s = some s

abbrev endpoint : Endpoint
endpoint = record {
  name = "nse";
  labels = none;
  expiration = none;
  service_names = none;
  url = "tcp://1";
}

abbrev masked : Endpoint
masked = record endpoint { url = "tcp://nsmgr" }

abbrev bypass : Bypass
bypass = record { nsmgr_url = "tcp://nsmgr"; nse_urls = λ k. none }

-- A rest of the chain that takes every endpoint, and one that takes none.
abbrev takes : Endpoint → Option Endpoint
takes e = some e

abbrev refuses : Endpoint → Option Endpoint
refuses e = none

url_apart : endpoint.url ≢ bypass.nsmgr_url
url_apart e = same→≢ endpoint.url bypass.nsmgr_url refl e

abbrev no_url : String
no_url = ""

url_there : endpoint.url ≢ no_url
url_there e = same→≢ endpoint.url no_url refl e

send-register_example :
    ((register parse takes endpoint bypass).0 ≡ some endpoint)
    × (send masked false (register parse takes endpoint bypass).1 ≡ some endpoint)
send-register_example =
    send-register parse takes endpoint masked "tcp://1" bypass refl refl url_there url_apart refl

refused : (register parse refuses endpoint bypass).0 ≡ none
unfolding register known_url forward
refused = refl

register_failed_example :
    (register parse refuses endpoint bypass).1.nse_urls "nse" ≡ bypass.nse_urls "nse"
register_failed_example = register_failed parse refuses endpoint bypass "nse" refl refused

abbrev counters : Counters
counters k = 5

abbrev three_endpoints : List ℕ
three_endpoints = 10 ∷ 11 ∷ 12 ∷ []
