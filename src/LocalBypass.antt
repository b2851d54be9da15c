-- ===== src/LocalBypass.antt =====
-- pkg/registry/common/localbypass/server.go: the registry element that gives the rest of the chain
-- the URL of the manager for that of an endpoint, and sets the endpoint's own URL in what is found.
-- What `url.Parse` makes of a string, and the rest of the chain, are arguments.
pub mod Urls
use nsm_sdk.Prelude.{Option, none, some, Bool, true, false, not, ◌&&◌, if◌then◌else◌, String, same}
use nsm_sdk.MatchUtils.{Endpoint}

pub record Bypass : Type 0 where
  pub nsmgr_url : String
  pub nse_urls : String → Option String

abbrev pub put_url : String → String → (String → Option String) → String → Option String
put_url name url m k = if same name k then some url else m k

abbrev pub delete_url : String → (String → Option String) → String → Option String
delete_url name m k = if same name k then none else m k

-- The URL that is kept for the endpoint, if there is one and it is the given one.
unfoldable pub known_url : Option String → String → Option String
known_url none url = none
known_url (some u) url = if same u url then some u else none

-- The end of `Register`, for the URL `u`: the endpoint goes on with the URL of the manager. An
-- error of the rest of the chain takes the URL out again if there was none before.
unfoldable pub forward :
    (Endpoint → Option Endpoint) → Bool → String → Endpoint → Bypass → Option Endpoint × Bypass
forward next loaded u nse s = elim (next (record nse { url = s.nsmgr_url })) [
  | none ↦ (none, if loaded then s else record s { nse_urls = delete_url nse.name s.nse_urls })
  | some reg ↦
      (some (record reg { url = u }), record s { nse_urls = put_url reg.name u s.nse_urls })
]

abbrev pub is_loaded : Option String → Bool
is_loaded none = false
is_loaded (some u) = true

unfoldable pub register :
    (String → Option String)
    → (Endpoint → Option Endpoint)
    → Endpoint
    → Bypass
    → Option Endpoint × Bypass
unfolding known_url forward
register parse next nse s =
    let loaded = is_loaded (s.nse_urls nse.name) in
    elim (known_url (s.nse_urls nse.name) nse.url) [
      | some u ↦ forward next loaded u nse s
      | none ↦ elim (parse nse.url) [
        | none ↦ (none, s)
        | some u ↦
            if same u ""
            then (none, s)
            else forward next loaded u nse (record s { nse_urls = put_url nse.name u s.nse_urls })
      ]
    ]

-- `Send` of an endpoint that is found: `none` if it is kept back.
unfoldable pub send : Endpoint → Bool → Bypass → Option Endpoint
send nse deleted s =
    let url : String = elim (s.nse_urls nse.name) [ none ↦ nse.url | some u ↦ u ] in
    if same url s.nsmgr_url && not deleted then none else some (record nse { url = url })

-- `Unregister`: the rest of the chain is called, with success or not, only for a known endpoint.
unfoldable pub unregister : (Endpoint → Bool) → Endpoint → Bypass → Bool × Bypass
unregister next nse s = elim (s.nse_urls nse.name) [
  | none ↦ (true, s)
  | some u ↦
      if next (record nse { url = s.nsmgr_url })
      then (true, record s { nse_urls = delete_url nse.name s.nse_urls })
      else (false, s)
]
