-- ===== src/LocalBypass/Urls.antt =====
-- The URLs that an endpoint is found with.
use nsm_sdk.Prelude.{
  ◌≡◌, ◌≢◌, ◌∙◌, refl, sym, ap, Option, none, some, Bool, true, false, String, same, same→≡, ≡→same,
  Bool-cases, Option-cases, inl, inr,
}
use nsm_sdk.MatchUtils.{Endpoint}
use nsm_sdk.LocalBypass.{Bypass, put_url, delete_url, known_url, forward, is_loaded, register, send}

differ : (s t : String) → s ≢ t → same s t ≡ false
differ s t d = elim (Bool-cases (same s t)) [ inl e ↦ absurd (d (same→≡ s t e)) | inr e ↦ e ]

module _ (parse : String → Option String) (next : Endpoint → Option Endpoint) (nse : Endpoint)
    (s : Bypass) (n : s.nse_urls nse.name ≡ none) where
  -- The first registration of an endpoint, by what its URL and the rest of the chain give.
  register_unparsed : parse nse.url ≡ none → register parse next nse s ≡ (none, s)
  unfolding register known_url
  register_unparsed p = rw (n, register, p) refl

  register_empty :
      (u : String)
      → parse nse.url ≡ some u
      → same u "" ≡ true
      → register parse next nse s ≡ (none, s)
  unfolding register known_url
  register_empty u p e = rw (n, register, p, e) refl

  register-forward :
      (u : String)
      → parse nse.url ≡ some u
      → same u "" ≡ false
      → register parse next nse s
        ≡ forward next false u nse (record s { nse_urls = put_url nse.name u s.nse_urls })
  unfolding register known_url
  register-forward u p e =
      rw (n, register, p, e)
        (ap
          (λ o.
            forward next (is_loaded o) u nse
              (record s { nse_urls = put_url nse.name u s.nse_urls }))
          n)

forward-some :
    (next : Endpoint → Option Endpoint) (b : Bool) (u : String) (nse reg : Endpoint) (s : Bypass)
    → next (record nse { url = s.nsmgr_url }) ≡ some reg
    → forward next b u nse s
      ≡ (some (record reg { url = u }), record s { nse_urls = put_url reg.name u s.nse_urls })
unfolding forward
forward-some next b u nse reg s r = rw (r, forward) refl

forward-none :
    (next : Endpoint → Option Endpoint) (u : String) (nse : Endpoint) (s : Bypass)
    → next (record nse { url = s.nsmgr_url }) ≡ none
    → forward next false u nse s ≡ (none, record s { nse_urls = delete_url nse.name s.nse_urls })
unfolding forward
forward-none next u nse s r = rw (r, forward) refl

send_put :
    (reg : Endpoint) (u : String) (s : Bypass)
    → u ≢ s.nsmgr_url
    → send
        (record reg { url = s.nsmgr_url })
        false
        (record s { nse_urls = put_url reg.name u s.nse_urls })
      ≡ some (record reg { url = u })
unfolding send
send_put reg u s m = rw (≡→same reg.name reg.name refl, differ u s.nsmgr_url m) refl

-- An endpoint that is registered for the first time, with a URL that parses to another one than that of
-- the manager and is not empty, and that the rest of the chain takes when it has the URL of the manager:
-- it is given back with its own URL, and when it is found with that of the manager, it is sent with its
-- own.
pub send-register :
    (parse : String → Option String) (next : Endpoint → Option Endpoint) (nse reg : Endpoint)
    (u : String) (s : Bypass)
    → s.nse_urls nse.name ≡ none
    → parse nse.url ≡ some u
    → u ≢ ""
    → u ≢ s.nsmgr_url
    → next (record nse { url = s.nsmgr_url }) ≡ some reg
    → ((register parse next nse s).0 ≡ some (record reg { url = u }))
      × (send (record reg { url = s.nsmgr_url }) false (register parse next nse s).1
          ≡ some (record reg { url = u }))
send-register parse next nse reg u s n p d m r =
    let t = record s { nse_urls = put_url nse.name u s.nse_urls } in
    let e =
      register-forward parse next nse s n u p (differ u "" d)
      ∙ forward-some next false u nse reg t r in
    (
      ap (λ x. x.0) e,
      ap (λ x. send (record reg { url = s.nsmgr_url }) false x.1) e ∙ send_put reg u t m,
    )

put_back :
    (name u : String) (k : String) (m : String → Option String)
    → m name ≡ none
    → delete_url name (put_url name u m) k ≡ m k
put_back name u k m n = elim (Bool-cases (same name k)) [
  | inl x ↦ rw x (sym n ∙ ap m (same→≡ name k x))
  | inr x ↦ rw x refl
]

-- A registration of an unknown endpoint that fails, by its URL or in the rest of the chain, leaves
-- the URLs as they were.
pub register_failed :
    (parse : String → Option String) (next : Endpoint → Option Endpoint) (nse : Endpoint)
    (s : Bypass) (k : String)
    → s.nse_urls nse.name ≡ none
    → (register parse next nse s).0 ≡ none
    → (register parse next nse s).1.nse_urls k ≡ s.nse_urls k
register_failed parse next nse s k n h = elim (Option-cases (parse nse.url)) [
  | inl p ↦ ap (λ x. x.1.nse_urls k) (register_unparsed parse next nse s n p)
  | inr (u, p) ↦ elim (Bool-cases (same u "")) [
    | inl e ↦ ap (λ x. x.1.nse_urls k) (register_empty parse next nse s n u p e)
    | inr e ↦
        let t = record s { nse_urls = put_url nse.name u s.nse_urls } in
        let f = register-forward parse next nse s n u p e in
        elim (Option-cases (next (record nse { url = s.nsmgr_url }))) [
          | inl r ↦
              ap (λ x. x.1.nse_urls k) (f ∙ forward-none next u nse t r)
              ∙ put_back nse.name u k s.nse_urls n
          | inr (reg, r) ↦
              absurd
                (some≢none (sym (ap (λ x. x.0) (f ∙ forward-some next false u nse reg t r)) ∙ h))
        ]
  ]
]
  where
    some≢none : {A : Type 0} {x : A} → some x ≡ none → ⊥
    some≢none z = cc
