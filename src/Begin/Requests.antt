-- ===== src/Begin/Requests.antt =====
-- pkg/networkservice/common/begin: requests reach the chain, also after the factory has changed.
use nsm_sdk.Prelude.{
  ℕ, ◌≡◌, ◌≢◌, ◌∙◌, refl, ap, inl, inr, List, [], ◌∷◌, ◌++◌, Option, none, some, ==_iff, length,
  get_elem?, same_not, ≡→same, Bool-cases, Option-cases, ◌&&◌,
}
use nsm_sdk.Begin.{
  Connection, Request, Factory, Call, requested, closes, to_request, Server, submit_request, update,
  call, with_state, closed, run, run_request, request_behind, reselect, settle, is_current,
  is_established, is_reselect, store,
}
use nsm_sdk.Begin.Closes.{IsValid, submit_request-IsValid}

module _ {X M : Type 0} where
  requests_behind :
      (next : Request X M → Option (Connection X M)) (f : ℕ) (r : Request X M) (s : Server X M)
      (x : Factory X M)
      → (request_behind next f r (s, x)).calls ≡ requested x.key r (next r) ∷ s.calls
  unfolding request_behind settle
  requests_behind next f r s x = go (next r) refl
    where
      go :
          (o : Option (Connection X M))
          → next r ≡ o
          → (request_behind next f r (s, x)).calls ≡ requested x.key r (next r) ∷ s.calls
      go none a = elim (Bool-cases (is_established x.state)) [
        | inl b ↦ rw (request_behind, a, b) refl
        | inr b ↦ rw (request_behind, a, b) refl
      ]
      go (some c) a = rw (request_behind, a) refl

  reselect-key :
      (f : ℕ) (x : Factory X M) (r : Request X M) (s : Server X M)
      → (reselect f x r s).1.key ≡ x.key
  unfolding reselect
  reselect-key f x r s =
      elim (Bool-cases (is_established x.state && is_reselect r.connection.state)) [
        | inr d ↦ rw (reselect, d) refl
        | inl d ↦ rw (reselect, d) (go x.request)
      ]
    where
      go :
          (o : Option (Request X M))
          → (elim o as (λ _. Server X M × Factory X M) [
            | none ↦ (s, x)
            | some q ↦ (
              update f (with_state closed x) (call (closes x.key q.connection) s),
              with_state closed x,
            )
          ]).1.key
            ≡ x.key
      go none = refl
      go (some q) = refl

  -- What waits last, and for which factory.
  submit_request-lem :
      (r : Request X M) (s : Server X M)
      → r.connection.id ≢ ""
      → (f : ℕ) × ((submit_request r s).table r.connection.id ≡ some f)
        × ((submit_request r s).jobs ≡ s.jobs ++ (f, to_request r) ∷ [])
  unfolding submit_request
  submit_request-lem r s n = elim (Option-cases (s.table r.connection.id)) [
    | inl d ↦ (
      length s.factories,
      rw
          (
            submit_request,
            same_not r.connection.id "" n,
            d,
            store,
            ≡→same r.connection.id r.connection.id refl,
          )
          refl,
      rw (submit_request, same_not r.connection.id "" n, d) refl,
    )
    | inr (f, d) ↦ (
      f,
      rw (submit_request, same_not r.connection.id "" n, d, d) refl,
      rw (submit_request, same_not r.connection.id "" n, d) refl,
    )
  ]

  current_run :
      (next : Request X M → Option (Connection X M)) (f : ℕ) (x : Factory X M) (r : Request X M)
      (s : Server X M)
      → get_elem? s.factories f ≡ some x
      → s.table r.connection.id ≡ some f
      → run next f (to_request r) s ≡ request_behind next f r (reselect f x r s)
  unfolding run run_request
  current_run next f x r s a h = rw (run, a, run_request, is_current, h, (==_iff f f).1 refl) refl

  -- A request whose connection has an id waits, once it is accepted, for the factory that the table
  -- has for the id, be it an old one or a new one. Run at once, it is what the chain is called with.
  pub submit_request-requested :
      (next : Request X M → Option (Connection X M)) (r : Request X M) (s : Server X M)
      → IsValid s
      → r.connection.id ≢ ""
      → (f : ℕ) × ((submit_request r s).jobs ≡ s.jobs ++ (f, to_request r) ∷ [])
        × ((cs : List (Call X M)) × ((run next f (to_request r) (submit_request r s)).calls
              ≡ requested r.connection.id r (next r) ∷ cs))
  submit_request-requested next r s v n =
      let (f, h, j) = submit_request-lem r s n in
      let (x, a, k, u) = (submit_request-IsValid r s v).placed r.connection.id f h in
      let p = reselect f x r (submit_request r s) in
      (
        f,
        j,
        (
          p.0.calls,
          ap (λ t. t.calls) (current_run next f x r (submit_request r s) a h)
              ∙ requests_behind next f r p.0 p.1
              ∙ ap (λ i. requested i r (next r) ∷ p.0.calls)
                  (reselect-key f x r (submit_request r s) ∙ k),
        ),
      )
