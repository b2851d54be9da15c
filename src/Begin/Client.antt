-- ===== src/Begin/Client.antt =====
-- pkg/networkservice/common/begin: the client of client.go with its event factories of
-- event_factory.go. Its table, its executors and its jobs are those of the server.
use nsm_sdk.Prelude.{
  ℕ, ◌≡◌, ◌∙◌, refl, sym, ap, inl, inr, ◌∷◌, Option, none, some, Bool, true, false, not, ◌&&◌,
  if◌then◌else◌, get_elem?, set, Option-cases,
}
use nsm_sdk.Begin.{
  Connection, Request, Factory, Server, requested, closes, established, closed, reselect_requested,
  is_established, is_current, submit_request, update, call, with_state, with_up, delete,
}
use nsm_sdk.Begin.Merge.{ConnectionContext, merge_connection}

module _ {I N D M : Type 0} where
  abbrev pub connection_of :
      Option (Request (ConnectionContext I N D) M) → Option (Connection (ConnectionContext I N D) M)
  connection_of none = none
  connection_of (some q) = some q.connection

  -- The request that the client passes on.
  unfoldable pub merge_request :
      (Option (ConnectionContext I N D) → Option (ConnectionContext I N D) → Bool)
      → Factory (ConnectionContext I N D) M
      → Request (ConnectionContext I N D) M
      → Request (ConnectionContext I N D) M
  merge_request equal x r = record r {
    connection = merge_connection equal x.returned r.connection (connection_of x.request);
  }

module _ {X M : Type 0} where
  -- What is made of the answer.
  unfoldable pub settle :
      ℕ → Factory X M → Request X M → Option (Connection X M) → Server X M → Server X M
  settle f x r none s = if is_established x.state then s else record s {
    factories = set s.factories f (with_state closed x);
    table = delete r.connection.id s.table;
  }
  settle f x r (some c) s =
      update f
        record x {
          state = established;
          request = some (record r { connection = c });
          returned = some c;
        }
        s

  -- The function that `Request` has run, where `merge` is how the connection is merged.
  unfoldable pub run_request :
      (Factory X M → Request X M → Request X M)
      → (Request X M → Option (Connection X M))
      → ℕ
      → Factory X M
      → Request X M
      → Server X M
      → Server X M
  unfolding settle
  run_request merge next f x r s =
      if is_current r.connection.id f s
      then settle f x (merge x r) (next (merge x r))
          (call (requested x.key (merge x r) (next (merge x r))) s)
      else submit_request r s

  -- The connection that an event asks for again, at any endpoint.
  abbrev pub reselected : Request X M → Request X M
  reselected q = record q {
    connection = record q.connection {
      mechanism = none;
      endpoint_name = "";
      state = reselect_requested;
    };
  }

  unfoldable pub ask_again :
      (Request X M → Option (Connection X M))
      → ℕ
      → Factory X M
      → Request X M
      → Request X M
      → Server X M
      → Server X M
  ask_again next f x q r s = elim (next r) [
    | none ↦ call (requested x.key r none) s
    | some c ↦
        update f (record x { request = some (record q { connection = with_up c }) })
          (call (requested x.key r (some c)) s)
  ]

  -- The function that the factory's `Request` has run: with `reselect` the connection is closed first.
  unfoldable pub run_event_request :
      (Request X M → Option (Connection X M))
      → Bool
      → Bool
      → ℕ
      → Factory X M
      → Server X M
      → Server X M
  unfolding ask_again
  run_event_request next cancelled reselects f x s = elim x.request [
    | none ↦ s
    | some q ↦
        if is_established x.state && not cancelled
        then if reselects
          then ask_again next f x q (reselected q) (call (closes x.key q.connection) s)
          else ask_again next f x q q s
        else s
  ]

  ask_again-none :
      (next : Request X M → Option (Connection X M)) (f : ℕ) (x : Factory X M) (q r : Request X M)
      (s : Server X M)
      → next r ≡ none
      → ask_again next f x q r s ≡ call (requested x.key r none) s
  unfolding ask_again
  ask_again-none next f x q r s a = rw (ask_again, a) refl

  ask_again-some :
      (next : Request X M → Option (Connection X M)) (f : ℕ) (x : Factory X M) (q r : Request X M)
      (s : Server X M) (c : Connection X M)
      → next r ≡ some c
      → ask_again next f x q r s
        ≡ update f
            (record x { request = some (record q { connection = with_up c }) })
            (call (requested x.key r (some c)) s)
  unfolding ask_again
  ask_again-some next f x q r s c a = rw (ask_again, a) refl

  ask_again-calls :
      (next : Request X M → Option (Connection X M)) (f : ℕ) (x : Factory X M) (q r : Request X M)
      (s : Server X M)
      → (ask_again next f x q r s).calls ≡ requested x.key r (next r) ∷ s.calls
  ask_again-calls next f x q r s = elim (Option-cases (next r)) [
    | inl a ↦
        ap (λ t. t.calls) (ask_again-none next f x q r s a)
        ∙ ap (λ o. requested x.key r o ∷ s.calls) (sym a)
    | inr (c, a) ↦
        ap (λ t. t.calls) (ask_again-some next f x q r s c a)
        ∙ ap (λ o. requested x.key r o ∷ s.calls) (sym a)
  ]

  reselect_run :
      (next : Request X M → Option (Connection X M)) (f : ℕ) (x : Factory X M) (s : Server X M)
      (q : Request X M)
      → x.request ≡ some q
      → x.state ≡ established
      → run_event_request next false true f x s
        ≡ ask_again next f x q (reselected q) (call (closes x.key q.connection) s)
  unfolding run_event_request
  reselect_run next f x s q e u = rw e (
      ap
        (λ st.
          if is_established st && true
          then ask_again next f x q (reselected q) (call (closes x.key q.connection) s)
          else s)
        u)

  -- An established factory that an event makes reselect closes its connection in the chain and asks
  -- there for one with no mechanism at any endpoint. What the chain answers is kept, with the state
  -- up. After an error the factory is as it was: established, with the connection that is closed.
  pub run_event_request-reselects :
      (next : Request X M → Option (Connection X M)) (f : ℕ) (x : Factory X M) (s : Server X M)
      (q : Request X M)
      → x.request ≡ some q
      → x.state ≡ established
      → get_elem? s.factories f ≡ some x
      → ((run_event_request next false true f x s).calls
          ≡ requested x.key (reselected q) (next (reselected q))
            ∷ closes x.key q.connection
            ∷ s.calls)
        × ((next (reselected q) ≡ none)
            → get_elem? (run_event_request next false true f x s).factories f ≡ some x)
        × ((c : Connection X M)
            → next (reselected q) ≡ some c
            → (run_event_request next false true f x s).factories
              ≡ set s.factories f
                  (record x { request = some (record q { connection = with_up c }) }))
  run_event_request-reselects next f x s q e u h =
      let same_run = reselect_run next f x s q e u in
      (
        ap (λ t. t.calls) same_run ∙ ask_again-calls next f x q (reselected q) again,
        λ a. ap (λ t. get_elem? t.factories f) (same_run ∙ ask_again-none next f x q _ again a) ∙ h,
        λ c a. ap (λ t. t.factories) (same_run ∙ ask_again-some next f x q _ again c a),
      )
    where
      again : Server X M
      again = call (closes x.key q.connection) s
