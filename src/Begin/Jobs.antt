-- ===== src/Begin/Jobs.antt =====
-- pkg/networkservice/common/begin: each function that an executor runs keeps the server valid: the
-- requests.
use nsm_sdk.Prelude.{
  ℕ, ◌≡◌, ◌≢◌, ◌∙◌, refl, sym, ap, subst, inl, inr, List, ◌∷◌, Option, none, some, Bool, true,
  false, ◌==◌, ==_iff, get_elem?, set, set-set, String, same_or_not, Bool-cases, Option-cases, ◌&&◌,
}
use nsm_sdk.Begin.{
  Connection, Request, Factory, established, closed, Call, requested, closes, Server, call, update,
  run_request, request_behind, reselect, settle, run_event_request, is_established, is_current,
  is_reselect, delete, with_state, with_up,
}
use nsm_sdk.Begin.Accepts.{Leaves, Leaves-opened, Leaves-failed, Leaves-shut, Leaves-other}
use nsm_sdk.Begin.Current.{Fits, Fits-set, Fits-delete, open_at, kept}
use nsm_sdk.Begin.Closes.{
  established_state, IsValid, kept_none, submit_request-IsValid, open_here, other_calls, others,
  is_established_lem,
}

module _ {X M : Type 0} where
  -- A factory that its key leads to.
  module _ (s : Server X M) (v : IsValid s) (f : ℕ) (x : Factory X M)
      (e : get_elem? s.factories f ≡ some x) where
    run_event_request_eq :
        (next : Request X M → Option (Connection X M)) (q : Request X M) (c : Connection X M)
        → x.request ≡ some q
        → is_established x.state ≡ true
        → next q ≡ some c
        → run_event_request next false f x s ≡ record s {
          factories = set s.factories f (record x { request = some (record q { connection = c }) });
          calls = requested x.key q (some c) ∷ s.calls;
        }
    unfolding run_event_request
    run_event_request_eq next q c r d a = rw (r, d, a) refl

    failed_call :
        (q : Request X M) → IsValid (record s { calls = requested x.key q none ∷ s.calls })
    failed_call q = record {
      placed = v.placed;
      held = v.held;
      untouched = v.untouched;
      traced = λ k. elim (same_or_not x.key k) [
        | inl c ↦
            subst (λ j. Leaves j (requested x.key q none ∷ s.calls) (open_at s.factories s.table j))
              c (Leaves-failed x.key s.calls _ q (v.traced x.key))
        | inr n ↦ Leaves-other k s.calls _ (requested x.key q none) n (v.traced k)
      ];
    }

    pub run_event_request-IsValid :
        (next : Request X M → Option (Connection X M)) (cancelled : Bool)
        → IsValid (run_event_request next cancelled f x s)
    unfolding run_event_request
    run_event_request-IsValid next true = elim (Option-cases x.request) [
      | inl r ↦ rw r v
      | inr (q, r) ↦ elim (Bool-cases (is_established x.state)) [
        | inr d ↦ rw (r, d) v
        | inl d ↦ rw (r, d) v
      ]
    ]
    run_event_request-IsValid next false = elim (Option-cases x.request) [
      | inl r ↦ rw r v
      | inr (q, r) ↦ elim (Bool-cases (is_established x.state)) [
        | inr d ↦ rw (r, d) v
        | inl d ↦ elim (Option-cases (next q)) [
          | inl a ↦ rw (r, d, a) (failed_call q)
          | inr (c, a) ↦
              let u = (is_established_lem s v f x e) d in
              subst IsValid (sym (run_event_request_eq next q c r d a)) (
                Fits-set s.factories s.table s.calls v f x _ e (v.held f x e u).0 refl
                  (requested x.key q (some c) ∷ s.calls) (record q { connection = c }) u refl
                  (Leaves-opened x.key s.calls _ q c c refl (v.traced x.key))
                  ((other_calls s v f x e) (requested x.key q (some c)) s.calls refl
                    (others s v f x e)))
        ]
      ]
    ]

    -- What a request makes of the state, with the calls that went before the one of the request.
    settle-IsValid :
        (fs : List (Factory X M)) (cs : List (Call X M)) (y : Factory X M) (r : Request X M)
        (o : Option (Connection X M))
        → s.table x.key ≡ some f
        → x.key ≡ r.connection.id
        → y.key ≡ x.key
        → ((z : Factory X M) → set fs f z ≡ set s.factories f z)
        → ((j : String) → j ≢ x.key → Leaves j cs (open_at s.factories s.table j))
        → Leaves x.key cs (kept (some y))
        → (y.state ≡ established → (fs ≡ s.factories) × (cs ≡ s.calls))
        → IsValid (settle f y r o (record s { factories = fs; calls = requested x.key r o ∷ cs }))
    unfolding settle
    settle-IsValid fs cs y r (some c) h k k' w o l u =
        subst (λ gs. Fits gs s.table (requested x.key r (some c) ∷ cs)) (sym (w _))
          (Fits-set s.factories s.table s.calls v f x _ e h k' (requested x.key r (some c) ∷ cs)
            (record r { connection = with_up c }) refl refl
            (Leaves-opened x.key cs _ r c (with_up c) refl l)
            ((other_calls s v f x e) (requested x.key r (some c)) cs refl o))
    settle-IsValid fs cs y r none h k k' w o l u = elim (Bool-cases (is_established y.state)) [
      | inl d ↦ let (a, b) = u (established_state y.state d) in rw (d, a, b) (failed_call r)
      | inr d ↦
          rw (d, w (with_state closed y))
            (subst
              (λ z.
                Fits (set s.factories f (with_state closed y)) (delete z s.table)
                  (requested x.key r none ∷ cs))
              k
              (Fits-delete s.factories s.table s.calls v f x (with_state closed y) e h k'
                (requested x.key r none ∷ cs) refl
                (Leaves-failed x.key cs none r (subst (Leaves x.key cs) (kept_none y d) l))
                ((other_calls s v f x e) (requested x.key r none) cs refl o)))
    ]

    reselect_no :
        (r : Request X M)
        → (is_established x.state && is_reselect r.connection.state) ≡ false
        → reselect f x r s ≡ (s, x)
    unfolding reselect
    reselect_no r d = rw d refl

    reselect_yes :
        (r q : Request X M)
        → (is_established x.state && is_reselect r.connection.state) ≡ true
        → x.request ≡ some q
        → reselect f x r s ≡ (
          record s {
            factories = set s.factories f (with_state closed x);
            calls = closes x.key q.connection ∷ s.calls;
          },
          with_state closed x,
        )
    unfolding reselect
    reselect_yes r q d a = rw d (
        ap
          (λ o. elim o [
            | none ↦ (s, x)
            | some p ↦ (
              update f (with_state closed x) (call (closes x.key p.connection) s),
              with_state closed x,
            )
          ])
          a)

    first_true : (a b : Bool) → (a && b) ≡ true → a ≡ true
    first_true true b h = refl
    first_true false b h = h

    request_behind-IsValid :
        (next : Request X M → Option (Connection X M)) (r : Request X M)
        → s.table x.key ≡ some f
        → x.key ≡ r.connection.id
        → IsValid (request_behind next f r (reselect f x r s))
    unfolding request_behind
    request_behind-IsValid next r h k =
        elim (Bool-cases (is_established x.state && is_reselect r.connection.state)) [
          | inr d ↦ rw (reselect_no r d) (
              settle-IsValid s.factories s.calls x r (next r) h k refl (λ z. refl)
                (others s v f x e)
                (subst (Leaves x.key s.calls) (rw (open_at, h, e) refl) (v.traced x.key))
                (λ u. (refl, refl)))
          | inl d ↦
              let u = (is_established_lem s v f x e) (first_true (is_established x.state) _ d) in
              let (b, (q, a)) = v.held f x e u in
              rw (reselect_yes r q d a) (
                settle-IsValid (set s.factories f (with_state closed x))
                  (closes x.key q.connection ∷ s.calls) (with_state closed x) r (next r) h k refl
                  (λ z. set-set s.factories f (with_state closed x) z)
                  ((other_calls s v f x e) (closes x.key q.connection) s.calls refl
                    (others s v f x e))
                  (subst (Leaves x.key (closes x.key q.connection ∷ s.calls))
                    (sym (kept_none (with_state closed x) refl))
                    (Leaves-shut x.key s.calls q.connection ((open_here s v f x e) q h a u)))
                  (λ c. absurd cc))
        ]

    pub run_request-IsValid :
        (next : Request X M → Option (Connection X M)) (r : Request X M)
        → IsValid (run_request next f x r s)
    unfolding run_request
    run_request-IsValid next r = elim (Bool-cases (is_current r.connection.id f s)) [
      | inr b ↦ rw b (submit_request-IsValid r s v)
      | inl b ↦ rw b (placed_at next r (current_at r.connection.id b))
    ]
      where
        current_at : (k : String) → is_current k f s ≡ true → s.table k ≡ some f
        current_at k b = go (s.table k) b
          where
            go : (o : Option ℕ) → elim o [ none ↦ false | some g ↦ g == f ] ≡ true → o ≡ some f
            go none c = absurd cc
            go (some g) c = ap some ((==_iff g f).0 c)

        placed_at :
            (next : Request X M → Option (Connection X M)) (r : Request X M)
            → s.table r.connection.id ≡ some f
            → IsValid (request_behind next f r (reselect f x r s))
        placed_at next r d =
            let (y, a, k, u) = v.placed r.connection.id f d in
            let k' = sym (ap (λ z. z.key) (same_as y a)) ∙ k in
            request_behind-IsValid next r (ap s.table k' ∙ d) k'
          where
            same_as : (y : Factory X M) → get_elem? s.factories f ≡ some y → y ≡ x
            same_as y a = cc
