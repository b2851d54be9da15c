-- ===== src/Begin/Closes.antt =====
-- pkg/networkservice/common/begin: each function that an executor runs keeps the server valid: the submissions and the
-- closes.
use nsm_sdk.Prelude.{
  ℕ, ◌≡◌, ◌≢◌, ◌∙◌, refl, sym, subst, inl, inr, List, ◌∷◌, none, some, Bool, true, false, get_elem?,
  String, same, Bool-cases, Option-cases,
}
use nsm_sdk.Begin.{
  Connection, Request, Factory, FactoryState, initial, established, closed, Call, closes, Server,
  submit_request, submit_close, run_close, run_event_close, after_close, is_established, is_current,
  with_state,
}
use nsm_sdk.Begin.Accepts.{key_of, Leaves, Leaves-shut, Leaves-other}
use nsm_sdk.Begin.Current.{Fits, Fits-delete, open_at, kept}
use nsm_sdk.Begin.Fresh.{Fits-snoc}

pub established_state : (u : FactoryState) → is_established u ≡ true → u ≡ established
established_state established h = refl
established_state initial h = absurd cc
established_state closed h = absurd cc

module _ {X M : Type 0} where
  pub kept_none : (y : Factory X M) → is_established y.state ≡ false → kept (some y) ≡ none
  kept_none y d = elim (Option-cases y.request) [
    | inl r ↦ rw (kept, r) refl
    | inr (q, r) ↦ rw (kept, r, d) refl
  ]

  abbrev pub IsValid : Server X M → Type 0
  IsValid s = Fits s.factories s.table s.calls

  pub submit_request-IsValid :
      (r : Request X M) (s : Server X M) → IsValid s → IsValid (submit_request r s)
  unfolding submit_request
  submit_request-IsValid r s v = elim (Bool-cases (same r.connection.id "")) [
    | inl e ↦ rw e v
    | inr e ↦ elim (Option-cases (s.table r.connection.id)) [
      | inl d ↦ rw (e, d) (Fits-snoc s.factories s.table s.calls v _ refl refl d)
      | inr (f, d) ↦ rw (e, d) v
    ]
  ]

  pub submit_close-IsValid :
      (c : Connection X M) (s : Server X M) → IsValid s → IsValid (submit_close c s)
  unfolding submit_close
  submit_close-IsValid c s v = elim (Option-cases (s.table c.id)) [
    | inl d ↦ rw (d, submit_close) v
    | inr (f, d) ↦ rw (d, submit_close) v
  ]

  -- A factory that its key leads to, and what is open there.
  module _ (s : Server X M) (v : IsValid s) (f : ℕ) (x : Factory X M)
      (e : get_elem? s.factories f ≡ some x) where
    pub open_here :
        (q : Request X M)
        → s.table x.key ≡ some f
        → x.request ≡ some q
        → x.state ≡ established
        → Leaves x.key s.calls (some q.connection)
    open_here q h r u =
        subst (Leaves x.key s.calls) (rw (open_at, h, e, r, u) refl) (v.traced x.key)

    pub other_calls :
        (c : Call X M) (cs : List (Call X M))
        → key_of c ≡ x.key
        → ((j : String) → j ≢ x.key → Leaves j cs (open_at s.factories s.table j))
        → (j : String) → j ≢ x.key
        → Leaves j (c ∷ cs) (open_at s.factories s.table j)
    other_calls c cs k o j n = Leaves-other j cs _ c (λ d. n (sym d ∙ k)) (o j n)

    pub others : (j : String) → j ≢ x.key → Leaves j s.calls (open_at s.factories s.table j)
    others j n = v.traced j

    close_lem :
        (q : Request X M)
        → s.table x.key ≡ some f
        → x.request ≡ some q
        → x.state ≡ established
        → IsValid (after_close f x (record s { calls = closes x.key q.connection ∷ s.calls }))
    unfolding after_close
    close_lem q h r u =
        Fits-delete s.factories s.table s.calls v f x (with_state closed x) e h refl
          (closes x.key q.connection ∷ s.calls) refl
          (Leaves-shut x.key s.calls q.connection (open_here q h r u))
          (other_calls (closes x.key q.connection) s.calls refl others)

    pub is_established_lem : is_established x.state ≡ true → x.state ≡ established
    is_established_lem = established_state x.state

    closed_by : Request X M → Server X M
    closed_by q = after_close f x (record s { calls = closes x.key q.connection ∷ s.calls })

    run_close_eq :
        (c : Connection X M) (q : Request X M)
        → x.request ≡ some q
        → is_established x.state ≡ true
        → is_current c.id f s ≡ true
        → run_close f x c s ≡ closed_by q
    unfolding run_close after_close closed_by
    run_close_eq c q r d b = rw (r, d, b) refl

    pub run_close-IsValid : (c : Connection X M) → IsValid (run_close f x c s)
    unfolding run_close closed_by
    run_close-IsValid c = elim (Option-cases x.request) [
      | inl r ↦ rw r v
      | inr (q, r) ↦ elim (Bool-cases (is_established x.state)) [
        | inr d ↦ rw (r, d) v
        | inl d ↦ elim (Bool-cases (is_current c.id f s)) [
          | inr b ↦ rw (r, d, b) v
          | inl b ↦
              let u = is_established_lem d in
              subst IsValid (sym (run_close_eq c q r d b)) (close_lem q (v.held f x e u).0 r u)
        ]
      ]
    ]

    run_event_close_eq :
        (q : Request X M) → x.request ≡ some q → run_event_close false f x s ≡ closed_by q
    unfolding run_event_close after_close closed_by
    run_event_close_eq q r = rw r refl

    pub run_event_close-IsValid :
        (cancelled : Bool)
        → (cancelled ≡ false → x.state ≢ closed)
        → IsValid (run_event_close cancelled f x s)
    unfolding run_event_close closed_by
    run_event_close-IsValid true n = elim (Option-cases x.request) [
      | inl r ↦ rw r v
      | inr (q, r) ↦ rw r v
    ]
    run_event_close-IsValid false n = elim (Option-cases x.request) [
      | inl r ↦ rw r v
      | inr (q, r) ↦
          let u = go x.state refl r in
          subst IsValid (sym (run_event_close_eq q r)) (close_lem q (v.held f x e u).0 r u)
    ]
      where
        go :
            {q : Request X M}
            → (u : FactoryState) → x.state ≡ u
            → x.request ≡ some q
            → x.state ≡ established
        go established h r = h
        go closed h r = absurd (n refl h)
        go initial h r = absurd (clash (sym (v.untouched f x e h) ∙ r))
          where
            clash : {q : Request X M} → none ≡ some q → ⊥
            clash c = cc
