-- ===== src/Begin/Runs.antt =====
-- pkg/networkservice/common/begin: the runs of the server, and what they call of the chain behind.
use nsm_sdk.Prelude.{
  ℕ, ◌≡◌, ◌≢◌, ◌∙◌, refl, sym, ap, inl, inr, [], ◌∷◌, Option, none, some, Bool, false, get_elem?,
  get-set_other, ≡→same, same, String, Bool, true, ◌==◌, ◌&&◌, if◌then◌else◌, Option-cases,
}
use nsm_sdk.Begin.{
  Connection, Request, Factory, established, closed, is_established, closes, Job, to_request,
  to_close, event_request, event_close, Server, submit_request, submit_close, enqueue, take_job,
  run, run_request, run_close, run_event_request, run_event_close, after_close, delete, is_current,
}
use nsm_sdk.Begin.Accepts.{Leaves}
use nsm_sdk.Begin.Current.{empty-Fits, open_at}
use nsm_sdk.Begin.Closes.{
  IsValid, submit_request-IsValid, submit_close-IsValid, run_close-IsValid, run_event_close-IsValid,
}
use nsm_sdk.Begin.Jobs.{run_request-IsValid, run_event_request-IsValid}

module _ {X M : Type 0} where
  -- The events come in time: no factory is asked to close again what it has closed.
  abbrev pub IsTimely : Server X M → ℕ → Job X M → Type 0
  IsTimely s f j =
      (x : Factory X M)
      → get_elem? s.factories f ≡ some x
      → j ≡ event_close false
      → x.state ≢ closed

  pub run-IsValid :
      (next : Request X M → Option (Connection X M)) (f : ℕ) (j : Job X M) (s : Server X M)
      → IsTimely s f j
      → IsValid s
      → IsValid (run next f j s)
  unfolding run
  run-IsValid next f j s n v = elim (Option-cases (get_elem? s.factories f)) [
    | inl e ↦ rw (e, run) v
    | inr (x, e) ↦ rw (e, run) (go x e j n)
  ]
    where
      go :
          (x : Factory X M) (e : get_elem? s.factories f ≡ some x) (j : Job X M)
          → IsTimely s f j
          → IsValid elim j [
            | to_request r ↦ run_request next f x r s
            | to_close c ↦ run_close f x c s
            | event_request cancelled ↦ run_event_request next cancelled f x s
            | event_close cancelled ↦ run_event_close cancelled f x s
          ]
      go x e (to_request r) n = run_request-IsValid s v f x e next r
      go x e (to_close c) n = run_close-IsValid s v f x e c
      go x e (event_request b) n = run_event_request-IsValid s v f x e next b
      go x e (event_close b) n = run_event_close-IsValid s v f x e b (λ c. n x e (ap event_close c))

  pub data Step (s : Server X M) : Server X M → Type 0 where
    gets_request : (r : Request X M) → Step s (submit_request r s)
    gets_close : (c : Connection X M) → Step s (submit_close c s)
    fires_request : (f : ℕ) (cancelled : Bool) → Step s (enqueue f (event_request cancelled) s)
    fires_close : (f : ℕ) (cancelled : Bool) → Step s (enqueue f (event_close cancelled) s)
    runs :
        (i f : ℕ) (j : Job X M) (next : Request X M → Option (Connection X M))
        → get_elem? s.jobs i ≡ some (f, j)
        → IsTimely s f j
        → Step s (run next f j (take_job i s))

  pub data Reach : Server X M → Type 0 where
    start : Reach (record { factories = []; table = λ k. none; jobs = []; calls = [] })
    after : {s t : Server X M} → Reach s → Step s t → Reach t

  pub Step-IsValid : (s t : Server X M) → Step s t → IsValid s → IsValid t
  Step-IsValid s t (gets_request r) v = submit_request-IsValid r s v
  Step-IsValid s t (gets_close c) v = submit_close-IsValid c s v
  Step-IsValid s t (fires_request f b) v = v
  Step-IsValid s t (fires_close f b) v = v
  Step-IsValid s t (runs i f j next e n) v = run-IsValid next f j (take_job i s) n v

  pub Reach-IsValid : (s : Server X M) → Reach s → IsValid s
  Reach-IsValid s start = empty-Fits
  Reach-IsValid s (after r h) = Step-IsValid _ s h (Reach-IsValid _ r)

  -- In every state that is reached with events in time, the calls of the chain behind under any
  -- connection id keep its contract: a `Close` follows a successful `Request`, there is no second
  -- one before the next success, and it hands over the connection that the last success has answered,
  -- but for its state. The connection left open is the one that the current factory of the id keeps.
  pub Reach-Leaves :
      (s : Server X M) (k : String) → Reach s → Leaves k s.calls (open_at s.factories s.table k)
  Reach-Leaves s k r = (Reach-IsValid s r).traced k

  -- In every state that is reached with events in time, two established factories have different
  -- connection ids, and the table leads from the id to the factory.
  pub Reach-established :
      (s : Server X M) (f g : ℕ) (x y : Factory X M)
      → Reach s
      → get_elem? s.factories f ≡ some x
      → get_elem? s.factories g ≡ some y
      → x.state ≡ established
      → y.state ≡ established
      → x.key ≡ y.key
      → (f ≡ g) × (s.table x.key ≡ some f)
  Reach-established s f g x y r a b u w k =
      let v = Reach-IsValid s r in
      let (h, p) = v.held f x a u in
      let (h', p') = v.held g y b w in (one (sym h ∙ ap s.table k ∙ h'), h)
    where
      one : some f ≡ some g → f ≡ g
      one c = cc

  -- The closed factory is run to close once more.
  abbrev pub late_close : (Request X M → Option (Connection X M)) → ℕ → Server X M → Server X M
  late_close next f s = run next f (event_close false) s

  late_close_eq :
      (next : Request X M → Option (Connection X M)) (s : Server X M) (f : ℕ) (x : Factory X M)
      (q : Request X M)
      → get_elem? s.factories f ≡ some x
      → x.request ≡ some q
      → late_close next f s
        ≡ after_close f x (record s { calls = closes x.key q.connection ∷ s.calls })
  unfolding run run_event_close
  late_close_eq next s f x q a r =
      step
      ∙ ap
          (λ o. elim o [
            | none ↦ s
            | some p ↦ after_close f x (record s { calls = closes x.key p.connection ∷ s.calls })
          ])
          r
    where
      step : run next f (event_close false) s ≡ run_event_close false f x s
      step = rw (run, a) refl

  run-to_close_gone :
      (next : Request X M → Option (Connection X M)) (t : Server X M) (g : ℕ) (y : Factory X M)
      (c : Connection X M)
      → get_elem? t.factories g ≡ some y
      → t.table c.id ≡ none
      → run next g (to_close c) t ≡ t
  unfolding run run_close
  run-to_close_gone next t g y c b h = elim (Option-cases y.request) [
    | inl r ↦ rw (run, b, run_close, r) refl
    | inr (q, r) ↦ rw (run, b, run_close, r, not_current) (neither _ _ (is_established y.state))
  ]
    where
      not_current : is_current c.id g t ≡ false
      not_current = ap (λ o. elim o [ none ↦ false | some n ↦ n == g ]) h

      neither : {A : Type 0} (u v : A) (e : Bool) → (if e && false then u else v) ≡ v
      neither u v true = refl
      neither u v false = refl

  -- In a state that is reached with events in time, let a factory have closed, and another one be
  -- established for the same connection id, where a `Close` would be handed to it. If the `Close` event
  -- of the closed factory fires late, the connection of that one is closed in the chain once more, and
  -- the other one stays established but is lost: a `Close` of the connection is then not handed to it,
  -- nor does one that waits for it already close anything.
  pub run-late_close :
      (next : Request X M → Option (Connection X M)) (s : Server X M) (f g : ℕ) (x y : Factory X M)
      (q : Request X M) (c : Connection X M)
      → Reach s
      → get_elem? s.factories f ≡ some x
      → get_elem? s.factories g ≡ some y
      → x.request ≡ some q
      → x.state ≡ closed
      → y.state ≡ established
      → x.key ≡ y.key
      → c.id ≡ y.key
      → (submit_close c s ≡ enqueue g (to_close c) s)
        × ((late_close next f s).calls ≡ closes x.key q.connection ∷ s.calls)
        × (get_elem? (late_close next f s).factories g ≡ some y)
        × (submit_close c (late_close next f s) ≡ late_close next f s)
        × (run next g (to_close c) (late_close next f s) ≡ late_close next f s)
  unfolding submit_close after_close
  run-late_close next s f g x y q c v a b r u w k d =
      let e = late_close_eq next s f x q a r in
      let there = (Reach-established s g g y y v b b w w refl).1 in
      let kept = ap (λ t. get_elem? t.factories g) e ∙ get-set_other s.factories f g _ apart ∙ b in
      let gone = ap (λ t. t.table c.id) e ∙ deleted (≡→same x.key c.id (k ∙ sym d)) in
      (
        rw (submit_close, ap s.table d ∙ there) refl,
        ap (λ t. t.calls) e,
        kept,
        rw (submit_close, gone) refl,
        run-to_close_gone next (late_close next f s) g y c kept gone,
      )
    where
      deleted : same x.key c.id ≡ true → delete x.key s.table c.id ≡ none
      deleted h = rw (delete, h) refl

      apart : f ≢ g
      apart i = clash (same_factory (sym a ∙ ap (get_elem? s.factories) i ∙ b))
        where
          same_factory : some x ≡ some y → x ≡ y
          same_factory z = cc

          clash : x ≡ y → ⊥
          clash z = states (sym u ∙ ap (λ m. m.state) z ∙ w)
            where
              states : closed ≡ established → ⊥
              states o = cc
