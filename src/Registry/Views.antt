-- ===== src/Registry/Views.antt =====
-- What the watchers of the registry know.
use mathlib.Core.List.{append-nil}
use nsm_sdk.Prelude.{
  ◌≡◌, ◌∙◌, refl, sym, ap, subst, List, [], ◌∷◌, ◌++◌, Option, none, some, Bool, true, false,
  if◌then◌else◌, String, same, same→≡, ≡→same, ◌⊎◌, Bool-cases, inl, inr,
}
use nsm_sdk.Registry.{
  Event, Channel, Task, send, open_channel, close_channel, Registry, load, remove, put, register,
  unregister, unregister_service, watch, stop_watch, send_all, drop_channel, run, received, apply,
  apply_all, view, pending, Step, registers, unregisters, watches, stops, runs, initial, Reachable,
  starts, steps,
}
use nsm_sdk.Registry.Store.{
  load-remove, load-put, apply_all-append, apply_all_from, Covers, received_lem, all_matches_lem,
}
use nsm_sdk.Registry.Settled.{
  Settled, Settled-at, Tells, Settled-snoc, Follows, Good, Follows-snoc, pending-append,
}

module _ {E : Type 0} (name : E → String) where
  put-Tells :
      (r : E) (es : List E)
      → Tells name (record { entity = r; deleted = false }) es (put E name r es)
  unfolding apply
  put-Tells r es k = load-put name k r es

  remove-Tells :
      (j : String) (e : E) (es : List E)
      → name e ≡ j
      → Tells name (record { entity = e; deleted = true }) es (remove E name j es)
  unfolding apply
  remove-Tells j e es h k =
      load-remove name k j es ∙ ap (λ i. if same i k then none else load E name k es) (sym h)

  load-name_step :
      (k : String) (e x : E) (es : List E) (b : Bool)
      → same (name x) k ≡ b
      → load E name k (x ∷ es) ≡ some e
      → (load E name k es ≡ some e → name e ≡ k)
      → name e ≡ k
  unfolding load
  load-name_step k e x es true y h i =
      let z : some x ≡ some e = ap (λ b. if b then some x else load E name k es) (sym y) ∙ h in
      ap name (sym (same-some x e z)) ∙ same→≡ (name x) k y
    where
      same-some : (x e : E) → some x ≡ some e → x ≡ e
      same-some x e z = cc
  load-name_step k e x es false y h i =
      i (ap (λ b. if b then some x else load E name k es) (sym y) ∙ h)

  -- What is loaded under a name has it.
  load-name : (k : String) (e : E) (es : List E) → load E name k es ≡ some e → name e ≡ k
  unfolding load
  load-name k e [] h = absurd (miss h)
    where
      miss : none ≡ some e → ⊥
      miss z = cc
  load-name k e (x ∷ es) h = load-name_step k e x es _ refl h (load-name k e es)

  tell-Good :
      (ev : Event E name) (s : Registry E name) (fs : List E)
      → Tells name ev s.entities fs
      → Good name s
      → Good name (record s { entities = fs; tasks = s.tasks ++ send ev ∷ [] })
  tell-Good ev s fs t g =
      let e : pending E name (s.tasks ++ send ev ∷ []) ≡ pending E name s.tasks ++ ev ∷ [] =
        pending-append name s.tasks (send ev ∷ []) ∙ ap (◌++◌ (pending E name s.tasks)) (one ev) in
      record {
        settled =
            subst (λ evs. Settled name evs fs) (sym e)
              (Settled-snoc name ev s.entities fs t (pending E name s.tasks) g.settled);
        follows =
            subst (λ evs. Follows name evs fs s.channels) (sym e)
              (Follows-snoc name ev s.entities fs (pending E name s.tasks) s.channels t g.follows);
      }
    where
      one : (ev : Event E name) → pending E name (send ev ∷ []) ≡ ev ∷ []
      one ev = unfold pending in refl

  -- A task that is no event leaves the events that wait as they are.
  quiet-Good :
      (u : Task E name) (s : Registry E name)
      → pending E name (u ∷ []) ≡ []
      → Good name s
      → Good name (record s { tasks = s.tasks ++ u ∷ [] })
  quiet-Good u s h g =
      let e : pending E name (s.tasks ++ u ∷ []) ≡ pending E name s.tasks =
        pending-append name s.tasks (u ∷ [])
        ∙ ap (◌++◌ (pending E name s.tasks)) h
        ∙ append-nil (pending E name s.tasks) in
      record {
        settled = subst (λ evs. Settled name evs s.entities) (sym e) g.settled;
        follows = subst (λ evs. Follows name evs s.entities s.channels) (sym e) g.follows;
      }

  Follows-send :
      (ev : Event E name) (evs : List (Event E name)) (es : List E) (cs : List (Channel E name))
      → Follows name (ev ∷ evs) es cs
      → Follows name evs es (send_all E name ev cs)
  unfolding send_all apply_all
  Follows-send ev evs es [] f = tt
  Follows-send ev evs es (c ∷ cs) (f, g) = (
    (λ k h. ap (λ m. apply_all E name evs m k) (sent c.log) ∙ f k h),
    Follows-send ev evs es cs g,
  )
    where
      sent :
          (log : List (Event E name))
          → view E name (log ++ ev ∷ []) ≡ apply E name ev (view E name log)
      sent log = unfold view in (apply_all-append name log (ev ∷ []) (λ k. none) ∙ refl)

  Follows-drop_step :
      (id : String) (evs : List (Event E name)) (es : List E) (c : Channel E name)
      (cs : List (Channel E name)) (b : Bool)
      → same c.id id ≡ b
      → Follows name evs es (c ∷ cs)
      → Follows name evs es (drop_channel E name id cs)
      → Follows name evs es (drop_channel E name id (c ∷ cs))
  unfolding drop_channel
  Follows-drop_step id evs es c cs true x f g = rw (x, drop_channel) g
  Follows-drop_step id evs es c cs false x f g = rw (x, drop_channel) (f.0, g)

  Follows-drop :
      (id : String) (evs : List (Event E name)) (es : List E) (cs : List (Channel E name))
      → Follows name evs es cs
      → Follows name evs es (drop_channel E name id cs)
  Follows-drop id evs es [] f = unfold drop_channel in tt
  Follows-drop id evs es (c ∷ cs) f =
      Follows-drop_step id evs es c cs _ refl f (Follows-drop id evs es cs f.1)

  run-Good :
      (es : List E) (ts : List (Task E name)) (cs : List (Channel E name))
      → Good name (record { entities = es; tasks = ts; channels = cs })
      → Good name (run E name (record { entities = es; tasks = ts; channels = cs }))
  unfolding run pending
  run-Good es [] cs g = g
  run-Good es (send ev ∷ ts) cs g = record {
    settled = g.settled.1;
    follows = Follows-send ev (pending E name ts) es cs g.follows;
  }
  run-Good es (open_channel id q ∷ ts) cs g = record {
    settled = g.settled;
    follows = (
      (λ k c. Settled-at name (pending E name ts) es k _ g.settled (all_matches_lem name q k es c)),
      g.follows,
    );
  }
  run-Good es (close_channel id ∷ ts) cs g = record {
    settled = g.settled;
    follows = Follows-drop id (pending E name ts) es cs g.follows;
  }

  unregister-Good :
      (k : String) (s : Registry E name) (o : Option E)
      → load E name k s.entities ≡ o
      → Good name s
      → Good name (unregister E name k s)
  unfolding unregister
  unregister-Good k s none e g = rw (e, unregister) g
  unregister-Good k s (some x) e g =
      rw (e, unregister)
        (tell-Good (record { entity = x; deleted = true }) s (remove E name k s.entities)
          (remove-Tells k x s.entities (load-name k x s.entities e)) g)

  Step-Good : (s t : Registry E name) → Step E name s t → Good name s → Good name t
  unfolding register watch stop_watch pending
  Step-Good s _ (registers none _) g = g
  Step-Good s _ (registers (some r) _) g =
      tell-Good (record { entity = r; deleted = false }) s (put E name r s.entities)
        (put-Tells r s.entities) g
  Step-Good s _ (unregisters k _) g = unregister-Good k s _ refl g
  Step-Good s _ (watches id q _) g = quiet-Good (open_channel id q) s refl g
  Step-Good s _ (stops id _) g = quiet-Good (close_channel id) s refl g
  Step-Good s _ (runs _) g = run-Good s.entities s.tasks s.channels g

  Reachable-Good : (s : Registry E name) → Reachable E name s → Good name s
  unfolding initial pending
  Reachable-Good _ starts = record { settled = tt; follows = tt }
  Reachable-Good t (steps s _ r p) = Step-Good s t p (Reachable-Good s r)

  abbrev pub Among : Channel E name → List (Channel E name) → Type 0
  Among c [] = ⊥
  Among c (d ∷ ds) = (d ≡ c) ⊎ Among c ds

  Follows-Among :
      (evs : List (Event E name)) (es : List E) (cs : List (Channel E name)) (c : Channel E name)
      → Follows name evs es cs
      → Among c cs
      → (k : String) → Covers name c.query k
      → apply_all E name evs (view E name c.log) k ≡ load E name k es
  Follows-Among evs es [] c f m k h = absurd m
  Follows-Among evs es (d ∷ ds) c (f, g) (inl e) k h =
      subst
        (λ d. Covers name d.query k → apply_all E name evs (view E name d.log) k ≡ load E name k es)
        e (f k) h
  Follows-Among evs es (d ∷ ds) c (f, g) (inr m) k h = Follows-Among evs es ds c g m k h

  -- However registrations, removals, watchers and the tasks of the executor of the registry of
  -- endpoints follow one another: what a watcher has been sent, with the events that still wait, tells
  -- of each name that its query covers just what the registry has under it.
  pub received-load :
      (s : Registry E name) (c : Channel E name) (k : String)
      → Reachable E name s
      → Among c s.channels
      → Covers name c.query k
      → apply_all E name (pending E name s.tasks) (view E name (received E name c.query c.log)) k
        ≡ load E name k s.entities
  received-load s c k r m h =
      apply_all_from name (pending E name s.tasks) (view E name (received E name c.query c.log))
        (view E name c.log) k (seen c.log)
      ∙ Follows-Among (pending E name s.tasks) s.entities s.channels c (Reachable-Good s r).follows
          m k h
    where
      seen :
          (log : List (Event E name))
          → view E name (received E name c.query log) k ≡ view E name log k
      seen log = unfold view in received_lem name c.query k log (λ j. none) h

  -- A state in which a service is removed as the registry of services does it, with no event: a watcher
  -- goes on to know the service, although the registry has it no more. The state before is one of the
  -- registry of endpoints, as is every state of that of services before its first removal.
  pub unregister_service-received :
      (s : Registry E name) (c : Channel E name) (k : String) (e : E)
      → Reachable E name s
      → Among c s.channels
      → Covers name c.query k
      → load E name k s.entities ≡ some e
      → let t = unregister_service E name k s in
        Among c t.channels
        × (load E name k t.entities ≡ none)
        × (apply_all E name (pending E name t.tasks) (view E name (received E name c.query c.log)) k
            ≡ some e)
  unfolding unregister_service
  unregister_service-received s c k e r m h l = (
    m,
    load-remove name k k s.entities ∙ rw (≡→same k k refl) refl,
    received-load s c k r m h ∙ l,
  )

  -- After `Register` a name is found with what was registered, after `Unregister` it is not found, and
  -- each leaves the other names as they are.
  pub register-unregister :
      (r : E) (j k : String) (s : Registry E name)
      → (load E name k (register E name (some r) s).1.entities
          ≡ (if same (name r) k then some r else load E name k s.entities))
        × (load E name k (unregister E name j s).entities
            ≡ (if same j k then none else load E name k s.entities))
  unfolding register unregister
  register-unregister r j k s = (load-put name k r s.entities, gone _ refl)
    where
      gone :
          (o : Option E)
          → load E name j s.entities ≡ o
          → load E name k (unregister E name j s).entities
            ≡ (if same j k then none else load E name k s.entities)
      gone none e =
          rw (e, unregister)
            (elim (Bool-cases (same j k)) [
              | inl x ↦ rw x (ap (λ i. load E name i s.entities) (sym (same→≡ j k x)) ∙ e)
              | inr x ↦ rw x refl
            ])
      gone (some x) e = rw (e, unregister) (load-remove name k j s.entities)
