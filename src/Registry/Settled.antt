-- ===== src/Registry/Settled.antt =====
-- The events that wait, against the store of the registry.
use nsm_sdk.Prelude.{◌≡◌, ◌∙◌, refl, sym, ap, List, [], ◌∷◌, ◌++◌, Option, false, String, same}
use nsm_sdk.Registry.{
  Event, Channel, Task, send, open_channel, close_channel, Registry, load, apply, apply_all, view,
  pending,
}
use nsm_sdk.Registry.Store.{apply_all-append, apply_from, Covers}

module _ {E : Type 0} (name : E → String) where
  -- Applied to the store, the events leave it as it is, from each of them on.
  abbrev pub Settled : List (Event E name) → List E → Type 0
  Settled [] es = Unit {0}
  Settled (ev ∷ evs) es =
      ((k : String) (m : String → Option E)
        → m k ≡ load E name k es
        → apply_all E name (ev ∷ evs) m k ≡ load E name k es)
      × Settled evs es

  pub Settled-at :
      (evs : List (Event E name)) (es : List E) (k : String) (m : String → Option E)
      → Settled evs es
      → m k ≡ load E name k es
      → apply_all E name evs m k ≡ load E name k es
  Settled-at [] es k m s h = unfold apply_all in h
  Settled-at (ev ∷ evs) es k m (f, s) h = f k m h

  -- The store changes as the event tells.
  abbrev pub Tells : Event E name → List E → List E → Type 0
  Tells ev es fs = (k : String) → load E name k fs ≡ apply E name ev (λ j. load E name j es) k

  module _ (ev : Event E name) (es fs : List E) (t : Tells ev es fs) where
    -- Applied last, the event makes the new store of what is right for the old one, or at its own
    -- name of anything.
    tells_last :
        (m : String → Option E) (k : String)
        → ((same (name ev.entity) k ≡ false) → m k ≡ load E name k es)
        → apply E name ev m k ≡ load E name k fs
    tells_last m k h = apply_from name ev m (λ j. load E name j es) k h ∙ sym (t k)

    tells_other :
        (k : String) → same (name ev.entity) k ≡ false → load E name k fs ≡ load E name k es
    tells_other k x = t k ∙ other x
      where
        other :
            same (name ev.entity) k ≡ false
            → apply E name ev (λ j. load E name j es) k ≡ load E name k es
        other x = unfold apply in rw x refl

    pub Settled-snoc : (evs : List (Event E name)) → Settled evs es → Settled (evs ++ ev ∷ []) fs
    unfolding apply_all
    Settled-snoc [] s = ((λ k m h. tells_last m k (λ x. h ∙ tells_other k x)), tt)
    Settled-snoc (e ∷ evs) (f, s) = (
      (λ k m h.
          ap (λ n. n k) (apply_all-append name (e ∷ evs) (ev ∷ []) m)
          ∙ tells_last (apply_all E name (e ∷ evs) m) k (λ x. f k m (h ∙ tells_other k x))),
      Settled-snoc evs s,
    )

  -- What a channel will have told at the end of the waiting events.
  abbrev pub Follows : List (Event E name) → List E → List (Channel E name) → Type 0
  Follows evs es [] = Unit {0}
  Follows evs es (c ∷ cs) =
      ((k : String)
        → Covers name c.query k
        → apply_all E name evs (view E name c.log) k ≡ load E name k es)
      × Follows evs es cs

  pub record Good (s : Registry E name) : Type 0 where
    pub settled : Settled (pending E name s.tasks) s.entities
    pub follows : Follows (pending E name s.tasks) s.entities s.channels

  pub Follows-snoc :
      (ev : Event E name) (es fs : List E) (evs : List (Event E name)) (cs : List (Channel E name))
      → Tells ev es fs
      → Follows evs es cs
      → Follows (evs ++ ev ∷ []) fs cs
  Follows-snoc ev es fs evs [] t f = tt
  Follows-snoc ev es fs evs (c ∷ cs) t (f, g) = (
    (λ k h.
        ap (λ n. n k) (apply_all-append name evs (ev ∷ []) (view E name c.log))
        ∙ one (apply_all E name evs (view E name c.log)) k
        ∙ tells_last ev es fs t (apply_all E name evs (view E name c.log)) k (λ x. f k h)),
    Follows-snoc ev es fs evs cs t g,
  )
    where
      one :
          (m : String → Option E) (k : String)
          → apply_all E name (ev ∷ []) m k ≡ apply E name ev m k
      one m k = unfold apply_all in refl

  pub pending-append :
      (ts us : List (Task E name))
      → pending E name (ts ++ us) ≡ pending E name ts ++ pending E name us
  unfolding pending
  pending-append [] us = refl
  pending-append (send ev ∷ ts) us = ap (◌∷◌ ev) (pending-append ts us)
  pending-append (open_channel id q ∷ ts) us = pending-append ts us
  pending-append (close_channel id ∷ ts) us = pending-append ts us
