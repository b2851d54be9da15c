-- ===== src/Begin/Accepts.antt =====
-- The contract of pkg/networkservice/common/begin towards the chain behind it: what it may call there
-- for one connection id, and the connection that is open after that.
use nsm_sdk.Prelude.{◌≡◌, ◌≢◌, sym, List, [], ◌∷◌, Option, none, some, String}
use nsm_sdk.Begin.{Connection, Request, Call, requested, closes, with_up}

module _ {X M : Type 0} where
  abbrev pub key_of : Call X M → String
  key_of (requested k r o) = k
  key_of (closes k c) = k

  -- The calls under the key, the last one first, and the connection that they leave open: a close
  -- closes what the last successful request has answered, but for its state, and once only.
  pub data Accepts (k : String) : List (Call X M) → Option (Connection X M) → Type 0 where
    no_call : Accepts k [] none
    opened :
        {cs : List (Call X M)} {o : Option (Connection X M)}
        → (r : Request X M) (c : Connection X M) → Accepts k cs o
        → Accepts k (requested k r (some c) ∷ cs) (some c)
    failed :
        {cs : List (Call X M)} {o : Option (Connection X M)}
        → (r : Request X M) → Accepts k cs o
        → Accepts k (requested k r none ∷ cs) o
    shut :
        {cs : List (Call X M)} {d : Connection X M}
        → (c : Connection X M) → with_up c ≡ with_up d
        → Accepts k cs (some d)
        → Accepts k (closes k c ∷ cs) none
    of_other :
        {cs : List (Call X M)} {o : Option (Connection X M)}
        → (c : Call X M) → key_of c ≢ k
        → Accepts k cs o
        → Accepts k (c ∷ cs) o

  -- The connection that the contract holds open is the one the server keeps.
  abbrev pub Alike : Option (Connection X M) → Option (Connection X M) → Type 0
  Alike none none = Unit {0}
  Alike (some c) (some d) = with_up c ≡ with_up d
  Alike none (some d) = ⊥
  Alike (some c) none = ⊥

  abbrev pub Leaves : String → List (Call X M) → Option (Connection X M) → Type 0
  Leaves k cs o = (p : Option (Connection X M)) × Accepts k cs p × Alike p o

  pub Leaves-opened :
      (k : String) (cs : List (Call X M)) (o : Option (Connection X M)) (r : Request X M)
      (c d : Connection X M)
      → with_up c ≡ with_up d
      → Leaves k cs o
      → Leaves k (requested k r (some c) ∷ cs) (some d)
  Leaves-opened k cs o r c d e (p, a, q) = (some c, opened r c a, e)

  pub Leaves-failed :
      (k : String) (cs : List (Call X M)) (o : Option (Connection X M)) (r : Request X M)
      → Leaves k cs o
      → Leaves k (requested k r none ∷ cs) o
  Leaves-failed k cs o r (p, a, q) = (p, failed r a, q)

  pub Leaves-shut :
      (k : String) (cs : List (Call X M)) (c : Connection X M)
      → Leaves k cs (some c)
      → Leaves k (closes k c ∷ cs) none
  Leaves-shut k cs c (some d, a, q) = (none, shut c (sym q) a, tt)
  Leaves-shut k cs c (none, a, q) = absurd q

  pub Leaves-other :
      (k : String) (cs : List (Call X M)) (o : Option (Connection X M)) (c : Call X M)
      → key_of c ≢ k
      → Leaves k cs o
      → Leaves k (c ∷ cs) o
  Leaves-other k cs o c n (p, a, q) = (p, of_other c n a, q)
