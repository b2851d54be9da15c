-- ===== src/UpdatePath/Chain.antt =====
-- `Request` and `Close` around the rest of the chain.
use nsm_sdk.Prelude.{
  ℕ, zero, suc, ◌^◌, ◌<◌, ◌≡◌, ◌∙◌, refl, sym, ap, subst, arith, List, [], ◌∷◌, none, some, length,
  get_elem?, String, ≡→same,
}
use nsm_sdk.UpdatePath.{
  Segment, ConnectionPath, Connection, Outcome, updated, refused, panics, path_or_new, update_at,
  update_path, Answer, answered, restore, request,
}
use nsm_sdk.UpdatePath.Place.{Placed, Runs, begins, stays, moves, beyond, differs, update_path_lem}

none≢some : {A : Type 0} (x : A) → ¬ (none ≡ some x)
none≢some x = λ e. cc

some-inside : {A : Type 0} (xs : List A) (i : ℕ) (x : A) → get_elem? xs i ≡ some x → i < length xs
some-inside [] i x h = absurd (none≢some x h)
some-inside (y ∷ ys) zero x h = omega arith
some-inside (y ∷ ys) (suc i) x h = omega (arith, some-inside ys i x h)

-- A connection with a current segment of the name is left as it is.
stays_lem :
    (fresh name id : String) (i : ℕ) (ss : List Segment)
    → get_elem? ss i ≡ some (record { name = name; id = id })
    → update_path fresh name
        (some (record { id = id; path = some (record { index = i; segments = ss }) }))
      ≡ updated (record { id = id; path = some (record { index = i; segments = ss }) }) i
unfolding update_path update_at
stays_lem fresh name id i [] h = absurd (none≢some _ h)
stays_lem fresh name id i (s ∷ ss) h = rw (h, update_at, ≡→same name name refl) refl

-- A connection in the place where `updatePath` put it.
again :
    (fresh name : String) (c : Connection) (p : ConnectionPath) (y : Placed name p c)
    → update_path fresh name (some c) ≡ updated c y.path.index
again fresh name c p y =
    subst
      (λ o.
        update_path fresh name (some (record c { path = o }))
        ≡ updated (record c { path = o }) y.path.index)
      (sym y.has_path) (stays_lem fresh name c.id y.path.index y.path.segments y.current)

connection_of : Connection → Outcome → Connection
connection_of d (updated c i) = c
connection_of d (refused e) = d
connection_of d panics = d

module _ (name : String) (c : Connection) (p : ConnectionPath) where
  Placed-of :
      (d : Connection) (i : ℕ) (o : Outcome) → Runs name c p o → o ≡ updated d i → Placed name p d
  unfolding connection_of
  Placed-of d i _ (begins d' y a b) e = subst (Placed name p) (ap (connection_of d) e) y
  Placed-of d i _ (stays d' y a) e = subst (Placed name p) (ap (connection_of d) e) y
  Placed-of d i _ (moves s d' y a b k l) e = subst (Placed name p) (ap (connection_of d) e) y
  Placed-of d i _ (beyond a b) e = absurd cc
  Placed-of d i _ (differs s a b k) e = absurd cc

  -- The caller stands at a segment that has the id of its connection.
  caller_lem :
      (s : Segment) (o : Outcome)
      → Runs name c p o
      → get_elem? p.segments p.index ≡ some s
      → s.id ≡ c.id
      → (d : Connection) × (y : Placed name p d) × (o ≡ updated d p.index)
        × (get_elem? y.path.segments p.index ≡ some s)
  caller_lem s _ (begins d y a b) h k =
      absurd (none≢some s (sym (ap (λ ss. get_elem? ss p.index) a) ∙ h))
  caller_lem s _ (stays d y a) h k = (d, y, refl, ap (λ q. get_elem? q.segments p.index) a ∙ h)
  caller_lem s _ (moves t d y a b l m) h k =
      (d, y, refl, y.kept p.index (some-inside p.segments p.index s h) (λ e. omega arith) ∙ h)
  caller_lem s _ (beyond a b) h k = absurd (omega (arith, some-inside p.segments p.index s h))
  caller_lem s _ (differs t a b l) h k = absurd (l cc)

-- A connection that `updatePath` has placed is left as it is when the same element sees it again,
-- whatever new id is at hand: the path does not grow by a refresh.
pub update_path_again :
    (fresh fresh' name : String) (c d : Connection) (i : ℕ)
    → length (path_or_new c.path).segments < 2 ^ 32
    → update_path fresh name (some c) ≡ updated d i
    → (j : ℕ) × (update_path fresh' name (some d) ≡ updated d j)
update_path_again fresh fresh' name c d i short e =
    let y = Placed-of name c (path_or_new c.path) d i _ (update_path_lem fresh name c short) e in
    (y.path.index, again fresh' name d (path_or_new c.path) y)

-- The answer of the rest of the chain keeps the segment at `i` of the connection it is called with.
abbrev pub Keeps : {E : Type 0} → (Connection → Answer E) → ℕ → Type 0
Keeps next i =
    (d e : Connection) (p : ConnectionPath)
    → d.path ≡ some p
    → next d ≡ answered e
    → (q : ConnectionPath) × (e.path ≡ some q) × (get_elem? q.segments i ≡ get_elem? p.segments i)

request_answer :
    {E : Type 0} (next : Connection → Answer E) (fresh name : String) (c d e : Connection) (i : ℕ)
    (q : ConnectionPath) (s : Segment)
    → update_path fresh name (some c) ≡ updated d i
    → next d ≡ answered e
    → e.path ≡ some q
    → get_elem? q.segments i ≡ some s
    → request next fresh name (some c)
      ≡ answered (record { id = s.id; path = some (record q { index = i }) })
unfolding request restore
request_answer next fresh name c d e i q s u r f h = rw (u, r, f, h, request, restore) refl

-- A caller at a segment with its connection's id gets this id and its own index back: `Request`
-- places the connection with the name for the rest of the chain, and where this answers and keeps
-- the caller's segment, the answer has the path of this answer at the index of the caller.
pub request_lem :
    {E : Type 0} (next : Connection → Answer E) (fresh name : String) (c : Connection)
    (p : ConnectionPath) (s : Segment)
    → c.path ≡ some p
    → length p.segments < 2 ^ 32
    → get_elem? p.segments p.index ≡ some s
    → s.id ≡ c.id
    → Keeps next p.index
    → (d : Connection) × Placed name p d
      × ((e : Connection)
          → next d ≡ answered e
          → (q : ConnectionPath) × (e.path ≡ some q)
            × (request next fresh name (some c)
                ≡ answered (record { id = c.id; path = some (record q { index = p.index }) })))
request_lem next fresh name c p s at short h k keeps =
    let runs =
      subst (λ o. Runs name c (path_or_new o) (update_path fresh name (some c))) at
        (update_path_lem fresh name c (rw at short)) in
    let (d, y, u, kept) = caller_lem name c p s _ runs h k in
    (
      d,
      y,
      λ e r.
          let (q, f, g) = keeps d e y.path y.has_path r in
          (
            q,
            f,
            request_answer next fresh name c d e p.index q s u r f (g ∙ kept)
                ∙ ap (λ i. answered (record { id = i; path = some (record q { index = p.index }) }))
                    k,
          ),
    )
