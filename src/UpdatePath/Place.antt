-- ===== src/UpdatePath/Place.antt =====
-- Where `updatePath` leaves a connection.
use native.Mathlib.Decide.{dec_lt}
use nsm_sdk.Prelude.{
  ℕ, ◌+◌, ◌-◌, ◌%◌, ◌^◌, ◌≤◌, ◌<◌, ◌≡◌, ◌≢◌, ◌⊎◌, ◌∙◌, inl, inr, refl, sym, ap, subst, arith, List,
  [], ◌∷◌, ◌++◌, some, Bool, true, false, ltb, leb, length, get_elem?, String, same, same→≡, same→≢,
  length-append, get-inside, get-beyond, get-set, get-set_other, length-set, get-snoc,
  get-snoc_before,
}
use nsm_sdk.UpdatePath.{
  Segment, ConnectionPath, Connection, index_beyond, id_differs, Outcome, updated, refused,
  path_or_new, first_segment, rename_next, enter_next, leave_current, update_at, update_path,
}

-- Where the connection is placed: it stands at a segment with the name, and has the id of this
-- segment. All other segments of the path `p` are kept, and one is added at most, at the end.
pub record Placed (name : String) (p : ConnectionPath) (c : Connection) : Type 0 where
  pub path : ConnectionPath
  pub has_path : c.path ≡ some path
  pub current : get_elem? path.segments path.index ≡ some (record { name = name; id = c.id })
  pub kept :
      (i : ℕ)
      → i < length p.segments
      → i ≢ path.index
      → get_elem? path.segments i ≡ get_elem? p.segments i
  pub grows :
      (length path.segments ≡ length p.segments)
      ⊎ ((length path.segments ≡ length p.segments + 1) × (path.index ≡ length p.segments))

-- What a run gives: the connection placed at the first segment of an empty path, at the current one
-- if it has the name, or at the next one if the current one has another name and the id of the
-- connection; and a refusal if there is no current segment, or its id is another one.
pub data Runs (name : String) (c : Connection) (p : ConnectionPath) : Outcome → Type 0 where
  begins :
      (d : Connection) (y : Placed name p d)
      → p.segments ≡ []
      → y.path.index ≡ 0
      → Runs name c p (updated d 0)
  stays : (d : Connection) (y : Placed name p d) → y.path ≡ p → Runs name c p (updated d p.index)
  moves :
      (s : Segment) (d : Connection) (y : Placed name p d)
      → get_elem? p.segments p.index ≡ some s
      → s.name ≢ name
      → s.id ≡ c.id
      → y.path.index ≡ p.index + 1
      → Runs name c p (updated d p.index)
  beyond : p.segments ≢ [] → length p.segments ≤ p.index → Runs name c p (refused index_beyond)
  differs :
      (s : Segment)
      → get_elem? p.segments p.index ≡ some s
      → s.name ≢ name
      → s.id ≢ c.id
      → Runs name c p (refused id_differs)

-- After 2.1 the next segment, if there is one, has the name, and the others are as before.
record Renamed (name : String) (xs : List Segment) (n : ℕ) (ys : List Segment) : Type 0 where
  id : String
  there : get_elem? ys n ≡ some (record { name = name; id = id })
  same_length : length ys ≡ length xs
  others : (i : ℕ) → i ≢ n → get_elem? ys i ≡ get_elem? xs i

rename_next_at :
    (fresh name : String) (xs : List Segment) (n : ℕ) (t : Segment) (b : Bool)
    → n < length xs
    → get_elem? xs n ≡ some t
    → same t.name name ≡ b
    → Renamed name xs n (rename_next fresh name n xs)
unfolding rename_next
rename_next_at fresh name xs n t true h e x = record {
  id = t.id;
  there =
      rw (e, x, rename_next)
        (e ∙ ap (λ m. some (record { name = m; id = t.id })) (same→≡ t.name name x));
  same_length = rw (e, x, rename_next) refl;
  others = λ i d. rw (e, x, rename_next) refl;
}
rename_next_at fresh name xs n t false h e x = record {
  id = fresh;
  there = rw (e, x, rename_next) (get-set xs n _ h);
  same_length = rw (e, x, rename_next) (length-set xs n _);
  others = λ i d. rw (e, x, rename_next) (get-set_other xs n i _ (λ z. d (sym z)));
}

rename_next_lem :
    (fresh name : String) (xs : List Segment) (n : ℕ)
    → n < length xs
    → Renamed name xs n (rename_next fresh name n xs)
rename_next_lem fresh name xs n h =
    let (t, e) = get-inside xs n h in rename_next_at fresh name xs n t (same t.name name) h e refl

rename_next_end :
    (fresh name : String) (xs : List Segment) (n : ℕ)
    → length xs ≤ n
    → rename_next fresh name n xs ≡ xs
unfolding rename_next
rename_next_end fresh name xs n h = rw (get-beyond xs n h, rename_next) refl

enter_inside :
    (fresh name : String) (c : Connection) (i : ℕ) (ys : List Segment) (t : Segment)
    → i + 1 < length ys
    → i + 1 < 2 ^ 32
    → get_elem? ys (i + 1) ≡ some t
    → enter_next fresh name c (record { index = i; segments = ys })
      ≡ updated (record { id = t.id; path = some (record { index = i + 1; segments = ys }) }) i
unfolding enter_next
enter_inside fresh name c i ys t h short e =
    let a : (i + 1) % 2 ^ 32 ≡ i + 1 = omega arith in
    let b : (i + 1 + 2 ^ 32 - 1) % 2 ^ 32 ≡ i = omega arith in
    let l : leb (length ys) (i + 1) ≡ false = ground arith in rw (a, b, l, e, enter_next) cc

enter_end :
    (fresh name : String) (c : Connection) (i : ℕ) (ys : List Segment)
    → i + 1 ≡ length ys
    → i + 1 < 2 ^ 32
    → enter_next fresh name c (record { index = i; segments = ys })
      ≡ updated
          (record {
            id = fresh;
            path = some (record {
              index = i + 1;
              segments = ys ++ record { name = name; id = fresh } ∷ [];
            });
          })
          i
unfolding enter_next
enter_end fresh name c i ys h short =
    let a : (i + 1) % 2 ^ 32 ≡ i + 1 = omega arith in
    let b : (i + 1 + 2 ^ 32 - 1) % 2 ^ 32 ≡ i = omega arith in
    let l : leb (length ys) (i + 1) ≡ true = ground arith in rw (a, b, l, enter_next) refl

module _ (fresh name : String) (c : Connection) (p : ConnectionPath)
    (short : length p.segments < 2 ^ 32) (s : Segment)
    (here : get_elem? p.segments p.index ≡ some s) (inside : p.index < length p.segments)
    (other : s.name ≢ name) (owned : s.id ≡ c.id) where
  move_inside :
      p.index + 1 < length p.segments
      → Runs name c p (
          enter_next fresh name c
            (record p { segments = rename_next fresh name (p.index + 1) p.segments }))
  move_inside h =
      let m = rename_next_lem fresh name p.segments (p.index + 1) h in
      subst (Runs name c p)
        (sym (
          enter_inside fresh name c p.index _ _ (omega (arith, m.same_length)) (omega arith)
            m.there))
        (moves s _
          (record {
            path = record { index = p.index + 1; segments = _ };
            has_path = refl;
            current = m.there;
            kept = λ i k d. m.others i d;
            grows = inl m.same_length;
          })
          here other owned refl)

  move_end :
      p.index + 1 ≡ length p.segments
      → Runs name c p (
          enter_next fresh name c
            (record p { segments = rename_next fresh name (p.index + 1) p.segments }))
  move_end h =
      let y : Segment = record { name = name; id = fresh } in
      subst (λ ys. Runs name c p (enter_next fresh name c (record p { segments = ys })))
        (sym (rename_next_end fresh name p.segments (p.index + 1) (omega arith)))
        (subst (Runs name c p) (sym (enter_end fresh name c p.index p.segments h (omega arith))) (
          moves s _
            (record {
              path = record { index = p.index + 1; segments = p.segments ++ y ∷ [] };
              has_path = refl;
              current = ap (get_elem? (p.segments ++ y ∷ [])) h ∙ get-snoc p.segments y;
              kept = λ i k d. get-snoc_before p.segments y i k;
              grows = inr (omega (arith, length-append p.segments (y ∷ [])), h);
            })
            here other owned refl))

leave_lem :
    (fresh name : String) (c : Connection) (p : ConnectionPath) (b : Bool) (s : Segment)
    → length p.segments < 2 ^ 32
    → get_elem? p.segments p.index ≡ some s
    → p.index < length p.segments
    → s.name ≢ name
    → same s.id c.id ≡ b
    → Runs name c p (leave_current fresh name c p)
unfolding leave_current
leave_lem fresh name c p false s short here inside other e =
    let l : ltb (length p.segments) (p.index + 1) ≡ false = ground arith in
    rw (l, here, e, leave_current) (differs s here other (same→≢ s.id c.id e))
leave_lem fresh name c p true s short here inside other e =
    let l : ltb (length p.segments) (p.index + 1) ≡ false = ground arith in
    let owned = same→≡ s.id c.id e in
    rw (l, here, e, leave_current)
      (elim (dec_lt (p.index + 1) (length p.segments)) [
        | yes h ↦ move_inside fresh name c p short s here inside other owned h
        | no h ↦ move_end fresh name c p short s here inside other owned (omega arith)
      ])

update_at_lem :
    (fresh name : String) (c : Connection) (p : ConnectionPath) (b : Bool) (s : Segment)
    → length p.segments < 2 ^ 32
    → get_elem? p.segments p.index ≡ some s
    → p.index < length p.segments
    → same s.name name ≡ b
    → Runs name c p (update_at fresh name c p)
unfolding update_at
update_at_lem fresh name c p false s short here inside e =
    rw (here, e, update_at)
      (leave_lem fresh name c p (same s.id c.id) s short here inside (same→≢ s.name name e) refl)
update_at_lem fresh name c p true s short here inside e =
    rw (here, e, update_at)
      (stays (record { id = s.id; path = some p })
        (record {
          path = p;
          has_path = refl;
          current = here ∙ ap (λ m. some (record { name = m; id = s.id })) (same→≡ s.name name e);
          kept = λ i k d. refl;
          grows = inl refl;
        })
        refl)

beyond_lem :
    (fresh name : String) (c : Connection) (p : ConnectionPath)
    → p.segments ≢ []
    → length p.segments ≤ p.index
    → Runs name c p (update_at fresh name c p)
unfolding update_at leave_current
beyond_lem fresh name c p k h =
    let l : ltb (length p.segments) (p.index + 1) ≡ true = ground arith in
    rw (get-beyond p.segments p.index h, update_at, l, leave_current) (beyond k h)

first_lem :
    (fresh name : String) (c : Connection) (p : ConnectionPath)
    → p.segments ≡ []
    → Runs name c p (first_segment fresh name c)
unfolding first_segment
first_lem fresh name c p e =
    begins _
      (record {
        path = record { index = 0; segments = record { name = name; id = _ } ∷ [] };
        has_path = refl;
        current = refl;
        kept = λ i k d. absurd (omega (arith, ap length e));
        grows = inr (rw e refl, rw e refl);
      })
      e refl

nonempty : (s : Segment) (ss : List Segment) → s ∷ ss ≡ [] → ⊥
nonempty s ss k = cc

-- On every path of fewer than 2^32 segments `updatePath` runs to its end without a panic, and
-- places the connection at a segment with the name, or refuses: see `Runs`.
pub update_path_lem :
    (fresh name : String) (c : Connection)
    → length (path_or_new c.path).segments < 2 ^ 32
    → Runs name c (path_or_new c.path) (update_path fresh name (some c))
unfolding update_path
update_path_lem fresh name c short = cases (path_or_new c.path).segments refl
  where
    cases :
        (ss : List Segment)
        → (path_or_new c.path).segments ≡ ss
        → Runs name c (path_or_new c.path) (update_path fresh name (some c))
    cases [] e = rw (e, update_path) (first_lem fresh name c (path_or_new c.path) e)
    cases (s ∷ ss) e =
        let p = path_or_new c.path in
        rw (e, update_path)
          (elim (dec_lt p.index (length p.segments)) [
            | yes h ↦
                let (t, k) = get-inside p.segments p.index h in
                update_at_lem fresh name c p (same t.name name) t short k h refl
            | no h ↦ beyond_lem fresh name c p (λ k. nonempty s ss (sym e ∙ k)) (omega arith)
          ])
