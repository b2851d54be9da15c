-- ===== src/Begin.antt =====
-- pkg/networkservice/common/begin: the server of server.go with its event factories of
-- event_factory.go. A job that an executor runs is one step: the jobs of one factory never overlap,
-- and a job that waits for its turn may be run at any later time. The chain behind the server is the
-- argument `next` of a job: what `Request` answers there, where `none` stands for an error.
pub mod Merge
pub mod Client
pub mod Accepts
pub mod Current
pub mod Fresh
pub mod Closes
pub mod Jobs
pub mod Requests
pub mod Runs
use nsm_sdk.Prelude.{
  ℕ, zero, suc, List, [], ◌∷◌, ◌++◌, Option, none, some, Bool, true, false, not, ◌&&◌, ◌==◌,
  if◌then◌else◌, length, get_elem?, set, String, same,
}

pub data ConnectionState : Type 0 where
  up : ConnectionState
  down : ConnectionState
  reselect_requested : ConnectionState

-- `context` and `mechanism` are nil where they are `none`.
pub record Connection (X M : Type 0) : Type 0 where
  pub id : String
  pub endpoint_name : String
  pub state : ConnectionState
  pub mechanism : Option M
  pub context : Option X

pub record Request (X M : Type 0) : Type 0 where
  pub connection : Connection X M
  pub preferences : List M

pub data FactoryState : Type 0 where
  initial : FactoryState
  established : FactoryState
  closed : FactoryState

-- `key` is the id that `afterCloseFunc` deletes.
pub record Factory (X M : Type 0) : Type 0 where
  pub key : String
  pub state : FactoryState
  pub request : Option (Request X M)
  pub returned : Option (Connection X M)

-- What an executor is to run. An event may find its context cancelled.
pub data Job (X M : Type 0) : Type 0 where
  to_request : Request X M → Job X M
  to_close : Connection X M → Job X M
  event_request : Bool → Job X M
  event_close : Bool → Job X M

-- The calls of the chain behind, under the key of the factory that makes them.
pub data Call (X M : Type 0) : Type 0 where
  requested : String → Request X M → Option (Connection X M) → Call X M
  closes : String → Connection X M → Call X M

-- The factories stand in the order in which they are made, the calls with the last one first.
pub record Server (X M : Type 0) : Type 0 where
  pub factories : List (Factory X M)
  pub table : String → Option ℕ
  pub jobs : List (ℕ × Job X M)
  pub calls : List (Call X M)

abbrev pub store : String → ℕ → (String → Option ℕ) → String → Option ℕ
store key f m k = if same key k then some f else m k

abbrev pub delete : String → (String → Option ℕ) → String → Option ℕ
delete key m k = if same key k then none else m k

abbrev pub is_established : FactoryState → Bool
is_established established = true
is_established initial = false
is_established closed = false

abbrev pub is_reselect : ConnectionState → Bool
is_reselect reselect_requested = true
is_reselect up = false
is_reselect down = false

abbrev pub remove_at {ℓ} : {A : Type ℓ} → List A → ℕ → List A
remove_at [] i = []
remove_at (x ∷ xs) zero = xs
remove_at (x ∷ xs) (suc i) = x ∷ remove_at xs i

module _ {X M : Type 0} where
  abbrev pub with_state : FactoryState → Factory X M → Factory X M
  with_state st x = record x { state = st }

  abbrev pub with_up : Connection X M → Connection X M
  with_up c = record c { state = up }

  abbrev new_factory : String → Factory X M
  new_factory key = record { key = key; state = initial; request = none; returned = none }

  abbrev pub update : ℕ → Factory X M → Server X M → Server X M
  update f x s = record s { factories = set s.factories f x }

  abbrev pub call : Call X M → Server X M → Server X M
  call c s = record s { calls = c ∷ s.calls }

  -- `currentEventFactoryServer == eventFactoryServer`.
  abbrev pub is_current : String → ℕ → Server X M → Bool
  is_current key f s = elim (s.table key) [ none ↦ false | some g ↦ g == f ]

  abbrev pub enqueue : ℕ → Job X M → Server X M → Server X M
  enqueue f j s = record s { jobs = s.jobs ++ (f, j) ∷ [] }

  -- `Request`, up to `AsyncExec`. A request with no connection has the empty id.
  unfoldable pub submit_request : Request X M → Server X M → Server X M
  submit_request r s = if same r.connection.id "" then s else elim (s.table r.connection.id) [
    | some f ↦ enqueue f (to_request r) s
    | none ↦ enqueue (length s.factories) (to_request r) record s {
      factories = s.factories ++ new_factory r.connection.id ∷ [];
      table = store r.connection.id (length s.factories) s.table;
    }
  ]

  -- `Close`, up to `AsyncExec`.
  unfoldable pub submit_close : Connection X M → Server X M → Server X M
  submit_close c s = elim (s.table c.id) [ none ↦ s | some f ↦ enqueue f (to_close c) s ]

  -- `afterCloseFunc`.
  unfoldable pub after_close : ℕ → Factory X M → Server X M → Server X M
  after_close f x s = record s {
    factories = set s.factories f (with_state closed x);
    table = delete x.key s.table;
  }

  -- The old connection is closed where the request asks for another endpoint.
  unfoldable pub reselect : ℕ → Factory X M → Request X M → Server X M → Server X M × Factory X M
  reselect f x r s =
      if is_established x.state && is_reselect r.connection.state
      then elim x.request [
        | none ↦ (s, x)
        | some q ↦ (
          update f (with_state closed x) (call (closes x.key q.connection) s),
          with_state closed x,
        )
      ]
      else (s, x)

  -- What is made of the answer.
  unfoldable pub settle :
      ℕ → Factory X M → Request X M → Option (Connection X M) → Server X M → Server X M
  settle f x r none s = if is_established x.state then s else record s {
    factories = set s.factories f (with_state closed x);
    table = delete r.connection.id s.table;
  }
  settle f x r (some c) s =
      update f
        record x {
          state = established;
          request = some (record r { connection = with_up c });
          returned = some (with_up c);
        }
        s

  unfoldable pub request_behind :
      (Request X M → Option (Connection X M))
      → ℕ
      → Request X M
      → Server X M × Factory X M
      → Server X M
  unfolding settle
  request_behind next f r (s, x) = settle f x r (next r) (call (requested x.key r (next r)) s)

  -- The function that `Request` has run.
  unfoldable pub run_request :
      (Request X M → Option (Connection X M))
      → ℕ
      → Factory X M
      → Request X M
      → Server X M
      → Server X M
  unfolding submit_request reselect request_behind
  run_request next f x r s =
      if is_current r.connection.id f s
      then request_behind next f r (reselect f x r s)
      else submit_request r s

  -- The function that `Close` has run.
  unfoldable pub run_close : ℕ → Factory X M → Connection X M → Server X M → Server X M
  unfolding after_close
  run_close f x c s = elim x.request [
    | none ↦ s
    | some q ↦
        if is_established x.state && is_current c.id f s
        then after_close f x (call (closes x.key q.connection) s)
        else s
  ]

  -- The functions that the methods of the factory have run.
  unfoldable pub run_event_request :
      (Request X M → Option (Connection X M)) → Bool → ℕ → Factory X M → Server X M → Server X M
  run_event_request next cancelled f x s = elim x.request [
    | none ↦ s
    | some q ↦
        if is_established x.state && not cancelled
        then elim (next q) [
          | none ↦ call (requested x.key q none) s
          | some c ↦
              update f (record x { request = some (record q { connection = c }) })
                (call (requested x.key q (some c)) s)
        ]
        else s
  ]

  unfoldable pub run_event_close : Bool → ℕ → Factory X M → Server X M → Server X M
  unfolding after_close
  run_event_close cancelled f x s = elim x.request [
    | none ↦ s
    | some q ↦ if cancelled then s else after_close f x (call (closes x.key q.connection) s)
  ]

  unfoldable pub run :
      (Request X M → Option (Connection X M)) → ℕ → Job X M → Server X M → Server X M
  unfolding run_request run_close run_event_request run_event_close
  run next f j s = elim (get_elem? s.factories f) [
    | none ↦ s
    | some x ↦ elim j [
      | to_request r ↦ run_request next f x r s
      | to_close c ↦ run_close f x c s
      | event_request cancelled ↦ run_event_request next cancelled f x s
      | event_close cancelled ↦ run_event_close cancelled f x s
    ]
  ]

  abbrev pub take_job : ℕ → Server X M → Server X M
  take_job i s = record s { jobs = remove_at s.jobs i }
