-- ===== src/UpdatePath.antt =====
-- pkg/networkservice/common/updatepath: `updatePath` of common.go, and the client and the server that
-- call it around the rest of the chain. `uuid.New()` is called at most once by a run of
-- `updatePath`: what it gives is an argument.
pub mod Place
pub mod Chain
use nsm_sdk.Prelude.{
  ℕ, ◌+◌, ◌-◌, ◌%◌, ◌^◌, List, [], ◌∷◌, ◌++◌, Option, none, some, Bool, true, false, not, ◌&&◌, ltb,
  leb, if◌then◌else◌, length, get_elem?, set, String, same,
}

pub record Segment : Type 0 where
  pub name : String
  pub id : String

-- `Index` is a uint32.
pub record ConnectionPath : Type 0 where
  pub index : ℕ
  pub segments : List Segment

pub record Connection : Type 0 where
  pub id : String
  pub path : Option ConnectionPath

pub data Refusal : Type 0 where
  nil_connection : Refusal
  index_beyond : Refusal
  id_differs : Refusal

pub data Outcome : Type 0 where
  updated : Connection → ℕ → Outcome
  refused : Refusal → Outcome
  panics : Outcome

abbrev pub path_or_new : Option ConnectionPath → ConnectionPath
path_or_new none = record { index = 0; segments = [] }
path_or_new (some p) = p

-- 0: there is no segment.
unfoldable pub first_segment : String → String → Connection → Outcome
first_segment fresh name c =
    let id = if same c.id "" then fresh else c.id in
    updated
      record {
        id = id;
        path = some (record { index = 0; segments = record { name = name; id = id } ∷ [] });
      }
      0

-- 2.1: the next segment has another name.
unfoldable pub rename_next : String → String → ℕ → List Segment → List Segment
rename_next fresh name next segments = elim (get_elem? segments next) [
  | none ↦ segments
  | some s ↦
      if same s.name name then segments else set segments next (record { name = name; id = fresh })
]

-- 2.2 and 2.3: the index moves to the next segment, which is added if there is none.
unfoldable pub enter_next : String → String → Connection → ConnectionPath → Outcome
enter_next fresh name c p =
    let index = (p.index + 1) % 2 ^ 32 in
    let last = (index + 2 ^ 32 - 1) % 2 ^ 32 in
    if leb (length p.segments) index
    then updated
        record {
          id = fresh;
          path = some (record {
            index = index;
            segments = p.segments ++ record { name = name; id = fresh } ∷ [];
          });
        }
        last
    else elim (get_elem? p.segments index) [
      | none ↦ panics
      | some s ↦ updated (record { id = s.id; path = some (record p { index = index }) }) last
    ]

-- 2: the current segment has another name.
unfoldable pub leave_current : String → String → Connection → ConnectionPath → Outcome
unfolding rename_next enter_next
leave_current fresh name c p =
    if ltb (length p.segments) (p.index + 1)
    then refused index_beyond
    else elim (get_elem? p.segments p.index) [
      | none ↦ panics
      | some s ↦
          if same s.id c.id
          then enter_next fresh name c
              (record p { segments = rename_next fresh name (p.index + 1) p.segments })
          else refused id_differs
    ]

unfoldable pub update_at : String → String → Connection → ConnectionPath → Outcome
unfolding leave_current
update_at fresh name c p = elim (get_elem? p.segments p.index) [
  | none ↦ leave_current fresh name c p
  | some s ↦
      if same s.name name
      then updated (record { id = s.id; path = some p }) p.index
      else leave_current fresh name c p
]

unfoldable pub update_path : String → String → Option Connection → Outcome
unfolding first_segment update_at
update_path fresh name none = refused nil_connection
update_path fresh name (some c) =
    let p = path_or_new c.path in
    elim p.segments [ [] ↦ first_segment fresh name c | s ∷ ss ↦ update_at fresh name c p ]

-- What the chain element answers: its own error, that of the rest of the chain, or a connection.
pub data Answer (E : Type 0) : Type 0 where
  answered : Connection → Answer E
  rejected : Refusal → Answer E
  failed : E → Answer E
  crashed : Answer E

-- The end of `Request`: the index and the id of the place where the request came in. A connection
-- with no path has a nil `ConnectionPath`, whose field is read.
unfoldable pub restore : {E : Type 0} → ℕ → Connection → Answer E
restore index c = elim c.path [
  | none ↦ crashed
  | some p ↦ elim (get_elem? p.segments index) [
    | none ↦ crashed
    | some s ↦ answered (record { id = s.id; path = some (record p { index = index }) })
  ]
]

abbrev pub connection_or_new : Option Connection → Connection
connection_or_new none = record { id = ""; path = none }
connection_or_new (some c) = c

-- `Request` of the client and of the server: the same code. The rest of the chain is `next`.
unfoldable pub request :
    {E : Type 0} → (Connection → Answer E) → String → String → Option Connection → Answer E
unfolding restore update_path
request next fresh name c = elim (update_path fresh name (some (connection_or_new c))) [
  | refused e ↦ rejected e
  | panics ↦ crashed
  | updated c' index ↦ elim (next c') [
    | answered d ↦ restore index d
    | rejected e ↦ rejected e
    | failed e ↦ failed e
    | crashed ↦ crashed
  ]
]

-- `Close` passes on the connection as it is updated.
unfoldable pub close :
    {E : Type 0} → (Connection → Answer E) → String → String → Option Connection → Answer E
unfolding update_path
close next fresh name c = elim (update_path fresh name c) [
  | refused e ↦ rejected e
  | panics ↦ crashed
  | updated c' index ↦ next c'
]
