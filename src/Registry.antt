-- ===== src/Registry.antt =====
-- The memory registry of endpoints, pkg/registry/common/memory/nse_server.go: a store of entities by
-- name, an executor that runs its tasks in order, and the channels of those who watch. An entity, its
-- name and the match of a query are arguments. A change of the store and the hand-over of its event
-- are one step, as for calls that a chain serialises; channels do not fill up. The registry of services,
-- ns_server.go beside it, is the same but for `Unregister`, which is `unregister_service`.
pub mod Store
pub mod Settled
pub mod Views
use nsm_sdk.Prelude.{
  List, [], ◌∷◌, ◌++◌, Option, none, some, Bool, true, false, if◌then◌else◌, String, same,
}

module _ (E : Type 0) (name : E → String) where
  pub record Event : Type 0 where
    pub entity : E
    pub deleted : Bool

  -- A channel: the query of its watcher, and the events sent to it.
  pub record Channel : Type 0 where
    pub id : String
    pub query : E → Bool
    pub log : List Event

  -- The tasks that the executor is given by `sendEvent`, by `Find` and by `closeEventChannel`.
  pub data Task : Type 0 where
    send : Event → Task
    open_channel : String → (E → Bool) → Task
    close_channel : String → Task

  pub record Registry : Type 0 where
    pub entities : List E
    pub tasks : List Task
    pub channels : List Channel

  -- The map from names to entities.
  unfoldable pub load : String → List E → Option E
  load k [] = none
  load k (e ∷ es) = if same (name e) k then some e else load k es

  unfoldable pub remove : String → List E → List E
  remove k [] = []
  remove k (e ∷ es) = let rest = remove k es in if same (name e) k then rest else e ∷ rest

  unfoldable pub put : E → List E → List E
  unfolding remove
  put e es = e ∷ remove (name e) es

  -- `Register` of what the rest of the chain gives back, `none` if it fails.
  unfoldable pub register : Option E → Registry → Option E × Registry
  unfolding put
  register none s = (none, s)
  register (some r) s = (
    some r,
    record s {
      entities = put r s.entities;
      tasks = s.tasks ++ send (record { entity = r; deleted = false }) ∷ [];
    },
  )

  -- `Unregister`, up to the call of the rest of the chain.
  unfoldable pub unregister : String → Registry → Registry
  unfolding load remove
  unregister k s = elim (load k s.entities) [
    | none ↦ s
    | some e ↦ record s {
      entities = remove k s.entities;
      tasks = s.tasks ++ send (record { entity = e; deleted = true }) ∷ [];
    }
  ]

  -- `Unregister` of ns_server.go, up to the call of the rest of the chain: no event is sent.
  unfoldable pub unregister_service : String → Registry → Registry
  unfolding remove
  unregister_service k s = record s { entities = remove k s.entities }

  -- `allMatches`: a map is ranged over in any order.
  unfoldable pub all_matches : (E → Bool) → List E → List E
  all_matches q [] = []
  all_matches q (e ∷ es) = let rest = all_matches q es in if q e then rest ++ e ∷ [] else rest

  -- `Find` with `Watch`, and its end.
  unfoldable pub watch : String → (E → Bool) → Registry → Registry
  watch id q s = record s { tasks = s.tasks ++ open_channel id q ∷ [] }

  unfoldable pub stop_watch : String → Registry → Registry
  stop_watch id s = record s { tasks = s.tasks ++ close_channel id ∷ [] }

  unfoldable pub send_all : Event → List Channel → List Channel
  send_all ev [] = []
  send_all ev (c ∷ cs) = record c { log = c.log ++ ev ∷ [] } ∷ send_all ev cs

  unfoldable pub added : List E → List Event
  added [] = []
  added (e ∷ es) = record { entity = e; deleted = false } ∷ added es

  unfoldable pub drop_channel : String → List Channel → List Channel
  drop_channel id [] = []
  drop_channel id (c ∷ cs) =
      let rest = drop_channel id cs in if same c.id id then rest else c ∷ rest

  -- The executor runs its first task.
  unfoldable pub run : Registry → Registry
  unfolding send_all added all_matches drop_channel
  run s = elim s.tasks [
    | [] ↦ s
    | t ∷ ts ↦ elim t [
      | send ev ↦ record s { tasks = ts; channels = send_all ev s.channels }
      | open_channel id q ↦ record s {
        tasks = ts;
        channels =
            record { id = id; query = q; log = added (all_matches q s.entities) } ∷ s.channels;
      }
      | close_channel id ↦ record s { tasks = ts; channels = drop_channel id s.channels }
    ]
  ]

  -- `receiveEvent`: of the events of a channel those that match are sent to the client.
  unfoldable pub received : (E → Bool) → List Event → List Event
  received q [] = []
  received q (ev ∷ evs) = let rest = received q evs in if q ev.entity then ev ∷ rest else rest

  -- What a client makes of the events it is sent.
  unfoldable pub apply : Event → (String → Option E) → String → Option E
  apply ev m k =
      if same (name ev.entity) k then (if ev.deleted then none else some ev.entity) else m k

  unfoldable pub apply_all : List Event → (String → Option E) → String → Option E
  unfolding apply
  apply_all [] m = m
  apply_all (ev ∷ evs) m = apply_all evs (apply ev m)

  unfoldable pub view : List Event → String → Option E
  unfolding apply_all
  view evs = apply_all evs (λ k. none)

  -- The events that wait in the executor.
  unfoldable pub pending : List Task → List Event
  pending [] = []
  pending (send ev ∷ ts) = ev ∷ pending ts
  pending (open_channel id q ∷ ts) = pending ts
  pending (close_channel id ∷ ts) = pending ts

  -- One step of the registry of endpoints.
  pub data Step : Registry → Registry → Type 0 where
    registers : (r : Option E) (s : Registry) → Step s (register r s).1
    unregisters : (k : String) (s : Registry) → Step s (unregister k s)
    watches : (id : String) (q : E → Bool) (s : Registry) → Step s (watch id q s)
    stops : (id : String) (s : Registry) → Step s (stop_watch id s)
    runs : (s : Registry) → Step s (run s)

  unfoldable pub initial : Registry
  initial = record { entities = []; tasks = []; channels = [] }

  pub data Reachable : Registry → Type 0 where
    starts : Reachable initial
    steps : (s t : Registry) → Reachable s → Step s t → Reachable t
