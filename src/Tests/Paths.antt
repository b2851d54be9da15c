-- ===== src/Tests/Paths.antt =====
-- The theorems on the path of a connection at sample connections.
use nsm_sdk.Prelude.{ℕ, ◌≡◌, refl, arith, [], ◌∷◌, some}
use nsm_sdk.UpdatePath.{
  Segment, ConnectionPath, Connection, updated, update_path, Answer, answered, rename_next,
  enter_next, leave_current, update_at, request,
}
use nsm_sdk.UpdatePath.Place.{Placed, Runs, update_path_lem}
use nsm_sdk.UpdatePath.Chain.{Keeps, update_path_again, request_lem}

abbrev client : Segment
client = record { name = "client"; id = "id-1" }

abbrev manager : Segment
manager = record { name = "manager"; id = "id-2" }

abbrev route : ConnectionPath
route = record { index = 0; segments = client ∷ manager ∷ [] }

abbrev conn : Connection
conn = record { id = "id-1"; path = some route }

abbrev moved : Connection
moved = record {
  id = "id-3";
  path =
      some
        (record { index = 1; segments = client ∷ record { name = "forwarder"; id = "id-3" } ∷ [] });
}

update_path_lem_example : Runs "forwarder" conn route (update_path "id-3" "forwarder" (some conn))
update_path_lem_example = update_path_lem "id-3" "forwarder" conn (omega arith)

run : update_path "id-3" "forwarder" (some conn) ≡ updated moved 0
unfolding update_path update_at leave_current rename_next enter_next
run = refl

update_path_again_example :
    (j : ℕ) × (update_path "id-4" "forwarder" (some moved) ≡ updated moved j)
update_path_again_example =
    update_path_again "id-3" "id-4" "forwarder" conn moved 0 (omega arith) run

-- A rest of the chain that answers with the connection.
abbrev accept : Connection → Answer Unit
accept c = answered c

accept-Keeps : Keeps accept 0
accept-Keeps d e p h r = (p, cc, refl)

request_lem_example :
    (d : Connection) × Placed "forwarder" route d
    × ((e : Connection)
        → accept d ≡ answered e
        → (q : ConnectionPath) × (e.path ≡ some q)
          × (request accept "id-3" "forwarder" (some conn)
              ≡ answered (record { id = "id-1"; path = some (record q { index = 0 }) })))
request_lem_example =
    request_lem accept "id-3" "forwarder" conn route client refl (omega arith) refl refl
      accept-Keeps
