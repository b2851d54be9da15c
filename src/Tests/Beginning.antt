-- ===== src/Tests/Beginning.antt =====
-- The theorems on the begin element at samples.
use nsm_sdk.Prelude.{
  ℕ, ◌≡◌, ◌≢◌, refl, List, [], ◌∷◌, ◌++◌, Option, none, some, false, get_elem?, String, same→≢,
}
use nsm_sdk.Begin.{
  Connection, Request, Factory, Server, Call, requested, closes, to_request, to_close, event_close,
  up, enqueue, submit_close, run_close, after_close, established, closed, submit_request, run,
  run_request, take_job, request_behind, reselect, settle,
}
use nsm_sdk.Begin.Accepts.{Leaves}
use nsm_sdk.Begin.Current.{open_at}
use nsm_sdk.Begin.Runs.{
  Reach, start, after, gets_request, runs, Reach-IsValid, Reach-Leaves, Reach-established,
  run-late_close, late_close, gets_close,
}
use nsm_sdk.Begin.Requests.{submit_request-requested}
use nsm_sdk.Begin.Merge.{Entries, entry, merge_map, merge_entry}
use nsm_sdk.Begin.Merge.Entries.{entry-merge_map, merged}

-- A connection as the client asks for it.
abbrev pub wanted : Connection String String
wanted = record { id = "1"; endpoint_name = ""; state = up; mechanism = none; context = none }

-- The same connection as the chain has answered it.
abbrev given : Connection String String
given = record wanted { endpoint_name = "nse"; mechanism = some "memif" }

abbrev want : Request String String
want = record { connection = wanted; preferences = "memif" ∷ [] }

abbrev gives : Request String String → Option (Connection String String)
gives r = some given

abbrev empty : Server String String
empty = record { factories = []; table = λ k. none; jobs = []; calls = [] }

abbrev asked : Server String String
asked = submit_request want empty

abbrev served : Server String String
served = run gives 0 (to_request want) (take_job 0 asked)

served-Reach : Reach served
unfolding submit_request
served-Reach =
    after (after start (gets_request want))
      (runs 0 0 (to_request want) gives refl (λ x e c. absurd (differ c)))
  where
    differ : to_request want ≡ event_close false → ⊥
    differ c = cc

Reach-Leaves_example : Leaves "1" served.calls (open_at served.factories served.table "1")
Reach-Leaves_example = Reach-Leaves served "1" served-Reach

abbrev held : Factory String String
held = record {
  key = "1";
  state = established;
  request = some (record want { connection = given });
  returned = some given;
}

held_at : get_elem? served.factories 0 ≡ some held
unfolding submit_request run run_request request_behind reselect settle
held_at = refl

abbrev first : ℕ
first = 0

Reach-established_example : (first ≡ first) × (served.table "1" ≡ some first)
Reach-established_example =
    Reach-established served first first held held served-Reach held_at held_at refl refl refl

-- A request for "1" is accepted and run on an empty server.
abbrev no_id : String
no_id = ""

id_there : wanted.id ≢ no_id
id_there e = same→≢ wanted.id no_id refl e

submit_request-requested_example :
    (f : ℕ) × ((submit_request want served).jobs ≡ served.jobs ++ (f, to_request want) ∷ [])
    × ((cs : List (Call String String)) × ((run gives f
            (to_request want)
            (submit_request want served)).calls
          ≡ requested "1" want (some given) ∷ cs))
submit_request-requested_example =
    submit_request-requested gives want served (Reach-IsValid served served-Reach) id_there

-- The first factory of "1" is closed and the second one established.
abbrev ended : Server String String
ended = run gives 0 (to_close given) (take_job 0 (submit_close given served))

abbrev replaced : Server String String
replaced = run gives 1 (to_request want) (take_job 0 (submit_request want ended))

replaced-Reach : Reach replaced
unfolding submit_request submit_close run run_close run_request request_behind reselect settle
replaced-Reach =
    after
      (after
        (after (after served-Reach (gets_close given))
          (runs 0 0 (to_close given) gives refl (λ x e c. absurd (closing c))))
        (gets_request want))
      (runs 0 1 (to_request want) gives refl (λ x e c. absurd (asking c)))
  where
    closing : to_close given ≡ event_close false → ⊥
    closing c = cc

    asking : to_request want ≡ event_close false → ⊥
    asking c = cc

abbrev gone : Factory String String
gone = record held { state = closed }

gone_at : get_elem? replaced.factories 0 ≡ some gone
unfolding submit_request submit_close run run_close run_request request_behind reselect settle
    after_close
gone_at = refl

abbrev second : ℕ
second = 1

held_second : get_elem? replaced.factories second ≡ some held
unfolding submit_request submit_close run run_close run_request request_behind reselect settle
    after_close
held_second = refl

run-late_close_example :
    (submit_close given replaced ≡ enqueue second (to_close given) replaced)
    × ((late_close gives first replaced).calls ≡ closes "1" given ∷ replaced.calls)
    × (get_elem? (late_close gives first replaced).factories second ≡ some held)
    × (submit_close given (late_close gives first replaced) ≡ late_close gives first replaced)
    × (run gives second (to_close given) (late_close gives first replaced)
        ≡ late_close gives first replaced)
run-late_close_example =
    run-late_close gives replaced first second gone held (record want { connection = given }) given
      replaced-Reach gone_at held_second refl refl refl refl refl

-- The client asks for a new value of "a", gives up "b" and adds "d"; an event has changed "c".
abbrev got : Entries
got = ("a", "1") ∷ ("b", "2") ∷ ("c", "3") ∷ []

abbrev asks : Entries
asks = ("a", "9") ∷ ("c", "3") ∷ ("d", "4") ∷ []

abbrev now : Entries
now = ("a", "1") ∷ ("b", "2") ∷ ("c", "7") ∷ []

entry-merge_map_example :
    entry (merge_map got asks now) "c" ≡ merged (entry got "c") (entry asks "c") (entry now "c")
entry-merge_map_example = entry-merge_map got asks now "c" (refl, (refl, (refl, tt)))

merged_entries : merge_map got asks now ≡ ("a", "9") ∷ ("c", "7") ∷ []
unfolding merge_map merge_entry
merged_entries = refl
