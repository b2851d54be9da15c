-- ===== src/Tests/Watching.antt =====
-- The theorems on the registry at a sample registry.
use nsm_sdk.Prelude.{inl, ℕ, ◌≡◌, refl, [], ◌∷◌, some, Bool, true, false, String}
use nsm_sdk.Registry.{
  Channel, Registry, load, remove, put, register, all_matches, watch, send_all, added, run,
  received, apply_all, view, pending, registers, watches, runs, initial, Reachable, starts, steps,
}
use nsm_sdk.Registry.Views.{Among, received-load}

abbrev Entity : Type 0
Entity = String × ℕ

abbrev name_of : Entity → String
name_of e = e.0

abbrev all : Entity → Bool
all e = true

-- A watcher, one entity registered and told, and another one that waits.
abbrev watched : Registry Entity name_of
watched = watch Entity name_of "w" all (initial Entity name_of)

abbrev opened : Registry Entity name_of
opened = run Entity name_of watched

abbrev one : Registry Entity name_of
one = (register Entity name_of (some ("a", 1)) opened).1

abbrev told : Registry Entity name_of
told = run Entity name_of one

abbrev two : Registry Entity name_of
two = (register Entity name_of (some ("a", 2)) told).1

two-Reachable : Reachable Entity name_of two
two-Reachable =
    steps told two
      (steps one told
        (steps opened one
          (steps watched opened
            (steps (initial Entity name_of) watched starts
              (watches "w" all (initial Entity name_of)))
            (runs watched))
          (registers (some ("a", 1)) opened))
        (runs one))
      (registers (some ("a", 2)) told)

abbrev channel : Channel Entity name_of
channel = record { id = "w"; query = all; log = record { entity = ("a", 1); deleted = false } ∷ [] }

channel-Among : Among name_of channel two.channels
unfolding initial watch run register put remove all_matches added send_all
channel-Among = inl refl

received-load_example :
    apply_all Entity name_of
      (pending Entity name_of two.tasks)
      (view Entity name_of (received Entity name_of all channel.log))
      "a"
    ≡ load Entity name_of "a" two.entities
received-load_example =
    received-load name_of two channel "a" two-Reachable channel-Among (λ e h. refl)
