-- ===== src/Sim/Loop/Ceiling.antt =====
-- internal/sim/loop.go with the reducer's clock arms: the governed speed stays below the ceiling
-- that the player asked for.
use script_world.Prelude.{ℕ, ◌<◌, ◌≡◌, refl, ◌⊎◌, none, some, List, [], ◌∷◌}
use script_world.Clock.Ladder.{unset, ladder_index}
use script_world.Sim.State.{State}
use script_world.Sim.Event.{Event}
use script_world.Sim.Loop.{Command, handle_command}

-- The world is ungoverned, or its speed is on the ladder below the requested one.
abbrev pub IsGoverned : State → Type 0
IsGoverned s =
    (s.requested_speed ≡ unset)
    ⊎ ((i k : ℕ) × (ladder_index s.speed ≡ some i)
        × (ladder_index s.requested_speed ≡ some k)
        × (i < k))

-- The state after a list of commands.
unfoldable pub commands : State → List Command → State
unfolding handle_command
commands s [] = s
commands s (c ∷ cs) = commands (handle_command s c) cs

unset_off : ladder_index unset ≡ none
unfolding ladder_index
unset_off = refl
