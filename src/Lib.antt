-- ===== src/Lib.antt =====
-- A model of promptworld, a village that a daemon simulates and language models think for.
--
-- The program is event-sourced. The daemon (internal/daemon) runs the simulation (internal/sim):
-- the executor looks at the world and emits events, the store appends them to a log, and one
-- reducer, `State.Apply`, turns each event into a change of the state. On boot the log is replayed
-- through the same reducer. Thoughts are calls of slow models, so internal/cognition keeps a
-- registry of how stale each class of thought may get, routes a call by the drift that it predicts,
-- estimates the latency live, and lets a governor lower the speed of the clock (internal/clock)
-- when the pending thoughts owe more than their budgets. A circuit breaker (internal/llm) keeps an
-- unreachable model from holding anything up.
--
-- Which file models what:
--   Prelude          the library's names, Boolean tests, lists and integers that the parts share
--   Clock/Calendar   internal/clock/clock.go, GameTime, TickAt, SecondOfDay, ParseTimeOfDay
--   Clock/Ladder     internal/clock/clock.go, the speeds and LadderIndex
--   Cognition/Floats      float64, a parameter of what computes with it
--   Cognition/Registry    internal/cognition/registry.go, the classes and both validations
--   Cognition/Route       internal/cognition/route.go, Route
--   Cognition/Debt        internal/cognition/governor.go, Debt
--   Cognition/Governor    internal/cognition/governor.go, Governor.Sample; its windows in Counters
--                         and Streak, where its decisions lead in Notch
--   Cognition/Estimator   internal/cognition/estimate.go, Estimator.Sample; its ring against a list of
--                         the samples in History, Ring and Verdict
--   Sim/Item         internal/sim/recipes.go and agents.go, inventories, addItems, bulk
--   Sim/Recipe       internal/sim/recipes.go, the recipe table and its lookups; the walls of
--                    terrain.go
--   Sim/Pile         internal/sim/agents.go, the operations of Pile
--   Sim/Journal      internal/sim/journal.go, appendEntry, deleteEntry, SearchJournal
--   Sim/State        internal/sim/state.go, agents.go, terrain.go, the state and its lookups
--   Sim/Event        the event types with their payloads
--   Sim/Apply        internal/sim/state.go, State.Apply: one function for each arm, in ClockArms,
--                    MindArms, WorkArms, WallArms, StorageArms and GruArms; what it refuses in Errors
--   Sim/World        the order of the state that the data types' comments promise, and how each arm
--                    keeps it; what transfers conserve in Conservation
--   Sim/Terrain      internal/worldmap/worldmap.go, the map; internal/sim/terrain.go, the tests on a
--                    tile; what they say of one another in Laws
--   Sim/Path         internal/sim/path.go, bfs, nextStep, nearest, nearestAdjacentTo: the tree of
--                    cameFrom in Trail, one round in Wave, the invariant of the search in Shortest,
--                    its end in Fuel
--   Sim/Guard        internal/sim/guard.go, EvalAt; what each guard asks in Laws
--   Sim/Hail         internal/sim/hail.go, hailable and hailStep; who waits for whom in Waiting, what
--                    a sweep emits in Sweep
--   Sim/Gru          internal/sim/gru.go, gruStep; what it may do in Laws and Turn,
--                    and after what the reducer wrote in Nights
--   Sim/Social       internal/sim/social.go, the types and edges; applySocial in Arms, the readers in
--                    Views, the executor's socialEvents in Beat. Its order is in Edges and Fabric, the
--                    ledger in Ledger, the provenance of rumors in Trails, Gossip and Fairness, what
--                    may be told in Telling and Silence, meals in Gifts and Meals
--   Sim/Policy       internal/sim/policy.go, resolveGoal, its tests of tiles in Tiles and decideIntent
--                    in Reflex; where an intent leads in Total and Resolve, what the reflex
--                    chooses in Agree; eatOutcome of executor.go in Meal
--   Sim/Loop         internal/sim/loop.go, the clock commands of handleCommand
--   Daemon           internal/daemon/daemon.go, the replay of recoverState
--   Daemon/Sampler   internal/daemon/governor.go, one sample of the governor sampler
--   Llm/Health       internal/llm/health.go, the circuit breaker of a provider
--   Llm/Pending      internal/llm/pending.go, the registry of pending calls
--   Tests            runs on concrete inputs, and the theorems at such inputs
--
-- How the code is rendered. Ticks, needs and counts are natural numbers: the code clamps each at 0,
-- and a payload carries an amount that was moved. Coordinates, agent indices and the uses left of a
-- tool are integers. A string that the code compares with literals is a data type with a
-- constructor for each literal and one for any other; a text is a list of runes. The overflow of Go's
-- 64-bit integers is not modelled. An arm of the reducer returns the state that it leaves and its
-- error, since one that fails may have written before: a refused first write of a journal leaves an
-- empty journal. A pointer into a slice is a lookup with a write at the same place.
-- `effective_rate`, which the reducer stores and does not compute with, is kept as its bits. The
-- loops are structural but for three, which run on fuel: the breadth-first search on W*H + 2 rounds,
-- one for each tile that may be queued, one for the start and one to see the queue empty, the
-- walk back on one round for each entry of cameFrom, and the meal on one for each unit carried.
--
-- What is assumed of an event: a craft and a cooking carry what the executor checks before it emits
-- them (the inputs, the room, the raw food), and a migration a well-formed world. Of sort.Float64s, that it
-- returns as many values and the same ones whatever their order was; of the talk that a meeting
-- founds, that it lifts no hail.
--
-- Not modelled: JSON, SQLite, sockets, mutexes and goroutines; the generation of maps; the
-- executor and the planner's landing, which emit most events; and the reducer's arms
-- for beliefs, meetings, chronicle and miracles, which stand in files of their own.
pub mod Prelude
pub mod Clock
pub mod Cognition
pub mod Sim
pub mod Daemon
pub mod Llm
pub mod Tests
