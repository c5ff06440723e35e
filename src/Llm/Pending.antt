-- ===== src/Llm/Pending.antt =====
-- internal/llm/pending.go: the registry of accepted and unfinished model calls, and the snapshot
-- that the debt of pending thoughts is computed from. A call holds the mutex, so it is one step; the
-- time of a step is an argument. The map is a list of its entries, the newest first; a provider's
-- name is a number, and what the snapshot reads of a provider's estimator is an argument.
pub mod Drain
use script_world.Prelude.{ℕ, suc, ◌-◌, Option, none, some, List, [], ◌∷◌, map, ◌==◌, if◌then◌else◌}
use script_world.Cognition.Floats.{Floats}
use script_world.Cognition.Registry.{CallKind, class_for_kind}

-- An entry with its key.
pub record PendingEntry : Type 0 where
  pub id : ℕ
  pub provider : ℕ
  pub kind : CallKind
  pub dispatch_at : Option ℕ

pub record PendingRegistry : Type 0 where
  pub seq : ℕ
  pub jobs : List PendingEntry

abbrev pub new_pending_registry : PendingRegistry
new_pending_registry = record { seq = 0; jobs = [] }

-- `delete(r.jobs, id)`
unfoldable pub delete : ℕ → List PendingEntry → List PendingEntry
delete id [] = []
delete id (e ∷ es) = let rest = delete id es in if e.id == id then rest else e ∷ rest

-- The registry and the id.
unfoldable pub add : PendingRegistry → ℕ → CallKind → PendingRegistry × ℕ
unfolding delete
add r provider kind =
    let id = suc r.seq in
    let entry : PendingEntry = record {
      id = id;
      provider = provider;
      kind = kind;
      dispatch_at = none;
    } in
    (record { seq = id; jobs = entry ∷ delete id r.jobs }, id)

-- The entry of the id, stamped.
unfoldable pub stamp : ℕ → ℕ → List PendingEntry → List PendingEntry
stamp id now [] = []
stamp id now (e ∷ es) =
    if e.id == id then record e { dispatch_at = some now } ∷ es else e ∷ stamp id now es

unfoldable pub dispatch : PendingRegistry → ℕ → ℕ → PendingRegistry
unfolding stamp
dispatch r id now = record r { jobs = stamp id now r.jobs }

unfoldable pub remove : PendingRegistry → ℕ → PendingRegistry
unfolding delete
remove r id = record r { jobs = delete id r.jobs }

module _ (F : Floats) where
  open F use {Float, mulf, of_nat}

  pub record PendingThought : Type 0 where
    pub kind : CallKind
    pub provider : ℕ
    pub predicted_sec : Float
    pub elapsed_sec : Float

  -- One turn of the loop of `PendingCognition`: `estimate` is a provider's estimate where there is
  -- such a provider, and `seconds` the seconds of a duration.
  unfoldable pub thought : (ℕ → Option Float) → (ℕ → Float) → ℕ → PendingEntry → PendingThought
  unfolding class_for_kind
  thought estimate seconds now e = record {
    kind = e.kind;
    provider = e.provider;
    predicted_sec = elim (estimate e.provider) [
      | none ↦ of_nat 0
      | some est ↦ elim (class_for_kind e.kind) [
        | none ↦ of_nat 0
        | some dc ↦ mulf (of_nat dc.points) est
      ]
    ];
    elapsed_sec = elim e.dispatch_at [ none ↦ of_nat 0 | some at' ↦ seconds (now - at') ];
  }

  unfoldable pub pending_cognition :
      (ℕ → Option Float) → (ℕ → Float) → ℕ → PendingRegistry → List PendingThought
  unfolding thought
  pending_cognition estimate seconds now r = map (thought estimate seconds now) r.jobs
