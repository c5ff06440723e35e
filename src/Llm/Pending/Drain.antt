-- ===== src/Llm/Pending/Drain.antt =====
-- internal/llm/pending.go: what the registry holds while calls of `Submit` come and go.
use script_world.Prelude.{
  ℕ, suc, ◌≤◌, ◌≡◌, refl, ◌∙◌, ap, inl, inr, List, [], ◌∷◌, All, All-weaken, ◌==◌, if◌then◌else◌,
  Bool-cases, arith,
}
use mathlib.Core.List.{Memᴰ}
use script_world.Cognition.Registry.{CallKind}
use script_world.Llm.Pending.{
  PendingEntry, PendingRegistry, new_pending_registry, delete, add, stamp, dispatch, remove,
}

abbrev pub ids : List PendingEntry → List ℕ
ids [] = []
ids (e ∷ es) = e.id ∷ ids es

-- The ids without one of them.
abbrev pub without : ℕ → List ℕ → List ℕ
without id [] = []
without id (n ∷ ns) = if n == id then without id ns else n ∷ without id ns

-- The registry after some interleaving of steps of `Submit` and of the workers, with the ids of the
-- calls of `Submit` that have not returned: a call is accepted, a worker dequeues a job, whose call
-- may have returned, and a call returns, on whichever path.
pub data Submits : PendingRegistry → List ℕ → Type 0 where
  none_yet : Submits new_pending_registry []
  accepted :
      {r : PendingRegistry} {waiting : List ℕ} (provider : ℕ) (kind : CallKind)
      → Submits r waiting
      → Submits (add r provider kind).0 ((add r provider kind).1 ∷ waiting)
  dequeued :
      {r : PendingRegistry} {waiting : List ℕ} (id now : ℕ)
      → Submits r waiting
      → Submits (dispatch r id now) waiting
  returned :
      {r : PendingRegistry} {waiting : List ℕ} (id : ℕ)
      → Submits r waiting
      → Memᴰ id waiting
      → Submits (remove r id) (without id waiting)

ids-delete : (id : ℕ) (es : List PendingEntry) → ids (delete id es) ≡ without id (ids es)
unfolding delete
ids-delete id [] = refl
ids-delete id (e ∷ es) = ground (arith, ids-delete id es)

ids-stamp : (id now : ℕ) (es : List PendingEntry) → ids (stamp id now es) ≡ ids es
unfolding stamp
ids-stamp id now [] = refl
ids-stamp id now (e ∷ es) = ground (arith, ids-stamp id now es)

-- Ids at or below the counter.
abbrev Below : ℕ → List ℕ → Type 0
Below n = All (λ k. k ≤ n)

without-Below : (id n : ℕ) (ns : List ℕ) → Below n ns → Below n (without id ns)
without-Below id n [] h = tt
without-Below id n (k ∷ ns) h = elim (Bool-cases (k == id)) [
  | inl e ↦ rw e (without-Below id n ns h.1)
  | inr e ↦ rw e (h.0, without-Below id n ns h.1)
]

without-fresh : (n : ℕ) (ns : List ℕ) → Below n ns → without (suc n) ns ≡ ns
without-fresh n [] h = refl
without-fresh n (k ∷ ns) h = ground (arith, without-fresh n ns h.1)

Submits-Below : (r : PendingRegistry) (waiting : List ℕ) → Submits r waiting → Below r.seq waiting
unfolding add dispatch remove
Submits-Below _ _ none_yet = tt
Submits-Below _ _ (accepted {r} {waiting} provider kind h) = (
  omega arith,
  All-weaken (λ k. k ≤ r.seq) (λ k. k ≤ suc r.seq) waiting (λ k le. omega arith)
      (Submits-Below r waiting h),
)
Submits-Below _ _ (dequeued {r} {waiting} id now h) = Submits-Below r waiting h
Submits-Below _ _ (returned {r} {waiting} id h m) =
    without-Below id r.seq waiting (Submits-Below r waiting h)

-- Whatever the interleaving, the registry holds exactly one entry for each call of `Submit` that
-- has not returned, under the id that the call got, and no other: it drains to empty once every
-- call has returned, and a worker that dequeues a job late adds nothing.
pub Submits-ids :
    (r : PendingRegistry) (waiting : List ℕ) → Submits r waiting → ids r.jobs ≡ waiting
unfolding add dispatch remove
Submits-ids _ _ none_yet = refl
Submits-ids _ _ (accepted {r} {waiting} provider kind h) =
    let same = Submits-ids r waiting h in
    ap (λ ns. suc r.seq ∷ ns)
      (ids-delete (suc r.seq) r.jobs
        ∙ ap (without (suc r.seq)) same
        ∙ without-fresh r.seq waiting (Submits-Below r waiting h))
Submits-ids _ _ (dequeued {r} {waiting} id now h) =
    ids-stamp id now r.jobs ∙ Submits-ids r waiting h
Submits-ids _ _ (returned {r} {waiting} id h m) =
    ids-delete id r.jobs ∙ ap (without id) (Submits-ids r waiting h)
