-- ===== src/Sim/Journal/Laws.antt =====
-- The journal's rule: the budget is never passed, and an id names one entry for ever.
use script_world.Prelude.{
  ℕ, suc, ◌+◌, ◌≤◌, ◌<◌, ◌≡◌, ◌⊎◌, inl, inr, refl, Option, none, some, List, [], ◌∷◌, ◌++◌, arith,
  length, Bool-cases, ◌==◌, if◌then◌else◌, ltb,
}
use script_world.Sim.Journal.{
  Text, JournalEntry, Journal, JournalError, over_budget, no_entry, entries_runes,
  journal_used_runes, append_entry, delete_entry, remove_first, find_entry, journal_budget_runes,
  empty_journal,
}

-- The ids rise along the list, from `low` on, and stay below `high`.
abbrev pub IdsWithin : ℕ → List JournalEntry → ℕ → Type 0
IdsWithin low [] high = low ≤ high
IdsWithin low (e ∷ es) high = (low ≤ e.id) × IdsWithin (suc e.id) es high

pub record IsJournal (j : Journal) : Type 0 where
  pub within_budget : journal_used_runes j ≤ journal_budget_runes
  pub ids : IdsWithin 0 j.entries j.next_id

pub empty_journal-IsJournal : IsJournal empty_journal
unfolding journal_used_runes
empty_journal-IsJournal = omega arith

runes-append :
    (es fs : List JournalEntry) → entries_runes (es ++ fs) ≡ entries_runes es + entries_runes fs
unfolding entries_runes
runes-append [] fs = omega arith
runes-append (e ∷ es) fs = omega (arith, runes-append es fs)

IdsWithin-append :
    (low high tick : ℕ) (text : Text) (es : List JournalEntry)
    → IdsWithin low es high
    → IdsWithin low (es ++ record { id = high; tick = tick; text = text } ∷ []) (high + 1)
IdsWithin-append low high tick text [] h = (h, omega arith)
IdsWithin-append low high tick text (e ∷ es) h =
    (h.0, IdsWithin-append (suc e.id) high tick text es h.1)

-- A write that would pass the budget is refused and changes nothing. One that fits is accepted,
-- keeps the rule, uses the text's runes, and takes the next id.
pub append_entry-IsJournal :
    (j : Journal) (tick : ℕ) (text : Text)
    → IsJournal j
    → ((journal_budget_runes < journal_used_runes j + length text)
        × (append_entry j tick text ≡ (j, some (over_budget (journal_used_runes j) (length text)))))
      ⊎ ((after : Journal) × (journal_used_runes j + length text ≤ journal_budget_runes)
          × (append_entry j tick text ≡ (after, none))
          × IsJournal after
          × (journal_used_runes after ≡ journal_used_runes j + length text)
          × (after.next_id ≡ suc j.next_id))
unfolding append_entry journal_used_runes
append_entry-IsJournal j tick text v =
    let new : JournalEntry = record { id = j.next_id; tick = tick; text = text } in
    elim (Bool-cases (ltb journal_budget_runes (entries_runes j.entries + length text))) [
      | inl e ↦ inl (ground arith, rw (e, append_entry))
      | inr e ↦ inr (
        record { next_id = j.next_id + 1; entries = j.entries ++ new ∷ [] },
        ground arith,
        rw (e, append_entry),
        record {
          within_budget = ground (arith, runes-append j.entries (new ∷ []));
          ids = IdsWithin-append 0 j.next_id tick text j.entries v.ids;
        },
        ground (arith, runes-append j.entries (new ∷ [])),
        omega arith,
      )
    ]

pub append_entry_keeps :
    (j : Journal) (tick : ℕ) (text : Text) → IsJournal j → IsJournal (append_entry j tick text).0
append_entry_keeps j tick text v = elim (append_entry-IsJournal j tick text v) [
  | inl (_, e) ↦ rw e v
  | inr (_, _, e, w, _, _) ↦ rw e w
]

find-append :
    (low high tick : ℕ) (text : Text) (id : ℕ) (es : List JournalEntry)
    → IdsWithin low es high
    → find_entry id (es ++ record { id = high; tick = tick; text = text } ∷ []) ≡ (
        if id == high
        then some (record { id = high; tick = tick; text = text })
        else find_entry id es)
unfolding find_entry
find-append low high tick text id [] h = ground arith
find-append low high tick text id (e ∷ es) h =
    ground
      (arith, find-append (suc e.id) high tick text id es h.1, ids-below (suc e.id) high es h.1)
  where
    ids-below : (l k : ℕ) (fs : List JournalEntry) → IdsWithin l fs k → l ≤ k
    ids-below l k [] g = g
    ids-below l k (f ∷ fs) g = omega (arith, ids-below (suc f.id) k fs g.1)

-- After an accepted write the new id finds the new entry, and every other id finds what it found.
pub find-append_entry :
    (j : Journal) (tick : ℕ) (text : Text) (id : ℕ)
    → IsJournal j
    → (append_entry j tick text).1 ≡ none
    → find_entry id (append_entry j tick text).0.entries ≡ (
        if id == j.next_id
        then some (record { id = j.next_id; tick = tick; text = text })
        else find_entry id j.entries)
unfolding append_entry
find-append_entry j tick text id v ok =
    ground (arith, find-append 0 j.next_id tick text id j.entries v.ids)

IdsWithin-mono :
    (low low' high : ℕ) (es : List JournalEntry)
    → low' ≤ low
    → IdsWithin low es high
    → IdsWithin low' es high
IdsWithin-mono low low' high [] l h = omega arith
IdsWithin-mono low low' high (e ∷ es) l h = (omega arith, h.1)

find_below :
    (low high id : ℕ) (es : List JournalEntry)
    → IdsWithin low es high
    → id < low
    → find_entry id es ≡ none
unfolding find_entry
find_below low high id [] h l = refl
find_below low high id (e ∷ es) h l = ground (arith, find_below (suc e.id) high id es h.1)

-- What removing an id does to a list of rising ids.
remove_lem :
    (low high id : ℕ) (es : List JournalEntry)
    → IdsWithin low es high
    → ((remove_first id es ≡ none) × (find_entry id es ≡ none))
      ⊎ ((e : JournalEntry) × (out : List JournalEntry) × (remove_first id es ≡ some out)
          × (find_entry id es ≡ some e)
          × IdsWithin low out high
          × (entries_runes out + length e.text ≡ entries_runes es)
          × ((k : ℕ) → find_entry k out ≡ (if k == id then none else find_entry k es)))
unfolding remove_first find_entry entries_runes
remove_lem low high id [] h = inl (refl, refl)
remove_lem low high id (e ∷ es) h = elim (Bool-cases (e.id == id)) [
  | inl hit ↦ inr (
    e,
    es,
    rw hit,
    rw hit,
    IdsWithin-mono (suc e.id) low high es (omega arith) h.1,
    omega arith,
    λ k. ground (arith, find_below (suc e.id) high k es h.1),
  )
  | inr miss ↦ elim (remove_lem (suc e.id) high id es h.1) [
    | inl (r, f) ↦ inl (rw (miss, r), rw miss f)
    | inr (x, out, r, f, w, n, q) ↦
        inr (x, e ∷ out, rw (miss, r), rw miss f, (h.0, w), omega arith, λ k. ground (arith, q k))
  ]
]

-- A delete is refused exactly when no entry has the id, and then nothing changes. An accepted one
-- keeps the rule, frees exactly the entry's runes, leaves `next_id` (so the id is not used again),
-- and afterwards the id finds nothing while every other id finds what it found.
pub delete_entry-IsJournal :
    (j : Journal) (id : ℕ)
    → IsJournal j
    → ((delete_entry j id ≡ (j, some (no_entry id))) × (find_entry id j.entries ≡ none))
      ⊎ ((e : JournalEntry) × (after : Journal) × (delete_entry j id ≡ (after, none))
          × (find_entry id j.entries ≡ some e)
          × IsJournal after
          × (journal_used_runes after + length e.text ≡ journal_used_runes j)
          × (after.next_id ≡ j.next_id)
          × ((k : ℕ)
              → find_entry k after.entries ≡ (if k == id then none else find_entry k j.entries)))
unfolding delete_entry journal_used_runes
delete_entry-IsJournal j id v = elim (remove_lem 0 j.next_id id j.entries v.ids) [
  | inl (r, f) ↦ inl (rw (r, delete_entry), f)
  | inr (e, out, r, f, w, n, q) ↦ inr (
    e,
    record j { entries = out },
    rw (r, delete_entry),
    f,
    record { within_budget = omega arith; ids = w },
    n,
    refl,
    q,
  )
]

-- The error of a delete of a given lookup.
abbrev pub missing : ℕ → Option JournalEntry → Option JournalError
missing id none = some (no_entry id)
missing id (some _) = none

remove_first_lem :
    (id : ℕ) (es : List JournalEntry)
    → ((remove_first id es ≡ none) × (find_entry id es ≡ none))
      ⊎ ((e : JournalEntry) × (out : List JournalEntry) × (remove_first id es ≡ some out)
          × (find_entry id es ≡ some e))
unfolding remove_first find_entry
remove_first_lem id [] = inl (refl, refl)
remove_first_lem id (e ∷ es) = elim (Bool-cases (e.id == id)) [
  | inl hit ↦ inr (e, es, rw hit, rw hit)
  | inr miss ↦ elim (remove_first_lem id es) [
    | inl (r, f) ↦ inl (rw (miss, r), rw miss f)
    | inr (x, out, r, f) ↦ inr (x, e ∷ out, rw (miss, r), rw miss f)
  ]
]

-- In every journal, a delete fails exactly when the lookup of the id does.
pub delete_entry_error :
    (j : Journal) (id : ℕ) → (delete_entry j id).1 ≡ missing id (find_entry id j.entries)
unfolding delete_entry
delete_entry_error j id = elim (remove_first_lem id j.entries) [
  | inl (r, f) ↦ rw (r, f, delete_entry) refl
  | inr (e, out, r, f) ↦ rw (r, f, delete_entry) refl
]
