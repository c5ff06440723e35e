-- ===== src/Tests/Journals.antt =====
-- Tests of internal/sim/journal.go.
use mathlib.Core.List.{reverse}
use script_world.Prelude.{◌+◌, ◌≤◌, ◌<◌, ◌≡◌, ◌⊎◌, refl, none, some, [], ◌∷◌, take, arith}
use script_world.Sim.Journal.{
  JournalEntry, Journal, over_budget, no_entry, append_entry, delete_entry, search_journal,
  journal_budget_runes, journal_search_result_cap, journal_used_runes, entries_runes,
}
use script_world.Sim.Journal.Laws.{IsJournal, append_entry-IsJournal}
use script_world.Sim.Journal.Search.{matching, search_journal-take}

abbrev first_entry : JournalEntry
first_entry = record { id = 0; tick = 5; text = 104 ∷ 105 ∷ [] }

abbrev third_entry : JournalEntry
third_entry = record { id = 2; tick = 9; text = 104 ∷ [] }

-- A journal whose entry 1 was deleted.
abbrev notes : Journal
notes = record { next_id = 3; entries = first_entry ∷ third_entry ∷ [] }

notes-IsJournal : IsJournal notes
unfolding journal_used_runes entries_runes
notes-IsJournal = record {
  within_budget = omega arith;
  ids = (omega arith, (omega arith, omega arith));
}

append_new : (append_entry notes 12 (65 ∷ [])).1 ≡ none
unfolding append_entry
append_new = refl

delete_missing : delete_entry notes 1 ≡ (notes, some (no_entry 1))
unfolding delete_entry
delete_missing = refl

append_entry-IsJournal_example :
    ((journal_budget_runes < journal_used_runes notes + 1)
      × (append_entry notes 12 (65 ∷ [])
          ≡ (notes, some (over_budget (journal_used_runes notes) 1))))
    ⊎ ((after : Journal) × (journal_used_runes notes + 1 ≤ journal_budget_runes)
        × (append_entry notes 12 (65 ∷ []) ≡ (after, none))
        × IsJournal after
        × (journal_used_runes after ≡ journal_used_runes notes + 1)
        × (after.next_id ≡ 4))
append_entry-IsJournal_example = append_entry-IsJournal notes 12 (65 ∷ []) notes-IsJournal

search_journal-take_example :
    search_journal (λ t. t) (some notes) (104 ∷ [])
    ≡ take journal_search_result_cap (matching (λ t. t) (104 ∷ []) (reverse notes.entries))
search_journal-take_example = search_journal-take (λ t. t) notes (104 ∷ [])
