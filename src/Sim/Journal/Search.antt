-- ===== src/Sim/Journal/Search.antt =====
-- The search returns the newest matches, at most eight.
use mathlib.Core.List.{reverse}
use script_world.Prelude.{
  ℕ, zero, suc, ◌+◌, ◌≡◌, refl, some, List, [], ◌∷◌, arith, take, Bool-cases, inl, inr,
  if◌then◌else◌,
}
use script_world.Sim.Journal.{
  Text, JournalEntry, Journal, matches, search_loop, search_journal, journal_search_result_cap,
}

module _ (to_lower : Text → Text) where
  -- The entries that match, in the order of the list.
  abbrev pub matching : Text → List JournalEntry → List JournalEntry
  matching query [] = []
  matching query (e ∷ es) =
      if matches to_lower query e then e ∷ matching query es else matching query es

  search_loop_lem :
      (query : Text) (room found : ℕ) (es : List JournalEntry)
      → suc room + found ≡ journal_search_result_cap
      → search_loop to_lower query found es ≡ take (suc room) (matching query es)
  unfolding search_loop
  search_loop_lem query room found [] h = refl
  search_loop_lem query zero found (e ∷ es) h = elim (Bool-cases (matches to_lower query e)) [
    | inl m ↦ rw (m, search_loop) (ground arith)
    | inr m ↦ rw (m, search_loop) (search_loop_lem query zero found es h)
  ]
  search_loop_lem query (suc room) found (e ∷ es) h = elim (Bool-cases (matches to_lower query e)) [
    | inl m ↦
        rw (m, search_loop)
          (ground (arith, search_loop_lem query room (found + 1) es (omega arith)))
    | inr m ↦ rw (m, search_loop) (search_loop_lem query (suc room) found es h)
  ]

  -- A search of a journal returns its matching entries from the newest on, the first eight of
  -- them.
  pub search_journal-take :
      (j : Journal) (query : Text)
      → search_journal to_lower (some j) query
        ≡ take journal_search_result_cap (matching query (reverse j.entries))
  unfolding search_journal
  search_journal-take j query = search_loop_lem query 7 0 (reverse j.entries) refl
