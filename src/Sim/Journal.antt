-- ===== src/Sim/Journal.antt =====
-- internal/sim/journal.go: an agent's notebook under a rune budget. A text is the list of its
-- runes. `strings.ToLower` is a parameter of the search.
pub mod Laws
pub mod Search
use mathlib.Core.List.{reverse}
use script_world.Prelude.{
  ℕ, ◌+◌, Bool, true, false, ◌&&◌, ◌||◌, Option, none, some, List, [], ◌∷◌, ◌++◌, ltb, leb,
  if◌then◌else◌, ◌==◌, length,
}

abbrev pub Text : Type 0
Text = List ℕ

abbrev pub journal_budget_runes : ℕ
journal_budget_runes = 4000

abbrev pub journal_search_result_cap : ℕ
journal_search_result_cap = 8

pub record JournalEntry : Type 0 where
  pub id : ℕ
  pub tick : ℕ
  pub text : Text

pub record Journal : Type 0 where
  pub next_id : ℕ
  pub entries : List JournalEntry

-- `&Journal{}`.
abbrev pub empty_journal : Journal
empty_journal = record { next_id = 0; entries = [] }

pub data JournalError : Type 0 where
  -- The runes in use and the runes that the entry needs.
  over_budget : ℕ → ℕ → JournalError
  no_entry : ℕ → JournalError

unfoldable pub entries_runes : List JournalEntry → ℕ
entries_runes [] = 0
entries_runes (e ∷ es) = length e.text + entries_runes es

unfoldable pub journal_used_runes : Journal → ℕ
unfolding entries_runes
journal_used_runes j = entries_runes j.entries

-- The journal after the call, and the error of one that is refused, which changes nothing.
unfoldable pub append_entry : Journal → ℕ → Text → Journal × Option JournalError
unfolding journal_used_runes
append_entry j tick text =
    let need = length text in
    let used = journal_used_runes j in
    if ltb journal_budget_runes (used + need) then (j, some (over_budget used need)) else (
      record {
        next_id = j.next_id + 1;
        entries = j.entries ++ record { id = j.next_id; tick = tick; text = text } ∷ [];
      },
      none,
    )

abbrev pub keep_entry : JournalEntry → Option (List JournalEntry) → Option (List JournalEntry)
keep_entry e none = none
keep_entry e (some out) = some (e ∷ out)

-- The loop of `deleteEntry`: the entries without the first of that id, or none if there is none.
remove_first : ℕ → List JournalEntry → Option (List JournalEntry)
remove_first id [] = none
remove_first id (e ∷ es) = if e.id == id then some es else keep_entry e (remove_first id es)

unfoldable pub delete_entry : Journal → ℕ → Journal × Option JournalError
unfolding remove_first
delete_entry j id = elim (remove_first id j.entries) [
  | none ↦ (j, some (no_entry id))
  | some out ↦ (record j { entries = out }, none)
]

-- The loop of `FindJournalEntry`.
unfoldable pub find_entry : ℕ → List JournalEntry → Option JournalEntry
find_entry id [] = none
find_entry id (e ∷ es) = if e.id == id then some e else find_entry id es

-- `strings.HasPrefix` and `strings.Contains`, on runes.
unfoldable pub has_prefix : Text → Text → Bool
has_prefix [] s = true
has_prefix (c ∷ p) [] = false
has_prefix (c ∷ p) (d ∷ s) = c == d && has_prefix p s

unfoldable pub contains : Text → Text → Bool
unfolding has_prefix
contains s [] = true
contains [] (c ∷ q) = false
contains (d ∷ s) (c ∷ q) = has_prefix (c ∷ q) (d ∷ s) || contains s (c ∷ q)

module _ (to_lower : Text → Text) where
  -- `q == "" || strings.Contains(strings.ToLower(text), q)`, where `contains` takes the empty
  -- query too.
  abbrev pub matches : Text → JournalEntry → Bool
  matches query e = contains (to_lower e.text) (to_lower query)

  -- The loop of `SearchJournal`, over the entries from the newest on; `found` counts the results
  -- so far, and the loop breaks as soon as there are enough.
  search_loop : Text → ℕ → List JournalEntry → List JournalEntry
  search_loop query found [] = []
  search_loop query found (e ∷ es) = elim (matches query e) [
    | true ↦ elim (leb journal_search_result_cap (found + 1)) [
      | true ↦ e ∷ []
      | false ↦ e ∷ search_loop query (found + 1) es
    ]
    | false ↦ search_loop query found es
  ]

  unfoldable pub search_journal : Option Journal → Text → List JournalEntry
  unfolding search_loop
  search_journal none query = []
  search_journal (some j) query = search_loop query 0 (reverse j.entries)
