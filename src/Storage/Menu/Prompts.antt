-- ===== src/Storage/Menu/Prompts.antt =====
-- The menu of cmd/storage: what promptAction answers.
use dps_files.Prelude.{
  list_eq, nat_eq, false, none, some, trim_space, to_lower, [], ◌∷◌, ◌++◌, ◌-◌, ◌⊎◌, true, ◌≤◌, ◌≡◌,
}
use dps_files.Storage.Menu.{
  Bytes, List, Option, length, ℕ, Lines, chosen, failed, menu_exit, is_offered, Round,
}
use dps_files.Storage.Menu.Words.{menu_names, exit_names}
use dps_files.Storage.CommandLine.{RuntimeConfig, MenuAction}
use dps_files.Storage.CommandLine.Words.{IsOneOf}

-- The lines are left of others: some have been read.
abbrev pub IsRest : Lines → Lines → Type 0
IsRest rest lines = (before : Lines) × (lines ≡ before ++ rest)

-- What no prompt changes.
abbrev pub SameAction : RuntimeConfig → RuntimeConfig → Type 0
SameAction c d = (d.action ≡ c.action) × (d.action_provided ≡ c.action_provided)

-- A line has been read, with one of the words in it in any case, and `rest` is what follows it.
abbrev pub HasRead : List Bytes → (lines rest : Lines) → Type 0
HasRead names lines rest =
    (line : Bytes) × IsRest (line ∷ rest) lines × IsOneOf (to_lower (trim_space line)) names

-- What the menu may answer: an action that the last line read has named and that has files to work on
-- in the mode of the time, the default action once the input has ended, or the end of the session, which
-- the last line read has named.
abbrev pub IsAnswer : MenuAction → (uploads stored : ℕ) → Lines → Round → Type 0
IsAnswer default uploads stored lines (chosen a, d, rest) =
    (HasRead (menu_names a) lines rest × (is_offered a d.mode uploads stored ≡ true))
    ⊎ ((rest ≡ []) × (a ≡ default))
IsAnswer default uploads stored lines (failed e, d, rest) =
    (e ≡ menu_exit) × HasRead exit_names lines rest

-- The menu has an answer, has read lines for it, and leaves no action as from the command line.
abbrev pub Answers : (default : MenuAction) → (uploads stored : ℕ) → Lines → Option Round → Type 0
Answers default uploads stored lines none = ⊥
Answers default uploads stored lines (some r) =
    IsAnswer default uploads stored lines r
    × (length r.2 ≤ length lines - 1)
    × (r.1.action_provided ≡ false)
