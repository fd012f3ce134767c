-- ===== src/Storage/Menu.antt =====
-- menu.go of cmd/storage: the prompts. The input is its lines; after the last one it has ended.
pub mod Words
pub mod Prompts
use dps_files.Prelude.{
  true, false, none, some, negative, nonnegative, zero, atoi, get_elem?, length, list_eq, nat_eq,
  text, true, contains, eqb, nonnegative, suc, trim_space, ◌==◌, ◌||◌, Integer, if◌then◌else◌, none,
  not, some, to_lower, ◌∷◌, Bool, Bytes, List, Option, [], ℕ,
}
use dps_files.Storage.CommandLine.{
  RuntimeConfig, RemoteEntry, Mode, MenuAction, run, remote, upload, store, clean, deep_clean, view,
  stats, verify, delete, expire, download,
}

abbrev pub Lines : Type 0
Lines = List Bytes

-- errMenuBack, errMenuExit and the errors of the prompts
pub data MenuError : Type 0 where
  menu_back menu_exit no_files index_out_of_range path_required no_path : MenuError

pub data Answer {ℓ} (A : Type ℓ) : Type ℓ where
  chosen : A → Answer A
  failed : MenuError → Answer A

-- `strings.EqualFold(choice, "e")`
abbrev pub is_cancel : Bytes → Bool
is_cancel choice = to_lower choice == text "e"

-- the second question of promptRemoteAddress
unfoldable pub custom_address : Lines → Answer Bytes × Lines
custom_address [] = (failed menu_back, [])
custom_address (line ∷ rest) =
    let addr = trim_space line in (if addr == [] then failed menu_back else chosen addr, rest)

known_address : Option RemoteEntry → Lines → Answer Bytes × Lines
unfolding custom_address
known_address (some r) rest = (chosen r.address, rest)
known_address none rest = custom_address rest

-- a number leads to a known remote or to the second question; any other text is an address
address_of : Option Integer → Bytes → List RemoteEntry → Lines → Answer Bytes × Lines
unfolding known_address
address_of (some (nonnegative i)) choice remotes rest = known_address (get_elem? remotes i) rest
address_of (some negative) choice remotes rest = custom_address rest
address_of none choice remotes rest = (chosen choice, rest)

-- promptRemoteAddress
unfoldable pub prompt_remote_address : List RemoteEntry → Lines → Answer Bytes × Lines
unfolding address_of
prompt_remote_address remotes [] = (failed menu_back, [])
prompt_remote_address remotes (line ∷ rest) =
    let choice = trim_space line in
    if is_cancel choice || choice == []
    then (failed menu_back, rest)
    else address_of (atoi choice) choice remotes rest

-- the settings after an answer; a prompt that fails leaves them
connected : RuntimeConfig → Answer Bytes → RuntimeConfig
connected c (failed e) = c
connected c (chosen addr) = record c { mode = remote; remote_addr = addr }

-- handleModeToggle: the settings after it; the menu goes on whether it fails or not
unfoldable pub handle_mode_toggle : RuntimeConfig → Lines → RuntimeConfig × Lines
unfolding connected
handle_mode_toggle c lines = elim c.mode [
  | remote ↦ (record c { mode = run; remote_addr = [] }, lines)
  | run ↦ let r = prompt_remote_address c.known_remotes lines in (connected c r.0, r.1)
]

-- What a line of the menu means.
pub data MenuWord : Type 0 where
  toggle leave unknown : MenuWord
  choose : MenuAction → MenuWord

-- the cases of the `switch` of promptAction
unfoldable pub menu_word : Bytes → MenuWord
menu_word w =
    if contains w (text "mode" ∷ text "m" ∷ [])
    then toggle
    else if contains w ([] ∷ text "view" ∷ text "vi" ∷ [])
    then choose view
    else if contains w (text "upload" ∷ text "u" ∷ text "up" ∷ [])
    then choose upload
    else if contains w (text "download" ∷ text "dl" ∷ text "down" ∷ text "stream" ∷ text "st" ∷ [])
    then choose download
    else if contains w (text "store" ∷ text "s" ∷ [])
    then choose store
    else if contains w (text "delete" ∷ text "del" ∷ [])
    then choose delete
    else if contains w (text "verify" ∷ text "ve" ∷ [])
    then choose verify
    else if contains w (text "expire" ∷ text "exp" ∷ text "ex" ∷ [])
    then choose expire
    else if contains w (text "clean" ∷ text "cl" ∷ [])
    then choose clean
    else if contains w
        (text "deep-clean" ∷ text "deepclean" ∷ text "deep_clean" ∷ text "dc" ∷ text "cleand" ∷ [])
    then choose deep_clean
    else if contains w (text "stats" ∷ text "stat" ∷ [])
    then choose stats
    else if contains w (text "e" ∷ text "exit" ∷ text "q" ∷ [])
    then leave
    else unknown

-- Are there files for the action? `stored` is `metadataCount`, `uploads` the number of indexed files.
unfoldable pub is_offered : MenuAction → Mode → (uploads stored : ℕ) → Bool
is_offered view run uploads stored = not (eqb stored 0)
is_offered download run uploads stored = not (eqb stored 0)
is_offered delete run uploads stored = not (eqb stored 0)
is_offered upload _ uploads stored = not (eqb uploads 0)
is_offered _ _ uploads stored = true

-- An answer, the settings after it and the lines that are left.
abbrev pub Round : Type 0
Round = Answer MenuAction × RuntimeConfig × Lines

-- the body of promptAction's loop once a line is read; `again` goes on with the loop
unfoldable pub answer_word :
    (RuntimeConfig → Lines → Option Round)
    → (uploads stored : ℕ) → RuntimeConfig
    → Lines
    → MenuWord
    → Option Round
unfolding is_offered
answer_word again uploads stored c rest toggle = let r = handle_mode_toggle c rest in again r.0 r.1
answer_word again uploads stored c rest leave = some (failed menu_exit, c, rest)
answer_word again uploads stored c rest unknown = again c rest
answer_word again uploads stored c rest (choose a) = elim (is_offered a c.mode uploads stored) [
  | true ↦ some (chosen a, c, rest)
  | false ↦ again c rest
]

-- The loop of promptAction, for at most `fuel` lines.
unfoldable pub ask_action : ℕ → (uploads stored : ℕ) → RuntimeConfig → Lines → Option Round
unfolding answer_word menu_word
ask_action zero uploads stored c lines = none
ask_action (suc fuel) uploads stored c [] = some (chosen c.action, c, [])
ask_action (suc fuel) uploads stored c (line ∷ rest) =
    answer_word (ask_action fuel uploads stored) uploads stored c rest
      (menu_word (to_lower (trim_space line)))

-- promptAction
unfoldable pub prompt_action :
    (interactive : Bool) → (uploads stored : ℕ) → RuntimeConfig → Lines → Option Round
unfolding ask_action
prompt_action interactive uploads stored c lines =
    if c.action_provided || not interactive
    then some (chosen c.action, c, lines)
    else ask_action (suc (length lines)) uploads stored c lines
