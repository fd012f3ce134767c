-- ===== src/Storage/CommandLine/Settings.antt =====
-- The settings that a command line of cmd/storage makes, independently of the way it is written.
use dps_files.Prelude.{
  [], ◌∷◌, true, false, trim_space, ◌≤◌, All, suc, ◌^◌, ◌≡◌, ◌<◌, Bool, Bytes, List, ℕ,
}
use dps_files.Storage.CommandLine.{RuntimeConfig, Mode, MenuAction, set_ttl}

pub data Setting : Type 0 where
  verbose reassemble : Setting
  ttl : ℕ → Setting
  store_path remote_addr : Bytes → Setting
  in_mode : Mode → Setting
  do_action : MenuAction → Setting

abbrev pub IsValid : Setting → Type 0
IsValid (ttl n) = (0 < n) × (n < 2 ^ 64)
IsValid (store_path p) = trim_space p ≡ p
IsValid (remote_addr a) = trim_space a ≡ a
IsValid _ = Unit {0}

abbrev pub apply : Setting → RuntimeConfig → RuntimeConfig
apply verbose c = record c { key_store = record (c.key_store) { verbose = true } }
apply reassemble c = record c { reassemble_enabled = true }
apply (ttl n) c = set_ttl n c
apply (store_path p) c = record c { store_file_path = p }
apply (remote_addr a) c = record c { remote_addr = a }
apply (in_mode m) c = record c { mode = m }
apply (do_action a) c = record c { action = a; action_provided = true }

abbrev pub apply_all : List Setting → RuntimeConfig → RuntimeConfig
apply_all [] c = c
apply_all (x ∷ xs) c = apply_all xs (apply x c)

abbrev pub modes : List Setting → ℕ
modes [] = 0
modes (in_mode m ∷ xs) = suc (modes xs)
modes (_ ∷ xs) = modes xs

abbrev pub actions : List Setting → ℕ
actions [] = 0
actions (do_action a ∷ xs) = suc (actions xs)
actions (_ ∷ xs) = actions xs

-- A command line: valid settings, with one mode and one action at most.
abbrev pub IsCommandLine : List Setting → Type 0
IsCommandLine xs = All IsValid xs × (modes xs ≤ 1) × (actions xs ≤ 1)

abbrev pub bit : Bool → ℕ
bit true = 1
bit false = 0
