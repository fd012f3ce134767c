-- ===== src/Storage/CommandLine.antt =====
-- runtime_config.go of cmd/storage: the settings of a run and the arguments that set them.
pub mod Settings
pub mod Words
pub mod Accepted
pub mod Written
use dps_files.Prelude.{
  refl, inr, inl, ◌⊎◌, ◌≡◌, ◌++◌, ℕ, suc, ◌*◌, Bool, true, false, Option, none, some, List, [], ◌∷◌,
  Bytes, text, eqb, ◌==◌, ◌||◌, list_eq, nat_eq, if◌then◌else◌, parse_uint, trim_space, to_lower,
  cut_prefix,
}
use dps_files.KeyStore.Types.{KeyStoreConfig, FilePath}

pub record RemoteEntry : Type 0 where
  pub name : Bytes
  pub address : Bytes

pub data Mode : Type 0 where
  run remote : Mode

pub data MenuAction : Type 0 where
  upload store clean deep_clean view stats verify delete expire download : MenuAction

pub record RuntimeConfig : Type 0 where
  pub upload_directory : FilePath
  pub run_all : Bool
  pub default_file_index : ℕ
  pub mode : Mode
  pub reassemble_enabled : Bool
  pub clean_copy_files : Bool
  pub clean_kdht_on_exit : Bool
  pub action : MenuAction
  pub action_provided : Bool
  pub store_file_path : Bytes
  pub ttl_seconds : ℕ
  pub key_store : KeyStoreConfig
  pub remote_addr : Bytes
  pub known_remotes : List RemoteEntry

abbrev pub default_runtime_ttl_seconds : ℕ
default_runtime_ttl_seconds = 1800

-- defaultConfig, over `key_store.DefaultConfig("./local/storage")`
unfoldable pub default_config : RuntimeConfig
default_config = record {
  upload_directory = text "local" ∷ text "upload" ∷ [];
  run_all = false;
  default_file_index = 0;
  mode = run;
  reassemble_enabled = false;
  clean_copy_files = true;
  clean_kdht_on_exit = false;
  action = view;
  action_provided = false;
  store_file_path = [];
  ttl_seconds = default_runtime_ttl_seconds;
  key_store = record {
    storage_dir = text "local" ∷ text "storage" ∷ [];
    verify_on_write = false;
    verbose = false;
    default_ttl_seconds = default_runtime_ttl_seconds;
  };
  remote_addr = [];
  known_remotes = [];
}

-- The errors of parseCLI.
pub data CliError : Type 0 where
  missing_value invalid_value zero_ttl multiple_modes multiple_actions unsupported_argument :
      CliError

pub data Parsed {ℓ} (A : Type ℓ) : Type ℓ where
  parsed : A → Parsed A
  refused : CliError → Parsed A

pub Parsed-cases {ℓ} :
    {A : Type ℓ} (p : Parsed A) → ((a : A) × (p ≡ parsed a)) ⊎ ((e : CliError) × (p ≡ refused e))
Parsed-cases (parsed a) = inl (a, refl)
Parsed-cases (refused e) = inr (e, refl)

-- The flags that take a value.
pub data ValueFlag : Type 0 where
  ttl_flag store_path_flag remote_addr_flag : ValueFlag

-- `runtimeCfg`, `modeProvided` and `actionProvided`
pub record Scan : Type 0 where
  pub cfg : RuntimeConfig
  pub mode_provided : Bool
  pub action_provided : Bool

abbrev pub flag_name : ValueFlag → Bytes
flag_name ttl_flag = text "--ttl-seconds"
flag_name store_path_flag = text "--store-path"
flag_name remote_addr_flag = text "--remote-addr"

-- `string(mode)`, `string(action)`
abbrev pub mode_name : Mode → Bytes
mode_name run = text "run"
mode_name remote = text "remote"

abbrev pub action_name : MenuAction → Bytes
action_name upload = text "upload"
action_name store = text "store"
action_name clean = text "clean"
action_name deep_clean = text "deep-clean"
action_name view = text "view"
action_name stats = text "stats"
action_name verify = text "verify"
action_name delete = text "delete"
action_name expire = text "expire"
action_name download = text "download"

unfoldable pub set_ttl : ℕ → RuntimeConfig → RuntimeConfig
set_ttl n c = record c {
  ttl_seconds = n;
  key_store = record (c.key_store) { default_ttl_seconds = n };
}

ttl_value : Option ℕ → Scan → Parsed Scan
unfolding set_ttl
ttl_value none s = refused invalid_value
ttl_value (some n) s =
    if eqb n 0 then refused zero_ttl else parsed (record s { cfg = set_ttl n s.cfg })

-- what a flag does with its value
unfoldable pub set_value : ValueFlag → Bytes → Scan → Parsed Scan
unfolding ttl_value
set_value ttl_flag raw s = ttl_value (parse_uint (trim_space raw)) s
set_value store_path_flag raw s =
    parsed (record s { cfg = record (s.cfg) { store_file_path = trim_space raw } })
set_value remote_addr_flag raw s =
    parsed (record s { cfg = record (s.cfg) { remote_addr = trim_space raw } })

-- the cases of the `switch` on the argument in lower case
unfoldable pub mode_of : Bytes → Option Mode
mode_of word =
    if word == text "run" then some run else if word == text "remote" then some remote else none

unfoldable pub action_of : Bytes → Option MenuAction
action_of word =
    if word == text "upload"
    then some upload
    else if word == text "store"
    then some store
    else if word == text "clean"
    then some clean
    else if word == text "deep-clean" || word == text "deepclean" || word == text "deep_clean"
    then some deep_clean
    else if word == text "view"
    then some view
    else if word == text "stats"
    then some stats
    else if word == text "verify"
    then some verify
    else if word == text "delete"
    then some delete
    else if word == text "expire"
    then some expire
    else if word == text "download" || word == text "stream"
    then some download
    else none

unfoldable pub set_mode : Mode → Scan → Parsed Scan
set_mode m s =
    if s.mode_provided
    then refused multiple_modes
    else parsed (record s { cfg = record (s.cfg) { mode = m }; mode_provided = true })

unfoldable pub set_action : MenuAction → Scan → Parsed Scan
set_action a s =
    if s.action_provided
    then refused multiple_actions
    else parsed (record s {
      cfg = record (s.cfg) { action = a; action_provided = true };
      action_provided = true;
    })

set_meaning : Option Mode → Option MenuAction → Scan → Parsed Scan
unfolding set_mode set_action
set_meaning (some m) a s = set_mode m s
set_meaning none (some a) s = set_action a s
set_meaning none none s = refused unsupported_argument

-- the `switch`
set_word : Bytes → Scan → Parsed Scan
unfolding set_meaning mode_of action_of
set_word w s = set_meaning (mode_of w) (action_of w) s

settled : Parsed Scan → Parsed (Scan × Option ValueFlag)
settled (parsed s) = parsed (s, none)
settled (refused e) = refused e

-- What an argument is: a switch, a flag whose value follows, a flag with its value, or a word.
pub data Argument : Type 0 where
  verbose_switch reassemble_switch : Argument
  flag : ValueFlag → Argument
  flag_value : ValueFlag → Bytes → Argument
  word : Bytes → Argument

flag_of : List ValueFlag → Bytes → Argument
flag_of [] arg = word (to_lower (trim_space arg))
flag_of (f ∷ fs) arg =
    let rest = flag_of fs arg in
    if arg == flag_name f then flag f else elim (cut_prefix arg (flag_name f ++ text "=")) [
      | some after ↦ flag_value f after
      | none ↦ rest
    ]

-- the tests of the loop, in order
unfoldable pub argument_of : Bytes → Argument
unfolding flag_of
argument_of arg =
    if arg == text "--verbose"
    then verbose_switch
    else if arg == text "--reassemble"
    then reassemble_switch
    else flag_of (ttl_flag ∷ store_path_flag ∷ remote_addr_flag ∷ []) arg

-- What one argument does: the state after it, and the flag whose value is still to come.
unfoldable pub take_argument : Argument → Scan → Parsed (Scan × Option ValueFlag)
unfolding set_word settled
take_argument verbose_switch s = parsed (
  record s { cfg = record (s.cfg) { key_store = record (s.cfg.key_store) { verbose = true } } },
  none,
)
take_argument reassemble_switch s =
    parsed (record s { cfg = record (s.cfg) { reassemble_enabled = true } }, none)
take_argument (flag f) s = parsed (s, some f)
take_argument (flag_value f value) s = settled (set_value f value s)
take_argument (word w) s = settled (set_word w s)

-- The loop of parseCLI; `pending` is the flag whose value is the next argument.
unfoldable pub parse_args : Option ValueFlag → List Bytes → Scan → Parsed Scan
parse_args none [] s = parsed s
parse_args (some f) [] s = refused missing_value
parse_args (some f) (value ∷ args) s = elim (set_value f value s) [
  | parsed t ↦ parse_args none args t
  | refused e ↦ refused e
]
parse_args none (arg ∷ args) s = elim (take_argument (argument_of arg) s) [
  | parsed (t, pending) ↦ parse_args pending args t
  | refused e ↦ refused e
]

-- the end of parseCLI
unfoldable pub settle_ttl : RuntimeConfig → RuntimeConfig
settle_ttl c =
    let ttl = if eqb c.ttl_seconds 0 then c.key_store.default_ttl_seconds else c.ttl_seconds in
    set_ttl ttl c

-- parseCLI
unfoldable pub parse_cli : List Bytes → RuntimeConfig → Parsed RuntimeConfig
unfolding settle_ttl
parse_cli args c =
    elim (parse_args none args
      (record { cfg = c; mode_provided = false; action_provided = false })) [
        | parsed s ↦ parsed (settle_ttl s.cfg)
        | refused e ↦ refused e
      ]
