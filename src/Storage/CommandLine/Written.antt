-- ===== src/Storage/CommandLine/Written.antt =====
-- Command lines written out for parseCLI of cmd/storage.
use dps_files.Prelude.{
  list_eq, nat_eq, parse_uint-format_uint, format_uint-IsDigit, trim_space-digits, ◌^◌, ap, ◌<◌,
  ◌≤◌, All, false, ℕ, ◌+◌, ◌∙◌, trim_space, to_lower, has_prefix, cut_prefix, nat_eq, list_eq,
  format_uint, [], arith, ◌++◌, refl,
}
use dps_files.Storage.CommandLine.{
  verbose_switch, reassemble_switch, none, some, text, ◌∷◌, Bytes, List, true, ◌≡◌, RuntimeConfig,
  Mode, MenuAction, run, remote, upload, store, clean, deep_clean, view, stats, verify, delete,
  expire, download, Scan, parsed, ValueFlag, ttl_flag, store_path_flag, remote_addr_flag, flag_name,
  mode_name, action_name, ttl_value, set_value, mode_of, action_of, set_mode, set_action, set_word,
  argument_of, flag_of, parse_args, settle_ttl, parse_cli, flag, word, take_argument, settled,
  set_meaning,
}
use dps_files.Storage.CommandLine.Settings.{
  Setting, IsValid, IsCommandLine, apply, apply_all, modes, actions, bit, verbose, reassemble, ttl,
  store_path, remote_addr, in_mode, do_action,
}

abbrev pub write : Setting → List Bytes
write verbose = text "--verbose" ∷ []
write reassemble = text "--reassemble" ∷ []
write (ttl n) = flag_name ttl_flag ∷ format_uint n ∷ []
write (store_path p) = flag_name store_path_flag ∷ p ∷ []
write (remote_addr a) = flag_name remote_addr_flag ∷ a ∷ []
write (in_mode m) = mode_name m ∷ []
write (do_action a) = action_name a ∷ []

abbrev pub write_settings : List Setting → List Bytes
write_settings [] = []
write_settings (x ∷ xs) = write x ++ write_settings xs

argument_of_switches :
    (argument_of (text "--verbose") ≡ verbose_switch)
    × (argument_of (text "--reassemble") ≡ reassemble_switch)
unfolding argument_of flag_of list_eq nat_eq
argument_of_switches = (refl, refl)

argument_of-flag : (f : ValueFlag) → argument_of (flag_name f) ≡ flag f
unfolding argument_of flag_of list_eq nat_eq cut_prefix has_prefix
argument_of-flag ttl_flag = refl
argument_of-flag store_path_flag = refl
argument_of-flag remote_addr_flag = refl

argument_of-mode : (m : Mode) → argument_of (mode_name m) ≡ word (mode_name m)
unfolding argument_of flag_of list_eq nat_eq cut_prefix has_prefix to_lower trim_space
argument_of-mode run = refl
argument_of-mode remote = refl

argument_of-action : (a : MenuAction) → argument_of (action_name a) ≡ word (action_name a)
unfolding argument_of flag_of list_eq nat_eq cut_prefix has_prefix to_lower trim_space
argument_of-action upload = refl
argument_of-action store = refl
argument_of-action clean = refl
argument_of-action deep_clean = refl
argument_of-action view = refl
argument_of-action stats = refl
argument_of-action verify = refl
argument_of-action delete = refl
argument_of-action expire = refl
argument_of-action download = refl

mode_of-mode_name : (m : Mode) → mode_of (mode_name m) ≡ some m
unfolding mode_of list_eq nat_eq
mode_of-mode_name run = refl
mode_of-mode_name remote = refl

-- An action is read as itself, and as no mode.
names_of_action :
    (a : MenuAction) → (mode_of (action_name a) ≡ none) × (action_of (action_name a) ≡ some a)
unfolding mode_of action_of list_eq nat_eq
names_of_action upload = (refl, refl)
names_of_action store = (refl, refl)
names_of_action clean = (refl, refl)
names_of_action deep_clean = (refl, refl)
names_of_action view = (refl, refl)
names_of_action stats = (refl, refl)
names_of_action verify = (refl, refl)
names_of_action delete = (refl, refl)
names_of_action expire = (refl, refl)
names_of_action download = (refl, refl)

-- the state after a setting
abbrev enter_setting : Setting → Scan → Scan
enter_setting (in_mode m) s = record s { cfg = record (s.cfg) { mode = m }; mode_provided = true }
enter_setting (do_action a) s = record s {
  cfg = record (s.cfg) { action = a; action_provided = true };
  action_provided = true;
}
enter_setting x s = record s { cfg = apply x s.cfg }

abbrev enter_all : List Setting → Scan → Scan
enter_all [] s = s
enter_all (x ∷ xs) s = enter_all xs (enter_setting x s)

set_value-written :
    (f : ValueFlag) (value : Bytes) (args : List Bytes) (s t : Scan)
    → set_value f value s ≡ parsed t
    → parse_args none (flag_name f ∷ value ∷ args) s ≡ parse_args none args t
unfolding parse_args take_argument
set_value-written f value args s t h = ground (arith, argument_of-flag f, h)

set_value-ttl :
    (n : ℕ) (s : Scan)
    → (0 < n) × (n < 2 ^ 64)
    → set_value ttl_flag (format_uint n) s ≡ parsed (enter_setting (ttl n) s)
unfolding set_value ttl_value
set_value-ttl n s (p, w) =
    rw (trim_space-digits (format_uint n) (format_uint-IsDigit n), parse_uint-format_uint n w)
      (ground arith)

-- There is room for the setting: no second mode, and no second action.
abbrev Fits : List Setting → Scan → Type 0
Fits xs s = (bit s.mode_provided + modes xs ≤ 1) × (bit s.action_provided + actions xs ≤ 1)

write_one :
    (x : Setting) (args : List Bytes) (s : Scan)
    → IsValid x
    → Fits (x ∷ []) s
    → parse_args none (write x ++ args) s ≡ parse_args none args (enter_setting x s)
unfolding parse_args take_argument settled set_word set_meaning set_mode set_action set_value
write_one verbose args s v f = ground (arith, argument_of_switches)
write_one reassemble args s v f = ground (arith, argument_of_switches)
write_one (ttl n) args s v f =
    set_value-written ttl_flag (format_uint n) args s _ (set_value-ttl n s v)
write_one (store_path p) args s v f =
    set_value-written store_path_flag p args s (enter_setting (store_path p) s) (rw v refl)
write_one (remote_addr a) args s v f =
    set_value-written remote_addr_flag a args s (enter_setting (remote_addr a) s) (rw v refl)
write_one (in_mode m) args s v f = ground (arith, argument_of-mode m, mode_of-mode_name m)
write_one (do_action a) args s v f = ground (arith, argument_of-action a, names_of_action a)

Fits-enter_setting :
    (x : Setting) (xs : List Setting) (s : Scan) → Fits (x ∷ xs) s → Fits xs (enter_setting x s)
Fits-enter_setting x xs s f = ground arith

Fits-first : (x : Setting) (xs : List Setting) (s : Scan) → Fits (x ∷ xs) s → Fits (x ∷ []) s
Fits-first x xs s f = ground arith

parse_args-write_settings :
    (xs : List Setting) (s : Scan)
    → All IsValid xs
    → Fits xs s
    → parse_args none (write_settings xs) s ≡ parsed (enter_all xs s)
unfolding parse_args
parse_args-write_settings [] s v f = refl
parse_args-write_settings (x ∷ xs) s (v, vs) f =
    write_one x (write_settings xs) s v (Fits-first x xs s f)
    ∙ parse_args-write_settings xs (enter_setting x s) vs (Fits-enter_setting x xs s f)

enter_all-cfg : (xs : List Setting) (s : Scan) → (enter_all xs s).cfg ≡ apply_all xs s.cfg
enter_all-cfg [] s = refl
enter_all-cfg (x ∷ xs) s = enter_all-cfg xs (enter_setting x s) ∙ ap (apply_all xs) (ground arith)

-- Every command line, written out, is accepted by parseCLI, and does what its settings say, one
-- after the other.
pub parse_cli-write_settings :
    (xs : List Setting) (c : RuntimeConfig)
    → IsCommandLine xs
    → parse_cli (write_settings xs) c ≡ parsed (settle_ttl (apply_all xs c))
unfolding parse_cli
parse_cli-write_settings xs c (v, m, a) =
    let start : Scan = record { cfg = c; mode_provided = false; action_provided = false } in
    rw (parse_cli, parse_args-write_settings xs start v (omega arith, omega arith))
      (ap (λ d. parsed (settle_ttl d)) (enter_all-cfg xs start))
