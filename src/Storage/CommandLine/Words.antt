-- ===== src/Storage/CommandLine/Words.antt =====
-- How an argument list of cmd/storage spells settings: an independent description of the arguments.
use dps_files.Prelude.{
  refl, ◌++◌, ◌≡◌, ◌∷◌, ◌∙◌, [], some, true, List, Bytes, text, arith, inl, inr, ◌⊎◌, ◌==◌, ==→eq,
  Bool-cases, Option-cases, list_eq, nat_eq, parse_uint, trim_space, to_lower, has_prefix,
  cut_prefix, drop, length, ap,
}
use dps_files.Storage.CommandLine.Settings.{
  Setting, verbose, reassemble, ttl, store_path, remote_addr, in_mode, do_action,
}
use dps_files.Storage.CommandLine.{
  Mode, MenuAction, run, remote, upload, store, clean, deep_clean, view, stats, verify, delete,
  expire, download, ValueFlag, ttl_flag, store_path_flag, remote_addr_flag, flag_name, mode_name,
  action_name, mode_of, action_of, Argument, verbose_switch, reassemble_switch, flag, flag_value,
  word, flag_of, argument_of,
}

-- The word is one of the list.
abbrev pub IsOneOf : Bytes → List Bytes → Type 0
IsOneOf w [] = ⊥
IsOneOf w (x ∷ xs) = (w ≡ x) ⊎ IsOneOf w xs

-- The other words for an action.
abbrev pub aliases : MenuAction → List Bytes
aliases deep_clean = text "deepclean" ∷ text "deep_clean" ∷ []
aliases download = text "stream" ∷ []
aliases _ = []

pub mode_of-mode : (w : Bytes) (m : Mode) → mode_of w ≡ some m → w ≡ mode_name m
unfolding mode_of
mode_of-mode w run h = ground (arith, h, ==→eq w (text "run"))
mode_of-mode w remote h = ground (arith, h, ==→eq w (text "remote"))

pub action_of-action :
    (w : Bytes) (a : MenuAction) → action_of w ≡ some a → IsOneOf w (action_name a ∷ aliases a)
unfolding action_of
action_of-action w upload h = ground (arith, h, ==→eq w (text "upload"))
action_of-action w store h = ground (arith, h, ==→eq w (text "store"))
action_of-action w clean h = ground (arith, h, ==→eq w (text "clean"))
action_of-action w view h = ground (arith, h, ==→eq w (text "view"))
action_of-action w stats h = ground (arith, h, ==→eq w (text "stats"))
action_of-action w verify h = ground (arith, h, ==→eq w (text "verify"))
action_of-action w delete h = ground (arith, h, ==→eq w (text "delete"))
action_of-action w expire h = ground (arith, h, ==→eq w (text "expire"))
action_of-action w deep_clean h =
    ground (
      arith,
      h,
      ==→eq w (text "deep-clean"),
      ==→eq w (text "deepclean"),
      ==→eq w (text "deep_clean"),
    )
action_of-action w download h =
    ground (arith, h, ==→eq w (text "download"), ==→eq w (text "stream"))

has_prefix-append :
    (s prefix : Bytes) → has_prefix s prefix ≡ true → s ≡ prefix ++ drop (length prefix) s
unfolding has_prefix
has_prefix-append s [] h = refl
has_prefix-append [] (p ∷ ps) h = absurd (ground (arith, h))
has_prefix-append (c ∷ s) (p ∷ ps) h = ground (arith, h, has_prefix-append s ps)

cut_prefix-append :
    (s prefix after : Bytes) → cut_prefix s prefix ≡ some after → s ≡ prefix ++ after
unfolding cut_prefix
cut_prefix-append s prefix after h = elim (Bool-cases (has_prefix s prefix)) [
  | inl e ↦
      let same : drop (length prefix) s ≡ after = ground (arith, e, h) in
      has_prefix-append s prefix e ∙ ap (λ rest. prefix ++ rest) same
  | inr e ↦ absurd (ground (arith, e, h))
]

-- What an argument is, by its text.
abbrev pub IsArgument : Bytes → Argument → Type 0
IsArgument arg verbose_switch = arg ≡ text "--verbose"
IsArgument arg reassemble_switch = arg ≡ text "--reassemble"
IsArgument arg (flag f) = arg ≡ flag_name f
IsArgument arg (flag_value f value) = arg ≡ (flag_name f ++ text "=") ++ value
IsArgument arg (word w) = w ≡ to_lower (trim_space arg)

flag_of-IsArgument : (fs : List ValueFlag) (arg : Bytes) → IsArgument arg (flag_of fs arg)
unfolding flag_of
flag_of-IsArgument [] arg = refl
flag_of-IsArgument (f ∷ fs) arg = elim (Bool-cases (arg == flag_name f)) [
  | inl e ↦ rw (flag_of, e) (==→eq arg (flag_name f) e)
  | inr e ↦ elim (Option-cases (cut_prefix arg (flag_name f ++ text "="))) [
    | inl n ↦ rw (flag_of, e, n) (flag_of-IsArgument fs arg)
    | inr (after, c) ↦ rw (flag_of, e, c) (cut_prefix-append arg (flag_name f ++ text "=") after c)
  ]
]

pub argument_of-IsArgument : (arg : Bytes) → IsArgument arg (argument_of arg)
unfolding argument_of
argument_of-IsArgument arg = elim (Bool-cases (arg == text "--verbose")) [
  | inl e ↦ rw (argument_of, e) (==→eq arg (text "--verbose") e)
  | inr e ↦ elim (Bool-cases (arg == text "--reassemble")) [
    | inl r ↦ rw (argument_of, e, r) (==→eq arg (text "--reassemble") r)
    | inr r ↦
        rw (argument_of, e, r)
          (flag_of-IsArgument (ttl_flag ∷ store_path_flag ∷ remote_addr_flag ∷ []) arg)
  ]
]

-- The value that a flag is given, and the setting it stands for.
abbrev pub IsValue : ValueFlag → Bytes → Setting → Type 0
IsValue ttl_flag raw (ttl n) = parse_uint (trim_space raw) ≡ some n
IsValue store_path_flag raw (store_path p) = p ≡ trim_space raw
IsValue remote_addr_flag raw (remote_addr a) = a ≡ trim_space raw
IsValue _ raw _ = ⊥

-- The word, in lower case, for a mode or an action.
abbrev pub IsWord : Bytes → Setting → Type 0
IsWord w (in_mode m) = w ≡ mode_name m
IsWord w (do_action a) = IsOneOf w (action_name a ∷ aliases a)
IsWord w _ = ⊥

-- Arguments that spell one setting.
pub data Spells : List Bytes → Setting → Type 0 where
  by_verbose : Spells (text "--verbose" ∷ []) verbose
  by_reassemble : Spells (text "--reassemble" ∷ []) reassemble
  by_flag :
      (f : ValueFlag) (raw : Bytes) {x : Setting}
      → IsValue f raw x
      → Spells (flag_name f ∷ raw ∷ []) x
  by_joined :
      (f : ValueFlag) (raw : Bytes) {x : Setting}
      → IsValue f raw x
      → Spells (((flag_name f ++ text "=") ++ raw) ∷ []) x
  by_word : (arg : Bytes) {x : Setting} → IsWord (to_lower (trim_space arg)) x → Spells (arg ∷ []) x

-- The arguments spell the settings, one after the other.
pub data SpellsAll : List Bytes → List Setting → Type 0 where
  ended : SpellsAll [] []
  also :
      {one args : List Bytes} {x : Setting} {xs : List Setting}
      → Spells one x
      → SpellsAll args xs
      → SpellsAll (one ++ args) (x ∷ xs)
