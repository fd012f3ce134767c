-- ===== src/Storage/CommandLine/Accepted.antt =====
-- What parseCLI of cmd/storage accepts: an independent description of the command line, as a list of
-- settings that are written out and applied one after the other.
use dps_files.Prelude.{
  All-append, refl, sym, subst, ◌++◌, true, false, ap, none, Option, parse_uint_lt, ◌∙◌,
  trim_space_idem, arith, inl, inr, Option-cases, [], some, trim_space, ◌+◌, ◌≤◌, All, parse_uint,
  ◌∷◌, ◌≡◌,
}
use dps_files.Storage.CommandLine.Settings.{
  Setting, IsValid, apply, apply_all, modes, actions, IsCommandLine, bit, verbose, reassemble, ttl,
  store_path, remote_addr, in_mode, do_action,
}
use dps_files.Storage.CommandLine.Words.{
  mode_of-mode, action_of-action, IsArgument, argument_of-IsArgument, IsValue, IsWord, Spells,
  SpellsAll, by_verbose, by_reassemble, by_flag, by_joined, by_word, ended, also,
}
use dps_files.Storage.CommandLine.{
  flag_name, Parsed-cases, Bool, Bytes, List, true, RuntimeConfig, Scan, Parsed, parsed, refused,
  ValueFlag, ttl_flag, store_path_flag, remote_addr_flag, ttl_value, set_value, mode_of, action_of,
  set_mode, set_action, set_meaning, set_word, take_argument, settled, argument_of, parse_args,
  settle_ttl, parse_cli, Argument, verbose_switch, reassemble_switch, flag, flag_value, word,
}

bit_le : (b : Bool) → bit b ≤ 1
bit_le true = omega arith
bit_le false = omega arith

-- From `s`, the settings lead to `t`.
abbrev Leads : Scan → List Setting → Scan → Type 0
Leads s xs t =
    All IsValid xs
    × (t.cfg ≡ apply_all xs s.cfg)
    × (bit t.mode_provided ≡ bit s.mode_provided + modes xs)
    × (bit t.action_provided ≡ bit s.action_provided + actions xs)

set_value-Leads :
    (f : ValueFlag) (raw : Bytes) (s t : Scan)
    → set_value f raw s ≡ parsed t
    → (x : Setting) × IsValue f raw x × Leads s (x ∷ []) t
unfolding set_value ttl_value
set_value-Leads ttl_flag raw s t h = elim (Option-cases (parse_uint (trim_space raw))) [
  | inl e ↦ absurd (ground (arith, e, h))
  | inr (n, e) ↦ (ttl n, e, ground (arith, e, h, parse_uint_lt (trim_space raw) n))
]
set_value-Leads store_path_flag raw s t h =
    (store_path (trim_space raw), refl, ground (arith, h, trim_space_idem raw))
set_value-Leads remote_addr_flag raw s t h =
    (remote_addr (trim_space raw), refl, ground (arith, h, trim_space_idem raw))

set_word-Leads :
    (w : Bytes) (s t : Scan)
    → set_word w s ≡ parsed t
    → (x : Setting) × IsWord w x × Leads s (x ∷ []) t
unfolding set_word set_meaning set_mode set_action
set_word-Leads w s t h = elim (Option-cases (mode_of w)) [
  | inr (m, e) ↦ (in_mode m, mode_of-mode w m e, ground (arith, e, h))
  | inl e ↦ elim (Option-cases (action_of w)) [
    | inr (a, r) ↦ (do_action a, action_of-action w a r, ground (arith, e, r, h))
    | inl r ↦ absurd (ground (arith, e, r, h))
  ]
]

modes-append : (xs ys : List Setting) → modes (xs ++ ys) ≡ modes xs + modes ys
modes-append [] ys = omega arith
modes-append (x ∷ xs) ys = ground (arith, modes-append xs ys)

actions-append : (xs ys : List Setting) → actions (xs ++ ys) ≡ actions xs + actions ys
actions-append [] ys = omega arith
actions-append (x ∷ xs) ys = ground (arith, actions-append xs ys)

apply_all-append :
    (xs ys : List Setting) (c : RuntimeConfig)
    → apply_all (xs ++ ys) c ≡ apply_all ys (apply_all xs c)
apply_all-append [] ys c = refl
apply_all-append (x ∷ xs) ys c = apply_all-append xs ys (apply x c)

Leads-trans :
    (xs ys : List Setting) (s t u : Scan) → Leads s xs t → Leads t ys u → Leads s (xs ++ ys) u
Leads-trans xs ys s t u (v, c, m, a) (w, d, n, b) = (
  All-append IsValid xs ys v w,
  d ∙ ap (apply_all ys) c ∙ sym (apply_all-append xs ys s.cfg),
  omega (arith, modes-append xs ys, m, n),
  omega (arith, actions-append xs ys, a, b),
)

-- What one argument does: it spells a setting, or is a flag whose value is still to come.
abbrev Taken : Option ValueFlag → Bytes → Scan → Scan → Type 0
Taken none arg s u = (x : Setting) × Spells (arg ∷ []) x × Leads s (x ∷ []) u
Taken (some f) arg s u = (arg ≡ flag_name f) × (u ≡ s)

settled-Taken :
    (p : Parsed Scan) (arg : Bytes) (s u : Scan) (pending : Option ValueFlag)
    → ((t : Scan) → p ≡ parsed t → (x : Setting) × Spells (arg ∷ []) x × Leads s (x ∷ []) t)
    → settled p ≡ parsed (u, pending)
    → Taken pending arg s u
unfolding settled
settled-Taken (parsed t) arg s u none k h =
    let same : t ≡ u = cc in
    subst (λ (v : Scan). (x : Setting) × Spells (arg ∷ []) x × Leads s (x ∷ []) v) same (k t refl)
settled-Taken (parsed t) arg s u (some f) k h = absurd (ground (arith, h))
settled-Taken (refused e) arg s u pending k h = absurd (ground (arith, h))

take_argument-Taken :
    (a : Argument) (arg : Bytes) (s u : Scan) (pending : Option ValueFlag)
    → IsArgument arg a
    → take_argument a s ≡ parsed (u, pending)
    → Taken pending arg s u
unfolding take_argument
take_argument-Taken verbose_switch arg s u none i h =
    (verbose, subst (λ b. Spells (b ∷ []) verbose) (sym i) by_verbose, ground (arith, h))
take_argument-Taken verbose_switch arg s u (some f) i h = absurd (ground (arith, h))
take_argument-Taken reassemble_switch arg s u none i h =
    (reassemble, subst (λ b. Spells (b ∷ []) reassemble) (sym i) by_reassemble, ground (arith, h))
take_argument-Taken reassemble_switch arg s u (some f) i h = absurd (ground (arith, h))
take_argument-Taken (flag f) arg s u none i h = absurd (ground (arith, h))
take_argument-Taken (flag f) arg s u (some g) i h = ground (arith, i, h)
take_argument-Taken (flag_value f value) arg s u pending i h =
    settled-Taken (set_value f value s) arg s u pending
      (λ t k.
        let (x, v, l) = set_value-Leads f value s t k in
        (x, subst (λ b. Spells (b ∷ []) x) (sym i) (by_joined f value v), l))
      h
take_argument-Taken (word w) arg s u pending i h =
    settled-Taken (set_word w s) arg s u pending
      (λ t k.
        let (x, v, l) = set_word-Leads w s t k in (x, by_word arg (subst (λ b. IsWord b x) i v), l))
      h

parse_args_first :
    (pending : Option ValueFlag) (arg : Bytes) (args : List Bytes) (s u : Scan)
    → take_argument (argument_of arg) s ≡ parsed (u, pending)
    → parse_args none (arg ∷ args) s ≡ parse_args pending args u
unfolding parse_args
parse_args_first pending arg args s u r = cc

-- the arguments that are left, with the flag before them
abbrev with_flag : Option ValueFlag → List Bytes → List Bytes
with_flag none args = args
with_flag (some f) args = flag_name f ∷ args

-- The arguments spell settings that lead from `s` to `t`.
abbrev Accepts : List Bytes → Scan → Scan → Type 0
Accepts args s t = (xs : List Setting) × SpellsAll args xs × Leads s xs t

Taken-Accepts :
    (pending : Option ValueFlag) (arg : Bytes) (args : List Bytes) (s u t : Scan)
    → Taken pending arg s u
    → Accepts (with_flag pending args) u t
    → Accepts (arg ∷ args) s t
Taken-Accepts none arg args s u t (x, v, l) (ys, w, m) =
    (x ∷ ys, also v w, Leads-trans (x ∷ []) ys s u t l m)
Taken-Accepts (some f) arg args s u t (i, same) k =
    subst (λ b. Accepts (b ∷ args) s t) (sym i)
      (subst (λ (v : Scan). Accepts (flag_name f ∷ args) v t) same k)

parse_args-Accepts :
    (pending : Option ValueFlag) (args : List Bytes) (s t : Scan)
    → parse_args pending args s ≡ parsed t
    → Accepts (with_flag pending args) s t
unfolding parse_args
parse_args-Accepts none [] s t h = ([], ended, ground (arith, h))
parse_args-Accepts (some f) [] s t h = absurd (ground (arith, h))
parse_args-Accepts (some f) (value ∷ args) s t h = elim (Parsed-cases (set_value f value s)) [
  | inr (e, r) ↦ absurd (ground (arith, r, h))
  | inl (u, r) ↦
      let (x, v, l) = set_value-Leads f value s u r in
      let (ys, w, m) = parse_args-Accepts none args u t (ground (arith, r, h)) in
      (x ∷ ys, also (by_flag f value v) w, Leads-trans (x ∷ []) ys s u t l m)
]
parse_args-Accepts none (arg ∷ args) s t h =
    elim (Parsed-cases (take_argument (argument_of arg) s)) [
      | inr (e, r) ↦ absurd (ground (arith, r, h))
      | inl ((u, pending), r) ↦
          Taken-Accepts pending arg args s u t
            (take_argument-Taken (argument_of arg) arg s u pending (argument_of-IsArgument arg) r)
            (parse_args-Accepts pending args u t
              (sym (parse_args_first pending arg args s u r) ∙ h))
    ]

-- parseCLI accepts only arguments that spell a command line, and does what its settings say, one after
-- the other: valid settings, with at most one mode and one action, each spelled as a switch, a flag with
-- its value behind it or joined by `=`, or one of the words for a mode or an action, in any case.
pub parse_cli_sound :
    (args : List Bytes) (c d : RuntimeConfig)
    → parse_cli args c ≡ parsed d
    → (xs : List Setting) × SpellsAll args xs × IsCommandLine xs × (d ≡ settle_ttl (apply_all xs c))
unfolding parse_cli
parse_cli_sound args c d h =
    let start : Scan = record { cfg = c; mode_provided = false; action_provided = false } in
    elim (Parsed-cases (parse_args none args start)) [
      | inr (e, r) ↦ absurd (ground (arith, r, h))
      | inl (t, r) ↦
          let (xs, spelled, (v, e, m, a)) = parse_args-Accepts none args start t r in
          (
            xs,
            spelled,
            (
              v,
              omega (arith, m, bit_le t.mode_provided),
              omega (arith, a, bit_le t.action_provided),
            ),
            ground (arith, r, h, e),
          )
    ]
