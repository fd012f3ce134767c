-- ===== src/Storage/Menu/Words.antt =====
-- The words of the menu of cmd/storage, independently of the order in which promptAction tries them.
use dps_files.Prelude.{
  [], ◌∷◌, true, ◌≡◌, ◌==◌, ==→eq, inl, inr, sym, arith, text, Bytes, List, Bool-cases, contains,
  list_eq, nat_eq,
}
use dps_files.Storage.CommandLine.{
  MenuAction, upload, store, clean, deep_clean, view, stats, verify, delete, expire, download,
}
use dps_files.Storage.CommandLine.Words.{IsOneOf}
use dps_files.Storage.Menu.{choose, leave, menu_word}

-- The words for an action; an empty line is one for `view`.
abbrev pub menu_names : MenuAction → List Bytes
menu_names upload = text "upload" ∷ text "u" ∷ text "up" ∷ []
menu_names store = text "store" ∷ text "s" ∷ []
menu_names clean = text "clean" ∷ text "cl" ∷ []
menu_names deep_clean =
    text "deep-clean" ∷ text "deepclean" ∷ text "deep_clean" ∷ text "dc" ∷ text "cleand" ∷ []
menu_names view = [] ∷ text "view" ∷ text "vi" ∷ []
menu_names stats = text "stats" ∷ text "stat" ∷ []
menu_names verify = text "verify" ∷ text "ve" ∷ []
menu_names delete = text "delete" ∷ text "del" ∷ []
menu_names expire = text "expire" ∷ text "exp" ∷ text "ex" ∷ []
menu_names download = text "download" ∷ text "dl" ∷ text "down" ∷ text "stream" ∷ text "st" ∷ []

abbrev pub exit_names : List Bytes
exit_names = text "e" ∷ text "exit" ∷ text "q" ∷ []

contains-IsOneOf : (w : Bytes) (names : List Bytes) → contains w names ≡ true → IsOneOf w names
unfolding contains
contains-IsOneOf w [] h = absurd (ground (arith, h))
contains-IsOneOf w (n ∷ names) h = elim (Bool-cases (n == w)) [
  | inl e ↦ inl (sym (==→eq n w e))
  | inr e ↦ inr (contains-IsOneOf w names (ground (arith, e, h)))
]

chosen_contains :
    (w : Bytes) (a : MenuAction) → menu_word w ≡ choose a → contains w (menu_names a) ≡ true
unfolding menu_word
chosen_contains w upload h = ground (arith, h)
chosen_contains w store h = ground (arith, h)
chosen_contains w clean h = ground (arith, h)
chosen_contains w deep_clean h = ground (arith, h)
chosen_contains w view h = ground (arith, h)
chosen_contains w stats h = ground (arith, h)
chosen_contains w verify h = ground (arith, h)
chosen_contains w delete h = ground (arith, h)
chosen_contains w expire h = ground (arith, h)
chosen_contains w download h = ground (arith, h)

pub menu_word-choose :
    (w : Bytes) (a : MenuAction) → menu_word w ≡ choose a → IsOneOf w (menu_names a)
menu_word-choose w a h = contains-IsOneOf w (menu_names a) (chosen_contains w a h)

pub menu_word-leave : (w : Bytes) → menu_word w ≡ leave → IsOneOf w exit_names
unfolding menu_word
menu_word-leave w h = contains-IsOneOf w exit_names (ground (arith, h))
