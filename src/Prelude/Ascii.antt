-- ===== src/Prelude/Ascii.antt =====
-- Package strings on ASCII texts.
use Prim.Native.Nat.{ℕ, ◌+◌, ◌-◌}
use mathlib.Core.Path.{◌≡◌, refl}
use mathlib.Core.Bool.{Bool, true, false, ◌&&◌, ◌||◌}
use mathlib.Core.Logic.{◌⊎◌, inl, inr}
use mathlib.Core.Option.{Option, none, some}
use mathlib.Core.List.{[], ◌∷◌, ◌++◌}
use native.Mathlib.Omega.{arith}
use dps_files.Prelude.Tests.{==_refl, Bool-cases, leb, eqb, ◌==◌, list_eq, nat_eq, if◌then◌else◌}
use dps_files.Prelude.Binary.{has_suffix, trim_suffix, Bytes, has_prefix}
use dps_files.Prelude.Lists.{length-append, drop-append_at, take-append_at, All, drop, length}
use dps_files.Prelude.Decimal.{IsDigit}

-- blank, tab, and the line and page ends
abbrev pub is_space : ℕ → Bool
is_space c = eqb c 32 || (leb 9 c && leb c 13)

trim_left : Bytes → Bytes
trim_left [] = []
trim_left (c ∷ cs) = let rest = trim_left cs in if is_space c then rest else c ∷ cs

trim_right : Bytes → Bytes
trim_right [] = []
trim_right (c ∷ cs) = let rest = trim_right cs in if is_space c && rest == [] then [] else c ∷ rest

-- `strings.TrimSpace`
unfoldable pub trim_space : Bytes → Bytes
unfolding trim_left trim_right
trim_space s = trim_right (trim_left s)

lower : ℕ → ℕ
lower c = if leb b'A' c && leb c b'Z' then c + 32 else c

-- `strings.ToLower`
unfoldable pub to_lower : Bytes → Bytes
unfolding lower
to_lower [] = []
to_lower (c ∷ cs) = lower c ∷ to_lower cs

-- `strings.CutPrefix`
unfoldable pub cut_prefix : Bytes → Bytes → Option Bytes
cut_prefix s prefix = if has_prefix s prefix then some (drop (length prefix) s) else none

trim_left-plain : (s : Bytes) → All (λ c. is_space c ≡ false) s → trim_left s ≡ s
unfolding trim_left
trim_left-plain [] h = refl
trim_left-plain (c ∷ cs) (p, h) = ground (arith, p)

trim_right-plain : (s : Bytes) → All (λ c. is_space c ≡ false) s → trim_right s ≡ s
unfolding trim_right
trim_right-plain [] h = refl
trim_right-plain (c ∷ cs) (p, h) = ground (arith, p, trim_right-plain cs h)

-- Where there is no blank there is nothing to trim.
pub trim_space-plain : (s : Bytes) → All (λ c. is_space c ≡ false) s → trim_space s ≡ s
unfolding trim_space
trim_space-plain s h = rw (trim_left-plain s h) (trim_right-plain s h)

digits-plain : (s : Bytes) → All IsDigit s → All (λ c. is_space c ≡ false) s
digits-plain [] h = tt
digits-plain (c ∷ cs) ((lo, hi), h) = (ground arith, digits-plain cs h)

pub trim_space-digits : (s : Bytes) → All IsDigit s → trim_space s ≡ s
trim_space-digits s h = trim_space-plain s (digits-plain s h)

trim_right_idem : (s : Bytes) → trim_right (trim_right s) ≡ trim_right s
unfolding trim_right
trim_right_idem [] = refl
trim_right_idem (c ∷ cs) = ground (arith, trim_right_idem cs)

trim_left_head :
    (s : Bytes)
    → (trim_left s ≡ []) ⊎ ((c : ℕ) × (cs : Bytes) × (trim_left s ≡ c ∷ cs) × (is_space c ≡ false))
unfolding trim_left
trim_left_head [] = inl refl
trim_left_head (c ∷ cs) = elim (Bool-cases (is_space c)) [
  | inl h ↦ rw h (trim_left_head cs)
  | inr h ↦ inr (c, cs, ground (arith, h), h)
]

trim_left-trim_right :
    (c : ℕ) (cs : Bytes)
    → is_space c ≡ false
    → trim_left (trim_right (c ∷ cs)) ≡ trim_right (c ∷ cs)
unfolding trim_left trim_right
trim_left-trim_right c cs h = ground (arith, h)

-- What is trimmed has nothing left to trim.
pub trim_space_idem : (s : Bytes) → trim_space (trim_space s) ≡ trim_space s
unfolding trim_space
trim_space_idem s = elim (trim_left_head s) [
  | inl e ↦ rw e refl
  | inr (c, cs, e, h) ↦ rw (e, trim_left-trim_right c cs h) (trim_right_idem (c ∷ cs))
]

-- `strings.ToUpper`
upper : ℕ → ℕ
upper c = if leb b'a' c && leb c b'z' then c - 32 else c

unfoldable pub to_upper : Bytes → Bytes
unfolding upper
to_upper [] = []
to_upper (c ∷ cs) = upper c ∷ to_upper cs

pub has_suffix-append : (xs suffix : Bytes) → has_suffix (xs ++ suffix) suffix ≡ true
unfolding has_suffix
has_suffix-append xs suffix =
    let n = length (xs ++ suffix) - length suffix in
    let at : n ≡ length xs = omega (arith, length-append xs suffix) in
    ground (arith, length-append xs suffix, drop-append_at n xs suffix at, ==_refl suffix)

pub trim_suffix-append : (xs suffix : Bytes) → trim_suffix (xs ++ suffix) suffix ≡ xs
unfolding trim_suffix has_suffix
trim_suffix-append xs suffix =
    let n = length (xs ++ suffix) - length suffix in
    let at : n ≡ length xs = omega (arith, length-append xs suffix) in
    ground (
      arith,
      length-append xs suffix,
      drop-append_at n xs suffix at,
      take-append_at n xs suffix at,
      ==_refl suffix,
    )
