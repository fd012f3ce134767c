-- ===== src/Prelude/Decimal.antt =====
-- Decimal numbers as package strconv reads and prints them.
use Prim.Native.Nat.{ℕ, zero, suc, ◌+◌, ◌-◌, ◌*◌, ◌/◌, ◌%◌, ◌^◌, ◌<◌, ◌≤◌}
use mathlib.Core.Path.{◌≡◌, refl}
use mathlib.Core.Logic.{◌≢◌}
use mathlib.Core.Bool.{Bool, true, false, ◌&&◌}
use mathlib.Core.Option.{Option, none, some}
use mathlib.Core.List.{[], ◌∷◌}
use native.Mathlib.Omega.{arith}
use native.Mathlib.Nat.{pow-suc}
use dps_files.Prelude.Tests.{ltb, leb, eqb, if◌then◌else◌}
use dps_files.Prelude.Binary.{Bytes}
use dps_files.Prelude.Lists.{All}

-- The digits are read from the left; a value over 64 bits is an error, and stays one.
unfoldable pub digits_from : ℕ → Bytes → Option ℕ
digits_from n [] = some n
digits_from n (c ∷ cs) =
    let next = n * 10 + (c - b'0') in
    let rest = digits_from next cs in
    if leb b'0' c && leb c b'9' && ltb next (2 ^ 64) then rest else none

-- `strconv.ParseUint(s, 10, 64)`
unfoldable pub parse_uint : Bytes → Option ℕ
unfolding digits_from
parse_uint [] = none
parse_uint (c ∷ cs) = digits_from 0 (c ∷ cs)

-- The digits of a number of at most `fuel` of them, before `out`.
digits : ℕ → ℕ → Bytes → Bytes
digits zero n out = out
digits (suc fuel) n out =
    let rest = digits fuel (n / 10) ((b'0' + n % 10) ∷ out) in
    if ltb n 10 then (b'0' + n) ∷ out else rest

-- `strconv.FormatUint(n, 10)` and `%d` of `fmt`: 64 bits have at most 20 digits.
unfoldable pub format_uint : ℕ → Bytes
unfolding digits
format_uint n = digits 20 n []

digits_from-digits :
    (fuel n : ℕ) (out : Bytes)
    → n < 10 ^ fuel
    → n < 2 ^ 64
    → digits_from 0 (digits fuel n out) ≡ digits_from n out
unfolding digits digits_from
digits_from-digits zero n out h w = let e : n ≡ 0 = omega arith in rw e refl
digits_from-digits (suc fuel) n out h w =
    let shorter : n / 10 < 10 ^ fuel = omega (arith, pow-suc 10 fuel) in
    ground (arith, digits_from-digits fuel (n / 10) ((b'0' + n % 10) ∷ out) shorter)

abbrev pub IsDigit : ℕ → Type 0
IsDigit c = (b'0' ≤ c) × (c ≤ b'9')

digits-IsDigit : (fuel n : ℕ) (out : Bytes) → All IsDigit out → All IsDigit (digits fuel n out)
unfolding digits
digits-IsDigit zero n out h = h
digits-IsDigit (suc fuel) n out h =
    ground
      (arith, digits-IsDigit fuel (n / 10) ((b'0' + n % 10) ∷ out) ((omega arith, omega arith), h))

-- What is printed is decimal digits.
pub format_uint-IsDigit : (n : ℕ) → All IsDigit (format_uint n)
unfolding format_uint
format_uint-IsDigit n = digits-IsDigit 20 n [] tt

parse_uint-eq-digits_from :
    (s : Bytes) (n : ℕ) → digits_from 0 s ≡ some n → s ≢ [] → parse_uint s ≡ some n
unfolding parse_uint
parse_uint-eq-digits_from [] n h ne = absurd (ne refl)
parse_uint-eq-digits_from (c ∷ cs) n h ne = h

digits-nonempty : (fuel n : ℕ) (out : Bytes) → out ≢ [] → digits fuel n out ≢ []
unfolding digits
digits-nonempty zero n out h = h
digits-nonempty (suc fuel) n out h =
    ground (arith, digits-nonempty fuel (n / 10) ((b'0' + n % 10) ∷ out) (λ e. cc))

format_uint-nonempty : (n : ℕ) → format_uint n ≢ []
unfolding format_uint digits
format_uint-nonempty n =
    ground (arith, digits-nonempty 19 (n / 10) ((b'0' + n % 10) ∷ []) (λ e. cc))

-- A number of 64 bits is read back from its digits.
pub parse_uint-format_uint : (n : ℕ) → n < 2 ^ 64 → parse_uint (format_uint n) ≡ some n
unfolding format_uint digits_from
parse_uint-format_uint n h =
    parse_uint-eq-digits_from (format_uint n) n (digits_from-digits 20 n [] (omega arith) h)
      (format_uint-nonempty n)

-- `strconv.Atoi` on 64 bits: a sign and digits. What is below 0 is told apart from what is not a number.
pub data Integer : Type 0 where
  nonnegative : ℕ → Integer
  negative : Integer

signed : Bool → Option ℕ → Option Integer
signed minus none = none
signed true (some n) =
    if eqb n 0 then some (nonnegative 0) else if leb n (2 ^ 63) then some negative else none
signed false (some n) = if ltb n (2 ^ 63) then some (nonnegative n) else none

unfoldable pub atoi : Bytes → Option Integer
unfolding signed
atoi [] = none
atoi (c ∷ cs) =
    if eqb c b'-'
    then signed true (parse_uint cs)
    else if eqb c b'+'
    then signed false (parse_uint cs)
    else signed false (parse_uint (c ∷ cs))

digits_from_lt : (s : Bytes) (n r : ℕ) → n < 2 ^ 64 → digits_from n s ≡ some r → r < 2 ^ 64
unfolding digits_from
digits_from_lt [] n r h e = ground arith
digits_from_lt (c ∷ cs) n r h e = ground (arith, digits_from_lt cs (n * 10 + (c - b'0')) r)

-- What is read fits 64 bits.
pub parse_uint_lt : (s : Bytes) (n : ℕ) → parse_uint s ≡ some n → n < 2 ^ 64
unfolding parse_uint
parse_uint_lt [] n h = absurd (ground (arith, h))
parse_uint_lt (c ∷ cs) n h = digits_from_lt (c ∷ cs) 0 n (omega arith) h
