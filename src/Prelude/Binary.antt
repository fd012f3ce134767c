-- ===== src/Prelude/Binary.antt =====
-- Byte strings: the fixed-width encodings of `encoding/binary`, and `%x` of `fmt`.
use Prim.Native.Nat.{ℕ, zero, suc, ◌+◌, ◌-◌, ◌*◌, ◌/◌, ◌%◌, ◌^◌, ◌<◌}
use mathlib.Core.Path.{◌≡◌, refl, ap, ap₂, ◌∙◌}
use mathlib.Core.Bool.{Bool, true, false, ◌&&◌}
use mathlib.Core.Option.{Option, none, some}
use mathlib.Core.List.{List, [], ◌∷◌, ◌++◌}
use native.Mathlib.Omega.{arith}
use native.Mathlib.Nat.{pow-suc}
use Prim.Native.Char.{code}
use Prim.Native.String.{String}
use dps_files.Prelude.Tests.{Eq, ltb, leb, ◌==◌, list_eq, nat_eq, if◌then◌else◌}
use dps_files.Prelude.Lists.{take, drop, length, length-append}

abbrev pub Bytes : Type 0
Bytes = List ℕ

-- The bytes of an ASCII text.
abbrev pub text : String → Bytes
text String.[] = []
text (String.◌∷◌ c s) = code c ∷ text s

-- `binary.BigEndian.PutUint16/32/64`, at `width` bytes; the value is cut to the width.
unfoldable pub put_be : ℕ → ℕ → Bytes
put_be zero n = []
put_be (suc width) n = put_be width (n / 256) ++ (n % 256) ∷ []

-- `binary.LittleEndian.PutUint64`, at `width` bytes.
unfoldable pub put_le : ℕ → ℕ → Bytes
put_le zero n = []
put_le (suc width) n = (n % 256) ∷ put_le width (n / 256)

get_be_from : ℕ → Bytes → ℕ
get_be_from acc [] = acc
get_be_from acc (b ∷ bs) = get_be_from (acc * 256 + b) bs

-- `binary.BigEndian.Uint16/32/64`
unfoldable pub get_be : Bytes → ℕ
unfolding get_be_from
get_be bs = get_be_from 0 bs

get_be_from-append :
    (acc : ℕ) (bs : Bytes) (b : ℕ) → get_be_from acc (bs ++ b ∷ []) ≡ get_be_from acc bs * 256 + b
unfolding get_be_from
get_be_from-append acc [] b = refl
get_be_from-append acc (x ∷ bs) b = get_be_from-append (acc * 256 + x) bs b

pub length-put_be : (width n : ℕ) → length (put_be width n) ≡ width
unfolding put_be
length-put_be zero n = refl
length-put_be (suc w) n =
    omega (arith, length-append (put_be w (n / 256)) ((n % 256) ∷ []), length-put_be w (n / 256))

-- A value that fits its width is read back.
pub get_be-put_be : (width n : ℕ) → n < 256 ^ width → get_be (put_be width n) ≡ n
unfolding get_be put_be
get_be-put_be zero n h = omega arith
get_be-put_be (suc w) n h =
    get_be_from-append 0 (put_be w (n / 256)) (n % 256)
    ∙ omega (arith, get_be-put_be w (n / 256) (omega (arith, pow-suc 256 w)))

hex_digit : ℕ → ℕ
hex_digit d = if ltb d 10 then 48 + d else 87 + d

-- `fmt.Sprintf("%x", bs)` and `hex.EncodeToString`
unfoldable pub hex_encode : Bytes → Bytes
unfolding hex_digit
hex_encode [] = []
hex_encode (b ∷ bs) = hex_digit (b / 16) ∷ hex_digit (b % 16) ∷ hex_encode bs

hex_digit-injective : (a b : ℕ) → hex_digit a ≡ hex_digit b → a ≡ b
unfolding hex_digit
hex_digit-injective a b h = ground arith

-- Different bytes have different hexadecimal texts.
pub hex_encode-injective : (xs ys : Bytes) → hex_encode xs ≡ hex_encode ys → xs ≡ ys
unfolding hex_encode
hex_encode-injective [] [] h = refl
hex_encode-injective [] (y ∷ ys) h = cc
hex_encode-injective (x ∷ xs) [] h = cc
hex_encode-injective (x ∷ xs) (y ∷ ys) h =
    let hi : hex_digit (x / 16) ≡ hex_digit (y / 16) = cc in
    let lo : hex_digit (x % 16) ≡ hex_digit (y % 16) = cc in
    let rest : hex_encode xs ≡ hex_encode ys = cc in
    ap₂ ◌∷◌
      (omega
        (arith, hex_digit-injective (x / 16) (y / 16) hi, hex_digit-injective (x % 16) (y % 16) lo))
      (hex_encode-injective xs ys rest)

-- `strings.HasPrefix`; also of lists of path components
module _ {ℓ} {A : Type ℓ} ⦃e : Eq A⦄ where
  unfoldable pub has_prefix : List A → List A → Bool
  has_prefix s [] = true
  has_prefix [] (p ∷ ps) = false
  has_prefix (c ∷ s) (p ∷ ps) = c == p && has_prefix s ps

-- `strings.HasSuffix`
unfoldable pub has_suffix : Bytes → Bytes → Bool
has_suffix s suffix = leb (length suffix) (length s) && drop (length s - length suffix) s == suffix

-- `strings.TrimSuffix`
unfoldable pub trim_suffix : Bytes → Bytes → Bytes
unfolding has_suffix
trim_suffix s suffix = if has_suffix s suffix then take (length s - length suffix) s else s

hex_value : ℕ → Option ℕ
hex_value c =
    if leb b'0' c && leb c b'9'
    then some (c - 48)
    else if leb b'a' c && leb c b'f'
    then some (c - 87)
    else if leb b'A' c && leb c b'F'
    then some (c - 55)
    else none

abbrev join_hex : Option ℕ → Option ℕ → Option Bytes → Option Bytes
join_hex (some hi) (some lo) (some bs) = some ((hi * 16 + lo) ∷ bs)
join_hex _ _ _ = none

-- `hex.DecodeString`
unfoldable pub hex_decode : Bytes → Option Bytes
unfolding hex_value
hex_decode [] = some []
hex_decode (c ∷ []) = none
hex_decode (c ∷ d ∷ cs) = join_hex (hex_value c) (hex_value d) (hex_decode cs)

hex_value-hex_digit : (d : ℕ) → d < 16 → hex_value (hex_digit d) ≡ some d
unfolding hex_value hex_digit
hex_value-hex_digit d h = ground arith

abbrev pub AreBytes : Bytes → Type 0
AreBytes [] = Unit {0}
AreBytes (b ∷ bs) = (b < 256) × AreBytes bs

-- A hexadecimal text is read back as the bytes that it was printed from.
pub hex_decode-hex_encode : (bs : Bytes) → AreBytes bs → hex_decode (hex_encode bs) ≡ some bs
unfolding hex_decode hex_encode
hex_decode-hex_encode [] h = refl
hex_decode-hex_encode (b ∷ bs) h =
    rw
      (
        hex_value-hex_digit (b / 16) (omega arith),
        hex_value-hex_digit (b % 16) (omega arith),
        hex_decode-hex_encode bs h.1,
      )
      (ap (λ (n : ℕ). some (n ∷ bs)) (omega arith))
