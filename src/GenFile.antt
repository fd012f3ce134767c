-- ===== src/GenFile.antt =====
-- cmd/gen_file: sizes as text, and the file of random bytes. An int64 is its 64-bit word.
pub mod Label
pub mod Content
mod Tests
use dps_files.Prelude.{
  ◌+◌, zero, length, min, trim_suffix, format_uint, parse_uint, suc, text, ◌&&◌, eqb, has_suffix,
  leb, ltb, to_upper, ◌%◌, ◌++◌, ◌-◌, Bool, if◌then◌else◌, trim_space, ◌*◌, ◌/◌, ◌^◌, Bytes, Option,
  ℕ, none, some, [], ◌∷◌, true, false,
}

-- `-n` as a 64-bit word
abbrev pub negate : ℕ → ℕ
negate n = (2 ^ 64 - n) % 2 ^ 64

-- `n * m` of int64
abbrev pub times : ℕ → ℕ → ℕ
times n m = (n * m) % 2 ^ 64

-- `n >> k` of an int64 that is not negative
abbrev pub shift_right : ℕ → ℕ → ℕ
shift_right n k = n / 2 ^ k

minus_word : Option ℕ → Option ℕ
minus_word none = none
minus_word (some n) = if leb n (2 ^ 63) then some (negate n) else none

plus_word : Option ℕ → Option ℕ
plus_word none = none
plus_word (some n) = if ltb n (2 ^ 63) then some n else none

-- `strconv.ParseInt(s, 10, 64)`
unfoldable pub parse_int : Bytes → Option ℕ
unfolding minus_word plus_word
parse_int [] = none
parse_int (c ∷ cs) =
    if eqb c b'-'
    then minus_word (parse_uint cs)
    else if eqb c b'+'
    then plus_word (parse_uint cs)
    else plus_word (parse_uint (c ∷ cs))

abbrev scaled : ℕ → Option ℕ → Option ℕ
scaled multiplier none = none
scaled multiplier (some n) = some (times n multiplier)

-- the `switch` of parseSize, on a text in upper case without blanks around it
unfoldable pub sized : Bytes → Option ℕ
sized s =
    if has_suffix s (text "GB")
    then scaled (2 ^ 30) (parse_int (trim_suffix s (text "GB")))
    else if has_suffix s (text "MB")
    then scaled (2 ^ 20) (parse_int (trim_suffix s (text "MB")))
    else if has_suffix s (text "KB")
    then scaled (2 ^ 10) (parse_int (trim_suffix s (text "KB")))
    else if has_suffix s (text "B")
    then scaled 1 (parse_int (trim_suffix s (text "B")))
    else scaled 1 (parse_int s)

-- parseSize
unfoldable pub parse_size : Bytes → Option ℕ
unfolding sized
parse_size s = sized (trim_space (to_upper s))

-- `%d` of an int64
unfoldable pub format_int : ℕ → Bytes
format_int n = if ltb n (2 ^ 63) then format_uint n else b'-' ∷ format_uint (negate n)

-- `size > 0 && size%m == 0` of an int64
abbrev pub is_multiple : ℕ → ℕ → Bool
is_multiple size m = ltb 0 size && ltb size (2 ^ 63) && eqb (size % m) 0

-- defaultSizeLabel
unfoldable pub default_size_label : ℕ → Bytes
unfolding format_int
default_size_label size =
    if is_multiple size (2 ^ 30)
    then format_int (shift_right size 30) ++ text "GB"
    else if is_multiple size (2 ^ 20)
    then format_int (shift_right size 20) ++ text "MB"
    else if is_multiple size (2 ^ 10)
    then format_int (shift_right size 10) ++ text "KB"
    else format_int size ++ text "B"

-- `chunkSize`
abbrev pub chunk_size : ℕ
chunk_size = 4 * 1024 * 1024

-- The loop of main: `remaining` is not negative; `random` gives the bytes that `rand.Read` puts into
-- a buffer of a length when `done` bytes are written. `none` is out of fuel.
unfoldable pub write_random :
    (random : (done wanted : ℕ) → Bytes) → (fuel remaining : ℕ) → Bytes → Option Bytes
write_random random zero remaining file = if eqb remaining 0 then some file else none
write_random random (suc fuel) remaining file =
    let n = min remaining chunk_size in
    let rest = write_random random fuel (remaining - n) (file ++ random (length file) n) in
    if eqb remaining 0 then some file else rest

-- The file that main creates and writes: a size below 0 leaves it empty.
unfoldable pub generate : (random : (done wanted : ℕ) → Bytes) → ℕ → Option Bytes
unfolding write_random
generate random size =
    if ltb size (2 ^ 63) then write_random random (size / chunk_size + 1) size [] else some []
