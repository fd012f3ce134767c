-- ===== src/HttpServer/Range.antt =====
-- `parseRange` of cmd/httpserver/handlers.go, with `strconv.ParseUint` in base 10 at 64 bits.
use dps_files.Prelude.{
  parse_uint, ℕ, ◌+◌, ◌-◌, ◌^◌, ◌%◌, ◌≤◌, ◌<◌, ◌≡◌, Option, none, some, [], ◌∷◌, Bytes, text, drop,
  leb, ltb, eqb, ◌==◌, list_eq, nat_eq, has_prefix, if◌then◌else◌, arith,
}

-- `strings.SplitN(s, "-", 2)`: what stands before the first dash and after it, if there is one.
unfoldable pub split_dash : Bytes → Option (Bytes × Bytes)
split_dash [] = none
split_dash (c ∷ cs) = elim (split_dash cs) [
  | none ↦ if eqb c b'-' then some ([], cs) else none
  | some (before, after) ↦ if eqb c b'-' then some ([], cs) else some (c ∷ before, after)
]

-- `totalSize - 1`
abbrev last_offset : ℕ → ℕ
last_offset total = (total + (2 ^ 64 - 1)) % 2 ^ 64

-- "bytes=-N", the last N bytes
suffix_range : Option ℕ → ℕ → Option (ℕ × ℕ)
suffix_range none total = none
suffix_range (some n) total =
    let suffix = if ltb total n then total else n in
    if eqb n 0 then none else some (total - suffix, last_offset total)

range_to : ℕ → Option ℕ → ℕ → Option (ℕ × ℕ)
range_to start none total = none
range_to start (some end_) total = some (start, if leb total end_ then last_offset total else end_)

-- "bytes=START-" and "bytes=START-END"
start_range : Option ℕ → Bytes → ℕ → Option (ℕ × ℕ)
unfolding range_to
start_range none after total = none
start_range (some start) after total =
    if leb total start
    then none
    else if after == []
    then some (start, last_offset total)
    else range_to start (parse_uint after) total

ordered : Option (ℕ × ℕ) → Option (ℕ × ℕ)
ordered none = none
ordered (some (start, end_)) = if ltb end_ start then none else some (start, end_)

-- parseRange: the inclusive offsets
unfoldable pub parse_range : Bytes → ℕ → Option (ℕ × ℕ)
unfolding suffix_range start_range ordered
parse_range header total =
    if has_prefix header (text "bytes=")
    then elim (split_dash (drop 6 header)) [
      | none ↦ none
      | some (before, after) ↦
          if before == []
          then ordered (suffix_range (parse_uint after) total)
          else ordered (start_range (parse_uint before) after total)
    ]
    else none

-- Of a file that is not empty, parseRange gives only offsets within the file, in order.
pub parse_range-bounds :
    (header : Bytes) (total first last : ℕ)
    → 0 < total
    → total < 2 ^ 64
    → parse_range header total ≡ some (first, last)
    → (first ≤ last) × (last < total)
unfolding parse_range suffix_range start_range ordered range_to
parse_range-bounds header total first last p w h = ground arith
