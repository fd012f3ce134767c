-- ===== src/GenFile/Label.antt =====
-- The labels of sizes in cmd/gen_file.
use dps_files.Prelude.{
  subst, ℕ, zero, suc, ◌-◌, ◌/◌, ◌^◌, ◌≤◌, ◌<◌, ◌≡◌, ◌≢◌, ◌⊎◌, inl, inr, refl, ap, ◌∙◌, arith,
  false, some, [], ◌∷◌, ◌++◌, Bytes, All, IsDigit, text, length, drop, ◌==◌, list_eq, nat_eq,
  to_upper, trim_space, has_suffix, is_space, trim_space-plain, trim_suffix-append,
  has_suffix-append, format_uint, format_uint-IsDigit, parse_uint, parse_uint-format_uint,
  drop-append_at, length-append, ==→eq, Bool-cases, All-append,
}
use dps_files.GenFile.{
  times, plus_word, parse_int, sized, parse_size, format_int, default_size_label,
}

-- A text of digits and of capital letters stays as it is.
abbrev IsPlain : ℕ → Type 0
IsPlain c = (b'0' ≤ c) × (c ≤ b'Z')

to_upper-plain : (s : Bytes) → All IsPlain s → to_upper s ≡ s
unfolding to_upper
to_upper-plain [] h = refl
to_upper-plain (c ∷ cs) (p, h) = ground (arith, to_upper-plain cs h)

IsPlain-digits : (s : Bytes) → All IsDigit s → All IsPlain s
IsPlain-digits [] h = tt
IsPlain-digits (c ∷ cs) (p, h) = (omega arith, IsPlain-digits cs h)

blankless : (s : Bytes) → All IsPlain s → All (λ c. is_space c ≡ false) s
blankless [] h = tt
blankless (c ∷ cs) (p, h) = (ground arith, blankless cs h)

parse_size-plain : (s : Bytes) → All IsPlain s → parse_size s ≡ sized s
unfolding parse_size
parse_size-plain s h =
    ap sized (ap trim_space (to_upper-plain s h) ∙ trim_space-plain s (blankless s h))

parse_int-IsDigit : (s : Bytes) → All IsDigit s → parse_int s ≡ plus_word (parse_uint s)
unfolding parse_int plus_word parse_uint
parse_int-IsDigit [] h = refl
parse_int-IsDigit (c ∷ cs) (p, h) = ground arith

parse_int-format_uint : (n : ℕ) → n < 2 ^ 63 → parse_int (format_uint n) ≡ some n
unfolding plus_word
parse_int-format_uint n h =
    parse_int-IsDigit (format_uint n) (format_uint-IsDigit n)
    ∙ ap plus_word (parse_uint-format_uint n (omega arith))
    ∙ ground arith

-- Two texts that differ in the letter before the last one.
has_suffix-other :
    (xs : Bytes) (a b c : ℕ) → a ≢ c → has_suffix (xs ++ a ∷ b ∷ []) (c ∷ b ∷ []) ≡ false
unfolding has_suffix
has_suffix-other xs a b c h =
    let n = length (xs ++ a ∷ b ∷ []) - 2 in
    ground (arith, drop-append_at n xs (a ∷ b ∷ []) (omega (arith, length-append xs (a ∷ b ∷ []))))

-- a digit or the letter B
abbrev IsPlainSize : ℕ → Type 0
IsPlainSize c = (c ≤ b'9') ⊎ (c ≡ b'B')

IsPlainSize-digits : (s : Bytes) → All IsDigit s → All IsPlainSize (s ++ b'B' ∷ [])
IsPlainSize-digits [] h = (inr refl, tt)
IsPlainSize-digits (c ∷ cs) (p, h) = (inl p.1, IsPlainSize-digits cs h)

All-drop : (n : ℕ) (s : Bytes) → All IsPlainSize s → All IsPlainSize (drop n s)
All-drop zero s h = h
All-drop (suc n) [] h = tt
All-drop (suc n) (c ∷ cs) (p, h) = All-drop n cs h

has_suffix-digits :
    (s : Bytes) (c : ℕ)
    → All IsDigit s
    → b'9' < c
    → c ≢ b'B'
    → has_suffix (s ++ b'B' ∷ []) (c ∷ b'B' ∷ []) ≡ false
unfolding has_suffix
has_suffix-digits s c d lo ne =
    let zs = s ++ b'B' ∷ [] in
    let n = length zs - 2 in
    let plain = All-drop n zs (IsPlainSize-digits s d) in
    elim (Bool-cases (drop n zs == (c ∷ b'B' ∷ []))) [
      | inr e ↦ ground (arith, e)
      | inl e ↦
          let first : IsPlainSize c =
            (subst (All IsPlainSize) (==→eq (drop n zs) (c ∷ b'B' ∷ []) e) plain).0 in
          absurd (ground (arith, first))
    ]

module _ (n : ℕ) (h : n < 2 ^ 63) where
  abbrev ds : Bytes
  ds = format_uint n

  plain_label :
      (suffix : Bytes) → All IsPlain suffix → parse_size (ds ++ suffix) ≡ sized (ds ++ suffix)
  plain_label suffix p =
      parse_size-plain (ds ++ suffix)
        (All-append IsPlain ds suffix (IsPlain-digits ds (format_uint-IsDigit n)) p)

  parse_size-gb : parse_size (ds ++ text "GB") ≡ some (times n (2 ^ 30))
  unfolding sized
  parse_size-gb =
      plain_label (text "GB") ((omega arith, omega arith), ((omega arith, omega arith), tt))
      ∙ ground (
        arith,
        has_suffix-append ds (text "GB"),
        trim_suffix-append ds (text "GB"),
        parse_int-format_uint n h,
      )

  parse_size-mb : parse_size (ds ++ text "MB") ≡ some (times n (2 ^ 20))
  unfolding sized
  parse_size-mb =
      plain_label (text "MB") ((omega arith, omega arith), ((omega arith, omega arith), tt))
      ∙ ground (
        arith,
        has_suffix-other ds b'M' b'B' b'G' (λ e. omega arith),
        has_suffix-append ds (text "MB"),
        trim_suffix-append ds (text "MB"),
        parse_int-format_uint n h,
      )

  parse_size-kb : parse_size (ds ++ text "KB") ≡ some (times n (2 ^ 10))
  unfolding sized
  parse_size-kb =
      plain_label (text "KB") ((omega arith, omega arith), ((omega arith, omega arith), tt))
      ∙ ground (
        arith,
        has_suffix-other ds b'K' b'B' b'G' (λ e. omega arith),
        has_suffix-other ds b'K' b'B' b'M' (λ e. omega arith),
        has_suffix-append ds (text "KB"),
        trim_suffix-append ds (text "KB"),
        parse_int-format_uint n h,
      )

  parse_size-b : parse_size (ds ++ text "B") ≡ some n
  unfolding sized
  parse_size-b =
      let d = format_uint-IsDigit n in
      plain_label (text "B") ((omega arith, omega arith), tt)
      ∙ ground (
        arith,
        has_suffix-digits ds b'G' d (omega arith) (λ e. omega arith),
        has_suffix-digits ds b'M' d (omega arith) (λ e. omega arith),
        has_suffix-digits ds b'K' d (omega arith) (λ e. omega arith),
        has_suffix-append ds (text "B"),
        trim_suffix-append ds (text "B"),
        parse_int-format_uint n h,
      )

-- The label of a size that is not negative is read back as the size.
pub parse_size-default_size_label :
    (size : ℕ) → size < 2 ^ 63 → parse_size (default_size_label size) ≡ some size
unfolding default_size_label format_int
parse_size-default_size_label size h = ground (
  arith,
  parse_size-gb (size / 2 ^ 30) (omega arith),
  parse_size-mb (size / 2 ^ 20) (omega arith),
  parse_size-kb (size / 2 ^ 10) (omega arith),
  parse_size-b size h,
)
