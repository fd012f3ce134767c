-- ===== src/HttpServer/Trim.antt =====
-- `trimWriter` of cmd/httpserver/handlers.go.
use dps_files.Prelude.{
  take_all, sym, refl, zero, drop_all, length-take, suc, ap, length-append, ◌∙◌, ◌∷◌, ℕ, ◌+◌, ◌-◌,
  ◌≤◌, ◌≡◌, false, [], ◌++◌, Bytes, length, take, drop, leb, ltb, if◌then◌else◌, arith,
}
use mathlib.Core.List.{append-nil}
use dps_files.KeyStore.Stream.{Writer, Written, buffer}

pub record TrimWriter (W : Type 0) : Type 0 where
  pub inner : W
  pub skip : ℕ
  pub limit : ℕ
  pub written : ℕ

module _ {W : Type 0} (write : Writer W) where
  -- The part of Write after the leading bytes were skipped; `consumed` is what it reports.
  write_rest : TrimWriter W → Bytes → ℕ → Written (TrimWriter W)
  write_rest tw p consumed =
      let r = write tw.inner (take (tw.limit - tw.written) p) in
      let after = record tw { inner = r.writer; written = tw.written + r.count } in
      if leb tw.limit tw.written
      then record { writer = tw; count = consumed; failed = false }
      else record {
        writer = after;
        count = if r.failed then r.count else consumed;
        failed = r.failed;
      }

  -- Write
  unfoldable pub trim_write : Writer (TrimWriter W)
  unfolding write_rest
  trim_write tw p =
      if ltb 0 tw.skip
      then (if leb (length p) tw.skip
          then record {
            writer = record tw { skip = tw.skip - length p };
            count = length p;
            failed = false;
          }
          else write_rest (record tw { skip = 0 }) (drop tw.skip p) (length p))
      else write_rest tw p (length p)

-- What a trimming writer over a buffer has kept of the bytes it was given.
abbrev pub trimmed : ℕ → ℕ → Bytes → Bytes
trimmed skip limit given = take limit (drop skip given)

abbrev pub trim_after : ℕ → ℕ → Bytes → TrimWriter Bytes
trim_after skip limit given = record {
  inner = trimmed skip limit given;
  skip = skip - length given;
  limit = limit;
  written = length (trimmed skip limit given);
}

take-append : (n : ℕ) (xs ys : Bytes) → take n (xs ++ ys) ≡ take n xs ++ take (n - length xs) ys
take-append zero [] ys = refl
take-append zero (x ∷ xs) ys =
    ap (λ (k : ℕ). take k ys) {x = 0} {y = 0 - suc (length xs)} (omega arith)
take-append (suc n) [] ys = ap (λ (k : ℕ). take k ys) {x = suc n} {y = suc n - 0} (omega arith)
take-append (suc n) (x ∷ xs) ys =
    ap (λ zs. x ∷ zs)
      (take-append n xs ys
        ∙ ap (λ (k : ℕ). take n xs ++ take k ys) {x = n - length xs} {y = suc n - suc (length xs)}
            (omega arith))

drop-append : (n : ℕ) (xs ys : Bytes) → drop n (xs ++ ys) ≡ drop n xs ++ drop (n - length xs) ys
drop-append zero [] ys = refl
drop-append zero (x ∷ xs) ys =
    ap (λ (k : ℕ). x ∷ xs ++ drop k ys) {x = 0} {y = 0 - suc (length xs)} (omega arith)
drop-append (suc n) [] ys = ap (λ (k : ℕ). drop k ys) {x = suc n} {y = suc n - 0} (omega arith)
drop-append (suc n) (x ∷ xs) ys =
    drop-append n xs ys
    ∙ ap (λ (k : ℕ). drop n xs ++ drop k ys) {x = n - length xs} {y = suc n - suc (length xs)}
        (omega arith)

trimmed-append :
    (skip limit : ℕ) (given p : Bytes)
    → trimmed skip limit (given ++ p)
      ≡ trimmed skip limit given
        ++ take (limit - length (trimmed skip limit given)) (drop (skip - length given) p)
trimmed-append skip limit given p =
    ap (take limit) (drop-append skip given p)
    ∙ take-append limit (drop skip given) (drop (skip - length given) p)
    ∙ ap (λ (k : ℕ). trimmed skip limit given ++ take k (drop (skip - length given) p))
        {x = limit - length (drop skip given)} {y = limit - length (trimmed skip limit given)}
        (omega (arith, length-take limit (drop skip given)))

-- Nothing is added while the leading bytes last, or once the limit is reached.
trimmed-append_skipped :
    (skip limit : ℕ) (given p : Bytes)
    → length p ≤ skip - length given
    → trimmed skip limit (given ++ p) ≡ trimmed skip limit given
trimmed-append_skipped skip limit given p h =
    trimmed-append skip limit given p
    ∙ rw (drop_all (skip - length given) p h) (grind (arith, append-nil (trimmed skip limit given)))

trimmed-append_full :
    (skip limit : ℕ) (given p : Bytes)
    → limit ≤ length (trimmed skip limit given)
    → trimmed skip limit (given ++ p) ≡ trimmed skip limit given
trimmed-append_full skip limit given p h =
    let zero_left : limit - length (trimmed skip limit given) ≡ 0 = omega arith in
    trimmed-append skip limit given p ∙ rw zero_left (append-nil (trimmed skip limit given))

-- However the bytes are cut into writes, a trimming writer takes them all and passes on those from
-- `skip` on, `limit` of them at most.
pub trim_write-after :
    (skip limit : ℕ) (given p : Bytes)
    → trim_write buffer (trim_after skip limit given) p
      ≡ record { writer = trim_after skip limit (given ++ p); count = length p; failed = false }
unfolding trim_write write_rest buffer
trim_write-after skip limit given p = ground (
  arith,
  trimmed-append skip limit given p,
  trimmed-append_skipped skip limit given p,
  trimmed-append_full skip limit given p,
  length-append given p,
  length-append (trimmed skip limit given)
      (take (limit - length (trimmed skip limit given)) (drop (skip - length given) p)),
)

pub drop-take : (k m : ℕ) (xs : Bytes) → drop k (take m xs) ≡ take (m - k) (drop k xs)
drop-take zero m xs = ap (λ (j : ℕ). take j xs) {x = m} {y = m - 0} (omega arith)
drop-take (suc k) zero xs =
    ap (λ (j : ℕ). take j (drop (suc k) xs)) {x = 0} {y = 0 - suc k} (omega arith)
drop-take (suc k) (suc m) [] = sym (take_all (suc m - suc k) [] (omega arith))
drop-take (suc k) (suc m) (x ∷ xs) =
    drop-take k m xs
    ∙ ap (λ (j : ℕ). take j (drop k xs)) {x = m - k} {y = suc m - suc k} (omega arith)

pub take-take_of_le : (n m : ℕ) (xs : Bytes) → n ≤ m → take n (take m xs) ≡ take n xs
take-take_of_le zero m xs h = refl
take-take_of_le (suc n) zero xs h = absurd (omega arith)
take-take_of_le (suc n) (suc m) [] h = refl
take-take_of_le (suc n) (suc m) (x ∷ xs) h =
    ap (λ ys. x ∷ ys) (take-take_of_le n m xs (omega arith))

pub trim_start :
    (skip limit : ℕ)
    → record { inner = []; skip = skip; limit = limit; written = 0 } ≡ trim_after skip limit []
trim_start skip limit =
    let none_there : trimmed skip limit [] ≡ [] =
      rw (drop_all {A = ℕ} skip [] (omega arith)) (take_all {A = ℕ} limit [] (omega arith)) in
    ground (arith, none_there)
