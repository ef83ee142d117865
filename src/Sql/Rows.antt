-- ===== src/Sql/Rows.antt =====
-- internal/sql/executor.go: the loop of `execSelect` over the rows that the scanner shows. `offset` and
-- `limit` are the 64-bit patterns of int64.
use svacara_db.Prelude.{
  ℕ, zero, suc, ◌+◌, ◌%◌, ◌^◌, ◌≤◌, ◌<◌, ◌≡◌, refl, sym, arith, Bool, true, false, List, [], ◌∷◌,
  take, drop, length, Bool-cases, inl, inr, ltb, if◌then◌else◌, Ordering,
}
use svacara_db.Prelude.Int.{compare_ℤ, signed64}
use svacara_db.Relational.{Record}

unfoldable pub lt_i64 : ℕ → ℕ → Bool
lt_i64 a b = elim (compare_ℤ (signed64 a) (signed64 b)) [ Ordering.lt ↦ true | _ ↦ false ]

unfoldable pub window : ℕ → ℕ → ℕ → List Record → List Record
window offset limit count [] = []
window offset limit count (r ∷ rows) =
    let rest = window offset limit ((count + 1) % 2 ^ 64) rows in
    if lt_i64 count offset
    then rest
    else if lt_i64 count ((offset + limit) % 2 ^ 64)
    then r ∷ rest
    else []

lt_i64-small : (a b : ℕ) → a < 2 ^ 63 → b < 2 ^ 63 → lt_i64 a b ≡ ltb a b
unfolding lt_i64
lt_i64-small a b h k = ground arith

lt_i64-negative : (a b : ℕ) → a < 2 ^ 63 → 2 ^ 63 ≤ b → lt_i64 a b ≡ false
unfolding lt_i64
lt_i64-negative a b h k = ground arith

take-nil : (n : ℕ) → take {A = Record} n [] ≡ []
take-nil zero = refl
take-nil (suc n) = refl

-- A round of the loop while the numbers fit.
window-cons :
    (offset limit count : ℕ) (r : Record) (rows : List Record)
    → offset + limit < 2 ^ 63
    → count + 1 < 2 ^ 63
    → window offset limit count (r ∷ rows) ≡ (
        if ltb count offset
        then window offset limit (suc count) rows
        else if ltb count (offset + limit)
        then r ∷ window offset limit (suc count) rows
        else [])
unfolding window
window-cons offset limit count r rows b c =
    let sum : (offset + limit) % 2 ^ 64 ≡ offset + limit = omega arith in
    let next : (count + 1) % 2 ^ 64 ≡ suc count = omega arith in
    rw
      (
        window,
        sum,
        next,
        lt_i64-small count offset (omega arith) (omega arith),
        lt_i64-small count (offset + limit) (omega arith) (omega arith),
      )
      refl

window-take :
    (offset limit count n : ℕ) (rows : List Record)
    → offset + limit < 2 ^ 63
    → count + length rows < 2 ^ 63
    → offset ≤ count
    → (count + n ≡ offset + limit)
    → window offset limit count rows ≡ take n rows
window-take offset limit count zero [] b f l e = unfold window in refl
window-take offset limit count (suc n) [] b f l e = unfold window in refl
window-take offset limit count zero (r ∷ rows) b f l e =
    ground (arith, window-cons offset limit count r rows)
window-take offset limit count (suc n) (r ∷ rows) b f l e =
    ground
      (arith, window-cons offset limit count r rows, window-take offset limit (suc count) n rows)

window-drop :
    (offset limit count n : ℕ) (rows : List Record)
    → offset + limit < 2 ^ 63
    → count + length rows < 2 ^ 63
    → (count + n ≡ offset)
    → window offset limit count rows ≡ take limit (drop n rows)
window-drop offset limit count zero rows b f e =
    window-take offset limit count limit rows b f (omega arith) (omega arith)
window-drop offset limit count (suc n) [] b f e = unfold window in sym (take-nil limit)
window-drop offset limit count (suc n) (r ∷ rows) b f e =
    ground
      (arith, window-cons offset limit count r rows, window-drop offset limit (suc count) n rows)

-- A result without overflow: `offset` rows are skipped, and the next `limit` rows are kept.
pub window-take-drop :
    (offset limit : ℕ) (rows : List Record)
    → offset + limit < 2 ^ 63
    → length rows < 2 ^ 63
    → window offset limit 0 rows ≡ take limit (drop offset rows)
window-take-drop offset limit rows b f =
    window-drop offset limit 0 offset rows b (omega arith) (omega arith)

-- If `offset + limit` does not fit in an int64, no row is returned at all. `count` is the number of
-- rows seen before, and is 0 at the start; it and the rows to come fit in an int64.
pub window_overflow :
    (offset limit count : ℕ) (rows : List Record)
    → offset < 2 ^ 63
    → limit < 2 ^ 63
    → 2 ^ 63 ≤ offset + limit
    → count + length rows < 2 ^ 63
    → window offset limit count rows ≡ []
unfolding window
window_overflow offset limit count [] o l s f = refl
window_overflow offset limit count (r ∷ rows) o l s f =
    let sum : (offset + limit) % 2 ^ 64 ≡ offset + limit = omega arith in
    let next : (count + 1) % 2 ^ 64 ≡ suc count = omega arith in
    elim (Bool-cases (lt_i64 count offset)) [
      | inl e ↦
          rw (window, e, next) (window_overflow offset limit (suc count) rows o l s (omega arith))
      | inr e ↦ rw (window, e, sum, lt_i64-negative count (offset + limit) (omega arith) s) refl
    ]
