-- ===== src/Sql/Aggregate.antt =====
-- internal/sql/executor.go: the aggregate functions over the rows of a result.
use svacara_db.Prelude.{
  ℕ, zero, suc, ◌+◌, ◌-◌, ◌/◌, ◌%◌, ◌^◌, ◌<◌, ◌≡◌, ◌≢◌, refl, sym, ap, ◌∙◌, arith, Bool, true,
  false, not, some, List, [], ◌∷◌, ◌++◌, length, ltb, ◌==◌, Bool-cases, inl, inr, if◌then◌else◌,
  compare, Ordering, append_assoc, All, get_elem?, ◌⊎◌,
}
use mathlib.Core.Path.{subst}
use svacara_db.Prelude.Int.{pos, negsuc, compare_ℤ, signed64}
use svacara_db.Bytes.{Bytes}
use svacara_db.Bytes.Compare.{bytes_eq, cmp, cmp_trans, cmp_flip, cmp_refl}
use svacara_db.Encoding.{Value, zero_value, type_int64, type_bytes}
use svacara_db.Encoding.Order.{value_cmp}
use svacara_db.Relational.{Record}

-- The values of a row that stand at a place of the name `col`, the test `i < len(r.Vals)` included.
abbrev pub cells_of : Bytes → List Bytes → List Value → List Value
cells_of col [] vals = []
cells_of col (c ∷ cols) [] = []
cells_of col (c ∷ cols) (v ∷ vals) =
    let rest = cells_of col cols vals in if bytes_eq c col then v ∷ rest else rest

-- In the order of the two loops.
abbrev pub cells_in : Bytes → List Record → List Value
cells_in col [] = []
cells_in col (r ∷ rows) = cells_of col r.cols r.vals ++ cells_in col rows

unfoldable pub sum_loop : ℕ → List Value → ℕ
sum_loop sum [] = sum
sum_loop sum (v ∷ vals) =
    sum_loop (if v.type == type_int64 then (sum + v.i64) % 2 ^ 64 else sum) vals

unfoldable pub aggregate_sum : Bytes → List Record → Value
aggregate_sum col rows = record (zero_value type_int64) { i64 = sum_loop 0 (cells_in col rows) }

-- The sign of `valCompare`.
unfoldable pub val_compare : Value → Value → Ordering
val_compare a b =
    if not (a.type == b.type)
    then compare a.type b.type
    else if a.type == type_int64
    then compare_ℤ (signed64 a.i64) (signed64 b.i64)
    else if a.type == type_bytes
    then cmp a.str b.str
    else Ordering.eq

-- Whether a value replaces the best one; `least` is `dir < 0`.
abbrev pub improves : Bool → Ordering → Bool
improves true Ordering.lt = true
improves false Ordering.gt = true
improves least o = false

unfoldable pub best_value : Bool → Value → List Value → Value
best_value least best [] = best
best_value least best (v ∷ vals) =
    best_value least (if improves least (val_compare v best) then v else best) vals

abbrev pub best_of : Bool → List Value → Value
best_of least [] = zero_value 0
best_of least (v ∷ vals) = best_value least v vals

unfoldable pub aggregate_min_max : Bool → Bytes → List Record → Value
aggregate_min_max least col rows = best_of least (cells_in col rows)

-- `a / b` on int64, which Go rounds towards zero; `b` is positive.
abbrev pub quotient : ℕ → ℕ → ℕ
quotient a b = elim (signed64 a) [ pos n ↦ n / b | negsuc n ↦ (2 ^ 64 - (n + 1) / b) % 2 ^ 64 ]

unfoldable pub aggregate_avg : Bytes → List Record → Value
aggregate_avg col rows =
    if ltb 0 (length rows)
    then record (zero_value type_int64) {
      i64 = quotient (aggregate_sum col rows).i64 (length rows);
    }
    else zero_value type_int64

-- The sum of the int64 values, before it wraps.
abbrev pub total : List Value → ℕ
total [] = 0
total (v ∷ vals) = (if v.type == type_int64 then v.i64 else 0) + total vals

sum_loop-total :
    (sum : ℕ) (vals : List Value) → sum < 2 ^ 64 → sum_loop sum vals ≡ (sum + total vals) % 2 ^ 64
unfolding sum_loop
sum_loop-total sum [] l = omega arith
sum_loop-total sum (v ∷ vals) l = elim (Bool-cases (v.type == type_int64)) [
  | inl e ↦
      let m : (sum + v.i64) % 2 ^ 64 < 2 ^ 64 = omega arith in
      rw (sum_loop, e) (sum_loop-total ((sum + v.i64) % 2 ^ 64) vals m ∙ omega arith)
  | inr e ↦ rw (sum_loop, e) (sum_loop-total sum vals l ∙ omega arith)
]

cells_in-append :
    (col : Bytes) (xs ys : List Record)
    → cells_in col (xs ++ ys) ≡ cells_in col xs ++ cells_in col ys
cells_in-append col [] ys = refl
cells_in-append col (r ∷ xs) ys =
    ap (λ l. cells_of col r.cols r.vals ++ l) (cells_in-append col xs ys)
    ∙ sym (append_assoc (cells_of col r.cols r.vals) (cells_in col xs) (cells_in col ys))

total-append : (xs ys : List Value) → total (xs ++ ys) ≡ total xs + total ys
total-append [] ys = omega arith
total-append (v ∷ xs) ys = omega (arith, total-append xs ys)

-- The sum over a result is the sum of the int64 cells of the column modulo 2^64, so the sums over two
-- parts of a result add up.
pub aggregate_sum-append :
    (col : Bytes) (xs ys : List Record)
    → ((aggregate_sum col (xs ++ ys)).i64 ≡ total (cells_in col (xs ++ ys)) % 2 ^ 64)
      × ((aggregate_sum col (xs ++ ys)).i64
          ≡ ((aggregate_sum col xs).i64 + (aggregate_sum col ys).i64) % 2 ^ 64)
unfolding aggregate_sum
aggregate_sum-append col xs ys =
    let e = λ (rows : List Record). sum_loop-total 0 (cells_in col rows) (omega arith) in
    let t : total (cells_in col (xs ++ ys)) ≡ total (cells_in col xs) + total (cells_in col ys) =
      ap total (cells_in-append col xs ys) ∙ total-append (cells_in col xs) (cells_in col ys) in
    (omega (arith, e (xs ++ ys)), omega (arith, e (xs ++ ys), e xs, e ys))

val_compare_trans :
    (least : Bool) (a b c : Value)
    → improves least (val_compare a b) ≡ true
    → improves least (val_compare b c) ≡ true
    → improves least (val_compare a c) ≡ true
unfolding val_compare
val_compare_trans least a b c h k = ground (
  arith,
  cmp_trans a.str b.str c.str,
  cmp_trans c.str b.str a.str,
  cmp_flip a.str b.str,
  cmp_flip b.str c.str,
  cmp_flip a.str c.str,
)

val_compare_irrefl : (least : Bool) (a : Value) → improves least (val_compare a a) ≡ false
unfolding val_compare
val_compare_irrefl least a = ground (arith, cmp_refl a.str)

-- The best value is the first one or improves on it, and stands in the list; none improves on it.
record IsBest (least : Bool) (best : Value) (vals : List Value) (r : Value) : Type 0 where
  pub found : (r ≡ best) ⊎ ((i : ℕ) × (get_elem? vals i ≡ some r))
  pub better : (r ≡ best) ⊎ (improves least (val_compare r best) ≡ true)
  pub start : improves least (val_compare best r) ≡ false
  pub others : All (λ v. improves least (val_compare v r) ≡ false) vals

not-true : {b : Bool} → b ≢ true → b ≡ false
not-true {b} h = ground arith

-- A value that improved on the best one takes its place.
IsBest-better :
    (least : Bool) (best v : Value) (vals : List Value) (r : Value)
    → improves least (val_compare v best) ≡ true
    → IsBest least v vals r
    → IsBest least best (v ∷ vals) r
IsBest-better least best v vals r h b = record {
  found = elim b.found [ inl e ↦ inr (0, ap some (sym e)) | inr (i, e) ↦ inr (suc i, e) ];
  better = elim b.better [
    | inl e ↦ inr (subst (λ x. improves least (val_compare x best) ≡ true) (sym e) h)
    | inr k ↦ inr (val_compare_trans least r v best k h)
  ];
  start = not-true (λ k. absurd (ground (arith, val_compare_trans least v best r h k, b.start)));
  others = (b.start, b.others);
}

IsBest-same :
    (least : Bool) (best v : Value) (vals : List Value) (r : Value)
    → improves least (val_compare v best) ≡ false
    → IsBest least best vals r
    → IsBest least best (v ∷ vals) r
IsBest-same least best v vals r h b = record {
  found = elim b.found [ inl e ↦ inl e | inr (i, e) ↦ inr (suc i, e) ];
  better = b.better;
  start = b.start;
  others = (
    elim b.better [
      | inl e ↦ subst (λ x. improves least (val_compare v x) ≡ false) (sym e) h
      | inr k ↦ not-true (λ q. absurd (ground (arith, val_compare_trans least v r best q k, h)))
    ],
    b.others,
  );
}

best_value-IsBest :
    (least : Bool) (best : Value) (vals : List Value)
    → IsBest least best vals (best_value least best vals)
unfolding best_value
best_value-IsBest least best [] = record {
  found = inl refl;
  better = inl refl;
  start = val_compare_irrefl least best;
  others = tt;
}
best_value-IsBest least best (v ∷ vals) = elim (Bool-cases (improves least (val_compare v best))) [
  | inl e ↦
      rw (best_value, e) (IsBest-better least best v vals _ e (best_value-IsBest least v vals))
  | inr e ↦
      rw (best_value, e) (IsBest-same least best v vals _ e (best_value-IsBest least best vals))
]

best_of_best :
    (least : Bool) (cells : List Value) (i : ℕ) (cell : Value)
    → get_elem? cells i ≡ some cell
    → ((j : ℕ) × (get_elem? cells j ≡ some (best_of least cells)))
      × All (λ v. improves least (val_compare v (best_of least cells)) ≡ false) cells
best_of_best least [] i cell h = absurd (ground arith)
best_of_best least (v ∷ vals) i cell h =
    let b = best_value-IsBest least v vals in
    (elim b.found [ inl e ↦ (0, ap some (sym e)) | inr (j, e) ↦ (suc j, e) ], (b.start, b.others))

-- On two int64 values, and on two byte strings, `valCompare` is their order.
val_compare-value_cmp :
    (a b : Value) (type : ℕ)
    → (type ≡ type_int64) ⊎ (type ≡ type_bytes)
    → a.type ≡ type
    → b.type ≡ type
    → val_compare a b ≡ value_cmp a b
unfolding val_compare
val_compare-value_cmp a b type t ea eb = elim t [ inl e ↦ ground arith | inr e ↦ ground arith ]

not-improves :
    (least : Bool) (o : Ordering)
    → improves least o ≡ false
    → o ≢ (if least then Ordering.lt else Ordering.gt)
not-improves true Ordering.lt h = absurd (ground arith)
not-improves true Ordering.eq h = λ e. ground arith
not-improves true Ordering.gt h = λ e. ground arith
not-improves false Ordering.lt h = λ e. ground arith
not-improves false Ordering.eq h = λ e. ground arith
not-improves false Ordering.gt h = absurd (ground arith)

All-elem :
    (P : Value → Type 0) (vals : List Value) (i : ℕ) (v : Value)
    → All P vals
    → get_elem? vals i ≡ some v
    → P v
All-elem P [] i v h e = absurd (ground arith)
All-elem P (w ∷ vals) zero v (h, hs) e = subst P (ground arith) h
All-elem P (w ∷ vals) (suc i) v (h, hs) e = All-elem P vals i v hs e

All-value_cmp :
    (least : Bool) (vals : List Value) (r : Value) (type : ℕ)
    → (type ≡ type_int64) ⊎ (type ≡ type_bytes)
    → r.type ≡ type
    → All (λ v. v.type ≡ type) vals
    → All (λ v. improves least (val_compare v r) ≡ false) vals
    → All (λ v. value_cmp v r ≢ (if least then Ordering.lt else Ordering.gt)) vals
All-value_cmp least [] r type t er hs ks = tt
All-value_cmp least (v ∷ vals) r type t er (h, hs) (k, ks) = (
  not-improves least (value_cmp v r)
      (subst (λ o. improves least o ≡ false) (val_compare-value_cmp v r type t h er) k),
  All-value_cmp least vals r type t er hs ks,
)

abbrev pub IsCell : Value → List Value → Type 0
IsCell r cells = (j : ℕ) × (get_elem? cells j ≡ some r)

best_of-value_cmp :
    (least : Bool) (cells : List Value) (type i : ℕ) (cell : Value)
    → (type ≡ type_int64) ⊎ (type ≡ type_bytes)
    → All (λ v. v.type ≡ type) cells
    → get_elem? cells i ≡ some cell
    → IsCell (best_of least cells) cells
      × All
          (λ v. value_cmp v (best_of least cells) ≢ (if least then Ordering.lt else Ordering.gt))
          cells
best_of-value_cmp least cells type i cell t hs h =
    let (c, ks) = best_of_best least cells i cell h in
    let er = All-elem (λ v. v.type ≡ type) cells c.0 (best_of least cells) hs c.1 in
    (c, All-value_cmp least cells (best_of least cells) type t er hs ks)

-- The minimum and the maximum of a column that has a cell, whose cells are all int64 values or all byte
-- strings, are cells of it, and no cell is less than the minimum, or greater than the maximum, in the
-- order of signed integers and of byte strings.
pub aggregate_min_max_best :
    (col : Bytes) (rows : List Record) (type i : ℕ) (cell : Value)
    → (type ≡ type_int64) ⊎ (type ≡ type_bytes)
    → All (λ v. v.type ≡ type) (cells_in col rows)
    → get_elem? (cells_in col rows) i ≡ some cell
    → IsCell (aggregate_min_max true col rows) (cells_in col rows)
      × All (λ v. value_cmp v (aggregate_min_max true col rows) ≢ Ordering.lt) (cells_in col rows)
      × IsCell (aggregate_min_max false col rows) (cells_in col rows)
      × All (λ v. value_cmp v (aggregate_min_max false col rows) ≢ Ordering.gt) (cells_in col rows)
unfolding aggregate_min_max
aggregate_min_max_best col rows type i cell t hs h =
    let (c, l) = best_of-value_cmp true (cells_in col rows) type i cell t hs h in
    let (d, g) = best_of-value_cmp false (cells_in col rows) type i cell t hs h in (c, l, d, g)
