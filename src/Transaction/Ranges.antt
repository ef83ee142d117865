-- ===== src/Transaction/Ranges.antt =====
-- `keyRangeOverlap` and `rangesOverlap` against the keys that a range holds.
use svacara_db.Prelude.{◌≡◌, ◌↔◌, ◌⊎◌, inl, inr, arith, true, false}
use svacara_db.Bytes.{Bytes}
use svacara_db.Bytes.Compare.{cmp, cmp_flip, cmp_trans, cmp_refl, eq_of_cmp}
use svacara_db.Transaction.{KeyRange, is_gt, is_empty, key_range_overlap}

-- x is at most y.
abbrev pub Upto : Bytes → Bytes → Type 0
Upto x y = is_gt (cmp x y) ≡ false

abbrev pub Holds : KeyRange → Bytes → Type 0
Holds r x = Upto r.start x × ((is_empty r.stop ≡ true) ⊎ Upto x r.stop)

Upto-trans : (x y z : Bytes) → Upto x y → Upto y z → Upto x z
Upto-trans x y z h k = ground (arith, cmp_trans x y z, eq_of_cmp x y, eq_of_cmp y z)

Upto-refl : (x : Bytes) → Upto x x
Upto-refl x = rw (cmp_refl x)

Upto-total : (x y : Bytes) → Upto x y ⊎ Upto y x
Upto-total x y = ground (arith, cmp_flip x y)

-- A key that two ranges hold shows that they overlap.
overlap_of_key : (a b : KeyRange) (x : Bytes) → Holds a x → Holds b x → key_range_overlap a b ≡ true
unfolding key_range_overlap
overlap_of_key a b x ha hb =
    ground (arith, Upto-trans a.start x b.stop, Upto-trans b.start x a.stop)

-- The larger start lies in both of two ranges that overlap.
key_of_overlap :
    (a b : KeyRange)
    → Holds a a.start
    → Holds b b.start
    → key_range_overlap a b ≡ true
    → (x : Bytes) × (Holds a x × Holds b x)
unfolding key_range_overlap
key_of_overlap a b ha hb h = elim (Upto-total a.start b.start) [
  | inl below ↦ (b.start, ((below, ground arith), hb))
  | inr above ↦ (a.start, (ha, (above, ground arith)))
]

-- Two ranges that each hold their own start overlap exactly when some key lies in both.
pub key_range_overlap_iff :
    (a b : KeyRange)
    → Holds a a.start
    → Holds b b.start
    → (key_range_overlap a b ≡ true) ↔ ((x : Bytes) × (Holds a x × Holds b x))
key_range_overlap_iff a b ha hb =
    (key_of_overlap a b ha hb, λ w. overlap_of_key a b w.0 w.1.0 w.1.1)
