-- ===== src/Bytes/Compare.antt =====
-- internal/btree/node.go: `cmp`, the order of keys, and its laws. -1, 0 and 1 are `Ordering`'s
-- `lt`, `eq` and `gt`.
use svacara_db.Prelude.{
  ℕ, zero, suc, ◌/◌, ◌%◌, ◌^◌, ◌<◌, ◌≡◌, refl, arith, Bool, true, false, ◌&&◌, ◌==◌, compare,
  Ordering, [], ◌∷◌, ◌++◌, ltb, if◌then◌else◌, append_assoc,
}
use svacara_db.Bytes.{Bytes}
use svacara_db.Bytes.Endian.{be_bytes, div-lt-pow}

-- The loop over the common indices, then the comparison of the lengths.
unfoldable pub cmp : Bytes → Bytes → Ordering
cmp [] [] = Ordering.eq
cmp [] (y ∷ ys) = Ordering.lt
cmp (x ∷ xs) [] = Ordering.gt
cmp (x ∷ xs) (y ∷ ys) =
    let rest = cmp xs ys in if ltb x y then Ordering.lt else if ltb y x then Ordering.gt else rest

-- The first verdict that is not `eq` decides.
abbrev pub then_cmp : Ordering → Ordering → Ordering
then_cmp Ordering.lt o = Ordering.lt
then_cmp Ordering.eq o = o
then_cmp Ordering.gt o = Ordering.gt

abbrev pub flip_cmp : Ordering → Ordering
flip_cmp Ordering.lt = Ordering.gt
flip_cmp Ordering.eq = Ordering.eq
flip_cmp Ordering.gt = Ordering.lt

pub then_cmp_assoc : (a b c : Ordering) → then_cmp (then_cmp a b) c ≡ then_cmp a (then_cmp b c)
then_cmp_assoc Ordering.lt b c = refl
then_cmp_assoc Ordering.eq b c = refl
then_cmp_assoc Ordering.gt b c = refl

pub cmp-cons :
    (x y : ℕ) (xs ys : Bytes) → cmp (x ∷ xs) (y ∷ ys) ≡ then_cmp (compare x y) (cmp xs ys)
unfolding cmp
cmp-cons x y xs ys = ground arith

pub cmp_refl : (xs : Bytes) → cmp xs xs ≡ Ordering.eq
unfolding cmp
cmp_refl [] = refl
cmp_refl (x ∷ xs) = ground (arith, cmp_refl xs)

pub eq_of_cmp : (xs ys : Bytes) → cmp xs ys ≡ Ordering.eq → xs ≡ ys
unfolding cmp
eq_of_cmp [] [] h = refl
eq_of_cmp [] (y ∷ ys) h = ground arith
eq_of_cmp (x ∷ xs) [] h = ground arith
eq_of_cmp (x ∷ xs) (y ∷ ys) h = ground (arith, eq_of_cmp xs ys)

pub cmp_flip : (xs ys : Bytes) → cmp ys xs ≡ flip_cmp (cmp xs ys)
unfolding cmp
cmp_flip [] [] = refl
cmp_flip [] (y ∷ ys) = refl
cmp_flip (x ∷ xs) [] = refl
cmp_flip (x ∷ xs) (y ∷ ys) = ground (arith, cmp_flip xs ys)

pub cmp_trans :
    (xs ys zs : Bytes) → cmp xs ys ≡ Ordering.lt → cmp ys zs ≡ Ordering.lt → cmp xs zs ≡ Ordering.lt
unfolding cmp
cmp_trans [] [] zs h k = ground arith
cmp_trans [] (y ∷ ys) [] h k = ground arith
cmp_trans [] (y ∷ ys) (z ∷ zs) h k = refl
cmp_trans (x ∷ xs) [] zs h k = ground arith
cmp_trans (x ∷ xs) (y ∷ ys) [] h k = ground arith
cmp_trans (x ∷ xs) (y ∷ ys) (z ∷ zs) h k = ground (arith, cmp_trans xs ys zs)

digit_cmp :
    (a b : ℕ) (o : Ordering)
    → then_cmp (compare (a / 256) (b / 256)) (then_cmp (compare (a % 256) (b % 256)) o)
      ≡ then_cmp (compare a b) o
digit_cmp a b o = ground arith

-- Big-endian numbers compare as byte strings the way they compare as numbers.
pub cmp-be_bytes :
    (n a b : ℕ) (r s : Bytes)
    → a < 256 ^ n
    → b < 256 ^ n
    → cmp (be_bytes n a ++ r) (be_bytes n b ++ s) ≡ then_cmp (compare a b) (cmp r s)
unfolding be_bytes
cmp-be_bytes zero a b r s ha hb = ground arith
cmp-be_bytes (suc n) a b r s ha hb =
    rw (append_assoc, append_assoc)
      (rw
        (
          cmp-be_bytes n (a / 256) (b / 256) (a % 256 ∷ r) (b % 256 ∷ s) (div-lt-pow n a ha)
              (div-lt-pow n b hb),
          cmp-cons,
        )
        (digit_cmp a b (cmp r s)))

-- Equality of Go strings.
abbrev pub bytes_eq : Bytes → Bytes → Bool
bytes_eq [] [] = true
bytes_eq [] (y ∷ ys) = false
bytes_eq (x ∷ xs) [] = false
bytes_eq (x ∷ xs) (y ∷ ys) = (x == y) && bytes_eq xs ys

pub bytes_eq_refl : (xs : Bytes) → bytes_eq xs xs ≡ true
bytes_eq_refl [] = refl
bytes_eq_refl (x ∷ xs) = ground (arith, bytes_eq_refl xs)

pub eq_of_bytes_eq : (xs ys : Bytes) → bytes_eq xs ys ≡ true → xs ≡ ys
eq_of_bytes_eq [] [] h = refl
eq_of_bytes_eq [] (y ∷ ys) h = ground arith
eq_of_bytes_eq (x ∷ xs) [] h = ground arith
eq_of_bytes_eq (x ∷ xs) (y ∷ ys) h = ground (arith, eq_of_bytes_eq xs ys)

pub bytes_eq_sym : (xs ys : Bytes) → bytes_eq xs ys ≡ bytes_eq ys xs
bytes_eq_sym [] [] = refl
bytes_eq_sym [] (y ∷ ys) = refl
bytes_eq_sym (x ∷ xs) [] = refl
bytes_eq_sym (x ∷ xs) (y ∷ ys) = ground (arith, bytes_eq_sym xs ys)
