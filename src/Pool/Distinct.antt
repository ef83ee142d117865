-- ===== src/Pool/Distinct.antt =====
-- Lists of connections without repetition, and the cuts of slices in the pool.
use svacara_db.Prelude.{
  ℕ, zero, suc, ◌-◌, ◌≡◌, ◌≢◌, sym, arith, some, List, [], ◌∷◌, ◌++◌, All, length, length-append,
  take-append, get_elem?,
}
use mathlib.Core.Path.{subst}
use svacara_db.Pool.{remove_at, drop_last}

abbrev pub IsOther : ℕ → List ℕ → Type 0
IsOther i xs = All (λ j. j ≢ i) xs

abbrev pub HasDistinct : List ℕ → Type 0
HasDistinct [] = Unit {0}
HasDistinct (i ∷ xs) = IsOther i xs × HasDistinct xs

pub All-remove_at : (P : ℕ → Type 0) (xs : List ℕ) (i : ℕ) → All P xs → All P (remove_at i xs)
All-remove_at P [] zero h = tt
All-remove_at P [] (suc i) h = tt
All-remove_at P (x ∷ xs) zero (hx, h) = h
All-remove_at P (x ∷ xs) (suc i) (hx, h) = (hx, All-remove_at P xs i h)

pub HasDistinct-remove_at : (xs : List ℕ) (i : ℕ) → HasDistinct xs → HasDistinct (remove_at i xs)
HasDistinct-remove_at [] zero h = tt
HasDistinct-remove_at [] (suc i) h = tt
HasDistinct-remove_at (x ∷ xs) zero (hx, h) = h
HasDistinct-remove_at (x ∷ xs) (suc i) (hx, h) =
    (All-remove_at (λ j. j ≢ x) xs i hx, HasDistinct-remove_at xs i h)

pub All-get_elem? :
    (P : ℕ → Type 0) (xs : List ℕ) (i a : ℕ) → get_elem? xs i ≡ some a → All P xs → P a
All-get_elem? P [] i a e h = absurd (ground arith)
All-get_elem? P (x ∷ xs) zero a e (hx, h) = subst P (ground arith) hx
All-get_elem? P (x ∷ xs) (suc i) a e (hx, h) = All-get_elem? P xs i a e h

pub IsOther-remove_at :
    (xs : List ℕ) (i a : ℕ) → get_elem? xs i ≡ some a → HasDistinct xs → IsOther a (remove_at i xs)
IsOther-remove_at [] i a e h = absurd (ground arith)
IsOther-remove_at (x ∷ xs) zero a e (hx, h) = subst (λ b. IsOther b xs) (ground arith) hx
IsOther-remove_at (x ∷ xs) (suc i) a e (hx, h) =
    (λ q. All-get_elem? (λ j. j ≢ x) xs i a e hx (sym q), IsOther-remove_at xs i a e h)

-- A predicate that holds on a list and at one more element.
pub All-snoc : (P : ℕ → Type 0) (xs : List ℕ) (a : ℕ) → All P xs → P a → All P (xs ++ a ∷ [])
All-snoc P [] a h ha = (ha, tt)
All-snoc P (x ∷ xs) a (hx, h) ha = (hx, All-snoc P xs a h ha)

pub All-map : (P Q : ℕ → Type 0) (xs : List ℕ) → ((i : ℕ) → P i → Q i) → All P xs → All Q xs
All-map P Q [] f h = tt
All-map P Q (x ∷ xs) f (hx, h) = (f x hx, All-map P Q xs f h)

pub All-map2 :
    (P Q R : ℕ → Type 0) (xs : List ℕ)
    → ((i : ℕ) → P i → Q i → R i)
    → All P xs
    → All Q xs
    → All R xs
All-map2 P Q R [] f h k = tt
All-map2 P Q R (x ∷ xs) f (hx, h) (kx, k) = (f x hx kx, All-map2 P Q R xs f h k)

pub HasDistinct-snoc :
    (xs : List ℕ) (a : ℕ) → HasDistinct xs → IsOther a xs → HasDistinct (xs ++ a ∷ [])
HasDistinct-snoc [] a h o = (tt, tt)
HasDistinct-snoc (x ∷ xs) a (hx, h) (ox, o) =
    (All-snoc (λ j. j ≢ x) xs a hx (λ q. ox (sym q)), HasDistinct-snoc xs a h o)

pub drop_last-snoc : (xs : List ℕ) (a : ℕ) → drop_last (xs ++ a ∷ []) ≡ xs
drop_last-snoc xs a =
    take-append (length (xs ++ a ∷ []) - 1) xs (a ∷ []) (omega (arith, length-append xs (a ∷ [])))
