-- ===== src/Relational/Result.antt =====
-- What an operation on tables gives: a value, a Go error, or a panic. `hang` is no Go result: a loop
-- of the model ran out of fuel. An operation on the store is an action of `M`.
use svacara_db.Prelude.{◌≡◌, refl, arith, Outcome, ok, panic, stuck}

pub data DbError : Type 0 where
  table_exists no_primary_key table_not_found column_not_found missing_primary_key store_failed :
      DbError

pub data Result {ℓ} (A : Type ℓ) : Type ℓ where
  value : A → Result A
  error : DbError → Result A
  crash : Result A
  hang : Result A

abbrev pub from_outcome {ℓ} : {A : Type ℓ} → Outcome A → Result A
from_outcome (ok a) = value a
from_outcome panic = crash
from_outcome stuck = hang

abbrev pub and_then {ℓ κ} : {A : Type ℓ} {B : Type κ} → Result A → (A → Result B) → Result B
and_then (value a) f = f a
and_then (error e) f = error e
and_then crash f = crash
and_then hang f = hang

-- The store after the operation, and its result.
abbrev pub M : Type 0 → Type 0 → Type 0
M S A = S → S × Result A

abbrev pub continue : {S A B : Type 0} → S → Result A → (A → M S B) → S × Result B
continue s (value a) f = f a s
continue s (error e) f = (s, error e)
continue s crash f = (s, crash)
continue s hang f = (s, hang)

infixl 5 ◌>>=◌ ◌>>◌
abbrev pub ◌>>=◌ : {S A B : Type 0} → M S A → (A → M S B) → M S B
◌>>=◌ m f s = continue (m s).0 (m s).1 f

abbrev pub ◌>>◌ : {S B : Type 0} → M S (Unit {0}) → M S B → M S B
m >> k = m >>= λ _. k

abbrev pub pure : {S A : Type 0} → A → M S A
pure a s = (s, value a)

abbrev pub lift : {S A : Type 0} → Result A → M S A
lift r s = (s, r)

-- A block that returns a value got one from its first step.
pub continue-value :
    {S A B : Type 0} (s : S) (r : Result A) (f : A → M S B) (b : B)
    → (continue s r f).1 ≡ value b
    → (a : A) × (r ≡ value a) × ((f a s).1 ≡ value b)
continue-value s (value a) f b h = (a, refl, h)
continue-value s (error e) f b h = absurd (ground arith)
continue-value s crash f b h = absurd (ground arith)
continue-value s hang f b h = absurd (ground arith)

pub from_outcome-value : {A : Type 0} (o : Outcome A) (a : A) → from_outcome o ≡ value a → o ≡ ok a
from_outcome-value (ok x) a h = ground arith
from_outcome-value panic a h = absurd (ground arith)
from_outcome-value stuck a h = absurd (ground arith)
