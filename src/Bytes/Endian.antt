-- ===== src/Bytes/Endian.antt =====
-- binary.BigEndian: the `n` bytes of a number, highest first, and the number of such bytes.
use native.Mathlib.Nat.{pow-suc}
use svacara_db.Prelude.{
  ℕ, zero, suc, ◌+◌, ◌*◌, ◌/◌, ◌%◌, ◌^◌, ◌<◌, ◌≡◌, refl, ◌∙◌, arith, [], ◌∷◌, ◌++◌, length,
  length-append,
}
use svacara_db.Bytes.{Bytes, IsBytes}

unfoldable pub be_bytes : ℕ → ℕ → Bytes
be_bytes zero v = []
be_bytes (suc n) v = be_bytes n (v / 256) ++ (v % 256) ∷ []

be_value_from : ℕ → Bytes → ℕ
be_value_from acc [] = acc
be_value_from acc (b ∷ bs) = be_value_from (acc * 256 + b) bs

unfoldable pub be_value : Bytes → ℕ
unfolding be_value_from
be_value bs = be_value_from 0 bs

pub length-be_bytes : (n v : ℕ) → length (be_bytes n v) ≡ n
unfolding be_bytes
length-be_bytes zero v = refl
length-be_bytes (suc n) v =
    length-append (be_bytes n (v / 256)) ((v % 256) ∷ [])
    ∙ omega (arith, length-be_bytes n (v / 256))

IsBytes-snoc : (xs : Bytes) (b : ℕ) → IsBytes xs → b < 256 → IsBytes (xs ++ b ∷ [])
IsBytes-snoc [] b h hb = (hb, tt)
IsBytes-snoc (x ∷ xs) b (hx, hxs) hb = (hx, IsBytes-snoc xs b hxs hb)

pub be_bytes-IsBytes : (n v : ℕ) → IsBytes (be_bytes n v)
unfolding be_bytes
be_bytes-IsBytes zero v = tt
be_bytes-IsBytes (suc n) v = IsBytes-snoc _ _ (be_bytes-IsBytes n (v / 256)) (omega arith)

be_value_from-snoc :
    (acc : ℕ) (xs : Bytes) (b : ℕ)
    → be_value_from acc (xs ++ b ∷ []) ≡ be_value_from acc xs * 256 + b
unfolding be_value_from
be_value_from-snoc acc [] b = refl
be_value_from-snoc acc (x ∷ xs) b = be_value_from-snoc (acc * 256 + x) xs b

-- The division by 256 brings a number below 256 ^ (n + 1) below 256 ^ n.
pub div-lt-pow : (n v : ℕ) → v < 256 ^ suc n → v / 256 < 256 ^ n
div-lt-pow n v h = omega (arith, pow-suc 256 n)

-- Reading back the `n` bytes of a number below 256 ^ n gives the number.
pub be_value-be_bytes : (n v : ℕ) → v < 256 ^ n → be_value (be_bytes n v) ≡ v
unfolding be_bytes be_value
be_value-be_bytes zero v h = omega arith
be_value-be_bytes (suc n) v h =
    be_value_from-snoc 0 (be_bytes n (v / 256)) (v % 256)
    ∙ omega (arith, be_value-be_bytes n (v / 256) (div-lt-pow n v h))
