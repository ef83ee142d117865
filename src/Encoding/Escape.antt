-- ===== src/Encoding/Escape.antt =====
-- The escaping of byte strings: no byte 0, a left inverse, and the order of keys kept.
use svacara_db.Prelude.{
  ℕ, zero, suc, ◌<◌, ◌≡◌, ◌≢◌, refl, ap, ◌∙◌, arith, [], ◌∷◌, ◌++◌, All, some, length,
}
use svacara_db.Bytes.{Bytes}
use svacara_db.Bytes.Compare.{cmp, then_cmp}
use svacara_db.Encoding.{escape_bytes, unescape_bytes, index_byte}

escape-plain : (b : ℕ) (s : Bytes) → 1 < b → escape_bytes (b ∷ s) ≡ b ∷ escape_bytes s
unfolding escape_bytes
escape-plain b s h = ground arith

unescape-plain : (b : ℕ) (s : Bytes) → b ≢ 1 → unescape_bytes (b ∷ s) ≡ b ∷ unescape_bytes s
unfolding unescape_bytes
unescape-plain b [] h = refl
unescape-plain b (c ∷ s) h = ground arith

-- Unescaping undoes escaping, on every byte string.
pub unescape-escape : (s : Bytes) → unescape_bytes (escape_bytes s) ≡ s
unfolding escape_bytes unescape_bytes
unescape-escape [] = refl
unescape-escape (zero ∷ s) = ap (λ l. 0 ∷ l) (unescape-escape s)
unescape-escape (suc zero ∷ s) = ap (λ l. 1 ∷ l) (unescape-escape s)
unescape-escape (suc (suc b) ∷ s) = rw (escape-plain (suc (suc b)) s (omega arith)) (
    unescape-plain (suc (suc b)) (escape_bytes s) (omega arith)
    ∙ ap (λ l. suc (suc b) ∷ l) (unescape-escape s))

escape-NoZero : (s : Bytes) → All (λ b. b ≢ 0) (escape_bytes s)
unfolding escape_bytes
escape-NoZero [] = tt
escape-NoZero (zero ∷ s) = (omega arith, (omega arith, escape-NoZero s))
escape-NoZero (suc zero ∷ s) = (omega arith, (omega arith, escape-NoZero s))
escape-NoZero (suc (suc b) ∷ s) =
    rw (escape-plain (suc (suc b)) s (omega arith)) (omega arith, escape-NoZero s)

index_byte-append :
    (xs r : Bytes) → All (λ b. b ≢ 0) xs → index_byte (xs ++ 0 ∷ r) 0 ≡ some (length xs)
index_byte-append [] r h = refl
index_byte-append (x ∷ xs) r (hx, hxs) = ground (arith, index_byte-append xs r hxs)

-- The terminator is the first byte 0 behind an escaped string.
pub index_byte-escape :
    (s r : Bytes) → index_byte (escape_bytes s ++ 0 ∷ r) 0 ≡ some (length (escape_bytes s))
index_byte-escape s r = index_byte-append (escape_bytes s) r (escape-NoZero s)

-- Escaped and terminated strings compare as the strings do, and what follows decides only between
-- equal strings.
pub cmp-escape :
    (a b r s : Bytes)
    → cmp (escape_bytes a ++ 0 ∷ r) (escape_bytes b ++ 0 ∷ s) ≡ then_cmp (cmp a b) (cmp r s)
unfolding cmp escape_bytes
cmp-escape [] [] r s = refl
cmp-escape [] (zero ∷ b) r s = refl
cmp-escape [] (suc zero ∷ b) r s = refl
cmp-escape [] (suc (suc y) ∷ b) r s = ground arith
cmp-escape (zero ∷ a) [] r s = refl
cmp-escape (suc zero ∷ a) [] r s = refl
cmp-escape (suc (suc x) ∷ a) [] r s = ground arith
cmp-escape (x ∷ a) (y ∷ b) r s = ground (arith, cmp-escape a b r s)
