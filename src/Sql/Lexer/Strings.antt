-- ===== src/Sql/Lexer/Strings.antt =====
-- String literals: `pStr` reads back what is quoted with backslashes.
use svacara_db.Prelude.{
  ℕ, ◌≡◌, refl, ap, ◌∙◌, arith, false, not, ◌&&◌, ◌||◌, none, some, [], ◌∷◌, ◌++◌, drop, length,
  drop-append, ◌==◌, Bool-cases, ◌⊎◌, inl, inr, if◌then◌else◌,
}
use svacara_db.Bytes.{Bytes}
use svacara_db.Sql.Lexer.{
  Parser, remaining, advance, head_or_zero, peek, next, is_ws, is_comment, add_byte, str_loop,
  after_str, open_str, str_at, p_str,
}
use svacara_db.Sql.Lexer.Skip.{remaining-advance, skip_comments-still, next-cons, is_comment-cons}

-- The bytes with a backslash before each quote and backslash, and the closing quote.
abbrev pub quoted : ℕ → Bytes → Bytes
quoted quote [] = quote ∷ []
quoted quote (b ∷ bs) =
    if (b == quote) || (b == 92) then 92 ∷ b ∷ quoted quote bs else b ∷ quoted quote bs

str_loop-plain :
    (quote b : ℕ) (xs : Bytes)
    → (b == quote) ≡ false
    → (b == 92) ≡ false
    → str_loop quote (b ∷ xs) ≡ add_byte b 1 (str_loop quote xs)
unfolding str_loop
str_loop-plain quote b [] h k = rw (str_loop, h) refl
str_loop-plain quote b (x ∷ xs) h k = rw (str_loop, h, k) refl

str_loop-escaped :
    (quote c : ℕ) (xs : Bytes)
    → (92 == quote) ≡ false
    → str_loop quote (92 ∷ c ∷ xs) ≡ add_byte c 2 (str_loop quote xs)
unfolding str_loop
str_loop-escaped quote c xs h = rw (str_loop, h) refl

str_loop-end : (quote : ℕ) (xs : Bytes) → str_loop quote (quote ∷ xs) ≡ some ([], 1)
unfolding str_loop
str_loop-end quote [] = ground arith
str_loop-end quote (x ∷ xs) = ground arith

str_loop-quoted :
    (quote : ℕ) (bs after : Bytes)
    → (92 == quote) ≡ false
    → str_loop quote (quoted quote bs ++ after) ≡ some (bs, length (quoted quote bs))
str_loop-quoted quote [] after h = str_loop-end quote after
str_loop-quoted quote (b ∷ bs) after h = elim (Bool-cases ((b == quote) || (b == 92))) [
  | inl e ↦ rw e (
      str_loop-escaped quote b (quoted quote bs ++ after) h
      ∙ ap (add_byte b 2) (str_loop-quoted quote bs after h)
      ∙ ap (λ n. some (b ∷ bs, n)) (omega arith))
  | inr e ↦ rw e (
      str_loop-plain quote b (quoted quote bs ++ after) (ground (arith, e)) (ground (arith, e))
      ∙ ap (add_byte b 1) (str_loop-quoted quote bs after h)
      ∙ ap (λ n. some (b ∷ bs, n)) (omega arith))
]

str_at-quoted :
    (p : Parser) (quote : ℕ) (bs after : Bytes)
    → (not (quote == 39) && not (quote == 34)) ≡ false
    → remaining p ≡ quote ∷ (quoted quote bs ++ after)
    → str_at p ≡ (advance (length (quoted quote bs)) (advance 1 p), some bs)
unfolding str_at
str_at-quoted p quote bs after q h =
    let one = next-cons p quote (quoted quote bs ++ after) h in
    let opens : (not (peek p == 39) && not (peek p == 34)) ≡ false =
      ap (λ l. not (head_or_zero l == 39) && not (head_or_zero l == 34)) h ∙ q in
    ap (λ c. if c then (p, none) else open_str (next p)) opens
    ∙ ap open_str one.0
    ∙ ap (λ l. after_str (advance 1 p) (str_loop quote l)) one.1
    ∙ ap (after_str (advance 1 p)) (str_loop-quoted quote bs after (ground arith))

-- A literal in quotes, with a backslash before every quote and backslash inside, reads as its bytes,
-- and the parser stands behind it, whatever follows. The quote is `'` or `"`.
pub p_str-quoted :
    (p : Parser) (quote : ℕ) (bs after : Bytes)
    → (quote ≡ 39) ⊎ (quote ≡ 34)
    → remaining p ≡ quote ∷ (quoted quote bs ++ after)
    → ((p_str p).1 ≡ some bs) × (remaining (p_str p).0 ≡ after)
unfolding p_str
p_str-quoted p quote bs after q h =
    let still =
      skip_comments-still p (ap (λ l. is_ws (head_or_zero l)) h ∙ ground arith)
        (ap is_comment h ∙ is_comment-cons quote (quoted quote bs ++ after) (ground arith)) in
    let run : p_str p ≡ (advance (length (quoted quote bs)) (advance 1 p), some bs) =
      ap str_at still ∙ str_at-quoted p quote bs after (ground arith) h in
    (
      ap (λ r. r.1) run,
      ap (λ r. remaining r.0) run
          ∙ remaining-advance (length (quoted quote bs)) (advance 1 p)
          ∙ ap (drop (length (quoted quote bs))) (next-cons p quote (quoted quote bs ++ after) h).1
          ∙ drop-append (length (quoted quote bs)) (quoted quote bs) after refl,
    )
