-- ===== src/Sql/Lexer/Words.antt =====
-- Keywords, which match as prefixes.
use svacara_db.Prelude.{
  ℕ, ◌≤◌, ◌≡◌, refl, ap, ◌∙◌, arith, true, false, none, some, [], ◌∷◌, ◌++◌, All, ◌==◌,
  if◌then◌else◌,
}
use svacara_db.Bytes.{Bytes}
use svacara_db.Sql.Lexer.{
  Parser, remaining, advance, head_or_zero, peek, next, is_ws, is_comment, skip_ws, skip_comments,
  to_lower, match_word, match_words, p_keyword,
}
use svacara_db.Sql.Lexer.Skip.{skip_comments-still, skip_ws-still, next-cons, is_comment-cons}

abbrev pub IsLower : ℕ → Type 0
IsLower c = (97 ≤ c) × (c ≤ 122)

match_word-prefix :
    (kw after : Bytes) (p : Parser)
    → All IsLower kw
    → remaining p ≡ kw ++ after
    → (p' : Parser) × (match_word kw p ≡ some p') × (remaining p' ≡ after)
unfolding match_word
match_word-prefix [] after p l h = (p, refl, h)
match_word-prefix (c ∷ kw) after p (lc, l) h =
    let one = next-cons p c (kw ++ after) h in
    let (p', e, r) = match_word-prefix kw after (advance 1 p) l one.1 in
    let same : (to_lower (peek p) == c) ≡ true =
      ap (λ l. to_lower (head_or_zero l) == c) h ∙ ground arith in
    (
      p',
      ap (λ b. if b then match_word kw (next p).0 else none) same
          ∙ ap (λ q. match_word kw q.0) one.0
          ∙ e,
      r,
    )

-- A keyword of letters is found wherever its letters stand, whatever follows them: an identifier that
-- begins with it is cut behind it. The parser stands at the first letter.
pub p_keyword-prefix :
    (p : Parser) (c : ℕ) (kw after : Bytes)
    → All IsLower (c ∷ kw)
    → remaining p ≡ (c ∷ kw) ++ after
    → ((p_keyword p ((c ∷ kw) ∷ [])).1 ≡ true) × (remaining (p_keyword p ((c ∷ kw) ∷ [])).0 ≡ after)
unfolding p_keyword match_words
p_keyword-prefix p c kw after l h =
    let blank : is_ws (peek p) ≡ false = ap (λ l. is_ws (head_or_zero l)) h ∙ ground arith in
    let still =
      skip_comments-still p blank
        (ap is_comment h ∙ is_comment-cons c (kw ++ after) (ground arith)) in
    let (p', w, r) = match_word-prefix (c ∷ kw) after p l h in
    let found : match_word (c ∷ kw) (skip_ws (skip_comments p)) ≡ some p' =
      ap (λ q. match_word (c ∷ kw) (skip_ws q)) still
      ∙ ap (match_word (c ∷ kw)) (skip_ws-still p blank)
      ∙ w in
    rw (p_keyword, found) (refl, r)
