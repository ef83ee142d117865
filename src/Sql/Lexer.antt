-- ===== src/Sql/Lexer.antt =====
-- internal/sql/parser.go: the scanner under the parser. A loop that moves `pos` is a recursion over
-- the bytes from `pos` on, which gives the number of bytes that it passes.
pub mod Skip
pub mod Strings
pub mod Words
use svacara_db.Prelude.{
  ℕ, zero, suc, ◌+◌, ◌-◌, ◌≤◌, ◌<◌, ◌≡◌, ◌≢◌, refl, sym, ap, ◌∙◌, arith, Bool, true, false, not,
  ◌&&◌, ◌||◌, Option, none, some, List, [], ◌∷◌, ◌++◌, All, take, drop, length, length-drop,
  append_assoc, ltb, leb, ◌==◌, Bool-cases, Option-cases, ◌⊎◌, inl, inr, if◌then◌else◌,
}
use mathlib.Core.Path.{subst}
use svacara_db.Bytes.{Bytes}

pub record Parser : Type 0 where
  pub input : Bytes
  pub pos : ℕ

abbrev pub new_parser : Bytes → Parser
new_parser input = record { input = input; pos = 0 }

-- `p.input[p.pos:]`
abbrev pub remaining : Parser → Bytes
remaining p = drop p.pos p.input

abbrev pub advance : ℕ → Parser → Parser
advance n p = record p { pos = p.pos + n }

abbrev pub head_or_zero : Bytes → ℕ
head_or_zero [] = 0
head_or_zero (b ∷ bs) = b

abbrev pub peek : Parser → ℕ
peek p = head_or_zero (remaining p)

abbrev pub next : Parser → Parser × ℕ
next p = if leb (length p.input) p.pos then (p, 0) else (advance 1 p, peek p)

abbrev pub is_ws : ℕ → Bool
is_ws b = (b == 32) || (b == 9) || (b == 10) || (b == 13)

unfoldable pub ws_len : Bytes → ℕ
ws_len [] = 0
ws_len (b ∷ bs) = let n = ws_len bs in if is_ws b then suc n else 0

unfoldable pub skip_ws : Parser → Parser
skip_ws p = advance (ws_len (remaining p)) p

abbrev pub is_comment : Bytes → Bool
is_comment [] = false
is_comment (b ∷ []) = false
is_comment (b ∷ c ∷ bs) = (b == 45) && (c == 45)

unfoldable pub line_len : Bytes → ℕ
line_len [] = 0
line_len (b ∷ bs) = let n = line_len bs in if b == 10 then 0 else suc n

unfoldable pub comment_loop : ℕ → Parser → Parser
comment_loop zero p = p
comment_loop (suc fuel) p =
    let further = comment_loop fuel (skip_ws (advance (line_len (remaining p)) p)) in
    if is_comment (remaining p) then further else p

-- A comment has two bytes at least, so the number of bytes left is fuel enough.
unfoldable pub skip_comments : Parser → Parser
skip_comments p = comment_loop (length (remaining p)) (skip_ws p)

abbrev pub to_lower : ℕ → ℕ
to_lower b = if leb 65 b && leb b 90 then b + 32 else b

unfoldable pub match_word : Bytes → Parser → Option Parser
match_word [] p = some p
match_word (c ∷ kw) p =
    let further = match_word kw (next p).0 in if to_lower (peek p) == c then further else none

unfoldable pub match_words : List Bytes → Parser → Option Parser
match_words [] p = some p
match_words (kw ∷ kws) p = elim (match_word kw (skip_ws p)) [
  | none ↦ none
  | some p' ↦ match_words kws p'
]

-- A failure puts `pos` back.
unfoldable pub p_keyword : Parser → List Bytes → Parser × Bool
p_keyword p kws = elim (match_words kws (skip_comments p)) [
  | none ↦ (p, false)
  | some p' ↦ (p', true)
]

abbrev pub is_digit : ℕ → Bool
is_digit b = leb 48 b && leb b 57

abbrev pub is_sym : ℕ → Bool
is_sym b = (leb 97 b && leb b 122) || (leb 65 b && leb b 90) || is_digit b || (b == 95) || (b == 64)

abbrev pub run_len : (ℕ → Bool) → Bytes → ℕ
run_len f [] = 0
run_len f (b ∷ bs) = let n = run_len f bs in if f b then suc n else 0

-- An empty symbol stands for the parser at the place where it looked.
unfoldable pub p_must_sym : Parser → Parser × Bytes
p_must_sym p =
    let q = skip_comments p in
    let n = run_len is_sym (remaining q) in (advance n q, take n (remaining q))

-- The digits after the sign, which `strconv.ParseInt` turns into a number.
unfoldable pub p_num : (Bytes → ℕ) → Parser → Parser × Option ℕ
p_num parse_int p =
    let q = skip_comments p in
    let sign = if peek q == 45 then 1 else 0 in
    let n = run_len is_digit (drop sign (remaining q)) in
    if n == 0
    then (q, none)
    else (advance (sign + n) q, some (parse_int (take (sign + n) (remaining q))))

abbrev pub add_byte : ℕ → ℕ → Option (Bytes × ℕ) → Option (Bytes × ℕ)
add_byte b n none = none
add_byte b n (some (out, m)) = some (b ∷ out, n + m)

-- The string up to the quote, and the number of bytes that it takes with the quote.
unfoldable pub str_loop : ℕ → Bytes → Option (Bytes × ℕ)
str_loop quote [] = none
str_loop quote (b ∷ []) = if b == quote then some ([], 1) else none
str_loop quote (b ∷ c ∷ bs) =
    let escaped = str_loop quote bs in
    let plain = str_loop quote (c ∷ bs) in
    if b == quote
    then some ([], 1)
    else if b == 92
    then add_byte c 2 escaped
    else add_byte b 1 plain

abbrev pub after_str : Parser → Option (Bytes × ℕ) → Parser × Option Bytes
after_str p none = (record p { pos = length p.input }, none)
after_str p (some (out, n)) = (advance n p, some out)

abbrev pub open_str : Parser × ℕ → Parser × Option Bytes
open_str (p, quote) = after_str p (str_loop quote (remaining p))

unfoldable pub str_at : Parser → Parser × Option Bytes
str_at p = if not (peek p == 39) && not (peek p == 34) then (p, none) else open_str (next p)

unfoldable pub p_str : Parser → Parser × Option Bytes
p_str p = str_at (skip_comments p)
