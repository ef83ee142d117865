-- ===== src/Sql/Lexer/Skip.antt =====
-- Blanks and comments: where `skipComments` stops.
use svacara_db.Prelude.{
  ℕ, zero, suc, ◌+◌, ◌-◌, ◌≤◌, ◌<◌, ◌≡◌, refl, sym, ap, ◌∙◌, arith, true, false, [], ◌∷◌, drop,
  length, length-drop, leb, ◌==◌, Bool-cases, inl, inr,
}
use svacara_db.Bytes.{Bytes}
use svacara_db.Sql.Lexer.{
  Parser, remaining, advance, head_or_zero, peek, next, is_ws, ws_len, skip_ws, is_comment,
  line_len, comment_loop, skip_comments,
}

drop-nil : (n : ℕ) → drop {A = ℕ} n [] ≡ []
drop-nil zero = refl
drop-nil (suc n) = refl

shift : (m n : ℕ) → suc m + n ≡ suc (m + n)
shift m n = omega arith

drop-add : (m n : ℕ) (xs : Bytes) → drop (m + n) xs ≡ drop n (drop m xs)
drop-add zero n xs = ap (λ k. drop k xs) (omega arith)
drop-add (suc m) n [] = drop-nil (suc m + n) ∙ sym (drop-nil n)
drop-add (suc m) n (x ∷ xs) = ap (λ k. drop k (x ∷ xs)) (shift m n) ∙ drop-add m n xs

pub remaining-advance : (n : ℕ) (p : Parser) → remaining (advance n p) ≡ drop n (remaining p)
remaining-advance n p = drop-add p.pos n p.input

ws_len-stops : (bs : Bytes) → is_ws (head_or_zero (drop (ws_len bs) bs)) ≡ false
unfolding ws_len
ws_len-stops [] = refl
ws_len-stops (b ∷ bs) = elim (Bool-cases (is_ws b)) [
  | inl e ↦ rw (ws_len, e) (ws_len-stops bs)
  | inr e ↦ rw (ws_len, e) e
]

skip_ws-stops : (p : Parser) → is_ws (peek (skip_ws p)) ≡ false
unfolding skip_ws
skip_ws-stops p = rw (remaining-advance (ws_len (remaining p)) p) (ws_len-stops (remaining p))

length-remaining-advance :
    (n : ℕ) (p : Parser) → length (remaining (advance n p)) ≡ length (remaining p) - n
length-remaining-advance n p = ap length (remaining-advance n p) ∙ length-drop n (remaining p)

skip_ws-length : (p : Parser) → length (remaining (skip_ws p)) ≤ length (remaining p)
unfolding skip_ws
skip_ws-length p = omega (arith, length-remaining-advance (ws_len (remaining p)) p)

line_len-comment : (bs : Bytes) → is_comment bs ≡ true → (1 ≤ line_len bs) × (1 ≤ length bs)
unfolding line_len
line_len-comment [] h = absurd (ground arith)
line_len-comment (b ∷ []) h = absurd (ground arith)
line_len-comment (b ∷ c ∷ bs) h = (ground arith, omega arith)

is_comment-empty : (bs : Bytes) → length bs ≤ 0 → is_comment bs ≡ false
is_comment-empty [] l = refl
is_comment-empty (b ∷ bs) l = absurd (omega arith)

ws_len-none : (bs : Bytes) → is_ws (head_or_zero bs) ≡ false → ws_len bs ≡ 0
unfolding ws_len
ws_len-none [] h = refl
ws_len-none (b ∷ bs) h = rw (ws_len, h) refl

pub skip_ws-still : (p : Parser) → is_ws (peek p) ≡ false → skip_ws p ≡ p
unfolding skip_ws
skip_ws-still p h =
    let e : p.pos + ws_len (remaining p) ≡ p.pos = omega (arith, ws_len-none (remaining p) h) in
    ap (λ n. record p { pos = n }) e

comment_loop-still :
    (fuel : ℕ) (p : Parser) → is_comment (remaining p) ≡ false → comment_loop fuel p ≡ p
unfolding comment_loop
comment_loop-still zero p h = refl
comment_loop-still (suc fuel) p h = rw (comment_loop, h) refl

-- Skipping a comment and the blanks behind it leaves fewer bytes.
comment-shorter :
    (p : Parser)
    → is_comment (remaining p) ≡ true
    → length (remaining (skip_ws (advance (line_len (remaining p)) p))) < length (remaining p)
comment-shorter p h =
    let passed = line_len-comment (remaining p) h in
    omega (
      arith,
      skip_ws-length (advance (line_len (remaining p)) p),
      length-remaining-advance (line_len (remaining p)) p,
      passed.0,
      passed.1,
    )

comment_loop-stops :
    (fuel : ℕ) (p : Parser)
    → length (remaining p) ≤ fuel
    → is_ws (peek p) ≡ false
    → (is_ws (peek (comment_loop fuel p)) ≡ false)
      × (is_comment (remaining (comment_loop fuel p)) ≡ false)
unfolding comment_loop
comment_loop-stops zero p l w = (w, is_comment-empty (remaining p) l)
comment_loop-stops (suc fuel) p l w = elim (Bool-cases (is_comment (remaining p))) [
  | inl e ↦
      let q = skip_ws (advance (line_len (remaining p)) p) in
      let shorter = comment-shorter p e in
      rw (comment_loop, e)
        (comment_loop-stops fuel q (omega arith)
          (skip_ws-stops (advance (line_len (remaining p)) p)))
  | inr e ↦ rw (comment_loop, e) (w, e)
]

-- `skipComments` stops at a byte that is no blank and begins no comment, however many comments there
-- are: the fuel of its loop is enough.
pub skip_comments-stops :
    (p : Parser)
    → (is_ws (peek (skip_comments p)) ≡ false) × (is_comment (remaining (skip_comments p)) ≡ false)
unfolding skip_comments
skip_comments-stops p =
    comment_loop-stops (length (remaining p)) (skip_ws p) (skip_ws-length p) (skip_ws-stops p)

-- At such a byte it does not move.
pub skip_comments-still :
    (p : Parser) → is_ws (peek p) ≡ false → is_comment (remaining p) ≡ false → skip_comments p ≡ p
unfolding skip_comments
skip_comments-still p w c =
    ap (comment_loop (length (remaining p))) (skip_ws-still p w)
    ∙ comment_loop-still (length (remaining p)) p c

-- One byte of the input.
pub next-cons :
    (p : Parser) (b : ℕ) (bs : Bytes)
    → remaining p ≡ b ∷ bs
    → (next p ≡ (advance 1 p, b)) × (remaining (advance 1 p) ≡ bs)
next-cons p b bs h =
    let size : length p.input - p.pos ≡ suc (length bs) =
      sym (length-drop p.pos p.input) ∙ ap length h in
    let inside : leb (length p.input) p.pos ≡ false = ground (arith, size) in
    (rw inside (ap (λ l. (advance 1 p, head_or_zero l)) h), remaining-advance 1 p ∙ ap (drop 1) h)

pub is_comment-cons : (b : ℕ) (xs : Bytes) → (b == 45) ≡ false → is_comment (b ∷ xs) ≡ false
is_comment-cons b [] h = refl
is_comment-cons b (x ∷ xs) h = rw h refl
