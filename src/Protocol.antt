-- ===== src/Protocol.antt =====
-- internal/protocol/protocol.go: the frames of the wire protocol. Go's `int` has 64 bits; a slice
-- bound is computed in the width of its operands, and a slice out of range panics.
pub mod Message
pub mod Text
mod Tests
use svacara_db.Prelude.{
  ℕ, ◌+◌, ◌-◌, ◌%◌, ◌^◌, ◌||◌, Option, none, some, List, [], ◌∷◌, ◌++◌, ◌≡◌, arith, length, take,
  drop, take-append, drop-append, length-append, ltb, if◌then◌else◌, Outcome, ok, panic, ◌>>=◌,
}
use svacara_db.Bytes.{Bytes}
use svacara_db.Bytes.Endian.{be_bytes, be_value}
use svacara_db.Bytes.Compare.{bytes_eq}

abbrev pub msg_result : ℕ
msg_result = 0x10

-- `xs[lo:hi]` of a slice with no spare capacity.
abbrev pub slice : Bytes → ℕ → ℕ → Outcome Bytes
slice xs lo hi = if ltb hi lo || ltb (length xs) hi then panic else ok (take (hi - lo) (drop lo xs))

-- The part `ys` of a slice, found by the lengths of what stands before it.
pub slice-middle :
    (xs ys rest : Bytes) (lo hi : ℕ)
    → length xs ≡ lo
    → lo + length ys ≡ hi
    → slice (xs ++ (ys ++ rest)) lo hi ≡ ok ys
slice-middle xs ys rest lo hi e f =
    rw (drop-append lo xs (ys ++ rest) e, take-append (hi - lo) ys rest (omega arith))
      (ground (arith, length-append xs (ys ++ rest), length-append ys rest))

unfoldable pub encode_message : ℕ → Bytes → Bytes
encode_message msg_type payload = msg_type ∷ (be_bytes 4 (length payload % 2 ^ 32) ++ payload)

-- `none` is the result `0, nil, false`. The bound `5+length` is a uint32, and wraps.
unfoldable pub decode_message : Bytes → Outcome (Option (ℕ × Bytes))
decode_message [] = ok none
decode_message (msg_type ∷ tail) =
    let len = be_value (take 4 tail) in
    if ltb (length (msg_type ∷ tail)) 5
    then ok none
    else if ltb (length (msg_type ∷ tail)) (5 + len)
    then ok none
    else slice (msg_type ∷ tail) 5 ((5 + len) % 2 ^ 32) >>= λ payload. ok (some (msg_type, payload))

unfoldable pub encode_string : Bytes → Bytes
encode_string s = be_bytes 2 (length s % 2 ^ 16) ++ s

-- The bound `2+length` is a uint16, and wraps.
unfoldable pub decode_string : Bytes → Outcome (Bytes × ℕ)
decode_string input =
    let len = be_value (take 2 input) in
    if ltb (length input) 2
    then ok ([], 0)
    else if ltb (length input) (2 + len)
    then ok ([], 0)
    else slice input 2 ((2 + len) % 2 ^ 16) >>= λ s. ok (s, 2 + len)

-- `row[c]` of a `map[string]string`: the empty string for a missing column.
abbrev pub cell : List (Bytes × Bytes) → Bytes → Bytes
cell [] c = []
cell ((k, v) ∷ row) c = if bytes_eq k c then v else cell row c

abbrev pub encode_cols : List Bytes → Bytes
encode_cols [] = []
encode_cols (c ∷ cols) = encode_string c ++ encode_cols cols

abbrev pub encode_row : List Bytes → List (Bytes × Bytes) → Bytes
encode_row [] row = []
encode_row (c ∷ cols) row = encode_string (cell row c) ++ encode_row cols row

abbrev pub encode_rows : List Bytes → List (List (Bytes × Bytes)) → Bytes
encode_rows cols [] = []
encode_rows cols (row ∷ rows) = encode_row cols row ++ encode_rows cols rows

-- `byte(len(cols))` keeps the low eight bits of the count.
unfoldable pub encode_result : List Bytes → List (List (Bytes × Bytes)) → Bytes
unfolding encode_message
encode_result cols rows =
    encode_message msg_result ((length cols % 256) ∷ (encode_cols cols ++ encode_rows cols rows))
