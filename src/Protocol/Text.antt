-- ===== src/Protocol/Text.antt =====
-- Length-prefixed strings, the lengths at which reading one panics, and the frame of a result set.
use svacara_db.Prelude.{
  ℕ, zero, suc, ◌+◌, ◌%◌, ◌^◌, ◌≤◌, ◌<◌, ◌≡◌, refl, ap, ◌∙◌, arith, some, List, [], ◌∷◌, ◌++◌,
  length, All, take, drop, take-append, drop-append, length-append, append-nil, append_assoc,
  Outcome, ok, panic, ◌>>=◌,
}
use svacara_db.Bytes.{Bytes}
use svacara_db.Bytes.Endian.{be_bytes, be_value, length-be_bytes, be_value-be_bytes}
use svacara_db.Protocol.{
  slice, slice-middle, msg_result, encode_string, decode_string, decode_message, cell, encode_cols,
  encode_row, encode_rows, encode_result,
}
use svacara_db.Protocol.Message.{decode-encode_message}

length_field : (n : ℕ) (rest : Bytes) → n < 2 ^ 16 → be_value (take 2 (be_bytes 2 n ++ rest)) ≡ n
length_field n rest h =
    rw (take-append 2 (be_bytes 2 n) rest (length-be_bytes 2 n))
      (be_value-be_bytes 2 n (omega arith))

decode_at :
    (input s : Bytes) (n : ℕ)
    → be_value (take 2 input) ≡ n
    → 2 + n ≤ length input
    → 2 + n < 2 ^ 16
    → slice input 2 (2 + n) ≡ ok s
    → decode_string input ≡ ok (s, 2 + n)
unfolding decode_string
decode_at input s n e fits small h =
    let wrap : (2 + n) % 2 ^ 16 ≡ 2 + n = omega arith in rw (e, wrap, h) (ground arith)

decode_wraps :
    (input : Bytes) (n : ℕ)
    → be_value (take 2 input) ≡ n
    → 2 + n ≤ length input
    → n < 2 ^ 16
    → 2 ^ 16 ≤ 2 + n
    → decode_string input ≡ panic
unfolding decode_string
decode_wraps input n e fits top over = rw e (ground arith)

pub length-encode_string : (s : Bytes) → length (encode_string s) ≡ 2 + length s
unfolding encode_string
length-encode_string s =
    omega (
      arith,
      length-append (be_bytes 2 (length s % 2 ^ 16)) s,
      length-be_bytes 2 (length s % 2 ^ 16),
    )

-- A string of fewer than 65534 bytes reads back with the number of bytes that it took, whatever
-- bytes follow it.
pub decode-encode_string :
    (s rest : Bytes)
    → length s < 65534
    → decode_string (encode_string s ++ rest) ≡ ok (s, length (encode_string s))
decode-encode_string s rest h = rw length-encode_string (
    unfold encode_string in
    let small : length s % 2 ^ 16 ≡ length s = omega arith in
    rw append_assoc (
      decode_at (be_bytes 2 (length s % 2 ^ 16) ++ (s ++ rest)) s (length s)
        (length_field (length s % 2 ^ 16) (s ++ rest) (omega arith) ∙ small)
        (omega (
          arith,
          length-append (be_bytes 2 (length s % 2 ^ 16)) (s ++ rest),
          length-append s rest,
          length-be_bytes 2 (length s % 2 ^ 16),
        ))
        (omega arith)
        (slice-middle (be_bytes 2 (length s % 2 ^ 16)) s rest 2 (2 + length s)
          (length-be_bytes 2 (length s % 2 ^ 16)) refl)))

-- Reading back an encoded string of 65534 or 65535 bytes panics: the end of the slice, `2+length`,
-- is computed in a uint16 and wraps to 0 or 1.
pub decode-encode_string_wraps :
    (s rest : Bytes)
    → 65534 ≤ length s
    → length s < 65536
    → decode_string (encode_string s ++ rest) ≡ panic
unfolding encode_string
decode-encode_string_wraps s rest lo hi =
    let small : length s % 2 ^ 16 ≡ length s = omega arith in
    rw append_assoc (
      decode_wraps (be_bytes 2 (length s % 2 ^ 16) ++ (s ++ rest)) (length s)
        (length_field (length s % 2 ^ 16) (s ++ rest) (omega arith) ∙ small)
        (omega (
          arith,
          length-append (be_bytes 2 (length s % 2 ^ 16)) (s ++ rest),
          length-append s rest,
          length-be_bytes 2 (length s % 2 ^ 16),
        ))
        hi (omega arith))

-- A client that reads `n` strings one after the other.
unfoldable pub read_strings : ℕ → Bytes → Outcome (List Bytes × Bytes)
read_strings zero input = ok ([], input)
read_strings (suc n) input = decode_string input >>= λ r.
    read_strings n (drop r.1 input) >>= λ more. ok (r.0 ∷ more.0, more.1)

abbrev pub IsShort : Bytes → Type 0
IsShort s = length s < 65534

-- The strings of a result frame, in the order in which they are written.
abbrev pub row_cells : List Bytes → List (Bytes × Bytes) → List Bytes
row_cells [] row = []
row_cells (c ∷ cols) row = cell row c ∷ row_cells cols row

abbrev pub all_cells : List Bytes → List (List (Bytes × Bytes)) → List Bytes
all_cells cols [] = []
all_cells cols (row ∷ rows) = row_cells cols row ++ all_cells cols rows

read_strings-encode_cols :
    (ss : List Bytes) (rest : Bytes)
    → All IsShort ss
    → read_strings (length ss) (encode_cols ss ++ rest) ≡ ok (ss, rest)
unfolding read_strings
read_strings-encode_cols [] rest h = refl
read_strings-encode_cols (s ∷ ss) rest (h, hs) = rw (
  append_assoc,
  decode-encode_string s (encode_cols ss ++ rest) h,
  drop-append (length (encode_string s)) (encode_string s) (encode_cols ss ++ rest) refl,
  read_strings-encode_cols ss rest hs,
)

encode_cols-append :
    (ss ts : List Bytes) → encode_cols (ss ++ ts) ≡ encode_cols ss ++ encode_cols ts
encode_cols-append [] ts = refl
encode_cols-append (s ∷ ss) ts = rw (encode_cols-append ss ts, append_assoc)

encode_row-cells :
    (cols : List Bytes) (row : List (Bytes × Bytes))
    → encode_row cols row ≡ encode_cols (row_cells cols row)
encode_row-cells [] row = refl
encode_row-cells (c ∷ cols) row =
    ap (λ l. encode_string (cell row c) ++ l) (encode_row-cells cols row)

encode_rows-cells :
    (cols : List Bytes) (rows : List (List (Bytes × Bytes)))
    → encode_rows cols rows ≡ encode_cols (all_cells cols rows)
encode_rows-cells cols [] = refl
encode_rows-cells cols (row ∷ rows) = rw (
  encode_cols-append (row_cells cols row) (all_cells cols rows),
  encode_row-cells cols row,
  encode_rows-cells cols rows,
)

abbrev pub result_payload : List Bytes → List (List (Bytes × Bytes)) → Bytes
result_payload cols rows = (length cols % 256) ∷ (encode_cols cols ++ encode_rows cols rows)

All-append : (ss ts : List Bytes) → All IsShort ss → All IsShort ts → All IsShort (ss ++ ts)
All-append [] ts h k = k
All-append (s ∷ ss) ts (h, hs) k = (h, All-append ss ts hs k)

-- A result set whose names and cells are below 65534 bytes, with a payload below 2 ^ 32 - 5 bytes,
-- arrives as a frame of type `MsgResult`; behind the byte with the number of columns, reading
-- strings gives the column names and then the cells row by row, and uses up the payload.
pub decode-encode_result :
    (cols : List Bytes) (rows : List (List (Bytes × Bytes)))
    → All IsShort cols
    → All IsShort (all_cells cols rows)
    → length (result_payload cols rows) + 5 < 2 ^ 32
    → (decode_message (encode_result cols rows) ≡ ok (some (msg_result, result_payload cols rows)))
      × (read_strings (length (cols ++ all_cells cols rows)) (drop 1 (result_payload cols rows))
          ≡ ok (cols ++ all_cells cols rows, []))
unfolding encode_result
decode-encode_result cols rows hc hr small = (
  rw append-nil at (decode-encode_message msg_result (result_payload cols rows) [] small),
  rw (encode_rows-cells cols rows, ← encode_cols-append cols (all_cells cols rows))
      (rw append-nil at (
        read_strings-encode_cols (cols ++ all_cells cols rows) []
          (All-append cols (all_cells cols rows) hc hr))),
)
