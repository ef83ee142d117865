-- ===== src/Protocol/Tests.antt =====
-- Runs of internal/protocol/protocol.go, and its theorems at concrete inputs.
use svacara_db.Prelude.{
  ℕ, zero, suc, ◌+◌, ◌≡◌, refl, ap, arith, some, List, [], ◌∷◌, ◌++◌, length, drop, ok,
}
use svacara_db.Bytes.{Bytes}
use svacara_db.Bytes.Endian.{be_bytes}
use svacara_db.Protocol.{msg_result, encode_message, decode_message, encode_string, encode_result}
use svacara_db.Protocol.Message.{decode-encode_message}
use svacara_db.Protocol.Text.{read_strings, result_payload, all_cells, decode-encode_result}

abbrev query : Bytes
query = b's' ∷ b'e' ∷ b'l' ∷ []

decode-encode_message_example :
    decode_message (encode_message 1 query ++ 9 ∷ []) ≡ ok (some (1, query))
decode-encode_message_example = decode-encode_message 1 query (9 ∷ []) (omega arith)

repeated : ℕ → Bytes
repeated zero = []
repeated (suc n) = b'a' ∷ repeated n

length-repeated : (n : ℕ) → length (repeated n) ≡ n
unfolding repeated
length-repeated zero = refl
length-repeated (suc n) = ap suc (length-repeated n)

abbrev columns : List Bytes
columns = (b'i' ∷ b'd' ∷ []) ∷ (b'n' ∷ []) ∷ []

-- The second column has no cell in the row.
abbrev rows : List (List (Bytes × Bytes))
rows = ((b'i' ∷ b'd' ∷ [], b'7' ∷ []) ∷ []) ∷ []

result_size : length (result_payload columns rows) + 5 ≡ 18
unfolding encode_string be_bytes
result_size = refl

decode-encode_result_example :
    (decode_message (encode_result columns rows)
      ≡ ok (some (msg_result, result_payload columns rows)))
    × (read_strings 4 (drop 1 (result_payload columns rows))
        ≡ ok (columns ++ all_cells columns rows, []))
decode-encode_result_example =
    decode-encode_result columns rows (omega arith) (omega arith) (omega (arith, result_size))
