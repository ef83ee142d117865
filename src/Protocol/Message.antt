-- ===== src/Protocol/Message.antt =====
-- Frames read back as they were written, and incomplete frames are refused.
use svacara_db.Prelude.{
  ℕ, ◌+◌, ◌%◌, ◌^◌, ◌≤◌, ◌<◌, ◌≡◌, refl, ◌∙◌, arith, some, ◌∷◌, ◌++◌, length, take, take-append,
  length-append, append_assoc, ok,
}
use svacara_db.Bytes.{Bytes}
use svacara_db.Bytes.Endian.{be_bytes, be_value, length-be_bytes, be_value-be_bytes}
use svacara_db.Protocol.{slice, slice-middle, encode_message, decode_message}

-- The length field of a frame, whatever follows it.
length_field : (n : ℕ) (rest : Bytes) → n < 2 ^ 32 → be_value (take 4 (be_bytes 4 n ++ rest)) ≡ n
length_field n rest h =
    rw (take-append 4 (be_bytes 4 n) rest (length-be_bytes 4 n))
      (be_value-be_bytes 4 n (omega arith))

decode_at :
    (t : ℕ) (tail payload : Bytes) (n : ℕ)
    → be_value (take 4 tail) ≡ n
    → 5 + n ≤ length (t ∷ tail)
    → 5 + n < 2 ^ 32
    → slice (t ∷ tail) 5 (5 + n) ≡ ok payload
    → decode_message (t ∷ tail) ≡ ok (some (t, payload))
unfolding decode_message
decode_at t tail payload n e fits small s =
    let wrap : (5 + n) % 2 ^ 32 ≡ 5 + n = omega arith in rw (e, wrap, s) (ground arith)

-- A message whose payload is below 2 ^ 32 - 5 bytes decodes to its type and payload, whatever bytes
-- follow it in the buffer.
pub decode-encode_message :
    (t : ℕ) (payload rest : Bytes)
    → length payload + 5 < 2 ^ 32
    → decode_message (encode_message t payload ++ rest) ≡ ok (some (t, payload))
unfolding encode_message
decode-encode_message t payload rest h =
    let n : ℕ = length payload in
    let field : Bytes = be_bytes 4 (n % 2 ^ 32) in
    let small : n % 2 ^ 32 ≡ n = omega arith in
    rw (append_assoc) (
      decode_at t (field ++ (payload ++ rest)) payload n
        (length_field (n % 2 ^ 32) (payload ++ rest) (omega arith) ∙ small)
        (omega (
          arith,
          length-append field (payload ++ rest),
          length-append payload rest,
          length-be_bytes 4 (n % 2 ^ 32),
        ))
        (omega arith)
        (slice-middle (t ∷ field) payload rest 5 (5 + n)
          (omega (arith, length-be_bytes 4 (n % 2 ^ 32))) refl))
