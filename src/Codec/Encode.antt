-- ===== src/Codec/Encode.antt =====
-- `_encode_int` to `_encode_hash` of blockchaincoin/consensus.py.
use blockchain_coin.Shared.{
  ℕ, ◌-◌, ◌^◌, List, [], ◌∷◌, ◌++◌, length, ltb, eqb, if◌then◌else◌, ℤ, pos, ltb_ℤ, pos_part,
  Result, ok, err, bind, some, none,
}
use blockchain_coin.Text.{Text, Bytes}
use blockchain_coin.Failure.{
  Error, unsigned_negative, field_too_large, hash_not_hexadecimal, hash_length, struct_error,
  unicode_encode_error,
}
use blockchain_coin.Codec.Words.{be_bytes, word64, fits_int64}
use blockchain_coin.Codec.Hex.{fromhex}
use blockchain_coin.Codec.Utf8

-- What a codec raises or returns.
abbrev pub Encoded : Type 0
Encoded = Result Error Bytes

unfoldable pub encode_int : ℤ → Encoded
encode_int value = if fits_int64 value then ok (be_bytes 8 (word64 value)) else err struct_error

unfoldable pub encode_uint : ℤ → Encoded
encode_uint value =
    if ltb_ℤ value (pos 0)
    then err unsigned_negative
    else if ltb (pos_part value) (2 ^ 64)
    then ok (be_bytes 8 (pos_part value))
    else err struct_error

-- A float is its 64-bit pattern, which `struct.pack(">d", value)` writes.
unfoldable pub encode_float : ℕ → Bytes
encode_float value = be_bytes 8 value

unfoldable pub encode_bytes : Bytes → Encoded
encode_bytes value =
    if ltb (2 ^ 32 - 1) (length value)
    then err field_too_large
    else ok (be_bytes 4 (length value) ++ value)

unfoldable pub encode_text : Text → Encoded
encode_text value = elim (Utf8.encode value) [
  | none ↦ err unicode_encode_error
  | some raw ↦ encode_bytes raw
]

unfoldable pub encode_hash : Text → Encoded
encode_hash value = elim (fromhex value) [
  | none ↦ err hash_not_hexadecimal
  | some raw ↦ if eqb (length raw) 32 then ok raw else err hash_length
]

-- The loops of `to_bytes` that append one encoded item after another.
unfoldable pub encode_all : {A : Type 0} → (A → Encoded) → List A → Encoded
encode_all item [] = ok []
encode_all item (x ∷ xs) = bind (item x) λ raw. bind (encode_all item xs) λ rest. ok (raw ++ rest)
