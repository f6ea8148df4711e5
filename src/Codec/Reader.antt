-- ===== src/Codec/Reader.antt =====
-- `_ByteReader` of blockchaincoin/consensus.py and `_decode_int` to `_decode_text`.
use blockchain_coin.Shared.{
  ℕ, zero, suc, ◌+◌, List, [], ◌∷◌, length, take, drop, eqb, ltb, if◌then◌else◌, ℤ, Result, ok, err,
  bind, some, none,
}
use blockchain_coin.Text.{Text, Bytes}
use blockchain_coin.Failure.{Error, truncated, trailing_bytes, text_not_utf8}
use blockchain_coin.Codec.Words.{be_value, signed64}
use blockchain_coin.Codec.Utf8

pub record ByteReader : Type 0 where
  pub payload : Bytes
  pub offset : ℕ

abbrev pub new_reader : Bytes → ByteReader
new_reader bytes = record { payload = bytes; offset = 0 }

-- A call on the reader: its value and the reader after it, or the exception.
abbrev pub Decoder {ℓ} : Type ℓ → Type ℓ
Decoder A = ByteReader → Result Error (A × ByteReader)

infixl 5 ◌>>=◌ ◌>>◌
-- Shut, so that a decoder keeps the shape in which it was written.
unfoldable pub ◌>>=◌ {ℓ κ} : {A : Type ℓ} {B : Type κ} → Decoder A → (A → Decoder B) → Decoder B
◌>>=◌ m f r = bind (m r) λ (a, r'). f a r'

abbrev pub ◌>>◌ {ℓ} : {A : Type 0} {B : Type ℓ} → Decoder A → Decoder B → Decoder B
m >> k = m >>= λ _. k

unfoldable pub pure {ℓ} : {A : Type ℓ} → A → Decoder A
pure a r = ok (a, r)

unfoldable pub fail {ℓ} : {A : Type ℓ} → Error → Decoder A
fail e r = err e

-- `payload[offset : offset + size]`; sizes come from unsigned fields, so none is negative.
unfoldable pub read : ℕ → Decoder Bytes
read size r =
    let end = r.offset + size in
    if ltb (length r.payload) end
    then err truncated
    else ok (take size (drop r.offset r.payload), record r { offset = end })

unfoldable pub require_finished : Decoder (Unit {0})
require_finished r = if eqb r.offset (length r.payload) then ok (tt, r) else err trailing_bytes

unfoldable pub decode_int : Decoder ℤ
decode_int = do raw ← read 8; pure (signed64 (be_value raw))

unfoldable pub decode_uint : Decoder ℕ
decode_uint = do raw ← read 8; pure (be_value raw)

unfoldable pub decode_float : Decoder ℕ
decode_float = do raw ← read 8; pure (be_value raw)

unfoldable pub decode_bytes : Decoder Bytes
decode_bytes = do size ← read 4; read (be_value size)

unfoldable pub decode_text : Decoder Text
decode_text = do
  raw ← decode_bytes
  elim (Utf8.decode raw) [ none ↦ fail text_not_utf8 | some text ↦ pure text ]

-- `tuple(item(reader) for _ in range(count))`
unfoldable pub repeat : {A : Type 0} → ℕ → Decoder A → Decoder (List A)
repeat zero item = pure []
repeat (suc n) item = do x ← item; xs ← repeat n item; pure (x ∷ xs)
