-- ===== src/Codec/Fields.antt =====
-- Each field decoder of Codec/Reader.antt reads back what its encoder of Codec/Encode.antt wrote.
use blockchain_coin.Shared.{
  ℕ, ◌-◌, ◌^◌, ◌<◌, ◌≡◌, ap, sym, ◌∙◌, true, List, [], ◌∷◌, ◌++◌, arith, append-nil, length, eqb,
  ltb, if◌then◌else◌, ℤ, pos, pos_part, ok, err, some, subst, Bool-cases, inl, inr, Option-cases,
  All, bind-eq-ok,
}
use blockchain_coin.Text.{Text, Bytes}
use blockchain_coin.Failure.{hash_length}
use blockchain_coin.Codec.Words.{
  be_bytes, be_value, signed64, word64, fits_int64, be_value-be_bytes, length-be_bytes,
  signed64-word64, word64-lt,
}
use blockchain_coin.Codec.Hex.{fromhex, hex, fromhex-hex}
use blockchain_coin.Codec.Utf8
use blockchain_coin.Codec.Encode.{
  Encoded, encode_int, encode_uint, encode_float, encode_bytes, encode_text, encode_hash,
  encode_all,
}
use blockchain_coin.Codec.Reader.{
  Decoder, ◌>>=◌, pure, read, decode_int, decode_uint, decode_float, decode_bytes, decode_text,
  repeat,
}
use blockchain_coin.Codec.Reads.{
  Reads, Reads-pure, Reads-bind, Reads-map, Reads-ok, Reads-value, read-Reads_of_length,
}

-- A word of k bytes.
pub word-Reads :
    (k n : ℕ) → n < 256 ^ k → Reads (read k >>= λ raw. pure (be_value raw)) (be_bytes k n) n
word-Reads k n h =
    Reads-value (be_value-be_bytes k n h)
      (Reads-map be_value (read-Reads_of_length k (be_bytes k n) (length-be_bytes k n)))

pub encode_int-eq-ok :
    (v : ℤ) {bs : Bytes}
    → encode_int v ≡ ok bs
    → (fits_int64 v ≡ true) × (bs ≡ be_bytes 8 (word64 v))
unfolding encode_int
encode_int-eq-ok v h = elim (Bool-cases (fits_int64 v)) [
  | inl e ↦ (e, sym (cc (rw e at h)))
  | inr e ↦ absurd (cc (rw e at h))
]

-- Wherever the bytes that `encode_int` wrote of an integer stand in a payload, `decode_int` reads the
-- integer and stops behind them.
pub encode_int-Reads : (v : ℤ) {bs : Bytes} → encode_int v ≡ ok bs → Reads decode_int bs v
unfolding decode_int
encode_int-Reads v h =
    let (fits, e) = encode_int-eq-ok v h in
    let raw = be_bytes 8 (word64 v) in
    let same : signed64 (be_value raw) ≡ v =
      ap signed64 (be_value-be_bytes 8 (word64 v) (word64-lt v fits)) ∙ signed64-word64 v fits in
    rw e (
      Reads-value same (
        Reads-map (λ x. signed64 (be_value x))
          (read-Reads_of_length 8 raw (length-be_bytes 8 (word64 v)))))

pub encode_uint-eq-ok :
    (v : ℤ) {bs : Bytes}
    → encode_uint v ≡ ok bs
    → (n : ℕ) × (v ≡ pos n) × (n < 256 ^ 8) × (bs ≡ be_bytes 8 n)
unfolding encode_uint
encode_uint-eq-ok v h = (pos_part v, ground arith, ground arith, ground arith)

pub encode_uint-Reads :
    (v : ℤ) {bs : Bytes} → encode_uint v ≡ ok bs → Reads decode_uint bs (pos_part v)
unfolding decode_uint
encode_uint-Reads v {bs} h =
    let (n, e, small, e') = encode_uint-eq-ok v h in
    let same : n ≡ pos_part v = cc in rw e' (Reads-value same (word-Reads 8 n small))

pub encode_float-Reads : (t : ℕ) → t < 2 ^ 64 → Reads decode_float (encode_float t) t
unfolding decode_float encode_float
encode_float-Reads t h = word-Reads 8 t h

encode_bytes-eq-ok :
    (v : Bytes) {bs : Bytes}
    → encode_bytes v ≡ ok bs
    → (length v < 256 ^ 4) × (bs ≡ be_bytes 4 (length v) ++ v)
unfolding encode_bytes
encode_bytes-eq-ok v h = elim (Bool-cases (ltb (2 ^ 32 - 1) (length v))) [
  | inl e ↦ absurd (cc (rw e at h))
  | inr e ↦ (ground arith, sym (cc (rw e at h)))
]

pub encode_bytes-Reads : (v : Bytes) {bs : Bytes} → encode_bytes v ≡ ok bs → Reads decode_bytes bs v
unfolding decode_bytes
encode_bytes-Reads v h =
    let (small, e) = encode_bytes-eq-ok v h in
    let size = be_bytes 4 (length v) in
    rw e (
      Reads-bind (λ raw. read (be_value raw))
        (read-Reads_of_length 4 size (length-be_bytes 4 (length v)))
        (read-Reads_of_length (be_value size) v (sym (be_value-be_bytes 4 (length v) small))))

encode_text-eq-ok :
    (t : Text) {bs : Bytes}
    → encode_text t ≡ ok bs
    → (raw : Bytes) × (Utf8.encode t ≡ some raw) × (encode_bytes raw ≡ ok bs)
unfolding encode_text
encode_text-eq-ok t h = elim (Option-cases (Utf8.encode t)) [
  | inl e ↦ absurd (cc e)
  | inr (raw, e) ↦ (raw, e, rw (e, encode_text) at h)
]

-- Wherever the bytes that `encode_text` wrote of a text stand in a payload, `decode_text` reads the
-- text and stops behind them.
pub encode_text-Reads : (t : Text) {bs : Bytes} → encode_text t ≡ ok bs → Reads decode_text bs t
unfolding decode_text
encode_text-Reads t {bs} h =
    let (raw, e, h') = encode_text-eq-ok t h in
    let decoded : Utf8.decode raw ≡ some t = Utf8.decode-encode t raw e in
    subst (λ ys. Reads decode_text ys t) (append-nil bs)
      (Reads-bind _ (encode_bytes-Reads raw h') (rw decoded (Reads-pure t)))

-- The text of a hash as the decoder writes it: lowercase digits, and nothing else.
abbrev pub IsLowerHex : Text → Type 0
IsLowerHex t = (raw : Bytes) × All (λ b. b < 256) raw × (t ≡ hex raw)

encode_hash-eq-ok :
    (t : Text) (raw : Bytes) {bs : Bytes}
    → fromhex t ≡ some raw
    → encode_hash t ≡ ok bs
    → (length raw ≡ 32) × (bs ≡ raw)
unfolding encode_hash
encode_hash-eq-ok t raw {bs} parsed h =
    let h' : (if eqb (length raw) 32 then ok raw else err hash_length) ≡ ok bs =
      rw (parsed, encode_hash) at h in
    ground arith

pub encode_hash-Reads :
    (t : Text) {bs : Bytes}
    → encode_hash t ≡ ok bs
    → IsLowerHex t
    → Reads (read 32) bs bs × (hex bs ≡ t)
encode_hash-Reads t h (raw, small, e) =
    let parsed : fromhex t ≡ some raw = rw e (fromhex-hex raw small) in
    let (sized, same) = encode_hash-eq-ok t raw parsed h in
    rw same (read-Reads_of_length 32 raw sized, sym e)

-- A list of items, by how each is read.
pub encode_all-Reads :
    {A : Type 0} (item : A → Encoded) (decoder : Decoder A) (xs : List A) {bs : Bytes}
    → All (λ x. (raw : Bytes) → item x ≡ ok raw → Reads decoder raw x) xs
    → encode_all item xs ≡ ok bs
    → Reads (repeat (length xs) decoder) bs xs
unfolding encode_all repeat
encode_all-Reads item decoder [] each h = Reads-ok h (Reads-pure [])
encode_all-Reads item decoder (x ∷ xs) each h =
    let (raw, e, h') = bind-eq-ok (item x) _ h in
    let (rest, e', h'') = bind-eq-ok (encode_all item xs) _ h' in
    Reads-ok h'' (
      Reads-bind _ (each.0 raw e)
        (Reads-map (λ ys. x ∷ ys) (encode_all-Reads item decoder xs each.1 e')))
