-- ===== src/Consensus/RoundTrip.antt =====
-- What `to_bytes` wrote, `from_bytes` reads back: inputs, outputs and transactions
-- (blockchaincoin/consensus.py).
pub mod Blocks
use blockchain_coin.Shared.{
  ℕ, zero, suc, ◌+◌, ◌^◌, ◌≤◌, ◌<◌, ◌≡◌, refl, ap, sym, ◌∙◌, Bool, true, false, List, [], ◌∷◌, ◌++◌,
  arith, append_assoc, append-nil, length, eqb, if◌then◌else◌, ℤ, pos, pos_part, Result, ok, err,
  bind, some, none, subst, Bool-cases, inl, inr, Option-cases, map, All, bind-eq-ok, beq_self,
  Option,
}
use blockchain_coin.Text.{Text, Bytes, codes, text_eq, text_equality}
use blockchain_coin.Failure.{Error, signature_flag, public_key_flag}
use blockchain_coin.Codec.Words.{be_bytes, be_value, length-be_bytes}
use blockchain_coin.Codec.Hex.{hex}
use blockchain_coin.Codec.Encode.{
  Encoded, encode_int, encode_uint, encode_text, encode_hash, encode_all,
}
use blockchain_coin.Codec.Reader.{
  ByteReader, new_reader, Decoder, ◌>>=◌, ◌>>◌, pure, fail, read, require_finished, decode_int,
  decode_uint, decode_float, decode_bytes, decode_text, repeat,
}
use blockchain_coin.Codec.Reads.{
  At, At-new, Finishes, Finishes-bind, Finishes-end, Finishes-ok, Finishes-last, Reads, Reads-pure,
  Reads-bind, Reads-map, Reads-ok, Reads-value, read-Reads, read-Reads_of_length,
}
use blockchain_coin.Codec.Fields.{
  word-Reads, encode_int-Reads, encode_uint-Reads, encode_uint-eq-ok, encode_float-Reads,
  encode_bytes-Reads, encode_text-Reads, IsLowerHex, encode_hash-Reads, encode_all-Reads,
}
use blockchain_coin.Consensus.Types.{OutPoint, TxInput, TxOutput, Transaction, Block}
use blockchain_coin.Consensus.Encode.{
  codec_version, outpoint_bytes, optional_text, get_text, public_key_bytes, input_bytes,
  output_bytes, transaction_magic_bytes, block_magic_bytes, transaction_bytes, header_bytes,
  framed_transaction, block_bytes,
}
use blockchain_coin.Consensus.Decode.{
  require, outpoint_from_reader, optional_from_reader, key_from_reader, input_from_reader,
  output_from_reader, transaction_from_reader, transaction_from_bytes, framed_from_reader,
  block_from_reader, block_from_bytes,
}

-- A public key as the decoder builds it: the two entries, in order.
abbrev pub IsKeyFields : Option (List (Text × Text)) → Type 0
IsKeyFields none = Unit
IsKeyFields (some fields) =
    (algorithm : Text) × (key : Text) × (fields
      ≡ (codes "algorithm", algorithm) ∷ (codes "key", key) ∷ [])

abbrev pub IsCanonicalInput : TxInput → Type 0
IsCanonicalInput i = IsLowerHex i.previous_output.txid × IsKeyFields i.public_key

outpoint-Reads :
    (p : OutPoint) {bs : Bytes}
    → outpoint_bytes p ≡ ok bs
    → IsLowerHex p.txid
    → Reads outpoint_from_reader bs p
unfolding outpoint_bytes outpoint_from_reader
outpoint-Reads p h lower =
    let (raw, e, h') = bind-eq-ok (encode_hash p.txid) _ h in
    let (number, e', h'') = bind-eq-ok (encode_int p.index) _ h' in
    let (reads, same) = encode_hash-Reads p.txid e lower in
    let point : OutPoint = record { txid = hex raw; index = p.index } in
    let same' : point ≡ p =
      ap (λ (t : Text). let q : OutPoint = record { txid = t; index = p.index } in q) same in
    Reads-ok h'' (
      Reads-value same' (
        Reads-bind _ reads (
          Reads-map (λ n. let q : OutPoint = record { txid = hex raw; index = n } in q)
            (encode_int-Reads p.index e'))))

flag-Reads :
    {A : Type 0} (bad : Error) (decoder : Decoder A) (x : A) {bs : Bytes}
    → Reads decoder bs x
    → Reads (optional_from_reader bad decoder) (1 ∷ bs) (some x)
unfolding optional_from_reader
flag-Reads bad decoder x h = Reads-bind _ (read-Reads (1 ∷ [])) (unfold text_eq in Reads-map some h)

no_flag-Reads :
    {A : Type 0} (bad : Error) (decoder : Decoder A)
    → Reads (optional_from_reader bad decoder) (0 ∷ []) none
unfolding optional_from_reader
no_flag-Reads bad decoder = Reads-bind _ (read-Reads (0 ∷ [])) (unfold text_eq in Reads-pure none)

signature-Reads :
    (signature : Option Text) {bs : Bytes}
    → optional_text signature ≡ ok bs
    → Reads (optional_from_reader signature_flag decode_text) bs signature
unfolding optional_text
signature-Reads none h = Reads-ok h (no_flag-Reads signature_flag decode_text)
signature-Reads (some t) h =
    let (raw, e, h') = bind-eq-ok (encode_text t) _ h in
    Reads-ok h' (flag-Reads signature_flag decode_text t (encode_text-Reads t e))

key-Reads :
    (public_key : Option (List (Text × Text))) {bs : Bytes}
    → public_key_bytes public_key ≡ ok bs
    → IsKeyFields public_key
    → Reads (optional_from_reader public_key_flag key_from_reader) bs public_key
unfolding public_key_bytes key_from_reader get_text text_eq
key-Reads none h canonical = Reads-ok h (no_flag-Reads public_key_flag key_from_reader)
key-Reads (some fields) {bs} h (algorithm, key, e) =
    let h₁ = rw e at h in
    let (a, ea, h₂) = bind-eq-ok (encode_text algorithm) _ h₁ in
    let (k, ek, h₃) = bind-eq-ok (encode_text key) _ h₂ in
    rw e (
      Reads-ok h₃ (
        flag-Reads public_key_flag key_from_reader _ (
          Reads-bind _ (encode_text-Reads algorithm ea) (
            Reads-map (λ t. (codes "algorithm", algorithm) ∷ (codes "key", t) ∷ [])
              (encode_text-Reads key ek)))))

-- An input with its witness is read back.
pub input-Reads :
    (i : TxInput) {bs : Bytes}
    → input_bytes true i ≡ ok bs
    → IsCanonicalInput i
    → Reads (input_from_reader true) bs i
unfolding input_bytes input_from_reader
input-Reads i h (lower, fields) =
    let (point, e₁, h₁) = bind-eq-ok (outpoint_bytes i.previous_output) _ h in
    let (signature, e₂, h₂) = bind-eq-ok (optional_text i.signature) _ h₁ in
    let (key, e₃, h₃) = bind-eq-ok (public_key_bytes i.public_key) _ h₂ in
    Reads-ok h₃ (
      Reads-bind _ (outpoint-Reads i.previous_output e₁ lower) (
        Reads-bind _ (signature-Reads i.signature e₂) (
          Reads-map
            (λ k.
              let j : TxInput = record {
                previous_output = i.previous_output;
                signature = i.signature;
                public_key = k;
              } in
              j)
            (key-Reads i.public_key e₃ fields))))

pub output-Reads :
    (o : TxOutput) {bs : Bytes} → output_bytes o ≡ ok bs → Reads output_from_reader bs o
unfolding output_bytes output_from_reader
output-Reads o h =
    let (value, e₁, h₁) = bind-eq-ok (encode_uint o.amount) _ h in
    let (owner, e₂, h₂) = bind-eq-ok (encode_text o.address) _ h₁ in
    let (n, e, _, _) = encode_uint-eq-ok o.amount e₁ in
    let same : pos (pos_part o.amount) ≡ o.amount = cc in
    let make = λ (v : ℤ) (t : Text). let q : TxOutput = record { amount = v; address = t } in q in
    Reads-ok h₂ (
      Reads-value (ap (λ v. make v o.address) same) (
        Reads-bind _ (encode_uint-Reads o.amount e₁)
          (Reads-map (make (pos (pos_part o.amount))) (encode_text-Reads o.address e₂))))

-- A transaction whose text the decoder would have written in the same way.
abbrev pub IsCanonical : Transaction → Type 0
IsCanonical t = All IsCanonicalInput t.inputs

inputs-Reads :
    (is : List TxInput)
    → All IsCanonicalInput is
    → All
        (λ i. (raw : Bytes) → input_bytes true i ≡ ok raw → Reads (input_from_reader true) raw i)
        is
inputs-Reads [] h = tt
inputs-Reads (i ∷ is) h = ((λ raw e. input-Reads i e h.0), inputs-Reads is h.1)

outputs-Reads :
    (os : List TxOutput)
    → All (λ o. (raw : Bytes) → output_bytes o ≡ ok raw → Reads output_from_reader raw o) os
outputs-Reads [] = tt
outputs-Reads (o ∷ os) = ((λ raw e. output-Reads o e), outputs-Reads os)

-- A check that passes reads nothing.
pub require-Finishes :
    {A : Type 0} (test : Bool) (bad : Error) {k : Decoder A} {bs : Bytes} {a : A}
    → test ≡ true
    → Finishes k bs a
    → Finishes (require test bad >>= λ _. k) bs a
require-Finishes test bad {k} e rest = rw e (Finishes-bind (λ _. k) (Reads-pure tt) rest)

pub codec-Reads : Reads (read 2) (be_bytes 2 codec_version) (be_bytes 2 codec_version)
codec-Reads = read-Reads_of_length 2 (be_bytes 2 codec_version) (length-be_bytes 2 codec_version)

pub codec_checks : eqb (be_value (be_bytes 2 codec_version)) codec_version ≡ true
unfolding be_value be_bytes
codec_checks = refl

transaction-Finishes :
    (t : Transaction) {bs : Bytes}
    → transaction_bytes true t ≡ ok bs
    → IsCanonical t
    → Finishes (transaction_from_reader true) bs t
unfolding transaction_bytes transaction_from_reader
transaction-Finishes t {bs} h canonical =
    let (version, e₁, h₁) = bind-eq-ok (encode_int t.version) _ h in
    let (input_count, e₂, h₂) = bind-eq-ok (encode_uint (pos (length t.inputs))) _ h₁ in
    let (ins, e₃, h₃) = bind-eq-ok (encode_all (input_bytes true) t.inputs) _ h₂ in
    let (output_count, e₄, h₄) = bind-eq-ok (encode_uint (pos (length t.outputs))) _ h₃ in
    let (outs, e₅, h₅) = bind-eq-ok (encode_all output_bytes t.outputs) _ h₄ in
    Finishes-ok h₅ (
      Finishes-bind _ (read-Reads transaction_magic_bytes) (
        require-Finishes _ _ (beq_self transaction_magic_bytes) (
          Finishes-bind _ codec-Reads (
            require-Finishes _ _ codec_checks (
              Finishes-bind _ (encode_int-Reads t.version e₁) (
                Finishes-bind _ (encode_uint-Reads (pos (length t.inputs)) e₂) (
                  Finishes-bind _
                    (encode_all-Reads (input_bytes true) (input_from_reader true) t.inputs
                      (inputs-Reads t.inputs canonical) e₃)
                    (Finishes-bind _ (encode_uint-Reads (pos (length t.outputs)) e₄) (
                      Finishes-last _
                        (encode_all-Reads output_bytes output_from_reader t.outputs
                          (outputs-Reads t.outputs) e₅)
                        (Finishes-end t))))))))))

-- A transaction whose texts the decoder would have written in the same way, and that `to_bytes` with
-- witnesses encodes, is what `from_bytes` makes of those bytes.
pub transaction_from_bytes-transaction_bytes :
    (t : Transaction) {bs : Bytes}
    → IsCanonical t
    → transaction_bytes true t ≡ ok bs
    → transaction_from_bytes true bs ≡ ok t
unfolding transaction_from_bytes
transaction_from_bytes-transaction_bytes t {bs} canonical h =
    let finishes = transaction-Finishes t h canonical in
    let (r, e) = finishes.run (new_reader bs) (At-new bs) in rw (e, bind)
