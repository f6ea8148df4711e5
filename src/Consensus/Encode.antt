-- ===== src/Consensus/Encode.antt =====
-- `to_bytes` of inputs, outputs, transactions and blocks, transaction ids and block hashes
-- (blockchaincoin/consensus.py).
use blockchain_coin.Shared.{
  ℕ, Bool, true, false, Option, none, some, List, [], ◌∷◌, ◌++◌, length, if◌then◌else◌, pos, Result,
  ok, bind,
}
use blockchain_coin.Text.{Text, Bytes, codes, text_eq}
use blockchain_coin.Failure.{Error}
use blockchain_coin.Codec.Words.{be_bytes}
use blockchain_coin.Codec.Encode.{
  Encoded, encode_int, encode_uint, encode_float, encode_bytes, encode_text, encode_hash,
  encode_all,
}
use blockchain_coin.Crypto.{Primitives, sha256_hex}
use blockchain_coin.Consensus.Types.{OutPoint, TxInput, TxOutput, Transaction, Block}

infixl 5 ◌>>=◌
abbrev ◌>>=◌ {ℓ} :
    {A : Type 0} {B : Type ℓ} → Result Error A → (A → Result Error B) → Result Error B
◌>>=◌ = bind

-- BINARY_CODEC_VERSION
abbrev pub codec_version : ℕ
codec_version = 1

-- `OutPoint.to_bytes`
unfoldable pub outpoint_bytes : OutPoint → Encoded
outpoint_bytes p = do txid ← encode_hash p.txid; index ← encode_int p.index; ok (txid ++ index)

-- A field that may be missing: a flag byte, and the field where it is there.
unfoldable pub optional_text : Option Text → Encoded
optional_text none = ok (0 ∷ [])
optional_text (some text) = do raw ← encode_text text; ok (1 ∷ raw)

-- `public_key.get(name, "")`
unfoldable pub get_text : Text → List (Text × Text) → Text
get_text name [] = []
get_text name ((k, v) ∷ fields) = if text_eq k name then v else get_text name fields

unfoldable pub public_key_bytes : Option (List (Text × Text)) → Encoded
public_key_bytes none = ok (0 ∷ [])
public_key_bytes (some fields) = do
  algorithm ← encode_text (get_text (codes "algorithm") fields)
  key ← encode_text (get_text (codes "key") fields)
  ok (1 ∷ (algorithm ++ key))

-- `TxInput.to_bytes`
unfoldable pub input_bytes : Bool → TxInput → Encoded
unfolding outpoint_bytes
input_bytes false i = outpoint_bytes i.previous_output
input_bytes true i = do
  outpoint ← outpoint_bytes i.previous_output
  signature ← optional_text i.signature
  public_key ← public_key_bytes i.public_key
  ok (outpoint ++ (signature ++ public_key))

-- `TxOutput.to_bytes`
unfoldable pub output_bytes : TxOutput → Encoded
output_bytes o = do
  amount ← encode_uint o.amount
  address ← encode_text o.address
  ok (amount ++ address)

abbrev pub transaction_magic_bytes : Bytes
transaction_magic_bytes = codes "bcctx"

abbrev pub block_magic_bytes : Bytes
block_magic_bytes = codes "bccblk"

-- `ConsensusTransaction.to_bytes`
unfoldable pub transaction_bytes : Bool → Transaction → Encoded
transaction_bytes include_witness t = do
  version ← encode_int t.version
  input_count ← encode_uint (pos (length t.inputs))
  inputs ← encode_all (input_bytes include_witness) t.inputs
  output_count ← encode_uint (pos (length t.outputs))
  outputs ← encode_all output_bytes t.outputs
  ok (
      transaction_magic_bytes
      ++ (be_bytes 2 codec_version
          ++ (version ++ (input_count ++ (inputs ++ (output_count ++ outputs))))))

-- `ConsensusBlock.header_bytes`
unfoldable pub header_bytes : Block → Encoded
header_bytes b = do
  version ← encode_int b.version
  height ← encode_int b.height
  previous_hash ← encode_hash b.previous_hash
  transaction_root ← encode_hash b.transaction_root
  difficulty ← encode_int b.difficulty
  nonce ← encode_int b.nonce
  ok (
      block_magic_bytes
      ++ (be_bytes 2 codec_version
          ++ (version
              ++ (height
                  ++ (previous_hash
                      ++ (transaction_root
                          ++ (difficulty ++ (encode_float b.timestamp ++ nonce))))))))

unfoldable pub framed_transaction : Transaction → Encoded
framed_transaction t = do raw ← transaction_bytes true t; encode_bytes raw

-- `ConsensusBlock.to_bytes`
unfoldable pub block_bytes : Block → Encoded
block_bytes b = do
  header ← header_bytes b
  count ← encode_uint (pos (length b.transactions))
  transactions ← encode_all framed_transaction b.transactions
  ok (header ++ (count ++ transactions))

module _ ⦃prim : Primitives⦄ where
  -- `ConsensusTransaction.txid`
  unfoldable pub txid : Transaction → Result Error Text
  txid t = do raw ← transaction_bytes true t; ok (sha256_hex raw)

  -- `ConsensusBlock.hash`
  unfoldable pub block_hash : Block → Result Error Text
  block_hash b = do raw ← header_bytes b; ok (sha256_hex raw)
