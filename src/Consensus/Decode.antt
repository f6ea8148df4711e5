-- ===== src/Consensus/Decode.antt =====
-- `from_reader` and `from_bytes` of outpoints, inputs, outputs, transactions and blocks
-- (blockchaincoin/consensus.py).
use blockchain_coin.Shared.{
  Bool, true, false, Option, none, some, List, [], ◌∷◌, if◌then◌else◌, pos, eqb, Result, ok, bind,
}
use blockchain_coin.Text.{Text, Bytes, codes, text_eq}
use blockchain_coin.Failure.{
  Error, signature_flag, public_key_flag, transaction_magic, transaction_codec, block_magic,
  block_codec,
}
use blockchain_coin.Codec.Words.{be_value}
use blockchain_coin.Codec.Hex.{hex}
use blockchain_coin.Codec.Reader.{
  Decoder, ◌>>=◌, ◌>>◌, pure, fail, new_reader, read, require_finished, decode_int, decode_uint,
  decode_float, decode_bytes, decode_text, repeat,
}
use blockchain_coin.Consensus.Types.{OutPoint, TxInput, TxOutput, Transaction, Block}
use blockchain_coin.Consensus.Encode.{codec_version, transaction_magic_bytes, block_magic_bytes}

-- `OutPoint.from_reader`
unfoldable pub outpoint_from_reader : Decoder OutPoint
outpoint_from_reader = do
  raw ← read 32
  number ← decode_int
  pure (record { txid = hex raw; index = number })

-- The flag byte of a field that may be missing, and the field.
unfoldable pub optional_from_reader : {A : Type 0} → Error → Decoder A → Decoder (Option A)
optional_from_reader bad_flag item = do
  flag ← read 1
  if text_eq flag (1 ∷ [])
      then (item >>= λ value. pure (some value))
      else if text_eq flag (0 ∷ [])
      then pure none
      else fail bad_flag

unfoldable pub key_from_reader : Decoder (List (Text × Text))
key_from_reader = do
  algorithm ← decode_text
  key ← decode_text
  pure ((codes "algorithm", algorithm) ∷ (codes "key", key) ∷ [])

-- `TxInput.from_reader`
unfoldable pub input_from_reader : Bool → Decoder TxInput
input_from_reader false = do
  outpoint ← outpoint_from_reader
  pure (record { previous_output = outpoint; signature = none; public_key = none })
input_from_reader true = do
  outpoint ← outpoint_from_reader
  signed ← optional_from_reader signature_flag decode_text
  key ← optional_from_reader public_key_flag key_from_reader
  pure (record { previous_output = outpoint; signature = signed; public_key = key })

-- `TxOutput.from_reader`
unfoldable pub output_from_reader : Decoder TxOutput
output_from_reader = do
  value ← decode_uint
  owner ← decode_text
  pure (record { amount = pos value; address = owner })

-- `if not test: raise`
abbrev pub require : Bool → Error → Decoder (Unit {0})
require test e = if test then pure tt else fail e

-- `ConsensusTransaction.from_bytes`, on the reader that it makes
unfoldable pub transaction_from_reader : Bool → Decoder Transaction
transaction_from_reader include_witness = do
  magic ← read 5
  require (text_eq magic transaction_magic_bytes) transaction_magic
  codec ← read 2
  require (eqb (be_value codec) codec_version) transaction_codec
  transaction_version ← decode_int
  input_count ← decode_uint
  ins ← repeat input_count (input_from_reader include_witness)
  output_count ← decode_uint
  outs ← repeat output_count output_from_reader
  require_finished
  pure (record { inputs = ins; outputs = outs; version = transaction_version })

unfoldable pub transaction_from_bytes : Bool → Bytes → Result Error Transaction
transaction_from_bytes include_witness payload =
    bind (transaction_from_reader include_witness (new_reader payload)) λ (t, _). ok t

-- `ConsensusTransaction.from_bytes(_decode_bytes(reader))`
unfoldable pub framed_from_reader : Decoder Transaction
framed_from_reader = do
  raw ← decode_bytes
  λ r. bind (transaction_from_bytes true raw) λ t. ok (t, r)

-- `ConsensusBlock.from_bytes`, on the reader that it makes
unfoldable pub block_from_reader : Decoder Block
block_from_reader = do
  magic ← read 6
  require (text_eq magic block_magic_bytes) block_magic
  codec ← read 2
  require (eqb (be_value codec) codec_version) block_codec
  block_version ← decode_int
  block_height ← decode_int
  parent ← read 32
  root ← read 32
  block_difficulty ← decode_int
  stamp ← decode_float
  block_nonce ← decode_int
  count ← decode_uint
  members ← repeat count framed_from_reader
  require_finished
  pure (record {
    height = block_height;
    previous_hash = hex parent;
    transactions = members;
    difficulty = block_difficulty;
    timestamp = stamp;
    nonce = block_nonce;
    transaction_root = hex root;
    version = block_version;
  })

unfoldable pub block_from_bytes : Bytes → Result Error Block
block_from_bytes payload = bind (block_from_reader (new_reader payload)) λ (b, _). ok b
