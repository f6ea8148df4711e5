-- ===== src/Examples/MiningWitnesses.antt =====
-- A block that the second round of `_mine` finds.
use blockchain_coin.Shared.{
  ℕ, zero, suc, ◌+◌, ◌<◌, arith, ◌%◌, ◌≡◌, refl, true, some, List, [], ◌∷◌, ℤ, pos, ok, err, length,
  replicate, Result,
}
use blockchain_coin.Text.{Text, Bytes, codes, starts_with}
use blockchain_coin.Crypto.{Primitives}
use blockchain_coin.Consensus.Types.{Block, zero_hash}
use blockchain_coin.Consensus.Encode.{block_hash}
use blockchain_coin.Consensus.Merkle.{calculate_transaction_root}
use blockchain_coin.Node.Assemble.{mine}
use blockchain_coin.Node.Mining.{MeetsTarget, Misses, with_nonce, mine-returns}
use blockchain_coin.Examples.Ledger.{allocation}

byte_sum : Bytes → ℕ
byte_sum [] = 0
byte_sum (b ∷ bs) = b + byte_sum bs

-- A digest that the nonce changes.
abbrev summing : Primitives
unfolding byte_sum
summing = record {
  sha256 = λ data_bytes. replicate 32 (byte_sum data_bytes % 32);
  urlsafe_b64decode = some;
  ed25519_verify = λ key signature message. true;
}

abbrev unmined : Block
unmined = record {
  height = pos 0;
  previous_hash = zero_hash;
  transactions = allocation ∷ [];
  difficulty = pos 1;
  timestamp = 0;
  nonce = pos 27;
  transaction_root = codes "0909090909090909090909090909090909090909090909090909090909090909";
  version = pos 1;
}

rooted :
    calculate_transaction_root ⦃prim = summing⦄ unmined.transactions ≡ ok unmined.transaction_root
unfolding byte_sum blockchain_coin.Codec.Words.word64 blockchain_coin.Text.text_eq
    blockchain_coin.Text.starts_with blockchain_coin.Text.text_lt blockchain_coin.Text.join
    blockchain_coin.Codec.Encode.encode_int blockchain_coin.Codec.Encode.encode_uint
    blockchain_coin.Codec.Encode.encode_float blockchain_coin.Codec.Encode.encode_bytes
    blockchain_coin.Codec.Encode.encode_text blockchain_coin.Codec.Encode.encode_hash
    blockchain_coin.Codec.Encode.encode_all blockchain_coin.Codec.Words.be_bytes
    blockchain_coin.Codec.Utf8.encode_char blockchain_coin.Codec.Utf8.encode
    blockchain_coin.Codec.Hex.hex blockchain_coin.Codec.Hex.digit_value
    blockchain_coin.Codec.Hex.is_space blockchain_coin.Codec.Hex.fromhex
    blockchain_coin.Crypto.is_valid_address blockchain_coin.Crypto.encode_ascii
    blockchain_coin.Crypto.sha256_hex_text blockchain_coin.Crypto.b64decode
    blockchain_coin.Crypto.key_address blockchain_coin.Crypto.verify_signature
    blockchain_coin.Json.items_of blockchain_coin.Json.canonical_json
    blockchain_coin.Consensus.Types.outpoint_eq blockchain_coin.Consensus.Types.is_coinbase
    blockchain_coin.Consensus.Types.signing_message blockchain_coin.Consensus.Encode.optional_text
    blockchain_coin.Consensus.Encode.get_text blockchain_coin.Consensus.Encode.public_key_bytes
    blockchain_coin.Consensus.Encode.input_bytes blockchain_coin.Consensus.Encode.output_bytes
    blockchain_coin.Consensus.Encode.transaction_bytes blockchain_coin.Consensus.Encode.header_bytes
    blockchain_coin.Consensus.Encode.txid blockchain_coin.Consensus.Encode.block_hash
    blockchain_coin.Consensus.Utxo.add blockchain_coin.Consensus.Utxo.add_entries
    blockchain_coin.Consensus.Utxo.new_set blockchain_coin.Consensus.Utxo.copy
    blockchain_coin.Consensus.Utxo.spend blockchain_coin.Consensus.Utxo.get
    blockchain_coin.Consensus.Utxo.total blockchain_coin.Consensus.State.new_state
    blockchain_coin.Consensus.State.commit blockchain_coin.Consensus.State.validate_version
    blockchain_coin.Consensus.State.validate_each_output
    blockchain_coin.Consensus.State.validate_outputs
    blockchain_coin.Consensus.State.validate_coinbase blockchain_coin.Consensus.State.get_field
    blockchain_coin.Consensus.State.public_key_from_dict blockchain_coin.Consensus.State.witness
    blockchain_coin.Consensus.State.mem blockchain_coin.Consensus.State.spend_all
    blockchain_coin.Consensus.State.validate_input_signature
    blockchain_coin.Consensus.State.validate_inputs blockchain_coin.Consensus.State.validate_spend
    blockchain_coin.Consensus.State.validate_transaction blockchain_coin.Consensus.State.add_outputs
    blockchain_coin.Consensus.State.create_outputs
    blockchain_coin.Consensus.State.transaction_update
    blockchain_coin.Consensus.State.apply_transaction
    blockchain_coin.Consensus.State.coinbase_update
    blockchain_coin.Consensus.State.apply_block_coinbase
    blockchain_coin.Consensus.State.apply_genesis_coinbase
    blockchain_coin.Consensus.Merkle.parent_hash blockchain_coin.Consensus.Merkle.next_layer
    blockchain_coin.Consensus.Merkle.root_loop blockchain_coin.Consensus.Merkle.leaf
    blockchain_coin.Consensus.Merkle.leaves
    blockchain_coin.Consensus.Merkle.calculate_transaction_root
    blockchain_coin.Consensus.Blocks.any_coinbase blockchain_coin.Consensus.Blocks.first_is_coinbase
    blockchain_coin.Consensus.Blocks.is_genesis blockchain_coin.Consensus.Blocks.check_header
    blockchain_coin.Consensus.Blocks.apply_all blockchain_coin.Consensus.Blocks.apply_first
    blockchain_coin.Consensus.Blocks.apply_reward blockchain_coin.Consensus.Blocks.apply_body
    blockchain_coin.Consensus.Blocks.validate_block blockchain_coin.Consensus.Blocks.replay
    blockchain_coin.Consensus.Blocks.rebuild_state_from_blocks blockchain_coin.Shared.◌+ℤ◌
    blockchain_coin.Shared.◌-ℤ◌ blockchain_coin.Shared.sum
rooted = refl

missed : (i : ℕ) → i < 1 → Misses ⦃prim = summing⦄ (with_nonce unmined i)
unfolding byte_sum blockchain_coin.Codec.Words.word64 blockchain_coin.Text.text_eq
    blockchain_coin.Text.starts_with blockchain_coin.Text.text_lt blockchain_coin.Text.join
    blockchain_coin.Codec.Encode.encode_int blockchain_coin.Codec.Encode.encode_uint
    blockchain_coin.Codec.Encode.encode_float blockchain_coin.Codec.Encode.encode_bytes
    blockchain_coin.Codec.Encode.encode_text blockchain_coin.Codec.Encode.encode_hash
    blockchain_coin.Codec.Encode.encode_all blockchain_coin.Codec.Words.be_bytes
    blockchain_coin.Codec.Utf8.encode_char blockchain_coin.Codec.Utf8.encode
    blockchain_coin.Codec.Hex.hex blockchain_coin.Codec.Hex.digit_value
    blockchain_coin.Codec.Hex.is_space blockchain_coin.Codec.Hex.fromhex
    blockchain_coin.Crypto.is_valid_address blockchain_coin.Crypto.encode_ascii
    blockchain_coin.Crypto.sha256_hex_text blockchain_coin.Crypto.b64decode
    blockchain_coin.Crypto.key_address blockchain_coin.Crypto.verify_signature
    blockchain_coin.Json.items_of blockchain_coin.Json.canonical_json
    blockchain_coin.Consensus.Types.outpoint_eq blockchain_coin.Consensus.Types.is_coinbase
    blockchain_coin.Consensus.Types.signing_message blockchain_coin.Consensus.Encode.optional_text
    blockchain_coin.Consensus.Encode.get_text blockchain_coin.Consensus.Encode.public_key_bytes
    blockchain_coin.Consensus.Encode.input_bytes blockchain_coin.Consensus.Encode.output_bytes
    blockchain_coin.Consensus.Encode.transaction_bytes blockchain_coin.Consensus.Encode.header_bytes
    blockchain_coin.Consensus.Encode.txid blockchain_coin.Consensus.Encode.block_hash
    blockchain_coin.Consensus.Utxo.add blockchain_coin.Consensus.Utxo.add_entries
    blockchain_coin.Consensus.Utxo.new_set blockchain_coin.Consensus.Utxo.copy
    blockchain_coin.Consensus.Utxo.spend blockchain_coin.Consensus.Utxo.get
    blockchain_coin.Consensus.Utxo.total blockchain_coin.Consensus.State.new_state
    blockchain_coin.Consensus.State.commit blockchain_coin.Consensus.State.validate_version
    blockchain_coin.Consensus.State.validate_each_output
    blockchain_coin.Consensus.State.validate_outputs
    blockchain_coin.Consensus.State.validate_coinbase blockchain_coin.Consensus.State.get_field
    blockchain_coin.Consensus.State.public_key_from_dict blockchain_coin.Consensus.State.witness
    blockchain_coin.Consensus.State.mem blockchain_coin.Consensus.State.spend_all
    blockchain_coin.Consensus.State.validate_input_signature
    blockchain_coin.Consensus.State.validate_inputs blockchain_coin.Consensus.State.validate_spend
    blockchain_coin.Consensus.State.validate_transaction blockchain_coin.Consensus.State.add_outputs
    blockchain_coin.Consensus.State.create_outputs
    blockchain_coin.Consensus.State.transaction_update
    blockchain_coin.Consensus.State.apply_transaction
    blockchain_coin.Consensus.State.coinbase_update
    blockchain_coin.Consensus.State.apply_block_coinbase
    blockchain_coin.Consensus.State.apply_genesis_coinbase
    blockchain_coin.Consensus.Merkle.parent_hash blockchain_coin.Consensus.Merkle.next_layer
    blockchain_coin.Consensus.Merkle.root_loop blockchain_coin.Consensus.Merkle.leaf
    blockchain_coin.Consensus.Merkle.leaves
    blockchain_coin.Consensus.Merkle.calculate_transaction_root
    blockchain_coin.Consensus.Blocks.any_coinbase blockchain_coin.Consensus.Blocks.first_is_coinbase
    blockchain_coin.Consensus.Blocks.is_genesis blockchain_coin.Consensus.Blocks.check_header
    blockchain_coin.Consensus.Blocks.apply_all blockchain_coin.Consensus.Blocks.apply_first
    blockchain_coin.Consensus.Blocks.apply_reward blockchain_coin.Consensus.Blocks.apply_body
    blockchain_coin.Consensus.Blocks.validate_block blockchain_coin.Consensus.Blocks.replay
    blockchain_coin.Consensus.Blocks.rebuild_state_from_blocks blockchain_coin.Shared.◌+ℤ◌
    blockchain_coin.Shared.◌-ℤ◌ blockchain_coin.Shared.sum
missed zero h =
    (codes "1f1f1f1f1f1f1f1f1f1f1f1f1f1f1f1f1f1f1f1f1f1f1f1f1f1f1f1f1f1f1f1f", refl, refl)
missed (suc i) h = absurd (omega arith)

met : MeetsTarget ⦃prim = summing⦄ (with_nonce unmined 1)
unfolding byte_sum blockchain_coin.Codec.Words.word64 blockchain_coin.Text.text_eq
    blockchain_coin.Text.starts_with blockchain_coin.Text.text_lt blockchain_coin.Text.join
    blockchain_coin.Codec.Encode.encode_int blockchain_coin.Codec.Encode.encode_uint
    blockchain_coin.Codec.Encode.encode_float blockchain_coin.Codec.Encode.encode_bytes
    blockchain_coin.Codec.Encode.encode_text blockchain_coin.Codec.Encode.encode_hash
    blockchain_coin.Codec.Encode.encode_all blockchain_coin.Codec.Words.be_bytes
    blockchain_coin.Codec.Utf8.encode_char blockchain_coin.Codec.Utf8.encode
    blockchain_coin.Codec.Hex.hex blockchain_coin.Codec.Hex.digit_value
    blockchain_coin.Codec.Hex.is_space blockchain_coin.Codec.Hex.fromhex
    blockchain_coin.Crypto.is_valid_address blockchain_coin.Crypto.encode_ascii
    blockchain_coin.Crypto.sha256_hex_text blockchain_coin.Crypto.b64decode
    blockchain_coin.Crypto.key_address blockchain_coin.Crypto.verify_signature
    blockchain_coin.Json.items_of blockchain_coin.Json.canonical_json
    blockchain_coin.Consensus.Types.outpoint_eq blockchain_coin.Consensus.Types.is_coinbase
    blockchain_coin.Consensus.Types.signing_message blockchain_coin.Consensus.Encode.optional_text
    blockchain_coin.Consensus.Encode.get_text blockchain_coin.Consensus.Encode.public_key_bytes
    blockchain_coin.Consensus.Encode.input_bytes blockchain_coin.Consensus.Encode.output_bytes
    blockchain_coin.Consensus.Encode.transaction_bytes blockchain_coin.Consensus.Encode.header_bytes
    blockchain_coin.Consensus.Encode.txid blockchain_coin.Consensus.Encode.block_hash
    blockchain_coin.Consensus.Utxo.add blockchain_coin.Consensus.Utxo.add_entries
    blockchain_coin.Consensus.Utxo.new_set blockchain_coin.Consensus.Utxo.copy
    blockchain_coin.Consensus.Utxo.spend blockchain_coin.Consensus.Utxo.get
    blockchain_coin.Consensus.Utxo.total blockchain_coin.Consensus.State.new_state
    blockchain_coin.Consensus.State.commit blockchain_coin.Consensus.State.validate_version
    blockchain_coin.Consensus.State.validate_each_output
    blockchain_coin.Consensus.State.validate_outputs
    blockchain_coin.Consensus.State.validate_coinbase blockchain_coin.Consensus.State.get_field
    blockchain_coin.Consensus.State.public_key_from_dict blockchain_coin.Consensus.State.witness
    blockchain_coin.Consensus.State.mem blockchain_coin.Consensus.State.spend_all
    blockchain_coin.Consensus.State.validate_input_signature
    blockchain_coin.Consensus.State.validate_inputs blockchain_coin.Consensus.State.validate_spend
    blockchain_coin.Consensus.State.validate_transaction blockchain_coin.Consensus.State.add_outputs
    blockchain_coin.Consensus.State.create_outputs
    blockchain_coin.Consensus.State.transaction_update
    blockchain_coin.Consensus.State.apply_transaction
    blockchain_coin.Consensus.State.coinbase_update
    blockchain_coin.Consensus.State.apply_block_coinbase
    blockchain_coin.Consensus.State.apply_genesis_coinbase
    blockchain_coin.Consensus.Merkle.parent_hash blockchain_coin.Consensus.Merkle.next_layer
    blockchain_coin.Consensus.Merkle.root_loop blockchain_coin.Consensus.Merkle.leaf
    blockchain_coin.Consensus.Merkle.leaves
    blockchain_coin.Consensus.Merkle.calculate_transaction_root
    blockchain_coin.Consensus.Blocks.any_coinbase blockchain_coin.Consensus.Blocks.first_is_coinbase
    blockchain_coin.Consensus.Blocks.is_genesis blockchain_coin.Consensus.Blocks.check_header
    blockchain_coin.Consensus.Blocks.apply_all blockchain_coin.Consensus.Blocks.apply_first
    blockchain_coin.Consensus.Blocks.apply_reward blockchain_coin.Consensus.Blocks.apply_body
    blockchain_coin.Consensus.Blocks.validate_block blockchain_coin.Consensus.Blocks.replay
    blockchain_coin.Consensus.Blocks.rebuild_state_from_blocks blockchain_coin.Shared.◌+ℤ◌
    blockchain_coin.Shared.◌-ℤ◌ blockchain_coin.Shared.sum
met = record { hash = zero_hash; hashed = refl; reached = refl }

mine-returns_example :
    mine ⦃prim = summing⦄ (suc (1 + 2)) unmined ≡ ok (record unmined { nonce = pos 28 })
unfolding blockchain_coin.Shared.◌+ℤ◌
mine-returns_example = mine-returns ⦃prim = summing⦄ 1 2 unmined rooted missed met
