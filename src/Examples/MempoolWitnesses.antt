-- ===== src/Examples/MempoolWitnesses.antt =====
-- The theorems of the memory pool's policy, applied to the spending transaction of the ledger.
use blockchain_coin.Shared.{◌≡◌, refl, ◌↔◌, true, pos, ◌+ℤ◌, ◌≤ℤ◌, ok}
use blockchain_coin.Mempool.Policy.{
  MempoolPolicy, ◌*ℤ◌, floor_1000, rate_at, effective_min_relay_fee_rate, minimum_fee, validate,
}
use blockchain_coin.Mempool.Admission.{IsAdmitted, minimum_fee_iff, validate_iff}
use blockchain_coin.Mempool.Policy.{serialized_size}
use blockchain_coin.Mempool.Prune.{
  candidate_of, candidate_after, prune_from, prune_invalid_mempool, AreWanted,
  prune_invalid_mempool-applies,
}
use blockchain_coin.Consensus.Types.{Transaction}
use blockchain_coin.Consensus.State.{ConsensusState}
use blockchain_coin.Shared.{List, [], ◌∷◌, arith}
use blockchain_coin.Examples.Ledger.{toy, spending, allocated, allocated-IsValid}

abbrev pub policy : MempoolPolicy
policy = record {
  max_transactions = pos 5000;
  max_transaction_bytes = pos 100000;
  max_inputs = pos 128;
  max_outputs = pos 128;
  min_relay_fee = pos 1;
  min_relay_fee_rate = pos 10;
  dynamic_fee_rate_step = pos 2;
  allow_replacement = true;
  replacement_fee_bump = pos 1;
  allow_eviction = true;
  eviction_fee_rate_bump = pos 1;
}

minimum_fee_iff_example :
    (pos 5 ≤ℤ pos 4) ↔ ((pos 1 ≤ℤ pos 4) × (pos 250 *ℤ rate_at policy (pos 4) ≤ℤ pos 1000 *ℤ pos 4))
unfolding minimum_fee effective_min_relay_fee_rate floor_1000 ◌*ℤ◌ ◌+ℤ◌
minimum_fee_iff_example = minimum_fee_iff policy (pos 250) (pos 4) (pos 4) refl

validate_iff_example :
    (validate policy spending (pos 5) (pos 4) ≡ ok tt) ↔ IsAdmitted policy spending (pos 5) (pos 4)
validate_iff_example = validate_iff policy spending (pos 5) (pos 4)

abbrev pool : List Transaction
pool = spending ∷ spending ∷ []

-- The second of two transactions that spend one output does not apply.
pruned : prune_invalid_mempool policy allocated pool ≡ ok (spending ∷ [])
unfolding prune_invalid_mempool candidate_of prune_from validate serialized_size minimum_fee
    effective_min_relay_fee_rate floor_1000 ◌*ℤ◌ blockchain_coin.Text.text_eq
    blockchain_coin.Text.starts_with blockchain_coin.Text.text_lt blockchain_coin.Text.join
    blockchain_coin.Codec.Encode.encode_int blockchain_coin.Codec.Encode.encode_uint
    blockchain_coin.Codec.Encode.encode_float blockchain_coin.Codec.Encode.encode_bytes
    blockchain_coin.Codec.Encode.encode_text blockchain_coin.Codec.Encode.encode_hash
    blockchain_coin.Codec.Encode.encode_all blockchain_coin.Codec.Words.be_bytes
    blockchain_coin.Codec.Utf8.encode_char blockchain_coin.Codec.Utf8.encode
    blockchain_coin.Codec.Hex.hex blockchain_coin.Codec.Hex.digit_value
    blockchain_coin.Codec.Hex.is_space blockchain_coin.Codec.Hex.fromhex
    blockchain_coin.Crypto.is_valid_address blockchain_coin.Crypto.encode_ascii
    blockchain_coin.Crypto.sha256_hex_text blockchain_coin.Crypto.b64decode
    blockchain_coin.Crypto.key_address blockchain_coin.Crypto.verify_signature
    blockchain_coin.Json.items_of blockchain_coin.Json.canonical_json
    blockchain_coin.Consensus.Types.outpoint_eq blockchain_coin.Consensus.Types.is_coinbase
    blockchain_coin.Consensus.Types.signing_message blockchain_coin.Consensus.Encode.optional_text
    blockchain_coin.Consensus.Encode.get_text blockchain_coin.Consensus.Encode.public_key_bytes
    blockchain_coin.Consensus.Encode.input_bytes blockchain_coin.Consensus.Encode.output_bytes
    blockchain_coin.Consensus.Encode.transaction_bytes blockchain_coin.Consensus.Encode.txid
    blockchain_coin.Consensus.Utxo.add blockchain_coin.Consensus.Utxo.add_entries
    blockchain_coin.Consensus.Utxo.new_set blockchain_coin.Consensus.Utxo.copy
    blockchain_coin.Consensus.Utxo.spend blockchain_coin.Consensus.Utxo.get
    blockchain_coin.Consensus.Utxo.total blockchain_coin.Consensus.State.new_state
    blockchain_coin.Consensus.State.commit blockchain_coin.Consensus.State.validate_version
    blockchain_coin.Consensus.State.validate_each_output
    blockchain_coin.Consensus.State.validate_outputs
    blockchain_coin.Consensus.State.validate_coinbase blockchain_coin.Consensus.State.get_field
    blockchain_coin.Consensus.State.public_key_from_dict blockchain_coin.Consensus.State.witness
    blockchain_coin.Consensus.State.mem blockchain_coin.Consensus.State.spend_all
    blockchain_coin.Consensus.State.validate_input_signature
    blockchain_coin.Consensus.State.validate_inputs blockchain_coin.Consensus.State.validate_spend
    blockchain_coin.Consensus.State.validate_transaction blockchain_coin.Consensus.State.add_outputs
    blockchain_coin.Consensus.State.create_outputs
    blockchain_coin.Consensus.State.transaction_update
    blockchain_coin.Consensus.State.apply_transaction
    blockchain_coin.Consensus.State.coinbase_update
    blockchain_coin.Consensus.State.apply_block_coinbase
    blockchain_coin.Consensus.State.apply_genesis_coinbase blockchain_coin.Shared.◌+ℤ◌
    blockchain_coin.Shared.◌-ℤ◌ blockchain_coin.Shared.sum
pruned = refl

wanted : AreWanted policy allocated 0 pool
unfolding AreWanted validate serialized_size minimum_fee effective_min_relay_fee_rate floor_1000
    ◌*ℤ◌ blockchain_coin.Text.text_eq blockchain_coin.Text.starts_with blockchain_coin.Text.text_lt
    blockchain_coin.Text.join blockchain_coin.Codec.Encode.encode_int
    blockchain_coin.Codec.Encode.encode_uint blockchain_coin.Codec.Encode.encode_float
    blockchain_coin.Codec.Encode.encode_bytes blockchain_coin.Codec.Encode.encode_text
    blockchain_coin.Codec.Encode.encode_hash blockchain_coin.Codec.Encode.encode_all
    blockchain_coin.Codec.Words.be_bytes blockchain_coin.Codec.Utf8.encode_char
    blockchain_coin.Codec.Utf8.encode blockchain_coin.Codec.Hex.hex
    blockchain_coin.Codec.Hex.digit_value blockchain_coin.Codec.Hex.is_space
    blockchain_coin.Codec.Hex.fromhex blockchain_coin.Crypto.is_valid_address
    blockchain_coin.Crypto.encode_ascii blockchain_coin.Crypto.sha256_hex_text
    blockchain_coin.Crypto.b64decode blockchain_coin.Crypto.key_address
    blockchain_coin.Crypto.verify_signature blockchain_coin.Json.items_of
    blockchain_coin.Json.canonical_json blockchain_coin.Consensus.Types.outpoint_eq
    blockchain_coin.Consensus.Types.is_coinbase blockchain_coin.Consensus.Types.signing_message
    blockchain_coin.Consensus.Encode.optional_text blockchain_coin.Consensus.Encode.get_text
    blockchain_coin.Consensus.Encode.public_key_bytes blockchain_coin.Consensus.Encode.input_bytes
    blockchain_coin.Consensus.Encode.output_bytes blockchain_coin.Consensus.Encode.transaction_bytes
    blockchain_coin.Consensus.Encode.txid blockchain_coin.Consensus.Utxo.add
    blockchain_coin.Consensus.Utxo.add_entries blockchain_coin.Consensus.Utxo.new_set
    blockchain_coin.Consensus.Utxo.copy blockchain_coin.Consensus.Utxo.spend
    blockchain_coin.Consensus.Utxo.get blockchain_coin.Consensus.Utxo.total
    blockchain_coin.Consensus.State.new_state blockchain_coin.Consensus.State.commit
    blockchain_coin.Consensus.State.validate_version
    blockchain_coin.Consensus.State.validate_each_output
    blockchain_coin.Consensus.State.validate_outputs
    blockchain_coin.Consensus.State.validate_coinbase blockchain_coin.Consensus.State.get_field
    blockchain_coin.Consensus.State.public_key_from_dict blockchain_coin.Consensus.State.witness
    blockchain_coin.Consensus.State.mem blockchain_coin.Consensus.State.spend_all
    blockchain_coin.Consensus.State.validate_input_signature
    blockchain_coin.Consensus.State.validate_inputs blockchain_coin.Consensus.State.validate_spend
    blockchain_coin.Consensus.State.validate_transaction blockchain_coin.Consensus.State.add_outputs
    blockchain_coin.Consensus.State.create_outputs
    blockchain_coin.Consensus.State.transaction_update
    blockchain_coin.Consensus.State.apply_transaction
    blockchain_coin.Consensus.State.coinbase_update
    blockchain_coin.Consensus.State.apply_block_coinbase
    blockchain_coin.Consensus.State.apply_genesis_coinbase blockchain_coin.Shared.◌+ℤ◌
    blockchain_coin.Shared.◌-ℤ◌ blockchain_coin.Shared.sum
wanted = (refl, tt)

prune_invalid_mempool-applies_example :
    (pos 1 ≤ℤ pos 5000)
    × ((s' : ConsensusState) × (candidate_after allocated (spending ∷ []) ≡ ok s'))
prune_invalid_mempool-applies_example =
    prune_invalid_mempool-applies policy allocated pool (spending ∷ []) allocated-IsValid
      (omega arith) wanted pruned
