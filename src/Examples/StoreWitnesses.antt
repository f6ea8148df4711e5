-- ===== src/Examples/StoreWitnesses.antt =====
-- The theorems of the fork store, applied to an empty store and the first block of the ledger.
use blockchain_coin.Shared.{◌≡◌, refl, none, some, List, [], ◌∷◌, ℤ, pos, ok}
use blockchain_coin.Text.{Text}
use blockchain_coin.Consensus.Encode.{block_hash}
use blockchain_coin.ForkStore.{
  StoredBlock, ForkStore, new_work, check_row, put_hashed, put_block, chain_to_tip,
}
use blockchain_coin.ForkStore.Linked.{IsLinked, put_block-chain_to_tip}
use blockchain_coin.ForkStore.{chain_from, get_block}
use blockchain_coin.Shared.{◌≤ℤ◌}
use blockchain_coin.Consensus.Utxo.{total}
use blockchain_coin.Consensus.State.Invariant.{IsValid}
use blockchain_coin.Consensus.Blocks.{apply_block, rebuild_state_from_blocks}
use blockchain_coin.ForkChoice.{
  ActiveChain, active_chain, stored_chain, best_tip, best_of, validate_chain, validate_stored_chain,
}
use blockchain_coin.ForkChoice.Replayed.{active_chain-rebuilds}
use blockchain_coin.Examples.Ledger.{allocated, toy, first_block, first_hash}

no_blocks-IsLinked : IsLinked []
no_blocks-IsLinked = λ hash b found. absurd (cc found)

abbrev pub first_stored : StoredBlock
first_stored = record { block = first_block; cumulative_work = 1 }

abbrev pub one_block : ForkStore
one_block = (first_hash, first_stored) ∷ []

stored : put_block first_block [] ≡ ok (first_stored, one_block)
unfolding put_block put_hashed new_work check_row blockchain_coin.Text.text_eq
    blockchain_coin.Text.starts_with blockchain_coin.Text.text_lt blockchain_coin.Text.join
    blockchain_coin.Codec.Encode.encode_int blockchain_coin.Codec.Encode.encode_uint
    blockchain_coin.Codec.Encode.encode_float blockchain_coin.Codec.Encode.encode_bytes
    blockchain_coin.Codec.Encode.encode_text blockchain_coin.Codec.Encode.encode_hash
    blockchain_coin.Codec.Encode.encode_all blockchain_coin.Codec.Words.be_bytes
    blockchain_coin.Codec.Utf8.encode_char blockchain_coin.Codec.Utf8.encode
    blockchain_coin.Codec.Hex.hex blockchain_coin.Codec.Hex.digit_value
    blockchain_coin.Codec.Hex.is_space blockchain_coin.Codec.Hex.fromhex
    blockchain_coin.Crypto.sha256_hex_text blockchain_coin.Json.items_of
    blockchain_coin.Json.canonical_json blockchain_coin.Consensus.Types.outpoint_eq
    blockchain_coin.Consensus.Types.is_coinbase blockchain_coin.Consensus.Types.signing_message
    blockchain_coin.Consensus.Encode.optional_text blockchain_coin.Consensus.Encode.get_text
    blockchain_coin.Consensus.Encode.public_key_bytes blockchain_coin.Consensus.Encode.input_bytes
    blockchain_coin.Consensus.Encode.output_bytes blockchain_coin.Consensus.Encode.transaction_bytes
    blockchain_coin.Consensus.Encode.header_bytes blockchain_coin.Consensus.Encode.txid
    blockchain_coin.Consensus.Encode.block_hash blockchain_coin.Shared.◌+ℤ◌
    blockchain_coin.Shared.◌-ℤ◌ blockchain_coin.Shared.sum
stored = refl

put_block-chain_to_tip_example :
    IsLinked one_block
    × ((hash : Text) × (chain : List StoredBlock) × (block_hash first_block ≡ ok hash)
        × (chain_to_tip hash one_block ≡ ok chain))
put_block-chain_to_tip_example =
    put_block-chain_to_tip first_block [] first_stored one_block no_blocks-IsLinked stored

abbrev replayed : ActiveChain
replayed = record { blocks = first_block ∷ []; state = allocated; cumulative_work = 1 }

chosen : active_chain (pos 50) (pos 1000) one_block ≡ ok replayed
unfolding apply_block active_chain stored_chain best_tip best_of chain_to_tip chain_from get_block
    validate_chain validate_stored_chain blockchain_coin.Text.text_eq
    blockchain_coin.Text.starts_with blockchain_coin.Text.text_lt blockchain_coin.Text.join
    blockchain_coin.Codec.Encode.encode_int blockchain_coin.Codec.Encode.encode_uint
    blockchain_coin.Codec.Encode.encode_float blockchain_coin.Codec.Encode.encode_bytes
    blockchain_coin.Codec.Encode.encode_text blockchain_coin.Codec.Encode.encode_hash
    blockchain_coin.Codec.Encode.encode_all blockchain_coin.Codec.Words.be_bytes
    blockchain_coin.Codec.Utf8.encode_char blockchain_coin.Codec.Utf8.encode
    blockchain_coin.Codec.Hex.hex blockchain_coin.Codec.Hex.digit_value
    blockchain_coin.Codec.Hex.is_space blockchain_coin.Codec.Hex.fromhex
    blockchain_coin.Crypto.is_valid_address blockchain_coin.Crypto.encode_ascii
    blockchain_coin.Crypto.sha256_hex_text blockchain_coin.Crypto.b64decode
    blockchain_coin.Crypto.key_address blockchain_coin.Crypto.verify_signature
    blockchain_coin.Json.items_of blockchain_coin.Json.canonical_json
    blockchain_coin.Consensus.Types.outpoint_eq blockchain_coin.Consensus.Types.is_coinbase
    blockchain_coin.Consensus.Types.signing_message blockchain_coin.Consensus.Encode.optional_text
    blockchain_coin.Consensus.Encode.get_text blockchain_coin.Consensus.Encode.public_key_bytes
    blockchain_coin.Consensus.Encode.input_bytes blockchain_coin.Consensus.Encode.output_bytes
    blockchain_coin.Consensus.Encode.transaction_bytes blockchain_coin.Consensus.Encode.header_bytes
    blockchain_coin.Consensus.Encode.txid blockchain_coin.Consensus.Encode.block_hash
    blockchain_coin.Consensus.Utxo.add blockchain_coin.Consensus.Utxo.add_entries
    blockchain_coin.Consensus.Utxo.new_set blockchain_coin.Consensus.Utxo.copy
    blockchain_coin.Consensus.Utxo.spend blockchain_coin.Consensus.Utxo.get
    blockchain_coin.Consensus.Utxo.total blockchain_coin.Consensus.State.new_state
    blockchain_coin.Consensus.State.commit blockchain_coin.Consensus.State.validate_version
    blockchain_coin.Consensus.State.validate_each_output
    blockchain_coin.Consensus.State.validate_outputs
    blockchain_coin.Consensus.State.validate_coinbase blockchain_coin.Consensus.State.get_field
    blockchain_coin.Consensus.State.public_key_from_dict blockchain_coin.Consensus.State.witness
    blockchain_coin.Consensus.State.mem blockchain_coin.Consensus.State.spend_all
    blockchain_coin.Consensus.State.validate_input_signature
    blockchain_coin.Consensus.State.validate_inputs blockchain_coin.Consensus.State.validate_spend
    blockchain_coin.Consensus.State.validate_transaction blockchain_coin.Consensus.State.add_outputs
    blockchain_coin.Consensus.State.create_outputs
    blockchain_coin.Consensus.State.transaction_update
    blockchain_coin.Consensus.State.apply_transaction
    blockchain_coin.Consensus.State.coinbase_update
    blockchain_coin.Consensus.State.apply_block_coinbase
    blockchain_coin.Consensus.State.apply_genesis_coinbase
    blockchain_coin.Consensus.Merkle.parent_hash blockchain_coin.Consensus.Merkle.next_layer
    blockchain_coin.Consensus.Merkle.root_loop blockchain_coin.Consensus.Merkle.leaf
    blockchain_coin.Consensus.Merkle.leaves
    blockchain_coin.Consensus.Merkle.calculate_transaction_root
    blockchain_coin.Consensus.Blocks.any_coinbase blockchain_coin.Consensus.Blocks.first_is_coinbase
    blockchain_coin.Consensus.Blocks.is_genesis blockchain_coin.Consensus.Blocks.check_header
    blockchain_coin.Consensus.Blocks.apply_all blockchain_coin.Consensus.Blocks.apply_first
    blockchain_coin.Consensus.Blocks.apply_reward blockchain_coin.Consensus.Blocks.apply_body
    blockchain_coin.Consensus.Blocks.validate_block blockchain_coin.Consensus.Blocks.replay
    blockchain_coin.Consensus.Blocks.rebuild_state_from_blocks blockchain_coin.Shared.◌+ℤ◌
    blockchain_coin.Shared.◌-ℤ◌ blockchain_coin.Shared.sum
chosen = refl

active_chain-rebuilds_example :
    (rebuild_state_from_blocks (first_block ∷ []) (pos 50) (pos 1000) ≡ ok allocated)
    × IsValid allocated
    × (total allocated.utxos ≤ℤ pos 1000)
active_chain-rebuilds_example = active_chain-rebuilds (pos 50) (pos 1000) one_block replayed chosen
