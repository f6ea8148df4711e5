-- ===== src/Examples/Ledger.antt =====
-- A chain of two blocks: the first pays 50 to a key, the second spends 30 of it.
use blockchain_coin.Shared.{
  ℕ, ◌%◌, ◌≡◌, refl, Bool, true, Option, none, some, List, [], ◌∷◌, ◌++◌, ℤ, pos, negsuc, length,
  replicate, take, Result, ok, err,
}
use blockchain_coin.Text.{Text, Bytes, codes}
use blockchain_coin.Crypto.{Primitives}
use blockchain_coin.Consensus.Types.{OutPoint, TxInput, TxOutput, Transaction, Block, zero_hash}
use blockchain_coin.Consensus.Encode.{txid, block_hash}
use blockchain_coin.Consensus.Merkle.{calculate_transaction_root}
use blockchain_coin.Consensus.State.Invariant.{IsValid}
use blockchain_coin.Shared.{arith, sum, ◌+ℤ◌}
use blockchain_coin.Consensus.Utxo.{total, total}
use blockchain_coin.Consensus.State.{ConsensusState}
use blockchain_coin.Consensus.Blocks.{apply_block, rebuild_state_from_blocks}

-- A digest that tells lengths apart, and a signature scheme that accepts everything.
instance abbrev pub toy : Primitives
toy = record {
  sha256 = λ data_bytes. replicate 32 (length data_bytes % 256);
  urlsafe_b64decode = some;
  ed25519_verify = λ key signature message. true;
}

abbrev pub owner : Text
owner = codes "bcc_0101010101010101010101010101010101010101"

abbrev pub other_owner : Text
other_owner = codes "bcc_0202020202020202020202020202020202020202"

abbrev pub reward_input : TxInput
reward_input = record {
  previous_output = record { txid = zero_hash; index = negsuc 0 };
  signature = none;
  public_key = none;
}

abbrev pub payment : ℤ → Text → TxOutput
payment value address = record { amount = value; address = address }

abbrev pub allocation : Transaction
allocation = record {
  inputs = reward_input ∷ [];
  outputs = payment (pos 50) owner ∷ [];
  version = pos 1;
}

abbrev pub allocation_id : Text
allocation_id = codes "8181818181818181818181818181818181818181818181818181818181818181"

abbrev pub coin : OutPoint
coin = record { txid = allocation_id; index = pos 0 }

abbrev pub spending_input : TxInput
spending_input = record {
  previous_output = coin;
  signature = some (codes "s");
  public_key = some ((codes "algorithm", codes "ed25519") ∷ (codes "key", codes "k") ∷ []);
}

-- Pays 30 on, 15 back and a fee of 5.
abbrev pub spending : Transaction
spending = record {
  inputs = spending_input ∷ [];
  outputs = payment (pos 30) other_owner ∷ payment (pos 15) owner ∷ [];
  version = pos 1;
}

abbrev pub allocated : ConsensusState
allocated = record {
  utxos = (coin, payment (pos 50) owner) ∷ [];
  block_subsidy = pos 50;
  max_money = pos 1000;
}

abbrev pub first_block : Block
first_block = record {
  height = pos 0;
  previous_hash = zero_hash;
  transactions = allocation ∷ [];
  difficulty = pos 0;
  timestamp = 0;
  nonce = pos 0;
  transaction_root = allocation_id;
  version = pos 1;
}

abbrev pub first_hash : Text
first_hash = codes "7070707070707070707070707070707070707070707070707070707070707070"

-- Pays the subsidy to one key and the fee of 5 to another.
abbrev pub reward : Transaction
reward = record {
  inputs =
      record reward_input { previous_output = record { txid = zero_hash; index = negsuc 1 } } ∷ [];
  outputs = payment (pos 50) other_owner ∷ payment (pos 5) owner ∷ [];
  version = pos 1;
}

abbrev pub second_block : Block
second_block = record {
  height = pos 1;
  previous_hash = first_hash;
  transactions = reward ∷ spending ∷ [];
  difficulty = pos 0;
  timestamp = 0;
  nonce = pos 0;
  transaction_root = codes "4040404040404040404040404040404040404040404040404040404040404040";
  version = pos 1;
}

-- What the second block leaves.
abbrev pub final : ConsensusState
unfolding apply_block
final = (apply_block second_block (pos 1) first_hash allocated).1

pub rebuilt :
    rebuild_state_from_blocks (first_block ∷ second_block ∷ []) (pos 50) (pos 1000) ≡ ok final
unfolding final blockchain_coin.Text.text_eq blockchain_coin.Text.starts_with
    blockchain_coin.Text.text_lt blockchain_coin.Text.join blockchain_coin.Codec.Encode.encode_int
    blockchain_coin.Codec.Encode.encode_uint blockchain_coin.Codec.Encode.encode_float
    blockchain_coin.Codec.Encode.encode_bytes blockchain_coin.Codec.Encode.encode_text
    blockchain_coin.Codec.Encode.encode_hash blockchain_coin.Codec.Encode.encode_all
    blockchain_coin.Codec.Words.be_bytes blockchain_coin.Codec.Utf8.encode_char
    blockchain_coin.Codec.Utf8.encode blockchain_coin.Codec.Hex.hex
    blockchain_coin.Codec.Hex.digit_value blockchain_coin.Codec.Hex.is_space
    blockchain_coin.Codec.Hex.fromhex blockchain_coin.Crypto.is_valid_address
    blockchain_coin.Crypto.encode_ascii blockchain_coin.Crypto.sha256_hex_text
    blockchain_coin.Crypto.b64decode blockchain_coin.Crypto.key_address
    blockchain_coin.Crypto.verify_signature blockchain_coin.Json.items_of
    blockchain_coin.Json.canonical_json blockchain_coin.Consensus.Types.outpoint_eq
    blockchain_coin.Consensus.Types.is_coinbase blockchain_coin.Consensus.Types.signing_message
    blockchain_coin.Consensus.Encode.optional_text blockchain_coin.Consensus.Encode.get_text
    blockchain_coin.Consensus.Encode.public_key_bytes blockchain_coin.Consensus.Encode.input_bytes
    blockchain_coin.Consensus.Encode.output_bytes blockchain_coin.Consensus.Encode.transaction_bytes
    blockchain_coin.Consensus.Encode.header_bytes blockchain_coin.Consensus.Encode.txid
    blockchain_coin.Consensus.Encode.block_hash blockchain_coin.Consensus.Utxo.add
    blockchain_coin.Consensus.Utxo.add_entries blockchain_coin.Consensus.Utxo.new_set
    blockchain_coin.Consensus.Utxo.copy blockchain_coin.Consensus.Utxo.spend
    blockchain_coin.Consensus.Utxo.get blockchain_coin.Consensus.Utxo.total
    blockchain_coin.Consensus.State.new_state blockchain_coin.Consensus.State.commit
    blockchain_coin.Consensus.State.validate_version
    blockchain_coin.Consensus.State.validate_each_output
    blockchain_coin.Consensus.State.validate_outputs
    blockchain_coin.Consensus.State.validate_coinbase blockchain_coin.Consensus.State.get_field
    blockchain_coin.Consensus.State.public_key_from_dict blockchain_coin.Consensus.State.witness
    blockchain_coin.Consensus.State.mem blockchain_coin.Consensus.State.spend_all
    blockchain_coin.Consensus.State.validate_input_signature
    blockchain_coin.Consensus.State.validate_inputs blockchain_coin.Consensus.State.validate_spend
    blockchain_coin.Consensus.State.validate_transaction blockchain_coin.Consensus.State.add_outputs
    blockchain_coin.Consensus.State.create_outputs
    blockchain_coin.Consensus.State.transaction_update
    blockchain_coin.Consensus.State.apply_transaction
    blockchain_coin.Consensus.State.coinbase_update
    blockchain_coin.Consensus.State.apply_block_coinbase
    blockchain_coin.Consensus.State.apply_genesis_coinbase
    blockchain_coin.Consensus.Merkle.parent_hash blockchain_coin.Consensus.Merkle.next_layer
    blockchain_coin.Consensus.Merkle.root_loop blockchain_coin.Consensus.Merkle.leaf
    blockchain_coin.Consensus.Merkle.leaves
    blockchain_coin.Consensus.Merkle.calculate_transaction_root
    blockchain_coin.Consensus.Blocks.any_coinbase blockchain_coin.Consensus.Blocks.first_is_coinbase
    blockchain_coin.Consensus.Blocks.is_genesis blockchain_coin.Consensus.Blocks.check_header
    blockchain_coin.Consensus.Blocks.apply_all blockchain_coin.Consensus.Blocks.apply_first
    blockchain_coin.Consensus.Blocks.apply_reward blockchain_coin.Consensus.Blocks.apply_body
    blockchain_coin.Consensus.Blocks.validate_block blockchain_coin.Consensus.Blocks.replay
    blockchain_coin.Consensus.Blocks.rebuild_state_from_blocks blockchain_coin.Shared.◌+ℤ◌
    blockchain_coin.Shared.◌-ℤ◌ blockchain_coin.Shared.sum
rebuilt = refl

pub allocated-IsValid : IsValid allocated
unfolding total sum ◌+ℤ◌
allocated-IsValid = record {
  distinct = (refl, tt);
  positive = (omega arith, tt);
  bounded = omega arith;
}
