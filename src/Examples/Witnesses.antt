-- ===== src/Examples/Witnesses.antt =====
-- The theorems of the consensus engine, applied to the chain of two blocks.
use blockchain_coin.Shared.{
  ◌≡◌, refl, ◌↔◌, true, some, List, [], ◌∷◌, ◌++◌, pos, ◌+ℤ◌, ◌≤ℤ◌, arith, ok, err, negsuc, ◌<◌,
  ◌≢◌, replicate, All,
}
use blockchain_coin.Consensus.Types.{Transaction, outpoint_equality}
use blockchain_coin.Consensus.Encode.{
  transaction_bytes, input_bytes, outpoint_bytes, output_bytes, optional_text, public_key_bytes,
  get_text,
}
use blockchain_coin.Consensus.Decode.{transaction_from_bytes}
use blockchain_coin.Consensus.RoundTrip.{transaction_from_bytes-transaction_bytes}
use blockchain_coin.Consensus.Utxo.{copy, total}
use blockchain_coin.Consensus.Utxo.Laws.{copy_lem}
use blockchain_coin.Consensus.State.{
  apply_transaction, apply_block_coinbase, apply_genesis_coinbase, validate_spend,
}
use blockchain_coin.Consensus.State.Invariant.{IsValid}
use blockchain_coin.Consensus.State.Spending.{IsSpend, validate_spend_iff}
use blockchain_coin.Consensus.State.Methods.{
  Sound, Moves, Rewards, Allocates, apply_transaction-Sound, apply_block_coinbase-Sound,
  apply_genesis_coinbase-Sound,
}
use blockchain_coin.Text.{Bytes, codes, text_eq}
use blockchain_coin.Failure.{out_of_fuel}
use blockchain_coin.Codec.Encode.{
  encode_text, encode_bytes, encode_int, encode_uint, encode_hash, encode_all,
}
use blockchain_coin.Codec.Words.{be_bytes, word64}
use blockchain_coin.Codec.Hex.{hex, fromhex, hex_digit, digit_value, is_space}
use blockchain_coin.Codec.Utf8.{encode, encode_char}
use blockchain_coin.Codec.Reader.{decode_text, decode_int}
use blockchain_coin.Codec.Reads.{Reads}
use blockchain_coin.Codec.Fields.{encode_text-Reads, encode_int-Reads}
use blockchain_coin.Consensus.Merkle.Fuel.{root_loop_enough}
use blockchain_coin.Consensus.Merkle.{root_loop, calculate_transaction_root}
use blockchain_coin.Consensus.Merkle.Doubling.{calculate_transaction_root_doubled}
use blockchain_coin.Consensus.Blocks.{validate_block, apply_block}
use blockchain_coin.Consensus.Blocks.Body.{Issues, reward_total}
use blockchain_coin.Consensus.Blocks.Atomic.{apply_block-Sound, apply_block-validate_block}
use blockchain_coin.Consensus.Blocks.Chain.{subsidies, rebuild_state_from_blocks-supply}
use blockchain_coin.Examples.Ledger.{
  allocated-IsValid, toy, allocation_id, allocation, spending, reward, allocated, first_block,
  second_block, first_hash, final, rebuilt,
}

apply_block-Sound_example :
    Sound allocated
      (Issues second_block allocated)
      (apply_block second_block (pos 1) first_hash allocated)
apply_block-Sound_example =
    apply_block-Sound second_block (pos 1) first_hash allocated allocated-IsValid

apply_block-validate_block_example :
    (apply_block second_block (pos 1) first_hash allocated).0
    ≡ validate_block second_block (pos 1) first_hash allocated
apply_block-validate_block_example =
    apply_block-validate_block second_block (pos 1) first_hash allocated allocated-IsValid

rebuild_state_from_blocks-supply_example :
    IsValid final
    × (total final.utxos ≤ℤ pos 1000)
    × (total final.utxos
        ≤ℤ reward_total first_block.transactions +ℤ subsidies (pos 50) (second_block ∷ []))
rebuild_state_from_blocks-supply_example =
    rebuild_state_from_blocks-supply first_block (second_block ∷ []) (pos 50) (pos 1000) rebuilt

apply_transaction-Sound_example :
    Sound allocated (Moves spending allocated) (apply_transaction spending allocated)
apply_transaction-Sound_example = apply_transaction-Sound spending allocated allocated-IsValid

validate_spend_iff_example :
    (validate_spend allocated spending ≡ ok (pos 5)) ↔ IsSpend allocated spending (pos 5)
validate_spend_iff_example = validate_spend_iff allocated spending (pos 5)

apply_block_coinbase-Sound_example :
    Sound allocated (Rewards (pos 5) allocated) (apply_block_coinbase reward (pos 5) allocated)
apply_block_coinbase-Sound_example =
    apply_block_coinbase-Sound reward (pos 5) allocated allocated-IsValid

apply_genesis_coinbase-Sound_example :
    Sound allocated (Allocates reward allocated) (apply_genesis_coinbase reward allocated)
apply_genesis_coinbase-Sound_example =
    apply_genesis_coinbase-Sound reward allocated allocated-IsValid

copy_lem_example : copy allocated.utxos ≡ ok allocated.utxos
copy_lem_example = copy_lem allocated.utxos (refl, tt)

calculate_transaction_root_doubled_example :
    calculate_transaction_root ((reward ∷ spending ∷ []) ++ allocation ∷ [])
    ≡ calculate_transaction_root ((reward ∷ spending ∷ []) ++ allocation ∷ allocation ∷ [])
calculate_transaction_root_doubled_example =
    calculate_transaction_root_doubled (reward ∷ spending ∷ []) allocation tt (omega arith)

abbrev layer : List Bytes
layer = (1 ∷ []) ∷ (2 ∷ []) ∷ (3 ∷ []) ∷ []

root_loop_enough_example : root_loop 3 layer ≢ err out_of_fuel
root_loop_enough_example = root_loop_enough 3 layer (omega arith)

-- What `encode_text` and `encode_int` write is read back.
abbrev text_bytes : Bytes
text_bytes = 0 ∷ 0 ∷ 0 ∷ 2 ∷ 195 ∷ 169 ∷ []

encode_text-Reads_example : Reads decode_text text_bytes (233 ∷ [])
unfolding encode_text encode_bytes encode encode_char be_bytes
encode_text-Reads_example = encode_text-Reads (233 ∷ []) refl

abbrev int_bytes : Bytes
int_bytes = 255 ∷ 255 ∷ 255 ∷ 255 ∷ 255 ∷ 255 ∷ 255 ∷ 254 ∷ []

encode_int-Reads_example : Reads decode_int int_bytes (negsuc 1)
unfolding encode_int be_bytes word64
encode_int-Reads_example = encode_int-Reads (negsuc 1) refl

-- A transaction with one input and one output.
abbrev plain_transaction : Transaction
plain_transaction = record {
  inputs =
      record {
        previous_output = record { txid = allocation_id; index = pos 1 };
        signature = some (codes "s");
        public_key = some ((codes "algorithm", codes "ed25519") ∷ (codes "key", codes "k") ∷ []);
      }
      ∷ [];
  outputs = record { amount = pos 7; address = codes "bcc_" } ∷ [];
  version = pos 1;
}

abbrev plain_bytes : Bytes
plain_bytes =
    98 ∷ 99 ∷ 99 ∷ 116 ∷ 120 ∷ 0 ∷ 1 ∷ 0 ∷ 0 ∷ 0 ∷ 0 ∷ 0 ∷ 0 ∷ 0 ∷ 1 ∷ 0 ∷ 0 ∷ 0 ∷ 0 ∷ 0 ∷ 0 ∷ 0 ∷ 1
    ∷ 129 ∷ 129 ∷ 129 ∷ 129 ∷ 129 ∷ 129 ∷ 129 ∷ 129 ∷ 129 ∷ 129 ∷ 129 ∷ 129 ∷ 129 ∷ 129 ∷ 129 ∷ 129
    ∷ 129 ∷ 129 ∷ 129 ∷ 129 ∷ 129 ∷ 129 ∷ 129 ∷ 129 ∷ 129 ∷ 129 ∷ 129 ∷ 129 ∷ 129 ∷ 129 ∷ 129 ∷ 129
    ∷ 0 ∷ 0 ∷ 0 ∷ 0 ∷ 0 ∷ 0 ∷ 0 ∷ 1 ∷ 1 ∷ 0 ∷ 0 ∷ 0 ∷ 1 ∷ 115 ∷ 1 ∷ 0 ∷ 0 ∷ 0 ∷ 7 ∷ 101 ∷ 100 ∷ 50
    ∷ 53 ∷ 53 ∷ 49 ∷ 57 ∷ 0 ∷ 0 ∷ 0 ∷ 1 ∷ 107 ∷ 0 ∷ 0 ∷ 0 ∷ 0 ∷ 0 ∷ 0 ∷ 0 ∷ 1 ∷ 0 ∷ 0 ∷ 0 ∷ 0 ∷ 0
    ∷ 0 ∷ 0 ∷ 7 ∷ 0 ∷ 0 ∷ 0 ∷ 4 ∷ 98 ∷ 99 ∷ 99 ∷ 95 ∷ []

written : transaction_bytes true plain_transaction ≡ ok plain_bytes
unfolding transaction_bytes input_bytes outpoint_bytes output_bytes optional_text public_key_bytes
    get_text encode_all encode_int encode_uint encode_bytes encode_text encode_hash word64 be_bytes
    encode encode_char fromhex digit_value is_space text_eq
written = refl

lower : allocation_id ≡ hex (replicate 32 129)
unfolding hex hex_digit
lower = refl

lower_bytes : All (λ b. b < 256) (replicate 32 129)
lower_bytes = ground arith

transaction_from_bytes-transaction_bytes_example :
    transaction_from_bytes true plain_bytes ≡ ok plain_transaction
transaction_from_bytes-transaction_bytes_example =
    transaction_from_bytes-transaction_bytes plain_transaction
      (((replicate 32 129, lower_bytes, lower), (codes "ed25519", codes "k", refl)), tt) written
