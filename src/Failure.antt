-- ===== src/Failure.antt =====
-- The exceptions of the consensus code, by message (blockchaincoin/consensus.py). `struct_error` is
-- `struct.error`, raised where a number does not fit its field, and `unicode_encode_error` is raised where
-- a text holds a surrogate; `value_error` is a plain ValueError. `out_of_fuel` is the model's own, for a
-- loop whose fuel ran out. The others are `ConsensusError`s.
pub data Error : Type 0 where
  truncated trailing_bytes unsigned_negative field_too_large text_not_utf8 : Error
  hash_not_hexadecimal hash_length signature_flag public_key_flag : Error
  transaction_magic transaction_codec block_magic block_codec : Error
  index_out_of_range : Error
  duplicate_utxo missing_or_spent missing_output : Error
  negative_subsidy max_money_not_positive : Error
  transaction_version no_outputs amount_not_positive amount_above_maximum output_address : Error
  no_inputs double_spend spends_more_than_inputs supply_exceeded : Error
  miner_address negative_fees negative_height coinbase_exceeds_supply : Error
  not_coinbase coinbase_inputs coinbase_signed coinbase_overpays genesis_not_coinbase : Error
  missing_witness public_key_invalid key_does_not_own signature_invalid : Error
  block_version block_height block_previous_hash negative_difficulty proof_of_work : Error
  transaction_root_mismatch no_transactions first_not_coinbase several_coinbases : Error
  struct_error unicode_encode_error value_error : Error
  out_of_fuel : Error
