-- ===== src/Consensus/State.antt =====
-- `ConsensusState` of blockchaincoin/consensus.py: the rules for one transaction. A method takes the
-- state and returns what it raised or returned with the state after it.
pub mod Witness
pub mod Spending
pub mod Conservation
pub mod Invariant
pub mod Methods
use blockchain_coin.Shared.{
  ℕ, suc, zero, ◌+◌, ◌≡◌, Bool, true, false, not, ◌&&◌, ◌||◌, Option, none, some, List, [], ◌∷◌,
  map, length, is_empty, if◌then◌else◌, ℤ, pos, pos_part, negsuc, ◌+ℤ◌, ◌-ℤ◌, sum, ltb_ℤ, leb_ℤ,
  eqb_ℤ, Result, ok, err, bind, raise_if, ◌==◌,
}
use blockchain_coin.Text.{Text, codes, text_eq}
use blockchain_coin.Failure.{
  Error, index_out_of_range, negative_subsidy, max_money_not_positive, transaction_version,
  no_outputs, amount_not_positive, amount_above_maximum, output_address, no_inputs, double_spend,
  spends_more_than_inputs, supply_exceeded, miner_address, negative_fees, negative_height,
  coinbase_exceeds_supply, not_coinbase, coinbase_inputs, coinbase_signed, coinbase_overpays,
  genesis_not_coinbase, missing_witness, public_key_invalid, key_does_not_own, signature_invalid,
}
use blockchain_coin.Crypto.{Primitives, PublicKey, is_valid_address, key_address, verify_signature}
use blockchain_coin.Consensus.Types.{
  OutPoint, TxInput, TxOutput, Transaction, outpoint_equality, outpoint_eq, zero_hash, is_coinbase,
  signing_message,
}
use blockchain_coin.Consensus.Encode.{txid}
use blockchain_coin.Consensus.Utxo
use blockchain_coin.Consensus.Utxo.{UtxoSet, empty, add, copy, spend, get, total}

infixl 5 ◌>>=◌ ◌>>◌
abbrev ◌>>=◌ {ℓ} :
    {A : Type 0} {B : Type ℓ} → Result Error A → (A → Result Error B) → Result Error B
◌>>=◌ = bind

abbrev ◌>>◌ {ℓ} : {A : Type 0} {B : Type ℓ} → Result Error A → Result Error B → Result Error B
m >> k = bind m λ _. k

pub record ConsensusState : Type 0 where
  pub utxos : UtxoSet
  pub block_subsidy : ℤ
  pub max_money : ℤ

-- MAX_MONEY of blockchaincoin/constants.py
abbrev pub default_max_money : ℤ
default_max_money = pos 21_000_000_000_000_000

-- `ConsensusState(utxos, block_subsidy, max_money)`
unfoldable pub new_state : UtxoSet → ℤ → ℤ → Result Error ConsensusState
new_state entries subsidy limit = do
  raise_if (ltb_ℤ subsidy (pos 0)) negative_subsidy
  raise_if (leb_ℤ limit (pos 0)) max_money_not_positive
  ok (record { utxos = entries; block_subsidy = subsidy; max_money = limit })

-- The assignment `self.utxos = updated` that ends a method, where nothing was raised before it.
unfoldable pub commit :
    {A : Type 0} → ConsensusState → Result Error (A × UtxoSet) → Result Error A × ConsensusState
commit s (ok (a, updated)) = (ok a, record s { utxos = updated })
commit s (err e) = (err e, s)

unfoldable pub output_total : List TxOutput → ℤ
output_total outputs = sum (map (λ o. o.amount) outputs)

-- `_validate_transaction_version`
unfoldable pub validate_version : Transaction → Result Error (Unit {0})
validate_version t = raise_if (not (eqb_ℤ t.version (pos 1))) transaction_version

-- The loop of `_validate_outputs`
unfoldable pub validate_each_output : ℤ → List TxOutput → Result Error (Unit {0})
validate_each_output limit [] = ok tt
validate_each_output limit (o ∷ os) = do
  raise_if (leb_ℤ o.amount (pos 0)) amount_not_positive
  raise_if (ltb_ℤ limit o.amount) amount_above_maximum
  raise_if (not (is_valid_address o.address)) output_address
  validate_each_output limit os

-- `_validate_outputs`
unfoldable pub validate_outputs : ConsensusState → List TxOutput → Result Error (Unit {0})
validate_outputs s [] = err no_outputs
validate_outputs s (o ∷ os) = validate_each_output s.max_money (o ∷ os)

-- `signature is not None or public_key is not None`, of the first input
unfoldable pub first_is_signed : Transaction → Bool
first_is_signed t = elim t.inputs [
  | [] ↦ false
  | i ∷ is ↦ elim i.signature [
    | some signature ↦ true
    | none ↦ elim i.public_key [ some key ↦ true | none ↦ false ]
  ]
]

has_one_input : Transaction → Bool
has_one_input t = elim t.inputs [ [] ↦ false | i ∷ is ↦ elim is [ [] ↦ true | j ∷ js ↦ false ] ]

-- `_validate_coinbase`
unfoldable pub validate_coinbase : ConsensusState → Transaction → Result Error ℤ
unfolding has_one_input first_is_signed output_total
validate_coinbase s t = do
  raise_if (not (has_one_input t)) coinbase_inputs
  raise_if (first_is_signed t) coinbase_signed
  raise_if (ltb_ℤ s.block_subsidy (output_total t.outputs)) coinbase_overpays
  ok (pos 0)

-- `data[name]`, of a dictionary of texts
unfoldable pub get_field : Text → List (Text × Text) → Option Text
get_field name [] = none
get_field name ((k, v) ∷ fields) = if text_eq k name then some v else get_field name fields

-- `PublicKey.from_dict`; a missing entry is a KeyError, which the caller turns into its own.
unfoldable pub public_key_from_dict : List (Text × Text) → Result Error PublicKey
public_key_from_dict fields = elim (get_field (codes "algorithm") fields) [
  | none ↦ err public_key_invalid
  | some name ↦ elim (get_field (codes "key") fields) [
    | none ↦ err public_key_invalid
    | some material ↦ ok (record { algorithm = name; key = material })
  ]
]

-- `not tx_input.public_key or not tx_input.signature`: what is missing or empty
unfoldable pub witness : TxInput → Option (List (Text × Text) × Text)
witness i = elim i.public_key [
  | none ↦ none
  | some fields ↦ elim fields [
    | [] ↦ none
    | f ∷ fs ↦ elim i.signature [
      | none ↦ none
      | some signature ↦ elim signature [ [] ↦ none | c ∷ cs ↦ some (f ∷ fs, c ∷ cs) ]
    ]
  ]
]

unfoldable pub mem : OutPoint → List OutPoint → Bool
mem p [] = false
mem p (q ∷ qs) = q == p || mem p qs

-- `for tx_input in inputs: updated.spend(...)`
unfoldable pub spend_all : List TxInput → UtxoSet → Result Error UtxoSet
spend_all [] updated = ok updated
spend_all (i ∷ is) updated = spend i.previous_output updated >>= λ (_, rest). spend_all is rest

module _ ⦃prim : Primitives⦄ where
  -- `_validate_input_signature`
  unfoldable pub validate_input_signature :
      Transaction → ℕ → TxInput → TxOutput → Result Error (Unit {0})
  validate_input_signature t input_index i previous_output = elim (witness i) [
    | none ↦ err missing_witness
    | some (fields, signature) ↦ do
      public_key ← public_key_from_dict fields
      address ← key_address public_key
      raise_if (not (text_eq address previous_output.address)) key_does_not_own
      raise_if (not (verify_signature public_key (signing_message t input_index) signature))
          signature_invalid
  ]

  -- The loop of `validate_transaction`: the sum of the inputs from `input_index` on.
  unfoldable pub validate_inputs :
      ConsensusState → Transaction → ℕ → List OutPoint → ℤ → List TxInput → Result Error ℤ
  validate_inputs s t input_index seen input_total [] = ok input_total
  validate_inputs s t input_index seen input_total (i ∷ is) = do
    raise_if (mem i.previous_output seen) double_spend
    previous_output ← get i.previous_output s.utxos
    validate_input_signature t input_index i previous_output
    validate_inputs s t (input_index + 1) (i.previous_output ∷ seen)
        (input_total +ℤ previous_output.amount) is

  -- The last part of `validate_transaction`, for a transaction that is no coinbase.
  unfoldable pub validate_spend : ConsensusState → Transaction → Result Error ℤ
  validate_spend s t = do
    raise_if (is_empty t.inputs) no_inputs
    input_total ← validate_inputs s t 0 [] (pos 0) t.inputs
    raise_if (ltb_ℤ input_total (output_total t.outputs)) spends_more_than_inputs
    ok (input_total -ℤ output_total t.outputs)

  unfoldable pub validate_transaction : ConsensusState → Transaction → Result Error ℤ
  validate_transaction s t = do
    validate_version t
    validate_outputs s t.outputs
    if is_coinbase t then validate_coinbase s t else validate_spend s t

  -- `for index, output in enumerate(outputs): updated.add(OutPoint(txid, index), output)`
  unfoldable pub add_outputs : Transaction → ℕ → List TxOutput → UtxoSet → Result Error UtxoSet
  add_outputs t number [] updated = ok updated
  add_outputs t number (o ∷ os) updated = do
    id ← txid t
    let outpoint : OutPoint = record { txid = id; index = pos number }
    updated' ← add outpoint o updated
    add_outputs t (number + 1) os updated'

  -- The outputs of `t` added to a set, and the check against the maximum supply.
  unfoldable pub create_outputs : ConsensusState → Transaction → UtxoSet → Result Error UtxoSet
  create_outputs s t spent = do
    updated ← add_outputs t 0 t.outputs spent
    raise_if (ltb_ℤ s.max_money (total updated)) supply_exceeded
    ok updated

  -- What `apply_transaction` computes before it assigns to `self.utxos`.
  unfoldable pub transaction_update : ConsensusState → Transaction → Result Error (ℤ × UtxoSet)
  transaction_update s t = do
    fee ← validate_transaction s t
    copied ← copy s.utxos
    spent ← (if is_coinbase t then ok copied else spend_all t.inputs copied)
    updated ← create_outputs s t spent
    ok (fee, updated)

  unfoldable pub apply_transaction : Transaction → ConsensusState → Result Error ℤ × ConsensusState
  apply_transaction t s = commit s (transaction_update s t)

  -- What the two methods for coinbases share after their own checks.
  unfoldable pub coinbase_update : ConsensusState → Transaction → Result Error (Unit {0} × UtxoSet)
  coinbase_update s t = do
    copied ← copy s.utxos
    updated ← create_outputs s t copied
    ok (tt, updated)

  unfoldable pub apply_block_coinbase :
      Transaction → ℤ → ConsensusState → Result Error (Unit {0}) × ConsensusState
  apply_block_coinbase t fees s = commit s do
    validate_version t
    validate_outputs s t.outputs
    raise_if (not (is_coinbase t)) not_coinbase
    raise_if (ltb_ℤ fees (pos 0)) negative_fees
    raise_if (first_is_signed t) coinbase_signed
    raise_if (ltb_ℤ (s.block_subsidy +ℤ fees) (output_total t.outputs)) coinbase_overpays
    coinbase_update s t

  unfoldable pub apply_genesis_coinbase :
      Transaction → ConsensusState → Result Error (Unit {0}) × ConsensusState
  apply_genesis_coinbase t s = commit s do
    validate_version t
    validate_outputs s t.outputs
    raise_if (not (is_coinbase t)) genesis_not_coinbase
    raise_if (first_is_signed t) coinbase_signed
    coinbase_update s t

-- `create_coinbase`
unfoldable pub create_coinbase : ConsensusState → Text → ℤ → ℤ → Result Error Transaction
create_coinbase s address fees height = do
  raise_if (not (is_valid_address address)) miner_address
  raise_if (ltb_ℤ fees (pos 0)) negative_fees
  raise_if (ltb_ℤ height (pos 0)) negative_height
  let reward : ℤ = s.block_subsidy +ℤ fees
  raise_if (ltb_ℤ s.max_money (total s.utxos +ℤ s.block_subsidy)) coinbase_exceeds_supply
  let point : OutPoint = record { txid = zero_hash; index = negsuc 0 -ℤ height }
  let source : TxInput = record { previous_output = point; signature = none; public_key = none }
  let payment : TxOutput = record { amount = reward; address = address }
  ok (record { inputs = source ∷ []; outputs = payment ∷ []; version = pos 1 })

-- `signed_inputs[input_index] = TxInput(...)`
unfoldable pub replace_witness : Text → List (Text × Text) → ℕ → List TxInput → List TxInput
replace_witness signed key n [] = []
replace_witness signed key zero (i ∷ is) =
    record i { signature = some signed; public_key = some key } ∷ is
replace_witness signed key (suc n) (i ∷ is) = i ∷ replace_witness signed key n is

-- `ConsensusTransaction.sign_input`, with the wallet as its `sign` and its public key's dictionary
unfoldable pub sign_input :
    Transaction → ℤ → (Text → Text) → List (Text × Text) → Result Error Transaction
unfolding replace_witness
sign_input t input_index sign key =
    let at = pos_part input_index in
    if ltb_ℤ input_index (pos 0) || leb_ℤ (pos (length t.inputs)) input_index
    then err index_out_of_range
    else ok (record t { inputs = replace_witness (sign (signing_message t at)) key at t.inputs })
