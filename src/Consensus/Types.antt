-- ===== src/Consensus/Types.antt =====
-- The frozen data classes of blockchaincoin/consensus.py and their `to_dict` forms. An amount, an
-- index or a height is any Python int; a public key is a dictionary of texts.
use blockchain_coin.Shared.{
  ℕ, ◌≡◌, ◌↔◌, Bool, true, false, ◌&&◌, Option, List, [], ◌∷◌, map, arith, ltb_ℤ, eqb_ℤ, eqb_ℤ_iff,
  ℤ, pos, replicate, Comparable,
}
use blockchain_coin.Text.{Text, codes, text_eq, text_eq_iff}
use blockchain_coin.Json.{Json, int, str, arr, obj, end, field, items_of, canonical_json}

pub record OutPoint : Type 0 where
  pub txid : Text
  pub index : ℤ

-- `OutPoint.__eq__`, field by field.
unfoldable pub outpoint_eq : OutPoint → OutPoint → Bool
outpoint_eq p q = text_eq p.txid q.txid && eqb_ℤ p.index q.index

pub outpoint_eq_iff : (p q : OutPoint) → (outpoint_eq p q ≡ true) ↔ (p ≡ q)
unfolding outpoint_eq
outpoint_eq_iff p q = ground (arith, text_eq_iff p.txid q.txid, eqb_ℤ_iff p.index q.index)

instance abbrev pub outpoint_equality : Comparable OutPoint
outpoint_equality = record { same = outpoint_eq; same_iff = outpoint_eq_iff }

pub record TxInput : Type 0 where
  pub previous_output : OutPoint
  pub signature : Option Text
  pub public_key : Option (List (Text × Text))

pub record TxOutput : Type 0 where
  pub amount : ℤ
  pub address : Text

-- `ConsensusTransaction`
pub record Transaction : Type 0 where
  pub inputs : List TxInput
  pub outputs : List TxOutput
  pub version : ℤ

-- `ConsensusBlock`; the timestamp is the bit pattern of a float.
pub record Block : Type 0 where
  pub height : ℤ
  pub previous_hash : Text
  pub transactions : List Transaction
  pub difficulty : ℤ
  pub timestamp : ℕ
  pub nonce : ℤ
  pub transaction_root : Text
  pub version : ℤ

-- `"0" * 64`: COINBASE_PREV_TXID, and the parent of a first block.
abbrev pub zero_hash : Text
zero_hash = replicate 64 b'0'

-- `ConsensusTransaction.is_coinbase`
unfoldable pub is_coinbase : Transaction → Bool
is_coinbase transaction = elim transaction.inputs [
  | [] ↦ false
  | i ∷ others ↦ elim others [
    | [] ↦ text_eq i.previous_output.txid zero_hash && ltb_ℤ i.previous_output.index (pos 0)
    | j ∷ more ↦ false
  ]
]

-- `OutPoint.to_dict`
unfoldable pub outpoint_to_dict : OutPoint → Json
outpoint_to_dict p =
    obj (field (codes "txid") (str p.txid) (field (codes "index") (int p.index) end))

-- `TxInput.unsigned_payload`, which is `to_dict(include_witness=False)`
unfoldable pub unsigned_payload : TxInput → Json
unfolding outpoint_to_dict
unsigned_payload i = obj (field (codes "previous_output") (outpoint_to_dict i.previous_output) end)

-- `TxOutput.to_dict`
unfoldable pub output_to_dict : TxOutput → Json
output_to_dict o =
    obj (field (codes "amount") (int o.amount) (field (codes "address") (str o.address) end))

-- The dictionary that `signing_message` prints.
unfoldable pub signing_payload : Transaction → ℕ → Json
unfolding unsigned_payload output_to_dict
signing_payload transaction input_index = obj (
    field (codes "input_index") (int (pos input_index)) (
      field (codes "inputs") (arr (items_of (map unsigned_payload transaction.inputs))) (
        field (codes "outputs") (arr (items_of (map output_to_dict transaction.outputs)))
          (field (codes "version") (int transaction.version) end))))

-- `ConsensusTransaction.signing_message`
unfoldable pub signing_message : Transaction → ℕ → Text
unfolding signing_payload
signing_message transaction input_index = canonical_json (signing_payload transaction input_index)
