-- ===== src/Storage/Parameters.antt =====
-- `ChainParameters` and the rows of `metadata` that `SQLiteForkStore` keeps them in
-- (blockchaincoin/storage.py). `json.loads` and Python's `int` of a text are parameters.
use blockchain_coin.Shared.{
  Bool, true, false, not, ◌&&◌, Option, none, some, if◌then◌else◌, and_then, ℤ, pos, eqb_ℤ, Result,
  ok, err, bind, raise_if,
}
use blockchain_coin.Text.{Text, codes, text_eq}
use blockchain_coin.Json.{Json, null, bool, int, str, arr, obj, Fields, end, field, canonical_json}
use blockchain_coin.Failure.{Error}
use blockchain_coin.Crypto.{Primitives, sha256_hex_text}

pub record ChainParameters : Type 0 where
  pub difficulty : ℤ
  pub block_subsidy : ℤ
  pub max_money : ℤ

-- `ChainParameters.to_dict`
unfoldable pub parameters_to_dict : ChainParameters → Json
parameters_to_dict p = obj (
    field (codes "block_subsidy") (int p.block_subsidy) (
      field (codes "difficulty") (int p.difficulty)
        (field (codes "max_money") (int p.max_money) end)))

-- `==` of two data classes, field by field
unfoldable pub parameters_eq : ChainParameters → ChainParameters → Bool
parameters_eq p q =
    eqb_ℤ p.difficulty q.difficulty
    && (eqb_ℤ p.block_subsidy q.block_subsidy && eqb_ℤ p.max_money q.max_money)

-- The values of the keys `chain_parameters` and `chain_id`
pub record Metadata : Type 0 where
  pub chain_parameters : Option Text
  pub chain_id : Option Text

abbrev pub no_metadata : Metadata
no_metadata = record { chain_parameters = none; chain_id = none }

-- StorageError by its messages, what `from_dict` raises (KeyError, TypeError or ValueError), and what
-- computing the id raises.
pub data ParameterError : Type 0 where
  parameters_missing parameters_differ parameters_unreadable : ParameterError
  parameters_id : Error → ParameterError

-- `json.loads` is none where it raises, and so is `int_of_text`, Python's `int` of a text.
pub record Reader : Type 0 where
  pub json_loads : Text → Option Json
  pub int_of_text : Text → Option ℤ

-- `data[key]`: of two fields with one key, the dictionary holds the second.
unfoldable pub value_at : Text → Fields → Option Json
value_at key end = none
value_at key (field k v fs) = elim (value_at key fs) [
  | some w ↦ some w
  | none ↦ if text_eq k key then some v else none
]

module _ (reader : Reader) where
  -- `int(value)`
  unfoldable pub int_of_value : Json → Option ℤ
  int_of_value null = none
  int_of_value (bool true) = some (pos 1)
  int_of_value (bool false) = some (pos 0)
  int_of_value (int n) = some n
  int_of_value (str t) = reader.int_of_text t
  int_of_value (arr xs) = none
  int_of_value (obj fs) = none

  unfoldable pub int_at : Text → Fields → Option ℤ
  int_at key fs = and_then (value_at key fs) int_of_value

  unfoldable pub parameters_of_fields : Fields → Option ChainParameters
  parameters_of_fields fs = and_then (int_at (codes "difficulty") fs) λ difficulty.
      and_then (int_at (codes "block_subsidy") fs) λ subsidy.
        and_then (int_at (codes "max_money") fs) λ limit.
          some (record { difficulty = difficulty; block_subsidy = subsidy; max_money = limit })

  -- `ChainParameters.from_dict`
  unfoldable pub parameters_from_dict : Json → Option ChainParameters
  parameters_from_dict (obj fs) = parameters_of_fields fs
  parameters_from_dict null = none
  parameters_from_dict (bool b) = none
  parameters_from_dict (int n) = none
  parameters_from_dict (str t) = none
  parameters_from_dict (arr xs) = none

  unfoldable pub load_chain_parameters : Metadata → Result ParameterError (Option ChainParameters)
  load_chain_parameters rows = elim rows.chain_parameters [
    | none ↦ ok none
    | some text ↦ elim (and_then (reader.json_loads text) parameters_from_dict) [
      | none ↦ err parameters_unreadable
      | some p ↦ ok (some p)
    ]
  ]

module _ ⦃prim : Primitives⦄ where
  -- `ChainParameters.chain_id`
  unfoldable pub chain_id_of : ChainParameters → Result Error Text
  chain_id_of p = sha256_hex_text (canonical_json (parameters_to_dict p))

  -- `save_chain_parameters`: both rows, or none where computing the id raises.
  unfoldable pub save_chain_parameters : ChainParameters → Metadata → Result ParameterError Metadata
  save_chain_parameters p rows = elim (chain_id_of p) [
    | err e ↦ err (parameters_id e)
    | ok id ↦ ok (record {
      chain_parameters = some (canonical_json (parameters_to_dict p));
      chain_id = some id;
    })
  ]

  -- `require_chain_parameters`, with whether the store has a tip: the rows after it
  unfoldable pub require_chain_parameters :
      Reader → Bool → ChainParameters → Metadata → Result ParameterError Metadata
  require_chain_parameters reader has_tip expected rows =
      bind (load_chain_parameters reader rows) λ loaded. elim loaded [
        | none ↦ if has_tip then err parameters_missing else save_chain_parameters expected rows
        | some stored ↦
            bind (raise_if (not (parameters_eq stored expected)) parameters_differ) λ _. ok rows
      ]
