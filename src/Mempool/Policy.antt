-- ===== src/Mempool/Policy.antt =====
-- `MempoolPolicy` of blockchaincoin/utxo_node.py.
use blockchain_coin.Shared.{
  max_ℤ, ℕ, ◌+◌, ◌*◌, ◌/◌, Bool, true, ℤ, pos, negsuc, pos_part, neg_part, sub_ℕ, ◌+ℤ◌, leb_ℤ,
  ltb_ℤ, length, Result, ok, err, bind, raise_if,
}
use blockchain_coin.Failure.{Error}
use blockchain_coin.Consensus.Types.{Transaction}
use blockchain_coin.Consensus.Encode.{transaction_bytes}

infixl 5 ◌>>=◌ ◌>>◌
abbrev pub ◌>>=◌ {ℓ} : {E A : Type 0} {B : Type ℓ} → Result E A → (A → Result E B) → Result E B
◌>>=◌ = bind

abbrev pub ◌>>◌ {ℓ} : {E A : Type 0} {B : Type ℓ} → Result E A → Result E B → Result E B
m >> k = bind m λ _. k

-- MempoolPolicyError by its messages, and what `to_bytes` raises.
pub data MempoolPolicyError : Type 0 where
  max_transactions_not_positive max_bytes_not_positive max_inputs_not_positive : MempoolPolicyError
  max_outputs_not_positive min_fee_negative min_rate_negative rate_step_negative :
      MempoolPolicyError
  replacement_bump_negative eviction_bump_negative : MempoolPolicyError
  pool_full too_many_inputs too_many_outputs too_large fee_too_low : MempoolPolicyError
  replacement_too_cheap : MempoolPolicyError
  count_negative size_negative fee_negative size_not_positive : MempoolPolicyError
  not_encodable : Error → MempoolPolicyError

pub record MempoolPolicy : Type 0 where
  pub max_transactions : ℤ
  pub max_transaction_bytes : ℤ
  pub max_inputs : ℤ
  pub max_outputs : ℤ
  pub min_relay_fee : ℤ
  pub min_relay_fee_rate : ℤ
  pub dynamic_fee_rate_step : ℤ
  pub allow_replacement : Bool
  pub replacement_fee_bump : ℤ
  pub allow_eviction : Bool
  pub eviction_fee_rate_bump : ℤ

-- The product of two integers.
infixl 70 ◌*ℤ◌
unfoldable pub ◌*ℤ◌ : ℤ → ℤ → ℤ
a *ℤ b =
    sub_ℕ (pos_part a * pos_part b + neg_part a * neg_part b)
      (pos_part a * neg_part b + neg_part a * pos_part b)

-- `value // 1000`, which rounds down.
unfoldable pub floor_1000 : ℤ → ℤ
floor_1000 (pos n) = pos (n / 1000)
floor_1000 (negsuc n) = negsuc (n / 1000)

-- `__post_init__`: the policy itself, or the first complaint.
unfoldable pub check_policy : MempoolPolicy → Result MempoolPolicyError MempoolPolicy
check_policy p = do
  raise_if (leb_ℤ p.max_transactions (pos 0)) max_transactions_not_positive
  raise_if (leb_ℤ p.max_transaction_bytes (pos 0)) max_bytes_not_positive
  raise_if (leb_ℤ p.max_inputs (pos 0)) max_inputs_not_positive
  raise_if (leb_ℤ p.max_outputs (pos 0)) max_outputs_not_positive
  raise_if (ltb_ℤ p.min_relay_fee (pos 0)) min_fee_negative
  raise_if (ltb_ℤ p.min_relay_fee_rate (pos 0)) min_rate_negative
  raise_if (ltb_ℤ p.dynamic_fee_rate_step (pos 0)) rate_step_negative
  raise_if (ltb_ℤ p.replacement_fee_bump (pos 0)) replacement_bump_negative
  raise_if (ltb_ℤ p.eviction_fee_rate_bump (pos 0)) eviction_bump_negative
  ok p

unfoldable pub serialized_size : Transaction → Result MempoolPolicyError ℕ
serialized_size t = elim (transaction_bytes true t) [
  | ok raw ↦ ok (length raw)
  | err e ↦ err (not_encodable e)
]

-- The rate for a count that is not negative.
abbrev pub rate_at : MempoolPolicy → ℤ → ℤ
rate_at p count = p.min_relay_fee_rate +ℤ count *ℤ p.dynamic_fee_rate_step

unfoldable pub effective_min_relay_fee_rate : MempoolPolicy → ℤ → Result MempoolPolicyError ℤ
effective_min_relay_fee_rate p current_count = do
  raise_if (ltb_ℤ current_count (pos 0)) count_negative
  ok (rate_at p current_count)

unfoldable pub minimum_fee : MempoolPolicy → ℤ → ℤ → Result MempoolPolicyError ℤ
minimum_fee p transaction_size current_count = do
  raise_if (ltb_ℤ transaction_size (pos 0)) size_negative
  rate ← effective_min_relay_fee_rate p current_count
  ok (max_ℤ p.min_relay_fee (floor_1000 (transaction_size *ℤ rate +ℤ pos 999)))

-- `(fee * 1000) // transaction_bytes`, of a fee that is not negative
unfoldable pub fee_rate : ℤ → ℤ → Result MempoolPolicyError ℤ
fee_rate fee transaction_size = do
  raise_if (ltb_ℤ fee (pos 0)) fee_negative
  raise_if (leb_ℤ transaction_size (pos 0)) size_not_positive
  ok (pos (pos_part fee * 1000 / pos_part transaction_size))

unfoldable pub validate : MempoolPolicy → Transaction → ℤ → ℤ → Result MempoolPolicyError (Unit {0})
validate p t fee current_count = do
  raise_if (leb_ℤ p.max_transactions current_count) pool_full
  raise_if (ltb_ℤ p.max_inputs (pos (length t.inputs))) too_many_inputs
  raise_if (ltb_ℤ p.max_outputs (pos (length t.outputs))) too_many_outputs
  size ← serialized_size t
  raise_if (ltb_ℤ p.max_transaction_bytes (pos size)) too_large
  least ← minimum_fee p (pos size) current_count
  raise_if (ltb_ℤ fee least) fee_too_low
