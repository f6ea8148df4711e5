-- ===== src/Consensus/Blocks.antt =====
-- `BlockProcessor` and `rebuild_state_from_blocks` of blockchaincoin/consensus.py: the rules for one
-- block, and the replay of a chain.
pub mod Body
pub mod Atomic
pub mod Chain
use blockchain_coin.Shared.{
  ℕ, zero, suc, ◌+◌, ◌≡◌, Bool, true, false, not, ◌&&◌, ◌||◌, List, [], ◌∷◌, replicate, is_empty,
  if◌then◌else◌, ℤ, pos, pos_part, ◌+ℤ◌, ltb_ℤ, eqb_ℤ, Result, ok, err, bind, raise_if,
}
use blockchain_coin.Text.{Text, text_eq, starts_with}
use blockchain_coin.Failure.{
  Error, block_version, block_height, block_previous_hash, negative_difficulty, proof_of_work,
  transaction_root_mismatch, no_transactions, first_not_coinbase, several_coinbases,
}
use blockchain_coin.Crypto.{Primitives}
use blockchain_coin.Consensus.Types.{Transaction, Block, zero_hash, is_coinbase}
use blockchain_coin.Consensus.Encode.{block_hash}
use blockchain_coin.Consensus.Merkle.{calculate_transaction_root}
use blockchain_coin.Consensus.Utxo.{UtxoSet, empty, copy}
use blockchain_coin.Consensus.State.{
  ConsensusState, new_state, apply_transaction, apply_block_coinbase, apply_genesis_coinbase,
}

infixl 5 ◌>>=◌ ◌>>◌
abbrev ◌>>=◌ {ℓ} :
    {A : Type 0} {B : Type ℓ} → Result Error A → (A → Result Error B) → Result Error B
◌>>=◌ = bind

abbrev ◌>>◌ {ℓ} : {A : Type 0} {B : Type ℓ} → Result Error A → Result Error B → Result Error B
m >> k = bind m λ _. k

-- `"0" * difficulty`
abbrev pub work_target : ℤ → Text
work_target difficulty = replicate (pos_part difficulty) b'0'

-- `any(transaction.is_coinbase for transaction in transactions)`
unfoldable pub any_coinbase : List Transaction → Bool
any_coinbase [] = false
any_coinbase (t ∷ ts) = is_coinbase t || any_coinbase ts

-- `transactions[0].is_coinbase`
unfoldable pub first_is_coinbase : List Transaction → Bool
first_is_coinbase [] = false
first_is_coinbase (t ∷ ts) = is_coinbase t

-- `transactions[1:]`
abbrev pub spends_of : List Transaction → List Transaction
spends_of [] = []
spends_of (t ∷ ts) = ts

-- `block.height == 0 and block.previous_hash == "0" * 64`
unfoldable pub is_genesis : Block → Bool
is_genesis b = eqb_ℤ b.height (pos 0) && text_eq b.previous_hash zero_hash

module _ ⦃prim : Primitives⦄ where
  -- The checks of `validate_block` before it touches a state.
  unfoldable pub check_header : Block → ℤ → Text → Result Error (Unit {0})
  check_header b expected_height expected_previous_hash = do
    raise_if (not (eqb_ℤ b.version (pos 1))) block_version
    raise_if (not (eqb_ℤ b.height expected_height)) block_height
    raise_if (not (text_eq b.previous_hash expected_previous_hash)) block_previous_hash
    raise_if (ltb_ℤ b.difficulty (pos 0)) negative_difficulty
    hash ← block_hash b
    raise_if (not (starts_with hash (work_target b.difficulty))) proof_of_work
    root ← calculate_transaction_root b.transactions
    raise_if (not (text_eq b.transaction_root root)) transaction_root_mismatch
    raise_if (is_empty b.transactions) no_transactions
    raise_if (not (first_is_coinbase b.transactions)) first_not_coinbase
    raise_if (any_coinbase (spends_of b.transactions)) several_coinbases

  -- `for transaction in ...: fees += state.apply_transaction(transaction)`; the state keeps what was
  -- applied before one raises.
  unfoldable pub apply_all : ℤ → List Transaction → ConsensusState → Result Error ℤ × ConsensusState
  apply_all fees [] s = (ok fees, s)
  apply_all fees (t ∷ ts) s =
      let (r, s') = apply_transaction t s in
      elim r [ ok fee ↦ apply_all (fees +ℤ fee) ts s' | err e ↦ (err e, s') ]

  -- The call for `transactions[0]`, by whether the block is a first block.
  unfoldable pub apply_first :
      Bool → List Transaction → ℤ → ConsensusState → Result Error (Unit {0}) × ConsensusState
  apply_first genesis [] fees s = (err no_transactions, s)
  apply_first true (t ∷ ts) fees s = apply_genesis_coinbase t s
  apply_first false (t ∷ ts) fees s = apply_block_coinbase t fees s

  unfoldable pub apply_reward :
      Block → ℤ → ConsensusState → Result Error (Unit {0}) × ConsensusState
  apply_reward b fees s = apply_first (is_genesis b) b.transactions fees s

  -- The transactions after the first, then the first: done once on a candidate, once in earnest.
  unfoldable pub apply_body : Block → ConsensusState → Result Error ℤ × ConsensusState
  apply_body b s =
      let (r, s') = apply_all (pos 0) (spends_of b.transactions) s in
      elim r [
        | err e ↦ (err e, s')
        | ok fees ↦ let (r', s'') = apply_reward b fees s' in (bind r' λ _. ok fees, s'')
      ]

  -- `validate_block`: on a copy of the state.
  unfoldable pub validate_block : Block → ℤ → Text → ConsensusState → Result Error ℤ
  validate_block b expected_height expected_previous_hash s = do
    check_header b expected_height expected_previous_hash
    copied ← copy s.utxos
    candidate ← new_state copied s.block_subsidy s.max_money
    (apply_body b candidate).0

  -- `apply_block`: what has been validated is applied again, this time to the processor's own
  -- state, with the fees that `validate_block` returned.
  unfoldable pub apply_block : Block → ℤ → Text → ConsensusState → Result Error ℤ × ConsensusState
  apply_block b expected_height expected_previous_hash s =
      elim (validate_block b expected_height expected_previous_hash s) [
        | err e ↦ (err e, s)
        | ok fees ↦
            let (r, s') = apply_all (pos 0) (spends_of b.transactions) s in
            elim r [
              | err e ↦ (err e, s')
              | ok _ ↦ let (r', s'') = apply_reward b fees s' in (bind r' λ _. ok fees, s'')
            ]
      ]

  -- The loop of `rebuild_state_from_blocks`
  unfoldable pub replay : ℕ → Text → List Block → ConsensusState → Result Error ConsensusState
  replay expected_height expected_previous_hash [] s = ok s
  replay expected_height expected_previous_hash (b ∷ bs) s =
      let (r, s') = apply_block b (pos expected_height) expected_previous_hash s in
      do r; hash ← block_hash b; replay (expected_height + 1) hash bs s'

  unfoldable pub rebuild_state_from_blocks : List Block → ℤ → ℤ → Result Error ConsensusState
  rebuild_state_from_blocks blocks subsidy limit = do
    s ← new_state empty subsidy limit
    replay 0 zero_hash blocks s
