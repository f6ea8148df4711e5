-- ===== src/Node/Queries.antt =====
-- The queries of `ConsensusNode` (blockchaincoin/utxo_node.py), which change nothing. A dictionary
-- that a query returns is a record; where it holds no key the field is none.
use blockchain_coin.Shared.{
  ℕ, Bool, true, false, not, Option, none, some, List, [], ◌∷◌, map, length, get_elem?, ℤ, pos, sum,
  ltb_ℤ, pos_part, if◌then◌else◌, Result, ok, err, bind, raise_if,
}
use blockchain_coin.Text.{Text, text_eq}
use blockchain_coin.Failure.{Error}
use blockchain_coin.Crypto.{Primitives, is_valid_address}
use blockchain_coin.Consensus.Types.{Transaction, Block, is_coinbase}
use blockchain_coin.Consensus.Encode.{txid, block_hash}
use blockchain_coin.Consensus.Utxo.{Utxo}
use blockchain_coin.Consensus.State.{ConsensusState, apply_transaction, output_total}
use blockchain_coin.ForkStore.{ForkStore, get_block}
use blockchain_coin.ForkChoice.{active_chain}
use blockchain_coin.Mempool.Policy.{serialized_size, fee_rate}
use blockchain_coin.Mempool.Prune.{candidate_of}
use blockchain_coin.Node.Types.{
  NodeError, address_invalid, one_selector_wanted, height_negative, unknown_height, unknown_hash,
  unknown_transaction, consensus_raises, policy_raises, storage_raises, fork_raises, Node, lift,
  ◌>>=◌, ◌>>◌,
}
use blockchain_coin.Node.Submit.{txids, mem_text}
use blockchain_coin.Node.Assemble.{spendable_outputs}

-- A row of `mempool_summary`
pub record MempoolRow : Type 0 where
  pub id : Text
  pub input_count : ℕ
  pub output_count : ℕ
  pub output_value : ℤ
  pub fee : Option ℤ
  pub rate : Option ℤ
  pub size : ℕ
  pub valid : Bool

-- `spendable_summary`, with the entries whose fields its `utxos` lists
pub record SpendableSummary : Type 0 where
  pub address : Text
  pub balance : ℤ
  pub count : ℕ
  pub utxos : List Utxo

-- `block_summary`
pub record BlockSummary : Type 0 where
  pub hash : Text
  pub block : Block
  pub transaction_ids : List Text
  pub transaction_count : ℕ
  pub cumulative_work : ℕ
  pub active : Bool

-- `_transaction_summary`, with the transaction whose inputs and outputs it prints; the status is
-- "confirmed" where there is a block, and else "mempool".
pub record TransactionSummary : Type 0 where
  pub id : Text
  pub transaction : Transaction
  pub coinbase : Bool
  pub input_count : ℕ
  pub output_count : ℕ
  pub output_value : ℤ
  pub confirmed_in : Option (Text × ℤ)

unfoldable pub spendable_summary : Text → Node → Result NodeError SpendableSummary
spendable_summary address n = do
  raise_if (not (is_valid_address address)) address_invalid
  let found : List Utxo = spendable_outputs address n
  ok (record {
    address = address;
    balance = sum (map (λ e. e.output.amount) found);
    count = length found;
    utxos = found;
  })

module _ ⦃prim : Primitives⦄ where
  -- The fee and the rate that the loop of `mempool_summary` finds, or none where something raises,
  -- and the candidate after it
  unfoldable pub row_fee : Transaction → ℕ → ConsensusState → Option (ℤ × ℤ) × ConsensusState
  row_fee t size candidate =
      let (r, candidate') = apply_transaction t candidate in
      elim r [
        | err e ↦ (none, candidate')
        | ok fee ↦ elim (fee_rate fee (pos size)) [
          | err e ↦ (none, candidate')
          | ok rate ↦ (some (fee, rate), candidate')
        ]
      ]

  unfoldable pub mempool_row : Transaction → Text → ℕ → Option (ℤ × ℤ) → MempoolRow
  mempool_row t id size paid = record {
    id = id;
    input_count = length t.inputs;
    output_count = length t.outputs;
    output_value = output_total t.outputs;
    fee = elim paid [ none ↦ none | some (fee, rate) ↦ some fee ];
    rate = elim paid [ none ↦ none | some (fee, rate) ↦ some rate ];
    size = size;
    valid = elim paid [ none ↦ false | some both ↦ true ];
  }

  -- The loop of `mempool_summary`
  unfoldable pub rows_from : ConsensusState → List Transaction → Result NodeError (List MempoolRow)
  rows_from candidate [] = ok []
  rows_from candidate (t ∷ ts) = do
    size ← lift policy_raises (serialized_size t)
    let (paid, candidate') = row_fee t size candidate
    id ← lift consensus_raises (txid t)
    rest ← rows_from candidate' ts
    ok (mempool_row t id size paid ∷ rest)

  unfoldable pub mempool_summary : Node → Result NodeError (List MempoolRow)
  mempool_summary n =
      lift consensus_raises (candidate_of n.state) >>= λ candidate. rows_from candidate n.mempool

  unfoldable pub hashes_of : List Block → Result Error (List Text)
  hashes_of [] = ok []
  hashes_of (b ∷ bs) = bind (block_hash b) λ hash. bind (hashes_of bs) λ rest. ok (hash ∷ rest)

  abbrev pub active_blocks : Node → Result NodeError (List Block)
  active_blocks n =
      lift fork_raises (active_chain n.fork_subsidy n.fork_limit n.store) >>= λ active.
      ok active.blocks

  -- `active_chain_hashes`
  unfoldable pub active_chain_hashes : Node → Result NodeError (List Text)
  active_chain_hashes n = active_blocks n >>= λ blocks. lift consensus_raises (hashes_of blocks)

  -- The block at a height of the active chain, as it is stored
  unfoldable pub block_at_height : ℤ → List Block → ForkStore → Result NodeError (Block × ℕ)
  block_at_height height blocks store =
      let at : Result NodeError (Block × ℕ) = elim (get_elem? blocks (pos_part height)) [
        | none ↦ err unknown_height
        | some b ↦ do
          hash ← lift consensus_raises (block_hash b)
          stored ← lift storage_raises (get_block hash store)
          ok (b, stored.cumulative_work)
      ] in
      if ltb_ℤ height (pos 0) then err height_negative else at

  -- The block with a hash, of any branch
  unfoldable pub block_with_hash : Text → ForkStore → Result NodeError (Block × ℕ)
  block_with_hash hash store = elim (get_block hash store) [
    | err e ↦ err unknown_hash
    | ok stored ↦ ok (stored.block, stored.cumulative_work)
  ]

  unfoldable pub select_block :
      Option Text → Option ℤ → List Block → ForkStore → Result NodeError (Block × ℕ)
  select_block none none blocks store = err one_selector_wanted
  select_block (some hash) (some height) blocks store = err one_selector_wanted
  select_block none (some height) blocks store = block_at_height height blocks store
  select_block (some hash) none blocks store = block_with_hash hash store

  -- `(block_hash is None) == (height is None)`
  unfoldable pub one_selector : Option Text → Option ℤ → Bool
  one_selector none none = false
  one_selector (some hash) (some height) = false
  one_selector none (some height) = true
  one_selector (some hash) none = true

  unfoldable pub block_summary : Option Text → Option ℤ → Node → Result NodeError BlockSummary
  block_summary wanted height n = do
    raise_if (not (one_selector wanted height)) one_selector_wanted
    blocks ← active_blocks n
    active_hashes ← lift consensus_raises (hashes_of blocks)
    selected ← select_block wanted height blocks n.store
    hash ← lift consensus_raises (block_hash selected.0)
    ids ← lift consensus_raises (txids selected.0.transactions)
    ok (record {
      hash = hash;
      block = selected.0;
      transaction_ids = ids;
      transaction_count = length selected.0.transactions;
      cumulative_work = selected.1;
      active = mem_text hash active_hashes;
    })

  -- The first transaction of a list with an id
  unfoldable pub find_transaction : Text → List Transaction → Result Error (Option Transaction)
  find_transaction wanted [] = ok none
  find_transaction wanted (t ∷ ts) =
      let rest = find_transaction wanted ts in
      bind (txid t) λ id. if text_eq id wanted then ok (some t) else rest

  unfoldable pub find_confirmed :
      Text → List Block → Result Error (Option (Transaction × (Text × ℤ)))
  find_confirmed wanted [] = ok none
  find_confirmed wanted (b ∷ bs) = bind (find_transaction wanted b.transactions) λ here. elim here [
    | none ↦ find_confirmed wanted bs
    | some t ↦ bind (block_hash b) λ hash. ok (some (t, (hash, b.height)))
  ]

  -- `_transaction_summary`, of a transaction with its id
  unfoldable pub summary_of : Transaction → Option (Text × ℤ) → Result Error TransactionSummary
  summary_of t place = bind (txid t) λ id. ok (record {
    id = id;
    transaction = t;
    coinbase = is_coinbase t;
    input_count = length t.inputs;
    output_count = length t.outputs;
    output_value = output_total t.outputs;
    confirmed_in = place;
  })

  -- `transaction_summary`: in the active chain, and else in the pool
  unfoldable pub transaction_summary : Text → Node → Result NodeError TransactionSummary
  transaction_summary wanted n = do
    blocks ← active_blocks n
    confirmed ← lift consensus_raises (find_confirmed wanted blocks)
    elim confirmed [
      | some (t, place) ↦ lift consensus_raises (summary_of t (some place))
      | none ↦
          (lift consensus_raises (find_transaction wanted n.mempool) >>= λ pooled. elim pooled [
            | none ↦ err unknown_transaction
            | some t ↦ lift consensus_raises (summary_of t none)
          ])
    ]
