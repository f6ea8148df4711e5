-- ===== src/Node/Sound.antt =====
-- A `ConsensusNode` (blockchaincoin/utxo_node.py) stays sound under `import_block`, on every path
-- through it.
use blockchain_coin.Shared.{
  ◌≡◌, refl, ◌∙◌, Option, some, Result, ok, err, bind, Option-cases, Result-cases, inl, inr,
}
use blockchain_coin.Text.{Text}
use blockchain_coin.Crypto.{Primitives}
use blockchain_coin.Consensus.Types.{Block}
use blockchain_coin.Consensus.Encode.{block_hash}
use blockchain_coin.ForkStore.{StoredBlock}
use blockchain_coin.ForkChoice.{ActiveChain, best_tip, tip_of, active_chain, branch_to_tip}
use blockchain_coin.ForkChoice.Replayed.{active_chain-rebuilds}
use blockchain_coin.Mempool.Prune.{prune_invalid_mempool}
use blockchain_coin.Storage.Pool.{replace_all}
use blockchain_coin.Storage.Index.{UtxoIndex, save_tip_snapshot, save_snapshot, save_tip_spends}
use blockchain_coin.Node.Types.{
  NodeError, header_invalid, consensus_raises, fork_raises, index_raises, Node, Outcome, attempt,
  persist,
}
use blockchain_coin.Node.Submit.{txids, without_txids, prune_mempool}
use blockchain_coin.Node.Import.{
  cached_reason, reject, validate_and_put, detect_reorg, index_imported, index_active, update_index,
  drop_included, activate, import_hashed, import_block,
}
use blockchain_coin.Node.Imported.{IsSound, rebuilt_parameters, validate_and_put-IsReplayable}

-- What holds where an attempt ends and where it goes on holds after it.
attempt-keeps :
    {E A B : Type 0} (P : Node → Type 0) (raises : E → NodeError) (r : Result E A) (n : Node)
    (k : A → Outcome B)
    → P n
    → ((a : A) → r ≡ ok a → P (k a).1)
    → P (attempt raises r n k).1
attempt-keeps P raises (ok a) n k h next = next a refl
attempt-keeps P raises (err e) n k h next = h

-- The same blocks, parameters and state
abbrev IsStill : Node → Node → Type 0
IsStill n m =
    (m.store ≡ n.store)
    × (m.fork_subsidy ≡ n.fork_subsidy)
    × (m.fork_limit ≡ n.fork_limit)
    × (m.state ≡ n.state)

IsStill-trans : (a b c : Node) → IsStill a b → IsStill b c → IsStill a c
IsStill-trans a b c (p, q, r, s) (p', q', r', s') = (p' ∙ p, q' ∙ q, r' ∙ r, s' ∙ s)

module _ ⦃prim : Primitives⦄ where
  persist-IsStill : (n : Node) → IsStill n (persist n).1
  unfolding persist
  persist-IsStill n = elim (Option-cases n.mempool_store) [
    | inl e ↦ rw (e, persist) (refl, refl, refl, refl)
    | inr (table, e) ↦ elim (Result-cases (replace_all n.mempool)) [
      | inl (table', k) ↦ rw (e, k, persist) (refl, refl, refl, refl)
      | inr (x, k) ↦ rw (e, k, persist) (refl, refl, refl, refl)
    ]
  ]

  prune_mempool-IsStill : (n : Node) → IsStill n (prune_mempool n).1
  unfolding prune_mempool
  prune_mempool-IsStill n =
      attempt-keeps (IsStill n) consensus_raises
        (prune_invalid_mempool n.mempool_policy n.state n.mempool) n _ (refl, refl, refl, refl)
        λ kept e. persist-IsStill (record n { mempool = kept })

  drop_included-IsStill : (b : Block) (n : Node) → IsStill n (drop_included b n).1
  unfolding drop_included
  drop_included-IsStill b n =
      attempt-keeps (IsStill n) consensus_raises (txids b.transactions) n _ (refl, refl, refl, refl)
        λ included e.
          attempt-keeps (IsStill n) consensus_raises (without_txids included n.mempool) n _
            (refl, refl, refl, refl) λ rest k. prune_mempool-IsStill (record n { mempool = rest })

  index_imported-IsStill :
      (stored : StoredBlock) (index : UtxoIndex) (n : Node)
      → IsStill n (index_imported stored index n).1
  unfolding index_imported
  index_imported-IsStill stored index n =
      attempt-keeps (IsStill n) consensus_raises (block_hash stored.block) n _
        (refl, refl, refl, refl)
        λ hash e.
          attempt-keeps (IsStill n) fork_raises
            (branch_to_tip n.fork_subsidy n.fork_limit hash n.store) n _ (refl, refl, refl, refl)
            λ imported k.
              attempt-keeps (IsStill n) index_raises
                (save_tip_snapshot hash imported.state.utxos index) n _ (refl, refl, refl, refl)
                λ snapshot m.
                  attempt-keeps (IsStill n) index_raises
                    (save_tip_spends hash imported.blocks snapshot)
                    (record n { utxo_index = some snapshot }) _ (refl, refl, refl, refl)
                    λ spent l. (refl, refl, refl, refl)

  index_active-IsStill :
      (active : ActiveChain) (index : UtxoIndex) (n : Node)
      → IsStill n (index_active active index n).1
  unfolding index_active
  index_active-IsStill active index n = elim (Option-cases (tip_of active.blocks)) [
    | inl e ↦ rw (e, index_active) (refl, refl, refl, refl)
    | inr (tip, e) ↦
        rw (e, index_active)
          (attempt-keeps (IsStill n) consensus_raises (block_hash tip) n _ (refl, refl, refl, refl)
            λ hash k.
              attempt-keeps (IsStill n) index_raises (save_snapshot hash n.state.utxos index) n _
                (refl, refl, refl, refl)
                λ snapshot m.
                  attempt-keeps (IsStill n) index_raises
                    (save_tip_spends hash active.blocks snapshot)
                    (record n { utxo_index = some snapshot }) _ (refl, refl, refl, refl)
                    λ spent l. (refl, refl, refl, refl))
  ]

  update_index-IsStill :
      (stored : StoredBlock) (active : ActiveChain) (n : Node)
      → IsStill n (update_index stored active n).1
  unfolding update_index
  update_index-IsStill stored active n = elim (Option-cases n.utxo_index) [
    | inl e ↦ rw (e, update_index) (refl, refl, refl, refl)
    | inr (index, e) ↦
        let first = index_imported-IsStill stored index n in
        elim (Result-cases (index_imported stored index n).0) [
          | inr (x, k) ↦ rw (e, k, update_index) first
          | inl (written, k) ↦
              rw (e, k, update_index)
                (IsStill-trans n (index_imported stored index n).1
                  (index_active active written (index_imported stored index n).1).1 first
                  (index_active-IsStill active written (index_imported stored index n).1))
        ]
  ]

  still-IsSound : (n m : Node) → IsStill n m → IsSound n → IsSound m
  still-IsSound n m (blocks, subsidy, limit, same) s = record {
    replayable = rw (blocks, subsidy, limit) s.replayable;
    subsidy = rw (same, subsidy) s.subsidy;
    limit = rw (same, limit) s.limit;
  }

  activate-IsSound :
      (old : Option StoredBlock) (b : Block) (stored : StoredBlock) (n : Node)
      → IsSound n
      → IsSound (activate old b stored n).1
  unfolding activate
  activate-IsSound old b stored n s =
      attempt-keeps IsSound fork_raises (active_chain n.fork_subsidy n.fork_limit n.store) n _ s
        λ active e.
          let (rebuilt, _, _) =
            active_chain-rebuilds n.fork_subsidy n.fork_limit n.store active e in
          let (subsidy, limit) =
            rebuilt_parameters active.blocks n.fork_subsidy n.fork_limit rebuilt in
          let n₁ : Node = record n { state = active.state } in
          let s₁ : IsSound n₁ = record {
            replayable = s.replayable;
            subsidy = subsidy;
            limit = limit;
          } in
          attempt-keeps IsSound consensus_raises (detect_reorg old (tip_of active.blocks)) n₁ _ s₁
            λ reorg k.
              indexed active (record n₁ { last_reorg = reorg })
                (record { replayable = s.replayable; subsidy = subsidy; limit = limit })
    where
      indexed :
          (active : ActiveChain) (m : Node)
          → IsSound m
          → IsSound (
              (elim (update_index stored active m).0 as (λ _. Outcome StoredBlock) [
                | err e ↦ (err e, (update_index stored active m).1)
                | ok _ ↦
                    let (r', n₃) = drop_included b (update_index stored active m).1 in
                    (bind r' λ _. ok stored, n₃)
              ]).1)
      indexed active m s =
          let after = update_index-IsStill stored active m in
          elim (Result-cases (update_index stored active m).0) [
            | inr (x, k) ↦ rw k (still-IsSound m (update_index stored active m).1 after s)
            | inl (u, k) ↦ rw k (
                still-IsSound m (drop_included b (update_index stored active m).1).1
                  (IsStill-trans m (update_index stored active m).1
                    (drop_included b (update_index stored active m).1).1 after
                    (drop_included-IsStill b (update_index stored active m).1))
                  s)
          ]

  reject-IsSound : (hash : Text) (e : NodeError) (n : Node) → IsSound n → IsSound (reject hash e n)
  unfolding reject
  reject-IsSound hash e n s = elim (Option-cases n.invalid_blocks) [
    | inl k ↦ rw (k, reject) s
    | inr (cache, k) ↦
        rw (k, reject) (record { replayable = s.replayable; subsidy = s.subsidy; limit = s.limit })
  ]

  import_hashed-IsSound :
      (hash : Text) (b : Block) (n : Node)
      → block_hash b ≡ ok hash
      → IsSound n
      → IsSound (import_hashed hash b n).1
  unfolding import_hashed
  import_hashed-IsSound hash b n hashed s = elim (Option-cases (cached_reason hash n)) [
    | inr (reason, e) ↦ rw (e, import_hashed) s
    | inl e ↦ elim (Result-cases (validate_and_put b n)) [
      | inr (x, k) ↦ rw (e, k, import_hashed) (reject-IsSound hash x n s)
      | inl ((stored, store), k) ↦
          rw (e, k, import_hashed)
            (activate-IsSound (best_tip n.store) b stored (record n { store = store })
              (record {
                replayable = validate_and_put-IsReplayable b n s hashed k;
                subsidy = s.subsidy;
                limit = s.limit;
              }))
    ]
  ]

  -- Where every stored block leads down to a first block, stands under its own hash and ends a chain that
  -- replays, with the node's and its fork choice's parameters the same, this holds after `import_block` of
  -- any block, whether it returns or raises.
  pub import_block-IsSound : (b : Block) (n : Node) → IsSound n → IsSound (import_block b n).1
  unfolding import_block
  import_block-IsSound b n s =
      attempt-keeps IsSound header_invalid (block_hash b) n _ s
        λ hash e. import_hashed-IsSound hash b n e s
