-- ===== src/ForkChoice/Grown.antt =====
-- A stored branch with one more block (blockchaincoin/fork_choice.py, over consensus.py and storage.py):
-- the replay goes on where the parent's replay ended.
use blockchain_coin.Shared.{
  ℕ, suc, ◌+◌, ◌≡◌, refl, ap, ◌∙◌, List, [], ◌∷◌, ◌++◌, map, length, length-map, int_laws, ℤ, pos,
  ok, bind-eq-ok, bind-ok, none, some, lookup, insert, ◌+ℤ◌, arith, subst,
}
use blockchain_coin.Text.{Text, text_equality}
use blockchain_coin.Crypto.{Primitives}
use blockchain_coin.Consensus.Types.{Block, zero_hash}
use blockchain_coin.Consensus.Encode.{block_hash}
use blockchain_coin.Consensus.Utxo.{empty}
use blockchain_coin.Consensus.State.{ConsensusState, new_state}
use blockchain_coin.Consensus.Blocks.{apply_block, replay, rebuild_state_from_blocks}
use blockchain_coin.ForkStore.{StoredBlock, ForkStore, chain_to_tip}
use blockchain_coin.ForkStore.Linked.{IsLinked}
use blockchain_coin.ForkStore.Extended.{chain_to_tip-shape, chain_to_tip-above}
use blockchain_coin.ForkChoice.{
  ActiveChain, branch_invalid, not_stored, last_work, map_error, validate_stored_chain,
  branch_to_tip,
}
use blockchain_coin.ForkChoice.Replayed.{map_error-eq-ok}

-- `stored.block for stored in ...`
abbrev pub blocks_of : List StoredBlock → List Block
blocks_of chain = map (λ b. b.block) chain

blocks_of-snoc :
    (chain : List StoredBlock) (b : StoredBlock)
    → blocks_of (chain ++ b ∷ []) ≡ blocks_of chain ++ b.block ∷ []
blocks_of-snoc [] b = refl
blocks_of-snoc (c ∷ chain) b = ap (λ bs. c.block ∷ bs) (blocks_of-snoc chain b)

module _ ⦃prim : Primitives⦄ where
  -- The replay of a chain and of one block above its last
  replay-snoc :
      (n : ℕ) (parent : Text) (front : List Block) (p b : Block) (s : ConsensusState)
      {s' : ConsensusState} {hash above : Text} {fees : ℤ}
      → replay n parent (front ++ p ∷ []) s ≡ ok s'
      → block_hash p ≡ ok hash
      → block_hash b ≡ ok above
      → (apply_block b (pos (n + length front + 1)) hash s').0 ≡ ok fees
      → replay n parent ((front ++ p ∷ []) ++ b ∷ []) s
        ≡ ok ((apply_block b (pos (n + length front + 1)) hash s').1)
  unfolding replay
  replay-snoc n parent [] p b s {s'} {hash} {fees = paid} h hashed hashed' applied =
      let first = apply_block p (pos n) parent s in
      let (fees, e, h₁) = bind-eq-ok first.0 _ h in
      let (hash', e₂, h₂) = bind-eq-ok (block_hash p) _ h₁ in
      let same : first.1 ≡ s' = cc h₂ in
      let at : n + 0 + 1 ≡ n + 1 = omega arith in
      let applied' : (apply_block b (pos (n + 1)) hash first.1).0 ≡ ok paid =
        rw (same, ← at) applied in
      bind-ok _ e (bind-ok _ hashed (bind-ok _ applied' (bind-ok _ hashed' (rw (same, at) refl))))
  replay-snoc n parent (q ∷ front) p b s {s'} {hash} h hashed hashed' applied =
      let first = apply_block q (pos n) parent s in
      let (fees, e, h₁) = bind-eq-ok first.0 _ h in
      let (hash', e₂, h₂) = bind-eq-ok (block_hash q) _ h₁ in
      let at : n + suc (length front) + 1 ≡ n + 1 + length front + 1 = omega arith in
      let rest =
        replay-snoc (n + 1) hash' front p b first.1 h₂ hashed hashed' (rw (at) at applied) in
      bind-ok _ e (bind-ok _ e₂ (rw at rest))

  -- What `branch_to_tip` returns is the replay of `chain_to_tip`.
  pub branch_to_tip-eq-ok :
      (subsidy limit : ℤ) (hash : Text) (store : ForkStore) {a : ActiveChain}
      → branch_to_tip subsidy limit hash store ≡ ok a
      → (chain : List StoredBlock) × (chain_to_tip hash store ≡ ok chain)
        × (rebuild_state_from_blocks (blocks_of chain) subsidy limit ≡ ok a.state)
  unfolding branch_to_tip validate_stored_chain
  branch_to_tip-eq-ok subsidy limit hash store {a} h =
      let (chain, e, h₁) = bind-eq-ok (map_error not_stored (chain_to_tip hash store)) _ h in
      let (s, e₂, h₂) =
        bind-eq-ok
          (map_error branch_invalid (rebuild_state_from_blocks (blocks_of chain) subsidy limit)) _
          h₁ in
      let made : ActiveChain = record {
        blocks = blocks_of chain;
        state = s;
        cumulative_work = last_work 0 chain;
      } in
      let same : made ≡ a = cc h₂ in
      (
        chain,
        map_error-eq-ok not_stored (chain_to_tip hash store) e,
        map_error-eq-ok branch_invalid _ e₂ ∙ ap (λ c. ok c.state) same,
      )

  -- The chain of a hash can be read from the store and replayed.
  abbrev pub Replays : ℤ → ℤ → ForkStore → Text → Type 0
  Replays subsidy limit store hash =
      (chain : List StoredBlock) × (s : ConsensusState) × (chain_to_tip hash store ≡ ok chain)
      × (rebuild_state_from_blocks (blocks_of chain) subsidy limit ≡ ok s)

  -- A block that applies above a stored parent has a chain that replays.
  pub Replays-above :
      (subsidy limit : ℤ) (store : ForkStore) (hash : Text) (added parent : StoredBlock)
      {s : ConsensusState} {chain : List StoredBlock} {fees : ℤ}
      → IsLinked store
      → lookup hash store ≡ none
      → lookup added.block.previous_hash store ≡ some parent
      → block_hash parent.block ≡ ok added.block.previous_hash
      → block_hash added.block ≡ ok hash
      → added.block.height ≡ parent.block.height +ℤ pos 1
      → chain_to_tip added.block.previous_hash store ≡ ok chain
      → rebuild_state_from_blocks (blocks_of chain) subsidy limit ≡ ok s
      → (apply_block added.block added.block.height added.block.previous_hash s).0 ≡ ok fees
      → Replays subsidy limit (insert hash added store) hash
  unfolding rebuild_state_from_blocks
  Replays-above subsidy limit store hash added parent {s} {chain} {fees} linked fresh found named
        hashed high e rebuilt applied =
      let (front, shape, low) =
        chain_to_tip-shape added.block.previous_hash parent store linked found e in
      let longer = chain_to_tip-above hash added parent store linked fresh found high e in
      let (s₀, e₀, h₀) = bind-eq-ok (new_state empty subsidy limit) _ rebuilt in
      let blocks : blocks_of chain ≡ blocks_of front ++ parent.block ∷ [] =
        ap blocks_of shape ∙ blocks_of-snoc front parent in
      let grown : blocks_of (chain ++ added ∷ [])
          ≡ (blocks_of front ++ parent.block ∷ []) ++ added.block ∷ [] =
        blocks_of-snoc chain added ∙ ap (λ bs. bs ++ added.block ∷ []) blocks in
      let as_high : added.block.height ≡ pos (0 + length (blocks_of front) + 1) =
        high
        ∙ ap (λ a. a +ℤ pos 1) low
        ∙ next (length front) (length (blocks_of front)) (length-map front (λ b. b.block)) in
      let again =
        replay-snoc 0 zero_hash (blocks_of front) parent.block added.block s₀ (rw (blocks) at h₀)
          named hashed
          (subst (λ a. (apply_block added.block a added.block.previous_hash s).0 ≡ ok fees) as_high
            applied) in
      let height = pos (0 + length (blocks_of front) + 1) in
      let reached = (apply_block added.block height added.block.previous_hash s).1 in
      (chain ++ added ∷ [], reached, longer, rw grown (bind-ok _ e₀ again))
    where
      next : (m k : ℕ) → k ≡ m → pos m +ℤ pos 1 ≡ pos (0 + k + 1)
      next m k e = omega (int_laws, e)
