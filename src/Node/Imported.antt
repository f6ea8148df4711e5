-- ===== src/Node/Imported.antt =====
-- `import_block` of a `ConsensusNode` (blockchaincoin/utxo_node.py) keeps every stored branch fit for
-- replay, so that the active chain can always be computed.
use blockchain_coin.Shared.{
  ℕ, ◌+◌, ◌≡◌, refl, ◌∙◌, List, [], ◌∷◌, ℤ, pos, eqb_ℤ, ok, bind-eq-ok, Bool-cases, Option-cases,
  inl, inr, subst,
}
use blockchain_coin.Text.{Text, text_equality}
use blockchain_coin.Crypto.{Primitives}
use blockchain_coin.Consensus.Types.{Block, zero_hash}
use blockchain_coin.Consensus.Encode.{block_hash}
use blockchain_coin.Consensus.Utxo.{empty}
use blockchain_coin.Consensus.State.{ConsensusState, new_state}
use blockchain_coin.Consensus.State.Invariant.{IsValid}
use blockchain_coin.Consensus.Blocks.{apply_block, replay, rebuild_state_from_blocks}
use blockchain_coin.Consensus.Blocks.Body.{Follows, Follows-trans}
use blockchain_coin.Consensus.Blocks.Chain.{replay-cons, new_state-IsValid}
use blockchain_coin.ForkStore.{StoredBlock, ForkStore, put_block}
use blockchain_coin.ForkChoice.{best_tip, branch_to_tip}
use blockchain_coin.Node.Types.{consensus_raises, storage_raises, Node, lift}
use blockchain_coin.Node.Mining.{lift-eq-ok}
use blockchain_coin.Node.Import.{
  parent_raises, validate_first, validate_later, validate_import_candidate, validate_and_put,
}
use blockchain_coin.Node.Replayable.{IsReplayable, Applies, put_hashed-IsReplayable}

module _ ⦃prim : Primitives⦄ where
  -- A node whose store is fit for replay with the parameters of its state and of its fork choice
  pub record IsSound (n : Node) : Type 0 where
    pub replayable : IsReplayable n.fork_subsidy n.fork_limit n.store
    pub subsidy : n.state.block_subsidy ≡ n.fork_subsidy
    pub limit : n.state.max_money ≡ n.fork_limit

  replay-Follows :
      (height : ℕ) (parent : Text) (bs : List Block) (s : ConsensusState) {s' : ConsensusState}
      → IsValid s
      → replay height parent bs s ≡ ok s'
      → Follows s s'
  unfolding replay
  replay-Follows height parent [] s {s'} v h =
      let same : s ≡ s' = cc in
      subst (Follows s) same (record { valid = v; subsidy = refl; limit = refl })
  replay-Follows height parent (b ∷ bs) s v h =
      let (_, hash, follows, _, _, _, rest) = replay-cons height parent b bs s v h in
      Follows-trans follows (
        replay-Follows (height + 1) hash bs (apply_block b (pos height) parent s).1 follows.valid
          rest)

  pub rebuilt_parameters :
      (blocks : List Block) (subsidy limit : ℤ) {s : ConsensusState}
      → rebuild_state_from_blocks blocks subsidy limit ≡ ok s
      → (s.block_subsidy ≡ subsidy) × (s.max_money ≡ limit)
  unfolding rebuild_state_from_blocks
  rebuilt_parameters blocks subsidy limit h =
      let (s₀, e, h₁) = bind-eq-ok (new_state empty subsidy limit) _ h in
      let (v, _, as_given, at_most) = new_state-IsValid subsidy limit e in
      let f = replay-Follows 0 zero_hash blocks s₀ v h₁ in (f.subsidy ∙ as_given, f.limit ∙ at_most)

  validate_import_candidate-Applies :
      (b : Block) (n : Node) {u : Unit {0}}
      → IsSound n
      → validate_import_candidate b n ≡ ok u
      → Applies n.fork_subsidy n.fork_limit n.store b
  unfolding validate_import_candidate validate_first validate_later
  validate_import_candidate-Applies b n s h = elim (Bool-cases (eqb_ℤ b.height (pos 0))) [
    | inl first ↦ rw first (first_applies (rw (first, validate_import_candidate) at h))
    | inr later ↦
        let h' : validate_later b n ≡ ok _ = rw (later, validate_import_candidate) at h in
        let (a, e, h₁) =
          bind-eq-ok
            (lift parent_raises (branch_to_tip n.fork_subsidy n.fork_limit b.previous_hash n.store))
            _ h' in
        let (fees, e₂, _) =
          bind-eq-ok (lift consensus_raises (apply_block b b.height b.previous_hash a.state).0) _
            h₁ in
        rw later (a, fees, lift-eq-ok parent_raises _ e, lift-eq-ok consensus_raises _ e₂)
  ]
    where
      first_applies :
          {u : Unit {0}}
          → validate_first b n ≡ ok u
          → (s : ConsensusState) × (fees : ℤ) × (new_state empty n.fork_subsidy n.fork_limit ≡ ok s)
            × ((apply_block b (pos 0) zero_hash s).0 ≡ ok fees)
      first_applies h' = elim (Option-cases (best_tip n.store)) [
        | inr (tip, e) ↦ absurd (cc (rw (e, validate_first) at h'))
        | inl e ↦
            let (s₀, e₁, h₁) =
              bind-eq-ok
                (lift consensus_raises (new_state empty n.state.block_subsidy n.state.max_money)) _
                (rw (e, validate_first) at h') in
            let (fees, e₂, _) =
              bind-eq-ok (lift consensus_raises (apply_block b (pos 0) zero_hash s₀).0) _ h₁ in
            (
              s₀,
              fees,
              rw (← s.subsidy, ← s.limit) (lift-eq-ok consensus_raises _ e₁),
              lift-eq-ok consensus_raises _ e₂,
            )
      ]

  pub validate_and_put-IsReplayable :
      (b : Block) (n : Node) {hash : Text} {stored : StoredBlock} {store : ForkStore}
      → IsSound n
      → block_hash b ≡ ok hash
      → validate_and_put b n ≡ ok (stored, store)
      → IsReplayable n.fork_subsidy n.fork_limit store
  unfolding validate_and_put put_block
  validate_and_put-IsReplayable b n {hash} {stored} {store} s hashed h =
      let (_, e₁, h₁) = bind-eq-ok (validate_import_candidate b n) _ h in
      let put = lift-eq-ok storage_raises (put_block b n.store) h₁ in
      put_hashed-IsReplayable n.fork_subsidy n.fork_limit hash b n.store stored store s.replayable
        hashed (validate_import_candidate-Applies b n s e₁) (rw (hashed, put_block) at put)
