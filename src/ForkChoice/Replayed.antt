-- ===== src/ForkChoice/Replayed.antt =====
-- What `ForkChoice.active_chain` (blockchaincoin/fork_choice.py) returns has been replayed.
use blockchain_coin.Shared.{
  ◌≡◌, refl, List, [], ◌∷◌, map, ℤ, ◌≤ℤ◌, Result, ok, err, bind-eq-ok, bind-ok, subst,
}
use blockchain_coin.Crypto.{Primitives}
use blockchain_coin.Consensus.Types.{Block}
use blockchain_coin.Consensus.Utxo.{empty, total}
use blockchain_coin.Consensus.State.{ConsensusState, new_state}
use blockchain_coin.Consensus.State.Invariant.{IsValid}
use blockchain_coin.Consensus.Blocks.{replay, rebuild_state_from_blocks}
use blockchain_coin.Consensus.Blocks.Chain.{new_state-IsValid, rebuild_state_from_blocks-supply}
use blockchain_coin.ForkStore.{StoredBlock, ForkStore}
use blockchain_coin.ForkChoice.{
  branch_disconnected, branch_invalid, state_refused, ActiveChain, last_work, map_error,
  stored_chain, validate_stored_chain, validate_chain, active_chain,
}

pub map_error-eq-ok :
    {E F A : Type 0} (f : E → F) (r : Result E A) {a : A} → map_error f r ≡ ok a → r ≡ ok a
map_error-eq-ok f (ok b) h = cc
map_error-eq-ok f (err e) h = absurd (cc)

module _ ⦃prim : Primitives⦄ where
  rebuild_nothing :
      (subsidy limit : ℤ) {s : ConsensusState}
      → new_state empty subsidy limit ≡ ok s
      → rebuild_state_from_blocks [] subsidy limit ≡ ok s
  unfolding rebuild_state_from_blocks replay
  rebuild_nothing subsidy limit h = bind-ok _ h refl

  validate_chain-rebuilds :
      (subsidy limit : ℤ) (chain : List StoredBlock) {a : ActiveChain}
      → validate_chain subsidy limit chain ≡ ok a
      → rebuild_state_from_blocks a.blocks subsidy limit ≡ ok a.state
  unfolding validate_chain validate_stored_chain
  validate_chain-rebuilds subsidy limit [] {a} h =
      let (s, e, h₁) = bind-eq-ok (map_error state_refused (new_state empty subsidy limit)) _ h in
      let made : ActiveChain = record { blocks = []; state = s; cumulative_work = 0 } in
      let same : made ≡ a = cc h₁ in
      subst (λ c. rebuild_state_from_blocks c.blocks subsidy limit ≡ ok c.state) same
        (rebuild_nothing subsidy limit (map_error-eq-ok state_refused _ e))
  validate_chain-rebuilds subsidy limit (b ∷ bs) {a} h =
      let blocks = map (λ x. x.block) (b ∷ bs) in
      let (s, e, h₁) =
        bind-eq-ok (map_error branch_invalid (rebuild_state_from_blocks blocks subsidy limit)) _
          h in
      let made : ActiveChain = record {
        blocks = blocks;
        state = s;
        cumulative_work = last_work 0 (b ∷ bs);
      } in
      let same : made ≡ a = cc h₁ in
      subst (λ c. rebuild_state_from_blocks c.blocks subsidy limit ≡ ok c.state) same
        (map_error-eq-ok branch_invalid _ e)

  rebuilt-IsValid :
      (subsidy limit : ℤ) (blocks : List Block) {s : ConsensusState}
      → rebuild_state_from_blocks blocks subsidy limit ≡ ok s
      → IsValid s × (total s.utxos ≤ℤ limit)
  unfolding rebuild_state_from_blocks replay
  rebuilt-IsValid subsidy limit [] {s} h =
      let (s₀, e, h₁) = bind-eq-ok (new_state empty subsidy limit) _ h in
      let same : s₀ ≡ s = cc h₁ in
      let (v, _, _, at_most) = new_state-IsValid subsidy limit e in
      subst (λ x. IsValid x × (total x.utxos ≤ℤ limit)) same (v, rw at_most at v.bounded)
  rebuilt-IsValid subsidy limit (b ∷ bs) h =
      let (v, bounded, _) = rebuild_state_from_blocks-supply b bs subsidy limit h in (v, bounded)

  -- The chain that `active_chain` returns has been replayed: `rebuild_state_from_blocks` of its
  -- blocks returns its state, which is valid and worth no more than the maximum supply.
  pub active_chain-rebuilds :
      (subsidy limit : ℤ) (store : ForkStore) (a : ActiveChain)
      → active_chain subsidy limit store ≡ ok a
      → (rebuild_state_from_blocks a.blocks subsidy limit ≡ ok a.state)
        × IsValid a.state
        × (total a.state.utxos ≤ℤ limit)
  unfolding active_chain
  active_chain-rebuilds subsidy limit store a h =
      let (chain, _, h₁) = bind-eq-ok (map_error branch_disconnected (stored_chain store)) _ h in
      let rebuilt = validate_chain-rebuilds subsidy limit chain h₁ in
      let (v, bounded) = rebuilt-IsValid subsidy limit a.blocks rebuilt in (rebuilt, v, bounded)
