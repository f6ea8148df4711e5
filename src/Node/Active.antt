-- ===== src/Node/Active.antt =====
-- The active chain of a sound `ConsensusNode` (blockchaincoin/utxo_node.py, over fork_choice.py).
use blockchain_coin.Shared.{ℕ, ◌≤◌, ◌≡◌, refl, ap, ◌∙◌, some, List, [], ◌∷◌, ◌++◌, ℤ, ok, lookup}
use blockchain_coin.Text.{Text, text_equality}
use blockchain_coin.Crypto.{Primitives}
use blockchain_coin.ForkStore.{StoredBlock}
use blockchain_coin.ForkStore.Extended.{chain_to_tip-shape}
use blockchain_coin.ForkChoice.{
  ActiveChain, last_work, stored_chain, validate_stored_chain, validate_chain, best_tip,
  active_chain,
}
use blockchain_coin.ForkChoice.Grown.{blocks_of}
use blockchain_coin.ForkChoice.Heaviest.{best_tip-heaviest}
use blockchain_coin.Node.Types.{Node}
use blockchain_coin.Node.Imported.{IsSound}

module _ ⦃prim : Primitives⦄ where
  validate_chain_of :
      (subsidy limit : ℤ) (front : List StoredBlock) (b : StoredBlock)
      → validate_chain subsidy limit (front ++ b ∷ [])
        ≡ validate_stored_chain subsidy limit (front ++ b ∷ [])
  unfolding validate_chain
  validate_chain_of subsidy limit [] b = refl
  validate_chain_of subsidy limit (c ∷ front) b = refl

  last_work-snoc :
      (work : ℕ) (front : List StoredBlock) (b : StoredBlock)
      → last_work work (front ++ b ∷ []) ≡ b.cumulative_work
  last_work-snoc work [] b = refl
  last_work-snoc work (c ∷ front) b = last_work-snoc c.cumulative_work front b

  -- On a sound node that has stored a block, `active_chain` returns, and no stored block has more
  -- cumulative work than the chain that it returns.
  pub active_chain-returns :
      (n : Node) (tip : StoredBlock)
      → IsSound n
      → best_tip n.store ≡ some tip
      → (a : ActiveChain) × (active_chain n.fork_subsidy n.fork_limit n.store ≡ ok a)
        × ((hash : Text) (b : StoredBlock)
            → lookup hash n.store ≡ some b
            → b.cumulative_work ≤ a.cumulative_work)
  unfolding active_chain stored_chain validate_stored_chain
  active_chain-returns n tip s h =
      let r = s.replayable in
      let ((hash, found), heaviest) = best_tip-heaviest n.store tip r.distinct h in
      let (chain, reached, e, rebuilt) = r.replays hash tip found in
      let (front, shape, _) = chain_to_tip-shape hash tip n.store r.linked found e in
      let a : ActiveChain = record {
        blocks = blocks_of chain;
        state = reached;
        cumulative_work = last_work 0 chain;
      } in
      let work : a.cumulative_work ≡ tip.cumulative_work =
        ap (last_work 0) shape ∙ last_work-snoc 0 front tip in
      let stored : stored_chain n.store ≡ ok chain =
        rw (h, r.keyed hash tip found, stored_chain) e in
      let whole : validate_chain n.fork_subsidy n.fork_limit chain
          ≡ validate_stored_chain n.fork_subsidy n.fork_limit chain =
        rw shape (validate_chain_of n.fork_subsidy n.fork_limit front tip) in
      let returns : validate_stored_chain n.fork_subsidy n.fork_limit chain ≡ ok a =
        rw (rebuilt, validate_stored_chain) refl in
      (
        a,
        rw (stored, active_chain) (whole ∙ returns),
        λ other b held. rw work (heaviest other b held),
      )
