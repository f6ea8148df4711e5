-- ===== src/Consensus/Blocks/Chain.antt =====
-- `rebuild_state_from_blocks` of blockchaincoin/consensus.py: a chain that replays issues its first
-- block's outputs and at most one subsidy for each block after it.
use blockchain_coin.Shared.{
  ℕ, ◌+◌, ◌≤◌, pos_part, neg_part, ◌≡◌, refl, ap, true, false, List, [], ◌∷◌, ok, bind-eq-ok,
  Result-cases, inl, inr, arith, ℤ, pos, ◌+ℤ◌, ◌≤ℤ◌, int_laws, sum, sum-nil, sum-cons, replicate,
  length, eqb_ℤ_iff,
}
use blockchain_coin.Text.{Text, text_eq}
use blockchain_coin.Crypto.{Primitives}
use blockchain_coin.Consensus.Types.{Block, outpoint_equality, zero_hash}
use blockchain_coin.Consensus.Encode.{block_hash}
use blockchain_coin.Consensus.Utxo.{empty, total}
use blockchain_coin.Consensus.State.{ConsensusState, new_state}
use blockchain_coin.Consensus.State.Invariant.{IsValid}
use blockchain_coin.Consensus.Blocks.{
  is_genesis, check_header, validate_block, apply_block, replay, rebuild_state_from_blocks,
}
use blockchain_coin.Consensus.Blocks.Body.{Follows, Follows-trans, Sound-ok, Issues, reward_total}
use blockchain_coin.Consensus.Blocks.Atomic.{
  check_header-eq-ok, new_state-eq-ok, apply_block-rejects, apply_block-Sound,
}

-- One subsidy for each block.
abbrev pub subsidies : ℤ → List Block → ℤ
subsidies subsidy blocks = sum (replicate (length blocks) subsidy)

subsidies-cons :
    (subsidy : ℤ) (b : Block) (bs : List Block)
    → subsidies subsidy (b ∷ bs) ≡ subsidy +ℤ subsidies subsidy bs
subsidies-cons subsidy b bs = sum-cons subsidy (replicate (length bs) subsidy)

module _ ⦃prim : Primitives⦄ where
  -- A block that was applied stands at the height and on the parent that were expected.
  apply_block-placed :
      (b : Block) (height : ℤ) (parent : Text) (s : ConsensusState) {fees : ℤ}
      → (apply_block b height parent s).0 ≡ ok fees
      → (b.height ≡ height) × (text_eq b.previous_hash parent ≡ true)
  unfolding validate_block
  apply_block-placed b height parent s h = elim (Result-cases (validate_block b height parent s)) [
    | inr (x, e) ↦ absurd (cc (apply_block-rejects b height parent s e))
    | inl (fees, e) ↦
        let (_, e₁, _) = bind-eq-ok (check_header b height parent) _ e in
        let (at_height, at_parent, _) = check_header-eq-ok b height parent e₁ in
        ((eqb_ℤ_iff b.height height).0 at_height, at_parent)
  ]

  genesis_placed :
      (b : Block)
      → b.height ≡ pos 0
      → text_eq b.previous_hash zero_hash ≡ true
      → is_genesis b ≡ true
  unfolding is_genesis
  genesis_placed b h k = rw (h, k)

  later_placed : (b : Block) (n : ℕ) → 1 ≤ n → b.height ≡ pos n → is_genesis b ≡ false
  unfolding is_genesis
  later_placed b n k h = rw h (ground arith)

  -- What a chain has left behind, from a state on.
  abbrev Extends : ConsensusState → ℤ → ConsensusState → Type 0
  Extends s more s' = Follows s s' × (total s'.utxos ≤ℤ total s.utxos +ℤ more)

  -- One step of the loop.
  pub replay-cons :
      (height : ℕ) (parent : Text) (b : Block) (bs : List Block) (s : ConsensusState)
      {s' : ConsensusState}
      → IsValid s
      → replay height parent (b ∷ bs) s ≡ ok s'
      → let s₁ = (apply_block b (pos height) parent s).1 in
        (fees : ℤ) × (hash : Text) × Follows s s₁
        × Issues b s fees s₁
        × (b.height ≡ pos height)
        × (text_eq b.previous_hash parent ≡ true)
        × (replay (height + 1) hash bs s₁ ≡ ok s')
  unfolding replay
  replay-cons height parent b bs s v h =
      let p = apply_block b (pos height) parent s in
      let (fees, e₁, h₁) = bind-eq-ok p.0 _ h in
      let (hash, e₂, h₂) = bind-eq-ok (block_hash b) _ h₁ in
      let (follows, issues) =
        Sound-ok s (Issues b s) p (apply_block-Sound b (pos height) parent s v) e₁ in
      let (placed, on) = apply_block-placed b (pos height) parent s e₁ in
      (fees, hash, follows, issues, placed, on, h₂)

  replay-Extends :
      (n : ℕ) (parent : Text) (bs : List Block) (s : ConsensusState) {s' : ConsensusState}
      → 1 ≤ n
      → IsValid s
      → replay n parent bs s ≡ ok s'
      → Extends s (subsidies s.block_subsidy bs) s'
  unfolding replay
  replay-Extends n parent [] s {s'} k v h =
      let same : s ≡ s' = cc in
      rw (← same, sum-nil) (record { valid = v; subsidy = refl; limit = refl }, omega int_laws)
  replay-Extends n parent (b ∷ bs) s {s'} k v h =
      let s₁ = (apply_block b (pos n) parent s).1 in
      let (fees, hash, follows, issues, placed, on, h') = replay-cons n parent b bs s v h in
      let (follows', bound) = replay-Extends (n + 1) hash bs s₁ (omega arith) follows.valid h' in
      let issued : total s₁.utxos ≤ℤ total s.utxos +ℤ s.block_subsidy =
        rw (later_placed b n k placed) at issues.1 in
      (
        Follows-trans follows follows',
        rw (subsidies-cons s.block_subsidy b bs) (
            add_bounds (total s.utxos) (total s₁.utxos) (total s'.utxos) s.block_subsidy
              (subsidies s.block_subsidy bs) issued (rw follows.subsidy at bound)),
      )
    where
      add_bounds : (a b c d e : ℤ) → b ≤ℤ a +ℤ d → c ≤ℤ b +ℤ e → c ≤ℤ a +ℤ (d +ℤ e)
      add_bounds a b c d e h k = omega int_laws

  pub new_state-IsValid :
      (subsidy limit : ℤ) {s : ConsensusState}
      → new_state empty subsidy limit ≡ ok s
      → IsValid s × (total s.utxos ≡ pos 0) × (s.block_subsidy ≡ subsidy) × (s.max_money ≡ limit)
  unfolding total
  new_state-IsValid subsidy limit {s} h =
      let (same, _, above) = new_state-eq-ok empty subsidy limit h in
      rw same (
        record { distinct = tt; positive = tt; bounded = rw sum-nil (omega arith) },
        sum-nil,
        refl,
        refl,
      )

  -- A non-empty chain that `rebuild_state_from_blocks` accepts leaves a valid state, worth no more
  -- than the maximum, nor than the outputs of the first block's first transaction and one subsidy
  -- for each block after it.
  pub rebuild_state_from_blocks-supply :
      (b : Block) (bs : List Block) (subsidy limit : ℤ) {s : ConsensusState}
      → rebuild_state_from_blocks (b ∷ bs) subsidy limit ≡ ok s
      → IsValid s
        × (total s.utxos ≤ℤ limit)
        × (total s.utxos ≤ℤ reward_total b.transactions +ℤ subsidies subsidy bs)
  unfolding rebuild_state_from_blocks
  rebuild_state_from_blocks-supply b bs subsidy limit {s} h =
      let (s₀, e₀, h₀) = bind-eq-ok (new_state empty subsidy limit) _ h in
      let (v, none_yet, as_given, at_most) = new_state-IsValid subsidy limit e₀ in
      let s₁ = (apply_block b (pos 0) zero_hash s₀).1 in
      let (fees, hash, first, issues, placed, on, h₁) = replay-cons 0 zero_hash b bs s₀ v h₀ in
      let (rest, bound) = replay-Extends 1 hash bs s₁ (omega arith) first.valid h₁ in
      let allocated : total s₁.utxos +ℤ fees ≡ total s₀.utxos +ℤ reward_total b.transactions =
        rw (genesis_placed b placed on) at issues.1 in
      (
        rest.valid,
        rw (rest.limit, first.limit, at_most) at rest.valid.bounded,
        add_bounds (total s₀.utxos) (total s₁.utxos) (total s.utxos) fees
            (reward_total b.transactions) (subsidies subsidy bs) none_yet issues.0 allocated
            (rw (first.subsidy, as_given) at bound),
      )
    where
      add_bounds :
          (a b c f r m : ℤ) → a ≡ pos 0 → pos 0 ≤ℤ f → b +ℤ f ≡ a +ℤ r → c ≤ℤ b +ℤ m → c ≤ℤ r +ℤ m
      add_bounds a b c f r m z p q h =
          omega (int_laws, ap pos_part z, ap neg_part z, ap pos_part q, ap neg_part q)
