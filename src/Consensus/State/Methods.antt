-- ===== src/Consensus/State/Methods.antt =====
-- `apply_transaction`, `apply_block_coinbase` and `apply_genesis_coinbase` of
-- blockchaincoin/consensus.py: each is atomic, keeps the invariant, and moves the total as it says.
use blockchain_coin.Shared.{
  ◌≡◌, refl, true, false, not, [], Result, ok, err, raise_if, bind-eq-ok, raise_if-eq-ok,
  Bool-cases, inl, inr, arith, ℤ, pos, ◌+ℤ◌, ◌≤ℤ◌, int_laws, ltb_ℤ, ltb_ℤ_false, Distinct,
  if◌then◌else◌,
}
use blockchain_coin.Failure.{
  Error, not_coinbase, negative_fees, coinbase_signed, coinbase_overpays, genesis_not_coinbase,
  coinbase_inputs,
}
use blockchain_coin.Crypto.{Primitives}
use blockchain_coin.Consensus.Types.{Transaction, outpoint_equality, is_coinbase}
use blockchain_coin.Consensus.Utxo.{UtxoSet, copy, total}
use blockchain_coin.Consensus.Utxo.Laws.{copy_lem}
use blockchain_coin.Consensus.State.{
  ConsensusState, commit, output_total, create_outputs, spend_all, validate_version,
  validate_outputs, validate_coinbase, validate_transaction, first_is_signed, has_one_input,
  transaction_update, apply_transaction, coinbase_update, apply_block_coinbase,
  apply_genesis_coinbase,
}
use blockchain_coin.Consensus.State.Conservation.{
  Applied-conserves, create_outputs-total, transaction_update-Applied, validate_transaction-eq-ok,
  spend_all-total,
}
use blockchain_coin.Consensus.State.Invariant.{IsValid, spend_all-All, create_outputs-IsValid}

-- What a method that began in `s` may have done: raised and changed nothing, or moved to a valid
-- state with the same parameters, of which `P` holds.
abbrev pub Sound :
    {A : Type 0}
    → ConsensusState
    → (A → ConsensusState → Type 0)
    → Result Error A × ConsensusState
    → Type 0
Sound s P (ok a, s') =
    IsValid s' × (s'.block_subsidy ≡ s.block_subsidy) × (s'.max_money ≡ s.max_money) × P a s'
Sound s P (err e, s') = s' ≡ s

pub commit-Sound :
    {A : Type 0} (s : ConsensusState) (P : A → ConsensusState → Type 0)
    (r : Result Error (A × UtxoSet))
    → ((a : A) (u : UtxoSet)
        → r ≡ ok (a, u)
        → IsValid (record s { utxos = u }) × P a (record s { utxos = u }))
    → Sound s P (commit s r)
unfolding commit
commit-Sound s P (ok (a, u)) h = let (valid, holds) = h a u refl in (valid, refl, refl, holds)
commit-Sound s P (err e) h = refl

module _ ⦃prim : Primitives⦄ where
  -- After a transaction: what the set has lost or gained. A coinbase gains at most the subsidy.
  abbrev pub Moves : Transaction → ConsensusState → ℤ → ConsensusState → Type 0
  Moves t s fee s' =
      if is_coinbase t
      then (fee ≡ pos 0) × (total s'.utxos ≤ℤ total s.utxos +ℤ s.block_subsidy)
      else (pos 0 ≤ℤ fee) × (total s'.utxos +ℤ fee ≡ total s.utxos)

  spend_update :
      (s : ConsensusState) (t : Transaction) (fee : ℤ) (u : UtxoSet)
      → IsValid s
      → is_coinbase t ≡ false
      → transaction_update s t ≡ ok (fee, u)
      → IsValid (record s { utxos = u }) × (pos 0 ≤ℤ fee) × (total u +ℤ fee ≡ total s.utxos)
  spend_update s t fee u v plain h =
      let a = transaction_update-Applied s t v.distinct plain h in
      let (d, _) = spend_all-total t.inputs [] s.utxos v.distinct a.valid.fresh a.spends in
      let (_, moved, _) = Applied-conserves s t v.distinct a in
      let positive = spend_all-All t.inputs s.utxos v.positive a.spends in
      (
        create_outputs-IsValid s t a.spent a.outputs_valid d positive a.creates,
        a.valid.fee_nonneg,
        moved,
      )

  -- What a successful update by a coinbase has checked and done.
  coinbase_update_checked :
      (s : ConsensusState) (t : Transaction) {fee : ℤ} {u : UtxoSet}
      → Distinct s.utxos
      → is_coinbase t ≡ true
      → transaction_update s t ≡ ok (fee, u)
      → (validate_outputs s t.outputs ≡ ok tt)
        × (create_outputs s t s.utxos ≡ ok u)
        × (validate_coinbase s t ≡ ok fee)
  unfolding transaction_update
  coinbase_update_checked s t {fee} {u} d coinbase h =
      let (f, e₁, h₁) = bind-eq-ok (validate_transaction s t) _ h in
      let (c, e₂, h₂) = bind-eq-ok (copy s.utxos) _ h₁ in
      let (spent, e₃, h₃) =
        bind-eq-ok (if is_coinbase t then ok c else spend_all t.inputs c) _ h₂ in
      let (made, e₄, h₄) = bind-eq-ok (create_outputs s t spent) _ h₃ in
      let (outputs, checked) = validate_transaction-eq-ok s t e₁ in
      let copied : c ≡ s.utxos = cc (copy_lem s.utxos d) in
      let unspent : ◌≡◌ {A = Result Error UtxoSet} (ok c) (ok spent) = rw coinbase at e₃ in
      let checked' : validate_coinbase s t ≡ ok f = rw coinbase at checked in (outputs, cc, cc)

  validate_coinbase-eq-ok :
      (s : ConsensusState) (t : Transaction) {fee : ℤ}
      → validate_coinbase s t ≡ ok fee
      → (fee ≡ pos 0) × (output_total t.outputs ≤ℤ s.block_subsidy)
  unfolding validate_coinbase
  validate_coinbase-eq-ok s t {fee} h =
      let (_, e₁, h₁) = bind-eq-ok (raise_if (not (has_one_input t)) coinbase_inputs) _ h in
      let (_, e₂, h₂) = bind-eq-ok (raise_if (first_is_signed t) coinbase_signed) _ h₁ in
      let (_, e₃, h₃) =
        bind-eq-ok (raise_if (ltb_ℤ s.block_subsidy (output_total t.outputs)) coinbase_overpays) _
          h₂ in
      (
        cc,
        ltb_ℤ_false s.block_subsidy (output_total t.outputs)
            (raise_if-eq-ok _ coinbase_overpays e₃),
      )

  coinbase_update_moves :
      (s : ConsensusState) (t : Transaction) (fee : ℤ) (u : UtxoSet)
      → IsValid s
      → is_coinbase t ≡ true
      → transaction_update s t ≡ ok (fee, u)
      → IsValid (record s { utxos = u })
        × (fee ≡ pos 0)
        × (total u ≤ℤ total s.utxos +ℤ s.block_subsidy)
  coinbase_update_moves s t fee u v coinbase h =
      let (outputs, creates, checked) = coinbase_update_checked s t v.distinct coinbase h in
      let (_, more, _) = create_outputs-total s t s.utxos v.distinct creates in
      let (none_paid, limited) = validate_coinbase-eq-ok s t checked in
      (
        create_outputs-IsValid s t s.utxos outputs v.distinct v.positive creates,
        none_paid,
        rw more (omega int_laws),
      )

  -- From a valid state `apply_transaction` raises and changes nothing, or moves to a valid state with
  -- the same parameters: a coinbase returns 0 and adds at most the subsidy to the total, and any
  -- other transaction returns a fee that is not negative, by which the total has fallen.
  pub apply_transaction-Sound :
      (t : Transaction) (s : ConsensusState)
      → IsValid s
      → Sound s (Moves t s) (apply_transaction t s)
  unfolding apply_transaction
  apply_transaction-Sound t s v = commit-Sound s (Moves t s) (transaction_update s t) λ fee u h.
      elim (Bool-cases (is_coinbase t)) [
        | inl e ↦
            let (valid, paid, moved) = coinbase_update_moves s t fee u v e h in
            (valid, rw e (paid, moved))
        | inr e ↦
            let (valid, paid, moved) = spend_update s t fee u v e h in (valid, rw e (paid, moved))
      ]

  -- Outputs of a coinbase created in the state's own set.
  coinbase_update-eq-ok :
      (s : ConsensusState) (t : Transaction) {a : Unit {0}} {u : UtxoSet}
      → Distinct s.utxos
      → coinbase_update s t ≡ ok (a, u)
      → create_outputs s t s.utxos ≡ ok u
  unfolding coinbase_update
  coinbase_update-eq-ok s t {a} {u} d h =
      let (c, e₁, h₁) = bind-eq-ok (copy s.utxos) _ h in
      let (made, e₂, h₂) = bind-eq-ok (create_outputs s t c) _ h₁ in
      let copied : c ≡ s.utxos = cc (copy_lem s.utxos d) in let same : made ≡ u = ground arith in cc

  created_coinbase :
      (s : ConsensusState) (t : Transaction) {a : Unit {0}} {u : UtxoSet}
      → IsValid s
      → validate_outputs s t.outputs ≡ ok tt
      → coinbase_update s t ≡ ok (a, u)
      → IsValid (record s { utxos = u }) × (total u ≡ total s.utxos +ℤ output_total t.outputs)
  created_coinbase s t {a} {u} v outputs h =
      let creates = coinbase_update-eq-ok s t v.distinct h in
      let (_, more, _) = create_outputs-total s t s.utxos v.distinct creates in
      (create_outputs-IsValid s t s.utxos outputs v.distinct v.positive creates, more)

  -- After a block's reward: the set has gained at most the subsidy and the fees.
  abbrev pub Rewards : ℤ → ConsensusState → Unit {0} → ConsensusState → Type 0
  Rewards fees s a s' = total s'.utxos ≤ℤ total s.utxos +ℤ s.block_subsidy +ℤ fees

  -- From a valid state `apply_block_coinbase` raises and changes nothing, or moves to a valid state
  -- with the same parameters, and adds at most the subsidy and the fees to the total.
  pub apply_block_coinbase-Sound :
      (t : Transaction) (fees : ℤ) (s : ConsensusState)
      → IsValid s
      → Sound s (Rewards fees s) (apply_block_coinbase t fees s)
  unfolding apply_block_coinbase
  apply_block_coinbase-Sound t fees s v = commit-Sound s (Rewards fees s) _ λ a u h.
      let (_, e₁, h₁) = bind-eq-ok (validate_version t) _ h in
      let (_, e₂, h₂) = bind-eq-ok (validate_outputs s t.outputs) _ h₁ in
      let (_, e₃, h₃) = bind-eq-ok (raise_if (not (is_coinbase t)) not_coinbase) _ h₂ in
      let (_, e₄, h₄) = bind-eq-ok (raise_if (ltb_ℤ fees (pos 0)) negative_fees) _ h₃ in
      let (_, e₅, h₅) = bind-eq-ok (raise_if (first_is_signed t) coinbase_signed) _ h₄ in
      let (_, e₆, h₆) =
        bind-eq-ok
          (raise_if (ltb_ℤ (s.block_subsidy +ℤ fees) (output_total t.outputs)) coinbase_overpays) _
          h₅ in
      let (valid, more) = created_coinbase s t v e₂ h₆ in
      let limited =
        ltb_ℤ_false (s.block_subsidy +ℤ fees) (output_total t.outputs)
          (raise_if-eq-ok _ coinbase_overpays e₆) in
      (valid, rw more (omega int_laws))

  -- After a genesis allocation: the set has gained exactly the outputs.
  abbrev pub Allocates : Transaction → ConsensusState → Unit {0} → ConsensusState → Type 0
  Allocates t s a s' = total s'.utxos ≡ total s.utxos +ℤ output_total t.outputs

  -- From a valid state `apply_genesis_coinbase` raises and changes nothing, or moves to a valid state
  -- with the same parameters, and adds its outputs to the total.
  pub apply_genesis_coinbase-Sound :
      (t : Transaction) (s : ConsensusState)
      → IsValid s
      → Sound s (Allocates t s) (apply_genesis_coinbase t s)
  unfolding apply_genesis_coinbase
  apply_genesis_coinbase-Sound t s v = commit-Sound s (Allocates t s) _ λ a u h.
      let (_, e₁, h₁) = bind-eq-ok (validate_version t) _ h in
      let (_, e₂, h₂) = bind-eq-ok (validate_outputs s t.outputs) _ h₁ in
      let (_, e₃, h₃) = bind-eq-ok (raise_if (not (is_coinbase t)) genesis_not_coinbase) _ h₂ in
      let (_, e₄, h₄) = bind-eq-ok (raise_if (first_is_signed t) coinbase_signed) _ h₃ in
      created_coinbase s t v e₂ h₄
