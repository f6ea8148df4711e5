-- ===== src/Consensus/State/Invariant.antt =====
-- The invariant of `ConsensusState` (blockchaincoin/consensus.py) and its methods: a method raises
-- and leaves the state alone, or it keeps the invariant.
use blockchain_coin.Shared.{
  ℕ, ◌+◌, ◌≡◌, not, List, [], ◌∷◌, ok, raise_if, bind-eq-ok, raise_if-eq-ok, Bool-cases, inl, inr,
  arith, ℤ, pos, ◌≤ℤ◌, ltb_ℤ, leb_ℤ, leb_ℤ_false, erase, insert, Distinct, ◌==◌, All,
}
use blockchain_coin.Failure.{amount_not_positive, amount_above_maximum, output_address}
use blockchain_coin.Crypto.{Primitives, is_valid_address}
use blockchain_coin.Consensus.Types.{OutPoint, TxInput, TxOutput, Transaction, outpoint_equality}
use blockchain_coin.Consensus.Encode.{txid}
use blockchain_coin.Consensus.Utxo.{UtxoSet, add, spend, total}
use blockchain_coin.Consensus.Utxo.Laws.{add-eq-ok, spend-eq-ok}
use blockchain_coin.Consensus.State.{
  ConsensusState, spend_all, add_outputs, create_outputs, validate_each_output, validate_outputs,
}
use blockchain_coin.Consensus.State.Conservation.{create_outputs-total}

abbrev pub IsPositive : OutPoint × TxOutput → Type 0
IsPositive e = pos 1 ≤ℤ e.1.amount

-- Every outpoint stands once, every output is worth something, and all together are worth no more
-- than the maximum supply.
pub record IsValid (s : ConsensusState) : Type 0 where
  pub distinct : Distinct s.utxos
  pub positive : All IsPositive s.utxos
  pub bounded : total s.utxos ≤ℤ s.max_money

erase-All : (p : OutPoint) (u : UtxoSet) → All IsPositive u → All IsPositive (erase p u)
erase-All p [] h = tt
erase-All p (e ∷ u) h = elim (Bool-cases (e.0 == p)) [
  | inl same ↦ rw same h.1
  | inr other ↦ rw other (h.0, erase-All p u h.1)
]

insert-All :
    (p : OutPoint) (o : TxOutput) (u : UtxoSet)
    → pos 1 ≤ℤ o.amount
    → All IsPositive u
    → All IsPositive (insert p o u)
insert-All p o [] k h = (k, tt)
insert-All p o (e ∷ u) k h = elim (Bool-cases (e.0 == p)) [
  | inl same ↦ rw same (k, h.1)
  | inr other ↦ rw other (h.0, insert-All p o u k h.1)
]

pub spend_all-All :
    (is : List TxInput) (u : UtxoSet) {u' : UtxoSet}
    → All IsPositive u
    → spend_all is u ≡ ok u'
    → All IsPositive u'
unfolding spend_all
spend_all-All [] u {u'} h e = let same : u ≡ u' = cc in rw (← same) h
spend_all-All (i ∷ is) u h e =
    let (r, e₁, e₂) = bind-eq-ok (spend i.previous_output u) _ e in
    let (_, rest) = spend-eq-ok i.previous_output u e₁ in
    spend_all-All is (erase i.previous_output u) (erase-All i.previous_output u h) (rw rest at e₂)

validate_each_output-All :
    (limit : ℤ) (os : List TxOutput)
    → validate_each_output limit os ≡ ok tt
    → All (λ o. pos 1 ≤ℤ o.amount) os
unfolding validate_each_output
validate_each_output-All limit [] h = tt
validate_each_output-All limit (o ∷ os) h =
    let (_, e₁, h₁) = bind-eq-ok (raise_if (leb_ℤ o.amount (pos 0)) amount_not_positive) _ h in
    let (_, e₂, h₂) = bind-eq-ok (raise_if (ltb_ℤ limit o.amount) amount_above_maximum) _ h₁ in
    let (_, e₃, h₃) =
      bind-eq-ok (raise_if (not (is_valid_address o.address)) output_address) _ h₂ in
    let above = leb_ℤ_false o.amount (pos 0) (raise_if-eq-ok _ amount_not_positive e₁) in
    (omega arith, validate_each_output-All limit os h₃)

validate_outputs-All :
    (s : ConsensusState) (os : List TxOutput)
    → validate_outputs s os ≡ ok tt
    → All (λ o. pos 1 ≤ℤ o.amount) os
unfolding validate_outputs
validate_outputs-All s [] h = tt
validate_outputs-All s (o ∷ os) h = validate_each_output-All s.max_money (o ∷ os) h

module _ ⦃prim : Primitives⦄ where
  add_outputs-All :
      (t : Transaction) (n : ℕ) (os : List TxOutput) (u : UtxoSet) {u' : UtxoSet}
      → All (λ o. pos 1 ≤ℤ o.amount) os
      → All IsPositive u
      → add_outputs t n os u ≡ ok u'
      → All IsPositive u'
  unfolding add_outputs
  add_outputs-All t n [] u {u'} k h e = let same : u ≡ u' = cc in rw (← same) h
  add_outputs-All t n (o ∷ os) u k h e =
      let (id, e₁, h₁) = bind-eq-ok (txid t) _ e in
      let point : OutPoint = record { txid = id; index = pos n } in
      let (u₁, e₂, h₂) = bind-eq-ok (add point o u) _ h₁ in
      let inserted = add-eq-ok point o u e₂ in
      add_outputs-All t (n + 1) os u₁ k.1 (rw inserted.1 (insert-All point o u k.0 h)) h₂

  create_outputs-All :
      (s : ConsensusState) (t : Transaction) (u : UtxoSet) {u' : UtxoSet}
      → validate_outputs s t.outputs ≡ ok tt
      → All IsPositive u
      → create_outputs s t u ≡ ok u'
      → All IsPositive u'
  unfolding create_outputs
  create_outputs-All s t u {u'} valid h e =
      let (u₁, e₁, h₁) = bind-eq-ok (add_outputs t 0 t.outputs u) _ e in
      let (_, e₂, h₂) = bind-eq-ok (raise_if (ltb_ℤ s.max_money (total u₁)) _) _ h₁ in
      let same : u₁ ≡ u' = cc in
      rw (← same) (add_outputs-All t 0 t.outputs u (validate_outputs-All s t.outputs valid) h e₁)

  -- Outputs that pass their checks, created in a set that is fit, give a valid state.
  pub create_outputs-IsValid :
      (s : ConsensusState) (t : Transaction) (u : UtxoSet) {u' : UtxoSet}
      → validate_outputs s t.outputs ≡ ok tt
      → Distinct u
      → All IsPositive u
      → create_outputs s t u ≡ ok u'
      → IsValid (record s { utxos = u' })
  create_outputs-IsValid s t u valid d h e =
      let (d', _, bounded) = create_outputs-total s t u d e in
      record { distinct = d'; positive = create_outputs-All s t u valid h e; bounded = bounded }
