-- ===== src/Consensus/State/Conservation.antt =====
-- Where the value goes when a transaction is applied: the totals of the set before and after the
-- inputs are spent and the outputs created (blockchaincoin/consensus.py).
use blockchain_coin.Shared.{
  ℕ, ◌+◌, ◌≡◌, refl, true, false, List, [], ◌∷◌, map, Result, ok, raise_if, bind-eq-ok,
  raise_if-eq-ok, arith, ℤ, pos, ◌+ℤ◌, ◌≤ℤ◌, int_laws, sum-nil, sum-cons, ltb_ℤ, ltb_ℤ_false, erase,
  Distinct, ◌==◌, lookup-erase_ne, erase-Distinct, insert-Distinct, if◌then◌else◌, beq_self,
}
use blockchain_coin.Failure.{Error, supply_exceeded}
use blockchain_coin.Crypto.{Primitives}
use blockchain_coin.Consensus.Types.{
  OutPoint, TxInput, TxOutput, Transaction, outpoint_equality, outpoint_eq_iff, is_coinbase,
}
use blockchain_coin.Consensus.Encode.{txid}
use blockchain_coin.Consensus.Utxo.{UtxoSet, add, copy, spend, total}
use blockchain_coin.Consensus.Utxo.Laws.{add-eq-ok, spend-eq-ok, total-add, total-erase, copy_lem}
use blockchain_coin.Consensus.State.{
  ConsensusState, output_total, mem, spend_all, add_outputs, create_outputs, validate_version,
  validate_outputs, validate_coinbase, validate_spend, validate_transaction, transaction_update,
}
use blockchain_coin.Consensus.State.Spending.{input_sum, AreFresh, IsSpend, validate_spend_sound}

-- Spending an outpoint leaves alone what inputs that do not name it are worth.
input_sum-erase :
    (p : OutPoint) (u : UtxoSet) (seen : List OutPoint) (is : List TxInput)
    → mem p seen ≡ true
    → AreFresh seen is
    → input_sum (erase p u) is ≡ input_sum u is
unfolding input_sum mem
input_sum-erase p u seen [] m fresh = refl
input_sum-erase p u seen (i ∷ is) m fresh =
    let q = i.previous_output in
    let other : (p == q) ≡ false = differ p q seen m fresh.0 in
    let later = input_sum-erase p u (q ∷ seen) is (ground arith) fresh.1 in
    rw (lookup-erase_ne q p u other, later)
  where
    differ :
        (p q : OutPoint) (seen : List OutPoint)
        → mem p seen ≡ true
        → mem q seen ≡ false
        → (p == q) ≡ false
    differ p q [] a b = cc
    differ p q (x ∷ xs) a b =
        ground (arith, outpoint_eq_iff p q, outpoint_eq_iff x p, outpoint_eq_iff x q, differ p q xs)

-- The set loses what the inputs were worth in it.
pub spend_all-total :
    (is : List TxInput) (seen : List OutPoint) (u : UtxoSet) {u' : UtxoSet}
    → Distinct u
    → AreFresh seen is
    → spend_all is u ≡ ok u'
    → Distinct u' × (total u ≡ total u' +ℤ input_sum u is)
unfolding spend_all input_sum
spend_all-total [] seen u {u'} d fresh h =
    let e : u ≡ u' = cc in (rw (← e) d, rw (← e) (omega int_laws))
spend_all-total (i ∷ is) seen u d fresh h =
    let p = i.previous_output in
    let (r, e, h₁) = bind-eq-ok (spend p u) _ h in
    let (found, rest) = spend-eq-ok p u e in
    let here : mem p (p ∷ seen) ≡ true = mem_self p seen in
    let h₂ : spend_all is (erase p u) ≡ ok _ = rw rest at h₁ in
    let (d', less) = spend_all-total is (p ∷ seen) (erase p u) (erase-Distinct p u d) fresh.1 h₂ in
    let same = input_sum-erase p u (p ∷ seen) is here fresh.1 in
    (d', rw (total-erase p u found, less, same, found) (omega int_laws))
  where
    mem_self : (p : OutPoint) (seen : List OutPoint) → mem p (p ∷ seen) ≡ true
    mem_self p seen = unfold mem in ground (arith, beq_self p)

output_total-nil : output_total [] ≡ pos 0
unfolding output_total
output_total-nil = sum-nil

output_total-cons :
    (o : TxOutput) (os : List TxOutput) → output_total (o ∷ os) ≡ o.amount +ℤ output_total os
unfolding output_total
output_total-cons o os = sum-cons o.amount (map (λ x. x.amount) os)

module _ ⦃prim : Primitives⦄ where
  -- The set gains what the outputs hold.
  pub add_outputs-total :
      (t : Transaction) (n : ℕ) (os : List TxOutput) (u : UtxoSet) {u' : UtxoSet}
      → Distinct u
      → add_outputs t n os u ≡ ok u'
      → Distinct u' × (total u' ≡ total u +ℤ output_total os)
  unfolding add_outputs
  add_outputs-total t n [] u {u'} d h =
      let e : u ≡ u' = cc in (rw (← e) d, rw (← e, output_total-nil) (omega int_laws))
  add_outputs-total t n (o ∷ os) u d h =
      let (id, e, h₁) = bind-eq-ok (txid t) _ h in
      let point : OutPoint = record { txid = id; index = pos n } in
      let (u₁, e₁, h₂) = bind-eq-ok (add point o u) _ h₁ in
      let inserted = add-eq-ok point o u e₁ in
      let d₁ : Distinct u₁ = rw inserted.1 (insert-Distinct point o u d) in
      let (d₂, more) = add_outputs-total t (n + 1) os u₁ d₁ h₂ in
      (d₂, rw (more, total-add point o u e₁, output_total-cons o os) (omega int_laws))

  pub create_outputs-total :
      (s : ConsensusState) (t : Transaction) (u : UtxoSet) {u' : UtxoSet}
      → Distinct u
      → create_outputs s t u ≡ ok u'
      → Distinct u' × (total u' ≡ total u +ℤ output_total t.outputs) × (total u' ≤ℤ s.max_money)
  unfolding create_outputs
  create_outputs-total s t u {u'} d h =
      let (u₁, e, h₁) = bind-eq-ok (add_outputs t 0 t.outputs u) _ h in
      let (_, e₁, h₂) = bind-eq-ok (raise_if (ltb_ℤ s.max_money (total u₁)) supply_exceeded) _ h₁ in
      let (d', more) = add_outputs-total t 0 t.outputs u d e in
      let same : u₁ ≡ u' = cc in
      (
        rw (← same) d',
        rw (← same) more,
        rw (← same) (ltb_ℤ_false s.max_money (total u₁) (raise_if-eq-ok _ supply_exceeded e₁)),
      )

  -- What a successful update has done, for a transaction that spends.
  pub record Applied (s : ConsensusState) (t : Transaction) (fee : ℤ) (u : UtxoSet) : Type 0 where
    pub outputs_valid : validate_outputs s t.outputs ≡ ok tt
    pub valid : IsSpend s t fee
    pub spent : UtxoSet
    pub spends : spend_all t.inputs s.utxos ≡ ok spent
    pub creates : create_outputs s t spent ≡ ok u

  pub validate_transaction-eq-ok :
      (s : ConsensusState) (t : Transaction) {fee : ℤ}
      → validate_transaction s t ≡ ok fee
      → (validate_outputs s t.outputs ≡ ok tt)
        × ((if is_coinbase t then validate_coinbase s t else validate_spend s t) ≡ ok fee)
  unfolding validate_transaction
  validate_transaction-eq-ok s t h =
      let (_, e₁, h₁) = bind-eq-ok (validate_version t) _ h in
      let (_, e₂, h₂) = bind-eq-ok (validate_outputs s t.outputs) _ h₁ in (e₂, h₂)

  pub transaction_update-Applied :
      (s : ConsensusState) (t : Transaction) {fee : ℤ} {u : UtxoSet}
      → Distinct s.utxos
      → is_coinbase t ≡ false
      → transaction_update s t ≡ ok (fee, u)
      → Applied s t fee u
  unfolding transaction_update
  transaction_update-Applied s t {fee} {u} d plain h =
      let (f, e₁, h₁) = bind-eq-ok (validate_transaction s t) _ h in
      let (c, e₂, h₂) = bind-eq-ok (copy s.utxos) _ h₁ in
      let (spent, e₃, h₃) =
        bind-eq-ok (if is_coinbase t then ok c else spend_all t.inputs c) _ h₂ in
      let (made, e₄, h₄) = bind-eq-ok (create_outputs s t spent) _ h₃ in
      let (outputs, checked) = validate_transaction-eq-ok s t e₁ in
      let copied : s.utxos ≡ c = cc (copy_lem s.utxos d) in
      let same : f ≡ fee = ok_pair_fst h₄ in
      let same' : made ≡ u = ok_pair_snd h₄ in
      let spends : spend_all t.inputs c ≡ ok spent = rw plain at e₃ in
      record {
        outputs_valid = outputs;
        valid = validate_spend_sound s t (rw (← same) (rw plain at checked));
        spent = spent;
        spends = rw copied spends;
        creates = rw (← same') e₄;
      }
    where
      ok_pair_fst :
          {a b : ℤ} {x y : UtxoSet}
          → ◌≡◌ {A = Result Error (ℤ × UtxoSet)} (ok (a, x)) (ok (b, y))
          → a ≡ b
      ok_pair_fst k = ground arith

      ok_pair_snd :
          {a b : ℤ} {x y : UtxoSet}
          → ◌≡◌ {A = Result Error (ℤ × UtxoSet)} (ok (a, x)) (ok (b, y))
          → x ≡ y
      ok_pair_snd k = ground arith

  -- The fee that is returned is what leaves the set: nothing is created and nothing else is lost.
  pub Applied-conserves :
      (s : ConsensusState) (t : Transaction) {fee : ℤ} {u : UtxoSet}
      → Distinct s.utxos
      → Applied s t fee u
      → Distinct u × (total u +ℤ fee ≡ total s.utxos) × (total u ≤ℤ s.max_money)
  Applied-conserves s t {fee} {u} d a =
      let (d₁, less) = spend_all-total t.inputs [] s.utxos d a.valid.fresh a.spends in
      let (d₂, more, bounded) = create_outputs-total s t a.spent d₁ a.creates in
      (d₂, rw (more, less, a.valid.balance) (omega int_laws), bounded)
