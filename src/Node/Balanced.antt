-- ===== src/Node/Balanced.antt =====
-- What a transaction of `create_transaction` (`ConsensusNode` of blockchaincoin/utxo_node.py) spends and
-- pays.
use blockchain_coin.Shared.{
  ℕ, zero, suc, ◌+◌, ◌≡◌, refl, ap, ◌∙◌, true, false, not, List, [], ◌∷◌, ◌++◌, map, length, ℤ, pos,
  pos_part, ◌+ℤ◌, ◌-ℤ◌, ◌≤ℤ◌, ◌<ℤ◌, int_laws, sum, sum-nil, sum-cons, leb_ℤ, ltb_ℤ, eqb_ℤ,
  eqb_ℤ_iff, ok, raise_if, bind-eq-ok, raise_if-eq-ok, Bool-cases, inl, inr, arith, ◌||◌, subst,
}
use blockchain_coin.Text.{Text}
use blockchain_coin.Crypto.{is_valid_address}
use blockchain_coin.Consensus.Types.{OutPoint, TxInput, Transaction, signing_message}
use blockchain_coin.Consensus.Utxo.{Utxo}
use blockchain_coin.Consensus.State.{output_total, replace_witness, sign_input}
use blockchain_coin.Node.Types.{
  amount_not_positive, fee_negative, recipient_invalid, consensus_raises, Node,
}
use blockchain_coin.Node.Mining.{lift-eq-ok}
use blockchain_coin.Node.Assemble.{
  Wallet, input_of, select_outputs, payment_outputs, spendable_outputs, unsigned_spend, sign_from,
  create_transaction,
}

-- `sum(utxo.output.amount for utxo in ...)`
abbrev pub worth : List Utxo → ℤ
worth us = sum (map (λ u. u.output.amount) us)

abbrev spent_outpoints : List TxInput → List OutPoint
spent_outpoints is = map (λ i. i.previous_output) is

select_outputs-worth :
    (needed start : ℤ) (us : List Utxo)
    → (rest : List Utxo) × (us ≡ (select_outputs needed start us).0 ++ rest)
      × ((select_outputs needed start us).1 ≡ start +ℤ worth (select_outputs needed start us).0)
unfolding select_outputs
select_outputs-worth needed start [] = ([], refl, rw sum-nil (omega int_laws))
select_outputs-worth needed start (u ∷ us) =
    let reached = start +ℤ u.output.amount in
    let others = (select_outputs needed reached us).0 in
    elim (Bool-cases (leb_ℤ needed reached)) [
      | inl e ↦ rw e (us, refl, rw (sum-cons u.output.amount [], sum-nil) (omega int_laws))
      | inr e ↦
          let (rest, split, paid) = select_outputs-worth needed reached us in
          rw e (
            rest,
            ap (λ vs. u ∷ vs) split,
            paid
                ∙ rw (sum-cons u.output.amount (map (λ v. v.output.amount) others))
                    (omega int_laws),
          )
    ]

payment_outputs-total :
    (amount change : ℤ) (recipient own : Text)
    → output_total (payment_outputs amount recipient change own) ≡ amount +ℤ change
unfolding payment_outputs output_total
payment_outputs-total amount change recipient own = elim (Bool-cases (eqb_ℤ change (pos 0))) [
  | inl e ↦
      let nothing = (eqb_ℤ_iff change (pos 0)).0 e in
      rw (e, sum-cons amount [], sum-nil, nothing) (omega int_laws)
  | inr e ↦ rw (e, sum-cons amount (change ∷ []), sum-cons change [], sum-nil) (omega int_laws)
]

replace_witness-spent :
    (signed : Text) (key : List (Text × Text)) (n : ℕ) (is : List TxInput)
    → spent_outpoints (replace_witness signed key n is) ≡ spent_outpoints is
unfolding replace_witness
replace_witness-spent signed key n [] = refl
replace_witness-spent signed key zero (i ∷ is) = refl
replace_witness-spent signed key (suc n) (i ∷ is) =
    ap (λ ps. i.previous_output ∷ ps) (replace_witness-spent signed key n is)

-- The same outpoints spent and the same outputs
abbrev SameBody : Transaction → Transaction → Type 0
SameBody t u = (spent_outpoints u.inputs ≡ spent_outpoints t.inputs) × (u.outputs ≡ t.outputs)

sign_input-SameBody :
    (t : Transaction) (index : ℤ) (sign : Text → Text) (key : List (Text × Text)) {u : Transaction}
    → sign_input t index sign key ≡ ok u
    → SameBody t u
unfolding sign_input
sign_input-SameBody t index sign key {u} h =
    elim (Bool-cases (ltb_ℤ index (pos 0) || leb_ℤ (pos (length t.inputs)) index)) [
      | inl e ↦ absurd (cc (rw (e, sign_input) at h))
      | inr e ↦
          let at = pos_part index in
          let signed : Transaction = record t {
            inputs = replace_witness (sign (signing_message t at)) key at t.inputs;
          } in
          let same : signed ≡ u = cc (rw (e, sign_input) at h) in
          rw (← same) (replace_witness-spent (sign (signing_message t at)) key at t.inputs, refl)
    ]

sign_from-SameBody :
    (wallet : Wallet) (count index : ℕ) (t : Transaction) {u : Transaction}
    → sign_from wallet count index t ≡ ok u
    → SameBody t u
unfolding sign_from
sign_from-SameBody wallet zero index t {u} h = let same : t ≡ u = cc in rw (← same) (refl, refl)
sign_from-SameBody wallet (suc count) index t h =
    let (v, e, h₁) = bind-eq-ok (sign_input t (pos index) wallet.sign wallet.public_key) _ h in
    let (spent, outputs) = sign_input-SameBody t (pos index) wallet.sign wallet.public_key e in
    let (spent', outputs') = sign_from-SameBody wallet count (index + 1) v h₁ in
    (spent' ∙ spent, outputs' ∙ outputs)

input_of-spent : (us : List Utxo) → spent_outpoints (map input_of us) ≡ map (λ u. u.outpoint) us
input_of-spent [] = refl
input_of-spent (u ∷ us) = ap (λ ps. u.outpoint ∷ ps) (input_of-spent us)

-- A transaction that spends the first of some outputs, and pays out all they are worth but the fee.
pub record IsBalanced (spendable : List Utxo) (fee : ℤ) (t : Transaction) : Type 0 where
  pub selected : List Utxo
  pub others : List Utxo
  pub first_ones : spendable ≡ selected ++ others
  pub spent : map (λ i. i.previous_output) t.inputs ≡ map (λ u. u.outpoint) selected
  pub paid : worth selected ≡ output_total t.outputs +ℤ fee

unsigned_spend-IsBalanced :
    (wallet : Wallet) (recipient : Text) (amount fee : ℤ) (spendable : List Utxo) {t : Transaction}
    → unsigned_spend wallet recipient amount fee spendable ≡ ok t
    → IsBalanced spendable fee t
unfolding unsigned_spend
unsigned_spend-IsBalanced wallet recipient amount fee spendable {t} h =
    let needed = amount +ℤ fee in
    let selected = (select_outputs needed (pos 0) spendable).0 in
    let in_all = (select_outputs needed (pos 0) spendable).1 in
    let (rest, split, reached) = select_outputs-worth needed (pos 0) spendable in
    elim (Bool-cases (ltb_ℤ in_all needed)) [
      | inl e ↦ absurd (cc (rw (e, unsigned_spend) at h))
      | inr e ↦
          let made : Transaction = record {
            inputs = map input_of selected;
            outputs = payment_outputs amount recipient (in_all -ℤ needed) wallet.address;
            version = pos 1;
          } in
          let same : made ≡ t = cc (rw (e, unsigned_spend) at h) in
          let total = payment_outputs-total amount (in_all -ℤ needed) recipient wallet.address in
          subst (IsBalanced spendable fee) same (record {
            selected = selected;
            others = rest;
            first_ones = split;
            spent = input_of-spent selected;
            paid = rw total (adds_up (worth selected) in_all amount fee reached);
          })
    ]
  where
    adds_up :
        (w in_all amount fee : ℤ)
        → in_all ≡ pos 0 +ℤ w
        → w ≡ (amount +ℤ (in_all -ℤ (amount +ℤ fee))) +ℤ fee
    adds_up w in_all amount fee e = rw e (omega int_laws)

-- Where `create_transaction` returns, the amount is positive, the fee not negative and the recipient's address
-- valid; the signed transaction spends the first of the wallet's spendable outputs in their order, and its
-- outputs are worth exactly what it spends less the fee.
pub create_transaction-IsBalanced :
    (wallet : Wallet) (recipient : Text) (amount fee : ℤ) (n : Node) (t : Transaction)
    → create_transaction wallet recipient amount fee n ≡ ok t
    → (pos 0 <ℤ amount)
      × (pos 0 ≤ℤ fee)
      × (is_valid_address recipient ≡ true)
      × IsBalanced (spendable_outputs wallet.address n) fee t
unfolding create_transaction
create_transaction-IsBalanced wallet recipient amount fee n t h =
    let (_, e₁, h₁) = bind-eq-ok (raise_if (leb_ℤ amount (pos 0)) amount_not_positive) _ h in
    let (_, e₂, h₂) = bind-eq-ok (raise_if (ltb_ℤ fee (pos 0)) fee_negative) _ h₁ in
    let (_, e₃, h₃) =
      bind-eq-ok (raise_if (not (is_valid_address recipient)) recipient_invalid) _ h₂ in
    let (u, e₄, h₄) =
      bind-eq-ok (unsigned_spend wallet recipient amount fee (spendable_outputs wallet.address n)) _
        h₃ in
    let positive : leb_ℤ amount (pos 0) ≡ false = raise_if-eq-ok _ amount_not_positive e₁ in
    let nonnegative : ltb_ℤ fee (pos 0) ≡ false = raise_if-eq-ok _ fee_negative e₂ in
    let valid : not (is_valid_address recipient) ≡ false = raise_if-eq-ok _ recipient_invalid e₃ in
    let b =
      unsigned_spend-IsBalanced wallet recipient amount fee (spendable_outputs wallet.address n)
        e₄ in
    let (spent, outputs) =
      sign_from-SameBody wallet (length u.inputs) 0 u (lift-eq-ok consensus_raises _ h₄) in
    (
      ground arith,
      ground arith,
      ground arith,
      record {
        selected = b.selected;
        others = b.others;
        first_ones = b.first_ones;
        spent = spent ∙ b.spent;
        paid = rw outputs b.paid;
      },
    )
