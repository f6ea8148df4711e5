-- ===== src/Consensus/State/Spending.antt =====
-- What a transaction that is no coinbase must satisfy: the declarative form of the input loop of
-- `validate_transaction` (blockchaincoin/consensus.py), and the two agree.
use blockchain_coin.Shared.{
  ℕ, ◌+◌, ◌≡◌, refl, ap, ◌∙◌, ◌↔◌, false, Option, none, some, List, [], ◌∷◌, ok, raise_if,
  bind-eq-ok, raise_if-eq-ok, Option-cases, inl, inr, arith, ℤ, pos, ◌+ℤ◌, ◌-ℤ◌, ◌≤ℤ◌, int_laws,
  ltb_ℤ, ltb_ℤ_false, lookup, bind-ok, raise_if_pass, not_ltb, is_empty,
}
use blockchain_coin.Failure.{double_spend, no_inputs, spends_more_than_inputs}
use blockchain_coin.Crypto.{Primitives}
use blockchain_coin.Consensus.Types.{OutPoint, TxInput, TxOutput, Transaction, outpoint_equality}
use blockchain_coin.Consensus.Utxo.{UtxoSet, get}
use blockchain_coin.Consensus.State.{
  ConsensusState, output_total, mem, validate_input_signature, validate_inputs, validate_spend,
}
use blockchain_coin.Consensus.State.Witness.{
  IsAuthorised, validate_input_signature-IsAuthorised, IsAuthorised-validate_input_signature,
}

-- What an outpoint is worth in a set.
abbrev pub worth : Option TxOutput → ℤ
worth none = pos 0
worth (some o) = o.amount

-- What inputs are worth in a set.
unfoldable pub input_sum : UtxoSet → List TxInput → ℤ
input_sum utxos [] = pos 0
input_sum utxos (i ∷ is) = worth (lookup i.previous_output utxos) +ℤ input_sum utxos is

-- No input repeats another or one of those `seen`.
abbrev pub AreFresh : List OutPoint → List TxInput → Type 0
AreFresh seen [] = Unit
AreFresh seen (i ∷ is) =
    (mem i.previous_output seen ≡ false) × AreFresh (i.previous_output ∷ seen) is

get-eq-ok : (p : OutPoint) (u : UtxoSet) {o : TxOutput} → get p u ≡ ok o → lookup p u ≡ some o
unfolding get
get-eq-ok p u h = elim (Option-cases (lookup p u)) [
  | inl e ↦ absurd (cc (rw (e, get) at h))
  | inr (o, e) ↦ ground arith
]

get_of_some : (p : OutPoint) (u : UtxoSet) {o : TxOutput} → lookup p u ≡ some o → get p u ≡ ok o
unfolding get
get_of_some p u h = rw (h, get)

module _ ⦃prim : Primitives⦄ where
  -- Each input names an unspent output and authorises it; `k` is the index of the first.
  abbrev pub AreAuthorised : UtxoSet → Transaction → ℕ → List TxInput → Type 0
  AreAuthorised u t k [] = Unit
  AreAuthorised u t k (i ∷ is) =
      ((o : TxOutput) × (lookup i.previous_output u ≡ some o) × IsAuthorised t k i o)
      × AreAuthorised u t (k + 1) is

  validate_inputs_sound :
      (s : ConsensusState) (t : Transaction) (k : ℕ) (seen : List OutPoint) (acc : ℤ)
      (is : List TxInput) {r : ℤ}
      → validate_inputs s t k seen acc is ≡ ok r
      → AreFresh seen is × AreAuthorised s.utxos t k is × (r ≡ acc +ℤ input_sum s.utxos is)
  unfolding validate_inputs input_sum
  validate_inputs_sound s t k seen acc [] {r} h =
      let e : acc ≡ r = cc in (tt, tt, rw (← e) (omega int_laws))
  validate_inputs_sound s t k seen acc (i ∷ is) {r} h =
      let p = i.previous_output in
      let (_, e₁, h₁) = bind-eq-ok (raise_if (mem p seen) double_spend) _ h in
      let (o, e₂, h₂) = bind-eq-ok (get p s.utxos) _ h₁ in
      let (_, e₃, h₃) = bind-eq-ok (validate_input_signature t k i o) _ h₂ in
      let (fresh, authorised, e) =
        validate_inputs_sound s t (k + 1) (p ∷ seen) (acc +ℤ o.amount) is h₃ in
      let found : lookup p s.utxos ≡ some o = get-eq-ok p s.utxos e₂ in
      (
        (raise_if-eq-ok _ double_spend e₁, fresh),
        ((o, found, validate_input_signature-IsAuthorised t k i o e₃), authorised),
        rw (e, found) (omega int_laws),
      )

  validate_inputs_complete :
      (s : ConsensusState) (t : Transaction) (k : ℕ) (seen : List OutPoint) (acc : ℤ)
      (is : List TxInput)
      → AreFresh seen is
      → AreAuthorised s.utxos t k is
      → validate_inputs s t k seen acc is ≡ ok (acc +ℤ input_sum s.utxos is)
  unfolding validate_inputs input_sum
  validate_inputs_complete s t k seen acc [] fresh authorised = ap ok (omega int_laws)
  validate_inputs_complete s t k seen acc (i ∷ is) fresh authorised =
      let (o, found, a) = authorised.0 in
      let p = i.previous_output in
      let later =
        validate_inputs_complete s t (k + 1) (p ∷ seen) (acc +ℤ o.amount) is fresh.1 authorised.1 in
      let same : acc +ℤ o.amount +ℤ input_sum s.utxos is
          ≡ acc +ℤ (o.amount +ℤ input_sum s.utxos is) =
        omega int_laws in
      rw found (
        bind-ok _ (raise_if_pass double_spend fresh.0) (
          bind-ok _ (get_of_some p s.utxos found)
            (bind-ok _ (IsAuthorised-validate_input_signature t k i o a) (later ∙ ap ok same))))

  -- The conditions on a transaction that spends outputs of the set and pays `fee`.
  pub record IsSpend (s : ConsensusState) (t : Transaction) (fee : ℤ) : Type 0 where
    pub some_input : (i : TxInput) × (is : List TxInput) × (t.inputs ≡ i ∷ is)
    pub fresh : AreFresh [] t.inputs
    pub authorised : AreAuthorised s.utxos t 0 t.inputs
    pub balance : input_sum s.utxos t.inputs ≡ output_total t.outputs +ℤ fee
    pub fee_nonneg : pos 0 ≤ℤ fee

  pub validate_spend_sound :
      (s : ConsensusState) (t : Transaction) {fee : ℤ}
      → validate_spend s t ≡ ok fee
      → IsSpend s t fee
  unfolding validate_spend
  validate_spend_sound s t {fee} h =
      let (_, e₁, h₁) = bind-eq-ok (raise_if (is_empty t.inputs) no_inputs) _ h in
      let (r, e₂, h₂) = bind-eq-ok (validate_inputs s t 0 [] (pos 0) t.inputs) _ h₁ in
      let (_, e₃, h₃) =
        bind-eq-ok (raise_if (ltb_ℤ r (output_total t.outputs)) spends_more_than_inputs) _ h₂ in
      let (fresh, authorised, e) = validate_inputs_sound s t 0 [] (pos 0) t.inputs e₂ in
      let enough =
        ltb_ℤ_false r (output_total t.outputs) (raise_if-eq-ok _ spends_more_than_inputs e₃) in
      let paid : r -ℤ output_total t.outputs ≡ fee = cc in
      record {
        some_input = nonempty t.inputs (raise_if-eq-ok _ no_inputs e₁);
        fresh = fresh;
        authorised = authorised;
        balance = balances (input_sum s.utxos t.inputs) (output_total t.outputs) r fee e paid;
        fee_nonneg = rw (← paid) (omega int_laws);
      }
    where
      nonempty :
          (is : List TxInput)
          → is_empty is ≡ false
          → (i : TxInput) × (js : List TxInput) × (is ≡ i ∷ js)
      nonempty [] k = absurd (cc)
      nonempty (i ∷ js) k = (i, js, refl)

      balances : (a b r f : ℤ) → r ≡ pos 0 +ℤ a → r -ℤ b ≡ f → a ≡ b +ℤ f
      balances a b r f p q = rw (← q, p) (omega int_laws)

  pub validate_spend_complete :
      (s : ConsensusState) (t : Transaction) {fee : ℤ}
      → IsSpend s t fee
      → validate_spend s t ≡ ok fee
  unfolding validate_spend
  validate_spend_complete s t {fee} h =
      let sum_up = validate_inputs_complete s t 0 [] (pos 0) t.inputs h.fresh h.authorised in
      let (i, is, e) = h.some_input in
      let spent = input_sum s.utxos t.inputs in
      let given = output_total t.outputs in
      bind-ok _ (raise_if_pass {b = is_empty t.inputs} no_inputs (rw e)) (
        bind-ok _ sum_up (
          bind-ok _
            (raise_if_pass spends_more_than_inputs (covers spent given fee h.balance h.fee_nonneg))
            (ap ok (fee_is spent given fee h.balance))))
    where
      covers : (a b f : ℤ) → a ≡ b +ℤ f → pos 0 ≤ℤ f → ltb_ℤ (pos 0 +ℤ a) b ≡ false
      covers a b f p q = not_ltb (pos 0 +ℤ a) b (rw p (omega int_laws))

      fee_is : (a b f : ℤ) → a ≡ b +ℤ f → (pos 0 +ℤ a) -ℤ b ≡ f
      fee_is a b f p = rw p (omega int_laws)

  -- A transaction that is no coinbase passes with a fee exactly if it has an input, no input repeats
  -- an outpoint, every input spends an output of the set that its witness may spend, and the inputs
  -- are worth the outputs and the fee, which is not negative.
  pub validate_spend_iff :
      (s : ConsensusState) (t : Transaction) (fee : ℤ)
      → (validate_spend s t ≡ ok fee) ↔ IsSpend s t fee
  validate_spend_iff s t fee = (validate_spend_sound s t, validate_spend_complete s t)
