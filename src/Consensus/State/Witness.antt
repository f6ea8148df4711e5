-- ===== src/Consensus/State/Witness.antt =====
-- When an input authorises the spending of an output: `_validate_input_signature` of
-- blockchaincoin/consensus.py against its declarative meaning.
use blockchain_coin.Shared.{
  ℕ, ◌≡◌, refl, Bool, true, false, not, some, List, ok, raise_if, bind-eq-ok, raise_if-eq-ok,
  Option-cases, inl, inr,
}
use blockchain_coin.Text.{Text, text_eq, text_eq_iff}
use blockchain_coin.Failure.{key_does_not_own, signature_invalid}
use blockchain_coin.Crypto.{Primitives, PublicKey, key_address, verify_signature}
use blockchain_coin.Consensus.Types.{TxInput, TxOutput, Transaction, signing_message}
use blockchain_coin.Consensus.State.{witness, public_key_from_dict, validate_input_signature}

not-eq-false : (b : Bool) → not b ≡ false → b ≡ true
not-eq-false true h = refl
not-eq-false false h = cc

module _ ⦃prim : Primitives⦄ where
  -- The input shows a key whose address holds the output, and that key's signature of the message
  -- for this input.
  pub record IsAuthorised (t : Transaction) (k : ℕ) (i : TxInput) (o : TxOutput) : Type 0 where
    pub fields : List (Text × Text)
    pub signature : Text
    pub public_key : PublicKey
    pub shown : witness i ≡ some (fields, signature)
    pub parsed : public_key_from_dict fields ≡ ok public_key
    pub owns : key_address public_key ≡ ok o.address
    pub verified : verify_signature public_key (signing_message t k) signature ≡ true

  pub validate_input_signature-IsAuthorised :
      (t : Transaction) (k : ℕ) (i : TxInput) (o : TxOutput)
      → validate_input_signature t k i o ≡ ok tt
      → IsAuthorised t k i o
  unfolding validate_input_signature
  validate_input_signature-IsAuthorised t k i o h = elim (Option-cases (witness i)) [
    | inl e ↦ absurd (cc (rw (e, validate_input_signature) at h))
    | inr (w, e) ↦
        let h₀ = rw (e, validate_input_signature) at h in
        let (key, e₁, h₁) = bind-eq-ok (public_key_from_dict w.0) _ h₀ in
        let (address, e₂, h₂) = bind-eq-ok (key_address key) _ h₁ in
        let (_, e₃, e₄) =
          bind-eq-ok (raise_if (not (text_eq address o.address)) key_does_not_own) _ h₂ in
        let owner = not-eq-false _ (raise_if-eq-ok _ key_does_not_own e₃) in
        let same : address ≡ o.address = (text_eq_iff address o.address).0 owner in
        record {
          fields = w.0;
          signature = w.1;
          public_key = key;
          shown = e;
          parsed = e₁;
          owns = rw (← same) e₂;
          verified = not-eq-false _ (raise_if-eq-ok _ signature_invalid e₄);
        }
  ]

  pub IsAuthorised-validate_input_signature :
      (t : Transaction) (k : ℕ) (i : TxInput) (o : TxOutput)
      → IsAuthorised t k i o
      → validate_input_signature t k i o ≡ ok tt
  unfolding validate_input_signature
  IsAuthorised-validate_input_signature t k i o a = rw (
    a.shown,
    validate_input_signature,
    a.parsed,
    a.owns,
    (text_eq_iff o.address o.address).1 refl,
    a.verified,
  )
