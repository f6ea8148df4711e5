-- ===== src/Mempool/Admission.antt =====
-- What `MempoolPolicy.validate` (blockchaincoin/utxo_node.py) admits, said without its code.
use blockchain_coin.Shared.{
  ℕ, ◌≤◌, ◌+◌, ◌*◌, ◌≡◌, refl, sym, ◌↔◌, true, false, ℤ, pos, negsuc, pos_part, neg_part, ◌+ℤ◌,
  ◌≤ℤ◌, ◌<ℤ◌, leb_ℤ, ltb_ℤ, max_ℤ, length, Result, ok, raise_if, bind-eq-ok, bind-ok,
  raise_if-eq-ok, raise_if_pass, Result-cases, inl, inr, arith, int_laws, ltb_ℤ_false, leb_ℤ_false,
  not_ltb,
}
use blockchain_coin.Text.{Bytes}
use blockchain_coin.Consensus.Types.{Transaction}
use blockchain_coin.Consensus.Encode.{transaction_bytes}
use blockchain_coin.Mempool.Policy.{
  MempoolPolicyError, pool_full, too_many_inputs, too_many_outputs, too_large, fee_too_low,
  size_negative, count_negative, MempoolPolicy, ◌*ℤ◌, floor_1000, serialized_size, rate_at,
  effective_min_relay_fee_rate, minimum_fee, validate,
}

thousand_parts :
    (f : ℤ)
    → (pos_part (pos 1000 *ℤ f) ≡ 1000 * pos_part f)
      × (neg_part (pos 1000 *ℤ f) ≡ 1000 * neg_part f)
unfolding ◌*ℤ◌
thousand_parts (pos n) = (ground arith, ground arith)
thousand_parts (negsuc n) = (ground arith, ground arith)

floor_1000_le :
    (y f : ℤ)
    → floor_1000 y ≤ℤ f
    → pos_part y + 1000 * neg_part f ≤ 999 + 1000 * pos_part f + neg_part y
unfolding floor_1000
floor_1000_le (pos n) (pos m) h = omega arith
floor_1000_le (pos n) (negsuc m) h = omega arith
floor_1000_le (negsuc n) (pos m) h = omega arith
floor_1000_le (negsuc n) (negsuc m) h = omega arith

le_floor_1000 :
    (y f : ℤ)
    → pos_part y + 1000 * neg_part f ≤ 999 + 1000 * pos_part f + neg_part y
    → floor_1000 y ≤ℤ f
unfolding floor_1000
le_floor_1000 (pos n) (pos m) h = omega arith
le_floor_1000 (pos n) (negsuc m) h = omega arith
le_floor_1000 (negsuc n) (pos m) h = omega arith
le_floor_1000 (negsuc n) (negsuc m) h = omega arith

-- Rounded up to the next thousand.
floor_1000_iff : (x f : ℤ) → (floor_1000 (x +ℤ pos 999) ≤ℤ f) ↔ (x ≤ℤ pos 1000 *ℤ f)
floor_1000_iff x f =
    let (p, q) = thousand_parts f in
    (
      λ h. let k = floor_1000_le (x +ℤ pos 999) f h in omega int_laws,
      λ h. le_floor_1000 (x +ℤ pos 999) f (omega int_laws),
    )

minimum_fee-eq-ok :
    (p : MempoolPolicy) (size count : ℤ) {least : ℤ}
    → minimum_fee p size count ≡ ok least
    → (pos 0 ≤ℤ size)
      × (pos 0 ≤ℤ count)
      × (least ≡ max_ℤ p.min_relay_fee (floor_1000 (size *ℤ rate_at p count +ℤ pos 999)))
unfolding minimum_fee effective_min_relay_fee_rate
minimum_fee-eq-ok p size count {least} h =
    let (_, e₁, h₁) = bind-eq-ok (raise_if (ltb_ℤ size (pos 0)) size_negative) _ h in
    let (rate, e₂, h₂) = bind-eq-ok (effective_min_relay_fee_rate p count) _ h₁ in
    let (_, e₃, h₃) = bind-eq-ok (raise_if (ltb_ℤ count (pos 0)) count_negative) _ e₂ in
    let same : rate_at p count ≡ rate = cc h₃ in
    (
      ltb_ℤ_false size (pos 0) (raise_if-eq-ok _ size_negative e₁),
      ltb_ℤ_false count (pos 0) (raise_if-eq-ok _ count_negative e₃),
      rw same (sym (cc h₂)),
    )

minimum_fee_of_nonneg :
    (p : MempoolPolicy) (size count : ℤ)
    → pos 0 ≤ℤ size
    → pos 0 ≤ℤ count
    → minimum_fee p size count
      ≡ ok (max_ℤ p.min_relay_fee (floor_1000 (size *ℤ rate_at p count +ℤ pos 999)))
unfolding minimum_fee effective_min_relay_fee_rate
minimum_fee_of_nonneg p size count h k = rw (not_ltb size (pos 0) h, not_ltb count (pos 0) k) refl

-- A fee reaches the maximum of two bounds exactly if it reaches both.
max_le_iff : (a b f : ℤ) → (max_ℤ a b ≤ℤ f) ↔ ((a ≤ℤ f) × (b ≤ℤ f))
max_le_iff a b f = (λ h. (ground arith, ground arith), λ (h, k). ground arith)

-- A fee is no less than what `minimum_fee` returns exactly if it is no less than the least relay fee
-- and pays the rate: a thousand times the fee is no less than the size times the rate.
pub minimum_fee_iff :
    (p : MempoolPolicy) (size count fee : ℤ) {least : ℤ}
    → minimum_fee p size count ≡ ok least
    → (least ≤ℤ fee) ↔ ((p.min_relay_fee ≤ℤ fee) × (size *ℤ rate_at p count ≤ℤ pos 1000 *ℤ fee))
minimum_fee_iff p size count fee h =
    let (_, _, e) = minimum_fee-eq-ok p size count h in
    let due = size *ℤ rate_at p count in
    rw e (both p.min_relay_fee (floor_1000 (due +ℤ pos 999)) fee (floor_1000_iff due fee))
  where
    both : {P : Type 0} (a b f : ℤ) → ((b ≤ℤ f) ↔ P) → (max_ℤ a b ≤ℤ f) ↔ ((a ≤ℤ f) × P)
    both a b f (to, from) =
        let (split, meet) = max_le_iff a b f in
        (λ h. ((split h).0, to (split h).1), λ (h, k). meet (h, from k))

-- What the policy asks of a transaction with its fee, where the pool holds `count` others.
pub record IsAdmitted (p : MempoolPolicy) (t : Transaction) (fee count : ℤ) : Type 0 where
  pub raw : Bytes
  pub encoded : transaction_bytes true t ≡ ok raw
  pub known_count : pos 0 ≤ℤ count
  pub room : count <ℤ p.max_transactions
  pub few_inputs : pos (length t.inputs) ≤ℤ p.max_inputs
  pub few_outputs : pos (length t.outputs) ≤ℤ p.max_outputs
  pub small : pos (length raw) ≤ℤ p.max_transaction_bytes
  pub pays_relay : p.min_relay_fee ≤ℤ fee
  pub pays_rate : pos (length raw) *ℤ rate_at p count ≤ℤ pos 1000 *ℤ fee

serialized_size-eq-ok :
    (t : Transaction) {n : ℕ}
    → serialized_size t ≡ ok n
    → (raw : Bytes) × (transaction_bytes true t ≡ ok raw) × (n ≡ length raw)
unfolding serialized_size
serialized_size-eq-ok t {n} h = elim (Result-cases (transaction_bytes true t)) [
  | inr (x, e) ↦ absurd (cc (rw (e, serialized_size) at h))
  | inl (raw, e) ↦
      let h' : ◌≡◌ {A = Result MempoolPolicyError ℕ} (ok (length raw)) (ok n) =
        rw (e, serialized_size) at h in
      (raw, e, sym (cc h'))
]

validate_sound :
    (p : MempoolPolicy) (t : Transaction) (fee count : ℤ)
    → validate p t fee count ≡ ok tt
    → IsAdmitted p t fee count
unfolding validate
validate_sound p t fee count h =
    let (_, e₁, h₁) = bind-eq-ok (raise_if (leb_ℤ p.max_transactions count) pool_full) _ h in
    let (_, e₂, h₂) =
      bind-eq-ok (raise_if (ltb_ℤ p.max_inputs (pos (length t.inputs))) too_many_inputs) _ h₁ in
    let (_, e₃, h₃) =
      bind-eq-ok (raise_if (ltb_ℤ p.max_outputs (pos (length t.outputs))) too_many_outputs) _ h₂ in
    let (size, e₄, h₄) = bind-eq-ok (serialized_size t) _ h₃ in
    let (_, e₅, h₅) =
      bind-eq-ok (raise_if (ltb_ℤ p.max_transaction_bytes (pos size)) too_large) _ h₄ in
    let (least, e₆, h₆) = bind-eq-ok (minimum_fee p (pos size) count) _ h₅ in
    let (raw, encoded, same) = serialized_size-eq-ok t e₄ in
    let (_, known, _) = minimum_fee-eq-ok p (pos size) count e₆ in
    let enough = ltb_ℤ_false fee least (raise_if-eq-ok _ fee_too_low h₆) in
    let (relay, rate) = (minimum_fee_iff p (pos size) count fee e₆).0 enough in
    record {
      raw = raw;
      encoded = encoded;
      known_count = known;
      room = leb_ℤ_false p.max_transactions count (raise_if-eq-ok _ pool_full e₁);
      few_inputs =
          ltb_ℤ_false p.max_inputs (pos (length t.inputs)) (raise_if-eq-ok _ too_many_inputs e₂);
      few_outputs =
          ltb_ℤ_false p.max_outputs (pos (length t.outputs)) (raise_if-eq-ok _ too_many_outputs e₃);
      small =
          rw same at
            (ltb_ℤ_false p.max_transaction_bytes (pos size) (raise_if-eq-ok _ too_large e₅));
      pays_relay = relay;
      pays_rate = rw same at rate;
    }

not_leb : (a b : ℤ) → b <ℤ a → leb_ℤ a b ≡ false
not_leb a b h = ground arith

serialized_size_of :
    (t : Transaction) (raw : Bytes)
    → transaction_bytes true t ≡ ok raw
    → serialized_size t ≡ ok (length raw)
unfolding serialized_size
serialized_size_of t raw e = rw (e, serialized_size) refl

validate_complete :
    (p : MempoolPolicy) (t : Transaction) (fee count : ℤ)
    → IsAdmitted p t fee count
    → validate p t fee count ≡ ok tt
unfolding validate
validate_complete p t fee count h =
    let size = length h.raw in
    let least = minimum_fee_of_nonneg p (pos size) count (omega arith) h.known_count in
    let enough = (minimum_fee_iff p (pos size) count fee least).1 (h.pays_relay, h.pays_rate) in
    bind-ok _ (raise_if_pass pool_full (not_leb p.max_transactions count h.room)) (
      bind-ok _
        (raise_if_pass too_many_inputs (not_ltb p.max_inputs (pos (length t.inputs)) h.few_inputs))
        (bind-ok _
          (raise_if_pass too_many_outputs
            (not_ltb p.max_outputs (pos (length t.outputs)) h.few_outputs))
          (bind-ok _ (serialized_size_of t h.raw h.encoded) (
            bind-ok _ (raise_if_pass too_large (not_ltb p.max_transaction_bytes (pos size) h.small))
              (bind-ok _ least (raise_if_pass fee_too_low (not_ltb fee _ enough)))))))

-- `validate` returns exactly if the transaction, its fee and the pool meet the policy.
pub validate_iff :
    (p : MempoolPolicy) (t : Transaction) (fee count : ℤ)
    → (validate p t fee count ≡ ok tt) ↔ IsAdmitted p t fee count
validate_iff p t fee count = (validate_sound p t fee count, validate_complete p t fee count)
