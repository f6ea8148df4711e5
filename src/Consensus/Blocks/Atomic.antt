-- ===== src/Consensus/Blocks/Atomic.antt =====
-- `apply_block` of blockchaincoin/consensus.py applies all of a block or nothing of it, and a chain
-- issues no more than its subsidies.
use blockchain_coin.Shared.{
  ◌≡◌, refl, sym, ap, ◌∙◌, Bool, true, false, ok, err, bind, raise_if, bind-eq-ok, raise_if-eq-ok,
  Result-cases, inl, inr, arith, ℤ, pos, ◌≤ℤ◌, subst, ltb_ℤ, leb_ℤ, ltb_ℤ_false, leb_ℤ_false,
}
use blockchain_coin.Text.{Text}
use blockchain_coin.Failure.{Error, negative_subsidy, max_money_not_positive, several_coinbases}
use blockchain_coin.Crypto.{Primitives}
use blockchain_coin.Consensus.Types.{Block, outpoint_equality}
use blockchain_coin.Consensus.Utxo.{UtxoSet, copy}
use blockchain_coin.Consensus.Utxo.Laws.{copy_lem}
use blockchain_coin.Consensus.State.{ConsensusState, new_state}
use blockchain_coin.Consensus.State.Invariant.{IsValid}
use blockchain_coin.Consensus.State.Methods.{Sound}
use blockchain_coin.Consensus.Blocks.Body.{Issues, Sound-intro, apply_body-parts, apply_body-Issues}
use blockchain_coin.Text.{text_eq, starts_with}
use blockchain_coin.Shared.{not, eqb_ℤ, is_empty}
use blockchain_coin.Failure.{
  block_version, block_height, block_previous_hash, negative_difficulty, proof_of_work,
  transaction_root_mismatch, no_transactions, first_not_coinbase,
}
use blockchain_coin.Consensus.Encode.{block_hash}
use blockchain_coin.Consensus.Merkle.{calculate_transaction_root}
use blockchain_coin.Consensus.Blocks.{
  work_target, first_is_coinbase, any_coinbase, spends_of, check_header, apply_body, validate_block,
  apply_block,
}

module _ ⦃prim : Primitives⦄ where
  -- What a header that passes tells of the block.
  pub check_header-eq-ok :
      (b : Block) (height : ℤ) (parent : Text) {a : Unit {0}}
      → check_header b height parent ≡ ok a
      → (eqb_ℤ b.height height ≡ true)
        × (text_eq b.previous_hash parent ≡ true)
        × (any_coinbase (spends_of b.transactions) ≡ false)
  unfolding check_header
  check_header-eq-ok b height parent h =
      let ts = b.transactions in
      let (_, _, h₁) = bind-eq-ok (raise_if (not (eqb_ℤ b.version (pos 1))) block_version) _ h in
      let (_, e₂, h₂) = bind-eq-ok (raise_if (not (eqb_ℤ b.height height)) block_height) _ h₁ in
      let (_, e₃, h₃) =
        bind-eq-ok (raise_if (not (text_eq b.previous_hash parent)) block_previous_hash) _ h₂ in
      let (_, _, h₄) =
        bind-eq-ok (raise_if (ltb_ℤ b.difficulty (pos 0)) negative_difficulty) _ h₃ in
      let (hash, _, h₅) = bind-eq-ok (block_hash b) _ h₄ in
      let (_, _, h₆) =
        bind-eq-ok (raise_if (not (starts_with hash (work_target b.difficulty))) proof_of_work) _
          h₅ in
      let (root, _, h₇) = bind-eq-ok (calculate_transaction_root ts) _ h₆ in
      let (_, _, h₈) =
        bind-eq-ok (raise_if (not (text_eq b.transaction_root root)) transaction_root_mismatch) _
          h₇ in
      let (_, _, h₉) = bind-eq-ok (raise_if (is_empty ts) no_transactions) _ h₈ in
      let (_, _, last) =
        bind-eq-ok (raise_if (not (first_is_coinbase ts)) first_not_coinbase) _ h₉ in
      (
        not-eq-false (raise_if-eq-ok (not (eqb_ℤ b.height height)) block_height e₂),
        not-eq-false (raise_if-eq-ok (not (text_eq b.previous_hash parent)) block_previous_hash e₃),
        raise_if-eq-ok (any_coinbase (spends_of ts)) several_coinbases last,
      )
    where
      not-eq-false : {x : Bool} → not x ≡ false → x ≡ true
      not-eq-false {x = true} h = refl
      not-eq-false {x = false} h = cc

  pub new_state-eq-ok :
      (u : UtxoSet) (subsidy limit : ℤ) {s : ConsensusState}
      → new_state u subsidy limit ≡ ok s
      → let made : ConsensusState = record {
        utxos = u;
        block_subsidy = subsidy;
        max_money = limit;
      } in
        (s ≡ made) × (pos 0 ≤ℤ subsidy) × (pos 1 ≤ℤ limit)
  unfolding new_state
  new_state-eq-ok u subsidy limit {s} h =
      let (_, e₁, h₁) = bind-eq-ok (raise_if (ltb_ℤ subsidy (pos 0)) negative_subsidy) _ h in
      let (_, e₂, h₂) = bind-eq-ok (raise_if (leb_ℤ limit (pos 0)) max_money_not_positive) _ h₁ in
      (
        sym (cc h₂),
        ltb_ℤ_false subsidy (pos 0) (raise_if-eq-ok _ negative_subsidy e₁),
        let above = leb_ℤ_false limit (pos 0) (raise_if-eq-ok _ max_money_not_positive e₂) in
            omega arith,
      )

  -- Validation runs the body on a copy, which is the state itself.
  pub validate_block-body :
      (b : Block) (height : ℤ) (parent : Text) (s : ConsensusState) {fees : ℤ}
      → IsValid s
      → validate_block b height parent s ≡ ok fees
      → (any_coinbase (spends_of b.transactions) ≡ false) × ((apply_body b s).0 ≡ ok fees)
  unfolding validate_block
  validate_block-body b height parent s {fees} v h =
      let (_, e₁, h₁) = bind-eq-ok (check_header b height parent) _ h in
      let (u, e₂, h₂) = bind-eq-ok (copy s.utxos) _ h₁ in
      let (candidate, e₃, h₃) = bind-eq-ok (new_state u s.block_subsidy s.max_money) _ h₂ in
      let (made, _, _) = new_state-eq-ok u s.block_subsidy s.max_money e₃ in
      let copied : u ≡ s.utxos = cc (copy_lem s.utxos v.distinct) in
      let same : candidate ≡ s = made ∙ ap (λ x. record s { utxos = x }) copied in
      ((check_header-eq-ok b height parent e₁).2, subst (λ c. (apply_body b c).0 ≡ ok fees) same h₃)

  -- `apply_block` does what validation did.
  apply_block-body :
      (b : Block) (height : ℤ) (parent : Text) (s : ConsensusState) {fees : ℤ}
      → validate_block b height parent s ≡ ok fees
      → (apply_body b s).0 ≡ ok fees
      → apply_block b height parent s ≡ apply_body b s
  unfolding apply_block
  apply_block-body b height parent s e h =
      let (e₁, e₂, whole) = apply_body-parts b s h in rw (e, whole, apply_block, e₁, e₂, bind)

  pub apply_block-rejects :
      (b : Block) (height : ℤ) (parent : Text) (s : ConsensusState) {x : Error}
      → validate_block b height parent s ≡ err x
      → apply_block b height parent s ≡ (err x, s)
  unfolding apply_block
  apply_block-rejects b height parent s e = rw (e, apply_block)

  -- From a valid state `apply_block` raises and changes nothing, or moves to a valid state with the
  -- same parameters: the fees are not negative, a first block adds its outputs, less the fees, and
  -- any other block adds at most the subsidy to the total.
  pub apply_block-Sound :
      (b : Block) (height : ℤ) (parent : Text) (s : ConsensusState)
      → IsValid s
      → Sound s (Issues b s) (apply_block b height parent s)
  apply_block-Sound b height parent s v = elim (Result-cases (validate_block b height parent s)) [
    | inr (x, e) ↦ rw (apply_block-rejects b height parent s e) refl
    | inl (fees, e) ↦
        let (plain, returns) = validate_block-body b height parent s v e in
        let (follows, issues) = apply_body-Issues b s v plain returns in
        rw (apply_block-body b height parent s e returns)
          (Sound-intro s (Issues b s) (apply_body b s) returns follows issues)
  ]

  -- From a valid state `apply_block` returns what `validate_block` returns, and raises what it
  -- raises: once a block is validated, applying it cannot fail half way.
  pub apply_block-validate_block :
      (b : Block) (height : ℤ) (parent : Text) (s : ConsensusState)
      → IsValid s
      → (apply_block b height parent s).0 ≡ validate_block b height parent s
  apply_block-validate_block b height parent s v =
      elim (Result-cases (validate_block b height parent s)) [
        | inr (x, e) ↦ rw (apply_block-rejects b height parent s e, e) refl
        | inl (fees, e) ↦
            let (plain, returns) = validate_block-body b height parent s v e in
            rw (apply_block-body b height parent s e returns, returns, e) refl
      ]
