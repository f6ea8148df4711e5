-- ===== src/Consensus/Blocks/Body.antt =====
-- What running the transactions of a block does to the state, in blockchaincoin/consensus.py: the
-- loop over `transactions[1:]` and the first transaction's reward.
use blockchain_coin.Shared.{
  ◌≡◌, refl, sym, ap, ◌∙◌, Bool, true, false, List, [], ◌∷◌, Result, ok, err, bind, bind-eq-ok,
  Result-cases, inl, inr, arith, ℤ, pos, ◌+ℤ◌, ◌≤ℤ◌, int_laws, subst, pos_part, neg_part,
}
use blockchain_coin.Failure.{Error}
use blockchain_coin.Crypto.{Primitives}
use blockchain_coin.Consensus.Types.{Transaction, Block, outpoint_equality, is_coinbase}
use blockchain_coin.Consensus.Utxo.{total}
use blockchain_coin.Consensus.State.{
  ConsensusState, output_total, apply_transaction, apply_block_coinbase, apply_genesis_coinbase,
}
use blockchain_coin.Consensus.State.Invariant.{IsValid}
use blockchain_coin.Consensus.State.Methods.{
  Sound, Moves, Rewards, Allocates, apply_transaction-Sound, apply_block_coinbase-Sound,
  apply_genesis_coinbase-Sound,
}
use blockchain_coin.Consensus.Blocks.{
  any_coinbase, spends_of, is_genesis, apply_all, apply_first, apply_reward, apply_body,
}

-- The same parameters, and a valid set.
pub record Follows (s s' : ConsensusState) : Type 0 where
  pub valid : IsValid s'
  pub subsidy : s'.block_subsidy ≡ s.block_subsidy
  pub limit : s'.max_money ≡ s.max_money

pub Follows-trans : {a b c : ConsensusState} → Follows a b → Follows b c → Follows a c
Follows-trans f g = record {
  valid = g.valid;
  subsidy = g.subsidy ∙ f.subsidy;
  limit = g.limit ∙ f.limit;
}

pub Sound-ok :
    {A : Type 0} (s : ConsensusState) (P : A → ConsensusState → Type 0)
    (p : Result Error A × ConsensusState) {a : A}
    → Sound s P p
    → p.0 ≡ ok a
    → Follows s p.1 × P a p.1
Sound-ok s P (ok b, s') {a} h e =
    let same : b ≡ a = cc in
    let (valid, subsidy, limit, holds) = h in
    (record { valid = valid; subsidy = subsidy; limit = limit }, subst (λ x. P x s') same holds)
Sound-ok s P (err x, s') h e = absurd (cc)

pub Sound-err :
    {A : Type 0} (s : ConsensusState) (P : A → ConsensusState → Type 0)
    (p : Result Error A × ConsensusState) {x : Error}
    → Sound s P p
    → p.0 ≡ err x
    → p.1 ≡ s
Sound-err s P (ok b, s') h e = absurd (cc)
Sound-err s P (err y, s') h e = h

pub Sound-intro :
    {A : Type 0} (s : ConsensusState) (P : A → ConsensusState → Type 0)
    (p : Result Error A × ConsensusState) {a : A}
    → p.0 ≡ ok a
    → Follows s p.1
    → P a p.1
    → Sound s P p
Sound-intro s P (ok b, s') {a} e f h =
    let same : a ≡ b = cc in (f.valid, f.subsidy, f.limit, subst (λ x. P x s') same h)
Sound-intro s P (err x, s') e f h = absurd (cc)

module _ ⦃prim : Primitives⦄ where
  pub apply_all-ok :
      (fees : ℤ) (t : Transaction) (ts : List Transaction) (s : ConsensusState) {fee : ℤ}
      → (apply_transaction t s).0 ≡ ok fee
      → apply_all fees (t ∷ ts) s ≡ apply_all (fees +ℤ fee) ts (apply_transaction t s).1
  unfolding apply_all
  apply_all-ok fees t ts s e = rw (e, apply_all)

  apply_all-err :
      (fees : ℤ) (t : Transaction) (ts : List Transaction) (s : ConsensusState) {x : Error}
      → (apply_transaction t s).0 ≡ err x
      → apply_all fees (t ∷ ts) s ≡ (err x, (apply_transaction t s).1)
  unfolding apply_all
  apply_all-err fees t ts s e = rw (e, apply_all)

  -- After the spending transactions of a block, none of them a coinbase.
  pub Spent : ConsensusState → ℤ → Result Error ℤ × ConsensusState → ℤ → Type 0
  Spent s fees p r = Follows s p.1 × (total p.1.utxos +ℤ r ≡ total s.utxos +ℤ fees) × (fees ≤ℤ r)

  pub apply_all-Spent :
      (fees : ℤ) (ts : List Transaction) (s : ConsensusState) {r : ℤ}
      → IsValid s
      → any_coinbase ts ≡ false
      → (apply_all fees ts s).0 ≡ ok r
      → Spent s fees (apply_all fees ts s) r
  unfolding Spent
  apply_all-Spent fees [] s {r} v plain h =
      unfold apply_all in
      let same : fees ≡ r = cc in
      (
        record { valid = v; subsidy = refl; limit = refl },
        ap (λ x. total s.utxos +ℤ x) (sym same),
        rw same (omega arith),
      )
  apply_all-Spent fees (t ∷ ts) s {r} v plain h = elim (Result-cases (apply_transaction t s).0) [
    | inr (x, e) ↦ absurd (cc (rw (apply_all-err fees t ts s e) at h))
    | inl (fee, e) ↦
        let s₁ = (apply_transaction t s).1 in
        let (simple, others) = plain_parts t ts plain in
        let (f, moved) =
          Sound-ok s (Moves t s) (apply_transaction t s) (apply_transaction-Sound t s v) e in
        let paid : (pos 0 ≤ℤ fee) × (total s₁.utxos +ℤ fee ≡ total s.utxos) = rw simple at moved in
        let h' : (apply_all (fees +ℤ fee) ts s₁).0 ≡ ok r = rw (apply_all-ok fees t ts s e) at h in
        let (g, more, least) = apply_all-Spent (fees +ℤ fee) ts s₁ f.valid others h' in
        rw (apply_all-ok fees t ts s e) (
          Follows-trans f g,
          more ∙ regroup (total s₁.utxos) fees fee ∙ ap (λ x. x +ℤ fees) paid.1,
          omega (int_laws, paid.0),
        )
  ]
    where
      plain_parts :
          (t : Transaction) (ts : List Transaction)
          → any_coinbase (t ∷ ts) ≡ false
          → (is_coinbase t ≡ false) × (any_coinbase ts ≡ false)
      plain_parts t ts h = unfold any_coinbase in ground arith

      regroup : (a b c : ℤ) → a +ℤ (b +ℤ c) ≡ a +ℤ c +ℤ b
      regroup a b c = omega int_laws

  -- What the first transaction pays out.
  unfoldable pub reward_total : List Transaction → ℤ
  reward_total [] = pos 0
  reward_total (t ∷ ts) = output_total t.outputs

  -- What the first transaction adds: its outputs in a first block, and else at most the subsidy and
  -- the fees.
  abbrev pub Rewarded : Bool → List Transaction → ℤ → ConsensusState → ConsensusState → Type 0
  Rewarded true ts fees s s' = total s'.utxos ≡ total s.utxos +ℤ reward_total ts
  Rewarded false ts fees s s' = total s'.utxos ≤ℤ total s.utxos +ℤ s.block_subsidy +ℤ fees

  apply_first-Rewarded :
      (genesis : Bool) (ts : List Transaction) (fees : ℤ) (s : ConsensusState) {a : Unit {0}}
      → IsValid s
      → (apply_first genesis ts fees s).0 ≡ ok a
      → Follows s (apply_first genesis ts fees s).1
        × Rewarded genesis ts fees s (apply_first genesis ts fees s).1
  unfolding apply_first reward_total
  apply_first-Rewarded genesis [] fees s v h = absurd (cc)
  apply_first-Rewarded true (t ∷ ts) fees s v h =
      Sound-ok s (Allocates t s) (apply_genesis_coinbase t s) (apply_genesis_coinbase-Sound t s v) h
  apply_first-Rewarded false (t ∷ ts) fees s v h =
      Sound-ok s (Rewards fees s) (apply_block_coinbase t fees s)
        (apply_block_coinbase-Sound t fees s v) h

  -- After a block: a first block adds its outputs, less the fees that left the set; any other issues
  -- at most one subsidy.
  abbrev pub Issued : Bool → List Transaction → ConsensusState → ℤ → ConsensusState → Type 0
  Issued true ts s fees s' = total s'.utxos +ℤ fees ≡ total s.utxos +ℤ reward_total ts
  Issued false ts s fees s' = total s'.utxos ≤ℤ total s.utxos +ℤ s.block_subsidy

  abbrev pub Issues : Block → ConsensusState → ℤ → ConsensusState → Type 0
  Issues b s fees s' = (pos 0 ≤ℤ fees) × Issued (is_genesis b) b.transactions s fees s'

  issued :
      (genesis : Bool) (ts : List Transaction) (s s₁ s' : ConsensusState) (fees : ℤ)
      → s₁.block_subsidy ≡ s.block_subsidy
      → total s₁.utxos +ℤ fees ≡ total s.utxos +ℤ pos 0
      → Rewarded genesis ts fees s₁ s'
      → Issued genesis ts s fees s'
  issued true ts s s₁ s' fees same spent paid = rw paid (
      swap (total s₁.utxos) (reward_total ts) fees
      ∙ ap (λ x. x +ℤ reward_total ts) spent
      ∙ omega int_laws)
    where
      swap : (a b c : ℤ) → a +ℤ b +ℤ c ≡ a +ℤ c +ℤ b
      swap a b c = omega int_laws
  issued false ts s s₁ s' fees same spent paid =
      bound (total s₁.utxos) (total s.utxos) s.block_subsidy fees (total s'.utxos) spent
        (rw same at paid)
    where
      bound : (a b c f r : ℤ) → a +ℤ f ≡ b +ℤ pos 0 → r ≤ℤ a +ℤ c +ℤ f → r ≤ℤ b +ℤ c
      bound a b c f r p q = omega (int_laws, ap pos_part p, ap neg_part p)

  apply_body-ok :
      (b : Block) (s : ConsensusState) {f : ℤ}
      → (apply_all (pos 0) (spends_of b.transactions) s).0 ≡ ok f
      → let s₁ = (apply_all (pos 0) (spends_of b.transactions) s).1 in
        apply_body b s ≡ (bind (apply_reward b f s₁).0 (λ _. ok f), (apply_reward b f s₁).1)
  unfolding apply_body
  apply_body-ok b s e = rw (e, apply_body)

  apply_body-err :
      (b : Block) (s : ConsensusState) {x : Error}
      → (apply_all (pos 0) (spends_of b.transactions) s).0 ≡ err x
      → (apply_body b s).0 ≡ err x
  unfolding apply_body
  apply_body-err b s e = rw (e, apply_body)

  -- A run of the body that returns: its two parts.
  pub apply_body-parts :
      (b : Block) (s : ConsensusState) {fees : ℤ}
      → (apply_body b s).0 ≡ ok fees
      → let (r, s₁) = apply_all (pos 0) (spends_of b.transactions) s in
        (r ≡ ok fees)
        × ((apply_reward b fees s₁).0 ≡ ok tt)
        × (apply_body b s ≡ (ok fees, (apply_reward b fees s₁).1))
  apply_body-parts b s {fees} h =
      elim (Result-cases (apply_all (pos 0) (spends_of b.transactions) s).0) [
        | inr (x, e) ↦ absurd (cc (apply_body-err b s e))
        | inl (f, e) ↦
            let s₁ = (apply_all (pos 0) (spends_of b.transactions) s).1 in
            let whole = apply_body-ok b s e in
            let h' : bind (apply_reward b f s₁).0 (λ _. ok f) ≡ ok fees = rw whole at h in
            let (_, e₁, h₁) = bind-eq-ok (apply_reward b f s₁).0 (λ _. ok f) h' in
            let same : f ≡ fees = cc in
            (rw e (ap ok same), rw (← same) e₁, rw whole (rw (e₁, same, bind)))
      ]

  -- A run of the body that returns, from a valid state.
  pub apply_body-Issues :
      (b : Block) (s : ConsensusState) {fees : ℤ}
      → IsValid s
      → any_coinbase (spends_of b.transactions) ≡ false
      → (apply_body b s).0 ≡ ok fees
      → Follows s (apply_body b s).1 × Issues b s fees (apply_body b s).1
  unfolding apply_reward Spent
  apply_body-Issues b s {fees} v plain h =
      let ts = spends_of b.transactions in
      let s₁ = (apply_all (pos 0) ts s).1 in
      let (e, e₁, whole) = apply_body-parts b s h in
      let (f, spent, least) = apply_all-Spent (pos 0) ts s v plain e in
      let (g, paid) = apply_first-Rewarded (is_genesis b) b.transactions fees s₁ f.valid e₁ in
      rw whole (
        Follows-trans f g,
        (
          least,
          issued (is_genesis b) b.transactions s s₁ (apply_reward b fees s₁).1 fees f.subsidy spent
              paid,
        ),
      )
