-- ===== src/Node/Mining.antt =====
-- What `_mine` of `ConsensusNode` (blockchaincoin/utxo_node.py) returns, and when it does.
use blockchain_coin.Shared.{
  ℕ, zero, suc, ◌+◌, ◌<◌, ◌∙◌, int_laws, ◌≡◌, refl, sym, ap, true, false, is_empty, ℤ, pos, ◌+ℤ◌,
  ◌≤ℤ◌, ltb_ℤ, eqb_ℤ_iff, Result, ok, err, subst, bind-eq-ok, Bool-cases, inl, inr, arith,
}
use blockchain_coin.Text.{Text, text_eq_iff, starts_with}
use blockchain_coin.Crypto.{Primitives}
use blockchain_coin.Consensus.Types.{Block}
use blockchain_coin.Consensus.Encode.{block_hash}
use blockchain_coin.Consensus.Merkle.{calculate_transaction_root}
use blockchain_coin.Consensus.Blocks.{
  work_target, any_coinbase, first_is_coinbase, spends_of, check_header,
}
use blockchain_coin.Node.Types.{consensus_raises, lift}
use blockchain_coin.Node.Assemble.{new_block, next_round, mine}

pub lift-eq-ok :
    {E A : Type 0} (raises : E → blockchain_coin.Node.Types.NodeError) (r : Result E A) {a : A}
    → lift raises r ≡ ok a
    → r ≡ ok a
lift-eq-ok raises (ok b) h = cc
lift-eq-ok raises (err e) h = absurd (cc)

-- The block with a nonce that is `i` higher
abbrev pub with_nonce : Block → ℕ → Block
with_nonce b i = record b { nonce = b.nonce +ℤ pos i }

with_nonce-zero : (b : Block) → with_nonce b 0 ≡ b
with_nonce-zero b = ap (λ n. record b { nonce = n }) same
  where
    same : b.nonce +ℤ pos 0 ≡ b.nonce
    same = omega int_laws

with_nonce-suc : (b : Block) (i : ℕ) → with_nonce (with_nonce b 1) i ≡ with_nonce b (suc i)
with_nonce-suc b i = ap (λ n. record b { nonce = n }) same
  where
    same : (b.nonce +ℤ pos 1) +ℤ pos i ≡ b.nonce +ℤ pos (suc i)
    same = omega int_laws

module _ ⦃prim : Primitives⦄ where
  -- A block whose hash meets its target.
  pub record MeetsTarget (b : Block) : Type 0 where
    pub hash : Text
    pub hashed : block_hash b ≡ ok hash
    pub reached : starts_with hash (work_target b.difficulty) ≡ true

  -- A block that differs from a mined one in the nonce alone.
  pub record IsUnmined (b : Block) : Type 0 where
    pub version_one : b.version ≡ pos 1
    pub nonnegative : pos 0 ≤ℤ b.difficulty
    pub rooted : calculate_transaction_root b.transactions ≡ ok b.transaction_root
    pub some_transactions : is_empty b.transactions ≡ false
    pub coinbase_first : first_is_coinbase b.transactions ≡ true
    pub no_other : any_coinbase (spends_of b.transactions) ≡ false

  next_round-eq-ok :
      (b : Block) {next : Block}
      → next_round b ≡ ok next
      → IsUnmined b
      → IsUnmined next
        × (next.height ≡ b.height)
        × (next.previous_hash ≡ b.previous_hash)
        × (next.difficulty ≡ b.difficulty)
  unfolding next_round new_block
  next_round-eq-ok b {next} h u =
      let (root, e, h₁) = bind-eq-ok (calculate_transaction_root b.transactions) _ h in
      let made : Block = record b { nonce = b.nonce +ℤ pos 1; transaction_root = root } in
      let same : made ≡ next = cc h₁ in
      let kept : IsUnmined made = record {
        version_one = u.version_one;
        nonnegative = u.nonnegative;
        rooted = e;
        some_transactions = u.some_transactions;
        coinbase_first = u.coinbase_first;
        no_other = u.no_other;
      } in
      (
        subst IsUnmined same kept,
        ap (λ c. c.height) (sym same),
        ap (λ c. c.previous_hash) (sym same),
        ap (λ c. c.difficulty) (sym same),
      )

  -- The checks of a header pass, where the target is met.
  check_header-unmined :
      (b : Block) → IsUnmined b → MeetsTarget b → check_header b b.height b.previous_hash ≡ ok tt
  unfolding check_header
  check_header-unmined b u t =
      let version = (eqb_ℤ_iff b.version (pos 1)).1 u.version_one in
      let height = (eqb_ℤ_iff b.height b.height).1 refl in
      let parent = (text_eq_iff b.previous_hash b.previous_hash).1 refl in
      let root = (text_eq_iff b.transaction_root b.transaction_root).1 refl in
      let nonnegative : ltb_ℤ b.difficulty (pos 0) ≡ false = not_negative _ u.nonnegative in
      rw
        (
          version, height, parent, nonnegative, t.hashed, t.reached, u.rooted, root,
          u.some_transactions, u.coinbase_first, u.no_other,
        )
        refl
    where
      not_negative : (a : ℤ) → pos 0 ≤ℤ a → ltb_ℤ a (pos 0) ≡ false
      not_negative a h = ground arith

  -- Where a block differs from a mined one in the nonce alone, the block that `_mine` returns passes
  -- the checks that `validate_block` makes of a header, at the block's own height and parent.
  pub mine-check_header :
      (rounds : ℕ) (b mined : Block)
      → IsUnmined b
      → mine rounds b ≡ ok mined
      → check_header mined b.height b.previous_hash ≡ ok tt
  unfolding mine
  mine-check_header zero b mined u h = absurd (cc)
  mine-check_header (suc f) b mined u h =
      let (hash, e, h₁) = bind-eq-ok (lift consensus_raises (block_hash b)) _ h in
      let hashed : block_hash b ≡ ok hash = lift-eq-ok consensus_raises (block_hash b) e in
      elim (Bool-cases (starts_with hash (work_target b.difficulty))) [
        | inl reached ↦
            let same : b ≡ mined = cc (rw (reached) at h₁) in
            subst (λ c. check_header c b.height b.previous_hash ≡ ok tt) same
              (check_header-unmined b u
                (record { hash = hash; hashed = hashed; reached = reached }))
        | inr missed ↦
            let (next, e₂, h₂) =
              bind-eq-ok (lift consensus_raises (next_round b)) _ (rw (missed) at h₁) in
            let (u', at, above, _) =
              next_round-eq-ok b (lift-eq-ok consensus_raises (next_round b) e₂) u in
            rw (← at, ← above) (mine-check_header f next mined u' h₂)
      ]

  -- A hash that misses the block's target
  abbrev pub Misses : Block → Type 0
  Misses b =
      (hash : Text) × (block_hash b ≡ ok hash)
      × (starts_with hash (work_target b.difficulty) ≡ false)

  next_round_of :
      (b : Block)
      → calculate_transaction_root b.transactions ≡ ok b.transaction_root
      → next_round b ≡ ok (with_nonce b 1)
  unfolding next_round new_block
  next_round_of b rooted = rw (rooted) refl

  -- Where a block has the root of its transactions, its hash misses the target with each nonce from its
  -- own up to one, and meets it with that one, `_mine` returns the block with that nonce, within one round
  -- more than nonces are tried in vain.
  pub mine-returns :
      (k more : ℕ) (b : Block)
      → calculate_transaction_root b.transactions ≡ ok b.transaction_root
      → ((i : ℕ) → i < k → Misses (with_nonce b i))
      → MeetsTarget (with_nonce b k)
      → mine (suc (k + more)) b ≡ ok (with_nonce b k)
  unfolding mine
  mine-returns zero more b rooted missed t =
      let here = subst MeetsTarget (with_nonce-zero b) t in
      rw (here.hashed, here.reached) (ap ok (sym (with_nonce-zero b)))
  mine-returns (suc k) more b rooted missed t =
      let (hash, hashed, short) = subst Misses (with_nonce-zero b) (missed 0 (omega arith)) in
      let fuel : suc k + more ≡ suc (k + more) = omega arith in
      rw (fuel, hashed, short, next_round_of b rooted)
        (mine-returns k more (with_nonce b 1) rooted
            (λ i h. rw (with_nonce-suc b i) (missed (suc i) (omega arith)))
            (rw (with_nonce-suc b k) t)
          ∙ ap ok (with_nonce-suc b k))
