-- ===== src/Node/Replayable.antt =====
-- The fork store of a `ConsensusNode` (blockchaincoin/utxo_node.py) under `import_block`: every stored
-- branch can be replayed.
use blockchain_coin.Shared.{
  ℕ, suc, ◌+◌, ◌≡◌, refl, sym, ap, ◌∙◌, true, false, Option, some, none, [], ◌∷◌, ℤ, pos, ◌+ℤ◌,
  eqb_ℤ, eqb_ℤ_iff, Result, ok, bind-eq-ok, bind-ok, beq_self, Bool-cases, Option-cases, inl, inr,
  arith, Distinct, insert-Distinct, pos_part, lookup, insert, lookup-insert, ◌==◌, subst,
  if◌then◌else◌,
}
use blockchain_coin.Text.{Text, text_equality}
use blockchain_coin.Crypto.{Primitives}
use blockchain_coin.Consensus.Types.{Block, zero_hash}
use blockchain_coin.Consensus.Encode.{block_hash}
use blockchain_coin.Consensus.Utxo.{empty}
use blockchain_coin.Consensus.State.{ConsensusState, new_state}
use blockchain_coin.Consensus.Blocks.{apply_block, replay, rebuild_state_from_blocks}
use blockchain_coin.ForkStore.{
  StorageError, StoredBlock, ForkStore, get_block, new_work, check_row, put_hashed, chain_from,
  chain_to_tip,
}
use blockchain_coin.ForkStore.Linked.{IsLinked, put_hashed-IsLinked, get_block-eq-ok, get_block_of}
use blockchain_coin.ForkStore.Extended.{IsWithin, insert-IsWithin, chain_to_tip-within}
use blockchain_coin.ForkChoice.{ActiveChain, branch_to_tip}
use blockchain_coin.ForkChoice.Grown.{branch_to_tip-eq-ok, Replays, Replays-above}

module _ ⦃prim : Primitives⦄ where
  -- A store whose blocks lead down to a first block, stand under their own hashes, and end chains
  -- that replay.
  pub record IsReplayable (subsidy limit : ℤ) (store : ForkStore) : Type 0 where
    pub distinct : Distinct store
    pub linked : IsLinked store
    pub keyed :
        (hash : Text) (b : StoredBlock) → lookup hash store ≡ some b → block_hash b.block ≡ ok hash
    pub replays :
        (hash : Text) (b : StoredBlock)
        → lookup hash store ≡ some b
        → Replays subsidy limit store hash

  -- A block that `_validate_import_candidate` lets pass: a first block that applies to nothing, or a
  -- later one that applies to the replay of its parent's chain.
  abbrev pub Applies : ℤ → ℤ → ForkStore → Block → Type 0
  Applies subsidy limit store b =
      if eqb_ℤ b.height (pos 0)
      then ((s : ConsensusState) × (fees : ℤ) × (new_state empty subsidy limit ≡ ok s)
          × ((apply_block b (pos 0) zero_hash s).0 ≡ ok fees))
      else ((a : ActiveChain) × (fees : ℤ) × (branch_to_tip subsidy limit b.previous_hash store
            ≡ ok a)
          × ((apply_block b b.height b.previous_hash a.state).0 ≡ ok fees))

  Replays-within :
      (subsidy limit : ℤ) (store store' : ForkStore) (hash : Text)
      → IsWithin store store'
      → Replays subsidy limit store hash
      → Replays subsidy limit store' hash
  Replays-within subsidy limit store store' hash w (chain, s, e, rebuilt) =
      (chain, s, chain_to_tip-within hash store store' w e, rebuilt)

  -- The chain of a first block
  Replays-first :
      (subsidy limit : ℤ) (store : ForkStore) (hash : Text) (added : StoredBlock)
      {s : ConsensusState} {fees : ℤ}
      → eqb_ℤ added.block.height (pos 0) ≡ true
      → block_hash added.block ≡ ok hash
      → new_state empty subsidy limit ≡ ok s
      → (apply_block added.block (pos 0) zero_hash s).0 ≡ ok fees
      → Replays subsidy limit (insert hash added store) hash
  unfolding rebuild_state_from_blocks replay chain_to_tip chain_from
  Replays-first subsidy limit store hash added {s} first hashed made applied =
      let store' = insert hash added store in
      let here : lookup hash store' ≡ some added =
        rw (lookup-insert hash hash added store, beq_self hash) refl in
      let fuel : suc 0 ≡ pos_part added.block.height + 1 =
        let at = ap pos_part ((eqb_ℤ_iff added.block.height (pos 0)).0 first) in
        omega (arith, at) in
      let alone : chain_to_tip hash store' ≡ ok (added ∷ []) =
        bind-ok _ (get_block_of hash store' added here) (
          subst (λ f. chain_from f added store' ≡ ok (added ∷ [])) fuel
            (rw (first, chain_from) refl)) in
      (
        added ∷ [],
        (apply_block added.block (pos 0) zero_hash s).1,
        alone,
        bind-ok _ made (bind-ok _ applied (bind-ok _ hashed refl)),
      )

  -- What `new_work` has checked of a later block
  new_work-parent :
      (b : Block) (store : ForkStore) {work : ℕ}
      → eqb_ℤ b.height (pos 0) ≡ false
      → new_work b store ≡ ok work
      → (parent : StoredBlock) × (lookup b.previous_hash store ≡ some parent)
        × (b.height ≡ parent.block.height +ℤ pos 1)
  unfolding new_work
  new_work-parent b store later h =
      let (parent, e₁, h₁) =
        bind-eq-ok (get_block b.previous_hash store) _ (rw (later, new_work) at h) in
      let next : eqb_ℤ b.height (parent.block.height +ℤ pos 1) ≡ true = ground arith in
      (
        parent,
        get_block-eq-ok b.previous_hash store e₁,
        (eqb_ℤ_iff b.height (parent.block.height +ℤ pos 1)).0 next,
      )

  -- The chain of an added block
  Replays-added :
      (subsidy limit : ℤ) (store : ForkStore) (hash : Text) (b : Block) (work : ℕ)
      → IsReplayable subsidy limit store
      → lookup hash store ≡ none
      → block_hash b ≡ ok hash
      → new_work b store ≡ ok work
      → Applies subsidy limit store b
      → Replays subsidy limit
          (insert hash (record { block = b; cumulative_work = work }) store)
          hash
  Replays-added subsidy limit store hash b work r fresh hashed worked applies =
      let added : StoredBlock = record { block = b; cumulative_work = work } in
      elim (Bool-cases (eqb_ℤ b.height (pos 0))) [
        | inl first ↦
            let (s, fees, made, applied) = rw (first) at applies in
            Replays-first subsidy limit store hash added first hashed made applied
        | inr later ↦
            let (a, fees, branch, applied) = rw (later) at applies in
            let (parent, found, high) = new_work-parent b store later worked in
            let (chain, e, rebuilt) =
              branch_to_tip-eq-ok subsidy limit b.previous_hash store branch in
            Replays-above subsidy limit store hash added parent r.linked fresh found
              (r.keyed b.previous_hash parent found) hashed high e rebuilt applied
      ]

  insert-IsReplayable :
      (subsidy limit : ℤ) (hash : Text) (added : StoredBlock) (store : ForkStore)
      → IsReplayable subsidy limit store
      → lookup hash store ≡ none
      → block_hash added.block ≡ ok hash
      → IsLinked (insert hash added store)
      → Replays subsidy limit (insert hash added store) hash
      → IsReplayable subsidy limit (insert hash added store)
  insert-IsReplayable subsidy limit hash added store r fresh hashed linked new = record {
    distinct = insert-Distinct hash added store r.distinct;
    linked = linked;
    keyed = λ other b found. elim (Bool-cases (hash == other)) [
      | inl e ↦
          let same : hash ≡ other = (text_equality.same_iff hash other).0 e in
          let is_added : added ≡ b =
            same_stored (rw (lookup-insert other hash added store, e) at found) in
          subst (λ c. block_hash c.block ≡ ok other) is_added (hashed ∙ ap ok same)
      | inr e ↦ r.keyed other b (rw (lookup-insert other hash added store, e) at found)
    ];
    replays = λ other b found. elim (Bool-cases (hash == other)) [
      | inl e ↦
          let same : hash ≡ other = (text_equality.same_iff hash other).0 e in
          subst (Replays subsidy limit (insert hash added store)) same new
      | inr e ↦
          let old = r.replays other b (rw (lookup-insert other hash added store, e) at found) in
          Replays-within subsidy limit store (insert hash added store) other
            (insert-IsWithin hash added store fresh) old
    ];
  }
    where
      same_stored : {x y : StoredBlock} → ◌≡◌ {A = Option StoredBlock} (some x) (some y) → x ≡ y
      same_stored e = cc

  -- `put_block` of a block that applies keeps the store replayable.
  pub put_hashed-IsReplayable :
      (subsidy limit : ℤ) (hash : Text) (b : Block) (store : ForkStore) (stored : StoredBlock)
      (store' : ForkStore)
      → IsReplayable subsidy limit store
      → block_hash b ≡ ok hash
      → Applies subsidy limit store b
      → put_hashed hash b store ≡ ok (stored, store')
      → IsReplayable subsidy limit store'
  unfolding put_hashed
  put_hashed-IsReplayable subsidy limit hash b store stored store' r hashed applies e =
      let (linked, _) = put_hashed-IsLinked hash b store stored store' r.linked e in
      elim (Option-cases (lookup hash store)) [
        | inr (old, found) ↦
            let e' : ◌≡◌ {A = Result StorageError (StoredBlock × ForkStore)} (ok (old, store))
                (ok (stored, store')) =
              rw (found, put_hashed) at e in
            let kept : store ≡ store' = cc in subst (IsReplayable subsidy limit) kept r
        | inl fresh ↦
            let (work, e₁, checked) =
              bind-eq-ok (new_work b store) _ (rw (fresh, put_hashed) at e) in
            let (_, _, e₂) = bind-eq-ok (check_row b work) _ checked in
            let added : StoredBlock = record { block = b; cumulative_work = work } in
            let grown : insert hash added store ≡ store' = cc e₂ in
            subst (IsReplayable subsidy limit) grown (
              insert-IsReplayable subsidy limit hash added store r fresh hashed
                (subst IsLinked (sym grown) linked)
                (Replays-added subsidy limit store hash b work r fresh hashed e₁ applies))
      ]
