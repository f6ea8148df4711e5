-- ===== src/Node/Submitted.antt =====
-- What `submit_transaction` of `ConsensusNode` (blockchaincoin/utxo_node.py) leaves where it returns, and
-- where it raises.
use blockchain_coin.Shared.{
  ◌≡◌, refl, sym, ap, ◌∙◌, false, Option, none, some, List, [], ◌∷◌, ◌++◌, length, pos, ◌≤ℤ◌, ok,
  err, bind, bind-eq-ok, bind-eq-err, Result-cases, Option-cases, inl, inr, subst, ◌⊎◌,
}
use blockchain_coin.Text.{Text}
use blockchain_coin.Crypto.{Primitives}
use blockchain_coin.Consensus.Types.{Transaction, is_coinbase}
use blockchain_coin.Consensus.Encode.{txid}
use blockchain_coin.Consensus.State.{ConsensusState}
use blockchain_coin.Mempool.Prune.{candidate_after}
use blockchain_coin.Storage.Pool.{MempoolStore, PoolError, replace_all}
use blockchain_coin.Node.Types.{NodeError, pool_raises, Node, persist}
use blockchain_coin.Node.Submit.{has_txid, admit, submit_transaction}
use blockchain_coin.Node.Admitted.{admit-IsAdmissible, IsFollowedBy-applies}

module _ ⦃prim : Primitives⦄ where
  persist-keeps :
      (n : Node)
      → ((persist n).1.mempool ≡ n.mempool)
        × ((persist n).1.state ≡ n.state)
        × ((persist n).1.mempool_policy ≡ n.mempool_policy)
  unfolding persist
  persist-keeps n = elim (Option-cases n.mempool_store) [
    | inl e ↦ rw (e, persist) (refl, refl, refl)
    | inr (table, e) ↦ elim (Result-cases (replace_all n.mempool)) [
      | inl (table', k) ↦ rw (e, k, persist) (refl, refl, refl)
      | inr (x, k) ↦ rw (e, k, persist) (refl, refl, refl)
    ]
  ]

  -- A table of the pool's store is what `replace_all` makes of the pool.
  abbrev pub Holds : List Transaction → Option MempoolStore → Type 0
  Holds ts none = Unit
  Holds ts (some table) = replace_all ts ≡ ok table

  persist-Holds :
      (n : Node) → (persist n).0 ≡ ok tt → Holds (persist n).1.mempool (persist n).1.mempool_store
  unfolding persist
  persist-Holds n h = elim (Option-cases n.mempool_store) [
    | inl e ↦ rw (e, persist) (rw (e) tt)
    | inr (table, e) ↦ elim (Result-cases (replace_all n.mempool)) [
      | inl (table', k) ↦ rw (e, k, persist) k
      | inr (x, k) ↦ absurd (cc (rw (e, k, persist) at h))
    ]
  ]

  persist-raises :
      (n : Node) {e : NodeError} → (persist n).0 ≡ err e → (p : PoolError) × (e ≡ pool_raises p)
  unfolding persist
  persist-raises n {e = x} h = elim (Option-cases n.mempool_store) [
    | inl e ↦ absurd (cc (rw (e, persist) at h))
    | inr (table, e) ↦ elim (Result-cases (replace_all n.mempool)) [
      | inl (table', k) ↦ absurd (cc (rw (e, k, persist) at h))
      | inr (p, k) ↦ (p, cc (rw (e, k, persist) at h))
    ]
  ]

  submit_transaction_admitted :
      (t : Transaction) (n : Node) {id : Text} {pool : List Transaction}
      → admit n t ≡ ok (id, pool)
      → let n' = record n { mempool = pool } in
        ((submit_transaction t n).0 ≡ bind (persist n').0 λ u. ok id)
        × ((submit_transaction t n).1 ≡ (persist n').1)
  unfolding submit_transaction
  submit_transaction_admitted t n e = rw (e, submit_transaction) (refl, refl)

  submit_transaction_refused :
      (t : Transaction) (n : Node) {e : NodeError}
      → admit n t ≡ err e
      → submit_transaction t n ≡ (err e, n)
  unfolding submit_transaction
  submit_transaction_refused t n e = rw (e, submit_transaction) refl

  -- The node after a transaction has entered its pool.
  pub record HasAdmitted (n : Node) (t : Transaction) (id : Text) (n' : Node) : Type 0 where
    pub identified : txid t ≡ ok id
    pub spends : is_coinbase t ≡ false
    pub is_new : has_txid id n.mempool ≡ ok false
    pub kept : List Transaction
    pub behind : n'.mempool ≡ kept ++ t ∷ []
    pub room : pos (length n'.mempool) ≤ℤ n'.mempool_policy.max_transactions
    pub same_state : n'.state ≡ n.state
    pub reached : ConsensusState
    pub applies : candidate_after n'.state n'.mempool ≡ ok reached
    pub written : Holds n'.mempool n'.mempool_store

  -- Where `submit_transaction` returns, by replacement and eviction too, it returns the transaction's id,
  -- which no transaction of the old pool had; the transaction is no coinbase and stands last in the new
  -- pool, which is within the policy's limit, applies in order to the unchanged state, and is what the
  -- pool's store holds.
  pub submit_transaction-HasAdmitted :
      (t : Transaction) (n : Node) (id : Text)
      → (submit_transaction t n).0 ≡ ok id
      → HasAdmitted n t id (submit_transaction t n).1
  submit_transaction-HasAdmitted t n id h = elim (Result-cases (admit n t)) [
    | inr (x, e) ↦ absurd (cc (rw (submit_transaction_refused t n e) at h))
    | inl ((i, pool), e) ↦ admitted e
  ]
    where
      admitted :
          {i : Text} {pool : List Transaction}
          → admit n t ≡ ok (i, pool)
          → HasAdmitted n t id (submit_transaction t n).1
      admitted {i} {pool} e =
          let n₁ = record n { mempool = pool } in
          let a = admit-IsAdmissible n t e in
          let (result, after) = submit_transaction_admitted t n e in
          let (u, wrote, named) = bind-eq-ok (persist n₁).0 _ (sym result ∙ h) in
          let same_id : i ≡ id = cc named in
          let (pool_kept, state_kept, policy_kept) = persist-keeps n₁ in
          let (s', applies) = IsFollowedBy-applies n.state t a.kept a.follows in
          rw after (record {
            identified = a.identified ∙ ap ok same_id;
            spends = a.spends;
            is_new = subst (λ x. has_txid x n.mempool ≡ ok false) same_id a.is_new;
            kept = a.kept;
            behind = pool_kept ∙ a.behind;
            room = rw (pool_kept, policy_kept) a.room;
            same_state = state_kept;
            reached = s';
            applies = rw (pool_kept, state_kept, a.behind) applies;
            written = persist-Holds n₁ wrote;
          })

  -- Where `submit_transaction` raises, it leaves the node as it was, or what it raises comes from the
  -- pool's store, after the transaction was admitted.
  pub submit_transaction-raises :
      (t : Transaction) (n : Node) (e : NodeError)
      → (submit_transaction t n).0 ≡ err e
      → ((submit_transaction t n).1 ≡ n)
        ⊎ ((p : PoolError) × (e ≡ pool_raises p)
            × ((entry : Text × List Transaction) × (admit n t ≡ ok entry)))
  submit_transaction-raises t n e h = elim (Result-cases (admit n t)) [
    | inr (x, k) ↦ inl (ap (λ r. r.1) (submit_transaction_refused t n k))
    | inl ((i, pool), k) ↦
        let (result, after) = submit_transaction_admitted t n k in
        elim (bind-eq-err (persist (record n { mempool = pool })).0 _ (sym result ∙ h)) [
          | inl raised ↦
              let (p, same) = persist-raises (record n { mempool = pool }) raised in
              inr (p, same, ((i, pool), k))
          | inr (u, _, returned) ↦ absurd (cc returned)
        ]
  ]
