-- ===== src/Node/Admitted.antt =====
-- The pool after `submit_transaction` of `ConsensusNode` (blockchaincoin/utxo_node.py).
use blockchain_coin.Shared.{
  ◌+◌, ◌≡◌, refl, sym, ap, ◌∙◌, Bool, false, not, ◌||◌, Option, none, some, List, [], ◌∷◌, ◌++◌,
  length, length-append, ℤ, pos, ◌+ℤ◌, ◌≤ℤ◌, ltb_ℤ, ok, raise_if, bind-eq-ok, bind-ok,
  raise_if-eq-ok, ok_pair, Result-cases, Option-cases, Bool-cases, inl, inr, arith, subst, Dict,
  ◌⊎◌,
}
use blockchain_coin.Text.{Text}
use blockchain_coin.Crypto.{Primitives}
use blockchain_coin.Consensus.Types.{Transaction, is_coinbase}
use blockchain_coin.Consensus.Encode.{txid}
use blockchain_coin.Consensus.State.{ConsensusState, apply_transaction}
use blockchain_coin.Consensus.Blocks.{apply_all}
use blockchain_coin.Consensus.Blocks.Body.{apply_all-ok}
use blockchain_coin.Mempool.Policy.{validate}
use blockchain_coin.Mempool.Prune.{candidate_of, candidate_after, validate_replacement_fee}
use blockchain_coin.Mempool.Admission.{validate_iff}
use blockchain_coin.Node.Types.{
  coinbase_in_mempool, already_in_mempool, below_eviction_minimum, consensus_raises, policy_raises,
  Node, lift,
}
use blockchain_coin.Node.Mining.{lift-eq-ok}
use blockchain_coin.Node.Submit.{
  ReplacementContext, Eviction, is_cheaper, fee_of, policy_score, transaction_fees, fee_after,
  evict_from, evict_cheapest, evict_for_policy, has_txid, replacement_context, make_room, admit,
}

List-cases : {A : Type 0} (xs : List A) → (xs ≡ []) ⊎ ((y : A) × (ys : List A) × (xs ≡ y ∷ ys))
List-cases [] = inl refl
List-cases (y ∷ ys) = inr (y, ys, refl)

-- The test of `_evict_for_policy`
abbrev has_room : Node → List Transaction → Bool
has_room n ts =
    ltb_ℤ (pos (length ts)) n.mempool_policy.max_transactions || not n.mempool_policy.allow_eviction

module _ ⦃prim : Primitives⦄ where
  -- The transactions apply to a copy of the state in order, and then `t` does.
  pub record IsFollowedBy (s : ConsensusState) (t : Transaction) (ts : List Transaction)
      : Type 0 where
    pub candidate : ConsensusState
    pub fee : ℤ
    pub applied : candidate_after s ts ≡ ok candidate
    pub pays : (apply_transaction t candidate).0 ≡ ok fee

  apply_all-snoc :
      (fees : ℤ) (ts : List Transaction) (t : Transaction) (s : ConsensusState) {r fee : ℤ}
      → (apply_all fees ts s).0 ≡ ok r
      → (apply_transaction t (apply_all fees ts s).1).0 ≡ ok fee
      → apply_all fees (ts ++ t ∷ []) s
        ≡ (ok (r +ℤ fee), (apply_transaction t (apply_all fees ts s).1).1)
  unfolding apply_all
  apply_all-snoc fees [] t s {r} {fee} h k =
      let same : fees ≡ r = cc in rw (k, same, apply_all) refl
  apply_all-snoc fees (u ∷ us) t s h k = elim (Result-cases (apply_transaction u s).0) [
    | inr (x, e) ↦ absurd (cc (rw (e, apply_all) at h))
    | inl (paid, e) ↦
        rw (apply_all-ok fees u (us ++ t ∷ []) s e, apply_all-ok fees u us s e)
          (apply_all-snoc (fees +ℤ paid) us t (apply_transaction u s).1
            (rw (apply_all-ok fees u us s e) at h) (rw (apply_all-ok fees u us s e) at k))
  ]

  pub IsFollowedBy-applies :
      (s : ConsensusState) (t : Transaction) (ts : List Transaction)
      → IsFollowedBy s t ts
      → (s' : ConsensusState) × (candidate_after s (ts ++ t ∷ []) ≡ ok s')
  unfolding candidate_after
  IsFollowedBy-applies s t ts f =
      let (c, e, h) = bind-eq-ok (candidate_of s) _ f.applied in
      let (r, e₂, h₂) = bind-eq-ok (apply_all (pos 0) ts c).0 _ h in
      let reached : (apply_all (pos 0) ts c).1 ≡ f.candidate = cc h₂ in
      let pays : (apply_transaction t (apply_all (pos 0) ts c).1).0 ≡ ok f.fee =
        rw reached f.pays in
      let s' = (apply_transaction t (apply_all (pos 0) ts c).1).1 in
      (s', bind-ok _ e (rw (apply_all-snoc (pos 0) ts t c e₂ pays) refl))

  fee_after-eq-some :
      (s : ConsensusState) (ts : List Transaction) (t : Transaction) {fee : ℤ}
      → fee_after s ts t ≡ some fee
      → IsFollowedBy s t ts
  unfolding fee_after
  fee_after-eq-some s ts t h = elim (Result-cases (candidate_after s ts)) [
    | inr (x, e) ↦ absurd (cc (rw (e, fee_after) at h))
    | inl (c, e) ↦ elim (Result-cases (apply_transaction t c).0) [
      | inr (x, k) ↦ absurd (cc (rw (e, k, fee_after) at h))
      | inl (fee, k) ↦ record { candidate = c; fee = fee; applied = e; pays = k }
    ]
  ]

  -- The best so far, where there is one, makes room for `t`.
  abbrev MakesRoom : ConsensusState → Transaction → Option Eviction → Type 0
  MakesRoom s t none = Unit
  MakesRoom s t (some e) = IsFollowedBy s t e.kept

  evict_from-MakesRoom :
      (s : ConsensusState) (t : Transaction) (fees : Dict Text ℤ) (passed rest : List Transaction)
      (best : Option Eviction) {found : Option Eviction}
      → MakesRoom s t best
      → evict_from s t fees passed rest best ≡ ok found
      → MakesRoom s t found
  unfolding evict_from
  evict_from-MakesRoom s t fees passed [] best {found} m h =
      let same : best ≡ found = cc in subst (MakesRoom s t) same m
  evict_from-MakesRoom s t fees passed (u ∷ rest) best m h =
      let (fee, e₁, h₁) = bind-eq-ok (fee_of fees u) _ h in
      let (score, e₂, h₂) = bind-eq-ok (policy_score u fee) _ h₁ in
      elim (Option-cases (fee_after s (passed ++ rest) t)) [
        | inl e ↦ evict_from-MakesRoom s t fees (passed ++ u ∷ []) rest best m (rw (e) at h₂)
        | inr (paid, e) ↦ elim (Bool-cases (is_cheaper score best)) [
          | inr k ↦ evict_from-MakesRoom s t fees (passed ++ u ∷ []) rest best m (rw (e, k) at h₂)
          | inl k ↦
              evict_from-MakesRoom s t fees (passed ++ u ∷ []) rest
                (some (record { kept = passed ++ rest; new_fee = paid; evicted_score = score }))
                (fee_after-eq-some s (passed ++ rest) t e) (rw (e, k) at h₂)
        ]
      ]

  evict_cheapest-follows :
      (n : Node) (t : Transaction) (ts kept : List Transaction) (fee paid : ℤ)
      → IsFollowedBy n.state t ts
      → evict_cheapest n t ts fee ≡ ok (kept, paid)
      → IsFollowedBy n.state t kept
  unfolding evict_cheapest
  evict_cheapest-follows n t ts kept fee paid f h =
      let (new_score, _, h₁) = bind-eq-ok (policy_score t fee) _ h in
      let (fees, _, h₂) = bind-eq-ok (lift consensus_raises (transaction_fees n.state ts)) _ h₁ in
      let (best, e₃, h₃) = bind-eq-ok (evict_from n.state t fees [] ts none) _ h₂ in
      let room = evict_from-MakesRoom n.state t fees [] ts none tt e₃ in
      elim (Option-cases best) [
        | inl e ↦ let same : ts ≡ kept = cc (rw (e) at h₃) in subst (IsFollowedBy n.state t) same f
        | inr (found, e) ↦
            let (_, _, h₄) =
              bind-eq-ok
                (raise_if
                  (ltb_ℤ new_score.rate
                    (found.evicted_score.rate +ℤ n.mempool_policy.eviction_fee_rate_bump))
                  below_eviction_minimum)
                _ (rw (e) at h₃) in
            let same : found.kept ≡ kept = cc h₄ in
            subst (IsFollowedBy n.state t) same (subst (MakesRoom n.state t) e room)
      ]

  make_room-follows :
      (n : Node) (t : Transaction) (context : ReplacementContext) (kept : List Transaction)
      (fee paid : ℤ)
      → IsFollowedBy n.state t context.remaining
      → make_room n t context fee ≡ ok (kept, paid)
      → IsFollowedBy n.state t kept
  unfolding make_room evict_for_policy
  make_room-follows n t context kept fee paid f h = elim (List-cases context.replaced) [
    | inr (r, rs, e) ↦
        let (_, _, h₁) =
          bind-eq-ok
            (lift policy_raises
              (validate_replacement_fee n.mempool_policy fee context.replaced_fee))
            _ (rw (e, make_room) at h) in
        let same : context.remaining ≡ kept = cc h₁ in subst (IsFollowedBy n.state t) same f
    | inl e ↦
        let h' : evict_for_policy n t context.remaining fee ≡ ok (kept, paid) =
          rw (e, make_room) at h in
        elim (Bool-cases (has_room n context.remaining)) [
          | inl k ↦
              let same : context.remaining ≡ kept = cc (rw (k, evict_for_policy) at h') in
              subst (IsFollowedBy n.state t) same f
          | inr k ↦
              evict_cheapest-follows n t context.remaining kept fee paid f
                (rw (k, evict_for_policy) at h')
        ]
  ]

  -- What `submit_transaction` has established before it assigns to the pool.
  pub record IsAdmissible (n : Node) (t : Transaction) (id : Text) (pool : List Transaction)
      : Type 0 where
    pub identified : txid t ≡ ok id
    pub spends : is_coinbase t ≡ false
    pub is_new : has_txid id n.mempool ≡ ok false
    pub kept : List Transaction
    pub behind : pool ≡ kept ++ t ∷ []
    pub follows : IsFollowedBy n.state t kept
    pub room : pos (length pool) ≤ℤ n.mempool_policy.max_transactions

  pub admit-IsAdmissible :
      (n : Node) (t : Transaction) {id : Text} {pool : List Transaction}
      → admit n t ≡ ok (id, pool)
      → IsAdmissible n t id pool
  unfolding admit
  admit-IsAdmissible n t {id} {pool} h =
      let (i, e₁, h₁) = bind-eq-ok (lift consensus_raises (txid t)) _ h in
      let (_, e₂, h₂) = bind-eq-ok (raise_if (is_coinbase t) coinbase_in_mempool) _ h₁ in
      let (known, e₃, h₃) = bind-eq-ok (lift consensus_raises (has_txid i n.mempool)) _ h₂ in
      let (_, e₄, h₄) = bind-eq-ok (raise_if known already_in_mempool) _ h₃ in
      let (context, e₅, h₅) = bind-eq-ok (replacement_context n t) _ h₄ in
      let (c, e₆, h₆) =
        bind-eq-ok (lift consensus_raises (candidate_after n.state context.remaining)) _ h₅ in
      let (fee, e₇, h₇) = bind-eq-ok (lift consensus_raises (apply_transaction t c).0) _ h₆ in
      let ((kept, paid), e₈, h₈) = bind-eq-ok (make_room n t context fee) _ h₇ in
      let (u, e₉, h₉) =
        bind-eq-ok (lift policy_raises (validate n.mempool_policy t paid (pos (length kept)))) _
          h₈ in
      let (same_id, same_pool) = ok_pair h₉ in
      let follows : IsFollowedBy n.state t context.remaining = record {
        candidate = c;
        fee = fee;
        applied = lift-eq-ok consensus_raises _ e₆;
        pays = lift-eq-ok consensus_raises _ e₇;
      } in
      let unknown : known ≡ false = raise_if-eq-ok known already_in_mempool e₄ in
      let found : has_txid i n.mempool ≡ ok known = lift-eq-ok consensus_raises _ e₃ in
      let room =
        ((validate_iff n.mempool_policy t paid (pos (length kept))).0
          (lift-eq-ok policy_raises _ e₉)).room in
      let longer : length pool ≡ length kept + 1 =
        ap length (sym same_pool) ∙ length-append kept (t ∷ []) in
      record {
        identified = lift-eq-ok consensus_raises _ e₁ ∙ ap ok same_id;
        spends = raise_if-eq-ok (is_coinbase t) coinbase_in_mempool e₂;
        is_new = subst (λ x. has_txid x n.mempool ≡ ok false) same_id (found ∙ ap ok unknown);
        kept = kept;
        behind = sym same_pool;
        follows = make_room-follows n t context kept fee paid follows e₈;
        room = rw longer (omega arith);
      }
