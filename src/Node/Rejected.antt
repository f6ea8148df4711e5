-- ===== src/Node/Rejected.antt =====
-- What `import_block` of `ConsensusNode` (blockchaincoin/utxo_node.py) does with a block that fails
-- validation, then and later.
use blockchain_coin.Shared.{
  ◌≡◌, refl, ap, ◌∙◌, false, none, some, pos, eqb_ℤ, ok, err, lookup, insert, lookup-insert,
  beq_self,
}
use blockchain_coin.Text.{Text, text_equality}
use blockchain_coin.Crypto.{Primitives}
use blockchain_coin.Consensus.Types.{Block}
use blockchain_coin.Consensus.Encode.{block_hash}
use blockchain_coin.ForkStore.{unknown_block, get_block, chain_to_tip}
use blockchain_coin.ForkChoice.{not_stored, branch_to_tip}
use blockchain_coin.Storage.Invalid.{InvalidBlocks, mark_invalid, reason_of}
use blockchain_coin.Node.Types.{NodeError, parent_unknown, cached_as_invalid, Node}
use blockchain_coin.Node.Import.{
  parent_raises, cached_reason, reject, validate_later, validate_import_candidate, validate_and_put,
  import_hashed, import_block,
}

module _ ⦃prim : Primitives⦄ where
  import_block_of :
      (b : Block) (n : Node) {hash : Text}
      → block_hash b ≡ ok hash
      → import_block b n ≡ import_hashed hash b n
  unfolding import_block
  import_block_of b n e = rw (e, import_block) refl

  cached_reason_of :
      (hash : Text) (n : Node) (cache : InvalidBlocks NodeError)
      → n.invalid_blocks ≡ some cache
      → cached_reason hash n ≡ lookup hash cache
  unfolding cached_reason reason_of
  cached_reason_of hash n cache held = rw (held, cached_reason) refl

  reject_of :
      (hash : Text) (reason : NodeError) (n : Node) (cache : InvalidBlocks NodeError)
      → n.invalid_blocks ≡ some cache
      → reject hash reason n ≡ record n { invalid_blocks = some (insert hash reason cache) }
  unfolding reject mark_invalid
  reject_of hash reason n cache held = rw (held, reject) refl

  -- A block that is in the cache
  import_hashed-cached :
      (hash : Text) (b : Block) (n : Node) (cache : InvalidBlocks NodeError) {reason : NodeError}
      → n.invalid_blocks ≡ some cache
      → lookup hash cache ≡ some reason
      → import_hashed hash b n ≡ (err (cached_as_invalid reason), n)
  unfolding import_hashed
  import_hashed-cached hash b n cache held known =
      let cached = cached_reason_of hash n cache held ∙ known in rw (cached, import_hashed) refl

  -- A block that fails, and is not in the cache
  import_hashed-failed :
      (hash : Text) (b : Block) (n : Node) (cache : InvalidBlocks NodeError) {reason : NodeError}
      → n.invalid_blocks ≡ some cache
      → lookup hash cache ≡ none
      → validate_and_put b n ≡ err reason
      → import_hashed hash b n
        ≡ (err reason, record n { invalid_blocks = some (insert hash reason cache) })
  unfolding import_hashed
  import_hashed-failed hash b n cache {reason} held fresh fails =
      let uncached = cached_reason_of hash n cache held ∙ fresh in
      rw (uncached, fails, import_hashed)
        (ap (λ m. (err reason, m)) (reject_of hash reason n cache held))

  -- Where a block that is not in the node's cache fails validation or storing, `import_block` raises
  -- what failed, changes nothing but the cache, and from then on raises for this block on every node
  -- with that cache, whatever else the node holds, and leaves that node as it is.
  pub import_block-rejected :
      (b : Block) (n : Node) (hash : Text) (cache : InvalidBlocks NodeError) (reason : NodeError)
      → block_hash b ≡ ok hash
      → n.invalid_blocks ≡ some cache
      → lookup hash cache ≡ none
      → validate_and_put b n ≡ err reason
      → (cache' : InvalidBlocks NodeError) × (import_block b n
          ≡ (err reason, record n { invalid_blocks = some cache' }))
        × ((m : Node)
            → m.invalid_blocks ≡ some cache'
            → import_block b m ≡ (err (cached_as_invalid reason), m))
  import_block-rejected b n hash cache reason e held fresh fails =
      let cache' : InvalidBlocks NodeError = insert hash reason cache in
      let known : lookup hash cache' ≡ some reason =
        rw (lookup-insert hash hash reason cache, beq_self hash) refl in
      (
        cache',
        import_block_of b n e ∙ import_hashed-failed hash b n cache held fresh fails,
        λ m held'. import_block_of b m e ∙ import_hashed-cached hash b m cache' held' known,
      )

  chain_to_tip-unknown :
      (hash : Text) (n : Node)
      → lookup hash n.store ≡ none
      → branch_to_tip n.fork_subsidy n.fork_limit hash n.store ≡ err (not_stored unknown_block)
  unfolding branch_to_tip chain_to_tip get_block
  chain_to_tip-unknown hash n missing = rw (missing, chain_to_tip, get_block) refl

  validate_and_put-orphan :
      (b : Block) (n : Node)
      → eqb_ℤ b.height (pos 0) ≡ false
      → lookup b.previous_hash n.store ≡ none
      → validate_and_put b n ≡ err parent_unknown
  unfolding validate_and_put validate_import_candidate validate_later parent_raises
  validate_and_put-orphan b n later missing =
      rw (later, validate_later, chain_to_tip-unknown b.previous_hash n missing) refl

  -- A later block whose parent is not stored fails as unknown, and its hash is cached: where another
  -- node, or this one after it has stored the parent, holds the same cache, `import_block` of the
  -- block raises and changes nothing.
  pub import_block-orphan :
      (b : Block) (n : Node) (hash : Text) (cache : InvalidBlocks NodeError)
      → block_hash b ≡ ok hash
      → n.invalid_blocks ≡ some cache
      → lookup hash cache ≡ none
      → eqb_ℤ b.height (pos 0) ≡ false
      → lookup b.previous_hash n.store ≡ none
      → (cache' : InvalidBlocks NodeError) × (import_block b n
          ≡ (err parent_unknown, record n { invalid_blocks = some cache' }))
        × ((m : Node)
            → m.invalid_blocks ≡ some cache'
            → import_block b m ≡ (err (cached_as_invalid parent_unknown), m))
  import_block-orphan b n hash cache e held fresh later missing =
      import_block-rejected b n hash cache parent_unknown e held fresh
        (validate_and_put-orphan b n later missing)
