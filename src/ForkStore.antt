-- ===== src/ForkStore.antt =====
-- `SQLiteForkStore` of blockchaincoin/storage.py: the blocks of all branches, as a table from a hash
-- to the stored block, which is the block itself where the source keeps
-- the hexadecimal digits of its binary form and decodes them on every read. What SQLite does
-- with the rows of `fork_blocks` is a dictionary's insertion and lookup.
pub mod Linked
pub mod Extended
use blockchain_coin.Shared.{
  ℕ, zero, suc, ◌+◌, ◌^◌, Bool, true, false, not, Option, some, none, List, [], ◌∷◌, ◌++◌, ℤ, pos,
  map, pos_part, ◌+ℤ◌, eqb_ℤ, ltb_ℤ, ltb, raise_if, if◌then◌else◌, Result, ok, err, bind, Dict,
  lookup, insert,
}
use blockchain_coin.Text.{Text, text_eq, text_lt, text_equality}
use blockchain_coin.Failure.{Error}
use blockchain_coin.Crypto.{Primitives}
use blockchain_coin.Consensus.Types.{Block, zero_hash}
use blockchain_coin.Consensus.Encode.{block_hash}

-- StorageError by its messages, the OverflowError of a cumulative work outside 64 bits, and what computing
-- a hash raises. `work_is_float` stands for what is not modelled, the work of a negative difficulty.
pub data StorageError : Type 0 where
  genesis_parent_invalid height_not_next unknown_block out_of_fuel : StorageError
  work_too_large work_is_float : StorageError
  not_hashable : Error → StorageError

pub record StoredBlock : Type 0 where
  pub block : Block
  pub cumulative_work : ℕ

abbrev pub ForkStore : Type 0
ForkStore = Dict Text StoredBlock

-- `_work_for`, of a difficulty that is not negative; `check_row` stops at a negative one.
abbrev pub work_for : Block → ℕ
work_for b = 2 ^ pos_part b.difficulty

unfoldable pub get_block : Text → ForkStore → Result StorageError StoredBlock
get_block hash store = elim (lookup hash store) [ none ↦ err unknown_block | some b ↦ ok b ]

-- The checks of `put_block` and the work that it computes.
unfoldable pub new_work : Block → ForkStore → Result StorageError ℕ
new_work b store =
    let parent_work = bind (get_block b.previous_hash store) λ parent.
      if eqb_ℤ b.height (parent.block.height +ℤ pos 1)
      then ok (parent.cumulative_work + work_for b)
      else err height_not_next in
    if eqb_ℤ b.height (pos 0)
    then (if text_eq b.previous_hash zero_hash then ok (work_for b) else err genesis_parent_invalid)
    else parent_work

-- The INSERT of a row takes a cumulative work of 64 bits. A negative difficulty, for which `_work_for` is
-- a float, ends the model; validation has refused it before the node puts a block.
unfoldable pub check_row : Block → ℕ → Result StorageError (Unit {0})
check_row b work =
    bind (raise_if (ltb_ℤ b.difficulty (pos 0)) work_is_float)
      λ _. raise_if (not (ltb work (2 ^ 63))) work_too_large

-- `put_block`, of a block with its hash
unfoldable pub put_hashed : Text → Block → ForkStore → Result StorageError (StoredBlock × ForkStore)
put_hashed hash b store = elim (lookup hash store) [
  | some stored ↦ ok (stored, store)
  | none ↦ bind (new_work b store) λ work. bind (check_row b work) λ _.
      let stored : StoredBlock = record { block = b; cumulative_work = work } in
      ok (stored, insert hash stored store)
]

unfoldable pub has_block : Text → ForkStore → Bool
has_block hash store = elim (lookup hash store) [ none ↦ false | some b ↦ true ]

-- The rows `WHERE previous_hash = ?`
unfoldable pub child_rows : Text → ForkStore → List (Text × StoredBlock)
child_rows hash [] = []
child_rows hash (r ∷ rs) =
    let rest = child_rows hash rs in if text_eq r.1.block.previous_hash hash then r ∷ rest else rest

unfoldable pub insert_child :
    Text × StoredBlock → List (Text × StoredBlock) → List (Text × StoredBlock)
insert_child r [] = r ∷ []
insert_child r (q ∷ qs) =
    let rest = insert_child r qs in if text_lt r.0 q.0 then r ∷ q ∷ qs else q ∷ rest

-- `ORDER BY hash ASC`
unfoldable pub sort_children : List (Text × StoredBlock) → List (Text × StoredBlock)
sort_children [] = []
sort_children (r ∷ rs) = insert_child r (sort_children rs)

unfoldable pub children_of : Text → ForkStore → List StoredBlock
children_of hash store = map (λ r. r.1) (sort_children (child_rows hash store))

module _ ⦃prim : Primitives⦄ where
  unfoldable pub put_block : Block → ForkStore → Result StorageError (StoredBlock × ForkStore)
  put_block b store = elim (block_hash b) [
    | err e ↦ err (not_hashable e)
    | ok hash ↦ put_hashed hash b store
  ]

-- The loop of `chain_to_tip`, from the tip down, and then reversed.
unfoldable pub chain_from : ℕ → StoredBlock → ForkStore → Result StorageError (List StoredBlock)
chain_from zero current store = err out_of_fuel
chain_from (suc f) current store =
    let below =
      bind (get_block current.block.previous_hash store)
        λ parent. bind (chain_from f parent store) λ chain. ok (chain ++ current ∷ []) in
    if eqb_ℤ current.block.height (pos 0) then ok (current ∷ []) else below

-- `chain_to_tip`, with fuel for the height of the tip.
unfoldable pub chain_to_tip : Text → ForkStore → Result StorageError (List StoredBlock)
chain_to_tip tip_hash store =
    bind (get_block tip_hash store) λ tip. chain_from (pos_part tip.block.height + 1) tip store
