-- ===== src/Storage/Invalid.antt =====
-- `SQLiteInvalidBlockCache` of blockchaincoin/storage.py: the reasons of rejected blocks by hash. A
-- reason is the exception whose message the table keeps.
use blockchain_coin.Shared.{ℕ, Bool, Option, length, Dict, lookup, contains, insert}
use blockchain_coin.Text.{Text, text_equality}

abbrev pub InvalidBlocks : Type 0 → Type 0
InvalidBlocks E = Dict Text E

module _ {E : Type 0} where
  unfoldable pub mark_invalid : Text → E → InvalidBlocks E → InvalidBlocks E
  mark_invalid hash reason cache = insert hash reason cache

  unfoldable pub is_invalid : Text → InvalidBlocks E → Bool
  is_invalid hash cache = contains hash cache

  unfoldable pub reason_of : Text → InvalidBlocks E → Option E
  reason_of hash cache = lookup hash cache

  unfoldable pub invalid_count : InvalidBlocks E → ℕ
  invalid_count cache = length cache
