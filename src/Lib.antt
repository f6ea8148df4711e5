-- ===== src/Lib.antt =====
-- BlockchainCoin: the consensus engine of a coin with unspent transaction outputs, the node
-- around it, and the address manager, the messages and the sessions of its peers.
--
-- A node holds a `ConsensusState`, the set of unspent outputs with the block subsidy and the
-- maximum supply. `BlockProcessor` checks a block's header and transactions on a copy of that
-- state and then applies them to the state itself, and `rebuild_state_from_blocks` replays a
-- chain from an empty set. Transactions and blocks have a binary form, whose SHA-256 digest is
-- the transaction's id or the block's hash, and a Merkle root ties the transactions of a block
-- to its header.
--
-- `ConsensusNode` holds such a state for the best branch of a fork store, a pool of pending
-- transactions under a policy, and caches in databases of their own. `import_block` validates a
-- block on the replay of its parent's branch, stores it, replays the branch with the most work,
-- and writes the caches; `submit_transaction` checks a transaction on a copy of the state
-- behind the pool's transactions.
--
-- - blockchaincoin/consensus.py, lines 35 to 110, the binary reader and the field codecs:
--   Codec. `_ByteReader` is the record ByteReader, a decoder passes it on, and struct's words
--   are big-endian bytes.
-- - blockchaincoin/consensus.py, lines 113 to 473, outpoints, inputs, outputs, transactions and
--   blocks: Consensus/Types, Consensus/Encode (`to_bytes`, `txid`, `hash`), Consensus/Decode
--   (`from_reader`, `from_bytes`), Consensus/RoundTrip.
-- - `calculate_transaction_root`: Consensus/Merkle. Its loop runs on fuel, the number of
--   transactions.
-- - `UTXOSet`: Consensus/Utxo, an association list in the order of Python's dictionary.
-- - `ConsensusState`: Consensus/State. A method that changes the state returns its result
--   beside the new state; an exception is a value of Failure's Error, one constructor for each
--   message.
-- - `BlockProcessor` and `rebuild_state_from_blocks`: Consensus/Blocks. Height and parent are
--   passed explicitly, as all callers in the repository do.
-- - blockchaincoin/crypto.py, hashes, addresses, keys and `verify_signature`: Crypto, with
--   `canonical_json` in Json.
-- - blockchaincoin/peers.py, `PeerAddressManager`: Peers. Peers/Records has `PeerRecord`,
--   Peers/Manager the methods on a dictionary of records, Peers/Bans the calls as a data type
--   with their histories, Peers/Counts the limits and delays.
-- - blockchaincoin/utxo_node.py, `MempoolPolicy`: Mempool. Mempool/Policy has its methods,
--   Mempool/Admission what it admits, and Mempool/Prune the node's `_prune_invalid_mempool` and
--   `_candidate_after`.
-- - blockchaincoin/storage.py, `SQLiteForkStore`: ForkStore, a dictionary from hashes to blocks
--   with their cumulative work; the chain of a tip is read with fuel for its height. An integer
--   outside SQLite's 64 bits is refused, here (`check_row`) and in Storage/Index and
--   Storage/Progress.
-- - blockchaincoin/storage.py, the other stores: Storage. Storage/Parameters has the chain
--   parameters, Storage/Index the index of unspent outputs, Storage/Pool, Storage/Invalid and
--   Storage/Progress the stores of the pool, of rejected blocks and of the peers' progress.
-- - blockchaincoin/fork_choice.py, `ForkChoice`: ForkChoice, which replays the chain of the
--   store's best tip.
-- - blockchaincoin/utxo_node.py, `ConsensusNode`: Node. Node/Types has its fields as a record,
--   Node/Submit the methods that change the pool, Node/Assemble what it builds
--   (`create_transaction`, `build_candidate_block`, `_mine`, `_build_genesis_block`),
--   Node/Import `import_block` and `mine_block`, Node/Queries the summaries, and Node/Open
--   `create` and `open` (`open_node`). A method returns what it returned or raised beside the
--   node that it leaves, so that a failure half way keeps what was written before it. `_mine`
--   runs on fuel, the rounds that it may try; the selection from the pool runs on fuel for the
--   length of the pool.
-- - blockchaincoin/network.py: Network. Network/Frames has `to_frame`, `from_frame` and
--   `read_frame` on bytes, Network/Delivery a frame that arrives, Network/Payloads the kinds of
--   message as a data type, Network/Headers and Network/Messages the checks of their payloads,
--   and Network/Chain what a chain of headers is.
-- - blockchaincoin/peer.py, `PeerSession`: Session. Session/State has its fields and what it
--   sends, Session/Handlers `receive` and its handlers, Session/Handshake two sessions that
--   open a connection, Session/Score and Session/Penalty the misbehavior that is counted.
-- - Examples: a chain of two blocks that runs, nodes on it, a manager of two peers, and the
--   theorems applied to them.
--
-- Python's int is ℤ, in two constructors over the native numbers; a text is its list of code
-- points; a float is its 64-bit pattern, which is what struct writes of it. SHA-256, URL-safe
-- base64 and Ed25519 are the operations of the parameter Primitives, and no theorem assumes
-- anything of them; `json.loads` and `int` of a text are those of the parameter Reader; HMAC,
-- the reading of a message's bytes and the clock are arguments.
--
-- Not modelled: `from_dict` and the JSON form of transactions and blocks; the encoding of the
-- blocks that the fork store keeps in its rows, as the hexadecimal digits of their binary form;
-- the work of a block of negative difficulty, which is a float and which validation refuses;
-- wallet files and their encryption; the connections, schema versions and file names of the
-- databases; message dictionaries and their JSON, the sockets, and the service around the node;
-- the command line, runtime files and release tooling.
pub mod Shared
pub mod Text
pub mod Failure
pub mod Codec
pub mod Crypto
pub mod Json
pub mod Consensus
pub mod Peers
pub mod ForkStore
pub mod ForkChoice
pub mod Mempool
pub mod Storage
pub mod Node
pub mod Network
pub mod Session
pub mod Examples
