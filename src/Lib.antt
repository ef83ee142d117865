-- ===== src/Lib.antt =====
-- A verification of svacara-db, a relational database engine in Go: encoded keys and rows, the
-- B+tree and its free list, the page manager, the store of one file, shards, the wire
-- protocol, the interface of the stores, tables, transactions, the connection pool, and parts
-- of SQL.
--
-- A client's query arrives as a frame of the wire protocol; the SQL engine turns it into
-- operations on tables; a table encodes its rows and keys as byte strings and keeps them in a
-- store; transactions buffer writes over a store and check for conflicts when they commit. A
-- store keeps its pairs in a B+tree of pages in a file, and writes the changed pages and then
-- the meta page at the end of each update; shards are several such stores.
--
-- Prelude and its children: names of the libraries, tests, lists, signed integers, and
-- Outcome, the result of a Go function that can panic.
-- Bytes: byte strings, big-endian numbers, and cmp of internal/btree/node.go.
-- Encoding: internal/kvstore/types.go and encoding.go. A function `EncodeKey` is `encode_key`,
-- and so for the others; the loops of EncodeValues and DecodeValues are encode_values and
-- decode_loop, their bodies encode_value and decode_value.
-- Protocol: internal/protocol/protocol.go, function by function.
-- Btree: internal/btree, function by function. A node is a Page, which has a length and the
-- byte at each index and is changed in place by returning the new page; Page has the reads and
-- writes of bytes, Node is node.go, Insert, Delete, Iterator and FreeList are the files of
-- those names. Node.Layout says which bytes stand for a list of entries; Leaf has the steps on
-- a node as steps on its list, and Find the lookup in a tree of nodes. The functions that a
-- tree or a free list is given are the records Pager and ListPages.
-- Pages: internal/storage. Meta and Manager are page.go and Recovery is recovery.go; Mapping
-- is about ExtendMMap and Read, Flushing about FlushPages. The file and the mapping are the
-- record Disk.
-- Kv: internal/kvstore/kv.go. `update_or_revert` is updateOrRevert in three steps, heal,
-- write_pages and write_root, of which each returns the store and its error; Update says what
-- each return leaves in memory and on the disk, Recovered is about Open, and FreePages and
-- LostList are about the free list over the page manager.
-- Shard: internal/shard/shard.go, over the stores of Kv; Route says which of them a write and
-- a read reach.
-- Storage: internal/kvstore/interface.go. The interface is a record of operations on a state,
-- of which nothing is assumed; Storage.Assoc is a store in memory, for runs of the clients.
-- Relational: internal/relational/types.go and table.go. `M` of Relational.Result is the monad
-- of code that reads and writes a store and may panic or fail; dbUpdate, dbDelete and dbGet
-- are db_update, db_delete and db_get in it, over any store; Catalog has the table definitions
-- and the methods that take a table's name.
-- Pool: internal/pool/pool.go, method by method. A connection is the number of its cell, so
-- the two lists of the pool share connections as the Go pointers do; `acquire_loop` is the
-- loop of Acquire.
-- Sql: internal/sql. Planner is planner.go; Statements, Rows and Aggregate are the parts of
-- executor.go that make tables, indexes and rows, the window of LIMIT and OFFSET, and the
-- aggregate functions; Lexer is the scanner at the head of parser.go, where a loop that moves
-- the position is a recursion over the bytes that are left.
-- Transaction: internal/transaction/tx.go. The methods of Manager and Tx return the new
-- manager and the new transaction; Life gives the interleavings of any number of transactions.
--
-- Numbers are natural numbers with the wrap-around of their width written out; an int, an
-- int64 and a float64 are their 64-bit patterns, and the sizes and positions of the page
-- manager wrap as in Go. A byte slice is a list of numbers. A slice that Go panics on is the
-- outcome `panic`; slices have no spare capacity. `stuck` says that a loop has run out of
-- fuel. The decoder's fuel is the length of its input, which is enough since each round takes
-- a byte. The fuel of the pool's loop is the lengths of its two lists, of which each round
-- uses up one element. The loop of skipComments has one round for each byte left at most. The
-- fuel of nodeLookupLE is the number of keys and one more, since the range shrinks in each
-- round. The fuel of the tree's operations is one for each level of the tree, and that of
-- ExtendMMap one for each doubling, so 63 are enough for every size up to 2^62, above which
-- the doubling of the Go int overflows and need not end.
--
-- A Go map is an association list in the order in which `range` visits it, so what is proved
-- of every list holds of every order. Locks make a method one step. Times, files, sockets and
-- the garbage collector are not modelled. strconv.ParseInt and crc32 are parameters. A disk
-- answers each write and each Fsync as it likes; what is relied on is that a page which was
-- written is read back. Overflow pages, which no code uses, scans of tables, the grammar of
-- SQL, and the server are not modelled.
pub mod Prelude
pub mod Bytes
pub mod Encoding
pub mod Protocol
pub mod Storage
pub mod Transaction
pub mod Relational
pub mod Pool
pub mod Sql
pub mod Btree
pub mod Pages
pub mod Kv
pub mod Shard
