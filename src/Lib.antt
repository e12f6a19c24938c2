-- ===== src/Lib.antt =====
-- Scouter collects measurements from agents. An agent sends packs over UDP and TCP; the server
-- reads them (internal/protocol), hands them to the core (internal/core) and its caches, stores
-- them in files (internal/db), and answers requests of viewers (internal/netio/service). This
-- library models the binary protocol (the byte streams, the values, the profile steps and the
-- packs, with every Write and Read method of them), the way of a UDP datagram to the packs that
-- are dispatched, the caches of alerts, of xlogs and of texts, and the index files of the
-- database.
--
-- * Common holds what the modules share: lists measured by native numbers and their stretches,
--   signed integers, Boolean tests, and splits that keep their equation.
-- * Protocol.Word has Go's integers as bit patterns below 2 ^ w, with the conversions and
--   comparisons that the code makes of them; Protocol.Bits has the laws of the bitwise or.
-- * Protocol.Output is DataOutputX of internal/protocol/dataoutx.go in buffer mode; a writer is a
--   function on the buffer, and ⨾ is one call after another.
-- * Protocol.Input is DataInputX of internal/protocol/datainx.go in buffer mode; a reader returns
--   a value and the advanced offset, ErrEOF or an unknown type code as an error, or a panic. A do
--   block is a sequence of reads, each of which returns its error at once.
-- * Protocol.Value with its children is internal/protocol/value: CreateValue is create_value,
--   WriteValue is write_value, ReadValue is read_value. nil stands for a nil Value, which
--   WriteValue writes as a NullValue.
-- * Protocol.Step with its children is internal/protocol/step: a record for each struct, with the
--   functions write_x and read_x for its methods, and Union for the interface Step.
-- * Protocol.Pack with its children is internal/protocol/pack, in the same way; Map has the
--   operations of MapPack, and XlogFilter the function ReadXLogFilterFields.
-- * Protocol.Codec has the rules by which a writer and a reader belong together; WordCodec,
--   DecimalCodec and SliceCodec apply them to the methods of the two streams.
-- * Protocol.Bounds and Protocol.Fuel are about every input, also one that no writer made.
-- * Udp.Multipacket is MultiPacketProcessor of internal/netio/udp/multipacket.go: its map is an
--   association list, and each call of Add or tick of cleanupLoop is one step, as both hold the
--   lock. Fragments, Reassembly, Stream and Size are about it. The time and the key that a range
--   over the full map gives first are arguments of Add.
-- * Udp.Datagrams is NetDataProcessor.process of internal/netio/udp/processor.go, as the list of
--   the packs that a datagram makes it dispatch; Frames is about it, and Dispatch about the
--   fragments of a pack from their datagrams to its dispatch. Its ReadPack has one unit of fuel
--   more than the buffer has bytes.
-- * Cache.Alerts and Cache.Xlogs are AlertCache and XLogCache of internal/core/cache. Cache.Ring
--   and Cache.Since are about the ring that both of them keep; AlertCells, AlertDelivery and
--   XlogDelivery are about a client that asks with the position it was given, XlogIndex and
--   XlogReachable about the index of objects, XlogObjects and XlogRequests about requests for
--   some objects. A loop of a client is an integer, and a negative index that the code would
--   index with is a panic.
-- * Cache.Texts is TextCache of internal/core/cache/text_cache.go: the list of the entries, the
--   most recently used first, which the map of the code points into. Its eviction loop has the
--   length of the list for fuel. TextRecency is about it.
-- * Util.Hash is HashBytes of internal/util/hash.go with its table, HashTable the polynomial
--   behind it; Xor has the laws of the exclusive or.
-- * Db.Files is what internal/db/io uses of an os.File: a list of bytes and a cursor.
--   Files.Overwrite is about writes over a stretch of it.
-- * Db.HashBlock is MemHashBlock of internal/db/io/mem_hash_block.go, the table of five-byte
--   positions, its file included; HashBlock.Laws is about it.
-- * Db.KeyRecord and Db.KeyFile are RealKeyFile of internal/db/io/real_key_file.go: KeyRecord has
--   getRecordReadAt, KeyFile the operations, which return their outcome and the file as they
--   leave it. KeyRecord.Blob and Layout, KeyFile.Entry and LongKeys are about one record;
--   KeyFile.Log takes a file for the list of its records, Records, Positional and Marking are
--   about the operations on it.
-- * Db.IndexKey and Db.IndexKeyScan are IndexKeyFile of internal/db/io/index_key_file.go.
--   IndexKey.Chains has the invariant that ties the table to the records, Walk, Lookup and
--   Answers the searches along a chain, Insert, Marks, Removal, Deletion and Opening the
--   operations; IndexKeyScan.Sweep is about the loops over the whole file, Counts about Stat and
--   the count of the table. A loop over records has one unit of fuel more than the file has
--   bytes, which is enough where the file is made of records: a chain goes backwards, and a
--   record has 9 bytes at least.
-- * Db.Kv is KVStore of internal/db/kv/kv_store.go: its map is an association list with distinct
--   keys, in the order of a range over it. The clock is an argument of each call that reads it,
--   json.MarshalIndent and json.Unmarshal are parameters, and the file is a list of bytes or
--   none. Entries is about the map, Expiry about Get and cleanupExpired, History about sequences
--   of calls, Bulk about GetBulk, Saving about the file.
-- * Examples applies the theorems at concrete inputs.
--
-- Integers are bit patterns, floating-point numbers their IEEE bits, strings and byte slices
-- lists of bytes; a nil slice is the empty list, which is written in the same way. The offset
-- behind an error is not kept, since no caller reads on after one. An allocation succeeds unless
-- its length is negative, where make panics.
--
-- ReadValue calls itself for the elements of lists and maps. In the model it takes fuel that
-- bounds this nesting: the depth of a value that was written is enough for it, and one unit more
-- than there are bytes left is enough for any input. A reader that has no fuel left is stuck, an
-- outcome that the program does not have. No other reader takes fuel, except to hand it to
-- ReadValue.
--
-- Not modelled: the stream modes of DataInputX and DataOutputX, Flush, and the pool of buffers
-- that XLogPack.Write takes its inner buffer from (each buffer of the pool is reset before it is
-- used again, so it is a new buffer here). The queues and goroutines around the packs, the other
-- caches, the writers and readers of the database, the TCP server and the handlers are not
-- modelled. The locks of the index files, the flush controller and errors of a device are not
-- modelled either: an operation is one step. Of the key-value store the goroutine of Start and
-- the temporary file of save are left out. The count that Delete of an index returns beside an
-- error is not kept.
pub mod Cache
pub mod Common
pub mod Db
pub mod Examples
pub mod Protocol
pub mod Udp
pub mod Util
