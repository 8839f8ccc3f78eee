-- ===== src/Lib.antt =====
-- The schemaless benchmarks: a generator of random structured data, a hash that every test reports, and one
-- test for each library, which must hash what it parsed to the hash of the original object.
--
-- How the parts work together. object_create (src/common/generator.c) makes an object from a seed. A test's
-- run_test copies the encoded file (src/common/benchmark.h), lets its library parse it, and hashes the parsed
-- values (src/common/hash.h). The data files are written by the tests named after a file (mpack-file.c and
-- others), under the names that benchmark_filename gives. src/hash/hash-object.c hashes the object itself:
-- this is the hash that every other test must report. Libraries that have no growable buffer write into the
-- one of src/common/buffer.h.
--
-- Files and code:
--   Base            numbers, lists, words and bit operations that all parts share
--   Hash            src/common/hash.h: hash_u32 to hash_nil; Hash/Words and Hash/Laws on them
--   Object          src/common/generator.h: object_t as the data type Object
--   HashObject      src/hash/hash-object.c: hash_object, run_test; HashObject/Laws on the hash
--   HashData        src/hash/hash-data.c
--   Random          src/common/generator.c: random_next, random_seed, random_inverse
--   Generator       src/common/generator.c: Text (random_key, random_string), Kind (random_type),
--                   Init (object_init), Pool (object_copy, object_create),
--                   Teardown (object_teardown)
--   Buffer          src/common/buffer.h: buffer_init, buffer_write
--   Benchmark       src/common/benchmark.h: benchmark_in_situ_copy and _free; src/common/benchmark.c: Fragment
--                   (fragment_memory, free_fragmented_memory), Go (go, main), Load
--                   (the loading of data files), Store (the disk that the tests of files write), Root (the
--                   object that the tests of writers create)
--   Parser          what the tests of parsers share: early returns, library trees, the object of a tree
--   X/Timed         the test of X under go, from the file on disk to the report
--   Msgpack/Unpack  src/msgpack/msgpack-c-unpack.c
--   Json/Parser     src/udp-json/json-parser.c
--   Json/Builder    src/udp-json/json-builder.c
--   Yajl/Tree       src/yajl/yajl-tree.c
--   Yajl/Parse      src/yajl/yajl-parse.c
--   Binn/Load       src/binn/binn-load.c
--   Binn/Write      src/binn/binn-write.c; Binn/File is src/binn/binn-file.c
--   Ubj/Read        src/ubj/ubj-read.c
--   Ubj/Write       src/ubj/ubj-write.c; Ubj/File is src/ubj/ubj-file.c
--   Mpack/Node      src/mpack/mpack-node.c
--   Jansson/Load    src/jansson/jansson-load.c
--   Jansson/Dump    src/jansson/jansson-dump.c
--   Bson/Iter       src/libbson/libbson-iter.c
--   Bson/Append     src/libbson/libbson-append.c; Bson/File is src/libbson/libbson-file.c
--   Writer          what the tests of writers share: library calls that can fail, the events of a document
--   Msgpack/Pack    src/msgpack/msgpack-c-pack.c
--   Cmp/Write       src/cmp/cmp-write.c
--   Cmp/Read        src/cmp/cmp-read.c; Cmp/Read/Back on what cmp-write.c wrote
--   Yajl/Gen        src/yajl/yajl-gen.c
--   Mpack/Read      src/mpack/mpack-read.c; Mpack/Read/Back on what mpack-write.c wrote
--   Mpack/Write     src/mpack/mpack-write.c; Mpack/File is src/mpack/mpack-file.c
--
-- How state is modelled. A function that changes `*hash` takes it and returns it; one that can fail returns
-- whether it succeeded beside it, and the early returns are a monad (Parser). The generator's random_t and
-- total_size are passed on explicitly. The outcome Outcome of the generator is a value, a fault (division by
-- zero, or a recursion deeper than its fuel), or the end of the retries for an unused key. Memory that
-- object_copy writes is the list of its blocks, with addresses as numbers. The tests that read count the
-- copies of the data and the values of their library that they hold, beside the files and blocks of the
-- harness; those of cmp-read.c, mpack-read.c, ubj-read.c and hash-object.c do not count their copies. Words
-- have their wrap-around written out; on the platform modelled, size_t and pointers have 64 bits.
--
-- Bounds and fuel. object_init recurses to at most 32 levels, since no container stands at depth 31; 32 units
-- of fuel are enough, and this is part of the results. The loop that draws keys until one is unused has no
-- bound in the code: the model gives it a number of retries and says where it gave up. The capacity loop of
-- buffer_write has 64 rounds, enough for every request below 2 ^ 62 bytes. The loop that counts bits has 32
-- rounds for a 32-bit number.
--
-- The two timed loops of go end when the clock says so: the clock is a function from the number of batches to
-- whether the time is over, and any fuel above the last batch's number is enough. The memory of parser_t in
-- yajl-parse.c is its 34 words, so that an access of children outside its 32 places is one to a word beside
-- them; whether depth is read before or after such an access changes it is an argument. The readers that
-- recurse on what a library reads have fuel for the recursion: an object's nesting and one level more is
-- enough.
--
-- Not under src/, and so a parameter: the libraries. A parsed tree holds what a library's public types show of
-- a value, and the parser of a test is a function from bytes to such a tree. A library that writes has a state
-- of any type, and a function says what each call does to it and whether the call succeeds. malloc and realloc
-- are functions that say whether a request is granted. The files on a disk are a function from names to
-- contents; which names fopen opens, and how much fread and fwrite pass on, are functions too. What
-- binn-file.c and libbson-file.c write stays in a buffer until fclose or the end of the process. A double is
-- its bit pattern, and the sum that object_init computes in floating point is a parameter.
--
-- Not modelled: printing, the C++ and Zig tests, and the functions that name a test's library, language and
-- format. The object that benchmark_object_create gives is a parameter of the tests that write it.
mod Base
pub mod Hash
pub mod Object
pub mod Benchmark
pub mod HashObject
pub mod HashData
pub mod Parser
pub mod Random
pub mod Generator
pub mod Buffer
pub mod Msgpack
pub mod Json
pub mod Yajl
pub mod Ubj
pub mod Writer
pub mod Cmp
pub mod Mpack
pub mod Jansson
pub mod Bson
pub mod Binn
