-- ===== src/Lib.antt =====
-- A verification library for trlog, the Python package that writes and reads TRLOG trace files
-- (python/src/trlog). A file is a sequence of blocks behind ten-byte headers: a string table, a type
-- registry, metadata, value changes, transactions and an index from times to block offsets. The
-- writer interns strings, registers types and flushes each part as a block; the reader scans the
-- blocks or goes to them by the index, and evaluates derived signals when they are read.
--
-- Which file models what:
--   Prelude      shared names, tests, lists, bit facts, integers (Int) and dictionaries (Dict)
--   Wire         byte strings, the exceptions as values, encoders and decoders; Wire/Reads has the
--                predicate that an encoder and a decoder fit, with one rule for each construction
--   Text         UTF-8, as str.encode and bytes.decode of the language do it
--   Codec        _codec.py: encode_uvarint, decode_uvarint, encode_svarint, decode_svarint; Offset
--                has the decoder over a buffer and an offset, Framed what stands behind its length,
--                Field encode_field and decode_field, Value these on any Python value
--   Types        the IntEnums of _types.py with their codes
--   Compression  the choice of compressor by flags
--   Block        _make_block of _string_table.py, _read_one_block and _iter_raw_blocks of _reader.py
--   StringTable  the class of _string_table.py
--   Floats       Python's floats as their 64 bits
--   Metadata     typed values, TypedAttr and MetaBlock of _metadata.py; Infer has infer_attr_type
--   TypeRegistry the class of _type_registry.py; Entries and Stream have its entries
--   Index        IndexBlock of _index.py; Find has its look-ups, which
--                Seek and Streams are about
--   Deps         DependencyGraph of _deps.py with its search for a cycle; Order has its orders and the
--                Materializer, and Memo is about its cache
--   Bytesplit    _bytesplit.py: the byte planes and, in Stream, the blocks of core.bytesplit
--   Txn          the class of _txn_data.py: Fields has the parts of a record, Row and Column the
--                layouts, ColumnReader the reader of columns, Block the block and its choice
--   Hierarchy    _hierarchy.py: the tree and its changes, the tags in Stream, the class in Block
--   Vc           _vc_data.py: values and their packed states; Wave has the waves, Stored how they are
--                stored, Payload and Block the parts of the payload and the class
--   Opaque       AuxBlock of _aux.py and ExtBlock of _ext.py
--   Derived      _derived.py: expressions, bytecode, stored definitions; Changes has
--                evaluate_changes
--
-- A function of the source keeps its name. A pair (buf, offset) is the list of the bytes from the
-- offset on. A method of an object takes the record of its fields and returns the new record; an
-- exception is an `err`. What an object holds when a method raises in the middle is not modelled.
--
-- Loops: encode_uvarint has n + 1 rounds for the number n, each of which divides it by 128; the
-- scan of a file has as many rounds as the file has bytes, each of which takes a header of ten;
-- the bytecode loop has as many as the bytecode has bytes, each of which takes an opcode; the
-- search for a cycle is as deep as there are nodes, each visit of which paints one that was white. The visits of
-- topo_order have one level more than nodes, and materialize takes its depth as an argument.
-- The loop over the tags of a hierarchy has as many rounds as bytes, each of which takes a tag.
-- All other loops are recursion on the data or on a count that the input gives.
--
-- Numbers: Python's integers are ℕ where the source counts with them and ℤ where they may be
-- negative; fixed-width fields are refused by `pack` where a number does not fit, as struct.pack
-- does.
--
-- Parameters: zlib and zstandard (Compression), with the hypothesis that what was compressed
-- decompresses; the interpreter's conversions between floats and integers (Floats) and between
-- doubles and singles (Codec/Field), and from texts to numbers (Vc); lz4 and md5 (Vc/Stored); the function compute that the caller gives a Materializer.
--
-- Not modelled: the writer and the reader
-- above the block scan, the codec plug-ins and the call-return extension; the bindings to the C library, the C library itself, benchmarks and documentation.
pub mod Prelude
pub mod Wire
pub mod Text
pub mod Types
pub mod Codec
pub mod Compression
pub mod Block
pub mod Floats
pub mod StringTable
pub mod Metadata
pub mod TypeRegistry
pub mod Index
pub mod Txn
pub mod Vc
pub mod Hierarchy
pub mod Opaque
pub mod Bytesplit
pub mod Derived
pub mod Deps
