-- ===== src/Lib.antt =====
-- lucanthrope, a search library in C++: its streams, its directory in memory, its text analysis and
-- its documents.
--
-- The parts of the program and how they meet. IndexInput and IndexOutput read and write integers,
-- varints, strings and raw bytes through a buffer that a derived class fills or empties.
-- RAMFileIndexInput and RAMFileIndexOutput are these classes over the blocks of a RAMFile. A
-- RAMDirectory maps names to RAMFiles, hands out the streams and counts the references; the
-- destructors of the streams and of lock files call it back. Apart from that, tokenizers and filters
-- make tokens of a text, analyzers put them together, and a document is a list of fields.
--
-- The files:
--   Exception: include/lucanthrope/common/Exception.h, and the outcomes of a call: it returns, it
--     throws, an assertion fails, the behaviour is undefined, or fuel runs out. The build file does
--     not define NDEBUG, so assertions count.
--   Io/IndexIoBase: include/lucanthrope/IO/IndexIOBase.h with the setters and queries of IndexInput.h
--     and IndexOutput.h for the buffer; External has what a client gets that installs its own.
--   Io/IndexInput, Io/IndexOutput: include/lucanthrope/IO and lib/IO/IndexInput.cpp and
--     IndexOutput.cpp. Their functions are written over the records InputImpl and OutputImpl, whose
--     fields are the buffer operations and the virtual functions: readByte is read_byte, writeVarint32
--     is write_varint32, and so on. Io/Encode has the bytes that the write functions hand to write,
--     and their lengths.
--     Io/IndexInput/Source and Io/IndexOutput/Sink say what a derived class promises;
--     Io/IndexInput/Reads, Io/IndexInput/Malformed, Io/IndexOutput/Writes, Io/IndexOutput/Bytes and
--     Io/RoundTrip prove on these promises what the functions do. Io/Items has clients that write or
--     read one item after another through one stream; Io/Decoder reads such items from a list of
--     bytes, and stands for what the read functions should make of any bytes.
--   Storage/RamFile, Storage/RamFileIndexOutput, Storage/RamFileIndexInput: RAMFile of
--     include/lucanthrope/storage/RAMDirectory.h, lib/IO/RAMFileIndexOutput.h and
--     lib/IO/RAMFileIndexInput.h. A pointer into a buffer is an offset in a block; the modules
--     below them compare the streams with the promises. Storage/WriteRead joins them;
--     its Edits are calls of write functions, seek, flush and sync in any order.
--   Storage/Directory: include/lucanthrope/storage/Directory.h, the interface, and what its comments
--     promise, as functions on a listing of names; and apart from that the calls for which
--     RAMDirectory fails an assertion although the comments promise something else: openInput of an
--     unfinished or an empty file, and deleteFile of an unfinished one.
--   Storage/FileMap, Storage/RamDirectory: lib/storage/RAMDirectory.cpp and RAMDirectoryLockFile.h.
--     The map is an association list, the heap a function from addresses to files. References has
--     the invariant of the reference counts, Worlds the clients and their calls as a step relation,
--     Lifetime, Behaviour, RoundTrip and Shutdown what follows. Refinement compares each call with
--     the promises of the interface and these assertions, and Sessions whole sequences of calls, with
--     the streams and locks that are open. The mutex makes each call one step; deleteFile and unrefReader deallocate a file
--     after they give it up, and Threads has the orders in which that can happen.
--   Analysis: include/lucanthrope/analysis. Texts are lists of bytes. The predicates and normalizers
--     of CharTokenizer, and LowerCaseFilter, pass a char to <cctype>, which is defined for the bytes
--     below 128 and for '\xff', which is EOF; for any other the outcome is undefined. char is
--     signed, and the locale is the "C" locale.
--   Document: include/lucanthrope/document/Document.h; Building has documents made by sequences of
--     calls of the factories of Field.
--   Tests: the theorems at concrete inputs.
--
-- Numbers are natural numbers with the wrap-around of their type written out. uint64_t positions and
-- sizes of files are taken not to wrap, as memory is smaller. The loops of writeByte and write, which
-- call themselves, take rounds of fuel: write needs one to get a buffer, one for a full buffer, one
-- to end and one for each byte at most, as every further round stores a byte. The loop of readVarint32
-- and readVarint64 takes 5 and 10 rounds, its own bound. The loop of the tokenizer takes a round for
-- each byte of the text, one for the end of the file and one to see its flag; the loop of StopFilter
-- takes the rounds that its stream is given.
--
-- Not modelled: bad_alloc, and what the program prints to std::cerr. What an allocated block contains
-- before it is written is a parameter, and so is whether inserting a name makes the map rehash.
-- RAMFileIndexOutput and RAMFileIndexInput have their own pointers, offsets in a block, as no client
-- can install a buffer there.
pub mod Base
pub mod Exception
pub mod Io
pub mod Storage
pub mod Analysis
pub mod Document
mod Tests
