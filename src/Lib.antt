-- ===== src/Lib.antt =====
-- LTFS keeps a file system on a tape. A file is a list of extents, runs of bytes in blocks of the
-- tape; the index, an XML document on tape, lists the files with their extents. Programs reach the
-- library libltfs through FUSE. A write goes through an I/O scheduler (ltfs/src/iosched) to the raw
-- file operations, which write blocks through the tape layer and record them as extents. Keys for
-- an encrypted tape come from a key manager plug-in (ltfs/src/kmi), which reads lists of keys as
-- text. When a tape is mounted, the labels of its two partitions are read and compared, and they
-- give the map from the partitions' names to their numbers.
--
-- The files and what they model:
--
-- Extent, of ltfs/src/libltfs/ltfs_fsops_raw.c: `_ltfs_fsraw_add_extent_unlocked` and what
-- `ltfs_fsraw_truncate` does under its locks. A dentry is a record of the fields that the two
-- read or write. The list of extents is a List in the order of the TAILQ, and an insertion behind
-- an entry or at the head is one in the List. The 64-bit arithmetic wraps round. Extent.body is one
-- round of the loop over the extents; the rounds follow each other by recursion on the list.
-- Whether the two allocations of a call succeed are its arguments `copies` and `splits`.
-- Extent.Content gives files their meaning, a partial function from the bytes of a file to bytes
-- on tape. Extent.Trim, Extent.Body, Extent.Round and Extent.AddLoop follow one call through a
-- round and through the loop, and Extent.Add and Extent.Truncate state the results for a file.
--
-- Raw, of the same file: `ltfs_fsraw_read` under its locks, over an interface of the tape device,
-- Raw.Device, a record of its operations with the laws of those that succeed. A part of the call
-- returns a Result: it goes on with the volume, has failed with a code, or has run out of fuel.
-- The loop over the blocks of an extent runs on fuel, one more than the bytes that are wanted,
-- which is enough since each round copies at least one; the loop over the extents is recursion on
-- the list. `ltfs_part_id2num` on the volume's label is a function `part_num`. The buffer is the list of
-- bytes written so far, and `last_block` the list of bytes that the last block had. Raw.Window
-- and Raw.Bytes describe the bytes of a file; Raw.Block gets one block, Raw.Copy and Raw.Rounds
-- follow the rounds in an extent, Raw.Start begins them, Raw.Parts and Raw.Extents put extents and
-- holes together, and Raw.Read states the result.
--
-- Write, of the same file: `_ltfs_fsraw_write_data_unlocked` and one attempt of `ltfs_fsraw_write`.
-- The tape is an interface, Write.Append: a record of the operations that a write uses, with the
-- laws of those that succeed. The loop over the blocks runs on fuel, one more than the bytes to
-- write, which is enough since each round writes at least one. Whether the allocations of a call
-- succeed are its Boolean arguments. Write.Blocks and Write.Data follow the blocks onto the tape,
-- Write.File states what the file then is, and Write.ReadBack reads the bytes with Raw.
--
-- Tape, of ltfs/src/libltfs/tape.c: the device that libltfs keeps over a drive, the record
-- `struct device_data`, with seeking, writing, reading and the append positions. Tape.Ops is the
-- interface of a drive, the operations of `struct tape_ops` (ltfs/src/libltfs/tape_ops.h) that these
-- use, with the laws that its comments give, and one that they do not: that a read that
-- lacks a key leaves the head where it is; a key manager is a function from the alias of a key to
-- the key. Tape.Position and Tape.Seeking have the seeks, Tape.Writing, Tape.Admission and
-- Tape.Outcomes the writes, Tape.Reading and Tape.Encrypted the reads, and Tape.Calls and Tape.Lockout sequences of calls. Tape.Device fills the
-- interfaces Raw.Device and Write.Append, and Tape.ReadBack puts Write and Raw on top of it.
--
-- Locks, of ltfs/src/libltfs/ltfs_locking.h: the lock for many readers or one writer. A thread goes
-- through the functions one operation on a mutex, or on a variable that is read without one, at a
-- time; a system is the lock with any number of threads below 2^32, the number that its count of
-- readers holds, which take their steps in any order. Locking a mutex never fails. Locks.Totals and
-- Locks.Moves count threads by where they stand, Locks.Invariant has what every step keeps, and
-- Locks.Safety and Locks.Progress what threads can rely on.
--
-- Checksum, of ltfs/src/tape_drivers/reed_solomon_crc.c: the checksum that goes behind a block on its
-- way to a drive. `^` is written out bit by bit, and the number of bytes that a check returns is cut to
-- an int, as gcc does it. Checksum.Table has the table, Checksum.Words and
-- Checksum.Steps show that no two registers or bytes lead to the same register, and Checksum.Blocks
-- states the results.
--
-- Cache, of ltfs/src/iosched/cache_manager.c: the pool of cache objects. An object has its address;
-- the objects that callers hold are a list beside the pool, and the number of objects that there is
-- memory for is the argument `grants`. Cache.Counts has the counts of objects, Cache.Invariant what
-- every operation keeps, and Cache.Room what a caller gets.
--
-- Criteria, of ltfs/src/libltfs/index_criteria.c: the text of the rules for the files that go to
-- the index partition. Criteria has the check of the text and the search for an option, whose calls
-- of itself run on fuel; each call starts behind the match of the one before it, so that one more
-- than the length of the text is enough. Criteria.Rules has the size rule, the name rule and the
-- whole call, with the validation of a file name (ltfs/src/libltfs/pathname.c, which calls ICU) as an
-- argument, and the memory and the bytes that the code reads outside of its buffers as arguments too.
-- Criteria.Options describes a text by its parts between the separators, Criteria.Sizes and
-- Criteria.Names the texts of a size and of patterns, Criteria.Texts puts them together, and
-- Criteria.Parse and Criteria.Returns state the results. Criteria.Glob has the match of a name
-- against a pattern, which backtracks with a stack; names and patterns are lists of the characters
-- that the break iterators of ICU find. Its loop runs on fuel; Criteria.Glob.Lower has what each
-- turn makes less, and Criteria.Glob.Ends that some fuel is enough. Criteria.Glob.Reference is an
-- independent description of a match, and Criteria.Glob.Turns and Criteria.Glob.Answer follow the
-- turns of the loop. Criteria.Match has the match of a file, with the cache of the patterns.
--
-- Base64, of ltfs/src/libltfs/base64.c: the decoder. Its two loops are recursion on the text. The
-- byte in front of the text is an argument `before`, since the code looks at `enc[i-1]`.
-- Base64.Encode is an independent description of the text, an encoder; the program has none.
--
-- KeyFormat, of ltfs/src/kmi/key_format_ltfs.c, which uses Base64. KeyFormat.Syntax has the checks
-- of a text and the conversions of one key and one identifier; KeyFormat.State has the states of
-- the module and its entry points, as functions that return the state with a result or an error,
-- and the allocations of a call as a record of Boolean arguments. Calling `get_num_of_keys` runs
-- its loop on fuel; each round takes one pair of 68 or more characters, so that the length of the
-- text, which is given, is enough. KeyFormat.Print writes a list of keys as text, and
-- KeyFormat.Parse and KeyFormat.Find read it back.
--
-- Label, of ltfs/src/libltfs/label.c with the callers in ltfs/src/libltfs/ltfs_internal.c and
-- ltfs/src/libltfs/ltfs.c: a label as a record, the comparison of two labels test by test in the
-- order of the code, storing them in a volume, the partition map and the ANSI label.
--
-- Prelude has the helpers that these files share: tests on numbers, lists over the native
-- numbers, and the arithmetic of 64-bit words.
--
-- Not modelled: the use of the locks around the other operations, each of which runs under locks that
-- are held; null arguments, which most functions refuse; the rest of
-- tape.c, which loads and formats cartridges or calls the driver's function of the same name; the retries of
-- a write and a read after the device was revalidated; log messages; and the libraries of C, XML (libxml2), FUSE
-- and Unicode (ICU), of which the functions that are modelled use only `malloc`, `memcpy`, the tests
-- of <ctype.h>, `strncasecmp`, `strcasestr`, `strtoul` and `strtoull`. Those are written out as the C standard gives them in the C locale.
-- The tape drivers, the index reader and writer, the I/O schedulers over the cache pool, the
-- directory tree and the command-line programs are outside this development.
pub mod Base64
pub mod Cache
pub mod Checksum
pub mod Criteria
pub mod Extent
pub mod KeyFormat
pub mod Label
pub mod Locks
pub mod Prelude
pub mod Raw
pub mod Tape
pub mod Write
