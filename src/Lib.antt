-- ===== src/Lib.antt =====
-- A verification library for exfat-slim, an exFAT file system for block devices without an
-- operating system.
--
-- Parts, and the files that model them:
-- - Device: the trait of src/block_device.rs. A device is a parameter, a state with the calls
--   `read` and `write`; `Storage` states that it keeps what is written, that a failed read changes
--   nothing on it and that a failed write spoils no other sector. A device in memory satisfies it
--   (SlotCache/Tests).
-- - SlotCache: src/slot_cache.rs, the write-back cache of sectors through which the other parts
--   reach the device. Each operation is a function of the cache and the device. `update` is
--   `read_mut` with the change that the caller makes to the bytes, `fetch` is `read`. The loop of
--   `choose_victim` gets one round more than there are slots: each further round takes a mark of
--   recent use off. What a client sees is the function from sectors to blocks of SlotCache/View;
--   the other files below SlotCache state what each operation does to it.
-- - Bitmap: src/allocation.rs, positions of clusters in the bitmap, the chunks of a run and the bits
--   of a sector. The iterator of chunks gets as many rounds as the run has clusters.
-- - FreeRun: src/allocation.rs, the search for free clusters in the bytes of the bitmap
--   (`find_free_clusters_from` without the cache, and `close_run`); FreeRun/Skipping is about the
--   words that it skips.
-- - Allocator: src/allocation.rs, the operations on the bitmap through the cache.
-- - Fat: src/fat.rs, the file allocation table through its own cache.
-- - Touched: src/file.rs, the sectors that an operation must flush (`FileDirty`).
-- - Disk: the caches of a file system over its device, and the operations that use more than one:
--   `Allocator::free` of src/allocation.rs and the flush of `FileDirty` of src/file.rs. Disk/Sound
--   says what a client sees of the three caches when every sector belongs to one of them;
--   SlotCache/Regions, Allocator/Contained and Fat/Contained state that a cache keeps to its
--   sectors; Disk/Chain has the chains of the table. `free` follows a chain as many rounds as the
--   chain has clusters, as the source does.
-- - Name: src/utils.rs, the hash of a name and the length of its entry set.
-- - OpenOptions: src/file.rs, `OpenOptions`, `FileDetails` and `Location`.
-- - BootSector: src/boot_sector.rs, and `FileSystemDetails` of src/file_system.rs.
-- - DirEntry: src/directory_entry.rs, the fields of directory entries and their raw bytes.
-- - NameEntry: src/directory_entry.rs, the entries of a name, and a name as UTF-8.
-- - DirSet: src/directory_entry.rs, the writer of an entry set and its checksum.
-- - DirChain: src/directory_entry.rs, the reader of a chain of entries, and the filters of
--   src/directory.rs. The loop over the entries of a directory has no bound in the source; its rounds
--   are an argument. A name of `n` units gets `n + 1` rounds.
-- - Upcase: src/upcase_table.rs.
-- - Volume: src/utils.rs, the dirty flag of the boot sector and the split of a path.
-- - Commands: src/file_system.rs and src/directory.rs, the public operations on paths and the listing
--   of a directory.
-- - Handles: src/fs.rs, the handles of open files and the slots for replies.
-- - Chunks: src/utils.rs, the pieces of a name (`Utf16Chunks`).
-- - FileSystem: src/file_system.rs, the state and `mount`. The collection of a volume label into a
--   `heapless::String` is the parameter `collect`. Below it, Chains, EntrySets, Removing and Creating
--   have the operations on stored chains and entry sets. They are handed the fields of the file
--   system that they only read; a path is the list of its names.
-- - File: src/file.rs, an open file and its place; File/Reading has `read` and what is built on it,
--   File/Writing the growth of the chain and `write`, File/Flushing `flush`, File/Opening `open` of
--   src/file_system.rs. File/Position is about files with a contiguous chain, File/Seeking about
--   `seek` with either kind of chain, File/Linking about the links that a growing file writes. `read`
--   gets as many rounds as it is asked for bytes, the allocation one round more than it is asked for
--   clusters.
-- - Timestamp: src/timestamp.rs.
-- - Error, Action: src/error.rs, and operations that change a state and may fail. The state comes
--   back with an error too, as `?` undoes nothing. `Ensures` states what holds after a return and
--   after an error, and that no loop runs out of rounds.
-- - Word, Base: machine words, bytes, lists and numbers.
--
-- Numbers are natural numbers, with the wrap-around of a word written out where the source casts,
-- shifts or multiplies; the other sums of sector and cluster numbers are not wrapped outside
-- BootSector: there a debug build stops if they pass 2 ^ 32.
--
-- Not modelled: the blocking and async twins, which run the same steps, locks between tasks, the
-- byte alignment of buffers, the requests to the actor task, and so far copying and the reading
-- of a file as a text.
pub mod Base
pub mod Word
pub mod Timestamp
pub mod Error
pub mod Action
pub mod Device
pub mod SlotCache
pub mod BootSector
pub mod DirEntry
pub mod Bitmap
pub mod Touched
pub mod FreeRun
pub mod Allocator
pub mod Fat
pub mod Disk
pub mod Name
pub mod OpenOptions
pub mod NameEntry
pub mod Upcase
pub mod Volume
pub mod Handles
pub mod Commands
pub mod Chunks
pub mod DirSet
pub mod DirChain
pub mod FileSystem
pub mod File
