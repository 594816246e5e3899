-- ===== src/File/Tests.antt =====
-- A file's place in its chain, and a file that grows: clusters 6 and 7 are added to the chain 2, 4, 5.
use exfat_slim.Base.{ℕ, ◌≡◌, refl, true, false, none, List, [], ◌∷◌, inr, arith}
use exfat_slim.Timestamp.{default_encoded}
use exfat_slim.Error.{Result, ok, DirectoryEntryError}
use exfat_slim.Device.{Block}
use exfat_slim.SlotCache.{new}
use exfat_slim.Touched.{no_touched}
use exfat_slim.OpenOptions.{FileDetails, no_options}
use exfat_slim.Allocator.{StoredChain, new_allocator}
use exfat_slim.Fat.{new_fat}
use exfat_slim.FileSystem.{FileSystem}
use exfat_slim.File.{Opened, move_file_cursor, next_cluster_if_required, current_sector_id, seek}
use exfat_slim.File.Position.{IsPlaced, settled, move_file_cursor-IsPlaced, sector_of_cursor}
use exfat_slim.File.Seeking.{Sought, InTable, seek-Ensures}
use exfat_slim.Action.{Ensures, ◌>>◌}
use exfat_slim.SlotCache.Tests.{memory, memory-Storage}
use exfat_slim.Disk.Sound.{Changes, clear, link_of}
use exfat_slim.Disk.Chain.{has, ChainFrom}
use exfat_slim.Disk.Stitch.{stitched}
use exfat_slim.Disk.Tests.{disk, owner, disk-IsReady, in_heap, clusters, chain, leads}
use exfat_slim.File.Writing.{link_chain}
use exfat_slim.File.Linking.{link_chain-Ensures}

apart : (x : ℕ) → has x clusters ≡ true → has x (6 ∷ 7 ∷ []) ≡ false
apart x i = ground arith

link_chain-Ensures_example :
    Ensures
      (λ _ t.
        ChainFrom
          (link_of memory-Storage 8 2 2 (omega arith) refl owner t)
          2
          (2 ∷ 4 ∷ 5 ∷ 6 ∷ 7 ∷ [])
        × Changes memory-Storage 8 2 2
            (omega arith)
            refl
            owner
            disk
            t
            (clear memory-Storage 8 2 2 (omega arith) refl owner disk)
            (stitched 6 2 5 (link_of memory-Storage 8 2 2 (omega arith) refl owner disk)))
      (λ t. Unit {0})
      (link_chain memory 8 chain (record { first_cluster = 6; cluster_count = 2 }) disk)
link_chain-Ensures_example =
    link_chain-Ensures memory-Storage 8 2 2 (omega arith) refl owner chain 2 5 clusters 6 2 disk
      disk-IsReady refl leads refl
      (
        in_heap 2 (omega arith) (omega arith),
        (
          in_heap 4 (omega arith) (omega arith),
          (
            in_heap 5 (omega arith) (omega arith),
            (in_heap 6 (omega arith) (omega arith), (in_heap 7 (omega arith) (omega arith), tt)),
          ),
        ),
      )
      apart (omega arith) (omega arith)

-- A file of three clusters, 5 to 7, each of two sectors of four bytes.
abbrev details : FileDetails
details = record {
  first_cluster = 5;
  data_length = 24;
  valid_data_length = 24;
  attributes = 0x20;
  location = record { sector_id = 20; dir_entry_offset = 0 };
  flags = 3;
  secondary_count = 2;
  created = default_encoded;
  modified = default_encoded;
  accessed = default_encoded;
}

abbrev volume : FileSystem (ℕ → Block)
volume = record {
  dev = λ x. 0 ∷ 0 ∷ 0 ∷ 0 ∷ [];
  is_mounted = true;
  fs = record {
    cluster_heap_offset = 20;
    fat_offset = 2;
    sectors_per_cluster = 2;
    cluster_length = 8;
    cluster_count = 10;
    first_cluster_of_root_dir = 2;
  };
  upcase_table = [];
  allocator = new_allocator (new 4 2);
  fat = new_fat (new 4 2);
  data_blocks = new 4 2;
  time_provider = none;
}

-- Its first cluster has been read.
abbrev opened : Opened (ℕ → Block)
opened = record {
  file = record {
    details = details;
    current_cluster = 5;
    remaining_bytes_in_cluster = 0;
    cursor = 8;
    open_options = no_options;
    chain = StoredChain.contiguous 5 3;
    touched = no_touched;
  };
  fsys = volume;
}

abbrev label : List ℕ → Result DirectoryEntryError (List ℕ)
label units = ok units

sector_of_cursor_example :
    (next_cluster_if_required memory 4 label >> current_sector_id memory 4 label) opened
    ≡ (ok 28, settled 5 opened)
sector_of_cursor_example =
    sector_of_cursor memory 4 label 5 3 opened refl (omega arith) (omega arith) refl (omega arith)
      (omega arith) (omega arith)
      (inr (record { cluster = refl; after_first = omega arith; remaining = refl; even = refl }))

-- A file in the chain of the table that leads from cluster 2 over 4 to 5.
abbrev scattered : Opened (ℕ → Block)
scattered = record {
  file = record opened.file { chain = chain };
  fsys = record volume {
    dev = disk.dev;
    allocator = disk.alloc;
    fat = disk.fat;
    data_blocks = disk.data_blocks;
  };
}

seek-Ensures_example :
    Ensures
      (λ _ t. Sought memory-Storage 8 2 2 (omega arith) refl owner label 4 13 scattered t)
      (λ t. InTable chain)
      (seek memory 8 label 13 scattered)
seek-Ensures_example =
    seek-Ensures memory-Storage 8 2 2 (omega arith) refl owner label clusters 13 4 scattered
      disk-IsReady (omega arith) (omega arith) refl
      (
        leads,
        (
          in_heap 2 (omega arith) (omega arith),
          (in_heap 4 (omega arith) (omega arith), (in_heap 5 (omega arith) (omega arith), tt)),
        ),
        omega arith,
      )
      refl (omega arith) (omega arith)

move_file_cursor-IsPlaced_example : IsPlaced 5 3 8 (move_file_cursor 3 (settled 5 opened).file)
move_file_cursor-IsPlaced_example =
    move_file_cursor-IsPlaced 5 3 8 3 (settled 5 opened).file (omega arith) (omega arith)
      (omega arith) (record { cluster = refl; remaining = refl; inside = omega arith })
