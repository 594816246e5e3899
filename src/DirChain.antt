-- ===== src/DirChain.antt =====
-- src/directory_entry.rs: `DirectoryEntryChain`, which reads the entries of a directory, or of one
-- entry set, sector by sector along the chain of the directory's clusters; and the filters of
-- src/directory.rs. `self` and the file system that is handed to it are the state `Walk`.
use exfat_slim.Base.{
  ℕ, zero, suc, ◌+◌, ◌-◌, ◌*◌, ◌/◌, min, Bool, true, false, ◌&&◌, not, Option, none, some, List, [],
  ◌∷◌, ◌++◌, take, drop, length, replicate, bit_and, String, leb, ◌==◌, if◌then◌else◌,
}
use exfat_slim.Word.{byte_at}
use exfat_slim.Error.{Result, ok, err, stuck, ExFatError}
use exfat_slim.Action.{Action, pure, out_of_rounds, ◌>>=◌, ◌>>◌, modify, gets, zoom}
use exfat_slim.Device.{Block, BlockDevice}
use exfat_slim.SlotCache.{fetch}
use exfat_slim.Fat.{next_cluster_in_fat_chain}
use exfat_slim.BootSector.{FileSystemDetails, get_heap_sector_id, cluster_of_sector}
use exfat_slim.OpenOptions.{Location, FileDetails}
use exfat_slim.Name.{upcase, encode_utf16_upcase_and_hash}
use exfat_slim.DirEntry.{
  raw_entry_len, EntryType, entry_type_of, end_of_directory, file_and_directory, stream_extension,
  filename, FileDirEntry, StreamExtensionDirEntry, parse_file, parse_stream, created, modified,
  accessed,
}
use exfat_slim.NameEntry.{
  FileNameDirEntry, parse_name, is_end_of_directory, try_into, decode_utf16_to_utf8,
}
use exfat_slim.Disk.{Disk, DiskAction, on_data, on_fat}

pub record DirectoryEntryChain : Type 0 where
  pub cluster_id : ℕ
  pub fs : FileSystemDetails
  pub cluster_offset : ℕ
  pub dir_entry_offset : ℕ
  pub buf : Block
  pub fetch_required : Bool
  pub cursor : ℕ
  pub num_entries : Option ℕ

-- `DirectoryEntryChain::new_from_file_details`: the entries of one set.
unfoldable pub chain_of_details : ℕ → FileDetails → FileSystemDetails → DirectoryEntryChain
unfolding cluster_of_sector
chain_of_details size details fs =
    let (cluster_id, cluster_offset) = cluster_of_sector fs details.location.sector_id in
    record {
      cluster_id = cluster_id;
      fs = fs;
      cluster_offset = cluster_offset;
      dir_entry_offset = details.location.dir_entry_offset;
      buf = replicate size 0;
      fetch_required = true;
      cursor = 0;
      num_entries = some (details.secondary_count + 1);
    }

-- `DirectoryEntryChain::new`: all entries of a directory.
unfoldable pub chain_of_cluster : ℕ → ℕ → FileSystemDetails → DirectoryEntryChain
chain_of_cluster size cluster_id fs = record {
  cluster_id = cluster_id;
  fs = fs;
  cluster_offset = 0;
  dir_entry_offset = 0;
  buf = replicate size 0;
  fetch_required = true;
  cursor = 0;
  num_entries = none;
}

pub record Walk (D : Type 0) : Type 0 where
  pub chain : DirectoryEntryChain
  pub disk : Disk D

-- `num_entries` is reached.
abbrev pub reached : Option ℕ → ℕ → Bool
reached none cursor = false
reached (some n) cursor = cursor == n

abbrev pub at_last : DirectoryEntryChain → Bool
at_last c = reached c.num_entries c.cursor

-- The step to the next sector, when all entries of one have been read.
abbrev pub next_sector : ℕ → DirectoryEntryChain → DirectoryEntryChain
next_sector size c =
    if leb (size / raw_entry_len) c.dir_entry_offset
    then record c {
      cluster_offset = c.cluster_offset + 1;
      dir_entry_offset = 0;
      fetch_required = true;
    }
    else c

-- The step to the start of a cluster.
abbrev pub to_cluster : ℕ → DirectoryEntryChain → DirectoryEntryChain
to_cluster cluster_id c = record c {
  cluster_id = cluster_id;
  cluster_offset = 0;
  dir_entry_offset = 0;
  fetch_required = true;
}

-- The 32 bytes at an index of a sector.
abbrev pub raw_entry : Block → ℕ → List ℕ
raw_entry buf i = take raw_entry_len (drop (i * raw_entry_len) buf)

-- `FileAttributes::contains`.
abbrev pub contains : (attributes flags : ℕ) → Bool
contains attributes flags = bit_and attributes flags == flags

-- `DirectoryEntryFilter` of src/directory.rs.
pub record DirectoryEntryFilter : Type 0 where
  pub hash : (file_name_hash file_attributes : ℕ) → Bool
  pub file_name_length : ℕ → Bool
  pub file_name : (part : List ℕ) (ordinal : ℕ) (mapping : List ℕ) → Bool

-- `AllPassFilter`.
abbrev pub all_pass : DirectoryEntryFilter
all_pass = record {
  hash = λ file_name_hash file_attributes. true;
  file_name_length = λ length. true;
  file_name = λ part ordinal mapping. true;
}

-- The comparison of `ExactNameFilter::file_name`, as far as both names go.
unfoldable pub same_name : (mapping left right : List ℕ) → Bool
same_name mapping [] right = true
same_name mapping (l ∷ left) [] = true
same_name mapping (l ∷ left) (r ∷ right) =
    upcase mapping l == upcase mapping r && same_name mapping left right

-- The filter of `ExactNameFilter::new` for a name that is accepted.
abbrev pub attributes_fit : Option ℕ → ℕ → Bool
attributes_fit none file_attributes = true
attributes_fit (some attributes) file_attributes = contains file_attributes attributes

unfoldable pub exact_filter : (name : List ℕ) → Option ℕ → ℕ × ℕ → DirectoryEntryFilter
unfolding same_name
exact_filter name attributes (name_hash, name_count) = record {
  hash = λ file_name_hash file_attributes.
      name_hash == file_name_hash && attributes_fit attributes file_attributes;
  file_name_length = λ length. name_count == length;
  file_name = λ part ordinal mapping. same_name mapping (drop ordinal name) part;
}

-- `ExactNameFilter::new`, with `.map_err(|e| ExFatError::InvalidFileName { reason: e })`.
abbrev pub or_invalid_name : {E A B : Type 0} → Result String A → (A → B) → Result (ExFatError E) B
or_invalid_name (ok a) f = ok (f a)
or_invalid_name (err reason) f = err (ExFatError.invalid_file_name reason)
or_invalid_name stuck f = stuck

unfoldable pub exact_name_filter :
    {E : Type 0} → (name mapping : List ℕ) → Option ℕ → Result (ExFatError E) DirectoryEntryFilter
exact_name_filter name mapping attributes =
    or_invalid_name (encode_utf16_upcase_and_hash name mapping) (exact_filter name attributes)

-- The details of a file, of its file entry and its stream extension.
unfoldable pub file_details_of : FileDirEntry → StreamExtensionDirEntry → Location → FileDetails
file_details_of file_dir_entry stream_entry location = record {
  first_cluster = stream_entry.first_cluster;
  data_length = stream_entry.data_length;
  valid_data_length = stream_entry.valid_data_length;
  attributes = file_dir_entry.file_attributes;
  location = location;
  flags = stream_entry.general_secondary_flags;
  secondary_count = file_dir_entry.secondary_count;
  created = created file_dir_entry;
  modified = modified file_dir_entry;
  accessed = accessed file_dir_entry;
}

-- How the reading of a name ends: the chain is over or has another entry, the name does not fit the
-- filter, or it is read.
pub data NameRead : Type 0 where
  ended : NameRead
  mismatch : NameRead
  name : List ℕ → NameRead

module _ (d : BlockDevice) (size : ℕ) where
  abbrev pub WalkAction : Type 0 → Type 0
  WalkAction A = Action (ExFatError d.Error) (Walk d.State) A

  abbrev pub on_disk : {A : Type 0} → DiskAction d size A → WalkAction A
  on_disk m = zoom (λ w. w.disk) (λ s w. record w { disk = s }) m

  abbrev pub change_chain : (DirectoryEntryChain → DirectoryEntryChain) → WalkAction (Unit {0})
  change_chain f = modify (λ w. record w { chain = f w.chain })

  abbrev pub returning : {A : Type 0} → Result (ExFatError d.Error) A → WalkAction A
  returning r w = (r, w)

  -- `get_current_sector_id`.
  unfoldable pub get_current_sector_id : WalkAction ℕ
  get_current_sector_id w =
      (returning (get_heap_sector_id w.chain.fs w.chain.cluster_id) >>= λ sector_id.
      pure (sector_id + w.chain.cluster_offset))
        w

  -- The block of `next` that reads the sector.
  unfoldable pub fetch_sector : WalkAction (Unit {0})
  fetch_sector w =
      let fetched =
        (get_current_sector_id >>= λ sector_id.
        on_disk (on_data d size (fetch d sector_id)) >>= λ slot.
        change_chain (λ c. record c { buf = slot; fetch_required = false }))
          w in
      if w.chain.fetch_required then fetched else (ok tt, w)

  -- The end of `next`: the entry and its location.
  unfoldable pub take_entry : WalkAction (Option (List ℕ × Location))
  take_entry = fetch_sector >> get_current_sector_id >>= λ sector_id.
      gets (λ (w : Walk d.State). w.chain) >>= λ c.
      change_chain
        (λ c. record c { dir_entry_offset = c.dir_entry_offset + 1; cursor = c.cursor + 1 })
      >> pure (
          some (
            raw_entry c.buf c.dir_entry_offset,
            record { sector_id = sector_id; dir_entry_offset = c.dir_entry_offset },
          ))

  abbrev pub in_cluster : Option ℕ → WalkAction (Option (List ℕ × Location))
  in_cluster none = pure none
  in_cluster (some cluster_id) = change_chain (to_cluster cluster_id) >> take_entry

  -- `DirectoryEntryChain::next`.
  unfoldable pub next : WalkAction (Option (List ℕ × Location))
  next w =
      let moved = record w { chain = next_sector size w.chain } in
      let along =
        (on_disk (on_fat d size (next_cluster_in_fat_chain d size w.chain.cluster_id))
            >>= in_cluster)
          moved in
      let here = take_entry moved in
      if at_last w.chain
      then (ok none, w)
      else if leb w.chain.fs.sectors_per_cluster moved.chain.cluster_offset
      then along
      else here

  -- `next_file_dir_entry`. Nothing bounds the loop of the source, so its rounds are an argument.
  abbrev pub by_type :
      WalkAction (Option (FileDirEntry × Location))
      → List ℕ
      → Location
      → EntryType
      → WalkAction (Option (FileDirEntry × Location))
  by_type again entry location end_of_directory =
      if is_end_of_directory entry then pure none else again
  by_type again entry location file_and_directory = pure (some (parse_file entry, location))
  by_type again entry location other = again

  abbrev pub file_or_next :
      WalkAction (Option (FileDirEntry × Location))
      → Option (List ℕ × Location)
      → WalkAction (Option (FileDirEntry × Location))
  file_or_next again none = pure none
  file_or_next again (some (entry, location)) =
      by_type again entry location (entry_type_of (byte_at entry 0))

  unfoldable pub next_file_dir_entry : ℕ → WalkAction (Option (FileDirEntry × Location))
  next_file_dir_entry zero = out_of_rounds
  next_file_dir_entry (suc rounds) = next >>= file_or_next (next_file_dir_entry rounds)

  module _ (filter : DirectoryEntryFilter) (mapping : List ℕ) (name_length : ℕ) where
    -- One round of the loop `'inner` of `next_file_entry`, at a name entry: `units` are those read
    -- before. The loop ends with the name, or goes on, or leaves with a mismatch.
    abbrev pub at_name :
        List ℕ → (List ℕ → WalkAction (NameRead)) → Option FileNameDirEntry → WalkAction NameRead
    at_name units rest none = pure NameRead.ended
    at_name units rest (some file_name_entry) =
        let cursor = length units in
        let len = min (name_length - cursor) (length file_name_entry.file_name) in
        let part = take len file_name_entry.file_name in
        let further = rest (units ++ part) in
        if not (filter.file_name part cursor mapping)
        then pure NameRead.mismatch
        else if cursor + len == name_length
        then pure (NameRead.name (units ++ part))
        else further

    abbrev pub at_entry :
        List ℕ → (List ℕ → WalkAction NameRead) → Option (List ℕ × Location) → WalkAction NameRead
    at_entry units rest none = pure NameRead.ended
    at_entry units rest (some (entry, location)) =
        at_name units rest (try_into parse_name filename entry)

    unfoldable pub read_name : ℕ → List ℕ → WalkAction NameRead
    read_name zero units = out_of_rounds
    read_name (suc rounds) units = next >>= at_entry units (read_name rounds)

  -- The name for the caller's buffer, of `room` bytes, if there is one.
  abbrev pub decoded_name : Option ℕ → List ℕ → Result (ExFatError d.Error) (List ℕ)
  decoded_name none units = ok []
  decoded_name (some room) units = decode_utf16_to_utf8 units room []

  module _ (limit : ℕ) (filter : DirectoryEntryFilter) (mapping : List ℕ)
      (name_buf : Option ℕ) where
    abbrev pub Found : Type 0
    Found = Option (FileDetails × List ℕ)

    abbrev pub after_name :
        WalkAction Found
        → FileDirEntry
        → StreamExtensionDirEntry
        → Location
        → NameRead
        → WalkAction Found
    after_name again file stream location NameRead.ended = pure none
    after_name again file stream location NameRead.mismatch = again
    after_name again file stream location (NameRead.name units) =
        returning (decoded_name name_buf units) >>= λ name.
        pure (some (file_details_of file stream location, name))

    abbrev pub after_stream :
        WalkAction Found
        → FileDirEntry
        → Location
        → Option StreamExtensionDirEntry
        → WalkAction Found
    after_stream again file location none = pure none
    after_stream again file location (some stream) =
        if not (filter.hash stream.name_hash file.file_attributes)
        then again
        else if not (filter.file_name_length stream.name_length)
        then again
        else (read_name filter mapping stream.name_length (stream.name_length + 1) []
            >>= after_name again file stream location)

    abbrev pub at_stream :
        WalkAction Found → FileDirEntry → Location → Option (List ℕ × Location) → WalkAction Found
    at_stream again file location none = pure none
    at_stream again file location (some (entry, _)) =
        after_stream again file location (try_into parse_stream stream_extension entry)

    abbrev pub at_file : WalkAction Found → Option (FileDirEntry × Location) → WalkAction Found
    at_file again none = pure none
    at_file again (some (file, location)) = next >>= at_stream again file location

    -- `next_file_entry`: the details of the next entry set that passes the filter, and its name as
    -- bytes. `limit` bounds the rounds of `next_file_dir_entry`.
    unfoldable pub next_file_entry : ℕ → WalkAction Found
    next_file_entry zero = out_of_rounds
    next_file_entry (suc rounds) = next_file_dir_entry limit >>= at_file (next_file_entry rounds)
