-- ===== src/File/Reading.antt =====
-- src/file.rs: `read`. The bytes that it puts into a buffer of `len` bytes are its result.
use exfat_slim.Base.{
  ℕ, zero, suc, ◌+◌, ◌-◌, ◌/◌, ◌%◌, min, ◌||◌, not, Option, none, some, List, [], ◌∷◌, ◌++◌, take,
  drop, length, replicate, ltb, ◌==◌, if◌then◌else◌,
}
use exfat_slim.Error.{Result, ok, err, stuck, ExFatError, DirectoryEntryError}
use exfat_slim.Action.{pure, out_of_rounds, ◌>>=◌, ◌>>◌, gets}
use exfat_slim.Device.{BlockDevice}
use exfat_slim.SlotCache.{fetch}
use exfat_slim.BootSector.{get_heap_sector_id}
use exfat_slim.Disk.{on_data}
use exfat_slim.File.{
  Opened, FileAction, eof, move_file_cursor, get_cluster_offset, on_disk_of, change_file,
  try_result, mounted, next_cluster_if_required,
}

module _ (d : BlockDevice) (size : ℕ) (collect : List ℕ → Result DirectoryEntryError (List ℕ)) where
  abbrev pub Act : Type 0 → Type 0
  Act A = FileAction d size collect A

  -- The bytes of one round: from the sector, where data is valid, and zeros behind.
  abbrev pub chunk_of : (valid_remainder chunk_bytes sector_id sector_offset : ℕ) → Act (List ℕ)
  chunk_of valid_remainder chunk_bytes sector_id sector_offset o =
      let valid =
        (on_disk_of d size collect (on_data d size (fetch d sector_id)) >>= λ slot.
        pure (take (min chunk_bytes valid_remainder) (drop sector_offset slot)))
          o in
      if ltb 0 valid_remainder then valid else (ok (replicate chunk_bytes 0), o)

  -- One round of the loop of `read`: `bytes` are those read before.
  unfoldable pub read_chunk : (len : ℕ) → List ℕ → Act (List ℕ)
  read_chunk len bytes o =
      let file_remainder = o.file.details.data_length - o.file.cursor in
      let valid_remainder = o.file.details.valid_data_length - o.file.cursor in
      (next_cluster_if_required d size collect >> λ o.
      (try_result d size collect (get_heap_sector_id o.fsys.fs o.file.current_cluster)
          >>= λ start_sector_id.
              let cluster_offset = get_cluster_offset o in
              let sector_id = start_sector_id + cluster_offset / size in
              let sector_offset = cluster_offset % size in
              let chunk_bytes =
                min (min (size - sector_offset) file_remainder) (len - length bytes) in
              chunk_of valid_remainder chunk_bytes sector_id sector_offset >>= λ chunk.
              change_file d size collect (move_file_cursor (length chunk)) >> pure (bytes ++ chunk))
        o)
        o

  abbrev pub or_more : (len : ℕ) → (List ℕ → Act (Option (List ℕ))) → List ℕ → Act (Option (List ℕ))
  or_more len rest bytes o =
      let further = rest bytes o in
      if length bytes == len || eof o.file then (ok (some bytes), o) else further

  -- The loop of `read`.
  unfoldable pub read_loop : (rounds len : ℕ) → List ℕ → Act (Option (List ℕ))
  read_loop zero len bytes = out_of_rounds
  read_loop (suc rounds) len bytes = read_chunk len bytes >>= or_more len (read_loop rounds len)

  -- `read`, into a buffer of `len` bytes: each round reads a byte at least.
  unfoldable pub read : ℕ → Act (Option (List ℕ))
  read len = mounted d size collect >> λ o.
      let reading = read_loop len len [] o in
      if not o.file.open_options.read
      then (err ExFatError.read_not_enabled, o)
      else if eof o.file
      then (ok none, o)
      else if len == 0
      then (ok (some []), o)
      else reading

  -- The loop of `read_to_end_inner`, which ends early where `read` has no more.
  abbrev pub or_filled : (List ℕ → Act (List ℕ)) → List ℕ → Option (List ℕ) → Act (List ℕ)
  or_filled rest filled none = pure filled
  or_filled rest filled (some []) = pure filled
  or_filled rest filled (some (b ∷ bytes)) = rest (filled ++ (b ∷ bytes))

  unfoldable pub fill : (rounds len : ℕ) → List ℕ → Act (List ℕ)
  fill zero len filled o = if ltb (length filled) len then (stuck, o) else (ok filled, o)
  fill (suc rounds) len filled o =
      let more = (read (len - length filled) >>= or_filled (fill rounds len) filled) o in
      if ltb (length filled) len then more else (ok filled, o)

  unfoldable pub read_to_end_inner : ℕ → Act (List ℕ)
  read_to_end_inner len o =
      let filling = fill len len [] o in
      if not o.file.open_options.read then (err ExFatError.read_not_enabled, o) else filling

  -- `read_to_end`: what it appends to the caller's vector.
  unfoldable pub read_to_end : Act (List ℕ)
  read_to_end =
      mounted d size collect
      >> gets (λ (o : Opened d.State). o.file.details.data_length - o.file.cursor)
      >>= read_to_end_inner
