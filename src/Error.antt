-- ===== src/Error.antt =====
-- src/error.rs, with the errors of src/boot_sector.rs and src/directory_entry.rs that it wraps,
-- and the `Result` of the library's operations.
use exfat_slim.Base.{ℕ, Bool, String}

-- `boot_sector::Error`.
pub data BootSectorError : Type 0 where
  invalid_jump_boot : BootSectorError
  invalid_file_system_name : BootSectorError
  invalid_boot_signature : BootSectorError
  invalid_bytes_per_sector_shift : ℕ → BootSectorError
  invalid_sectors_per_cluster_shift : ℕ → BootSectorError

-- `directory_entry::Error`.
pub data DirectoryEntryError : Type 0 where
  invalid_utf16_string : String → DirectoryEntryError

-- `E` is the error of the block device.
pub data ExFatError (E : Type 0) : Type 0 where
  io : E → ExFatError E
  directory_entry : DirectoryEntryError → ExFatError E
  not_ex_fat : BootSectorError → ExFatError E
  end_of_fat_chain : ExFatError E
  invalid_utf16_string : String → ExFatError E
  invalid_file_name : String → ExFatError E
  invalid_file_system : String → ExFatError E
  file_not_found : ExFatError E
  directory_not_found : ExFatError E
  utf8_error : ExFatError E
  disk_full : ExFatError E
  invalid_cluster_id : ℕ → ExFatError E
  invalid_sector_id : ℕ → ExFatError E
  directory_not_empty : ExFatError E
  write_not_enabled : ExFatError E
  read_not_enabled : ExFatError E
  already_exists : ExFatError E
  seek_out_of_range : ExFatError E
  invalid_allocation : (lba index : ℕ) (allocated allocated_new : Bool) → ExFatError E
  invalid_options : ExFatError E
  unexpected : String → ExFatError E
  file_name_buffer_too_small : ExFatError E
  directory_full : ExFatError E

-- `Result`. `stuck` is no Rust value: the code panics, or a loop with a bound on its rounds ran out.
pub data Result (E A : Type 0) : Type 0 where
  ok : A → Result E A
  err : E → Result E A
  stuck : Result E A
