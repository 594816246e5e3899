-- ===== src/OpenOptions.antt =====
-- src/file.rs: how a file is to be opened, and what a `File` keeps of its directory entries.
use exfat_slim.Base.{ℕ, Bool, false}
use exfat_slim.Timestamp.{EncodedTimestamp}

pub record OpenOptions : Type 0 where
  pub read : Bool
  pub write : Bool
  pub append : Bool
  pub truncate : Bool
  pub create : Bool
  pub create_new : Bool

-- `OpenOptions::new`, and the setters.
abbrev pub no_options : OpenOptions
no_options = record {
  read = false;
  write = false;
  append = false;
  truncate = false;
  create = false;
  create_new = false;
}

abbrev pub set_read : Bool → OpenOptions → OpenOptions
set_read on o = record o { read = on }

abbrev pub set_write : Bool → OpenOptions → OpenOptions
set_write on o = record o { write = on }

abbrev pub set_append : Bool → OpenOptions → OpenOptions
set_append on o = record o { append = on }

abbrev pub set_truncate : Bool → OpenOptions → OpenOptions
set_truncate on o = record o { truncate = on }

abbrev pub set_create : Bool → OpenOptions → OpenOptions
set_create on o = record o { create = on }

abbrev pub set_create_new : Bool → OpenOptions → OpenOptions
set_create_new on o = record o { create_new = on }

-- `Location` of src/directory_entry.rs.
pub record Location : Type 0 where
  pub sector_id : ℕ
  pub dir_entry_offset : ℕ

pub record FileDetails : Type 0 where
  pub first_cluster : ℕ
  pub data_length : ℕ
  pub valid_data_length : ℕ
  pub attributes : ℕ
  pub location : Location
  pub flags : ℕ
  pub secondary_count : ℕ
  pub created : EncodedTimestamp
  pub modified : EncodedTimestamp
  pub accessed : EncodedTimestamp
