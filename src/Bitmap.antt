-- ===== src/Bitmap.antt =====
-- src/allocation.rs: where the bit of a cluster stands in the allocation bitmap, how a run of
-- clusters is cut into chunks of one sector each, and how the bits of a chunk are set or cleared.
-- `SIZE`, the bytes of a sector, is the argument `size`. A range of bits is its start and its end.
-- Clusters below 2, for which the source subtracts past 0, are kept out by its callers.
pub mod Chunks
pub mod Bits
mod Tests
use exfat_slim.Base.{
  ℕ, zero, suc, ◌+◌, ◌-◌, ◌*◌, ◌/◌, ◌%◌, ◌^◌, Bool, Option, none, some, List, [], ◌∷◌, set, min,
  bit_and, bit_or, ◌==◌, if◌then◌else◌,
}
use exfat_slim.Word.{byte_at}

abbrev pub first_cluster_id : ℕ
first_cluster_id = 2

pub record BitmapPos : Type 0 where
  pub sector : ℕ
  pub bit : ℕ

-- `CLUSTERS_PER_SECTOR`.
abbrev pub clusters_per_sector : ℕ → ℕ
clusters_per_sector size = size * 8

-- `BitmapPos::of`.
unfoldable pub pos_of : (size cluster_id : ℕ) → BitmapPos
pos_of size cluster_id =
    let index = cluster_id - first_cluster_id in
    record { sector = index / clusters_per_sector size; bit = index % clusters_per_sector size }

-- `BitmapPos::cluster`.
unfoldable pub cluster : ℕ → BitmapPos → ℕ
cluster size p = p.sector * clusters_per_sector size + p.bit + first_cluster_id

unfoldable pub first_cluster_of : (size sector : ℕ) → ℕ
unfolding cluster
first_cluster_of size sector = cluster size (record { sector = sector; bit = 0 })

pub record BitmapChunk : Type 0 where
  pub sector : ℕ
  pub start : ℕ
  pub end : ℕ

pub record BitmapRunChunks : Type 0 where
  pub cluster_id : ℕ
  pub remaining : ℕ

-- `BitmapRunChunks::new`.
abbrev pub run_chunks : (first_cluster cluster_count : ℕ) → BitmapRunChunks
run_chunks first_cluster cluster_count = record {
  cluster_id = first_cluster;
  remaining = cluster_count;
}

-- `BitmapRunChunks::next`.
unfoldable pub next_chunk : ℕ → BitmapRunChunks → Option BitmapChunk × BitmapRunChunks
unfolding pos_of
next_chunk size r =
    let p = pos_of size r.cluster_id in
    let taken = min (clusters_per_sector size - p.bit) r.remaining in
    if r.remaining == 0 then (none, r) else (
      some (record { sector = p.sector; start = p.bit; end = p.bit + taken }),
      record { cluster_id = r.cluster_id + taken; remaining = r.remaining - taken },
    )

-- The chunks that a `for` loop over the iterator sees, in `rounds` rounds at most.
abbrev pub and_rest :
    (BitmapRunChunks → List BitmapChunk) → Option BitmapChunk × BitmapRunChunks → List BitmapChunk
and_rest rest (none, r) = []
and_rest rest (some chunk, r) = chunk ∷ rest r

unfoldable pub chunks : (size rounds : ℕ) → BitmapRunChunks → List BitmapChunk
chunks size zero r = []
chunks size (suc rounds) r = and_rest (chunks size rounds) (next_chunk size r)

-- One round of `set_bit_range`.
unfoldable pub set_bit : ℕ → Bool → List ℕ → List ℕ
set_bit bit on block =
    let byte = bit / 8 in
    let mask = 2 ^ (bit % 8) in
    let old = byte_at block byte in
    set block byte (if on then bit_or old mask else bit_and old (255 - mask))

-- `Allocator::set_bit_range`, for `count` bits from `start` on.
unfoldable pub set_bit_range : (count start : ℕ) → Bool → List ℕ → List ℕ
set_bit_range zero start on block = block
set_bit_range (suc count) start on block =
    set_bit_range count (suc start) on (set_bit start on block)

unfoldable pub is_free : (byte bit_in_byte : ℕ) → Bool
is_free byte bit_in_byte = bit_and byte (2 ^ bit_in_byte) == 0
