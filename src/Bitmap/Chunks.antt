-- ===== src/Bitmap/Chunks.antt =====
-- Positions in the bitmap and the chunks of a run.
use exfat_slim.Base.{
  ℕ, zero, suc, ◌+◌, ◌-◌, ◌*◌, ◌/◌, ◌%◌, ◌≤◌, ◌<◌, ◌≡◌, refl, ◌∙◌, Bool, Bool-cases, true, false,
  ◌&&◌, ◌||◌, inl, inr, none, some, List, [], ◌∷◌, min, ltb, leb, ◌==◌, arith, window, div_mono,
  div_mod_unique,
}
use exfat_slim.Bitmap.{
  BitmapPos, pos_of, cluster, BitmapChunk, BitmapRunChunks, next_chunk, chunks, clusters_per_sector,
}
use native.Mathlib.Nat.{div-add-mod', mod-lt}

-- The position of a cluster and the cluster of a position are inverse, in sectors of `size` bytes: the
-- position of a cluster that has a bit is one of the eight bits of each byte of a sector, and leads
-- back to the cluster, and every such bit of every sector is the position of its cluster.
pub cluster-pos_of :
    (size cluster_id : ℕ) (p : BitmapPos)
    → 0 < size
    → 2 ≤ cluster_id
    → p.bit < 8 * size
    → ((pos_of size cluster_id).bit < 8 * size)
      × (cluster size (pos_of size cluster_id) ≡ cluster_id)
      × (pos_of size (cluster size p) ≡ p)
unfolding pos_of cluster
cluster-pos_of size cluster_id p pos h hp =
    let (q, r) =
      div_mod_unique (size * 8) (cluster size p - 2) p.sector p.bit (omega arith) (omega arith) in
    (
      omega (arith, mod-lt (cluster_id - 2) {m = size * 8} (omega arith)),
      omega (arith, div-add-mod' (cluster_id - 2) (size * 8)),
      λ i. record { sector = q i; bit = r i },
    )

-- A chunk has the bit of a cluster.
unfoldable pub in_chunk : ℕ → BitmapChunk → ℕ → Bool
unfolding pos_of
in_chunk size chunk x =
    let p = pos_of size x in
    p.sector == chunk.sector && (leb chunk.start p.bit && ltb p.bit chunk.end)

unfoldable pub in_chunks : ℕ → List BitmapChunk → ℕ → Bool
unfolding in_chunk
in_chunks size [] x = false
in_chunks size (chunk ∷ rest) x = in_chunk size chunk x || in_chunks size rest x

-- Every chunk is a range of bits within one sector.
abbrev pub AreProper : ℕ → List BitmapChunk → Type 0
AreProper size [] = Unit {0}
AreProper size (chunk ∷ rest) =
    (chunk.start < chunk.end) × (chunk.end ≤ clusters_per_sector size) × AreProper size rest

module _ (size : ℕ) (hs : 0 < size) where
  -- The chunk that `next` takes, while clusters are left.
  taken : BitmapRunChunks → ℕ
  taken r = min (size * 8 - (r.cluster_id - 2) % (size * 8)) r.remaining

  first : BitmapRunChunks → BitmapChunk
  first r = record {
    sector = (r.cluster_id - 2) / (size * 8);
    start = (r.cluster_id - 2) % (size * 8);
    end = (r.cluster_id - 2) % (size * 8) + taken r;
  }

  rest : BitmapRunChunks → BitmapRunChunks
  rest r = record { cluster_id = r.cluster_id + taken r; remaining = r.remaining - taken r }

  next_chunk-first :
      (r : BitmapRunChunks) → 0 < r.remaining → next_chunk size r ≡ (some (first r), rest r)
  unfolding next_chunk first rest taken pos_of
  next_chunk-first r h = let e : (r.remaining == 0) ≡ false = ground arith in rw e refl

  next_chunk-none : (r : BitmapRunChunks) → r.remaining ≡ 0 → next_chunk size r ≡ (none, r)
  unfolding next_chunk
  next_chunk-none r h = let e : (r.remaining == 0) ≡ true = ground arith in rw e refl

  taken-bounds :
      (r : BitmapRunChunks)
      → 0 < r.remaining
      → (0 < taken r)
        × (taken r ≤ r.remaining)
        × (taken r ≤ size * 8 - (r.cluster_id - 2) % (size * 8))
  unfolding taken
  taken-bounds r h =
      let m = mod-lt (r.cluster_id - 2) {m = size * 8} (omega arith) in
      (omega arith, omega arith, omega arith)

  in_chunk-first :
      (r : BitmapRunChunks) (x : ℕ)
      → 0 < r.remaining
      → 2 ≤ r.cluster_id
      → 2 ≤ x
      → in_chunk size (first r) x ≡ (leb r.cluster_id x && ltb x (r.cluster_id + taken r))
  unfolding in_chunk first pos_of
  in_chunk-first r x h hc hx =
      window (size * 8) (r.cluster_id - 2) (taken r) (x - 2) (omega arith) ((taken-bounds r h).2)
      ∙ ground arith

  first-start_lt_end :
      (r : BitmapRunChunks)
      → 0 < r.remaining
      → ((first r).start < (first r).end) × ((first r).end ≤ clusters_per_sector size)
  unfolding first
  first-start_lt_end r h =
      let (pos, le, fits) = taken-bounds r h in
      let m = mod-lt (r.cluster_id - 2) {m = size * 8} (omega arith) in (omega arith, omega arith)

  rest-fields :
      (r : BitmapRunChunks)
      → ((rest r).cluster_id ≡ r.cluster_id + taken r)
        × ((rest r).remaining ≡ r.remaining - taken r)
  unfolding rest
  rest-fields r = (refl, refl)

  -- The chunks of a run of clusters have the bits of exactly its clusters, each chunk within one
  -- sector; as many rounds as the run has clusters are enough.
  pub chunks-in_chunks :
      (rounds : ℕ) (r : BitmapRunChunks)
      → r.remaining ≤ rounds
      → 2 ≤ r.cluster_id
      → AreProper size (chunks size rounds r)
        × ((x : ℕ)
            → 2 ≤ x
            → in_chunks size (chunks size rounds r) x
              ≡ (leb r.cluster_id x && ltb x (r.cluster_id + r.remaining)))
  unfolding chunks in_chunks
  chunks-in_chunks zero r h hc = (tt, λ x hx. ground arith)
  chunks-in_chunks (suc rounds) r h hc = elim (Bool-cases (r.remaining == 0)) [
    | inl e ↦ rw (next_chunk-none r (ground arith)) (tt, λ x hx. ground arith)
    | inr e ↦
        let left : 0 < r.remaining = ground arith in
        let (pos, le, fits) = taken-bounds r left in
        let (start, end) = first-start_lt_end r left in
        let (ec, er) = rest-fields r in
        let (proper, bits) =
          chunks-in_chunks rounds (rest r) (omega (arith, er)) (omega (arith, ec)) in
        rw (next_chunk-first r left) (
          (start, end, proper),
          λ x hx. ground (arith, ec, er, bits x hx, in_chunk-first r x left hc hx),
        )
  ]

-- No chunk lies in a sector behind `bound`.
abbrev pub SectorsUpTo : ℕ → List BitmapChunk → Type 0
SectorsUpTo bound [] = Unit {0}
SectorsUpTo bound (chunk ∷ rest) = (chunk.sector ≤ bound) × SectorsUpTo bound rest

module _ (size : ℕ) (hs : 0 < size) where
  -- The chunks of a run lie in sectors up to that of its last cluster.
  pub chunks-SectorsUpTo :
      (rounds : ℕ) (r : BitmapRunChunks) (last : ℕ)
      → 2 ≤ r.cluster_id
      → r.cluster_id + r.remaining ≤ suc last
      → SectorsUpTo ((pos_of size last).sector) (chunks size rounds r)
  unfolding chunks pos_of first
  chunks-SectorsUpTo zero r last hc h = tt
  chunks-SectorsUpTo (suc rounds) r last hc h = elim (Bool-cases (r.remaining == 0)) [
    | inl e ↦ rw (next_chunk-none size hs r (ground arith)) tt
    | inr e ↦
        let left : 0 < r.remaining = ground arith in
        let (pos, le, fits) = taken-bounds size hs r left in
        let (ec, er) = rest-fields size hs r in
        rw (next_chunk-first size hs r left) (
          div_mono (size * 8) (r.cluster_id - 2) (last - 2) (omega arith) (omega arith),
          chunks-SectorsUpTo rounds (rest size hs r) last (omega (arith, ec))
              (omega (arith, ec, er)),
        )
  ]
