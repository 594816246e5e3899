-- ===== src/File/Position.antt =====
-- The place of the cursor in a file whose clusters follow one another.
use exfat_slim.Base.{
  ℕ, ◌+◌, ◌-◌, ◌*◌, ◌/◌, ◌%◌, ◌^◌, ◌≤◌, ◌<◌, ◌≡◌, refl, ap, ◌∙◌, Bool-cases, true, false, ◌&&◌, ◌⊎◌,
  inl, inr, List, leb, ltb, ◌==◌, if◌then◌else◌, div_mod_unique, arith,
}
use native.Mathlib.Nat.{
  div-add-mod', mod-lt, mul-add-div_right, mod-eq_of_lt, mul-le-mul_right, add-mul, mul_assoc,
}
use exfat_slim.Word.{u32}
use exfat_slim.Error.{Result, ok, err, ExFatError, DirectoryEntryError}
use exfat_slim.Action.{◌>>◌}
use exfat_slim.Device.{BlockDevice}
use exfat_slim.BootSector.{get_heap_sector_id}
use exfat_slim.Allocator.{StoredChain}
use exfat_slim.File.{
  File, Opened, cluster_length_of, move_file_cursor, next_in_chain, next_cluster_if_required,
  current_sector_id,
}

-- The cursor is in the current cluster, and the bytes that remain there are counted.
pub record InCluster (first count cluster_length : ℕ) (f : File) : Type 0 where
  pub cluster : f.current_cluster ≡ first + f.cursor / cluster_length
  pub remaining : f.remaining_bytes_in_cluster ≡ cluster_length - f.cursor % cluster_length
  pub inside : f.cursor / cluster_length < count

-- The cursor has just left the current cluster.
pub record AtBoundary (first count cluster_length : ℕ) (f : File) : Type 0 where
  pub cluster : f.current_cluster + 1 ≡ first + f.cursor / cluster_length
  pub after_first : first ≤ f.current_cluster
  pub remaining : f.remaining_bytes_in_cluster ≡ 0
  pub even : f.cursor % cluster_length ≡ 0

abbrev pub IsPlaced : (first count cluster_length : ℕ) → File → Type 0
IsPlaced first count cluster_length f =
    InCluster first count cluster_length f ⊎ AtBoundary first count cluster_length f

-- The subtraction of the bytes moved, where no more are taken than remain.
sub_u32 : (r n : ℕ) → n ≤ r → r < 2 ^ 32 → u32 (r + 2 ^ 32 - u32 n) ≡ r - n
sub_u32 r n h small = omega arith

-- Moving the cursor by no more bytes than remain in the cluster keeps its place: it stays in the
-- cluster, or has just left it. The length of a cluster is a number of 32 bits.
pub move_file_cursor-IsPlaced :
    (first count cluster_length num_bytes : ℕ) (f : File)
    → 0 < cluster_length
    → cluster_length < 2 ^ 32
    → num_bytes ≤ f.remaining_bytes_in_cluster
    → InCluster first count cluster_length f
    → IsPlaced first count cluster_length (move_file_cursor num_bytes f)
unfolding move_file_cursor
move_file_cursor-IsPlaced first count cl n f pos small h v =
    let whole = div-add-mod' f.cursor cl in
    let left : u32 (f.remaining_bytes_in_cluster + 2 ^ 32 - u32 n)
        ≡ f.remaining_bytes_in_cluster - n =
      sub_u32 f.remaining_bytes_in_cluster n h (omega (arith, v.remaining)) in
    elim (Bool-cases (ltb (f.cursor % cl + n) cl)) [
      | inl within ↦
          let (q, r) =
            div_mod_unique cl (f.cursor + n) (f.cursor / cl) (f.cursor % cl + n) (ground arith)
              (omega (arith, whole)) in
          inl (record {
            cluster = omega (arith, v.cluster, q);
            remaining = omega (arith, left, v.remaining, r);
            inside = omega (arith, v.inside, q);
          })
      | inr out ↦
          let full : f.cursor % cl + n ≡ cl = ground (arith, v.remaining, mod-lt f.cursor pos) in
          let (q, r) =
            div_mod_unique cl (f.cursor + n) (f.cursor / cl + 1) 0 pos
              (omega (arith, whole, full, add-mul (f.cursor / cl) 1 cl)) in
          inr (record {
            cluster = omega (arith, v.cluster, q);
            after_first = omega (arith, v.cluster);
            remaining = omega (arith, left, v.remaining, full);
            even = r;
          })
    ]

-- The file with the cluster of its cursor as the current one.
abbrev pub settled : {D : Type 0} → (first : ℕ) → Opened D → Opened D
settled first o = record o {
  file = record o.file {
    current_cluster = first + o.file.cursor / cluster_length_of o;
    remaining_bytes_in_cluster = cluster_length_of o - o.file.cursor % cluster_length_of o;
  };
}

pub settled_by :
    {D : Type 0} (first cluster_id remaining : ℕ) (o : Opened D)
    → cluster_id ≡ first + o.file.cursor / cluster_length_of o
    → remaining ≡ cluster_length_of o - o.file.cursor % cluster_length_of o
    → record o {
      file = record o.file { current_cluster = cluster_id; remaining_bytes_in_cluster = remaining };
    }
      ≡ settled first o
settled_by first cluster_id remaining o e e' = λ i. record o {
  file = record o.file { current_cluster = e i; remaining_bytes_in_cluster = e' i };
}

module _ (d : BlockDevice) (size : ℕ) (collect : List ℕ → Result DirectoryEntryError (List ℕ))
    (first count : ℕ) (o : Opened d.State)
    (contiguous : o.file.chain ≡ StoredChain.contiguous first count)
    (pos : 0 < cluster_length_of o) where
  next_in_chain-contiguous :
      (chain : StoredChain) (current_cluster : ℕ)
      → chain ≡ StoredChain.contiguous first count
      → next_in_chain d size collect chain current_cluster o ≡ (
          if leb first (current_cluster + 1) && ltb (current_cluster + 1) (first + count)
          then (ok (current_cluster + 1), o)
          else (err ExFatError.end_of_fat_chain, o))
  next_in_chain-contiguous chain current_cluster e = rw e refl

  -- The step to the next cluster of a contiguous chain, where the cursor has a place: it settles the
  -- file in the cluster of its cursor, if the chain reaches so far, and fails otherwise.
  pub next_cluster_if_required-settled :
      IsPlaced first count (cluster_length_of o) o.file
      → next_cluster_if_required d size collect o ≡ (
          if ltb (o.file.cursor / cluster_length_of o) count
          then (ok tt, settled first o)
          else (err ExFatError.end_of_fat_chain, o))
  unfolding next_cluster_if_required
  next_cluster_if_required-settled (inl v) =
      let more : (o.file.remaining_bytes_in_cluster == 0) ≡ false =
        ground (arith, v.remaining, mod-lt o.file.cursor pos) in
      let within : ltb (o.file.cursor / cluster_length_of o) count ≡ true =
        ground (arith, v.inside) in
      rw more (rw within (ap (λ t. (ok tt, t)) (settled_by first _ _ o v.cluster v.remaining)))
  next_cluster_if_required-settled (inr v) =
      let none_left : (o.file.remaining_bytes_in_cluster == 0) ≡ true =
        ground (arith, v.remaining) in
      elim (Bool-cases (ltb (o.file.cursor / cluster_length_of o) count)) [
        | inl within ↦
            let next : (leb first (o.file.current_cluster + 1)
                  && ltb (o.file.current_cluster + 1) (first + count))
                ≡ true =
              ground (arith, v.cluster, v.after_first, within) in
            rw none_left (
              rw (next_in_chain-contiguous o.file.chain o.file.current_cluster contiguous) (
                rw next (
                  rw within (
                    ap (λ t. (ok tt, t))
                      (settled_by first _ _ o v.cluster (omega (arith, v.even)))))))
        | inr beyond ↦
            let next : (leb first (o.file.current_cluster + 1)
                  && ltb (o.file.current_cluster + 1) (first + count))
                ≡ false =
              ground (arith, v.cluster, v.after_first, beyond) in
            rw none_left (
              rw (next_in_chain-contiguous o.file.chain o.file.current_cluster contiguous)
                (rw next (rw beyond refl)))
      ]

  module _ (heap : 2 ≤ first) (sectors : cluster_length_of o ≡ o.fsys.fs.sectors_per_cluster * size)
      (sized : 0 < size) (small : cluster_length_of o < 2 ^ 32)
      (addressed : o.fsys.fs.cluster_heap_offset
          + (first - 2 + count) * o.fsys.fs.sectors_per_cluster
        < 2 ^ 32) where
    -- The sector of the heap at which the file starts.
    abbrev pub start_sector : ℕ
    start_sector = o.fsys.fs.cluster_heap_offset + (first - 2) * o.fsys.fs.sectors_per_cluster

    by_sectors :
        o.file.cursor / size
        ≡ o.file.cursor / cluster_length_of o * o.fsys.fs.sectors_per_cluster
          + o.file.cursor % cluster_length_of o / size
    by_sectors =
        ap (λ (n : ℕ). n / size)
          (omega (
            arith,
            div-add-mod' o.file.cursor (cluster_length_of o),
            ap (λ (n : ℕ). o.file.cursor / cluster_length_of o * n) sectors,
            mul_assoc (o.file.cursor / cluster_length_of o) o.fsys.fs.sectors_per_cluster size,
          ))
        ∙ mul-add-div_right {m = size} sized _ _

    in_heap :
        o.file.cursor / cluster_length_of o < count
        → u32 (
            o.fsys.fs.cluster_heap_offset
            + u32
                ((first + o.file.cursor / cluster_length_of o - 2) * o.fsys.fs.sectors_per_cluster))
          ≡ start_sector + o.file.cursor / cluster_length_of o * o.fsys.fs.sectors_per_cluster
    in_heap h =
        let q = o.file.cursor / cluster_length_of o in
        let spc = o.fsys.fs.sectors_per_cluster in
        let split : (first + q - 2) * spc ≡ (first - 2) * spc + q * spc =
          ap (λ (n : ℕ). n * spc) (omega arith) ∙ add-mul (first - 2) q spc in
        omega (
          arith,
          split,
          addressed,
          mul-le-mul_right {m = first + q - 2} {n = first - 2 + count} spc (omega arith),
        )

    current_sector_id-settled :
        o.file.cursor / cluster_length_of o < count
        → current_sector_id d size collect (settled first o)
          ≡ (ok (start_sector + o.file.cursor / size), settled first o)
    unfolding current_sector_id get_heap_sector_id
    current_sector_id-settled h =
        let enough : ltb (first + o.file.cursor / cluster_length_of o) 2 ≡ false =
          ground (arith, heap) in
        let offset : u32 (o.file.cursor % cluster_length_of o)
            ≡ o.file.cursor % cluster_length_of o =
          mod-eq_of_lt (omega (arith, mod-lt o.file.cursor pos, small)) in
        rw enough (
          ap (λ (n : ℕ). (ok n, settled first o))
            (omega (arith, in_heap h, ap (λ (n : ℕ). n / size) offset, by_sectors)))

    -- Before a sector of a file with a contiguous chain is read or written, the step to the next
    -- cluster and the look-up of the sector answer the sector that is `cursor / size` sectors behind
    -- the file's first one, with the cluster of the cursor as the current one; or, at the end of the
    -- chain, they fail and change nothing. The hypotheses: the cursor has a place, a cluster has its
    -- whole number of sectors and less than 2 ^ 32 bytes, and the sectors of the chain have numbers
    -- of 32 bits.
    pub sector_of_cursor :
        IsPlaced first count (cluster_length_of o) o.file
        → (next_cluster_if_required d size collect >> current_sector_id d size collect) o ≡ (
            if ltb (o.file.cursor / cluster_length_of o) count
            then (ok (start_sector + o.file.cursor / size), settled first o)
            else (err ExFatError.end_of_fat_chain, o))
    sector_of_cursor v = elim (Bool-cases (ltb (o.file.cursor / cluster_length_of o) count)) [
      | inl within ↦
          rw (next_cluster_if_required-settled v)
            (rw within (current_sector_id-settled (ground (arith, within))))
      | inr beyond ↦ rw (next_cluster_if_required-settled v) (rw beyond refl)
    ]
