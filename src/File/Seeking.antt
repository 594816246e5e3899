-- ===== src/File/Seeking.antt =====
-- `seek` in a file of either kind of chain.
use exfat_slim.Base.{
  ℕ, zero, suc, ◌+◌, ◌*◌, ◌-◌, ◌/◌, ◌%◌, ◌^◌, ◌≤◌, ◌<◌, ◌≡◌, refl, sym, ap, subst, ◌∙◌, Bool, true,
  false, some, List, [], ◌∷◌, get_elem?, ltb, if◌then◌else◌, arith,
}
use native.Mathlib.Nat.{mod-lt, mod-eq_of_lt}
use exfat_slim.Word.{u32}
use exfat_slim.Error.{Result, ok, DirectoryEntryError}
use exfat_slim.Device.{BlockDevice, Storage}
use exfat_slim.Action.{Ensures, returned, bind, mono, within, ◌>>◌}
use exfat_slim.Allocator.{StoredChain}
use exfat_slim.Fat.{link, next_cluster_in_fat_chain}
use exfat_slim.Disk.{Disk, on_fat}
use exfat_slim.Disk.Sound.{Owner, IsReady, Changes, clear, link_of}
use exfat_slim.Disk.Operations.{next-Changes, Changes-trans, Changes-refl}
use exfat_slim.Disk.Chain.{ChainFrom, end_at, link_to, ChainFrom-frame, consecutive}
use exfat_slim.Disk.Free.{AllWithin, AllWithin-at, AllWithin-eq, Clusters}
use exfat_slim.FileSystem.{FileSystem, disk_of, with_disk, in_run, mount}
use exfat_slim.File.{
  File, Opened, run_of, with_run, cluster_length_of, mounted, seek, seek_in, follow, step_from,
  on_disk_of, set_cluster, update_remaining,
}

when : {A : Type 0} (c : Bool) (x y : A) → c ≡ true → (if c then x else y) ≡ x
when c x y e = rw e refl

module _ (d : BlockDevice) (size : ℕ) (collect : List ℕ → Result DirectoryEntryError (List ℕ)) where
  mount-mounted :
      (s : FileSystem d.State) → s.is_mounted ≡ true → mount d size collect s ≡ (ok tt, s)
  unfolding mount
  mount-mounted s e = when s.is_mounted _ _ e

  mounted-mounted :
      (o : Opened d.State) → o.fsys.is_mounted ≡ true → mounted d size collect o ≡ (ok tt, o)
  mounted-mounted o e = rw (mount-mounted o.fsys e) refl

-- A chain whose links are in the table.
abbrev pub InTable : StoredChain → Type 0
InTable StoredChain.empty = ⊥
InTable (StoredChain.contiguous first cluster_count) = ⊥
InTable (StoredChain.fat first last cluster_count) = Unit {0}

get_elem?-consecutive :
    (count first k x : ℕ) → get_elem? (consecutive first count) k ≡ some x → x ≡ first + k
get_elem?-consecutive zero first k x e = cc
get_elem?-consecutive (suc count) first zero x e = ground (arith, e)
get_elem?-consecutive (suc count) first (suc k) x e =
    omega (arith, get_elem?-consecutive count (suc first) k x e)

module _ {d : BlockDevice} (st : Storage d) (size n start : ℕ) (hn : 0 < n) (four : size ≡ 4 * n)
    (owner : ℕ → Owner) (collect : List ℕ → Result DirectoryEntryError (List ℕ)) where
  -- The disk under an open file.
  abbrev pub disk_under : Opened d.State → Disk d.State
  disk_under o = disk_of (run_of o)

  -- All bits, links and blocks are as they were, and so is the file but for its touched sectors.
  pub record Kept (o t : Opened d.State) : Type 0 where
    pub changes :
        Changes st size n start hn four owner
          (disk_under o)
          (disk_under t)
          (clear st size n start hn four owner (disk_under o))
          (link_of st size n start hn four owner (disk_under o))
    pub file : t.file ≡ record o.file { touched = t.file.touched }
    pub volume : t.fsys.fs ≡ o.fsys.fs

  Kept-refl : (o : Opened d.State) → IsReady st size n start hn four owner (disk_under o) → Kept o o
  Kept-refl o v = record {
    changes = Changes-refl st size n start hn four owner (disk_under o) v;
    file = refl;
    volume = refl;
  }

  Kept-trans : {o t u : Opened d.State} → Kept o t → Kept t u → Kept o u
  Kept-trans {u = u} p q = record {
    changes =
        Changes-trans st size n start hn four owner _ _ p.changes q.changes
          (λ x hx eb el. (eb, el));
    file = q.file ∙ ap (λ (f : File). record f { touched = u.file.touched }) p.file;
    volume = q.volume ∙ p.volume;
  }

  -- One step along the table.
  step-Kept :
      (c : ℕ) (o : Opened d.State)
      → IsReady st size n start hn four owner (disk_under o)
      → AllWithin st size n start hn four owner (disk_under o) (c ∷ [])
      → Ensures
          (λ next t.
            (next ≡ link (link_of st size n start hn four owner (disk_under o) c)) × Kept o t)
          (λ t. Unit {0})
          (on_disk_of d size collect (on_fat d size (next_cluster_in_fat_chain d size c)) o)
  step-Kept c o v (hc, _) =
      within (λ r. with_run r o) through
        (λ next r (e, p, same). (e, record { changes = p; file = refl; volume = same })) (λ r q. tt)
    where
      through :
          Ensures
            (λ next r.
              (next ≡ link (link_of st size n start hn four owner (disk_under o) c))
              × Changes st size n start hn four owner
                  (disk_under o)
                  (disk_of r)
                  (clear st size n start hn four owner (disk_under o))
                  (link_of st size n start hn four owner (disk_under o))
              × (r.fsys.fs ≡ o.fsys.fs))
            (λ r. Unit {0})
            (in_run d size collect (on_fat d size (next_cluster_in_fat_chain d size c)) (run_of o))
      through =
          within (λ s. with_disk s (run_of o))
            (next-Changes st size n start hn four owner c (disk_under o) v hc)
            (λ next s (e, p). (e, p, refl)) (λ s q. tt)

  follow-Kept :
      (k c x : ℕ) (cs : List ℕ) (o : Opened d.State)
      → IsReady st size n start hn four owner (disk_under o)
      → ChainFrom (link_of st size n start hn four owner (disk_under o)) c cs
      → AllWithin st size n start hn four owner (disk_under o) cs
      → get_elem? cs k ≡ some x
      → Ensures
          (λ cluster_id t. (cluster_id ≡ x) × Kept o t)
          (λ t. Unit {0})
          (follow d size collect k c o)
  unfolding follow
  follow-Kept zero c x cs o v (end_at e) w i = returned (ground (arith, i), Kept-refl o v)
  follow-Kept zero c x cs o v (link_to e k) w i = returned (ground (arith, i), Kept-refl o v)
  follow-Kept (suc k) c x cs o v (end_at e) w i = cc
  follow-Kept (suc k) c x cs o v (link_to {c' = c'} {cs = later} e chain) (hc, w) i =
      bind (step-Kept c o v (hc, tt))
        (λ next t (e', p).
          subst
            (λ next.
              Ensures (λ cluster_id u. (cluster_id ≡ x) × Kept o u) (λ u. Unit {0})
                (step_from d size collect (follow d size collect k) next t))
            (sym (e' ∙ e))
            (mono
              (follow-Kept k c' x later t p.changes.ready
                (ChainFrom-frame _
                  (λ y h.
                    p.changes.links_are y
                      (AllWithin-at st size n start hn four owner (disk_under o) later y w h))
                  chain)
                (AllWithin-eq st size n start hn four owner (disk_under o) (disk_under t)
                  p.changes.same_bitmap later w)
                i)
              (λ cluster_id u (e'', q). (e'', Kept-trans p q)) (λ u q. q)))
        (λ t q. tt)

  -- What seeking leaves behind: the cursor stands in cluster `x`, with the rest of that cluster before
  -- it; nothing else of the file but its touched sectors has changed, no bit, no link, no block.
  pub record Sought (x cursor : ℕ) (o t : Opened d.State) : Type 0 where
    pub changes :
        Changes st size n start hn four owner
          (disk_under o)
          (disk_under t)
          (clear st size n start hn four owner (disk_under o))
          (link_of st size n start hn four owner (disk_under o))
    pub file : t.file ≡ record o.file {
      cursor = cursor;
      current_cluster = x;
      remaining_bytes_in_cluster = cluster_length_of o - cursor % cluster_length_of o;
      touched = t.file.touched;
    }

  module _ (cs : List ℕ) (cursor x : ℕ) (o : Opened d.State)
      (ready : IsReady st size n start hn four owner (disk_under o)) (pos : 0 < cluster_length_of o)
      (small : cluster_length_of o < 2 ^ 32)
      (at_x : get_elem? cs (cursor / cluster_length_of o) ≡ some x) where
    abbrev moved : Opened d.State
    moved = record o { file = record o.file { cursor = cursor } }

    offset : u32 (cursor % cluster_length_of o) ≡ cursor % cluster_length_of o
    offset = mod-eq_of_lt (omega (arith, mod-lt cursor pos, small))

    -- Setting the current cluster, where the walk to it has kept everything.
    set-Sought :
        (Q : Type 0) (cluster_id : ℕ) (t : Opened d.State)
        → cluster_id ≡ x
        → Kept moved t
        → Ensures
            (λ _ u. Sought x cursor o u)
            (λ u. Q)
            ((set_cluster d size collect cluster_id >> update_remaining d size collect) t)
    set-Sought Q cluster_id t e p = returned (record {
      changes = p.changes;
      file =
          ap
            (λ (f : File). record f {
              current_cluster = cluster_id;
              remaining_bytes_in_cluster =
                  t.fsys.fs.cluster_length - u32 (f.cursor % t.fsys.fs.cluster_length);
            })
            p.file
          ∙ (λ i. record o.file {
            cursor = cursor;
            current_cluster = e i;
            remaining_bytes_in_cluster = rest i;
            touched = t.file.touched;
          });
    })
      where
        rest :
            t.fsys.fs.cluster_length - u32 (cursor % t.fsys.fs.cluster_length)
            ≡ cluster_length_of o - cursor % cluster_length_of o
        rest =
            ap (λ fs. fs.cluster_length - u32 (cursor % fs.cluster_length)) p.volume
            ∙ ap (λ (k : ℕ). cluster_length_of o - k) offset

    seek_in-Sought :
        (chain : StoredChain)
        → Clusters st size n start hn four owner (disk_under o) chain cs
        → Ensures
            (λ _ u. Sought x cursor o u)
            (λ u. InTable chain)
            (seek_in d size collect chain (cursor / cluster_length_of o) moved)
    seek_in-Sought StoredChain.empty e = cc
    seek_in-Sought (StoredChain.contiguous first count) e =
        set-Sought _ _ moved
          (sym (
            get_elem?-consecutive count first _ x
              (subst (λ cs. get_elem? cs (cursor / cluster_length_of o) ≡ some x) e at_x)))
          (Kept-refl moved ready)
    seek_in-Sought (StoredChain.fat first last count) (chain, w, le) =
        bind (follow-Kept _ first x cs moved ready chain w at_x)
          (λ cluster_id t (e, p). set-Sought _ cluster_id t e p) (λ t q. q)

    -- Seeking to a cursor within the data that is valid, whose cluster is the
    -- `cursor / cluster_length`-th of the file's chain, counted from 0, makes that cluster the current
    -- one, whether the chain is contiguous or one of the table; the rest of that cluster is what remains
    -- before the cursor; nothing else of the file changes but its record of touched sectors, no bit, no
    -- link and no block of data. It fails only where the chain is one of the table. The hypotheses: the
    -- file system is mounted and its disk ready, the list holds the clusters of the file's chain, those
    -- of a chain of the table in the heap and no more than are stored, the length of a cluster is
    -- positive, and it and the number of clusters before the cursor are numbers of 32 bits.
    pub seek-Ensures :
        Clusters st size n start hn four owner (disk_under o) o.file.chain cs
        → o.fsys.is_mounted ≡ true
        → cursor ≤ o.file.details.valid_data_length
        → cursor / cluster_length_of o < 2 ^ 32
        → Ensures
            (λ _ t. Sought x cursor o t)
            (λ t. InTable o.file.chain)
            (seek d size collect cursor o)
    unfolding seek
    seek-Ensures clusters is_mounted valid few =
        let number : u32 (cursor / cluster_length_of o) ≡ cursor / cluster_length_of o =
          mod-eq_of_lt few in
        let inside : ltb o.file.details.valid_data_length cursor ≡ false = ground arith in
        rw (mounted-mounted d size collect o is_mounted)
          (rw (number, inside) (seek_in-Sought o.file.chain clusters))
