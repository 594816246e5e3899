-- ===== src/File/Linking.antt =====
-- The links that a growing file writes into the table.
use exfat_slim.Base.{
  ℕ, zero, suc, ◌+◌, ◌-◌, ◌*◌, ◌≤◌, ◌<◌, ◌≡◌, sym, ap, ◌∙◌, Bool, true, false, some, List, ◌++◌,
  ◌==◌, if◌then◌else◌, arith,
}
use exfat_slim.Device.{BlockDevice, Storage}
use exfat_slim.Action.{Ensures, returned, bind, mono}
use exfat_slim.FreeRun.{AllocatedRun}
use exfat_slim.Allocator.{StoredChain}
use exfat_slim.Fat.{end_of_chain}
use exfat_slim.Disk.{Disk}
use exfat_slim.Disk.Sound.{Owner, IsReady, Changes, clear, link_of}
use exfat_slim.Disk.Operations.{
  Rd, Ch, bits, links, Within, set-Changes, Within-eq, Changes-trans, Changes-refl,
}
use exfat_slim.Disk.Chain.{has, ChainFrom, consecutive, has-consecutive}
use exfat_slim.Disk.Free.{AllWithin, AllWithin-at}
use exfat_slim.Disk.Stitch.{
  linked, linked_ext, stitched, stitched-linked, EndsWith, has-EndsWith, has-append,
  ChainFrom-stitched,
}
use exfat_slim.File.Writing.{link_run, link_chain, last_cluster}

module _ {d : BlockDevice} (st : Storage d) (size n start : ℕ) (hn : 0 < n) (four : size ≡ 4 * n)
    (owner : ℕ → Owner) where
  abbrev IsRd : Disk d.State → Type 0
  IsRd = Rd st size n start hn four owner

  abbrev Chg : Disk d.State → Disk d.State → (ℕ → Bool) → (ℕ → ℕ) → Type 0
  Chg = Ch st size n start hn four owner

  abbrev bits_of : Disk d.State → ℕ → Bool
  bits_of = bits st size n start hn four owner

  abbrev links_of : Disk d.State → ℕ → ℕ
  links_of = links st size n start hn four owner

  abbrev In : Disk d.State → ℕ → Type 0
  In = Within st size n start hn four owner

  link_run-Changes :
      (count next prev : ℕ) (s : Disk d.State)
      → IsRd s
      → In s prev
      → ((x : ℕ) → next ≤ x → x < next + count → In s x)
      → next + count ≤ 0xFFFFFFF7
      → Ensures
          (λ _ t. Chg s t (bits_of s) (linked count next prev (links_of s)))
          (λ t. Unit {0})
          (link_run d size count next (some prev) s)
  unfolding link_run
  link_run-Changes zero next prev s v hp hw hi =
      returned (Changes-refl st size n start hn four owner s v)
  link_run-Changes (suc count) next prev s v hp hw hi =
      bind (set-Changes st size n start hn four owner prev next s v hp (omega arith))
        (λ _ u p.
          mono
            (link_run-Changes count (suc next) next u p.ready
              (Within-eq st size n start hn four owner s u p.same_bitmap next
                (hw next (omega arith) (omega arith)))
              (λ x a b.
                Within-eq st size n start hn four owner s u p.same_bitmap x
                  (hw x (omega arith) (omega arith)))
              (omega arith))
            (λ _ t q.
              Changes-trans st size n start hn four owner _ _ p q
                (λ x hx eb el. (eb, linked_ext count (suc next) next _ _ x el)))
            (λ t q. q))
        (λ t q. q)

  -- The run of `count` clusters from `first` on.
  abbrev run_from : (first count : ℕ) → AllocatedRun
  run_from first count = record { first_cluster = first; cluster_count = count }

  -- Adding a run of `count` clusters, from `added` on, to a chain of the table: its links lead from
  -- the first cluster of the chain through all its clusters and then through those of the run, where
  -- they end; exactly the entries of the chain's last cluster and of the run have changed, no bit and
  -- no block of data; or it fails. The hypotheses: the disk is ready, the last cluster that is stored
  -- for the chain is its last one, the run's clusters are others than the chain's, all are clusters
  -- of the heap, with numbers that an entry can hold, and the run is not empty.
  pub link_chain-Ensures :
      (chain : StoredChain) (first prev : ℕ) (cs : List ℕ) (added count : ℕ) (s : Disk d.State)
      → IsReady st size n start hn four owner s
      → last_cluster chain ≡ some prev
      → ChainFrom (link_of st size n start hn four owner s) first cs
      → EndsWith prev cs
      → AllWithin st size n start hn four owner s (cs ++ consecutive added count)
      → ((x : ℕ) → has x cs ≡ true → has x (consecutive added count) ≡ false)
      → 0 < count
      → added + count ≤ 0xFFFFFFF7
      → Ensures
          (λ _ t.
            ChainFrom
              (link_of st size n start hn four owner t)
              first
              (cs ++ consecutive added count)
            × Changes st size n start hn four owner s t
                (clear st size n start hn four owner s)
                (stitched added count prev (link_of st size n start hn four owner s)))
          (λ t. Unit {0})
          (link_chain d size chain (run_from added count) s)
  unfolding link_chain
  link_chain-Ensures chain first prev cs a zero s v e k last w apart pos hi = absurd (omega arith)
  link_chain-Ensures chain first prev cs a (suc count) s v e k last w apart pos hi =
      let within = λ (x : ℕ) (i : has x (cs ++ consecutive a (suc count)) ≡ true).
        AllWithin-at st size n start hn four owner s _ x w i in
      let in_chain : has prev cs ≡ true = has-EndsWith prev cs last in
      let in_run = λ (x : ℕ) (lo : a ≤ x) (up : x < a + suc count). within x (
        ground
          (arith, has-append x cs (consecutive a (suc count)), has-consecutive x (suc count) a)) in
      let outside =
        λ (x : ℕ) (i : has x cs ≡ true). sym (has-consecutive x (suc count) a) ∙ apart x i in
      rw e (
        bind
          (link_run-Changes (suc count) a prev s v
            (within prev (ground (arith, has-append prev cs (consecutive a (suc count))))) in_run
            hi)
          (λ _ u p.
            mono
              (set-Changes st size n start hn four owner (a + suc count - 1) end_of_chain u p.ready
                (Within-eq st size n start hn four owner s u p.same_bitmap _
                  (in_run _ (omega arith) (omega arith)))
                (omega arith))
              (λ _ t q.
                let whole =
                  Changes-trans st size n start hn four owner _
                    (stitched a (suc count) prev (links_of s)) p q
                    (λ x hx eb el. (
                      eb,
                      ap (λ (l : ℕ). if a + suc count - 1 == x then end_of_chain else l) el
                          ∙ stitched-linked count a prev (links_of s) x (outside prev in_chain),
                    )) in
                (
                  ChainFrom-stitched (links_of s) (links_of t) cs a count prev outside
                      (λ x i. whole.links_are x (within x i)) k last
                      (in_run a (omega arith) (omega arith)).0 (omega arith),
                  whole,
                ))
              (λ t q. q))
          (λ t q. q))
