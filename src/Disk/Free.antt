-- ===== src/Disk/Free.antt =====
-- Freeing a chain.
use exfat_slim.Base.{
  ℕ, zero, suc, ◌*◌, ◌≤◌, ◌<◌, ◌≡◌, refl, sym, ap, subst, ◌∙◌, Bool, Bool-cases, true, false, inl,
  inr, Option, List, [], ◌∷◌, length, ◌==◌, if◌then◌else◌, arith,
}
use exfat_slim.Error.{Result, ExFatError}
use exfat_slim.Device.{BlockDevice, Storage}
use exfat_slim.Action.{Ensures, returned, bind, mono, ◌>>=◌, ◌>>◌}
use exfat_slim.Allocator.{StoredChain, mark_allocated}
use exfat_slim.Allocator.Marking.{in_run}
use exfat_slim.Fat.{link, set_link, next_cluster_in_fat_chain}
use exfat_slim.Disk.{Disk, free, free_chain, free_next, one_cluster, on_alloc, on_fat}
use exfat_slim.Disk.Sound.{Owner, IsReady, Changes, clear}
use exfat_slim.Disk.Operations.{
  Rd, Ch, bits, links, Within, mark-Changes, next-Changes, set-Changes, Within-eq, Changes-trans,
  Changes-refl,
}
use exfat_slim.Disk.Chain.{
  has, ChainFrom, end_at, link_to, ChainFrom-frame, chain_once, consecutive, has-consecutive,
}

module _ {d : BlockDevice} (st : Storage d) (size n start : ℕ) (hn : 0 < n) (four : size ≡ 4 * n)
    (owner : ℕ → Owner) where
  abbrev IsRd : Disk d.State → Type 0
  IsRd = Rd st size n start hn four owner

  abbrev Chg : Disk d.State → Disk d.State → (ℕ → Bool) → (ℕ → ℕ) → Type 0
  Chg = Ch st size n start hn four owner

  abbrev bits_of : Disk d.State → ℕ → Bool
  bits_of = bits st size n start hn four owner

  abbrev links_of : Disk d.State → ℕ → ℕ
  links_of = links st size n start hn four owner

  abbrev In : Disk d.State → ℕ → Type 0
  In = Within st size n start hn four owner

  -- All clusters of a list are clusters of the heap that have a bit.
  abbrev pub AllWithin : Disk d.State → List ℕ → Type 0
  AllWithin s [] = Unit {0}
  AllWithin s (c ∷ cs) = In s c × AllWithin s cs

  pub AllWithin-at :
      (s : Disk d.State) (cs : List ℕ) (x : ℕ) → AllWithin s cs → has x cs ≡ true → In s x
  AllWithin-at s [] x h i = cc
  AllWithin-at s (c ∷ cs) x (h, hs) i = elim (Bool-cases (c == x)) [
    | inl e ↦ let q : c ≡ x = ground arith in subst (In s) q h
    | inr e ↦ AllWithin-at s cs x hs (ground arith)
  ]

  pub AllWithin-eq :
      (s t : Disk d.State)
      → t.alloc.bitmap ≡ s.alloc.bitmap
      → (cs : List ℕ) → AllWithin s cs
      → AllWithin t cs
  AllWithin-eq s t e [] h = tt
  AllWithin-eq s t e (c ∷ cs) (h, hs) =
      (Within-eq st size n start hn four owner s t e c h, AllWithin-eq s t e cs hs)

  -- The clusters of the list are free and unlinked, and all else is as it was.
  abbrev pub Freed : Disk d.State → Disk d.State → List ℕ → Type 0
  Freed s t cs =
      Chg s t (λ x. if has x cs then true else bits_of s x)
        (λ x. if has x cs then 0 else links_of s x)

  module _ (c : ℕ) (s : Disk d.State) (v : IsRd s) (hc : In s c) where
    -- The bit is clear and the entry is 0 after a look-up, a marking and a setting.
    cleared :
        {t u w : Disk d.State}
        → Chg s t (bits_of s) (links_of s)
        → Chg t u (λ x. if in_run (one_cluster c) x then true else bits_of t x) (links_of t)
        → Chg u w (bits_of u) (λ x. if c == x then 0 else links_of u x)
        → Freed s w (c ∷ [])
    cleared {t = t} {u = u} p q r =
        Changes-trans st size n start hn four owner _ _
          (Changes-trans st size n start hn four owner
            (λ x. if in_run (one_cluster c) x then true else bits_of s x) (links_of s) p q
            (λ x hx eb el.
              (ap (λ (b : Bool). if in_run (one_cluster c) x then true else b) eb, el)))
          r
          (λ x hx eb el.
            (eb ∙ ground arith, ap (λ (l : ℕ). if c == x then 0 else l) el ∙ ground arith))

    -- One round of the loop, up to what it does next.
    round-Freed :
        (cs : List ℕ)
        (rest : Option ℕ → Disk d.State → Result (ExFatError d.Error) (Unit {0}) × Disk d.State)
        → ((t : Disk d.State)
            → Freed s t (c ∷ [])
            → Ensures (λ _ u. Freed s u cs) (λ u. Unit {0}) (rest (link (links_of s c)) t))
        → Ensures
            (λ _ u. Freed s u cs)
            (λ u. Unit {0})
            ((on_fat d size (next_cluster_in_fat_chain d size c) >>= λ o.
                on_alloc d size (mark_allocated d size (one_cluster c) false)
                >> on_fat d size (set_link d size c 0)
                >> rest o)
              s)
    round-Freed cs rest k =
        bind (next-Changes st size n start hn four owner c s v hc)
          (λ o t (e, p).
            bind {P = λ _ w. Freed s w (c ∷ [])} {Q = λ w. Unit {0}}
              (bind (mark-Changes st size n start hn four owner (one_cluster c) false t p.ready)
                (λ _ u q.
                  mono
                    (set-Changes st size n start hn four owner c 0 u q.ready
                      (Within-eq st size n start hn four owner s u (q.same_bitmap ∙ p.same_bitmap) c
                        hc)
                      (omega arith))
                    (λ _ w r. cleared p q r) (λ w r. r))
                (λ u q. q))
              (λ _ w f.
                subst (λ o. Ensures (λ _ u. Freed s u cs) (λ u. Unit {0}) (rest o w)) (sym e)
                  (k w f))
              (λ w q. q))
          (λ t q. q)

  Freed-trans :
      (c : ℕ) (cs : List ℕ) {s t u : Disk d.State}
      → Freed s t (c ∷ [])
      → Freed t u cs
      → Freed s u (c ∷ cs)
  Freed-trans c cs p q =
      Changes-trans st size n start hn four owner _ _ p q
        (λ x hx eb el. (ground (arith, eb), ground (arith, el)))

  free_chain-Freed :
      (rounds : ℕ) (cs : List ℕ) (c : ℕ) (s : Disk d.State)
      → IsRd s
      → ChainFrom (links_of s) c cs
      → AllWithin s cs
      → length cs ≤ rounds
      → Ensures (λ _ t. Freed s t cs) (λ t. Unit {0}) (free_chain d size rounds c s)
  unfolding free_chain
  free_chain-Freed zero cs c s v (end_at e) w h = absurd (omega arith)
  free_chain-Freed zero cs c s v (link_to e k) w h = absurd (omega arith)
  free_chain-Freed (suc rounds) cs c s v (end_at e) (hc, w) h =
      round-Freed c s v hc (c ∷ []) (λ o. free_next d size o (free_chain d size rounds))
        (λ t f. rw e (returned f))
  free_chain-Freed (suc rounds) cs c s v (link_to {c' = c'} {cs = later} e k) (hc, w) h =
      round-Freed c s v hc (c ∷ later) (λ o. free_next d size o (free_chain d size rounds))
        (λ t f. rw e (
          mono
            (free_chain-Freed rounds later c' t f.ready
              (ChainFrom-frame (links_of t)
                (λ x i.
                  f.links_are x (AllWithin-at s later x w i) ∙ ground (arith, chain_once c e k, i))
                k)
              (AllWithin-eq s t f.same_bitmap later w) (omega arith))
            (λ _ u g. Freed-trans c later f g) (λ u q. q)))

  -- The clusters of a stored chain: those of a run, or those that the table leads to.
  abbrev pub Clusters : Disk d.State → StoredChain → List ℕ → Type 0
  Clusters s StoredChain.empty cs = cs ≡ []
  Clusters s (StoredChain.contiguous first cluster_count) cs = cs ≡ consecutive first cluster_count
  Clusters s (StoredChain.fat first last cluster_count) cs =
      ChainFrom (links_of s) first cs × AllWithin s cs × (length cs ≤ cluster_count)

  -- The links after a chain has been freed: a contiguous one has none in the table.
  abbrev pub links_without : Disk d.State → StoredChain → List ℕ → ℕ → ℕ
  links_without s (StoredChain.fat first last cluster_count) cs x =
      if has x cs then 0 else links_of s x
  links_without s StoredChain.empty cs x = links_of s x
  links_without s (StoredChain.contiguous first cluster_count) cs x = links_of s x

  -- Freeing a stored chain clears the bits of exactly its clusters and, where the chain is one of the
  -- table, sets exactly their entries to 0; every other bit and link of the heap stays, and so does
  -- every block of data; or it fails. The hypotheses: the disk is ready, with one owner for every
  -- sector, and a chain of the table ends, within the heap and within the stored count.
  pub free-Freed :
      (chain : StoredChain) (cs : List ℕ) (s : Disk d.State)
      → IsReady st size n start hn four owner s
      → Clusters s chain cs
      → Ensures
          (λ _ t.
            Changes st size n start hn four owner s t
              (λ x. if has x cs then true else clear st size n start hn four owner s x)
              (links_without s chain cs))
          (λ t. Unit {0})
          (free d size chain s)
  unfolding free
  free-Freed StoredChain.empty cs s v e =
      rw e (returned (Changes-refl st size n start hn four owner s v))
  free-Freed (StoredChain.contiguous first cluster_count) cs s v e =
      mono
        (mark-Changes st size n start hn four owner
          (record { first_cluster = first; cluster_count = cluster_count }) false s v)
        (λ _ t p.
          Changes-trans st size n start hn four owner _ _
            (Changes-refl st size n start hn four owner s v) p
            (λ x hx eb el. (
              ap (λ (b : Bool). if b then true else bits_of s x)
                  (sym (ap (has x) e ∙ has-consecutive x cluster_count first)),
              refl,
            )))
        (λ t q. q)
  free-Freed (StoredChain.fat first last cluster_count) cs s v (k, w, h) =
      free_chain-Freed cluster_count cs first s v k w h
