-- ===== src/FreeRun/Sound.antt =====
-- The search for free clusters finds only free clusters, and misses none.
use exfat_slim.Base.{
  ℕ, ◌+◌, ◌≤◌, ◌<◌, ◌≡◌, refl, subst, ◌∙◌, Bool, Bool-cases, true, false, inl, inr, Option, none,
  some, ltb, leb, ◌==◌, arith,
}
use exfat_slim.Bitmap.{is_free}
use exfat_slim.FreeRun.{
  SearchPolicy, first_run, longest_run, AllocatedRun, Scan, Step, going, found, stopped, longer,
  close_run, or_else, scan_bit,
}

-- `is_clear x` says that the search may take cluster `x`: the bits that it reads say which.
module _ (from end num : ℕ) (is_clear : ℕ → Bool) where
  -- A run of clear clusters within the bounds of the search.
  abbrev pub IsFreeRun : AllocatedRun → Type 0
  IsFreeRun run =
      (0 < run.cluster_count)
      × (run.cluster_count ≤ num)
      × (from ≤ run.first_cluster)
      × (run.first_cluster + run.cluster_count ≤ end)
      × ((x : ℕ)
          → run.first_cluster ≤ x
          → x < run.first_cluster + run.cluster_count
          → is_clear x ≡ true)

  -- The run in progress ends before cluster `id`.
  abbrev InProgress : Option ℕ → ℕ → ℕ → Type 0
  InProgress none count id = count ≡ 0
  InProgress (some first) count id =
      (first + count ≡ id) × IsFreeRun (record { first_cluster = first; cluster_count = count })

  abbrev IsBest : Option AllocatedRun → Type 0
  IsBest none = Unit {0}
  IsBest (some run) = IsFreeRun run

  -- While no run was seen, no cluster before `id` was clear.
  abbrev NoneSeen : Option ℕ → Option AllocatedRun → ℕ → Type 0
  NoneSeen none none id = (x : ℕ) → from ≤ x → x < id → is_clear x ≡ false
  NoneSeen (some first) longest id = Unit {0}
  NoneSeen none (some run) id = Unit {0}

  abbrev pub Scanned : ℕ → Option ℕ → ℕ → Option AllocatedRun → Type 0
  Scanned id first count longest =
      InProgress first count id × (count < num) × IsBest longest × NoneSeen first longest id

  abbrev pub IsScan : Scan → Type 0
  IsScan s = Scanned s.cluster_id s.first_cluster s.count s.longest

  -- What a step of the search that reads the bits up to cluster `id` leaves.
  abbrev pub StepsTo : ℕ → Step → Type 0
  StepsTo id (going s) = (s.cluster_id ≡ id) × IsScan s
  StepsTo id (found run) = IsFreeRun run
  StepsTo id (stopped s) = (end ≤ s.cluster_id) × IsScan s

  longer-IsBest :
      (longest : Option AllocatedRun) (run : AllocatedRun)
      → IsBest longest
      → IsFreeRun run
      → IsBest (longer longest run)
  longer-IsBest none run b h = h
  longer-IsBest (some best) run b h = elim (Bool-cases (ltb best.cluster_count run.cluster_count)) [
    | inl e ↦ rw e h
    | inr e ↦ rw e b
  ]

  longer-NoneSeen :
      (longest : Option AllocatedRun) (run : AllocatedRun) (id : ℕ)
      → NoneSeen none (longer longest run) id
  longer-NoneSeen none run id = tt
  longer-NoneSeen (some best) run id =
      elim (Bool-cases (ltb best.cluster_count run.cluster_count)) [
        | inl e ↦ rw e tt
        | inr e ↦ rw e tt
      ]

  further :
      (by id : ℕ)
      → NoneSeen none none id
      → ((x : ℕ) → id ≤ x → x < id + by → is_clear x ≡ false)
      → NoneSeen none none (id + by)
  further by id seen taken x h h' = elim (Bool-cases (ltb x id)) [
    | inl lt ↦ seen x h (ground arith)
    | inr ge ↦ taken x (ground arith) h'
  ]

  -- Closing a run and passing `by` clusters that are not clear.
  pub close_run-StepsTo :
      (policy : SearchPolicy) (by id : ℕ) (first : Option ℕ) (count : ℕ)
      (longest : Option AllocatedRun)
      → 0 < num
      → Scanned id first count longest
      → ((x : ℕ) → id ≤ x → x < id + by → is_clear x ≡ false)
      → StepsTo (id + by) (
          close_run policy by
            (record { cluster_id = id; first_cluster = first; count = count; longest = longest }))
  unfolding close_run
  close_run-StepsTo first_run by id (some first) count longest hn ((e, run), few, best, seen)
        taken =
      run
  close_run-StepsTo first_run by id none count none hn (e, few, best, seen) taken =
      (refl, (refl, hn, tt, further by id seen taken))
  close_run-StepsTo first_run by id none count (some run) hn (e, few, best, seen) taken =
      (refl, (refl, hn, best, tt))
  close_run-StepsTo longest_run by id (some first) count longest hn ((e, run), few, best, seen)
        taken =
      (refl, (refl, hn, longer-IsBest longest _ best run, longer-NoneSeen longest _ _))
  close_run-StepsTo longest_run by id none count none hn (e, few, best, seen) taken =
      (refl, (refl, hn, tt, further by id seen taken))
  close_run-StepsTo longest_run by id none count (some run) hn (e, few, best, seen) taken =
      (refl, (refl, hn, best, tt))

  -- Before the first cluster of the search there is no run.
  early :
      (id : ℕ) (first : Option ℕ) (count : ℕ) (longest : Option AllocatedRun)
      → id < from
      → Scanned id first count longest
      → Scanned (id + 1) first count longest
  early id (some first) count longest h ((e, run), few, best, seen) =
      absurd (omega (arith, run.0, run.2))
  early id none count none h (e, few, best, seen) =
      (e, few, best, (λ x hx hx'. absurd (omega arith)))
  early id none count (some run) h (e, few, best, seen) = (e, few, best, tt)

  -- A run with one more clear cluster.
  longer_run :
      (id : ℕ) (first : Option ℕ) (count : ℕ) (longest : Option AllocatedRun)
      → from ≤ id
      → id < end
      → Scanned id first count longest
      → is_clear id ≡ true
      → (or_else first id + (count + 1) ≡ id + 1)
        × IsFreeRun (record { first_cluster = or_else first id; cluster_count = count + 1 })
  longer_run id none count longest h h' (e, few, best, seen) clear = (
    omega (arith, e),
    (
      omega arith,
      omega arith,
      h,
      omega (arith, e),
      λ x hx hx'. subst (λ y. is_clear y ≡ true) (omega (arith, e)) clear,
    ),
  )
  longer_run id (some first) count longest h h' ((e, run), few, best, seen) clear = (
    omega (arith, e),
    (
      omega arith,
      omega arith,
      run.2,
      omega (arith, e),
      λ x hx hx'. elim (Bool-cases (x == id)) [
        | inl q ↦ subst (λ y. is_clear y ≡ true) (ground arith) clear
        | inr q ↦ run.4 x hx (ground arith)
      ],
    ),
  )

  -- One bit.
  pub scan_bit-StepsTo :
      (policy : SearchPolicy) (byte bit : ℕ) (s : Scan)
      → 0 < num
      → IsScan s
      → is_clear s.cluster_id ≡ is_free byte bit
      → StepsTo (s.cluster_id + 1) (scan_bit policy from end num byte bit s)
  unfolding scan_bit
  scan_bit-StepsTo policy byte bit s hn v e = elim (Bool-cases (ltb s.cluster_id from)) [
    | inl before ↦
        rw before (refl, early s.cluster_id s.first_cluster s.count s.longest (ground arith) v)
    | inr after ↦ elim (Bool-cases (leb end s.cluster_id)) [
      | inl behind ↦ rw (after, behind) (ground arith, v)
      | inr within ↦ elim (Bool-cases (is_free byte bit)) [
        | inl clear ↦
            let (e', run) =
              longer_run s.cluster_id s.first_cluster s.count s.longest (ground arith)
                (ground arith) v (e ∙ clear) in
            elim (Bool-cases (s.count + 1 == num)) [
              | inl full ↦ rw (after, within, clear, full) run
              | inr more ↦
                  rw (after, within, clear, more) (refl, ((e', run), ground (arith, v.1), v.2, tt))
            ]
        | inr taken ↦
            rw (after, within, taken)
              (close_run-StepsTo policy 1 s.cluster_id s.first_cluster s.count s.longest hn v
                (λ x h h'. subst (λ y. is_clear y ≡ false) (omega arith) (e ∙ taken)))
      ]
    ]
  ]
