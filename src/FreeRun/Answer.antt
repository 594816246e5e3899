-- ===== src/FreeRun/Answer.antt =====
-- What the search answers when it has ended.
use exfat_slim.Base.{
  ℕ, ◌≤◌, ◌<◌, ◌≡◌, ◌⊎◌, Bool, Bool-cases, false, inl, inr, Option, none, some, ltb, arith,
}
use exfat_slim.Error.{Result, ok, err, stuck, ExFatError}
use exfat_slim.FreeRun.{
  SearchPolicy, first_run, longest_run, AllocatedRun, Step, going, found, stopped, closed, last_run,
  finish,
}
use exfat_slim.FreeRun.Sound.{IsFreeRun, Scanned, StepsTo}

module _ (E : Type 0) (policy : SearchPolicy) (from end num : ℕ) (is_clear : ℕ → Bool) where
  -- A run of clear clusters, or no cluster before `id` is clear.
  abbrev pub IsAnswer : ℕ → Result (ExFatError E) AllocatedRun → Type 0
  IsAnswer id (ok run) = IsFreeRun from end num is_clear run
  IsAnswer id (err e) = (x : ℕ) → from ≤ x → x < end → x < id → is_clear x ≡ false
  IsAnswer id stuck = ⊥

  last_run-IsAnswer :
      (policy : SearchPolicy) (id cluster_id : ℕ) (first : Option ℕ) (count : ℕ)
      (longest : Option AllocatedRun)
      → (id ≤ cluster_id) ⊎ (end ≤ cluster_id)
      → Scanned from end num is_clear cluster_id first count longest
      → IsAnswer id (last_run (closed policy first count longest))
  last_run-IsAnswer first_run id c (some first) count longest b ((e, run), few, best, seen) = run
  last_run-IsAnswer first_run id c none count (some run) b (e, few, best, seen) = best
  last_run-IsAnswer first_run id c none count none b (e, few, best, seen) =
      λ x h h' h''. seen x h (ground arith)
  last_run-IsAnswer longest_run id c (some first) count none b ((e, run), few, best, seen) = run
  last_run-IsAnswer longest_run id c (some first) count (some run') b ((e, run), few, best, seen) =
      elim (Bool-cases (ltb run'.cluster_count count)) [ inl q ↦ rw q run | inr q ↦ rw q best ]
  last_run-IsAnswer longest_run id c none count (some run) b (e, few, best, seen) = best
  last_run-IsAnswer longest_run id c none count none b (e, few, best, seen) =
      λ x h h' h''. seen x h (ground arith)

  pub finish-IsAnswer :
      (id : ℕ) (step : Step)
      → StepsTo from end num is_clear id step
      → IsAnswer id (finish policy step)
  finish-IsAnswer id (going s) (e, v) =
      last_run-IsAnswer policy id s.cluster_id s.first_cluster s.count s.longest
        (inl (omega (arith, e))) v
  finish-IsAnswer id (found run) h = h
  finish-IsAnswer id (stopped s) (e, v) =
      last_run-IsAnswer policy id s.cluster_id s.first_cluster s.count s.longest (inr e) v
