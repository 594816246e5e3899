-- ===== src/FreeRun/Skipping/Settled.antt =====
-- A scan of the bitmap (src/allocation.rs) whose answer no further bit can change.
use exfat_slim.Base.{
  ℕ, zero, suc, ◌+◌, ◌≤◌, ◌≡◌, Bool-cases, true, inl, inr, Option, none, some, List, [], ◌∷◌, ltb,
  leb, arith,
}
use exfat_slim.Error.{Result, ok, ExFatError}
use exfat_slim.FreeRun.{
  SearchPolicy, first_run, longest_run, AllocatedRun, Scan, Step, going, found, stopped, longer,
  closed, close_run, and_step, scan_bit, scan_bits, scan_bytes, last_run, finish,
}

module _ (E : Type 0) (policy : SearchPolicy) (from end num : ℕ) where
  abbrev pub Answer : Type 0
  Answer = Result (ExFatError E) AllocatedRun

  -- What the search would answer if it ended with this scan.
  abbrev closing : Scan → Answer
  closing s = last_run (closed policy s.first_cluster s.count s.longest)

  -- The answer is settled: the scan is over, or is behind the last cluster of the search.
  abbrev pub Past : Answer → Step → Type 0
  Past v (going s) = (end ≤ s.cluster_id) × (closing s ≡ v)
  Past v (found run) = ok run ≡ v
  Past v (stopped s) = closing s ≡ v

  pub finish-Past : (v : Answer) (step : Step) → Past v step → finish policy step ≡ v
  finish-Past v (going s) (le, e) = e
  finish-Past v (found run) e = e
  finish-Past v (stopped s) e = e

  pub and_step-Past :
      (v : Answer) (r : Step) (f : Scan → Step)
      → ((s : Scan) → Past v (going s) → Past v (f s))
      → Past v r
      → Past v (and_step r f)
  and_step-Past v (going s) f next p = next s p
  and_step-Past v (found run) f next p = p
  and_step-Past v (stopped s) f next p = p

  scan_bit-Past :
      (v : Answer) (byte bit : ℕ) (s : Scan)
      → Past v (going s)
      → Past v (scan_bit policy from end num byte bit s)
  unfolding scan_bit
  scan_bit-Past v byte bit s (le, e) = elim (Bool-cases (ltb s.cluster_id from)) [
    | inl before ↦ rw before (omega (arith, le), e)
    | inr after ↦ let behind : leb end s.cluster_id ≡ true = ground arith in rw (after, behind) e
  ]

  pub scan_bits-Past :
      (count byte bit : ℕ) (v : Answer) (s : Scan)
      → Past v (going s)
      → Past v (scan_bits policy from end num count byte bit s)
  unfolding scan_bits
  scan_bits-Past zero byte bit v s p = p
  scan_bits-Past (suc count) byte bit v s p =
      and_step-Past v _ _ (λ t q. scan_bits-Past count byte (suc bit) v t q)
        (scan_bit-Past v byte bit s p)

  pub scan_bytes-Past :
      (bytes : List ℕ) (v : Answer) (s : Scan)
      → Past v (going s)
      → Past v (scan_bytes policy from end num bytes s)
  unfolding scan_bytes
  scan_bytes-Past [] v s p = p
  scan_bytes-Past (byte ∷ bytes) v s p =
      and_step-Past v _ _ (λ t q. scan_bytes-Past bytes v t q) (scan_bits-Past 8 byte 0 v s p)

-- Closing a run behind the last cluster changes no answer.
pub close_run-Past :
    (E : Type 0) (policy : SearchPolicy) (from end num by id : ℕ) (first : Option ℕ) (count : ℕ)
    (longest : Option AllocatedRun) (v : Answer E policy from end num)
    → end ≤ id + by
    → last_run (closed policy first count longest) ≡ v
    → Past E policy from end num v (
        close_run policy by
          (record { cluster_id = id; first_cluster = first; count = count; longest = longest }))
unfolding close_run
close_run-Past E first_run from end num by id (some first) count longest v le e = e
close_run-Past E first_run from end num by id none count longest v le e = (le, e)
close_run-Past E longest_run from end num by id (some first) count longest v le e =
    (le, go longest e)
  where
    go :
        (longest : Option AllocatedRun)
        → last_run (closed longest_run (some first) count longest) ≡ v
        → last_run (
            closed longest_run none 0
              (longer longest (record { first_cluster = first; cluster_count = count })))
          ≡ v
    go none e = e
    go (some run) e = e
close_run-Past E longest_run from end num by id none count longest v le e = (le, e)
