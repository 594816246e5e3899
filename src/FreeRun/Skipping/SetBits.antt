-- ===== src/FreeRun/Skipping/SetBits.antt =====
-- A scan of the bitmap (src/allocation.rs) that passes bits that are set, without a run in progress.
use exfat_slim.Base.{
  ℕ, zero, suc, ◌+◌, ◌*◌, ◌≤◌, ◌<◌, ◌≡◌, refl, sym, ap, subst, ◌∙◌, ◌⊎◌, Bool-cases, inl, inr,
  Option, none, List, [], ◌∷◌, ◌++◌, length, ltb, leb, arith,
}
use exfat_slim.FreeRun.{
  SearchPolicy, first_run, longest_run, AllocatedRun, Scan, Step, going, found, stopped, closed,
  close_run, and_step, scan_bit, scan_bits, scan_bytes, last_run,
}
use exfat_slim.FreeRun.Loops.{full_byte, AreFull}
use exfat_slim.FreeRun.Skipping.Settled.{
  Answer, Past, and_step-Past, scan_bits-Past, scan_bytes-Past,
}

and_step_assoc :
    (r : Step) (f g h : Scan → Step)
    → ((s : Scan) → h s ≡ and_step (f s) g)
    → and_step r h ≡ and_step (and_step r f) g
and_step_assoc (going s) f g h e = e s
and_step_assoc (found run) f g h e = refl
and_step_assoc (stopped s) f g h e = refl

-- A scan without a run in progress.
abbrev pub idle : ℕ → Option AllocatedRun → Scan
idle id longest = record { cluster_id = id; first_cluster = none; count = 0; longest = longest }

module _ (E : Type 0) (policy : SearchPolicy) (from end num : ℕ) where
  pub scan_bytes-append :
      (xs ys : List ℕ) (s : Scan)
      → scan_bytes policy from end num (xs ++ ys) s
        ≡ and_step (scan_bytes policy from end num xs s) (scan_bytes policy from end num ys)
  unfolding scan_bytes
  scan_bytes-append [] ys s = refl
  scan_bytes-append (x ∷ xs) ys s =
      and_step_assoc (scan_bits policy from end num 8 x 0 s) _ _ _ (scan_bytes-append xs ys)

  -- The scan has passed `by` clusters and is idle, or its answer is settled.
  abbrev pub Passed : ℕ → ℕ → Option AllocatedRun → Step → Type 0
  Passed by id longest step =
      (step ≡ going (idle (id + by) longest))
      ⊎ ((end ≤ id + by)
          × Past E policy from end num (last_run (closed policy none 0 longest)) step)

  Passed-by :
      {a b : ℕ} (id : ℕ) (longest : Option AllocatedRun) (step : Step)
      → a ≡ b
      → Passed a id longest step
      → Passed b id longest step
  Passed-by id longest step e p = subst (λ n. Passed n id longest step) e p

  pub and_step-Passed :
      (a b id : ℕ) (longest : Option AllocatedRun) (r : Step) (f : Scan → Step)
      → Passed a id longest r
      → Passed b (id + a) longest (f (idle (id + a) longest))
      → ((v : Answer E policy from end num) (s : Scan)
          → Past E policy from end num v (going s)
          → Past E policy from end num v (f s))
      → Passed (a + b) id longest (and_step r f)
  and_step-Passed a b id longest r f (inl e) (inl e') past =
      inl (ap (λ r. and_step r f) e ∙ e' ∙ ap (λ n. going (idle n longest)) (omega arith))
  and_step-Passed a b id longest r f (inl e) (inr (le, p)) past = inr (
    omega (arith, le),
    subst (λ r. Past E policy from end num (last_run (closed policy none 0 longest)) (and_step r f))
        (sym e) p,
  )
  and_step-Passed a b id longest r f (inr (le, p)) q past =
      inr (omega (arith, le), and_step-Past E policy from end num _ r f (past _) p)

  pub closed-idle :
      (policy : SearchPolicy) (by id : ℕ) (longest : Option AllocatedRun)
      → close_run policy by (idle id longest) ≡ going (idle (id + by) longest)
  unfolding close_run
  closed-idle first_run by id longest = refl
  closed-idle longest_run by id longest = refl

  -- One bit that is set.
  scan_bit-Passed :
      (bit id : ℕ) (longest : Option AllocatedRun)
      → bit < 8
      → Passed 1 id longest (scan_bit policy from end num 255 bit (idle id longest))
  unfolding scan_bit
  scan_bit-Passed bit id longest h = elim (Bool-cases (ltb id from)) [
    | inl before ↦ rw before (inl refl)
    | inr after ↦ elim (Bool-cases (leb end id)) [
      | inl behind ↦ rw (after, behind) (inr (ground arith, refl))
      | inr within ↦ rw (after, within, full_byte bit h) (inl (closed-idle policy 1 id longest))
    ]
  ]

  pub scan_bits-Passed :
      (count bit id : ℕ) (longest : Option AllocatedRun)
      → bit + count ≤ 8
      → Passed count id longest (scan_bits policy from end num count 255 bit (idle id longest))
  unfolding scan_bits
  scan_bits-Passed zero bit id longest h = inl (ap (λ n. going (idle n longest)) (omega arith))
  scan_bits-Passed (suc count) bit id longest h = Passed-by id longest _ (omega arith) (
      and_step-Passed 1 count id longest _ _ (scan_bit-Passed bit id longest (omega arith))
        (scan_bits-Passed count (suc bit) (id + 1) longest (omega arith))
        (scan_bits-Past E policy from end num count 255 (suc bit)))

  pub scan_bytes-Passed :
      (bytes : List ℕ) (id : ℕ) (longest : Option AllocatedRun)
      → AreFull bytes
      → Passed
          (8 * length bytes)
          id
          longest
          (scan_bytes policy from end num bytes (idle id longest))
  unfolding scan_bytes
  scan_bytes-Passed [] id longest h = inl (ap (λ n. going (idle n longest)) (omega arith))
  scan_bytes-Passed (byte ∷ bytes) id longest (e, h) = Passed-by id longest _ (omega arith) (
      and_step-Passed 8 (8 * length bytes) id longest _ _
        (subst (λ b. Passed 8 id longest (scan_bits policy from end num 8 b 0 (idle id longest)))
          (sym e) (scan_bits-Passed 8 0 id longest (omega arith)))
        (scan_bytes-Passed bytes (id + 8) longest h) (scan_bytes-Past E policy from end num bytes))
