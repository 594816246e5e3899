-- ===== src/FreeRun/Skipping.antt =====
-- The search for free clusters (src/allocation.rs) skips a word of the bitmap whose bits are all set.
pub mod Settled
pub mod SetBits
use exfat_slim.Base.{
  ℕ, suc, ◌+◌, ◌-◌, ◌*◌, ◌^◌, ◌≤◌, ◌<◌, ◌≡◌, ==_iff, refl, sym, ap, subst, ◌∙◌, ◌⊎◌, Bool,
  Bool-cases, false, inl, inr, Option, none, some, List, [], ◌∷◌, length, ltb, leb, ◌==◌, arith,
}
use exfat_slim.Word.{from_le_bytes, AreBytes}
use exfat_slim.Bitmap.Bits.{is_free_at, is_free_at-append_left, is_free_at-append_right}
use exfat_slim.FreeRun.{
  SearchPolicy, first_run, longest_run, AllocatedRun, Scan, Step, going, found, stopped, longer,
  close_run, and_step, scan_bit, scan_bits, scan_bytes, scan_chunk, scan_chunks, finish,
}
use exfat_slim.FreeRun.Sound.{Scanned, IsScan, StepsTo}
use exfat_slim.FreeRun.Loops.{full_word, AreFull, scan_chunk-StepsTo}
use exfat_slim.FreeRun.Skipping.Settled.{
  Answer, Past, finish-Past, and_step-Past, scan_bytes-Past, close_run-Past,
}
use exfat_slim.FreeRun.Skipping.SetBits.{
  scan_bytes-append, idle, Passed, and_step-Passed, closed-idle, scan_bits-Passed,
  scan_bytes-Passed,
}

module _ (E : Type 0) (policy : SearchPolicy) (from end num : ℕ) where
  -- Two steps of which one can stand for the other: they are the same, or settle the same answer.
  abbrev Agree : Step → Step → Type 0
  Agree a b =
      (a ≡ b)
      ⊎ ((v : Answer E policy from end num) × Past E policy from end num v a
          × Past E policy from end num v b)

  Passed-Agree :
      (by id later : ℕ) (longest : Option AllocatedRun) (step : Step)
      → id + by ≡ later
      → Passed E policy from end num by id longest step
      → Agree (going (idle later longest)) step
  Passed-Agree by id later longest step q (inl e) =
      inl (ap (λ n. going (idle n longest)) (sym q) ∙ sym e)
  Passed-Agree by id later longest step q (inr (le, p)) = inr (_, (omega (arith, le, q), refl), p)

  and_step-finish :
      (is_clear : ℕ → Bool) (id : ℕ) (r : Step) (f g : Scan → Step)
      → StepsTo from end num is_clear id r
      → ((t : Scan)
          → t.cluster_id ≡ id
          → IsScan from end num is_clear t
          → finish {E = E} policy (f t) ≡ finish {E = E} policy (g t))
      → finish {E = E} policy (and_step r f) ≡ finish {E = E} policy (and_step r g)
  and_step-finish is_clear id (going t) f g (e, v) same = same t e v
  and_step-finish is_clear id (found run) f g h same = refl
  and_step-finish is_clear id (stopped t) f g h same = refl

  Agree-finish :
      (a b : Step) (f : Scan → Step)
      → ((v : Answer E policy from end num) (s : Scan)
          → Past E policy from end num v (going s)
          → Past E policy from end num v (f s))
      → Agree a b
      → finish {E = E} policy (and_step a f) ≡ finish {E = E} policy (and_step b f)
  Agree-finish a b f past (inl e) = ap (λ r. finish policy (and_step r f)) e
  Agree-finish a b f past (inr (v, p, q)) =
      finish-Past E policy from end num v _ (and_step-Past E policy from end num v a f (past v) p)
      ∙ sym (
          finish-Past E policy from end num v _
            (and_step-Past E policy from end num v b f (past v) q))

  -- The first of the set bits closes a run in progress.
  scan_bit-close_run :
      (id first count : ℕ) (longest : Option AllocatedRun)
      → from ≤ id
      → id < end
      → scan_bit policy from end num 255 0
          (record { cluster_id = id; first_cluster = some first; count = count; longest = longest })
        ≡ close_run policy 1 (record {
          cluster_id = id;
          first_cluster = some first;
          count = count;
          longest = longest;
        })
  unfolding scan_bit
  scan_bit-close_run id first count longest h h' =
      let after : ltb id from ≡ false = ground arith in
      let within : leb end id ≡ false = ground arith in rw (after, within) refl

-- Passing over bytes whose bits are all set agrees with closing a run in progress at once.
in_progress-Agree :
    (E : Type 0) (policy : SearchPolicy) (from end num : ℕ) (bytes : List ℕ) (id first count : ℕ)
    (longest : Option AllocatedRun)
    → AreFull bytes
    → from ≤ id
    → id < end
    → Agree E policy from end num
        (close_run policy (8 * suc (length bytes)) (record {
          cluster_id = id;
          first_cluster = some first;
          count = count;
          longest = longest;
        }))
        (scan_bytes policy from end num (255 ∷ bytes) (record {
          cluster_id = id;
          first_cluster = some first;
          count = count;
          longest = longest;
        }))
unfolding scan_bytes scan_bits close_run
in_progress-Agree E first_run from end num bytes id first count longest full lo up =
    rw (scan_bit-close_run E first_run from end num id first count longest lo up) (inl refl)
in_progress-Agree E longest_run from end num bytes id first count longest full lo up =
    let best = longer longest (record { first_cluster = first; cluster_count = count }) in
    rw (scan_bit-close_run E longest_run from end num id first count longest lo up) (
      Passed-Agree E longest_run from end num (7 + 8 * length bytes) (id + 1) _ best _ (omega arith)
        (and_step-Passed E longest_run from end num 7 (8 * length bytes) (id + 1) best _ _
          (scan_bits-Passed E longest_run from end num 7 1 (id + 1) best (omega arith))
          (scan_bytes-Passed E longest_run from end num bytes (id + 1 + 7) best full)
          (scan_bytes-Past E longest_run from end num bytes)))

module _ (E : Type 0) (policy : SearchPolicy) (from end num : ℕ) (is_clear : ℕ → Bool) where
  ones-Agree :
      (bytes : List ℕ) (id : ℕ) (first : Option ℕ) (count : ℕ) (longest : Option AllocatedRun)
      → AreFull bytes
      → Scanned from end num is_clear id first count longest
      → Agree E policy from end num
          (close_run policy
            (8 * suc (length bytes))
            (record { cluster_id = id; first_cluster = first; count = count; longest = longest }))
          (scan_bytes policy from end num
            (255 ∷ bytes)
            (record { cluster_id = id; first_cluster = first; count = count; longest = longest }))
  ones-Agree bytes id none count longest full (none_yet, few, best, seen) =
      rw (none_yet, closed-idle E policy from end num policy (8 * suc (length bytes)) id longest)
        (Passed-Agree E policy from end num (8 * suc (length bytes)) id _ longest _ refl
          (scan_bytes-Passed E policy from end num (255 ∷ bytes) id longest (refl, full)))
  ones-Agree bytes id (some first) count longest full ((e, run), few, best, seen) =
      elim (Bool-cases (leb end id)) [
        | inl behind ↦ inr (
          _,
          close_run-Past E policy from end num (8 * suc (length bytes)) id (some first) count
              longest _ (ground arith) refl,
          scan_bytes-Past E policy from end num (255 ∷ bytes) _ _ (ground arith, refl),
        )
        | inr before ↦
            in_progress-Agree E policy from end num bytes id first count longest full
              (omega (arith, e, run.2)) (ground arith)
      ]

  -- A word of the bitmap, skipped or not.
  scan_chunk-Agree :
      (b0 b1 b2 b3 : ℕ) (s : Scan)
      → AreBytes (b0 ∷ b1 ∷ b2 ∷ b3 ∷ [])
      → IsScan from end num is_clear s
      → Agree E policy from end num
          (scan_chunk policy from end num (b0 ∷ b1 ∷ b2 ∷ b3 ∷ []) s)
          (scan_bytes policy from end num (b0 ∷ b1 ∷ b2 ∷ b3 ∷ []) s)
  unfolding scan_chunk
  scan_chunk-Agree b0 b1 b2 b3 s bytes v =
      elim (Bool-cases (from_le_bytes (b0 ∷ b1 ∷ b2 ∷ b3 ∷ []) == 2 ^ 32 - 1)) [
        | inl full ↦
            let (e0, later) = full_word b0 b1 b2 b3 bytes ((==_iff _ _).0 full) in
            rw full (
              subst
                (λ b.
                  Agree E policy from end num (close_run policy 32 s)
                    (scan_bytes policy from end num (b ∷ b1 ∷ b2 ∷ b3 ∷ []) s))
                (sym e0)
                (ones-Agree (b1 ∷ b2 ∷ b3 ∷ []) s.cluster_id s.first_cluster s.count s.longest later
                  v))
        | inr mixed ↦ rw mixed (inl refl)
      ]

  -- Skipping the words of the bitmap whose bits are all set changes no answer: the search over words
  -- answers as the search over every single bit does, with the same run or the same error. The
  -- hypotheses: the sector has `4 * n` bytes, and the scan is one that the search so far can have left,
  -- with a run in progress or without, and stands at the cluster of the sector's first bit; at least
  -- one cluster is asked for.
  pub scan_chunks-scan_bytes :
      (n : ℕ) (block : List ℕ) (s : Scan)
      → 0 < num
      → length block ≡ 4 * n
      → AreBytes block
      → IsScan from end num is_clear s
      → ((k : ℕ) → k < 8 * length block → is_clear (s.cluster_id + k) ≡ is_free_at block k)
      → finish {E = E} policy (scan_chunks policy from end num block s)
        ≡ finish {E = E} policy (scan_bytes policy from end num block s)
  unfolding scan_chunks scan_bytes
  scan_chunks-scan_bytes n [] s hn e bytes v bits = refl
  scan_chunks-scan_bytes n (b0 ∷ []) s hn e bytes v bits = absurd (omega arith)
  scan_chunks-scan_bytes n (b0 ∷ b1 ∷ []) s hn e bytes v bits = absurd (omega arith)
  scan_chunks-scan_bytes n (b0 ∷ b1 ∷ b2 ∷ []) s hn e bytes v bits = absurd (omega arith)
  scan_chunks-scan_bytes n (b0 ∷ b1 ∷ b2 ∷ b3 ∷ rest) s hn e (h0, (h1, (h2, (h3, hs)))) v bits =
      and_step-finish E policy from end num is_clear (s.cluster_id + 32)
        (scan_chunk policy from end num (b0 ∷ b1 ∷ b2 ∷ b3 ∷ []) s)
        (scan_chunks policy from end num rest) (scan_bytes policy from end num rest)
        (scan_chunk-StepsTo policy from end num is_clear hn b0 b1 b2 b3 s v
          (h0, (h1, (h2, (h3, tt))))
          (λ k h. bits k (omega arith) ∙ is_free_at-append_left (b0 ∷ b1 ∷ b2 ∷ b3 ∷ []) rest k h))
        (λ t e' w. scan_chunks-scan_bytes (n - 1) rest t hn (omega arith) hs w (λ k h.
          let z : t.cluster_id + k ≡ s.cluster_id + (32 + k) = omega (arith, e') in
          ap is_clear z
          ∙ bits (32 + k) (omega arith)
          ∙ is_free_at-append_right (b0 ∷ b1 ∷ b2 ∷ b3 ∷ []) rest k))
      ∙ Agree-finish E policy from end num _ _ _ (scan_bytes-Past E policy from end num rest)
          (scan_chunk-Agree b0 b1 b2 b3 s (h0, (h1, (h2, (h3, tt)))) v)
      ∙ ap (finish policy)
          (sym (scan_bytes-append E policy from end num (b0 ∷ b1 ∷ b2 ∷ b3 ∷ []) rest s))
