-- ===== src/FreeRun/Loops.antt =====
-- The loops of the search over bits, bytes and chunks of four bytes.
use exfat_slim.Base.{
  ℕ, zero, suc, ◌+◌, ◌-◌, ◌*◌, ◌^◌, ◌<◌, ◌≡◌, ==_iff, refl, sym, ap, subst, ◌∙◌, Bool, Bool-cases,
  false, inl, inr, List, [], ◌∷◌, length, ltb, ◌==◌, if◌then◌else◌, arith, agree_below,
  agree_below→eq,
}
use exfat_slim.Word.{from_le_bytes, AreBytes}
use exfat_slim.Bitmap.{is_free}
use exfat_slim.Bitmap.Bits.{
  is_free_at, is_free_at-head, is_free_at-tail, is_free_at-append_left, is_free_at-append_right,
}
use exfat_slim.FreeRun.{
  SearchPolicy, Scan, Step, going, found, stopped, and_step, scan_bit, scan_bits, scan_bytes,
  scan_chunk, scan_chunks,
}
use exfat_slim.FreeRun.Sound.{IsScan, StepsTo, close_run-StepsTo, scan_bit-StepsTo}

-- No bit of a byte of ones is clear.
pub full_byte : (bit : ℕ) → bit < 8 → is_free 255 bit ≡ false
unfolding is_free agree_below
full_byte bit h =
    let e = agree_below→eq (λ i. if is_free 255 i then 1 else 0) (λ i. 0) 8 refl bit h in
    ground arith

abbrev pub AreFull : List ℕ → Type 0
AreFull [] = Unit {0}
AreFull (b ∷ bs) = (b ≡ 255) × AreFull bs

full_bytes :
    (bytes : List ℕ) → AreFull bytes → (k : ℕ) → k < 8 * length bytes → is_free_at bytes k ≡ false
full_bytes [] f k h = absurd (omega arith)
full_bytes (b ∷ bs) (e, es) k h = elim (Bool-cases (ltb k 8)) [
  | inl lt ↦
      is_free_at-head b bs k (ground arith) ∙ ap (λ b. is_free b k) e ∙ full_byte k (ground arith)
  | inr ge ↦
      let e' : k ≡ 8 + (k - 8) = ground arith in
      ap (is_free_at (b ∷ bs)) e'
      ∙ is_free_at-tail b bs (k - 8)
      ∙ full_bytes bs es (k - 8) (ground arith)
]

-- A word of ones is four bytes of ones.
pub full_word :
    (b0 b1 b2 b3 : ℕ)
    → AreBytes (b0 ∷ b1 ∷ b2 ∷ b3 ∷ [])
    → from_le_bytes (b0 ∷ b1 ∷ b2 ∷ b3 ∷ []) ≡ 2 ^ 32 - 1
    → (b0 ≡ 255) × AreFull (b1 ∷ b2 ∷ b3 ∷ [])
unfolding from_le_bytes
full_word b0 b1 b2 b3 (h0, (h1, (h2, (h3, _)))) e =
    (omega (arith, e), (omega (arith, e), (omega (arith, e), (omega (arith, e), tt))))

full_chunk :
    (b0 b1 b2 b3 : ℕ)
    → AreBytes (b0 ∷ b1 ∷ b2 ∷ b3 ∷ [])
    → from_le_bytes (b0 ∷ b1 ∷ b2 ∷ b3 ∷ []) ≡ 2 ^ 32 - 1
    → (k : ℕ) → k < 32
    → is_free_at (b0 ∷ b1 ∷ b2 ∷ b3 ∷ []) k ≡ false
full_chunk b0 b1 b2 b3 bytes e k h =
    full_bytes (b0 ∷ b1 ∷ b2 ∷ b3 ∷ []) (full_word b0 b1 b2 b3 bytes e) k h

module _ (policy : SearchPolicy) (from end num : ℕ) (is_clear : ℕ → Bool) (hn : 0 < num) where
  and_step-StepsTo :
      (id id' : ℕ) (r : Step) (f : Scan → Step)
      → StepsTo from end num is_clear id r
      → ((s : Scan)
          → s.cluster_id ≡ id
          → IsScan from end num is_clear s
          → StepsTo from end num is_clear id' (f s))
      → StepsTo from end num is_clear id' (and_step r f)
  and_step-StepsTo id id' (going s) f (e, v) next = next s e v
  and_step-StepsTo id id' (found run) f h next = h
  and_step-StepsTo id id' (stopped s) f h next = h

  scan_bits-StepsTo :
      (count byte bit : ℕ) (s : Scan)
      → IsScan from end num is_clear s
      → ((k : ℕ) → k < count → is_clear (s.cluster_id + k) ≡ is_free byte (bit + k))
      → StepsTo from end num is_clear
          (s.cluster_id + count)
          (scan_bits policy from end num count byte bit s)
  unfolding scan_bits
  scan_bits-StepsTo zero byte bit s v bits = (omega arith, v)
  scan_bits-StepsTo (suc count) byte bit s v bits =
      and_step-StepsTo _ _ (scan_bit policy from end num byte bit s)
        (scan_bits policy from end num count byte (suc bit))
        (scan_bit-StepsTo from end num is_clear policy byte bit s hn v (
          let z : s.cluster_id + 0 ≡ s.cluster_id = omega arith in
          let z' : bit + 0 ≡ bit = omega arith in cc (bits 0 (omega arith))))
        (λ t e w.
          subst
            (λ n.
              StepsTo from end num is_clear n
                (scan_bits policy from end num count byte (suc bit) t))
            (omega arith)
            (scan_bits-StepsTo count byte (suc bit) t w (λ k h.
              let z : t.cluster_id + k ≡ s.cluster_id + suc k = omega (arith, e) in
              let z' : suc bit + k ≡ bit + suc k = omega arith in cc (bits (suc k) (omega arith)))))

  scan_bytes-StepsTo :
      (bytes : List ℕ) (s : Scan)
      → IsScan from end num is_clear s
      → ((k : ℕ) → k < 8 * length bytes → is_clear (s.cluster_id + k) ≡ is_free_at bytes k)
      → StepsTo from end num is_clear
          (s.cluster_id + 8 * length bytes)
          (scan_bytes policy from end num bytes s)
  unfolding scan_bytes
  scan_bytes-StepsTo [] s v bits = (omega arith, v)
  scan_bytes-StepsTo (byte ∷ bytes) s v bits =
      and_step-StepsTo _ _ (scan_bits policy from end num 8 byte 0 s)
        (scan_bytes policy from end num bytes)
        (scan_bits-StepsTo 8 byte 0 s v (λ k h.
          let z : 0 + k ≡ k = omega arith in
          bits k (omega arith) ∙ is_free_at-head byte bytes k h ∙ ap (is_free byte) (sym z)))
        (λ t e w.
          subst (λ n. StepsTo from end num is_clear n (scan_bytes policy from end num bytes t))
            (omega arith)
            (scan_bytes-StepsTo bytes t w (λ k h.
              let z : t.cluster_id + k ≡ s.cluster_id + (8 + k) = omega (arith, e) in
              ap is_clear z ∙ bits (8 + k) (omega arith) ∙ is_free_at-tail byte bytes k)))

  -- A chunk of four bytes, read or skipped.
  pub scan_chunk-StepsTo :
      (b0 b1 b2 b3 : ℕ) (s : Scan)
      → IsScan from end num is_clear s
      → AreBytes (b0 ∷ b1 ∷ b2 ∷ b3 ∷ [])
      → ((k : ℕ) → k < 32 → is_clear (s.cluster_id + k) ≡ is_free_at (b0 ∷ b1 ∷ b2 ∷ b3 ∷ []) k)
      → StepsTo from end num is_clear
          (s.cluster_id + 32)
          (scan_chunk policy from end num (b0 ∷ b1 ∷ b2 ∷ b3 ∷ []) s)
  unfolding scan_chunk
  scan_chunk-StepsTo b0 b1 b2 b3 s v bytes bits =
      elim (Bool-cases (from_le_bytes (b0 ∷ b1 ∷ b2 ∷ b3 ∷ []) == 2 ^ 32 - 1)) [
        | inl full ↦ rw full (
            close_run-StepsTo from end num is_clear policy 32 s.cluster_id s.first_cluster s.count
              s.longest hn v
              (λ x h h'.
                let z : x ≡ s.cluster_id + (x - s.cluster_id) = omega arith in
                ap is_clear z
                ∙ bits (x - s.cluster_id) (omega arith)
                ∙ full_chunk b0 b1 b2 b3 bytes ((==_iff _ _).0 full) (x - s.cluster_id)
                    (omega arith)))
        | inr mixed ↦ rw mixed (scan_bytes-StepsTo (b0 ∷ b1 ∷ b2 ∷ b3 ∷ []) s v bits)
      ]

  -- All the chunks of a sector, whose length is a multiple of four.
  pub scan_chunks-StepsTo :
      (n : ℕ) (block : List ℕ) (s : Scan)
      → length block ≡ 4 * n
      → IsScan from end num is_clear s
      → AreBytes block
      → ((k : ℕ) → k < 8 * length block → is_clear (s.cluster_id + k) ≡ is_free_at block k)
      → StepsTo from end num is_clear
          (s.cluster_id + 8 * length block)
          (scan_chunks policy from end num block s)
  unfolding scan_chunks
  scan_chunks-StepsTo n [] s e v bytes bits = (omega arith, v)
  scan_chunks-StepsTo n (b0 ∷ []) s e v bytes bits = absurd (omega arith)
  scan_chunks-StepsTo n (b0 ∷ b1 ∷ []) s e v bytes bits = absurd (omega arith)
  scan_chunks-StepsTo n (b0 ∷ b1 ∷ b2 ∷ []) s e v bytes bits = absurd (omega arith)
  scan_chunks-StepsTo n (b0 ∷ b1 ∷ b2 ∷ b3 ∷ rest) s e v (h0, (h1, (h2, (h3, hs)))) bits =
      and_step-StepsTo _ _ (scan_chunk policy from end num (b0 ∷ b1 ∷ b2 ∷ b3 ∷ []) s)
        (scan_chunks policy from end num rest)
        (scan_chunk-StepsTo b0 b1 b2 b3 s v (h0, (h1, (h2, (h3, tt))))
          (λ k h. bits k (omega arith) ∙ is_free_at-append_left (b0 ∷ b1 ∷ b2 ∷ b3 ∷ []) rest k h))
        (λ t e' w.
          subst (λ m. StepsTo from end num is_clear m (scan_chunks policy from end num rest t))
            (omega arith)
            (scan_chunks-StepsTo (n - 1) rest t (omega arith) w hs (λ k h.
              let z : t.cluster_id + k ≡ s.cluster_id + (32 + k) = omega (arith, e') in
              ap is_clear z
              ∙ bits (32 + k) (omega arith)
              ∙ is_free_at-append_right (b0 ∷ b1 ∷ b2 ∷ b3 ∷ []) rest k)))
