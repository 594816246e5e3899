-- ===== src/Allocator/Marking.antt =====
-- Marking a run of clusters changes the bits of its clusters and of no other.
use exfat_slim.Base.{
  ℕ, ◌+◌, ◌-◌, ◌*◌, ◌/◌, ◌≤◌, ◌<◌, ◌≡◌, refl, sym, ap, subst, ◌∙◌, ==_iff, Bool, Bool-cases, true,
  false, not, ◌&&◌, ◌||◌, inl, inr, Option, none, some, List, [], ◌∷◌, length, ltb, leb, ◌==◌,
  if◌then◌else◌, arith,
}
use exfat_slim.Word.{AreBytes, IsBlock}
use exfat_slim.Device.{Block, BlockDevice, Storage}
use exfat_slim.Action.{Ensures, returned, raised, bind, mono, within}
use exfat_slim.SlotCache.{update}
use exfat_slim.SlotCache.Memory.{view, Stored}
use exfat_slim.SlotCache.Operations.{update-Ensures}
use exfat_slim.Bitmap.{pos_of, BitmapChunk, run_chunks, set_bit_range}
use exfat_slim.Bitmap.Bits.{is_free_at, set_bit_range-is_free_at}
use exfat_slim.Bitmap.Chunks.{in_chunk, in_chunks, AreProper, chunks-in_chunks}
use exfat_slim.FreeRun.{AllocatedRun}
use exfat_slim.Touched.{TouchedKind, insert, touched_sector}
use exfat_slim.Allocator.{
  Session, cached, with_cached, on_cache, mark_chunk, mark_chunks, mark_until, mark_allocated,
  checked_add,
}
use exfat_slim.Allocator.State.{IsSound, is_clear}

if-eq : {A : Type 0} {c k : Bool} → k ≡ c → (x y : A) → (if k then x else y) ≡ (if c then x else y)
if-eq e x y = rw e

if-either : {A : Type 0} (P : A → Type 0) (c : Bool) {x y : A} → P x → P y → P (if c then x else y)
if-either P true p q = p
if-either P false p q = q

-- A cluster of a run.
abbrev pub in_run : AllocatedRun → ℕ → Bool
in_run run x = leb run.first_cluster x && ltb x (run.first_cluster + run.cluster_count)

module _ {d : BlockDevice} (st : Storage d) (size : ℕ) where
  -- Session `t` is `s` after the bits that `marks` selects have become `allocated`.
  pub record Marked (s t : Session d.State) (marks : ℕ → Bool) (allocated : Bool) : Type 0 where
    pub sound : IsSound st size t
    pub same_bitmap : t.alloc.bitmap ≡ s.alloc.bitmap
    pub bits :
        (x : ℕ)
        → 2 ≤ x
        → is_clear st size t x ≡ (if marks x then not allocated else is_clear st size s x)

  module _ (s : Session d.State) (v : IsSound st size s) (allocated : Bool) (chunk : BitmapChunk)
      (proper : AreProper size (chunk ∷ [])) where
    sector_id : ℕ
    sector_id = s.alloc.bitmap.first_sector + chunk.sector

    change : Block → Block
    change = set_bit_range (chunk.end - chunk.start) chunk.start allocated

    changed :
        AreBytes (change (view st (cached s) sector_id))
        × (length (change (view st (cached s) sector_id)) ≡ size)
        × ((i : ℕ)
            → is_free_at (change (view st (cached s) sector_id)) i ≡ (
                if leb chunk.start i && ltb i chunk.end
                then not allocated
                else is_free_at (view st (cached s) sector_id) i))
    unfolding change
    changed =
        let (bytes, len) = v.blocks sector_id in
        let (lt, le, _) = proper in
        let (bytes', len', bits) =
          set_bit_range-is_free_at (chunk.end - chunk.start) chunk.start allocated
            (view st (cached s) sector_id) bytes (omega (arith, len, le, lt)) in
        let e : chunk.start + (chunk.end - chunk.start) ≡ chunk.end = omega (arith, lt) in
        (
          bytes',
          len' ∙ len,
          λ i.
              bits i
              ∙ ap
                  (λ (n : ℕ).
                    if leb chunk.start i && ltb i n
                    then not allocated
                    else is_free_at (view st (cached s) sector_id) i)
                  e,
        )

    -- The bit of cluster `x` after the chunk's sector has been written.
    one_bit :
        (first sector i : ℕ) (b : Block)
        → first ≡ s.alloc.bitmap.first_sector
        → b ≡ (
            if sector_id == first + sector
            then change (view st (cached s) sector_id)
            else view st (cached s) (first + sector))
        → is_free_at b i ≡ (
            if sector == chunk.sector && (leb chunk.start i && ltb i chunk.end)
            then not allocated
            else is_free_at (view st (cached s) (s.alloc.bitmap.first_sector + sector)) i)
    unfolding sector_id
    one_bit first sector i b e eb = elim (Bool-cases (sector == chunk.sector)) [
      | inl here ↦
          let q : sector ≡ chunk.sector = (==_iff _ _).0 here in
          let hit : (sector_id == first + sector) ≡ true = ground (arith, q, e) in
          let q' : s.alloc.bitmap.first_sector + sector ≡ sector_id = omega (arith, q) in
          rw here (
            ap (λ c. is_free_at c i) (eb ∙ if-eq hit _ _)
            ∙ changed.2 i
            ∙ ap
                (λ y.
                  if leb chunk.start i && ltb i chunk.end
                  then not allocated
                  else is_free_at (view st (cached s) y) i)
                (sym q'))
      | inr away ↦
          let miss : (sector_id == first + sector) ≡ false = ground (arith, e, away) in
          rw away (
            ap (λ c. is_free_at c i) (eb ∙ if-eq miss _ _)
            ∙ ap (λ f. is_free_at (view st (cached s) (f + sector)) i) e)
    ]

    stored-Marked :
        (t : Session d.State)
        → Stored st (cached s) (cached t) sector_id (change (view st (cached s) sector_id))
        → t.alloc.bitmap ≡ s.alloc.bitmap
        → Marked s t (in_chunk size chunk) allocated
    unfolding is_clear in_chunk pos_of
    stored-Marked t p e = record {
      sound = record {
        coherent = p.coherent;
        blocks = λ y.
            subst (IsBlock size) (sym (p.stored y))
              (if-either (IsBlock size) (sector_id == y) (changed.0, changed.1) (v.blocks y));
      };
      same_bitmap = e;
      bits = λ x hx.
          one_bit t.alloc.bitmap.first_sector _ _ _ (ap (λ b. b.first_sector) e)
            (p.stored (t.alloc.bitmap.first_sector + (x - 2) / (size * 8)));
    }

    pub mark_chunk-Marked :
        Ensures
          (λ _ t. Marked s t (in_chunk size chunk) allocated)
          (λ t. Unit {0})
          (mark_chunk d size allocated chunk s)
    unfolding mark_chunk change sector_id stored-Marked
    mark_chunk-Marked =
        bind updated (λ _ t (p, e). returned (stored-Marked (touch t) p e)) (λ t q. tt)
      where
        touch : Session d.State → Session d.State
        touch t = record t {
          touched =
              insert
                (touched_sector TouchedKind.bitmap (s.alloc.bitmap.first_sector + chunk.sector))
                t.touched;
        }

        updated :
            Ensures
              (λ _ t.
                Stored st (cached s) (cached t) sector_id (change (view st (cached s) sector_id))
                × (t.alloc.bitmap ≡ s.alloc.bitmap))
              (λ t. Unit {0})
              (on_cache d size (update d sector_id change) s)
        updated =
            within (λ c. with_cached c s) (update-Ensures st sector_id change (cached s) v.coherent)
              (λ _ c p. (p, refl)) (λ c q. tt)

  or_else_marked :
      (a b : Bool) (c o : Bool)
      → (if b then c else (if a then c else o)) ≡ (if a || b then c else o)
  or_else_marked true true c o = refl
  or_else_marked true false c o = refl
  or_else_marked false b c o = refl

  Marked-trans :
      {s t u : Session d.State} {f g : ℕ → Bool} {allocated : Bool}
      → Marked s t f allocated
      → Marked t u g allocated
      → Marked s u (λ x. f x || g x) allocated
  Marked-trans {f = f} {g = g} {allocated = a} p q = record {
    sound = q.sound;
    same_bitmap = q.same_bitmap ∙ p.same_bitmap;
    bits = λ x hx.
        q.bits x hx
        ∙ ap (λ (o : Bool). if g x then not a else o) (p.bits x hx)
        ∙ or_else_marked (f x) (g x) (not a) _;
  }

  mark_chunks-Marked :
      (chunks : List BitmapChunk) (allocated : Bool) (s : Session d.State)
      → IsSound st size s
      → AreProper size chunks
      → Ensures
          (λ _ t. Marked s t (in_chunks size chunks) allocated)
          (λ t. Unit {0})
          (mark_chunks d size allocated chunks s)
  unfolding mark_chunks in_chunks
  mark_chunks-Marked [] allocated s v proper =
      returned (record { sound = v; same_bitmap = refl; bits = λ x hx. refl })
  mark_chunks-Marked (chunk ∷ later) allocated s v (lt, le, rest) =
      bind (mark_chunk-Marked s v allocated chunk (lt, le, tt))
        (λ _ t p.
          mono (mark_chunks-Marked later allocated t p.sound rest) (λ _ u q. Marked-trans p q)
            (λ u q. q))
        (λ t q. tt)

  Marked-ext :
      {s t : Session d.State} {f g : ℕ → Bool} {allocated : Bool}
      → ((x : ℕ) → 2 ≤ x → f x ≡ g x)
      → Marked s t f allocated
      → Marked s t g allocated
  Marked-ext h p = record {
    sound = p.sound;
    same_bitmap = p.same_bitmap;
    bits = λ x hx. p.bits x hx ∙ if-eq (h x hx) _ _;
  }

  -- Marking a run sets or clears the bits of exactly its clusters in the bitmap, over all sectors
  -- that it crosses, unless it is refused or the device fails.
  pub mark_allocated-Ensures :
      (run : AllocatedRun) (allocated : Bool) (s : Session d.State)
      → 0 < size
      → IsSound st size s
      → Ensures
          (λ _ t. Marked s t (in_run run) allocated)
          (λ t. Unit {0})
          (mark_allocated d size run allocated s)
  unfolding mark_allocated
  mark_allocated-Ensures run allocated s hs v = elim (Bool-cases (run.cluster_count == 0)) [
    | inl nothing ↦ rw nothing (
        returned (record {
          sound = v;
          same_bitmap = refl;
          bits = λ x hx. sym (if-eq (empty_run x (ground arith)) _ _);
        }))
    | inr more ↦ elim (Bool-cases (ltb run.first_cluster 2)) [
      | inl low ↦ rw (more, low) (raised tt)
      | inr high ↦
          rw (more, high)
            (until (ground arith) (checked_add run.first_cluster (run.cluster_count - 1)))
    ]
  ]
    where
      empty_run : (x : ℕ) → run.cluster_count ≡ 0 → in_run run x ≡ false
      empty_run x e = ground arith

      until :
          2 ≤ run.first_cluster
          → (o : Option ℕ)
          → Ensures
              (λ _ t. Marked s t (in_run run) allocated)
              (λ t. Unit {0})
              (mark_until d size run allocated o s)
      until high none = raised tt
      until high (some last) =
          let (proper, bits) =
            chunks-in_chunks size hs run.cluster_count
              (run_chunks run.first_cluster run.cluster_count) (omega arith) high in
          let marked =
            mono (mark_chunks-Marked _ allocated s v proper) (λ _ t p. Marked-ext bits p)
              (λ t q. q) in
          elim (Bool-cases (
            leb (2 + s.alloc.bitmap.cluster_count) last
            || leb s.alloc.bitmap.num_sectors ((pos_of size last).sector))) [
              | inl bad ↦ rw bad (raised tt)
              | inr good ↦ rw good marked
            ]
