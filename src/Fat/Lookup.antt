-- ===== src/Fat/Lookup.antt =====
-- The table that a `Fat` shows through its cache, entry by entry.
use exfat_slim.Base.{
  ℕ, ◌+◌, ◌*◌, ◌/◌, ◌%◌, ◌^◌, ◌≤◌, ◌<◌, ◌≡◌, ◌≢◌, refl, sym, ap, subst, ◌∙◌, ==_iff, Bool,
  Bool-cases, true, false, inl, inr, Option, none, some, length, take, drop, ltb, leb, ◌&&◌, ◌⊎◌,
  ltb→lt, ◌==◌, if◌then◌else◌, arith,
}
use native.Mathlib.Nat.{div-add-mod', mod-lt}
use exfat_slim.Word.{from_le_bytes, to_le_bytes, copy_at}
use exfat_slim.Word.Laws.{
  from-to_le_bytes, length-to_le_bytes, length-copy_at, take-drop-copy_at, take-drop-copy_at_before,
  drop-copy_at_behind,
}
use exfat_slim.Device.{Block, BlockDevice, Storage}
use exfat_slim.Action.{mono, pure, and_then, ◌>>=◌, ◌>>◌, modify, Ensures, returned, bind, within}
use exfat_slim.Touched.{TouchedKind, insert, touched_sector}
use exfat_slim.SlotCache.{fetch, update}
use exfat_slim.SlotCache.Victim.{Coherent}
use exfat_slim.SlotCache.Memory.{view, Stored}
use exfat_slim.SlotCache.Operations.{fetch-Ensures, update-Ensures}
use exfat_slim.Fat.{
  FatSession, fat_cached, with_fat_cached, on_fat_cache, entry_at, put_entry, link, set_link,
  next_cluster_in_fat_chain, get_sector_id, num_entries,
}

entry_at-put_entry_self :
    (i v : ℕ) (b : Block) → 4 * i + 4 ≤ length b → v < 256 ^ 4 → entry_at i (put_entry i v b) ≡ v
unfolding entry_at put_entry
entry_at-put_entry_self i v b h hv =
    let len : length (to_le_bytes 4 v) ≡ 4 = length-to_le_bytes 4 v in
    ap from_le_bytes (
      subst
        (λ (n : ℕ). take n (drop (4 * i) (copy_at b (4 * i) (to_le_bytes 4 v))) ≡ to_le_bytes 4 v)
        len (take-drop-copy_at b (4 * i) (to_le_bytes 4 v) (omega (arith, h, len))))
    ∙ from-to_le_bytes 4 v hv

entry_at-put_entry_ne :
    (i j v : ℕ) (b : Block) → i ≢ j → entry_at j (put_entry i v b) ≡ entry_at j b
unfolding entry_at put_entry
entry_at-put_entry_ne i j v b ne = elim (Bool-cases (ltb j i)) [
  | inl lt ↦ ap from_le_bytes (
      take-drop-copy_at_before b (4 * i) (to_le_bytes 4 v) (4 * j) 4 (omega (arith, ltb→lt j i lt)))
  | inr ge ↦
      let gt : i < j = ground arith in
      ap (λ (r : Block). from_le_bytes (take 4 r))
        (drop-copy_at_behind b (4 * i) (to_le_bytes 4 v) (4 * j)
          (omega (arith, length-to_le_bytes 4 v, gt)))
]

if-eq : {A : Type 0} {c k : Bool} → k ≡ c → (x y : A) → (if k then x else y) ≡ (if c then x else y)
if-eq e x y = rw e

-- What an entry of the format says: the number of the next cluster, or that there is none (0 and 1
-- are no clusters, 0xFFFFFFF7 marks a bad one, and what is above it the end of a chain).
abbrev pub IsNext : ℕ → Option ℕ → Type 0
IsNext value (some next) = (next ≡ value) × (2 ≤ value) × (value ≤ 0xFFFFFFF6)
IsNext value none = (value < 2) ⊎ (0xFFFFFFF7 ≤ value)

link-IsNext : (value : ℕ) → IsNext value (link value)
unfolding link
link-IsNext value = elim (Bool-cases (leb 2 value && leb value 0xFFFFFFF6)) [
  | inl inside ↦ rw inside (refl, ground arith, ground arith)
  | inr outside ↦ rw outside (ground arith)
]

module _ {d : BlockDevice} (st : Storage d) (size n start : ℕ) (hn : 0 < n)
    (four : size ≡ 4 * n) where
  -- A coherent cache over sectors of `size` bytes, and a table that starts at sector `start`.
  pub record IsTable (s : FatSession d.State) : Type 0 where
    pub coherent : Coherent st (fat_cached s)
    pub blocks : (y : ℕ) → length (view st (fat_cached s) y) ≡ size
    pub started : s.fat.start_of_fat_sector ≡ some start

  -- The entry of cluster `c`.
  unfoldable pub entry : FatSession d.State → ℕ → ℕ
  unfolding entry_at
  entry s c =
      entry_at (c % num_entries size) (view st (fat_cached s) (start + c / num_entries size))

  some-inj : (f : ℕ) → (some f ≡ some start) → f ≡ start
  some-inj f e = ground arith

  Same : FatSession d.State → FatSession d.State → Type 0
  Same s t = IsTable t × ((y : ℕ) → view st (fat_cached t) y ≡ view st (fat_cached s) y)

  read-Same :
      (y : ℕ) (s : FatSession d.State)
      → IsTable s
      → Ensures
          (λ b t. (b ≡ view st (fat_cached s) y) × Same s t)
          (λ t. Unit {0})
          (on_fat_cache d size (fetch d y) s)
  unfolding Same
  read-Same y s v =
      within (λ k. with_fat_cached k s) (fetch-Ensures st y (fat_cached s) v.coherent)
        (λ b k (e, coherent, same). (
          e,
          (
            record {
              coherent = coherent;
              blocks = λ y. ap length (same y) ∙ v.blocks y;
              started = v.started;
            },
            same,
          ),
        ))
        (λ k q. tt)

  looked_up :
      (c : ℕ) (s : FatSession d.State) (o : Option ℕ)
      → IsTable s
      → o ≡ some start
      → Ensures
          (λ o t. (o ≡ link (entry s c)) × IsTable t × ((x : ℕ) → entry t x ≡ entry s x))
          (λ t. Unit {0})
          (and_then
            (get_sector_id d size o c, s)
            (λ sector_id. on_fat_cache d size (fetch d sector_id) >>= λ block.
              pure (link (entry_at (c % num_entries size) block))))
  unfolding entry Same
  looked_up c s none v e = cc
  looked_up c s (some f) v e =
      bind (read-Same (f + c / num_entries size) s v)
        (λ b t (e', (table, same)). returned (
          ap (λ b. link (entry_at (c % num_entries size) b))
              (e' ∙ ap (λ f. view st (fat_cached s) (f + c / num_entries size)) (some-inj f e)),
          table,
          λ x. ap (entry_at (x % num_entries size)) (same _),
        ))
        (λ t q. q)

  -- Looking up the link of a cluster, by the code's own reading of an entry.
  pub next_cluster_in_fat_chain-Ensures :
      (c : ℕ) (s : FatSession d.State)
      → IsTable s
      → 2 ≤ c
      → Ensures
          (λ o t. (o ≡ link (entry s c)) × IsTable t × ((x : ℕ) → entry t x ≡ entry s x))
          (λ t. Unit {0})
          (next_cluster_in_fat_chain d size c s)
  unfolding next_cluster_in_fat_chain
  next_cluster_in_fat_chain-Ensures c s v h =
      let low : ltb c 2 ≡ false = ground arith in
      rw low (looked_up c s s.fat.start_of_fat_sector v v.started)

  -- Looking up the link of a cluster returns the number that its entry holds, if that is the number of
  -- a cluster, from 2 to 0xFFFFFFF6, and nothing if the entry is free, bad or the end of a chain, and
  -- changes no entry; or it fails. The hypotheses: the cache is coherent over sectors of `4 * n` bytes,
  -- the start of the table is set, and the number of the cluster is at least 2.
  pub next_cluster_in_fat_chain-IsNext :
      (c : ℕ) (s : FatSession d.State)
      → IsTable s
      → 2 ≤ c
      → Ensures
          (λ o t. IsNext (entry s c) o × IsTable t × ((x : ℕ) → entry t x ≡ entry s x))
          (λ t. Unit {0})
          (next_cluster_in_fat_chain d size c s)
  next_cluster_in_fat_chain-IsNext c s v h =
      mono (next_cluster_in_fat_chain-Ensures c s v h)
        (λ o t (e, table, same).
          (subst (IsNext (entry s c)) (sym e) (link-IsNext (entry s c)), table, same))
        (λ t q. q)

  module _ (c to : ℕ) (s : FatSession d.State) (v : IsTable s) (hto : to < 256 ^ 4) where
    change : Block → Block
    change = put_entry (c % num_entries size) to

    length-change : (b : Block) → length (change b) ≡ length b
    unfolding change put_entry
    length-change b = length-copy_at b (4 * (c % num_entries size)) (to_le_bytes 4 to)

    m-eq : num_entries size ≡ n
    m-eq = omega (arith, four)

    same_quotient :
        (x : ℕ)
        → start + c / num_entries size ≡ start + x / num_entries size
        → c / num_entries size * num_entries size ≡ x / num_entries size * num_entries size
    same_quotient x q = ap (λ (k : ℕ). k * num_entries size) (omega (arith, q))

    written_here :
        entry_at
          (c % num_entries size)
          (change (view st (fat_cached s) (start + c / num_entries size)))
        ≡ to
    unfolding change
    written_here =
        entry_at-put_entry_self (c % num_entries size) to _
          (omega (
            arith,
            v.blocks (start + c / num_entries size),
            four,
            m-eq,
            mod-lt c {m = num_entries size} (omega (arith, m-eq)),
          ))
          hto

    kept_here :
        (x : ℕ)
        → c % num_entries size ≢ x % num_entries size
        → entry_at
            (x % num_entries size)
            (change (view st (fat_cached s) (start + c / num_entries size)))
          ≡ entry_at (x % num_entries size) (view st (fat_cached s) (start + c / num_entries size))
    unfolding change
    kept_here x ne = entry_at-put_entry_ne (c % num_entries size) (x % num_entries size) to _ ne

    -- The entry of cluster `x` after the sector of cluster `c` has been written.
    one_entry :
        (x : ℕ) (b : Block)
        → b ≡ (
            if start + c / num_entries size == start + x / num_entries size
            then change (view st (fat_cached s) (start + c / num_entries size))
            else view st (fat_cached s) (start + x / num_entries size))
        → entry_at (x % num_entries size) b ≡ (if c == x then to else entry s x)
    unfolding entry
    one_entry x b e = elim (Bool-cases (c == x)) [
      | inl here ↦
          let p : c ≡ x = (==_iff c x).0 here in
          let q : c / num_entries size ≡ x / num_entries size =
            ap (λ (y : ℕ). y / num_entries size) p in
          rw here (
            ap (λ (y : ℕ). entry_at (y % num_entries size) b) (sym p)
            ∙ ap (entry_at (c % num_entries size)) (
                e
                ∙ if-eq {c = true}
                    {k = start + c / num_entries size == start + x / num_entries size}
                    (ground (arith, q)) _ _)
            ∙ written_here)
      | inr away ↦
          rw away
            (elim (Bool-cases (start + c / num_entries size == start + x / num_entries size)) [
              | inl same ↦
                  let q : start + c / num_entries size ≡ start + x / num_entries size =
                    (==_iff _ _).0 same in
                  ap (entry_at (x % num_entries size)) (e ∙ if-eq same _ _)
                  ∙ kept_here x (λ r. ground (
                    arith,
                    away,
                    q,
                    r,
                    div-add-mod' c (num_entries size),
                    div-add-mod' x (num_entries size),
                    same_quotient x q,
                  ))
                  ∙ ap (λ y. entry_at (x % num_entries size) (view st (fat_cached s) y)) q
              | inr other ↦ ap (entry_at (x % num_entries size)) (e ∙ if-eq other _ _)
            ])
    ]

    linked :
        (t : FatSession d.State)
        → t.fat.start_of_fat_sector ≡ s.fat.start_of_fat_sector
        → Stored st
            (fat_cached s)
            (fat_cached t)
            (start + c / num_entries size)
            (change (view st (fat_cached s) (start + c / num_entries size)))
        → IsTable t × ((x : ℕ) → entry t x ≡ (if c == x then to else entry s x))
    unfolding entry
    linked t e p = (
      record {
        coherent = p.coherent;
        blocks = λ y. elim (Bool-cases (start + c / num_entries size == y)) [
          | inl q ↦ ap length (p.stored y ∙ if-eq q _ _) ∙ length-change _ ∙ v.blocks _
          | inr q ↦ ap length (p.stored y ∙ if-eq q _ _) ∙ v.blocks y
        ];
        started = e ∙ v.started;
      },
      λ x. one_entry x _ (p.stored (start + x / num_entries size)),
    )

    -- The write of the entry, in the session `u` that has the sector among the touched ones.
    linking :
        (u : FatSession d.State)
        → fat_cached u ≡ fat_cached s
        → u.fat.start_of_fat_sector ≡ s.fat.start_of_fat_sector
        → Ensures
            (λ _ t. IsTable t × ((x : ℕ) → entry t x ≡ (if c == x then to else entry s x)))
            (λ t. Unit {0})
            (on_fat_cache d size (update d (start + c / num_entries size) change) u)
    linking u e e' =
        within (λ k. with_fat_cached k u)
          (subst
            (λ k.
              Ensures
                (λ _ t.
                  Stored st (fat_cached s) t (start + c / num_entries size)
                    (change (view st (fat_cached s) (start + c / num_entries size))))
                (λ t. Unit {0}) (update d (start + c / num_entries size) change k))
            (sym e)
            (update-Ensures st (start + c / num_entries size) change (fat_cached s) v.coherent))
          (λ _ k p. linked (with_fat_cached k u) e' p) (λ k q. tt)

    touching : ℕ → FatSession d.State → FatSession d.State
    touching y u = record u { touched = insert (touched_sector TouchedKind.fat y) u.touched }

    set_from :
        (o : Option ℕ)
        → o ≡ some start
        → Ensures
            (λ _ t. IsTable t × ((x : ℕ) → entry t x ≡ (if c == x then to else entry s x)))
            (λ t. Unit {0})
            (and_then
              (get_sector_id d size o c, s)
              (λ y. modify (touching y) >> on_fat_cache d size (update d y change)))
    unfolding touching
    set_from none e = cc
    set_from (some f) e =
        subst
          (λ f.
            Ensures (λ _ t. IsTable t × ((x : ℕ) → entry t x ≡ (if c == x then to else entry s x)))
              (λ t. Unit {0})
              (on_fat_cache d size (update d (f + c / num_entries size) change)
                (touching (f + c / num_entries size) s)))
          (sym (some-inj f e)) (linking (touching (start + c / num_entries size) s) refl refl)

  -- Setting the link of a cluster changes the entry of that cluster, which reads back as what was
  -- set, and no other entry of the table. The sectors have `4 * n` bytes, and the value fits in four.
  pub set_link-Ensures :
      (c to : ℕ) (s : FatSession d.State)
      → IsTable s
      → 2 ≤ c
      → to < 256 ^ 4
      → Ensures
          (λ _ t. IsTable t × ((x : ℕ) → entry t x ≡ (if c == x then to else entry s x)))
          (λ t. Unit {0})
          (set_link d size c to s)
  unfolding set_link change touching
  set_link-Ensures c to s v h hto =
      let low : ltb c 2 ≡ false = ground arith in
      rw low (set_from c to s v hto s.fat.start_of_fat_sector v.started)
