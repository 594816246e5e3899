-- ===== src/Disk/Stitch.antt =====
-- Adding a run to a chain of the table: entries that lead through the run, one after the other.
use exfat_slim.Base.{
  ℕ, zero, suc, ◌+◌, ◌-◌, ◌≤◌, ◌<◌, ◌≡◌, refl, ap, ◌∙◌, true, false, ◌&&◌, ◌||◌, some, none, List,
  [], ◌∷◌, ◌++◌, leb, ltb, ◌==◌, if◌then◌else◌, arith,
}
use exfat_slim.Fat.{link, end_of_chain}
use exfat_slim.Disk.Chain.{
  has, ChainFrom, end_at, link_to, chain_once, consecutive, has-consecutive,
}

-- The entries after each cluster of a run has been linked to the one before, the first one to `prev`.
abbrev pub linked : (count next prev : ℕ) → (ℕ → ℕ) → ℕ → ℕ
linked zero next prev f x = f x
linked (suc count) next prev f x =
    linked count (suc next) next (λ y. if prev == y then next else f y) x

pub linked_ext :
    (count next prev : ℕ) (f g : ℕ → ℕ) (x : ℕ)
    → f x ≡ g x
    → linked count next prev f x ≡ linked count next prev g x
linked_ext zero next prev f g x e = e
linked_ext (suc count) next prev f g x e =
    linked_ext count (suc next) next _ _ x (ap (λ (l : ℕ). if prev == x then next else l) e)

-- In one step: the entries after a run has been added behind `prev`.
abbrev pub stitched : (first count prev : ℕ) → (ℕ → ℕ) → ℕ → ℕ
stitched first count prev f x =
    if first + count - 1 == x
    then end_of_chain
    else if prev == x
    then first
    else if leb first x && ltb x (first + count)
    then suc x
    else f x

linked-stitched :
    (count first prev : ℕ) (f : ℕ → ℕ) (x : ℕ)
    → leb first prev && ltb prev (first + suc count) ≡ false
    → linked (suc count) first prev f x
      ≡ (if prev == x then first else if leb first x && ltb x (first + count) then suc x else f x)
linked-stitched zero first prev f x h = ground arith
linked-stitched (suc count) first prev f x h =
    linked-stitched count (suc first) first (λ y. if prev == y then first else f y) x (ground arith)
    ∙ ground arith

pub stitched-linked :
    (count first prev : ℕ) (f : ℕ → ℕ) (x : ℕ)
    → leb first prev && ltb prev (first + suc count) ≡ false
    → (if first + suc count - 1 == x then end_of_chain else linked (suc count) first prev f x)
      ≡ stitched first (suc count) prev f x
stitched-linked count first prev f x h = ground (arith, linked-stitched count first prev f x h)

-- A list ends with `l`.
abbrev pub EndsWith : ℕ → List ℕ → Type 0
EndsWith l [] = ⊥
EndsWith l (c ∷ []) = c ≡ l
EndsWith l (c ∷ d ∷ cs) = EndsWith l (d ∷ cs)

EndsWith-tail :
    {f : ℕ → ℕ} {c' : ℕ} {cs : List ℕ} (c l : ℕ)
    → ChainFrom f c' cs
    → EndsWith l (c ∷ cs)
    → EndsWith l cs
EndsWith-tail c l (end_at e) h = h
EndsWith-tail c l (link_to e k) h = h

pub has-EndsWith : (l : ℕ) (cs : List ℕ) → EndsWith l cs → has l cs ≡ true
has-EndsWith l [] h = absurd h
has-EndsWith l (c ∷ []) h = ground arith
has-EndsWith l (c ∷ d ∷ cs) h = ground (arith, has-EndsWith l (d ∷ cs) h)

-- A chain goes on where its last entry leads.
pub ChainFrom-append :
    {f : ℕ → ℕ} (g : ℕ → ℕ) {c n : ℕ} {cs ds : List ℕ} (l : ℕ)
    → ChainFrom f c cs
    → EndsWith l cs
    → ((x : ℕ) → has x cs ≡ true → (l == x) ≡ false → g x ≡ f x)
    → link (g l) ≡ some n
    → ChainFrom g n ds
    → ChainFrom g c (cs ++ ds)
ChainFrom-append g l (end_at {c} e) last same hl kd = link_to (ap (λ z. link (g z)) last ∙ hl) kd
ChainFrom-append {f = f} g l (link_to {c} {cs = cs} e k) last same hl kd =
    let later = EndsWith-tail c l k last in
    let other : (l == c) ≡ false = ground (arith, has-EndsWith l cs later, chain_once c e k) in
    link_to (ap link (same c (ground arith) other) ∙ e)
      (ChainFrom-append g l k later (λ x i ne. same x (ground arith) ne) hl kd)

link-some : (v : ℕ) → 2 ≤ v → v < 0xFFFFFFF7 → link v ≡ some v
unfolding link
link-some v lo hi = ground arith

link-end : link end_of_chain ≡ none
unfolding link
link-end = refl

-- The clusters of a run whose entries lead from one to the next.
ChainFrom-consecutive :
    (g : ℕ → ℕ) (count first : ℕ)
    → ((x : ℕ) → first ≤ x → x < first + count → link (g x) ≡ some (suc x))
    → link (g (first + count)) ≡ none
    → ChainFrom g first (consecutive first (suc count))
ChainFrom-consecutive g zero first on last = end_at (ap (λ z. link (g z)) (omega arith) ∙ last)
ChainFrom-consecutive g (suc count) first on last = link_to (on first (omega arith) (omega arith)) (
    ChainFrom-consecutive g count (suc first) (λ x lo hi. on x (omega arith) (omega arith))
      (ap (λ z. link (g z)) (omega arith) ∙ last))

pub has-append : (x : ℕ) (cs ds : List ℕ) → has x (cs ++ ds) ≡ (has x cs || has x ds)
has-append x [] ds = refl
has-append x (c ∷ cs) ds = ground (arith, has-append x cs ds)

-- The chain with the run added.
module _ (f g : ℕ → ℕ) (cs : List ℕ) (first count prev : ℕ)
    (apart : (x : ℕ) → has x cs ≡ true → leb first x && ltb x (first + suc count) ≡ false)
    (is : (x : ℕ)
      → has x (cs ++ consecutive first (suc count)) ≡ true
      → g x ≡ stitched first (suc count) prev f x) where
  on_chain : (x : ℕ) → has x cs ≡ true → (prev == x) ≡ false → g x ≡ f x
  on_chain x i ne =
      is x (ground (arith, has-append x cs (consecutive first (suc count)), i))
      ∙ ground (arith, apart x i)

  at_end : has prev cs ≡ true → g prev ≡ first
  at_end i =
      is prev (ground (arith, has-append prev cs (consecutive first (suc count)), i))
      ∙ ground (arith, apart prev i)

  in_added :
      (x : ℕ)
      → first ≤ x
      → x < first + suc count
      → has x (cs ++ consecutive first (suc count)) ≡ true
  in_added x lo hi =
      ground (
        arith,
        has-append x cs (consecutive first (suc count)),
        has-consecutive x (suc count) first,
      )

  in_run : has prev cs ≡ true → (x : ℕ) → first ≤ x → x < first + count → g x ≡ suc x
  in_run i x lo hi = is x (in_added x lo (omega arith)) ∙ ground (arith, apart prev i)

  at_last : g (first + count) ≡ end_of_chain
  at_last = is (first + count) (in_added (first + count) (omega arith) (omega arith)) ∙ ground arith

  pub ChainFrom-stitched :
      {c : ℕ}
      → ChainFrom f c cs
      → EndsWith prev cs
      → 2 ≤ first
      → first + suc count ≤ 0xFFFFFFF7
      → ChainFrom g c (cs ++ consecutive first (suc count))
  ChainFrom-stitched k last lo hi =
      let i = has-EndsWith prev cs last in
      ChainFrom-append g prev k last on_chain
        (ap link (at_end i) ∙ link-some first lo (omega arith))
        (ChainFrom-consecutive g count first
          (λ x a b. ap link (in_run i x a b) ∙ link-some (suc x) (omega arith) (omega arith))
          (ap link at_last ∙ link-end))
