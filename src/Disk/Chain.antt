-- ===== src/Disk/Chain.antt =====
-- Chains of clusters in the table: the links that lead from a first cluster to the end.
use exfat_slim.Base.{
  ℕ, zero, suc, ◌+◌, ◌≤◌, ◌≡◌, refl, ap, subst, Bool-cases, inl, inr, ◌∙◌, Bool, true, false, ◌||◌,
  Option, none, some, List, [], ◌∷◌, length, ◌==◌, leb, ltb, ◌&&◌, arith,
}
use exfat_slim.Fat.{link}

-- Cluster `x` is in the list.
abbrev pub has : ℕ → List ℕ → Bool
has x [] = false
has x (c ∷ cs) = c == x || has x cs

-- By the entries `f`, the chain of cluster `c` is the list.
pub data ChainFrom (f : ℕ → ℕ) : ℕ → List ℕ → Type 0 where
  end_at : {c : ℕ} → link (f c) ≡ none → ChainFrom f c (c ∷ [])
  link_to :
      {c c' : ℕ} {cs : List ℕ} → link (f c) ≡ some c' → ChainFrom f c' cs → ChainFrom f c (c ∷ cs)

-- A chain survives a change of other entries.
pub ChainFrom-frame :
    {f : ℕ → ℕ} (g : ℕ → ℕ) {c : ℕ} {cs : List ℕ}
    → ((x : ℕ) → has x cs ≡ true → g x ≡ f x)
    → ChainFrom f c cs
    → ChainFrom g c cs
ChainFrom-frame g h (end_at {c} e) = end_at (ap link (h c (ground arith)) ∙ e)
ChainFrom-frame g h (link_to {c} e k) =
    link_to (ap link (h c (ground arith)) ∙ e) (ChainFrom-frame g (λ x i. h x (ground arith)) k)

-- Every cluster of a chain has a chain of its own, no longer than the whole.
tail-chain :
    {f : ℕ → ℕ} {c : ℕ} {cs : List ℕ} (x : ℕ)
    → ChainFrom f c cs
    → has x cs ≡ true
    → (ys : List ℕ) × ChainFrom f x ys × (length ys ≤ length cs)
tail-chain {f = f} x (end_at {c} e) h =
    let q : c ≡ x = ground arith in
    (c ∷ [], subst (λ z. ChainFrom f z (c ∷ [])) q (end_at e), omega arith)
tail-chain {f = f} x (link_to {c} {cs = cs} e k) h = elim (Bool-cases (c == x)) [
  | inl here ↦
      let q : c ≡ x = ground arith in
      (c ∷ cs, subst (λ z. ChainFrom f z (c ∷ cs)) q (link_to e k), omega arith)
  | inr later ↦ let (ys, k', le) = tail-chain x k (ground arith) in (ys, k', omega arith)
]

some-inj : (a b : ℕ) (o : Option ℕ) → o ≡ some a → o ≡ some b → a ≡ b
some-inj a b o e e' = ground arith

-- One cluster has one chain.
chain_unique :
    {f : ℕ → ℕ} {c : ℕ} {xs ys : List ℕ}
    → ChainFrom f c xs
    → ChainFrom f c ys
    → length xs ≡ length ys
chain_unique (end_at e) (end_at e') = refl
chain_unique (end_at e) (link_to e' k) = cc
chain_unique (link_to e k) (end_at e') = cc
chain_unique {f = f} (link_to {c} {c'} e k) (link_to {c' = c''} {cs = cs'} e' k') =
    ap suc (chain_unique k (subst (λ z. ChainFrom f z cs') (some-inj c'' c' (link (f c)) e' e) k'))

-- No cluster stands twice in a chain.
pub chain_once :
    {f : ℕ → ℕ} {c' : ℕ} {cs : List ℕ} (c : ℕ)
    → link (f c) ≡ some c'
    → ChainFrom f c' cs
    → has c cs ≡ false
chain_once {cs = cs} c e k = elim (Bool-cases (has c cs)) [
  | inl twice ↦
      let (ys, k', le) = tail-chain c k twice in
      absurd (omega (arith, chain_unique k' (link_to e k)))
  | inr once ↦ once
]

-- The clusters of a run.
abbrev pub consecutive : (first count : ℕ) → List ℕ
consecutive first zero = []
consecutive first (suc count) = first ∷ consecutive (suc first) count

pub has-consecutive :
    (x count first : ℕ) → has x (consecutive first count) ≡ (leb first x && ltb x (first + count))
has-consecutive x zero first = ground arith
has-consecutive x (suc count) first = ground (arith, has-consecutive x count (suc first))
