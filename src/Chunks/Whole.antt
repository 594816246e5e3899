-- ===== src/Chunks/Whole.antt =====
-- The chunks of a name are the name.
use exfat_slim.Base.{
  ℕ, zero, suc, ◌-◌, ◌≤◌, ◌<◌, ◌≡◌, refl, sym, ap, ◌∙◌, Bool-cases, inl, inr, List, [], ◌∷◌, ◌++◌,
  ◌⊎◌, ltb, take, drop, length, length-append, replicate, length-replicate, ◌==◌, arith,
}
use exfat_slim.Chunks.{pull, next_chunk_of, all_chunks}

-- The units of the chunks, each cut to its number of units.
abbrev pub joined : List (List ℕ × ℕ) → List ℕ
joined [] = []
joined ((chunk, len) ∷ chunks) = take len chunk ++ joined chunks

-- Every chunk has `n` units: all of them of the name, or, in the last chunk, at least one of the name
-- and then zeros.
abbrev pub AreFull : ℕ → List (List ℕ × ℕ) → Type 0
AreFull n [] = Unit {0}
AreFull n ((chunk, len) ∷ chunks) =
    (length chunk ≡ n)
    × (0 < len)
    × (len ≤ n)
    × ((len ≡ n) ⊎ (chunks ≡ []))
    × (drop len chunk ≡ replicate (n - len) 0)
    × AreFull n chunks

pull-append : (n : ℕ) (units : List ℕ) → (pull n units).0 ++ (pull n units).1 ≡ units
unfolding pull
pull-append zero units = refl
pull-append (suc n) [] = refl
pull-append (suc n) (item ∷ units) = ap (λ r. item ∷ r) (pull-append n units)

length-pull : (n : ℕ) (units : List ℕ) → length (pull n units).0 ≤ n
unfolding pull
length-pull zero units = omega arith
length-pull (suc n) [] = omega arith
length-pull (suc n) (item ∷ units) = omega (arith, length-pull n units)

pull-empty : (n : ℕ) (units : List ℕ) → 0 < n → length (pull n units).0 ≡ 0 → units ≡ []
unfolding pull
pull-empty zero units h e = absurd (omega arith)
pull-empty (suc n) [] h e = refl
pull-empty (suc n) (item ∷ units) h e = absurd (omega arith)

-- A pull of less than `n` units leaves none.
pull-all : (n : ℕ) (units : List ℕ) → length (pull n units).0 < n → (pull n units).1 ≡ []
unfolding pull
pull-all zero units h = absurd (omega arith)
pull-all (suc n) [] h = refl
pull-all (suc n) (item ∷ units) h = pull-all n units (omega arith)

all_chunks-nil : (rounds n : ℕ) → all_chunks rounds n [] ≡ []
unfolding all_chunks next_chunk_of pull
all_chunks-nil zero n = refl
all_chunks-nil (suc rounds) zero = refl
all_chunks-nil (suc rounds) (suc n) = refl

-- A chunk is full, or nothing comes after it.
full_or_last :
    (rounds n : ℕ) (units : List ℕ)
    → (length (pull n units).0 ≡ n) ⊎ (all_chunks rounds n (pull n units).1 ≡ [])
full_or_last rounds n units = elim (Bool-cases (ltb (length (pull n units).0) n)) [
  | inl short ↦
      inr (ap (all_chunks rounds n) (pull-all n units (ground arith)) ∙ all_chunks-nil rounds n)
  | inr full ↦ inl (ground (arith, length-pull n units))
]

take-append_length : (xs ys : List ℕ) → take (length xs) (xs ++ ys) ≡ xs
take-append_length [] ys = refl
take-append_length (x ∷ xs) ys = ap (λ r. x ∷ r) (take-append_length xs ys)

drop-append_length : (xs ys : List ℕ) → drop (length xs) (xs ++ ys) ≡ ys
drop-append_length [] ys = refl
drop-append_length (x ∷ xs) ys = drop-append_length xs ys

-- A loop over the chunks of a name sees the whole name and nothing else, in chunks of `n` units, all
-- of them of the name but in the last chunk, which has one at least and is filled up with zeros: as many rounds as the name has units, and one more, are
-- enough.
pub all_chunks-joined :
    (rounds n : ℕ) (units : List ℕ)
    → 0 < n
    → length units < rounds
    → (joined (all_chunks rounds n units) ≡ units) × AreFull n (all_chunks rounds n units)
unfolding all_chunks next_chunk_of
all_chunks-joined zero n units hn h = absurd (omega arith)
all_chunks-joined (suc rounds) n units hn h = elim (Bool-cases (length (pull n units).0 == 0)) [
  | inl done ↦ rw done (sym (pull-empty n units hn (ground arith)), tt)
  | inr more ↦
      let taken = (pull n units).0 in
      let left = (pull n units).1 in
      let whole = pull-append n units in
      let (same, full) =
        all_chunks-joined rounds n left hn
          (ground (arith, ap length whole, length-append taken left)) in
      rw more (
        ap (λ r. r ++ joined (all_chunks rounds n left)) (take-append_length taken _)
            ∙ ap (λ r. taken ++ r) same
            ∙ whole,
        (
          length-append taken _
              ∙ omega (arith, length-pull n units, length-replicate {A = ℕ} (n - length taken) 0),
          ground arith,
          length-pull n units,
          full_or_last rounds n units,
          drop-append_length taken _,
          full,
        ),
      )
]
