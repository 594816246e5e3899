-- ===== src/Touched/Covers.antt =====
-- No touched sector is forgotten.
use exfat_slim.Base.{
  ℕ, ◌≤◌, ◌≡◌, refl, Bool-cases, true, ◌⊎◌, inl, inr, List, [], ◌∷◌, ◌++◌, length, length-append,
  ltb, arith,
}
use exfat_slim.Touched.{TouchedSector, FileDirty, has_sector, insert}

has_sector-append_self :
    (t : TouchedSector) (ts : List TouchedSector) → has_sector t.sector (ts ++ (t ∷ [])) ≡ true
unfolding has_sector
has_sector-append_self t [] = ground arith
has_sector-append_self t (u ∷ us) = ground (arith, has_sector-append_self t us)

has_sector-append :
    (x : ℕ) (ts us : List TouchedSector) → has_sector x ts ≡ true → has_sector x (ts ++ us) ≡ true
unfolding has_sector
has_sector-append x [] us h = cc
has_sector-append x (t ∷ ts) us h = ground (arith, has_sector-append x ts us)

-- Inserting a touched sector: it is in the list or the list is marked as overflowed, every sector
-- of the list stays in it, a mark of overflow stays, and the list stays within its six places.
pub insert-has_sector :
    (t : TouchedSector) (f : FileDirty)
    → length f.sectors ≤ 6
    → (((insert t f).overflowed ≡ true) ⊎ (has_sector t.sector (insert t f).sectors ≡ true))
      × ((x : ℕ) → has_sector x f.sectors ≡ true → has_sector x (insert t f).sectors ≡ true)
      × (f.overflowed ≡ true → (insert t f).overflowed ≡ true)
      × (length (insert t f).sectors ≤ 6)
unfolding insert
insert-has_sector t f h = elim (Bool-cases (has_sector t.sector f.sectors)) [
  | inl old ↦ rw old (inr old, (λ x e. e), (λ e. e), h)
  | inr fresh ↦ elim (Bool-cases (ltb (length f.sectors) 6)) [
    | inl room ↦
        rw (fresh, room)
          (
            inr (has_sector-append_self t f.sectors),
            (λ x e. has_sector-append x f.sectors _ e),
            (λ e. e),
            ground (arith, length-append f.sectors (t ∷ [])),
          )
    | inr full ↦ rw (fresh, full) (inl refl, (λ x e. e), (λ e. refl), h)
  ]
]
