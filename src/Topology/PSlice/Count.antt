-- ===== src/Topology/PSlice/Count.antt =====
-- How often an address stands in a list, and what appending and removing do to that number.
use favor_x.Base.{
  ℕ, zero, suc, ◌+◌, ◌-◌, ◌<◌, ◌≡◌, refl, true, List, [], ◌∷◌, ◌++◌, arith, ltb, ◌==◌,
  if◌then◌else◌, get_or, length, set, take, Bool-cases, ==_iff, inl, inr, length-set, length-take,
  get_or-take,
}
use favor_x.Base.Bytes.{bytes_eq, bytes_eq_iff}
use favor_x.Boson.{Address}
use favor_x.Topology.PSlice.{index_from, swap_remove}

-- 1 if the two are equal.
abbrev pub unit_at : Address → Address → ℕ
unit_at x a = if bytes_eq x a then 1 else 0

unfoldable pub count : Address → List Address → ℕ
count a [] = 0
count a (x ∷ xs) = unit_at x a + count a xs

pub count-append :
    (a : Address) (xs ys : List Address) → count a (xs ++ ys) ≡ count a xs + count a ys
unfolding count
count-append a [] ys = omega arith
count-append a (x ∷ xs) ys = omega (arith, count-append a xs ys)

pub count-set :
    (a z : Address) (xs : List Address) (i : ℕ)
    → i < length xs
    → count a (set xs i z) + unit_at (get_or xs i []) a ≡ count a xs + unit_at z a
unfolding count
count-set a z [] i h = absurd (omega arith)
count-set a z (x ∷ xs) zero h = omega arith
count-set a z (x ∷ xs) (suc i) h = omega (arith, count-set a z xs i (omega arith))

count-take :
    (a : Address) (xs : List Address) (n : ℕ)
    → length xs ≡ suc n
    → count a (take n xs) + unit_at (get_or xs n []) a ≡ count a xs
unfolding count
count-take a [] n h = absurd (omega arith)
count-take a (x ∷ []) zero h = omega arith
count-take a (x ∷ []) (suc n) h = absurd (omega arith)
count-take a (x ∷ y ∷ ys) zero h = absurd (omega arith)
count-take a (x ∷ y ∷ ys) (suc n) h = omega (arith, count-take a (y ∷ ys) n (omega arith))

-- `index` finds an address exactly when the bin has it.
pub index_from-count :
    (i : ℕ) (a : Address) (xs : List Address) → (index_from i a xs).0 ≡ ltb 0 (count a xs)
unfolding index_from count
index_from-count i a [] = refl
index_from-count i a (x ∷ xs) = ground (arith, index_from-count (i + 1) a xs)

-- It finds it where it stands.
pub index_from_at :
    (i : ℕ) (a : Address) (xs : List Address)
    → (index_from i a xs).0 ≡ true
    → (j : ℕ) × ((index_from i a xs).1 ≡ i + j) × (j < length xs) × (get_or xs j [] ≡ a)
unfolding index_from
index_from_at i a [] h = cc
index_from_at i a (x ∷ xs) h = elim (Bool-cases (bytes_eq x a)) [
  | inl e ↦ rw e (0, omega arith, omega arith, (bytes_eq_iff x a).0 e)
  | inr ne ↦
      let (j, at_j, below, found) = index_from_at (i + 1) a xs (rw (ne, index_from) at h) in
      (suc j, ground arith, omega arith, found)
]

-- Removal takes the entry at i, and only that one.
pub count-swap_remove :
    (a : Address) (xs : List Address) (i : ℕ)
    → i < length xs
    → count a (swap_remove xs i) + unit_at (get_or xs i []) a ≡ count a xs
unfolding swap_remove
count-swap_remove a xs i h = elim (Bool-cases (i == length xs - 1)) [
  | inl e ↦ rw e (
      ground (arith, (==_iff i (length xs - 1)).0 e, count-take a xs (length xs - 1) (omega arith)))
  | inr ne ↦
      let inner : i < length xs - 1 = ground arith in
      rw ne (
        ground (
          arith,
          count-take a xs (length xs - 1) (omega arith),
          count-set a (get_or xs (length xs - 1) []) (take (length xs - 1) xs) i
              (omega (arith, length-take (length xs - 1) xs)),
          get_or-take xs (length xs - 1) i [] inner,
        ))
]

-- It makes the bin shorter by one.
pub length-swap_remove :
    (xs : List Address) (i : ℕ) → i < length xs → length (swap_remove xs i) + 1 ≡ length xs
unfolding swap_remove
length-swap_remove xs i h = ground (
  arith,
  length-take (length xs - 1) xs,
  length-set (take (length xs - 1) xs) i (get_or xs (length xs - 1) []),
)
