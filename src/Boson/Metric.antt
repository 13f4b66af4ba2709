-- ===== src/Boson/Metric.antt =====
-- The proximity order as the metric of the address space.
use favor_x.Base.{
  ℕ, zero, suc, ◌+◌, ◌≤◌, ◌<◌, ◌≡◌, refl, ap, ◌∙◌, sym, ◌⊎◌, inl, inr, Option, none, some, List, [],
  ◌∷◌, arith, length, take, min, Option-cases, Bool, length-take,
}
use favor_x.Base.Bytes.{Bytes}
use favor_x.Boson.{proximity, max_po}
use favor_x.Boson.Bits.{bits, first_difference, first_difference_comm}
use favor_x.Boson.Proximity.{or_cap, proximity_lem, length-bits}

abbrev AtMost : Option ℕ → ℕ → Type 0
AtMost none d = ⊥
AtMost (some d') d = d' ≤ d

-- The number of common bits falls when a bit is put in front of both lists, or vanishes.
-- What the first 32 bits of two addresses share.
abbrev shared : Bytes → Bytes → Option ℕ
shared x y = first_difference (bits (take 4 x)) (bits (take 4 y))

first_difference_triangle :
    (xs ys zs : List Bool)
    → length xs ≡ length ys
    → length ys ≡ length zs
    → (d : ℕ) → first_difference xs zs ≡ some d
    → AtMost (first_difference xs ys) d ⊎ AtMost (first_difference ys zs) d
unfolding first_difference
first_difference_triangle [] ys zs p q d h = cc
first_difference_triangle (x ∷ xs) [] zs p q d h = absurd (omega arith)
first_difference_triangle (x ∷ xs) (y ∷ ys) [] p q d h = absurd (omega arith)
first_difference_triangle (x ∷ xs) (y ∷ ys) (z ∷ zs) p q zero h = ground arith
first_difference_triangle (x ∷ xs) (y ∷ ys) (z ∷ zs) p q (suc d) h =
    ground (arith, first_difference_triangle xs ys zs (omega arith) (omega arith) d)

first_difference-lt-length :
    (xs ys : List Bool) (d : ℕ) → first_difference xs ys ≡ some d → d < length xs
unfolding first_difference
first_difference-lt-length [] ys d h = cc
first_difference-lt-length (x ∷ xs) [] d h = cc
first_difference-lt-length (x ∷ xs) (y ∷ ys) zero h = omega arith
first_difference-lt-length (x ∷ xs) (y ∷ ys) (suc d) h =
    ground (arith, first_difference-lt-length xs ys d)

triangle_capped :
    (top : ℕ) (a b c : Option ℕ)
    → ((d : ℕ) → c ≡ some d → d < top + 1)
    → ((d : ℕ) → a ≡ some d → d < top + 1)
    → ((d : ℕ) → c ≡ some d → AtMost a d ⊎ AtMost b d)
    → min (or_cap top a) (or_cap top b) ≤ or_cap top c
triangle_capped top none none none h k t = omega arith
triangle_capped top none none (some d) h k t = absurd (omega (arith, t d refl))
triangle_capped top none (some e) none h k t = omega arith
triangle_capped top none (some e) (some d) h k t = omega (arith, t d refl)
triangle_capped top (some a) none none h k t = omega (arith, k a refl)
triangle_capped top (some a) none (some d) h k t = omega (arith, t d refl)
triangle_capped top (some a) (some e) none h k t = omega (arith, k a refl)
triangle_capped top (some a) (some e) (some d) h k t = omega (arith, t d refl)

module _ (x y z : Bytes) (same_xy : length x ≡ length y) (same_yz : length y ≡ length z)
    (short : length z < 256) where
  lengths : length (bits (take 4 x)) ≡ length (bits (take 4 y))
  lengths =
      omega
        (arith, length-bits (take 4 x), length-bits (take 4 y), length-take 4 x, length-take 4 y)

  lengths' : length (bits (take 4 y)) ≡ length (bits (take 4 z))
  lengths' =
      omega
        (arith, length-bits (take 4 y), length-bits (take 4 z), length-take 4 y, length-take 4 z)

  at_most_32 : length (bits (take 4 x)) ≤ 32
  at_most_32 = omega (arith, length-bits (take 4 x), length-take 4 x)

  -- Of three addresses of one length below 256, the proximity order of the first and the third is at
  -- least the smaller of the other two orders: the order is an ultrametric.
  pub proximity_triangle : min (proximity x y) (proximity y z) ≤ proximity x z
  proximity_triangle =
      rw
        (
          proximity_lem x y (omega arith) (omega arith),
          proximity_lem y z (omega arith) short,
          proximity_lem x z (omega arith) short,
        )
        (triangle_capped max_po _ _ _
          (λ d e. omega (arith, at_most_32, first_difference-lt-length _ _ d e))
          (λ d e. omega (arith, at_most_32, first_difference-lt-length _ _ d e))
          (first_difference_triangle _ _ _ lengths lengths'))

first_difference_same :
    (xs ys zs : List Bool) (d e : ℕ)
    → first_difference xs ys ≡ some d
    → first_difference ys zs ≡ some d
    → first_difference xs zs ≡ some e
    → d < e
unfolding first_difference
first_difference_same [] ys zs d e h k l = cc
first_difference_same (x ∷ xs) [] zs d e h k l = cc
first_difference_same (x ∷ xs) (y ∷ ys) [] d e h k l = cc
first_difference_same (x ∷ xs) (y ∷ ys) (z ∷ zs) d zero h k l = ground arith
first_difference_same (x ∷ xs) (y ∷ ys) (z ∷ zs) zero (suc e) h k l = omega arith
first_difference_same (x ∷ xs) (y ∷ ys) (z ∷ zs) (suc d) (suc e) h k l =
    ground (arith, first_difference_same xs ys zs d e)

same_capped :
    (top : ℕ) (a b c : Option ℕ)
    → ((d e : ℕ) → a ≡ some d → b ≡ some d → c ≡ some e → d < e)
    → or_cap top a ≡ or_cap top b
    → or_cap top a < top
    → or_cap top a < or_cap top c
same_capped top none b c h p q = absurd (omega arith)
same_capped top (some a) none c h p q = absurd (omega arith)
same_capped top (some a) (some b) none h p q = q
same_capped top (some a) (some b) (some c) h p q = h a c refl (ap some (sym p)) refl

-- Proximity is symmetric, for addresses of less than 256 bytes.
pub proximity_comm : (x y : Bytes) → length x < 256 → length y < 256 → proximity x y ≡ proximity y x
proximity_comm x y p q =
    proximity_lem x y p q
    ∙ ap (or_cap max_po) (first_difference_comm (bits (take 4 x)) (bits (take 4 y)))
    ∙ sym (proximity_lem y x q p)

-- Two addresses that have the same proximity order to a third one, below the maximum of 31, are
-- closer to each other than that order says: bins split the address space by one bit. All three
-- have less than 256 bytes.
pub proximity_same_bin :
    (x y z : Bytes)
    → length x < 256
    → length y < 256
    → length z < 256
    → proximity x y ≡ proximity y z
    → proximity x y < max_po
    → proximity x y < proximity x z
proximity_same_bin x y z p q r e l =
    rw (proximity_lem x y p q, proximity_lem x z p r)
      (same_capped max_po (shared x y) (shared y z) (shared x z)
        (first_difference_same (bits (take 4 x)) (bits (take 4 y)) (bits (take 4 z)))
        (sym (proximity_lem x y p q) ∙ e ∙ proximity_lem y z q r) (rw (proximity_lem x y p q) at l))

or_cap-le : (xs ys : List Bool) → length xs ≤ 32 → or_cap max_po (first_difference xs ys) ≤ max_po
or_cap-le xs ys h = elim (Option-cases (first_difference xs ys)) [
  | inl e ↦ rw e (omega arith)
  | inr (d, e) ↦ rw e (omega (arith, first_difference-lt-length xs ys d e))
]

-- The proximity order of two addresses of less than 256 bytes is at most 31.
pub proximity-le-max_po : (x y : Bytes) → length x < 256 → length y < 256 → proximity x y ≤ max_po
proximity-le-max_po x y p q = rw (proximity_lem x y p q) (
    or_cap-le (bits (take 4 x)) (bits (take 4 y))
      (omega (arith, length-bits (take 4 x), length-take 4 x)))
