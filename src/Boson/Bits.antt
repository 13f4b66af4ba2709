-- ===== src/Boson/Bits.antt =====
-- Byte strings as bit strings, and the first place where two of them differ: what the proximity
-- order is a count of.
use favor_x.Base.{
  ℕ, zero, suc, ◌+◌, ◌-◌, ◌≡◌, refl, Bool, not, Option, none, some, List, [], ◌∷◌, ◌++◌, arith,
  if◌then◌else◌,
}
use favor_x.Base.Bits.{testbit}
use favor_x.Base.Bytes.{Bytes}

-- The bits of a byte from bit 7 - j on, most significant first.
unfoldable pub byte_bits : ℕ → ℕ → ℕ → List Bool
byte_bits zero j x = []
byte_bits (suc rounds) j x = testbit x (7 - j) ∷ byte_bits rounds (j + 1) x

unfoldable pub bits : Bytes → List Bool
unfolding byte_bits
bits [] = []
bits (x ∷ xs) = byte_bits 8 0 x ++ bits xs

abbrev pub differs : Bool → Bool → Bool
differs a b = if a then not b else b

abbrev pub next : Option ℕ → Option ℕ
next none = none
next (some d) = some (suc d)

-- The number of common leading bits, or `none` if no bit of the common length differs.
unfoldable pub first_difference : List Bool → List Bool → Option ℕ
first_difference [] ys = none
first_difference (x ∷ xs) [] = none
first_difference (x ∷ xs) (y ∷ ys) =
    let rest = next (first_difference xs ys) in if differs x y then some 0 else rest

pub first_difference_comm : (xs ys : List Bool) → first_difference xs ys ≡ first_difference ys xs
unfolding first_difference
first_difference_comm [] [] = refl
first_difference_comm [] (y ∷ ys) = refl
first_difference_comm (x ∷ xs) [] = refl
first_difference_comm (x ∷ xs) (y ∷ ys) = ground (arith, first_difference_comm xs ys)
