-- ===== src/Boson/Tests.antt =====
-- Three addresses of five bytes, their proximity orders and distances, and the theorems at them.
use favor_x.Base.{ℕ, ◌≤◌, ◌<◌, ◌≡◌, refl, true, some, [], ◌∷◌, arith, take, min}
use favor_x.Base.Bits.{testbit}
use favor_x.Base.Int.{ℤ}
use favor_x.Boson.{Address, proximity, extended_proximity, max_po}
use favor_x.Boson.Bits.{bits, first_difference}
use favor_x.Boson.Proximity.{or_cap, proximity_lem}
use favor_x.Boson.Metric.{proximity_triangle}
use favor_x.Boson.Distance.{distance, distance_cmp, closer, Compares, distance_cmp_lem}

abbrev one : Address
one = 0 ∷ 0 ∷ 0 ∷ 0 ∷ 1 ∷ []

abbrev two : Address
two = 0 ∷ 32 ∷ 0 ∷ 0 ∷ 2 ∷ []

abbrev three : Address
three = 0 ∷ 36 ∷ 0 ∷ 0 ∷ 3 ∷ []

orders : (proximity one two ≡ 10) × (proximity two three ≡ 13) × (extended_proximity one one ≡ 36)
unfolding proximity extended_proximity testbit
orders = (refl, refl, refl)

closer-two : closer two one three ≡ some true
unfolding closer
closer-two = refl

proximity_lem_example :
    proximity one two ≡ or_cap max_po (first_difference (bits (take 4 one)) (bits (take 4 two)))
proximity_lem_example = proximity_lem one two (omega arith) (omega arith)

proximity_triangle_example : min (proximity one two) (proximity two three) ≤ proximity one three
proximity_triangle_example = proximity_triangle one two three refl refl (omega arith)

same_bin : proximity two one ≡ proximity one three
unfolding proximity testbit
same_bin = refl

below_max : proximity two one < max_po
unfolding proximity testbit
below_max = omega arith

distance_cmp_lem_example :
    (r : ℤ) × (d : ℕ) × (e : ℕ) × (distance_cmp one two three ≡ some r)
    × (distance two one ≡ some d)
    × (distance three one ≡ some e)
    × Compares r d e
distance_cmp_lem_example =
    distance_cmp_lem one two three (omega arith) (omega arith) (omega arith) refl refl
