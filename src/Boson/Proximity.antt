-- ===== src/Boson/Proximity.antt =====
-- The two scans of proximity.go compute the number of common leading bits of two addresses.
use favor_x.Base.{
  ℕ, zero, suc, ◌+◌, ◌-◌, ◌*◌, ◌/◌, ◌≤◌, ◌<◌, ◌≡◌, refl, sym, ap, ◌∙◌, ◌⊎◌, Bool, Option, none,
  some, List, [], ◌∷◌, ◌++◌, arith, length, length-append, take, drop, get_or,
}
use favor_x.Base.Bits.{bit_xor, testbit-xor}
use favor_x.Base.Bytes.{Bytes}
use favor_x.Boson.{first_bit, scan, compared, proximity, extended_proximity, max_po, extended_po}
use favor_x.Boson.Bits.{bits, byte_bits, first_difference}

abbrev offset : ℕ → Option ℕ → Option ℕ
offset n none = none
offset n (some d) = some (n + d)

abbrev pub or_cap : ℕ → Option ℕ → ℕ
or_cap top none = top
or_cap top (some d) = d

-- One byte: the loop over `j` finds the first bit that differs.
first_bit-eq :
    (rounds j a b : ℕ)
    → first_bit rounds j (bit_xor a b)
      ≡ offset j (first_difference (byte_bits rounds j a) (byte_bits rounds j b))
unfolding first_bit byte_bits first_difference
first_bit-eq zero j a b = refl
first_bit-eq (suc rounds) j a b =
    ground (arith, first_bit-eq rounds (j + 1) a b, testbit-xor (7 - j) a b)

-- The bytes as lists, `k` of them at most.
leading : ℕ → Bytes → Bytes → Option ℕ
leading zero xs ys = none
leading (suc k) [] ys = none
leading (suc k) (x ∷ xs) [] = none
leading (suc k) (x ∷ xs) (y ∷ ys) =
    let rest = offset 8 (leading k xs ys) in
    elim (first_bit 8 0 (bit_xor x y)) [ none ↦ rest | some j ↦ some j ]

-- Fewer rounds are enough when one of the strings ends.
leading_enough :
    (r k : ℕ) (xs ys : Bytes)
    → r ≤ k
    → (r ≡ k) ⊎ (length xs ≤ r) ⊎ (length ys ≤ r)
    → leading r xs ys ≡ leading k xs ys
unfolding leading
leading_enough zero zero xs ys p h = refl
leading_enough zero (suc k) [] ys p h = refl
leading_enough zero (suc k) (x ∷ xs) [] p h = refl
leading_enough zero (suc k) (x ∷ xs) (y ∷ ys) p h = absurd (omega arith)
leading_enough (suc r) zero xs ys p h = absurd (omega arith)
leading_enough (suc r) (suc k) [] ys p h = refl
leading_enough (suc r) (suc k) (x ∷ xs) [] p h = refl
leading_enough (suc r) (suc k) (x ∷ xs) (y ∷ ys) p h =
    ground (arith, leading_enough r k xs ys (omega arith) (omega arith))

get_or-drop : (xs : Bytes) (i : ℕ) (x : ℕ) (rest : Bytes) → drop i xs ≡ x ∷ rest → get_or xs i 0 ≡ x
get_or-drop [] zero x rest e = cc
get_or-drop [] (suc i) x rest e = cc
get_or-drop (y ∷ xs) zero x rest e = cc
get_or-drop (y ∷ xs) (suc i) x rest e = get_or-drop xs i x rest e

drop-suc :
    (xs : Bytes) (i : ℕ) (x : ℕ) (rest : Bytes) → drop i xs ≡ x ∷ rest → drop (suc i) xs ≡ rest
drop-suc [] zero x rest e = cc
drop-suc [] (suc i) x rest e = cc
drop-suc (y ∷ xs) zero x rest e = cc
drop-suc (y ∷ xs) (suc i) x rest e = drop-suc xs i x rest e

-- The loop over `i`, from any byte on.
scan-leading :
    (top r i : ℕ) (one other xs ys : Bytes)
    → drop i one ≡ xs
    → drop i other ≡ ys
    → r ≤ length xs
    → r ≤ length ys
    → scan top r i one other ≡ or_cap top (offset (i * 8) (leading r xs ys))
unfolding scan leading
scan-leading top zero i one other xs ys e f p q = refl
scan-leading top (suc r) i one other [] ys e f p q = absurd (omega arith)
scan-leading top (suc r) i one other (x ∷ xs) [] e f p q = absurd (omega arith)
scan-leading top (suc r) i one other (x ∷ xs) (y ∷ ys) e f p q = ground (
  arith,
  get_or-drop one i x xs e,
  get_or-drop other i y ys f,
  ap (λ n. scan top r n one other) next_i,
  ap bit_xor (get_or-drop one i x xs e),
  scan-leading top r (suc i) one other xs ys (drop-suc one i x xs e) (drop-suc other i y ys f)
      (omega arith) (omega arith),
)
  where
    next_i : i + 1 ≡ suc i
    next_i = omega arith

first_difference-append :
    (xs ys xs' ys' : List Bool)
    → length xs ≡ length ys
    → first_difference (xs ++ xs') (ys ++ ys') ≡ elim (first_difference xs ys) [
      | none ↦ offset (length xs) (first_difference xs' ys')
      | some d ↦ some d
    ]
unfolding first_difference
first_difference-append [] [] xs' ys' e = ground arith
first_difference-append [] (y ∷ ys) xs' ys' e = absurd (omega arith)
first_difference-append (x ∷ xs) [] xs' ys' e = absurd (omega arith)
first_difference-append (x ∷ xs) (y ∷ ys) xs' ys' e =
    ground (arith, first_difference-append xs ys xs' ys' (omega arith))

length-byte_bits : (rounds j x : ℕ) → length (byte_bits rounds j x) ≡ rounds
unfolding byte_bits
length-byte_bits zero j x = refl
length-byte_bits (suc rounds) j x = ap suc (length-byte_bits rounds (j + 1) x)

byte_bits-append : (x : ℕ) (xs : Bytes) → bits (x ∷ xs) ≡ byte_bits 8 0 x ++ bits xs
unfolding bits
byte_bits-append x xs = refl

pub length-bits : (xs : Bytes) → length (bits xs) ≡ 8 * length xs
unfolding bits
length-bits [] = refl
length-bits (x ∷ xs) =
    omega
      (arith, length-append {0} (byte_bits 8 0 x) (bits xs), length-byte_bits 8 0 x, length-bits xs)

leading-eq :
    (k : ℕ) (xs ys : Bytes)
    → leading k xs ys ≡ first_difference (bits (take k xs)) (bits (take k ys))
unfolding leading
leading-eq zero xs ys = unfold bits first_difference in refl
leading-eq (suc k) [] ys = unfold bits first_difference in refl
leading-eq (suc k) (x ∷ xs) [] = unfold bits first_difference in refl
leading-eq (suc k) (x ∷ xs) (y ∷ ys) =
    rw
      (
        byte_bits-append x (take k xs),
        byte_bits-append y (take k ys),
        first_difference-append (byte_bits 8 0 x) (byte_bits 8 0 y) (bits (take k xs))
            (bits (take k ys)) (length-byte_bits 8 0 x ∙ sym (length-byte_bits 8 0 y)),
      )
      (ground (arith, first_bit-eq 8 0 x y, leading-eq k xs ys, length-byte_bits 8 0 x))

compared_bounds :
    (top : ℕ) (one other : Bytes)
    → length one < 256
    → length other < 256
    → (compared top one other ≤ top / 8 + 1)
      × (compared top one other ≤ length one)
      × (compared top one other ≤ length other)
      × ((compared top one other ≡ top / 8 + 1)
          ⊎ (length one ≤ compared top one other)
          ⊎ (length other ≤ compared top one other))
unfolding compared
compared_bounds top one other p q = ground arith

scan_lem :
    (top : ℕ) (one other : Bytes)
    → length one < 256
    → length other < 256
    → scan top (compared top one other) 0 one other
      ≡ or_cap top
          (first_difference (bits (take (top / 8 + 1) one)) (bits (take (top / 8 + 1) other)))
scan_lem top one other p q =
    let b = compared_bounds top one other p q in
    scan-leading top (compared top one other) 0 one other one other refl refl b.1 b.2
    ∙ ap (λ o. or_cap top (offset 0 o))
        (leading_enough _ (top / 8 + 1) one other b.0 b.3 ∙ leading-eq _ one other)
    ∙ or_cap-offset top _
  where
    or_cap-offset : (n : ℕ) (o : Option ℕ) → or_cap n (offset 0 o) ≡ or_cap n o
    or_cap-offset n none = refl
    or_cap-offset n (some d) = omega arith

-- For addresses of less than 256 bytes, Proximity is the number of leading bits that the first four
-- bytes of the two have in common, and 31 if these bytes (or those of the shorter one) all agree.
pub proximity_lem :
    (one other : Bytes)
    → length one < 256
    → length other < 256
    → proximity one other
      ≡ or_cap max_po (first_difference (bits (take 4 one)) (bits (take 4 other)))
unfolding proximity
proximity_lem one other p q = scan_lem max_po one other p q

-- For addresses of less than 256 bytes, ExtendedProximity is the number of leading bits that the
-- first five bytes of the two have in common, and 36 if these (or those of the shorter one) agree.
pub extended_proximity_lem :
    (one other : Bytes)
    → length one < 256
    → length other < 256
    → extended_proximity one other
      ≡ or_cap extended_po (first_difference (bits (take 5 one)) (bits (take 5 other)))
unfolding extended_proximity
extended_proximity_lem one other p q = scan_lem extended_po one other p q
