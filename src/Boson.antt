-- ===== src/Boson.antt =====
-- pkg/boson: addresses as byte strings and their proximity order (proximity.go). `boson.Address`
-- wraps a byte slice that no code changes after construction, so it is the byte string itself.
-- `uint8(len(b))` wraps at 256, as written below.
pub mod Bits
pub mod Proximity
pub mod Metric
pub mod Distance
pub mod Tests
use favor_x.Base.{
  ℕ, zero, suc, ◌+◌, ◌-◌, ◌*◌, ◌/◌, ◌%◌, Bool, true, false, Option, none, some, List, [], ◌∷◌, ltb,
  if◌then◌else◌, get_or, length,
}
use favor_x.Base.Bits.{bit_xor, testbit}
use favor_x.Base.Bytes.{Bytes, bytes_eq}

abbrev pub Address : Type 0
Address = Bytes

abbrev pub max_po : ℕ
max_po = 31

abbrev pub extended_po : ℕ
extended_po = max_po + 5

-- Address.MemberOf
unfoldable pub member_of : Address → List Address → Bool
member_of a [] = false
member_of a (v ∷ addrs) = if bytes_eq v a then true else member_of a addrs

-- The loop over `j`: `m - j` rounds are left, and the first bit that is set ends it.
unfoldable pub first_bit : ℕ → ℕ → ℕ → Option ℕ
first_bit zero j oxo = none
first_bit (suc rounds) j oxo =
    let rest = first_bit rounds (j + 1) oxo in if testbit oxo (7 - j) then some j else rest

-- The loop over `i`: `b - i` rounds are left; `cap` is returned when no bit differs.
unfoldable pub scan : ℕ → ℕ → ℕ → Bytes → Bytes → ℕ
scan top zero i one other = top
scan top (suc rounds) i one other =
    let rest = scan top rounds (i + 1) one other in
    elim (first_bit 8 0 (bit_xor (get_or one i 0) (get_or other i 0))) [
      | none ↦ rest
      | some j ↦ i * 8 + j
    ]

-- The number of bytes that are compared.
unfoldable pub compared : ℕ → Bytes → Bytes → ℕ
compared top one other =
    let b = top / 8 + 1 in
    let l = length one % 256 in
    let b' = if ltb l b then l else b in let l' = length other % 256 in if ltb l' b' then l' else b'

unfoldable pub proximity : Bytes → Bytes → ℕ
unfolding scan compared first_bit
proximity one other = scan max_po (compared max_po one other) 0 one other

unfoldable pub extended_proximity : Bytes → Bytes → ℕ
unfolding scan compared first_bit
extended_proximity one other = scan extended_po (compared extended_po one other) 0 one other
