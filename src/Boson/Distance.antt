-- ===== src/Boson/Distance.antt =====
-- pkg/boson/distance.go and Address.Closer: the exclusive-or distance, and its comparison byte by byte.
-- `big.Int.SetBytes` reads a byte string as a big-endian number. An error is `none`: the one error of
-- these functions says that the lengths differ.
use favor_x.Base.{
  ℕ, zero, suc, ◌+◌, ◌*◌, ◌<◌, ◌≡◌, refl, ap, sym, inl, inr, Option, none, some, [], ◌∷◌, arith,
  length, Bool, false, ◌||◌, ltb, ◌==◌, if◌then◌else◌, not, Bool-cases, ltb→lt, ==_iff,
}
use favor_x.Base.Bits.{bit_xor, xor_lt}
use favor_x.Base.Bytes.{Bytes}
use favor_x.Base.Int.{ℤ, pos, negsuc}
use favor_x.Boson.{Address}

xor_bytes : Bytes → Bytes → Bytes
xor_bytes [] ys = []
xor_bytes (x ∷ xs) [] = []
xor_bytes (x ∷ xs) (y ∷ ys) = bit_xor x y ∷ xor_bytes xs ys

unfoldable pub distance_raw : Bytes → Bytes → Option Bytes
unfolding xor_bytes
distance_raw x y = if not (length x == length y) then none else some (xor_bytes x y)

-- big.Int.SetBytes
set_bytes : ℕ → Bytes → ℕ
set_bytes acc [] = acc
set_bytes acc (b ∷ bs) = set_bytes (acc * 256 + b) bs

unfoldable pub distance : Bytes → Bytes → Option ℕ
unfolding set_bytes
distance x y = elim (distance_raw x y) [ none ↦ none | some d ↦ some (set_bytes 0 d) ]

-- The loop of DistanceCmp.
compare_from : Bytes → Bytes → Bytes → ℤ
compare_from [] x y = pos 0
compare_from (a ∷ as') [] y = pos 0
compare_from (a ∷ as') (x ∷ xs) [] = pos 0
compare_from (a ∷ as') (x ∷ xs) (y ∷ ys) =
    let rest = compare_from as' xs ys in
    let dx = bit_xor x a in
    let dy = bit_xor y a in if dx == dy then rest else if ltb dx dy then pos 1 else negsuc 0

unfoldable pub distance_cmp : Bytes → Bytes → Bytes → Option ℤ
unfolding compare_from
distance_cmp a x y =
    if not (length a == length x) || not (length a == length y)
    then none
    else some (compare_from a x y)

-- Address.Closer
unfoldable pub closer : Address → Address → Address → Option Bool
unfolding distance_cmp
closer a x y = elim (distance_cmp x a y) [
  | none ↦ none
  | some (pos n) ↦ some (n == 1)
  | some (negsuc n) ↦ some false
]

abbrev pub AreBytes : Bytes → Type 0
AreBytes [] = Unit
AreBytes (x ∷ xs) = (x < 256) × AreBytes xs

-- A smaller number stays smaller whatever bytes follow.
set_bytes_lt :
    (xs ys : Bytes) (m n : ℕ)
    → AreBytes xs
    → length xs ≡ length ys
    → m < n
    → set_bytes m xs < set_bytes n ys
unfolding set_bytes
set_bytes_lt [] [] m n h e l = l
set_bytes_lt [] (y ∷ ys) m n h e l = absurd (omega arith)
set_bytes_lt (x ∷ xs) [] m n h e l = absurd (omega arith)
set_bytes_lt (x ∷ xs) (y ∷ ys) m n h e l =
    set_bytes_lt xs ys (m * 256 + x) (n * 256 + y) h.1 (omega arith) (omega arith)

length-xor_bytes : (xs ys : Bytes) → length xs ≡ length ys → length (xor_bytes xs ys) ≡ length xs
unfolding xor_bytes
length-xor_bytes [] ys e = refl
length-xor_bytes (x ∷ xs) [] e = absurd (omega arith)
length-xor_bytes (x ∷ xs) (y ∷ ys) e = ap suc (length-xor_bytes xs ys (omega arith))

xor_bytes-AreBytes : (xs ys : Bytes) → AreBytes xs → AreBytes ys → AreBytes (xor_bytes xs ys)
unfolding xor_bytes
xor_bytes-AreBytes [] ys h k = tt
xor_bytes-AreBytes (x ∷ xs) [] h k = tt
xor_bytes-AreBytes (x ∷ xs) (y ∷ ys) h k = (xor_lt 8 x y h.0 k.0, xor_bytes-AreBytes xs ys h.1 k.1)

-- How the result of the comparison stands to two distances.
abbrev pub Compares : ℤ → ℕ → ℕ → Type 0
Compares (pos zero) d e = d ≡ e
Compares (pos (suc n)) d e = (n ≡ 0) × (d < e)
Compares (negsuc n) d e = (n ≡ 0) × (e < d)

-- One round of the loop.
compare_step :
    (r : ℤ) (dx dy d e : ℕ)
    → (dx < dy → d < e)
    → (dy < dx → e < d)
    → (dx ≡ dy → Compares r d e)
    → Compares (if dx == dy then r else if ltb dx dy then pos 1 else negsuc 0) d e
compare_step r dx dy d e less more same = elim (Bool-cases (dx == dy)) [
  | inl eq ↦ rw eq (same ((==_iff dx dy).0 eq))
  | inr ne ↦ elim (Bool-cases (ltb dx dy)) [
    | inl l ↦ rw (ne, l) (refl, less (ltb→lt dx dy l))
    | inr g ↦ rw (ne, g) (refl, more (ground arith))
  ]
]

compare_from-Compares :
    (a x y : Bytes) (m : ℕ)
    → AreBytes a
    → AreBytes x
    → AreBytes y
    → length a ≡ length x
    → length a ≡ length y
    → Compares (compare_from a x y) (set_bytes m (xor_bytes x a)) (set_bytes m (xor_bytes y a))
unfolding compare_from set_bytes xor_bytes
compare_from-Compares [] [] [] m ha hx hy p q = refl
compare_from-Compares [] [] (y ∷ ys) m ha hx hy p q = absurd (omega arith)
compare_from-Compares [] (x ∷ xs) ys m ha hx hy p q = absurd (omega arith)
compare_from-Compares (a ∷ as') [] ys m ha hx hy p q = absurd (omega arith)
compare_from-Compares (a ∷ as') (x ∷ xs) [] m ha hx hy p q = absurd (omega arith)
compare_from-Compares (a ∷ as') (x ∷ xs) (y ∷ ys) m ha hx hy p q =
    compare_step (compare_from as' xs ys) (bit_xor x a) (bit_xor y a) _ _
      (λ l. set_bytes_lt _ _ _ _ (xor_bytes-AreBytes xs as' hx.1 ha.1) same_length (omega arith))
      (λ l.
        set_bytes_lt _ _ _ _ (xor_bytes-AreBytes ys as' hy.1 ha.1) (sym same_length) (omega arith))
      (λ e. rw (← e) (
        compare_from-Compares as' xs ys (m * 256 + bit_xor x a) ha.1 hx.1 hy.1 (omega arith)
          (omega arith)))
  where
    same_length : length (xor_bytes xs as') ≡ length (xor_bytes ys as')
    same_length = omega (arith, length-xor_bytes xs as', length-xor_bytes ys as')

-- For three addresses of one length, whose entries are bytes, DistanceCmp succeeds, and its sign is
-- that of the comparison of the numbers that Distance returns: 1 if x is closer to a, -1 if y is.
pub distance_cmp_lem :
    (a x y : Bytes)
    → AreBytes a
    → AreBytes x
    → AreBytes y
    → length a ≡ length x
    → length a ≡ length y
    → (r : ℤ) × (d : ℕ) × (e : ℕ) × (distance_cmp a x y ≡ some r)
      × (distance x a ≡ some d)
      × (distance y a ≡ some e)
      × Compares r d e
unfolding distance_cmp distance distance_raw
distance_cmp_lem a x y ha hx hy p q = (
  compare_from a x y,
  set_bytes 0 (xor_bytes x a),
  set_bytes 0 (xor_bytes y a),
  ground arith,
  ground arith,
  ground arith,
  compare_from-Compares a x y 0 ha hx hy p q,
)
