-- ===== src/Topology/PSlice/Removal.antt =====
-- Remove takes out the one copy of an address and nothing else, although it reorders the bin.
use favor_x.Base.{
  ℕ, zero, suc, ◌+◌, ◌<◌, ◌≡◌, refl, ◌∙◌, ap, true, false, not, List, [], ◌∷◌, arith, ◌==◌,
  if◌then◌else◌, ◌&&◌, get_or, length, set, Bool-cases, ==_iff, get_or-set, length-set, inl, inr,
}
use favor_x.Base.Bytes.{bytes_eq, bytes_eq_iff}
use favor_x.Boson.{Address}
use favor_x.Topology.PSlice.{
  PSlice, bin, po, index, index_from, exists, remove, swap_remove, size, sum_lengths,
}
use favor_x.Topology.PSlice.Count.{
  count, unit_at, index_from_at, count-swap_remove, length-swap_remove,
}
use favor_x.Topology.PSlice.Invariant.{IsValid, copies, po-lt-length, exists-copies}

-- The position that `index` returns.
abbrev place : PSlice → Address → ℕ
place s x = (index s x (po s x)).1

replace_bin : PSlice → Address → PSlice
replace_bin s x = record s {
  peers = set s.peers (po s x) (swap_remove (bin s (po s x)) (place s x));
}

remove_found : (s : PSlice) (x : Address) → exists s x ≡ true → remove s x ≡ replace_bin s x
unfolding remove replace_bin exists
remove_found s x h = rw h

pub remove_missing : (s : PSlice) (x : Address) → exists s x ≡ false → remove s x ≡ s
unfolding remove exists
remove_missing s x h = rw h

place_lem :
    (s : PSlice) (x : Address)
    → exists s x ≡ true
    → (place s x < length (bin s (po s x))) × (get_or (bin s (po s x)) (place s x) [] ≡ x)
unfolding exists index
place_lem s x h =
    let (j, at_j, below, found) = index_from_at 0 x (bin s (po s x)) h in
    let e : j ≡ (index_from 0 x (bin s (po s x))).1 = omega arith in rw (← e) (below, found)

po-replace_bin : (s : PSlice) (x a : Address) → po (replace_bin s x) a ≡ po s a
unfolding po replace_bin
po-replace_bin s x a = refl

count-replace_bin :
    (s : PSlice) (x a : Address) (i : ℕ)
    → IsValid s
    → exists s x ≡ true
    → count a (bin (replace_bin s x) i) + (if po s x == i then unit_at x a else 0)
      ≡ count a (bin s i)
unfolding replace_bin
count-replace_bin s x a i v h =
    let (below, found) = place_lem s x h in
    rw
      (get_or-set s.peers (po s x) i (swap_remove (bin s (po s x)) (place s x)) []
        (po-lt-length s x v))
      (elim (Bool-cases (po s x == i)) [
        | inl e ↦
            rw (e, ← (==_iff (po s x) i).0 e)
              (ground (
                arith,
                count-swap_remove a (bin s (po s x)) (place s x) below,
                ap (λ y. unit_at y a) found,
              ))
        | inr ne ↦ rw ne (omega arith)
      ])

replace_bin-IsValid :
    (s : PSlice) (x : Address) → IsValid s → exists s x ≡ true → IsValid (replace_bin s x)
replace_bin-IsValid s x v h = record {
  some_bin = unfold replace_bin in v.some_bin;
  byte_bins = unfold replace_bin in v.byte_bins;
  bins =
      unfold replace_bin in
      (length-set s.peers (po s x) (swap_remove (bin s (po s x)) (place s x)) ∙ v.bins);
  placed =
      λ i a. rw (po-replace_bin s x a) (omega (arith, count-replace_bin s x a i v h, v.placed i a));
}

-- Remove keeps the invariant, whether the address is there or not.
pub remove-IsValid : (s : PSlice) (x : Address) → IsValid s → IsValid (remove s x)
remove-IsValid s x v = elim (Bool-cases (exists s x)) [
  | inl h ↦ rw (remove_found s x h) (replace_bin-IsValid s x v h)
  | inr h ↦ rw (remove_missing s x h) v
]

copies-replace_bin :
    (s : PSlice) (x a : Address)
    → IsValid s
    → exists s x ≡ true
    → copies (replace_bin s x) a + unit_at x a ≡ copies s a
copies-replace_bin s x a v h = rw (po-replace_bin s x a) (elim (Bool-cases (bytes_eq x a)) [
  | inl e ↦
      ground
        (arith, e, count-replace_bin s x a (po s a) v h, ap (λ y. po s y) ((bytes_eq_iff x a).0 e))
  | inr ne ↦ ground (arith, ne, count-replace_bin s x a (po s a) v h)
])

-- After Remove on a valid slice, an address is found exactly if it was found before and is not the
-- removed one: the entry that fills the gap is not lost.
pub exists-remove :
    (s : PSlice) (x a : Address)
    → IsValid s
    → exists (remove s x) a ≡ (exists s a && not (bytes_eq x a))
exists-remove s x a v = elim (Bool-cases (exists s x)) [
  | inl h ↦
      rw (remove_found s x h, exists-copies (replace_bin s x) a, exists-copies s a)
        (ground (arith, copies-replace_bin s x a v h, v.placed (po s a) a, bytes_eq_iff x a))
  | inr h ↦ rw (remove_missing s x h) (ground (arith, h, bytes_eq_iff x a))
]

sum_lengths-set :
    (bins : List (List Address)) (i : ℕ) (xs : List Address)
    → i < length bins
    → sum_lengths (set bins i xs) + length (get_or bins i []) ≡ sum_lengths bins + length xs
unfolding sum_lengths
sum_lengths-set [] i xs h = absurd (omega arith)
sum_lengths-set (b ∷ bins) zero xs h = omega arith
sum_lengths-set (b ∷ bins) (suc i) xs h = omega (arith, sum_lengths-set bins i xs (omega arith))

-- On a valid slice, Remove takes one from Length if the address is there, and nothing otherwise.
pub size-remove :
    (s : PSlice) (x : Address)
    → IsValid s
    → size (remove s x) + (if exists s x then 1 else 0) ≡ size s
size-remove s x v = elim (Bool-cases (exists s x)) [
  | inl h ↦
      let (below, found) = place_lem s x h in
      rw (remove_found s x h, h)
        (unfold size replace_bin in
          omega (
            arith,
            sum_lengths-set s.peers (po s x) (swap_remove (bin s (po s x)) (place s x))
                (po-lt-length s x v),
            length-swap_remove (bin s (po s x)) (place s x) below,
          ))
  | inr h ↦ rw (remove_missing s x h, h) (omega arith)
]

-- Remove on a valid slice leaves a valid slice, in which an address is found exactly if it was found
-- before and is not the removed one; it takes one from Length if the address is there, and nothing
-- otherwise.
pub remove_lem :
    (s : PSlice) (x a : Address)
    → IsValid s
    → IsValid (remove s x)
      × (exists (remove s x) a ≡ (exists s a && not (bytes_eq x a)))
      × (size (remove s x) + (if exists s x then 1 else 0) ≡ size s)
remove_lem s x a v = (remove-IsValid s x v, exists-remove s x a v, size-remove s x v)
