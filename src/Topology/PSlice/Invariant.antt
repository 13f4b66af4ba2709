-- ===== src/Topology/PSlice/Invariant.antt =====
-- The invariant of the bins: an address stands once at most, in the bin of its proximity order.
use favor_x.Base.{
  ℕ, zero, suc, ◌+◌, ◌≤◌, ◌<◌, ◌≡◌, refl, ◌∙◌, true, List, [], ◌∷◌, ◌++◌, arith, ltb, ◌==◌,
  if◌then◌else◌, ◌||◌, get_or, length, Bool-cases, get_or-set, length-set, inl, inr, replicate,
  length-replicate,
}
use favor_x.Base.Bytes.{bytes_eq, bytes_eq_iff, bytes_eq_refl}
use favor_x.Boson.{Address, member_of}
use favor_x.Topology.PSlice.{
  PSlice, new, bin, po, index, append_peer, append_all, mark, add_one, add, exists,
}
use favor_x.Topology.PSlice.Count.{count, unit_at, count-append, index_from-count}

pub record IsValid (s : PSlice) : Type 0 where
  pub some_bin : 0 < s.max_bins
  pub byte_bins : s.max_bins ≤ 256
  pub bins : length s.peers ≡ s.max_bins
  pub placed : (i : ℕ) (a : Address) → count a (bin s i) ≤ (if po s a == i then 1 else 0)

-- How often the slice holds an address, whatever the bin.
abbrev pub copies : PSlice → Address → ℕ
copies s a = count a (bin s (po s a))

-- A valid slice always has a bin for an address: no index is out of range.
pub po-lt-length : (s : PSlice) (a : Address) → IsValid s → po s a < length s.peers
unfolding po
po-lt-length s a v = ground arith

pub exists-copies : (s : PSlice) (a : Address) → exists s a ≡ ltb 0 (copies s a)
unfolding exists index
exists-copies s a = index_from-count 0 a (bin s (po s a))

pub po-append_peer : (s : PSlice) (i : ℕ) (x a : Address) → po (append_peer s i x) a ≡ po s a
unfolding po append_peer
po-append_peer s i x a = refl

count-append_peer :
    (s : PSlice) (x a : Address) (i : ℕ)
    → IsValid s
    → count a (bin (append_peer s (po s x) x) i)
      ≡ count a (bin s i) + (if po s x == i then unit_at x a else 0)
unfolding append_peer count
count-append_peer s x a i v =
    rw (get_or-set s.peers (po s x) i (bin s (po s x) ++ x ∷ []) [] (po-lt-length s x v))
      (ground (arith, count-append a (bin s (po s x)) (x ∷ [])))

-- Appending an address that is not there keeps the invariant.
pub append_peer-IsValid :
    (s : PSlice) (x : Address) → IsValid s → copies s x ≡ 0 → IsValid (append_peer s (po s x) x)
append_peer-IsValid s x v h = record {
  some_bin = unfold append_peer in v.some_bin;
  byte_bins = unfold append_peer in v.byte_bins;
  bins = unfold append_peer in (length-set s.peers (po s x) (bin s (po s x) ++ x ∷ []) ∙ v.bins);
  placed = λ i a.
      rw (po-append_peer s (po s x) x a)
        (ground (arith, count-append_peer s x a i v, v.placed i a, bytes_eq_iff x a));
}

pub copies-append_peer :
    (s : PSlice) (x a : Address)
    → IsValid s
    → copies (append_peer s (po s x) x) a ≡ copies s a + unit_at x a
copies-append_peer s x a v =
    rw (po-append_peer s (po s x) x a, count-append_peer s x a (po s a) v)
      (elim (Bool-cases (bytes_eq x a)) [
        | inl e ↦ rw (e, (bytes_eq_iff x a).0 e) (ground arith)
        | inr ne ↦ rw ne (ground arith)
      ])

-- No address stands twice in the list.
abbrev pub Distinct : List Address → Type 0
Distinct xs = (a : Address) → count a xs ≤ 1

Distinct-tail : (x : Address) (xs : List Address) → Distinct (x ∷ xs) → Distinct xs
unfolding count
Distinct-tail x xs d a = omega (arith, d a)

-- What the loops of `Add` keep, over the slice `s0` that they started from.
record Adding (s0 s : PSlice) (addrs : List Address) : Type 0 where
  valid : IsValid s
  same_po : (a : Address) → po s a ≡ po s0 a
  fresh : (a : Address) → 0 < count a addrs → copies s a ≡ copies s0 a
  distinct : Distinct addrs

-- What they leave: each new address has one copy more.
record Added (s0 s : PSlice) (addrs : List Address) (t : PSlice) : Type 0 where
  valid : IsValid t
  same_po : (a : Address) → po t a ≡ po s0 a
  counts :
      (a : Address) → copies t a ≡ copies s a + (if ltb 0 (copies s0 a) then 0 else count a addrs)

Adding-skip :
    (s0 s : PSlice) (x : Address) (addrs : List Address)
    → Adding s0 s (x ∷ addrs)
    → Adding s0 s addrs
unfolding count
Adding-skip s0 s x addrs k = record {
  valid = k.valid;
  same_po = k.same_po;
  fresh = λ a h. k.fresh a (omega arith);
  distinct = Distinct-tail x addrs k.distinct;
}

Adding-append :
    (s0 s : PSlice) (x : Address) (addrs : List Address)
    → Adding s0 s (x ∷ addrs)
    → copies s0 x ≡ 0
    → Adding s0 (append_peer s (po s x) x) addrs
unfolding count
Adding-append s0 s x addrs k h = record {
  valid = append_peer-IsValid s x k.valid (k.fresh x (rw (bytes_eq_refl x) (omega arith)) ∙ h);
  same_po = λ a. po-append_peer s (po s x) x a ∙ k.same_po a;
  fresh = λ a p. ground (arith, copies-append_peer s x a k.valid, k.fresh a, k.distinct a);
  distinct = Distinct-tail x addrs k.distinct;
}

Added-skip :
    (s0 s t : PSlice) (x : Address) (addrs : List Address)
    → Added s0 s addrs t
    → ltb 0 (copies s0 x) ≡ true
    → Added s0 s (x ∷ addrs) t
unfolding count
Added-skip s0 s t x addrs r h = record {
  valid = r.valid;
  same_po = r.same_po;
  counts = λ a. elim (Bool-cases (bytes_eq x a)) [
    | inl e ↦ let e' : x ≡ a = (bytes_eq_iff x a).0 e in rw (← e') (ground (arith, r.counts x))
    | inr ne ↦ rw ne (ground (arith, r.counts a))
  ];
}

Added-append :
    (s0 s t : PSlice) (x : Address) (addrs : List Address)
    → IsValid s
    → Added s0 (append_peer s (po s x) x) addrs t
    → copies s0 x ≡ 0
    → Added s0 s (x ∷ addrs) t
unfolding count
Added-append s0 s t x addrs v r h = record {
  valid = r.valid;
  same_po = r.same_po;
  counts = λ a. elim (Bool-cases (bytes_eq x a)) [
    | inl e ↦
        let e' : x ≡ a = (bytes_eq_iff x a).0 e in
        rw (← e') (ground (arith, r.counts x, copies-append_peer s x x v))
    | inr ne ↦ rw ne (ground (arith, r.counts a, copies-append_peer s x a v, ne))
  ];
}

pub index-copies : (s : PSlice) (a : Address) → (index s a (po s a)).0 ≡ ltb 0 (copies s a)
unfolding index
index-copies s a = index_from-count 0 a (bin s (po s a))

append_all-Added :
    (s0 s : PSlice) (addrs : List Address)
    → Adding s0 s addrs
    → Added s0 s addrs (append_all s (mark s0 addrs))
unfolding append_all mark
append_all-Added s0 s [] k = record {
  valid = k.valid;
  same_po = k.same_po;
  counts = λ a. unfold count in ground arith;
}
append_all-Added s0 s (x ∷ addrs) k = elim (Bool-cases (ltb 0 (copies s0 x))) [
  | inl e ↦
      rw (index-copies s0 x, e)
        (Added-skip s0 s _ x addrs (append_all-Added s0 s addrs (Adding-skip s0 s x addrs k)) e)
  | inr ne ↦
      let h : copies s0 x ≡ 0 = ground arith in
      rw (index-copies s0 x, ne, ← k.same_po x)
        (Added-append s0 s _ x addrs k.valid
          (append_all-Added s0 (append_peer s (po s x) x) addrs (Adding-append s0 s x addrs k h)) h)
]

add_one-append_all : (s : PSlice) (x : Address) → append_all s (mark s (x ∷ [])) ≡ add_one s x
unfolding append_all mark add_one
add_one-append_all s x = refl

-- Add is one such loop, also where it takes the short path for one address.
add-Added :
    (s : PSlice) (addrs : List Address) → IsValid s → Distinct addrs → Added s s addrs (add s addrs)
unfolding add
add-Added s [] v d =
    append_all-Added s s []
      (record { valid = v; same_po = λ a. refl; fresh = λ a h. refl; distinct = d })
add-Added s (x ∷ []) v d = rw (← add_one-append_all s x) (
    append_all-Added s s (x ∷ [])
      (record { valid = v; same_po = λ a. refl; fresh = λ a h. refl; distinct = d }))
add-Added s (x ∷ y ∷ addrs) v d =
    append_all-Added s s (x ∷ y ∷ addrs)
      (record { valid = v; same_po = λ a. refl; fresh = λ a h. refl; distinct = d })

-- On a valid slice, Add of distinct addresses keeps the invariant.
pub add-IsValid :
    (s : PSlice) (addrs : List Address) → IsValid s → Distinct addrs → IsValid (add s addrs)
add-IsValid s addrs v d = (add-Added s addrs v d).valid

count-member_of : (a : Address) (xs : List Address) → ltb 0 (count a xs) ≡ member_of a xs
unfolding count member_of
count-member_of a [] = refl
count-member_of a (x ∷ xs) = ground (arith, count-member_of a xs)

-- After Add of distinct addresses to a valid slice, an address is found exactly if it was found
-- before or is one of those added.
pub exists-add :
    (s : PSlice) (addrs : List Address) (a : Address)
    → IsValid s
    → Distinct addrs
    → exists (add s addrs) a ≡ (exists s a || member_of a addrs)
exists-add s addrs a v d =
    rw (exists-copies (add s addrs) a, exists-copies s a, ← count-member_of a addrs)
      (ground (arith, (add-Added s addrs v d).counts a))

-- Add of distinct addresses to a valid slice leaves a valid slice, in which an address is found
-- exactly if it was found before or is one of those added.
pub add_lem :
    (s : PSlice) (addrs : List Address) (a : Address)
    → IsValid s
    → Distinct addrs
    → IsValid (add s addrs) × (exists (add s addrs) a ≡ (exists s a || member_of a addrs))
add_lem s addrs a v d = (add-IsValid s addrs v d, exists-add s addrs a v d)

bin-replicate : (a : Address) (n i : ℕ) → count a (get_or (replicate n []) i []) ≡ 0
unfolding count
bin-replicate a zero i = refl
bin-replicate a (suc n) zero = refl
bin-replicate a (suc n) (suc i) = bin-replicate a n i

-- New gives a valid slice for 1 to 256 bins.
pub new-IsValid : (n : ℕ) (base : Address) → 0 < n → n ≤ 256 → IsValid (new n base)
unfolding new
new-IsValid n base p q = record {
  some_bin = p;
  byte_bins = q;
  bins = length-replicate n [];
  placed = λ i a. omega (arith, bin-replicate a n i);
}
