-- ===== src/Topology/PSlice/Views.antt =====
-- Reading a slice: the shallowest empty bin, and the walks over all peers.
use favor_x.Base.{
  ℕ, zero, suc, ◌+◌, ◌%◌, ◌≤◌, ◌<◌, ◌≡◌, ◌≢◌, refl, ap, Bool, true, false, Option, none, some, List,
  [], ◌∷◌, ◌++◌, arith, ◌==◌, if◌then◌else◌, get_or, length, map,
}
use mathlib.Core.List.{reverse, reverse-append}
use favor_x.Boson.{Address}
use favor_x.Topology.PSlice.{
  PSlice, bin, shallowest_from, shallowest_empty, Verdict, Walk, goes_on, stopped, failed, walk_bin,
  walk, numbered, numbered_down, each_bin, each_bin_rev,
}
use favor_x.Topology.PSlice.Invariant.{IsValid}

-- What a pair returned by ShallowestEmpty says of the bins from number k on.
abbrev pub IsShallowest : ℕ → List (List Address) → ℕ × Bool → Type 0
IsShallowest k bins (i, true) = (j : ℕ) → j < length bins → get_or bins j [] ≢ []
IsShallowest k bins (i, false) =
    (d : ℕ) × (i ≡ k + d)
    × (d < length bins)
    × (get_or bins d [] ≡ [])
    × ((j : ℕ) → j < d → get_or bins j [] ≢ [])

IsShallowest-cons :
    (k : ℕ) (p : Address) (ps : List Address) (bins : List (List Address)) (r : ℕ × Bool)
    → IsShallowest (k + 1) bins r
    → IsShallowest k ((p ∷ ps) ∷ bins) r
IsShallowest-cons k p ps bins (i, true) h = all
  where
    all : (j : ℕ) → j < suc (length bins) → get_or ((p ∷ ps) ∷ bins) j [] ≢ []
    all zero l = λ e. cc
    all (suc j) l = h j (omega arith)
IsShallowest-cons k p ps bins (i, false) (d, e, l, z, h) =
    (suc d, omega arith, omega arith, z, before)
  where
    before : (j : ℕ) → j < suc d → get_or ((p ∷ ps) ∷ bins) j [] ≢ []
    before zero m = λ e. cc
    before (suc j) m = h j (omega arith)

shallowest_from-IsShallowest :
    (k : ℕ) (bins : List (List Address))
    → k + length bins ≤ 256
    → IsShallowest k bins (shallowest_from k bins)
unfolding shallowest_from
shallowest_from-IsShallowest k [] h = λ j l. absurd (omega arith)
shallowest_from-IsShallowest k ([] ∷ bins) h =
    (0, omega arith, omega arith, refl, λ j l. absurd (omega arith))
shallowest_from-IsShallowest k ((p ∷ ps) ∷ bins) h =
    IsShallowest-cons k p ps bins _ (shallowest_from-IsShallowest (k + 1) bins (omega arith))

-- On a valid slice, ShallowestEmpty returns the first bin that is empty with false, or true when no
-- bin is empty.
pub shallowest_empty-IsShallowest :
    (s : PSlice) → IsValid s → IsShallowest 0 s.peers (shallowest_empty s)
unfolding shallowest_empty
shallowest_empty-IsShallowest s v = shallowest_from-IsShallowest 0 s.peers (omega arith)

-- The peers with the numbers of their bins, in one list.
abbrev pub entries : List (ℕ × List Address) → List (Address × ℕ)
entries [] = []
entries ((i, peers) ∷ bins) = map (λ a. (a, i)) peers ++ entries bins

-- No bin of the list has the number k.
abbrev Lacks : ℕ → List (ℕ × List Address) → Type 0
Lacks k [] = Unit
Lacks k ((i, peers) ∷ bins) = (i ≢ k) × Lacks k bins

-- Bins that are numbered as bytes, each with its own number.
abbrev Numbers : List (ℕ × List Address) → Type 0
Numbers [] = Unit
Numbers ((i, peers) ∷ bins) = (i < 256) × Lacks i bins × Numbers bins

Lacks-numbered : (s : PSlice) (n i k : ℕ) → k < i → Lacks k (numbered s n i)
unfolding numbered
Lacks-numbered s zero i k h = tt
Lacks-numbered s (suc n) i k h = (λ e. omega arith, Lacks-numbered s n (i + 1) k (omega arith))

Lacks-numbered_down : (s : PSlice) (n k : ℕ) → n ≤ k → Lacks k (numbered_down s n)
unfolding numbered_down
Lacks-numbered_down s zero k h = tt
Lacks-numbered_down s (suc n) k h = (λ e. omega arith, Lacks-numbered_down s n k (omega arith))

Numbers-numbered : (s : PSlice) (n i : ℕ) → i + n ≤ 256 → Numbers (numbered s n i)
unfolding numbered
Numbers-numbered s zero i h = tt
Numbers-numbered s (suc n) i h = (
  omega arith,
  Lacks-numbered s n (i + 1) i (omega arith),
  Numbers-numbered s n (i + 1) (omega arith),
)

Numbers-numbered_down : (s : PSlice) (n : ℕ) → n ≤ 256 → Numbers (numbered_down s n)
unfolding numbered_down
Numbers-numbered_down s zero h = tt
Numbers-numbered_down s (suc n) h =
    (omega arith, Lacks-numbered_down s n n (omega arith), Numbers-numbered_down s n (omega arith))

-- The last bin comes last.
numbered-snoc :
    (s : PSlice) (n i j : ℕ)
    → i + n ≡ j
    → numbered s (suc n) i ≡ numbered s n i ++ (j, bin s j) ∷ []
unfolding numbered
numbered-snoc s zero i j e = ground arith
numbered-snoc s (suc n) i j e = ap (◌∷◌ (i, bin s i)) (numbered-snoc s n (i + 1) j (omega arith))

reverse-numbered : (s : PSlice) (n : ℕ) → reverse (numbered s n 0) ≡ numbered_down s n
reverse-numbered s zero = unfold numbered numbered_down in refl
reverse-numbered s (suc n) =
    rw
      (
        numbered-snoc s n 0 n (omega arith),
        reverse-append (numbered s n 0) ((n, bin s n) ∷ []),
        reverse-numbered s n,
      )
      (unfold numbered_down in refl)

-- Whether the entries with the number i are to be passed over.
abbrev passes : Option ℕ → ℕ → Bool
passes none i = false
passes (some k) i = i == k

module _ {ℓ κ} {S : Type ℓ} {E : Type κ} (pf : S → Address → ℕ → S × Verdict E) where
  -- One loop over such a list, which a stop or an error ends; after `next`, the entries with the same
  -- number are passed over.
  pub run : List (Address × ℕ) → Option ℕ → S → S × Option E
  run [] skip st = (st, none)
  run ((a, i) ∷ rest) skip st =
      let (st', v) = pf st a i in
      let later = run rest none st' in
      let other = run rest (some i) st' in
      let passed = run rest skip st in
      if passes skip i then passed else elim v.error [
        | some e ↦ (st', some e)
        | none ↦ if v.stop then (st', none) else if v.next then other else later
      ]

  -- The error, or that the walk stops.
  abbrev pub ended : S × Walk E → (S → S × Option E) → S × Option E
  ended (st, goes_on) k = k st
  ended (st, stopped) k = (st, none)
  ended (st, failed e) k = (st, some e)

  run-passed :
      (i : ℕ) (peers : List Address) (rest : List (Address × ℕ)) (st : S)
      → run (map (λ a. (a, i)) peers ++ rest) (some i) st ≡ run rest (some i) st
  unfolding run
  run-passed i [] rest st = refl
  run-passed i (a ∷ peers) rest st = ground (arith, run-passed i peers rest st)

  run-other :
      (i k : ℕ) (peers : List Address) (rest : List (Address × ℕ)) (st : S)
      → i ≢ k
      → run rest (some k) st ≡ run rest none st
      → run (map (λ a. (a, i)) peers ++ rest) (some k) st
        ≡ run (map (λ a. (a, i)) peers ++ rest) none st
  unfolding run
  run-other i k [] rest st h e = e
  run-other i k (a ∷ peers) rest st h e =
      let different : (i == k) ≡ false = ground arith in rw different refl

  run-Lacks :
      (k : ℕ) (bins : List (ℕ × List Address)) (st : S)
      → Lacks k bins
      → run (entries bins) (some k) st ≡ run (entries bins) none st
  unfolding run
  run-Lacks k [] st l = refl
  run-Lacks k ((i, peers) ∷ bins) st l =
      run-other i k peers (entries bins) st l.0 (run-Lacks k bins st l.1)

  run-bin :
      (i : ℕ) (peers : List Address) (rest : List (Address × ℕ)) (st : S)
      → ((st' : S) → run rest (some i) st' ≡ run rest none st')
      → run (map (λ a. (a, i)) peers ++ rest) none st
        ≡ ended (walk_bin pf i peers st) (run rest none)
  unfolding run walk_bin
  run-bin i [] rest st h = refl
  run-bin i (a ∷ peers) rest st h =
      let st' = (pf st a i).0 in
      ground (arith, run-bin i peers rest st' h, run-passed i peers rest st', h st')

  walk-run :
      (bins : List (ℕ × List Address)) (st : S)
      → Numbers bins
      → walk pf bins st ≡ run (entries bins) none st
  unfolding walk run
  walk-run [] st n = refl
  walk-run ((i, peers) ∷ bins) st n =
      let small : i % 256 ≡ i = omega (arith, n.0) in
      ground (
        arith,
        ap (λ k. walk_bin pf k peers st) small,
        run-bin i peers (entries bins) st (λ st'. run-Lacks i bins st' n.1),
        walk-run bins (walk_bin pf i peers st).0 n.2,
      )

  -- Of at most 256 bins, `s` being made of each bin as it was when it was read: EachBinRev is one loop
  -- over all peers from the shallowest bin to the deepest, and EachBin one over the bins in the
  -- opposite order. A stop ends the loop with no error, an error ends it with that error, and after a
  -- `next` the other peers of the same bin are passed over.
  pub each_bin-run :
      (s : PSlice) (st : S)
      → s.max_bins ≤ 256
      → (each_bin_rev pf s st ≡ run (entries (numbered s s.max_bins 0)) none st)
        × (each_bin pf s st ≡ run (entries (reverse (numbered s s.max_bins 0))) none st)
  unfolding each_bin each_bin_rev
  each_bin-run s st h = (
    walk-run (numbered s s.max_bins 0) st (Numbers-numbered s s.max_bins 0 (omega arith)),
    rw (reverse-numbered s s.max_bins)
        (walk-run (numbered_down s s.max_bins) st (Numbers-numbered_down s s.max_bins h)),
  )
