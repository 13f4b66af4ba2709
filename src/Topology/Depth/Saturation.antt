-- ===== src/Topology/Depth/Saturation.antt =====
-- recalcDepth: what is known of the bins below the depth.
use favor_x.Base.{
  ℕ, zero, suc, ◌+◌, ◌%◌, ◌≤◌, ◌<◌, ◌≡◌, ◌≢◌, refl, sym, subst, ap, ◌⊎◌, inl, inr, Bool, true,
  false, not, ◌&&◌, Option, List, [], ◌∷◌, arith, ltb, ◌==◌, if◌then◌else◌, Bool-cases,
}
use favor_x.Boson.{Address}
use favor_x.Topology.PSlice.{
  PSlice, bin, shallowest_empty, Walk, goes_on, stopped, walk_bin, walk, numbered, each_bin_rev,
}
use favor_x.Topology.PSlice.Invariant.{IsValid}
use favor_x.Topology.PSlice.Views.{IsShallowest, ended, shallowest_empty-IsShallowest}
use favor_x.Topology.Depth.{Limits, rises, shallowest_unsaturated, recalc_depth}

-- How many peers of a bin the filter leaves.
abbrev pub left : (Address → Bool) → List Address → ℕ
left filter [] = 0
left filter (peer ∷ peers) = if filter peer then left filter peers else suc (left filter peers)

-- A bin of which the filter leaves no peer, or enough of them.
abbrev pub Suffices : ℕ → ℕ → Type 0
Suffices quick n = (n ≡ 0) ⊎ (quick ≤ n)

-- What holds of the numbers below i and of i holds of those below i + 1.
below-suc : {P : ℕ → Type 0} (i : ℕ) → ((j : ℕ) → j < i → P j) → P i → (j : ℕ) → j < i + 1 → P j
below-suc {P = P} i f p j m = elim (Bool-cases (j == i)) [
  | inl h ↦ subst P (let e : i ≡ j = ground arith in e) p
  | inr h ↦ f j (ground arith)
]

module _ (quick : ℕ) (filter : Address → Bool) where
  -- Within the bin that is counted, the count goes up.
  walk_bin-same :
      (i : ℕ) (peers : List Address) (c : ℕ)
      → walk_bin (rises quick filter) i peers (i, c) ≡ ((i, c + left filter peers), goes_on)
  unfolding walk_bin rises
  walk_bin-same i [] c = ground arith
  walk_bin-same i (peer ∷ peers) c =
      ground (arith, walk_bin-same i peers c, walk_bin-same i peers (c + 1))

  -- What a walk over a later bin makes of the count of an earlier one.
  abbrev turned : ℕ → ℕ × ℕ → ℕ → (ℕ × ℕ) × Walk ℕ
  turned i st zero = (st, goes_on)
  turned i st (suc n) = if ltb st.1 quick then (st, stopped) else ((i, suc n), goes_on)

  walk_bin-later :
      (i : ℕ) (peers : List Address) (shallowest c : ℕ)
      → shallowest < i
      → walk_bin (rises quick filter) i peers (shallowest, c)
        ≡ turned i (shallowest, c) (left filter peers)
  unfolding walk_bin rises
  walk_bin-later i [] su c h = refl
  walk_bin-later i (peer ∷ peers) su c h =
      ground (arith, walk_bin-later i peers su c h, walk_bin-same i peers 1)

  walk-later :
      (s : PSlice) (n i su c : ℕ)
      → i < 256
      → su < i
      → walk (rises quick filter) (numbered s (suc n) i) (su, c)
        ≡ ended
            (rises quick filter)
            (turned i (su, c) (left filter (bin s i)))
            (walk (rises quick filter) (numbered s n (i + 1)))
  unfolding walk numbered
  walk-later s n i su c h l =
      let small : i % 256 ≡ i = omega arith in
      ground (
        arith,
        ap (λ k. walk_bin (rises quick filter) k (bin s i) (su, c)) small,
        walk_bin-later i (bin s i) su c l,
      )

  walk-first :
      (s : PSlice) (n : ℕ)
      → walk (rises quick filter) (numbered s (suc n) 0) (0, 0)
        ≡ walk (rises quick filter) (numbered s n 1) (0, left filter (bin s 0))
  unfolding walk numbered
  walk-first s n = ground (arith, walk_bin-same 0 (bin s 0) 0)

  -- The bins before number i suffice, but for the one that is counted.
  abbrev Passed : PSlice → ℕ → ℕ × ℕ → Type 0
  Passed s i (su, c) =
      (c ≡ left filter (bin s su))
      × ((j : ℕ) → j < i → j ≢ su → Suffices quick (left filter (bin s j)))

  -- The bin that is counted last is one of the bins, and those before it suffice.
  abbrev Below : PSlice → ℕ → (ℕ × ℕ) × Option ℕ → Type 0
  Below s n r = (r.0.0 < n) × ((j : ℕ) → j < r.0.0 → Suffices quick (left filter (bin s j)))

  -- When the count is high enough, all bins before number i suffice.
  Passed-high :
      (s : PSlice) (i su c : ℕ)
      → Passed s i (su, c)
      → quick ≤ c
      → (j : ℕ) → j < i
      → Suffices quick (left filter (bin s j))
  Passed-high s i su c (e, p) high j m = elim (Bool-cases (j == su)) [
    | inl same ↦
        let at : su ≡ j = ground arith in
        inr (subst (λ x. quick ≤ left filter (bin s x)) at (omega arith))
    | inr other ↦ p j m (λ q. ground arith)
  ]

  ended-Below :
      (s : PSlice) (n i su c k : ℕ) (later : ℕ × ℕ → (ℕ × ℕ) × Option ℕ)
      → su < i
      → i < n
      → Passed s i (su, c)
      → k ≡ left filter (bin s i)
      → ((su' c' : ℕ) → su' < i + 1 → Passed s (i + 1) (su', c') → Below s n (later (su', c')))
      → Below s n (ended (rises quick filter) (turned i (su, c) k) later)
  ended-Below s n i su c zero later l b (e, p) z h = h su c (omega arith) (
    e,
    below-suc {P = λ j. j ≢ su → Suffices quick (left filter (bin s j))} i p (λ d. inl (sym z)),
  )
  ended-Below s n i su c (suc k) later l b (e, p) z h = elim (Bool-cases (ltb c quick)) [
    | inl low ↦ rw low (omega arith, λ j m. p j (omega arith) (λ q. omega arith))
    | inr high ↦ rw high (
        h i (suc k) (omega arith) (
          z,
          below-suc {P = λ j. j ≢ i → Suffices quick (left filter (bin s j))} i
              (λ j m d. Passed-high s i su c (e, p) (ground arith) j m) (λ d. absurd (d refl)),
        ))
  ]

  walk-Below :
      (s : PSlice) (n i su c : ℕ)
      → i + n ≤ 256
      → su < i
      → Passed s i (su, c)
      → Below s (i + n) (walk (rises quick filter) (numbered s n i) (su, c))
  walk-Below s zero i su c h l (e, p) =
      unfold walk numbered in (omega arith, λ j m. p j (omega arith) (λ q. omega arith))
  walk-Below s (suc n) i su c h l p =
      subst (Below s (i + suc n)) (sym (walk-later s n i su c (omega arith) l)) (
        ended-Below s (i + suc n) i su c _ _ l (omega arith) p refl (λ su' c' l' p'.
          subst (λ b. Below s b (walk (rises quick filter) (numbered s n (i + 1)) (su', c')))
            (let e : i + 1 + n ≡ i + suc n = omega arith in e)
            (walk-Below s n (i + 1) su' c' (omega arith) l' p')))

  each_bin_rev-Below :
      (s : PSlice) → IsValid s → Below s s.max_bins (each_bin_rev (rises quick filter) s (0, 0))
  unfolding each_bin_rev walk numbered
  each_bin_rev-Below s v = from s.max_bins v.some_bin v.byte_bins
    where
      from :
          (n : ℕ) → 0 < n → n ≤ 256 → Below s n (walk (rises quick filter) (numbered s n 0) (0, 0))
      from zero m h = absurd (omega arith)
      from (suc n) m h = subst (Below s (suc n)) (sym (walk-first s n)) (
          subst
            (λ b. Below s b (walk (rises quick filter) (numbered s n 1) (0, left filter (bin s 0))))
            (let e : 1 + n ≡ suc n = omega arith in e)
            (walk-Below s n 1 0 (left filter (bin s 0)) (omega arith) (omega arith)
              (refl, λ j k d. absurd (d (omega arith)))))

shallowest_unsaturated-filled :
    (l : Limits) (s : PSlice) (filter : Address → Bool) (j : ℕ)
    → IsValid s
    → j < shallowest_unsaturated l s filter
    → (bin s j ≢ []) × Suffices l.quick_saturation_peers (left filter (bin s j))
unfolding shallowest_unsaturated
shallowest_unsaturated-filled l s filter j v m =
    go (shallowest_empty s) (shallowest_empty-IsShallowest s v) m
  where
    below :
        Below l.quick_saturation_peers filter s s.max_bins
          (each_bin_rev (rises l.quick_saturation_peers filter) s (0, 0))
    below = each_bin_rev-Below l.quick_saturation_peers filter s v

    go :
        (r : ℕ × Bool)
        → IsShallowest 0 s.peers r
        → j < (
            let unsaturated = (each_bin_rev (rises l.quick_saturation_peers filter) s (0, 0)).0.0 in
            if not r.1 && ltb r.0 unsaturated then r.0 else unsaturated)
        → (bin s j ≢ []) × Suffices l.quick_saturation_peers (left filter (bin s j))
    go (i, true) h m = (h j (omega (arith, v.bins, below.0)), below.1 j m)
    go (i, false) (d, e, b, z, h) m = (h j (ground arith), below.1 j (ground arith))

-- In a valid slice, whatever the filter: a bin below the depth is within the radius and not empty, and
-- the filter leaves none of its peers or at least quickSaturationPeers of them.
pub recalc_depth-Suffices :
    (l : Limits) (s : PSlice) (radius : ℕ) (filter : Address → Bool) (j : ℕ)
    → IsValid s
    → j < recalc_depth l s radius filter
    → (j < radius) × (bin s j ≢ []) × Suffices l.quick_saturation_peers (left filter (bin s j))
unfolding recalc_depth
recalc_depth-Suffices l s radius filter j v m =
    let (occupied, enough) = shallowest_unsaturated-filled l s filter j v (ground arith) in
    (ground arith, occupied, enough)
