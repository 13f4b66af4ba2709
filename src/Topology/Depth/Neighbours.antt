-- ===== src/Topology/Depth/Neighbours.antt =====
-- recalcDepth: how many peers the neighbourhood from the depth on has.
use favor_x.Base.{
  ℕ, zero, suc, ◌+◌, ◌%◌, ◌≤◌, ◌<◌, ◌≡◌, refl, sym, subst, inl, inr, ap, Bool, true, false, Option,
  List, [], ◌∷◌, arith, ltb, leb, if◌then◌else◌, Bool-cases,
}
use favor_x.Boson.{Address}
use favor_x.Topology.PSlice.{
  PSlice, bin, Walk, goes_on, stopped, walk_bin, walk, numbered_down, each_bin,
}
use favor_x.Topology.PSlice.Invariant.{IsValid}
use favor_x.Topology.PSlice.Views.{ended}
use favor_x.Topology.Depth.{Limits, nears, candidate, recalc_depth}
use favor_x.Topology.Depth.Saturation.{left}

-- How many peers the filter leaves in the bins from number d on, of n bins.
abbrev pub left_from : (Address → Bool) → PSlice → ℕ → ℕ → ℕ
left_from filter s d zero = 0
left_from filter s d (suc n) =
    let rest = left_from filter s d n in if leb d n then left filter (bin s n) + rest else rest

left_from-le :
    (filter : Address → Bool) (s : PSlice) (d e n : ℕ)
    → d ≤ e
    → left_from filter s e n ≤ left_from filter s d n
left_from-le filter s d e zero h = omega arith
left_from-le filter s d e (suc n) h = ground (arith, left_from-le filter s d e n h)

module _ (low : ℕ) (filter : Address → Bool) where
  abbrev turned : ℕ → ℕ × ℕ → ℕ → (ℕ × ℕ) × Walk ℕ
  turned i (count, near) n =
      if ltb (count + n) low then ((count + n, near), goes_on) else ((low, i), stopped)

  walk_bin-cons :
      (i : ℕ) (peer : Address) (peers : List Address) (count near : ℕ)
      → walk_bin (nears low filter) i (peer ∷ peers) (count, near) ≡ (
          if filter peer
          then walk_bin (nears low filter) i peers (count, near)
          else if leb low (count + 1)
          then ((count + 1, i), stopped)
          else walk_bin (nears low filter) i peers (count + 1, near))
  unfolding walk_bin nears
  walk_bin-cons i peer peers count near = ground arith

  walk_bin-nears :
      (i : ℕ) (peers : List Address) (count near : ℕ)
      → count < low
      → walk_bin (nears low filter) i peers (count, near)
        ≡ turned i (count, near) (left filter peers)
  walk_bin-nears i [] count near h = unfold walk_bin in (ground arith)
  walk_bin-nears i (peer ∷ peers) count near h =
      rw (walk_bin-cons i peer peers count near) (
        ground
          (arith, walk_bin-nears i peers count near h, walk_bin-nears i peers (count + 1) near))

  walk-nears :
      (s : PSlice) (n count near : ℕ)
      → n < 256
      → count < low
      → walk (nears low filter) (numbered_down s (suc n)) (count, near)
        ≡ ended
            (nears low filter)
            (turned n (count, near) (left filter (bin s n)))
            (walk (nears low filter) (numbered_down s n))
  unfolding walk numbered_down
  walk-nears s n count near h l =
      let small : n % 256 ≡ n = omega arith in
      ground (
        arith,
        ap (λ k. walk_bin (nears low filter) k (bin s n) (count, near)) small,
        walk_bin-nears n (bin s n) count near l,
      )

  -- Unless it is zero, the candidate has enough peers from it on.
  abbrev Near : PSlice → ℕ → ℕ → (ℕ × ℕ) × Option ℕ → Type 0
  Near s n count r = 0 < r.0.1 → (r.0.1 < n) × (low ≤ count + left_from filter s r.0.1 n)

  Near-suc :
      (s : PSlice) (n count : ℕ) (r : (ℕ × ℕ) × Option ℕ)
      → Near s n (count + left filter (bin s n)) r
      → Near s (suc n) count r
  Near-suc s n count r h p = let (deep, enough) = h p in ground arith

  ended-Near :
      (s : PSlice) (n count : ℕ) (b : Bool)
      → b ≡ ltb (count + left filter (bin s n)) low
      → ((c : ℕ) → c < low → Near s n c (walk (nears low filter) (numbered_down s n) (c, 0)))
      → Near s (suc n) count (
          ended
            (nears low filter)
            (if b then ((count + left filter (bin s n), 0), goes_on) else ((low, n), stopped))
            (walk (nears low filter) (numbered_down s n)))
  ended-Near s n count true e h =
      let sum = count + left filter (bin s n) in
      Near-suc s n count (walk (nears low filter) (numbered_down s n) (sum, 0))
        (h sum (ground arith))
  ended-Near s n count false e h = λ p. ground arith

  walk-Near :
      (s : PSlice) (n count : ℕ)
      → n ≤ 256
      → count < low
      → Near s n count (walk (nears low filter) (numbered_down s n) (count, 0))
  walk-Near s zero count h l = unfold walk numbered_down in (λ p. absurd (omega arith))
  walk-Near s (suc n) count h l =
      subst (Near s (suc n) count) (sym (walk-nears s n count 0 (omega arith) l))
        (ended-Near s n count _ refl (λ c m. walk-Near s n c (omega arith) m))

recalc_depth-le-candidate :
    (l : Limits) (s : PSlice) (radius : ℕ) (filter : Address → Bool)
    → recalc_depth l s radius filter ≤ candidate l s filter
unfolding recalc_depth
recalc_depth-le-candidate l s radius filter = ground arith

candidate-left_from :
    (l : Limits) (s : PSlice) (filter : Address → Bool)
    → IsValid s
    → 0 < l.nn_low_watermark
    → 0 < candidate l s filter
    → l.nn_low_watermark ≤ left_from filter s (candidate l s filter) s.max_bins
unfolding candidate each_bin
candidate-left_from l s filter v h p =
    let enough = (walk-Near l.nn_low_watermark filter s s.max_bins 0 v.byte_bins h p).1 in
    omega (arith, enough)

-- In a valid slice, whatever the filter: unless the depth is zero, the filter leaves at least
-- nnLowWatermark peers in the bins from the depth on.
pub recalc_depth-left_from :
    (l : Limits) (s : PSlice) (radius : ℕ) (filter : Address → Bool)
    → IsValid s
    → 0 < recalc_depth l s radius filter
    → l.nn_low_watermark ≤ left_from filter s (recalc_depth l s radius filter) s.max_bins
recalc_depth-left_from l s radius filter v p = elim (Bool-cases (ltb 0 l.nn_low_watermark)) [
  | inl some_low ↦
      let below = recalc_depth-le-candidate l s radius filter in
      let enough = candidate-left_from l s filter v (ground arith) (omega (arith, below, p)) in
      omega (arith, enough, left_from-le filter s _ _ s.max_bins below)
  | inr no_low ↦ ground arith
]
