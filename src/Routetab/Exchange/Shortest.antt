-- ===== src/Routetab/Exchange/Shortest.antt =====
-- Which path is passed on.
use favor_x.Base.{
  ℕ, suc, ◌+◌, ◌≤◌, ◌<◌, ◌≡◌, refl, ◌∙◌, ◌⊎◌, Bool-cases, inl, inr, some, List, [], ◌∷◌, ◌++◌,
  arith, ltb, length, get_elem?,
}
use favor_x.Base.Bytes.{Bytes}
use favor_x.Boson.{Address}
use favor_x.Routetab.Table.{RoutePath}
use favor_x.Routetab.Exchange.{shortest, extended, convert_paths_to_pb_paths}

-- No path has fewer items than n.
abbrev pub AllAtLeast : ℕ → List RoutePath → Type 0
AllAtLeast n [] = Unit
AllAtLeast n (p ∷ paths) = (n ≤ length p.items) × AllAtLeast n paths

less_AllAtLeast :
    (m n : ℕ) (paths : List RoutePath) → m ≤ n → AllAtLeast n paths → AllAtLeast m paths
less_AllAtLeast m n [] h a = tt
less_AllAtLeast m n (p ∷ paths) h a = (omega (arith, a.0), less_AllAtLeast m n paths h a.1)

shortest_lem :
    (paths : List RoutePath) (k n key : ℕ)
    → ((shortest paths k n key ≡ key) × AllAtLeast n paths)
      ⊎ ((j : ℕ) × (q : RoutePath) × (shortest paths k n key ≡ k + j)
          × (get_elem? paths j ≡ some q)
          × (length q.items < n)
          × AllAtLeast (length q.items) paths)
unfolding shortest
shortest_lem [] k n key = inl (refl, tt)
shortest_lem (p ∷ paths) k n key = elim (Bool-cases (ltb (length p.items) n)) [
  | inl less ↦ elim (shortest_lem paths (k + 1) (length p.items) k) [
    | inl (e, a) ↦
        inr (0, p, rw (shortest, less) (e ∙ omega arith), refl, ground arith, (omega arith, a))
    | inr (j, q, e, g, l, a) ↦ inr (
      suc j,
      q,
      rw (shortest, less) (e ∙ omega arith),
      g,
      ground (arith, l),
      (omega (arith, l), a),
    )
  ]
  | inr more ↦ elim (shortest_lem paths (k + 1) n key) [
    | inl (e, a) ↦ inl (rw (shortest, more) e, (ground arith, a))
    | inr (j, q, e, g, l, a) ↦
        inr (suc j, q, rw (shortest, more) (e ∙ omega arith), g, l, (ground (arith, l), a))
  ]
]

-- Of one path at least, convertPathsToPbPaths passes on one path only, made of one of those given, of
-- which none has fewer items: its items are the old ones and then the node itself, its bodies the old
-- ones and then the new body, and its signature is that of the new body after the old signature.
pub convert_paths_to_pb_paths-AllAtLeast :
    (sign : Bytes → List Bytes → Bytes) (self : Address) (p : RoutePath) (paths : List RoutePath)
    (body : Bytes)
    → (j : ℕ) × (q : RoutePath) × (get_elem? (p ∷ paths) j ≡ some q)
      × AllAtLeast (length q.items) (p ∷ paths)
      × (convert_paths_to_pb_paths sign self (p ∷ paths) body
          ≡ record {
            sign = sign body (q.sign ∷ []);
            bodys = q.bodys ++ body ∷ [];
            items = q.items ++ self ∷ [];
          }
            ∷ [])
unfolding convert_paths_to_pb_paths extended
convert_paths_to_pb_paths-AllAtLeast sign self p paths body =
    elim (shortest_lem paths 1 (length p.items) 0) [
      | inl (e, a) ↦ (0, p, refl, (omega arith, a), rw (convert_paths_to_pb_paths, e) refl)
      | inr (j, q, e, g, l, a) ↦
          let n : 1 + j ≡ suc j = omega arith in
          (suc j, q, g, (omega (arith, l), a), rw (convert_paths_to_pb_paths, e, n, g) refl)
    ]
