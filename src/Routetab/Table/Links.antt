-- ===== src/Routetab/Table/Links.antt =====
-- How a save and a delete change the routes of each target.
use favor_x.Base.{
  ℕ, zero, suc, ◌-◌, ◌≤◌, ◌<◌, ◌≡◌, refl, ◌∙◌, ◌⊎◌, inl, inr, Bool, Bool-cases, Option-cases, true,
  false, Option, none, some, ◌||◌, List, [], ◌∷◌, arith, ltb, if◌then◌else◌, length, take,
  length-take,
}
use favor_x.Base.Bytes.{Bytes, bytes_eq, bytes_eq_iff, bytes_eq_refl}
use favor_x.Base.Map.{Map, lookup, insert, lookup-insert}
use favor_x.Boson.{Address}
use favor_x.Routetab.Table.{
  TargetRoute, Table, Config, exist_route, kept, with_route, save_route, save_routes,
}

-- The routes under a key, none if it is missing.
abbrev pub routes_at : Map (List TargetRoute) → Bytes → List TargetRoute
routes_at routes k = elim (lookup k routes) [ none ↦ [] | some rs ↦ rs ]

pub exist_route-take :
    (r : TargetRoute) (n : ℕ) (rs : List TargetRoute)
    → exist_route r (take n rs) ≡ true
    → exist_route r rs ≡ true
unfolding exist_route
exist_route-take r zero rs h = absurd (ground arith)
exist_route-take r (suc n) [] h = absurd (ground arith)
exist_route-take r (suc n) (v ∷ rs) h = ground (arith, exist_route-take r n rs)

exist_route-kept :
    (r : TargetRoute) (alpha : ℕ) (old : List TargetRoute)
    → exist_route r (kept alpha old) ≡ true
    → exist_route r old ≡ true
unfolding kept
exist_route-kept r alpha old h =
    ground (arith, exist_route-take r alpha old, exist_route-take r (alpha - 1) old)

-- A route that exists is there as it is.
exist_route_head :
    (r v : TargetRoute) (rs : List TargetRoute)
    → exist_route r (v ∷ rs) ≡ true
    → (r ≡ v) ⊎ (exist_route r rs ≡ true)
unfolding exist_route
exist_route_head r v rs h =
    ground (arith, bytes_eq_iff v.path_key r.path_key, bytes_eq_iff v.neighbor r.neighbor)

length-kept :
    (alpha : ℕ) (old : List TargetRoute)
    → 0 < alpha
    → length old ≤ alpha
    → length (kept alpha old) < alpha
unfolding kept
length-kept alpha old h le = ground (arith, length-take (alpha - 1) old, length-take alpha old)

exist_route_self : (r : TargetRoute) (rs : List TargetRoute) → exist_route r (r ∷ rs) ≡ true
unfolding exist_route
exist_route_self r rs = ground (arith, bytes_eq_refl r.path_key, bytes_eq_refl r.neighbor)

-- Whether one of these targets has the key k.
abbrev pub hits : Config → Bytes → List Address → Bool
hits c k [] = false
hits c k (x ∷ xs) = bytes_eq (c.bytes_to_hash x) k || hits c k xs

module _ (c : Config) where
  -- What one save of a route does to the routes under a key.
  pub record Saved (route : TargetRoute) (hit : Bool) (before after : List TargetRoute)
      : Type 0 where
    pub old_or_new :
        (r : TargetRoute)
        → exist_route r after ≡ true
        → (exist_route r before ≡ true) ⊎ ((r ≡ route) × (hit ≡ true))
    pub here : hit ≡ true → exist_route route after ≡ true
    pub stays : exist_route route before ≡ true → exist_route route after ≡ true
    pub bounded :
        0 < c.neighbor_alpha → length before ≤ c.neighbor_alpha → length after ≤ c.neighbor_alpha

  same-Saved :
      (route : TargetRoute) (hit : Bool) (rs : List TargetRoute)
      → (hit ≡ true → exist_route route rs ≡ true)
      → Saved route hit rs rs
  same-Saved route hit rs h = record {
    old_or_new = λ r e. inl e;
    here = h;
    stays = λ e. e;
    bounded = λ p le. le;
  }

  head-Saved :
      (route : TargetRoute) (before tail : List TargetRoute)
      → ((r : TargetRoute) → exist_route r tail ≡ true → exist_route r before ≡ true)
      → (0 < c.neighbor_alpha → length before ≤ c.neighbor_alpha → length tail < c.neighbor_alpha)
      → Saved route true before (route ∷ tail)
  head-Saved route before tail h l = record {
    old_or_new = λ r e. elim (exist_route_head r route tail e) [
      | inl same ↦ inr (same, refl)
      | inr old ↦ inl (h r old)
    ];
    here = λ e. exist_route_self route tail;
    stays = λ e. exist_route_self route tail;
    bounded = λ p le. omega (arith, l p le);
  }

  none_exists :
      (r : TargetRoute) (rs : List TargetRoute) → exist_route r [] ≡ true → exist_route r rs ≡ true
  unfolding exist_route
  none_exists r rs e = absurd (ground arith)

  -- What SavePath leaves under the key of the target.
  abbrev left_by : Option (List TargetRoute) → Option (List TargetRoute) → List TargetRoute
  left_by old none = elim old [ none ↦ [] | some rs ↦ rs ]
  left_by old (some rs) = rs

  with_route-Saved :
      (route : TargetRoute) (o : Option (List TargetRoute))
      → Saved route true
          (elim o [ none ↦ [] | some rs ↦ rs ])
          (left_by o (with_route c.neighbor_alpha route o))
  unfolding with_route
  with_route-Saved route none = head-Saved route [] [] (λ r e. e) (λ p le. p)
  with_route-Saved route (some old) = elim (Bool-cases (ltb 0 (length old))) [
    | inr empty ↦
        rw (with_route, empty) (head-Saved route old [] (λ r. none_exists r old) (λ p le. p))
    | inl full ↦ elim (Bool-cases (exist_route route old)) [
      | inl known ↦ rw (with_route, full, known) (same-Saved route true old (λ e. known))
      | inr new ↦
          rw (with_route, full, new)
            (head-Saved route old (kept c.neighbor_alpha old)
              (λ r. exist_route-kept r c.neighbor_alpha old) (length-kept c.neighbor_alpha old))
    ]
  ]

  save_route_lem :
      (t : Table) (route : TargetRoute) (x : Address) (o : Option (List TargetRoute))
      → with_route c.neighbor_alpha route (lookup (c.bytes_to_hash x) t.routes) ≡ o
      → save_route c t route x ≡ (elim o [
        | none ↦ t
        | some rs ↦ record t {
          routes = insert (c.bytes_to_hash x) rs t.routes;
          stored_routes = insert x rs t.stored_routes;
        }
      ])
  unfolding save_route
  save_route_lem t route x o h = rw (save_route, h) refl

  pub routes_at-insert :
      (m : Map (List TargetRoute)) (rs : List TargetRoute) (j k : Bytes)
      → routes_at (insert j rs m) k ≡ (if bytes_eq j k then rs else routes_at m k)
  routes_at-insert m rs j k = elim (Bool-cases (bytes_eq j k)) [
    | inl same ↦ rw (routes_at, lookup-insert j k rs m, same) refl
    | inr other ↦ rw (routes_at, lookup-insert j k rs m, other) refl
  ]

  pub save_route-Saved :
      (t : Table) (route : TargetRoute) (x : Address) (k : Bytes)
      → Saved route
          (bytes_eq (c.bytes_to_hash x) k)
          (routes_at t.routes k)
          (routes_at (save_route c t route x).routes k)
  save_route-Saved t route x k =
      let j = c.bytes_to_hash x in
      let w = with_route-Saved route (lookup j t.routes) in
      elim (Option-cases (with_route c.neighbor_alpha route (lookup j t.routes))) [
        | inl unchanged ↦ rw (save_route_lem t route x none unchanged) (
            same-Saved route (bytes_eq j k) (routes_at t.routes k)
              (λ e. let f : j ≡ k = (bytes_eq_iff j k).0 e in (rw (unchanged, f) at w).here refl))
        | inr (rs, new) ↦
            rw (save_route_lem t route x (some rs) new, routes_at-insert t.routes rs j k)
              (elim (Bool-cases (bytes_eq j k)) [
                | inl same ↦
                    let f : j ≡ k = (bytes_eq_iff j k).0 same in rw (same, ← f) (rw new at w)
                | inr other ↦
                    rw other
                      (same-Saved route false (routes_at t.routes k) (λ e. absurd (ground arith)))
              ])
      ]

  trans-Saved :
      (route : TargetRoute) (h h' : Bool) (a b d : List TargetRoute)
      → Saved route h a b
      → Saved route h' b d
      → Saved route (h || h') a d
  trans-Saved route h h' a b d s s' = record {
    old_or_new = λ r e. elim (s'.old_or_new r e) [
      | inl old ↦ elim (s.old_or_new r old) [
        | inl older ↦ inl older
        | inr (same, hit) ↦ inr (same, rw hit refl)
      ]
      | inr (same, hit) ↦ inr (same, ground (arith, hit))
    ];
    here = λ e. elim (Bool-cases h) [
      | inl hit ↦ s'.stays (s.here hit)
      | inr other ↦ s'.here (rw other at e)
    ];
    stays = λ e. s'.stays (s.stays e);
    bounded = λ p le. s'.bounded p (s.bounded p le);
  }

  pub save_routes-Saved :
      (xs : List Address) (t : Table) (route : TargetRoute) (k : Bytes)
      → Saved route
          (hits c k xs)
          (routes_at t.routes k)
          (routes_at (save_routes c t route xs).routes k)
  unfolding save_routes
  save_routes-Saved [] t route k =
      same-Saved route false (routes_at t.routes k) (λ e. absurd (ground arith))
  save_routes-Saved (x ∷ xs) t route k =
      trans-Saved route (bytes_eq (c.bytes_to_hash x) k) (hits c k xs) (routes_at t.routes k)
        (routes_at (save_route c t route x).routes k) _ (save_route-Saved t route x k)
        (save_routes-Saved xs (save_route c t route x) route k)

  pub save_route-paths :
      (t : Table) (route : TargetRoute) (x : Address) → (save_route c t route x).paths ≡ t.paths
  unfolding save_route
  save_route-paths t route x = ground arith

  pub save_routes-paths :
      (xs : List Address) (t : Table) (route : TargetRoute)
      → (save_routes c t route xs).paths ≡ t.paths
  unfolding save_routes
  save_routes-paths [] t route = refl
  save_routes-paths (x ∷ xs) t route =
      save_routes-paths xs (save_route c t route x) route ∙ save_route-paths t route x
