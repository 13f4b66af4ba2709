-- ===== src/Routetab/Table/Lookups.antt =====
-- What Get and GetNextHop find.
use favor_x.Base.{
  ◌<◌, ◌≡◌, refl, ◌⊎◌, inl, inr, Bool, Bool-cases, Option-cases, true, false, not, some, ◌&&◌, ◌||◌,
  List, [], ◌∷◌, arith, ltb, ◌==◌, length,
}
use favor_x.Base.Bytes.{bytes_eq, bytes_eq_iff}
use favor_x.Base.Map.{Map, lookup, insert, lookup-insert_self}
use favor_x.Boson.{Address, member_of}
use favor_x.Network.Time.{Time}
use favor_x.Routetab.Table.{
  TargetRoute, RoutePath, PbPath, Table, Config, exist_route, targets, last, key_of_items,
  save_routes, save_path, load, get, next_hops, values, get_next_hop,
}
use favor_x.Routetab.Table.Links.{routes_at, hits, save_routes-Saved, save_routes-paths}

-- The path is one of the list.
abbrev pub Includes : RoutePath → List RoutePath → Type 0
Includes p [] = ⊥
Includes p (q ∷ qs) = (p ≡ q) ⊎ Includes p qs

-- Whether a is the neighbour of one of the routes.
abbrev pub is_neighbor : Address → List TargetRoute → Bool
is_neighbor a [] = false
is_neighbor a (r ∷ rs) = bytes_eq r.neighbor a || is_neighbor a rs

module _ (c : Config) where
  load-Includes :
      (paths : Map RoutePath) (rs : List TargetRoute) (r : TargetRoute) (p : RoutePath)
      → exist_route r rs ≡ true
      → lookup r.path_key paths ≡ some p
      → Includes p (load c paths rs)
  unfolding load exist_route
  load-Includes paths [] r p e found = absurd (ground arith)
  load-Includes paths (v ∷ rs) r p e found =
      elim (Bool-cases (bytes_eq v.path_key r.path_key && bytes_eq v.neighbor r.neighbor)) [
        | inl same ↦
            let k : v.path_key ≡ r.path_key =
              (bytes_eq_iff v.path_key r.path_key).0 (ground arith) in
            rw (load, k, found) (inl refl)
        | inr other ↦
            let more = load-Includes paths rs r p (rw (exist_route, other) at e) found in
            elim (Option-cases (lookup v.path_key paths)) [
              | inl missing ↦ rw (load, missing) more
              | inr (q, at_v) ↦ rw (load, at_v) (inr more)
            ]
      ]

  not_empty : (ps : List RoutePath) (p : RoutePath) → Includes p ps → (length ps == 0) ≡ false
  not_empty [] p i = absurd i
  not_empty (q ∷ ps) p i = ground arith

  no_route : (r : TargetRoute) → exist_route r [] ≡ true → ⊥
  unfolding exist_route
  no_route r e = ground arith

  get_lem :
      (t : Table) (r : TargetRoute) (p : RoutePath) (x : Address)
      → exist_route r (routes_at t.routes (c.bytes_to_hash x)) ≡ true
      → lookup r.path_key t.paths ≡ some p
      → (found : List RoutePath) × (get c t x ≡ some found) × Includes p found
  unfolding get
  get_lem t r p x e found = elim (Option-cases (lookup (c.bytes_to_hash x) t.routes)) [
    | inl missing ↦ absurd (no_route r (rw (routes_at, missing) at e))
    | inr (rs, at_x) ↦
        let i = load-Includes t.paths rs r p (rw (routes_at, at_x) at e) found in
        (load c t.paths rs, rw (get, at_x, not_empty (load c t.paths rs) p i) refl, i)
  ]

  -- After SavePath of a path with two items or more, Get finds the path at each target on it: all its
  -- items but the last.
  pub get-save_path :
      (t : Table) (p : PbPath) (created used : Time) (x : Address)
      → 1 < length p.items
      → hits c (c.bytes_to_hash x) (targets p.items) ≡ true
      → (found : List RoutePath) × (get c (save_path c t p created used) x ≡ some found)
        × Includes
            (record {
              sign = p.sign;
              bodys = p.bodys;
              items = p.items;
              create_time = created;
              used_time = used;
            })
            found
  unfolding save_path
  get-save_path t p created used x long hit =
      let key = key_of_items c p.items in
      let path : RoutePath = record {
        sign = p.sign;
        bodys = p.bodys;
        items = p.items;
        create_time = created;
        used_time = used;
      } in
      let t' : Table = record t {
        paths = insert key path t.paths;
        stored_paths = insert key path t.stored_paths;
      } in
      let route : TargetRoute = record { neighbor = last p.items; path_key = key } in
      let test : ltb (length p.items) 2 ≡ false = ground arith in
      let s = save_routes-Saved c (targets p.items) t' route (c.bytes_to_hash x) in
      rw (save_path, test)
        (get_lem (save_routes c t' route (targets p.items)) route path x (s.here hit) (
          rw (save_routes-paths c (targets p.items) t' route)
            (lookup-insert_self key path t.paths)))

  -- Each entry of the map `list` in GetNextHop stands under its own value.
  abbrev IsMirror : Map Address → Type 0
  IsMirror [] = Unit
  IsMirror ((k, v) ∷ m) = (k ≡ v) × IsMirror m

  insert-IsMirror : (v : Address) (m : Map Address) → IsMirror m → IsMirror (insert v v m)
  unfolding insert
  insert-IsMirror v [] h = (refl, tt)
  insert-IsMirror v ((k, w) ∷ m) h = elim (Bool-cases (bytes_eq k v)) [
    | inl same ↦ rw (insert, same) (refl, h.1)
    | inr other ↦ rw (insert, other) (h.0, insert-IsMirror v m h.1)
  ]

  values-insert :
      (a v : Address) (m : Map Address)
      → IsMirror m
      → member_of a (values c (insert v v m)) ≡ (bytes_eq v a || member_of a (values c m))
  unfolding insert member_of
  values-insert a v [] h = ground arith
  values-insert a v ((k, w) ∷ m) h =
      let e : bytes_eq k v ≡ true → bytes_eq w a ≡ bytes_eq v a =
        λ s. let f : k ≡ v = (bytes_eq_iff k v).0 s in rw (← h.0, f) refl in
      ground (arith, e, values-insert a v m h.1)

  next_hops_lem :
      (a : Address) (rs : List TargetRoute) (skips : List Address) (m : Map Address)
      → IsMirror m
      → member_of a (values c (next_hops c rs skips m))
        ≡ (member_of a (values c m) || (is_neighbor a rs && not (member_of a skips)))
  unfolding next_hops
  next_hops_lem a [] skips m h = ground arith
  next_hops_lem a (r ∷ rs) skips m h =
      let same : bytes_eq r.neighbor a ≡ true → member_of a skips ≡ member_of r.neighbor skips =
        λ e. let f : r.neighbor ≡ a = (bytes_eq_iff r.neighbor a).0 e in rw f refl in
      elim (Bool-cases (member_of r.neighbor skips)) [
        | inl skipped ↦
            rw (next_hops, skipped) (ground (arith, same, skipped, next_hops_lem a rs skips m h))
        | inr taken ↦
            let m' = insert r.neighbor r.neighbor m in
            let i = next_hops_lem a rs skips m' (insert-IsMirror r.neighbor m h) in
            rw (next_hops, taken) (ground (arith, same, taken, i, values-insert a r.neighbor m h))
      ]

  -- GetNextHop finds exactly the neighbours of the target's routes that are not to be skipped.
  pub member_of-get_next_hop :
      (a target : Address) (t : Table) (skips : List Address)
      → member_of a (get_next_hop c t target skips)
        ≡ (is_neighbor a (routes_at t.routes (c.bytes_to_hash target)) && not (member_of a skips))
  unfolding get_next_hop member_of
  member_of-get_next_hop a target t skips =
      elim (Option-cases (lookup (c.bytes_to_hash target) t.routes)) [
        | inl missing ↦ rw (get_next_hop, routes_at, missing) refl
        | inr (rs, found) ↦ rw (get_next_hop, routes_at, found) (next_hops_lem a rs skips [] tt)
      ]
