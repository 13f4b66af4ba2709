-- ===== src/Routetab/Table/Parts.antt =====
-- The parts of SavePath, Delete, Gc and updateUsedTime, which the goroutines of the node interleave: the
-- map of the paths is changed outside the lock, and the lock is held for one target at a time.
use favor_x.Base.{
  ◌≡◌, refl, ap, subst, inl, inr, Bool-cases, true, none, List, [], ◌∷◌, map, arith, ltb,
  if◌then◌else◌, length,
}
use favor_x.Base.Bytes.{Bytes, bytes_eq, bytes_eq_iff, bytes_eq_refl}
use favor_x.Base.Map.{lookup, insert, delete, lookup-delete}
use favor_x.Boson.{Address, member_of}
use favor_x.Network.Time.{Time}
use favor_x.Routetab.Table.{
  TargetRoute, RoutePath, PbPath, Table, Config, exist_route, targets, last, key_of_items,
  save_route, save_routes, save_path, use_route, delete_route, delete_routes, delete_path,
}
use favor_x.Routetab.Table.Links.{routes_at, hits, save_route-Saved, save_route-paths}
use favor_x.Routetab.Table.Removal.{delete_route-Removed}

-- SavePath stores the path, or writes the routes of one target; Delete, which Gc calls too, deletes the
-- path, or the routes of one target; updateUsedTime marks the path of one route.
pub data Part : Type 0 where
  stores : PbPath → Time → Time → Part
  routes_to : PbPath → Address → Part
  drops : RoutePath → Part
  unroutes : RoutePath → Address → Part
  marks : TargetRoute → Time → Part

module _ (c : Config) where
  -- The route that SavePath makes from a path.
  abbrev pub route_of : PbPath → TargetRoute
  route_of p = record { neighbor = last p.items; path_key = key_of_items c p.items }

  unfoldable pub part : Table → Part → Table
  part t (stores p created used) =
      let key = key_of_items c p.items in
      let path : RoutePath = record {
        sign = p.sign;
        bodys = p.bodys;
        items = p.items;
        create_time = created;
        used_time = used;
      } in
      record t { paths = insert key path t.paths; stored_paths = insert key path t.stored_paths }
  part t (routes_to p target) = save_route c t (route_of p) target
  part t (drops path) =
      let key = key_of_items c path.items in
      record t { paths = delete key t.paths; stored_paths = delete key t.stored_paths }
  part t (unroutes path target) = record t {
    routes = delete_route c t.routes (key_of_items c path.items) target;
  }
  part t (marks route now) = record t { paths = use_route c t.paths route now }

  unfoldable pub run_parts : Table → List Part → Table
  run_parts t [] = t
  run_parts t (x ∷ xs) = run_parts (part t x) xs

  -- The parts of one SavePath, and of one Delete.
  unfoldable pub save_parts : PbPath → Time → Time → List Part
  save_parts p created used =
      if ltb (length p.items) 2
      then []
      else stores p created used ∷ map (routes_to p) (targets p.items)

  unfoldable pub delete_parts : RoutePath → List Part
  delete_parts path = drops path ∷ map (unroutes path) (targets path.items)

  save_routes-parts :
      (t : Table) (p : PbPath) (xs : List Address)
      → save_routes c t (route_of p) xs ≡ run_parts t (map (routes_to p) xs)
  unfolding save_routes run_parts part
  save_routes-parts t p [] = refl
  save_routes-parts t p (x ∷ xs) = save_routes-parts (save_route c t (route_of p) x) p xs

  delete_routes-parts :
      (t : Table) (path : RoutePath) (xs : List Address)
      → record t { routes = delete_routes c t.routes (key_of_items c path.items) xs }
        ≡ run_parts t (map (unroutes path) xs)
  unfolding delete_routes run_parts part
  delete_routes-parts t path [] = refl
  delete_routes-parts t path (x ∷ xs) = delete_routes-parts (part t (unroutes path x)) path xs

  -- With nothing in between, the parts make up SavePath and Delete.
  run_parts_alone :
      (t : Table) (p : PbPath) (created used : Time) (path : RoutePath)
      → (save_path c t p created used ≡ run_parts t (save_parts p created used))
        × (delete_path c t path ≡ run_parts t (delete_parts path))
  unfolding save_path save_parts delete_path delete_parts run_parts part
  run_parts_alone t p created used path = (
    elim (Bool-cases (ltb (length p.items) 2)) [
      | inl short ↦ rw (save_path, save_parts, short) refl
      | inr long ↦ rw (save_path, save_parts, long) (save_routes-parts _ p (targets p.items))
    ],
    delete_routes-parts _ path (targets path.items),
  )

  member_of-hits :
      (x : Address) (xs : List Address)
      → member_of x xs ≡ true
      → hits c (c.bytes_to_hash x) xs ≡ true
  unfolding member_of
  member_of-hits x [] h = absurd (ground arith)
  member_of-hits x (y ∷ ys) h = ground (
    arith,
    member_of-hits x ys,
    bytes_eq_iff x y,
    bytes_eq_iff y x,
    bytes_eq_refl (c.bytes_to_hash x),
    ap (λ z. bytes_eq (c.bytes_to_hash z) (c.bytes_to_hash x)),
  )

  -- The routes are those of paths with which SavePath was called: P holds of the items of those.
  module _ (P : List Address → Type 0) where
    -- A route under the key k of a target comes of such a path, on which the target is before the end,
    -- where the neighbour is; and the route has the path's key.
    pub record Comes (k : Bytes) (r : TargetRoute) : Type 0 where
      pub items : List Address
      pub called : P items
      pub key : key_of_items c items ≡ r.path_key
      pub at_end : last items ≡ r.neighbor
      pub on_way : hits c k (targets items) ≡ true

    abbrev pub IsTraced : Table → Type 0
    IsTraced t =
        (k : Bytes) (r : TargetRoute) → exist_route r (routes_at t.routes k) ≡ true → Comes k r

    -- The routes that are written for a target are parts of a SavePath that was called.
    abbrev pub Called : Part → Type 0
    Called (stores p created used) = Unit
    Called (routes_to p target) = P p.items × (member_of target (targets p.items) ≡ true)
    Called (drops path) = Unit
    Called (unroutes path target) = Unit
    Called (marks route now) = Unit

    abbrev pub AllCalled : List Part → Type 0
    AllCalled [] = Unit
    AllCalled (x ∷ xs) = Called x × AllCalled xs

    part-IsTraced : (t : Table) (x : Part) → Called x → IsTraced t → IsTraced (part t x)
    unfolding part
    part-IsTraced t (stores p created used) h v = v
    part-IsTraced t (routes_to p target) h v = λ k r e.
        elim ((save_route-Saved c t (route_of p) target k).old_or_new r e) [
          | inl old ↦ v k r old
          | inr (new, hit) ↦
              let at : c.bytes_to_hash target ≡ k =
                (bytes_eq_iff (c.bytes_to_hash target) k).0 hit in
              rw new (record {
                items = p.items;
                called = h.0;
                key = refl;
                at_end = refl;
                on_way =
                    subst (λ j. hits c j (targets p.items) ≡ true) at
                      (member_of-hits target (targets p.items) h.1);
              })
        ]
    part-IsTraced t (drops path) h v = v
    part-IsTraced t (unroutes path target) h v = λ k r e.
        v k r ((delete_route-Removed c t.routes (key_of_items c path.items) target k).was_there r e)
    part-IsTraced t (marks route now) h v = v

    -- Say that a route comes of a path if its key is that of the path, its target is on the path and its
    -- neighbour at the end. If every route comes of a path with which SavePath was called, as in an
    -- empty table, this stays so however the parts of SavePath, Delete, Gc and updateUsedTime are
    -- interleaved, where a route is written for the targets of such a path only.
    pub run_parts-IsTraced :
        (t : Table) (xs : List Part) → AllCalled xs → IsTraced t → IsTraced (run_parts t xs)
    unfolding run_parts
    run_parts-IsTraced t [] h v = v
    run_parts-IsTraced t (x ∷ xs) h v =
        run_parts-IsTraced (part t x) xs h.1 (part-IsTraced t x h.0 v)

  -- If a path is deleted, by Gc say, before SavePath comes to one of its targets, then the table has a
  -- route of that target to a path that is not there.
  routes_to_dangles :
      (t : Table) (p : PbPath) (path : RoutePath) (target : Address)
      → path.items ≡ p.items
      → let t' = part (delete_path c t path) (routes_to p target) in
        (exist_route (route_of p) (routes_at t'.routes (c.bytes_to_hash target)) ≡ true)
        × (lookup (key_of_items c p.items) t'.paths ≡ none)
  unfolding part
  routes_to_dangles t p path target e =
      let t1 = delete_path c t path in
      let h = c.bytes_to_hash target in
      let key = key_of_items c p.items in
      (
        (save_route-Saved c t1 (route_of p) target h).here (bytes_eq_refl h),
        rw (save_route-paths c t1 (route_of p) target)
            (unfold delete_path in (rw (e, lookup-delete key key t.paths, bytes_eq_refl key) refl)),
      )
