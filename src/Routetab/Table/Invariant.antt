-- ===== src/Routetab/Table/Invariant.antt =====
-- Every route leads to a stored path, whatever is done.
use favor_x.Base.{
  ◌≡◌, refl, sym, ◌∙◌, ap, inl, inr, Bool-cases, Option-cases, some, List, [], ◌∷◌, arith, ltb,
  length,
}
use favor_x.Base.Int.{pos, ltb_ℤ}
use favor_x.Base.Bytes.{bytes_eq}
use favor_x.Base.Map.{Map, lookup, insert, lookup-insert_self}
use favor_x.Boson.{Address}
use favor_x.Network.Time.{Time, sub_time}
use favor_x.Routetab.Table.{
  TargetRoute, RoutePath, PbPath, Table, Config, new_route_table, exist_route, targets, last,
  key_of_items, save_routes, save_path, use_route, use_routes, update_used_time, Event, saves,
  deletes, collects, uses, step, run,
}
use favor_x.Routetab.Table.Links.{save_routes-Saved, save_routes-paths}
use favor_x.Routetab.Table.Linked.{
  IsLinked, insert-Leads, insert_keyed, delete_path-IsLinked, gc-IsLinked,
}

-- Paths of P that have one key have the same items.
module _ (c : Config) (P : List Address → Type 0)
    (apart : (xs ys : List Address)
      → P xs
      → P ys
      → key_of_items c xs ≡ key_of_items c ys
      → xs ≡ ys) where
  abbrev IsGood : Table → Type 0
  IsGood t = IsLinked c P t

  use_route-IsLinked :
      (t : Table) (r : TargetRoute) (now : Time)
      → IsGood t
      → IsGood (record t { paths = use_route c t.paths r now })
  unfolding use_route
  use_route-IsLinked t r now v = elim (Option-cases (lookup r.path_key t.paths)) [
    | inl missing ↦ rw (use_route, missing) (record { linked = v.linked; keyed = v.keyed })
    | inr (p, found) ↦ elim (Bool-cases (ltb_ℤ (pos 0) (sub_time now p.used_time))) [
      | inr early ↦ rw (use_route, found, early) (record { linked = v.linked; keyed = v.keyed })
      | inl later ↦
          let p' : RoutePath = record p { used_time = now } in
          let kp = v.keyed r.path_key p found in
          rw (use_route, found, later)
            (record {
              linked = λ k s e.
                  insert-Leads c t.paths k r.path_key s p'
                    (λ q g.
                      let f : some q ≡ some p = sym g ∙ found in
                      let h : q ≡ p = cc in ap (λ x. x.items) h)
                    (v.linked k s e);
              keyed = insert_keyed c P t.paths r.path_key p' kp.0 kp.1 v.keyed;
            })
    ]
  ]

  use_routes-IsLinked :
      (rs : List TargetRoute) (t : Table) (neighbor : Address) (now : Time)
      → IsGood t
      → IsGood (record t { paths = use_routes c t.paths rs neighbor now })
  unfolding use_routes
  use_routes-IsLinked [] t neighbor now v = record { linked = v.linked; keyed = v.keyed }
  use_routes-IsLinked (r ∷ rs) t neighbor now v = elim (Bool-cases (bytes_eq r.neighbor neighbor)) [
    | inl same ↦
        rw (use_routes, same)
          (use_routes-IsLinked rs (record t { paths = use_route c t.paths r now }) neighbor now
            (use_route-IsLinked t r now v))
    | inr other ↦ rw (use_routes, other) (use_routes-IsLinked rs t neighbor now v)
  ]

  update_used_time-IsLinked :
      (t : Table) (target neighbor : Address) (now : Time)
      → IsGood t
      → IsGood (update_used_time c t target neighbor now)
  unfolding update_used_time
  update_used_time-IsLinked t target neighbor now v =
      elim (Option-cases (lookup (c.bytes_to_hash target) t.routes)) [
        | inl missing ↦ rw (update_used_time, missing) v
        | inr (rs, found) ↦ rw (update_used_time, found) (use_routes-IsLinked rs t neighbor now v)
      ]

  -- SavePath with two items or more.
  save_routes-IsLinked :
      (t : Table) (p : RoutePath)
      → P p.items
      → IsGood t
      → let key = key_of_items c p.items in
        IsGood (
          save_routes c
            (record t { paths = insert key p t.paths; stored_paths = insert key p t.stored_paths })
            (record { neighbor = last p.items; path_key = key })
            (targets p.items))
  save_routes-IsLinked t p pp v =
      let key = key_of_items c p.items in
      let t' : Table = record t {
        paths = insert key p t.paths;
        stored_paths = insert key p t.stored_paths;
      } in
      let route : TargetRoute = record { neighbor = last p.items; path_key = key } in
      let same_paths = save_routes-paths c (targets p.items) t' route in
      record {
        linked = λ k r e.
            rw same_paths
              (elim ((save_routes-Saved c (targets p.items) t' route k).old_or_new r e) [
                | inl old ↦
                    insert-Leads c t.paths k key r p
                      (λ q found.
                        let kq = v.keyed key q found in apart q.items p.items kq.1 pp kq.0)
                      (v.linked k r old)
                | inr (new, hit) ↦ rw new (record {
                  path = p;
                  found = lookup-insert_self key p t.paths;
                  at_end = refl;
                  on_way = hit;
                })
              ]);
        keyed = rw same_paths (insert_keyed c P t.paths key p refl pp v.keyed);
      }

  save_path-IsLinked :
      (t : Table) (p : PbPath) (created used : Time)
      → P p.items
      → IsGood t
      → IsGood (save_path c t p created used)
  unfolding save_path
  save_path-IsLinked t p created used pp v = elim (Bool-cases (ltb (length p.items) 2)) [
    | inl short ↦ rw (save_path, short) v
    | inr long ↦ rw (save_path, long) (save_routes-IsLinked t _ pp v)
  ]

  -- The paths that the events bring are of P.
  abbrev pub Brings : Event → Type 0
  Brings (saves p created used) = P p.items
  Brings (deletes p) = P p.items
  Brings (collects expire now keys) = Unit
  Brings (uses target neighbor now) = Unit

  abbrev pub AllBring : List Event → Type 0
  AllBring [] = Unit
  AllBring (e ∷ es) = Brings e × AllBring es

  step-IsLinked : (t : Table) (e : Event) → Brings e → IsGood t → IsGood (step c t e)
  unfolding step
  step-IsLinked t (saves p created used) b v = save_path-IsLinked t p created used b v
  step-IsLinked t (deletes p) b v = delete_path-IsLinked c P apart t p b v
  step-IsLinked t (collects expire now keys) b v = gc-IsLinked c P apart t expire now keys v
  step-IsLinked t (uses target neighbor now) b v = update_used_time-IsLinked t target neighbor now v

  new-IsLinked :
      (stored_paths : Map RoutePath) (stored_routes : Map (List TargetRoute))
      → IsLinked c P (new_route_table stored_paths stored_routes)
  unfolding new_route_table exist_route lookup
  new-IsLinked stored_paths stored_routes = record {
    linked = λ k r e. absurd (ground arith);
    keyed = λ j q found. absurd cc;
  }

  -- Say that a table is linked if every route of a target leads to a stored path that has the target
  -- on it and the neighbour at its end, and every stored path stands under the hash of its items.
  -- Whatever paths are saved, deleted, collected or used by calls that come one after another, a linked
  -- table stays linked: if paths with different items have different hashes, which is asked of those
  -- that come up only.
  run-IsLinked :
      (t : Table) (es : List Event) → AllBring es → IsLinked c P t → IsLinked c P (run c t es)
  unfolding run
  run-IsLinked t [] b v = v
  run-IsLinked t (e ∷ es) b v = run-IsLinked (step c t e) es b.1 (step-IsLinked t e b.0 v)
