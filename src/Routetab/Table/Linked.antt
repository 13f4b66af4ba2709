-- ===== src/Routetab/Table/Linked.antt =====
-- Every route leads to a stored path: what the deletion of paths keeps.
use favor_x.Base.{
  ◌≡◌, refl, sym, ◌∙◌, subst, inl, inr, Bool-cases, Option-cases, true, none, some, List, [], ◌∷◌,
  arith,
}
use favor_x.Base.Int.{ltb_ℤ}
use favor_x.Base.Bytes.{Bytes, bytes_eq, bytes_eq_iff}
use favor_x.Base.Map.{Map, lookup, insert, lookup-insert, lookup-delete}
use favor_x.Boson.{Address}
use favor_x.Network.Time.{Time, Duration, sub_time}
use favor_x.Routetab.Table.{
  TargetRoute, RoutePath, Table, Config, exist_route, targets, last, milliseconds, key_of_items,
  delete_path, gc_key, gc,
}
use favor_x.Routetab.Table.Links.{routes_at, hits}
use favor_x.Routetab.Table.Removal.{delete_routes-Removed}

module _ (c : Config) where
  -- The route under the key k of a target leads to a stored path: the target is on it, and its last
  -- item is the neighbour.
  pub record Leads (paths : Map RoutePath) (k : Bytes) (r : TargetRoute) : Type 0 where
    pub path : RoutePath
    pub found : lookup r.path_key paths ≡ some path
    pub at_end : last path.items ≡ r.neighbor
    pub on_way : hits c k (targets path.items) ≡ true

  -- Each path stands under its own key, and its items are among those of P.
  pub record IsLinked (P : List Address → Type 0) (t : Table) : Type 0 where
    pub linked :
        (k : Bytes) (r : TargetRoute)
        → exist_route r (routes_at t.routes k) ≡ true
        → Leads t.paths k r
    pub keyed :
        (key : Bytes) (p : RoutePath)
        → lookup key t.paths ≡ some p
        → (key_of_items c p.items ≡ key) × P p.items

  pub insert-Leads :
      (paths : Map RoutePath) (k key : Bytes) (r : TargetRoute) (p : RoutePath)
      → ((q : RoutePath) → lookup key paths ≡ some q → q.items ≡ p.items)
      → Leads paths k r
      → Leads (insert key p paths) k r
  insert-Leads paths k key r p h l = elim (Bool-cases (bytes_eq key r.path_key)) [
    | inr other ↦ record {
      path = l.path;
      found = rw (lookup-insert key r.path_key p paths, other) l.found;
      at_end = l.at_end;
      on_way = l.on_way;
    }
    | inl same ↦
        let e : key ≡ r.path_key = (bytes_eq_iff key r.path_key).0 same in
        let i : l.path.items ≡ p.items = h l.path (rw e l.found) in
        record {
          path = p;
          found = rw (lookup-insert key r.path_key p paths, same) refl;
          at_end = rw i at l.at_end;
          on_way = rw i at l.on_way;
        }
  ]

  pub insert_keyed :
      (P : List Address → Type 0) (paths : Map RoutePath) (key : Bytes) (p : RoutePath)
      → key_of_items c p.items ≡ key
      → P p.items
      → ((j : Bytes) (q : RoutePath)
          → lookup j paths ≡ some q
          → (key_of_items c q.items ≡ j) × P q.items)
      → (j : Bytes) (q : RoutePath) → lookup j (insert key p paths) ≡ some q
      → (key_of_items c q.items ≡ j) × P q.items
  insert_keyed P paths key p e pp h j q found = elim (Bool-cases (bytes_eq key j)) [
    | inr other ↦ h j q (rw (lookup-insert key j p paths, other) at found)
    | inl same ↦
        let f : some p ≡ some q = rw (lookup-insert key j p paths, same) at found in
        let g : p ≡ q = cc in
        subst (λ x. (key_of_items c x.items ≡ j) × P x.items) g
          (e ∙ (bytes_eq_iff key j).0 same, pp)
  ]

-- Paths of P that have one key have the same items.
module _ (c : Config) (P : List Address → Type 0)
    (apart : (xs ys : List Address)
      → P xs
      → P ys
      → key_of_items c xs ≡ key_of_items c ys
      → xs ≡ ys) where
  abbrev IsGood : Table → Type 0
  IsGood t = IsLinked c P t

  pub delete_path-IsLinked :
      (t : Table) (p : RoutePath) → P p.items → IsGood t → IsGood (delete_path c t p)
  unfolding delete_path
  delete_path-IsLinked t p pp v = record {
    linked = λ k r e.
        let key = key_of_items c p.items in
        let d = delete_routes-Removed c (targets p.items) t.routes key k in
        let l = v.linked k r (d.was_there r e) in
        elim (Bool-cases (bytes_eq key r.path_key)) [
          | inr other ↦ record {
            path = l.path;
            found = rw (lookup-delete key r.path_key t.paths, other) l.found;
            at_end = l.at_end;
            on_way = l.on_way;
          }
          | inl same ↦
              let f : key ≡ r.path_key = (bytes_eq_iff key r.path_key).0 same in
              let kp = v.keyed r.path_key l.path l.found in
              let i : l.path.items ≡ p.items = apart l.path.items p.items kp.1 pp (kp.0 ∙ sym f) in
              let gone = d.is_gone r e (rw i at l.on_way) in
              absurd (ground (arith, gone, (bytes_eq_iff r.path_key key).1 (sym f)))
        ];
    keyed = λ j q found. elim (Bool-cases (bytes_eq (key_of_items c p.items) j)) [
      | inr other ↦
          v.keyed j q (rw (lookup-delete (key_of_items c p.items) j t.paths, other) at found)
      | inl same ↦
          let f : none ≡ some q =
            rw (lookup-delete (key_of_items c p.items) j t.paths, same) at found in
          absurd cc
    ];
  }

  gc_key-IsLinked :
      (t : Table) (expire : Duration) (now : Time) (key : Bytes)
      → IsGood t
      → IsGood (gc_key c t expire now key)
  unfolding gc_key
  gc_key-IsLinked t expire now key v = elim (Option-cases (lookup key t.paths)) [
    | inl missing ↦ rw (gc_key, missing) v
    | inr (p, found) ↦
        elim (Bool-cases (ltb_ℤ (milliseconds expire) (milliseconds (sub_time now p.used_time)))) [
          | inl old ↦ rw (gc_key, found, old) (delete_path-IsLinked t p (v.keyed key p found).1 v)
          | inr young ↦ rw (gc_key, found, young) v
        ]
  ]

  pub gc-IsLinked :
      (t : Table) (expire : Duration) (now : Time) (keys : List Bytes)
      → IsGood t
      → IsGood (gc c t expire now keys)
  unfolding gc
  gc-IsLinked t expire now [] v = v
  gc-IsLinked t expire now (key ∷ keys) v =
      gc-IsLinked (gc_key c t expire now key) expire now keys (gc_key-IsLinked t expire now key v)
