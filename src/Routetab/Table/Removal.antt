-- ===== src/Routetab/Table/Removal.antt =====
-- What Delete leaves of the routes.
use favor_x.Base.{
  ◌≤◌, ◌≡◌, refl, inl, inr, Bool, Bool-cases, Option-cases, true, false, Option, none, some, ◌||◌,
  List, [], ◌∷◌, arith, ltb, if◌then◌else◌, length,
}
use favor_x.Base.Bytes.{Bytes, bytes_eq, bytes_eq_iff}
use favor_x.Base.Map.{Map, lookup, insert}
use favor_x.Boson.{Address}
use favor_x.Routetab.Table.{TargetRoute, Config, exist_route, without, delete_route, delete_routes}
use favor_x.Routetab.Table.Links.{routes_at, routes_at-insert, hits}

length-without : (key : Bytes) (rs : List TargetRoute) → length (without key rs) ≤ length rs
unfolding without
length-without key [] = omega arith
length-without key (v ∷ rs) = ground (arith, length-without key rs)

exist_route-without :
    (r : TargetRoute) (key : Bytes) (rs : List TargetRoute)
    → exist_route r (without key rs) ≡ true
    → (exist_route r rs ≡ true) × (bytes_eq r.path_key key ≡ false)
unfolding exist_route without
exist_route-without r key [] h = absurd (ground arith)
exist_route-without r key (v ∷ rs) h =
    ground (arith, exist_route-without r key rs, bytes_eq_iff v.path_key r.path_key)

no_route :
    (r : TargetRoute) (key : Bytes) → exist_route r [] ≡ true → bytes_eq r.path_key key ≡ false
unfolding exist_route
no_route r key h = absurd (ground arith)

-- If no route goes away, none had the key.
none_without :
    (r : TargetRoute) (key : Bytes) (rs : List TargetRoute)
    → ltb (length (without key rs)) (length rs) ≡ false
    → exist_route r rs ≡ true
    → bytes_eq r.path_key key ≡ false
unfolding exist_route without
none_without r key [] h e = absurd (ground arith)
none_without r key (v ∷ rs) h e =
    ground (arith, none_without r key rs, length-without key rs, bytes_eq_iff v.path_key r.path_key)

-- What a deletion leaves under a key, which it comes to if `hit`.
pub record Removed (key : Bytes) (hit : Bool) (before after : List TargetRoute) : Type 0 where
  pub was_there : (r : TargetRoute) → exist_route r after ≡ true → exist_route r before ≡ true
  pub is_gone :
      (r : TargetRoute) → exist_route r after ≡ true → hit ≡ true → bytes_eq r.path_key key ≡ false
  pub shorter : length after ≤ length before

module _ (c : Config) where
  same-Removed :
      (key : Bytes) (hit : Bool) (rs : List TargetRoute)
      → (hit ≡ true → (r : TargetRoute) → exist_route r rs ≡ true → bytes_eq r.path_key key ≡ false)
      → Removed key hit rs rs
  same-Removed key hit rs h = record {
    was_there = λ r e. e;
    is_gone = λ r e f. h f r e;
    shorter = omega arith;
  }

  delete_route_lem :
      (m : Map (List TargetRoute)) (key : Bytes) (x : Address) (o : Option (List TargetRoute))
      → lookup (c.bytes_to_hash x) m ≡ o
      → delete_route c m key x ≡ (elim o [
        | none ↦ m
        | some old ↦
            if ltb (length (without key old)) (length old)
            then insert (c.bytes_to_hash x) (without key old) m
            else m
      ])
  unfolding delete_route
  delete_route_lem m key x o h = rw (delete_route, h) refl

  pub delete_route-Removed :
      (m : Map (List TargetRoute)) (key : Bytes) (x : Address) (k : Bytes)
      → Removed key
          (bytes_eq (c.bytes_to_hash x) k)
          (routes_at m k)
          (routes_at (delete_route c m key x) k)
  delete_route-Removed m key x k =
      let j = c.bytes_to_hash x in
      elim (Option-cases (lookup j m)) [
        | inl missing ↦ rw (delete_route_lem m key x none missing) (
            same-Removed key (bytes_eq j k) (routes_at m k) (λ e r h.
              let f : j ≡ k = (bytes_eq_iff j k).0 e in
              let g : exist_route r (routes_at m j) ≡ true = rw f h in
              no_route r key (rw (routes_at, missing) at g)))
        | inr (old, found) ↦ elim (Bool-cases (ltb (length (without key old)) (length old))) [
          | inr nothing ↦
              rw (delete_route_lem m key x (some old) found, nothing)
                (same-Removed key (bytes_eq j k) (routes_at m k) (λ e r h.
                  let f : j ≡ k = (bytes_eq_iff j k).0 e in
                  let g : exist_route r (routes_at m j) ≡ true = rw f h in
                  none_without r key old nothing (rw (routes_at, found) at g)))
          | inl fewer ↦
              rw
                (
                  delete_route_lem m key x (some old) found,
                  fewer,
                  routes_at-insert c m (without key old) j k,
                )
                (elim (Bool-cases (bytes_eq j k)) [
                  | inr other ↦
                      rw other (same-Removed key false (routes_at m k) (λ e. absurd (ground arith)))
                  | inl same ↦
                      let f : j ≡ k = (bytes_eq_iff j k).0 same in
                      rw (same, ← f, routes_at, found)
                        (record {
                          was_there = λ r h. (exist_route-without r key old h).0;
                          is_gone = λ r h g. (exist_route-without r key old h).1;
                          shorter = length-without key old;
                        })
                ])
        ]
      ]

  trans-Removed :
      (key : Bytes) (h h' : Bool) (a b d : List TargetRoute)
      → Removed key h a b
      → Removed key h' b d
      → Removed key (h || h') a d
  trans-Removed key h h' a b d s s' = record {
    was_there = λ r e. s.was_there r (s'.was_there r e);
    is_gone = λ r e f. elim (Bool-cases h) [
      | inl hit ↦ s.is_gone r (s'.was_there r e) hit
      | inr other ↦ s'.is_gone r e (rw other at f)
    ];
    shorter = omega (arith, s.shorter, s'.shorter);
  }

  pub delete_routes-Removed :
      (xs : List Address) (m : Map (List TargetRoute)) (key k : Bytes)
      → Removed key (hits c k xs) (routes_at m k) (routes_at (delete_routes c m key xs) k)
  unfolding delete_routes
  delete_routes-Removed [] m key k =
      same-Removed key false (routes_at m k) (λ e. absurd (ground arith))
  delete_routes-Removed (x ∷ xs) m key k =
      trans-Removed key (bytes_eq (c.bytes_to_hash x) k) (hits c k xs) (routes_at m k)
        (routes_at (delete_route c m key x) k) _ (delete_route-Removed m key x k)
        (delete_routes-Removed xs (delete_route c m key x) key k)
