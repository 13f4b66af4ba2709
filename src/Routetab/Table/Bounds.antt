-- ===== src/Routetab/Table/Bounds.antt =====
-- How many routes a target has.
use favor_x.Base.{
  ◌≤◌, ◌<◌, ◌≡◌, inl, inr, Bool-cases, Option-cases, List, [], ◌∷◌, arith, ltb, length,
}
use favor_x.Base.Bytes.{Bytes}
use favor_x.Base.Map.{lookup}
use favor_x.Boson.{Address}
use favor_x.Network.Time.{Time, Duration}
use favor_x.Routetab.Table.{
  RoutePath, PbPath, Table, Config, targets, key_of_items, save_path, update_used_time, delete_path,
  gc_key, gc, Event, saves, deletes, collects, uses, step, run,
}
use favor_x.Routetab.Table.Links.{routes_at, save_routes-Saved}
use favor_x.Routetab.Table.Removal.{delete_routes-Removed}

module _ (c : Config) where
  -- No target has more routes than NeighborAlpha.
  abbrev pub IsSmall : Table → Type 0
  IsSmall t = (k : Bytes) → length (routes_at t.routes k) ≤ c.neighbor_alpha

  delete_path-IsSmall : (t : Table) (p : RoutePath) → IsSmall t → IsSmall (delete_path c t p)
  unfolding delete_path
  delete_path-IsSmall t p v k =
      let d = delete_routes-Removed c (targets p.items) t.routes (key_of_items c p.items) k in
      omega (arith, d.shorter, v k)

  gc_key-IsSmall :
      (t : Table) (expire : Duration) (now : Time) (key : Bytes)
      → IsSmall t
      → IsSmall (gc_key c t expire now key)
  unfolding gc_key
  gc_key-IsSmall t expire now key v k = elim (Option-cases (lookup key t.paths)) [
    | inl missing ↦ rw (gc_key, missing) (v k)
    | inr (p, found) ↦ ground (arith, found, v k, delete_path-IsSmall t p v k)
  ]

  gc-IsSmall :
      (t : Table) (expire : Duration) (now : Time) (keys : List Bytes)
      → IsSmall t
      → IsSmall (gc c t expire now keys)
  unfolding gc
  gc-IsSmall t expire now [] v = v
  gc-IsSmall t expire now (key ∷ keys) v =
      gc-IsSmall (gc_key c t expire now key) expire now keys (gc_key-IsSmall t expire now key v)

  save_path-IsSmall :
      (t : Table) (p : PbPath) (created used : Time)
      → 0 < c.neighbor_alpha
      → IsSmall t
      → IsSmall (save_path c t p created used)
  unfolding save_path
  save_path-IsSmall t p created used pos_alpha v k = elim (Bool-cases (ltb (length p.items) 2)) [
    | inl short ↦ rw (save_path, short) (v k)
    | inr long ↦
        rw (save_path, long) ((save_routes-Saved c (targets p.items) _ _ k).bounded pos_alpha (v k))
  ]

  used_routes :
      (t : Table) (target neighbor : Address) (now : Time)
      → (update_used_time c t target neighbor now).routes ≡ t.routes
  unfolding update_used_time
  used_routes t target neighbor now = ground arith

  step-IsSmall : (t : Table) (e : Event) → 0 < c.neighbor_alpha → IsSmall t → IsSmall (step c t e)
  unfolding step
  step-IsSmall t (saves p created used) h v = save_path-IsSmall t p created used h v
  step-IsSmall t (deletes p) h v = delete_path-IsSmall t p v
  step-IsSmall t (collects expire now keys) h v = gc-IsSmall t expire now keys v
  step-IsSmall t (uses target neighbor now) h v = λ k. rw (used_routes t target neighbor now) (v k)

  -- From a table in which no target has more than NeighborAlpha routes, which is at least one, whatever
  -- paths are saved, deleted, collected or used, no target gets more.
  pub run-IsSmall :
      (t : Table) (es : List Event) → 0 < c.neighbor_alpha → IsSmall t → IsSmall (run c t es)
  unfolding run
  run-IsSmall t [] h v = v
  run-IsSmall t (e ∷ es) h v = run-IsSmall (step c t e) es h (step-IsSmall t e h v)
