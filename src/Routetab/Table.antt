-- ===== src/Routetab/Table.antt =====
-- pkg/routetab/table.go, with the helpers of utils.go: the paths that are known, under the hash of
-- their items, and for each target the routes, each a neighbour and the key of a path. sha256.Sum256
-- and common.BytesToHash are parameters; the writes to the state store, whose errors the code drops,
-- succeed. A method is its parts in their order here; the lock is held for one target at a time, and
-- the parts of several calls are interleaved in Table/Parts.antt.
pub mod Links
pub mod Removal
pub mod Linked
pub mod Invariant
pub mod Bounds
pub mod Lookups
pub mod Parts
pub mod Tests
use favor_x.Base.{
  ℕ, ◌+◌, ◌-◌, ◌/◌, Bool, true, false, not, Option, none, some, ◌&&◌, ◌||◌, List, [], ◌∷◌, ◌++◌,
  ltb, leb, ◌==◌, if◌then◌else◌, length, take,
}
use favor_x.Base.Int.{ℤ, pos, negsuc, ◌-ℤ◌, ltb_ℤ}
use favor_x.Base.Bytes.{Bytes, bytes_eq}
use favor_x.Base.Map.{Map, lookup, insert, delete}
use favor_x.Boson.{Address, member_of}
use favor_x.Network.Time.{Time, Duration, sub_time}

pub record TargetRoute : Type 0 where
  pub neighbor : Address
  pub path_key : Bytes

pub record RoutePath : Type 0 where
  pub sign : Bytes
  pub bodys : List Bytes
  pub items : List Address
  pub create_time : Time
  pub used_time : Time

-- pb.Path
pub record PbPath : Type 0 where
  pub sign : Bytes
  pub bodys : List Bytes
  pub items : List Bytes

-- `stored_paths` and `stored_routes` are the entries of the state store under the two prefixes.
pub record Table : Type 0 where
  pub paths : Map RoutePath
  pub routes : Map (List TargetRoute)
  pub stored_paths : Map RoutePath
  pub stored_routes : Map (List TargetRoute)

-- newRouteTable
unfoldable pub new_route_table : Map RoutePath → Map (List TargetRoute) → Table
new_route_table stored_paths stored_routes = record {
  paths = [];
  routes = [];
  stored_paths = stored_paths;
  stored_routes = stored_routes;
}

unfoldable pub exist_route : TargetRoute → List TargetRoute → Bool
exist_route route [] = false
exist_route route (v ∷ routes) =
    if bytes_eq v.path_key route.path_key && bytes_eq v.neighbor route.neighbor
    then true
    else exist_route route routes

-- The bytes that generatePathItems hashes.
abbrev pub concat : List Bytes → Bytes
concat [] = []
concat (v ∷ vs) = v ++ concat vs

-- The items that IterateTarget calls its function on: all but the last.
abbrev pub targets : List Address → List Address
targets [] = []
targets (x ∷ []) = []
targets (x ∷ y ∷ items) = x ∷ targets (y ∷ items)

-- items[len(items)-1]; the code calls it with two items or more.
abbrev pub last : List Address → Address
last [] = []
last (x ∷ []) = x
last (x ∷ y ∷ items) = last (y ∷ items)

-- What SavePath keeps of the old routes.
unfoldable pub kept : ℕ → List TargetRoute → List TargetRoute
kept alpha old =
    if ltb alpha (length old)
    then take alpha old
    else if length old == alpha
    then take (alpha - 1) old
    else old

-- The routes that SavePath writes for a target, if it writes any.
unfoldable pub with_route : ℕ → TargetRoute → Option (List TargetRoute) → Option (List TargetRoute)
with_route alpha route none = some (route ∷ [])
with_route alpha route (some old) =
    if ltb 0 (length old)
    then (if exist_route route old then none else some (route ∷ kept alpha old))
    else some (route ∷ [])

-- The routes of a target without those of a path: routesNow.
unfoldable pub without : Bytes → List TargetRoute → List TargetRoute
without path_key [] = []
without path_key (v ∷ routes) =
    let rest = without path_key routes in if bytes_eq v.path_key path_key then rest else v ∷ rest

-- Duration.Milliseconds: the division of Go goes towards zero.
abbrev pub milliseconds : Duration → ℤ
milliseconds (pos n) = pos (n / 1000000)
milliseconds (negsuc n) = pos 0 -ℤ pos ((n + 1) / 1000000)

-- sha256.Sum256, common.BytesToHash, and the package's variables.
pub record Config : Type 0 where
  pub sum256 : Bytes → Bytes
  pub bytes_to_hash : Address → Bytes
  pub neighbor_alpha : ℕ
  pub max_ttl : ℕ

-- The methods that change a table while the node runs, for calls that come one after another.
pub data Event : Type 0 where
  saves : PbPath → Time → Time → Event
  deletes : RoutePath → Event
  collects : Duration → Time → List Bytes → Event
  uses : Address → Address → Time → Event

module _ (c : Config) where
  -- generatePathItems: the key; the items are the same byte strings.
  unfoldable pub key_of_items : List Address → Bytes
  key_of_items items = c.sum256 (concat items)

  -- SavePath for one target.
  unfoldable pub save_route : Table → TargetRoute → Address → Table
  save_route t route target =
      elim (with_route c.neighbor_alpha route (lookup (c.bytes_to_hash target) t.routes)) [
        | none ↦ t
        | some routes ↦ record t {
          routes = insert (c.bytes_to_hash target) routes t.routes;
          stored_routes = insert target routes t.stored_routes;
        }
      ]

  unfoldable pub save_routes : Table → TargetRoute → List Address → Table
  save_routes t route [] = t
  save_routes t route (target ∷ rest) = save_routes (save_route t route target) route rest

  -- SavePath, with its readings of the clock; verifyPath is always true.
  unfoldable pub save_path : Table → PbPath → Time → Time → Table
  save_path t p created used =
      if ltb (length p.items) 2
      then t
      else let key = key_of_items p.items in
        let path : RoutePath = record {
          sign = p.sign;
          bodys = p.bodys;
          items = p.items;
          create_time = created;
          used_time = used;
        } in
        save_routes
          (record t {
            paths = insert key path t.paths;
            stored_paths = insert key path t.stored_paths;
          })
          (record { neighbor = last p.items; path_key = key }) (targets p.items)

  -- SavePaths, each with the clock at it.
  unfoldable pub save_paths : Table → List (PbPath × Time × Time) → Table
  save_paths t [] = t
  save_paths t ((p, created, used) ∷ ps) = save_paths (save_path t p created used) ps

  -- The loop of Get.
  unfoldable pub load : Map RoutePath → List TargetRoute → List RoutePath
  load paths [] = []
  load paths (v ∷ routes) = elim (lookup v.path_key paths) [
    | none ↦ load paths routes
    | some p ↦ p ∷ load paths routes
  ]

  -- Get; `none` is ErrNotFound.
  unfoldable pub get : Table → Address → Option (List RoutePath)
  get t target = elim (lookup (c.bytes_to_hash target) t.routes) [
    | none ↦ none
    | some routes ↦
        let paths = load t.paths routes in if length paths == 0 then none else some paths
  ]

  -- updateUsedTime for one route; `now` stands for the readings of the clock.
  unfoldable pub use_route : Map RoutePath → TargetRoute → Time → Map RoutePath
  use_route paths v now = elim (lookup v.path_key paths) [
    | none ↦ paths
    | some p ↦
        if ltb_ℤ (pos 0) (sub_time now p.used_time)
        then insert v.path_key (record p { used_time = now }) paths
        else paths
  ]

  unfoldable pub use_routes : Map RoutePath → List TargetRoute → Address → Time → Map RoutePath
  use_routes paths [] neighbor now = paths
  use_routes paths (v ∷ routes) neighbor now =
      use_routes (if bytes_eq v.neighbor neighbor then use_route paths v now else paths) routes
        neighbor now

  unfoldable pub update_used_time : Table → Address → Address → Time → Table
  update_used_time t target neighbor now = elim (lookup (c.bytes_to_hash target) t.routes) [
    | none ↦ t
    | some routes ↦ record t { paths = use_routes t.paths routes neighbor now }
  ]

  -- The map `list` in GetNextHop: the neighbours that are not skipped, each once.
  unfoldable pub next_hops : List TargetRoute → List Address → Map Address → Map Address
  next_hops [] skips list = list
  next_hops (v ∷ routes) skips list =
      next_hops routes skips
        (if member_of v.neighbor skips then list else insert v.neighbor v.neighbor list)

  abbrev pub values : Map Address → List Address
  values [] = []
  values ((k, v) ∷ m) = v ∷ values m

  -- GetNextHop; Go gives the values of the map in any order.
  unfoldable pub get_next_hop : Table → Address → List Address → List Address
  get_next_hop t target skips = elim (lookup (c.bytes_to_hash target) t.routes) [
    | none ↦ []
    | some routes ↦ values (next_hops routes skips [])
  ]

  -- Delete for one target.
  unfoldable pub delete_route : Map (List TargetRoute) → Bytes → Address → Map (List TargetRoute)
  delete_route routes key target = elim (lookup (c.bytes_to_hash target) routes) [
    | none ↦ routes
    | some old ↦
        if ltb (length (without key old)) (length old)
        then insert (c.bytes_to_hash target) (without key old) routes
        else routes
  ]

  unfoldable pub delete_routes :
      Map (List TargetRoute) → Bytes → List Address → Map (List TargetRoute)
  delete_routes routes key [] = routes
  delete_routes routes key (target ∷ rest) = delete_routes (delete_route routes key target) key rest

  -- Delete: the stored routes stay.
  unfoldable pub delete_path : Table → RoutePath → Table
  delete_path t path =
      let key = key_of_items path.items in
      record t {
        paths = delete key t.paths;
        stored_paths = delete key t.stored_paths;
        routes = delete_routes t.routes key (targets path.items);
      }

  -- Gc for one key.
  unfoldable pub gc_key : Table → Duration → Time → Bytes → Table
  gc_key t expire now key = elim (lookup key t.paths) [
    | none ↦ t
    | some p ↦
        if ltb_ℤ (milliseconds expire) (milliseconds (sub_time now p.used_time))
        then delete_path t p
        else t
  ]

  -- Gc, over the keys in the order in which Range comes to them.
  unfoldable pub gc : Table → Duration → Time → List Bytes → Table
  gc t expire now [] = t
  gc t expire now (key ∷ keys) = gc (gc_key t expire now key) expire now keys

  -- ResumePaths, over the entries of the store.
  unfoldable pub resume_paths_from : Map RoutePath → Map RoutePath → Map RoutePath
  resume_paths_from paths [] = paths
  resume_paths_from paths ((key, p) ∷ stored) =
      resume_paths_from (if leb (length p.items) c.max_ttl then insert key p paths else paths)
        stored

  unfoldable pub resume_paths : Table → Table
  resume_paths t = record t { paths = resume_paths_from t.paths t.stored_paths }

  -- ResumeRoutes, over the entries of the store.
  unfoldable pub resume_routes_from :
      Map (List TargetRoute) → Map (List TargetRoute) → Map (List TargetRoute)
  resume_routes_from routes [] = routes
  resume_routes_from routes ((target, rs) ∷ stored) =
      resume_routes_from (insert (c.bytes_to_hash target) rs routes) stored

  unfoldable pub resume_routes : Table → Table
  resume_routes t = record t { routes = resume_routes_from t.routes t.stored_routes }

  unfoldable pub step : Table → Event → Table
  step t (saves p created used) = save_path t p created used
  step t (deletes path) = delete_path t path
  step t (collects expire now keys) = gc t expire now keys
  step t (uses target neighbor now) = update_used_time t target neighbor now

  unfoldable pub run : Table → List Event → Table
  run t [] = t
  run t (e ∷ es) = run (step t e) es
