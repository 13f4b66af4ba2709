-- ===== src/Routetab/Table/Tests.antt =====
-- Two paths to small addresses, and the theorems at them.
use favor_x.Base.{◌≡◌, refl, ◌⊎◌, inl, inr, not, ◌&&◌, none, some, List, [], ◌∷◌, arith}
use favor_x.Base.Int.{pos}
use favor_x.Base.Bytes.{bytes_eq}
use favor_x.Base.Map.{lookup, insert, delete}
use favor_x.Boson.{Address, member_of}
use favor_x.Routetab.Table.{
  RoutePath, PbPath, Table, Config, new_route_table, exist_route, kept, with_route, without,
  key_of_items, save_route, save_routes, save_path, load, get, next_hops, get_next_hop,
  delete_route, delete_routes, delete_path, resume_paths, resume_paths_from, resume_routes,
  resume_routes_from, Event, saves, deletes, collects, uses, run,
}
use favor_x.Routetab.Table.Links.{routes_at}
use favor_x.Routetab.Table.Parts.{
  stores, routes_to, drops, unroutes, Part, run_parts, IsTraced, AllCalled, run_parts-IsTraced,
}
use favor_x.Routetab.Table.Bounds.{IsSmall, run-IsSmall}
use favor_x.Routetab.Table.Lookups.{Includes, get-save_path, is_neighbor, member_of-get_next_hop}

abbrev config : Config
config = record { sum256 = λ b. b; bytes_to_hash = λ a. a; neighbor_alpha = 2; max_ttl = 10 }

abbrev long_way : PbPath
long_way = record { sign = []; bodys = []; items = (1 ∷ []) ∷ (2 ∷ []) ∷ (3 ∷ []) ∷ [] }

abbrev short_way : PbPath
short_way = record { sign = []; bodys = []; items = (1 ∷ []) ∷ (4 ∷ []) ∷ [] }

-- The paths that come up.
abbrev OneOfTwo : List Address → Type 0
OneOfTwo items = (items ≡ long_way.items) ⊎ (items ≡ short_way.items)

abbrev empty : Table
empty = new_route_table [] []

abbrev long_path : RoutePath
long_path = record {
  sign = [];
  bodys = [];
  items = long_way.items;
  create_time = pos 5;
  used_time = pos 5;
}

abbrev events : List Event
events =
    saves long_way (pos 5) (pos 5)
    ∷ saves short_way (pos 6) (pos 6)
    ∷ uses (1 ∷ []) (4 ∷ []) (pos 7)
    ∷ deletes long_path
    ∷ collects (pos 0) (pos 8) ((1 ∷ []) ∷ [])
    ∷ []

-- A SavePath of the long path, into which its deletion and another SavePath come.
abbrev mixed : List Part
mixed =
    stores long_way (pos 5) (pos 5)
    ∷ routes_to long_way (1 ∷ [])
    ∷ drops long_path
    ∷ stores short_way (pos 6) (pos 6)
    ∷ unroutes long_path (1 ∷ [])
    ∷ routes_to short_way (1 ∷ [])
    ∷ unroutes long_path (2 ∷ [])
    ∷ routes_to long_way (2 ∷ [])
    ∷ []

empty-IsTraced : IsTraced config OneOfTwo empty
unfolding new_route_table exist_route lookup
empty-IsTraced k r e = absurd (ground arith)

mixed-AllCalled : AllCalled config OneOfTwo mixed
unfolding member_of bytes_eq
mixed-AllCalled =
    (tt, ((inl refl, refl), (tt, (tt, (tt, ((inr refl, refl), (tt, ((inl refl, refl), tt))))))))

run_parts-IsTraced_example : IsTraced config OneOfTwo (run_parts config empty mixed)
run_parts-IsTraced_example =
    run_parts-IsTraced config OneOfTwo empty mixed mixed-AllCalled empty-IsTraced

abbrev both : Table
both = save_path config (save_path config empty long_way (pos 5) (pos 5)) short_way (pos 6) (pos 6)

empty-IsSmall : IsSmall config empty
unfolding new_route_table lookup
empty-IsSmall k = omega arith

run-IsSmall_example : IsSmall config (run config empty events)
run-IsSmall_example = run-IsSmall config empty events (omega arith) empty-IsSmall

get-save_path_example :
    (found : List RoutePath) × (get config
        (save_path config empty long_way (pos 5) (pos 5))
        (2 ∷ [])
      ≡ some found)
    × Includes long_path found
get-save_path_example =
    get-save_path config empty long_way (pos 5) (pos 5) (2 ∷ []) (omega arith)
      (unfold bytes_eq in refl)

member_of-get_next_hop_example :
    member_of (4 ∷ []) (get_next_hop config both (1 ∷ []) ((3 ∷ []) ∷ [])) ≡ (
      is_neighbor (4 ∷ []) (routes_at both.routes (1 ∷ []))
      && not (member_of (4 ∷ []) ((3 ∷ []) ∷ [])))
member_of-get_next_hop_example =
    member_of-get_next_hop config (4 ∷ []) (1 ∷ []) both ((3 ∷ []) ∷ [])

-- The first item has two ways, by 4 and by 3.
two_ways : get_next_hop config both (1 ∷ []) [] ≡ (4 ∷ []) ∷ (3 ∷ []) ∷ []
unfolding get_next_hop next_hops save_path save_routes save_route with_route kept exist_route
    key_of_items new_route_table lookup insert bytes_eq member_of
two_ways = refl

-- A deleted path is gone from the table, and its routes are; but the stored routes are not, and a
-- table that is made from the store again has a next hop with no path.
abbrev deleted : Table
deleted = delete_path config (save_path config empty long_way (pos 5) (pos 5)) long_path

abbrev restarted : Table
restarted =
    resume_routes config
      (resume_paths config (new_route_table deleted.stored_paths deleted.stored_routes))

stale_route :
    (get_next_hop config deleted (1 ∷ []) [] ≡ [])
    × (get_next_hop config restarted (1 ∷ []) [] ≡ (3 ∷ []) ∷ [])
    × (get config restarted (1 ∷ []) ≡ none)
unfolding get get_next_hop next_hops load save_path save_routes save_route with_route kept
    exist_route key_of_items new_route_table lookup insert bytes_eq member_of delete_path
    delete_routes delete_route without delete resume_paths resume_paths_from resume_routes
    resume_routes_from
stale_route = (refl, refl, refl)
