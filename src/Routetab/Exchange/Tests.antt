-- ===== src/Routetab/Exchange/Tests.antt =====
-- A long path and a short one.
use favor_x.Base.{ℕ, ◌≡◌, refl, some, List, [], ◌∷◌, ◌++◌, get_elem?, length}
use favor_x.Base.Int.{pos}
use favor_x.Base.Bytes.{Bytes}
use favor_x.Routetab.Table.{RoutePath}
use favor_x.Routetab.Exchange.{shortest, extended, convert_paths_to_pb_paths, generate_paths}
use favor_x.Routetab.Exchange.Shortest.{AllAtLeast, convert_paths_to_pb_paths-AllAtLeast}

abbrev sign : Bytes → List Bytes → Bytes
sign body [] = body
sign body (s ∷ ss) = body ++ s

abbrev long : RoutePath
long = record {
  sign = 5 ∷ [];
  bodys = [];
  items = (1 ∷ []) ∷ (2 ∷ []) ∷ (3 ∷ []) ∷ [];
  create_time = pos 1;
  used_time = pos 1;
}

abbrev short : RoutePath
short = record {
  sign = 6 ∷ [];
  bodys = [];
  items = (1 ∷ []) ∷ (4 ∷ []) ∷ [];
  create_time = pos 1;
  used_time = pos 1;
}

convert_paths_to_pb_paths-AllAtLeast_example :
    (j : ℕ) × (q : RoutePath) × (get_elem? (long ∷ short ∷ []) j ≡ some q)
    × AllAtLeast (length q.items) (long ∷ short ∷ [])
    × (convert_paths_to_pb_paths sign (9 ∷ []) (long ∷ short ∷ []) (8 ∷ [])
        ≡ record {
          sign = sign (8 ∷ []) (q.sign ∷ []);
          bodys = q.bodys ++ (8 ∷ []) ∷ [];
          items = q.items ++ (9 ∷ []) ∷ [];
        }
          ∷ [])
convert_paths_to_pb_paths-AllAtLeast_example =
    convert_paths_to_pb_paths-AllAtLeast sign (9 ∷ []) long (short ∷ []) (8 ∷ [])

-- The short one is passed on, with the node at its end.
short_passed :
    convert_paths_to_pb_paths sign (9 ∷ []) (long ∷ short ∷ []) (8 ∷ [])
    ≡ record {
      sign = 8 ∷ 6 ∷ [];
      bodys = (8 ∷ []) ∷ [];
      items = (1 ∷ []) ∷ (4 ∷ []) ∷ (9 ∷ []) ∷ [];
    }
      ∷ []
unfolding convert_paths_to_pb_paths shortest extended
short_passed = refl

-- With no path, the node starts one.
started :
    generate_paths sign (9 ∷ []) [] (8 ∷ [])
    ≡ record { sign = 8 ∷ []; bodys = (8 ∷ []) ∷ []; items = (9 ∷ []) ∷ [] } ∷ []
unfolding generate_paths
started = refl
