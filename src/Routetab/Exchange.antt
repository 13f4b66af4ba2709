-- ===== src/Routetab/Exchange.antt =====
-- pkg/routetab/table.go: the paths that a node passes on, with itself added. bls.Sign is a parameter; a
-- body is the time in the text that gconv.Bytes makes of it, an argument.
pub mod Shortest
pub mod Tests
use favor_x.Base.{
  ℕ, ◌+◌, Option, none, some, List, [], ◌∷◌, ◌++◌, map, ltb, if◌then◌else◌, length, get_elem?,
}
use favor_x.Base.Bytes.{Bytes}
use favor_x.Boson.{Address}
use favor_x.Routetab.Table.{RoutePath, PbPath}

-- The loop of convertPathsToPbPaths from the index k on, with the least number of items so far and
-- where it was first seen.
unfoldable pub shortest : List RoutePath → ℕ → ℕ → ℕ → ℕ
shortest [] k min_ttl key = key
shortest (v ∷ paths) k min_ttl key =
    let better = shortest paths (k + 1) (length v.items) k in
    let same = shortest paths (k + 1) min_ttl key in
    if ltb (length v.items) min_ttl then better else same

module _ (sign : Bytes → List Bytes → Bytes) (self : Address) where
  -- A path with the signature, the body and the node at its end.
  unfoldable pub extended : Bytes → Bytes → List Bytes → List Bytes → PbPath
  extended body old bodys items = record {
    sign = sign body (old ∷ []);
    bodys = bodys ++ body ∷ [];
    items = items ++ self ∷ [];
  }

  unfoldable pub convert_paths_to_pb_paths : List RoutePath → Bytes → List PbPath
  convert_paths_to_pb_paths [] body = []
  convert_paths_to_pb_paths (p ∷ paths) body =
      elim (get_elem? (p ∷ paths) (shortest paths 1 (length p.items) 0)) [
        | none ↦ []
        | some q ↦ extended body q.sign q.bodys q.items ∷ []
      ]

  unfoldable pub generate_paths : List PbPath → Bytes → List PbPath
  generate_paths [] body = record { sign = sign body []; bodys = body ∷ []; items = self ∷ [] } ∷ []
  generate_paths (p ∷ paths) body = map (λ v. extended body v.sign v.bodys v.items) (p ∷ paths)
