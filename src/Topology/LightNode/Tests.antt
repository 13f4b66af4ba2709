-- ===== src/Topology/LightNode/Tests.antt =====
-- A container in use, and the theorems at it.
use favor_x.Base.{◌≡◌, none, List, [], ◌∷◌, arith}
use favor_x.Boson.{Address}
use favor_x.Topology.PSlice
use favor_x.Topology.PSlice.{exists}
use favor_x.Topology.LightNode.{new_container, Event, connects, disconnects, run, random_peer}
use favor_x.Topology.LightNode.Separation.{IsSeparated, new_container-IsSeparated, run-IsSeparated}
use favor_x.Topology.LightNode.Choice.{only, random_peer_hangs}

abbrev base : Address
base = 0 ∷ 0 ∷ 0 ∷ 0 ∷ []

abbrev first : Address
first = 128 ∷ 0 ∷ 0 ∷ 0 ∷ []

abbrev second : Address
second = 1 ∷ 0 ∷ 0 ∷ 0 ∷ []

abbrev events : List Event
events = connects first ∷ connects second ∷ disconnects first ∷ connects second ∷ []

run-IsSeparated_example : IsSeparated (run (new_container base) events)
run-IsSeparated_example =
    run-IsSeparated (new_container base) events (new_container-IsSeparated base)

random_peer_hangs_example :
    random_peer
      (record {
        base = base;
        connected_peers = only base first;
        disconnected_peers = PSlice.new 1 base;
      })
      first
      (0 ∷ 0 ∷ [])
    ≡ none
random_peer_hangs_example =
    random_peer_hangs base first (PSlice.new 1 base) (0 ∷ 0 ∷ []) (omega arith, (omega arith, tt))
