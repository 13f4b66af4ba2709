-- ===== src/Topology/LightNode/Choice.antt =====
-- When RandomPeer does not return.
use favor_x.Base.{ℕ, zero, suc, ◌<◌, ◌≡◌, refl, none, List, [], ◌∷◌, arith}
use favor_x.Base.Bytes.{bytes_eq_refl}
use favor_x.Boson.{Address}
use favor_x.Topology.PSlice.{PSlice, each_bin_rev, walk, walk_bin, numbered}
use favor_x.Topology.LightNode.{pick, draw, random_peer}

-- Numbers that rand.Int may draw below a bound.
abbrev pub AreBelow : ℕ → List ℕ → Type 0
AreBelow n [] = Unit
AreBelow n (i ∷ numbers) = (i < n) × AreBelow n numbers

-- The one connected node.
abbrev pub only : Address → Address → PSlice
only base peer = record { peers = (peer ∷ []) ∷ []; base_bytes = base; max_bins = 1 }

pick-only :
    (base peer : Address) (d : PSlice) (addr : Address)
    → pick (record { base = base; connected_peers = only base peer; disconnected_peers = d }) 0 addr
      ≡ peer
unfolding pick each_bin_rev walk walk_bin numbered
pick-only base peer d addr = refl

draw-only :
    (base peer : Address) (d : PSlice) (numbers : List ℕ) (addr : Address)
    → AreBelow 1 numbers
    → draw
        (record { base = base; connected_peers = only base peer; disconnected_peers = d })
        peer
        numbers
        addr
      ≡ none
unfolding draw
draw-only base peer d [] addr h = refl
draw-only base peer d (zero ∷ numbers) addr h =
    rw
      (draw, pick-only base peer d addr, bytes_eq_refl peer, draw-only base peer d numbers peer h.1)
      refl
draw-only base peer d (suc i ∷ numbers) addr h = absurd (omega (arith, h.0))

-- If the node that is not wanted is the only one that is connected, RandomPeer never returns, whatever
-- numbers are drawn.
pub random_peer_hangs :
    (base peer : Address) (d : PSlice) (numbers : List ℕ)
    → AreBelow 1 numbers
    → random_peer
        (record { base = base; connected_peers = only base peer; disconnected_peers = d })
        peer
        numbers
      ≡ none
unfolding random_peer
random_peer_hangs base peer d numbers h = draw-only base peer d numbers [] h
