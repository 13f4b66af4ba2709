-- ===== src/Topology/LightNode.antt =====
-- pkg/topology/lightnode/container.go: the light nodes that are connected, and those that were. The
-- mutex makes each method one step. The numbers that crypto/rand draws are an argument.
pub mod Separation
pub mod Choice
pub mod Tests
use favor_x.Base.{
  ℕ, ◌+◌, Bool, true, false, Option, none, some, List, [], ◌∷◌, ◌++◌, ◌==◌, if◌then◌else◌,
}
use favor_x.Base.Bytes.{bytes_eq}
use favor_x.Boson.{Address}
use favor_x.Topology.PSlice
use favor_x.Topology.PSlice.{PSlice, Verdict, add, remove, exists, each_bin, each_bin_rev}

pub record Container : Type 0 where
  pub base : Address
  pub connected_peers : PSlice
  pub disconnected_peers : PSlice

unfoldable pub new_container : Address → Container
new_container base = record {
  base = base;
  connected_peers = PSlice.new 1 base;
  disconnected_peers = PSlice.new 1 base;
}

unfoldable pub connected : Container → Address → Container
connected c addr = record c {
  connected_peers = add c.connected_peers (addr ∷ []);
  disconnected_peers = remove c.disconnected_peers addr;
}

unfoldable pub disconnected : Container → Address → Container
disconnected c addr =
    if exists c.connected_peers addr
    then record c {
      connected_peers = remove c.connected_peers addr;
      disconnected_peers = add c.disconnected_peers (addr ∷ []);
    }
    else c

-- Count
unfoldable pub number : Container → ℕ
number c = PSlice.size c.connected_peers

-- The callback of RandomPeer: the count, and the peer at position i once it is reached.
abbrev pub at_position : ℕ → ℕ × Address → Address → ℕ → (ℕ × Address) × Verdict ℕ
at_position i (count, addr) peer po =
    if count == i
    then ((count, peer), record { stop = true; next = false; error = none })
    else ((count + 1, addr), record { stop = false; next = false; error = none })

-- The peer that RandomPeer picks for the number i.
unfoldable pub pick : Container → ℕ → Address → Address
pick c i addr = (each_bin_rev (at_position i) c.connected_peers (0, addr)).0.1

-- The loop of RandomPeer over the numbers that are drawn; `none` while it has not returned.
unfoldable pub draw : Container → Address → List ℕ → Address → Option Address
draw c not [] addr = none
draw c not (i ∷ numbers) addr =
    let addr' = pick c i addr in
    let rest = draw c not numbers addr' in if bytes_eq addr' not then rest else some addr'

-- RandomPeer of a container that is not empty.
unfoldable pub random_peer : Container → Address → List ℕ → Option Address
random_peer c not numbers = draw c not numbers []

-- EachPeer
unfoldable pub each_peer {ℓ κ} :
    {S : Type ℓ} {E : Type κ} → (S → Address → ℕ → S × Verdict E) → Container → S → S × Option E
each_peer pf c = each_bin pf c.connected_peers

-- The callback of peersInfo.
abbrev pub collect : List Address → Address → ℕ → List Address × Verdict ℕ
collect peers addr po = (peers ++ addr ∷ [], record { stop = false; next = false; error = none })

unfoldable pub peers_info : PSlice → List Address
peers_info s = if PSlice.size s == 0 then [] else (each_bin collect s []).0

pub record BinInfo : Type 0 where
  pub bin_population : ℕ
  pub bin_connected : ℕ
  pub disconnected_peers : List Address
  pub connected_peers : List Address

unfoldable pub peer_info : Container → BinInfo
peer_info c = record {
  bin_population = PSlice.size c.connected_peers;
  bin_connected = PSlice.size c.connected_peers;
  disconnected_peers = peers_info c.disconnected_peers;
  connected_peers = peers_info c.connected_peers;
}

-- What happens to the container.
pub data Event : Type 0 where
  connects disconnects : Address → Event

unfoldable pub step : Container → Event → Container
step c (connects addr) = connected c addr
step c (disconnects addr) = disconnected c addr

unfoldable pub run : Container → List Event → Container
run c [] = c
run c (e ∷ es) = run (step c e) es
