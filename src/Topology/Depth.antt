-- ===== src/Topology/Depth.antt =====
-- pkg/topology/kademlia/kademlia.go: the depth of the neighbourhood (recalcDepth) and what it says of a
-- bin (binSaturated). The package's variables are an argument, and so are the filters of peers.
mod Neighbours
pub mod Saturation
pub mod Tests
use favor_x.Base.{ℕ, ◌+◌, Bool, true, false, not, Option, none, ◌&&◌, ltb, leb, ◌==◌, if◌then◌else◌}
use favor_x.Boson.{Address, max_po}
use favor_x.Topology.PSlice
use favor_x.Topology.PSlice.{PSlice, Verdict, shallowest_empty, each_bin, each_bin_rev}

pub record Limits : Type 0 where
  pub nn_low_watermark : ℕ
  pub quick_saturation_peers : ℕ
  pub saturation_peers : ℕ

abbrev go_on : Verdict ℕ
go_on = record { stop = false; next = false; error = none }

abbrev stop_here : Verdict ℕ
stop_here = record { stop = true; next = false; error = none }

-- The callback of EachBinRev, on shallowestUnsaturated and binCount.
unfoldable pub rises : ℕ → (Address → Bool) → ℕ × ℕ → Address → ℕ → (ℕ × ℕ) × Verdict ℕ
rises quick filter (shallowest, count) addr bin =
    if filter addr
    then ((shallowest, count), go_on)
    else if bin == shallowest
    then ((shallowest, count + 1), go_on)
    else if ltb shallowest bin && ltb count quick
    then ((shallowest, count), stop_here)
    else ((bin, 1), go_on)

-- The callback of EachBin, on peersCtr and candidate.
unfoldable pub nears : ℕ → (Address → Bool) → ℕ × ℕ → Address → ℕ → (ℕ × ℕ) × Verdict ℕ
nears low filter (count, candidate) addr po =
    if filter addr
    then ((count, candidate), go_on)
    else if leb low (count + 1)
    then ((count + 1, po), stop_here)
    else ((count + 1, candidate), go_on)

-- shallowestUnsaturated, after the empty bins have been looked at.
unfoldable pub shallowest_unsaturated : Limits → PSlice → (Address → Bool) → ℕ
shallowest_unsaturated l peers filter =
    let (empty, no_empty) = shallowest_empty peers in
    let unsaturated = (each_bin_rev (rises l.quick_saturation_peers filter) peers (0, 0)).0.0 in
    if not no_empty && ltb empty unsaturated then empty else unsaturated

unfoldable pub candidate : Limits → PSlice → (Address → Bool) → ℕ
candidate l peers filter = (each_bin (nears l.nn_low_watermark filter) peers (0, 0)).0.1

unfoldable pub recalc_depth : Limits → PSlice → ℕ → (Address → Bool) → ℕ
recalc_depth l peers radius filter =
    if leb (PSlice.size peers) l.nn_low_watermark
    then 0
    else let unsaturated = shallowest_unsaturated l peers filter in
      let near = candidate l peers filter in
      if ltb near unsaturated
      then (if ltb radius near then radius else near)
      else if ltb radius unsaturated
      then radius
      else unsaturated

-- The callback in binSaturated.
unfoldable pub counts : (Address → Bool) → (Address → Bool) → ℕ → ℕ → Address → ℕ → ℕ × Verdict ℕ
counts filter static_node bin size addr po =
    (if not (filter addr) && po == bin && not (static_node addr) then size + 1 else size, go_on)

-- binSaturated: whether the bin is saturated, and whether it is more than that.
unfoldable pub bin_saturated :
    Limits → ℕ → (Address → Bool) → ℕ → PSlice → PSlice → (Address → Bool) → Bool × Bool
bin_saturated l oversaturation static_node bin peers connected filter =
    if leb (recalc_depth l peers max_po filter) bin
    then (false, false)
    else let size = (each_bin (counts filter static_node bin) connected 0).0 in
      (leb l.saturation_peers size, leb oversaturation size)
