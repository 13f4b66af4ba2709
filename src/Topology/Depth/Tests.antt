-- ===== src/Topology/Depth/Tests.antt =====
-- Runs of recalcDepth and binSaturated on a slice of four bins, and the theorems at it.
use favor_x.Base.{◌≡◌, ◌≢◌, ◌≤◌, ◌<◌, refl, Bool, true, false, List, [], ◌∷◌, arith}
use favor_x.Base.Bytes.{bytes_eq_iff}
use favor_x.Boson.{Address, proximity}
use favor_x.Base.Bits.{testbit}
use favor_x.Topology.PSlice.{
  PSlice, new, bin, add, size, append_all, mark, index, po, append_peer, each_bin, each_bin_rev,
  shallowest_empty,
}
use favor_x.Topology.PSlice.Count.{count}
use favor_x.Topology.PSlice.Invariant.{IsValid, Distinct, new-IsValid, add-IsValid}
use favor_x.Topology.Depth.{
  Limits, recalc_depth, bin_saturated, candidate, nears, shallowest_unsaturated, rises, counts,
}
use favor_x.Topology.Depth.Saturation.{left, Suffices, recalc_depth-Suffices}
use favor_x.Topology.Depth.Neighbours.{left_from, recalc_depth-left_from}

abbrev limits : Limits
limits = record { nn_low_watermark = 2; quick_saturation_peers = 1; saturation_peers = 1 }

abbrev start : PSlice
start = new 4 (0 ∷ 0 ∷ [])

abbrev all : Address → Bool
all addr = false

abbrev addrs : List Address
addrs = (128 ∷ 0 ∷ []) ∷ (64 ∷ 0 ∷ []) ∷ (65 ∷ 0 ∷ []) ∷ []

addrs-Distinct : Distinct addrs
unfolding count
addrs-Distinct a = ground (
  arith,
  bytes_eq_iff (128 ∷ 0 ∷ []) a,
  bytes_eq_iff (64 ∷ 0 ∷ []) a,
  bytes_eq_iff (65 ∷ 0 ∷ []) a,
)

abbrev peers : PSlice
peers = add start addrs

peers-IsValid : IsValid peers
peers-IsValid =
    add-IsValid start addrs (new-IsValid 4 (0 ∷ 0 ∷ []) (omega arith) (omega arith)) addrs-Distinct

depth_run : recalc_depth limits peers 4 all ≡ 1
unfolding recalc_depth add size append_all mark index new po proximity testbit append_peer candidate
    each_bin nears shallowest_unsaturated shallowest_empty each_bin_rev rises
depth_run = refl

radius_run : recalc_depth limits peers 0 all ≡ 0
unfolding recalc_depth add size append_all mark index new po proximity testbit append_peer candidate
    each_bin nears shallowest_unsaturated shallowest_empty each_bin_rev rises
radius_run = refl

-- Bin 0 lies below the depth and has one peer, bin 1 is at the depth.
saturated_run :
    (bin_saturated limits 3 all 0 peers peers all ≡ (true, false))
    × (bin_saturated limits 3 all 1 peers peers all ≡ (false, false))
unfolding bin_saturated counts recalc_depth add size append_all mark index new po proximity testbit
    append_peer candidate each_bin nears shallowest_unsaturated shallowest_empty each_bin_rev rises
saturated_run = (refl, refl)

recalc_depth-Suffices_example : (0 < 4) × (bin peers 0 ≢ []) × Suffices 1 (left all (bin peers 0))
recalc_depth-Suffices_example =
    recalc_depth-Suffices limits peers 4 all 0 peers-IsValid (let e = depth_run in omega (arith, e))

recalc_depth-left_from_example :
    limits.nn_low_watermark ≤ left_from all peers (recalc_depth limits peers 4 all) peers.max_bins
recalc_depth-left_from_example =
    recalc_depth-left_from limits peers 4 all peers-IsValid (let e = depth_run in omega (arith, e))
