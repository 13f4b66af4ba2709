-- ===== src/Network/Blocker.antt =====
-- pkg/blocker/blocker.go: peers that are flagged, and blocklisted when they stay so for too long. Each
-- turn of one of the two goroutines, and each method, is one step: the clock's turn by `sequence.Inc`,
-- the other's by `block`. The calls that `block` makes of the blocklister and of the callback are a
-- list, since their results are only logged. What `NetworkStatus` answers is an argument.
pub mod Deadline
pub mod Patience
pub mod Tests
use favor_x.Base.{
  ℕ, ◌+◌, ◌-◌, ◌/◌, ◌%◌, Bool, true, false, not, Option, none, some, ◌&&◌, ◌||◌, List, [], ◌∷◌,
  ◌++◌, ltb, if◌then◌else◌,
}
use favor_x.Base.Int.{ℤ, pos, negsuc, leb_ℤ, ltb_ℤ}
use favor_x.Base.Bytes.{bytes_eq}
use favor_x.Base.Map.{Map, lookup, insert, delete}
use favor_x.Boson.{Address, member_of}
use favor_x.Network.Time.{Duration}

-- One second, in nanoseconds.
abbrev pub sequencer_resolution : ℕ
sequencer_resolution = 1000000000

-- The least number above all values of a uint64.
abbrev pub uint64_end : ℕ
uint64_end = 18446744073709551616

pub record Peer : Type 0 where
  pub block_after : ℕ
  pub address : Address

pub record Blocker : Type 0 where
  pub sequence : ℕ
  pub flag_timeout : Duration
  pub block_duration : Duration
  pub peers : Map Peer
  pub has_callback : Bool

-- New; `none` is its panic.
unfoldable pub new_blocker : Duration → Duration → Duration → Bool → Option Blocker
new_blocker flag_timeout block_duration wake_up_time has_callback =
    if leb_ℤ flag_timeout (pos sequencer_resolution)
      || ltb_ℤ wake_up_time (pos sequencer_resolution)
    then none
    else some (record {
      sequence = 0;
      flag_timeout = flag_timeout;
      block_duration = block_duration;
      peers = [];
      has_callback = has_callback;
    })

pub data Call : Type 0 where
  blocklist : Address → Duration → Call
  calls_back : Address → Call

-- One round of the loop in `block`, at a key of the map.
unfoldable pub block_key : Blocker → Address → Blocker × List Call
block_key b key = elim (lookup key b.peers) [
  | none ↦ (b, [])
  | some p ↦
      if ltb 0 p.block_after && ltb p.block_after b.sequence
      then (
        record b { peers = delete key b.peers },
        blocklist p.address b.block_duration
            ∷ (if b.has_callback then calls_back p.address ∷ [] else []),
      )
      else (b, [])
]

-- `block`. Go's order of the keys is not fixed, so the keys that the loop comes to are an argument; a
-- Close in between ends the loop early.
unfoldable pub block : Blocker → List Address → Blocker × List Call
block b [] = (b, [])
block b (key ∷ keys) =
    let (b', calls) = block_key b key in let (b'', more) = block b' keys in (b'', calls ++ more)

-- `uint64(d / sequencerResolution)`: the division of Go goes towards zero.
unfoldable pub resolved : Duration → ℕ
resolved (pos n) = n / sequencer_resolution
resolved (negsuc n) = (uint64_end - (n + 1) / sequencer_resolution) % uint64_end

unfoldable pub flag : Blocker → Bool → Address → Blocker
flag b available addr = if not available then b else elim (lookup addr b.peers) [
  | some p ↦ b
  | none ↦ record b {
    peers =
        insert addr
          (record {
            block_after = (b.sequence + resolved b.flag_timeout) % uint64_end;
            address = addr;
          })
          b.peers;
  }
]

unfoldable pub unflag : Blocker → Address → Blocker
unflag b addr = record b { peers = delete addr b.peers }

-- The loop of PruneUnseen over the map; member_of is what `isSeen` computes.
unfoldable pub seen_only : List Address → Map Peer → Map Peer
seen_only seen [] = []
seen_only seen ((a, p) ∷ m) =
    let rest = seen_only seen m in if member_of a seen then (a, p) ∷ rest else rest

unfoldable pub prune_unseen : Blocker → List Address → Blocker
prune_unseen b seen = record b { peers = seen_only seen b.peers }

-- A turn of the clock.
unfoldable pub tick : Blocker → Bool → Blocker
tick b available = if available then record b { sequence = (b.sequence + 1) % uint64_end } else b

pub data Event : Type 0 where
  ticks : Bool → Event
  wakes : List Address → Event
  flags : Bool → Address → Event
  unflags : Address → Event
  prunes : List Address → Event

unfoldable pub step : Blocker → Event → Blocker × List Call
step b (ticks available) = (tick b available, [])
step b (wakes keys) = block b keys
step b (flags available addr) = (flag b available addr, [])
step b (unflags addr) = (unflag b addr, [])
step b (prunes seen) = (prune_unseen b seen, [])

unfoldable pub run : Blocker → List Event → Blocker × List Call
run b [] = (b, [])
run b (e ∷ es) = let (b', calls) = step b e in let (b'', more) = run b' es in (b'', calls ++ more)

-- Whether a peer is blocklisted by one of the calls.
unfoldable pub blocklisted : Address → List Call → Bool
blocklisted a [] = false
blocklisted a (blocklist b d ∷ calls) = bytes_eq a b || blocklisted a calls
blocklisted a (calls_back b ∷ calls) = blocklisted a calls
