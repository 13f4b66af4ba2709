-- ===== src/Network/Blocklist.antt =====
-- pkg/p2p/libp2p/internal/blocklist/blocklist.go: the list of blocked peers in the state store. The
-- entries under the prefix are a map from addresses; a duration is stored as text, which ParseDuration
-- reads back as it was. The clock and the store's failures are arguments.
pub mod Lasting
pub mod Listing
pub mod Tests
use favor_x.Base.{
  ℕ, Bool, true, false, not, Option, none, some, ◌&&◌, ◌||◌, List, [], ◌∷◌, ◌++◌, if◌then◌else◌,
}
use favor_x.Base.Int.{ℤ, pos, negsuc, ltb_ℤ, eqb_ℤ}
use favor_x.Base.Bytes.{bytes_eq}
use favor_x.Base.Map.{Map, lookup, insert, delete}
use favor_x.Boson.{Address}
use favor_x.Network.Time.{Time, Duration, zero_time, sub_time}

pub record Entry : Type 0 where
  pub timestamp : Time
  pub duration : Duration

abbrev pub Blocklist : Type 0
Blocklist = Map Entry

-- The errors of the store.
pub data Fault : Type 0 where
  not_found : Fault
  failed : Fault

-- `get`: the time, the duration and the error. `fails` is whether the store cannot be read.
unfoldable pub get : Blocklist → Bool → Address → Time × Duration × Option Fault
get b fails a = if fails then (zero_time, negsuc 0, some failed) else elim (lookup a b) [
  | none ↦ (zero_time, negsuc 0, some not_found)
  | some e ↦ (e.timestamp, e.duration, none)
]

abbrev pub is_over : Time → Time → Duration → Bool
is_over now timestamp duration =
    ltb_ℤ duration (sub_time now timestamp) && not (eqb_ℤ duration (pos 0))

-- Exists
unfoldable pub exists : Blocklist → Bool → Address → Time → Blocklist × Bool × Option Fault
exists b fails a now =
    let (timestamp, duration, err) = get b fails a in
    elim err [
      | some not_found ↦ (b, false, none)
      | some failed ↦ (b, false, some failed)
      | none ↦ if is_over now timestamp duration then (delete a b, false, none) else (b, true, none)
    ]

-- Remove, when the store can be written.
unfoldable pub remove : Blocklist → Address → Blocklist
remove b a = delete a b

-- The duration that Add stores, from the one given and the one that is there.
unfoldable pub longer : Duration → Duration → Duration
longer duration d =
    if (ltb_ℤ duration d && not (eqb_ℤ duration (pos 0))) || eqb_ℤ d (pos 0) then d else duration

-- Add; `put_fails` is whether the store cannot be written.
unfoldable pub add : Blocklist → Bool → Bool → Address → Duration → Time → Blocklist × Option Fault
add b fails put_fails a duration now =
    let (timestamp, d, err) = get b fails a in
    let put =
      if put_fails
      then (b, some failed)
      else (insert a (record { timestamp = now; duration = longer duration d }) b, none) in
    elim err [ some failed ↦ (b, some failed) | _ ↦ put ]

pub record BlockPeers : Type 0 where
  pub address : Address
  pub timestamp : Time
  pub duration : Duration

-- The loop of Peers, over the keys that Iterate gives; `now` is the clock at each of them, and the
-- first entry that cannot be read ends it.
unfoldable pub peers_from :
    Blocklist
    → (Address → Bool)
    → (Address → Time)
    → Map Entry
    → List BlockPeers
    → List BlockPeers × Option Fault
peers_from b fails now [] peers = (peers, none)
peers_from b fails now ((a, e) ∷ m) peers =
    let (t, d, err) = get b (fails a) a in
    let skipped = peers_from b fails now m peers in
    let added =
      peers_from b fails now m
        (peers ++ (record { address = a; timestamp = t; duration = d }) ∷ []) in
    elim err [ some f ↦ ([], some f) | none ↦ if is_over (now a) t d then skipped else added ]

-- Peers
unfoldable pub peers :
    Blocklist → (Address → Bool) → (Address → Time) → List BlockPeers × Option Fault
peers b fails now = peers_from b fails now b []

unfoldable pub lists : Address → List BlockPeers → Bool
lists a [] = false
lists a (p ∷ ps) = bytes_eq p.address a || lists a ps
