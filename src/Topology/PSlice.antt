-- ===== src/Topology/PSlice.antt =====
-- pkg/topology/pslice/pslice.go: peers in bins by proximity order. A slice of slices is a list of
-- lists. The capacity of a bin, which `Add` grows ahead of time, cannot be observed and is not
-- modelled; the read-write mutex makes each method one step, but for EachBin and EachBinRev:
-- they lock only to read a bin, and the slice that they take stands for the bins as they were read.
pub mod Count
pub mod Invariant
pub mod Removal
pub mod Views
pub mod Duplicates
pub mod Tests
use favor_x.Base.{
  ℕ, zero, suc, ◌+◌, ◌-◌, ◌%◌, Bool, true, false, not, Option, none, some, List, [], ◌∷◌, ◌++◌, map,
  leb, ◌==◌, if◌then◌else◌, get_or, length, set, take, replicate,
}
use favor_x.Base.Bytes.{Bytes, bytes_eq}
use favor_x.Boson.{Address, proximity}

pub record PSlice : Type 0 where
  pub peers : List (List Address)
  pub base_bytes : Bytes
  pub max_bins : ℕ

-- New
unfoldable pub new : ℕ → Address → PSlice
new max_bins base = record { peers = replicate max_bins []; base_bytes = base; max_bins = max_bins }

-- s.peers[i]
abbrev pub bin : PSlice → ℕ → List Address
bin s i = get_or s.peers i []

unfoldable pub po : PSlice → Bytes → ℕ
po s peer =
    let po = proximity s.base_bytes peer in
    if leb s.max_bins po then (s.max_bins % 256 + 255) % 256 else po

-- The loop of `index`, from position i on.
unfoldable pub index_from : ℕ → Address → List Address → Bool × ℕ
index_from i addr [] = (false, 0)
index_from i addr (peer ∷ peers) =
    let rest = index_from (i + 1) addr peers in if bytes_eq peer addr then (true, i) else rest

unfoldable pub index : PSlice → Address → ℕ → Bool × ℕ
unfolding index_from
index s addr po = index_from 0 addr (bin s po)

-- append(s.peers[po], addr)
unfoldable pub append_peer : PSlice → ℕ → Address → PSlice
append_peer s po addr = record s { peers = set s.peers po (bin s po ++ addr ∷ []) }

-- The last loop of `Add`: an address of which the first loop found a copy is skipped.
unfoldable pub append_all : PSlice → List (Address × ℕ × Bool) → PSlice
append_all s [] = s
append_all s ((addr, po, found) ∷ marks) =
    append_all (if found then s else append_peer s po addr) marks

-- The first loop of `Add`: bins and copies are looked up before anything is appended.
unfoldable pub mark : PSlice → List Address → List (Address × ℕ × Bool)
mark s [] = []
mark s (addr ∷ addrs) = (addr, po s addr, (index s addr (po s addr)).0) ∷ mark s addrs

unfoldable pub add_one : PSlice → Address → PSlice
add_one s addr = let po = po s addr in if (index s addr po).0 then s else append_peer s po addr

unfoldable pub add : PSlice → List Address → PSlice
add s [] = append_all s (mark s [])
add s (addr ∷ []) = add_one s addr
add s (addr ∷ next ∷ addrs) = append_all s (mark s (addr ∷ next ∷ addrs))

unfoldable pub bin_size : PSlice → ℕ → ℕ
bin_size s i = if leb s.max_bins i then 0 else length (bin s i)

unfoldable pub bin_peers : PSlice → ℕ → List Address
bin_peers s i = if leb s.max_bins i then [] else bin s i

unfoldable pub sum_lengths : List (List Address) → ℕ
sum_lengths [] = 0
sum_lengths (peers ∷ bins) = length peers + sum_lengths bins

-- PSlice.Length
unfoldable pub size : PSlice → ℕ
unfolding sum_lengths
size s = sum_lengths s.peers

unfoldable pub shallowest_from : ℕ → List (List Address) → ℕ × Bool
shallowest_from i [] = (0, true)
shallowest_from i ([] ∷ bins) = (i % 256, false)
shallowest_from i ((peer ∷ peers) ∷ bins) = shallowest_from (i + 1) bins

unfoldable pub shallowest_empty : PSlice → ℕ × Bool
unfolding shallowest_from
shallowest_empty s = shallowest_from 0 s.peers

unfoldable pub exists : PSlice → Address → Bool
exists s addr = (index s addr (po s addr)).0

-- The bin without the entry at i, whose place the last entry takes.
unfoldable pub swap_remove : List Address → ℕ → List Address
swap_remove peers i =
    let new_length = length peers - 1 in
    let cpy = take new_length peers in
    if i == new_length then cpy else set cpy i (get_or peers new_length [])

unfoldable pub remove : PSlice → Address → PSlice
remove s addr =
    let po = po s addr in
    let (e, i) = index s addr po in
    if not e then s else record s { peers = set s.peers po (swap_remove (bin s po) i) }

-- What a callback says after a peer: stop, go on with the next bin, or an error.
pub record Verdict {ℓ} (E : Type ℓ) : Type ℓ where
  pub stop : Bool
  pub next : Bool
  pub error : Option E

-- How a walk over one bin ends: the walk goes on, stops, or fails.
pub data Walk {ℓ} (E : Type ℓ) : Type ℓ where
  goes_on stopped : Walk E
  failed : E → Walk E

module _ {ℓ κ} {S : Type ℓ} {E : Type κ} (pf : S → Address → ℕ → S × Verdict E) where
  unfoldable pub walk_bin : ℕ → List Address → S → S × Walk E
  walk_bin i [] st = (st, goes_on)
  walk_bin i (peer ∷ peers) st =
      let (st', v) = pf st peer i in
      let rest = walk_bin i peers st' in
      elim v.error [
        | some e ↦ (st', failed e)
        | none ↦ if v.stop then (st', stopped) else if v.next then (st', goes_on) else rest
      ]

  -- Bins in the order given, each with its number.
  unfoldable pub walk : List (ℕ × List Address) → S → S × Option E
  unfolding walk_bin
  walk [] st = (st, none)
  walk ((i, peers) ∷ bins) st =
      let (st', w) = walk_bin (i % 256) peers st in
      let rest = walk bins st' in
      elim w [ goes_on ↦ rest | stopped ↦ (st', none) | failed e ↦ (st', some e) ]

-- for i := i; i < i + n; i++
unfoldable pub numbered : PSlice → ℕ → ℕ → List (ℕ × List Address)
numbered s zero i = []
numbered s (suc n) i = (i, bin s i) ∷ numbered s n (i + 1)

-- for i := n - 1; i >= 0; i--
unfoldable pub numbered_down : PSlice → ℕ → List (ℕ × List Address)
numbered_down s zero = []
numbered_down s (suc n) = (n, bin s n) ∷ numbered_down s n

module _ {ℓ κ} {S : Type ℓ} {E : Type κ} (pf : S → Address → ℕ → S × Verdict E) where
  -- EachBin: from the deepest bin to the shallowest.
  unfoldable pub each_bin : PSlice → S → S × Option E
  unfolding walk numbered_down
  each_bin s = walk pf (numbered_down s s.max_bins)

  -- EachBinRev: from the shallowest bin to the deepest.
  unfoldable pub each_bin_rev : PSlice → S → S × Option E
  unfolding walk numbered
  each_bin_rev s = walk pf (numbered s s.max_bins 0)
