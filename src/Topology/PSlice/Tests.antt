-- ===== src/Topology/PSlice/Tests.antt =====
-- A slice of four bins, the runs of its operations, and the theorems at it.
use favor_x.Base.{
  ℕ, ◌≡◌, refl, true, false, not, ◌&&◌, ◌||◌, none, [], ◌∷◌, arith, leb, if◌then◌else◌, ◌+◌,
}
use favor_x.Base.Bytes.{bytes_eq, bytes_eq_iff}
use favor_x.Base.Bits.{testbit}
use mathlib.Core.List.{reverse}
use favor_x.Boson.{Address, proximity, member_of}
use favor_x.Topology.PSlice.{
  PSlice, Verdict, new, po, index, add, append_peer, append_all, mark, exists, remove, size,
  each_bin, each_bin_rev, numbered, numbered_down, walk, walk_bin,
}
use favor_x.Topology.PSlice.Count.{count}
use favor_x.Topology.PSlice.Invariant.{IsValid, Distinct, new-IsValid, add-IsValid, add_lem, copies}
use favor_x.Topology.PSlice.Removal.{remove_lem}
use favor_x.Topology.PSlice.Views.{entries, run, each_bin-run}
use favor_x.Topology.PSlice.Duplicates.{add_twice}

abbrev base : Address
base = 0 ∷ 0 ∷ 0 ∷ 0 ∷ []

abbrev far : Address
far = 128 ∷ 0 ∷ 0 ∷ 0 ∷ []

abbrev near : Address
near = 1 ∷ 0 ∷ 0 ∷ 0 ∷ []

abbrev start : PSlice
start = new 4 base

abbrev start-IsValid : IsValid start
start-IsValid = new-IsValid 4 base (omega arith) (omega arith)

two-Distinct : Distinct (far ∷ near ∷ [])
unfolding count
two-Distinct a = ground (arith, bytes_eq_iff far a, bytes_eq_iff near a)

abbrev filled : PSlice
filled = add start (far ∷ near ∷ [])

abbrev filled-IsValid : IsValid filled
filled-IsValid = add-IsValid start (far ∷ near ∷ []) start-IsValid two-Distinct

filled_bins : filled.peers ≡ (far ∷ []) ∷ [] ∷ [] ∷ (near ∷ []) ∷ []
unfolding add new append_all mark index po proximity append_peer bytes_eq testbit
filled_bins = refl

new-IsValid_example : IsValid (new 4 base)
new-IsValid_example = new-IsValid 4 base (omega arith) (omega arith)

add_lem_example :
    IsValid (add start (far ∷ near ∷ []))
    × (exists (add start (far ∷ near ∷ [])) near
        ≡ (exists start near || member_of near (far ∷ near ∷ [])))
add_lem_example = add_lem start (far ∷ near ∷ []) near start-IsValid two-Distinct

remove_lem_example :
    IsValid (remove filled far)
    × (exists (remove filled far) near ≡ (exists filled near && not (bytes_eq far near)))
    × (size (remove filled far) + (if exists filled far then 1 else 0) ≡ size filled)
remove_lem_example = remove_lem filled far near filled-IsValid

missing : exists start far ≡ false
unfolding exists new index po proximity bytes_eq testbit
missing = refl

add_twice_example :
    (copies (add start (far ∷ far ∷ [])) far ≡ 2) × (¬ IsValid (add start (far ∷ far ∷ [])))
add_twice_example = add_twice start far start-IsValid missing

-- A callback that counts, asks for the next bin after each peer and stops at the third one.
abbrev first_ones : ℕ → Address → ℕ → ℕ × Verdict ℕ
first_ones n a i = (n + 1, record { stop = leb 3 (n + 1); next = true; error = none })

abbrev crowded : PSlice
crowded = record {
  max_bins = 4;
  base_bytes = base;
  peers = (far ∷ []) ∷ [] ∷ [] ∷ (near ∷ base ∷ []) ∷ [];
}

each_bin_example :
    (each_bin_rev first_ones crowded 0
      ≡ run first_ones (entries (numbered crowded crowded.max_bins 0)) none 0)
    × (each_bin first_ones crowded 0
        ≡ run first_ones (entries (reverse (numbered crowded crowded.max_bins 0))) none 0)
each_bin_example = each_bin-run first_ones crowded 0 (omega arith)

-- Of the two peers in the deepest bin, only the first one is looked at.
jump : (each_bin first_ones crowded 0).0 ≡ 2
unfolding each_bin walk walk_bin numbered_down
jump = refl
