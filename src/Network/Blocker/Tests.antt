-- ===== src/Network/Blocker/Tests.antt =====
-- A blocker with a timeout of two seconds, and the theorems at it.
use favor_x.Base.{◌+◌, ◌≡◌, refl, true, false, none, some, List, [], ◌∷◌, ◌++◌, arith}
use favor_x.Base.Int.{pos}
use favor_x.Base.Bytes.{bytes_eq}
use favor_x.Base.Map.{lookup, insert, delete}
use favor_x.Boson.{Address, member_of}
use favor_x.Network.Blocker.{
  Peer, Blocker, new_blocker, blocklist, calls_back, block_key, block, resolved, flag, tick, Event,
  ticks, wakes, flags, step, run, blocklisted,
}
use favor_x.Network.Blocker.Deadline.{run-blocklisted}
use favor_x.Network.Blocker.Patience.{IsPatient, run_not_blocklisted}

abbrev start : Blocker
start = record {
  sequence = 0;
  flag_timeout = pos 2000000000;
  block_duration = pos 60000000000;
  peers = [];
  has_callback = true;
}

new_start : new_blocker (pos 2000000000) (pos 60000000000) (pos 1000000000) true ≡ some start
unfolding new_blocker
new_start = refl

-- A timeout of one second is refused.
new_refused : new_blocker (pos 1000000000) (pos 60000000000) (pos 1000000000) true ≡ none
unfolding new_blocker
new_refused = refl

abbrev seconds : List Event
seconds = ticks true ∷ ticks false ∷ wakes ((1 ∷ []) ∷ []) ∷ ticks true ∷ ticks true ∷ []

abbrev keys : List Address
keys = (1 ∷ []) ∷ []

start-resolved : resolved start.flag_timeout ≡ 2
unfolding resolved
start-resolved = refl

run-blocklisted_example :
    blocklisted (1 ∷ []) (run start (flags true (1 ∷ []) ∷ seconds ++ wakes keys ∷ [])).1 ≡ true
run-blocklisted_example =
    run-blocklisted start (1 ∷ []) seconds keys (unfold lookup in refl)
      (omega (arith, start-resolved)) (tt, (tt, (tt, (tt, (tt, tt)))))
      (omega (arith, start-resolved)) (omega arith) (unfold member_of bytes_eq in refl)

start-IsPatient : IsPatient (1 ∷ []) (0 + resolved start.flag_timeout) start
start-IsPatient = record {
  keyed = λ k p found. unfold lookup in absurd cc;
  late = λ p found. unfold lookup in absurd cc;
}

run_not_blocklisted_example :
    (blocklisted
        (1 ∷ [])
        (run start (flags true (1 ∷ []) ∷ ticks true ∷ ticks true ∷ wakes keys ∷ [])).1
      ≡ false)
    × ((k : Address) (p : Peer)
        → lookup k
            (run start (flags true (1 ∷ []) ∷ ticks true ∷ ticks true ∷ wakes keys ∷ [])).0.peers
          ≡ some p
        → p.address ≡ k)
run_not_blocklisted_example =
    run_not_blocklisted start (1 ∷ [])
      (flags true (1 ∷ []) ∷ ticks true ∷ ticks true ∷ wakes keys ∷ []) start-IsPatient
      (omega (arith, start-resolved)) (omega (arith, start-resolved))

-- The third second is the one after which the peer is blocklisted, and its callback called.
third_second :
    (run start (flags true (1 ∷ []) ∷ seconds ++ wakes keys ∷ [])).1
    ≡ blocklist (1 ∷ []) (pos 60000000000) ∷ calls_back (1 ∷ []) ∷ []
unfolding run step block block_key flag tick resolved lookup insert delete bytes_eq
third_second = refl
