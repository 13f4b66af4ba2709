-- ===== src/Chunkinfo/Queue/Tests.antt =====
-- Twelve waiting nodes, and the theorems at them.
use favor_x.Base.{ℕ, zero, suc, ◌≡◌, refl, some, List, [], ◌∷◌, take}
use favor_x.Base.Bytes.{Bytes}
use favor_x.Chunkinfo.Queue.{Queue, process, pop, push, ask}
use favor_x.Chunkinfo.Queue.Bounds.{moved, rounds, process_lem}
use favor_x.Chunkinfo.Queue.Moves.{Move, begins, pops, pushes, waits, removes, ends}

abbrev nodes : ℕ → List Bytes
nodes zero = []
nodes (suc n) = (n ∷ []) ∷ nodes n

abbrev twelve : Queue
twelve = record { waiting = nodes 12; asked = []; answered = [] }

ten_asked : process twelve ≡ some (moved 10 twelve, take 10 (nodes 12))
unfolding process ask pop push
ten_asked = refl

process_lem_example :
    process twelve ≡ some (moved (rounds twelve) twelve, take (rounds twelve) (nodes 12))
process_lem_example = process_lem twelve

-- While queueProcess is at work a node answers, another one becomes known, and one times out.
abbrev moves_of_all : List Move
moves_of_all =
    begins
    ∷ pops
    ∷ waits (60 ∷ [])
    ∷ pushes
    ∷ pops
    ∷ removes (11 ∷ [])
    ∷ ends (11 ∷ [])
    ∷ waits (12 ∷ [])
    ∷ pushes
    ∷ begins
    ∷ pops
    ∷ []
