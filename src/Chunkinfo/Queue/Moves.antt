-- ===== src/Chunkinfo/Queue/Moves.antt =====
-- pkg/chunkinfo/queue.go, with the pushes of chunkinfodiscover.go and timeouttrigger.go: the queue of
-- one file, whose methods are called by several goroutines in any order. Only the lock queuesLk keeps
-- two runs of queueProcess apart; it reads the three lengths in one move here.
use favor_x.Base.{
  ℕ, zero, suc, ◌+◌, ◌-◌, ◌≤◌, ◌≡◌, Option, none, some, List, [], ◌∷◌, length, leb, if◌then◌else◌,
}
use favor_x.Base.Bytes.{Bytes}
use favor_x.Chunkinfo.Queue.{
  Queue, un_pull, pulling, pulled, size, pop, push, pop_node, pull_max, pulling_max, room,
}

-- Where queueProcess is: not running, with some rounds to go, or with a node popped before that.
pub data Process : Type 0 where
  idle : Process
  looping : ℕ → Process
  holding : Bytes → ℕ → Process

abbrev pub State : Type 0
State = Queue × Process

-- The moves: queueProcess takes the lock and looks at the lengths, pops a node, or pushes it; a node is
-- pushed to UnPull (by updateQueue, findChunkInfo or triggerTimeOut), popped from Pulling, or pushed
-- to Pulled (by updateQueue or triggerTimeOut).
pub data Move : Type 0 where
  begins pops pushes : Move
  waits removes ends : Bytes → Move

-- How many rounds the loop of queueProcess has.
unfoldable pub rounds_of : Queue → ℕ
rounds_of q =
    if leb pull_max (size q pulled + size q pulling)
    then 0
    else if leb pulling_max (size q pulling)
    then 0
    else room q

-- A process with n rounds to go; without any, it gives the lock back.
unfoldable pub going : ℕ → Process
going zero = idle
going (suc n) = looping (suc n)

-- `none` is the panic of an empty queue. A move of queueProcess that is not due changes nothing.
unfoldable pub move : State → Move → Option State
unfolding going
move (q, idle) begins = some (q, going (rounds_of q))
move (q, looping n) begins = some (q, looping n)
move (q, holding node n) begins = some (q, holding node n)
move (q, idle) pops = some (q, idle)
move (q, looping n) pops = elim (pop q un_pull) [
  | none ↦ none
  | some (node, q') ↦ some (q', holding node (n - 1))
]
move (q, holding node n) pops = some (q, holding node n)
move (q, idle) pushes = some (q, idle)
move (q, looping n) pushes = some (q, looping n)
move (q, holding node n) pushes = some (push q pulling node, going n)
move (q, p) (waits node) = some (push q un_pull node, p)
move (q, p) (removes node) = some (pop_node q pulling node, p)
move (q, p) (ends node) = some (push q pulled node, p)

unfoldable pub moves : State → List Move → Option State
moves s [] = some s
moves s (m ∷ ms) = elim (move s m) [ none ↦ none | some s' ↦ moves s' ms ]

-- The rounds to go, and the nodes that are yet to be pushed to Pulling.
abbrev ahead : Process → ℕ
ahead idle = 0
ahead (looping n) = n
ahead (holding node n) = n

abbrev due : Process → ℕ
due idle = 0
due (looping n) = n
due (holding node n) = suc n

-- A loop that is due has a round to go.
abbrev IsDue : Process → Type 0
IsDue idle = Unit
IsDue (looping n) = 1 ≤ n
IsDue (holding node n) = Unit

-- Ten nodes at most are being asked or will be before queueProcess returns, and those that it will pop
-- are there.
pub record IsReady (s : State) : Type 0 where
  pub asked : length s.0.asked + due s.1 ≤ pulling_max
  pub there : ahead s.1 ≤ length s.0.waiting
  pub is_due : IsDue s.1

-- The state after a move, which does not panic.
abbrev Moves : Option State → Type 0
Moves r = (s' : State) × (r ≡ some s') × IsReady s'
