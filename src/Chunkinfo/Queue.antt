-- ===== src/Chunkinfo/Queue.antt =====
-- pkg/chunkinfo/queue.go: for each file, the nodes that are to be asked, are being asked and were asked.
-- Only the three constants of Pull are used, so that it is a data type. Each method of a queue is one
-- step under its lock; queueProcess and updateQueue are made of several, in their order here and
-- interleaved with others in Queue/Moves.antt. What is sent to a node, and the timeout that is set for
-- it, is the list of nodes asked. The names of the nodes in an answer are addresses already: the panic
-- of boson.MustParseHexAddress on another text is not modelled.
pub mod Bounds
pub mod Moves
pub mod Tests
use favor_x.Base.{
  ℕ, zero, suc, ◌+◌, ◌-◌, Bool, true, false, not, ◌||◌, Option, none, some, List, [], ◌∷◌, ◌++◌,
  length, leb, ltb, if◌then◌else◌,
}
use favor_x.Base.Bytes.{Bytes, bytes_eq}
use favor_x.Base.Map.{Map, lookup, insert}
use favor_x.Boson.{Address, member_of}

pub data Pull : Type 0 where
  un_pull pulling pulled : Pull

abbrev pub pull_max : ℕ
pull_max = 200

abbrev pub pulling_max : ℕ
pulling_max = 10

abbrev pub puller_max : ℕ
puller_max = 1000

pub record Queue : Type 0 where
  pub waiting : List Bytes
  pub asked : List Bytes
  pub answered : List Bytes

abbrev pub get_pull : Queue → Pull → List Bytes
get_pull q un_pull = q.waiting
get_pull q pulling = q.asked
get_pull q pulled = q.answered

abbrev pub update_pull : Queue → Pull → List Bytes → Queue
update_pull q un_pull nodes = record q { waiting = nodes }
update_pull q pulling nodes = record q { asked = nodes }
update_pull q pulled nodes = record q { answered = nodes }

-- queue.len
abbrev pub size : Queue → Pull → ℕ
size q pull = length (get_pull q pull)

-- `none` is the panic of an empty queue.
unfoldable pub pop : Queue → Pull → Option (Bytes × Queue)
pop q pull = elim (get_pull q pull) [ [] ↦ none | v ∷ nodes ↦ some (v, update_pull q pull nodes) ]

-- The loop of popNode: after a removal the next entry is not looked at.
unfoldable pub remove_node : Bytes → List Bytes → List Bytes
remove_node overlay [] = []
remove_node overlay (f ∷ []) = if bytes_eq f overlay then [] else f ∷ []
remove_node overlay (f ∷ g ∷ nodes) =
    let skipping = g ∷ remove_node overlay nodes in
    let rest = remove_node overlay (g ∷ nodes) in if bytes_eq f overlay then skipping else f ∷ rest

unfoldable pub pop_node : Queue → Pull → Bytes → Queue
pop_node q pull overlay = update_pull q pull (remove_node overlay (get_pull q pull))

unfoldable pub push : Queue → Pull → Bytes → Queue
push q pull overlay = update_pull q pull (get_pull q pull ++ overlay ∷ [])

unfoldable pub is_exists : Queue → Pull → Bytes → Bool
is_exists q pull overlay = member_of overlay (get_pull q pull)

-- ci.queues
abbrev pub Queues : Type 0
Queues = Map Queue

unfoldable pub new_queue : Queues → Bytes → Queues
new_queue queues root = insert root (record { waiting = []; asked = []; answered = [] }) queues

abbrev pub get_queue : Queues → Bytes → Option Queue
get_queue queues root = lookup root queues

-- The loop of queueProcess, with n rounds left: the nodes that are asked.
unfoldable pub ask : ℕ → Queue → Option (Queue × List Bytes)
ask zero q = some (q, [])
ask (suc n) q = elim (pop q un_pull) [
  | none ↦ none
  | some (node, q') ↦ elim (ask n (push q' pulling node)) [
    | none ↦ none
    | some (q'', nodes) ↦ some (q'', node ∷ nodes)
  ]
]

-- How many nodes are asked.
abbrev pub room : Queue → ℕ
room q =
    let n = pulling_max - size q pulling in if ltb (size q un_pull) n then size q un_pull else n

-- queueProcess of one queue.
unfoldable pub process : Queue → Option (Queue × List Bytes)
process q =
    if leb pull_max (size q pulled + size q pulling)
    then some (q, [])
    else if leb pulling_max (size q pulling)
    then some (q, [])
    else ask (room q) q

-- queueProcess; `pending` is what getPendingFinder says of the file.
unfoldable pub queue_process : Bool → Queues → Bytes → Option (Queues × List Bytes)
queue_process pending queues root =
    if not pending then some (queues, []) else elim (get_queue queues root) [
      | none ↦ some (queues, [])
      | some q ↦ elim (process q) [
        | none ↦ none
        | some (q', nodes) ↦ some (insert root q' queues, nodes)
      ]
    ]

-- The loop of updateQueue over the nodes that another one knows, in the order of the map.
unfoldable pub add_nodes : Address → List Address → Queue → Queue
add_nodes own [] q = q
add_nodes own (n ∷ nodes) q =
    let skipped = add_nodes own nodes q in
    let pushed = add_nodes own nodes (push q un_pull n) in
    if bytes_eq n own
    then skipped
    else if leb puller_max (size q un_pull)
    then q
    else if is_exists q pulled n || is_exists q pulling n || is_exists q un_pull n
    then skipped
    else pushed

-- updateQueue of one queue, after an answer of the node `overlay`.
unfoldable pub answer : Address → Queue → Address → List Address → Queue
answer own q overlay nodes = push (pop_node (add_nodes own nodes q) pulling overlay) pulled overlay

-- updateQueue
unfoldable pub update_queue : Address → Queues → Bytes → Address → List Address → Queues
update_queue own queues root overlay nodes = elim (get_queue queues root) [
  | none ↦ queues
  | some q ↦ insert root (answer own q overlay nodes) queues
]
