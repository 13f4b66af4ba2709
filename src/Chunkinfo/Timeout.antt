-- ===== src/Chunkinfo/Timeout.antt =====
-- pkg/chunkinfo/timeouttrigger.go: when each node was asked, and the turns of the ticker that take up a
-- node which did not answer. A key, the texts of a file's root and of a node, is the pair of them; Go
-- ranges over the keys in any order, which is an argument.
pub mod Repeats
pub mod Tests
use favor_x.Base.{ℕ, Bool, true, false, Option, none, some, ◌&&◌, List, [], ◌∷◌, if◌then◌else◌}
use favor_x.Base.Int.{ℤ, pos, ◌+ℤ◌, leb_ℤ}
use favor_x.Base.Bytes.{bytes_eq}
use favor_x.Base.Map.{insert}
use favor_x.Boson.{Address}
use favor_x.Chunkinfo.Queue.{Queue, Queues, un_pull, pulling, pop_node, push, get_queue}

-- The seconds after which a node has not answered.
abbrev pub time_out : ℕ
time_out = 30

abbrev pub Key : Type 0
Key = Address × Address

abbrev pub same_key : Key → Key → Bool
same_key (root, overlay) (root', overlay') = bytes_eq root root' && bytes_eq overlay overlay'

-- The times at which the nodes were asked, in seconds.
abbrev pub TimeoutTrigger : Type 0
TimeoutTrigger = List (Key × ℤ)

unfoldable pub update_time_out_trigger : TimeoutTrigger → Address → Address → ℤ → TimeoutTrigger
update_time_out_trigger [] root overlay now = ((root, overlay), now) ∷ []
update_time_out_trigger ((key, t) ∷ trigger) root overlay now =
    let rest = update_time_out_trigger trigger root overlay now in
    if same_key key (root, overlay) then (key, now) ∷ trigger else (key, t) ∷ rest

unfoldable pub remove_time_out_trigger : TimeoutTrigger → Address → Address → TimeoutTrigger
remove_time_out_trigger [] root overlay = []
remove_time_out_trigger ((key, t) ∷ trigger) root overlay =
    let rest = remove_time_out_trigger trigger root overlay in
    if same_key key (root, overlay) then rest else (key, t) ∷ rest

unfoldable pub asked_at : TimeoutTrigger → Key → Option ℤ
asked_at [] key = none
asked_at ((key', t) ∷ trigger) key = if same_key key' key then some t else asked_at trigger key

-- getTimeOutRootCidAndNode, over the keys in Go's order; `none` stands for two zero addresses.
unfoldable pub get_time_out_root_cid_and_node : TimeoutTrigger → ℤ → List Key → Option Key
get_time_out_root_cid_and_node trigger now [] = none
get_time_out_root_cid_and_node trigger now (key ∷ keys) = elim (asked_at trigger key) [
  | none ↦ get_time_out_root_cid_and_node trigger now keys
  | some t ↦
      if leb_ℤ (t +ℤ pos time_out) now
      then some key
      else get_time_out_root_cid_and_node trigger now keys
]

pub record ChunkInfo : Type 0 where
  pub queues : Queues
  pub timeout_trigger : TimeoutTrigger

-- A node that did not answer goes back to those that wait.
unfoldable pub put_back : Queue → Address → Queue
put_back q overlay = push (pop_node q pulling overlay) un_pull overlay

-- A turn of the ticker in triggerTimeOut: the new state, and the file whose finder gets a message. The
-- turn waits until the message is taken, if a finder is on record; that it is taken is left to the
-- finder.
unfoldable pub trigger_time_out : ChunkInfo → ℤ → List Key → ChunkInfo × Option Address
trigger_time_out ci now keys = elim (get_time_out_root_cid_and_node ci.timeout_trigger now keys) [
  | none ↦ (ci, none)
  | some (root, overlay) ↦
      if bytes_eq root [] then (ci, none) else elim (get_queue ci.queues root) [
        | none ↦ (
          record ci { timeout_trigger = remove_time_out_trigger ci.timeout_trigger root overlay },
          none,
        )
        | some q ↦ (record ci { queues = insert root (put_back q overlay) ci.queues }, some root)
      ]
]

-- The turns at these times, with the order of the keys at each.
unfoldable pub turns : ChunkInfo → List (ℤ × List Key) → ChunkInfo
turns ci [] = ci
turns ci ((now, keys) ∷ ts) = turns (trigger_time_out ci now keys).0 ts
