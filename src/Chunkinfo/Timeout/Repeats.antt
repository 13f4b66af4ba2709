-- ===== src/Chunkinfo/Timeout/Repeats.antt =====
-- What turns of the ticker do while a node's time is over.
use favor_x.Base.{
  ◌≡◌, refl, sym, ◌∙◌, false, some, List, [], ◌∷◌, ◌++◌, append_assoc, append-nil, length,
  replicate,
}
use favor_x.Base.Int.{ℤ}
use favor_x.Base.Bytes.{bytes_eq}
use favor_x.Base.Map.{insert, lookup-insert_self}
use favor_x.Boson.{Address}
use favor_x.Chunkinfo.Queue.{Queue, pop_node, push, get_queue}
use favor_x.Chunkinfo.Timeout.{
  Key, TimeoutTrigger, get_time_out_root_cid_and_node, ChunkInfo, put_back, trigger_time_out, turns,
}

-- At each turn it is this node whose time is found to be over.
abbrev pub AllRaise : TimeoutTrigger → Key → List (ℤ × List Key) → Type 0
AllRaise trigger key [] = Unit
AllRaise trigger key ((now, keys) ∷ ts) =
    (get_time_out_root_cid_and_node trigger now keys ≡ some key) × AllRaise trigger key ts

put_back_lem :
    (q : Queue) (overlay : Address)
    → ((put_back q overlay).waiting ≡ q.waiting ++ overlay ∷ [])
      × ((put_back q overlay).answered ≡ q.answered)
unfolding put_back push pop_node
put_back_lem q overlay = (refl, refl)

turn_lem :
    (ci : ChunkInfo) (root overlay : Address) (q : Queue) (now : ℤ) (keys : List Key)
    → bytes_eq root [] ≡ false
    → get_queue ci.queues root ≡ some q
    → get_time_out_root_cid_and_node ci.timeout_trigger now keys ≡ some (root, overlay)
    → trigger_time_out ci now keys
      ≡ (record ci { queues = insert root (put_back q overlay) ci.queues }, some root)
unfolding trigger_time_out
turn_lem ci root overlay q now keys r found raised = rw (trigger_time_out, raised, r, found) refl

-- As long as the time of a node is over, each turn puts the node behind those that wait once more and
-- leaves its time as it was: n turns put it there n times, if the file has a queue and an address.
pub waiting-turns :
    (ts : List (ℤ × List Key)) (ci : ChunkInfo) (root overlay : Address) (q : Queue)
    → bytes_eq root [] ≡ false
    → get_queue ci.queues root ≡ some q
    → AllRaise ci.timeout_trigger (root, overlay) ts
    → (q' : Queue) × (get_queue (turns ci ts).queues root ≡ some q')
      × (q'.waiting ≡ q.waiting ++ replicate (length ts) overlay)
      × (q'.answered ≡ q.answered)
      × ((turns ci ts).timeout_trigger ≡ ci.timeout_trigger)
unfolding turns
waiting-turns [] ci root overlay q r found raised =
    (q, found, sym (append-nil q.waiting), refl, refl)
waiting-turns ((now, keys) ∷ ts) ci root overlay q r found raised =
    let q1 = put_back q overlay in
    let ci1 : ChunkInfo = record ci { queues = insert root q1 ci.queues } in
    let i =
      waiting-turns ts ci1 root overlay q1 r (lookup-insert_self root q1 ci.queues) raised.1 in
    let p = put_back_lem q overlay in
    rw (turns, turn_lem ci root overlay q now keys r found raised.0)
      (
        i.0,
        i.1,
        i.2 ∙ rw p.0 (append_assoc q.waiting (overlay ∷ []) (replicate (length ts) overlay)),
        i.3 ∙ p.1,
        i.4,
      )
