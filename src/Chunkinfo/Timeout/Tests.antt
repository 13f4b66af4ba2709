-- ===== src/Chunkinfo/Timeout/Tests.antt =====
-- A file for which one node was asked at second 10.
use favor_x.Base.{◌≡◌, refl, none, some, List, [], ◌∷◌, ◌++◌, length, replicate}
use favor_x.Base.Int.{ℤ, pos, ◌+ℤ◌}
use favor_x.Base.Bytes.{bytes_eq}
use favor_x.Base.Map.{lookup}
use favor_x.Chunkinfo.Queue.{Queue, get_queue}
use favor_x.Chunkinfo.Timeout.{
  Key, asked_at, get_time_out_root_cid_and_node, ChunkInfo, trigger_time_out,
  remove_time_out_trigger, turns,
}
use favor_x.Chunkinfo.Timeout.Repeats.{waiting-turns}

abbrev asked : Queue
asked = record { waiting = []; asked = (2 ∷ []) ∷ []; answered = [] }

abbrev key : Key
key = (1 ∷ [], 2 ∷ [])

abbrev start : ChunkInfo
start = record { queues = (1 ∷ [], asked) ∷ []; timeout_trigger = (key, pos 10) ∷ [] }

abbrev ticks : List (ℤ × List Key)
ticks = (pos 40, key ∷ []) ∷ (pos 45, key ∷ []) ∷ (pos 50, key ∷ []) ∷ []

waiting-turns_example :
    (q' : Queue) × (get_queue (turns start ticks).queues (1 ∷ []) ≡ some q')
    × (q'.waiting ≡ [] ++ replicate (length ticks) (2 ∷ []))
    × (q'.answered ≡ [])
    × ((turns start ticks).timeout_trigger ≡ start.timeout_trigger)
waiting-turns_example =
    waiting-turns ticks start (1 ∷ []) (2 ∷ []) asked (unfold bytes_eq in refl)
      (unfold lookup bytes_eq in refl)
      (unfold get_time_out_root_cid_and_node asked_at bytes_eq ◌+ℤ◌ in (refl, (refl, (refl, tt))))

-- A second too early, nothing happens.
too_early : trigger_time_out start (pos 39) (key ∷ []) ≡ (start, none)
unfolding trigger_time_out get_time_out_root_cid_and_node asked_at bytes_eq ◌+ℤ◌
too_early = refl

-- With no queue for the file, the time is forgotten.
no_queue :
    trigger_time_out (record start { queues = [] }) (pos 40) (key ∷ [])
    ≡ (record { queues = []; timeout_trigger = [] }, none)
unfolding trigger_time_out get_time_out_root_cid_and_node asked_at remove_time_out_trigger lookup
    bytes_eq ◌+ℤ◌
no_queue = refl
