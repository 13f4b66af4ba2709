-- ===== src/Chunkinfo/Queue/Bounds.antt =====
-- How many nodes are asked at a time, and which ones.
use favor_x.Base.{
  ℕ, zero, suc, ◌+◌, ◌-◌, ◌≤◌, ◌≡◌, refl, true, some, List, [], ◌∷◌, ◌++◌, arith, length, take,
  drop, leb, ltb, min, if◌then◌else◌, append-nil, append_assoc, Bool-cases, inl, inr,
}
use favor_x.Base.Bytes.{Bytes}
use favor_x.Chunkinfo.Queue.{Queue, pop, push, ask, process, pull_max, pulling_max}

-- The first n waiting nodes are asked.
abbrev pub moved : ℕ → Queue → Queue
moved n q = record q { waiting = drop n q.waiting; asked = q.asked ++ take n q.waiting }

-- A queue from its three lists.
abbrev of_lists : List Bytes → List Bytes → List Bytes → Queue
of_lists w a d = record { waiting = w; asked = a; answered = d }

ask-lists :
    (n : ℕ) (w a d : List Bytes)
    → n ≤ length w
    → ask n (of_lists w a d) ≡ some (moved n (of_lists w a d), take n w)
unfolding ask pop push
ask-lists zero w a d p = rw (append-nil a) refl
ask-lists (suc n) [] a d p = absurd (omega arith)
ask-lists (suc n) (x ∷ w) a d p =
    rw (ask-lists n w (a ++ x ∷ []) d (omega arith), append_assoc a (x ∷ []) (take n w)) refl

ask-moved :
    (n : ℕ) (q : Queue) → n ≤ length q.waiting → ask n q ≡ some (moved n q, take n q.waiting)
ask-moved n q p = ask-lists n q.waiting q.asked q.answered p

room-min : (w n : ℕ) → (if ltb w n then w else n) ≡ min n w
room-min w n = ground arith

no_room : (a w : ℕ) → leb pulling_max a ≡ true → min (pulling_max - a) w ≡ 0
no_room a w h = ground arith

-- None if 200 nodes have been asked, and else as many as wait, up to ten at a time.
abbrev pub rounds : Queue → ℕ
rounds q =
    if leb pull_max (length q.answered + length q.asked)
    then 0
    else min (pulling_max - length q.asked) (length q.waiting)

-- queueProcess of a queue never panics: it asks the nodes that have waited longest, as many as `rounds`
-- says, and puts them at the end of those being asked.
pub process_lem : (q : Queue) → process q ≡ some (moved (rounds q) q, take (rounds q) q.waiting)
unfolding process
process_lem q = elim (Bool-cases (leb pull_max (length q.answered + length q.asked))) [
  | inl h ↦ rw (process, h, append-nil q.asked) refl
  | inr h ↦ elim (Bool-cases (leb pulling_max (length q.asked))) [
    | inl k ↦
        rw (process, h, k, no_room (length q.asked) (length q.waiting) k, append-nil q.asked) refl
    | inr k ↦
        rw (process, h, k, room-min (length q.waiting) (pulling_max - length q.asked))
          (ask-moved (min (pulling_max - length q.asked) (length q.waiting)) q (omega arith))
  ]
]
