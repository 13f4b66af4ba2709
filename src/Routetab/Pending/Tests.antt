-- ===== src/Routetab/Pending/Tests.antt =====
-- Requests by two nodes for one target, and the theorems at them.
use favor_x.Base.{
  ◌<◌, ◌≡◌, refl, subst, inl, inr, Bool-cases, length, none, some, List, [], ◌∷◌, arith,
  if◌then◌else◌,
}
use favor_x.Base.Int.{pos, ◌-ℤ◌, saturate_int64}
use favor_x.Base.Bytes.{bytes_eq}
use favor_x.Base.Map.{lookup, insert}
use favor_x.Boson.{member_of}
use favor_x.Network.Time.{sub_time}
use favor_x.Routetab.Pending.{
  PendCallResItem, PendCallResTab, new_pend_call_res_tab, first_young, left_items, put_items,
  gc_res_key, gc_res_items, items_at, Event, adds, gets, deletes, collects_requests, collects_items,
  run,
}
use favor_x.Routetab.Pending.Expiry.{young_only, IsOrdered, IsWaiting, gc_res_items-young_only}
use favor_x.Routetab.Pending.Orderly.{IsTimely, run-IsWaiting}

-- A second and six seconds.
abbrev early : PendCallResItem
early = record { src = 2 ∷ []; create_time = pos 1000000000; res_ch = 7 }

abbrev late : PendCallResItem
late = record { src = 3 ∷ []; create_time = pos 6000000000; res_ch = 8 }

abbrev two_wait : PendCallResTab
two_wait = record { resp_list = (1 ∷ [], early ∷ late ∷ []) ∷ []; req_list = [] }

two_wait-IsWaiting : IsWaiting two_wait
unfolding lookup
two_wait-IsWaiting k items found = elim (Bool-cases (bytes_eq (1 ∷ []) k)) [
  | inl same ↦
      let f : some (early ∷ late ∷ []) ≡ some items = rw (lookup, same) at found in
      let g : early ∷ late ∷ [] ≡ items = cc in
      subst (λ x. (0 < length x) × IsOrdered x) g (omega arith, ((omega arith, tt), (tt, tt)))
  | inr other ↦ let f : none ≡ some items = rw (lookup, other) at found in absurd cc
]

gc_res_items-young_only_example :
    (pend' : PendCallResTab) × (gc_res_items two_wait
        (pos 7000000000)
        (pos 5000000000)
        ((1 ∷ []) ∷ [])
      ≡ some pend')
    × IsWaiting pend'
    × (items_at pend'.resp_list (1 ∷ []) ≡ (
        if member_of (1 ∷ []) ((1 ∷ []) ∷ [])
        then young_only (pos 7000000000) (pos 5000000000) (items_at two_wait.resp_list (1 ∷ []))
        else items_at two_wait.resp_list (1 ∷ [])))
gc_res_items-young_only_example =
    gc_res_items-young_only (pos 7000000000) (pos 5000000000) ((1 ∷ []) ∷ []) two_wait (1 ∷ [])
      two_wait-IsWaiting

abbrev events : List Event
events =
    adds (1 ∷ []) (2 ∷ []) (4 ∷ []) 7 (pos 1000000000)
    ∷ adds (1 ∷ []) (3 ∷ []) (4 ∷ []) 8 (pos 6000000000)
    ∷ collects_items (pos 7000000000) (pos 5000000000) ((1 ∷ []) ∷ [])
    ∷ collects_requests (pos 7000000000) (pos 5000000000)
    ∷ gets (1 ∷ []) (4 ∷ [])
    ∷ deletes (1 ∷ []) (4 ∷ [])
    ∷ []

empty-IsTimely : IsTimely (pos 0) new_pend_call_res_tab
unfolding lookup
empty-IsTimely = record { waits = λ k items found. absurd cc; before = λ k. tt }

run-IsWaiting_example :
    (pend' : PendCallResTab) × (run (λ a. a) new_pend_call_res_tab events ≡ some pend')
    × IsWaiting pend'
run-IsWaiting_example =
    run-IsWaiting (λ a. a) (pos 0) new_pend_call_res_tab events empty-IsTimely
      (omega arith, (omega arith, tt))

-- The early request expires, and Get gives the late one.
late_left :
    (gc_res_items two_wait (pos 7000000000) (pos 5000000000) ((1 ∷ []) ∷ []))
    ≡ some (record { resp_list = (1 ∷ [], late ∷ []) ∷ []; req_list = [] })
unfolding gc_res_items gc_res_key left_items first_young put_items lookup insert bytes_eq sub_time
    ◌-ℤ◌ saturate_int64
late_left = refl
