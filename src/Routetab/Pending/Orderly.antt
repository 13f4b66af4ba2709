-- ===== src/Routetab/Pending/Orderly.antt =====
-- Any row of calls of the methods.
use favor_x.Base.{
  ℕ, ◌<◌, ◌≡◌, refl, sym, ◌∙◌, subst, inl, inr, Bool-cases, Option-cases, none, some, List, [], ◌∷◌,
  ◌++◌, arith, length, length-append,
}
use favor_x.Base.Int.{◌≤ℤ◌}
use favor_x.Base.Bytes.{Bytes, bytes_eq}
use favor_x.Base.Map.{Map, lookup, insert, delete, lookup-insert, lookup-delete}
use favor_x.Boson.{Address, member_of}
use favor_x.Network.Time.{Time, Duration}
use favor_x.Routetab.Pending.{
  PendCallResItem, PendCallResTab, is_young, gc_req_log, gc_res_items, items_at, pending_req_key,
  Event, adds, gets, deletes, collects_requests, collects_items, add, get, remove, step, run,
}
use favor_x.Routetab.Pending.Expiry.{
  young_only, AllAfter, IsOrdered, IsWaiting, gc_res_items-young_only,
}

-- No item is younger than t.
abbrev pub AllBefore : Time → List PendCallResItem → Type 0
AllBefore t [] = Unit
AllBefore t (v ∷ items) = (v.create_time ≤ℤ t) × AllBefore t items

-- The items wait in order, and none came after t.
pub record IsTimely (t : Time) (pend : PendCallResTab) : Type 0 where
  pub waits : IsWaiting pend
  pub before : (k : Bytes) → AllBefore t (items_at pend.resp_list k)

later_AllBefore :
    (t u : Time) (items : List PendCallResItem) → t ≤ℤ u → AllBefore t items → AllBefore u items
later_AllBefore t u [] h b = tt
later_AllBefore t u (v ∷ items) h b = (omega (arith, b.0), later_AllBefore t u items h b.1)

append-AllBefore :
    (t : Time) (items : List PendCallResItem) (v : PendCallResItem)
    → AllBefore t items
    → v.create_time ≤ℤ t
    → AllBefore t (items ++ v ∷ [])
append-AllBefore t [] v b h = (h, tt)
append-AllBefore t (w ∷ items) v b h = (b.0, append-AllBefore t items v b.1 h)

append-AllAfter :
    (u : Time) (items : List PendCallResItem) (v : PendCallResItem)
    → AllAfter u items
    → u ≤ℤ v.create_time
    → AllAfter u (items ++ v ∷ [])
append-AllAfter u [] v a h = (h, tt)
append-AllAfter u (w ∷ items) v a h = (a.0, append-AllAfter u items v a.1 h)

append-IsOrdered :
    (items : List PendCallResItem) (v : PendCallResItem)
    → IsOrdered items
    → AllBefore v.create_time items
    → IsOrdered (items ++ v ∷ [])
append-IsOrdered [] v o b = (tt, tt)
append-IsOrdered (w ∷ items) v o b =
    (append-AllAfter w.create_time items v o.0 b.0, append-IsOrdered items v o.1 b.1)

young-AllBefore :
    (now t : Time) (expire : Duration) (items : List PendCallResItem)
    → AllBefore t items
    → AllBefore t (young_only now expire items)
young-AllBefore now t expire [] b = tt
young-AllBefore now t expire (v ∷ items) b = elim (Bool-cases (is_young now expire v.create_time)) [
  | inl young ↦ rw (young_only, young) (b.0, young-AllBefore now t expire items b.1)
  | inr old ↦ rw (young_only, old) (young-AllBefore now t expire items b.1)
]

-- What stands under a key after an addition is in order.
at-IsOrdered :
    (t : Time) (pend : PendCallResTab) (k : Bytes)
    → IsTimely t pend
    → IsOrdered (items_at pend.resp_list k)
at-IsOrdered t pend k v = elim (Option-cases (lookup k pend.resp_list)) [
  | inl missing ↦ rw (items_at, missing) tt
  | inr (items, found) ↦ rw (items_at, found) (v.waits k items found).1
]

insert-IsTimely :
    (t : Time) (pend : PendCallResTab) (reqs : Map Time) (key : Bytes) (v : PendCallResItem)
    → IsTimely t pend
    → t ≤ℤ v.create_time
    → IsTimely v.create_time (record {
      resp_list = insert key (items_at pend.resp_list key ++ v ∷ []) pend.resp_list;
      req_list = reqs;
    })
insert-IsTimely t pend reqs key v h le =
    let old = items_at pend.resp_list key in
    let b = later_AllBefore t v.create_time old le (h.before key) in
    let m = insert key (old ++ v ∷ []) pend.resp_list in
    record {
      waits = λ k is found. elim (Bool-cases (bytes_eq key k)) [
        | inl same ↦
            let f : some (old ++ v ∷ []) ≡ some is =
              rw (lookup-insert key k (old ++ v ∷ []) pend.resp_list, same) at found in
            let g : old ++ v ∷ [] ≡ is = cc in
            subst (λ x. (0 < length x) × IsOrdered x) g
              (
                omega (arith, length-append old (v ∷ [])),
                append-IsOrdered old v (at-IsOrdered t pend key h) b,
              )
        | inr other ↦
            h.waits k is (rw (lookup-insert key k (old ++ v ∷ []) pend.resp_list, other) at found)
      ];
      before = λ k. elim (Bool-cases (bytes_eq key k)) [
        | inl same ↦
            rw (items_at, lookup-insert key k (old ++ v ∷ []) pend.resp_list, same)
              (append-AllBefore v.create_time old v b (omega arith))
        | inr other ↦
            rw (items_at, lookup-insert key k (old ++ v ∷ []) pend.resp_list, other)
              (later_AllBefore t v.create_time (items_at pend.resp_list k) le (h.before k))
      ];
    }

delete-IsTimely :
    (t : Time) (pend : PendCallResTab) (reqs : Map Time) (key : Bytes)
    → IsTimely t pend
    → IsTimely t (record { resp_list = delete key pend.resp_list; req_list = reqs })
delete-IsTimely t pend reqs key h = record {
  waits = λ k is found. elim (Bool-cases (bytes_eq key k)) [
    | inl same ↦
        let f : none ≡ some is = rw (lookup-delete key k pend.resp_list, same) at found in absurd cc
    | inr other ↦ h.waits k is (rw (lookup-delete key k pend.resp_list, other) at found)
  ];
  before = λ k. elim (Bool-cases (bytes_eq key k)) [
    | inl same ↦ rw (items_at, lookup-delete key k pend.resp_list, same) tt
    | inr other ↦ rw (items_at, lookup-delete key k pend.resp_list, other) (h.before k)
  ];
}

-- The readings of the clock in the additions do not go back behind t.
abbrev pub AllTimely : Time → List Event → Type 0
AllTimely t [] = Unit
AllTimely t (adds target src next res_ch now ∷ es) = (t ≤ℤ now) × AllTimely now es
AllTimely t (gets target next ∷ es) = AllTimely t es
AllTimely t (deletes target next ∷ es) = AllTimely t es
AllTimely t (collects_requests now expire ∷ es) = AllTimely t es
AllTimely t (collects_items now expire keys ∷ es) = AllTimely t es

module _ (bytes_to_hash : Address → Bytes) where
  add-IsTimely :
      (t : Time) (pend : PendCallResTab) (target src next : Address) (res_ch : ℕ) (now : Time)
      → IsTimely t pend
      → t ≤ℤ now
      → IsTimely now (add bytes_to_hash pend target src next res_ch now).0
  unfolding add
  add-IsTimely t pend target src next res_ch now h le =
      elim (Option-cases (lookup (pending_req_key target next) pend.req_list)) [
        | inl missing ↦ rw (add, missing) (insert-IsTimely t pend _ (bytes_to_hash target) _ h le)
        | inr (r, found) ↦ rw (add, found) (insert-IsTimely t pend _ (bytes_to_hash target) _ h le)
      ]

  get-IsTimely :
      (t : Time) (pend : PendCallResTab) (target next : Address)
      → IsTimely t pend
      → IsTimely t (get bytes_to_hash pend target next).0
  unfolding get
  get-IsTimely t pend target next h =
      elim (Option-cases (lookup (bytes_to_hash target) pend.resp_list)) [
        | inl missing ↦ rw (get, missing) h
        | inr (is, found) ↦ rw (get, found) (delete-IsTimely t pend _ (bytes_to_hash target) h)
      ]

  collect-IsTimely :
      (t : Time) (pend : PendCallResTab) (now : Time) (expire : Duration) (keys : List Bytes)
      → IsTimely t pend
      → (pend' : PendCallResTab) × (gc_res_items pend now expire keys ≡ some pend')
        × IsTimely t pend'
  collect-IsTimely t pend now expire keys h =
      let c = gc_res_items-young_only now expire keys pend [] h.waits in
      (
        c.0,
        c.1,
        record {
          waits = c.2;
          before = λ k.
              let r = gc_res_items-young_only now expire keys pend k h.waits in
              let f : some r.0 ≡ some c.0 = sym r.1 ∙ c.1 in
              let g : r.0 ≡ c.0 = cc in
              subst (λ x. AllBefore t (items_at x.resp_list k)) g
                (elim (Bool-cases (member_of k keys)) [
                  | inl come_to ↦
                      subst (AllBefore t) (sym (r.3 ∙ rw come_to refl))
                        (young-AllBefore now t expire (items_at pend.resp_list k) (h.before k))
                  | inr other ↦ subst (AllBefore t) (sym (r.3 ∙ rw other refl)) (h.before k)
                ]);
        },
      )

  -- In any row of calls whose clock does not go back, GcResItems never panics; one item at least waits
  -- under each key that is there, and they stand in the order of their times.
  pub run-IsWaiting :
      (t : Time) (pend : PendCallResTab) (es : List Event)
      → IsTimely t pend
      → AllTimely t es
      → (pend' : PendCallResTab) × (run bytes_to_hash pend es ≡ some pend') × IsWaiting pend'
  unfolding run step remove gc_req_log
  run-IsWaiting t pend [] h a = (pend, refl, h.waits)
  run-IsWaiting t pend (adds target src next res_ch now ∷ es) h a =
      run-IsWaiting now _ es (add-IsTimely t pend target src next res_ch now h a.0) a.1
  run-IsWaiting t pend (gets target next ∷ es) h a =
      run-IsWaiting t _ es (get-IsTimely t pend target next h) a
  run-IsWaiting t pend (deletes target next ∷ es) h a =
      run-IsWaiting t _ es (delete-IsTimely t pend _ (bytes_to_hash target) h) a
  run-IsWaiting t pend (collects_requests now expire ∷ es) h a =
      run-IsWaiting t _ es (record { waits = h.waits; before = h.before }) a
  run-IsWaiting t pend (collects_items now expire keys ∷ es) h a =
      let c = collect-IsTimely t pend now expire keys h in
      let r = run-IsWaiting t c.0 es c.2 a in (r.0, rw (run, c.1) r.1, r.2)
