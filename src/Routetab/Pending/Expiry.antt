-- ===== src/Routetab/Pending/Expiry.antt =====
-- Which items GcResItems leaves.
use favor_x.Base.{
  ℕ, suc, ◌+◌, ◌<◌, ◌≡◌, refl, sym, ◌∙◌, ap, subst, ◌⊎◌, inl, inr, Bool-cases, Option-cases, true,
  false, none, some, List, [], ◌∷◌, arith, ◌==◌, if◌then◌else◌, length, drop,
}
use favor_x.Base.Int.{ℤ, pos, negsuc, ◌≤ℤ◌, ◌-ℤ◌}
use favor_x.Base.Bytes.{Bytes, bytes_eq, bytes_eq_iff}
use favor_x.Base.Map.{lookup, lookup-insert, lookup-delete}
use favor_x.Boson.{member_of}
use favor_x.Network.Time.{Time, Duration, sub_time}
use favor_x.Network.Time.Order.{sub_mono}
use favor_x.Routetab.Table.{milliseconds}
use favor_x.Routetab.Pending.{
  PendCallResItem, PendCallResTab, is_young, first_young, left_items, put_items, gc_res_key,
  gc_res_items, items_at,
}

-- The items that have not expired.
abbrev pub young_only : Time → Duration → List PendCallResItem → List PendCallResItem
young_only now expire [] = []
young_only now expire (v ∷ items) =
    if is_young now expire v.create_time
    then v ∷ young_only now expire items
    else young_only now expire items

-- No item is older than u.
abbrev pub AllAfter : Time → List PendCallResItem → Type 0
AllAfter u [] = Unit
AllAfter u (v ∷ items) = (u ≤ℤ v.create_time) × AllAfter u items

-- Each item is as old as those behind it, or older.
abbrev pub IsOrdered : List PendCallResItem → Type 0
IsOrdered [] = Unit
IsOrdered (v ∷ items) = AllAfter v.create_time items × IsOrdered items

milliseconds_mono : (x y : ℤ) → x ≤ℤ y → milliseconds x ≤ℤ milliseconds y
unfolding ◌-ℤ◌
milliseconds_mono (pos x) (pos y) h = omega arith
milliseconds_mono (pos x) (negsuc y) h = absurd (omega arith)
milliseconds_mono (negsuc x) (pos y) h = ground arith
milliseconds_mono (negsuc x) (negsuc y) h = ground arith

young_mono :
    (now u v : Time) (expire : Duration)
    → u ≤ℤ v
    → is_young now expire u ≡ true
    → is_young now expire v ≡ true
young_mono now u v expire h y =
    let m = milliseconds_mono (sub_time now v) (sub_time now u) (sub_mono now u v h) in ground arith

all_young :
    (now u : Time) (expire : Duration) (items : List PendCallResItem)
    → is_young now expire u ≡ true
    → AllAfter u items
    → young_only now expire items ≡ items
all_young now u expire [] y h = refl
all_young now u expire (v ∷ items) y h =
    let e = young_mono now u v.create_time expire h.0 y in
    rw (young_only, e) (ap (λ r. v ∷ r) (all_young now u expire items y h.1))

first_young_lem :
    (now : Time) (expire : Duration) (k : ℕ) (items : List PendCallResItem)
    → IsOrdered items
    → ((young_only now expire items ≡ []) × (first_young now expire k items ≡ 0))
      ⊎ ((j : ℕ) × (first_young now expire k items ≡ k + j)
          × (drop j items ≡ young_only now expire items))
unfolding first_young
first_young_lem now expire k [] h = inl (refl, refl)
first_young_lem now expire k (v ∷ items) h = elim (Bool-cases (is_young now expire v.create_time)) [
  | inl young ↦ inr (
    0,
    rw (first_young, young) (omega arith),
    rw (young_only, young)
        (ap (λ r. v ∷ r) (sym (all_young now v.create_time expire items young h.0))),
  )
  | inr old ↦ elim (first_young_lem now expire (k + 1) items h.1) [
    | inl (e, f) ↦ inl (rw (young_only, old) e, rw (first_young, old) f)
    | inr (j, f, e) ↦ inr (suc j, rw (first_young, old) (f ∙ omega arith), rw (young_only, old) e)
  ]
]

-- GcResItems leaves exactly the items that have not expired, and does not panic, on items of which
-- there is one at least, in the order in which they came.
pub left_items-young_only :
    (now : Time) (expire : Duration) (items : List PendCallResItem)
    → 0 < length items
    → IsOrdered items
    → left_items now expire items ≡ some (young_only now expire items)
unfolding left_items first_young
left_items-young_only now expire [] p h = absurd (omega arith)
left_items-young_only now expire (v ∷ items) p h =
    elim (Bool-cases (is_young now expire v.create_time)) [
      | inl young ↦
          rw (left_items, young, young_only, all_young now v.create_time expire items young h.0)
            refl
      | inr old ↦ elim (first_young_lem now expire 1 items h.1) [
        | inl (e, f) ↦ rw (left_items, old, f, e) refl
        | inr (j, f, e) ↦
            let n : 1 + j ≡ suc j = omega arith in
            let t : (suc j == 0) ≡ false = ground arith in rw (left_items, old, f, n, t) (ap some e)
      ]
    ]

-- Items wait under each key, one at least, in the order in which they came.
abbrev pub IsWaiting : PendCallResTab → Type 0
IsWaiting pend =
    (k : Bytes) (items : List PendCallResItem)
    → lookup k pend.resp_list ≡ some items
    → (0 < length items) × IsOrdered items

young-AllAfter :
    (now u : Time) (expire : Duration) (items : List PendCallResItem)
    → AllAfter u items
    → AllAfter u (young_only now expire items)
young-AllAfter now u expire [] h = tt
young-AllAfter now u expire (v ∷ items) h = elim (Bool-cases (is_young now expire v.create_time)) [
  | inl young ↦ rw (young_only, young) (h.0, young-AllAfter now u expire items h.1)
  | inr old ↦ rw (young_only, old) (young-AllAfter now u expire items h.1)
]

young-IsOrdered :
    (now : Time) (expire : Duration) (items : List PendCallResItem)
    → IsOrdered items
    → IsOrdered (young_only now expire items)
young-IsOrdered now expire [] h = tt
young-IsOrdered now expire (v ∷ items) h = elim (Bool-cases (is_young now expire v.create_time)) [
  | inl young ↦
      rw (young_only, young)
        (young-AllAfter now v.create_time expire items h.0, young-IsOrdered now expire items h.1)
  | inr old ↦ rw (young_only, old) (young-IsOrdered now expire items h.1)
]

-- What GcResItems does for one key.
record Collected (now : Time) (expire : Duration) (key : Bytes) (pend pend' : PendCallResTab)
    : Type 0 where
  waits : IsWaiting pend'
  at :
      (k : Bytes)
      → items_at pend'.resp_list k ≡ (
          if bytes_eq key k
          then young_only now expire (items_at pend.resp_list k)
          else items_at pend.resp_list k)

items_at-put_items :
    (pend : PendCallResTab) (key k : Bytes) (items : List PendCallResItem)
    → items_at (put_items pend key items).resp_list k
      ≡ (if bytes_eq key k then items else items_at pend.resp_list k)
unfolding put_items
items_at-put_items pend key k [] = elim (Bool-cases (bytes_eq key k)) [
  | inl same ↦ rw (items_at, lookup-delete key k pend.resp_list, same) refl
  | inr other ↦ rw (items_at, lookup-delete key k pend.resp_list, other) refl
]
items_at-put_items pend key k (v ∷ items) = elim (Bool-cases (bytes_eq key k)) [
  | inl same ↦ rw (items_at, lookup-insert key k (v ∷ items) pend.resp_list, same) refl
  | inr other ↦ rw (items_at, lookup-insert key k (v ∷ items) pend.resp_list, other) refl
]

pub put_items-IsWaiting :
    (pend : PendCallResTab) (key : Bytes) (items : List PendCallResItem)
    → IsOrdered items
    → IsWaiting pend
    → IsWaiting (put_items pend key items)
unfolding put_items
put_items-IsWaiting pend key [] h w k is found = elim (Bool-cases (bytes_eq key k)) [
  | inl same ↦
      let f : none ≡ some is = rw (lookup-delete key k pend.resp_list, same) at found in absurd cc
  | inr other ↦ w k is (rw (lookup-delete key k pend.resp_list, other) at found)
]
put_items-IsWaiting pend key (v ∷ items) h w k is found = elim (Bool-cases (bytes_eq key k)) [
  | inl same ↦
      let f : some (v ∷ items) ≡ some is =
        rw (lookup-insert key k (v ∷ items) pend.resp_list, same) at found in
      let g : v ∷ items ≡ is = cc in subst (λ x. (0 < length x) × IsOrdered x) g (omega arith, h)
  | inr other ↦ w k is (rw (lookup-insert key k (v ∷ items) pend.resp_list, other) at found)
]

gc_res_key-Collected :
    (now : Time) (expire : Duration) (key : Bytes) (pend : PendCallResTab)
    → IsWaiting pend
    → (pend' : PendCallResTab) × (gc_res_key pend now expire key ≡ some pend')
      × Collected now expire key pend pend'
unfolding gc_res_key
gc_res_key-Collected now expire key pend w = elim (Option-cases (lookup key pend.resp_list)) [
  | inl missing ↦ (
    pend,
    rw (gc_res_key, missing) refl,
    record {
      waits = w;
      at = λ k. elim (Bool-cases (bytes_eq key k)) [
        | inl same ↦
            let e : key ≡ k = (bytes_eq_iff key k).0 same in rw (same, ← e, items_at, missing) refl
        | inr other ↦ rw other refl
      ];
    },
  )
  | inr (items, found) ↦
      let g = w key items found in
      let rest = young_only now expire items in
      let l = left_items-young_only now expire items g.0 g.1 in
      (
        put_items pend key rest,
        rw (gc_res_key, found, l) refl,
        record {
          waits = put_items-IsWaiting pend key rest (young-IsOrdered now expire items g.1) w;
          at = λ k. items_at-put_items pend key k rest ∙ elim (Bool-cases (bytes_eq key k)) [
            | inl same ↦
                let e : key ≡ k = (bytes_eq_iff key k).0 same in
                rw (same, ← e, items_at, found) refl
            | inr other ↦ rw other refl
          ];
        },
      )
]

young_twice :
    (now : Time) (expire : Duration) (items : List PendCallResItem)
    → young_only now expire (young_only now expire items) ≡ young_only now expire items
young_twice now expire [] = refl
young_twice now expire (v ∷ items) = elim (Bool-cases (is_young now expire v.create_time)) [
  | inl young ↦
      rw (young_only, young, young_only, young) (ap (λ r. v ∷ r) (young_twice now expire items))
  | inr old ↦ rw (young_only, old) (young_twice now expire items)
]

-- GcResItems does not panic, and it leaves, under each key that it comes to, exactly the items that
-- have not expired, in their order, and all items under the others: if one item at least waits under
-- each key that is there, and they stand in the order of their times.
pub gc_res_items-young_only :
    (now : Time) (expire : Duration) (keys : List Bytes) (pend : PendCallResTab) (k : Bytes)
    → IsWaiting pend
    → (pend' : PendCallResTab) × (gc_res_items pend now expire keys ≡ some pend')
      × IsWaiting pend'
      × (items_at pend'.resp_list k ≡ (
          if member_of k keys
          then young_only now expire (items_at pend.resp_list k)
          else items_at pend.resp_list k))
unfolding gc_res_items member_of
gc_res_items-young_only now expire [] pend k w = (pend, refl, w, refl)
gc_res_items-young_only now expire (key ∷ keys) pend k w =
    let c = gc_res_key-Collected now expire key pend w in
    let r = gc_res_items-young_only now expire keys c.0 k c.2.waits in
    (
      r.0,
      rw (gc_res_items, c.1) r.1,
      r.2,
      r.3 ∙ ground (arith, c.2.at k, young_twice now expire (items_at pend.resp_list k)),
    )
