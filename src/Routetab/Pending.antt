-- ===== src/Routetab/Pending.antt =====
-- pkg/routetab/pending.go: the requests for a route that wait for an answer, and the times at which a
-- request was passed on. common.BytesToHash is a parameter; a channel is a number. Each method is one
-- step, with one reading of the clock; Add reads it before it takes the lock, so that the times of the
-- steps need not be in order, and a theorem that needs them in order asks for it.
pub mod Expiry
pub mod Orderly
pub mod Tests
use favor_x.Base.{
  ℕ, ◌+◌, Bool, true, false, Option, none, some, List, [], ◌∷◌, ◌++◌, ◌==◌, if◌then◌else◌, drop,
}
use favor_x.Base.Int.{ltb_ℤ, leb_ℤ}
use favor_x.Base.Bytes.{Bytes}
use favor_x.Base.Map.{Map, lookup, insert, delete}
use favor_x.Boson.{Address}
use favor_x.Network.Time.{Time, Duration, sub_time}
use favor_x.Routetab.Table.{milliseconds}

pub record PendCallResItem : Type 0 where
  pub src : Address
  pub create_time : Time
  pub res_ch : ℕ

pub record PendCallResTab : Type 0 where
  pub resp_list : Map (List PendCallResItem)
  pub req_list : Map Time

-- newPendCallResTab
abbrev pub new_pend_call_res_tab : PendCallResTab
new_pend_call_res_tab = record { resp_list = []; req_list = [] }

-- getPendingReqKey: the hexadecimal texts in a row stand for the bytes in a row.
abbrev pub pending_req_key : Address → Address → Bytes
pending_req_key target next = target ++ next

-- The test of both collections.
abbrev pub is_young : Time → Duration → Time → Bool
is_young now expire created = ltb_ℤ (milliseconds (sub_time now created)) (milliseconds expire)

-- The loop over the items in GcResItems: the first that is young, from index k on; 0 if there is none.
unfoldable pub first_young : Time → Duration → ℕ → List PendCallResItem → ℕ
first_young now expire k [] = 0
first_young now expire k (v ∷ items) =
    if is_young now expire v.create_time then k else first_young now expire (k + 1) items

-- The loop of GcReqLog.
unfoldable pub gc_req_from : Time → Duration → Map Time → Map Time
gc_req_from now expire [] = []
gc_req_from now expire ((k, t) ∷ m) =
    let rest = gc_req_from now expire m in
    if leb_ℤ (milliseconds expire) (milliseconds (sub_time now t)) then rest else (k, t) ∷ rest

unfoldable pub gc_req_log : PendCallResTab → Time → Duration → PendCallResTab
gc_req_log pend now expire = record pend { req_list = gc_req_from now expire pend.req_list }

-- The items that GcResItems leaves under a key: `none` if item[0] panics, an empty list if it deletes
-- the key.
unfoldable pub left_items : Time → Duration → List PendCallResItem → Option (List PendCallResItem)
left_items now expire [] = none
left_items now expire (v ∷ items) =
    if is_young now expire v.create_time
    then some (v ∷ items)
    else let k = first_young now expire 0 (v ∷ items) in
      if k == 0 then some [] else some (drop k (v ∷ items))

-- The end of a round of the loop of GcResItems: no items are a deleted key.
unfoldable pub put_items : PendCallResTab → Bytes → List PendCallResItem → PendCallResTab
put_items pend key [] = record pend { resp_list = delete key pend.resp_list }
put_items pend key (v ∷ items) = record pend { resp_list = insert key (v ∷ items) pend.resp_list }

-- GcResItems for one key.
unfoldable pub gc_res_key : PendCallResTab → Time → Duration → Bytes → Option PendCallResTab
gc_res_key pend now expire key = elim (lookup key pend.resp_list) [
  | none ↦ some pend
  | some items ↦ elim (left_items now expire items) [
    | none ↦ none
    | some rest ↦ some (put_items pend key rest)
  ]
]

-- GcResItems, over the keys in the order in which the loop comes to them; `none` is a panic.
unfoldable pub gc_res_items : PendCallResTab → Time → Duration → List Bytes → Option PendCallResTab
gc_res_items pend now expire [] = some pend
gc_res_items pend now expire (key ∷ keys) = elim (gc_res_key pend now expire key) [
  | none ↦ none
  | some pend' ↦ gc_res_items pend' now expire keys
]

-- The items that wait under a key, none if it is missing.
abbrev pub items_at : Map (List PendCallResItem) → Bytes → List PendCallResItem
items_at m key = elim (lookup key m) [ none ↦ [] | some res ↦ res ]

-- A call of one of the methods.
pub data Event : Type 0 where
  adds : Address → Address → Address → ℕ → Time → Event
  gets : Address → Address → Event
  deletes : Address → Address → Event
  collects_requests : Time → Duration → Event
  collects_items : Time → Duration → List Bytes → Event

module _ (bytes_to_hash : Address → Bytes) where
  -- Add, and whether the request was passed on already.
  unfoldable pub add :
      PendCallResTab → Address → Address → Address → ℕ → Time → PendCallResTab × Bool
  add pend target src next res_ch now =
      let key = bytes_to_hash target in
      let pending : PendCallResItem = record { src = src; create_time = now; res_ch = res_ch } in
      let req_key = pending_req_key target next in
      let resp = insert key (items_at pend.resp_list key ++ pending ∷ []) pend.resp_list in
      elim (lookup req_key pend.req_list) [
        | some t ↦ (record pend { resp_list = resp }, true)
        | none ↦ (record { resp_list = resp; req_list = insert req_key now pend.req_list }, false)
      ]

  -- Get: the items that waited, none for nil.
  unfoldable pub get :
      PendCallResTab → Address → Address → PendCallResTab × Option (List PendCallResItem)
  get pend target next = elim (lookup (bytes_to_hash target) pend.resp_list) [
    | none ↦ (pend, none)
    | some res ↦ (
      record {
        resp_list = delete (bytes_to_hash target) pend.resp_list;
        req_list = delete (pending_req_key target next) pend.req_list;
      },
      some res,
    )
  ]

  -- Delete
  unfoldable pub remove : PendCallResTab → Address → Address → PendCallResTab
  remove pend target next = record {
    resp_list = delete (bytes_to_hash target) pend.resp_list;
    req_list = delete (pending_req_key target next) pend.req_list;
  }

  unfoldable pub step : PendCallResTab → Event → Option PendCallResTab
  step pend (adds target src next res_ch now) = some (add pend target src next res_ch now).0
  step pend (gets target next) = some (get pend target next).0
  step pend (deletes target next) = some (remove pend target next)
  step pend (collects_requests now expire) = some (gc_req_log pend now expire)
  step pend (collects_items now expire keys) = gc_res_items pend now expire keys

  unfoldable pub run : PendCallResTab → List Event → Option PendCallResTab
  run pend [] = some pend
  run pend (e ∷ es) = elim (step pend e) [ none ↦ none | some pend' ↦ run pend' es ]
