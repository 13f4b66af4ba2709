-- ===== src/Settlement/Traffic/Allocation.antt =====
-- Every field of the service holds the place of an object that was made.
use favor_x.Base.{
  ℕ, ◌+◌, ◌≤◌, ◌<◌, ◌≡◌, refl, not, ◌&&◌, Option, none, some, arith, if◌then◌else◌, Option-cases,
  Bool-cases, inl, inr, ap, subst,
}
use favor_x.Base.Bytes.{bytes_eq}
use favor_x.Base.Map.{lookup, insert, lookup-insert, lookup-insert_self}
use favor_x.Base.Int.{ℤ}
use favor_x.Boson.{Address}
use favor_x.Settlement.Cheque.{ChainAddress, SignedCheque, Result, ok, err}
use favor_x.Settlement.ChequeStore
use favor_x.Settlement.ChequeStore.{Answer, Recover}
use favor_x.Settlement.Heap.{Heap}
use favor_x.Settlement.Traffic.{
  Traffic, Service, with_traffic, new_traffic, get_traffic, fresh, beneficiary,
  put_retrieve_traffic, put_transfer_traffic, update_peer_balance, receive_cheque,
}

pub record Within (n : ℕ) (t : Traffic) : Type 0 where
  pub peer_balance : t.peer_balance < n
  pub retrieve_chain : t.retrieve_chain < n
  pub transfer_chain : t.transfer_chain < n
  pub retrieve_cheque : t.retrieve_cheque < n
  pub transfer_cheque : t.transfer_cheque < n
  pub retrieve : t.retrieve < n
  pub transfer : t.transfer < n

pub record IsAllocated (s : Service) : Type 0 where
  pub balance : s.balance < s.heap.next
  pub total_paid_out : s.total_paid_out < s.heap.next
  pub peers : (a : ChainAddress) (t : Traffic) → lookup a s.peers ≡ some t → Within s.heap.next t

Within-mono : (m n : ℕ) (t : Traffic) → m ≤ n → Within m t → Within n t
Within-mono m n t p w = record {
  peer_balance = omega (arith, w.peer_balance);
  retrieve_chain = omega (arith, w.retrieve_chain);
  transfer_chain = omega (arith, w.transfer_chain);
  retrieve_cheque = omega (arith, w.retrieve_cheque);
  transfer_cheque = omega (arith, w.transfer_cheque);
  retrieve = omega (arith, w.retrieve);
  transfer = omega (arith, w.transfer);
}

-- A service with more objects, and one record that is set.
set-IsAllocated :
    (s s' : Service) (a : ChainAddress) (t : Traffic)
    → IsAllocated s
    → s.heap.next ≤ s'.heap.next
    → s'.balance ≡ s.balance
    → s'.total_paid_out ≡ s.total_paid_out
    → s'.peers ≡ insert a t s.peers
    → Within s'.heap.next t
    → IsAllocated s'
set-IsAllocated s s' a t v p b o e w = record {
  balance = omega (arith, v.balance, b);
  total_paid_out = omega (arith, v.total_paid_out, o);
  peers = λ c u h. inside c u (rw (e, lookup-insert a c t s.peers) at h);
}
  where
    inside :
        (c : ChainAddress) (u : Traffic)
        → (if bytes_eq a c then some t else lookup c s.peers) ≡ some u
        → Within s'.heap.next u
    inside c u h = elim (Bool-cases (bytes_eq a c)) [
      | inl q ↦
          subst (Within s'.heap.next)
            (ap (λ (x : Option Traffic). elim x [ none ↦ t | some y ↦ y ]) (rw q at h)) w
      | inr q ↦ Within-mono s.heap.next s'.heap.next u p (v.peers c u (rw q at h))
    ]

new_traffic-Within : (h : Heap) → Within (new_traffic h).0.next (new_traffic h).1
unfolding new_traffic
new_traffic-Within h = record {
  peer_balance = omega arith;
  retrieve_chain = omega arith;
  transfer_chain = omega arith;
  retrieve_cheque = omega arith;
  transfer_cheque = omega arith;
  retrieve = omega arith;
  transfer = omega arith;
}

pub get_traffic-IsAllocated :
    (s : Service) (a : ChainAddress)
    → IsAllocated s
    → let (s', t) = get_traffic s a in
      IsAllocated s' × Within s'.heap.next t × (lookup a s'.peers ≡ some t)
unfolding get_traffic
get_traffic-IsAllocated s a v = elim (Option-cases (lookup a s.peers)) [
  | inr (t, h) ↦ rw (h, get_traffic) (v, v.peers a t h, h)
  | inl h ↦
      rw (h, get_traffic)
        (
          set-IsAllocated s
              (record s {
                heap = (new_traffic s.heap).0;
                peers = insert a (new_traffic s.heap).1 s.peers;
              })
              a (new_traffic s.heap).1 v (unfold new_traffic in omega arith) refl refl refl
              (new_traffic-Within s.heap),
          new_traffic-Within s.heap,
          lookup-insert_self a _ s.peers,
        )
]

-- A record that gets a new object.
Within-retrieve : (n : ℕ) (t : Traffic) → Within n t → Within (n + 1) (record t { retrieve = n })
Within-retrieve n t w = record {
  peer_balance = omega (arith, w.peer_balance);
  retrieve_chain = omega (arith, w.retrieve_chain);
  transfer_chain = omega (arith, w.transfer_chain);
  retrieve_cheque = omega (arith, w.retrieve_cheque);
  transfer_cheque = omega (arith, w.transfer_cheque);
  retrieve = omega arith;
  transfer = omega (arith, w.transfer);
}

Within-transfer : (n : ℕ) (t : Traffic) → Within n t → Within (n + 1) (record t { transfer = n })
Within-transfer n t w = record {
  peer_balance = omega (arith, w.peer_balance);
  retrieve_chain = omega (arith, w.retrieve_chain);
  transfer_chain = omega (arith, w.transfer_chain);
  retrieve_cheque = omega (arith, w.retrieve_cheque);
  transfer_cheque = omega (arith, w.transfer_cheque);
  retrieve = omega (arith, w.retrieve);
  transfer = omega arith;
}

Within-transfer_cheque :
    (n : ℕ) (t : Traffic) → Within n t → Within (n + 1) (record t { transfer_cheque = n })
Within-transfer_cheque n t w = record {
  peer_balance = omega (arith, w.peer_balance);
  retrieve_chain = omega (arith, w.retrieve_chain);
  transfer_chain = omega (arith, w.transfer_chain);
  retrieve_cheque = omega (arith, w.retrieve_cheque);
  transfer_cheque = omega arith;
  retrieve = omega (arith, w.retrieve);
  transfer = omega (arith, w.transfer);
}

Within-peer_balance :
    (n : ℕ) (t : Traffic) → Within n t → Within (n + 1) (record t { peer_balance = n })
Within-peer_balance n t w = record {
  peer_balance = omega arith;
  retrieve_chain = omega (arith, w.retrieve_chain);
  transfer_chain = omega (arith, w.transfer_chain);
  retrieve_cheque = omega (arith, w.retrieve_cheque);
  transfer_cheque = omega (arith, w.transfer_cheque);
  retrieve = omega (arith, w.retrieve);
  transfer = omega (arith, w.transfer);
}

put_retrieve_traffic-IsAllocated :
    (s : Service) (peer : Address) (traffic : ℤ) (writes : Answer)
    → IsAllocated s
    → IsAllocated (put_retrieve_traffic s peer traffic writes).0
unfolding put_retrieve_traffic
put_retrieve_traffic-IsAllocated s peer traffic writes v =
    elim (Option-cases (beneficiary s peer)) [
      | inl h ↦ rw (h, put_retrieve_traffic) v
      | inr (a, h) ↦
          let (s', t) = get_traffic s a in
          let (g, w, _) = get_traffic-IsAllocated s a v in
          rw (h, put_retrieve_traffic)
            (set-IsAllocated s' _ a _ g (omega arith) refl refl refl
              (Within-retrieve s'.heap.next t w))
    ]

put_transfer_traffic-IsAllocated :
    (s : Service) (peer : Address) (traffic : ℤ) (writes : Answer)
    → IsAllocated s
    → IsAllocated (put_transfer_traffic s peer traffic writes).0
unfolding put_transfer_traffic
put_transfer_traffic-IsAllocated s peer traffic writes v =
    elim (Option-cases (beneficiary s peer)) [
      | inl h ↦ rw (h, put_transfer_traffic) v
      | inr (a, h) ↦
          let (s', t) = get_traffic s a in
          let (g, w, _) = get_traffic-IsAllocated s a v in
          rw (h, put_transfer_traffic)
            (set-IsAllocated s' _ a _ g (omega arith) refl refl refl
              (Within-transfer s'.heap.next t w))
    ]

update_peer_balance-IsAllocated :
    (s : Service) (peer : Address) (balance : Result ℤ)
    → IsAllocated s
    → IsAllocated (update_peer_balance s peer balance).0
unfolding update_peer_balance
update_peer_balance-IsAllocated s peer (err e) v = v
update_peer_balance-IsAllocated s peer (ok n) v = elim (Option-cases (beneficiary s peer)) [
  | inl h ↦ rw (h, update_peer_balance) v
  | inr (a, h) ↦
      let (s', t) = get_traffic s a in
      let (g, w, _) = get_traffic-IsAllocated s a v in
      rw (h, update_peer_balance)
        (set-IsAllocated s' _ a _ g (omega arith) refl refl refl
          (Within-peer_balance s'.heap.next t w))
]

-- The part of ReceiveCheque after the cheque store.
book-IsAllocated :
    (s : Service) (a : ChainAddress) (t : Traffic) (store : ChequeStore.ChequeStore) (x : ℤ)
    (r : Result ℤ)
    → IsAllocated s
    → Within s.heap.next t
    → let s1 = record s { cheque_store = store } in
      let outcome : Service × Answer = elim r [
        | err e ↦ (s1, some e)
        | ok _ ↦
            let (s2, p) = fresh s1 x in (with_traffic s2 a (record t { transfer_cheque = p }), none)
      ] in
      IsAllocated outcome.0
book-IsAllocated s a t store x (err e) v w = record {
  balance = v.balance;
  total_paid_out = v.total_paid_out;
  peers = v.peers;
}
book-IsAllocated s a t store x (ok n) v w =
    set-IsAllocated s _ a _ v (omega arith) refl refl refl (Within-transfer_cheque s.heap.next t w)

receive_cheque-IsAllocated :
    (recover : Recover) (s : Service) (peer : Address) (c : SignedCheque) (reads writes : Answer)
    → IsAllocated s
    → IsAllocated (receive_cheque recover s peer c reads writes).0
unfolding receive_cheque
receive_cheque-IsAllocated recover s peer c reads writes v =
    elim (Option-cases (beneficiary s peer)) [
      | inl h ↦ rw (h, receive_cheque) v
      | inr (a, h) ↦
          let (s', t) = get_traffic s a in
          let (g, w, _) = get_traffic-IsAllocated s a v in
          let (store, r) =
            ChequeStore.receive_cheque s'.chain_address recover s'.cheque_store c reads writes in
          elim (Bool-cases
            (not (bytes_eq c.beneficiary a) && not (bytes_eq c.recipient s.chain_address))) [
              | inl k ↦ rw (h, receive_cheque, k) v
              | inr k ↦
                  rw (h, receive_cheque, k)
                    (book-IsAllocated s' a t store c.cumulative_payout r g w)
            ]
    ]

-- PutRetrieveTraffic, PutTransferTraffic, UpdatePeerBalance and ReceiveCheque keep every field at the place
-- of an object that was made, whatever the store and the chain answer.
pub counters-IsAllocated :
    (recover : Recover) (s : Service) (peer : Address) (traffic : ℤ) (balance : Result ℤ)
    (c : SignedCheque) (reads writes : Answer)
    → IsAllocated s
    → IsAllocated (put_retrieve_traffic s peer traffic writes).0
      × IsAllocated (put_transfer_traffic s peer traffic writes).0
      × IsAllocated (update_peer_balance s peer balance).0
      × IsAllocated (receive_cheque recover s peer c reads writes).0
counters-IsAllocated recover s peer traffic balance c reads writes v = (
  put_retrieve_traffic-IsAllocated s peer traffic writes v,
  put_transfer_traffic-IsAllocated s peer traffic writes v,
  update_peer_balance-IsAllocated s peer balance v,
  receive_cheque-IsAllocated recover s peer c reads writes v,
)
