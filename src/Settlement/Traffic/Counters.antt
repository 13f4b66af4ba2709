-- ===== src/Settlement/Traffic/Counters.antt =====
-- What the counters of a peer are after a change, and how the two available balances differ.
use favor_x.Base.{◌<◌, ◌≡◌, refl, ap, ◌∙◌, none, some, [], ◌∷◌, arith}
use favor_x.Base.Map.{Map, lookup, lookup-insert_self}
use favor_x.Base.Int.{ℤ, ◌+ℤ◌, ◌-ℤ◌, int_laws}
use favor_x.Boson.{Address}
use favor_x.Settlement.Cheque.{ChainAddress, Result, ok, err}
use favor_x.Settlement.ChequeStore
use favor_x.Settlement.ChequeStore.{Answer}
use favor_x.Settlement.Heap.{Ref, Heap}
use favor_x.Settlement.Traffic.{
  Traffic, Service, value, fresh, get_traffic, beneficiary, put_retrieve_traffic,
  put_transfer_traffic, available_balance, outstanding, with_traffic,
}
use favor_x.Settlement.Traffic.Queries.{
  transfer_traffic, retrieve_traffic, traffic_info, sum_of, total_sent, total_received,
}
use favor_x.Settlement.Traffic.Allocation.{IsAllocated, get_traffic-IsAllocated}

move : (x d y : ℤ) → x +ℤ d -ℤ y ≡ x -ℤ y +ℤ d
move x d y = omega int_laws

-- A number that a query returns, changed by d.
abbrev pub shift : ℤ → Result ℤ → Result ℤ
shift d (ok x) = ok (x +ℤ d)
shift d (err e) = err e

get_traffic-set :
    (s : Service) (a : ChainAddress) (t : Traffic)
    → lookup a s.peers ≡ some t
    → get_traffic s a ≡ (s, t)
unfolding get_traffic
get_traffic-set s a t h = rw (h, get_traffic)

-- A query of a peer whose record is known.
look_known :
    (s : Service) (peer : Address) (a : ChainAddress) (t : Traffic)
    → beneficiary s peer ≡ some a
    → lookup a s.peers ≡ some t
    → ((transfer_traffic s peer).1 ≡ ok (value s t.transfer -ℤ value s t.transfer_cheque))
      × ((retrieve_traffic s peer).1 ≡ ok (value s t.retrieve -ℤ value s t.retrieve_cheque))
      × ((total_sent s peer).1 ≡ ok (value s t.transfer))
      × ((total_received s peer).1 ≡ ok (value s t.retrieve))
unfolding transfer_traffic retrieve_traffic total_sent total_received
look_known s peer a t b h =
    let e = get_traffic-set s a t h in
    (ground (arith, e), ground (arith, e), ground (arith, e), ground (arith, e))

-- A query of a peer whose record is made if there is none.
look_made :
    (s : Service) (peer : Address) (a : ChainAddress)
    → beneficiary s peer ≡ some a
    → let (s', t) = get_traffic s a in
      ((transfer_traffic s peer).1 ≡ ok (value s' t.transfer -ℤ value s' t.transfer_cheque))
      × ((retrieve_traffic s peer).1 ≡ ok (value s' t.retrieve -ℤ value s' t.retrieve_cheque))
unfolding transfer_traffic retrieve_traffic
look_made s peer a b = (ground arith, ground arith)

get_traffic-beneficiary :
    (s : Service) (a : ChainAddress) (peer : Address)
    → beneficiary (get_traffic s a).0 peer ≡ beneficiary s peer
unfolding get_traffic
get_traffic-beneficiary s a peer = ground arith

-- A new object of value x after those that were made.
value-fresh : (s : Service) (x : ℤ) (p : Ref) → p < s.heap.next → value (fresh s x).0 p ≡ value s p
value-fresh s x p l = ground arith

value-new : (s : Service) (x : ℤ) → value (fresh s x).0 s.heap.next ≡ x
value-new s x = ground arith

-- The service after PutTransferTraffic, and after PutRetrieveTraffic, with a store that works.
abbrev transferred : Service → ChainAddress → ℤ → Service
transferred s a d =
    let (s1, t) = get_traffic s a in
    let x = value s1 t.transfer +ℤ d in
    record (with_traffic (fresh s1 x).0 a (record t { transfer = s1.heap.next })) {
      cheque_store = (ChequeStore.put_transfer_traffic s1.cheque_store a x none).0;
    }

abbrev retrieved : Service → ChainAddress → ℤ → Service
retrieved s a d =
    let (s1, t) = get_traffic s a in
    let x = value s1 t.retrieve +ℤ d in
    record (with_traffic (fresh s1 x).0 a (record t { retrieve = s1.heap.next })) {
      cheque_store = (ChequeStore.put_retrieve_traffic s1.cheque_store a x none).0;
    }

put_transfer_traffic-transferred :
    (s : Service) (peer : Address) (a : ChainAddress) (d : ℤ)
    → beneficiary s peer ≡ some a
    → (put_transfer_traffic s peer d none).0 ≡ transferred s a d
unfolding put_transfer_traffic
put_transfer_traffic-transferred s peer a d h = rw (h, put_transfer_traffic) refl

put_retrieve_traffic-retrieved :
    (s : Service) (peer : Address) (a : ChainAddress) (d : ℤ)
    → beneficiary s peer ≡ some a
    → (put_retrieve_traffic s peer d none).0 ≡ retrieved s a d
unfolding put_retrieve_traffic
put_retrieve_traffic-retrieved s peer a d h = rw (h, put_retrieve_traffic) refl

stored_transfer :
    (s : ChequeStore.ChequeStore) (a : ChainAddress) (x : ℤ)
    → ChequeStore.get_transfer_traffic (ChequeStore.put_transfer_traffic s a x none).0 a none ≡ ok x
unfolding ChequeStore.get_transfer_traffic ChequeStore.put_transfer_traffic ChequeStore.read
    ChequeStore.write
stored_transfer s a x = ground (arith, lookup-insert_self a x s.transferred)

stored_retrieve :
    (s : ChequeStore.ChequeStore) (a : ChainAddress) (x : ℤ)
    → ChequeStore.get_retrieve_traffic (ChequeStore.put_retrieve_traffic s a x none).0 a none ≡ ok x
unfolding ChequeStore.get_retrieve_traffic ChequeStore.put_retrieve_traffic ChequeStore.read
    ChequeStore.write
stored_retrieve s a x = ground (arith, lookup-insert_self a x s.retrieved)

-- PutTransferTraffic of a known peer adds the traffic to what TransferTraffic returns, leaves what
-- RetrieveTraffic returns, and the new total is what TotalSent returns; the store works, and holds it
-- too.
pub put_transfer_traffic_lem :
    (s : Service) (peer : Address) (a : ChainAddress) (d : ℤ)
    → IsAllocated s
    → beneficiary s peer ≡ some a
    → let s' = (put_transfer_traffic s peer d none).0 in
      ((transfer_traffic s' peer).1 ≡ shift d (transfer_traffic s peer).1)
      × ((retrieve_traffic s' peer).1 ≡ (retrieve_traffic s peer).1)
      × ((total_sent s' peer).1 ≡ ChequeStore.get_transfer_traffic s'.cheque_store a none)
put_transfer_traffic_lem s peer a d v h =
    let (s1, t) = get_traffic s a in
    let (g, w, k) = get_traffic-IsAllocated s a v in
    let (p, q) = look_made s peer a h in
    let total = value s1 t.transfer +ℤ d in
    let t' : Traffic = record t { transfer = s1.heap.next } in
    let (x, y, z, _) =
      look_known (transferred s a d) peer a t' (get_traffic-beneficiary s a peer ∙ h)
        (lookup-insert_self a t' s1.peers) in
    let new = value-new s1 total in
    rw
      (
        put_transfer_traffic-transferred s peer a d h,
        x,
        y,
        z,
        p,
        q,
        stored_transfer s1.cheque_store a total,
      )
      (
        rw (new, value-fresh s1 total t.transfer_cheque w.transfer_cheque) (ap ok (move _ d _)),
        rw
            (
              value-fresh s1 total t.retrieve w.retrieve,
              value-fresh s1 total t.retrieve_cheque w.retrieve_cheque,
            )
            refl,
        ap ok new,
      )

-- PutRetrieveTraffic of a known peer adds the traffic to what RetrieveTraffic returns, leaves what
-- TransferTraffic returns, and the new total is what TotalReceived returns; the store works, and
-- holds it too.
pub put_retrieve_traffic_lem :
    (s : Service) (peer : Address) (a : ChainAddress) (d : ℤ)
    → IsAllocated s
    → beneficiary s peer ≡ some a
    → let s' = (put_retrieve_traffic s peer d none).0 in
      ((retrieve_traffic s' peer).1 ≡ shift d (retrieve_traffic s peer).1)
      × ((transfer_traffic s' peer).1 ≡ (transfer_traffic s peer).1)
      × ((total_received s' peer).1 ≡ ChequeStore.get_retrieve_traffic s'.cheque_store a none)
put_retrieve_traffic_lem s peer a d v h =
    let (s1, t) = get_traffic s a in
    let (g, w, k) = get_traffic-IsAllocated s a v in
    let (p, q) = look_made s peer a h in
    let total = value s1 t.retrieve +ℤ d in
    let t' : Traffic = record t { retrieve = s1.heap.next } in
    let (x, y, _, z) =
      look_known (retrieved s a d) peer a t' (get_traffic-beneficiary s a peer ∙ h)
        (lookup-insert_self a t' s1.peers) in
    let new = value-new s1 total in
    rw
      (
        put_retrieve_traffic-retrieved s peer a d h,
        x,
        y,
        z,
        p,
        q,
        stored_retrieve s1.cheque_store a total,
      )
      (
        rw (new, value-fresh s1 total t.retrieve_cheque w.retrieve_cheque) (ap ok (move _ d _)),
        rw
            (
              value-fresh s1 total t.transfer w.transfer,
              value-fresh s1 total t.transfer_cheque w.transfer_cheque,
            )
            refl,
        ap ok new,
      )

sum_step : (c r o x y : ℤ) → o ≡ x -ℤ y → c -ℤ r +ℤ o ≡ c +ℤ x -ℤ (r +ℤ y)
sum_step c r o x y h = rw h (omega int_laws)

sum_end : (b x y z : ℤ) → b +ℤ (x -ℤ y) ≡ b +ℤ (x -ℤ z) -ℤ (y -ℤ z)
sum_end b x y z = omega int_laws

outstanding-sums :
    (h : Heap) (peers : Map Traffic)
    → outstanding h peers
      ≡ sum_of (λ t. t.retrieve_chain) h peers -ℤ sum_of (λ t. t.retrieve) h peers
unfolding outstanding sum_of
outstanding-sums h [] = omega int_laws
outstanding-sums h ((a, t) ∷ peers) =
    sum_step (h.cell t.retrieve_chain) (h.cell t.retrieve) _ _ _ (outstanding-sums h peers)

-- TrafficInfo reports an available balance that is larger than the one that Pay checks, by all that was
-- retrieved and is not covered by cheques.
pub available_balance-traffic_info :
    (s : Service)
    → available_balance s
      ≡ (traffic_info s).available_balance
        -ℤ (sum_of (λ t. t.retrieve) s.heap s.peers -ℤ (traffic_info s).total_send_traffic)
unfolding available_balance traffic_info
available_balance-traffic_info s = rw (outstanding-sums s.heap s.peers) (
    sum_end (value s s.balance) (sum_of (λ t. t.retrieve_chain) s.heap s.peers)
      (sum_of (λ t. t.retrieve) s.heap s.peers) (sum_of (λ t. t.retrieve_cheque) s.heap s.peers))
