-- ===== src/Settlement/Traffic/Receive.antt =====
-- Cheques that come in.
use favor_x.Base.{◌≡◌, refl, none, some, arith}
use favor_x.Base.Bytes.{bytes_eq_iff}
use favor_x.Base.Map.{lookup, insert, lookup-insert_self}
use favor_x.Boson.{Address}
use favor_x.Settlement.Cheque.{ChainAddress, SignedCheque}
use favor_x.Settlement.ChequeStore
use favor_x.Settlement.ChequeStore.{ChequeStore, Answer, Recover}
use favor_x.Settlement.ChequeStore.Laws.{IsAcceptable, receive_cheque_accepts}
use favor_x.Settlement.Heap.{alloc}
use favor_x.Settlement.Traffic.{Traffic, Service, value, get_traffic, beneficiary, receive_cheque}

get_traffic_known :
    (s : Service) (a : ChainAddress) (t : Traffic)
    → lookup a s.peers ≡ some t
    → get_traffic s a ≡ (s, t)
unfolding get_traffic
get_traffic_known s a t h = rw (h, get_traffic)

-- The service after such a cheque.
abbrev booked : Recover → Service → ChainAddress → Traffic → SignedCheque → Service
booked recover s a t c = record s {
  heap = alloc s.heap c.cumulative_payout;
  peers = insert a (record t { transfer_cheque = s.heap.next }) s.peers;
  cheque_store = (ChequeStore.receive_cheque s.chain_address recover s.cheque_store c none none).0;
}

receive_cheque-booked :
    (recover : Recover) (s : Service) (peer : Address) (a : ChainAddress) (t : Traffic)
    (c : SignedCheque)
    → beneficiary s peer ≡ some a
    → lookup a s.peers ≡ some t
    → IsAcceptable s.chain_address recover s.cheque_store c
    → receive_cheque recover s peer c none none ≡ (booked recover s a t c, none)
unfolding receive_cheque
receive_cheque-booked recover s peer a t c b h acc = ground (
  arith,
  b,
  get_traffic_known s a t h,
  (bytes_eq_iff c.recipient s.chain_address).1 acc.to_us,
  receive_cheque_accepts s.chain_address recover s.cheque_store c none none refl refl acc,
)

-- A cheque that the cheque store accepts is booked for the peer that sent it, also if it was issued by
-- another: only one of the two addresses has to be right. With a known sender and a store that works,
-- the sender's transferChequeTraffic becomes the payout of the cheque.
pub receive_cheque_books :
    (recover : Recover) (s : Service) (peer : Address) (a : ChainAddress) (t : Traffic)
    (c : SignedCheque)
    → beneficiary s peer ≡ some a
    → lookup a s.peers ≡ some t
    → IsAcceptable s.chain_address recover s.cheque_store c
    → (s' : Service) × (t' : Traffic) × (receive_cheque recover s peer c none none ≡ (s', none))
      × (lookup a s'.peers ≡ some t')
      × (value s' t'.transfer_cheque ≡ c.cumulative_payout)
receive_cheque_books recover s peer a t c b h acc = (
  booked recover s a t c,
  record t { transfer_cheque = s.heap.next },
  receive_cheque-booked recover s peer a t c b h acc,
  lookup-insert_self a _ s.peers,
  ground arith,
)
