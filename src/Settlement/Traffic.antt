-- ===== src/Settlement/Traffic.antt =====
-- pkg/settlement/traffic/traffic.go: what each peer has been sent and has retrieved, on the chain, by
-- cheques and in all, and the cheques that this node issues and receives.
-- A method that locks a peer's record or the map of them is one step; Handshake holds no lock, and has
-- others come in between. Calls of the chain, the signer, the network and the state store
-- are arguments that hold their answers; publishing to subscribers and logging are left out. A pointer
-- to a peer's record stays the same for the life of the service, so the record stands in the map.
pub mod Refresh
pub mod Queries
pub mod Handshake
pub mod Init
pub mod Allocation
pub mod Counters
pub mod Sums
pub mod Issue
pub mod Sharing
pub mod Receive
pub mod Tests
use favor_x.Base.{
  ℕ, ◌+◌, Bool, true, false, not, Option, none, some, List, [], ◌∷◌, if◌then◌else◌, ◌&&◌, ◌||◌,
}
use favor_x.Base.Bytes.{Bytes, bytes_eq}
use favor_x.Base.Map.{Map, lookup, insert}
use favor_x.Base.Int.{ℤ, pos, ◌+ℤ◌, ◌-ℤ◌, leb_ℤ, ltb_ℤ}
use favor_x.Boson.{Address}
use favor_x.Settlement.Cheque.{
  ChainAddress, Cheque, SignedCheque, Error, no_cheque, cheque_invalid, unknown_beneficiary,
  insufficient_funds, account_information, overlay_exists, wrong_receiver, Result, ok, err,
}
use favor_x.Settlement.ChequeStore
use favor_x.Settlement.ChequeStore.{ChequeStore, Answer, Recover}
use favor_x.Settlement.Heap.{Ref, Heap, put, alloc}

pub record Traffic : Type 0 where
  pub peer_balance : Ref
  pub retrieve_chain : Ref
  pub transfer_chain : Ref
  pub retrieve_cheque : Ref
  pub transfer_cheque : Ref
  pub retrieve : Ref
  pub transfer : Ref
  pub operating : Bool

-- The address book (addressbook.go) is the two maps that it keeps.
pub record Service : Type 0 where
  pub heap : Heap
  pub peers : Map Traffic
  pub balance : Ref
  pub total_paid_out : Ref
  pub cheque_store : ChequeStore
  pub beneficiaries : Map ChainAddress
  pub overlays : Map Address
  pub chain_address : ChainAddress

-- The value that a field points to.
abbrev pub value : Service → Ref → ℤ
value s p = s.heap.cell p

-- newTraffic: seven new objects of value 0.
unfoldable pub new_traffic : Heap → Heap × Traffic
new_traffic h =
    let p = h.next in
    let z = λ (g : Heap). alloc g (pos 0) in
    (
      z (z (z (z (z (z (z h)))))),
      record {
        peer_balance = p;
        retrieve_chain = p + 1;
        transfer_chain = p + 2;
        retrieve_cheque = p + 3;
        transfer_cheque = p + 4;
        retrieve = p + 5;
        transfer = p + 6;
        operating = false;
      },
    )

abbrev pub with_traffic : Service → ChainAddress → Traffic → Service
with_traffic s a t = record s { peers = insert a t s.peers }

-- getTraffic
unfoldable pub get_traffic : Service → ChainAddress → Service × Traffic
get_traffic s a = elim (lookup a s.peers) [
  | some t ↦ (s, t)
  | none ↦ let (h, t) = new_traffic s.heap in (record s { heap = h; peers = insert a t s.peers }, t)
]

-- maxBigint returns one of its arguments, not a copy.
unfoldable pub max_bigint : Heap → Ref → Ref → Ref
max_bigint h a b = if ltb_ℤ (h.cell a) (h.cell b) then b else a

-- A new object for a result that the chain or the store returned.
abbrev pub fresh : Service → ℤ → Service × Ref
fresh s v = (record s { heap = alloc s.heap v }, s.heap.next)

-- Beneficiary of the address book.
abbrev pub beneficiary : Service → Address → Option ChainAddress
beneficiary s peer = lookup peer s.beneficiaries

-- The sums of AvailableBalance over all peers.
unfoldable pub outstanding : Heap → Map Traffic → ℤ
outstanding h [] = pos 0
outstanding h ((_, t) ∷ peers) = h.cell t.retrieve_chain -ℤ h.cell t.retrieve +ℤ outstanding h peers

-- AvailableBalance: the balance on the chain, plus what was cashed, minus what was retrieved.
unfoldable pub available_balance : Service → ℤ
available_balance s = value s s.balance +ℤ outstanding s.heap s.peers

-- putSendCheque. The payout is the object at p.
unfoldable pub put_send_cheque :
    Service → Cheque → ChainAddress → Traffic → Ref → Answer → Service × Answer
put_send_cheque s cheque recipient t p writes =
    let t' = record t { retrieve_cheque = p; retrieve = max_bigint s.heap t.retrieve p } in
    let (c, r) = ChequeStore.put_send_cheque s.cheque_store cheque recipient writes in
    (record s { peers = insert recipient t' s.peers; cheque_store = c }, r)

-- How the signer, the network and the store answer the issue of a cheque.
pub record IssueAnswers : Type 0 where
  pub sign : Result Bytes
  pub emit : Answer
  pub writes : Answer

-- issue. `cumulativePayout.Add(cumulativePayout, balance)` changes the object that
-- retrieveChequeTraffic points to, before the cheque is signed and sent.
unfoldable pub issue :
    Service → ChainAddress → ChainAddress → ℤ → Traffic → IssueAnswers → Service × Answer
issue s recipient beneficiary balance t r =
    if ltb_ℤ (available_balance s) balance
    then (s, some insufficient_funds)
    else (let p = t.retrieve_cheque in
        let payout = value s p +ℤ balance in
        let s' = record s { heap = put s.heap p payout } in
        let cheque : Cheque = record {
          recipient = recipient;
          beneficiary = beneficiary;
          cumulative_payout = payout;
        } in
        elim r.sign [
          | err e ↦ (s', some e)
          | ok _ ↦ elim r.emit [
            | some e ↦ (s', some e)
            | none ↦ put_send_cheque s' cheque recipient t p r.writes
          ]
        ])

-- Pay. The last part is the payment that notifyPaymentFunc is told of, whatever `issue` returns;
-- `disconnects` is the answer of the network when the peer has no chain address.
unfoldable pub pay : Service → Address → ℤ → IssueAnswers → Answer → Service × Answer × Option ℤ
pay s peer payment_threshold r disconnects = elim (beneficiary s peer) [
  | none ↦ (s, elim disconnects [ some e ↦ some e | none ↦ some unknown_beneficiary ], none)
  | some recipient ↦
      let (s', t) = get_traffic s recipient in
      let balance = value s' t.retrieve -ℤ value s' t.retrieve_cheque in
      if leb_ℤ payment_threshold balance
      then (let (s'', e) = issue s' recipient s'.chain_address balance t r in
          (s'', e, some balance))
      else (s', none, none)
]

-- PutRetrieveTraffic
unfoldable pub put_retrieve_traffic : Service → Address → ℤ → Answer → Service × Answer
put_retrieve_traffic s peer traffic writes = elim (beneficiary s peer) [
  | none ↦ (s, some no_cheque)
  | some a ↦
      let (s', t) = get_traffic s a in
      let total = value s' t.retrieve +ℤ traffic in
      let (s'', p) = fresh s' total in
      let (c, e) = ChequeStore.put_retrieve_traffic s''.cheque_store a total writes in
      (record (with_traffic s'' a (record t { retrieve = p })) { cheque_store = c }, e)
]

-- PutTransferTraffic
unfoldable pub put_transfer_traffic : Service → Address → ℤ → Answer → Service × Answer
put_transfer_traffic s peer traffic writes = elim (beneficiary s peer) [
  | none ↦ (s, some no_cheque)
  | some a ↦
      let (s', t) = get_traffic s a in
      let total = value s' t.transfer +ℤ traffic in
      let (s'', p) = fresh s' total in
      let (c, e) = ChequeStore.put_transfer_traffic s''.cheque_store a total writes in
      (record (with_traffic s'' a (record t { transfer = p })) { cheque_store = c }, e)
]

-- UpdatePeerBalance, with the answer of the chain.
unfoldable pub update_peer_balance : Service → Address → Result ℤ → Service × Answer
update_peer_balance s peer (err e) =
    (s, elim (beneficiary s peer) [ none ↦ some no_cheque | some a ↦ some e ])
update_peer_balance s peer (ok balance) = elim (beneficiary s peer) [
  | none ↦ (s, some no_cheque)
  | some a ↦
      let (s', t) = get_traffic s a in
      let (s'', p) = fresh s' balance in (with_traffic s'' a (record t { peer_balance = p }), none)
]

-- ReceiveCheque of the service.
unfoldable pub receive_cheque :
    Recover → Service → Address → SignedCheque → Answer → Answer → Service × Answer
receive_cheque recover s peer cheque reads writes = elim (beneficiary s peer) [
  | none ↦ (s, some account_information)
  | some a ↦
      if not (bytes_eq cheque.beneficiary a) && not (bytes_eq cheque.recipient s.chain_address)
      then (s, some account_information)
      else (let (s', t) = get_traffic s a in
          let (c, r) =
            ChequeStore.receive_cheque s'.chain_address recover s'.cheque_store cheque reads
              writes in
          elim r [
            | err e ↦ (record s' { cheque_store = c }, some e)
            | ok _ ↦
                let (s'', p) = fresh (record s' { cheque_store = c }) cheque.cumulative_payout in
                (with_traffic s'' a (record t { transfer_cheque = p }), none)
          ])
]
