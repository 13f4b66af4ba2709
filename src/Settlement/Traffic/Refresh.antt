-- ===== src/Settlement/Traffic/Refresh.antt =====
-- trafficPeerChainUpdate and trafficPeerChequeUpdate of traffic.go: a peer's record from the chain and
-- from the cheque store.
use favor_x.Base.{Option, none, some}
use favor_x.Base.Int.{ℤ}
use favor_x.Settlement.Cheque.{ChainAddress, Result, ok, err}
use favor_x.Settlement.ChequeStore
use favor_x.Settlement.ChequeStore.{ChequeStore, Answer}
use favor_x.Settlement.Heap.{Ref}
use favor_x.Settlement.Traffic.{Traffic, Service, with_traffic, get_traffic, max_bigint, fresh}

-- One half of trafficPeerChainUpdate: the amount on the chain, which is remembered, or if the chain
-- does not answer the amount that was remembered.
abbrev chain_amount : Result ℤ → Answer → Result ℤ → Result ℤ
chain_amount (ok total) (some e) stored = err e
chain_amount (ok total) none stored = ok total
chain_amount (err e) writes stored = stored

abbrev remember_transfer : ChequeStore → ChainAddress → Result ℤ → Answer → ChequeStore
remember_transfer c a (ok total) writes =
    (ChequeStore.put_chain_transfer_traffic c a total writes).0
remember_transfer c a (err e) writes = c

abbrev remember_retrieve : ChequeStore → ChainAddress → Result ℤ → Answer → ChequeStore
remember_retrieve c a (ok total) writes =
    (ChequeStore.put_chain_retrieve_traffic c a total writes).0
remember_retrieve c a (err e) writes = c

-- How the chain and the store answer trafficPeerChainUpdate.
pub record ChainAnswers : Type 0 where
  pub transferred : Result ℤ
  pub transferred_reads : Answer
  pub transferred_writes : Answer
  pub retrieved : Result ℤ
  pub retrieved_reads : Answer
  pub retrieved_writes : Answer

-- The end of trafficPeerChainUpdate: both amounts are there.
abbrev set_chain : Service → ChainAddress → Traffic → ℤ → ℤ → Service
set_chain s a t transferred retrieved =
    let (s', p) = fresh s transferred in
    let (s'', q) = fresh s' retrieved in
    with_traffic s'' a (record t { retrieve_chain = q; transfer_chain = p })

-- trafficPeerChainUpdate
unfoldable pub traffic_peer_chain_update : Service → ChainAddress → ChainAnswers → Service × Answer
traffic_peer_chain_update s a r =
    let (s', t) = get_traffic s a in
    let c = remember_transfer s'.cheque_store a r.transferred r.transferred_writes in
    let transferred =
      chain_amount r.transferred r.transferred_writes
        (ChequeStore.get_chain_transfer_traffic s'.cheque_store a r.transferred_reads) in
    let c' = remember_retrieve c a r.retrieved r.retrieved_writes in
    let retrieved =
      chain_amount r.retrieved r.retrieved_writes
        (ChequeStore.get_chain_retrieve_traffic c a r.retrieved_reads) in
    elim transferred [
      | err e ↦ (record s' { cheque_store = c }, some e)
      | ok n ↦ elim retrieved [
        | err e ↦ (record s' { cheque_store = c' }, some e)
        | ok m ↦ (set_chain (record s' { cheque_store = c' }) a t n m, none)
      ]
    ]

-- The object of a cheque's payout, if there is a cheque; `p` otherwise.
abbrev pub max_payout : Service → Ref → Option ℤ → Service × Ref
max_payout s p none = (s, p)
max_payout s p (some payout) = let (s', q) = fresh s payout in (s', max_bigint s'.heap p q)

-- The end of trafficPeerChequeUpdate, from the store's answer about the transferred traffic on.
unfoldable pub finish_transfer : Service → ChainAddress → Traffic → Result ℤ → Service × Answer
finish_transfer s a t (err e) = (with_traffic s a t, some e)
finish_transfer s a t (ok transfer) =
    let (s', p) = max_payout s t.transfer (some transfer) in
    (with_traffic s' a (record t { transfer = p }), none)

-- Its last part, from the store's answer about the retrieved traffic on.
unfoldable pub finish_retrieve :
    Service → ChainAddress → Traffic → Result ℤ → Answer → Service × Answer
finish_retrieve s a t (err e) transfer_reads = (with_traffic s a t, some e)
finish_retrieve s a t (ok retrieve) transfer_reads =
    let (s', p) = max_payout s t.retrieve (some retrieve) in
    finish_transfer s' a (record t { retrieve = p })
      (ChequeStore.get_transfer_traffic s'.cheque_store a transfer_reads)

-- trafficPeerChequeUpdate. The payouts of the last cheques sent to and received from the peer are read
-- from the maps that trafficInit loaded; `retrieve_reads` and `transfer_reads` are the store's answers.
-- The two fields that a payout may replace point to one object before, and so after.
unfoldable pub traffic_peer_cheque_update :
    Service → ChainAddress → Option ℤ → Option ℤ → Answer → Answer → Service × Answer
traffic_peer_cheque_update s a sent received retrieve_reads transfer_reads =
    let (s0, t) = get_traffic s a in
    let (s1, p) = max_payout s0 t.retrieve_chain sent in
    let (s2, q) = max_payout s1 t.transfer_chain received in
    finish_retrieve s2 a
      (record t { retrieve = p; retrieve_cheque = p; transfer = q; transfer_cheque = q })
      (ChequeStore.get_retrieve_traffic s2.cheque_store a retrieve_reads) transfer_reads
