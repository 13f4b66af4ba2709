-- ===== src/Settlement/Traffic/Queries.antt =====
-- The methods of traffic.go that report on a peer or on all of them, and the cashing of cheques.
use favor_x.Base.{
  ℕ, Bool, true, false, ◌&&◌, Option, none, some, List, [], ◌∷◌, if◌then◌else◌, ◌==◌,
}
use favor_x.Base.Map.{Map, lookup}
use favor_x.Base.Int.{ℤ, pos, ◌+ℤ◌, ◌-ℤ◌, eqb_ℤ}
use favor_x.Boson.{Address}
use favor_x.Settlement.Cheque.{ChainAddress, Cheque, SignedCheque, no_cheque, Result, ok, err}
use favor_x.Settlement.ChequeStore
use favor_x.Settlement.ChequeStore.{Answer}
use favor_x.Settlement.Heap.{Ref, Heap}
use favor_x.Settlement.Traffic.{
  Traffic, Service, value, with_traffic, get_traffic, fresh, beneficiary, update_peer_balance,
}
use favor_x.Settlement.Traffic.Refresh.{ChainAnswers, traffic_peer_chain_update}

-- LastSentCheque
unfoldable pub last_sent_cheque : Service → Address → Answer → Result Cheque
last_sent_cheque s peer reads = elim (beneficiary s peer) [
  | none ↦ err no_cheque
  | some a ↦ ChequeStore.last_send_cheque s.cheque_store a reads
]

-- LastReceivedCheque: `ok none` is the empty cheque.
unfoldable pub last_received_cheque : Service → Address → Answer → Result (Option SignedCheque)
last_received_cheque s peer reads = elim (beneficiary s peer) [
  | none ↦ ok none
  | some a ↦ elim (ChequeStore.last_received_cheque s.cheque_store a reads) [
    | ok c ↦ ok (some c)
    | err e ↦ err e
  ]
]

-- A method that looks at the record of a known peer, which it makes if there is none.
abbrev look : Service → Address → (Service → Traffic → ℤ) → Service × Result ℤ
look s peer f = elim (beneficiary s peer) [
  | none ↦ (s, err no_cheque)
  | some a ↦ let (s', t) = get_traffic s a in (s', ok (f s' t))
]

-- TotalSent, TotalReceived, TransferTraffic, RetrieveTraffic, GetPeerBalance, GetUnPaidBalance
unfoldable pub total_sent : Service → Address → Service × Result ℤ
total_sent s peer = look s peer (λ s' t. value s' t.transfer)

unfoldable pub total_received : Service → Address → Service × Result ℤ
total_received s peer = look s peer (λ s' t. value s' t.retrieve)

unfoldable pub transfer_traffic : Service → Address → Service × Result ℤ
transfer_traffic s peer = look s peer (λ s' t. value s' t.transfer -ℤ value s' t.transfer_cheque)

unfoldable pub retrieve_traffic : Service → Address → Service × Result ℤ
retrieve_traffic s peer = look s peer (λ s' t. value s' t.retrieve -ℤ value s' t.retrieve_cheque)

unfoldable pub get_peer_balance : Service → Address → Service × Result ℤ
get_peer_balance s peer = look s peer (λ s' t. value s' t.peer_balance)

unfoldable pub get_un_paid_balance : Service → Address → Service × Result ℤ
get_un_paid_balance s peer = look s peer (λ s' t. value s' t.transfer -ℤ value s' t.transfer_chain)

pub record TrafficInfo : Type 0 where
  pub balance : ℤ
  pub available_balance : ℤ
  pub total_send_traffic : ℤ
  pub received_traffic : ℤ

-- The loop of TrafficInfo; its `transfer` is the same sum as totalSendTraffic.
unfoldable pub sum_of : (Traffic → Ref) → Heap → Map Traffic → ℤ
sum_of field h [] = pos 0
sum_of field h ((_, t) ∷ peers) = h.cell (field t) +ℤ sum_of field h peers

-- TrafficInfo
unfoldable pub traffic_info : Service → TrafficInfo
traffic_info s =
    let cashed = sum_of (λ t. t.retrieve_chain) s.heap s.peers in
    let transfer = sum_of (λ t. t.retrieve_cheque) s.heap s.peers in
    record {
      balance = value s s.balance;
      available_balance = value s s.balance +ℤ (cashed -ℤ transfer);
      total_send_traffic = transfer;
      received_traffic = sum_of (λ t. t.transfer_cheque) s.heap s.peers;
    }

pub record TrafficCheque : Type 0 where
  pub peer : Address
  pub outstanding_traffic : ℤ
  pub sent_settlements : ℤ
  pub received_settlements : ℤ
  pub total : ℤ
  pub uncashed : ℤ
  pub operating : Bool

abbrev pub traffic_cheque : Service → Address → Traffic → TrafficCheque
traffic_cheque s peer t =
    let trans = value s t.transfer -ℤ value s t.transfer_cheque in
    let retrieve = value s t.retrieve -ℤ value s t.retrieve_cheque in
    record {
      peer = peer;
      outstanding_traffic = trans -ℤ retrieve;
      sent_settlements = value s t.retrieve_cheque;
      received_settlements = value s t.transfer_cheque;
      total = value s t.transfer -ℤ value s t.retrieve;
      uncashed = value s t.transfer_cheque -ℤ value s t.transfer_chain;
      operating = t.operating;
    }

-- Nothing is outstanding, sent or received.
abbrev pub idle : TrafficCheque → Bool
idle c =
    eqb_ℤ c.outstanding_traffic (pos 0)
    && eqb_ℤ c.sent_settlements (pos 0)
    && eqb_ℤ c.received_settlements (pos 0)

-- The loop of TrafficCheques, in the order of the map's entries.
unfoldable pub cheques_from : Service → Map Traffic → List TrafficCheque
cheques_from s [] = []
cheques_from s ((a, t) ∷ peers) =
    let rest = cheques_from s peers in
    elim (lookup a s.overlays) [
      | none ↦ rest
      | some peer ↦ let c = traffic_cheque s peer t in if idle c then rest else c ∷ rest
    ]

-- TrafficCheques
unfoldable pub traffic_cheques : Service → List TrafficCheque
traffic_cheques s = cheques_from s s.peers

-- A cashed cheque whose receipt is awaited.
pub record CashCheque : Type 0 where
  pub transaction : ℕ
  pub peer : Address
  pub chain_address : ChainAddress

-- CashCheque, with the answer of the chain; the last part is what goes to the channel.
unfoldable pub cash_cheque : Service → Address → Result ℕ → Service × Result ℕ × Option CashCheque
cash_cheque s peer (err e) = elim (beneficiary s peer) [
  | none ↦ (s, err no_cheque, none)
  | some a ↦ ((get_traffic s a).0, err e, none)
]
cash_cheque s peer (ok transaction) = elim (beneficiary s peer) [
  | none ↦ (s, err no_cheque, none)
  | some a ↦
      let (s', t) = get_traffic s a in
      (
        with_traffic s' a (record t { operating = true }),
        ok transaction,
        some (record { transaction = transaction; peer = peer; chain_address = a }),
      )
]

-- How the chain and the store answer after a receipt.
pub record ReceiptAnswers : Type 0 where
  pub retrieve_writes : Answer
  pub transfer_writes : Answer
  pub balance : Result ℤ
  pub chain : ChainAnswers
  pub peer_balance : Result ℤ

-- cashUpdate; its errors are logged.
unfoldable pub cash_update : Service → CashCheque → ReceiptAnswers → Service × Answer
cash_update s c r = elim r.balance [
  | err e ↦ (s, some e)
  | ok balance ↦
      let (s', p) = fresh s balance in
      let (s'', e) =
        traffic_peer_chain_update (record s' { balance = p }) c.chain_address r.chain in
      elim e [ some x ↦ (s'', some x) | none ↦ update_peer_balance s'' c.peer r.peer_balance ]
]

-- One round of the loop of cashChequeReceiptUpdate, with the receipt's status: whether it is published
-- that the cheque was cashed.
unfoldable pub cash_receipt : Service → CashCheque → Result ℕ → ReceiptAnswers → Service × Bool
cash_receipt s c status r =
    let (s', t) = get_traffic s c.chain_address in
    let s0 = with_traffic s' c.chain_address (record t { operating = false }) in
    elim status [
      | err e ↦ (s0, false)
      | ok n ↦
          if n == 1
          then (let sent = value s0 t.retrieve_cheque in
              let received = value s0 t.transfer_cheque in
              let (c1, _) =
                ChequeStore.put_chain_retrieve_traffic s0.cheque_store c.chain_address sent
                  r.retrieve_writes in
              let (c2, _) =
                ChequeStore.put_chain_transfer_traffic c1 c.chain_address received
                  r.transfer_writes in
              ((cash_update (record s0 { cheque_store = c2 }) c r).0, true))
          else (s0, false)
    ]
