-- ===== src/Settlement/Traffic/Init.antt =====
-- trafficInit of traffic.go: the records of all peers from the cheque store and the chain. The
-- goroutines of replaceTraffic work on different peers, and are run one after the other here.
use favor_x.Base.{Option, none, some, List, [], ◌∷◌}
use favor_x.Base.Map.{Map, lookup, insert}
use favor_x.Base.Int.{ℤ, pos}
use favor_x.Settlement.Cheque.{ChainAddress, Cheque, SignedCheque, Result, ok, err}
use favor_x.Settlement.ChequeStore
use favor_x.Settlement.ChequeStore.{Answer}
use favor_x.Settlement.Traffic.{Service, fresh}
use favor_x.Settlement.Traffic.Refresh.{
  ChainAnswers, traffic_peer_chain_update, traffic_peer_cheque_update,
}

-- A set of addresses.
abbrev pub Addresses : Type 0
Addresses = Map (Unit {0})

unfoldable pub add_addresses : List ChainAddress → Addresses → Addresses
add_addresses [] all = all
add_addresses (a ∷ addrs) all = add_addresses addrs (insert a tt all)

-- getAllAddress, with the two lists that the chain returns. The addresses of an error are not used.
unfoldable pub get_all_address :
    Addresses → Result (List ChainAddress) → Result (List ChainAddress) → Result Addresses
get_all_address all (err e) transferred = err e
get_all_address all (ok retrieved) (err e) = err e
get_all_address all (ok retrieved) (ok transferred) =
    ok (add_addresses transferred (add_addresses retrieved all))

-- How the chain and the store answer for one peer.
pub record PeerAnswers : Type 0 where
  pub chain : ChainAnswers
  pub retrieve_reads : Answer
  pub transfer_reads : Answer

abbrev payout_sent : Option Cheque → Option ℤ
payout_sent none = none
payout_sent (some c) = some c.cumulative_payout

abbrev payout_received : Option SignedCheque → Option ℤ
payout_received none = none
payout_received (some c) = some c.cumulative_payout

-- The goroutine of one peer. Errors are logged.
unfoldable pub replace_one :
    Service → ChainAddress → Map Cheque → Map SignedCheque → PeerAnswers → Service
replace_one s a sent received r =
    let s' = (traffic_peer_chain_update s a r.chain).0 in
    (traffic_peer_cheque_update s' a (payout_sent (lookup a sent))
      (payout_received (lookup a received)) r.retrieve_reads r.transfer_reads).0

unfoldable pub replace_all :
    Service → Addresses → Map Cheque → Map SignedCheque → (ChainAddress → PeerAnswers) → Service
replace_all s [] sent received r = s
replace_all s ((a, _) ∷ addrs) sent received r =
    replace_all (replace_one s a sent received (r a)) addrs sent received r

-- replaceTraffic
unfoldable pub replace_traffic :
    Service → Addresses → Map Cheque → Map SignedCheque → (ChainAddress → PeerAnswers) → Service
replace_traffic s addrs sent received r =
    let (s', p) = fresh s (pos 0) in
    replace_all (record s' { total_paid_out = p }) addrs sent received r

pub record InitAnswers : Type 0 where
  pub sent : Answer
  pub received : Answer
  pub retrieved_keys : Answer
  pub transferred_keys : Answer
  pub retrieved : Result (List ChainAddress)
  pub transferred : Result (List ChainAddress)
  pub peers : ChainAddress → PeerAnswers
  pub balance : Result ℤ
  pub paid_out : Result ℤ

-- The end of trafficInit: the balance of this node, and what it has paid out.
unfoldable pub set_totals : Service → Result ℤ → Result ℤ → Service × Answer
set_totals s (err e) paid_out = (s, some e)
set_totals s (ok balance) paid_out =
    let (s', p) = fresh s balance in
    let s1 = record s' { balance = p } in
    elim paid_out [
      | err e ↦ (s1, some e)
      | ok n ↦ let (s'', q) = fresh s1 n in (record s'' { total_paid_out = q }, none)
    ]

-- trafficInit. An error is returned as what caused it.
unfoldable pub traffic_init : Service → InitAnswers → Service × Answer
traffic_init s r = elim (ChequeStore.last_send_cheques s.cheque_store r.sent) [
  | err e ↦ (s, some e)
  | ok sent ↦ elim (ChequeStore.last_received_cheques s.cheque_store r.received) [
    | err e ↦ (s, some e)
    | ok received ↦
        elim (ChequeStore.get_all_retrieve_transfer_addresses s.cheque_store r.retrieved_keys
          r.transferred_keys) [
            | err e ↦ (s, some e)
            | ok local ↦ elim (get_all_address local r.retrieved r.transferred) [
              | err e ↦ (s, some e)
              | ok addrs ↦
                  set_totals (replace_traffic s addrs sent received r.peers) r.balance r.paid_out
            ]
          ]
  ]
]
