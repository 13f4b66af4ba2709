-- ===== src/Settlement/Accounting.antt =====
-- pkg/accounting/accounting.go: the unpaid traffic of each peer, on top of the interface of
-- pkg/settlement/interface.go, whose state the operations pass along. The locks make each method one
-- step; the goroutines that settle and that notify of payments are steps of their own. The channel of
-- payments is a queue. A pointer to a peer's record stays the same, so the record stands in the map.
pub mod Laws
pub mod OverTraffic
pub mod Tests
use favor_x.Base.{ℕ, Bool, true, false, Option, none, some, List, [], ◌∷◌, ◌++◌, if◌then◌else◌}
use favor_x.Base.Map.{Map, lookup, insert}
use favor_x.Base.Int.{ℤ, pos, ◌+ℤ◌, ◌-ℤ◌, leb_ℤ, ltb_ℤ}
use favor_x.Boson.{Address}
use favor_x.Settlement.Cheque.{Error, low_available, disconnect_threshold, Result, ok, err}
use favor_x.Settlement.ChequeStore.{Answer}

-- settlement.Interface: the methods that accounting calls.
pub record Settlement (S : Type 0) : Type 0 where
  pub available_balance : S → Result ℤ
  pub put_retrieve_traffic : S → Address → ℤ → S × Answer
  pub put_transfer_traffic : S → Address → ℤ → S × Answer
  pub transfer_traffic : S → Address → S × Result ℤ
  pub retrieve_traffic : S → Address → S × Result ℤ
  pub pay : S → Address → ℤ → S × Answer

pub record AccountingPeer : Type 0 where
  pub payment_threshold : ℤ
  pub un_paid_traffic : ℤ

pub record Payment : Type 0 where
  pub peer : Address
  pub payment_threshold : ℤ

pub record Accounting : Type 0 where
  pub accounting_peers : Map AccountingPeer
  pub payment_tolerance : ℤ
  pub payment_threshold : ℤ
  pub pay_chan : List Payment

-- NewAccounting
unfoldable pub new_accounting : ℤ → ℤ → Accounting
new_accounting tolerance threshold = record {
  accounting_peers = [];
  payment_tolerance = tolerance;
  payment_threshold = threshold;
  pay_chan = [];
}

abbrev pub with_peer : Accounting → Address → AccountingPeer → Accounting
with_peer a peer p = record a { accounting_peers = insert peer p a.accounting_peers }

-- A call of one of the methods, or a round of the loop of settle.
pub data Event : Type 0 where
  reserved credited debited : Address → ℕ → Event
  notified : Address → ℤ → Event
  settles : Event

module _ {S : Type 0} (settlement : Settlement S) where
  -- getAccountingPeer
  unfoldable pub get_accounting_peer :
      Accounting → S → Address → Accounting × S × Result AccountingPeer
  get_accounting_peer a s peer = elim (lookup peer a.accounting_peers) [
    | some p ↦ (a, s, ok p)
    | none ↦
        let (s', r) = settlement.retrieve_traffic s peer in
        elim r [
          | err e ↦ (a, s', err e)
          | ok retrieve ↦
              let p : AccountingPeer = record {
                payment_threshold = a.payment_threshold;
                un_paid_traffic = retrieve;
              } in
              (with_peer a peer p, s', ok p)
        ]
  ]

  -- Reserve
  unfoldable pub reserve : Accounting → S → Address → ℕ → Accounting × S × Answer
  reserve a s peer traffic =
      let (a', s', r) = get_accounting_peer a s peer in
      elim r [
        | err e ↦ (a', s', some e)
        | ok p ↦ elim (settlement.available_balance s') [
          | err e ↦ (a', s', some e)
          | ok available ↦
              if ltb_ℤ available (p.un_paid_traffic +ℤ pos traffic)
              then (a', s', some low_available)
              else (a', s', none)
        ]
      ]

  -- Credit
  unfoldable pub credit : Accounting → S → Address → ℕ → Accounting × S × Answer
  credit a s peer traffic =
      let (a', s', r) = get_accounting_peer a s peer in
      elim r [
        | err e ↦ (a', s', some e)
        | ok p ↦
            let un_paid = p.un_paid_traffic +ℤ pos traffic in
            let a'' = with_peer a' peer (record p { un_paid_traffic = un_paid }) in
            let (s'', e) = settlement.put_retrieve_traffic s' peer (pos traffic) in
            elim e [
              | some x ↦ (a'', s'', some x)
              | none ↦
                  if leb_ℤ p.payment_threshold un_paid
                  then (
                    record a'' {
                      pay_chan =
                          a''.pay_chan
                          ++ record { peer = peer; payment_threshold = p.payment_threshold } ∷ [];
                    },
                    s'',
                    none,
                  )
                  else (a'', s'', none)
            ]
      ]

  -- One round of the loop of settle. An error of Pay is logged.
  unfoldable pub settle : Accounting → S → Accounting × S
  settle a s = elim a.pay_chan [
    | [] ↦ (a, s)
    | p ∷ rest ↦ (record a { pay_chan = rest }, (settlement.pay s p.peer p.payment_threshold).0)
  ]

  -- Debit. `disconnect_threshold` is the error that blocks the peer for a day.
  unfoldable pub debit : Accounting → S → Address → ℕ → Accounting × S × Answer
  debit a s peer traffic =
      let (a', s', r) = get_accounting_peer a s peer in
      elim r [
        | err e ↦ (a', s', some e)
        | ok p ↦
            let (s'', t) = settlement.transfer_traffic s' peer in
            elim t [
              | err e ↦ (a', s'', some e)
              | ok traff ↦
                  if leb_ℤ a'.payment_tolerance traff
                  then (a', s'', some disconnect_threshold)
                  else (let (s1, e) = settlement.put_transfer_traffic s'' peer (pos traffic) in
                      (a', s1, e))
            ]
      ]

  -- NotifyPayment, which AsyncNotifyPayment runs in a goroutine.
  unfoldable pub notify_payment : Accounting → S → Address → ℤ → Accounting × S × Answer
  notify_payment a s peer traffic =
      let (a', s', r) = get_accounting_peer a s peer in
      elim r [
        | err e ↦ (a', s', some e)
        | ok p ↦
            let un_paid = p.un_paid_traffic in
            if leb_ℤ un_paid (pos 0)
            then (a', s', none)
            else if ltb_ℤ un_paid traffic
            then (with_peer a' peer (record p { un_paid_traffic = pos 0 }), s', none)
            else (with_peer a' peer (record p { un_paid_traffic = un_paid -ℤ traffic }), s', none)
      ]

  unfoldable pub step : Accounting → S → Event → Accounting × S
  step a s (reserved peer traffic) = let (a', s', _) = reserve a s peer traffic in (a', s')
  step a s (credited peer traffic) = let (a', s', _) = credit a s peer traffic in (a', s')
  step a s (debited peer traffic) = let (a', s', _) = debit a s peer traffic in (a', s')
  step a s (notified peer traffic) = let (a', s', _) = notify_payment a s peer traffic in (a', s')
  step a s settles = settle a s

  unfoldable pub run : Accounting → S → List Event → Accounting × S
  run a s [] = (a, s)
  run a s (e ∷ es) = let (a', s') = step a s e in run a' s' es
