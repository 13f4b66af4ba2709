-- ===== src/Settlement/Accounting/Tests.antt =====
-- A peer on record, a sequence of calls, and the theorems at them.
use favor_x.Base.{◌≡◌, refl, none, some, List, [], ◌∷◌, arith, if◌then◌else◌}
use favor_x.Base.Bytes.{bytes_eq}
use favor_x.Base.Map.{lookup}
use favor_x.Base.Int.{pos, ◌+ℤ◌, leb_ℤ}
use favor_x.Settlement.Cheque.{disconnect_threshold, ok}
use favor_x.Settlement.Traffic.{IssueAnswers}
use favor_x.Settlement.Traffic.Queries.{transfer_traffic}
use favor_x.Settlement.Traffic.Tests.{
  service_at, peer, them, service_at-IsAllocated, transfer_traffic_at,
}
use favor_x.Settlement.Accounting.{
  AccountingPeer, Accounting, Event, reserved, credited, debited, notified, settles, debit, run,
}
use favor_x.Settlement.Accounting.Laws.{IsOwed, run-IsOwed}
use favor_x.Settlement.Accounting.OverTraffic.{traffic_settlement, debit_lem}

abbrev three : AccountingPeer
three = record { payment_threshold = pos 5; un_paid_traffic = pos 3 }

abbrev known_peer : Accounting
known_peer = record {
  accounting_peers = (peer, three) ∷ [];
  payment_tolerance = pos 8;
  payment_threshold = pos 5;
  pay_chan = [];
}

on_record : lookup peer known_peer.accounting_peers ≡ some three
unfolding lookup bytes_eq
on_record = refl

abbrev answers : IssueAnswers
answers = record { sign = ok []; emit = none; writes = none }

abbrev events : List Event
events = credited peer 4 ∷ debited peer 1 ∷ settles ∷ notified peer (pos 7) ∷ reserved peer 3 ∷ []

known_peer-IsOwed : IsOwed peer known_peer
known_peer-IsOwed = record { peer = three; on_record = on_record; owed = omega arith }

run-IsOwed_example :
    IsOwed peer (run (traffic_settlement none answers none) known_peer (service_at 2) events).0
run-IsOwed_example =
    run-IsOwed (traffic_settlement none answers none) peer known_peer (service_at 2) events
      known_peer-IsOwed

debit_lem_example :
    let (a', s', e) =
      debit (traffic_settlement none answers none) known_peer (service_at 2) peer 3 in
    (a' ≡ known_peer)
    × (e ≡ (if leb_ℤ (pos 8) (pos 6) then some disconnect_threshold else none))
    × ((transfer_traffic s' peer).1 ≡ ok (if leb_ℤ (pos 8) (pos 6) then pos 6 else pos 6 +ℤ pos 3))
debit_lem_example =
    debit_lem answers none known_peer (service_at 2) peer three them 3 (pos 6)
      service_at-IsAllocated on_record (unfold lookup bytes_eq in refl) transfer_traffic_at
