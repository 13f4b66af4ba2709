-- ===== src/Settlement/Accounting/OverTraffic.antt =====
-- Accounting over the traffic service, as node.go puts them together.
use favor_x.Base.{ℕ, ◌≡◌, refl, ap, none, some, if◌then◌else◌, Bool-cases, inl, inr}
use favor_x.Base.Map.{lookup}
use favor_x.Base.Int.{ℤ, pos, ◌+ℤ◌, leb_ℤ}
use favor_x.Boson.{Address}
use favor_x.Settlement.Cheque.{ChainAddress, disconnect_threshold, ok}
use favor_x.Settlement.ChequeStore
use favor_x.Settlement.ChequeStore.{Answer}
use favor_x.Settlement.Traffic.{
  Service, beneficiary, available_balance, put_retrieve_traffic, put_transfer_traffic, IssueAnswers,
  pay,
}
use favor_x.Settlement.Traffic.Queries.{transfer_traffic, retrieve_traffic}
use favor_x.Settlement.Traffic.Allocation.{IsAllocated}
use favor_x.Settlement.Traffic.Counters.{put_transfer_traffic_lem}
use favor_x.Settlement.Accounting.{Settlement, AccountingPeer, Accounting, debit}
use favor_x.Settlement.Accounting.Laws.{debit-known}

-- The traffic service with a state store that answers `writes`, and the answers of Pay's other calls.
abbrev pub traffic_settlement : Answer → IssueAnswers → Answer → Settlement Service
traffic_settlement writes r disconnects = record {
  available_balance = λ s. ok (available_balance s);
  put_retrieve_traffic = λ s peer x. put_retrieve_traffic s peer x writes;
  put_transfer_traffic = λ s peer x. put_transfer_traffic s peer x writes;
  transfer_traffic = transfer_traffic;
  retrieve_traffic = retrieve_traffic;
  pay = λ s peer threshold. let (s', e, _) = pay s peer threshold r disconnects in (s', e);
}

put_works :
    (s : Service) (peer : Address) (c : ChainAddress) (d : ℤ)
    → beneficiary s peer ≡ some c
    → (put_transfer_traffic s peer d none).1 ≡ none
unfolding put_transfer_traffic ChequeStore.put_transfer_traffic
put_works s peer c d b = rw (put_transfer_traffic, b) refl

-- Debit of a peer that is on record, with the accounting and with a traffic service that works: while the
-- peer's traffic that no cheque covers is below the tolerance, the traffic is added to it; from the
-- tolerance on the peer is blocked and nothing is added.
pub debit_lem :
    (r : IssueAnswers) (disconnects : Answer) (a : Accounting) (s : Service) (peer : Address)
    (p : AccountingPeer) (c : ChainAddress) (traffic : ℕ) (x : ℤ)
    → IsAllocated s
    → lookup peer a.accounting_peers ≡ some p
    → beneficiary s peer ≡ some c
    → transfer_traffic s peer ≡ (s, ok x)
    → let (a', s', e) = debit (traffic_settlement none r disconnects) a s peer traffic in
      (a' ≡ a)
      × (e ≡ (if leb_ℤ a.payment_tolerance x then some disconnect_threshold else none))
      × ((transfer_traffic s' peer).1
          ≡ ok (if leb_ℤ a.payment_tolerance x then x else x +ℤ pos traffic))
debit_lem r disconnects a s peer p c traffic x v h b e =
    let k = debit-known (traffic_settlement none r disconnects) a s peer traffic p x h e in
    let put = put_transfer_traffic_lem s peer c (pos traffic) v b in
    elim (Bool-cases (leb_ℤ a.payment_tolerance x)) [
      | inl l ↦ rw (k, l) (refl, refl, ap (λ o. o.1) e)
      | inr l ↦ rw (k, l) (refl, put_works s peer c (pos traffic) b, rw (put.0, e) refl)
    ]
