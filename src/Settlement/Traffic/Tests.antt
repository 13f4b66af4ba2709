-- ===== src/Settlement/Traffic/Tests.antt =====
-- A service with one peer, and the theorems at it.
use favor_x.Base.{
  ◌≡◌, refl, false, ◌||◌, ◌==◌, if◌then◌else◌, Option, none, some, [], ◌∷◌, arith, inl, inr,
  Bool-cases, ap, subst,
}
use favor_x.Base.Bytes.{bytes_eq}
use favor_x.Base.Map.{lookup}
use favor_x.Base.Int.{ℤ, pos, ◌+ℤ◌, ◌-ℤ◌, ltb_ℤ}
use favor_x.Boson.{Address}
use favor_x.Settlement.Cheque.{ChainAddress, SignedCheque, ok}
use favor_x.Settlement.ChequeStore.{empty, Recover}
use favor_x.Settlement.ChequeStore.Laws.{IsAcceptable}
use favor_x.Settlement.Heap.{Ref}
use favor_x.Settlement.Traffic.{
  Traffic, Service, value, get_traffic, outstanding, available_balance, issue, receive_cheque,
}
use favor_x.Settlement.Traffic.Sums.{chain_uses, retrieve_uses}
use favor_x.Settlement.Traffic.Issue.{unpaid, IsSeparate, issue_settles}
use favor_x.Settlement.Traffic.Sharing.{issue_inflates}
use favor_x.Settlement.Traffic.Receive.{receive_cheque_books}
use favor_x.Settlement.Traffic.Queries.{transfer_traffic}
use favor_x.Settlement.Traffic.Allocation.{IsAllocated, Within}

abbrev pub us : ChainAddress
us = 1 ∷ []

abbrev pub them : ChainAddress
them = 2 ∷ []

abbrev pub peer : Address
peer = 7 ∷ []

abbrev cells : Ref → ℤ
cells n =
    if n == 0
    then pos 100
    else if n == 2 || n == 4
    then pos 4
    else if n == 6
    then pos 9
    else if n == 7
    then pos 6
    else pos 0

-- Nine retrieved, of which cheques cover four; `chain` is the place of the amount on the chain.
abbrev pub record_at : Ref → Traffic
record_at chain = record {
  peer_balance = 1;
  retrieve_chain = chain;
  transfer_chain = 3;
  retrieve_cheque = 4;
  transfer_cheque = 5;
  retrieve = 6;
  transfer = 7;
  operating = false;
}

abbrev pub service_at : Ref → Service
service_at chain = record {
  heap = record { next = 9; cell = cells };
  peers = (them, record_at chain) ∷ [];
  balance = 0;
  total_paid_out = 8;
  cheque_store = empty;
  beneficiaries = (peer, them) ∷ [];
  overlays = (them, peer) ∷ [];
  chain_address = us;
}

known : (chain : Ref) → lookup them (service_at chain).peers ≡ some (record_at chain)
unfolding lookup bytes_eq
known chain = refl

pub service_at-IsAllocated : IsAllocated (service_at 2)
unfolding lookup
service_at-IsAllocated = record {
  balance = omega arith;
  total_paid_out = omega arith;
  peers = λ a t h.
      let within : Within 9 (record_at 2) = record {
        peer_balance = omega arith;
        retrieve_chain = omega arith;
        transfer_chain = omega arith;
        retrieve_cheque = omega arith;
        transfer_cheque = omega arith;
        retrieve = omega arith;
        transfer = omega arith;
      } in
      elim (Bool-cases (bytes_eq them a)) [
        | inl e ↦
            subst (Within 9)
              (ap (λ (x : Option Traffic). elim x [ none ↦ record_at 2 | some y ↦ y ]) (rw e at h))
              within
        | inr e ↦ absurd (ground (arith, h, e))
      ];
}

pub transfer_traffic_at : transfer_traffic (service_at 2) peer ≡ (service_at 2, ok (pos 6))
unfolding transfer_traffic get_traffic lookup bytes_eq ◌-ℤ◌
transfer_traffic_at = refl

separate : IsSeparate (service_at 2) (record_at 2)
unfolding chain_uses retrieve_uses
separate = record {
  from_chain = refl;
  from_retrieve = refl;
  from_own = omega arith;
  from_balance = omega arith;
}

balances :
    (available_balance (service_at 2) ≡ pos 95)
    × (available_balance (service_at 4) ≡ pos 95)
    × (unpaid (service_at 2) (record_at 2) ≡ pos 5)
unfolding available_balance outstanding ◌+ℤ◌ ◌-ℤ◌
balances = (refl, refl, refl)

enough : ltb_ℤ (available_balance (service_at 2)) (unpaid (service_at 2) (record_at 2)) ≡ false
unfolding available_balance outstanding ◌+ℤ◌ ◌-ℤ◌
enough = refl

enough' : ltb_ℤ (available_balance (service_at 4)) (unpaid (service_at 4) (record_at 4)) ≡ false
unfolding available_balance outstanding ◌+ℤ◌ ◌-ℤ◌
enough' = refl

issue_settles_example :
    let s = service_at 2 in
    let t = record_at 2 in
    (s' : Service) × (issue s them us
        (unpaid s t)
        t
        (record { sign = ok []; emit = none; writes = none })
      ≡ (s', none))
    × (lookup them s'.peers ≡ some t)
    × (unpaid s' t ≡ pos 0)
    × (value s' t.retrieve ≡ value s t.retrieve)
    × (lookup them s'.cheque_store.last_send
        ≡ some
            (record { recipient = them; beneficiary = us; cumulative_payout = value s t.retrieve }))
    × (available_balance s' ≡ available_balance s)
issue_settles_example =
    issue_settles (service_at 2) them us (record_at 2) [] (known 2) separate enough

one_chain_use : chain_uses 4 (service_at 4).peers ≡ 1
unfolding chain_uses
one_chain_use = refl

no_retrieve_use : retrieve_uses 4 (service_at 4).peers ≡ 0
unfolding retrieve_uses
no_retrieve_use = refl

issue_inflates_example :
    let s = service_at 4 in
    let t = record_at 4 in
    (s' : Service) × (issue s them us
        (unpaid s t)
        t
        (record { sign = ok []; emit = none; writes = none })
      ≡ (s', none))
    × (available_balance s' ≡ available_balance s +ℤ unpaid s t)
issue_inflates_example =
    issue_inflates (service_at 4) them us (record_at 4) [] (known 4) one_chain_use no_retrieve_use
      (omega arith) (omega arith) enough'

-- A cheque that a third party has issued.
abbrev pub cheque : SignedCheque
cheque = record {
  cheque = record { recipient = us; beneficiary = 3 ∷ []; cumulative_payout = pos 6 };
  signature = some [];
}

abbrev pub recover : Recover
recover c = ok c.beneficiary

acceptable : IsAcceptable us recover empty cheque
unfolding lookup
acceptable = record { to_us = refl; signed = refl; increases = omega arith }

receive_cheque_books_example :
    (s' : Service) × (t' : Traffic) × (receive_cheque recover (service_at 2) peer cheque none none
      ≡ (s', none))
    × (lookup them s'.peers ≡ some t')
    × (value s' t'.transfer_cheque ≡ pos 6)
receive_cheque_books_example =
    receive_cheque_books recover (service_at 2) peer them (record_at 2) cheque
      (unfold lookup bytes_eq in refl) (known 2) acceptable
