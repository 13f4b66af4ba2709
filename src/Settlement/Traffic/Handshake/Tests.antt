-- ===== src/Settlement/Traffic/Handshake/Tests.antt =====
-- A known peer and a stranger that shake hands, and the theorems at them.
use favor_x.Base.{◌≡◌, refl, none, some, [], ◌∷◌, arith}
use favor_x.Base.Bytes.{bytes_eq, bytes_eq_iff}
use favor_x.Base.Map.{lookup, insert, lookup-insert}
use favor_x.Base.Int.{pos}
use favor_x.Boson.{Address}
use favor_x.Settlement.Cheque.{ChainAddress, SignedCheque, ok}
use favor_x.Settlement.ChequeStore
use favor_x.Settlement.ChequeStore.{empty, read, write}
use favor_x.Settlement.Traffic.{
  Service, beneficiary, put_send_cheque, get_traffic, update_peer_balance,
}
use favor_x.Settlement.Traffic.Tests.{us, them, peer, service_at, recover, cheque}
use favor_x.Settlement.Traffic.Handshake.{
  HandshakeAnswers, handshake, Gap, alone, bind, put_beneficiary, restore, verify,
}
use favor_x.Settlement.Traffic.Handshake.{halfway}
use favor_x.Settlement.Traffic.Handshake.Binding.{
  IsPaired, Minds, Keeps, completed, handshake-IsPaired, handshake_binds,
}
use favor_x.Settlement.Traffic.Handshake.Restoring.{handshake_crosses}
use favor_x.Settlement.Traffic.Handshake.Races.{
  before_set, before_store, handshakes_share, handshake_overwrites,
}

-- A new peer.
abbrev stranger : Address
stranger = 8 ∷ []

abbrev their_address : ChainAddress
their_address = 4 ∷ []

paired : IsPaired their_address (service_at 2)
unfolding lookup bytes_eq
paired = record {
  forth = λ q h. absurd (ground (arith, h, bytes_eq_iff them their_address, bytes_eq_iff peer q));
  back = λ q h. absurd (ground (arith, h, bytes_eq_iff them their_address));
}

abbrev works : HandshakeAnswers
works = record {
  first_put = none;
  second_put = none;
  balance = ok (pos 50);
  reads = none;
  writes = none;
}

abbrev third : Address
third = 9 ∷ []

-- Meanwhile another peer is bound to an address of its own, in the first map.
abbrev meanwhile : Gap → Service → Service
meanwhile gap s = record s {
  beneficiaries = elim (beneficiary s third) [
    | none ↦ insert third (5 ∷ []) s.beneficiaries
    | some a ↦ s.beneficiaries
  ];
}

meanwhile-Keeps : (q : Address) → Keeps meanwhile q
meanwhile-Keeps q gap s b h =
    ground (arith, h, lookup-insert third q (5 ∷ []) s.beneficiaries, bytes_eq_iff third q)

-- A chain address that nobody has.
other_address-IsPaired :
    (gap : Gap) (s : Service) → IsPaired their_address s → IsPaired their_address (meanwhile gap s)
other_address-IsPaired gap s v = record {
  forth = λ q h.
      ground
        (arith, h, v.forth q, lookup-insert third q (5 ∷ []) s.beneficiaries, bytes_eq_iff third q);
  back = λ q h. meanwhile-Keeps q gap s their_address (v.back q h);
}

minds : Minds meanwhile stranger their_address their_address
minds = record {
  paired = other_address-IsPaired;
  unbound = λ gap s h. ground (
    arith,
    h,
    lookup-insert third stranger (5 ∷ []) s.beneficiaries,
    bytes_eq_iff third stranger,
  );
  unclaimed = λ gap s h. h;
  half = λ s v. other_address-IsPaired halfway (completed stranger their_address s) v;
}

handshake-IsPaired_example :
    IsPaired their_address
      (handshake meanwhile recover (service_at 2) stranger their_address cheque works).0
handshake-IsPaired_example =
    handshake-IsPaired meanwhile recover (service_at 2) stranger their_address their_address cheque
      works minds paired

handshakes_share_example :
    let s' =
      (handshake
        (before_set (λ x. (handshake alone recover x third their_address cheque works).0))
        recover
        (service_at 2)
        stranger
        their_address
        cheque
        works).0 in
    (beneficiary s' stranger ≡ some their_address) × (beneficiary s' third ≡ some their_address)
handshakes_share_example =
    handshakes_share recover (service_at 2) stranger third their_address cheque cheque works works
      (λ e. cc) (unfold lookup bytes_eq in refl) (unfold lookup bytes_eq in refl)
      (unfold lookup bytes_eq in refl)

-- A cheque that this node has signed for `them`, returned with the claim of another address.
abbrev ours : SignedCheque
ours = record {
  cheque = record { recipient = them; beneficiary = us; cumulative_payout = pos 6 };
  signature = some [];
}

succeeds : (handshake alone recover (service_at 2) stranger their_address ours works).1 ≡ none
unfolding handshake bind put_beneficiary restore verify put_send_cheque ChequeStore.put_send_cheque
    get_traffic read write update_peer_balance lookup insert bytes_eq
succeeds = refl

handshake_binds_example :
    beneficiary
      (handshake alone recover (service_at 2) stranger their_address ours works).0
      stranger
    ≡ elim (beneficiary (service_at 2) stranger) [ none ↦ some their_address | some b ↦ some b ]
handshake_binds_example =
    handshake_binds alone recover (service_at 2) stranger their_address ours works (λ gap s b h. h)
      succeeds

handshake_crosses_example :
    let (s', e) = handshake alone recover (service_at 2) peer their_address ours works in
    (e ≡ none) × (lookup their_address s'.cheque_store.last_send ≡ some ours.cheque)
handshake_crosses_example =
    handshake_crosses recover (service_at 2) peer them their_address ours [] (pos 50)
      (unfold lookup bytes_eq in refl) refl refl refl (unfold lookup in omega arith)

-- A payment that stores a cheque over nine.
abbrev pays_nine : Service → Service
pays_nine s = record s {
  cheque_store = record s.cheque_store {
    last_send =
        insert them (record { recipient = them; beneficiary = us; cumulative_payout = pos 9 })
          s.cheque_store.last_send;
  };
}

handshake_overwrites_example :
    let (s', e) = handshake (before_store pays_nine) recover (service_at 2) peer them ours works in
    (e ≡ none) × (lookup them s'.cheque_store.last_send ≡ some ours.cheque)
handshake_overwrites_example =
    handshake_overwrites pays_nine recover (service_at 2) peer them ours [] (pos 50)
      (unfold lookup bytes_eq in refl) refl refl refl (unfold lookup in omega arith)
