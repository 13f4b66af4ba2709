-- ===== src/Settlement/Traffic/Handshake/Binding.antt =====
-- What handshakes do to the address book.
use favor_x.Base.{◌≡◌, ◌≢◌, refl, sym, subst, Option-cases, inl, inr, none, some, arith}
use favor_x.Base.Bytes.{bytes_eq_iff, bytes_eq_refl}
use favor_x.Base.Map.{lookup, insert, lookup-insert}
use favor_x.Base.Int.{ℤ}
use favor_x.Boson.{Address}
use favor_x.Settlement.Cheque.{ChainAddress, SignedCheque, Result, ok, err}
use favor_x.Settlement.ChequeStore.{Recover, Answer}
use favor_x.Settlement.Traffic.{
  Service, get_traffic, beneficiary, put_send_cheque, update_peer_balance, fresh,
}
use favor_x.Settlement.Traffic.Handshake.{
  HandshakeAnswers, Gap, looked, free, halfway, bound, checked, compared, put_beneficiary, bind,
  restore, verify, handshake,
}

-- The same address book.
abbrev SameBook : Service → Service → Type 0
SameBook s s' = (s'.beneficiaries ≡ s.beneficiaries) × (s'.overlays ≡ s.overlays)

update_peer_balance-SameBook :
    (s : Service) (peer : Address) (r : Result ℤ) → SameBook s (update_peer_balance s peer r).0
unfolding update_peer_balance get_traffic
update_peer_balance-SameBook s peer (err e) = (refl, refl)
update_peer_balance-SameBook s peer (ok n) = (ground arith, ground arith)

-- The service after the cheque has been stored.
abbrev restored : Service → ChainAddress → SignedCheque → Answer → Service × Answer
restored s a c writes =
    let (s', t) = get_traffic s a in
    let (s'', p) = fresh s' c.cumulative_payout in put_send_cheque s'' c.cheque a t p writes

put_send_cheque-SameBook :
    (s : Service) (a : ChainAddress) (c : SignedCheque) (writes : Answer)
    → SameBook s (restored s a c writes).0
unfolding put_send_cheque get_traffic
put_send_cheque-SameBook s a c writes = (ground arith, ground arith)

-- A property of the address book that the others keep.
module _ (others : Gap → Service → Service) (Q : Service → Type 0)
    (keep : (gap : Gap) (s : Service) → Q s → Q (others gap s))
    (same : (s s' : Service) → SameBook s s' → Q s → Q s') where
  restore_keeps :
      (s : Service) (a : ChainAddress) (c : SignedCheque) (r : HandshakeAnswers)
      → Q s
      → Q (restore others s a c r).0
  unfolding restore
  restore_keeps s a c r q =
      let s1 = others compared s in
      let q1 : Q (restored s1 a c r.writes).0 =
        same s1 _ (put_send_cheque-SameBook s1 a c r.writes) (keep compared s q) in
      ground (arith, q, q1)

  verify_keeps :
      (recover : Recover) (s : Service) (a : ChainAddress) (c : SignedCheque) (r : HandshakeAnswers)
      → Q s
      → Q (verify others recover s a c r).0
  unfolding verify
  verify_keeps recover s a c r q = ground (arith, restore_keeps s a c r q)

  pub handshake_keeps :
      (recover : Recover) (s : Service) (peer : Address) (a : ChainAddress) (c : SignedCheque)
      (r : HandshakeAnswers)
      → Q (bind others s peer a c r).0
      → Q (handshake others recover s peer a c r).0
  unfolding handshake
  handshake_keeps recover s peer a c r q =
      let s1 = others bound (bind others s peer a c r).0 in
      let s2 = (update_peer_balance s1 peer r.balance).0 in
      let q2 : Q s2 =
        same s1 s2 (update_peer_balance-SameBook s1 peer r.balance) (keep bound _ q) in
      ground (arith, q, q2, verify_keeps recover (others checked s2) a c r (keep checked s2 q2))

-- At the chain address b, the two maps of the address book are each other's inverse: the peer that
-- stands under b is the only one that has b.
pub record IsPaired (b : ChainAddress) (s : Service) : Type 0 where
  pub forth : (q : Address) → beneficiary s q ≡ some b → lookup b s.overlays ≡ some q
  pub back : (q : Address) → lookup b s.overlays ≡ some q → beneficiary s q ≡ some b

IsPaired-SameBook :
    (b : ChainAddress) (s s' : Service) → SameBook s s' → IsPaired b s → IsPaired b s'
IsPaired-SameBook b s s' e v = record {
  forth = λ q h. rw e.1 (v.forth q (rw e.0 at h));
  back = λ q h. rw e.0 (v.back q (rw e.1 at h));
}

-- PutBeneficiary's second map, set to the peer.
abbrev pub completed : Address → ChainAddress → Service → Service
completed peer a s = record s { overlays = insert a peer s.overlays }

-- What others may do during a handshake of a new peer: they keep the book paired at b, bind neither the
-- peer nor the address that it claims, and, between the two halves of PutBeneficiary, leave a book
-- that the second half makes paired at b.
pub record Minds (others : Gap → Service → Service) (peer : Address) (a b : ChainAddress)
    : Type 0 where
  pub paired : (gap : Gap) (s : Service) → IsPaired b s → IsPaired b (others gap s)
  pub unbound :
      (gap : Gap) (s : Service) → beneficiary s peer ≡ none → beneficiary (others gap s) peer ≡ none
  pub unclaimed :
      (gap : Gap) (s : Service)
      → lookup a s.overlays ≡ none
      → lookup a (others gap s).overlays ≡ none
  pub half :
      (s : Service)
      → IsPaired b (completed peer a s)
      → IsPaired b (completed peer a (others halfway s))

put_both-IsPaired :
    (s : Service) (peer : Address) (a b : ChainAddress)
    → beneficiary s peer ≡ none
    → lookup a s.overlays ≡ none
    → IsPaired b s
    → IsPaired b (completed peer a (record s { beneficiaries = insert peer a s.beneficiaries }))
put_both-IsPaired s peer a b u f v = record {
  forth = λ q h. ground (
    arith,
    lookup-insert peer q a s.beneficiaries,
    lookup-insert a b peer s.overlays,
    v.forth q,
    bytes_eq_iff peer q,
    bytes_eq_iff a b,
    v.back q,
  );
  back = λ q h. ground (
    arith,
    lookup-insert peer q a s.beneficiaries,
    lookup-insert a b peer s.overlays,
    v.back q,
    bytes_eq_iff peer q,
    bytes_eq_iff a b,
    v.forth q,
  );
}

-- A known peer is not bound again.
bind_known :
    (others : Gap → Service → Service) (s : Service) (peer : Address) (a local : ChainAddress)
    (c : SignedCheque) (r : HandshakeAnswers)
    → beneficiary s peer ≡ some local
    → (bind others s peer a c r).0 ≡ s
unfolding bind
bind_known others s peer a local c r e = ground (arith, e)

bind-IsPaired :
    (others : Gap → Service → Service) (s : Service) (peer : Address) (a b : ChainAddress)
    (c : SignedCheque) (r : HandshakeAnswers)
    → Minds others peer a b
    → IsPaired b s
    → IsPaired b (bind others s peer a c r).0
unfolding bind put_beneficiary
bind-IsPaired others s peer a b c r m v =
    let s1 = others looked s in
    elim (Option-cases (beneficiary s peer)) [
      | inr (local, e) ↦ subst (IsPaired b) (sym (bind_known others s peer a local c r e)) v
      | inl u ↦ elim (Option-cases (lookup a s1.overlays)) [
        | inr (p, e) ↦ rw (bind, u, e) (m.paired looked s v)
        | inl f ↦
            rw (bind, u, f)
              (m.half _ (
                put_both-IsPaired (others free s1) peer a b
                  (m.unbound free s1 (m.unbound looked s u)) (m.unclaimed free s1 f)
                  (m.paired free s1 (m.paired looked s v))))
      ]
    ]

-- While a peer shakes hands, let what others do in between keep the two maps of the address book each
-- other's inverse at the chain address b, and bind neither the peer nor the address that it claims.
-- Then the handshake keeps the maps each other's inverse at b, whatever the peer sends and however the
-- chain, the signer and the store answer: b does not come to belong to two peers.
pub handshake-IsPaired :
    (others : Gap → Service → Service) (recover : Recover) (s : Service) (peer : Address)
    (a b : ChainAddress) (c : SignedCheque) (r : HandshakeAnswers)
    → Minds others peer a b
    → IsPaired b s
    → IsPaired b (handshake others recover s peer a c r).0
handshake-IsPaired others recover s peer a b c r m v =
    handshake_keeps others (IsPaired b) m.paired (IsPaired-SameBook b) recover s peer a c r
      (bind-IsPaired others s peer a b c r m v)

-- What others do in between leaves the chain address of a peer as it is, if it has one.
abbrev pub Keeps : (Gap → Service → Service) → Address → Type 0
Keeps others q =
    (gap : Gap) (s : Service) (b : ChainAddress)
    → beneficiary s q ≡ some b
    → beneficiary (others gap s) q ≡ some b

pub At-SameBook :
    (q : Address) (b : ChainAddress) (s s' : Service)
    → SameBook s s'
    → beneficiary s q ≡ some b
    → beneficiary s' q ≡ some b
At-SameBook q b s s' e h = rw e.0 h

bind_bound :
    (others : Gap → Service → Service) (s : Service) (peer : Address) (a : ChainAddress)
    (c : SignedCheque) (r : HandshakeAnswers) (q : Address) (b : ChainAddress)
    → Keeps others q
    → beneficiary s q ≡ some b
    → beneficiary (bind others s peer a c r).0 q ≡ some b
unfolding bind put_beneficiary
bind_bound others s peer a c r q b k h =
    let s1 = others looked s in
    let s2 = others free s1 in
    let h2 = k free s1 b (k looked s b h) in
    elim (Option-cases (beneficiary s peer)) [
      | inr (local, e) ↦ rw (bind_known others s peer a local c r e) h
      | inl u ↦ elim (Option-cases (lookup a s1.overlays)) [
        | inr (p, e) ↦ rw (bind, u, e) (k looked s b h)
        | inl f ↦
            rw (bind, u, f)
              (k halfway _ b (
                ground
                  (arith, h2, lookup-insert peer q a s2.beneficiaries, bytes_eq_iff peer q, u, h)))
      ]
    ]

-- If what others do in between does not change the chain address of a peer q that has one, a handshake
-- of any peer does not either, whatever that peer claims.
pub handshake-beneficiary :
    (others : Gap → Service → Service) (recover : Recover) (s : Service) (peer : Address)
    (a : ChainAddress) (c : SignedCheque) (r : HandshakeAnswers) (q : Address) (b : ChainAddress)
    → Keeps others q
    → beneficiary s q ≡ some b
    → beneficiary (handshake others recover s peer a c r).0 q ≡ some b
handshake-beneficiary others recover s peer a c r q b k h =
    handshake_keeps others (λ s'. beneficiary s' q ≡ some b) (λ gap s'. k gap s' b)
      (At-SameBook q b) recover s peer a c r (bind_bound others s peer a c r q b k h)

-- A new peer gets the address that it claims, if no peer stands under it.
pub bind_fresh :
    (others : Gap → Service → Service) (s : Service) (peer : Address) (a : ChainAddress)
    (c : SignedCheque) (r : HandshakeAnswers)
    → Keeps others peer
    → beneficiary s peer ≡ none
    → lookup a (others looked s).overlays ≡ none
    → beneficiary (bind others s peer a c r).0 peer ≡ some a
unfolding bind put_beneficiary
bind_fresh others s peer a c r k u f =
    let s2 = others free (others looked s) in
    rw (bind, u, f)
      (k halfway _ a
        (ground (arith, lookup-insert peer peer a s2.beneficiaries, bytes_eq_refl peer)))

refused :
    (others : Gap → Service → Service) (recover : Recover) (s : Service) (peer q : Address)
    (a : ChainAddress) (c : SignedCheque) (r : HandshakeAnswers)
    → beneficiary s peer ≡ none
    → lookup a (others looked s).overlays ≡ some q
    → (handshake others recover s peer a c r).1 ≢ none
unfolding handshake bind
refused others recover s peer q a c r u f e = ground (arith, u, f, e)

-- If what others do in between does not change the chain address of the peer once it has one, then the
-- peer has one after a handshake that succeeds: its old one, or else the one that it claims.
pub handshake_binds :
    (others : Gap → Service → Service) (recover : Recover) (s : Service) (peer : Address)
    (a : ChainAddress) (c : SignedCheque) (r : HandshakeAnswers)
    → Keeps others peer
    → (handshake others recover s peer a c r).1 ≡ none
    → beneficiary (handshake others recover s peer a c r).0 peer
      ≡ elim (beneficiary s peer) [ none ↦ some a | some b ↦ some b ]
handshake_binds others recover s peer a c r k success = elim (Option-cases (beneficiary s peer)) [
  | inr (b, e) ↦ rw e (handshake-beneficiary others recover s peer a c r peer b k e)
  | inl u ↦ elim (Option-cases (lookup a (others looked s).overlays)) [
    | inr (q, f) ↦ absurd (refused others recover s peer q a c r u f success)
    | inl f ↦ rw u (
        handshake_keeps others (λ s'. beneficiary s' peer ≡ some a) (λ gap s'. k gap s' a)
          (At-SameBook peer a) recover s peer a c r (bind_fresh others s peer a c r k u f))
  ]
]
