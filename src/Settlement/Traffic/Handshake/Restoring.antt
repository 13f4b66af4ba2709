-- ===== src/Settlement/Traffic/Handshake/Restoring.antt =====
-- The cheques that handshakes restore.
use favor_x.Base.{◌≡◌, refl, Option, none, some, arith}
use favor_x.Base.Bytes.{Bytes, bytes_eq_iff, bytes_eq_refl}
use favor_x.Base.Map.{lookup, insert, lookup-insert}
use favor_x.Base.Int.{ℤ, pos, ◌≤ℤ◌, ◌<ℤ◌}
use favor_x.Boson.{Address}
use favor_x.Settlement.Cheque.{ChainAddress, Cheque, SignedCheque, Result, ok, err}
use favor_x.Settlement.ChequeStore
use favor_x.Settlement.ChequeStore.{ChequeStore, Answer, Recover, read, write}
use favor_x.Settlement.Traffic.{
  Service, get_traffic, beneficiary, put_send_cheque, update_peer_balance,
}
use favor_x.Settlement.Traffic.Handshake.{
  Gap, looked, free, halfway, bound, checked, compared, alone, HandshakeAnswers, put_beneficiary,
  bind, restore, verify, handshake,
}

abbrev payout_of : Option Cheque → ℤ
payout_of none = pos 0
payout_of (some c) = c.cumulative_payout

-- The payout of the last cheque sent to an address, 0 if there is none.
abbrev pub sent : ChequeStore → ChainAddress → ℤ
sent s b = payout_of (lookup b s.last_send)

-- What others do in between does not lower the payout of the last cheque sent to b.
abbrev pub Raises : (Gap → Service → Service) → ChainAddress → Type 0
Raises others b =
    (gap : Gap) (s : Service) → sent s.cheque_store b ≤ℤ sent (others gap s).cheque_store b

restore-sent :
    (others : Gap → Service → Service) (s : Service) (a : ChainAddress) (c : SignedCheque)
    (r : HandshakeAnswers) (b : ChainAddress)
    → Raises others b
    → sent s.cheque_store b ≤ℤ sent (restore others s a c r).0.cheque_store b
unfolding restore put_send_cheque ChequeStore.put_send_cheque get_traffic read write
restore-sent others s a c r b k =
    let s' = others compared s in
    ground
      (arith, k compared s, lookup-insert a b c.cheque s'.cheque_store.last_send, bytes_eq_iff a b)

update_peer_balance-store :
    (s : Service) (peer : Address) (r : Result ℤ)
    → (update_peer_balance s peer r).0.cheque_store ≡ s.cheque_store
unfolding update_peer_balance get_traffic
update_peer_balance-store s peer (err e) = refl
update_peer_balance-store s peer (ok n) = ground arith

le_refl_ℤ : (x : ℤ) → x ≤ℤ x
le_refl_ℤ x = omega arith

le_trans_ℤ : (x y z : ℤ) → x ≤ℤ y → y ≤ℤ z → x ≤ℤ z
le_trans_ℤ x y z h k = omega arith

bind-sent :
    (others : Gap → Service → Service) (s : Service) (peer : Address) (a : ChainAddress)
    (c : SignedCheque) (r : HandshakeAnswers) (b : ChainAddress)
    → Raises others b
    → sent s.cheque_store b ≤ℤ sent (bind others s peer a c r).0.cheque_store b
unfolding bind put_beneficiary
bind-sent others s peer a c r b k =
    let s1 = others looked s in
    let s2 = others free s1 in
    ground (
      arith,
      le_refl_ℤ (sent s.cheque_store b),
      k looked s,
      k free s1,
      k halfway (record s2 { beneficiaries = insert peer a s2.beneficiaries }),
      le_trans_ℤ (sent s.cheque_store b) (sent s1.cheque_store b) (sent s2.cheque_store b),
    )

verify-sent :
    (others : Gap → Service → Service) (recover : Recover) (s : Service) (a : ChainAddress)
    (c : SignedCheque) (r : HandshakeAnswers) (b : ChainAddress)
    → Raises others b
    → sent s.cheque_store b ≤ℤ sent (verify others recover s a c r).0.cheque_store b
unfolding verify
verify-sent others recover s a c r b k =
    ground (arith, restore-sent others s a c r b k, le_refl_ℤ (sent s.cheque_store b))

-- If what others do in between does not lower the payout of the last cheque sent to an address, that
-- payout is after a handshake no lower than before it, whatever the peer sends and however the chain,
-- the signer and the store answer.
handshake-sent :
    (others : Gap → Service → Service) (recover : Recover) (s : Service) (peer : Address)
    (a : ChainAddress) (c : SignedCheque) (r : HandshakeAnswers) (b : ChainAddress)
    → Raises others b
    → sent s.cheque_store b ≤ℤ sent (handshake others recover s peer a c r).0.cheque_store b
unfolding handshake
handshake-sent others recover s peer a c r b k =
    let s0 = (bind others s peer a c r).0 in
    let s1 = others bound s0 in
    let s2 = (update_peer_balance s1 peer r.balance).0 in
    let s3 = others checked s2 in
    let h0 = bind-sent others s peer a c r b k in
    let h1 =
      le_trans_ℤ (sent s.cheque_store b) (sent s0.cheque_store b) (sent s1.cheque_store b) h0
        (k bound s0) in
    let h2 : sent s.cheque_store b ≤ℤ sent s2.cheque_store b =
      rw (update_peer_balance-store s1 peer r.balance) h1 in
    let h3 =
      le_trans_ℤ (sent s.cheque_store b) (sent s2.cheque_store b) (sent s3.cheque_store b) h2
        (k checked s2) in
    let s4 = (verify others recover s3 a c r).0 in
    let h4 =
      le_trans_ℤ (sent s.cheque_store b) (sent s3.cheque_store b) (sent s4.cheque_store b) h3
        (verify-sent others recover s3 a c r b k) in
    ground (arith, h0, h2, h4)

-- A peer whose chain address is known to be `local` claims an address `a`, be it another one, and returns a cheque that
-- this node signed for `local`. With a store and a chain that work, if the cheque's payout is above that of the
-- last cheque sent to `a`, it is stored as the last one sent to `a`, and the handshake succeeds: the claim is
-- checked only for a new peer.
pub handshake_crosses :
    (recover : Recover) (s : Service) (peer : Address) (local a : ChainAddress) (c : SignedCheque)
    (signature : Bytes) (balance : ℤ)
    → beneficiary s peer ≡ some local
    → c.recipient ≡ local
    → c.signature ≡ some signature
    → recover c ≡ ok s.chain_address
    → sent s.cheque_store a <ℤ c.cumulative_payout
    → let (s', e) = handshake alone recover s peer a c (record {
      first_put = none;
      second_put = none;
      balance = ok balance;
      reads = none;
      writes = none;
    }) in
      (e ≡ none) × (lookup a s'.cheque_store.last_send ≡ some c.cheque)
unfolding handshake bind verify restore put_send_cheque ChequeStore.put_send_cheque get_traffic read
    write update_peer_balance
handshake_crosses recover s peer local a c signature balance known to_local signed by_us increases =
    ground (
      arith,
      bytes_eq_refl local,
      bytes_eq_refl s.chain_address,
      lookup-insert a a c.cheque s.cheque_store.last_send,
      bytes_eq_refl a,
    )
