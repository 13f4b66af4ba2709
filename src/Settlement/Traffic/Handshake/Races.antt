-- ===== src/Settlement/Traffic/Handshake/Races.antt =====
-- What two goroutines that shake hands or pay at the same time can do to each other.
use favor_x.Base.{◌≡◌, ◌≢◌, none, some, arith}
use favor_x.Base.Bytes.{Bytes, bytes_eq_iff, bytes_eq_refl}
use favor_x.Base.Map.{lookup, lookup-insert}
use favor_x.Base.Int.{ℤ, ◌<ℤ◌}
use favor_x.Boson.{Address}
use favor_x.Settlement.Cheque.{ChainAddress, SignedCheque, ok}
use favor_x.Settlement.ChequeStore
use favor_x.Settlement.ChequeStore.{Recover, read, write}
use favor_x.Settlement.Traffic.{
  Service, get_traffic, beneficiary, put_send_cheque, update_peer_balance,
}
use favor_x.Settlement.Traffic.Handshake.{
  Gap, looked, free, halfway, bound, checked, compared, alone, HandshakeAnswers, put_beneficiary,
  bind, restore, verify, handshake,
}
use favor_x.Settlement.Traffic.Handshake.Binding.{
  Keeps, At-SameBook, handshake_keeps, handshake-beneficiary, bind_fresh,
}
use favor_x.Settlement.Traffic.Handshake.Restoring.{sent}

-- Others come in at one gap only.
abbrev pub before_set : (Service → Service) → Gap → Service → Service
before_set f looked s = s
before_set f free s = f s
before_set f halfway s = s
before_set f bound s = s
before_set f checked s = s
before_set f compared s = s

abbrev pub before_store : (Service → Service) → Gap → Service → Service
before_store f looked s = s
before_store f free s = s
before_store f halfway s = s
before_store f bound s = s
before_store f checked s = s
before_store f compared s = f s

alone-Keeps : (q : Address) → Keeps alone q
alone-Keeps q gap s b h = h

before_set-Keeps :
    (f : Service → Service) (q : Address)
    → ((s : Service) (b : ChainAddress) → beneficiary s q ≡ some b → beneficiary (f s) q ≡ some b)
    → Keeps (before_set f) q
before_set-Keeps f q k looked s b h = h
before_set-Keeps f q k free s b h = k s b h
before_set-Keeps f q k halfway s b h = h
before_set-Keeps f q k bound s b h = h
before_set-Keeps f q k checked s b h = h
before_set-Keeps f q k compared s b h = h

-- After the bind of a new peer p, before whose Store f came in.
bind_late :
    (f : Service → Service) (s : Service) (p q : Address) (a : ChainAddress) (c : SignedCheque)
    (r : HandshakeAnswers)
    → p ≢ q
    → beneficiary s p ≡ none
    → lookup a s.overlays ≡ none
    → beneficiary (f s) q ≡ some a
    → beneficiary (bind (before_set f) s p a c r).0 q ≡ some a
unfolding bind put_beneficiary
bind_late f s p q a c r d u v h =
    rw (bind, u, v)
      (ground (arith, h, lookup-insert p q a (f s).beneficiaries, bytes_eq_iff p q, d))

-- Two new peers claim one chain address that no peer has. If the handshake of q runs after that of p has
-- found the address free and before it takes it, both peers have the address in the end, whatever the
-- chain, the signer and the store answer.
pub handshakes_share :
    (recover : Recover) (s : Service) (p q : Address) (a : ChainAddress) (c d : SignedCheque)
    (r o : HandshakeAnswers)
    → p ≢ q
    → beneficiary s p ≡ none
    → beneficiary s q ≡ none
    → lookup a s.overlays ≡ none
    → let s' =
        (handshake (before_set (λ x. (handshake alone recover x q a d o).0)) recover s p a c r).0 in
      (beneficiary s' p ≡ some a) × (beneficiary s' q ≡ some a)
handshakes_share recover s p q a c d r o different new_p new_q unclaimed =
    let f : Service → Service = λ x. (handshake alone recover x q a d o).0 in
    let k : (x : Address) → Keeps (before_set f) x = λ x.
      before_set-Keeps f x
        (λ y b. handshake-beneficiary alone recover y q a d o x b (alone-Keeps x)) in
    let first : beneficiary (f s) q ≡ some a =
      handshake_keeps alone (λ y. beneficiary y q ≡ some a) (λ gap y h. h) (At-SameBook q a) recover
        s q a d o (bind_fresh alone s q a d o (alone-Keeps q) new_q unclaimed) in
    (
      handshake_keeps (before_set f) (λ y. beneficiary y p ≡ some a) (λ gap y. k p gap y a)
          (At-SameBook p a) recover s p a c r
          (bind_fresh (before_set f) s p a c r (k p) new_p unclaimed),
      handshake_keeps (before_set f) (λ y. beneficiary y q ≡ some a) (λ gap y. k q gap y a)
          (At-SameBook q a) recover s p a c r
          (bind_late f s p q a c r different new_p unclaimed first),
    )

-- A peer whose chain address is `a` returns a cheque that this node signed for it, with a payout above
-- that of the last cheque sent to `a`. If after this comparison others store other cheques, whatever
-- they are and however high, the handshake puts the returned cheque in their place and succeeds, with
-- a store and a chain that work.
pub handshake_overwrites :
    (f : Service → Service) (recover : Recover) (s : Service) (peer : Address) (a : ChainAddress)
    (c : SignedCheque) (signature : Bytes) (balance : ℤ)
    → beneficiary s peer ≡ some a
    → c.recipient ≡ a
    → c.signature ≡ some signature
    → recover c ≡ ok s.chain_address
    → sent s.cheque_store a <ℤ c.cumulative_payout
    → let (s', e) = handshake (before_store f) recover s peer a c (record {
      first_put = none;
      second_put = none;
      balance = ok balance;
      reads = none;
      writes = none;
    }) in
      (e ≡ none) × (lookup a s'.cheque_store.last_send ≡ some c.cheque)
unfolding handshake bind verify restore put_send_cheque ChequeStore.put_send_cheque get_traffic read
    write update_peer_balance
handshake_overwrites f recover s peer a c signature balance known to_them signed by_us increases =
    let s' = f (update_peer_balance s peer (ok balance)).0 in
    ground (
      arith,
      bytes_eq_refl a,
      bytes_eq_refl s.chain_address,
      lookup-insert a a c.cheque s'.cheque_store.last_send,
    )
