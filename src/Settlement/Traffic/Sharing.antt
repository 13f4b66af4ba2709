-- ===== src/Settlement/Traffic/Sharing.antt =====
-- What goes wrong when retrieveChequeTraffic shares its object with the amount on the chain, as
-- trafficPeerChequeUpdate leaves it.
use favor_x.Base.{ℕ, ◌≡◌, ◌≢◌, refl, ap, false, Option, none, some}
use favor_x.Base.Bytes.{Bytes}
use favor_x.Base.Map.{lookup, lookup-insert_self}
use favor_x.Base.Int.{ℤ, pos, pos_part, neg_part, ◌+ℤ◌, ltb_ℤ, int_laws}
use favor_x.Settlement.Cheque.{ChainAddress, Result, ok, err}
use favor_x.Settlement.ChequeStore.{Answer}
use favor_x.Settlement.Traffic.{Traffic, Service, available_balance, issue}
use favor_x.Settlement.Traffic.Refresh.{
  finish_transfer, finish_retrieve, traffic_peer_cheque_update,
}
use favor_x.Settlement.Traffic.Sums.{times, chain_uses, retrieve_uses, available_balance-raise}
use favor_x.Settlement.Traffic.Issue.{unpaid, settled, issue-settled}

one_use : (x y : ℤ) (m n : ℕ) (d : ℤ) → m ≡ 0 → n ≡ 1 → x +ℤ times m d ≡ y +ℤ times n d → x ≡ y +ℤ d
unfolding times
one_use x y m n d p q h =
    let h' : x +ℤ pos 0 ≡ y +ℤ (d +ℤ pos 0) = rw (p, q) at h in
    omega (int_laws, ap pos_part h', ap neg_part h')

-- If the object of retrieveChequeTraffic is also the peer's amount on the chain (and no other sum has
-- it), then paying the peer all that is unpaid raises the available balance by the amount paid: the
-- cheque counts as if it had been cashed.
pub issue_inflates :
    (s : Service) (recipient beneficiary : ChainAddress) (t : Traffic) (signature : Bytes)
    → lookup recipient s.peers ≡ some t
    → chain_uses t.retrieve_cheque s.peers ≡ 1
    → retrieve_uses t.retrieve_cheque s.peers ≡ 0
    → t.retrieve_cheque ≢ t.retrieve
    → t.retrieve_cheque ≢ s.balance
    → ltb_ℤ (available_balance s) (unpaid s t) ≡ false
    → (s' : Service) × (issue s recipient beneficiary
          (unpaid s t)
          t
          (record { sign = ok signature; emit = none; writes = none })
        ≡ (s', none))
      × (available_balance s' ≡ available_balance s +ℤ unpaid s t)
issue_inflates s recipient beneficiary t signature h c r own b f = (
  settled s recipient beneficiary t,
  issue-settled s recipient beneficiary t signature h own f,
  unfold available_balance in
      one_use _ _ _ _ (unpaid s t) r c (available_balance-raise s t.retrieve_cheque (unpaid s t) b),
)

-- A peer's record in which retrieveChequeTraffic is the object of the amount on the chain.
abbrev pub Shares : Service → ChainAddress → Type 0
Shares s a = (t : Traffic) × (lookup a s.peers ≡ some t) × (t.retrieve_cheque ≡ t.retrieve_chain)

finish_transfer-Shares :
    (s : Service) (a : ChainAddress) (t : Traffic) (r : Result ℤ)
    → t.retrieve_cheque ≡ t.retrieve_chain
    → Shares (finish_transfer s a t r).0 a
unfolding finish_transfer
finish_transfer-Shares s a t (err e) h = (t, lookup-insert_self a t s.peers, h)
finish_transfer-Shares s a t (ok n) h = (_, lookup-insert_self a _ s.peers, h)

finish_retrieve-Shares :
    (s : Service) (a : ChainAddress) (t : Traffic) (r : Result ℤ) (reads : Answer)
    → t.retrieve_cheque ≡ t.retrieve_chain
    → Shares (finish_retrieve s a t r reads).0 a
unfolding finish_retrieve
finish_retrieve-Shares s a t (err e) reads h = (t, lookup-insert_self a t s.peers, h)
finish_retrieve-Shares s a t (ok n) reads h = finish_transfer-Shares _ a _ _ h

-- trafficPeerChequeUpdate of a peer to which no cheque was sent makes retrieveChequeTraffic the object of
-- the amount on the chain, whatever the store answers.
pub traffic_peer_cheque_update-Shares :
    (s : Service) (a : ChainAddress) (received : Option ℤ) (retrieve_reads transfer_reads : Answer)
    → Shares (traffic_peer_cheque_update s a none received retrieve_reads transfer_reads).0 a
unfolding traffic_peer_cheque_update
traffic_peer_cheque_update-Shares s a received retrieve_reads transfer_reads =
    finish_retrieve-Shares _ a _ _ transfer_reads refl
