-- ===== src/Settlement/Traffic/Issue.antt =====
-- What the issue of a cheque does, when retrieveChequeTraffic has an object of its own.
use favor_x.Base.{ℕ, ◌≡◌, ◌≢◌, refl, ap, ◌∙◌, false, none, some, arith}
use favor_x.Base.Bytes.{Bytes}
use favor_x.Base.Map.{lookup, insert_same, lookup-insert_self}
use favor_x.Base.Int.{ℤ, pos, pos_part, neg_part, ◌+ℤ◌, ◌-ℤ◌, ltb_ℤ, int_laws}
use favor_x.Settlement.Cheque.{ChainAddress, Cheque, ok}
use favor_x.Settlement.ChequeStore
use favor_x.Settlement.ChequeStore.{ChequeStore, Answer, write}
use favor_x.Settlement.Traffic.{
  Traffic, Service, value, max_bigint, available_balance, put_send_cheque, issue,
}
use favor_x.Settlement.Traffic.Sums.{
  times, chain_uses, retrieve_uses, raise, available_balance-raise,
}

-- What retrieved traffic is not yet covered by cheques.
abbrev pub unpaid : Service → Traffic → ℤ
unpaid s t = value s t.retrieve -ℤ value s t.retrieve_cheque

-- The object of retrieveChequeTraffic is no amount on the chain, no amount retrieved, and not the
-- balance.
pub record IsSeparate (s : Service) (t : Traffic) : Type 0 where
  pub from_chain : chain_uses t.retrieve_cheque s.peers ≡ 0
  pub from_retrieve : retrieve_uses t.retrieve_cheque s.peers ≡ 0
  pub from_own : t.retrieve_cheque ≢ t.retrieve
  pub from_balance : t.retrieve_cheque ≢ s.balance

-- The service after the in-place Add.
abbrev pub raised : Service → Traffic → ℤ → Service
raised s t d = record s { heap = raise s.heap t.retrieve_cheque d }

payout_eq : (r c : ℤ) → c +ℤ (r -ℤ c) ≡ r
payout_eq r c = omega int_laws

cell_self :
    (s : Service) (t : Traffic) (d : ℤ)
    → value (raised s t d) t.retrieve_cheque ≡ value s t.retrieve_cheque +ℤ d
cell_self s t d = ground arith

cell-own :
    (s : Service) (t : Traffic) (d : ℤ)
    → t.retrieve_cheque ≢ t.retrieve
    → value (raised s t d) t.retrieve ≡ value s t.retrieve
cell-own s t d n = ground arith

-- A cheque over all that is unpaid leaves retrieveTraffic as it is.
keeps_retrieve :
    (s : Service) (t : Traffic)
    → t.retrieve_cheque ≢ t.retrieve
    → max_bigint (raised s t (unpaid s t)).heap t.retrieve t.retrieve_cheque ≡ t.retrieve
unfolding max_bigint
keeps_retrieve s t n =
    let self : (raised s t (unpaid s t)).heap.cell t.retrieve_cheque ≡ value s t.retrieve =
      cell_self s t (unpaid s t) ∙ payout_eq (value s t.retrieve) (value s t.retrieve_cheque) in
    ground (arith, self, cell-own s t (unpaid s t) n)

available_balance-raised :
    (s : Service) (t : Traffic) (d : ℤ)
    → IsSeparate s t
    → available_balance (raised s t d) ≡ available_balance s
available_balance-raised s t d v =
    no_uses _ _ _ _ d v.from_retrieve v.from_chain
      (available_balance-raise s t.retrieve_cheque d v.from_balance)
  where
    no_uses : (x y : ℤ) (m n : ℕ) (e : ℤ) → m ≡ 0 → n ≡ 0 → x +ℤ times m e ≡ y +ℤ times n e → x ≡ y
    no_uses x y m n e p q h =
        unfold times in
        (let h' : x +ℤ pos 0 ≡ y +ℤ pos 0 = rw (p, q) at h in
          omega (int_laws, ap pos_part h', ap neg_part h'))

-- The cheque over all that is unpaid.
abbrev pub full_cheque : Service → ChainAddress → ChainAddress → Traffic → Cheque
full_cheque s recipient beneficiary t = record {
  recipient = recipient;
  beneficiary = beneficiary;
  cumulative_payout = value s t.retrieve_cheque +ℤ unpaid s t;
}

abbrev pub settled : Service → ChainAddress → ChainAddress → Traffic → Service
settled s recipient beneficiary t = record (raised s t (unpaid s t)) {
  cheque_store =
      (ChequeStore.put_send_cheque s.cheque_store (full_cheque s recipient beneficiary t) recipient
        none).0;
}

pub issue-settled :
    (s : Service) (recipient beneficiary : ChainAddress) (t : Traffic) (signature : Bytes)
    → lookup recipient s.peers ≡ some t
    → t.retrieve_cheque ≢ t.retrieve
    → ltb_ℤ (available_balance s) (unpaid s t) ≡ false
    → issue s recipient beneficiary
        (unpaid s t)
        t
        (record { sign = ok signature; emit = none; writes = none })
      ≡ (settled s recipient beneficiary t, none)
unfolding issue put_send_cheque ChequeStore.put_send_cheque
issue-settled s recipient beneficiary t signature h own f =
    rw (f, keeps_retrieve s t own, insert_same recipient t s.peers h) refl

sub_self : (x : ℤ) → x -ℤ x ≡ pos 0
sub_self x = omega int_laws

paid :
    (s : Service) (t : Traffic)
    → t.retrieve_cheque ≢ t.retrieve
    → unpaid (raised s t (unpaid s t)) t ≡ pos 0
paid s t n =
    rw
      (
        cell-own s t (unpaid s t) n,
        cell_self s t (unpaid s t),
        payout_eq (value s t.retrieve) (value s t.retrieve_cheque),
      )
      (sub_self (value s t.retrieve))

stored :
    (s : Service) (recipient beneficiary : ChainAddress) (t : Traffic)
    → lookup recipient (settled s recipient beneficiary t).cheque_store.last_send
      ≡ some (record {
        recipient = recipient;
        beneficiary = beneficiary;
        cumulative_payout = value s t.retrieve;
      })
unfolding ChequeStore.put_send_cheque write
stored s recipient beneficiary t =
    rw (payout_eq (value s t.retrieve) (value s t.retrieve_cheque))
      (lookup-insert_self recipient _ s.cheque_store.last_send)

-- Paying a peer on record all that is unpaid, when the object of its retrieveChequeTraffic is no
-- amount on the chain, no amount retrieved and not the balance, with enough funds and a signer, network
-- and store that work: the
-- cheque has the whole amount retrieved for its payout, it is stored as the last one sent,
-- nothing is left unpaid, and the available balance stays as it was.
pub issue_settles :
    (s : Service) (recipient beneficiary : ChainAddress) (t : Traffic) (signature : Bytes)
    → lookup recipient s.peers ≡ some t
    → IsSeparate s t
    → ltb_ℤ (available_balance s) (unpaid s t) ≡ false
    → (s' : Service) × (issue s recipient beneficiary
          (unpaid s t)
          t
          (record { sign = ok signature; emit = none; writes = none })
        ≡ (s', none))
      × (lookup recipient s'.peers ≡ some t)
      × (unpaid s' t ≡ pos 0)
      × (value s' t.retrieve ≡ value s t.retrieve)
      × (lookup recipient s'.cheque_store.last_send
          ≡ some (record {
            recipient = recipient;
            beneficiary = beneficiary;
            cumulative_payout = value s t.retrieve;
          }))
      × (available_balance s' ≡ available_balance s)
issue_settles s recipient beneficiary t signature h v f = (
  settled s recipient beneficiary t,
  issue-settled s recipient beneficiary t signature h v.from_own f,
  h,
  paid s t v.from_own,
  cell-own s t (unpaid s t) v.from_own,
  stored s recipient beneficiary t,
  unfold available_balance in available_balance-raised s t (unpaid s t) v,
)
