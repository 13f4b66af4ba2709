-- ===== src/Settlement/Accounting/Laws.antt =====
-- Accounting over any settlement.
use favor_x.Base.{
  ℕ, ◌≡◌, ◌≢◌, refl, sym, ap, false, Option, none, some, List, [], ◌∷◌, ◌++◌, arith, if◌then◌else◌,
  append-nil, Option-cases, Bool-cases, ◌⊎◌, inl, inr,
}
use favor_x.Base.Bytes.{bytes_eq, bytes_eq_iff}
use favor_x.Base.Map.{Map, lookup, lookup-insert, lookup-insert_self}
use favor_x.Base.Int.{ℤ, pos, ◌+ℤ◌, ◌-ℤ◌, ◌≤ℤ◌, leb_ℤ, ltb_ℤ, int_laws, -ℤ_parts}
use favor_x.Boson.{Address}
use favor_x.Settlement.Cheque.{Error, disconnect_threshold, Result, ok, err}
use favor_x.Settlement.Accounting.{
  Settlement, AccountingPeer, Accounting, with_peer, get_accounting_peer, reserve, credit, debit,
  notify_payment, settle, Event, reserved, credited, debited, notified, settles, step, run,
}

-- What a peer owes us, or we it, and its threshold.
abbrev un_paid_of : Option AccountingPeer → ℤ
un_paid_of none = pos 0
un_paid_of (some p) = p.un_paid_traffic

abbrev pub un_paid : Accounting → Address → ℤ
un_paid a peer = un_paid_of (lookup peer a.accounting_peers)

-- The peer q is on record, and its unpaid traffic is not negative.
pub record Owes (q : Address) (peers : Map AccountingPeer) : Type 0 where
  pub peer : AccountingPeer
  pub on_record : lookup q peers ≡ some peer
  pub owed : pos 0 ≤ℤ peer.un_paid_traffic

abbrev pub IsOwed : Address → Accounting → Type 0
IsOwed q a = Owes q a.accounting_peers

with_peer-IsOwed :
    (q : Address) (a : Accounting) (peer : Address) (p : AccountingPeer)
    → IsOwed q a
    → (peer ≡ q → pos 0 ≤ℤ p.un_paid_traffic)
    → IsOwed q (with_peer a peer p)
with_peer-IsOwed q a peer p v h = elim (Bool-cases (bytes_eq peer q)) [
  | inl same ↦ record {
    peer = p;
    on_record = rw (lookup-insert peer q p a.accounting_peers, same) refl;
    owed = h ((bytes_eq_iff peer q).0 same);
  }
  | inr other ↦ record {
    peer = v.peer;
    on_record = rw (lookup-insert peer q p a.accounting_peers, other) v.on_record;
    owed = v.owed;
  }
]

add_nonneg : (x : ℤ) (n : ℕ) → pos 0 ≤ℤ x → pos 0 ≤ℤ x +ℤ pos n
add_nonneg x n h = omega int_laws

sub_nonneg : (x y : ℤ) → ltb_ℤ x y ≡ false → pos 0 ≤ℤ x -ℤ y
sub_nonneg x y h = ground (arith, -ℤ_parts x y)

-- The unpaid traffic of a record that was returned.
abbrev un_paid_or : AccountingPeer → Result AccountingPeer → ℤ
un_paid_or d (ok p) = p.un_paid_traffic
un_paid_or d (err e) = d.un_paid_traffic

Result-cases {ℓ} :
    {A : Type ℓ} (r : Result A) → ((x : A) × (r ≡ ok x)) ⊎ ((e : Error) × (r ≡ err e))
Result-cases (ok x) = inl (x, refl)
Result-cases (err e) = inr (e, refl)

module _ {S : Type 0} (settlement : Settlement S) where
  -- The record that getAccountingPeer returns.
  get_accounting_peer-IsOwed :
      (q : Address) (a : Accounting) (s : S) (peer : Address)
      → IsOwed q a
      → let (a', s', r) = get_accounting_peer settlement a s peer in
        IsOwed q a' × ((p : AccountingPeer) → r ≡ ok p → peer ≡ q → pos 0 ≤ℤ p.un_paid_traffic)
  unfolding get_accounting_peer
  get_accounting_peer-IsOwed q a s peer v = elim (Option-cases (lookup peer a.accounting_peers)) [
    | inr (p, h) ↦
        rw (h, get_accounting_peer)
          (
            v,
            λ x e same. ground (
              arith,
              h,
              ap (un_paid_or p) e,
              ap (λ y. lookup y a.accounting_peers) same,
              v.on_record,
              v.owed,
            ),
          )
    | inl h ↦
        let absent : peer ≢ q =
          λ e. ground (arith, h, v.on_record, ap (λ y. lookup y a.accounting_peers) e) in
        elim (Result-cases (settlement.retrieve_traffic s peer).1) [
          | inr (x, e) ↦ rw (h, get_accounting_peer, e) (v, λ p f same. absurd (absent same))
          | inl (x, e) ↦
              rw (h, get_accounting_peer, e)
                (
                  with_peer-IsOwed q a peer _ v (λ same. absurd (absent same)),
                  λ p f same. absurd (absent same),
                )
        ]
  ]

  -- What a call leaves of a property of the records.
  module _ (Q : Map AccountingPeer → Type 0) where
    credit_keeps :
        (a : Accounting) (s : S) (peer : Address) (traffic : ℕ)
        → let (a', s', r) = get_accounting_peer settlement a s peer in
          Q a'.accounting_peers
          → ((p : AccountingPeer)
              → r ≡ ok p
              → Q
                  (with_peer a' peer (record p {
                    un_paid_traffic = p.un_paid_traffic +ℤ pos traffic;
                  })).accounting_peers)
          → Q (credit settlement a s peer traffic).0.accounting_peers
    unfolding credit
    credit_keeps a s peer traffic w k =
        elim (Result-cases (get_accounting_peer settlement a s peer).2) [
          | inr (x, e) ↦ rw (e, credit) w
          | inl (p, e) ↦ let o = k p e in ground (arith, o, e)
        ]

    notify_keeps :
        (a : Accounting) (s : S) (peer : Address) (traffic : ℤ)
        → let (a', s', r) = get_accounting_peer settlement a s peer in
          Q a'.accounting_peers
          → ((p : AccountingPeer) (x : ℤ)
              → r ≡ ok p
              → pos 0 ≤ℤ x
              → Q (with_peer a' peer (record p { un_paid_traffic = x })).accounting_peers)
          → Q (notify_payment settlement a s peer traffic).0.accounting_peers
    unfolding notify_payment
    notify_keeps a s peer traffic w k =
        elim (Result-cases (get_accounting_peer settlement a s peer).2) [
          | inr (x, e) ↦ rw (e, notify_payment) w
          | inl (p, e) ↦
              let zeroed = k p (pos 0) e (omega arith) in
              elim (Bool-cases (ltb_ℤ p.un_paid_traffic traffic)) [
                | inl l ↦ ground (arith, zeroed, w, e, l)
                | inr l ↦
                    let o = k p (p.un_paid_traffic -ℤ traffic) e (sub_nonneg _ _ l) in
                    ground (arith, o, w, e, l)
              ]
        ]

    reserve_keeps :
        (a : Accounting) (s : S) (peer : Address) (traffic : ℕ)
        → Q (get_accounting_peer settlement a s peer).0.accounting_peers
        → Q (reserve settlement a s peer traffic).0.accounting_peers
    unfolding reserve
    reserve_keeps a s peer traffic w = ground (arith, w)

    debit_keeps :
        (a : Accounting) (s : S) (peer : Address) (traffic : ℕ)
        → Q (get_accounting_peer settlement a s peer).0.accounting_peers
        → Q (debit settlement a s peer traffic).0.accounting_peers
    unfolding debit
    debit_keeps a s peer traffic w = ground (arith, w)

    settle_keeps :
        (a : Accounting) (s : S)
        → Q a.accounting_peers
        → Q (settle settlement a s).0.accounting_peers
    unfolding settle
    settle_keeps a s w = ground (arith, w)

  step-IsOwed :
      (q : Address) (a : Accounting) (s : S) (e : Event)
      → IsOwed q a
      → IsOwed q (step settlement a s e).0
  unfolding step
  step-IsOwed q a s (reserved peer traffic) v =
      reserve_keeps (Owes q) a s peer traffic (get_accounting_peer-IsOwed q a s peer v).0
  step-IsOwed q a s (credited peer traffic) v =
      let (w, k) = get_accounting_peer-IsOwed q a s peer v in
      credit_keeps (Owes q) a s peer traffic w (λ p e.
        with_peer-IsOwed q (get_accounting_peer settlement a s peer).0 peer
          (record p { un_paid_traffic = p.un_paid_traffic +ℤ pos traffic }) w
          (λ same. add_nonneg _ traffic (k p e same)))
  step-IsOwed q a s (debited peer traffic) v =
      debit_keeps (Owes q) a s peer traffic (get_accounting_peer-IsOwed q a s peer v).0
  step-IsOwed q a s (notified peer traffic) v =
      let w = (get_accounting_peer-IsOwed q a s peer v).0 in
      notify_keeps (Owes q) a s peer traffic w (λ p x e h.
        with_peer-IsOwed q (get_accounting_peer settlement a s peer).0 peer
          (record p { un_paid_traffic = x }) w (λ same. h))
  step-IsOwed q a s settles v = settle_keeps (Owes q) a s v

  -- Over any settlement: a peer that is on record with an unpaid traffic that is not negative stays on
  -- record, and no sequence of calls, for it and for others, makes its unpaid traffic negative:
  -- payments of more than is unpaid are cut off.
  pub run-IsOwed :
      (q : Address) (a : Accounting) (s : S) (es : List Event)
      → IsOwed q a
      → IsOwed q (run settlement a s es).0
  unfolding run
  run-IsOwed q a s [] v = v
  run-IsOwed q a s (e ∷ es) v =
      run-IsOwed q (step settlement a s e).0 (step settlement a s e).1 es (step-IsOwed q a s e v)

  pub known :
      (a : Accounting) (s : S) (peer : Address) (p : AccountingPeer)
      → lookup peer a.accounting_peers ≡ some p
      → get_accounting_peer settlement a s peer ≡ (a, s, ok p)
  unfolding get_accounting_peer
  known a s peer p h = rw (h, get_accounting_peer) refl

  credit-credited :
      (a : Accounting) (s : S) (peer : Address) (traffic : ℕ) (p : AccountingPeer)
      → lookup peer a.accounting_peers ≡ some p
      → (settlement.put_retrieve_traffic s peer (pos traffic)).1 ≡ none
      → credit settlement a s peer traffic ≡ (
          let un_paid' = p.un_paid_traffic +ℤ pos traffic in
          let a' = with_peer a peer (record p { un_paid_traffic = un_paid' }) in
          let s' = (settlement.put_retrieve_traffic s peer (pos traffic)).0 in
          if leb_ℤ p.payment_threshold un_paid'
          then (
            record a' {
              pay_chan =
                  a.pay_chan
                  ++ record { peer = peer; payment_threshold = p.payment_threshold } ∷ [];
            },
            s',
            none,
          )
          else (a', s', none))
  unfolding credit
  credit-credited a s peer traffic p h e =
      let k = known a s peer p h in rw (credit, k, k, e, k) refl

  -- Credit of a peer on record, by a settlement that takes the traffic: the unpaid traffic grows by it, and
  -- a payment is queued exactly if it has then reached the peer's threshold.
  pub credit_lem :
      (a : Accounting) (s : S) (peer : Address) (traffic : ℕ) (p : AccountingPeer)
      → lookup peer a.accounting_peers ≡ some p
      → (settlement.put_retrieve_traffic s peer (pos traffic)).1 ≡ none
      → let (a', s', e) = credit settlement a s peer traffic in
        (e ≡ none)
        × (un_paid a' peer ≡ un_paid a peer +ℤ pos traffic)
        × (a'.pay_chan
            ≡ a.pay_chan
              ++ (if leb_ℤ p.payment_threshold (un_paid a' peer)
                  then record { peer = peer; payment_threshold = p.payment_threshold } ∷ []
                  else []))
  credit_lem a s peer traffic p h e =
      let k =
        lookup-insert_self peer (record p { un_paid_traffic = p.un_paid_traffic +ℤ pos traffic })
          a.accounting_peers in
      elim (Bool-cases (leb_ℤ p.payment_threshold (p.un_paid_traffic +ℤ pos traffic))) [
        | inl l ↦ rw (credit-credited a s peer traffic p h e, l, k, h, l) (refl, refl, refl)
        | inr l ↦
            rw (credit-credited a s peer traffic p h e, l, k, h, l)
              (refl, refl, sym (append-nil a.pay_chan))
      ]

  -- Debit of a peer on record, for which the settlement has a record too.
  pub debit-known :
      (a : Accounting) (s : S) (peer : Address) (traffic : ℕ) (p : AccountingPeer) (x : ℤ)
      → lookup peer a.accounting_peers ≡ some p
      → settlement.transfer_traffic s peer ≡ (s, ok x)
      → debit settlement a s peer traffic ≡ (
          if leb_ℤ a.payment_tolerance x
          then (a, s, some disconnect_threshold)
          else (let (s', e) = settlement.put_transfer_traffic s peer (pos traffic) in (a, s', e)))
  unfolding debit
  debit-known a s peer traffic p x h e =
      let k = known a s peer p h in rw (debit, k, k, e, k, e) refl
