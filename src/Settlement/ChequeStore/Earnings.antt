-- ===== src/Settlement/ChequeStore/Earnings.antt =====
-- What a history of received cheques earns.
use favor_x.Base.{
  ◌≡◌, refl, sym, ◌∙◌, ap, List, [], ◌∷◌, arith, if◌then◌else◌, Bool-cases, inl, inr,
}
use favor_x.Base.Bytes.{bytes_eq, bytes_eq_iff}
use favor_x.Base.Map.{insert, lookup-insert}
use favor_x.Base.Int.{ℤ, pos, ◌+ℤ◌, ◌-ℤ◌, ◌≤ℤ◌, int_laws}
use favor_x.Settlement.Cheque.{ChainAddress, SignedCheque, Result, ok, err}
use favor_x.Settlement.ChequeStore.{ChequeStore, Answer, Recover, receive_cheque}
use favor_x.Settlement.ChequeStore.Laws.{payout, credit, receive_cheque-ok, receive_cheque-err}

-- A call of ReceiveCheque: the cheque, and how the state store answers.
pub record Call : Type 0 where
  pub cheque : SignedCheque
  pub reads : Answer
  pub writes : Answer

add-sub : (x y : ℤ) → x +ℤ (y -ℤ x) ≡ y
add-sub x y = omega int_laws

add-zero : (x : ℤ) → x +ℤ pos 0 ≡ x
add-zero x = omega int_laws

le_trans_ℤ : (x y z : ℤ) → x ≤ℤ y → y ≤ℤ z → x ≤ℤ z
le_trans_ℤ x y z p q = omega arith

regroup : (x y z w : ℤ) → x ≡ y +ℤ z → x +ℤ w ≡ y +ℤ (z +ℤ w)
regroup x y z w p = rw p (omega int_laws)

payout-insert :
    (s : ChequeStore) (k : ChainAddress) (c : SignedCheque) (b : ChainAddress)
    → payout (record s { last_received = insert k c s.last_received }) b
      ≡ (if bytes_eq k b then c.cumulative_payout else payout s b)
payout-insert s k c b = ground (arith, lookup-insert k b c s.last_received)

module _ (recipient : ChainAddress) (recover : Recover) where
  abbrev pub receive : ChequeStore → Call → ChequeStore × Result ℤ
  receive s k = receive_cheque recipient recover s k.cheque k.reads k.writes

  -- The store after a history of calls.
  unfoldable pub run : ChequeStore → List Call → ChequeStore
  run s [] = s
  run s (k ∷ ks) = run (receive s k).0 ks

  -- The sum of the amounts that the calls returned for cheques of beneficiary b.
  unfoldable pub earned : ChainAddress → ChequeStore → List Call → ℤ
  earned b s [] = pos 0
  earned b s (k ∷ ks) = credit (receive s k) k.cheque b +ℤ earned b (receive s k).0 ks

  payout_step :
      (s : ChequeStore) (k : Call) (b : ChainAddress) (t : ChequeStore) (r : Result ℤ)
      → receive s k ≡ (t, r)
      → payout t b ≡ payout s b +ℤ credit (t, r) k.cheque b
  payout_step s k b t (err x) h =
      rw (receive_cheque-err recipient recover s k.cheque k.reads k.writes h) (sym (add-zero _))
  payout_step s k b t (ok amount) h =
      let (acc, e, f) = receive_cheque-ok recipient recover s k.cheque k.reads k.writes h in
      ap (λ u. payout u b) f
      ∙ payout-insert s k.cheque.beneficiary k.cheque b
      ∙ elim (Bool-cases (bytes_eq k.cheque.beneficiary b)) [
        | inl same ↦
            rw (same, e, (bytes_eq_iff k.cheque.beneficiary b).0 same)
              (sym (add-sub (payout s b) k.cheque.cumulative_payout))
        | inr other ↦ rw other (sym (add-zero _))
      ]

  step_mono :
      (s : ChequeStore) (k : Call) (b : ChainAddress) (t : ChequeStore) (r : Result ℤ)
      → receive s k ≡ (t, r)
      → payout s b ≤ℤ payout t b
  step_mono s k b t (err x) h =
      rw (receive_cheque-err recipient recover s k.cheque k.reads k.writes h) (omega arith)
  step_mono s k b t (ok amount) h =
      let (acc, e, f) = receive_cheque-ok recipient recover s k.cheque k.reads k.writes h in
      rw (f, payout-insert s k.cheque.beneficiary k.cheque b)
        (elim (Bool-cases (bytes_eq k.cheque.beneficiary b)) [
          | inl same ↦
              rw (same, ← (bytes_eq_iff k.cheque.beneficiary b).0 same)
                (omega (arith, acc.increases))
          | inr other ↦ rw other (omega arith)
        ])

  -- Whatever cheques come in and however the state store answers, what a beneficiary has earned us is
  -- the increase of its last payout: no cheque is credited twice and none that is credited is lost.
  pub payout-run :
      (b : ChainAddress) (s : ChequeStore) (ks : List Call)
      → payout (run s ks) b ≡ payout s b +ℤ earned b s ks
  unfolding run earned
  payout-run b s [] = sym (add-zero _)
  payout-run b s (k ∷ ks) =
      payout-run b (receive s k).0 ks
      ∙ regroup _ _ _ (earned b (receive s k).0 ks)
          (payout_step s k b (receive s k).0 (receive s k).1 refl)

  -- No history makes a last payout smaller.
  pub payout-mono :
      (b : ChainAddress) (s : ChequeStore) (ks : List Call) → payout s b ≤ℤ payout (run s ks) b
  unfolding run
  payout-mono b s [] = omega arith
  payout-mono b s (k ∷ ks) =
      le_trans_ℤ (payout s b) (payout (receive s k).0 b) _
        (step_mono s k b (receive s k).0 (receive s k).1 refl) (payout-mono b (receive s k).0 ks)
