-- ===== src/Settlement/ChequeStore/Laws.antt =====
-- ReceiveCheque branch by branch, and the listings against the stored values.
use favor_x.Base.{◌≡◌, refl, Option, none, some, arith, if◌then◌else◌, inl, inr, ◌⊎◌}
use favor_x.Base.Bytes.{bytes_eq, bytes_eq_iff}
use favor_x.Base.Map.{lookup, insert}
use favor_x.Base.Int.{ℤ, pos, ◌-ℤ◌, ◌<ℤ◌, -ℤ_parts}
use favor_x.Settlement.Cheque.{ChainAddress, SignedCheque, Error, Result, ok, err}
use favor_x.Settlement.ChequeStore.{
  ChequeStore, Answer, read, write, Recover, store_increase, receive_cheque,
}

-- The payout of the last cheque of a beneficiary, 0 if there is none.
abbrev payout_of : Option SignedCheque → ℤ
payout_of none = pos 0
payout_of (some c) = c.cumulative_payout

abbrev pub payout : ChequeStore → ChainAddress → ℤ
payout s b = payout_of (lookup b s.last_received)

-- What it takes for a cheque to be accepted, besides a store that works.
pub record IsAcceptable (recipient : ChainAddress) (recover : Recover) (s : ChequeStore)
    (c : SignedCheque) : Type 0 where
  pub to_us : c.recipient ≡ recipient
  pub signed : recover c ≡ ok c.beneficiary
  pub increases : payout s c.beneficiary <ℤ c.cumulative_payout

Result-cases :
    (r : Result ChainAddress) → ((a : ChainAddress) × (r ≡ ok a)) ⊎ ((e : Error) × (r ≡ err e))
Result-cases (ok a) = inl (a, refl)
Result-cases (err e) = inr (e, refl)

module _ (recipient : ChainAddress) (recover : Recover) (s : ChequeStore) (c : SignedCheque)
    (reads writes : Answer) where
  -- ReceiveCheque
  abbrev received : ChequeStore × Result ℤ
  received = receive_cheque recipient recover s c reads writes

  signed : {t : ChequeStore} {amount : ℤ} → received ≡ (t, ok amount) → recover c ≡ ok c.beneficiary
  unfolding receive_cheque
  signed h = elim (Result-cases (recover c)) [
    | inl (issuer, e) ↦ ground (arith, bytes_eq_iff issuer c.beneficiary)
    | inr (x, e) ↦ ground arith
  ]

  -- A cheque that ReceiveCheque takes was acceptable, the amount returned is what it adds to the last
  -- payout of its beneficiary, and the store changes in the last cheque of that beneficiary only.
  pub receive_cheque-ok :
      {t : ChequeStore} {amount : ℤ}
      → received ≡ (t, ok amount)
      → IsAcceptable recipient recover s c
        × (amount ≡ c.cumulative_payout -ℤ payout s c.beneficiary)
        × (t ≡ record s { last_received = insert c.beneficiary c s.last_received })
  unfolding receive_cheque store_increase read write
  receive_cheque-ok h = (
    record {
      to_us = ground (arith, bytes_eq_iff c.recipient recipient);
      signed = signed h;
      increases = ground (arith, -ℤ_parts c.cumulative_payout (payout s c.beneficiary));
    },
    ground arith,
    ground arith,
  )

  -- An error leaves the store as it was.
  pub receive_cheque-err : {t : ChequeStore} {e : Error} → received ≡ (t, err e) → t ≡ s
  unfolding receive_cheque store_increase write
  receive_cheque-err h = ground arith

  -- With a store that works, an acceptable cheque is taken.
  pub receive_cheque_accepts :
      reads ≡ none
      → writes ≡ none
      → IsAcceptable recipient recover s c
      → received.1 ≡ ok (c.cumulative_payout -ℤ payout s c.beneficiary)
  unfolding receive_cheque store_increase read
  receive_cheque_accepts p q a = ground (
    arith,
    a.to_us,
    a.signed,
    bytes_eq_iff c.recipient recipient,
    bytes_eq_iff c.beneficiary c.beneficiary,
    -ℤ_parts c.cumulative_payout (payout s c.beneficiary),
  )

-- A cheque changes the last payout of its own beneficiary by the amount that is returned, and no
-- other payout, whatever the outcome.
abbrev pub credit : ChequeStore × Result ℤ → SignedCheque → ChainAddress → ℤ
credit (t, ok amount) c b = if bytes_eq c.beneficiary b then amount else pos 0
credit (t, err e) c b = pos 0
