-- ===== src/Settlement/ChequeStore/Tests.antt =====
-- A history of cheques from one peer, and the theorems at it.
use favor_x.Base.{ℕ, ◌≡◌, refl, none, some, List, [], ◌∷◌}
use favor_x.Base.Bytes.{bytes_eq}
use favor_x.Base.Map.{lookup, insert}
use favor_x.Base.Int.{pos, ◌+ℤ◌, ◌-ℤ◌}
use favor_x.Settlement.Cheque.{ChainAddress, SignedCheque, external, cheque_not_increasing, ok, err}
use favor_x.Settlement.ChequeStore.{
  ChequeStore, empty, Recover, store_increase, receive_cheque, read, write,
}
use favor_x.Settlement.ChequeStore.Laws.{IsAcceptable, payout, receive_cheque-ok}
use favor_x.Settlement.ChequeStore.Earnings.{Call, run, earned, payout-run}

abbrev us : ChainAddress
us = 1 ∷ []

abbrev peer : ChainAddress
peer = 2 ∷ []

-- Every signature is the beneficiary's.
abbrev recover : Recover
recover c = ok c.beneficiary

abbrev cheque : ℕ → SignedCheque
cheque n = record {
  cheque = record { recipient = us; beneficiary = peer; cumulative_payout = pos n };
  signature = some [];
}

-- One that the store fails to write, and one that does not increase.
abbrev calls : List Call
calls =
    record { cheque = cheque 3; reads = none; writes = none }
    ∷ record { cheque = cheque 9; reads = none; writes = some (external 1) }
    ∷ record { cheque = cheque 2; reads = none; writes = none }
    ∷ record { cheque = cheque 5; reads = none; writes = none }
    ∷ []

abbrev after_three : ChequeStore
after_three = record empty { last_received = (peer, cheque 3) ∷ [] }

calls-run : run us recover empty calls ≡ record empty { last_received = (peer, cheque 5) ∷ [] }
unfolding run receive_cheque store_increase read write bytes_eq lookup insert ◌-ℤ◌
calls-run = refl

payout-run_example :
    payout (run us recover empty calls) peer
    ≡ payout empty peer +ℤ earned us recover peer empty calls
payout-run_example = payout-run us recover peer empty calls

taken :
    receive_cheque us recover after_three (cheque 5) none none
    ≡ (record empty { last_received = (peer, cheque 5) ∷ [] }, ok (pos 2))
unfolding receive_cheque store_increase read write bytes_eq lookup insert ◌-ℤ◌
taken = refl

receive_cheque-ok_example :
    IsAcceptable us recover after_three (cheque 5)
    × (pos 2 ≡ pos 5 -ℤ payout after_three peer)
    × (record empty { last_received = (peer, cheque 5) ∷ [] }
        ≡ record after_three { last_received = insert peer (cheque 5) after_three.last_received })
receive_cheque-ok_example = receive_cheque-ok us recover after_three (cheque 5) none none taken

refused :
    receive_cheque us recover after_three (cheque 2) none none
    ≡ (after_three, err cheque_not_increasing)
unfolding receive_cheque store_increase read write bytes_eq lookup insert ◌-ℤ◌
refused = refl
