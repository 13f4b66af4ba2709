-- ===== src/Settlement/ChequeStore.antt =====
-- pkg/settlement/traffic/cheque/chequestore.go: the store of cheques and traffic counters. The keys
-- have one prefix for each kind of value, so each kind is a map of its own, keyed by the chain address.
-- Values are stored as JSON, so as copies. How the state store answers a call is an argument: `none` if
-- it works, or its error (other than storage.ErrNotFound, which the maps decide).
pub mod Laws
pub mod Earnings
pub mod Listings
pub mod Tests
use favor_x.Base.{ℕ, Bool, true, false, not, Option, none, some, List, [], ◌∷◌, if◌then◌else◌}
use favor_x.Base.Bytes.{Bytes, bytes_eq}
use favor_x.Base.Map.{Map, lookup, insert}
use favor_x.Base.Int.{ℤ, pos, ◌-ℤ◌, leb_ℤ}
use favor_x.Settlement.Cheque.{
  ChainAddress, Cheque, SignedCheque, Error, no_cheque, cheque_not_increasing, cheque_invalid,
  wrong_beneficiary, Result, ok, err,
}

pub record ChequeStore : Type 0 where
  pub last_received : Map SignedCheque
  pub last_send : Map Cheque
  pub retrieved : Map ℤ
  pub transferred : Map ℤ
  pub chain_retrieved : Map ℤ
  pub chain_transferred : Map ℤ

abbrev pub empty : ChequeStore
empty = record {
  last_received = [];
  last_send = [];
  retrieved = [];
  transferred = [];
  chain_retrieved = [];
  chain_transferred = [];
}

-- An error of the state store, if the call fails.
abbrev pub Answer : Type 0
Answer = Option Error

-- store.Get of a key that may be missing: a value, storage.ErrNotFound, or another error.
pub data Found {ℓ} (A : Type ℓ) : Type ℓ where
  found : A → Found A
  not_found : Found A
  failed : Error → Found A

unfoldable pub read {ℓ} : {A : Type ℓ} → Map A → ChainAddress → Answer → Found A
read m k (some e) = failed e
read m k none = elim (lookup k m) [ none ↦ not_found | some v ↦ found v ]

unfoldable pub write {ℓ} : {A : Type ℓ} → Map A → ChainAddress → A → Answer → Map A
write m k v (some e) = m
write m k v none = insert k v m

-- LastReceivedCheque and LastSendCheque: `err no_cheque` is ErrNoCheque, with which the code also
-- returns a cheque of payout 0 and zero addresses.
abbrev pub or_no_cheque {ℓ} : {A : Type ℓ} → Found A → Result A
or_no_cheque (found c) = ok c
or_no_cheque not_found = err no_cheque
or_no_cheque (failed e) = err e

unfoldable pub last_received_cheque : ChequeStore → ChainAddress → Answer → Result SignedCheque
last_received_cheque s a answer = or_no_cheque (read s.last_received a answer)

unfoldable pub last_send_cheque : ChequeStore → ChainAddress → Answer → Result Cheque
last_send_cheque s a answer = or_no_cheque (read s.last_send a answer)

-- recoverChequeFunc, with the chain's number: who signed a cheque.
abbrev pub Recover : Type 0
Recover = SignedCheque → Result ChainAddress

-- The payout of the last cheque, 0 if there is none.
abbrev pub last_payout : Found SignedCheque → Result ℤ
last_payout (found c) = ok c.cumulative_payout
last_payout not_found = ok (pos 0)
last_payout (failed e) = err e

-- The part of ReceiveCheque that holds the lock.
unfoldable pub store_increase :
    ChequeStore → SignedCheque → Answer → Result ℤ → ChequeStore × Result ℤ
store_increase s cheque writes (err e) = (s, err e)
store_increase s cheque writes (ok last) =
    let amount = cheque.cumulative_payout -ℤ last in
    if leb_ℤ amount (pos 0) then (s, err cheque_not_increasing) else (
      record s { last_received = write s.last_received cheque.beneficiary cheque writes },
      elim writes [ none ↦ ok amount | some e ↦ err e ],
    )

-- ReceiveCheque: `reads` and `writes` are how the store answers its Get and its Put.
unfoldable pub receive_cheque :
    ChainAddress → Recover → ChequeStore → SignedCheque → Answer → Answer → ChequeStore × Result ℤ
receive_cheque recipient recover s cheque reads writes =
    if not (bytes_eq cheque.recipient recipient)
    then (s, err wrong_beneficiary)
    else elim (recover cheque) [
      | err e ↦ (s, err e)
      | ok issuer ↦
          if not (bytes_eq issuer cheque.beneficiary)
          then (s, err cheque_invalid)
          else store_increase s cheque writes
              (last_payout (read s.last_received cheque.beneficiary reads))
    ]

unfoldable pub put_send_cheque : ChequeStore → Cheque → ChainAddress → Answer → ChequeStore × Answer
put_send_cheque s cheque a answer =
    (record s { last_send = write s.last_send a cheque answer }, answer)

unfoldable pub put_received_cheques :
    ChequeStore → ChainAddress → SignedCheque → Answer → ChequeStore × Answer
put_received_cheques s a cheque answer =
    (record s { last_received = write s.last_received a cheque answer }, answer)

unfoldable pub put_retrieve_traffic : ChequeStore → ChainAddress → ℤ → Answer → ChequeStore × Answer
put_retrieve_traffic s a traffic answer =
    (record s { retrieved = write s.retrieved a traffic answer }, answer)

unfoldable pub put_transfer_traffic : ChequeStore → ChainAddress → ℤ → Answer → ChequeStore × Answer
put_transfer_traffic s a traffic answer =
    (record s { transferred = write s.transferred a traffic answer }, answer)

unfoldable pub put_chain_retrieve_traffic :
    ChequeStore → ChainAddress → ℤ → Answer → ChequeStore × Answer
put_chain_retrieve_traffic s a traffic answer =
    (record s { chain_retrieved = write s.chain_retrieved a traffic answer }, answer)

unfoldable pub put_chain_transfer_traffic :
    ChequeStore → ChainAddress → ℤ → Answer → ChequeStore × Answer
put_chain_transfer_traffic s a traffic answer =
    (record s { chain_transferred = write s.chain_transferred a traffic answer }, answer)

-- A counter that is missing reads as 0.
abbrev pub or_zero : Found ℤ → Result ℤ
or_zero (found n) = ok n
or_zero not_found = ok (pos 0)
or_zero (failed e) = err e

unfoldable pub get_retrieve_traffic : ChequeStore → ChainAddress → Answer → Result ℤ
get_retrieve_traffic s a answer = or_zero (read s.retrieved a answer)

unfoldable pub get_transfer_traffic : ChequeStore → ChainAddress → Answer → Result ℤ
get_transfer_traffic s a answer = or_zero (read s.transferred a answer)

unfoldable pub get_chain_retrieve_traffic : ChequeStore → ChainAddress → Answer → Result ℤ
get_chain_retrieve_traffic s a answer = or_zero (read s.chain_retrieved a answer)

unfoldable pub get_chain_transfer_traffic : ChequeStore → ChainAddress → Answer → Result ℤ
get_chain_transfer_traffic s a answer = or_zero (read s.chain_transferred a answer)

-- The loops of LastReceivedCheques and LastSendCheques over the keys of one prefix: an address that is
-- new to the result gets the cheque that is looked up for it.
unfoldable pub collect_one {ℓ} :
    {A : Type ℓ} → (ChainAddress → Option A) → ChainAddress → Map A → Map A
collect_one last a result = elim (lookup a result) [
  | some _ ↦ result
  | none ↦ elim (last a) [ none ↦ result | some c ↦ insert a c result ]
]

unfoldable pub collect {ℓ} : {A : Type ℓ} → (ChainAddress → Option A) → Map A → Map A → Map A
collect last [] result = result
collect last ((a, _) ∷ entries) result = collect last entries (collect_one last a result)

unfoldable pub last_received_cheques : ChequeStore → Answer → Result (Map SignedCheque)
last_received_cheques s (some e) = err e
last_received_cheques s none = ok (collect (λ a. lookup a s.last_received) s.last_received [])

unfoldable pub last_send_cheques : ChequeStore → Answer → Result (Map Cheque)
last_send_cheques s (some e) = err e
last_send_cheques s none = ok (collect (λ a. lookup a s.last_send) s.last_send [])

-- The keys of a map, added to a set.
unfoldable pub add_keys {ℓ} : {A : Type ℓ} → Map A → Map (Unit {0}) → Map (Unit {0})
add_keys [] result = result
add_keys ((a, _) ∷ entries) result = add_keys entries (insert a tt result)

unfoldable pub get_all_retrieve_transfer_addresses :
    ChequeStore → Answer → Answer → Result (Map (Unit {0}))
get_all_retrieve_transfer_addresses s (some e) second = err e
get_all_retrieve_transfer_addresses s none (some e) = err e
get_all_retrieve_transfer_addresses s none none =
    ok (add_keys s.transferred (add_keys s.retrieved []))
