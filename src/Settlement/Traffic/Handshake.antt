-- ===== src/Settlement/Traffic/Handshake.antt =====
-- Handshake of traffic.go, and the pair of maps of addressbook.go that it fills. No lock is held over a
-- Handshake: what others do to the service between its parts, other handshakes and payments, is an
-- argument.
pub mod Binding
pub mod Restoring
pub mod Races
pub mod Tests
use favor_x.Base.{ℕ, Bool, true, false, not, ◌&&◌, Option, none, some, List, [], ◌∷◌, if◌then◌else◌}
use favor_x.Base.Bytes.{Bytes, bytes_eq}
use favor_x.Base.Map.{Map, lookup, insert}
use favor_x.Base.Int.{ℤ, pos, ◌<ℤ◌, ltb_ℤ}
use favor_x.Boson.{Address}
use favor_x.Settlement.Cheque.{
  ChainAddress, Cheque, SignedCheque, Error, cheque_invalid, overlay_exists, wrong_receiver, Result,
  ok, err,
}
use favor_x.Settlement.ChequeStore
use favor_x.Settlement.ChequeStore.{Answer, Recover, Found, found, not_found, failed}
use favor_x.Settlement.Heap.{Ref, Heap, alloc}
use favor_x.Settlement.Traffic.{
  Traffic, Service, value, get_traffic, fresh, beneficiary, put_send_cheque, update_peer_balance,
}

-- Where others can come in between: before the look for the peer of the claimed address, before the
-- first map is set, before the second one, before the balance is updated, before the last cheque sent
-- is read, and before the restored cheque is stored.
pub data Gap : Type 0 where
  looked free halfway bound checked compared : Gap

pub record HandshakeAnswers : Type 0 where
  pub first_put : Answer
  pub second_put : Answer
  pub balance : Result ℤ
  pub reads : Answer
  pub writes : Answer

abbrev is_signed : SignedCheque → Bool
is_signed c = elim c.signature [ none ↦ false | some _ ↦ true ]

-- The payout of the last cheque sent, 0 if there is none.
abbrev sent_payout : Found Cheque → Result ℤ
sent_payout (found c) = ok c.cumulative_payout
sent_payout not_found = ok (pos 0)
sent_payout (failed e) = err e

module _ (others : Gap → Service → Service) where
  -- PutBeneficiary: both maps are set before the state store is asked to write.
  unfoldable pub put_beneficiary :
      Service → Address → ChainAddress → Answer → Answer → Service × Answer
  put_beneficiary s peer a first second =
      let s' = others halfway (record s { beneficiaries = insert peer a s.beneficiaries }) in
      (
        record s' { overlays = insert a peer s'.overlays },
        elim first [ some e ↦ some e | none ↦ second ],
      )

  -- The first part of Handshake: a new peer is bound to the address that it claims.
  unfoldable pub bind :
      Service → Address → ChainAddress → SignedCheque → HandshakeAnswers → Service × Answer
  bind s peer recipient c r = elim (beneficiary s peer) [
    | none ↦
        let s' = others looked s in
        elim (lookup recipient s'.overlays) [
          | some _ ↦ (s', some overlay_exists)
          | none ↦ put_beneficiary (others free s') peer recipient r.first_put r.second_put
        ]
    | some local ↦
        if is_signed c && not (bytes_eq c.recipient local)
        then (s, some wrong_receiver)
        else (s, none)
  ]

  -- The last part, for a cheque that this node has signed: a payout above the last one is restored.
  unfoldable pub restore :
      Service → ChainAddress → SignedCheque → HandshakeAnswers → Service × Answer
  restore s recipient c r =
      elim (sent_payout (ChequeStore.read s.cheque_store.last_send recipient r.reads)) [
        | err e ↦ (s, some e)
        | ok last ↦
            if ltb_ℤ last c.cumulative_payout
            then (let (s', t) = get_traffic (others compared s) recipient in
                let (s'', p) = fresh s' c.cumulative_payout in
                put_send_cheque s'' c.cheque recipient t p r.writes)
            else (s, none)
      ]

  -- The signature of the cheque.
  unfoldable pub verify :
      Recover → Service → ChainAddress → SignedCheque → HandshakeAnswers → Service × Answer
  verify recover s recipient c r = elim c.signature [
    | none ↦ (s, none)
    | some _ ↦ elim (recover c) [
      | err e ↦ (s, some e)
      | ok user ↦
          if not (bytes_eq user s.chain_address)
          then (s, some cheque_invalid)
          else restore s recipient c r
    ]
  ]

  -- Handshake
  unfoldable pub handshake :
      Recover
      → Service
      → Address
      → ChainAddress
      → SignedCheque
      → HandshakeAnswers
      → Service × Answer
  handshake recover s peer recipient c r =
      let (s', e) = bind s peer recipient c r in
      elim e [
        | some x ↦ (s', some x)
        | none ↦
            let (s'', e') = update_peer_balance (others bound s') peer r.balance in
            elim e' [
              | some x ↦ (s'', some x)
              | none ↦ verify recover (others checked s'') recipient c r
            ]
      ]

-- Nothing comes in between.
abbrev pub alone : Gap → Service → Service
alone gap s = s
