-- ===== src/Settlement/Cheque.antt =====
-- pkg/settlement/traffic/cheque/cheque.go: cheques, and the errors of the settlement code. A chain
-- address (`common.Address`) is a byte string. A `big.Int` is an integer.
use favor_x.Base.{ℕ, Option}
use favor_x.Base.Bytes.{Bytes}
use favor_x.Base.Int.{ℤ}

abbrev pub ChainAddress : Type 0
ChainAddress = Bytes

pub record Cheque : Type 0 where
  pub recipient : ChainAddress
  pub beneficiary : ChainAddress
  pub cumulative_payout : ℤ

-- The signature is `none` where the Go slice is nil.
pub record SignedCheque : Type 0 where
  pub cheque : Cheque
  pub open cheque use *
  pub signature : Option Bytes

-- The errors that the settlement code makes itself, and those that it passes on from the state
-- store, the signer, the chain or the network, told apart by a number.
pub data Error : Type 0 where
  no_cheque cheque_not_increasing cheque_invalid wrong_beneficiary : Error
  unknown_beneficiary insufficient_funds account_information overlay_exists wrong_receiver : Error
  low_available disconnect_threshold : Error
  external : ℕ → Error

pub data Result {ℓ} (A : Type ℓ) : Type ℓ where
  ok : A → Result A
  err : Error → Result A
