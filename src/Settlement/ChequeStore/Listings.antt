-- ===== src/Settlement/ChequeStore/Listings.antt =====
-- The listings of the cheque store: every address once, with the cheque that is stored for it.
use favor_x.Base.{
  ◌≡◌, refl, Option, none, some, [], ◌∷◌, arith, if◌then◌else◌, ◌∙◌, Option-cases, inl, inr,
}
use favor_x.Base.Bytes.{bytes_eq, bytes_eq_iff}
use favor_x.Base.Map.{Map, lookup, lookup-insert}
use favor_x.Settlement.Cheque.{ChainAddress, Result, ok}
use favor_x.Settlement.ChequeStore.{
  ChequeStore, collect, collect_one, last_received_cheques, last_send_cheques,
}

-- The first of two, and the second if there is none.
abbrev or_else {ℓ} : {A : Type ℓ} → Option A → Option A → Option A
or_else none o = o
or_else (some a) o = some a

abbrev if_some {ℓ κ} : {A : Type ℓ} {B : Type κ} → Option A → Option B → Option B
if_some none o = none
if_some (some a) o = o

lookup-collect_one {ℓ} :
    {A : Type ℓ} (last : ChainAddress → Option A) (b a : ChainAddress) (result : Map A)
    → lookup a (collect_one last b result)
      ≡ or_else (lookup a result) (if bytes_eq b a then last b else none)
unfolding collect_one
lookup-collect_one last b a result = elim (Option-cases (lookup b result)) [
  | inr (v, e) ↦ rw (e, collect_one) (ground (arith, bytes_eq_iff b a, e))
  | inl e ↦ elim (Option-cases (last b)) [
    | inl f ↦ rw (e, f, collect_one) (ground (arith, f))
    | inr (c, f) ↦
        rw (e, f, collect_one) (ground (arith, f, e, lookup-insert b a c result, bytes_eq_iff b a))
  ]
]

lookup-collect {ℓ} :
    {A : Type ℓ} (last : ChainAddress → Option A) (entries result : Map A) (a : ChainAddress)
    → lookup a (collect last entries result)
      ≡ or_else (lookup a result) (if_some (lookup a entries) (last a))
unfolding collect lookup
lookup-collect last [] result a = ground arith
lookup-collect last ((b, v) ∷ entries) result a =
    lookup-collect last entries (collect_one last b result) a
    ∙ ground (arith, lookup-collect_one last b a result, bytes_eq_iff b a)

if_some_self {ℓ} : {A : Type ℓ} (o : Option A) → if_some o o ≡ o
if_some_self none = refl
if_some_self (some a) = refl

-- What a successful listing holds for each address.
abbrev pub Lists {ℓ} : {A : Type ℓ} → Result (Map A) → Map A → Type ℓ
Lists {A} r m = (all : Map A) × (r ≡ ok all) × ((a : ChainAddress) → lookup a all ≡ lookup a m)

-- When the state store works, LastReceivedCheques and LastSendCheques hold for every address the
-- cheque that is stored for it, and no other address.
last_cheques-Lists :
    (s : ChequeStore)
    → Lists (last_received_cheques s none) s.last_received
      × Lists (last_send_cheques s none) s.last_send
unfolding last_received_cheques last_send_cheques
last_cheques-Lists s = (
  (
    _,
    refl,
    λ a.
        lookup-collect (λ b. lookup b s.last_received) s.last_received [] a
        ∙ unfold lookup in if_some_self _,
  ),
  (
    _,
    refl,
    λ a.
        lookup-collect (λ b. lookup b s.last_send) s.last_send [] a
        ∙ unfold lookup in if_some_self _,
  ),
)
