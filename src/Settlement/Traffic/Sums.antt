-- ===== src/Settlement/Traffic/Sums.antt =====
-- How a write to one big.Int object moves the sums of AvailableBalance.
use favor_x.Base.{
  ℕ, zero, suc, ◌+◌, ◌≡◌, ◌≢◌, refl, ap, [], ◌∷◌, arith, ◌==◌, ==_iff, if◌then◌else◌, Bool-cases,
  inl, inr,
}
use favor_x.Base.Map.{Map}
use favor_x.Base.Int.{ℤ, pos, pos_part, neg_part, ◌+ℤ◌, ◌-ℤ◌, int_laws}
use favor_x.Settlement.Heap.{Ref, Heap, put}
use favor_x.Settlement.Traffic.{Traffic, Service, value, outstanding, available_balance}

-- n times d
unfoldable pub times : ℕ → ℤ → ℤ
times zero d = pos 0
times (suc n) d = d +ℤ times n d

abbrev uses : Ref → Ref → ℕ
uses p q = if p == q then 1 else 0

-- In how many records p is the amount on the chain, and the amount retrieved.
unfoldable pub chain_uses : Ref → Map Traffic → ℕ
chain_uses p [] = 0
chain_uses p ((_, t) ∷ peers) = uses p t.retrieve_chain + chain_uses p peers

unfoldable pub retrieve_uses : Ref → Map Traffic → ℕ
retrieve_uses p [] = 0
retrieve_uses p ((_, t) ∷ peers) = uses p t.retrieve + retrieve_uses p peers

-- The object at p raised by d.
abbrev pub raise : Heap → Ref → ℤ → Heap
raise h p d = put h p (h.cell p +ℤ d)

cell-raise : (h : Heap) (p q : Ref) (d : ℤ) → (raise h p d).cell q ≡ h.cell q +ℤ times (uses p q) d
unfolding times
cell-raise h p q d = elim (Bool-cases (p == q)) [
  | inl e ↦ rw (e, (==_iff p q).0 e) (omega int_laws)
  | inr e ↦ rw e (omega int_laws)
]

zero-add : (x : ℤ) → x ≡ pos 0 +ℤ x
zero-add x = omega int_laws

assoc : (x y z : ℤ) → x +ℤ (y +ℤ z) ≡ x +ℤ y +ℤ z
assoc x y z = omega int_laws

times-add : (m n : ℕ) (d : ℤ) → times (m + n) d ≡ times m d +ℤ times n d
unfolding times
times-add zero n d = let e : 0 + n ≡ n = omega arith in rw e (zero-add (times n d))
times-add (suc m) n d =
    let e : suc m + n ≡ suc (m + n) = omega arith in
    rw (e, times, times-add m n d) (assoc d (times m d) (times n d))

-- One record more in the sums.
sum_step :
    (c r u w o o' us ws : ℤ)
    → o' +ℤ us ≡ o +ℤ ws
    → c +ℤ w -ℤ (r +ℤ u) +ℤ o' +ℤ (u +ℤ us) ≡ c -ℤ r +ℤ o +ℤ (w +ℤ ws)
sum_step c r u w o o' us ws h = omega (int_laws, ap pos_part h, ap neg_part h)

outstanding-raise :
    (h : Heap) (p : Ref) (d : ℤ) (peers : Map Traffic)
    → outstanding (raise h p d) peers +ℤ times (retrieve_uses p peers) d
      ≡ outstanding h peers +ℤ times (chain_uses p peers) d
unfolding outstanding chain_uses retrieve_uses
outstanding-raise h p d [] = refl
outstanding-raise h p d ((a, t) ∷ peers) =
    rw
      (
        cell-raise h p t.retrieve_chain d,
        cell-raise h p t.retrieve d,
        times-add (uses p t.retrieve) (retrieve_uses p peers) d,
        times-add (uses p t.retrieve_chain) (chain_uses p peers) d,
      )
      (sum_step (h.cell t.retrieve_chain) (h.cell t.retrieve) (times (uses p t.retrieve) d)
        (times (uses p t.retrieve_chain) d) (outstanding h peers) (outstanding (raise h p d) peers)
        (times (retrieve_uses p peers) d) (times (chain_uses p peers) d)
        (outstanding-raise h p d peers))

-- Raising an object raises the available balance once for each amount on the chain that it is, and
-- lowers it once for each amount retrieved that it is.
pub available_balance-raise :
    (s : Service) (p : Ref) (d : ℤ)
    → p ≢ s.balance
    → available_balance (record s { heap = raise s.heap p d }) +ℤ times (retrieve_uses p s.peers) d
      ≡ available_balance s +ℤ times (chain_uses p s.peers) d
unfolding available_balance
available_balance-raise s p d n = elim (Bool-cases (p == s.balance)) [
  | inl e ↦ absurd (n ((==_iff p s.balance).0 e))
  | inr e ↦ rw e (regroup (value s s.balance) _ _ _ _ (outstanding-raise s.heap p d s.peers))
]
  where
    regroup : (b o' us o ws : ℤ) → o' +ℤ us ≡ o +ℤ ws → b +ℤ o' +ℤ us ≡ b +ℤ o +ℤ ws
    regroup b o' us o ws h = omega (int_laws, ap pos_part h, ap neg_part h)
