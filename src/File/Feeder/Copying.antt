-- ===== src/File/Feeder/Copying.antt =====
-- What `copy` leaves in the feeder's buffers.
use favor_x.Base.{
  ℕ, zero, suc, ◌+◌, ◌/◌, ◌≤◌, ◌≡◌, refl, sym, ap, ◌∙◌, [], ◌∷◌, ◌++◌, append_assoc, append-nil,
  arith, length, length-append, take, drop, length-take, length-drop,
}
use favor_x.Base.Bytes.{Bytes}
use favor_x.File.Feeder.{copied, copy_at, le_bytes}

take_all : (n : ℕ) (xs : Bytes) → length xs ≤ n → take n xs ≡ xs
take_all zero [] h = refl
take_all zero (x ∷ xs) h = absurd (omega arith)
take_all (suc n) [] h = refl
take_all (suc n) (x ∷ xs) h = ap (λ r. x ∷ r) (take_all n xs (omega arith))

pub drop_all : (n : ℕ) (xs : Bytes) → length xs ≤ n → drop n xs ≡ []
drop_all zero [] h = refl
drop_all zero (x ∷ xs) h = absurd (omega arith)
drop_all (suc n) [] h = refl
drop_all (suc n) (x ∷ xs) h = drop_all n xs (omega arith)

pub take-append_exact : (a b : Bytes) → take (length a) (a ++ b) ≡ a
take-append_exact [] b = refl
take-append_exact (x ∷ a) b = ap (λ r. x ∷ r) (take-append_exact a b)

pub drop-append_exact : (a b : Bytes) → drop (length a) (a ++ b) ≡ b
drop-append_exact [] b = refl
drop-append_exact (x ∷ a) b = drop-append_exact a b

-- A copy over the whole end of a buffer.
pub copy_at_end :
    (a r s : Bytes) → length r ≤ length s → copy_at (a ++ r) (length a) s ≡ a ++ take (length r) s
unfolding copy_at
copy_at_end a r s h =
    let e : copied (a ++ r) (length a) s ≡ length r = omega (arith, length-append a r) in
    rw
      (
        e,
        take-append_exact a r,
        drop_all (length a + length r) (a ++ r) (omega (arith, length-append a r)),
        append-nil (a ++ take (length r) s),
      )
      refl

-- A copy that fits leaves what stands before it.
pub copy_at_fits :
    (a r s : Bytes)
    → length s ≤ length r
    → copy_at (a ++ r) (length a) s ≡ (a ++ s) ++ drop (length s) r
unfolding copy_at
copy_at_fits a r s h =
    let e : copied (a ++ r) (length a) s ≡ length s = omega (arith, length-append a r) in
    rw
      (
        e,
        take-append_exact a r,
        take_all (length s) s (omega arith),
        drop_after a r (length s),
        append_assoc a s (drop (length s) r),
      )
      refl
  where
    drop_after : (a r : Bytes) (k : ℕ) → drop (length a + k) (a ++ r) ≡ drop k r
    drop_after [] r k = let e : 0 + k ≡ k = omega arith in rw e refl
    drop_after (x ∷ a) r k =
        let e : suc (length a) + k ≡ suc (length a + k) = omega arith in rw e (drop_after a r k)

-- A header over the first bytes.
pub copy_at_start : (z q h : Bytes) → length z ≡ length h → copy_at (z ++ q) 0 h ≡ h ++ q
copy_at_start z q h e =
    copy_at_fits [] (z ++ q) h (omega (arith, length-append z q))
    ∙ rw (sym e, drop-append_exact z q) refl

pub length-copy_at :
    (dst src : Bytes) (off : ℕ) → off ≤ length dst → length (copy_at dst off src) ≡ length dst
unfolding copy_at
length-copy_at dst src off h =
    let n = copied dst off src in
    let e : length (take off dst ++ take n src ++ drop (off + n) dst) ≡ length dst = omega (
      arith,
      length-append (take off dst) (take n src ++ drop (off + n) dst),
      length-append (take n src) (drop (off + n) dst),
      length-append (take off dst ++ take n src) (drop (off + n) dst),
      length-append (take off dst) (take n src),
      length-take off dst,
      length-take n src,
      length-drop (off + n) dst,
    ) in
    e

pub length-le_bytes : (n x : ℕ) → length (le_bytes n x) ≡ n
unfolding le_bytes
length-le_bytes zero x = refl
length-le_bytes (suc n) x = ap suc (length-le_bytes n (x / 256))
