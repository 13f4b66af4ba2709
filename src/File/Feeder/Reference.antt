-- ===== src/File/Feeder/Reference.antt =====
-- A feeder that takes one byte at a time, against which the loops of Write are proved.
use favor_x.Base.{
  ℕ, ◌+◌, ◌<◌, ◌≡◌, refl, true, false, [], ◌∷◌, ◌++◌, append_assoc, append-nil, arith, ltb, ◌==◌,
  if◌then◌else◌, length, length-append,
}
use favor_x.Base.Bytes.{Bytes}
use favor_x.File.Feeder.{PipeWriteArgs, ChainWriter, le64}

abbrev pub chunk : Bytes → PipeWriteArgs
chunk p = record { data_ = le64 (length p) ++ p; span = le64 (length p) }

module _ {ℓ κ} {N : Type ℓ} {E : Type κ} (next : ChainWriter N E) where
  -- The next writer after it has got the bytes p as a chunk.
  abbrev pub send : N → Bytes → N
  send n p = (next.chain_write n (chunk p)).0

  unfoldable pub feed_byte : ℕ → N × Bytes → ℕ → N × Bytes
  feed_byte size (n, p) x =
      let q = p ++ x ∷ [] in if length q == size then (send n q, []) else (n, q)

  unfoldable pub feed : ℕ → N × Bytes → Bytes → N × Bytes
  feed size s [] = s
  feed size s (x ∷ xs) = feed size (feed_byte size s x) xs

  pub feed-append :
      (size : ℕ) (s : N × Bytes) (xs ys : Bytes)
      → feed size s (xs ++ ys) ≡ feed size (feed size s xs) ys
  unfolding feed
  feed-append size s [] ys = refl
  feed-append size s (x ∷ xs) ys = feed-append size (feed_byte size s x) xs ys

  pub feed_nil : (size : ℕ) (s : N × Bytes) → feed size s [] ≡ s
  unfolding feed
  feed_nil size s = refl

  one :
      (size : ℕ) (n : N) (p : Bytes) (x : ℕ)
      → feed_byte size (n, p) x
        ≡ (if length p + 1 == size then (send n (p ++ x ∷ []), []) else (n, p ++ x ∷ []))
  unfolding feed_byte
  one size n p x = rw (length-append p (x ∷ [])) refl

  -- Fewer bytes than a chunk lacks are kept.
  pub feed_short :
      (size : ℕ) (n : N) (p xs : Bytes)
      → length p + length xs < size
      → feed size (n, p) xs ≡ (n, p ++ xs)
  unfolding feed
  feed_short size n p [] h = rw (append-nil p) refl
  feed_short size n p (x ∷ xs) h =
      let e : (length p + 1 == size) ≡ false = ground arith in
      rw
        (
          one size n p x,
          e,
          feed_short size n (p ++ x ∷ []) xs (omega (arith, length-append p (x ∷ []))),
          append_assoc p (x ∷ []) xs,
        )
        refl

  -- The bytes that a chunk lacks fill it.
  pub feed_full :
      (size : ℕ) (n : N) (p : Bytes) (x : ℕ) (xs : Bytes)
      → length p + length (x ∷ xs) ≡ size
      → feed size (n, p) (x ∷ xs) ≡ (send n (p ++ x ∷ xs), [])
  unfolding feed
  feed_full size n p x [] h =
      let e : (length p + 1 == size) ≡ true = ground arith in rw (one size n p x, e) refl
  feed_full size n p x (y ∷ xs) h =
      let e : (length p + 1 == size) ≡ false = ground arith in
      rw
        (
          one size n p x,
          e,
          feed_full size n (p ++ x ∷ []) y xs (omega (arith, length-append p (x ∷ []))),
          append_assoc p (x ∷ []) (y ∷ xs),
        )
        refl

  -- The next writer after a whole file: what is left goes out last, and an empty file is a chunk too.
  abbrev pub divided : ℕ → N → Bytes → N
  divided size n file =
      let s = feed size (n, []) file in
      if ltb 0 (length s.1) then send s.0 s.1 else if length file == 0 then send s.0 [] else s.0
