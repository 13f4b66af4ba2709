-- ===== src/File/Feeder/Loop.antt =====
-- The loop of Write against the feeder that takes one byte at a time.
use favor_x.Base.{
  ℕ, zero, suc, ◌+◌, ◌≤◌, ◌<◌, ◌≡◌, refl, sym, ◌∙◌, ap, ◌⊎◌, inl, inr, Bool-cases, true, false,
  none, [], ◌∷◌, ◌++◌, arith, ltb, length, length-append, take, drop, length-take, length-drop,
  take-append-drop,
}
use favor_x.Base.Int.{ℤ, pos, ◌+ℤ◌, +ℤ_parts, eq_of_parts, wrap_int64}
use favor_x.Base.Bytes.{Bytes}
use favor_x.File.Feeder.{
  PipeWriteArgs, ChainWriter, ChunkFeeder, copied, copy_at, le64, args_of, write_loop,
}
use favor_x.File.Feeder.Copying.{take-append_exact, copy_at_fits, length-copy_at, length-le_bytes}
use favor_x.File.Feeder.Reference.{send, feed, feed-append, feed_nil, feed_short, feed_full}
use favor_x.File.Feeder.Rounds.{Ends, round_args}

module _ {ℓ κ} {N : Type ℓ} {E : Type κ} (next : ChainWriter N E)
    (works : (n : N) (a : PipeWriteArgs) → (next.chain_write n a).1 ≡ none) where
  round :
      (x fuel sp : ℕ) (b : Bytes) (f : ChunkFeeder) (n : N) (d : Bytes) (w : ℤ)
      → ltb (sp + length (x ∷ b)) f.size ≡ false
      → let m = copied d (8 + f.buffer_idx) (x ∷ b) in
        let d' = copy_at (copy_at d (8 + f.buffer_idx) (x ∷ b)) 0 (le64 (sp + m)) in
        write_loop next (x ∷ b) (suc fuel) f n d sp w
        ≡ write_loop next
            (drop m (x ∷ b))
            fuel
            (record f { buffer_idx = 0 })
            (next.chain_write n (args_of d' (sp + m))).0
            d'
            0
            (w +ℤ pos (sp + m))
  unfolding write_loop
  round x fuel sp b f n d w test =
      let m = copied d (8 + f.buffer_idx) (x ∷ b) in
      let d' = copy_at (copy_at d (8 + f.buffer_idx) (x ∷ b)) 0 (le64 (sp + m)) in
      rw (write_loop, test, works n (args_of d' (sp + m))) refl

  feed_fill :
      (size : ℕ) (n : N) (p xs ys : Bytes)
      → length p + length xs ≡ size
      → 0 < length xs
      → feed next size (n, p) (xs ++ ys) ≡ feed next size (send next n (p ++ xs), []) ys
  feed_fill size n p [] ys h g = absurd (omega arith)
  feed_fill size n p (x ∷ xs) ys h g =
      feed-append next size (n, p) (x ∷ xs) ys ∙ rw (feed_full next size n p x xs h) refl

  count_lem : (w : ℤ) (a b c : ℕ) → a + b ≡ c → w +ℤ pos a +ℤ pos b ≡ w +ℤ pos c
  count_lem w a b c h = ground (
    arith,
    +ℤ_parts w (pos a),
    +ℤ_parts (w +ℤ pos a) (pos b),
    +ℤ_parts w (pos c),
    eq_of_parts (w +ℤ pos a +ℤ pos b) (w +ℤ pos c),
  )

  loop_nil :
      (fuel : ℕ) (f : ChunkFeeder) (n : N) (d : Bytes) (w : ℤ)
      → 0 < f.size
      → length f.buffer ≡ f.size
      → f.buffer_idx ≡ 0
      → Ends (write_loop next [] fuel f n d 0 w) f (n, []) (w +ℤ pos 0)
  unfolding write_loop
  loop_nil fuel f n d w hp hb hi =
      let same : w +ℤ pos 0 ≡ w = omega (arith, +ℤ_parts w (pos 0), eq_of_parts (w +ℤ pos 0) w) in
      rw same (
        record f { wrote = wrap_int64 (f.wrote +ℤ w) },
        refl,
        record { idx_lt = omega arith; buffer_length = hb; idx = hi; pending = rw hi refl },
        refl,
        inl refl,
      )

  loop_short :
      (x fuel : ℕ) (b : Bytes) (f : ChunkFeeder) (n : N) (d : Bytes) (w : ℤ)
      → ltb (0 + length (x ∷ b)) f.size ≡ true
      → length f.buffer ≡ f.size
      → Ends
          (write_loop next (x ∷ b) (suc fuel) f n d 0 w)
          f
          (n, x ∷ b)
          (w +ℤ pos (0 + length (x ∷ b)))
  unfolding write_loop
  loop_short x fuel b f n d w test hb =
      let lt : length (x ∷ b) < f.size = ground arith in
      let m : copied f.buffer 0 (x ∷ b) ≡ 0 + length (x ∷ b) = omega arith in
      let l : 0 + length (x ∷ b) ≡ length (x ∷ b) = omega arith in
      (
        record f { buffer = copy_at f.buffer 0 (x ∷ b); buffer_idx = copied f.buffer 0 (x ∷ b) },
        rw (write_loop, test, m) refl,
        record {
          idx_lt = omega arith;
          buffer_length = length-copy_at f.buffer (x ∷ b) 0 (omega arith) ∙ hb;
          idx = omega arith;
          pending =
              rw (m, l, copy_at_fits [] f.buffer (x ∷ b) (omega arith))
                (take-append_exact (x ∷ b) (drop (length (x ∷ b)) f.buffer));
        },
        refl,
        inr (refl, inl (omega arith)),
      )

  -- A round that fills the chunk leads to the loop over what is left.
  loop_long :
      (x fuel : ℕ) (b : Bytes) (f : ChunkFeeder) (n : N) (z p r : Bytes) (w : ℤ)
      → length z ≡ 8
      → length p + length r ≡ f.size
      → length p < f.size
      → f.buffer_idx ≡ length p
      → ltb (length p + length (x ∷ b)) f.size ≡ false
      → let q = p ++ take (length r) (x ∷ b) in
        let sp = length p + length r in
        let left = drop (length r) (x ∷ b) in
        Ends
          (write_loop next left fuel
            (record f { buffer_idx = 0 })
            (send next n q)
            (le64 sp ++ [] ++ q)
            0
            (w +ℤ pos sp))
          f
          (feed next f.size (send next n q, []) left)
          (w +ℤ pos sp +ℤ pos (0 + length left))
        → Ends
            (write_loop next (x ∷ b) (suc fuel) f n (z ++ p ++ r) (length p) w)
            f
            (feed next f.size (n, p) (x ∷ b))
            (w +ℤ pos (length p + length (x ∷ b)))
  loop_long x fuel b f n z p r w hz hr hp hi long ih =
      let c = round_args z p r (x ∷ b) (length r) f.buffer_idx hi hz refl (ground arith) in
      let sp = length p + length r in
      let q = p ++ take (length r) (x ∷ b) in
      let h : f.size ≤ length p + length (x ∷ b) = ground arith in
      let lt = length-take (length r) (x ∷ b) in
      let left = drop (length r) (x ∷ b) in
      let fed : feed next f.size (n, p) (x ∷ b) ≡ feed next f.size (send next n q, []) left =
        ap (feed next f.size (n, p)) (sym (take-append-drop (length r) (x ∷ b)))
        ∙ feed_fill f.size n p (take (length r) (x ∷ b)) left (omega (arith, lt))
            (omega (arith, lt)) in
      let counted : w +ℤ pos (length p + length (x ∷ b)) ≡ w +ℤ pos sp +ℤ pos (0 + length left) =
        sym (count_lem w sp (0 + length left) _ (omega (arith, length-drop (length r) (x ∷ b)))) in
      rw (round x fuel (length p) b f n (z ++ p ++ r) w long, c.0, c.1.0, c.1.1, fed, counted) ih

  -- The loop ends within the fuel.
  pub loop_lem :
      (rest : Bytes) (fuel : ℕ) (f : ChunkFeeder) (n : N) (z p r : Bytes) (w : ℤ)
      → length z ≡ 8
      → length p + length r ≡ f.size
      → length p < f.size
      → length f.buffer ≡ f.size
      → f.buffer_idx ≡ length p
      → (p ≡ []) ⊎ (f.size ≤ length p + length rest)
      → length rest ≤ fuel
      → Ends
          (write_loop next rest fuel f n (z ++ p ++ r) (length p) w)
          f
          (feed next f.size (n, p) rest)
          (w +ℤ pos (length p + length rest))
  loop_lem [] fuel f n z p r w hz hr hp hb hi hs hf = elim hs [
    | inr h ↦ absurd (omega arith)
    | inl e ↦
        let l : length p ≡ 0 = ap length e in
        rw (e, feed_nil next f.size (n, []))
          (loop_nil fuel f n (z ++ [] ++ r) w (omega arith) hb (omega arith))
  ]
  loop_lem (x ∷ b) zero f n z p r w hz hr hp hb hi hs hf = absurd (omega arith)
  loop_lem (x ∷ b) (suc fuel) f n z p r w hz hr hp hb hi hs hf =
      elim (Bool-cases (ltb (length p + length (x ∷ b)) f.size)) [
        | inl short ↦ elim hs [
          | inr h ↦ absurd (ground arith)
          | inl e ↦
              let l : length p ≡ 0 = ap length e in
              let test : ltb (0 + length (x ∷ b)) f.size ≡ true = ground arith in
              rw (e, feed_short next f.size n [] (x ∷ b) (ground arith))
                (loop_short x fuel b f n (z ++ [] ++ r) w test hb)
        ]
        | inr long ↦
            let sp = length p + length r in
            let q = p ++ take (length r) (x ∷ b) in
            loop_long x fuel b f n z p r w hz hr hp hi long (
              loop_lem (drop (length r) (x ∷ b)) fuel (record f { buffer_idx = 0 }) (send next n q)
                (le64 sp) [] q (w +ℤ pos sp) (length-le_bytes 8 sp)
                (ground (
                  arith,
                  length-append p (take (length r) (x ∷ b)),
                  length-take (length r) (x ∷ b),
                ))
                (omega arith) hb refl (inl refl) (omega (arith, length-drop (length r) (x ∷ b))))
      ]
