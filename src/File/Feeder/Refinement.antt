-- ===== src/File/Feeder/Refinement.antt =====
-- Write against the feeder that takes one byte at a time.
use favor_x.Base.{
  ℕ, zero, suc, ◌+◌, ◌≤◌, ◌≡◌, refl, sym, ◌∙◌, ap, inl, inr, Bool-cases, true, false, none, ◌∷◌,
  ◌++◌, arith, ltb, length, length-append, drop, replicate, length-drop, length-replicate,
  take-append-drop, if◌then◌else◌,
}
use favor_x.Base.Int.{pos, ◌+ℤ◌, ◌-ℤ◌, +ℤ_parts, -ℤ_parts, eq_of_parts}
use favor_x.Base.Bytes.{Bytes}
use favor_x.File.Feeder.{PipeWriteArgs, ChainWriter, ChunkFeeder, copied, copy_at, write}
use favor_x.File.Feeder.Copying.{take-append_exact, copy_at_fits, length-copy_at}
use favor_x.File.Feeder.Reference.{feed, feed_short}
use favor_x.File.Feeder.Rounds.{Holds, Ends}
use favor_x.File.Feeder.Loop.{loop_lem}

replicate-append : (a b : ℕ) → replicate {A = ℕ} (a + b) 0 ≡ replicate a 0 ++ replicate b 0
replicate-append zero b = let e : 0 + b ≡ b = omega arith in rw e refl
replicate-append (suc a) b =
    let e : suc a + b ≡ suc (a + b) = omega arith in rw e (ap (λ r. 0 ∷ r) (replicate-append a b))

-- A fresh buffer for a chunk, with the waiting bytes behind the place of the span.
pub fresh_lem :
    (size : ℕ) (p : Bytes)
    → length p ≤ size
    → copy_at (replicate (size + 8) 0) 8 p
      ≡ replicate 8 0 ++ p ++ drop (length p) (replicate size 0)
fresh_lem size p h =
    let e : size + 8 ≡ 8 + size = omega arith in
    rw (e, replicate-append 8 size)
      (copy_at_fits (replicate 8 0) (replicate size 0) p
        (omega (arith, length-replicate {A = ℕ} size 0)))

back_lem : (a b : ℕ) → (if ltb 0 a then pos 0 -ℤ pos a else pos 0) +ℤ pos (a + b) ≡ pos b
back_lem a b = ground (
  arith,
  -ℤ_parts (pos 0) (pos a),
  +ℤ_parts (pos 0 -ℤ pos a) (pos (a + b)),
  +ℤ_parts (pos 0) (pos (a + b)),
  eq_of_parts ((pos 0 -ℤ pos a) +ℤ pos (a + b)) (pos b),
  eq_of_parts (pos 0 +ℤ pos (a + b)) (pos b),
)

module _ {ℓ κ} {N : Type ℓ} {E : Type κ} (next : ChainWriter N E)
    (works : (n : N) (a : PipeWriteArgs) → (next.chain_write n a).1 ≡ none) where
  write_short :
      (f : ChunkFeeder) (n : N) (p b : Bytes)
      → Holds f p
      → ltb (length b + f.buffer_idx) f.size ≡ true
      → Ends (write next f n b) f (n, p ++ b) (pos (length b))
  unfolding write
  write_short f n p b h test =
      let m : copied f.buffer f.buffer_idx b ≡ length b = ground (arith, h.buffer_length) in
      let split : p ++ drop f.buffer_idx f.buffer ≡ f.buffer =
        rw (sym h.pending) (take-append-drop f.buffer_idx f.buffer) in
      let full : f.buffer_idx + length b ≡ length (p ++ b) =
        omega (arith, h.idx, length-append p b) in
      let at : copy_at f.buffer f.buffer_idx b
          ≡ (p ++ b) ++ drop (length b) (drop f.buffer_idx f.buffer) =
        ap (λ x. copy_at x f.buffer_idx b) (sym split)
        ∙ ap (λ k. copy_at (p ++ drop f.buffer_idx f.buffer) k b) h.idx
        ∙ copy_at_fits p (drop f.buffer_idx f.buffer) b
            (ground (arith, h.buffer_length, length-drop f.buffer_idx f.buffer)) in
      (
        record f {
          buffer = copy_at f.buffer f.buffer_idx b;
          buffer_idx = f.buffer_idx + copied f.buffer f.buffer_idx b;
        },
        rw (write, test, m) refl,
        record {
          idx_lt = ground (arith, m);
          buffer_length =
              length-copy_at f.buffer b f.buffer_idx (omega (arith, h.buffer_length, h.idx_lt))
              ∙ h.buffer_length;
          idx = omega (arith, full, m);
          pending = rw (m, full, at) (take-append_exact (p ++ b) _);
        },
        refl,
        inr (refl, ground (arith, m)),
      )

  write_long :
      (f : ChunkFeeder) (n : N) (p b : Bytes)
      → Holds f p
      → ltb (length b + f.buffer_idx) f.size ≡ false
      → Ends (write next f n b) f (feed next f.size (n, p) b) (pos (length b))
  unfolding write
  write_long f n p b h test =
      let sp : copied (replicate (f.size + 8) 0) 8 p ≡ length p =
        omega (arith, h.idx_lt, h.idx, length-replicate {A = ℕ} (f.size + 8) 0) in
      rw
        (
          write,
          test,
          h.pending,
          sp,
          fresh_lem f.size p (omega (arith, h.idx, h.idx_lt)),
          ← back_lem (length p) (length b),
        )
        (loop_lem next works b (length b) f n (replicate 8 0) p
          (drop (length p) (replicate f.size 0))
          (if ltb 0 (length p) then pos 0 -ℤ pos (length p) else pos 0) refl
          (omega (
            arith,
            h.idx,
            h.idx_lt,
            length-drop {A = ℕ} (length p) (replicate f.size 0),
            length-replicate {A = ℕ} f.size 0,
          ))
          (omega (arith, h.idx, h.idx_lt)) h.buffer_length h.idx (inr (ground (arith, h.idx)))
          (omega arith))

  -- When the next writer takes every chunk, Write on a feeder that holds less than a chunk ends, takes
  -- all bytes and returns their number, and the next writer has got what a feeder of single bytes sends.
  pub write_lem :
      (f : ChunkFeeder) (n : N) (p b : Bytes)
      → Holds f p
      → Ends (write next f n b) f (feed next f.size (n, p) b) (pos (length b))
  write_lem f n p b h = elim (Bool-cases (ltb (length b + f.buffer_idx) f.size)) [
    | inl short ↦
        rw (feed_short next f.size n p b (ground (arith, h.idx))) (write_short f n p b h short)
    | inr long ↦ write_long f n p b h long
  ]
