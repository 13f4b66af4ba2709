-- ===== src/File/Feeder/Whole.antt =====
-- A whole file: any row of writes, and Sum.
use favor_x.Base.{
  ℕ, ◌+◌, ◌≤◌, ◌<◌, ◌≡◌, refl, sym, ◌∙◌, ap, inl, inr, Bool-cases, true, false, none, some, List,
  [], ◌∷◌, ◌++◌, append-nil, arith, ltb, ◌==◌, ◌&&◌, not, length, length-append, take, replicate,
  length-replicate, Bool, if◌then◌else◌,
}
use favor_x.Base.Int.{pos, ◌+ℤ◌, wrap_int64, eqb_ℤ}
use favor_x.Base.Bytes.{Bytes}
use favor_x.File.Feeder.{
  PipeWriteArgs, ChainWriter, ChunkFeeder, new_chunk_feeder, copy_at, le64, last_data, le_bytes,
  write_all, flush, flush_empty, empty_after, deliver, sum,
}
use favor_x.File.Feeder.Copying.{take-append_exact, copy_at_start, drop_all, length-le_bytes}
use favor_x.File.Feeder.Reference.{feed, feed-append, feed_nil, chunk, send, divided}
use favor_x.File.Feeder.Rounds.{Holds, Counts}
use favor_x.File.Feeder.Refinement.{fresh_lem, write_lem}

-- The count of the bytes written is at most `total`, and zero only if there were none or some wait.
pub record Tracks (total : ℕ) (f : ChunkFeeder) : Type 0 where
  pub counted : ℕ
  pub wrote_eq : f.wrote ≡ pos counted
  pub counted_le : counted ≤ total
  pub nothing : counted ≡ 0 → f.buffer_idx ≡ 0 → total ≡ 0

-- The bytes of all writes.
abbrev pub join : List Bytes → Bytes
join [] = []
join (b ∷ bs) = b ++ join bs

pub tracks_lem :
    (f f' : ChunkFeeder) (b : Bytes) (total : ℕ)
    → Tracks total f
    → Counts f f' (pos (length b))
    → (length b ≡ 0 → f'.buffer_idx ≡ f.buffer_idx)
    → total + length b < 9223372036854775808
    → Tracks (total + length b) f'
unfolding ◌+ℤ◌ wrap_int64
tracks_lem f f' b total t (inl e) same h = record {
  counted = t.counted + length b;
  wrote_eq = rw (e, t.wrote_eq) (ground arith);
  counted_le = omega (arith, t.counted_le);
  nothing = λ c i. ground (arith, t.nothing, same);
}
tracks_lem f f' b total t (inr (e, w)) same h = record {
  counted = t.counted;
  wrote_eq = e ∙ t.wrote_eq;
  counted_le = omega (arith, t.counted_le);
  nothing = λ c i. ground (arith, t.nothing, same, w);
}

-- The last chunk that Sum makes.
last_lem :
    (p : Bytes)
    → copy_at (copy_at (replicate (length p + 8) 0) 8 p) 0 (le64 (length p)) ≡ le64 (length p) ++ p
last_lem p =
    rw
      (
        fresh_lem (length p) p (omega arith),
        drop_all (length p) (replicate (length p) 0)
            (omega (arith, length-replicate {A = ℕ} (length p) 0)),
        append-nil (replicate 8 0 ++ p),
      )
      (copy_at_start (replicate 8 0) p (le64 (length p)) (sym (length-le_bytes 8 (length p))))

last_data_lem : (f : ChunkFeeder) (p : Bytes) → Holds f p → last_data f ≡ le64 (length p) ++ p
unfolding last_data
last_data_lem f p h = rw (last_data, h.pending, h.idx) (last_lem p)

last_args :
    (f : ChunkFeeder) (p : Bytes)
    → Holds f p
    → record { data_ = last_data f; span = take 8 (last_data f) } ≡ chunk p
last_args f p h =
    let l : length (le64 (length p)) ≡ 8 = length-le_bytes 8 (length p) in
    let t : take 8 (le64 (length p) ++ p) ≡ le64 (length p) =
      ap (λ k. take k (le64 (length p) ++ p)) (sym l) ∙ take-append_exact (le64 (length p)) p in
    rw (last_data_lem f p h, t) refl

wrote_lem :
    (f : ChunkFeeder) (p : Bytes) (total : ℕ)
    → Holds f p
    → Tracks total f
    → total + f.size < 9223372036854775800
    → eqb_ℤ (wrap_int64 (f.wrote +ℤ pos (length (last_data f)))) (pos 0) ≡ false
unfolding ◌+ℤ◌ wrap_int64
wrote_lem f p total h t lt =
    let l : length (last_data f) ≡ 8 + length p =
      rw (last_data_lem f p h)
        (omega (arith, length-append (le64 (length p)) p, length-le_bytes 8 (length p))) in
    rw (l, t.wrote_eq) (ground (arith, t.counted_le, h.idx, h.idx_lt))

module _ {ℓ κ} {N : Type ℓ} {E : Type κ} (next : ChainWriter N E)
    (works : (n : N) (a : PipeWriteArgs) → (next.chain_write n a).1 ≡ none) where
  feed_nothing :
      (f f' : ChunkFeeder) (n : N) (p b : Bytes)
      → Holds f p
      → Holds f' (feed next f.size (n, p) b).1
      → length b ≡ 0
      → f'.buffer_idx ≡ f.buffer_idx
  feed_nothing f f' n p [] h h' e = rw (feed_nil next f.size (n, p)) at h'.idx ∙ sym h.idx
  feed_nothing f f' n p (x ∷ b) h h' e = absurd (omega arith)

  write_all_lem :
      (bs : List Bytes) (f : ChunkFeeder) (n : N) (p : Bytes) (size total : ℕ)
      → f.size ≡ size
      → Holds f p
      → Tracks total f
      → total + length (join bs) < 9223372036854775808
      → (f' : ChunkFeeder) × (let s = feed next size (n, p) (join bs) in
          (write_all next f n bs ≡ some (f', s.0, none)) × Holds f' s.1)
        × (f'.size ≡ size)
        × Tracks (total + length (join bs)) f'
  unfolding write_all
  write_all_lem [] f n p size total z h t lt =
      let e : total + length (join []) ≡ total = omega arith in
      rw (feed_nil next size (n, p), e) (f, (refl, h), z, t)
  write_all_lem (b ∷ bs) f n p size total z h t lt =
      let w = write_lem next works f n p b h in
      let s = feed next size (n, p) b in
      let e : total + length (b ++ join bs) ≡ total + length b + length (join bs) =
        omega (arith, length-append b (join bs)) in
      let fed : feed next f.size (n, p) b ≡ s = rw z refl in
      let h' : Holds w.0 s.1 = rw fed at w.2 in
      let t' = tracks_lem f w.0 b total t w.4 (feed_nothing f w.0 n p b h w.2) (omega arith) in
      rw (write_all, w.1, fed, feed-append next size (n, p) b (join bs), e)
        (write_all_lem bs w.0 s.0 s.1 size (total + length b) (w.3 ∙ z) h' t' (omega arith))

  new_lem :
      (size : ℕ) → 0 < size → Holds (new_chunk_feeder size) [] × Tracks 0 (new_chunk_feeder size)
  unfolding new_chunk_feeder
  new_lem size h = (
    record { idx_lt = h; buffer_length = length-replicate size 0; idx = refl; pending = refl },
    record { counted = 0; wrote_eq = refl; counted_le = omega arith; nothing = λ c i. refl },
  )

  flush_lem :
      (f : ChunkFeeder) (n : N) (p : Bytes) (total : ℕ)
      → Holds f p
      → Tracks total f
      → total + f.size < 9223372036854775800
      → (f' : ChunkFeeder) × (flush next f n
          ≡ (f', if ltb 0 (length p) then send next n p else n, none))
        × (eqb_ℤ f'.wrote (pos 0) ≡ (total == 0) && not (ltb 0 (length p)))
  unfolding flush
  flush_lem f n p total h t lt = elim (Bool-cases (ltb 0 f.buffer_idx)) [
    | inr empty ↦
        let e : ltb 0 (length p) ≡ false = ground (arith, h.idx) in
        rw (flush, empty, e) (f, refl, ground (arith, h.idx, t.nothing, t.wrote_eq, t.counted_le))
    | inl some_left ↦
        let e : ltb 0 (length p) ≡ true = ground (arith, h.idx) in
        (
          record f { wrote = wrap_int64 (f.wrote +ℤ pos (length (last_data f))) },
          rw (flush, some_left, last_args f p h, works n (chunk p), last_args f p h, e) refl,
          rw e (wrote_lem f p total h t lt ∙ ground arith),
        )
  ]

  flush_empty_lem :
      (f : ChunkFeeder) (n : N) (b : Bool)
      → eqb_ℤ f.wrote (pos 0) ≡ b
      → (f' : ChunkFeeder) × (flush_empty next f n ≡ (f', if b then send next n [] else n, none))
  unfolding flush_empty le_bytes
  flush_empty_lem f n true e = (
    record f { wrote = wrap_int64 (f.wrote +ℤ pos 8) },
    rw (flush_empty, e, works n (chunk [])) refl,
  )
  flush_empty_lem f n false e = (f, rw (flush_empty, e) refl)

  last_if :
      (p : Bytes) (total : ℕ) (n : N)
      → (if (total == 0) && not (ltb 0 (length p))
          then send next (if ltb 0 (length p) then send next n p else n) []
          else if ltb 0 (length p)
          then send next n p
          else n)
        ≡ (if ltb 0 (length p) then send next n p else if total == 0 then send next n [] else n)
  last_if p total n = ground arith

  -- When the next writer takes every chunk, what Sum returns is what the next writer returns, after it
  -- has got the bytes that were left, or a chunk without bytes if there were none at all.
  sum_lem :
      (f : ChunkFeeder) (n : N) (p : Bytes) (total : ℕ)
      → Holds f p
      → Tracks total f
      → total + f.size < 9223372036854775800
      → let r = sum next f n in
        (r.1, r.2, r.3)
        ≡ next.sum
            (if ltb 0 (length p) then send next n p else if total == 0 then send next n [] else n)
  unfolding sum empty_after deliver
  sum_lem f n p total h t lt =
      let w = flush_lem f n p total h t lt in
      let v = flush_empty_lem w.0 (if ltb 0 (length p) then send next n p else n) _ w.2 in
      rw (sum, w.1, v.1) (ap next.sum (last_if p total n))

  -- When the next writer takes every chunk, any row of writes to a new feeder ends without error, and
  -- what Sum returns then is what the next writer returns after the chunks of all the bytes: it does
  -- not matter how the file is divided into writes. The file and one chunk have fewer than 2^63 - 8
  -- bytes together.
  pub write_all-sum :
      (size : ℕ) (bs : List Bytes) (n : N)
      → 0 < size
      → length (join bs) + size < 9223372036854775800
      → (f' : ChunkFeeder) × (n' : N) × (write_all next (new_chunk_feeder size) n bs
          ≡ some (f', n', none))
        × (let r = sum next f' n' in (r.1, r.2, r.3) ≡ next.sum (divided next size n (join bs)))
  write_all-sum size bs n h lt =
      let new = new_lem size h in
      let w =
        write_all_lem bs (new_chunk_feeder size) n [] size 0 (unfold new_chunk_feeder in refl) new.0
          new.1 (omega arith) in
      let e : 0 + length (join bs) ≡ length (join bs) = omega arith in
      let t : Tracks (length (join bs)) w.0 = rw e at w.3 in
      let s = feed next size (n, []) (join bs) in
      (w.0, s.0, w.1.0, sum_lem w.0 s.0 s.1 (length (join bs)) w.1.1 t (rw w.2 lt))
