-- ===== src/File/Feeder.antt =====
-- pkg/file/pipeline/feeder/feeder.go: the writer that divides a stream of bytes into chunks of one
-- size. The next writer of the pipeline (pipeline.ChainWriter) is a parameter with a state of its own;
-- it is taken not to keep the slices it is given, since `d` is used again for the next chunk.
pub mod Copying
pub mod Reference
pub mod Rounds
pub mod Loop
pub mod Refinement
pub mod Whole
pub mod Roundtrip
pub mod Tests
use favor_x.Base.{
  ℕ, zero, suc, ◌+◌, ◌-◌, ◌/◌, ◌%◌, min, true, false, Option, none, some, List, [], ◌∷◌, ◌++◌, ltb,
  ◌==◌, if◌then◌else◌, length, take, drop, replicate,
}
use favor_x.Base.Int.{ℤ, pos, ◌+ℤ◌, ◌-ℤ◌, eqb_ℤ, wrap_int64}
use favor_x.Base.Bytes.{Bytes}

pub record PipeWriteArgs : Type 0 where
  pub data_ : Bytes
  pub span : Bytes

-- `none` is the nil error.
pub record ChainWriter {ℓ κ} (N : Type ℓ) (E : Type κ) : Type (ℓ ⊔ κ) where
  pub chain_write : N → PipeWriteArgs → N × Option E
  pub sum : N → N × Bytes × Option E

pub record ChunkFeeder : Type 0 where
  pub size : ℕ
  pub buffer : Bytes
  pub buffer_idx : ℕ
  pub wrote : ℤ

abbrev pub span_size : ℕ
span_size = 8

-- NewChunkFeederWriter
unfoldable pub new_chunk_feeder : ℕ → ChunkFeeder
new_chunk_feeder size = record {
  size = size;
  buffer = replicate size 0;
  buffer_idx = 0;
  wrote = pos 0;
}

-- `copy(dst[off:], src)`: the number of bytes copied, and dst afterwards.
abbrev pub copied : Bytes → ℕ → Bytes → ℕ
copied dst off src = min (length dst - off) (length src)

unfoldable pub copy_at : Bytes → ℕ → Bytes → Bytes
copy_at dst off src =
    take off dst ++ take (copied dst off src) src ++ drop (off + copied dst off src) dst

-- The bytes of binary.LittleEndian.
unfoldable pub le_bytes : ℕ → ℕ → Bytes
le_bytes zero x = []
le_bytes (suc n) x = x % 256 ∷ le_bytes n (x / 256)

-- binary.LittleEndian.PutUint64
abbrev pub le64 : ℕ → Bytes
le64 x = le_bytes 8 x

-- The chunk of d[:8], filled with the number sp, and d[8:8+sp].
abbrev pub args_of : Bytes → ℕ → PipeWriteArgs
args_of d sp = record { data_ = take (span_size + sp) d; span = take span_size d }

-- The bytes that Sum sends of what is in the buffer, the span before them.
unfoldable pub last_data : ChunkFeeder → Bytes
last_data f =
    let fresh = replicate (f.buffer_idx + span_size) 0 in
    copy_at (copy_at fresh span_size (take f.buffer_idx f.buffer)) 0 (le64 f.buffer_idx)

module _ {ℓ κ} {N : Type ℓ} {E : Type κ} (next : ChainWriter N E) where
  -- The loop over `i` in Write, with b[i:] for what is left; `none` when it does not end within the fuel.
  unfoldable pub write_loop :
      Bytes → ℕ → ChunkFeeder → N → Bytes → ℕ → ℤ → Option (ChunkFeeder × N × ℤ × Option E)
  write_loop [] fuel f n d sp w = some (record f { wrote = wrap_int64 (f.wrote +ℤ w) }, n, w, none)
  write_loop (x ∷ b) zero f n d sp w = none
  write_loop (x ∷ b) (suc fuel) f n d sp w =
      let rest = x ∷ b in
      elim (ltb (sp + length rest) f.size) [
        | true ↦
            let m = copied f.buffer 0 rest in
            some
              (record f { buffer = copy_at f.buffer 0 rest; buffer_idx = m }, n, w +ℤ pos m, none)
        | false ↦
            let m = copied d (span_size + f.buffer_idx) rest in
            let sp' = sp + m in
            let d' = copy_at (copy_at d (span_size + f.buffer_idx) rest) 0 (le64 sp') in
            let (n', err) = next.chain_write n (args_of d' sp') in
            elim err [
              | some e ↦ some (f, n', pos 0, some e)
              | none ↦
                  write_loop (drop m rest) fuel (record f { buffer_idx = 0 }) n' d' 0 (w +ℤ pos sp')
            ]
      ]

  -- Write: the number returned and the error.
  unfoldable pub write : ChunkFeeder → N → Bytes → Option (ChunkFeeder × N × ℤ × Option E)
  write f n b = elim (ltb (length b + f.buffer_idx) f.size) [
    | true ↦
        let m = copied f.buffer f.buffer_idx b in
        some (
          record f { buffer = copy_at f.buffer f.buffer_idx b; buffer_idx = f.buffer_idx + m },
          n,
          pos m,
          none,
        )
    | false ↦
        let fresh = replicate (f.size + span_size) 0 in
        let pending = take f.buffer_idx f.buffer in
        let sp = copied fresh span_size pending in
        let w = if ltb 0 sp then pos 0 -ℤ pos sp else pos 0 in
        write_loop b (length b) f n (copy_at fresh span_size pending) sp w
  ]

  -- The first half of Sum: what is in the buffer goes out.
  unfoldable pub flush : ChunkFeeder → N → ChunkFeeder × N × Option E
  flush f n = elim (ltb 0 f.buffer_idx) [
    | false ↦ (f, n, none)
    | true ↦
        let d = last_data f in
        let (n', err) = next.chain_write n (record { data_ = d; span = take span_size d }) in
        elim err [
          | some e ↦ (f, n', some e)
          | none ↦ (record f { wrote = wrap_int64 (f.wrote +ℤ pos (length d)) }, n', none)
        ]
  ]

  -- The second half: an empty file is one chunk with an empty span.
  unfoldable pub flush_empty : ChunkFeeder → N → ChunkFeeder × N × Option E
  flush_empty f n = elim (eqb_ℤ f.wrote (pos 0)) [
    | false ↦ (f, n, none)
    | true ↦
        let d = replicate span_size 0 in
        let (n', err) = next.chain_write n (record { data_ = d; span = d }) in
        elim err [
          | some e ↦ (f, n', some e)
          | none ↦ (record f { wrote = wrap_int64 (f.wrote +ℤ pos (length d)) }, n', none)
        ]
  ]

  -- The second half follows when the first made no error.
  unfoldable pub empty_after : ChunkFeeder × N × Option E → ChunkFeeder × N × Option E
  empty_after (f, n, some e) = (f, n, some e)
  empty_after (f, n, none) = flush_empty f n

  -- The end of Sum.
  unfoldable pub deliver : ChunkFeeder × N × Option E → ChunkFeeder × N × Bytes × Option E
  deliver (f, n, some e) = (f, n, [], some e)
  deliver (f, n, none) = let (n', bytes, e) = next.sum n in (f, n', bytes, e)

  -- Sum: the bytes returned and the error.
  unfoldable pub sum : ChunkFeeder → N → ChunkFeeder × N × Bytes × Option E
  sum f n = deliver (empty_after (flush f n))

  -- A row of writes that ends at the first error; otherwise the sum of the numbers returned.
  unfoldable pub write_all : ChunkFeeder → N → List Bytes → Option (ChunkFeeder × N × Option E)
  write_all f n [] = some (f, n, none)
  write_all f n (b ∷ bs) = elim (write f n b) [
    | none ↦ none
    | some (f', n', c, some e) ↦ some (f', n', some e)
    | some (f', n', c, none) ↦ write_all f' n' bs
  ]
