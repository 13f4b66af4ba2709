-- ===== src/File/Feeder/Tests.antt =====
-- A feeder with chunks of two bytes, and the theorems at it.
use favor_x.Base.{◌≡◌, refl, none, some, List, [], ◌∷◌, ◌++◌, arith, replicate}
use favor_x.Base.Int.{pos, ◌+ℤ◌, ◌-ℤ◌}
use favor_x.Base.Bytes.{Bytes}
use favor_x.File.Feeder.{
  PipeWriteArgs, ChunkFeeder, new_chunk_feeder, copy_at, le_bytes, write_loop, write, flush,
  flush_empty, empty_after, deliver, sum, write_all,
}
use favor_x.File.Feeder.Reference.{feed, divided}
use favor_x.File.Feeder.Rounds.{Holds, Ends}
use favor_x.File.Feeder.Refinement.{write_lem}
use favor_x.File.Feeder.Whole.{join, write_all-sum}
use favor_x.File.Feeder.Roundtrip.{recorder, payloads, IsDivided, write_all-payloads}

abbrev of_two : ChunkFeeder
of_two = record { size = 2; buffer = 7 ∷ 9 ∷ []; buffer_idx = 1; wrote = pos 0 }

abbrev of_two-Holds : Holds of_two (7 ∷ [])
of_two-Holds = record { idx_lt = omega arith; buffer_length = refl; idx = refl; pending = refl }

write_lem_example :
    Ends
      (write recorder of_two [] (1 ∷ 2 ∷ []))
      of_two
      (feed recorder 2 ([], 7 ∷ []) (1 ∷ 2 ∷ []))
      (pos 2)
write_lem_example = write_lem recorder (λ n a. refl) of_two [] (7 ∷ []) (1 ∷ 2 ∷ []) of_two-Holds

abbrev writes : List Bytes
writes = (1 ∷ 2 ∷ 3 ∷ []) ∷ [] ∷ (4 ∷ 5 ∷ []) ∷ []

write_all-sum_example :
    (f' : ChunkFeeder) × (n' : List PipeWriteArgs) × (write_all recorder
        (new_chunk_feeder 2)
        []
        writes
      ≡ some (f', n', none))
    × (let r = sum recorder f' n' in
        (r.1, r.2, r.3) ≡ recorder.sum (divided recorder 2 [] (join writes)))
write_all-sum_example = write_all-sum recorder (λ n a. refl) 2 writes [] (omega arith) (omega arith)

write_all-payloads_example :
    (f' : ChunkFeeder) × (sent : List PipeWriteArgs) × (write_all recorder
        (new_chunk_feeder 2)
        []
        writes
      ≡ some (f', sent, none))
    × (let cs = (sum recorder f' sent).1 in IsDivided 2 cs × (payloads cs ≡ join writes))
write_all-payloads_example = write_all-payloads 2 writes (omega arith) (omega arith)

-- Three bytes are a chunk of two and one of one, each behind its span.
abbrev chunk_of : Bytes → Bytes → PipeWriteArgs
chunk_of span p = record { data_ = span ++ p; span = span }

three_bytes :
    write_all recorder (new_chunk_feeder 2) [] ((1 ∷ 2 ∷ 3 ∷ []) ∷ [])
    ≡ some (
      record { size = 2; buffer = 3 ∷ 0 ∷ []; buffer_idx = 1; wrote = pos 0 },
      chunk_of (2 ∷ replicate 7 0) (1 ∷ 2 ∷ []) ∷ [],
      none,
    )
unfolding write_all write write_loop new_chunk_feeder copy_at le_bytes ◌+ℤ◌ ◌-ℤ◌
three_bytes = refl

-- An empty file is one chunk with an empty span.
empty_file : (sum recorder (new_chunk_feeder 2) []).1 ≡ chunk_of (replicate 8 0) [] ∷ []
unfolding sum deliver empty_after flush flush_empty new_chunk_feeder
empty_file = refl
