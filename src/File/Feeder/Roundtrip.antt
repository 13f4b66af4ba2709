-- ===== src/File/Feeder/Roundtrip.antt =====
-- What the chunks of a file hold, read back.
use native.Mathlib.Nat.{pow-succ'}
use favor_x.Base.{
  ℕ, zero, suc, ◌+◌, ◌*◌, ◌^◌, ◌/◌, ◌≤◌, ◌<◌, ◌≡◌, refl, sym, ◌∙◌, ap, Bool-cases, inl, inr, true,
  none, some, List, [], ◌∷◌, ◌++◌, append_assoc, append-nil, arith, ltb, ◌==◌, if◌then◌else◌,
  length, length-append, drop,
}
use favor_x.Base.Bytes.{Bytes}
use favor_x.File.Feeder.{
  PipeWriteArgs, ChainWriter, ChunkFeeder, new_chunk_feeder, write_all, sum, le64, le_bytes,
}
use favor_x.File.Feeder.Copying.{drop-append_exact, length-le_bytes}
use favor_x.File.Feeder.Reference.{chunk, feed, feed_byte, divided}
use favor_x.File.Feeder.Whole.{join, write_all-sum}

-- A next writer that keeps what it gets.
abbrev pub recorder : ChainWriter (List PipeWriteArgs) ℕ
recorder = record { chain_write = λ cs c. (cs ++ c ∷ [], none); sum = λ cs. (cs, [], none) }

-- The bytes of a chunk behind its span.
abbrev pub payload : PipeWriteArgs → Bytes
payload c = drop 8 c.data_

-- binary.LittleEndian.Uint64
abbrev pub le_value : Bytes → ℕ
le_value [] = 0
le_value (x ∷ xs) = x + 256 * le_value xs

abbrev pub payloads : List PipeWriteArgs → Bytes
payloads [] = []
payloads (c ∷ cs) = payload c ++ payloads cs

-- Each chunk has its length as its span, and all but the last have `size` bytes.
abbrev pub IsDivided : ℕ → List PipeWriteArgs → Type 0
IsDivided size [] = Unit
IsDivided size (c ∷ []) = (le_value c.span ≡ length (payload c)) × (length (payload c) ≤ size)
IsDivided size (c ∷ d ∷ cs) =
    (le_value c.span ≡ length (payload c)) × (length (payload c) ≡ size) × IsDivided size (d ∷ cs)

le_value-le_bytes : (n x : ℕ) → x < 256 ^ n → le_value (le_bytes n x) ≡ x
unfolding le_bytes
le_value-le_bytes zero x h = omega arith
le_value-le_bytes (suc n) x h =
    let p : 256 ^ suc n ≡ 256 * 256 ^ n = pow-succ' 256 n in
    omega (arith, le_value-le_bytes n (x / 256) (omega (arith, p, h)))

payload-chunk : (p : Bytes) → payload (chunk p) ≡ p
payload-chunk p =
    ap (λ k. drop k (le64 (length p) ++ p)) (sym (length-le_bytes 8 (length p)))
    ∙ drop-append_exact (le64 (length p)) p

payloads-append : (cs ds : List PipeWriteArgs) → payloads (cs ++ ds) ≡ payloads cs ++ payloads ds
payloads-append [] ds = refl
payloads-append (c ∷ cs) ds =
    rw (payloads-append cs ds) (sym (append_assoc (payload c) (payloads cs) (payloads ds)))

abbrev IsFull : ℕ → List PipeWriteArgs → Type 0
IsFull size [] = Unit
IsFull size (c ∷ cs) =
    (le_value c.span ≡ length (payload c)) × (length (payload c) ≡ size) × IsFull size cs

append-IsFull :
    (size : ℕ) (cs : List PipeWriteArgs) (c : PipeWriteArgs)
    → IsFull size cs
    → le_value c.span ≡ length (payload c)
    → length (payload c) ≡ size
    → IsFull size (cs ++ c ∷ [])
append-IsFull size [] c h e f = (e, f, tt)
append-IsFull size (d ∷ cs) c h e f = (h.0, h.1, append-IsFull size cs c h.2 e f)

full-IsDivided : (size : ℕ) (cs : List PipeWriteArgs) → IsFull size cs → IsDivided size cs
full-IsDivided size [] h = tt
full-IsDivided size (c ∷ []) h = (h.0, omega (arith, h.1))
full-IsDivided size (c ∷ d ∷ cs) h = (h.0, h.1, full-IsDivided size (d ∷ cs) h.2)

append-IsDivided :
    (size : ℕ) (cs : List PipeWriteArgs) (c : PipeWriteArgs)
    → IsFull size cs
    → le_value c.span ≡ length (payload c)
    → length (payload c) ≤ size
    → IsDivided size (cs ++ c ∷ [])
append-IsDivided size [] c h e f = (e, f)
append-IsDivided size (d ∷ []) c h e f = (h.0, h.1, (e, f))
append-IsDivided size (d ∷ d' ∷ cs) c h e f = (h.0, h.1, append-IsDivided size (d' ∷ cs) c h.2 e f)

-- The span of a chunk is the number of its bytes.
span-chunk :
    (p : Bytes)
    → length p < 18446744073709551616
    → le_value (chunk p).span ≡ length (payload (chunk p))
span-chunk p h = le_value-le_bytes 8 (length p) h ∙ ap length (sym (payload-chunk p))

payloads-snoc :
    (cs : List PipeWriteArgs) (p : Bytes) → payloads (cs ++ chunk p ∷ []) ≡ payloads cs ++ p
payloads-snoc cs p =
    payloads-append cs (chunk p ∷ [])
    ∙ ap (λ q. payloads cs ++ q) (append-nil (payload (chunk p)) ∙ payload-chunk p)

abbrev IsRead : ℕ → List PipeWriteArgs × Bytes → Bytes → Type 0
IsRead size (cs, p) data_ = IsFull size cs × (payloads cs ++ p ≡ data_) × (length p < size)

feed_byte-IsRead :
    (size x : ℕ) (cs : List PipeWriteArgs) (p before : Bytes)
    → size < 18446744073709551616
    → IsRead size (cs, p) before
    → IsRead size (feed_byte recorder size (cs, p) x) (before ++ x ∷ [])
unfolding feed_byte
feed_byte-IsRead size x cs p before lt h =
    let q = p ++ x ∷ [] in
    let l = length-append p (x ∷ []) in
    let all : payloads cs ++ q ≡ before ++ x ∷ [] =
      sym (append_assoc (payloads cs) p (x ∷ [])) ∙ ap (λ r. r ++ x ∷ []) h.1 in
    elim (Bool-cases (length q == size)) [
      | inl full ↦
          let e : length q ≡ size = ground arith in
          rw full (
            append-IsFull size cs (chunk q) h.0 (span-chunk q (omega arith))
                (ap length (payload-chunk q) ∙ e),
            append-nil (payloads (cs ++ chunk q ∷ [])) ∙ payloads-snoc cs q ∙ all,
            omega (arith, h.2),
          )
      | inr short ↦ rw short (h.0, all, ground (arith, h.2, l))
    ]

feed-IsRead :
    (size : ℕ) (xs : Bytes) (cs : List PipeWriteArgs) (p before : Bytes)
    → size < 18446744073709551616
    → IsRead size (cs, p) before
    → IsRead size (feed recorder size (cs, p) xs) (before ++ xs)
unfolding feed
feed-IsRead size [] cs p before lt h = rw (append-nil before) h
feed-IsRead size (x ∷ xs) cs p before lt h =
    rw (← append_assoc before (x ∷ []) xs)
      (feed-IsRead size xs _ _ (before ++ x ∷ []) lt (feed_byte-IsRead size x cs p before lt h))

append_chunk :
    (size : ℕ) (cs : List PipeWriteArgs) (p file : Bytes)
    → size < 18446744073709551616
    → IsRead size (cs, p) file
    → IsDivided size (cs ++ chunk p ∷ []) × (payloads (cs ++ chunk p ∷ []) ≡ file)
append_chunk size cs p file lt h = (
  append-IsDivided size cs (chunk p) h.0 (span-chunk p (omega (arith, h.2)))
      (omega (arith, h.2, ap length (payload-chunk p))),
  payloads-snoc cs p ∙ h.1,
)

last-IsDivided :
    (size : ℕ) (cs : List PipeWriteArgs) (p file : Bytes)
    → size < 18446744073709551616
    → IsRead size (cs, p) file
    → let r =
        (if ltb 0 (length p)
          then cs ++ chunk p ∷ []
          else if length file == 0
          then cs ++ chunk [] ∷ []
          else cs) in
      IsDivided size r × (payloads r ≡ file)
last-IsDivided size cs [] file lt h = elim (Bool-cases (length file == 0)) [
  | inl none_at_all ↦ rw none_at_all (append_chunk size cs [] file lt h)
  | inr some_bytes ↦
      rw some_bytes (full-IsDivided size cs h.0, sym (append-nil (payloads cs)) ∙ h.1)
]
last-IsDivided size cs (x ∷ p) file lt h =
    let e : ltb 0 (length (x ∷ p)) ≡ true = ground arith in
    rw e (append_chunk size cs (x ∷ p) file lt h)

divided-IsDivided :
    (size : ℕ) (file : Bytes)
    → 0 < size
    → size < 18446744073709551616
    → IsDivided size (divided recorder size [] file)
      × (payloads (divided recorder size [] file) ≡ file)
divided-IsDivided size file h lt =
    let s = feed recorder size ([], []) file in
    last-IsDivided size s.0 s.1 file lt (feed-IsRead size file [] [] [] lt (tt, refl, h))

-- Reading back what a recording writer has got after any row of writes and Sum gives the file: the
-- bytes of the chunks are those of the writes, in order; each chunk has its length as its span, and
-- all but the last have the full size.
pub write_all-payloads :
    (size : ℕ) (bs : List Bytes)
    → 0 < size
    → length (join bs) + size < 9223372036854775800
    → (f' : ChunkFeeder) × (sent : List PipeWriteArgs) × (write_all recorder
          (new_chunk_feeder size)
          []
          bs
        ≡ some (f', sent, none))
      × (let cs = (sum recorder f' sent).1 in IsDivided size cs × (payloads cs ≡ join bs))
write_all-payloads size bs h lt =
    let w = write_all-sum recorder (λ n a. refl) size bs [] h lt in
    let e : (sum recorder w.0 w.1).1 ≡ divided recorder size [] (join bs) = ap (λ r. r.0) w.3 in
    (w.0, w.1, w.2, rw e (divided-IsDivided size (join bs) h (omega arith)))
