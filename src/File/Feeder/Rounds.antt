-- ===== src/File/Feeder/Rounds.antt =====
-- What a feeder holds between calls, and the chunk that one round of the loop of Write makes.
use favor_x.Base.{
  ℕ, ◌+◌, ◌≤◌, ◌<◌, ◌≡◌, refl, sym, ◌∙◌, ap, ◌⊎◌, Option, none, some, [], ◌∷◌, ◌++◌, append_assoc,
  append-nil, arith, length, length-append, take, length-take,
}
use favor_x.Base.Int.{ℤ, pos, ◌+ℤ◌, wrap_int64}
use favor_x.Base.Bytes.{Bytes}
use favor_x.File.Feeder.{ChunkFeeder, copied, copy_at, le64, args_of}
use favor_x.File.Feeder.Copying.{take-append_exact, copy_at_end, copy_at_start, length-le_bytes}
use favor_x.File.Feeder.Reference.{chunk}

-- The feeder holds the bytes p, which are less than a chunk.
pub record Holds (f : ChunkFeeder) (p : Bytes) : Type 0 where
  pub idx_lt : f.buffer_idx < f.size
  pub buffer_length : length f.buffer ≡ f.size
  pub idx : f.buffer_idx ≡ length p
  pub pending : take f.buffer_idx f.buffer ≡ p

-- The chunk that a filled buffer makes.
pub args_of_lem :
    (h q : Bytes) (sp : ℕ)
    → length h ≡ 8
    → length q ≡ sp
    → args_of (h ++ q) sp ≡ record { data_ = h ++ q; span = h }
args_of_lem h q sp e g =
    let all : 8 + sp ≡ length (h ++ q) = omega (arith, length-append h q) in
    rw (all, take_whole (h ++ q), sym e, take-append_exact h q) refl
  where
    take_whole : (xs : Bytes) → take (length xs) xs ≡ xs
    take_whole [] = refl
    take_whole (x ∷ xs) = ap (λ r. x ∷ r) (take_whole xs)

-- One round of the loop puts the bytes that the chunk lacks after p.
pub round_args :
    (z p r rest : Bytes) (n k : ℕ)
    → k ≡ length p
    → length z ≡ 8
    → length r ≡ n
    → n ≤ length rest
    → (copied (z ++ p ++ r) (8 + k) rest ≡ n)
      × (let sp = length p + n in
          let d = copy_at (copy_at (z ++ p ++ r) (8 + k) rest) 0 (le64 sp) in
          (args_of d sp ≡ chunk (p ++ take n rest)) × (d ≡ le64 sp ++ [] ++ (p ++ take n rest)))
round_args z p r rest n k hk e g h = (
  omega (arith, all),
  rw (hk, filled)
      (
        rw headed (
            args_of_lem (le64 (length p + n)) (p ++ take n rest) _ (length-le_bytes 8 _) len
            ∙ rw (sym len) refl),
        headed ∙ ap (λ h. h ++ (p ++ take n rest)) (sym (append-nil (le64 (length p + n)))),
      ),
)
  where
    all : length (z ++ p ++ r) ≡ 8 + length p + n
    all = omega (arith, length-append (z ++ p) r, length-append z p)

    len : length (p ++ take n rest) ≡ length p + n
    len = omega (arith, length-append p (take n rest), length-take n rest)

    filled : copy_at (z ++ p ++ r) (8 + length p) rest ≡ z ++ (p ++ take n rest)
    filled =
        let at : 8 + length p ≡ length (z ++ p) = omega (arith, length-append z p) in
        rw (at, copy_at_end (z ++ p) r rest (omega arith), g) (append_assoc z p (take n rest))

    headed :
        copy_at (z ++ (p ++ take n rest)) 0 (le64 (length p + n))
        ≡ le64 (length p + n) ++ (p ++ take n rest)
    headed = copy_at_start z _ _ (omega (arith, length-le_bytes 8 (length p + n)))

-- The number of bytes written is counted, unless some wait in the buffer, or there were none.
abbrev pub Counts : ChunkFeeder → ChunkFeeder → ℤ → Type 0
Counts f f' c =
    (f'.wrote ≡ wrap_int64 (f.wrote +ℤ c))
    ⊎ ((f'.wrote ≡ f.wrote) × ((0 < f'.buffer_idx) ⊎ (c ≡ pos 0)))

-- A call on f returned c and no error, and left the next writer and the waiting bytes as s says.
abbrev pub Ends {ℓ κ} :
    {N : Type ℓ} {E : Type κ}
    → Option (ChunkFeeder × N × ℤ × Option E)
    → ChunkFeeder
    → N × Bytes
    → ℤ
    → Type (ℓ ⊔ κ)
Ends r f s c =
    (f' : ChunkFeeder) × (r ≡ some (f', s.0, c, none))
    × Holds f' s.1
    × (f'.size ≡ f.size)
    × Counts f f' c
