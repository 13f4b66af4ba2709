-- ===== src/Network/Blocker/Patience.antt =====
-- When a peer is not blocklisted.
use favor_x.Base.{
  ℕ, ◌+◌, ◌*◌, ◌≤◌, ◌<◌, ◌%◌, ◌≡◌, refl, ◌∙◌, ap, inl, inr, Bool, Bool-cases, true, false,
  Option-cases, some, ◌&&◌, List, [], ◌∷◌, ◌++◌, arith, ltb,
}
use favor_x.Base.Bytes.{bytes_eq, bytes_eq_iff}
use favor_x.Base.Map.{lookup, delete, lookup-insert, lookup-delete}
use favor_x.Boson.{Address}
use favor_x.Network.Time.{Duration}
use favor_x.Network.Blocker.{
  Peer, Blocker, uint64_end, Call, block_key, block, resolved, flag, unflag, seen_only,
  prune_unseen, tick, Event, ticks, wakes, flags, unflags, prunes, step, run, blocklisted,
}
use favor_x.Network.Blocker.Deadline.{lookup-seen_only, blocklisted-append, elapsed_by, elapsed}

-- What stands under a key is that peer, and the peer a, if it is flagged, is not due before t.
pub record IsPatient (a : Address) (t : ℕ) (b : Blocker) : Type 0 where
  pub keyed : (k : Address) (p : Peer) → lookup k b.peers ≡ some p → p.address ≡ k
  pub late : (p : Peer) → lookup a b.peers ≡ some p → t ≤ p.block_after

-- A step that keeps this and does not blocklist a.
record IsQuiet (a : Address) (t n : ℕ) (timeout : Duration) (r : Blocker × List Call) : Type 0 where
  patient : IsPatient a t r.0
  silent : blocklisted a r.1 ≡ false
  sequence_eq : r.0.sequence ≡ n
  timeout_eq : r.0.flag_timeout ≡ timeout

delete-IsPatient :
    (a k : Address) (t : ℕ) (b : Blocker)
    → IsPatient a t b
    → IsPatient a t (record b { peers = delete k b.peers })
delete-IsPatient a k t b h = record {
  keyed = λ j p found. ground (arith, lookup-delete k j b.peers, h.keyed j p);
  late = λ p found. ground (arith, lookup-delete k a b.peers, h.late p);
}

block_key-IsQuiet :
    (a k : Address) (t : ℕ) (b : Blocker)
    → IsPatient a t b
    → b.sequence ≤ t
    → IsQuiet a t b.sequence b.flag_timeout (block_key b k)
unfolding block_key blocklisted
block_key-IsQuiet a k t b h le = elim (Option-cases (lookup k b.peers)) [
  | inl missing ↦
      rw (block_key, missing)
        (record { patient = h; silent = refl; sequence_eq = refl; timeout_eq = refl })
  | inr (p, found) ↦ elim (Bool-cases (ltb 0 p.block_after && ltb p.block_after b.sequence)) [
    | inr early ↦
        rw (block_key, found, early)
          (record { patient = h; silent = refl; sequence_eq = refl; timeout_eq = refl })
    | inl due ↦
        rw (block_key, found, due)
          (record {
            patient = delete-IsPatient a k t b h;
            silent = elim (Bool-cases (bytes_eq a p.address)) [
              | inl same ↦
                  let e : a ≡ k = (bytes_eq_iff a p.address).0 same ∙ h.keyed k p found in
                  let le' = h.late p (rw e found) in absurd (ground (arith, due, le', le))
              | inr other ↦ ground (arith, other)
            ];
            sequence_eq = refl;
            timeout_eq = refl;
          })
  ]
]

-- Two steps in a row.
after-IsQuiet :
    (a : Address) (t m n n' : ℕ) (timeout timeout' : Duration) (r r' : Blocker × List Call)
    → IsQuiet a t m timeout r
    → timeout' ≡ timeout
    → n' ≡ n
    → IsQuiet a t n' timeout' r'
    → IsQuiet a t n timeout (r'.0, r.1 ++ r'.1)
after-IsQuiet a t m n n' timeout timeout' r r' h e s h' = record {
  patient = h'.patient;
  silent = rw (blocklisted-append a r.1 r'.1, h.silent, h'.silent) refl;
  sequence_eq = h'.sequence_eq ∙ s;
  timeout_eq = h'.timeout_eq ∙ e;
}

block-IsQuiet :
    (a : Address) (t : ℕ) (b : Blocker) (keys : List Address)
    → IsPatient a t b
    → b.sequence ≤ t
    → IsQuiet a t b.sequence b.flag_timeout (block b keys)
unfolding block blocklisted
block-IsQuiet a t b [] h le = record {
  patient = h;
  silent = refl;
  sequence_eq = refl;
  timeout_eq = refl;
}
block-IsQuiet a t b (k ∷ keys) h le =
    let q = block_key-IsQuiet a k t b h le in
    let b' = (block_key b k).0 in
    let q' = block-IsQuiet a t b' keys q.patient (omega (arith, q.sequence_eq)) in
    after-IsQuiet a t b.sequence b.sequence b'.sequence b.flag_timeout b'.flag_timeout
      (block_key b k) (block b' keys) q q.timeout_eq q.sequence_eq q'

flag-IsPatient :
    (a addr : Address) (t : ℕ) (b : Blocker) (available : Bool)
    → IsPatient a t b
    → t ≤ b.sequence + resolved b.flag_timeout
    → b.sequence + resolved b.flag_timeout < uint64_end
    → IsPatient a t (flag b available addr)
unfolding flag
flag-IsPatient a addr t b false h le lt = h
flag-IsPatient a addr t b true h le lt =
    let new : Peer = record {
      block_after = (b.sequence + resolved b.flag_timeout) % uint64_end;
      address = addr;
    } in
    elim (Option-cases (lookup addr b.peers)) [
      | inr (p, found) ↦ rw (flag, found) h
      | inl missing ↦
          rw (flag, missing)
            (record {
              keyed = λ k p found.
                  ground
                    (arith, lookup-insert addr k new b.peers, bytes_eq_iff addr k, h.keyed k p);
              late = λ p found.
                  ground (arith, lookup-insert addr a new b.peers, bytes_eq_iff addr a, h.late p);
            })
    ]

seen_only-IsPatient :
    (a : Address) (t : ℕ) (b : Blocker) (seen : List Address)
    → IsPatient a t b
    → IsPatient a t (record b { peers = seen_only seen b.peers })
seen_only-IsPatient a t b seen h = record {
  keyed = λ k p found. ground (arith, lookup-seen_only k seen b.peers, h.keyed k p);
  late = λ p found. ground (arith, lookup-seen_only a seen b.peers, h.late p);
}

step-IsQuiet :
    (a : Address) (t : ℕ) (b : Blocker) (e : Event)
    → IsPatient a t b
    → b.sequence + elapsed_by e ≤ t
    → t ≤ b.sequence + resolved b.flag_timeout
    → t + resolved b.flag_timeout < uint64_end
    → IsQuiet a t (b.sequence + elapsed_by e) b.flag_timeout (step b e)
unfolding step tick unflag prune_unseen blocklisted flag
step-IsQuiet a t b (ticks true) h le t_le lt = record {
  patient = record { keyed = h.keyed; late = h.late };
  silent = refl;
  sequence_eq = omega arith;
  timeout_eq = refl;
}
step-IsQuiet a t b (ticks false) h le t_le lt = record {
  patient = h;
  silent = refl;
  sequence_eq = omega arith;
  timeout_eq = refl;
}
step-IsQuiet a t b (wakes keys) h le t_le lt =
    let e : b.sequence + 0 ≡ b.sequence = omega arith in
    rw e (block-IsQuiet a t b keys h (omega arith))
step-IsQuiet a t b (flags available addr) h le t_le lt = record {
  patient = flag-IsPatient a addr t b available h t_le (omega arith);
  silent = refl;
  sequence_eq = ground arith;
  timeout_eq = ground arith;
}
step-IsQuiet a t b (unflags addr) h le t_le lt = record {
  patient = delete-IsPatient a addr t b h;
  silent = refl;
  sequence_eq = omega arith;
  timeout_eq = refl;
}
step-IsQuiet a t b (prunes seen) h le t_le lt = record {
  patient = seen_only-IsPatient a t b seen h;
  silent = refl;
  sequence_eq = omega arith;
  timeout_eq = refl;
}

run-IsQuiet :
    (a : Address) (t : ℕ) (b : Blocker) (es : List Event)
    → IsPatient a t b
    → b.sequence + elapsed es ≤ t
    → t ≤ b.sequence + resolved b.flag_timeout
    → t + resolved b.flag_timeout < uint64_end
    → IsQuiet a t (b.sequence + elapsed es) b.flag_timeout (run b es)
unfolding run blocklisted
run-IsQuiet a t b [] h le t_le lt = record {
  patient = h;
  silent = refl;
  sequence_eq = omega arith;
  timeout_eq = refl;
}
run-IsQuiet a t b (e ∷ es) h le t_le lt =
    let q = step-IsQuiet a t b e h (omega arith) t_le lt in
    let b' = (step b e).0 in
    let same : resolved b'.flag_timeout ≡ resolved b.flag_timeout = ap resolved q.timeout_eq in
    let q' =
      run-IsQuiet a t b' es q.patient (omega (arith, q.sequence_eq))
        (omega (arith, q.sequence_eq, same)) (omega (arith, same)) in
    after-IsQuiet a t _ _ _ b.flag_timeout b'.flag_timeout (step b e) (run b' es) q q.timeout_eq
      (omega (arith, q.sequence_eq)) q'

-- A peer that is not flagged is not blocklisted before the clock has made more turns than the flag's
-- timeout has seconds, whatever happens meanwhile; nor is one that is due no earlier than that. Each
-- peer stands under its own key, and the sequence is taken to stay below 2^64 by twice that number.
pub run_not_blocklisted :
    (b : Blocker) (a : Address) (es : List Event)
    → IsPatient a (b.sequence + resolved b.flag_timeout) b
    → elapsed es ≤ resolved b.flag_timeout
    → b.sequence + 2 * resolved b.flag_timeout < uint64_end
    → (blocklisted a (run b es).1 ≡ false)
      × ((k : Address) (p : Peer) → lookup k (run b es).0.peers ≡ some p → p.address ≡ k)
run_not_blocklisted b a es h le lt =
    let q =
      run-IsQuiet a (b.sequence + resolved b.flag_timeout) b es h (omega arith) (omega arith)
        (omega arith) in
    (q.silent, q.patient.keyed)
