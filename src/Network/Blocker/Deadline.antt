-- ===== src/Network/Blocker/Deadline.antt =====
-- When a flagged peer is blocklisted.
use favor_x.Base.{
  ℕ, ◌+◌, ◌<◌, ◌%◌, ◌≡◌, refl, ◌∙◌, ◌⊎◌, inl, inr, Bool, Bool-cases, true, false, Option-cases,
  none, some, ◌&&◌, ◌||◌, List, [], ◌∷◌, ◌++◌, arith, ltb, if◌then◌else◌,
}
use favor_x.Base.Bytes.{bytes_eq, bytes_eq_iff, bytes_eq_refl}
use favor_x.Base.Map.{Map, lookup, lookup-insert, lookup-delete}
use favor_x.Boson.{Address, member_of}
use favor_x.Network.Blocker.{
  Peer, Blocker, uint64_end, Call, blocklist, calls_back, block_key, block, resolved, flag, unflag,
  seen_only, prune_unseen, tick, Event, ticks, wakes, flags, unflags, prunes, step, run,
  blocklisted,
}

pub lookup-seen_only :
    (a : Address) (seen : List Address) (m : Map Peer)
    → lookup a (seen_only seen m) ≡ (if member_of a seen then lookup a m else none)
unfolding lookup seen_only
lookup-seen_only a seen [] = ground arith
lookup-seen_only a seen ((k, p) ∷ m) = elim (Bool-cases (bytes_eq k a)) [
  | inl e ↦ rw ((bytes_eq_iff k a).0 e) (ground (arith, bytes_eq_refl a, lookup-seen_only a seen m))
  | inr e ↦ ground (arith, lookup-seen_only a seen m)
]

pub blocklisted-append :
    (a : Address) (cs ds : List Call)
    → blocklisted a (cs ++ ds) ≡ (blocklisted a cs || blocklisted a ds)
unfolding blocklisted
blocklisted-append a [] ds = refl
blocklisted-append a (blocklist b d ∷ cs) ds = ground (arith, blocklisted-append a cs ds)
blocklisted-append a (calls_back b ∷ cs) ds = blocklisted-append a cs ds

-- The peer a is flagged, and due when the sequence passes t.
abbrev pub Waits : Address → ℕ → Blocker → Type 0
Waits a t b = lookup a b.peers ≡ some (record { block_after = t; address = a })

-- A step blocklists a or lets it wait.
abbrev Goes : Address → ℕ → ℕ → Blocker × List Call → Type 0
Goes a t n r = (blocklisted a r.1 ≡ true) ⊎ (Waits a t r.0 × (r.0.sequence ≡ n))

-- A peer that is due is blocklisted when the loop comes to it.
block_key_due :
    (a : Address) (t : ℕ) (b : Blocker)
    → Waits a t b
    → 0 < t
    → t < b.sequence
    → blocklisted a (block_key b a).1 ≡ true
unfolding block_key blocklisted
block_key_due a t b h pos_t due =
    let e : (ltb 0 t && ltb t b.sequence) ≡ true = ground arith in
    rw (block_key, h, e, bytes_eq_refl a) refl

block_key-Goes :
    (a k : Address) (t : ℕ) (b : Blocker) → Waits a t b → Goes a t b.sequence (block_key b k)
unfolding block_key blocklisted
block_key-Goes a k t b h = elim (Bool-cases (bytes_eq k a)) [
  | inl e ↦ rw ((bytes_eq_iff k a).0 e) (elim (Bool-cases (ltb 0 t && ltb t b.sequence)) [
    | inl due ↦ inl (rw (block_key, h, due, bytes_eq_refl a) refl)
    | inr early ↦ rw (block_key, h, early) (inr (h, refl))
  ])
  | inr e ↦ elim (Option-cases (lookup k b.peers)) [
    | inl missing ↦ rw (block_key, missing) (inr (h, refl))
    | inr (p, found) ↦ elim (Bool-cases (ltb 0 p.block_after && ltb p.block_after b.sequence)) [
      | inl due ↦ rw (block_key, found, due) (inr (rw (lookup-delete k a b.peers, e) h, refl))
      | inr early ↦ rw (block_key, found, early) (inr (h, refl))
    ]
  ]
]

block-Goes :
    (a : Address) (t : ℕ) (b : Blocker) (keys : List Address)
    → Waits a t b
    → Goes a t b.sequence (block b keys)
unfolding block blocklisted
block-Goes a t b [] h = inr (h, refl)
block-Goes a t b (k ∷ keys) h = elim (block_key-Goes a k t b h) [
  | inl done ↦
      inl (rw (blocklisted-append a (block_key b k).1 (block (block_key b k).0 keys).1, done) refl)
  | inr (h', same) ↦ elim (block-Goes a t (block_key b k).0 keys h') [
    | inl done ↦ inl (
        ground
          (arith, blocklisted-append a (block_key b k).1 (block (block_key b k).0 keys).1, done))
    | inr (h'', same') ↦ inr (h'', same' ∙ same)
  ]
]

-- When `block` comes to a peer that is due, the peer is blocklisted.
block_due :
    (a : Address) (t : ℕ) (b : Blocker) (keys : List Address)
    → Waits a t b
    → 0 < t
    → t < b.sequence
    → member_of a keys ≡ true
    → blocklisted a (block b keys).1 ≡ true
unfolding block member_of
block_due a t b [] h pos_t due in_keys = absurd (ground arith)
block_due a t b (k ∷ keys) h pos_t due in_keys =
    let e = blocklisted-append a (block_key b k).1 (block (block_key b k).0 keys).1 in
    elim (Bool-cases (bytes_eq k a)) [
      | inl here ↦
          let at_a : blocklisted a (block_key b k).1 ≡ true =
            rw ((bytes_eq_iff k a).0 here) (block_key_due a t b h pos_t due) in
          rw (e, at_a) refl
      | inr elsewhere ↦ elim (block_key-Goes a k t b h) [
        | inl done ↦ rw (e, done) refl
        | inr (h', same) ↦
            let later =
              block_due a t (block_key b k).0 keys h' pos_t (omega arith)
                (rw elsewhere at in_keys) in
            ground (arith, e, later)
      ]
    ]

-- The step neither unflags a nor prunes it as unseen.
abbrev pub Keeps : Address → Event → Type 0
Keeps a (ticks available) = Unit
Keeps a (wakes keys) = Unit
Keeps a (flags available addr) = Unit
Keeps a (unflags addr) = bytes_eq addr a ≡ false
Keeps a (prunes seen) = member_of a seen ≡ true

abbrev pub AllKeep : Address → List Event → Type 0
AllKeep a [] = Unit
AllKeep a (e ∷ es) = Keeps a e × AllKeep a es

-- The turns of the clock while the network is available.
abbrev pub elapsed_by : Event → ℕ
elapsed_by (ticks available) = if available then 1 else 0
elapsed_by (wakes keys) = 0
elapsed_by (flags available addr) = 0
elapsed_by (unflags addr) = 0
elapsed_by (prunes seen) = 0

abbrev pub elapsed : List Event → ℕ
elapsed [] = 0
elapsed (e ∷ es) = elapsed_by e + elapsed es

flag-Waits :
    (a addr : Address) (t : ℕ) (b : Blocker) (available : Bool)
    → Waits a t b
    → Waits a t (flag b available addr) × ((flag b available addr).sequence ≡ b.sequence)
unfolding flag
flag-Waits a addr t b false h = (h, refl)
flag-Waits a addr t b true h = elim (Option-cases (lookup addr b.peers)) [
  | inr (p, found) ↦ rw (flag, found) (h, refl)
  | inl missing ↦ elim (Bool-cases (bytes_eq addr a)) [
    | inl same ↦ let e : addr ≡ a = (bytes_eq_iff addr a).0 same in absurd cc
    | inr other ↦ rw (flag, missing) (rw (lookup-insert addr a _ b.peers, other) h, refl)
  ]
]

step-Goes :
    (a : Address) (t : ℕ) (b : Blocker) (e : Event)
    → Waits a t b
    → Keeps a e
    → b.sequence + elapsed_by e < uint64_end
    → Goes a t (b.sequence + elapsed_by e) (step b e)
unfolding step tick unflag prune_unseen
step-Goes a t b (ticks true) h k lt = inr (h, omega (arith, lt))
step-Goes a t b (ticks false) h k lt = inr (h, omega arith)
step-Goes a t b (wakes keys) h k lt =
    let e : b.sequence + 0 ≡ b.sequence = omega arith in rw e (block-Goes a t b keys h)
step-Goes a t b (flags available addr) h k lt =
    let f = flag-Waits a addr t b available h in inr (f.0, f.1 ∙ omega arith)
step-Goes a t b (unflags addr) h k lt = inr (rw (lookup-delete addr a b.peers, k) h, omega arith)
step-Goes a t b (prunes seen) h k lt = inr (rw (lookup-seen_only a seen b.peers, k) h, omega arith)

run-Goes :
    (a : Address) (t : ℕ) (b : Blocker) (es : List Event)
    → Waits a t b
    → AllKeep a es
    → b.sequence + elapsed es < uint64_end
    → Goes a t (b.sequence + elapsed es) (run b es)
unfolding run blocklisted
run-Goes a t b [] h k lt = inr (h, omega arith)
run-Goes a t b (e ∷ es) h k lt =
    let c = blocklisted-append a (step b e).1 (run (step b e).0 es).1 in
    elim (step-Goes a t b e h k.0 (omega arith)) [
      | inl done ↦ inl (rw (c, done) refl)
      | inr (h', s) ↦ elim (run-Goes a t (step b e).0 es h' k.1 (omega arith)) [
        | inl done ↦ inl (ground (arith, c, done))
        | inr (h'', s') ↦ inr (h'', omega arith)
      ]
    ]

run-append :
    (b : Blocker) (es fs : List Event) (a : Address)
    → blocklisted a (run b (es ++ fs)).1
      ≡ (blocklisted a (run b es).1 || blocklisted a (run (run b es).0 fs).1)
unfolding run blocklisted
run-append b [] fs a = refl
run-append b (e ∷ es) fs a = ground (
  arith,
  blocklisted-append a (step b e).1 (run (step b e).0 (es ++ fs)).1,
  blocklisted-append a (step b e).1 (run (step b e).0 es).1,
  run-append (step b e).0 es fs a,
)

flagged-Waits :
    (b : Blocker) (a : Address)
    → lookup a b.peers ≡ none
    → b.sequence + resolved b.flag_timeout < uint64_end
    → Waits a (b.sequence + resolved b.flag_timeout) (flag b true a)
      × ((flag b true a).sequence ≡ b.sequence)
unfolding flag
flagged-Waits b a missing lt =
    let e : (b.sequence + resolved b.flag_timeout) % uint64_end
        ≡ b.sequence + resolved b.flag_timeout =
      omega arith in
    rw (flag, missing, e) (rw (lookup-insert a a _ b.peers, bytes_eq_refl a) refl, refl)

wake_due :
    (a : Address) (t : ℕ) (b : Blocker) (keys : List Address)
    → Waits a t b
    → 0 < t
    → t < b.sequence
    → member_of a keys ≡ true
    → blocklisted a (run b (wakes keys ∷ [])).1 ≡ true
unfolding run step
wake_due a t b keys h pos_t due in_keys =
    rw (blocklisted-append a (block b keys).1 [], block_due a t b keys h pos_t due in_keys) refl

-- A peer that is flagged while the network is available is blocklisted, at the latest, by the first
-- turn of `block` that comes to it after the clock has made more turns than the flag's timeout has
-- seconds; whatever else happens before, unless it is unflagged or pruned as unseen. The sequence is
-- taken not to reach 2^64.
pub run-blocklisted :
    (b : Blocker) (a : Address) (es : List Event) (keys : List Address)
    → lookup a b.peers ≡ none
    → 0 < resolved b.flag_timeout
    → AllKeep a es
    → resolved b.flag_timeout < elapsed es
    → b.sequence + elapsed es < uint64_end
    → member_of a keys ≡ true
    → blocklisted a (run b (flags true a ∷ es ++ wakes keys ∷ [])).1 ≡ true
run-blocklisted b a es keys missing q_pos k late lt in_keys =
    let t = b.sequence + resolved b.flag_timeout in
    let b' = flag b true a in
    let w = flagged-Waits b a missing (omega arith) in
    let c = run-append b' es (wakes keys ∷ []) a in
    unfold run step in
    elim (run-Goes a t b' es w.0 k (omega (arith, w.1))) [
      | inl done ↦ rw (c, done) refl
      | inr (h', s) ↦
          let last =
            wake_due a t (run b' es).0 keys h' (omega arith) (omega (arith, s, w.1)) in_keys in
          ground (arith, c, last)
    ]
