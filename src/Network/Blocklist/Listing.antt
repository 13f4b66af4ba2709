-- ===== src/Network/Blocklist/Listing.antt =====
-- What Peers lists.
use favor_x.Base.{
  ◌≡◌, refl, ◌∙◌, inl, inr, Bool, Bool-cases, true, false, not, none, some, ◌&&◌, ◌||◌, List, [],
  ◌∷◌, ◌++◌, arith, if◌then◌else◌,
}
use favor_x.Base.Bytes.{bytes_eq, bytes_eq_iff, bytes_eq_refl}
use favor_x.Base.Map.{Map, lookup}
use favor_x.Boson.{Address}
use favor_x.Network.Time.{Time}
use favor_x.Network.Blocklist.{Entry, Blocklist, is_over, BlockPeers, peers_from, peers, lists}
use favor_x.Network.Blocklist.Lasting.{blocked, blocked_lem, get_found}

-- All keys of m have an entry in b.
abbrev KeysIn : Map Entry → Blocklist → Type 0
KeysIn [] b = Unit
KeysIn ((k, e) ∷ m) b = ((f : Entry) × (lookup k b ≡ some f)) × KeysIn m b

more_KeysIn :
    (m : Map Entry) (b : Blocklist) (k : Address) (e : Entry) → KeysIn m b → KeysIn m ((k, e) ∷ b)
unfolding lookup
more_KeysIn [] b k e h = tt
more_KeysIn ((j, f) ∷ m) b k e h = (
  elim (Bool-cases (bytes_eq k j)) [
    | inl same ↦ (e, rw same refl)
    | inr other ↦ (h.0.0, rw other h.0.1)
  ],
  more_KeysIn m b k e h.1,
)

self_KeysIn : (b : Blocklist) → KeysIn b b
unfolding lookup
self_KeysIn [] = tt
self_KeysIn ((k, e) ∷ b) = ((e, rw (bytes_eq_refl k) refl), more_KeysIn b b k e (self_KeysIn b))

-- Whether a is a key of m.
abbrev has_key : Address → Map Entry → Bool
has_key a [] = false
has_key a ((k, e) ∷ m) = bytes_eq k a || has_key a m

lists-append :
    (a : Address) (ps qs : List BlockPeers) → lists a (ps ++ qs) ≡ (lists a ps || lists a qs)
unfolding lists
lists-append a [] qs = refl
lists-append a (p ∷ ps) qs = ground (arith, lists-append a ps qs)

peers_from_step :
    (b : Blocklist) (now : Address → Time) (k : Address) (e f : Entry) (m : Map Entry)
    (ps : List BlockPeers)
    → lookup k b ≡ some f
    → peers_from b (λ j. false) now ((k, e) ∷ m) ps ≡ (
        if is_over (now k) f.timestamp f.duration
        then peers_from b (λ j. false) now m ps
        else peers_from b
            (λ j. false)
            now
            m
            (ps ++ (record { address = k; timestamp = f.timestamp; duration = f.duration }) ∷ []))
unfolding peers_from
peers_from_step b now k e f m ps found = let g = get_found b k f found in rw (peers_from, g, g) refl

lists_one : (a : Address) (p : BlockPeers) → lists a (p ∷ []) ≡ bytes_eq p.address a
unfolding lists
lists_one a p = ground arith

-- The entry under k counts for a, if k is a.
counted :
    (x same more blocked_a over : Bool)
    → (same ≡ true → blocked_a ≡ not over)
    → (if over then x || (more && blocked_a) else (x || same) || (more && blocked_a))
      ≡ (x || ((same || more) && blocked_a))
counted x same more blocked_a over h = ground (arith, h)

blocked_same :
    (a : Address) (b : Blocklist) (now : Address → Time) (k : Address) (f : Entry)
    → lookup k b ≡ some f
    → bytes_eq k a ≡ true
    → blocked b a (now a) ≡ not (is_over (now k) f.timestamp f.duration)
blocked_same a b now k f found same =
    let e : k ≡ a = (bytes_eq_iff k a).0 same in rw (← e, blocked_lem b k (now k), found) refl

lists-peers_from :
    (a : Address) (b : Blocklist) (now : Address → Time) (m : Map Entry) (ps : List BlockPeers)
    → KeysIn m b
    → (lists a (peers_from b (λ k. false) now m ps).0
        ≡ (lists a ps || (has_key a m && blocked b a (now a))))
      × ((peers_from b (λ k. false) now m ps).1 ≡ none)
unfolding peers_from
lists-peers_from a b now [] ps h = ground arith
lists-peers_from a b now ((k, e) ∷ m) ps h =
    let f = h.0.0 in
    let p : BlockPeers = record { address = k; timestamp = f.timestamp; duration = f.duration } in
    let c =
      counted (lists a ps) (bytes_eq k a) (has_key a m) (blocked b a (now a))
        (is_over (now k) f.timestamp f.duration) (blocked_same a b now k f h.0.1) in
    elim (Bool-cases (is_over (now k) f.timestamp f.duration)) [
      | inl over ↦
          let r = lists-peers_from a b now m ps h.1 in
          rw (peers_from_step b now k e f m ps h.0.1, over) (r.0 ∙ (rw over at c), r.1)
      | inr lasts ↦
          let r = lists-peers_from a b now m (ps ++ p ∷ []) h.1 in
          rw (peers_from_step b now k e f m ps h.0.1, lasts)
            (r.0 ∙ rw (lists-append a ps (p ∷ []), lists_one a p) (rw lasts at c), r.1)
    ]

lookup_away : (a : Address) (b : Blocklist) → has_key a b ≡ false → lookup a b ≡ none
unfolding lookup
lookup_away a [] h = refl
lookup_away a ((k, e) ∷ b) h = ground (arith, lookup_away a b)

-- Only what stands in the map is blocked.
in_map : (a : Address) (b : Blocklist) (t : Time) → (has_key a b && blocked b a t) ≡ blocked b a t
in_map a b t = elim (Bool-cases (has_key a b)) [
  | inl here ↦ rw here refl
  | inr away ↦ rw (away, blocked_lem b a t, lookup_away a b away) refl
]

-- When the store works, Peers ends without error and lists exactly the peers for which Exists says that
-- they are blocked, each at the time at which its entry is read.
pub lists-peers :
    (a : Address) (b : Blocklist) (now : Address → Time)
    → (lists a (peers b (λ k. false) now).0 ≡ blocked b a (now a))
      × ((peers b (λ k. false) now).1 ≡ none)
unfolding peers lists
lists-peers a b now =
    let r = lists-peers_from a b now b [] (self_KeysIn b) in (r.0 ∙ in_map a b (now a), r.1)
