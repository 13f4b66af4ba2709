-- ===== src/Network/Blocklist/Lasting.antt =====
-- How long a peer stays blocked.
use favor_x.Base.{
  ◌≡◌, refl, inl, inr, Bool, Bool-cases, Option-cases, true, false, not, none, some, ◌&&◌, ◌||◌,
  arith, if◌then◌else◌,
}
use favor_x.Base.Int.{pos, negsuc, ◌≤ℤ◌, ltb_ℤ, leb_ℤ, eqb_ℤ}
use favor_x.Base.Bytes.{bytes_eq}
use favor_x.Base.Map.{lookup, insert, delete, lookup-insert}
use favor_x.Boson.{Address}
use favor_x.Network.Time.{Time, Duration, sub_time}
use favor_x.Network.Time.Order.{sub_mono}
use favor_x.Network.Blocklist.{Entry, Blocklist, not_found, get, is_over, exists, longer, add}

-- What Exists answers when the store works.
abbrev pub blocked : Blocklist → Address → Time → Bool
blocked b a now = (exists b false a now).1

pub get_found :
    (b : Blocklist) (a : Address) (e : Entry)
    → lookup a b ≡ some e
    → get b false a ≡ (e.timestamp, e.duration, none)
unfolding get
get_found b a e found = rw (get, found) refl

get_missing :
    (b : Blocklist) (a : Address)
    → lookup a b ≡ none
    → get b false a ≡ (pos 0, negsuc 0, some not_found)
unfolding get
get_missing b a missing = rw (get, missing) refl

exists_lem :
    (b : Blocklist) (a : Address) (now : Time)
    → exists b false a now ≡ (elim (lookup a b) [
      | none ↦ (b, false, none)
      | some e ↦
          if is_over now e.timestamp e.duration then (delete a b, false, none) else (b, true, none)
    ])
unfolding exists
exists_lem b a now = elim (Option-cases (lookup a b)) [
  | inl missing ↦ rw (exists, get_missing b a missing, missing) refl
  | inr (e, found) ↦ rw (exists, get_found b a e found, get_found b a e found, found) refl
]

pub blocked_lem :
    (b : Blocklist) (a : Address) (now : Time)
    → blocked b a now
      ≡ (elim (lookup a b) [ none ↦ false | some e ↦ not (is_over now e.timestamp e.duration) ])
blocked_lem b a now = elim (Option-cases (lookup a b)) [
  | inl missing ↦ rw (blocked, exists_lem b a now, missing) refl
  | inr (e, found) ↦ elim (Bool-cases (is_over now e.timestamp e.duration)) [
    | inl over ↦ rw (blocked, exists_lem b a now, found, over) refl
    | inr lasts ↦ rw (blocked, exists_lem b a now, found, lasts) refl
  ]
]

-- The duration that Add finds.
abbrev old_duration : Blocklist → Address → Duration
old_duration b a = elim (lookup a b) [ none ↦ negsuc 0 | some e ↦ e.duration ]

add_lem :
    (b : Blocklist) (a : Address) (d : Duration) (now : Time)
    → add b false false a d now
      ≡ (insert a (record { timestamp = now; duration = longer d (old_duration b a) }) b, none)
unfolding add
add_lem b a d now = elim (Option-cases (lookup a b)) [
  | inl missing ↦
      rw (add, get_missing b a missing, get_missing b a missing, old_duration, missing) refl
  | inr (e, found) ↦
      rw (add, get_found b a e found, get_found b a e found, old_duration, found) refl
]

-- The longer duration lasts as long as either does.
longer_lasts :
    (d old : Duration) (before after : Duration)
    → after ≤ℤ before
    → (not (ltb_ℤ old before && not (eqb_ℤ old (pos 0))) || leb_ℤ after d || eqb_ℤ d (pos 0)) ≡ true
    → not (ltb_ℤ (longer d old) after && not (eqb_ℤ (longer d old) (pos 0))) ≡ true
unfolding longer
longer_lasts d old before after le h = ground arith

-- With nothing there, what is given is not shortened.
longer_new :
    (d after : Duration)
    → (leb_ℤ after d || eqb_ℤ d (pos 0)) ≡ true
    → not (ltb_ℤ (longer d (negsuc 0)) after && not (eqb_ℤ (longer d (negsuc 0)) (pos 0))) ≡ true
unfolding longer
longer_new d after h = ground arith

new_lasts :
    (b : Blocklist) (a : Address) (d : Duration) (now later : Time)
    → ((e : Entry) → lookup a b ≡ some e → e.timestamp ≤ℤ now)
    → (blocked b a later || leb_ℤ (sub_time later now) d || eqb_ℤ d (pos 0)) ≡ true
    → not (is_over later now (longer d (old_duration b a))) ≡ true
new_lasts b a d now later past h = elim (Option-cases (lookup a b)) [
  | inl missing ↦
      rw (old_duration, missing)
        (longer_new d (sub_time later now) (rw (blocked_lem b a later, missing) at h))
  | inr (e, found) ↦
      rw (old_duration, found)
        (longer_lasts d e.duration (sub_time later e.timestamp) (sub_time later now)
          (sub_mono later e.timestamp now (past e found)) (rw (blocked_lem b a later, found) at h))
]

-- Add never shortens a block: when the store works and the clock has not gone back, a peer that was
-- blocked at a time still is, and so it is for the given duration from now on, or for ever when that
-- is 0; the other peers are blocked as before.
pub blocked-add :
    (b : Blocklist) (a c : Address) (d : Duration) (now later : Time)
    → ((e : Entry) → lookup a b ≡ some e → e.timestamp ≤ℤ now)
    → (blocked b a later || leb_ℤ (sub_time later now) d || eqb_ℤ d (pos 0)) ≡ true
    → blocked (add b false false a d now).0 c later
      ≡ (if bytes_eq a c then true else blocked b c later)
blocked-add b a c d now later past h =
    let new : Entry = record { timestamp = now; duration = longer d (old_duration b a) } in
    let lasts = new_lasts b a d now later past h in
    rw (add_lem b a d now, blocked_lem (insert a new b) c later, lookup-insert a c new b)
      (elim (Bool-cases (bytes_eq a c)) [
        | inl same ↦ rw (same, lasts) refl
        | inr other ↦ rw (other, blocked_lem b c later) refl
      ])
