-- ===== src/Network/Blocklist/Tests.antt =====
-- A list with a peer that is blocked until 15 and one that is blocked for ever.
use favor_x.Base.{◌≡◌, refl, true, false, none, some, [], ◌∷◌, arith, if◌then◌else◌}
use favor_x.Base.Int.{pos, ◌-ℤ◌, saturate_int64, ◌≤ℤ◌}
use favor_x.Base.Bytes.{bytes_eq}
use favor_x.Base.Map.{lookup, insert, delete}
use favor_x.Boson.{Address}
use favor_x.Network.Time.{sub_time}
use favor_x.Network.Blocklist.{Entry, Blocklist, get, exists, longer, add, peers, lists}
use favor_x.Network.Blocklist.Lasting.{blocked, blocked-add}
use favor_x.Network.Blocklist.Listing.{lists-peers}

abbrev one : Address
one = 1 ∷ []

abbrev two : Address
two = 2 ∷ []

abbrev list : Blocklist
list =
    (one, record { timestamp = pos 5; duration = pos 10 })
    ∷ (two, record { timestamp = pos 5; duration = pos 0 })
    ∷ []

past : (e : Entry) → lookup one list ≡ some e → e.timestamp ≤ℤ pos 8
unfolding lookup bytes_eq
past e found = ground arith

blocked-add_example :
    blocked (add list false false one (pos 3) (pos 8)).0 two (pos 14)
    ≡ (if bytes_eq one two then true else blocked list two (pos 14))
blocked-add_example =
    blocked-add list one two (pos 3) (pos 8) (pos 14) past
      (unfold exists get lookup bytes_eq sub_time ◌-ℤ◌ saturate_int64 in refl)

lists-peers_example :
    (lists two (peers list (λ k. false) (λ k. pos 20)).0 ≡ blocked list two (pos 20))
    × ((peers list (λ k. false) (λ k. pos 20)).1 ≡ none)
lists-peers_example = lists-peers two list (λ k. pos 20)

-- At 16 the first peer's time is over, and its entry goes away.
over_at_16 : (exists list false one (pos 16)).1 ≡ false
unfolding exists get lookup delete bytes_eq sub_time ◌-ℤ◌ saturate_int64
over_at_16 = refl

-- A shorter time from later on lasts as long as the old duration from then on.
shorter :
    (add list false false one (pos 3) (pos 8)).0
    ≡ (one, record { timestamp = pos 8; duration = pos 10 })
      ∷ (two, record { timestamp = pos 5; duration = pos 0 })
      ∷ []
unfolding add get lookup insert longer bytes_eq
shorter = refl
