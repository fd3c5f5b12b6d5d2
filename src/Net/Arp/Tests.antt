-- ===== src/Net/Arp/Tests.antt =====
-- arp.c on two stations, 10.0.0.1 and 10.0.0.2, with small tables.
use kappara.Base.{ℕ, ◌≡◌, inl, refl, true, false, none, some, List, [], ◌∷◌, ◌++◌, arith, drop}
use kappara.Net.Arp.{
  Arp, ArpIf, Entry, Hold, Mac, mac_bytes, arp_learn, arp_lookup, arp_hold_flush, park,
  arp_resolve_hold, bcast,
}
use kappara.Net.Arp.Cache.{Learns, arp_learn-Learns}
use kappara.Net.Arp.Holds.{used}
use kappara.Net.Arp.Exchange.{Resolved, asking, answering, done, arp_exchange-Resolved}

abbrev mac_a : Mac
mac_a = record { b0 = 2; b1 = 0; b2 = 0; b3 = 0; b4 = 0; b5 = 10 }

abbrev mac_b : Mac
mac_b = record { b0 = 2; b1 = 0; b2 = 0; b3 = 0; b4 = 0; b5 = 11 }

abbrev ip_a : ℕ
ip_a = 0x0a000001

abbrev ip_b : ℕ
ip_b = 0x0a000002

abbrev if_a : ArpIf
if_a = record { mac = mac_a; nif_ip = some ip_a; nif_name = 1; driver = 7 }

abbrev if_b : ArpIf
if_b = record { mac = mac_b; nif_ip = some ip_b; nif_name = 1; driver = 8 }

abbrev free_entry : Entry
free_entry = record { ip = 0; mac = bcast; ifname = 0; stamp = 0 }

abbrev entry : ℕ → ℕ → Entry
entry ip stamp = record { ip = ip; mac = mac_b; ifname = 1; stamp = stamp }

abbrev free_hold : Hold
free_hold = record { ip = 0; len = 0; aif = none; stamp = 0; frame = [] }

-- A station that has just started.
abbrev started : Arp
started = record {
  cache = free_entry ∷ free_entry ∷ [];
  holds = free_hold ∷ free_hold ∷ [];
  now = 1000;
  ticks_per_s = 10;
  sent = [];
}

-- A station whose table is full, with its oldest entry in the middle.
abbrev full : Arp
full = record started { cache = entry 21 500 ∷ entry 22 300 ∷ entry 23 400 ∷ [] }

abbrev payload : List ℕ
payload = 0 ∷ 0 ∷ 0 ∷ 0 ∷ 0 ∷ 0 ∷ 2 ∷ 0 ∷ 0 ∷ 0 ∷ 0 ∷ 10 ∷ 8 ∷ 0 ∷ 69 ∷ 1 ∷ []

oldest_leaves : arp_lookup (arp_learn full 24 mac_a 1) 22 ≡ none
unfolding arp_lookup arp_learn
oldest_leaves = refl

others_stay : arp_lookup (arp_learn full 24 mac_a 1) 21 ≡ some (mac_b, false)
unfolding arp_lookup arp_learn
others_stay = refl

goes_stale : arp_lookup (record full { now = 3501 }) 21 ≡ some (mac_b, true)
unfolding arp_lookup
goes_stale = refl

short_is_dropped : arp_resolve_hold started if_a ip_b (1 ∷ 2 ∷ []) ≡ (none, started)
unfolding arp_resolve_hold
short_is_dropped = refl

-- A second frame for the same address takes the place of the first.
newest_wins :
    (arp_hold_flush (park (park started if_a ip_b (5 ∷ payload)) if_a ip_b payload) ip_b mac_b).sent
    ≡ (7, mac_bytes mac_b ++ drop 6 payload) ∷ []
unfolding arp_hold_flush park
newest_wins = refl

arp_learn-Learns_example : Learns full 24 mac_a 1 (arp_learn full 24 mac_a 1)
arp_learn-Learns_example =
    arp_learn-Learns full 24 mac_a 1 (λ e. absurd (ground (arith, e))) (omega arith) (omega arith)

-- A station that has resolved an address before.
abbrev resolved : Arp
resolved = record started { holds = record free_hold { aif = some 7 } ∷ free_hold ∷ [] }

spurious_frame : used resolved.holds ≡ (7, []) ∷ []
unfolding used
spurious_frame = refl

unknown : arp_lookup started ip_b ≡ none
unfolding arp_lookup
unknown = refl

arp_exchange-Resolved_example :
    Resolved started if_a if_b ip_a ip_b payload
      (asking started started if_a if_b ip_a ip_b payload)
      (answering started started if_a if_b ip_a ip_b payload)
      (done started started if_a if_b ip_a ip_b payload)
arp_exchange-Resolved_example =
    arp_exchange-Resolved started started if_a if_b ip_a ip_b payload refl refl (omega arith)
      (omega arith) (omega arith) (omega arith) (λ e. absurd (ground (arith, e)))
      (λ e. absurd (ground (arith, e))) (omega arith) (omega arith)
      (λ e. absurd (ground (arith, e))) (inl refl, (inl refl, tt)) unknown (omega arith)
      (omega arith)
