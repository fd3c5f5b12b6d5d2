-- ===== src/Net/Arp/Cache.antt =====
-- arp.c: `arp_learn` and `arp_lookup` as a bounded map from addresses.
use kappara.Base.{
  ℕ, ◌^◌, ◌<◌, ◌≡◌, ◌≢◌, ◌⊎◌, refl, sym, ap, ◌∙◌, subst, false, some, List, [], arith, set,
  get_elem?,
}
use kappara.Net.Arp.{Arp, Entry, Mac, on_hit, choose_slot, arp_learn, arp_lookup}
use kappara.Net.Arp.Slots.{Lacks, Once, find-set_self, find-set_ne, Once-set}
use kappara.Net.Arp.Choice.{Oldest, choose_slot-Chosen}

abbrev pub ip_of : Entry → ℕ
ip_of e = e.ip

abbrev pub stamp_of : Entry → ℕ
stamp_of e = e.stamp

-- `old` is an entry that may make room for `ip`: its own, a free one, or the oldest of a full table.
abbrev pub MakesRoom : List Entry → ℕ → Entry → Type 0
MakesRoom es ip old =
    (old.ip ≡ ip)
    ⊎ (Lacks ip_of ip es × ((old.ip ≡ 0) ⊎ (Lacks ip_of 0 es × Oldest ip_of stamp_of old.stamp es)))

-- What learning an address does to the table: the entry of one slot, `old`, is replaced.
pub record Learns (s : Arp) (ip : ℕ) (mac : Mac) (ifname : ℕ) (t : Arp) : Type 0 where
  pub slot : ℕ
  pub old : Entry
  pub there : get_elem? s.cache slot ≡ some old
  pub replaced :
      t.cache ≡ set s.cache slot (record { ip = ip; mac = mac; ifname = ifname; stamp = s.now })
  pub makes_room : MakesRoom s.cache ip old
  pub found : arp_lookup t ip ≡ some (mac, false)
  pub others : (q : ℕ) → q ≢ ip → q ≢ old.ip → arp_lookup t q ≡ arp_lookup s q
  pub once : Once ip_of s.cache → Once ip_of t.cache

-- The table with the entry in its slot.
abbrev pub learnt : ℕ → ℕ → Mac → ℕ → Entry
learnt now ip mac ifname = record { ip = ip; mac = mac; ifname = ifname; stamp = now }

abbrev pub stored : Arp → ℕ → Mac → ℕ → Arp
stored s ip mac ifname = record s {
  cache = set s.cache (choose_slot ip_of stamp_of ip s.cache) (learnt s.now ip mac ifname);
}

pub arp_learn-stored :
    (s : Arp) (ip : ℕ) (mac : Mac) (ifname : ℕ)
    → ip ≢ 0
    → arp_learn s ip mac ifname ≡ stored s ip mac ifname
unfolding arp_learn
arp_learn-stored s ip mac ifname h = ground (arith, h)

fresh :
    (s : Arp) (e : Entry)
    → s.now < 2 ^ 64
    → e.stamp ≡ s.now
    → on_hit s (some e) ≡ some (e.mac, false)
unfolding on_hit
fresh s e small p = ground (arith, p, small)

stored-Learns :
    (s : Arp) (ip : ℕ) (mac : Mac) (ifname : ℕ)
    → s.cache ≢ []
    → s.now < 2 ^ 64
    → Learns s ip mac ifname (stored s ip mac ifname)
unfolding arp_lookup
stored-Learns s ip mac ifname full small =
    let k = choose_slot ip_of stamp_of ip s.cache in
    let (old, at, place, room) = choose_slot-Chosen ip_of stamp_of ip s.cache full in
    let t = stored s ip mac ifname in
    let entry = learnt s.now ip mac ifname in
    record {
      slot = k;
      old = old;
      there = at;
      replaced = refl;
      makes_room = room;
      found =
          ap (on_hit t) (find-set_self ip_of ip k s.cache entry refl place)
          ∙ fresh t entry small refl;
      others = λ q n m.
          ap (on_hit t)
            (find-set_ne ip_of q k s.cache entry old at (λ e. n (sym e)) (λ e. m (sym e)));
      once = λ o. Once-set ip_of k s.cache entry o place;
    }

-- Learning an address other than 0: it is then found, with the new station and not stale. Its entry,
-- with the time, replaces that of one slot, and nothing else in the table changes. The entry that
-- stood there is the address's own; or, where the address has none, a free one; or, where no entry is
-- free, one that is not later than any other. Every address but that entry's is found as before. No
-- address comes to stand in the table twice.
pub arp_learn-Learns :
    (s : Arp) (ip : ℕ) (mac : Mac) (ifname : ℕ)
    → s.cache ≢ []
    → s.now < 2 ^ 64
    → ip ≢ 0
    → Learns s ip mac ifname (arp_learn s ip mac ifname)
arp_learn-Learns s ip mac ifname full small h =
    subst (Learns s ip mac ifname) (sym (arp_learn-stored s ip mac ifname h))
      (stored-Learns s ip mac ifname full small)
