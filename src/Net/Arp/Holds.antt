-- ===== src/Net/Arp/Holds.antt =====
-- arp.c: the frames that wait for an address, from the miss to the reply.
use kappara.Base.{
  ℕ, zero, suc, ◌≤◌, ◌≡◌, ◌≢◌, ◌⊎◌, inl, inr, refl, sym, ap, ◌∙◌, subst, none, some, List, [], ◌∷◌,
  ◌++◌, arith, ◌==◌, if◌then◌else◌, length, set, drop, length-drop, take-all, All, Bool-cases,
  if-elim,
}
use kappara.Net.Arp.{
  Arp, ArpIf, Mac, Hold, mac_bytes, arp_hold_max, choose_slot, flush_holds, arp_hold_flush,
  addressed, park,
}
use kappara.Net.Arp.Slots.{Lacks, Once, Place, Once-set}
use kappara.Net.Arp.Choice.{choose_slot-Chosen}

abbrev pub hold_ip : Hold → ℕ
hold_ip h = h.ip

abbrev pub hold_stamp : Hold → ℕ
hold_stamp h = h.stamp

flush-Lacks :
    (ip : ℕ) (mac : Mac) (hs : List Hold) → Lacks hold_ip ip hs → (flush_holds ip mac hs ≡ ([], hs))
unfolding flush_holds
flush-Lacks ip mac [] l = refl
flush-Lacks ip mac (h ∷ hs) l = ground (arith, l, flush-Lacks ip mac hs l.1)

-- After a flush no slot waits for the address.
flush_holds-Lacks :
    (ip : ℕ) (mac : Mac) (hs : List Hold) → ip ≢ 0 → Lacks hold_ip ip (flush_holds ip mac hs).1
unfolding flush_holds
flush_holds-Lacks ip mac [] n = tt
flush_holds-Lacks ip mac (h ∷ hs) n = ground (arith, n, flush_holds-Lacks ip mac hs n)

tail-Lacks :
    (ip : ℕ) (g : Hold) (hs : List Hold)
    → ip ≢ 0
    → (g.ip ≡ 0) ⊎ Lacks hold_ip g.ip hs
    → (g.ip ≡ ip) ⊎ Lacks hold_ip ip (g ∷ hs)
    → Lacks hold_ip ip hs
tail-Lacks ip g hs n (inl z) (inl e) = absurd (omega (arith, n, z, e))
tail-Lacks ip g hs n (inr l) (inl e) = subst (λ i. Lacks hold_ip i hs) e l
tail-Lacks ip g hs n o (inr l) = l.1

-- A frame in the slot of its address is what a flush sends.
flush-set :
    (ip : ℕ) (mac : Mac) (k : ℕ) (hs : List Hold) (h : Hold) (driver : ℕ)
    → ip ≢ 0
    → h.ip ≡ ip
    → h.aif ≡ some driver
    → Once hold_ip hs
    → Place hold_ip ip hs k
    → (flush_holds ip mac (set hs k h)).0 ≡ (driver, addressed mac h) ∷ []
unfolding flush_holds
flush-set ip mac k [] h driver n e a o p = absurd p
flush-set ip mac zero (g ∷ hs) h driver n e a o p =
    ground (arith, e, a, flush-Lacks ip mac hs (tail-Lacks ip g hs n o.0 p))
flush-set ip mac (suc k) (g ∷ hs) h driver n e a o p =
    ground (arith, p.0, flush-set ip mac k hs h driver n e a o.1 p.1)

Lacks-flush :
    (q ip : ℕ) (mac : Mac) (hs : List Hold)
    → q ≢ 0
    → Lacks hold_ip q hs
    → Lacks hold_ip q (flush_holds ip mac hs).1
unfolding flush_holds
Lacks-flush q ip mac [] n l = tt
Lacks-flush q ip mac (h ∷ hs) n l = ground (arith, n, l.0, Lacks-flush q ip mac hs n l.1)

once_stays :
    (ip : ℕ) (mac : Mac) (h : Hold) (hs : List Hold)
    → (h.ip ≡ 0) ⊎ Lacks hold_ip h.ip hs
    → (h.ip ≡ 0) ⊎ Lacks hold_ip h.ip (flush_holds ip mac hs).1
once_stays ip mac h hs (inl z) = inl z
once_stays ip mac h hs (inr l) = elim (Bool-cases (h.ip == 0)) [
  | inl z ↦ inl (ground (arith, z))
  | inr n ↦ inr (Lacks-flush h.ip ip mac hs (ground (arith, n)) l)
]

Once-flush :
    (ip : ℕ) (mac : Mac) (hs : List Hold) → Once hold_ip hs → Once hold_ip (flush_holds ip mac hs).1
unfolding flush_holds
Once-flush ip mac [] o = tt
Once-flush ip mac (h ∷ hs) o =
    let rest = Once-flush ip mac hs o.1 in
    if-elim (λ (r : List (ℕ × List ℕ) × List Hold). Once hold_ip r.1) (h.ip == ip)
      (λ _. (inl refl, rest)) (λ _. (once_stays ip mac h hs o.0, rest))

-- The slot that `park` fills.
abbrev pub parked : Arp → ArpIf → ℕ → List ℕ → Hold
parked s aif ip frame = record {
  ip = ip;
  len = length frame;
  aif = some aif.driver;
  stamp = s.now;
  frame = frame;
}

-- The table with that slot filled.
abbrev pub with_hold : Arp → ArpIf → ℕ → List ℕ → Arp
with_hold s aif ip frame = record s {
  holds = set s.holds (choose_slot hold_ip hold_stamp ip s.holds) (parked s aif ip frame);
}

pub park-stored :
    (s : Arp) (aif : ArpIf) (ip : ℕ) (frame : List ℕ)
    → length frame ≤ arp_hold_max
    → park s aif ip frame ≡ with_hold s aif ip frame
unfolding park
park-stored s aif ip frame h = ground (arith, h)

-- What the arrival of the address does: it sends this frame, and none is left that waits for it.
abbrev pub Delivers : Arp → ℕ → ℕ → List ℕ → Arp → Type 0
Delivers s ip driver frame t =
    (t.sent ≡ s.sent ++ (driver, frame) ∷ []) × Lacks hold_ip ip t.holds × Once hold_ip t.holds

-- A frame that waits for an address is sent when the address arrives, once, whole and with the station
-- in its first six bytes, through the interface that it came from. No frame that came before it for the
-- same address is sent, and none is left.
pub arp_hold_flush-park :
    (s : Arp) (aif : ArpIf) (ip : ℕ) (frame : List ℕ) (mac : Mac)
    → s.holds ≢ []
    → Once hold_ip s.holds
    → ip ≢ 0
    → 14 ≤ length frame
    → length frame ≤ arp_hold_max
    → Delivers s ip aif.driver
        (mac_bytes mac ++ drop 6 frame)
        (arp_hold_flush (park s aif ip frame) ip mac)
unfolding arp_hold_flush
arp_hold_flush-park s aif ip frame mac full once n long short =
    let k = choose_slot hold_ip hold_stamp ip s.holds in
    let (old, at, place, room) = choose_slot-Chosen hold_ip hold_stamp ip s.holds full in
    let h = parked s aif ip frame in
    let hs = set s.holds k h in
    let whole =
      take-all (length frame) (mac_bytes mac ++ drop 6 frame)
        (omega (arith, long, length-drop 6 frame)) in
    let out = flush-set ip mac k s.holds h aif.driver n refl refl once place in
    subst
      (λ (t : Arp).
        Delivers s ip aif.driver (mac_bytes mac ++ drop 6 frame) (arp_hold_flush t ip mac))
      (sym (park-stored s aif ip frame short))
      (
        ap (λ o. s.sent ++ o) (out ∙ ap (λ f. (aif.driver, f) ∷ []) whole),
        flush_holds-Lacks ip mac hs n,
        Once-flush ip mac hs (Once-set hold_ip k s.holds h once place),
      )

-- The slots that have held a frame, and the empty frames that their drivers would get.
unfoldable pub used : List Hold → List (ℕ × List ℕ)
used [] = []
used (h ∷ hs) =
    let mine : List (ℕ × List ℕ) = elim h.aif [ none ↦ [] | some driver ↦ (driver, []) ∷ [] ] in
    if h.ip == 0 then mine ++ used hs else used hs

-- A free slot holds no bytes, as `arp_hold_flush` leaves it.
abbrev pub Emptied : List Hold → Type 0
Emptied hs = All (λ (h : Hold). h.ip ≡ 0 → h.len ≡ 0) hs

flush_holds-used : (mac : Mac) (hs : List Hold) → Emptied hs → (flush_holds 0 mac hs).0 ≡ used hs
unfolding flush_holds used
flush_holds-used mac [] e = refl
flush_holds-used mac (h ∷ hs) e = ground (arith, e.0, flush_holds-used mac hs e.1)

-- The address 0 is the mark of a free slot: a flush for it gives an empty frame to the driver of
-- every free slot that has held a frame before.
pub arp_hold_flush-zero :
    (s : Arp) (mac : Mac) → Emptied s.holds → (arp_hold_flush s 0 mac).sent ≡ s.sent ++ used s.holds
unfolding arp_hold_flush
arp_hold_flush-zero s mac e = ap (λ o. s.sent ++ o) (flush_holds-used mac s.holds e)
