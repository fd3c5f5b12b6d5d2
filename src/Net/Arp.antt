-- ===== src/Net/Arp.antt =====
-- uts/os/net/arp.c: the ARP cache, and the frames that wait for an address. A table is a list of as
-- many entries as the C array has, and a frame the list of its bytes.
pub mod Slots
pub mod Choice
pub mod Cache
pub mod Holds
pub mod Frames
pub mod Exchange
mod Tests
use kappara.Base.{
  ℕ, zero, suc, ◌+◌, ◌-◌, ◌*◌, ◌/◌, ◌%◌, ◌^◌, Bool, true, false, Option, none, some, List, [], ◌∷◌,
  ◌++◌, ltb, leb, ◌==◌, ◌&&◌, ◌||◌, not, if◌then◌else◌, length, get_elem?, take, drop, set, find,
  sub64,
}

-- The six bytes of an Ethernet address.
pub record Mac : Type 0 where
  pub b0 : ℕ
  pub b1 : ℕ
  pub b2 : ℕ
  pub b3 : ℕ
  pub b4 : ℕ
  pub b5 : ℕ

abbrev pub mac_bytes : Mac → List ℕ
mac_bytes m = m.b0 ∷ m.b1 ∷ m.b2 ∷ m.b3 ∷ m.b4 ∷ m.b5 ∷ []

-- `struct arp_entry`, with the interface's name as a number.
pub record Entry : Type 0 where
  pub ip : ℕ
  pub mac : Mac
  pub ifname : ℕ
  pub stamp : ℕ

-- `struct arpif`: the driver's address, the address and name of its `struct netif`, and the driver
-- that `tx` and `cookie` stand for.
pub record ArpIf : Type 0 where
  pub mac : Mac
  pub nif_ip : Option ℕ
  pub nif_name : ℕ
  pub driver : ℕ

-- `struct arp_hold`: `aif` is the driver, none for NULL.
pub record Hold : Type 0 where
  pub ip : ℕ
  pub len : ℕ
  pub aif : Option ℕ
  pub stamp : ℕ
  pub frame : List ℕ

abbrev pub arp_stale_s : ℕ
arp_stale_s = 300

abbrev pub arp_hold_max : ℕ
arp_hold_max = 1520

abbrev pub ethertype_arp : ℕ
ethertype_arp = 0x0806

abbrev pub arp_op_request : ℕ
arp_op_request = 1

abbrev pub arp_op_reply : ℕ
arp_op_reply = 2

-- The two tables, the counter-timer with its frequency, and the frames that the drivers were given,
-- oldest first.
pub record Arp : Type 0 where
  pub cache : List Entry
  pub holds : List Hold
  pub now : ℕ
  pub ticks_per_s : ℕ
  pub sent : List (ℕ × List ℕ)

abbrev pub put_be16 : ℕ → List ℕ
put_be16 v = (v / 256 % 256) ∷ v % 256 ∷ []

abbrev pub put_be32 : ℕ → List ℕ
put_be32 v = (v / 2 ^ 24 % 256) ∷ (v / 2 ^ 16 % 256) ∷ (v / 256 % 256) ∷ v % 256 ∷ []

abbrev pub byte_at : List ℕ → ℕ → ℕ
byte_at bs i = elim (get_elem? bs i) [ none ↦ 0 | some b ↦ b ]

abbrev pub get_be16 : List ℕ → ℕ → ℕ
get_be16 bs i = byte_at bs i * 256 + byte_at bs (i + 1)

abbrev pub get_be32 : List ℕ → ℕ → ℕ
get_be32 bs i =
    byte_at bs i * 2 ^ 24
    + byte_at bs (i + 1) * 2 ^ 16
    + byte_at bs (i + 2) * 256
    + byte_at bs (i + 3)

abbrev pub get_mac : List ℕ → ℕ → Mac
get_mac bs i = record {
  b0 = byte_at bs i;
  b1 = byte_at bs (i + 1);
  b2 = byte_at bs (i + 2);
  b3 = byte_at bs (i + 3);
  b4 = byte_at bs (i + 4);
  b5 = byte_at bs (i + 5);
}

-- The loop that chooses a slot, the same for both tables: the one of `ip`, else the first free one,
-- else the oldest. `slot`, `oldest` and `stamp` are the loop's variables, at index `i`.
module _ {ℓ} {A : Type ℓ} (ip_of stamp_of : A → ℕ) where
  unfoldable pub choose : ℕ → ℕ → List A → Option ℕ → ℕ → ℕ → ℕ
  choose ip i [] slot oldest stamp = elim slot [ none ↦ oldest | some k ↦ k ]
  choose ip i (e ∷ es) slot oldest stamp =
      let free = ip_of e == 0 in
      let older = not free && ltb (stamp_of e) stamp in
      let first : Option ℕ = elim slot [ none ↦ if free then some i else none | some k ↦ some k ] in
      let rest =
        choose ip (i + 1) es first (if older then i else oldest)
          (if older then stamp_of e else stamp) in
      if ip_of e == ip then i else rest

  -- `oldest` starts at the first slot.
  unfoldable pub choose_slot : ℕ → List A → ℕ
  unfolding choose
  choose_slot ip [] = 0
  choose_slot ip (e ∷ es) = choose ip 0 (e ∷ es) none 0 (stamp_of e)

unfoldable pub arp_learn : Arp → ℕ → Mac → ℕ → Arp
unfolding choose_slot
arp_learn s ip mac ifname =
    let slot = choose_slot (λ (e : Entry). e.ip) (λ e. e.stamp) ip s.cache in
    let entry : Entry = record { ip = ip; mac = mac; ifname = ifname; stamp = s.now } in
    if ip == 0 then s else record s { cache = set s.cache slot entry }

-- The address of a hit, and whether it is stale.
unfoldable pub on_hit : Arp → Option Entry → Option (Mac × Bool)
on_hit s none = none
on_hit s (some e) = some (e.mac, ltb (arp_stale_s * s.ticks_per_s) (sub64 s.now e.stamp))

unfoldable pub arp_lookup : Arp → ℕ → Option (Mac × Bool)
unfolding find on_hit
arp_lookup s ip = on_hit s (find (λ (e : Entry). e.ip == ip) s.cache)

-- The frame that `arp_tx` builds: Ethernet header and `struct arp_wire`.
unfoldable pub arp_frame : ArpIf → ℕ → Mac → ℕ → List ℕ → List ℕ
arp_frame aif op dst target_ip target_mac =
    mac_bytes dst
    ++ mac_bytes aif.mac
    ++ put_be16 ethertype_arp
    ++ put_be16 1
    ++ put_be16 0x0800
    ++ 6 ∷ 4 ∷ put_be16 op
    ++ mac_bytes aif.mac
    ++ put_be32 (elim aif.nif_ip [ none ↦ 0 | some ip ↦ ip ])
    ++ target_mac
    ++ put_be32 target_ip

abbrev pub transmit : Arp → ℕ → List ℕ → Arp
transmit s driver frame = record s { sent = s.sent ++ (driver, frame) ∷ [] }

unfoldable pub arp_tx : Arp → ArpIf → ℕ → Mac → ℕ → List ℕ → Arp
unfolding arp_frame
arp_tx s aif op dst target_ip target_mac =
    transmit s aif.driver (arp_frame aif op dst target_ip target_mac)

abbrev pub bcast : Mac
bcast = record { b0 = 255; b1 = 255; b2 = 255; b3 = 255; b4 = 255; b5 = 255 }

abbrev pub no_mac : List ℕ
no_mac = 0 ∷ 0 ∷ 0 ∷ 0 ∷ 0 ∷ 0 ∷ []

-- The frame with its destination filled in, cut to its length as the driver gets it.
abbrev pub addressed : Mac → Hold → List ℕ
addressed mac h = take h.len (mac_bytes mac ++ drop 6 h.frame)

-- The loop of `arp_hold_flush`: what is sent, and the slots after it.
unfoldable pub flush_holds : ℕ → Mac → List Hold → List (ℕ × List ℕ) × List Hold
flush_holds ip mac [] = ([], [])
flush_holds ip mac (h ∷ hs) =
    let (out, rest) = flush_holds ip mac hs in
    let mine : List (ℕ × List ℕ) = elim h.aif [
      | none ↦ []
      | some driver ↦ (driver, addressed mac h) ∷ []
    ] in
    let freed : Hold = record h { ip = 0; len = 0; frame = mac_bytes mac ++ drop 6 h.frame } in
    if h.ip == ip then (mine ++ out, freed ∷ rest) else (out, h ∷ rest)

unfoldable pub arp_hold_flush : Arp → ℕ → Mac → Arp
unfolding flush_holds
arp_hold_flush s ip mac =
    let (out, rest) = flush_holds ip mac s.holds in record s { holds = rest; sent = s.sent ++ out }

-- The miss of `arp_resolve_hold`: the frame is parked, if it is not too long.
unfoldable pub park : Arp → ArpIf → ℕ → List ℕ → Arp
unfolding choose_slot
park s aif ip frame =
    let slot = choose_slot (λ (h : Hold). h.ip) (λ h. h.stamp) ip s.holds in
    let held : Hold = record {
      ip = ip;
      len = length frame;
      aif = some aif.driver;
      stamp = s.now;
      frame = frame;
    } in
    if leb (length frame) arp_hold_max then record s { holds = set s.holds slot held } else s

-- The frame with its destination where the address is known, which the caller then sends.
unfoldable pub arp_resolve_hold : Arp → ArpIf → ℕ → List ℕ → Option (List ℕ) × Arp
unfolding arp_lookup arp_tx park
arp_resolve_hold s aif ip frame =
    if ip == 0 || ltb (length frame) 14 then (none, s) else elim (arp_lookup s ip) [
      | none ↦ (none, arp_tx (park s aif ip frame) aif arp_op_request bcast ip no_mac)
      | some (mac, stale) ↦ (
        some (mac_bytes mac ++ drop 6 frame),
        if stale then arp_tx s aif arp_op_request bcast ip no_mac else s,
      )
    ]

-- `arp_input` from the call of `arp_learn` on.
unfoldable pub take_in : Arp → ArpIf → ℕ → Mac → ℕ → ℕ → Arp
unfolding arp_learn arp_hold_flush arp_tx
take_in s aif op sender sip tip =
    let learnt = arp_hold_flush (arp_learn s sip sender aif.nif_name) sip sender in
    elim aif.nif_ip [
      | none ↦ learnt
      | some ip ↦
          if op == arp_op_request && tip == ip && not (ip == 0)
          then arp_tx learnt aif arp_op_reply sender sip (mac_bytes sender)
          else learnt
    ]

unfoldable pub arp_input : Arp → ArpIf → List ℕ → Arp
unfolding take_in
arp_input s aif frame =
    if ltb (length frame) 42 || not (get_be16 frame 14 == 1) || not (get_be16 frame 16 == 0x0800)
    then s
    else take_in s aif (get_be16 frame 20) (get_mac frame 22) (get_be32 frame 28)
        (get_be32 frame 38)
