-- ===== src/Net/Arp/Frames.antt =====
-- arp.c: what a station reads in a frame that another has built, and what it does with it.
use kappara.Base.{
  ℕ, ◌+◌, ◌*◌, ◌/◌, ◌%◌, ◌^◌, ◌≤◌, ◌<◌, ◌≡◌, ◌≢◌, refl, sym, ap, ◌∙◌, subst, Option, none, some,
  List, [], ◌++◌, arith, length, drop,
}
use kappara.Net.Arp.{
  Arp, ArpIf, Mac, mac_bytes, arp_hold_max, arp_op_request, arp_op_reply, arp_frame, arp_learn,
  arp_lookup, arp_hold_flush, arp_tx, park, arp_resolve_hold, arp_input, bcast, no_mac, put_be32,
  take_in, get_be16, get_be32, get_mac,
}
use kappara.Net.Arp.Slots.{Once}
use kappara.Net.Arp.Cache.{stored, arp_learn-stored}
use kappara.Net.Arp.Holds.{hold_ip, with_hold, park-stored, Delivers, arp_hold_flush-park}

-- What a receiver reads in a frame that `arp_tx` has built.
pub record Reads (frame : List ℕ) (op : ℕ) (sender : Mac) (sip tip : ℕ) : Type 0 where
  pub long : length frame ≡ 42
  pub hw_type : get_be16 frame 14 ≡ 1
  pub proto_type : get_be16 frame 16 ≡ 0x0800
  pub opcode : get_be16 frame 20 ≡ op
  pub sender_mac : get_mac frame 22 ≡ sender
  pub sender_ip : get_be32 frame 28 ≡ sip
  pub target_ip : get_be32 frame 38 ≡ tip

be32 :
    (v : ℕ)
    → v < 2 ^ 32
    → v / 2 ^ 24 % 256 * 2 ^ 24 + v / 2 ^ 16 % 256 * 2 ^ 16 + v / 256 % 256 * 256 + v % 256 ≡ v
be32 v h = omega (arith, h)

pub arp_frame-Reads :
    (aif : ArpIf) (ip op tip : ℕ) (dst target : Mac)
    → aif.nif_ip ≡ some ip
    → op < 65536
    → ip < 2 ^ 32
    → tip < 2 ^ 32
    → Reads (arp_frame aif op dst tip (mac_bytes target)) op aif.mac ip tip
unfolding arp_frame
arp_frame-Reads aif ip op tip dst target e o a b = record {
  long = refl;
  hw_type = refl;
  proto_type = refl;
  opcode = omega (arith, o);
  sender_mac = refl;
  sender_ip =
      ap (λ (i : Option ℕ). get_be32 (put_be32 (elim i [ none ↦ 0 | some ip ↦ ip ])) 0) e
      ∙ be32 ip a;
  target_ip = be32 tip b;
}

-- What a station does with a frame depends on these fields alone.
pub input-Reads :
    (s : Arp) (aif : ArpIf) (frame : List ℕ) (op : ℕ) (sender : Mac) (sip tip : ℕ)
    → Reads frame op sender sip tip
    → arp_input s aif frame ≡ take_in s aif op sender sip tip
unfolding arp_input
input-Reads s aif frame op sender sip tip r =
    let guards : arp_input s aif frame
        ≡ take_in s aif (get_be16 frame 20) (get_mac frame 22) (get_be32 frame 28)
            (get_be32 frame 38) =
      ground (arith, r.long, r.hw_type, r.proto_type) in
    guards ∙ cc (r.opcode, r.sender_mac, r.sender_ip, r.target_ip)

pub take_in-request :
    (s : Arp) (aif : ArpIf) (sender : Mac) (sip ip : ℕ)
    → aif.nif_ip ≡ some ip
    → ip ≢ 0
    → take_in s aif arp_op_request sender sip ip
      ≡ arp_tx
          (arp_hold_flush (arp_learn s sip sender aif.nif_name) sip sender)
          aif
          arp_op_reply
          sender
          sip
          (mac_bytes sender)
unfolding take_in
take_in-request s aif sender sip ip e n = ground (arith, e, n)

pub take_in-reply :
    (s : Arp) (aif : ArpIf) (sender : Mac) (sip ip tip : ℕ)
    → aif.nif_ip ≡ some ip
    → take_in s aif arp_op_reply sender sip tip
      ≡ arp_hold_flush (arp_learn s sip sender aif.nif_name) sip sender
unfolding take_in
take_in-reply s aif sender sip ip tip e = ground (arith, e)

-- A flush and a transmission leave the cache as it is.
pub lookup_flushed :
    (s : Arp) (ip q : ℕ) (mac : Mac) → arp_lookup (arp_hold_flush s ip mac) q ≡ arp_lookup s q
unfolding arp_lookup arp_hold_flush
lookup_flushed s ip q mac = refl

pub lookup_sent :
    (s : Arp) (aif : ArpIf) (op : ℕ) (dst : Mac) (ip q : ℕ) (target : List ℕ)
    → arp_lookup (arp_tx s aif op dst ip target) q ≡ arp_lookup s q
unfolding arp_lookup arp_tx
lookup_sent s aif op dst ip q target = refl

pub miss :
    (s : Arp) (aif : ArpIf) (ip : ℕ) (payload : List ℕ)
    → ip ≢ 0
    → 14 ≤ length payload
    → arp_lookup s ip ≡ none
    → arp_resolve_hold s aif ip payload
      ≡ (none, arp_tx (park s aif ip payload) aif arp_op_request bcast ip no_mac)
unfolding arp_resolve_hold
miss s aif ip payload n long e = ground (arith, n, long, e)

-- The frame in its slot, with an address learnt and a frame sent between.
pub flush-park_later :
    (s : Arp) (aif : ArpIf) (ip q : ℕ) (payload : List ℕ) (mac : Mac)
    → s.holds ≢ []
    → Once hold_ip s.holds
    → ip ≢ 0
    → 14 ≤ length payload
    → length payload ≤ arp_hold_max
    → Delivers
        (arp_tx s aif arp_op_request bcast q no_mac)
        ip
        aif.driver
        (mac_bytes mac ++ drop 6 payload)
        (arp_hold_flush
          (arp_learn
            (arp_tx (park s aif ip payload) aif arp_op_request bcast q no_mac)
            ip
            mac
            aif.nif_name)
          ip
          mac)
unfolding arp_tx
flush-park_later s aif ip q payload mac full once n long short =
    let asked = λ (t : Arp). arp_tx t aif arp_op_request bcast q no_mac in
    let before = stored (asked s) ip mac aif.nif_name in
    let target = λ (t : Arp).
      Delivers (asked s) ip aif.driver (mac_bytes mac ++ drop 6 payload)
        (arp_hold_flush t ip mac) in
    let swap : park before aif ip payload
        ≡ arp_learn (asked (park s aif ip payload)) ip mac aif.nif_name =
      park-stored before aif ip payload short
      ∙ sym (
          ap (λ t. arp_learn (asked t) ip mac aif.nif_name) (park-stored s aif ip payload short)
          ∙ arp_learn-stored (asked (with_hold s aif ip payload)) ip mac aif.nif_name n) in
    subst target swap (arp_hold_flush-park before aif ip payload mac full once n long short)
