-- ===== src/Net/Arp/Exchange.antt =====
-- arp.c: a request and its reply, between two stations.
use kappara.Base.{
  ℕ, ◌^◌, ◌≤◌, ◌<◌, ◌≡◌, ◌≢◌, sym, ap, ◌∙◌, subst, false, Option, none, some, List, [], ◌∷◌, ◌++◌,
  arith, length, drop,
}
use kappara.Net.Arp.{
  Arp, ArpIf, Mac, mac_bytes, arp_hold_max, arp_op_request, arp_op_reply, arp_frame, arp_learn,
  arp_lookup, arp_hold_flush, arp_tx, park, arp_resolve_hold, arp_input, bcast, no_mac,
}
use kappara.Net.Arp.Slots.{Once}
use kappara.Net.Arp.Cache.{arp_learn-Learns}
use kappara.Net.Arp.Holds.{hold_ip, with_hold, park-stored, Delivers}
use kappara.Net.Arp.Frames.{
  arp_frame-Reads, input-Reads, take_in-request, take_in-reply, lookup_flushed, lookup_sent, miss,
  flush-park_later,
}

abbrev zero_mac : Mac
zero_mac = record { b0 = 0; b1 = 0; b2 = 0; b3 = 0; b4 = 0; b5 = 0 }

-- What the exchange has done: `asking` and `done` are the sender's states after the miss and after the
-- reply, `answering` the other station's after the request.
pub record Resolved (s : Arp) (a b : ArpIf) (sender_ip ip : ℕ) (payload : List ℕ)
    (asking answering done : Arp) : Type 0 where
  pub asked : asking.sent ≡ s.sent ++ (a.driver, arp_frame a arp_op_request bcast ip no_mac) ∷ []
  pub answered :
      (before : List (ℕ × List ℕ)) × (answering.sent
        ≡ before ++ (b.driver, arp_frame b arp_op_reply a.mac sender_ip (mac_bytes a.mac)) ∷ [])
  pub answerer_knows : arp_lookup answering sender_ip ≡ some (a.mac, false)
  pub sender_knows : arp_lookup done ip ≡ some (b.mac, false)
  pub delivered : Delivers asking ip a.driver (mac_bytes b.mac ++ drop 6 payload) done

park_sent :
    (s : Arp) (aif : ArpIf) (ip : ℕ) (payload : List ℕ) → (park s aif ip payload).sent ≡ s.sent
unfolding park
park_sent s aif ip payload = ground arith

module _ (s t : Arp) (a b : ArpIf) (sender_ip ip : ℕ) (payload : List ℕ) where
  abbrev pub asking : Arp
  asking = (arp_resolve_hold s a ip payload).1

  abbrev pub answering : Arp
  answering = arp_input t b (arp_frame a arp_op_request bcast ip no_mac)

  abbrev pub done : Arp
  done = arp_input asking a (arp_frame b arp_op_reply a.mac sender_ip (mac_bytes a.mac))

  answering-learn :
      a.nif_ip ≡ some sender_ip
      → b.nif_ip ≡ some ip
      → sender_ip < 2 ^ 32
      → ip < 2 ^ 32
      → ip ≢ 0
      → answering
        ≡ arp_tx
            (arp_hold_flush (arp_learn t sender_ip a.mac b.nif_name) sender_ip a.mac)
            b
            arp_op_reply
            a.mac
            sender_ip
            (mac_bytes a.mac)
  answering-learn e f u v n =
      input-Reads t b (arp_frame a arp_op_request bcast ip no_mac) arp_op_request a.mac sender_ip ip
        (arp_frame-Reads a sender_ip arp_op_request ip bcast zero_mac e (omega arith) u v)
      ∙ take_in-request t b a.mac sender_ip ip f n

  done-learn :
      a.nif_ip ≡ some sender_ip
      → b.nif_ip ≡ some ip
      → sender_ip < 2 ^ 32
      → ip < 2 ^ 32
      → done ≡ arp_hold_flush (arp_learn asking ip b.mac a.nif_name) ip b.mac
  done-learn e f u v =
      input-Reads asking a (arp_frame b arp_op_reply a.mac sender_ip (mac_bytes a.mac)) arp_op_reply
        b.mac ip sender_ip
        (arp_frame-Reads b ip arp_op_reply sender_ip a.mac a.mac f (omega arith) v u)
      ∙ take_in-reply asking a b.mac ip sender_ip sender_ip e

  -- Two stations on a link, each with its address. A frame for an address that the sender does not know
  -- makes it ask; the other station answers and knows the sender from then on; when the answer arrives,
  -- the sender knows the address, and the frame leaves once, whole, with that station as destination.
  pub arp_exchange-Resolved :
      a.nif_ip ≡ some sender_ip
      → b.nif_ip ≡ some ip
      → sender_ip < 2 ^ 32
      → ip < 2 ^ 32
      → sender_ip ≢ 0
      → ip ≢ 0
      → s.cache ≢ []
      → t.cache ≢ []
      → s.now < 2 ^ 64
      → t.now < 2 ^ 64
      → s.holds ≢ []
      → Once hold_ip s.holds
      → arp_lookup s ip ≡ none
      → 14 ≤ length payload
      → length payload ≤ arp_hold_max
      → Resolved s a b sender_ip ip payload asking answering done
  unfolding arp_tx
  arp_exchange-Resolved e f u v m n fs ft ss st full once no_entry long short =
      let request = arp_frame a arp_op_request bcast ip no_mac in
      let missed = ap (λ (r : Option (List ℕ) × Arp). r.1) (miss s a ip payload n long no_entry) in
      let settled =
        missed
        ∙ ap (λ (x : Arp). arp_tx x a arp_op_request bcast ip no_mac)
            (park-stored s a ip payload short) in
      let flushed =
        done-learn e f u v
        ∙ ap (λ (x : Arp). arp_hold_flush (arp_learn x ip b.mac a.nif_name) ip b.mac) missed in
      let asked =
        ap (λ (x : Arp). x.sent) missed
        ∙ ap (λ (o : List (ℕ × List ℕ)). o ++ (a.driver, request) ∷ [])
            (park_sent s a ip payload) in
      let frame = mac_bytes b.mac ++ drop 6 payload in
      let (sent, none_left, distinct) =
        subst (Delivers (arp_tx s a arp_op_request bcast ip no_mac) ip a.driver frame) (sym flushed)
          (flush-park_later s a ip ip payload b.mac full once n long short) in
      record {
        asked = asked;
        answered = (
          (arp_hold_flush (arp_learn t sender_ip a.mac b.nif_name) sender_ip a.mac).sent,
          ap (λ (x : Arp). x.sent) (answering-learn e f u v n),
        );
        answerer_knows =
            ap (λ (x : Arp). arp_lookup x sender_ip) (answering-learn e f u v n)
            ∙ lookup_sent (arp_hold_flush (arp_learn t sender_ip a.mac b.nif_name) sender_ip a.mac)
                b arp_op_reply a.mac sender_ip sender_ip (mac_bytes a.mac)
            ∙ lookup_flushed (arp_learn t sender_ip a.mac b.nif_name) sender_ip sender_ip a.mac
            ∙ (arp_learn-Learns t sender_ip a.mac b.nif_name ft st m).found;
        sender_knows =
            ap (λ (x : Arp). arp_lookup x ip) (done-learn e f u v)
            ∙ lookup_flushed (arp_learn asking ip b.mac a.nif_name) ip ip b.mac
            ∙ subst
                (λ (x : Arp). arp_lookup (arp_learn x ip b.mac a.nif_name) ip ≡ some (b.mac, false))
                (sym settled)
                (arp_learn-Learns
                  (arp_tx (with_hold s a ip payload) a arp_op_request bcast ip no_mac) ip b.mac
                  a.nif_name fs ss n).found;
        delivered = (
          sent ∙ sym (ap (λ (o : List (ℕ × List ℕ)). o ++ (a.driver, frame) ∷ []) asked),
          none_left,
          distinct,
        );
      }
