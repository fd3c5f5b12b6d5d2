-- ===== src/Net/Tcp/Window.antt =====
-- tcp.c: the terms in which `tcp_try_send_pending` is judged, and one round of its loop.
pub mod Loop
use kappara.Base.{
  ℕ, zero, suc, ◌+◌, ◌-◌, ◌^◌, ◌≤◌, ◌<◌, ◌≡◌, ◌≢◌, ◌⊎◌, inl, inr, refl, sym, ap, ◌∙◌, subst, Bool,
  true, false, not, ◌&&◌, ◌||◌, List, [], ◌∷◌, ◌++◌, arith, ltb, leb, ◌==◌, if◌then◌else◌, if-elim,
  length, take, drop, flatten, take-add, drop-add, length-take_le, length-drop, add32, sub32,
  append_assoc, append-nil,
}
use kappara.Net.Tcp.Types.{Tcb, Conn, Segment, flag_psh_ack, next_answer, rest_answers}
use kappara.Net.Tcp.Rtt.{tcp_arm_rto}
use kappara.Net.Tcp.Output.{tcp_emit_segment, build_segment, with_tcb}
use kappara.Net.Tcp.Send.{
  min_of, room_in, sent_bytes, inflight, unsent, chunk, next_bytes, after_chunk, send_loop,
  may_send, tcp_try_send_pending,
}

-- Segments that carry `bytes` from `seq` on, none empty and none over `mss`.
unfoldable pub Carries : ℕ → ℕ → List ℕ → List Segment → Type 0
Carries mss seq bytes [] = bytes ≡ []
Carries mss seq bytes (p ∷ ps) =
    (p.seq ≡ seq)
    × (0 < length p.payload)
    × (length p.payload ≤ mss)
    × (rest : List ℕ) × (bytes ≡ p.payload ++ rest)
    × Carries mss (add32 seq (length p.payload)) rest ps

-- The 32-bit words of the block are in range, and the buffer is not longer than they can count.
pub record InRange (s : Tcb) : Type 0 where
  pub nxt : s.snd_nxt < 2 ^ 32
  pub una : s.snd_una < 2 ^ 32
  pub seq : s.snd_buf_seq < 2 ^ 32
  pub wnd : s.snd_wnd < 2 ^ 32
  pub cwnd : s.cwnd < 2 ^ 32
  pub buf : length (flatten s.snd_buf) < 2 ^ 32
  pub mss : 0 < s.mss

-- What a run of the loop does: it sends the next `count` bytes of the buffer, in order, and no more
-- than what either window has room for.
pub record Ships (c t : Conn) : Type 0 where
  pub count : ℕ
  pub segs : List Segment
  pub sent : t.sent ≡ c.sent ++ segs
  pub carries :
      Carries c.tcb.mss c.tcb.snd_nxt
        (take count (drop (sent_bytes c.tcb) (flatten c.tcb.snd_buf)))
        segs
  pub few : count ≤ unsent c.tcb
  pub room :
      (count ≡ 0)
      ⊎ ((inflight c.tcb + count ≤ c.tcb.cwnd) × (inflight c.tcb + count ≤ c.tcb.snd_wnd))
  pub nxt : t.tcb.snd_nxt ≡ add32 c.tcb.snd_nxt count
  pub same_buf : t.tcb.snd_buf ≡ c.tcb.snd_buf
  pub same_seq : t.tcb.snd_buf_seq ≡ c.tcb.snd_buf_seq
  pub same_una : t.tcb.snd_una ≡ c.tcb.snd_una

pub chunk_le :
    (s : Tcb)
    → (chunk s ≤ unsent s)
      × (chunk s ≤ s.mss)
      × ((chunk s ≡ 0) ⊎ ((inflight s + chunk s ≤ s.cwnd) × (inflight s + chunk s ≤ s.snd_wnd)))
unfolding chunk
chunk_le s = ground arith

pub length-next_bytes : (s : Tcb) → length (next_bytes s) ≡ chunk s
unfolding next_bytes
length-next_bytes s =
    let few : chunk s ≤ unsent s = (chunk_le s).0 in
    let left = length-drop (sent_bytes s) (flatten s.snd_buf) in
    length-take_le (chunk s) (drop (sent_bytes s) (flatten s.snd_buf)) (omega (arith, few, left))

-- The connection after one round.
abbrev pub next_round : Conn → Conn
next_round c =
    with_tcb (tcp_emit_segment c c.tcb.snd_nxt flag_psh_ack (next_bytes c.tcb)).1 (after_chunk c)

pub record Advances (s t : Tcb) (n : ℕ) : Type 0 where
  pub nxt : t.snd_nxt ≡ add32 s.snd_nxt n
  pub una : t.snd_una ≡ s.snd_una
  pub seq : t.snd_buf_seq ≡ s.snd_buf_seq
  pub wnd : t.snd_wnd ≡ s.snd_wnd
  pub cwnd : t.cwnd ≡ s.cwnd
  pub buf : t.snd_buf ≡ s.snd_buf
  pub mss : t.mss ≡ s.mss

pub after_chunk-Advances : (c : Conn) → Advances c.tcb (after_chunk c) (chunk c.tcb)
unfolding after_chunk
after_chunk-Advances c = record {
  nxt = ground (arith, length-next_bytes c.tcb);
  una = ground arith;
  seq = ground arith;
  wnd = ground arith;
  cwnd = ground arith;
  buf = ground arith;
  mss = ground arith;
}

pub offset_next :
    (s t : Tcb) (n : ℕ)
    → InRange s
    → Advances s t n
    → n ≤ unsent s
    → (n ≢ 0)
    → (sent_bytes t ≡ sent_bytes s + n) × (unsent t ≡ unsent s - n)
offset_next s t n i a h p =
    let same : length (flatten t.snd_buf) ≡ length (flatten s.snd_buf) =
      ap (λ bs. length (flatten bs)) a.buf in
    let next : sent_bytes t ≡ sent_bytes s + n =
      omega (arith, i.buf, i.nxt, i.seq, a.nxt, a.seq, h, p) in
    (next, omega (arith, next, same))

pub inflight_next :
    (s t : Tcb) (n : ℕ)
    → InRange s
    → Advances s t n
    → inflight s + n ≤ s.cwnd
    → inflight t ≡ inflight s + n
inflight_next s t n i a h = omega (arith, i.nxt, i.una, i.cwnd, a.nxt, a.una, h)

pub nothing : (c t : Conn) → InRange c.tcb → t.sent ≡ c.sent → t.tcb ≡ c.tcb → Ships c t
unfolding Carries
nothing c t i p q = record {
  count = 0;
  segs = [];
  sent = p ∙ sym (append-nil c.sent);
  carries = refl;
  few = omega arith;
  room = inl refl;
  nxt = ap (λ (s : Tcb). s.snd_nxt) q ∙ omega (arith, i.nxt);
  same_buf = ap (λ (s : Tcb). s.snd_buf) q;
  same_seq = ap (λ (s : Tcb). s.snd_buf_seq) q;
  same_una = ap (λ (s : Tcb). s.snd_una) q;
}

pub Carries-same :
    {m n q r : ℕ} {xs ys : List ℕ} (ps : List Segment)
    → m ≡ n
    → q ≡ r
    → xs ≡ ys
    → Carries m q xs ps
    → Carries n r ys ps
Carries-same {m} {n} {q} {r} {xs} {ys} ps e f g h =
    subst (λ z. Carries n r z ps) g
      (subst (λ z. Carries n z xs ps) f (subst (λ z. Carries z q xs ps) e h))

pub Advances-InRange : (s t : Tcb) (n : ℕ) → InRange s → Advances s t n → InRange t
Advances-InRange s t n i a = record {
  nxt = omega (arith, a.nxt);
  una = omega (arith, a.una, i.una);
  seq = omega (arith, a.seq, i.seq);
  wnd = omega (arith, a.wnd, i.wnd);
  cwnd = omega (arith, a.cwnd, i.cwnd);
  buf = omega (arith, i.buf, ap (λ bs. length (flatten bs)) a.buf);
  mss = omega (arith, a.mss, i.mss);
}

-- The segment that a round sends.
abbrev pub round_segment : Conn → Segment
round_segment c = build_segment c c.tcb.snd_nxt flag_psh_ack (next_bytes c.tcb)

pub round-sent :
    (c : Conn) → next_answer c.answers ≡ true → (next_round c).sent ≡ c.sent ++ round_segment c ∷ []
unfolding tcp_emit_segment
round-sent c p = ground (arith, p)

-- The bytes that are sent after a round, seen from before it.
pub bytes_next :
    (s t : Tcb) (m n : ℕ)
    → t.snd_buf ≡ s.snd_buf
    → sent_bytes t ≡ sent_bytes s + m
    → take (m + n) (drop (sent_bytes s) (flatten s.snd_buf))
      ≡ take m (drop (sent_bytes s) (flatten s.snd_buf))
        ++ take n (drop (sent_bytes t) (flatten t.snd_buf))
bytes_next s t m n e o =
    let xs = flatten s.snd_buf in
    let here = take m (drop (sent_bytes s) xs) in
    let moved : drop (sent_bytes t) (flatten t.snd_buf) ≡ drop m (drop (sent_bytes s) xs) =
      ap (λ bs. drop (sent_bytes t) (flatten bs)) e
      ∙ drop-add (sent_bytes s) m (sent_bytes t) xs o in
    take-add m n (m + n) (drop (sent_bytes s) xs) refl ∙ ap (λ ys. here ++ take n ys) (sym moved)
