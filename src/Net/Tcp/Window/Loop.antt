-- ===== src/Net/Tcp/Window/Loop.antt =====
-- tcp.c: what `tcp_try_send_pending` sends, and how much of it.
use kappara.Base.{
  ℕ, zero, suc, ◌+◌, ◌≤◌, ◌<◌, ◌≡◌, ◌≢◌, ◌⊎◌, inl, inr, Bool-cases, refl, sym, ap, ◌∙◌, Bool, true,
  false, not, ◌&&◌, ◌||◌, List, [], ◌∷◌, ◌++◌, arith, leb, ◌==◌, if-elim, length, take, drop,
  flatten, add32, append_assoc,
}
use kappara.Net.Tcp.Types.{Tcb, Conn, flag_psh_ack, next_answer, rest_answers}
use kappara.Net.Tcp.Output.{tcp_emit_segment, build_segment}
use kappara.Net.Tcp.Send.{
  sent_bytes, inflight, unsent, chunk, next_bytes, after_chunk, send_loop, may_send,
  tcp_try_send_pending,
}
use kappara.Net.Tcp.Window.{
  Carries, InRange, Ships, chunk_le, length-next_bytes, next_round, after_chunk-Advances,
  offset_next, inflight_next, nothing, Carries-same, Advances-InRange, round_segment, round-sent,
  bytes_next,
}

round :
    (c t : Conn)
    → InRange c.tcb
    → chunk c.tcb ≢ 0
    → next_answer c.answers ≡ true
    → Ships (next_round c) t
    → Ships c t
unfolding Carries build_segment next_bytes chunk
round c t i p ok r =
    let s = c.tcb in
    let u : Tcb = after_chunk c in
    let n = chunk s in
    let a = after_chunk-Advances c in
    let len = length-next_bytes s in
    let fits = chunk_le s in
    let next = offset_next s u n i a fits.0 p in
    let flight : inflight u ≡ inflight s + n = inflight_next s u n i a (ground (arith, fits, p)) in
    record {
      count = n + r.count;
      segs = round_segment c ∷ r.segs;
      sent =
          r.sent
          ∙ ap (λ ps. ps ++ r.segs) (round-sent c ok)
          ∙ append_assoc c.sent (round_segment c ∷ []) r.segs;
      carries = (
        refl,
        omega (arith, len, p),
        omega (arith, len, fits.1),
        take r.count (drop (sent_bytes u) (flatten u.snd_buf)),
        bytes_next s u n r.count a.buf next.0,
        Carries-same r.segs a.mss (a.nxt ∙ ap (add32 s.snd_nxt) (sym len)) refl r.carries,
      );
      few = omega (arith, r.few, fits.0, next.1);
      room = ground (arith, fits, p, r.room, flight, a.cwnd, a.wnd);
      nxt = omega (arith, r.nxt, a.nxt);
      same_buf = r.same_buf ∙ a.buf;
      same_seq = r.same_seq ∙ a.seq;
      same_una = r.same_una ∙ a.una;
    }

emit-done :
    (c : Conn) (n : ℕ) (xs : List ℕ)
    → (tcp_emit_segment c n flag_psh_ack xs).0 ≡ next_answer c.answers
unfolding tcp_emit_segment
emit-done c n xs = ground arith

emit-failed :
    (c : Conn) (n : ℕ) (xs : List ℕ)
    → (tcp_emit_segment c n flag_psh_ack xs).0 ≡ false
    → ((tcp_emit_segment c n flag_psh_ack xs).1.sent ≡ c.sent)
      × ((tcp_emit_segment c n flag_psh_ack xs).1.tcb ≡ c.tcb)
unfolding tcp_emit_segment
emit-failed c n xs p = ground (arith, p)

send_loop-Ships : (f : ℕ) (c : Conn) → InRange c.tcb → Ships c (send_loop f c)
unfolding send_loop
send_loop-Ships zero c i = nothing c c i refl refl
send_loop-Ships (suc f) c i =
    let s = c.tcb in
    let e = tcp_emit_segment c s.snd_nxt flag_psh_ack (next_bytes s) in
    if-elim (Ships c) (leb (length (flatten s.snd_buf)) (sent_bytes s) || chunk s == 0)
      (λ _. nothing c c i refl refl)
      (λ go.
        if-elim (Ships c) e.0
          (λ done.
            round c (send_loop f (next_round c)) i (ground (arith, go))
              (sym (emit-done c s.snd_nxt (next_bytes s)) ∙ done)
              (send_loop-Ships f (next_round c)
                (Advances-InRange s (after_chunk c) (chunk s) i (after_chunk-Advances c))))
          (λ failed.
            let same = emit-failed c s.snd_nxt (next_bytes s) failed in
            nothing c e.1 i same.0 same.1))

-- One call sends the next bytes of the buffer, in order, in segments that are not empty and not over
-- the negotiated size. What is in flight then is within the congestion window and the peer's window,
-- unless nothing was sent. The buffer keeps the bytes.
pub tcp_try_send_pending-Ships : (c : Conn) → InRange c.tcb → Ships c (tcp_try_send_pending c)
unfolding tcp_try_send_pending
tcp_try_send_pending-Ships c i =
    if-elim (Ships c) (not c.tcb.in_send && may_send c.tcb.state)
      (λ _. send_loop-Ships (suc (unsent c.tcb)) c i) (λ _. nothing c c i refl refl)

-- The next `n` attempts find a route and a buffer.
unfoldable pub ready : ℕ → List Bool → Bool
ready zero bs = true
ready (suc n) bs = next_answer bs && ready n (rest_answers bs)

ready_mono : (m n : ℕ) (bs : List Bool) → m ≤ n → ready n bs ≡ true → ready m bs ≡ true
unfolding ready
ready_mono zero n bs h p = refl
ready_mono (suc m) zero bs h p = absurd (omega (arith, h))
ready_mono (suc m) (suc n) bs h p =
    ground (arith, p, ready_mono m n (rest_answers bs) (omega (arith, h)))

ready-rest :
    (m n : ℕ) (bs : List Bool)
    → m < n
    → ready n bs ≡ true
    → (next_answer bs ≡ true) × (ready m (rest_answers bs) ≡ true)
unfolding ready
ready-rest m zero bs h p = absurd (omega (arith, h))
ready-rest m (suc n) bs h p =
    let both : (next_answer bs ≡ true) × (ready n (rest_answers bs) ≡ true) = ground (arith, p) in
    (both.0, ready_mono m n (rest_answers bs) (omega (arith, h)) both.1)

round-answers : (c : Conn) → (next_round c).answers ≡ rest_answers c.answers
unfolding tcp_emit_segment
round-answers c = ground arith

-- Nothing more may be sent: all bytes of the buffer are, or a window is full.
abbrev pub Exhausted : Tcb → Type 0
Exhausted s =
    (length (flatten s.snd_buf) ≤ sent_bytes s) ⊎ (s.cwnd ≤ inflight s) ⊎ (s.snd_wnd ≤ inflight s)

no_chunk-Exhausted : (s : Tcb) → 0 < s.mss → chunk s ≡ 0 → Exhausted s
unfolding chunk
no_chunk-Exhausted s m h = ground (arith, m, h)

stop-Exhausted :
    (s : Tcb)
    → 0 < s.mss
    → (leb (length (flatten s.snd_buf)) (sent_bytes s) || chunk s == 0) ≡ true
    → Exhausted s
stop-Exhausted s m stop = elim (Bool-cases (leb (length (flatten s.snd_buf)) (sent_bytes s))) [
  | inl all ↦ inl (ground (arith, all))
  | inr some_left ↦ no_chunk-Exhausted s m (ground (arith, stop, some_left))
]

send_loop-exhausts :
    (f : ℕ) (c : Conn)
    → InRange c.tcb
    → unsent c.tcb < f
    → ready (unsent c.tcb) c.answers ≡ true
    → Exhausted (send_loop f c).tcb
unfolding send_loop
send_loop-exhausts zero c i h p = absurd (omega (arith, h))
send_loop-exhausts (suc f) c i h p =
    let s = c.tcb in
    let e = tcp_emit_segment c s.snd_nxt flag_psh_ack (next_bytes s) in
    let Stopped : Conn → Type 0 = λ d. Exhausted d.tcb in
    if-elim Stopped (leb (length (flatten s.snd_buf)) (sent_bytes s) || chunk s == 0)
      (λ stop. stop-Exhausted s i.mss stop)
      (λ go.
        let some_left : chunk s ≢ 0 = ground (arith, go) in
        let fits = (chunk_le s).0 in
        let next =
          offset_next s (after_chunk c) (chunk s) i (after_chunk-Advances c) fits some_left in
        let left : unsent (after_chunk c) < unsent s = omega (arith, next.1, fits, some_left) in
        let r = ready-rest (unsent (after_chunk c)) (unsent s) c.answers left p in
        if-elim Stopped e.0
          (λ _.
            send_loop-exhausts f (next_round c)
              (Advances-InRange s (after_chunk c) (chunk s) i (after_chunk-Advances c))
              (omega (arith, left, h))
              (ap (ready (unsent (after_chunk c))) (round-answers c) ∙ r.1))
          (λ failed. absurd (ground (arith, failed, emit-done c s.snd_nxt (next_bytes s), r.0))))

-- Where the state is one that sends, no call is running and every attempt finds a route and a buffer,
-- the call goes on until all bytes of the buffer are sent, or those in flight fill the congestion
-- window or the peer's window.
pub tcp_try_send_pending-exhausts :
    (c : Conn)
    → InRange c.tcb
    → c.tcb.in_send ≡ false
    → may_send c.tcb.state ≡ true
    → ready (unsent c.tcb) c.answers ≡ true
    → Exhausted (tcp_try_send_pending c).tcb
unfolding tcp_try_send_pending
tcp_try_send_pending-exhausts c i q m p =
    if-elim (λ (d : Conn). Exhausted d.tcb) (not c.tcb.in_send && may_send c.tcb.state)
      (λ _. send_loop-exhausts (suc (unsent c.tcb)) c i (omega arith) p)
      (λ off. absurd (ground (arith, off, q, m)))
