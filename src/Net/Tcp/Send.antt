-- ===== src/Net/Tcp/Send.antt =====
-- tcp.c: `tcp_try_send_pending`, which sends what the windows allow.
use kappara.Base.{
  ℕ, zero, suc, ◌-◌, Bool, true, false, List, ltb, leb, ◌==◌, ◌&&◌, ◌||◌, not, if◌then◌else◌,
  length, take, drop, flatten, add32, sub32,
}
use kappara.Net.Tcp.Types.{Tcb, Conn, TcpState, established, close_wait, flag_psh_ack}
use kappara.Net.Tcp.Rtt.{tcp_arm_rto}
use kappara.Net.Tcp.Output.{tcp_emit_segment, with_tcb}

abbrev pub min_of : ℕ → ℕ → ℕ
min_of a b = if ltb a b then a else b

-- `window > inflight ? window - inflight : 0`.
abbrev pub room_in : ℕ → ℕ → ℕ
room_in window inflight = if ltb inflight window then window - inflight else 0

-- How many bytes of the buffer have been sent, are in flight, and may be sent now.
abbrev pub sent_bytes : Tcb → ℕ
sent_bytes s = sub32 s.snd_nxt s.snd_buf_seq

abbrev pub inflight : Tcb → ℕ
inflight s = sub32 s.snd_nxt s.snd_una

abbrev pub unsent : Tcb → ℕ
unsent s = length (flatten s.snd_buf) - sent_bytes s

unfoldable pub chunk : Tcb → ℕ
chunk s =
    let room = min_of (room_in s.cwnd (inflight s)) (room_in s.snd_wnd (inflight s)) in
    let n = min_of (unsent s) room in if ltb s.mss n then s.mss else n

-- The bytes of the next segment: `chunk s` bytes of the buffer behind those that were sent.
unfoldable pub next_bytes : Tcb → List ℕ
unfolding chunk
next_bytes s = take (chunk s) (drop (sent_bytes s) (flatten s.snd_buf))

unfoldable pub after_chunk : Conn → Tcb
unfolding next_bytes tcp_arm_rto
after_chunk c =
    let s : Tcb = record c.tcb { snd_nxt = add32 c.tcb.snd_nxt (length (next_bytes c.tcb)) } in
    if s.rto_expires == 0 then tcp_arm_rto c.tick s flag_psh_ack else s

-- The loop, on fuel. It ends when nothing is left to send, when a window is full, or when a segment
-- cannot be sent; `mss` is never 0, so that `chunk` is 0 exactly where there is no room.
unfoldable pub send_loop : ℕ → Conn → Conn
unfolding tcp_emit_segment after_chunk chunk next_bytes
send_loop zero c = c
send_loop (suc f) c =
    let (done, c') = tcp_emit_segment c c.tcb.snd_nxt flag_psh_ack (next_bytes c.tcb) in
    let again = send_loop f (with_tcb c' (after_chunk c)) in
    if leb (length (flatten c.tcb.snd_buf)) (sent_bytes c.tcb) || chunk c.tcb == 0
    then c
    else (if done then again else c')

abbrev pub may_send : TcpState → Bool
may_send established = true
may_send close_wait = true
may_send _ = false

-- Every round but the last sends a byte, so that `unsent` rounds and one more are enough. `in_send`
-- is set during the loop only.
unfoldable pub tcp_try_send_pending : Conn → Conn
unfolding send_loop
tcp_try_send_pending c =
    if not c.tcb.in_send && may_send c.tcb.state then send_loop (suc (unsent c.tcb)) c else c
