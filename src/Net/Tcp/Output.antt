-- ===== src/Net/Tcp/Output.antt =====
-- tcp.c: putting a segment on the wire.
use kappara.Base.{
  ℕ, Bool, true, false, List, [], ◌∷◌, ◌++◌, ltb, ◌||◌, if◌then◌else◌, length, add32,
}
use kappara.Net.Tcp.Types.{Tcb, Conn, Flags, Segment, Reply, next_answer, rest_answers}
use kappara.Net.Tcp.Rtt.{tcp_arm_rto}
use kappara.Net.Tcp.Mss.{tcp_local_mss}
use kappara.Net.Tcp.Options.{syn_options}

abbrev pub bit : Bool → ℕ
bit true = 1
bit false = 0

-- The segment that `tcp_emit_segment` and `tcp_send_segment` build.
unfoldable pub build_segment : Conn → ℕ → Flags → List ℕ → Segment
unfolding tcp_local_mss syn_options
build_segment c seq flags payload = record {
  src_port = c.tcb.local_port;
  dst_ip = c.tcb.remote_ip;
  dst_port = c.tcb.remote_port;
  seq = seq;
  ack = c.tcb.rcv_nxt;
  flags = flags;
  options = if flags.syn then syn_options (tcp_local_mss c.route_mtu) c.tcb.ws_active else [];
  payload = payload;
}

-- `tcp_emit_segment`: false stands for a negative return.
unfoldable pub tcp_emit_segment : Conn → ℕ → Flags → List ℕ → Bool × Conn
unfolding build_segment
tcp_emit_segment c seq flags payload =
    if next_answer c.answers
    then (
      true,
      record c {
        answers = rest_answers c.answers;
        sent = c.sent ++ build_segment c seq flags payload ∷ [];
      },
    )
    else (false, record c { answers = rest_answers c.answers })

-- The state changes of `tcp_send_segment`, when there is a route and a buffer.
unfoldable pub advance : Conn → Flags → ℕ → Tcb
unfolding tcp_arm_rto
advance c flags plen =
    let nxt = add32 (add32 (add32 c.tcb.snd_nxt (bit flags.syn)) (bit flags.fin)) plen in
    let s : Tcb = record c.tcb { snd_nxt = nxt } in
    if flags.syn || flags.fin || ltb 0 plen then tcp_arm_rto c.tick s flags else s

unfoldable pub tcp_send_segment : Conn → Flags → List ℕ → Conn
unfolding build_segment advance
tcp_send_segment c flags payload =
    if next_answer c.answers
    then record c {
      answers = rest_answers c.answers;
      tcb = advance c flags (length payload);
      sent = c.sent ++ build_segment c c.tcb.snd_nxt flags payload ∷ [];
    }
    else record c { answers = rest_answers c.answers }

abbrev pub with_tcb : Conn → Tcb → Conn
with_tcb c s = record c { tcb = s }

abbrev pub reply : Conn → Reply → Conn
reply c r = record c { up = c.up ++ r ∷ [] }
