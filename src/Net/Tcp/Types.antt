-- ===== src/Net/Tcp/Types.antt =====
-- tcp.c: the connection block, the constants, and segments as records. Sequence numbers, ticks and
-- windows are uint32_t; a flag byte is the record of its bits.
use kappara.Base.{ℕ, ◌^◌, Bool, true, false, Option, List, [], ◌∷◌, ltb, ◌&&◌, sub32}

pub data TcpState : Type 0 where
  closed bound listen syn_sent syn_received established fin_wait_1 fin_wait_2 close_wait last_ack
        closing time_wait :
      TcpState

pub record Flags : Type 0 where
  pub fin : Bool
  pub syn : Bool
  pub rst : Bool
  pub psh : Bool
  pub ack : Bool

abbrev pub no_flags : Flags
no_flags = record { fin = false; syn = false; rst = false; psh = false; ack = false }

abbrev pub flag_ack : Flags
flag_ack = record no_flags { ack = true }

abbrev pub flag_syn : Flags
flag_syn = record no_flags { syn = true }

abbrev pub flag_rst : Flags
flag_rst = record no_flags { rst = true }

abbrev pub flag_syn_ack : Flags
flag_syn_ack = record no_flags { syn = true; ack = true }

abbrev pub flag_fin_ack : Flags
flag_fin_ack = record no_flags { fin = true; ack = true }

abbrev pub flag_psh_ack : Flags
flag_psh_ack = record no_flags { psh = true; ack = true }

abbrev pub rto_min : ℕ
rto_min = 100

abbrev pub rto_max : ℕ
rto_max = 6000

abbrev pub rto_initial : ℕ
rto_initial = 100

abbrev pub max_retransmits : ℕ
max_retransmits = 5

abbrev pub snd_buf_max : ℕ
snd_buf_max = 65535

abbrev pub rcv_wnd_max : ℕ
rcv_wnd_max = 65535

abbrev pub time_wait_ticks : ℕ
time_wait_ticks = 100

abbrev pub mss_default : ℕ
mss_default = 536

abbrev pub initial_cwnd : ℕ
initial_cwnd = 1072

abbrev pub initial_ssthresh : ℕ
initial_ssthresh = 65535

abbrev pub listen_backlog : ℕ
listen_backlog = 8

-- An entry of `pending_q`; `wscale` is peer_wscale where has_wscale is set.
pub record Pending : Type 0 where
  pub remote_ip : ℕ
  pub remote_port : ℕ
  pub irs : ℕ
  pub peer_mss : ℕ
  pub wscale : Option ℕ

-- `struct tcp_tcb`. `snd_buf` is the b_cont chain of unacknowledged bytes, [] for NULL.
pub record Tcb : Type 0 where
  pub state : TcpState
  pub local_port : ℕ
  pub is_bound : Bool
  pub remote_ip : ℕ
  pub remote_port : ℕ
  pub snd_una : ℕ
  pub snd_nxt : ℕ
  pub snd_iss : ℕ
  pub rcv_nxt : ℕ
  pub rcv_irs : ℕ
  pub pending_q : ℕ → Pending
  pub pending_head : ℕ
  pub pending_count : ℕ
  pub rto_expires : ℕ
  pub rto_ticks : ℕ
  pub send_tick : ℕ
  pub pending_flags : Flags
  pub retransmit_count : ℕ
  pub rtt_valid : Bool
  pub srtt_ticks : ℕ
  pub rttvar_ticks : ℕ
  pub snd_buf : List (List ℕ)
  pub snd_buf_seq : ℕ
  pub snd_wnd : ℕ
  pub snd_wnd_shift : ℕ
  pub ws_active : Bool
  pub time_wait_expires : ℕ
  pub cwnd : ℕ
  pub ssthresh : ℕ
  pub mss : ℕ
  pub in_send : Bool
  pub dup_ack_count : ℕ

-- A segment on its way out; `options` is the option block of a SYN.
pub record Segment : Type 0 where
  pub src_port : ℕ
  pub dst_ip : ℕ
  pub dst_port : ℕ
  pub seq : ℕ
  pub ack : ℕ
  pub flags : Flags
  pub options : List ℕ
  pub payload : List ℕ

-- A segment that came in, with its header checked and decoded: the option block is what stands
-- between the fixed header and the payload.
pub record Arrival : Type 0 where
  pub src_ip : ℕ
  pub src_port : ℕ
  pub seq : ℕ
  pub ack : ℕ
  pub flags : Flags
  pub window : ℕ
  pub options : List ℕ
  pub payload : List ℕ

-- Why a connection is gone: TCP_DISCON_REASON_*.
pub data Reason : Type 0 where
  protoerr reset timeout : Reason

-- The primitives that go up the stream.
pub data Reply : Type 0 where
  bind_ack bind_nak : ℕ → Reply
  conn_con conn_ind : ℕ → ℕ → Reply
  data_ind : List ℕ → Reply
  ordrel_ind : Reply
  discon_ind : Reason → Reply

-- What `send_ip_bind` asks of IP: a bind or an unbind of a key.
pub data Bind : Type 0 where
  bind_req unbind_req : ℕ → Bind

-- A connection with its surroundings: the tick counter, the next initial sequence number and
-- ephemeral port, the MTU
-- of the interface towards the peer (none without a route), and, for each attempt to send, whether
-- there is a route and a buffer for it (an attempt past the end of the list fails). `sent` and `up`
-- are what has gone to IP and up the stream, oldest first, and `binds` the binds asked of IP.
pub record Conn : Type 0 where
  pub tcb : Tcb
  pub tick : ℕ
  pub iss_next : ℕ
  pub ephemeral_next : ℕ
  pub route_mtu : Option ℕ
  pub answers : List Bool
  pub sent : List Segment
  pub up : List Reply
  pub binds : List Bind

-- `(int32_t)(a - b) > 0` and `(int32_t)(a - b) >= 0`.
abbrev pub seq_after : ℕ → ℕ → Bool
seq_after a b = ltb 0 (sub32 a b) && ltb (sub32 a b) (2 ^ 31)

abbrev pub tick_reached : ℕ → ℕ → Bool
tick_reached now deadline = ltb (sub32 now deadline) (2 ^ 31)

abbrev pub next_answer : List Bool → Bool
next_answer [] = false
next_answer (b ∷ bs) = b

abbrev pub rest_answers : List Bool → List Bool
rest_answers [] = []
rest_answers (b ∷ bs) = bs
