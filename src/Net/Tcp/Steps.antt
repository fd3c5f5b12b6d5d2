-- ===== src/Net/Tcp/Steps.antt =====
-- tcp.c: all that can happen to a connection, one step at a time.
use kappara.Base.{ℕ, Bool, Option, List, add32}
use kappara.Net.Tcp.Types.{Tcb, Conn, Arrival}
use kappara.Net.Tcp.Input.{tcp_input_segment}
use kappara.Net.Tcp.Requests.{
  handle_bind_req, handle_ip_ack, handle_conn_req, handle_listen_req, handle_conn_res,
  handle_ordrel_req, handle_discon_req, handle_data_req, tcp_on_user_drain,
}
use kappara.Net.Tcp.Timer.{tcp_retransmit_main}

-- A step of a connection: a segment, a request of the user, IP's answer to a bind, the retransmit
-- thread's visit.
-- Between the calls (`elapse`) time goes by, routes change and buffers come free.
pub data Step : Conn → Conn → Type 0 where
  segment : (c : Conn) (a : Arrival) → Step c (tcp_input_segment c a)
  bind : (c : Conn) (port : ℕ) → Step c (handle_bind_req c port)
  answer : (c : Conn) (ok : Bool) (key : ℕ) → Step c (handle_ip_ack c ok key)
  connect : (c : Conn) (ip port : ℕ) → Step c (handle_conn_req c ip port)
  listening : (c : Conn) → Step c (handle_listen_req c)
  accepting : (c : Conn) (child : Option Tcb) → Step c (handle_conn_res c child).0
  release : (c : Conn) → Step c (handle_ordrel_req c)
  abort : (c : Conn) → Step c (handle_discon_req c)
  write_data : (c : Conn) (payload : List (List ℕ)) → Step c (handle_data_req c payload).1
  read_data : (c : Conn) → Step c (tcp_on_user_drain c)
  visit : (c : Conn) → Step c (tcp_retransmit_main c)
  elapse :
      (c : Conn) (ticks : ℕ) (mtu : Option ℕ) (answers : List Bool)
      → Step c (record c { tick = add32 c.tick ticks; route_mtu = mtu; answers = answers })

-- A history of such steps.
pub data Steps : Conn → Conn → Type 0 where
  begin : (c : Conn) → Steps c c
  then_step : (c d e : Conn) → Steps c d → Step d e → Steps c e
