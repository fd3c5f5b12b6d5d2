-- ===== src/Net/Tcp/Sound/Requests.antt =====
-- tcp.c: the bounds, over the requests of the user.
use kappara.Base.{ℕ, zero, suc, Option, none, some, List, [], arith, if-elim}
use kappara.Net.Tcp.Types.{Tcb, Conn, closed, flag_ack, flag_rst}
use kappara.Net.Tcp.Output.{tcp_send_segment, with_tcb}
use kappara.Net.Tcp.Requests.{
  handle_bind_req, handle_conn_req, handle_listen_req, handle_conn_res, handle_ordrel_req,
  handle_discon_req, handle_data_req, tcp_on_user_drain, reject_pending, queue_data, pop_pending,
  sends_rst, is_listener, tcp_accept_into,
}
use kappara.Net.Tcp.Sound.{IsSound, InBounds, send-IsSound, try-IsSound}

pub connect-IsSound : (c : Conn) (ip port : ℕ) → InBounds c → InBounds (handle_conn_req c ip port)
unfolding handle_conn_req
connect-IsSound c ip port h = ground (arith, h)

pub listening-IsSound : (c : Conn) → InBounds c → InBounds (handle_listen_req c)
unfolding handle_listen_req
listening-IsSound c h = ground (arith, h)

pop-IsSound : (c : Conn) (child : Tcb) → InBounds c → InBounds (tcp_accept_into c child).0
unfolding tcp_accept_into
pop-IsSound c child h = (h.0, h.1, h.2, omega arith, omega (arith, h))

pub accepting-IsSound :
    (c : Conn) (child : Option Tcb) → InBounds c → InBounds (handle_conn_res c child).0
unfolding handle_conn_res
accepting-IsSound c none h = h
accepting-IsSound c (some child) h = ground (arith, h, pop-IsSound c child h)

pub release-IsSound : (c : Conn) → InBounds c → InBounds (handle_ordrel_req c)
unfolding handle_ordrel_req
release-IsSound c h = ground (arith, h)

reject-IsSound : (n : ℕ) (c : Conn) → InBounds c → InBounds (reject_pending n c)
unfolding reject_pending
reject-IsSound zero c h = h
reject-IsSound (suc n) c h =
    let p = c.tcb.pending_q c.tcb.pending_head in
    let named : Tcb = record c.tcb { remote_ip = p.remote_ip; remote_port = p.remote_port } in
    let sent = tcp_send_segment (with_tcb c named) flag_rst [] in
    let held : InBounds sent = send-IsSound (with_tcb c named) flag_rst [] h in
    reject-IsSound n (with_tcb sent (pop_pending sent.tcb))
      (held.0, held.1, held.2, omega arith, omega (arith, held))

pub abort-IsSound : (c : Conn) → InBounds c → InBounds (handle_discon_req c)
unfolding handle_discon_req
abort-IsSound c h =
    if-elim InBounds (sends_rst c.tcb.state)
      (λ _. send-IsSound (with_tcb c (record c.tcb { state = closed })) flag_rst [] h)
      (λ _.
        if-elim InBounds (is_listener c.tcb) (λ _. reject-IsSound c.tcb.pending_count c h) (λ _. h))

queue-IsSound : (s : Tcb) (bs : List (List ℕ)) → IsSound s → IsSound (queue_data s bs)
unfolding queue_data
queue-IsSound s bs h = ground (arith, h)

pub write-IsSound : (c : Conn) (bs : List (List ℕ)) → InBounds c → InBounds (handle_data_req c bs).1
unfolding handle_data_req
write-IsSound c bs h =
    ground (arith, h, try-IsSound (with_tcb c (queue_data c.tcb bs)) (queue-IsSound c.tcb bs h))

pub read-IsSound : (c : Conn) → InBounds c → InBounds (tcp_on_user_drain c)
unfolding tcp_on_user_drain
read-IsSound c h = ground (arith, h, send-IsSound c flag_ack [] h)

pub bind-IsSound : (c : Conn) (port : ℕ) → InBounds c → InBounds (handle_bind_req c port)
unfolding handle_bind_req
bind-IsSound c port h = ground (arith, h)
