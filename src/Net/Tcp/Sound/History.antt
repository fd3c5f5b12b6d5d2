-- ===== src/Net/Tcp/Sound/History.antt =====
-- tcp.c: the bounds hold in every history of a connection.
use kappara.Base.{true, false}
use kappara.Net.Tcp.Types.{Conn}
use kappara.Net.Tcp.Requests.{handle_ip_ack}
use kappara.Net.Tcp.Steps.{
  Step, Steps, segment, connect, listening, accepting, release, abort, write_data, read_data, visit,
  elapse, bind, answer, begin, then_step,
}
use kappara.Net.Tcp.Sound.{IsSound, InBounds}
use kappara.Net.Tcp.Sound.Segments.{segment-IsSound}
use kappara.Net.Tcp.Sound.Requests.{
  connect-IsSound, listening-IsSound, accepting-IsSound, release-IsSound, abort-IsSound,
  write-IsSound, read-IsSound, bind-IsSound,
}
use kappara.Net.Tcp.Sound.Timer.{visit-IsSound}

Step-IsSound : (c d : Conn) → Step c d → InBounds c → InBounds d
unfolding handle_ip_ack
Step-IsSound c _ (segment _ a) h = segment-IsSound c a h
Step-IsSound c _ (bind _ port) h = bind-IsSound c port h
Step-IsSound c _ (answer _ true key) h = h
Step-IsSound c _ (answer _ false key) h = h
Step-IsSound c _ (connect _ ip port) h = connect-IsSound c ip port h
Step-IsSound c _ (listening _) h = listening-IsSound c h
Step-IsSound c _ (accepting _ child) h = accepting-IsSound c child h
Step-IsSound c _ (release _) h = release-IsSound c h
Step-IsSound c _ (abort _) h = abort-IsSound c h
Step-IsSound c _ (write_data _ bs) h = write-IsSound c bs h
Step-IsSound c _ (read_data _) h = read-IsSound c h
Step-IsSound c _ (visit _) h = visit-IsSound c h
Step-IsSound c _ (elapse _ n mtu answers) h = h

-- In every history of segments, requests, binds and visits of the retransmit thread, from a block
-- within the bounds on, the retransmission interval is at most 6000 ticks, there are at most five
-- retransmissions, the segment size is at least 536, and the ring's head and count stay within it.
pub Steps-IsSound : (c d : Conn) → Steps c d → IsSound c.tcb → IsSound d.tcb
Steps-IsSound c _ (begin _) h = h
Steps-IsSound c d (then_step _ e _ past last) h = Step-IsSound e d last (Steps-IsSound c e past h)
