-- ===== src/Io/Streams/Queue/Tests.antt =====
-- The queue operations on concrete queues.
use kappara.Base.{ℕ, ◌≡◌, refl, true, false, some, [], ◌∷◌, arith}
use kappara.Io.Streams.Queue.{Mblk, Stream, msgdsize, putq, putbq, getq}
use kappara.Io.Streams.Queue.Fifo
use kappara.Io.Streams.Queue.Fifo.{Fifo}
use kappara.Io.Streams.Queue.Refine.{Holds, putq_refines, putbq_refines, getq_refines, result}

-- Every message is of two blocks, of 3 and 4 bytes.
abbrev blank : Mblk
blank = record {
  b_next = 0;
  b_prev = 0;
  blocks = record { b_rptr = 10; b_wptr = 13 } ∷ record { b_rptr = 20; b_wptr = 24 } ∷ [];
}

abbrev empty : Stream
empty = record {
  mem = λ m. blank;
  q = record { q_first = 0; q_last = 0; q_count = 0; q_hiwat = 14; q_lowat = 7; full = false };
}

abbrev seven : ℕ → ℕ
seven m = 7

abbrev nothing : Fifo
nothing = record { items = []; full = false }

two_make_it_full : (putq (putq empty 0x100) 0x200).q.full ≡ true
unfolding putq msgdsize
two_make_it_full = refl

one_less_clears : (getq (putq (putq empty 0x100) 0x200)).1.q.full ≡ false
unfolding putq getq msgdsize
one_less_clears = refl

empty-Holds : Holds seven empty nothing
unfolding msgdsize
empty-Holds = record {
  linked = (refl, refl);
  distinct = tt;
  sizes = λ x. refl;
  count = refl;
  small = omega arith;
  full = refl;
}

putq_refines_example : Holds seven (putq empty 0x100) (Fifo.put seven 14 nothing 0x100)
putq_refines_example =
    putq_refines seven empty nothing 0x100 empty-Holds (omega arith) tt (omega arith)

putbq_refines_example :
    Holds seven
      (putbq (putq empty 0x100) 0x200)
      (Fifo.put_back (Fifo.put seven 14 nothing 0x100) 0x200)
unfolding Fifo.put
putbq_refines_example =
    putbq_refines seven (putq empty 0x100) (Fifo.put seven 14 nothing 0x100) 0x200
      putq_refines_example (omega arith) (omega arith) (omega arith)

getq_refines_example : result (getq (putq empty 0x100)).0 ≡ some 0x100
unfolding Fifo.get Fifo.put putq
getq_refines_example =
    (getq_refines seven (putq empty 0x100) (Fifo.put seven 14 nothing 0x100) putq_refines_example).0
