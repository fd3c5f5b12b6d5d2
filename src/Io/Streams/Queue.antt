-- ===== src/Io/Streams/Queue.antt =====
-- The deferred-message list of a `queue_t`: putq, putbq and getq of uts/os/io/streams.c. A message is
-- named by the address of its first mblk, and 0 is NULL. The list runs through b_next and b_prev; the
-- blocks of the message that b_cont links are kept in a list, since the queue never changes them.
pub mod Links
pub mod Fifo
pub mod Refine
mod Tests
use kappara.Base.{
  ℕ, ◌+◌, ◌%◌, Bool, true, false, Option, none, some, List, [], ◌∷◌, leb, ◌==◌, if◌then◌else◌,
  write, add64, sub64,
}

-- One block of a message: b_rptr and b_wptr.
pub record Block : Type 0 where
  pub b_rptr : ℕ
  pub b_wptr : ℕ

pub record Mblk : Type 0 where
  pub b_next : ℕ
  pub b_prev : ℕ
  pub blocks : List Block

-- The fields of `struct queue` that the list and its flow control use; `full` is QFULL. The water
-- marks are `long` in the source, and non-negative in every `module_info` of the tree.
pub record Queue : Type 0 where
  pub q_first : ℕ
  pub q_last : ℕ
  pub q_count : ℕ
  pub q_hiwat : ℕ
  pub q_lowat : ℕ
  pub full : Bool

-- The mblks of the kernel, and one queue among those that hold some of them.
pub record Stream : Type 0 where
  pub mem : ℕ → Mblk
  pub q : Queue

pub blocks_size : List Block → ℕ
blocks_size [] = 0
blocks_size (b ∷ bs) = add64 (sub64 b.b_wptr b.b_rptr) (blocks_size bs)

pub msgdsize : (ℕ → Mblk) → ℕ → ℕ
unfolding blocks_size
msgdsize mem mp = blocks_size (mem mp).blocks

abbrev pub set_next : (ℕ → Mblk) → ℕ → ℕ → ℕ → Mblk
set_next mem m v = write mem m (record (mem m) { b_next = v })

abbrev pub set_prev : (ℕ → Mblk) → ℕ → ℕ → ℕ → Mblk
set_prev mem m v = write mem m (record (mem m) { b_prev = v })

-- The first four assignments of `putq`.
pub link_last : (ℕ → Mblk) → ℕ → ℕ → ℕ → Mblk
link_last mem last mp =
    let fresh = set_prev (set_next mem mp 0) mp last in
    if last == 0 then fresh else set_next fresh last mp

pub putq : Stream → ℕ → Stream
unfolding link_last
putq s mp =
    let mem' = link_last s.mem s.q.q_last mp in
    let count = add64 s.q.q_count (msgdsize mem' mp) in
    record {
      mem = mem';
      q = record s.q {
        q_first = if s.q.q_last == 0 then mp else s.q.q_first;
        q_last = mp;
        q_count = count;
        full = if leb s.q.q_hiwat count then true else s.q.full;
      };
    }

pub link_first : (ℕ → Mblk) → ℕ → ℕ → ℕ → Mblk
link_first mem first mp =
    let fresh = set_next (set_prev mem mp 0) mp first in
    if first == 0 then fresh else set_prev fresh first mp

pub putbq : Stream → ℕ → Stream
unfolding link_first
putbq s mp =
    let mem' = link_first s.mem s.q.q_first mp in
    record {
      mem = mem';
      q = record s.q {
        q_last = if s.q.q_first == 0 then mp else s.q.q_last;
        q_first = mp;
        q_count = add64 s.q.q_count (msgdsize mem' mp);
      };
    }

-- The memory after `getq` has taken `mp`, whose successor is `next`, off the list.
pub unlink_first : (ℕ → Mblk) → ℕ → ℕ → ℕ → Mblk
unlink_first mem mp next =
    let cut = if next == 0 then mem else set_prev mem next 0 in set_prev (set_next cut mp 0) mp 0

-- The result is 0 where the list is empty.
pub getq : Stream → ℕ × Stream
unfolding unlink_first
getq s =
    let mp = s.q.q_first in
    let next = (s.mem mp).b_next in
    let mem' = unlink_first s.mem mp next in
    let count = sub64 s.q.q_count (msgdsize mem' mp) in
    if mp == 0 then (0, s) else (
      mp,
      record {
        mem = mem';
        q = record s.q {
          q_first = next;
          q_last = if next == 0 then 0 else s.q.q_last;
          q_count = count;
          full = if leb count s.q.q_lowat then false else s.q.full;
        };
      },
    )
