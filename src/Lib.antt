-- ===== src/Lib.antt =====
-- kappara: an SVR4-flavoured operating system kernel for AArch64, written in C.
--
-- The kernel is cut into uts/os (the portable part: memory, processes, file systems, STREAMS and the
-- network), uts/aarch64 (the architecture) and uts/virt (drivers). Programs stand in cmd and user, and
-- the C library and the loader in lib. A protocol is a STREAMS module: its put routines take messages
-- from the queue above and the queue below, and pass them on. TCP (uts/os/net/tcp.c) stands on IP
-- (uts/os/net/ipv4.c), which hands datagrams to an interface such as the serial line that
-- uts/os/net/slip.c frames. Messages wait in the queues of uts/os/io/streams.c, and all memory comes
-- from the page allocator, uts/os/core/pmm.c, or from the slab allocator on it, uts/os/core/kmem.c. The
-- ramdisks hold the file system of uts/os/fs/kfs.c, which reaches its blocks through the buffer cache.
--
-- Base: what the other modules share. Numbers are the native ℕ; a machine word keeps its wrap written
--   out (add32, sub32, add64, sub64). `if-elim` splits on a test and keeps its equation. Memory is a
--   function from addresses.
-- Core/Pmm: uts/os/core/pmm.c, the pages threaded on a free list through their first words.
--   Core/Pmm/Owners has the histories of allocations and frees by clients that keep to their pages.
-- Core/Kmem: uts/os/core/kmem.c on top of Core/Pmm. A slab's header and the first words of its free
--   objects are words of the memory that the page allocator has, so that the two share their pages.
--   `Slabs` has the list of a cache's slabs, `Grow` and `NewSlab` grow_cache, `Alloc` the search and the
--   pop, `Free` the push and a client's write, `Cache` and `Refines` a call on a cache as a whole,
--   `Clients`, `AllocSound` and `History` who holds which object over time, and `Sizes` and `Init` the
--   caches of kmalloc.
-- Core/Uaccess: uts/os/core/uaccess.c, the copies between user and kernel memory. `Windows` is about
--   the addresses that are allowed, `Copies` about what is read and written.
-- Fs/Kfs: uts/os/fs/kfs.c. Fs/Kfs has the bitmap and the allocation of runs of blocks, `Io` what is
--   relied on in the buffer cache, `Search`, `Runs`, `Owners` and `History` who holds which blocks. `File`
--   has the operations on a regular file, with the bytes of the file in `Bytes` and `Written`, what a
--   write can change in `Confined`, and what is read in `Reads`. `Dir` has the block of a directory and
--   the searches in it (`Dir/Refusals` why they find no slot), `Ops` creat, mkdir, unlink and rmdir, and
--   `Image` kfs_mkimage.
-- Io/Streams/Queue: putq, putbq, getq and msgdsize of uts/os/io/streams.c, on a memory of mblks that
--   b_next and b_prev link. Io/Streams/Queue/Fifo is what they promise.
-- Net/Slip: uts/os/net/slip.c, both directions of the framing: slip_wq_putp, slip_rq_putp, slip_append,
--   slip_deliver_frame and slip_qopen.
-- Net/Tcp: uts/os/net/tcp.c. `Tcb` is struct tcp_tcb, and `Conn` is a block with what its functions
--   read and write outside of it: the tick counter, the next initial sequence number and ephemeral
--   port, the MTU of the route, and the segments, primitives and binds that have been sent.
--   Rtt, Mss, Options, Output and Send model the functions up to tcp_try_send_pending, Ack and Input the
--   parts of tcp_input_segment in the order in which they run, Requests the requests of the user, open,
--   close and the answer of IP to a bind, and Timer what tcp_retransmit_main does with one block.
--   Steps is the relation of all that can happen to a connection. The theorems stand in Window (what is
--   sent, and how much), States (the state machine), Closing (where the code stops short), Delivery
--   (what goes up, and what an acknowledgement leaves), Backlog (the ring of waiting SYNs), Backoff
--   (a visit of the retransmit thread) and Sound (the ranges of the fields, over every history).
-- Net/Arp: uts/os/net/arp.c. The two tables are lists, `Slots` and `Choice` are about the choice of a
--   slot in either, Cache about arp_learn and arp_lookup, Holds about the frames that wait for an
--   address, and Exchange about two stations, the request and the reply.
-- Proc/Signal: uts/os/proc/signal.c, and the parts of uts/aarch64/trap.c that call it. `Send` has
--   sendsig and sigreturn, `Loop` check_signals, `Calls` sigprocmask and sigaction, `Fault` a fault of a
--   user program. `Frame`, `Return` and `Handler` follow a signal into its handler and back, `Masks`,
--   `Called`, `Deliver` and `Settle` the loop of check_signals, `Change` and `Procmask` sigprocmask.
-- Proc/Waitq: the wait queues of uts/os/proc/sched.c with kthread_signal, and sigsuspend on them.
--   `Steps` is the relation of all that can happen; `Linked` and `History` are about the queues, and
--   `Suspended` about sigsuspend. `Groups` has sys_kill and the signal for a process group.
--
-- Choices. An attempt to send takes the next element of `answers`: true stands for a route and a
-- buffer, false for a negative return, so that every pattern of failure is covered. A segment that is
-- sent does not come back within the call; over lo0 it can, and that interleaving is not modelled.
-- The buffers of primitives to the user and to IP are taken to be there. The b_cont chain `snd_buf` is
-- a list of blocks, and [] is NULL. A received segment is a record of its header's fields, its option
-- block and its payload. The kernel's user memory is a function from addresses to bytes, and a structure
-- in it the list of its bytes. A bit mask is a number below 2^32; or32 and and_not32 are the operators
-- of C, and test_bit says what their bits are. The signals' thread is the current one, which is there.
-- In Proc/Waitq a thread is its tid, a queue the list that `next` links, and what the code does under a
-- queue's lock is one step; the change of priority on a wake-up and the choice of a processor are left
-- out.
--
-- A kmem_cache is known by a number, the eight size caches by 1 to 8. The buffer cache is a parameter of
-- Fs/Kfs, `BlockIo`, with `IsCoherent` for what a read and a write of a block do, and `IsReliable` where
-- no call fails; a ramdisk shows that both can hold. The device that kfs.c has mounted is one, and a
-- block a function from the byte's place.
--
-- Fuel. `find_slab` and `count_slabs` have a unit for each slab, of which there are no more than pages.
-- `find_run` has one for each block that the bitmap can stand for, and `write_loop` one for each byte,
-- and each round writes one at least. `send_loop` has one unit more than there are bytes unsent, and each
-- round but the last sends one at least. `check_signals_loop` has 32: each round but the last consumes a
-- signal, and the next one is higher. `parse_from` has one more than there are option bytes, and each
-- round passes one. All other loops are structural.
--
-- Not modelled: the TCP checksum, the header checks, the port filter, the table of connections with
-- the search for a child, and the advertised window, which is read from the stream head; the
-- listing of the ARP cache; sys_wait, and the calls that change process groups and sessions; the
-- run queues of the scheduler; the run queue and the reference counts of STREAMS; interrupts and
-- locks; and the components that no file above names, which are the drivers, the architecture,
-- processes, the buffer cache, the tree of files in memory with kfs_mount, the terminal and all programs.
pub mod Base
pub mod Core
pub mod Fs
pub mod Io
pub mod Net
pub mod Proc
