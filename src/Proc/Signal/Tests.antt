-- ===== src/Proc/Signal/Tests.antt =====
-- signal.c on a thread with a handler for SIGINT.
use kappara.Base.{ℕ, ◌+◌, ◌≡◌, inl, refl, true, false, some, List, [], ◌∷◌, test_bit, arith}
use kappara.Core.Uaccess.{user_ptr_ok, put_bytes}
use kappara.Proc.Signal.{
  sigbit, sigsegv, Kthread, TrapFrame, Context, Sigframe, sizeof_sigframe, frame_bytes,
}
use kappara.Proc.Signal.Send.{sendsig, trap_sigreturn}
use kappara.Proc.Signal.Loop.{TrapOutcome, exited, deliverable, check_signals}
use kappara.Proc.Signal.Frame.{IsFrame, Words}
use kappara.Proc.Signal.Return.{IsContext}
use kappara.Proc.Signal.Handler.{Interrupts, sendsig-Interrupts}
use kappara.Proc.Signal.Calls.{sys_sigprocmask_impl, sig_block}
use kappara.Proc.Signal.Procmask.{MaskCall, sys_sigprocmask_impl-Changes}
use kappara.Proc.Signal.Fault.{
  TakesFrame, user_fault, Unmoved, user_fault-Unmoved, trap_sigreturn-forged,
}

abbrev registers : List ℕ
registers =
    1 ∷ 2 ∷ 3 ∷ 4 ∷ 5 ∷ 6 ∷ 7 ∷ 8 ∷ 9 ∷ 10 ∷ 11 ∷ 12 ∷ 13 ∷ 14 ∷ 15 ∷ 16 ∷ 17 ∷ 18 ∷ 19 ∷ 20 ∷ 21
    ∷ 22 ∷ 23 ∷ 24 ∷ 25 ∷ 26 ∷ 27 ∷ 28 ∷ 29 ∷ 30 ∷ 31 ∷ []

abbrev thread : Kthread
thread = record {
  tid = 5;
  t_session = 5;
  t_pgrp = 5;
  sig_pending = sigbit 2 + sigbit 14;
  sig_mask = 0;
  sig_saved_mask = 0;
  sig_mask_save_pending = false;
  sig_actions = some (
      record { sa_handler = 0; sa_mask = 0; sa_flags = 0 }
      ∷ record { sa_handler = 0; sa_mask = 0; sa_flags = 0 }
      ∷ record { sa_handler = 0x10000400; sa_mask = 0; sa_flags = 0 }
      ∷ []);
}

abbrev frame : TrapFrame
frame = record { x = registers; sp_el0 = 0x10100008; elr = 0x10000100; spsr = 0 }

abbrev context : Context
context = record { thread = thread; tf = frame; mem = λ _. 0 }

-- The context, with a fault of a thread that blocks SIGSEGV.
abbrev blocked : Context
blocked = record context { thread = record thread { sig_pending = 0; sig_mask = sigbit sigsegv } }

-- A frame that goes on in the kernel, at its exception level.
abbrev forged : Sigframe
forged = record {
  trampoline0 = 0;
  trampoline1 = 0;
  signo = 0;
  saved_mask = 0;
  saved_x = registers;
  saved_sp_el0 = 0x10100000;
  saved_elr = 0x40080000;
  saved_spsr = 5;
}

abbrev with_frame : Context
with_frame = record context { mem = put_bytes context.mem context.tf.sp_el0 (frame_bytes forged) }

kills :
    check_signals (record context { thread = record thread { sig_pending = sigbit 15 } })
    ≡ some exited
unfolding check_signals
kills = refl

kill_is_not_blocked :
    check_signals
      (record context { thread = record thread { sig_pending = sigbit 9; sig_mask = sigbit 9 } })
    ≡ some exited
unfolding check_signals
kill_is_not_blocked = refl

registers-Words : Words registers
registers-Words = ground arith

context-IsContext : IsContext context
context-IsContext = record {
  registers = refl;
  small = registers-Words;
  last = ground arith;
  masks = ground arith;
}

sent : sendsig context 2 0x10000400 ≡ (true, (sendsig context 2 0x10000400).1)
unfolding sendsig
sent = refl

sendsig-Interrupts_example : Interrupts context 2 0x10000400 (sendsig context 2 0x10000400).1
sendsig-Interrupts_example =
    sendsig-Interrupts context 2 0x10000400 (sendsig context 2 0x10000400).1 context-IsContext
      (omega arith) sent

sys_sigprocmask_impl-Changes_example :
    MaskCall context sig_block 0x10100000 0 (sys_sigprocmask_impl context sig_block 0x10100000 0)
    × (test_bit context.thread.sig_mask 8 ≡ false
        → test_bit (sys_sigprocmask_impl context sig_block 0x10100000 0).1.thread.sig_mask 8
          ≡ false)
sys_sigprocmask_impl-Changes_example = sys_sigprocmask_impl-Changes context sig_block 0x10100000 0

nothing_pending : test_bit blocked.thread.sig_pending 31 ≡ false
unfolding test_bit
nothing_pending = refl

nothing_deliverable : deliverable blocked.thread ≡ 0
unfolding deliverable
nothing_deliverable = refl

segv_blocked : test_bit blocked.thread.sig_mask 10 ≡ true
unfolding test_bit
segv_blocked = refl

user_fault-Unmoved_example : (o : TrapOutcome) × (user_fault blocked ≡ some o) × Unmoved blocked o
user_fault-Unmoved_example =
    user_fault-Unmoved blocked nothing_pending nothing_deliverable (inl segv_blocked)

forged-IsFrame : IsFrame forged
forged-IsFrame = record {
  words = ground arith;
  registers = refl;
  small = registers-Words;
  last = ground arith;
}

stack_allowed : user_ptr_ok context.tf.sp_el0 sizeof_sigframe ≡ true
unfolding user_ptr_ok
stack_allowed = refl

trap_sigreturn-forged_example : TakesFrame with_frame forged (trap_sigreturn with_frame)
trap_sigreturn-forged_example = trap_sigreturn-forged context forged forged-IsFrame stack_allowed
