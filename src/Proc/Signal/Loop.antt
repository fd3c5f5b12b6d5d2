-- ===== src/Proc/Signal/Loop.antt =====
-- signal.c: `check_signals`, the delivery of signals on the way back to user mode.
use kappara.Base.{
  ℕ, zero, suc, ◌+◌, ◌-◌, false, Option, none, some, List, [], leb, ◌==◌, if◌then◌else◌, get_elem?,
  set, or32, and32, and_not32, test_bit,
}
use kappara.Proc.Signal.{
  nsig, sigkill, sigbit, sig_fatal_mask, sig_dfl, sig_ign, sa_resethand, Sigaction, Kthread,
  Context,
}
use kappara.Proc.Signal.Send.{sendsig}

abbrev pub actions_of : Kthread → List Sigaction
actions_of t = elim t.sig_actions [ none ↦ [] | some acts ↦ acts ]

-- What is done with a signal: `SIG_DFL` for SIGKILL and where there is no table.
unfoldable pub handler_of : Kthread → ℕ → ℕ
handler_of t sig =
    if sig == sigkill
    then sig_dfl
    else elim (get_elem? (actions_of t) sig) [ none ↦ sig_dfl | some a ↦ a.sa_handler ]

-- Pending and not blocked, or SIGKILL.
unfoldable pub deliverable : Kthread → ℕ
unfolding or32 and_not32 and32
deliverable t = or32 (and_not32 t.sig_pending t.sig_mask) (and32 t.sig_pending (sigbit sigkill))

-- The loop over the signals from `sig` on, of which `n` are left; `nsig` where it finds none.
unfoldable pub first_from : ℕ → ℕ → ℕ → ℕ
unfolding test_bit
first_from d sig zero = sig
first_from d sig (suc n) =
    let next = first_from d (sig + 1) n in if test_bit d (sig - 1) then sig else next

abbrev pub first_signal : ℕ → ℕ
first_signal d = first_from d 1 31

-- The mask that `sigsuspend` has put aside comes back.
unfoldable pub unsuspend : Kthread → Kthread
unsuspend t =
    if t.sig_mask_save_pending
    then record t { sig_mask = t.sig_saved_mask; sig_mask_save_pending = false }
    else t

abbrev pub no_action : Sigaction
no_action = record { sa_handler = 0; sa_mask = 0; sa_flags = 0 }

abbrev pub action_of : Kthread → ℕ → Sigaction
action_of t sig = elim (get_elem? (actions_of t) sig) [ none ↦ no_action | some a ↦ a ]

-- The thread after `sendsig`: the disposition reset where the flag asks for it, and the mask extended.
unfoldable pub after_sendsig : Sigaction → ℕ → Kthread → Kthread
unfolding and32 or32
after_sendsig a sig t =
    let dropped = record (action_of t sig) { sa_handler = sig_dfl } in
    let reset : Kthread = record t {
      sig_actions = elim t.sig_actions [ none ↦ none | some acts ↦ some (set acts sig dropped) ];
    } in
    let u = if and32 a.sa_flags sa_resethand == 0 then t else reset in
    record u { sig_mask = or32 u.sig_mask (or32 a.sa_mask (sigbit sig)) }

-- The thread is gone, or the trap returns.
pub data TrapOutcome : Type 0 where
  exited : TrapOutcome
  returned : Context → TrapOutcome

-- A signal that has a handler of the user's.
unfoldable pub call_handler : Context → ℕ → ℕ → TrapOutcome
unfolding sendsig after_sendsig
call_handler c sig handler =
    let a = action_of c.thread sig in
    let (ok, c') = sendsig c sig handler in
    if ok then returned (record c' { thread = after_sendsig a sig c'.thread }) else exited

abbrev pub consume : Context → ℕ → Context
consume c sig = record c {
  thread = record (c.thread) { sig_pending = and_not32 c.thread.sig_pending (sigbit sig) };
}

-- What becomes of a signal that has been consumed; `again` is what the next round of the loop does.
unfoldable pub take_signal : Context → ℕ → Option TrapOutcome → Option TrapOutcome
unfolding handler_of call_handler and32
take_signal c sig again =
    let handler = handler_of c.thread sig in
    if handler == sig_dfl
    then if and32 sig_fatal_mask (sigbit sig) == 0 then again else some exited
    else if handler == sig_ign
    then again
    else some (call_handler c sig handler)

-- The loop, on fuel; none where the fuel has run out.
unfoldable pub check_signals_loop : ℕ → Context → Option TrapOutcome
unfolding deliverable first_from take_signal unsuspend
check_signals_loop zero c = none
check_signals_loop (suc f) c =
    let d = deliverable c.thread in
    let sig = first_signal d in
    let again = check_signals_loop f (consume c sig) in
    if d == 0
    then some (returned (record c { thread = unsuspend c.thread }))
    else if leb nsig sig
    then some (returned c)
    else take_signal (consume c sig) sig again

unfoldable pub check_signals : Context → Option TrapOutcome
unfolding check_signals_loop
check_signals c = check_signals_loop 32 c
