-- ===== src/Proc/Waitq/Groups.antt =====
-- sched.c and signal.c: signals sent by number, to a thread or to a process group.
use kappara.Base.{
  ℕ, zero, suc, ◌+◌, ◌<◌, ◌≡◌, ◌≢◌, refl, sym, ap, ◌∙◌, subst, Bool, true, false, Option, none,
  some, ltb, leb, ◌==◌, ◌&&◌, ◌||◌, not, if◌then◌else◌, if-elim, if_true, if_false, Bool-cases, inl,
  inr, write, or32, arith,
}
use kappara.Proc.Signal.{nsig, sigbit}
use kappara.Proc.Waitq.{
  KtState, ready, running, blocked, dead, Sched, woken, made_ready, post, kthread_signal,
}

abbrev pub ksched_max_tid : ℕ
ksched_max_tid = 256

abbrev is_dead : KtState → Bool
is_dead dead = true
is_dead ready = false
is_dead running = false
is_dead blocked = false

-- The thread of a tid is there and has not ended.
unfoldable pub kthread_find : Sched → ℕ → Bool
kthread_find s tid = ltb tid ksched_max_tid && s.tid_table tid && not (is_dead (s.state tid))

-- The result is whether the call returns 0. A negative argument counts as 0 for the tid, and as `nsig`
-- for the signal.
unfoldable pub sys_kill_impl : Sched → ℕ → ℕ → Bool × Sched
unfolding kthread_find kthread_signal
sys_kill_impl s tid sig =
    if tid == 0 || leb nsig sig || not (kthread_find s tid)
    then (false, s)
    else if sig == 0
    then (true, s)
    else (true, kthread_signal s tid sig)

-- The test of the loop: a live thread of the group.
unfoldable pub member : Sched → ℕ → ℕ → Bool
member s pgrp i = s.tid_table i && not (is_dead (s.state i)) && s.t_pgrp i == pgrp

-- The loop over the first `n` tids: how many were signalled, and the system then.
unfoldable pub signal_members : ℕ → ℕ → ℕ → Sched → ℕ × Sched
signal_members pgrp sig zero s = (0, s)
signal_members pgrp sig (suc i) s =
    let (n, s') = signal_members pgrp sig i s in
    let sent = if sig == 0 || leb nsig sig then n else n + 1 in
    if member s' pgrp i then (sent, kthread_signal s' i sig) else (n, s')

unfoldable pub kthread_signal_pgrp : Sched → ℕ → ℕ → ℕ × Sched
unfolding signal_members
kthread_signal_pgrp s pgrp sig =
    if pgrp == 0 then (0, s) else signal_members pgrp sig ksched_max_tid s

-- What a signal for `t` does to the pending signals, and to who is alive in which group.
record Posted (s : Sched) (t sig : ℕ) (d : Sched) : Type 0 where
  here : d.sig_pending t ≡ or32 (s.sig_pending t) (sigbit sig)
  elsewhere : (u : ℕ) → (t == u) ≡ false → d.sig_pending u ≡ s.sig_pending u
  alive : (u pgrp : ℕ) → member d pgrp u ≡ member s pgrp u

abbrev pended : Sched → ℕ → ℕ → Sched
pended s t sig = record s {
  sig_pending = write s.sig_pending t (or32 (s.sig_pending t) (sigbit sig));
}

write_here :
    (s : Sched) (t sig : ℕ) → (pended s t sig).sig_pending t ≡ or32 (s.sig_pending t) (sigbit sig)
write_here s t sig =
    if_true (t == t) (or32 (s.sig_pending t) (sigbit sig)) (s.sig_pending t) (ground arith)

write_elsewhere :
    (s : Sched) (t sig u : ℕ) → (t == u) ≡ false → (pended s t sig).sig_pending u ≡ s.sig_pending u
write_elsewhere s t sig u e =
    if_false (t == u) (or32 (s.sig_pending t) (sigbit sig)) (s.sig_pending u) e

-- A thread that sleeps is as alive as one that is ready.
woken-alive :
    (s : Sched) (t wq u pgrp : ℕ)
    → s.state t ≡ blocked
    → member (woken s t wq) pgrp u ≡ member s pgrp u
unfolding member made_ready
woken-alive s t wq u pgrp b =
    let same : is_dead (write s.state t ready u) ≡ is_dead (s.state u) =
      elim (Bool-cases (t == u)) [
        | inl e ↦
            let asleep : s.state u ≡ blocked = ap s.state {x = u} {y = t} (ground (arith, e)) ∙ b in
            ap is_dead (if_true (t == u) ready (s.state u) e) ∙ sym (ap is_dead asleep)
        | inr e ↦ ap is_dead (if_false (t == u) ready (s.state u) e)
      ] in
    ap (λ x. s.tid_table u && not x && s.t_pgrp u == pgrp) same

post-cases :
    (s : Sched) (t sig : ℕ) (st : KtState) (w : Option ℕ)
    → s.state t ≡ st
    → Posted s t sig (elim st [
      | blocked ↦ elim w [ none ↦ pended s t sig | some wq ↦ woken (pended s t sig) t wq ]
      | _ ↦ pended s t sig
    ])
unfolding member made_ready
post-cases s t sig blocked none e = record {
  here = write_here s t sig;
  elsewhere = write_elsewhere s t sig;
  alive = λ u p. refl;
}
post-cases s t sig blocked (some wq) e = record {
  here = write_here s t sig;
  elsewhere = write_elsewhere s t sig;
  alive = λ u p. woken-alive (pended s t sig) t wq u p e;
}
post-cases s t sig ready w e = record {
  here = write_here s t sig;
  elsewhere = write_elsewhere s t sig;
  alive = λ u p. refl;
}
post-cases s t sig running w e = record {
  here = write_here s t sig;
  elsewhere = write_elsewhere s t sig;
  alive = λ u p. refl;
}
post-cases s t sig dead w e = record {
  here = write_here s t sig;
  elsewhere = write_elsewhere s t sig;
  alive = λ u p. refl;
}

kthread_signal-Posted :
    (s : Sched) (t sig : ℕ) → 0 < sig → sig < nsig → Posted s t sig (kthread_signal s t sig)
unfolding kthread_signal
kthread_signal-Posted s t sig l u =
    subst (Posted s t sig)
      (sym (if_false (sig == 0 || leb nsig sig) s (post s t sig) (ground (arith, l, u))))
      (post-cases s t sig (s.state t) (s.waiting_on t) refl)

-- The live members among the first `n` threads.
abbrev pub members : Sched → ℕ → ℕ → ℕ
members s pgrp zero = 0
members s pgrp (suc i) = if member s pgrp i then members s pgrp i + 1 else members s pgrp i

-- The signal is pending for the live members among the first `n` threads, and nothing else is.
pub record Reached (s : Sched) (pgrp sig n : ℕ) (r : ℕ × Sched) : Type 0 where
  pub number : r.0 ≡ members s pgrp n
  pub pending :
      (u : ℕ)
      → r.1.sig_pending u ≡ (
          if ltb u n && member s pgrp u
          then or32 (s.sig_pending u) (sigbit sig)
          else s.sig_pending u)
  pub alive : (u q : ℕ) → member r.1 q u ≡ member s q u

abbrev choice : Sched → ℕ → ℕ → ℕ → Bool → ℕ
choice s pgrp sig v b = if b then or32 (s.sig_pending v) (sigbit sig) else s.sig_pending v

later_same : (i v : ℕ) → (i == v) ≡ false → (b : Bool) → (ltb v i && b) ≡ (ltb v (suc i) && b)
later_same i v e b = ap (λ x. x && b) (ground (arith, e))

nobody : (i v : ℕ) (b : Bool) → b ≡ false → (ltb v i && b) ≡ (ltb v (suc i) && b)
nobody i v b h = ground (arith, h)

not_yet : (i : ℕ) (b : Bool) → (ltb i i && b) ≡ false
not_yet i b = ground arith

its_turn : (i : ℕ) (b : Bool) → b ≡ true → (ltb i (suc i) && b) ≡ true
its_turn i b h = ground (arith, h)

signal_members-Reached :
    (pgrp sig n : ℕ) (s : Sched)
    → 0 < sig
    → sig < nsig
    → Reached s pgrp sig n (signal_members pgrp sig n s)
unfolding signal_members
signal_members-Reached pgrp sig zero s l u = record {
  number = refl;
  pending = λ v. sym (
      if_false (ltb v 0 && member s pgrp v) (or32 (s.sig_pending v) (sigbit sig)) (s.sig_pending v)
        (ground arith));
  alive = λ v q. refl;
}
signal_members-Reached pgrp sig (suc i) s l u =
    let before = signal_members pgrp sig i s in
    let h : Reached s pgrp sig i before = signal_members-Reached pgrp sig i s l u in
    let p = kthread_signal-Posted before.1 i sig l u in
    let own : member before.1 pgrp i ≡ true
        → (kthread_signal before.1 i sig).sig_pending i
          ≡ choice s pgrp sig i (ltb i (suc i) && member s pgrp i) =
      λ yes.
        p.here
        ∙ ap (λ x. or32 x (sigbit sig))
            (h.pending i ∙ ap (choice s pgrp sig i) {y = false} (not_yet i (member s pgrp i)))
        ∙ sym (
            ap (choice s pgrp sig i) {y = true}
              (its_turn i (member s pgrp i) (sym (h.alive i pgrp) ∙ yes))) in
    if-elim (Reached s pgrp sig (suc i)) (member before.1 pgrp i)
      (λ yes. record {
        number =
            if_false (sig == 0 || leb nsig sig) before.0 (before.0 + 1) (ground (arith, l, u))
            ∙ ap (λ k. k + 1) h.number
            ∙ sym (
                if_true (member s pgrp i) (members s pgrp i + 1) (members s pgrp i)
                  (sym (h.alive i pgrp) ∙ yes));
        pending = λ v. elim (Bool-cases (i == v)) [
          | inl e ↦
              subst
                (λ x.
                  (kthread_signal before.1 i sig).sig_pending x
                  ≡ choice s pgrp sig x (ltb x (suc i) && member s pgrp x))
                {x = i} {y = v} (ground (arith, e)) (own yes)
          | inr e ↦
              p.elsewhere v e
              ∙ h.pending v
              ∙ ap (choice s pgrp sig v) (later_same i v e (member s pgrp v))
        ];
        alive = λ v q. p.alive v q ∙ h.alive v q;
      })
      (λ no. record {
        number =
            h.number
            ∙ sym (
                if_false (member s pgrp i) (members s pgrp i + 1) (members s pgrp i)
                  (sym (h.alive i pgrp) ∙ no));
        pending = λ v. h.pending v ∙ elim (Bool-cases (i == v)) [
          | inl e ↦ ap (choice s pgrp sig v) (
              nobody i v (member s pgrp v) (
                ap (member s pgrp) {x = v} {y = i} (ground (arith, e)) ∙ sym (h.alive i pgrp) ∙ no))
          | inr e ↦ ap (choice s pgrp sig v) (later_same i v e (member s pgrp v))
        ];
        alive = h.alive;
      })

-- A signal that is in range, for a process group other than 0: it is pending for every thread of the
-- table that is alive and in the group, for no other thread does anything become pending, nobody's
-- group or life changes, and the number returned is that of the members.
pub kthread_signal_pgrp-Reached :
    (s : Sched) (pgrp sig : ℕ)
    → pgrp ≢ 0
    → 0 < sig
    → sig < nsig
    → Reached s pgrp sig ksched_max_tid (kthread_signal_pgrp s pgrp sig)
unfolding kthread_signal_pgrp
kthread_signal_pgrp-Reached s pgrp sig n l u =
    subst (Reached s pgrp sig ksched_max_tid)
      (sym (
        if_false (pgrp == 0) (0, s) (signal_members pgrp sig ksched_max_tid s) (ground (arith, n))))
      (signal_members-Reached pgrp sig ksched_max_tid s l u)
