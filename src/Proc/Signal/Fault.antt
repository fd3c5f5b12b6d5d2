-- ===== src/Proc/Signal/Fault.antt =====
-- uts/aarch64/trap.c: a fault in user mode is SIGSEGV for the thread; and what a thread can bring back
-- through `sigreturn`.
use kappara.Base.{
  ℕ, suc, ◌<◌, ◌≡◌, ◌⊎◌, inl, inr, refl, sym, ap, ◌∙◌, subst, true, false, Option, none, some, List,
  [], ◌==◌, ◌||◌, if◌then◌else◌, if_true, Bool-cases, Option-cases, set, get_elem?, or32, test_bit,
  test_bit-or32, test_bit_zero, arith,
}
use kappara.Core.Uaccess.{user_ptr_ok, bytes_at, put_bytes, copy_from_user}
use kappara.Core.Uaccess.Copies.{bytes_at-put_bytes}
use kappara.Proc.Signal.{
  sigsegv, sigbit, sig_dfl, sig_ign, sa_resethand, Sigaction, Kthread, Context, Sigframe,
  sizeof_sigframe, frame_bytes,
}
use kappara.Proc.Signal.Send.{trap_sigreturn, restored}
use kappara.Proc.Signal.Frame.{IsFrame, length-frame_bytes, bytes_frame-frame_bytes}
use kappara.Proc.Signal.Return.{sigreturn-restored, trap-restored}
use kappara.Proc.Signal.Loop.{TrapOutcome, returned, deliverable, handler_of, check_signals}
use kappara.Proc.Signal.Masks.{deliverable_bit, sigbit_bit}
use kappara.Proc.Signal.Deliver.{Deliverable, Settled, quiet, killed, caught}
use kappara.Proc.Signal.Settle.{check_signals-Settled}

-- The table with a handler of SIGSEGV made one-shot.
unfoldable pub one_shot : Option (List Sigaction) → Option (List Sigaction)
unfolding or32
one_shot none = none
one_shot (some acts) = elim (get_elem? acts sigsegv) [
  | none ↦ some acts
  | some a ↦
      let shot : Sigaction = record a { sa_flags = or32 a.sa_flags sa_resethand } in
      some
        (if a.sa_handler == sig_dfl || a.sa_handler == sig_ign then acts else set acts sigsegv shot)
]

unfoldable pub segv : Kthread → Kthread
unfolding one_shot or32
segv t = record t {
  sig_actions = one_shot t.sig_actions;
  sig_pending = or32 t.sig_pending (sigbit sigsegv);
}

-- The end of `trap_dispatch` for a synchronous fault from EL0.
unfoldable pub user_fault : Context → Option TrapOutcome
unfolding check_signals segv
user_fault c = check_signals (record c { thread = segv c.thread })

-- The signal is pending, and what could be delivered before still can.
segv-deliverable :
    (t : Kthread) (k : ℕ)
    → k < 31
    → deliverable t ≡ 0
    → Deliverable (segv t) k
    → (k ≡ 10) × (test_bit t.sig_mask 10 ≡ false)
unfolding segv
segv-deliverable t k h none_ready d =
    let was : test_bit (deliverable t) k ≡ false =
      ap (λ b. test_bit b k) none_ready ∙ test_bit_zero k in
    let e = deliverable_bit t k (omega (arith, h)) in
    let e' = deliverable_bit (segv t) k (omega (arith, h)) in
    let p = test_bit-or32 t.sig_pending (sigbit sigsegv) k (omega (arith, h)) in
    let q = sigbit_bit 10 k in
    elim (Bool-cases (10 == k)) [
      | inl i ↦
          let same : 10 ≡ k = ground (arith, i) in
          let open_bit : test_bit t.sig_mask k ≡ false = ground (arith, e', d, i) in
          (sym same, subst (λ b. test_bit t.sig_mask b ≡ false) (sym same) open_bit)
      | inr i ↦ absurd (ground (arith, was, e, e', p, q, d, i))
    ]

segv-top :
    (t : Kthread) → test_bit t.sig_pending 31 ≡ false → test_bit (segv t).sig_pending 31 ≡ false
unfolding segv
segv-top t h =
    ground
      (arith, test_bit-or32 t.sig_pending (sigbit sigsegv) 31 (omega arith), sigbit_bit 10 31, h)

abbrev handler_in : Option (List Sigaction) → ℕ
handler_in o = elim (get_elem? (elim o [ none ↦ [] | some acts ↦ acts ]) sigsegv) [
  | none ↦ sig_dfl
  | some a ↦ a.sa_handler
]

shot_handler :
    (o : Option (List Sigaction)) → handler_in o ≡ sig_ign → handler_in (one_shot o) ≡ sig_ign
unfolding one_shot
shot_handler none h = h
shot_handler (some acts) h = elim (Option-cases (get_elem? acts sigsegv)) [
  | inl e ↦ ground (arith, e, h)
  | inr (a, e) ↦ ground (arith, e, h)
]

-- One shot leaves an ignored signal ignored.
segv-ignored :
    (t : Kthread) → handler_of t sigsegv ≡ sig_ign → handler_of (segv t) sigsegv ≡ sig_ign
unfolding segv handler_of
segv-ignored t h = shot_handler t.sig_actions h

-- The thread goes on where it was.
abbrev pub Unmoved : Context → TrapOutcome → Type 0
Unmoved c o = (d : Context) × (o ≡ returned d) × (d.tf ≡ c.tf) × (d.mem ≡ c.mem)

Settled-Unmoved :
    (c : Context)
    → deliverable c.thread ≡ 0
    → (test_bit c.thread.sig_mask 10 ≡ true) ⊎ (handler_of c.thread sigsegv ≡ sig_ign)
    → (o : TrapOutcome) → Settled (record c { thread = segv c.thread }) o
    → Unmoved c o
Settled-Unmoved c n b _ (quiet u v below dropped back) = (record c { thread = v }, refl, refl, refl)
Settled-Unmoved c n (inl blocked) _ (killed k h below d dfl f) =
    absurd (ground (arith, (segv-deliverable c.thread k h n d).1, blocked))
Settled-Unmoved c n (inr ign) _ (killed k h below d dfl f) =
    let at : handler_of (segv c.thread) sigsegv ≡ sig_dfl =
      subst (λ b. handler_of (segv c.thread) (suc b) ≡ sig_dfl)
        (segv-deliverable c.thread k h n d).0 dfl in
    absurd (ground (arith, at, segv-ignored c.thread ign))
Settled-Unmoved c n (inl blocked) _ (caught k u _ h below d nd ni dropped called) =
    absurd (ground (arith, (segv-deliverable c.thread k h n d).1, blocked))
Settled-Unmoved c n (inr ign) _ (caught k u _ h below d nd ni dropped called) = absurd (
    ni (
      subst (λ b. handler_of (segv c.thread) (suc b) ≡ sig_ign)
        (sym (segv-deliverable c.thread k h n d).0) (segv-ignored c.thread ign)))

-- A thread that faults while SIGSEGV is blocked or ignored, and that has no other signal to deliver,
-- is sent back to the instruction that faulted with its registers as they were.
pub user_fault-Unmoved :
    (c : Context)
    → test_bit c.thread.sig_pending 31 ≡ false
    → deliverable c.thread ≡ 0
    → (test_bit c.thread.sig_mask 10 ≡ true) ⊎ (handler_of c.thread sigsegv ≡ sig_ign)
    → (o : TrapOutcome) × (user_fault c ≡ some o) × Unmoved c o
unfolding user_fault
user_fault-Unmoved c top none_ready why =
    let (_, o, e, settled) =
      check_signals-Settled (record c { thread = segv c.thread }) (segv-top c.thread top) in
    (o, e, Settled-Unmoved c none_ready why o settled)

copied :
    (c : Context) (bs : List ℕ)
    → user_ptr_ok c.tf.sp_el0 sizeof_sigframe ≡ true
    → bytes_at c.mem c.tf.sp_el0 sizeof_sigframe ≡ bs
    → copy_from_user c.mem c.tf.sp_el0 sizeof_sigframe ≡ some bs
unfolding copy_from_user
copied c bs ok there =
    if_true (user_ptr_ok c.tf.sp_el0 sizeof_sigframe)
      (some (bytes_at c.mem c.tf.sp_el0 sizeof_sigframe)) none ok
    ∙ ap some there

-- What `sigreturn` takes from the frame `fr`; all else of the thread, and its memory, stays.
pub record TakesFrame (c : Context) (fr : Sigframe) (d : Context) : Type 0 where
  pub x : d.tf.x ≡ fr.saved_x
  pub sp_el0 : d.tf.sp_el0 ≡ fr.saved_sp_el0
  pub elr : d.tf.elr ≡ fr.saved_elr
  pub spsr : d.tf.spsr ≡ fr.saved_spsr
  pub thread : d.thread ≡ record (c.thread) { sig_mask = fr.saved_mask }
  pub mem : d.mem ≡ c.mem

-- Whatever frame of words in range a thread writes at its stack pointer, where user memory has room for
-- it, `sigreturn` takes: the registers, the stack pointer, the address to go on at, the mask and the
-- processor state, which says at which exception level, all become those of the frame.
pub trap_sigreturn-forged :
    (c : Context) (fr : Sigframe)
    → IsFrame fr
    → user_ptr_ok c.tf.sp_el0 sizeof_sigframe ≡ true
    → let forged = record c { mem = put_bytes c.mem c.tf.sp_el0 (frame_bytes fr) } in
      TakesFrame forged fr (trap_sigreturn forged)
trap_sigreturn-forged c fr wf ok =
    let forged = record c { mem = put_bytes c.mem c.tf.sp_el0 (frame_bytes fr) } in
    let there =
      ap (λ n. bytes_at forged.mem c.tf.sp_el0 n) (sym (length-frame_bytes fr wf))
      ∙ bytes_at-put_bytes c.mem c.tf.sp_el0 (frame_bytes fr) in
    let taken : trap_sigreturn forged ≡ restored forged fr = trap-restored forged fr wf.registers (
      sigreturn-restored forged fr (frame_bytes fr) ok (copied forged (frame_bytes fr) ok there)
        (bytes_frame-frame_bytes fr wf)) in
    record {
      x = ap (λ (d : Context). d.tf.x) taken;
      sp_el0 = ap (λ (d : Context). d.tf.sp_el0) taken;
      elr = ap (λ (d : Context). d.tf.elr) taken;
      spsr = ap (λ (d : Context). d.tf.spsr) taken;
      thread = ap (λ (d : Context). d.thread) taken;
      mem = ap (λ (d : Context). d.mem) taken;
    }
