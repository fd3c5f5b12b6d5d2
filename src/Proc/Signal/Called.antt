-- ===== src/Proc/Signal/Called.antt =====
-- signal.c: what `check_signals` reads of a thread, how it enters a handler, and how it gives back the
-- mask of `sigsuspend`.
use kappara.Base.{
  ℕ, suc, ◌<◌, ◌≡◌, ◌≢◌, ◌⊎◌, inl, inr, refl, ap, ◌∙◌, true, false, ◌==◌, ◌||◌, ◌&&◌, not,
  Bool-cases, Option-cases, if_true, if_false, or32, test_bit, test_bit-or32, arith, none, some,
  List, get_elem?,
}
use kappara.Core.Uaccess.{copy_to_user}
use kappara.Proc.Signal.{frame_bytes, Context, Kthread, Sigaction, sigbit, sigkill, sig_dfl}
use kappara.Proc.Signal.Loop.{
  TrapOutcome, returned, exited, deliverable, handler_of, unsuspend, call_handler, action_of,
  after_sendsig,
}
use kappara.Proc.Signal.Send.{sendsig, frame_sp, frame_of}
use kappara.Proc.Signal.Masks.{deliverable_bit, sigbit_bit}

-- The mask that `sigsuspend` has put aside, where there is one, is back.
abbrev pub MaskBack : Kthread → Kthread → Type 0
MaskBack u v =
    ((u.sig_mask_save_pending ≡ true)
      × (v ≡ record u { sig_mask = u.sig_saved_mask; sig_mask_save_pending = false }))
    ⊎ ((u.sig_mask_save_pending ≡ false) × (v ≡ u))

pub unsuspend-MaskBack : (u : Kthread) → MaskBack u (unsuspend u)
unfolding unsuspend
unsuspend-MaskBack u = elim (Bool-cases u.sig_mask_save_pending) [
  | inl e ↦ inl (e, if_true u.sig_mask_save_pending _ u e)
  | inr e ↦ inr (e, if_false u.sig_mask_save_pending _ u e)
]

-- A handler is entered for the signal `k + 1`: the frame is put on the user's stack by `sendsig`, and in
-- the handler those signals are blocked that were, those that its action names, and the signal itself.
-- Where there is no place for the frame, the thread is ended.
abbrev pub Called : Context → ℕ → ℕ → TrapOutcome → Type 0
Called c k handler o =
    (((sendsig c (suc k) handler).0 ≡ false) × (o ≡ exited))
    ⊎ (((sendsig c (suc k) handler).0 ≡ true)
        × (d : Context) × (o ≡ returned d)
        × (d.tf ≡ (sendsig c (suc k) handler).1.tf)
        × (d.mem ≡ (sendsig c (suc k) handler).1.mem)
        × ((j : ℕ)
            → j < 32
            → test_bit d.thread.sig_mask j ≡ (
                test_bit c.thread.sig_mask j
                || (test_bit (action_of c.thread (suc k)).sa_mask j || (k == j)))))

sendsig-mask :
    (c : Context) (sig handler : ℕ) → (sendsig c sig handler).1.thread.sig_mask ≡ c.thread.sig_mask
unfolding sendsig
sendsig-mask c sig handler =
    elim (Option-cases (copy_to_user c.mem (frame_sp c) (frame_bytes (frame_of c sig)))) [
      | inl e ↦ ground (arith, e)
      | inr (m, e) ↦ ground (arith, e)
    ]

after_sendsig-mask :
    (a : Sigaction) (k : ℕ) (t : Kthread) (j : ℕ)
    → j < 32
    → test_bit (after_sendsig a (suc k) t).sig_mask j
      ≡ (test_bit t.sig_mask j || (test_bit a.sa_mask j || (k == j)))
unfolding after_sendsig
after_sendsig-mask a k t j h =
    ap (λ m. test_bit (or32 m (or32 a.sa_mask (sigbit (suc k)))) j) {y = t.sig_mask} (ground arith)
    ∙ test_bit-or32 t.sig_mask (or32 a.sa_mask (sigbit (suc k))) j h
    ∙ ap (λ b. test_bit t.sig_mask j || b) (test_bit-or32 a.sa_mask (sigbit (suc k)) j h)
    ∙ ap (λ b. test_bit t.sig_mask j || (test_bit a.sa_mask j || b)) (sigbit_bit k j)

pub call_handler-Called :
    (c : Context) (k handler : ℕ) → Called c k handler (call_handler c (suc k) handler)
unfolding call_handler
call_handler-Called c k handler =
    let a = action_of c.thread (suc k) in
    let sent = (sendsig c (suc k) handler).0 in
    let e = (sendsig c (suc k) handler).1 in
    let d : Context = record e { thread = after_sendsig a (suc k) (e.thread) } in
    elim (Bool-cases sent) [
      | inl ok ↦ inr (
        ok,
        d,
        if_true sent (returned d) exited ok,
        refl,
        refl,
        λ j h.
            after_sendsig-mask a k (e.thread) j h
            ∙ ap (λ m. test_bit m j || (test_bit a.sa_mask j || (k == j)))
                (sendsig-mask c (suc k) handler),
      )
      | inr failed ↦ inl (failed, if_false sent (returned d) exited failed)
    ]

-- Which signals of a thread are deliverable, and by which handlers: those that are pending and not
-- blocked, and SIGKILL, blocked or not; for SIGKILL and without a table the default, and else what the
-- table says.
pub record Reads (t : Kthread) : Type 0 where
  pub open_bits :
      (k : ℕ)
      → k < 32
      → test_bit (deliverable t) k ≡ (
          (test_bit t.sig_pending k && not (test_bit t.sig_mask k))
          || (test_bit t.sig_pending k && (8 == k)))
  pub kill : handler_of t sigkill ≡ sig_dfl
  pub no_table : t.sig_actions ≡ none → (sig : ℕ) → handler_of t sig ≡ sig_dfl
  pub in_table :
      (acts : List Sigaction) (sig : ℕ) (a : Sigaction)
      → t.sig_actions ≡ some acts
      → sig ≢ sigkill
      → get_elem? acts sig ≡ some a
      → handler_of t sig ≡ a.sa_handler

pub thread-Reads : (t : Kthread) → Reads t
unfolding handler_of
thread-Reads t = record {
  open_bits = deliverable_bit t;
  kill = refl;
  no_table = λ p sig. ground (arith, p);
  in_table = λ acts sig a p n q. ground (arith, p, n, q);
}
