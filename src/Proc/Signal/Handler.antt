-- ===== src/Proc/Signal/Handler.antt =====
-- signal.c: a handler is entered by `sendsig` and left by `sigreturn`.
use kappara.Base.{
  ℕ, zero, suc, ◌+◌, ◌%◌, ◌≤◌, ◌<◌, ◌≡◌, ◌⊎◌, inl, inr, refl, sym, ap, ◌∙◌, subst, true, false,
  some, List, [], ◌∷◌, ◌++◌, length, take, set, arith,
}
use kappara.Core.Uaccess.{user_ptr_ok, bytes_at, copy_from_user, copy_to_user}
use kappara.Core.Uaccess.Copies.{Agree, guarded, copy_from_user-copy_to_user}
use kappara.Proc.Signal.{
  Context, Kthread, TrapFrame, nsig, put32, sizeof_sigframe, frame_bytes, nth,
}
use kappara.Proc.Signal.Send.{
  mask_to_save, frame_of, frame_sp, sendsig, trap_sigreturn, movz_x8_sigreturn, svc_0,
}
use kappara.Proc.Signal.Frame.{length-frame_bytes, bytes_frame-frame_bytes}
use kappara.Proc.Signal.Return.{
  IsContext, sendsig-Sent, sigreturn-restored, trap-restored, read_agrees, frame_of-IsFrame,
}

-- The mask that the thread is to have after the handler: what `sigsuspend` has put aside, where there
-- is that, and else the one in force.
abbrev pub MaskAfter : Kthread → ℕ → Type 0
MaskAfter t m =
    ((t.sig_mask_save_pending ≡ true) × (m ≡ t.sig_saved_mask))
    ⊎ ((t.sig_mask_save_pending ≡ false) × (m ≡ t.sig_mask))

mask_to_save-MaskAfter : (t : Kthread) → MaskAfter t (mask_to_save t)
unfolding mask_to_save
mask_to_save-MaskAfter t = ground arith

-- The context after `sigreturn`.
abbrev pub resumed : Context → ℕ → Context → Context
resumed c mask e = record e { thread = record (e.thread) { sig_mask = mask }; tf = c.tf }

-- What an interruption by a handler has done, and what the return from it does.
pub record Interrupts (c : Context) (sig handler : ℕ) (d : Context) : Type 0 where
  pub enters : (d.tf.elr ≡ handler) × (nth d.tf.x 0 ≡ sig) × (nth d.tf.x 30 ≡ d.tf.sp_el0)
  pub below : d.tf.sp_el0 + sizeof_sigframe ≤ c.tf.sp_el0
  pub aligned : d.tf.sp_el0 % 16 ≡ 0
  pub code :
      take 8 (bytes_at d.mem d.tf.sp_el0 sizeof_sigframe) ≡ put32 movz_x8_sigreturn ++ put32 svc_0
  pub elsewhere :
      (b : ℕ) → (b < d.tf.sp_el0) ⊎ (d.tf.sp_el0 + sizeof_sigframe ≤ b) → d.mem b ≡ c.mem b
  pub mask : ℕ
  pub which : MaskAfter c.thread mask
  pub resumes :
      (e : Context)
      → e.tf.sp_el0 ≡ d.tf.sp_el0
      → Agree d.mem e.mem d.tf.sp_el0 sizeof_sigframe
      → trap_sigreturn e ≡ resumed c mask e

module _ (c : Context) (sig : ℕ) (d : Context) (wf : IsContext c) (l : sig < 32) where
  abbrev sp : ℕ
  sp = frame_sp c

  abbrev bytes : List ℕ
  bytes = frame_bytes (frame_of c sig)

  size : length bytes ≡ 288
  size = length-frame_bytes (frame_of c sig) (frame_of-IsFrame c sig l wf)

  reads_back :
      copy_to_user c.mem sp bytes ≡ some d.mem
      → copy_from_user d.mem sp sizeof_sigframe ≡ some bytes
  reads_back w =
      ap (λ n. copy_from_user d.mem sp n) (sym size)
      ∙ (copy_from_user-copy_to_user c.mem sp bytes d.mem w).0

  there : copy_to_user c.mem sp bytes ≡ some d.mem → bytes_at d.mem sp sizeof_sigframe ≡ bytes
  unfolding copy_from_user
  there w =
      (guarded (user_ptr_ok sp sizeof_sigframe) (bytes_at d.mem sp sizeof_sigframe) bytes
        (reads_back w)).1

  trampoline : take 8 bytes ≡ put32 movz_x8_sigreturn ++ put32 svc_0
  unfolding frame_bytes
  trampoline = refl

  resumes_at :
      (e : Context)
      → user_ptr_ok sp sizeof_sigframe ≡ true
      → copy_to_user c.mem sp bytes ≡ some d.mem
      → e.tf.sp_el0 ≡ sp
      → Agree d.mem e.mem sp sizeof_sigframe
      → trap_sigreturn e ≡ resumed c (mask_to_save c.thread) e
  resumes_at e ok w p agree =
      let read =
        ap (λ a. copy_from_user e.mem a sizeof_sigframe) p
        ∙ read_agrees d.mem e.mem sp sizeof_sigframe agree
        ∙ reads_back w in
      trap-restored e (frame_of c sig) wf.registers (
        sigreturn-restored e (frame_of c sig) bytes (ap (λ a. user_ptr_ok a sizeof_sigframe) p ∙ ok)
          read (bytes_frame-frame_bytes (frame_of c sig) (frame_of-IsFrame c sig l wf)))

length-set : (xs : List ℕ) (i v : ℕ) → length (set xs i v) ≡ length xs
length-set [] i v = refl
length-set (x ∷ xs) zero v = refl
length-set (x ∷ xs) (suc i) v = ap suc (length-set xs i v)

nth-set_self : (xs : List ℕ) (i v : ℕ) → i < length xs → nth (set xs i v) i ≡ v
nth-set_self [] i v h = absurd (omega (arith, h))
nth-set_self (x ∷ xs) zero v h = refl
nth-set_self (x ∷ xs) (suc i) v h = nth-set_self xs i v (omega (arith, h))

nth-set_first : (xs : List ℕ) (i v : ℕ) → nth (set xs (suc i) v) 0 ≡ nth xs 0
nth-set_first [] i v = refl
nth-set_first (x ∷ xs) i v = refl

nth-entered :
    (xs : List ℕ) (a b : ℕ)
    → length xs ≡ 31
    → (nth (set (set xs 0 a) 30 b) 0 ≡ a) × (nth (set (set xs 0 a) 30 b) 30 ≡ b)
nth-entered xs a b h = (
  nth-set_first (set xs 0 a) 29 b ∙ nth-set_self xs 0 a (omega (arith, h)),
  nth-set_self (set xs 0 a) 30 b (omega (arith, h, length-set xs 0 a)),
)

-- A signal whose handler `sendsig` could enter: the handler gets the signal and, as the address to
-- return to, the two instructions that call `sigreturn`; the frame lies below the stack pointer,
-- aligned, and no other byte of the user's memory changes. Whatever the handler has done since to the
-- registers, to the mask and to memory outside of the frame, `sigreturn` from there brings back every
-- register, the stack pointer, the program counter and the processor state, and as the mask that which
-- `sigsuspend` had put aside, or, where it had put none aside, the one that was in force.
pub sendsig-Interrupts :
    (c : Context) (sig handler : ℕ) (d : Context)
    → IsContext c
    → sig < nsig
    → sendsig c sig handler ≡ (true, d)
    → Interrupts c sig handler d
sendsig-Interrupts c sig handler d wf l h =
    let s = sendsig-Sent c sig handler d h in
    let at : d.tf.sp_el0 ≡ frame_sp c = ap (λ (t : TrapFrame). t.sp_el0) s.tf in
    record {
      enters = (
        ap (λ (t : TrapFrame). t.elr) s.tf,
        ap (λ (t : TrapFrame). nth t.x 0) s.tf
            ∙ (nth-entered c.tf.x sig (frame_sp c) wf.registers).0,
        ap (λ (t : TrapFrame). nth t.x 30) s.tf
            ∙ (nth-entered c.tf.x sig (frame_sp c) wf.registers).1
            ∙ sym at,
      );
      below = omega (arith, at, s.room);
      aligned = omega (arith, at, s.room);
      code =
          ap (λ a. take 8 (bytes_at d.mem a sizeof_sigframe)) at
          ∙ ap (take 8) (there c sig d wf l s.written)
          ∙ trampoline c sig d wf l;
      elsewhere = λ b outside.
          (copy_from_user-copy_to_user c.mem (frame_sp c) (bytes c sig d wf l) d.mem s.written).1 b
            (elim outside [
              | inl u ↦ inl (omega (arith, u, at))
              | inr u ↦ inr (omega (arith, u, at, size c sig d wf l))
            ]);
      mask = mask_to_save c.thread;
      which = mask_to_save-MaskAfter c.thread;
      resumes = λ e p agree.
          resumes_at c sig d wf l e s.allowed s.written (p ∙ at)
            (subst (λ a. Agree d.mem e.mem a sizeof_sigframe) at agree);
    }
