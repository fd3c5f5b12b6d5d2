-- ===== src/Proc/Signal/Return.antt =====
-- signal.c: what `sendsig` writes where it succeeds, and what `sigreturn` restores.
use kappara.Base.{
  ℕ, suc, ◌^◌, ◌≤◌, ◌<◌, ◌≡◌, refl, sym, ap, ◌∙◌, Bool, true, false, Option, none, some, List, [],
  ◌∷◌, ltb, ◌||◌, not, if◌then◌else◌, if_true, length, set, arith,
}
use kappara.Core.Uaccess.{Mem, user_ptr_ok, copy_from_user, copy_to_user}
use kappara.Core.Uaccess.Copies.{Agree, bytes_at_same}
use kappara.Proc.Signal.{Context, Kthread, Sigframe, sizeof_sigframe, frame_bytes, bytes_frame, nth}
use kappara.Proc.Signal.Send.{
  frame_of, frame_sp, mask_to_save, enter_handler, sendsig, restored, minus_1, sys_sigreturn_impl,
  trap_sigreturn,
}
use kappara.Proc.Signal.Frame.{IsFrame, Words}

-- The registers are 31, and every word fits its register.
pub record IsContext (c : Context) : Type 0 where
  pub registers : length c.tf.x ≡ 31
  pub small : Words c.tf.x
  pub last : Words (c.tf.sp_el0 ∷ c.tf.elr ∷ c.tf.spsr ∷ [])
  pub masks : (c.thread.sig_mask < 2 ^ 32) × (c.thread.sig_saved_mask < 2 ^ 32)

abbrev pub consumed : Kthread → Kthread
consumed t = record t { sig_mask_save_pending = false }

-- Where `sendsig` returns 0: what it has done.
pub record Sent (c : Context) (sig handler : ℕ) (d : Context) : Type 0 where
  pub room : sizeof_sigframe ≤ c.tf.sp_el0
  pub allowed : user_ptr_ok (frame_sp c) sizeof_sigframe ≡ true
  pub written : copy_to_user c.mem (frame_sp c) (frame_bytes (frame_of c sig)) ≡ some d.mem
  pub thread : d.thread ≡ consumed c.thread
  pub tf : d.tf ≡ enter_handler c.tf sig handler (frame_sp c)

abbrev send_to : Context → ℕ → ℕ → Option Mem → Bool × Context
send_to c sig handler o = elim o [
  | none ↦ (false, record c { thread = consumed c.thread })
  | some mem ↦ (
    true,
    record {
      thread = consumed c.thread;
      tf = enter_handler c.tf sig handler (frame_sp c);
      mem = mem;
    },
  )
]

send_to-some :
    (c : Context) (sig handler : ℕ) (o : Option Mem) (d : Context)
    → send_to c sig handler o ≡ (true, d)
    → (o ≡ some d.mem)
      × (d.thread ≡ consumed c.thread)
      × (d.tf ≡ enter_handler c.tf sig handler (frame_sp c))
send_to-some c sig handler none d h = absurd (ground (arith, ap (λ (r : Bool × Context). r.0) h))
send_to-some c sig handler (some mem) d h =
    let e = ap (λ (r : Bool × Context). r.1) h in
    (
      ap (λ (k : Context). some k.mem) e,
      sym (ap (λ (k : Context). k.thread) e),
      sym (ap (λ (k : Context). k.tf) e),
    )

guards :
    (bad : Bool) (x y : Bool × Context) (d : Context)
    → x.0 ≡ false
    → (if bad then x else y) ≡ (true, d)
    → (bad ≡ false) × (y ≡ (true, d))
guards true x y d n h = absurd (ground (arith, n, ap (λ (r : Bool × Context). r.0) h))
guards false x y d n h = (refl, h)

pub sendsig-Sent :
    (c : Context) (sig handler : ℕ) (d : Context)
    → sendsig c sig handler ≡ (true, d)
    → Sent c sig handler d
unfolding sendsig
sendsig-Sent c sig handler d h =
    let copied = copy_to_user c.mem (frame_sp c) (frame_bytes (frame_of c sig)) in
    let (ok, e) =
      guards (ltb c.tf.sp_el0 sizeof_sigframe || not (user_ptr_ok (frame_sp c) sizeof_sigframe))
        (false, c) (send_to c sig handler copied) d refl h in
    let (w, t, f) = send_to-some c sig handler copied d e in
    record {
      room = ground (arith, ok);
      allowed = ground (arith, ok);
      written = w;
      thread = t;
      tf = f;
    }

abbrev return_from : Context → Option (List ℕ) → ℕ × Context
return_from c o = elim o [
  | none ↦ (minus_1, c)
  | some bs ↦ (nth (bytes_frame bs).saved_x 0, restored c (bytes_frame bs))
]

pub sigreturn-restored :
    (c : Context) (fr : Sigframe) (bs : List ℕ)
    → user_ptr_ok c.tf.sp_el0 sizeof_sigframe ≡ true
    → copy_from_user c.mem c.tf.sp_el0 sizeof_sigframe ≡ some bs
    → bytes_frame bs ≡ fr
    → sys_sigreturn_impl c ≡ (nth fr.saved_x 0, restored c fr)
unfolding sys_sigreturn_impl
sigreturn-restored c fr bs ok read e =
    if_true (user_ptr_ok c.tf.sp_el0 sizeof_sigframe)
      (return_from c (copy_from_user c.mem c.tf.sp_el0 sizeof_sigframe)) (minus_1, c) ok
    ∙ ap (return_from c) read
    ∙ ap (λ (f : Sigframe). (nth f.saved_x 0, restored c f)) e

set-nth : (xs : List ℕ) (n : ℕ) → length xs ≡ suc n → set xs 0 (nth xs 0) ≡ xs
set-nth [] n h = absurd (omega (arith, h))
set-nth (x ∷ xs) n h = refl

pub trap-restored :
    (e : Context) (fr : Sigframe)
    → length fr.saved_x ≡ 31
    → sys_sigreturn_impl e ≡ (nth fr.saved_x 0, restored e fr)
    → trap_sigreturn e ≡ restored e fr
unfolding trap_sigreturn
trap-restored e fr l h =
    ap (λ (r : ℕ × Context). record (r.1) { tf = record (r.1.tf) { x = set r.1.tf.x 0 r.0 } }) h
    ∙ ap (λ x. record (restored e fr) { tf = record ((restored e fr).tf) { x = x } })
        (set-nth fr.saved_x 30 l)

pub read_agrees :
    (m m' : Mem) (a n : ℕ) → Agree m m' a n → copy_from_user m' a n ≡ copy_from_user m a n
unfolding copy_from_user
read_agrees m m' a n h =
    ap (λ bs. if user_ptr_ok a n then some bs else none) (sym (bytes_at_same m m' a n h))

pub frame_of-IsFrame : (c : Context) (sig : ℕ) → sig < 32 → IsContext c → IsFrame (frame_of c sig)
unfolding mask_to_save
frame_of-IsFrame c sig l h = record {
  words = (omega arith, omega arith, omega (arith, l), ground (arith, h.masks));
  registers = h.registers;
  small = h.small;
  last = h.last;
}
