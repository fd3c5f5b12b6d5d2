-- ===== src/Proc/Signal/Send.antt =====
-- signal.c: `sendsig` and `sigreturn`.
use kappara.Base.{
  ℕ, ◌-◌, ◌%◌, ◌^◌, Bool, true, false, none, some, ltb, ◌||◌, not, if◌then◌else◌, set,
}
use kappara.Core.Uaccess.{user_ptr_ok, copy_from_user, copy_to_user}
use kappara.Proc.Signal.{
  Kthread, TrapFrame, Context, nth, Sigframe, sizeof_sigframe, frame_bytes, bytes_frame,
}

-- The mask that `sigreturn` is to restore.
unfoldable pub mask_to_save : Kthread → ℕ
mask_to_save t = if t.sig_mask_save_pending then t.sig_saved_mask else t.sig_mask

-- `MOVZ x8, #SYS_sigreturn` and `SVC #0`.
abbrev pub movz_x8_sigreturn : ℕ
movz_x8_sigreturn = 0xD28002E8

abbrev pub svc_0 : ℕ
svc_0 = 0xD4000001

abbrev pub frame_of : Context → ℕ → Sigframe
frame_of c sig = record {
  trampoline0 = movz_x8_sigreturn;
  trampoline1 = svc_0;
  signo = sig;
  saved_mask = mask_to_save c.thread;
  saved_x = c.tf.x;
  saved_sp_el0 = c.tf.sp_el0;
  saved_elr = c.tf.elr;
  saved_spsr = c.tf.spsr;
}

-- Where the frame goes.
abbrev pub frame_sp : Context → ℕ
frame_sp c = let sp = c.tf.sp_el0 - sizeof_sigframe in sp - sp % 16

-- The trap frame that enters the handler.
abbrev pub enter_handler : TrapFrame → ℕ → ℕ → ℕ → TrapFrame
enter_handler tf sig handler sp = record tf {
  x = set (set tf.x 0 sig) 30 sp;
  elr = handler;
  sp_el0 = sp;
}

-- The frame is put on the user's stack, and the trap frame made to enter the handler; false for -1.
unfoldable pub sendsig : Context → ℕ → ℕ → Bool × Context
unfolding frame_bytes copy_to_user
sendsig c sig handler =
    let sp = frame_sp c in
    let consumed : Kthread = record (c.thread) { sig_mask_save_pending = false } in
    if ltb c.tf.sp_el0 sizeof_sigframe || not (user_ptr_ok sp sizeof_sigframe)
    then (false, c)
    else elim (copy_to_user c.mem sp (frame_bytes (frame_of c sig))) [
      | none ↦ (false, record c { thread = consumed })
      | some mem ↦
          (true, record { thread = consumed; tf = enter_handler c.tf sig handler sp; mem = mem })
    ]

-- -1 as the register holds it.
abbrev pub minus_1 : ℕ
minus_1 = 2 ^ 64 - 1

abbrev pub restored : Context → Sigframe → Context
restored c fr = record c {
  thread = record (c.thread) { sig_mask = fr.saved_mask };
  tf = record {
    x = fr.saved_x;
    sp_el0 = fr.saved_sp_el0;
    elr = fr.saved_elr;
    spsr = fr.saved_spsr;
  };
}

unfoldable pub sys_sigreturn_impl : Context → ℕ × Context
unfolding bytes_frame copy_from_user
sys_sigreturn_impl c =
    let sp = c.tf.sp_el0 in
    if user_ptr_ok sp sizeof_sigframe
    then elim (copy_from_user c.mem sp sizeof_sigframe) [
      | none ↦ (minus_1, c)
      | some bs ↦ let c' = restored c (bytes_frame bs) in (nth c'.tf.x 0, c')
    ]
    else (minus_1, c)

-- The trap of `sigreturn`: its result goes into the first register, and no signal is delivered.
unfoldable pub trap_sigreturn : Context → Context
unfolding sys_sigreturn_impl
trap_sigreturn c =
    let (r, c') = sys_sigreturn_impl c in record c' { tf = record (c'.tf) { x = set c'.tf.x 0 r } }
