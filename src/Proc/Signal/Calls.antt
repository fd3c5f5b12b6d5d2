-- ===== src/Proc/Signal/Calls.antt =====
-- signal.c: the calls that change a thread's mask and its dispositions. A pointer is an address, 0 for
-- NULL, and the result is whether the call returns 0.
use kappara.Base.{
  ℕ, zero, suc, Bool, true, false, Option, none, some, List, [], ◌∷◌, ◌++◌, leb, ◌==◌, ◌||◌,
  if◌then◌else◌, get_elem?, drop, set, or32, and_not32,
}
use kappara.Core.Uaccess.{Mem, copy_from_user, copy_to_user}
use kappara.Proc.Signal.{
  nsig, sigkill, sigbit, Sigaction, Kthread, Context, put32, put64, get32, get64,
}

abbrev pub sig_block : ℕ
sig_block = 0

abbrev pub sig_unblock : ℕ
sig_unblock = 1

abbrev pub sig_setmask : ℕ
sig_setmask = 2

abbrev pub with_mask : Context → ℕ → Context
with_mask c m = record c { thread = record (c.thread) { sig_mask = m } }

-- The switch of `sys_sigprocmask_impl`, with SIGKILL taken out of the set.
unfoldable pub change_mask : Context → ℕ → ℕ → Bool × Context
change_mask c how set =
    let old = c.thread.sig_mask in
    let allowed = and_not32 set (sigbit sigkill) in
    if how == sig_block
    then (true, with_mask c (or32 old allowed))
    else if how == sig_unblock
    then (true, with_mask c (and_not32 old allowed))
    else if how == sig_setmask
    then (true, with_mask c allowed)
    else (false, c)

-- The set that was read, and the switch.
unfoldable pub set_from : Context → ℕ → Option (List ℕ) → Bool × Context
unfolding change_mask
set_from c how none = (false, c)
set_from c how (some bs) = change_mask c how (get32 bs)

-- From the test of `uset` on.
unfoldable pub read_set : Context → ℕ → ℕ → Bool × Context
unfolding set_from copy_from_user
read_set c how uset = if uset == 0 then (true, c) else set_from c how (copy_from_user c.mem uset 4)

-- With the old mask told to the user.
unfoldable pub told : Context → ℕ → ℕ → Option Mem → Bool × Context
unfolding read_set
told c how uset none = (false, c)
told c how uset (some mem) = read_set (record c { mem = mem }) how uset

unfoldable pub sys_sigprocmask_impl : Context → ℕ → ℕ → ℕ → Bool × Context
unfolding told copy_to_user
sys_sigprocmask_impl c how uset uoldset =
    if uoldset == 0
    then read_set c how uset
    else told c how uset (copy_to_user c.mem uoldset (put32 c.thread.sig_mask))

-- `struct sigaction_k` in memory.
abbrev pub action_bytes : Sigaction → List ℕ
action_bytes a = put64 a.sa_handler ++ put32 a.sa_mask ++ put32 a.sa_flags

abbrev pub bytes_action : List ℕ → Sigaction
bytes_action bs = record {
  sa_handler = get64 bs;
  sa_mask = get32 (drop 8 bs);
  sa_flags = get32 (drop 12 bs);
}

abbrev no_action : Sigaction
no_action = record { sa_handler = 0; sa_mask = 0; sa_flags = 0 }

abbrev repeat_action : ℕ → List Sigaction
repeat_action zero = []
repeat_action (suc n) = no_action ∷ repeat_action n

abbrev with_actions : Context → List Sigaction → Context
with_actions c acts = record c { thread = record (c.thread) { sig_actions = some acts } }

-- The table, allocated on first use: `alloc` says whether `kmalloc` finds memory.
unfoldable pub table : Kthread → Bool → Option (List Sigaction)
table t alloc = elim t.sig_actions [
  | none ↦ if alloc then some (repeat_action nsig) else none
  | some acts ↦ some acts
]

-- The new disposition, then the old one to the user.
unfoldable pub give_old : Context → Sigaction → ℕ → Bool × Context
unfolding copy_to_user
give_old c old uoldact =
    if uoldact == 0 then (true, c) else elim (copy_to_user c.mem uoldact (action_bytes old)) [
      | none ↦ (false, c)
      | some mem ↦ (true, record c { mem = mem })
    ]

unfoldable pub sys_sigaction_impl : Context → ℕ → ℕ → ℕ → Bool → Bool × Context
unfolding table give_old copy_from_user
sys_sigaction_impl c sig uact uoldact alloc =
    if sig == 0 || leb nsig sig || sig == sigkill then (false, c) else elim (table c.thread alloc) [
      | none ↦ (false, c)
      | some acts ↦
          let old : Sigaction = elim (get_elem? acts sig) [ none ↦ no_action | some a ↦ a ] in
          if uact == 0
          then give_old (with_actions c acts) old uoldact
          else elim (copy_from_user c.mem uact 16) [
            | none ↦ (false, with_actions c acts)
            | some bs ↦ give_old (with_actions c (set acts sig (bytes_action bs))) old uoldact
          ]
    ]
