-- ===== src/Proc/Signal.antt =====
-- uts/os/proc/signal.c: the signals of a thread, from the system calls to the return to user mode.
-- What the calls read and write.
pub mod Send
pub mod Loop
pub mod Masks
pub mod Frame
pub mod Return
pub mod Handler
pub mod Called
pub mod Deliver
pub mod Settle
pub mod Calls
pub mod Change
pub mod Procmask
pub mod Fault
mod Tests
use kappara.Base.{
  ℕ, zero, suc, ◌+◌, ◌-◌, ◌*◌, ◌/◌, ◌%◌, ◌^◌, Bool, true, false, Option, none, some, List, [], ◌∷◌,
  ◌++◌, ltb, leb, ◌==◌, ◌&&◌, ◌||◌, not, if◌then◌else◌, length, get_elem?, take, drop, set, or32,
  and32, and_not32, test_bit,
}
use kappara.Core.Uaccess.{Mem, user_ptr_ok, copy_from_user, copy_to_user}

abbrev pub nsig : ℕ
nsig = 32

abbrev pub sigkill : ℕ
sigkill = 9

abbrev pub sigsegv : ℕ
sigsegv = 11

-- For signals from 1 on.
abbrev pub sigbit : ℕ → ℕ
sigbit n = 2 ^ (n - 1)

-- SIGHUP, SIGINT, SIGQUIT, SIGKILL, SIGPIPE, SIGTERM, SIGSEGV and SIGABRT, whose bits are distinct.
abbrev pub sig_fatal_mask : ℕ
sig_fatal_mask =
    sigbit 1 + sigbit 2 + sigbit 3 + sigbit 9 + sigbit 13 + sigbit 15 + sigbit 11 + sigbit 6

abbrev pub sig_dfl : ℕ
sig_dfl = 0

abbrev pub sig_ign : ℕ
sig_ign = 1

abbrev pub sa_resethand : ℕ
sa_resethand = 4

-- `struct sigaction_k`.
pub record Sigaction : Type 0 where
  pub sa_handler : ℕ
  pub sa_mask : ℕ
  pub sa_flags : ℕ

-- The fields of `struct kthread` that signals use; `sig_actions` is none for NULL.
pub record Kthread : Type 0 where
  pub tid : ℕ
  pub t_session : ℕ
  pub t_pgrp : ℕ
  pub sig_pending : ℕ
  pub sig_mask : ℕ
  pub sig_saved_mask : ℕ
  pub sig_mask_save_pending : Bool
  pub sig_actions : Option (List Sigaction)

-- `struct trap_frame`: the 31 registers, the user's stack pointer, the address to return to and the
-- processor state to return with.
pub record TrapFrame : Type 0 where
  pub x : List ℕ
  pub sp_el0 : ℕ
  pub elr : ℕ
  pub spsr : ℕ

-- The current thread, its trap frame and the user's memory.
pub record Context : Type 0 where
  pub thread : Kthread
  pub tf : TrapFrame
  pub mem : Mem

-- Little-endian words, as the processor stores them, and the words in a list of bytes.
abbrev pub put32 : ℕ → List ℕ
put32 v = (v % 256) ∷ (v / 2 ^ 8 % 256) ∷ (v / 2 ^ 16 % 256) ∷ (v / 2 ^ 24 % 256) ∷ []

abbrev pub put64 : ℕ → List ℕ
put64 v = put32 v ++ put32 (v / 2 ^ 32)

abbrev pub nth : List ℕ → ℕ → ℕ
nth bs i = elim (get_elem? bs i) [ none ↦ 0 | some b ↦ b ]

abbrev pub get32 : List ℕ → ℕ
get32 bs = nth bs 0 + 2 ^ 8 * nth bs 1 + 2 ^ 16 * nth bs 2 + 2 ^ 24 * nth bs 3

abbrev pub get64 : List ℕ → ℕ
get64 bs = get32 bs + 2 ^ 32 * get32 (drop 4 bs)

unfoldable pub put_words : List ℕ → List ℕ
put_words [] = []
put_words (v ∷ vs) = put64 v ++ put_words vs

unfoldable pub get_words : ℕ → List ℕ → List ℕ
get_words zero bs = []
get_words (suc n) bs = get64 bs ∷ get_words n (drop 8 bs)

-- `struct sigframe`.
pub record Sigframe : Type 0 where
  pub trampoline0 : ℕ
  pub trampoline1 : ℕ
  pub signo : ℕ
  pub saved_mask : ℕ
  pub saved_x : List ℕ
  pub saved_sp_el0 : ℕ
  pub saved_elr : ℕ
  pub saved_spsr : ℕ

abbrev pub sizeof_sigframe : ℕ
sizeof_sigframe = 288

-- The bytes of a frame in memory, and the frame that bytes stand for.
unfoldable pub frame_bytes : Sigframe → List ℕ
unfolding put_words
frame_bytes fr =
    put32 fr.trampoline0
    ++ put32 fr.trampoline1
    ++ put32 fr.signo
    ++ put32 fr.saved_mask
    ++ put_words fr.saved_x
    ++ put_words (fr.saved_sp_el0 ∷ fr.saved_elr ∷ fr.saved_spsr ∷ [])

unfoldable pub bytes_frame : List ℕ → Sigframe
unfolding get_words
bytes_frame bs = record {
  trampoline0 = get32 bs;
  trampoline1 = get32 (drop 4 bs);
  signo = get32 (drop 8 bs);
  saved_mask = get32 (drop 12 bs);
  saved_x = get_words 31 (drop 16 bs);
  saved_sp_el0 = get64 (drop 264 bs);
  saved_elr = get64 (drop 272 bs);
  saved_spsr = get64 (drop 280 bs);
}
