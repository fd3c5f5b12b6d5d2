-- ===== src/Proc/Signal/Procmask.antt =====
-- signal.c: what `sys_sigprocmask_impl` does to the mask and what it returns.
use kappara.Base.{
  ℕ, ◌≤◌, ◌<◌, ◌≡◌, ◌≢◌, ◌⊎◌, inl, inr, refl, sym, ap, ◌∙◌, subst, if_true, if_false, Bool, true,
  false, none, some, leb, ◌==◌, ◌&&◌, not, if-elim, Bool-cases, test_bit, arith,
}
use kappara.Core.Uaccess.{Mem, user_ptr_ok, put_bytes, copy_from_user, copy_to_user}
use kappara.Proc.Signal.{Context, put32}
use kappara.Proc.Signal.Calls.{
  with_mask, change_mask, set_from, read_set, told, sys_sigprocmask_impl,
}
use kappara.Proc.Signal.Change.{
  changed, word_in, change_mask_bits, change_mask-done, change_mask-refused, get32-bytes_at,
  copy_from_user-allowed, copy_from_user-refused,
}

-- The user's memory once the old mask is told, where it is asked for.
abbrev pub TellsOld : Context → ℕ → Mem → Type 0
TellsOld c uoldset mem =
    ((uoldset ≡ 0) × (mem ≡ c.mem))
    ⊎ ((uoldset ≢ 0)
        × (user_ptr_ok uoldset 4 ≡ true)
        × (mem ≡ put_bytes c.mem uoldset (put32 c.thread.sig_mask)))

-- What a call does, and what it returns.
pub data MaskCall (c : Context) (how uset uoldset : ℕ) (r : Bool × Context) : Type 0 where
  old_refused :
      uoldset ≢ 0 → user_ptr_ok uoldset 4 ≡ false → r ≡ (false, c) → MaskCall c how uset uoldset r
  no_set :
      (mem : Mem)
      → TellsOld c uoldset mem
      → uset ≡ 0
      → r ≡ (true, record c { mem = mem })
      → MaskCall c how uset uoldset r
  set_refused :
      (mem : Mem)
      → TellsOld c uoldset mem
      → uset ≢ 0
      → user_ptr_ok uset 4 ≡ false
      → r ≡ (false, record c { mem = mem })
      → MaskCall c how uset uoldset r
  how_refused :
      (mem : Mem)
      → TellsOld c uoldset mem
      → uset ≢ 0
      → user_ptr_ok uset 4 ≡ true
      → 2 < how
      → r ≡ (false, record c { mem = mem })
      → MaskCall c how uset uoldset r
  changes :
      (mem : Mem) (m : ℕ)
      → TellsOld c uoldset mem
      → uset ≢ 0
      → user_ptr_ok uset 4 ≡ true
      → how ≤ 2
      → r ≡ (true, with_mask (record c { mem = mem }) m)
      → ((k : ℕ)
          → k < 32
          → test_bit m k
            ≡ changed how
                (test_bit c.thread.sig_mask k)
                (test_bit (word_in mem uset) k && not (8 == k)))
      → MaskCall c how uset uoldset r

-- From the test of `uset` on.
module _ (c : Context) (how uset uoldset : ℕ) (mem : Mem) (old : TellsOld c uoldset mem) where
  abbrev c' : Context
  c' = record c { mem = mem }

  read_set-refused : uset ≢ 0 → user_ptr_ok uset 4 ≡ false → read_set c' how uset ≡ (false, c')
  unfolding read_set set_from
  read_set-refused n bad =
      if_false (uset == 0) (true, c') (set_from c' how (copy_from_user mem uset 4))
        (ground (arith, n))
      ∙ ap (set_from c' how) (copy_from_user-refused mem uset 4 bad)

  read_set-change :
      uset ≢ 0
      → user_ptr_ok uset 4 ≡ true
      → read_set c' how uset ≡ change_mask c' how (word_in mem uset)
  unfolding read_set set_from
  read_set-change n ok =
      if_false (uset == 0) (true, c') (set_from c' how (copy_from_user mem uset 4))
        (ground (arith, n))
      ∙ ap (set_from c' how) (copy_from_user-allowed mem uset 4 ok)
      ∙ ap (change_mask c' how) (get32-bytes_at mem uset)

  read_set-null : (uset == 0) ≡ true → read_set c' how uset ≡ (true, c')
  unfolding read_set
  read_set-null e = if_true (uset == 0) (true, c') (set_from c' how (copy_from_user mem uset 4)) e

  read_set-MaskCall : MaskCall c how uset uoldset (read_set c' how uset)
  read_set-MaskCall = elim (Bool-cases (uset == 0)) [
    | inl e ↦ no_set mem old (ground (arith, e)) (read_set-null e)
    | inr e ↦
        let n : uset ≢ 0 = λ p. ground (arith, e, p) in
        elim (Bool-cases (user_ptr_ok uset 4)) [
          | inr bad ↦ set_refused mem old n bad (read_set-refused n bad)
          | inl ok ↦
              let set = word_in mem uset in
              let same = read_set-change n ok in
              elim (Bool-cases (leb how 2)) [
                | inl few ↦
                    changes mem (change_mask c' how set).1.thread.sig_mask old n ok
                      (ground (arith, few))
                      (same ∙ change_mask-done c' how set (ground (arith, few)))
                      (change_mask_bits c' how set)
                | inr many ↦
                    how_refused mem old n ok (ground (arith, many))
                      (same ∙ change_mask-refused c' how set (ground (arith, many)))
              ]
        ]
  ]

tell :
    (c : Context) (how uset uoldset : ℕ)
    → uoldset ≢ 0
    → MaskCall c how uset uoldset
        (told c how uset (copy_to_user c.mem uoldset (put32 c.thread.sig_mask)))
unfolding told copy_to_user
tell c how uset uoldset n =
    let bs = put32 c.thread.sig_mask in
    elim (Bool-cases (user_ptr_ok uoldset 4)) [
      | inl ok ↦
          subst (λ o. MaskCall c how uset uoldset (told c how uset o))
            (sym (if_true (user_ptr_ok uoldset 4) (some (put_bytes c.mem uoldset bs)) none ok))
            (read_set-MaskCall c how uset uoldset (put_bytes c.mem uoldset bs) (inr (n, ok, refl)))
      | inr bad ↦
          subst (λ o. MaskCall c how uset uoldset (told c how uset o))
            (sym (if_false (user_ptr_ok uoldset 4) (some (put_bytes c.mem uoldset bs)) none bad))
            (old_refused n bad refl)
    ]

-- SIGKILL is not blocked by a change, if it was not before.
changed_kill : (how : ℕ) (b : Bool) → changed how false (b && not (8 == 8)) ≡ false
changed_kill how true = ground arith
changed_kill how false = ground arith

-- The bit of SIGKILL in the mask after a call.
abbrev kill_bit : Bool × Context → Bool
kill_bit r = test_bit r.1.thread.sig_mask 8

kill_stays :
    (c : Context) (how uset uoldset : ℕ) (r : Bool × Context)
    → MaskCall c how uset uoldset r
    → test_bit c.thread.sig_mask 8 ≡ false
    → test_bit r.1.thread.sig_mask 8 ≡ false
kill_stays c how uset uoldset r (old_refused _ _ e) h = ap kill_bit e ∙ h
kill_stays c how uset uoldset r (no_set _ _ _ e) h = ap kill_bit e ∙ h
kill_stays c how uset uoldset r (set_refused _ _ _ _ e) h = ap kill_bit e ∙ h
kill_stays c how uset uoldset r (how_refused _ _ _ _ _ e) h = ap kill_bit e ∙ h
kill_stays c how uset uoldset r (changes mem m _ _ _ _ e bits) h =
    let set = word_in mem uset in
    ap kill_bit e
    ∙ bits 8 (omega arith)
    ∙ ap (λ b. changed how b (test_bit set 8 && not (8 == 8))) h
    ∙ changed_kill how (test_bit set 8)

-- The old mask is written to `uoldset` where that is not NULL, and where the user may not write there
-- the call fails with nothing done. Then the set is read at `uset`, as it is in memory after that
-- write: with NULL the call succeeds with the mask as it was, and where the user may not read there, or
-- `how` is none of the three operations, it fails with the mask as it was. Otherwise it succeeds, and
-- every signal of the set but SIGKILL is added to the mask or taken from it, or these make it up.
-- SIGKILL is never blocked afterwards if it was not before.
pub sys_sigprocmask_impl-Changes :
    (c : Context) (how uset uoldset : ℕ)
    → MaskCall c how uset uoldset (sys_sigprocmask_impl c how uset uoldset)
      × (test_bit c.thread.sig_mask 8 ≡ false
          → test_bit (sys_sigprocmask_impl c how uset uoldset).1.thread.sig_mask 8 ≡ false)
unfolding sys_sigprocmask_impl
sys_sigprocmask_impl-Changes c how uset uoldset =
    let r = sys_sigprocmask_impl c how uset uoldset in
    let call : MaskCall c how uset uoldset r =
      if-elim (MaskCall c how uset uoldset) (uoldset == 0)
        (λ e. read_set-MaskCall c how uset uoldset c.mem (inl (ground (arith, e), refl)))
        (λ e. tell c how uset uoldset (λ p. ground (arith, e, p))) in
    (call, kill_stays c how uset uoldset r call)
