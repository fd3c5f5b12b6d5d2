-- ===== src/Core/Uaccess/Copies.antt =====
-- uaccess.c: what the copies read and write.
use kappara.Base.{
  ℕ, zero, suc, ◌+◌, ◌%◌, ◌^◌, ◌≤◌, ◌<◌, ◌≡◌, ◌≢◌, ◌↔◌, ◌⊎◌, inl, inr, refl, sym, ap, ap₂, ◌∙◌,
  subst, Bool, true, false, Option, none, some, List, [], ◌∷◌, ◌==◌, if◌then◌else◌, if_true, length,
  drop, write_self, write_ne, All, arith,
}
use kappara.Core.Uaccess.{
  Mem, user_ptr_ok, bytes_at, put_bytes, copy_from_user, copy_to_user, strncpy_from_user,
}
use kappara.Core.Uaccess.Windows.{
  user_ptr_ok-part, user_ptr_ok-before, user_ptr_ok-after, user_ptr_ok_small,
}

-- An address below the ones that are written.
put_bytes-below : (mem : Mem) (a b : ℕ) (bs : List ℕ) → b < a → put_bytes mem a bs b ≡ mem b
unfolding put_bytes
put_bytes-below mem a b [] h = refl
put_bytes-below mem a b (c ∷ bs) h =
    ground (arith, h, put_bytes-below mem (a + 1) b bs (omega (arith, h)))

put_bytes-above :
    (mem : Mem) (a b : ℕ) (bs : List ℕ) → a + length bs ≤ b → put_bytes mem a bs b ≡ mem b
unfolding put_bytes
put_bytes-above mem a b [] h = refl
put_bytes-above mem a b (c ∷ bs) h =
    ground (arith, h, put_bytes-above mem (a + 1) b bs (omega (arith, h)))

-- The two memories agree on the `n` bytes from `a` on.
abbrev pub Agree : Mem → Mem → ℕ → ℕ → Type 0
Agree m m' a n = (b : ℕ) → a ≤ b → b < a + n → m b ≡ m' b

pub bytes_at_same : (m m' : Mem) (a n : ℕ) → Agree m m' a n → bytes_at m a n ≡ bytes_at m' a n
unfolding bytes_at
bytes_at_same m m' a zero h = refl
bytes_at_same m m' a (suc n) h =
    ap₂ ◌∷◌ (h a (omega arith) (omega arith))
      (bytes_at_same m m' (a + 1) n (λ b l u. h b (omega (arith, l)) (omega (arith, u))))

pub bytes_at-put_bytes :
    (mem : Mem) (a : ℕ) (bs : List ℕ) → bytes_at (put_bytes mem a bs) a (length bs) ≡ bs
unfolding bytes_at put_bytes
bytes_at-put_bytes mem a [] = refl
bytes_at-put_bytes mem a (b ∷ bs) = ap₂ ◌∷◌ (write_self (put_bytes mem (a + 1) bs) a b) (
    bytes_at_same (put_bytes mem a (b ∷ bs)) (put_bytes mem (a + 1) bs) (a + 1) (length bs)
      (λ c l u. write_ne (put_bytes mem (a + 1) bs) a b c (omega (arith, l)))
    ∙ bytes_at-put_bytes mem (a + 1) bs)

pub guarded {ℓ} :
    {A : Type ℓ} (ok : Bool) (x y : A)
    → (if ok then some x else none) ≡ some y
    → (ok ≡ true) × (x ≡ y)
guarded true x y h = (refl, ap (λ o. elim o [ none ↦ x | some z ↦ z ]) h)
guarded false x y h = absurd (ground (arith, h))

-- A copy to the user, and back: the bytes are what was written, every other byte of memory is as
-- before, and the range that was written lies in the user's windows.
pub copy_from_user-copy_to_user :
    (mem : Mem) (a : ℕ) (bs : List ℕ) (mem' : Mem)
    → copy_to_user mem a bs ≡ some mem'
    → (copy_from_user mem' a (length bs) ≡ some bs)
      × ((b : ℕ) → (b < a) ⊎ (a + length bs ≤ b) → mem' b ≡ mem b)
unfolding copy_from_user copy_to_user
copy_from_user-copy_to_user mem a bs mem' h =
    let ok = user_ptr_ok a (length bs) in
    let (allowed, written) = guarded ok (put_bytes mem a bs) mem' h in
    (
      subst (λ (m : Mem). copy_from_user m a (length bs) ≡ some bs) written
          (if_true ok (some (bytes_at (put_bytes mem a bs) a (length bs))) none allowed
            ∙ ap some (bytes_at-put_bytes mem a bs)),
      λ b outside. ap (λ (m : Mem). m b) (sym written) ∙ elim outside [
        | inl l ↦ put_bytes-below mem a b bs l
        | inr u ↦ put_bytes-above mem a b bs u
      ],
    )

-- The string at an address: it has no NUL, a NUL follows it, and it lies with its NUL in the windows.
pub record StringAt (mem : Mem) (a maxlen : ℕ) (s : List ℕ) : Type 0 where
  pub fits : length s < maxlen
  pub allowed : user_ptr_ok a (length s + 1) ≡ true
  pub bytes : bytes_at mem a (length s) ≡ s
  pub no_nul : All (λ b. b ≢ 0) s
  pub nul : mem (a + length s) ≡ 0

-- One round of the loop: what it returns, from the tests and from the rounds after it.
abbrev one_round : Bool → Bool → ℕ → Option (List ℕ) → Option (List ℕ)
one_round ok nul b rest =
    if ok then if nul then some [] else elim rest [ none ↦ none | some s ↦ some (b ∷ s) ] else none

one_round-cases :
    (ok nul : Bool) (b : ℕ) (rest : Option (List ℕ)) (s : List ℕ)
    → one_round ok nul b rest ≡ some s
    → (ok ≡ true)
      × (((nul ≡ true) × (s ≡ []))
          ⊎ ((nul ≡ false) × ((t : List ℕ) × (rest ≡ some t) × (s ≡ b ∷ t))))
one_round-cases true true b rest s h = (refl, inl (refl, ground (arith, h)))
one_round-cases true false b none s h = absurd (ground (arith, h))
one_round-cases true false b (some t) s h = (refl, inr (refl, (t, refl, ground (arith, h))))
one_round-cases false nul b rest s h = absurd (ground (arith, h))

next_small : (a : ℕ) → user_ptr_ok a 1 ≡ true → (a + 1) % 2 ^ 64 ≡ a + 1
next_small a h = omega (arith, user_ptr_ok_small a 1 (omega arith) h)

-- A string, and a byte before it that is not NUL.
longer :
    (mem : Mem) (a n : ℕ) (t : List ℕ)
    → user_ptr_ok a 1 ≡ true
    → (mem a == 0) ≡ false
    → StringAt mem (a + 1) n t
    → StringAt mem a (suc n) (mem a ∷ t)
unfolding bytes_at
longer mem a n t ok z r = record {
  fits = omega (arith, r.fits);
  allowed =
      subst (λ n. user_ptr_ok a n ≡ true) (omega arith)
        (user_ptr_ok-before a (length t + 1) (omega arith) ok r.allowed);
  bytes = ap (λ bs. mem a ∷ bs) r.bytes;
  no_nul = (ground (arith, z), r.no_nul);
  nul = ap mem (omega arith) ∙ r.nul;
}

empty : (mem : Mem) (a n : ℕ) → user_ptr_ok a 1 ≡ true → mem a ≡ 0 → StringAt mem a (suc n) []
unfolding bytes_at
empty mem a n ok z = record {
  fits = omega arith;
  allowed = ok;
  bytes = refl;
  no_nul = tt;
  nul = ap mem {y = a} (omega arith) ∙ z;
}

reads-StringAt :
    (mem : Mem) (a n : ℕ) (s : List ℕ) → strncpy_from_user mem a n ≡ some s → StringAt mem a n s
unfolding strncpy_from_user
reads-StringAt mem a zero s h = absurd (ground (arith, h))
reads-StringAt mem a (suc n) s h =
    let (ok, round) =
      one_round-cases (user_ptr_ok a 1) (mem a == 0) (mem a)
        (strncpy_from_user mem ((a + 1) % 2 ^ 64) n) s h in
    elim round [
      | inl (z, e) ↦ subst (StringAt mem a (suc n)) (sym e) (empty mem a n ok (ground (arith, z)))
      | inr (z, (t, r, e)) ↦ subst (StringAt mem a (suc n)) (sym e) (
          longer mem a n t ok z (
            reads-StringAt mem (a + 1) n t
              (subst (λ b. strncpy_from_user mem b n ≡ some t) (next_small a ok) r)))
    ]

abbrev head_of : ℕ → List ℕ → ℕ
head_of d [] = d
head_of d (b ∷ bs) = b

shorter :
    (mem : Mem) (a n b : ℕ) (s : List ℕ) → StringAt mem a (suc n) (b ∷ s) → StringAt mem (a + 1) n s
unfolding bytes_at
shorter mem a n b s r = record {
  fits = omega (arith, r.fits);
  allowed =
      user_ptr_ok-after a (length s + 1) (omega arith)
        (subst (λ k. user_ptr_ok a k ≡ true) (omega arith) r.allowed);
  bytes = ap (drop 1) r.bytes;
  no_nul = r.no_nul.1;
  nul = ap mem (omega arith) ∙ r.nul;
}

one_round-next :
    (ok nul : Bool) (b : ℕ) (rest : Option (List ℕ)) (t : List ℕ)
    → ok ≡ true
    → nul ≡ false
    → rest ≡ some t
    → one_round ok nul b rest ≡ some (b ∷ t)
one_round-next ok nul b rest t h k e = ground (arith, h, k, e)

first_byte :
    (mem : Mem) (a b : ℕ) (s : List ℕ) → bytes_at mem a (suc (length s)) ≡ b ∷ s → mem a ≡ b
unfolding bytes_at
first_byte mem a b s h = ap (head_of 0) h

StringAt-reads :
    (mem : Mem) (a n : ℕ) (s : List ℕ) → StringAt mem a n s → strncpy_from_user mem a n ≡ some s
unfolding strncpy_from_user
StringAt-reads mem a zero s r = absurd (omega (arith, r.fits))
StringAt-reads mem a (suc n) [] r =
    let z : mem a ≡ 0 = ap mem (omega arith) ∙ r.nul in
    if_true (user_ptr_ok a 1)
      (if mem a == 0 then some [] else elim (strncpy_from_user mem ((a + 1) % 2 ^ 64) n) [
        | none ↦ none
        | some s ↦ some (mem a ∷ s)
      ])
      none r.allowed
    ∙ ground (arith, z)
StringAt-reads mem a (suc n) (b ∷ s) r =
    let ok : user_ptr_ok a 1 ≡ true =
      subst (λ k. user_ptr_ok k 1 ≡ true) {x = a + 0} {y = a} (omega arith)
        (user_ptr_ok-part a (suc (length s) + 1) 0 r.allowed (omega arith)) in
    let same = first_byte mem a b s r.bytes in
    let rest =
      subst (λ k. strncpy_from_user mem k n ≡ some s) (sym (next_small a ok))
        (StringAt-reads mem (a + 1) n s (shorter mem a n b s r)) in
    one_round-next (user_ptr_ok a 1) (mem a == 0) (mem a)
      (strncpy_from_user mem ((a + 1) % 2 ^ 64) n) s ok (ground (arith, same, r.no_nul.0)) rest
    ∙ ap (λ c. some (c ∷ s)) same

-- `strncpy_from_user` returns a string exactly where it stands at the address, shorter than `maxlen`,
-- with its NUL, all within the user's windows.
pub strncpy_from_user-StringAt :
    (mem : Mem) (a maxlen : ℕ) (s : List ℕ)
    → (strncpy_from_user mem a maxlen ≡ some s) ↔ StringAt mem a maxlen s
strncpy_from_user-StringAt mem a maxlen s =
    (reads-StringAt mem a maxlen s, StringAt-reads mem a maxlen s)
