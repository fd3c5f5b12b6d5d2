-- ===== src/Proc/Signal/Frame.antt =====
-- signal.c: the frame on the user's stack, as bytes and back.
use kappara.Base.{
  ℕ, suc, ◌+◌, ◌*◌, ◌^◌, ◌<◌, ◌≡◌, refl, sym, ap, ap₂, ◌∙◌, List, [], ◌∷◌, ◌++◌, length,
  length-append, drop, All, arith,
}
use kappara.Proc.Signal.{
  put32, put64, get32, get64, put_words, get_words, Sigframe, frame_bytes, bytes_frame,
}

get32-put32 : (v : ℕ) (rest : List ℕ) → v < 2 ^ 32 → get32 (put32 v ++ rest) ≡ v
get32-put32 v rest h = omega (arith, h)

get64-put64 : (v : ℕ) (rest : List ℕ) → v < 2 ^ 64 → get64 (put64 v ++ rest) ≡ v
get64-put64 v rest h = omega (arith, h)

-- Every word fits its register.
abbrev pub Words : List ℕ → Type 0
Words vs = All (λ v. v < 2 ^ 64) vs

get_words-put_words :
    (vs rest : List ℕ) → Words vs → get_words (length vs) (put_words vs ++ rest) ≡ vs
unfolding get_words put_words
get_words-put_words [] rest h = refl
get_words-put_words (v ∷ vs) rest h =
    ap₂ ◌∷◌ (get64-put64 v (put_words vs ++ rest) h.0) (get_words-put_words vs rest h.1)

drop-put_words :
    (vs rest : List ℕ) (k : ℕ)
    → drop (k + length (put_words vs)) (put_words vs ++ rest) ≡ drop k rest
unfolding put_words
drop-put_words [] rest k = ap (λ n. drop n rest) (omega arith)
drop-put_words (v ∷ vs) rest k =
    ap (λ n. drop n (put_words (v ∷ vs) ++ rest))
      {y = suc (suc (suc (suc (suc (suc (suc (suc (k + length (put_words vs)))))))))} (omega arith)
    ∙ drop-put_words vs rest k

length-put_words : (vs : List ℕ) → length (put_words vs) ≡ 8 * length vs
unfolding put_words
length-put_words [] = refl
length-put_words (v ∷ vs) = omega (arith, length-put_words vs)

-- The fields of a frame fit, as those of the C structure do.
pub record IsFrame (fr : Sigframe) : Type 0 where
  pub words :
      (fr.trampoline0 < 2 ^ 32)
      × (fr.trampoline1 < 2 ^ 32)
      × (fr.signo < 2 ^ 32)
      × (fr.saved_mask < 2 ^ 32)
  pub registers : length fr.saved_x ≡ 31
  pub small : Words fr.saved_x
  pub last : Words (fr.saved_sp_el0 ∷ fr.saved_elr ∷ fr.saved_spsr ∷ [])

abbrev last_words : Sigframe → List ℕ
last_words fr = fr.saved_sp_el0 ∷ fr.saved_elr ∷ fr.saved_spsr ∷ []

-- The words behind the registers, `k` bytes on.
drop_last :
    (fr : Sigframe) (k : ℕ)
    → length fr.saved_x ≡ 31
    → drop (k + 248) (put_words fr.saved_x ++ put_words (last_words fr))
      ≡ drop k (put_words (last_words fr))
drop_last fr k e =
    ap (λ n. drop (k + n) (put_words fr.saved_x ++ put_words (last_words fr)))
      (omega (arith, e, length-put_words fr.saved_x))
    ∙ drop-put_words fr.saved_x (put_words (last_words fr)) k

pub length-frame_bytes : (fr : Sigframe) → IsFrame fr → length (frame_bytes fr) ≡ 288
unfolding frame_bytes
length-frame_bytes fr h =
    let rest = put_words (last_words fr) in
    omega (
      arith,
      h.registers,
      length-append (put_words fr.saved_x) rest,
      length-put_words fr.saved_x,
      length-put_words (last_words fr),
    )

pub bytes_frame-frame_bytes : (fr : Sigframe) → IsFrame fr → bytes_frame (frame_bytes fr) ≡ fr
unfolding bytes_frame frame_bytes
bytes_frame-frame_bytes fr h =
    let (t0, t1, s, m) = h.words in
    let rest = put_words (last_words fr) in
    let e0 = get32-put32 fr.trampoline0 [] t0 in
    let e1 = get32-put32 fr.trampoline1 [] t1 in
    let e2 = get32-put32 fr.signo [] s in
    let e3 = get32-put32 fr.saved_mask [] m in
    let e4 : get_words 31 (put_words fr.saved_x ++ rest) ≡ fr.saved_x =
      ap (λ n. get_words n (put_words fr.saved_x ++ rest)) (sym h.registers)
      ∙ get_words-put_words fr.saved_x rest h.small in
    let e5 = ap get64 (drop_last fr 0 h.registers) ∙ get64-put64 fr.saved_sp_el0 [] h.last.0 in
    let e6 = ap get64 (drop_last fr 8 h.registers) ∙ get64-put64 fr.saved_elr [] h.last.1.0 in
    let e7 = ap get64 (drop_last fr 16 h.registers) ∙ get64-put64 fr.saved_spsr [] h.last.1.1.0 in
    λ i. record {
      trampoline0 = e0 i;
      trampoline1 = e1 i;
      signo = e2 i;
      saved_mask = e3 i;
      saved_x = e4 i;
      saved_sp_el0 = e5 i;
      saved_elr = e6 i;
      saved_spsr = e7 i;
    }
