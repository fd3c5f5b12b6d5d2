-- ===== src/Io/Streams/Queue/Links.antt =====
-- The doubly linked list as a segment of memory, and what the writes of putq, putbq and getq do to it.
use kappara.Base.{
  ℕ, ◌≡◌, refl, sym, ◌∙◌, ap, ◌≢◌, List, [], ◌∷◌, ◌++◌, arith, All, Absent, Distinct, subst,
}
use kappara.Io.Streams.Queue.{Mblk, link_last, link_first, unlink_first}

-- From `h`, whose predecessor is `p`, the messages `xs` are linked both ways up to the last, `l`.
abbrev pub Linked : (ℕ → Mblk) → ℕ → ℕ → List ℕ → ℕ → Type 0
Linked mem p h [] l = (h ≡ 0) × (l ≡ p)
Linked mem p h (x ∷ xs) l =
    (h ≡ x) × (x ≢ 0) × ((mem x).b_prev ≡ p) × Linked mem x (mem x).b_next xs l

-- The links of the message are as before.
abbrev pub SameLinks : (ℕ → Mblk) → (ℕ → Mblk) → ℕ → Type 0
SameLinks mem mem' x = ((mem' x).b_next ≡ (mem x).b_next) × ((mem' x).b_prev ≡ (mem x).b_prev)

pub Linked-frame :
    (mem mem' : ℕ → Mblk) (p h : ℕ) (xs : List ℕ) (l : ℕ)
    → All (SameLinks mem mem') xs
    → Linked mem p h xs l
    → Linked mem' p h xs l
Linked-frame mem mem' p h [] l e c = c
Linked-frame mem mem' p h (x ∷ xs) l e c = (
  c.0,
  c.1,
  e.0.1 ∙ c.2,
  subst (λ n. Linked mem' x n xs l) (sym e.0.0)
      (Linked-frame mem mem' x (mem x).b_next xs l e.1 c.3),
)

-- The last message of a segment is one of its messages.
Linked-last-ne :
    (mem : ℕ → Mblk) (p h y : ℕ) (ys : List ℕ) (l x : ℕ)
    → Linked mem p h (y ∷ ys) l
    → Absent x (y ∷ ys)
    → x ≢ l
Linked-last-ne mem p h y [] l x c a = λ e. a.0 (e ∙ c.3.1)
Linked-last-ne mem p h y (z ∷ ys) l x c a = Linked-last-ne mem y (mem y).b_next z ys l x c.3 a.1

pub Linked-head :
    (mem : ℕ → Mblk) (p h x : ℕ) (xs : List ℕ) (l : ℕ) → Linked mem p h (x ∷ xs) l → h ≢ 0
Linked-head mem p h x xs l c = λ e. c.1 (sym c.0 ∙ e)

pub Linked-last :
    (mem : ℕ → Mblk) (p h x : ℕ) (xs : List ℕ) (l : ℕ) → Linked mem p h (x ∷ xs) l → l ≢ 0
Linked-last mem p h x [] l c = λ e. c.1 (sym c.3.1 ∙ e)
Linked-last mem p h x (y ∷ xs) l c = Linked-last mem x (mem x).b_next y xs l c.3

-- What `putq` writes at the message, at the old last one, and elsewhere.
link_last_new :
    (mem : ℕ → Mblk) (l m : ℕ)
    → l ≢ m
    → ((link_last mem l m m).b_next ≡ 0) × ((link_last mem l m m).b_prev ≡ l)
unfolding link_last
link_last_new mem l m h = ground arith

link_last_old :
    (mem : ℕ → Mblk) (l m : ℕ)
    → l ≢ m
    → l ≢ 0
    → ((link_last mem l m l).b_next ≡ m) × ((link_last mem l m l).b_prev ≡ (mem l).b_prev)
unfolding link_last
link_last_old mem l m h k = ground arith

link_last_other : (mem : ℕ → Mblk) (l m x : ℕ) → x ≢ l → x ≢ m → SameLinks mem (link_last mem l m) x
unfolding link_last
link_last_other mem l m x h k = ground arith

link_last_others :
    (mem : ℕ → Mblk) (l m : ℕ) (xs : List ℕ)
    → Absent l xs
    → Absent m xs
    → All (SameLinks mem (link_last mem l m)) xs
link_last_others mem l m [] h k = tt
link_last_others mem l m (x ∷ xs) h k = (
  link_last_other mem l m x (λ e. h.0 (sym e)) (λ e. k.0 (sym e)),
  link_last_others mem l m xs h.1 k.1,
)

-- The message is linked behind a segment that is not empty.
pub Linked-link_last :
    (mem : ℕ → Mblk) (p h x : ℕ) (xs : List ℕ) (l m : ℕ)
    → m ≢ 0
    → Distinct (x ∷ xs)
    → Absent m (x ∷ xs)
    → Linked mem p h (x ∷ xs) l
    → Linked (link_last mem l m) p h (x ∷ xs ++ m ∷ []) m
Linked-link_last mem p h x [] l m ne d a c =
    let l_is : l ≡ x = c.3.1 in
    let apart : l ≢ m = λ e. a.0 (sym e ∙ l_is) in
    let old = link_last_old mem l m apart (λ e. c.1 (sym l_is ∙ e)) in
    let new = link_last_new mem l m apart in
    (
      c.0,
      c.1,
      subst (λ z. (link_last mem l m z).b_prev ≡ p) l_is
          (old.1 ∙ ap (λ z. (mem z).b_prev) l_is ∙ c.2),
      (subst (λ z. (link_last mem l m z).b_next ≡ m) l_is old.0, ne, new.1 ∙ l_is, (new.0, refl)),
    )
Linked-link_last mem p h x (y ∷ ys) l m ne d a c =
    let kept =
      link_last_other mem l m x (Linked-last-ne mem x (mem x).b_next y ys l x c.3 d.0)
        (λ e. a.0 (sym e)) in
    (
      c.0,
      c.1,
      kept.1 ∙ c.2,
      subst (λ n. Linked (link_last mem l m) x n (y ∷ ys ++ m ∷ []) m) (sym kept.0)
          (Linked-link_last mem x (mem x).b_next y ys l m ne d.1 a.1 c.3),
    )

-- The message is linked into the empty list.
pub Linked-link_only : (mem : ℕ → Mblk) (m : ℕ) → m ≢ 0 → Linked (link_last mem 0 m) 0 m (m ∷ []) m
Linked-link_only mem m ne =
    let new = link_last_new mem 0 m (λ e. ne (sym e)) in (refl, ne, new.1, (new.0, refl))

link_first_new :
    (mem : ℕ → Mblk) (f m : ℕ)
    → f ≢ m
    → ((link_first mem f m m).b_next ≡ f) × ((link_first mem f m m).b_prev ≡ 0)
unfolding link_first
link_first_new mem f m h = ground arith

link_first_old :
    (mem : ℕ → Mblk) (f m : ℕ)
    → f ≢ m
    → f ≢ 0
    → ((link_first mem f m f).b_next ≡ (mem f).b_next) × ((link_first mem f m f).b_prev ≡ m)
unfolding link_first
link_first_old mem f m h k = ground arith

link_first_other :
    (mem : ℕ → Mblk) (f m x : ℕ) → x ≢ f → x ≢ m → SameLinks mem (link_first mem f m) x
unfolding link_first
link_first_other mem f m x h k = ground arith

link_first_others :
    (mem : ℕ → Mblk) (f m : ℕ) (xs : List ℕ)
    → Absent f xs
    → Absent m xs
    → All (SameLinks mem (link_first mem f m)) xs
link_first_others mem f m [] h k = tt
link_first_others mem f m (x ∷ xs) h k = (
  link_first_other mem f m x (λ e. h.0 (sym e)) (λ e. k.0 (sym e)),
  link_first_others mem f m xs h.1 k.1,
)

-- The message is linked in front of the list.
pub Linked-link_first :
    (mem : ℕ → Mblk) (x : ℕ) (xs : List ℕ) (l m : ℕ)
    → m ≢ 0
    → Distinct (x ∷ xs)
    → Absent m (x ∷ xs)
    → Linked mem 0 x (x ∷ xs) l
    → Linked (link_first mem x m) 0 m (m ∷ x ∷ xs) l
Linked-link_first mem x xs l m ne d a c =
    let apart : x ≢ m = λ e. a.0 (sym e) in
    let old = link_first_old mem x m apart c.1 in
    let new = link_first_new mem x m apart in
    (
      refl,
      ne,
      new.1,
      (
        new.0,
        c.1,
        old.1,
        subst (λ n. Linked (link_first mem x m) x n xs l) (sym old.0)
            (Linked-frame mem (link_first mem x m) x (mem x).b_next xs l
              (link_first_others mem x m xs d.0 a.1) c.3),
      ),
    )

pub Linked-first_only :
    (mem : ℕ → Mblk) (m : ℕ) → m ≢ 0 → Linked (link_first mem 0 m) 0 m (m ∷ []) m
Linked-first_only mem m ne =
    let new = link_first_new mem 0 m (λ e. ne (sym e)) in (refl, ne, new.1, (new.0, refl))

unlink_first_next :
    (mem : ℕ → Mblk) (m n : ℕ)
    → n ≢ m
    → n ≢ 0
    → ((unlink_first mem m n n).b_next ≡ (mem n).b_next) × ((unlink_first mem m n n).b_prev ≡ 0)
unfolding unlink_first
unlink_first_next mem m n h k = ground arith

unlink_first_other :
    (mem : ℕ → Mblk) (m n x : ℕ) → x ≢ m → x ≢ n → SameLinks mem (unlink_first mem m n) x
unfolding unlink_first
unlink_first_other mem m n x h k = ground arith

unlink_first_others :
    (mem : ℕ → Mblk) (m n : ℕ) (xs : List ℕ)
    → Absent m xs
    → Absent n xs
    → All (SameLinks mem (unlink_first mem m n)) xs
unlink_first_others mem m n [] h k = tt
unlink_first_others mem m n (x ∷ xs) h k = (
  unlink_first_other mem m n x (λ e. h.0 (sym e)) (λ e. k.0 (sym e)),
  unlink_first_others mem m n xs h.1 k.1,
)

-- What is left after the first message, which is `m`, has been taken off.
pub Linked-unlink_first :
    (mem : ℕ → Mblk) (m y : ℕ) (ys : List ℕ) (l : ℕ)
    → Distinct (m ∷ y ∷ ys)
    → Linked mem m y (y ∷ ys) l
    → Linked (unlink_first mem m y) 0 y (y ∷ ys) l
Linked-unlink_first mem m y ys l d c =
    let head = unlink_first_next mem m y (λ e. d.0.0 (sym e)) c.1 in
    (
      refl,
      c.1,
      head.1,
      subst (λ n. Linked (unlink_first mem m y) y n ys l) (sym head.0)
          (Linked-frame mem (unlink_first mem m y) y (mem y).b_next ys l
            (unlink_first_others mem m y ys d.0.1 d.1.0) c.3),
    )
