-- ===== src/Io/Streams/Queue/Refine.antt =====
-- The linked queue of streams.c refines the bounded FIFO.
use kappara.Base.{
  ℕ, ◌+◌, ◌%◌, ◌==◌, ◌^◌, ◌<◌, ◌≡◌, refl, sym, ◌∙◌, ◌≢◌, Bool, false, Option, none, some, List, [],
  ◌∷◌, ◌++◌, arith, All-append, Absent, Distinct, subst, leb, if◌then◌else◌, sub64,
}
use kappara.Io.Streams.Queue.{
  Mblk, Stream, msgdsize, link_last, link_first, unlink_first, putq, putbq, getq,
}
use kappara.Io.Streams.Queue.Fifo
use kappara.Io.Streams.Queue.Fifo.{Fifo, total, total-append}
use kappara.Io.Streams.Queue.Links.{
  Linked, Linked-last, Linked-link_last, Linked-link_only, Linked-link_first, Linked-first_only,
  Linked-unlink_first,
}

-- The queue holds the messages of the FIFO, whose sizes are `size`, with its byte count and QFULL.
pub record Holds (size : ℕ → ℕ) (s : Stream) (f : Fifo) : Type 0 where
  pub linked : Linked s.mem 0 s.q.q_first f.items s.q.q_last
  pub distinct : Distinct f.items
  pub sizes : (x : ℕ) → msgdsize s.mem x ≡ size x
  pub count : s.q.q_count ≡ total size f.items
  pub small : total size f.items < 2 ^ 63
  pub full : s.q.full ≡ f.full

msgdsize-link_last : (mem : ℕ → Mblk) (l m x : ℕ) → msgdsize (link_last mem l m) x ≡ msgdsize mem x
unfolding msgdsize link_last
msgdsize-link_last mem l m x = ground arith

msgdsize-link_first :
    (mem : ℕ → Mblk) (f m x : ℕ) → msgdsize (link_first mem f m) x ≡ msgdsize mem x
unfolding msgdsize link_first
msgdsize-link_first mem f m x = ground arith

msgdsize-unlink_first :
    (mem : ℕ → Mblk) (m n x : ℕ) → msgdsize (unlink_first mem m n) x ≡ msgdsize mem x
unfolding msgdsize unlink_first
msgdsize-unlink_first mem m n x = ground arith

Distinct-append : (xs : List ℕ) (m : ℕ) → Distinct xs → Absent m xs → Distinct (xs ++ m ∷ [])
Distinct-append [] m d a = (tt, tt)
Distinct-append (x ∷ xs) m d a =
    (All-append (λ y. x ≢ y) xs (m ∷ []) d.0 ((λ e. a.0 (sym e)), tt), Distinct-append xs m d.1 a.1)

putq-Linked :
    (mem : ℕ → Mblk) (first last m : ℕ) (items : List ℕ)
    → m ≢ 0
    → Distinct items
    → Absent m items
    → Linked mem 0 first items last
    → Linked (link_last mem last m) 0 (if last == 0 then m else first) (items ++ m ∷ []) m
putq-Linked mem first last m [] ne d a c = rw (c.1) (Linked-link_only mem m ne)
putq-Linked mem first last m (x ∷ xs) ne d a c =
    subst (λ h. Linked (link_last mem last m) 0 h (x ∷ xs ++ m ∷ []) m)
      (ground (arith, Linked-last mem 0 first x xs last c))
      (Linked-link_last mem 0 first x xs last m ne d a c)

-- `putq` of a message that is not on the queue, with fewer than 2^63 bytes in all, puts it at the
-- end, adds its size to `q_count`, and sets QFULL exactly when the count has reached `q_hiwat`.
pub putq_refines :
    (size : ℕ → ℕ) (s : Stream) (f : Fifo) (m : ℕ)
    → Holds size s f
    → m ≢ 0
    → Absent m f.items
    → size m + total size f.items < 2 ^ 63
    → Holds size (putq s m) (Fifo.put size s.q.q_hiwat f m)
unfolding putq Fifo.put
putq_refines size s f m v ne a h = record {
  linked = putq-Linked s.mem s.q.q_first s.q.q_last m f.items ne v.distinct a v.linked;
  distinct = Distinct-append f.items m v.distinct a;
  sizes = λ x. msgdsize-link_last s.mem s.q.q_last m x ∙ v.sizes x;
  count = counted;
  small = omega (arith, total-append size f.items (m ∷ []));
  full = rw (counted, v.full);
}
  where
    counted :
        (s.q.q_count + msgdsize (link_last s.mem s.q.q_last m) m) % 2 ^ 64
        ≡ total size (f.items ++ m ∷ [])
    counted = omega (
      arith,
      total-append size f.items (m ∷ []),
      msgdsize-link_last s.mem s.q.q_last m m,
      v.sizes m,
      v.count,
    )

putbq-Linked :
    (mem : ℕ → Mblk) (first last m : ℕ) (items : List ℕ)
    → m ≢ 0
    → Distinct items
    → Absent m items
    → Linked mem 0 first items last
    → Linked (link_first mem first m) 0 m (m ∷ items) (if first == 0 then m else last)
putbq-Linked mem first last m [] ne d a c = rw (c.0) (Linked-first_only mem m ne)
putbq-Linked mem first last m (x ∷ xs) ne d a c =
    subst (λ h. Linked (link_first mem h m) 0 m (m ∷ x ∷ xs) (if h == 0 then m else last)) (sym c.0)
      (subst (λ l. Linked (link_first mem x m) 0 m (m ∷ x ∷ xs) l) (ground arith)
        (Linked-link_first mem x xs last m ne d a
          (subst (λ h. Linked mem 0 h (x ∷ xs) last) c.0 c)))

-- `putbq` of such a message puts it in front, adds its size to `q_count`, and leaves QFULL as it is.
pub putbq_refines :
    (size : ℕ → ℕ) (s : Stream) (f : Fifo) (m : ℕ)
    → Holds size s f
    → m ≢ 0
    → Absent m f.items
    → size m + total size f.items < 2 ^ 63
    → Holds size (putbq s m) (Fifo.put_back f m)
unfolding putbq Fifo.put_back
putbq_refines size s f m v ne a h = record {
  linked = putbq-Linked s.mem s.q.q_first s.q.q_last m f.items ne v.distinct a v.linked;
  distinct = (a, v.distinct);
  sizes = λ x. msgdsize-link_first s.mem s.q.q_first m x ∙ v.sizes x;
  count = omega (arith, msgdsize-link_first s.mem s.q.q_first m m, v.sizes m, v.count);
  small = h;
  full = v.full;
}

-- What `getq` leaves, for a list that begins with `m`.
abbrev taken : Stream → ℕ → Stream
taken s m =
    let next = (s.mem m).b_next in
    let mem' = unlink_first s.mem m next in
    let count = sub64 s.q.q_count (msgdsize mem' m) in
    record {
      mem = mem';
      q = record s.q {
        q_first = next;
        q_last = if next == 0 then 0 else s.q.q_last;
        q_count = count;
        full = if leb count s.q.q_lowat then false else s.q.full;
      };
    }

getq-taken : (s : Stream) (m : ℕ) → s.q.q_first ≡ m → m ≢ 0 → getq s ≡ (m, taken s m)
unfolding getq
getq-taken s m e h = ground arith

getq-Linked :
    (mem : ℕ → Mblk) (next last m : ℕ) (rest : List ℕ)
    → Distinct (m ∷ rest)
    → Linked mem m next rest last
    → Linked (unlink_first mem m next) 0 next rest (if next == 0 then 0 else last)
getq-Linked mem next last m [] d c = (c.0, rw (c.0) refl)
getq-Linked mem next last m (y ∷ ys) d c =
    subst (λ h. Linked (unlink_first mem m h) 0 h (y ∷ ys) (if h == 0 then 0 else last)) (sym c.0)
      (subst (λ l. Linked (unlink_first mem m y) 0 y (y ∷ ys) l) (ground arith)
        (Linked-unlink_first mem m y ys last d (subst (λ h. Linked mem m h (y ∷ ys) last) c.0 c)))

taken-Holds :
    (size : ℕ → ℕ) (s : Stream) (m : ℕ) (rest : List ℕ) (full : Bool)
    → Holds size s (record { items = m ∷ rest; full = full })
    → Holds size
        (taken s m)
        (record { items = rest; full = if leb (total size rest) s.q.q_lowat then false else full })
taken-Holds size s m rest full v = record {
  linked = getq-Linked s.mem (s.mem m).b_next s.q.q_last m rest v.distinct v.linked.3;
  distinct = v.distinct.1;
  sizes = λ x. msgdsize-unlink_first s.mem m (s.mem m).b_next x ∙ v.sizes x;
  count = counted;
  small = omega (arith, v.small);
  full = rw (counted, v.full);
}
  where
    counted :
        sub64 s.q.q_count (msgdsize (unlink_first s.mem m (s.mem m).b_next) m) ≡ total size rest
    counted =
        omega (arith, msgdsize-unlink_first s.mem m (s.mem m).b_next m, v.sizes m, v.count, v.small)

-- The result of `getq` as an option.
abbrev pub result : ℕ → Option ℕ
result m = if m == 0 then none else some m

getq_refines-items :
    (size : ℕ → ℕ) (s : Stream) (items : List ℕ) (full : Bool)
    → Holds size s (record { items = items; full = full })
    → (result (getq s).0 ≡ (Fifo.get size s.q.q_lowat (record { items = items; full = full })).0)
      × Holds size (getq s).1 (Fifo.get size s.q.q_lowat (record { items = items; full = full })).1
unfolding Fifo.get
getq_refines-items size s [] full v =
    let same : getq s ≡ (0, s) = unfold getq in ground (arith, v.linked.0) in rw same (refl, v)
getq_refines-items size s (m ∷ rest) full v =
    rw (getq-taken s m v.linked.0 v.linked.1)
      (ground (arith, v.linked.1), taken-Holds size s m rest full v)

-- `getq` returns the oldest message and leaves the others, or returns NULL and changes nothing if
-- there is none; it takes the message's size off `q_count`, and clears QFULL exactly when the count
-- has come down to `q_lowat`.
pub getq_refines :
    (size : ℕ → ℕ) (s : Stream) (f : Fifo)
    → Holds size s f
    → let (m, t) = getq s in
      let (o, g) = Fifo.get size s.q.q_lowat f in (result m ≡ o) × Holds size t g
getq_refines size s f v = getq_refines-items size s f.items f.full v
