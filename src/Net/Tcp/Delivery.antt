-- ===== src/Net/Tcp/Delivery.antt =====
-- tcp.c: what reaches the user, and what an acknowledgement leaves in the buffer.
use kappara.Base.{
  ℕ, ◌-◌, ◌≤◌, ◌<◌, ◌≡◌, ◌≢◌, ◌⊎◌, inl, inr, sym, ap, ◌∙◌, min, true, false, List, [], ◌∷◌, ◌++◌,
  arith, leb, ◌==◌, if-elim, length, length-append, drop, flatten, drop-nil, drop-append, drop-all,
  add32,
}
use kappara.Net.Tcp.Types.{Tcb, Conn, Arrival, Reply, next_answer}
use kappara.Net.Tcp.Ack.{trim_blocks, trim_buffer, drained, partly}
use kappara.Net.Tcp.Input.{take_data, takes_data}

abbrev pub Trims : ℕ → List (List ℕ) → List (List ℕ) × ℕ → Type 0
Trims n bs r = (flatten r.0 ≡ drop n (flatten bs)) × (r.1 ≡ min n (length (flatten bs)))

-- The loop that frees blocks takes exactly the acknowledged bytes off the front, however the buffer
-- is cut into blocks, and counts them.
pub trim_blocks_refines : (n : ℕ) (bs : List (List ℕ)) → Trims n bs (trim_blocks n bs)
unfolding trim_blocks
trim_blocks_refines n [] = (sym (drop-nil n), omega arith)
trim_blocks_refines n (b ∷ bs) =
    let rest = trim_blocks (n - length b) bs in
    let left = trim_blocks_refines (n - length b) bs in
    let whole = drop-append n b (flatten bs) in
    let len = length-append b (flatten bs) in
    if-elim (Trims n (b ∷ bs)) (n == 0)
      (λ none. (
        ap (λ k. drop k (b ++ flatten bs)) {x = 0} {y = n} (ground (arith, none)),
        ground (arith, none),
      ))
      (λ some.
        if-elim (Trims n (b ∷ bs)) (leb (length b) n)
          (λ over. (
            left.0
                ∙ ap (λ ys. ys ++ drop (n - length b) (flatten bs))
                    (sym (drop-all n b (ground (arith, over))))
                ∙ sym whole,
            ground (arith, over, left.1, len),
          ))
          (λ within.
            let rest_stays : 0 ≡ n - length b = ground (arith, within) in
            (
              ap (λ k. drop n b ++ drop k (flatten bs)) rest_stays ∙ sym whole,
              ground (arith, within, len),
            )))

drained-buffer :
    (tick : ℕ) (s : Tcb) → ((drained tick s).snd_buf ≡ []) × ((drained tick s).rto_expires ≡ 0)
unfolding drained
drained-buffer tick s = (ground arith, ground arith)

partly-buffer :
    (tick : ℕ) (s : Tcb) (acked : ℕ)
    → ((partly tick s acked).snd_buf ≡ (trim_blocks acked s.snd_buf).0)
      × ((partly tick s acked).snd_buf_seq ≡ add32 s.snd_buf_seq (trim_blocks acked s.snd_buf).1)
unfolding partly
partly-buffer tick s acked = (ground arith, ground arith)

-- What an acknowledgement leaves: nothing if it covers the buffer, else the bytes behind those that
-- are acknowledged, and then `snd_buf_seq` has moved by their number.
abbrev pub Leaves : Tcb → ℕ → Tcb → Type 0
Leaves s acked t =
    ((length (flatten s.snd_buf) ≤ acked) × (t.snd_buf ≡ []) × (t.rto_expires ≡ 0))
    ⊎ ((acked < length (flatten s.snd_buf))
        × (flatten t.snd_buf ≡ drop acked (flatten s.snd_buf))
        × (t.snd_buf_seq ≡ add32 s.snd_buf_seq acked))

-- An acknowledgement of the whole buffer empties it and stops the timer. One of a part leaves the
-- bytes behind that part, in order, and moves the number of the buffer's first byte by as much.
pub trim_buffer_refines :
    (tick : ℕ) (s : Tcb) (acked : ℕ) → Leaves s acked (trim_buffer tick s acked)
unfolding trim_buffer
trim_buffer_refines tick s acked =
    let few = trim_blocks_refines acked s.snd_buf in
    let kept = partly-buffer tick s acked in
    if-elim (Leaves s acked) (leb (length (flatten s.snd_buf)) acked)
      (λ all. inl (ground (arith, all), (drained-buffer tick s).0, (drained-buffer tick s).1))
      (λ part.
        let less : acked < length (flatten s.snd_buf) = ground (arith, part) in
        inr (less, ap flatten kept.0 ∙ few.0, omega (arith, kept.1, few.1, less)))

-- The payload goes up, and the next number expected moves behind it, exactly where the segment is
-- the next in sequence, the state takes data and there is a buffer. Otherwise nothing goes up and the
-- number stays.
pub take_data-cases :
    (c : Conn) (a : Arrival)
    → let d = take_data c a in
      ((a.seq ≡ c.tcb.rcv_nxt)
        × (takes_data c.tcb.state ≡ true)
        × (0 < length a.payload)
        × (next_answer c.answers ≡ true)
        × (d.tcb.rcv_nxt ≡ add32 a.seq (length a.payload))
        × (d.up ≡ c.up ++ Reply.data_ind a.payload ∷ []))
      ⊎ (((a.seq ≢ c.tcb.rcv_nxt)
            ⊎ (takes_data c.tcb.state ≡ false)
            ⊎ (length a.payload ≡ 0)
            ⊎ (next_answer c.answers ≡ false))
          × (d.tcb ≡ c.tcb)
          × (d.up ≡ c.up))
unfolding take_data
take_data-cases c a = ground arith
