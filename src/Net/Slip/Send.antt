-- ===== src/Net/Slip/Send.antt =====
-- The outgoing side of slip.c: what `slip_wq_putp` writes, and the buffer that it writes into.
use kappara.Base.{
  ℕ, ◌+◌, ◌*◌, ◌^◌, ◌≤◌, ◌<◌, ◌≡◌, refl, sym, ap, ◌∙◌, ◌≢◌, List, [], ◌∷◌, ◌++◌, arith, length,
  length-append, flatten, All, All-append, append_assoc,
}
use kappara.Net.Slip.{slip_end, stuff, stuff_bytes, stuff_blocks, frame_packet, tx_cap}

pub stuff_bytes-append :
    (xs ys : List ℕ) → stuff_bytes (xs ++ ys) ≡ stuff_bytes xs ++ stuff_bytes ys
unfolding stuff_bytes
stuff_bytes-append [] ys = refl
stuff_bytes-append (x ∷ xs) ys =
    ap (λ r. stuff x ++ r) (stuff_bytes-append xs ys)
    ∙ sym (append_assoc (stuff x) (stuff_bytes xs) (stuff_bytes ys))

pub stuff_blocks-flatten : (ms : List (List ℕ)) → stuff_blocks ms ≡ stuff_bytes (flatten ms)
unfolding stuff_blocks stuff_bytes
stuff_blocks-flatten [] = refl
stuff_blocks-flatten (m ∷ ms) =
    ap (λ r. stuff_bytes m ++ r) (stuff_blocks-flatten ms) ∙ sym (stuff_bytes-append m (flatten ms))

length-stuff : (c : ℕ) → length (stuff c) ≤ 2
length-stuff c = ground arith

length-stuff_bytes : (cs : List ℕ) → length (stuff_bytes cs) ≤ 2 * length cs
unfolding stuff_bytes
length-stuff_bytes [] = omega arith
length-stuff_bytes (c ∷ cs) =
    omega (arith, length-append (stuff c) (stuff_bytes cs), length-stuff c, length-stuff_bytes cs)

-- For a packet of fewer than 2^31 - 1 bytes, whatever its bytes and however it is cut into blocks,
-- the framed packet fits into the buffer that `slip_wq_putp` asks for: it writes without a test.
pub frame_packet-fits :
    (ms : List (List ℕ)) → length (flatten ms) + 1 < 2 ^ 31 → length (frame_packet ms) ≤ tx_cap ms
unfolding frame_packet tx_cap
frame_packet-fits ms h = omega (
  arith,
  ap length (stuff_blocks-flatten ms),
  length-append (stuff_blocks ms) (slip_end ∷ []),
  length-stuff_bytes (flatten ms),
)

stuff-no-end : (c : ℕ) → All (λ b. b ≢ slip_end) (stuff c)
stuff-no-end c = ground arith

stuff_bytes-no-end : (cs : List ℕ) → All (λ b. b ≢ slip_end) (stuff_bytes cs)
unfolding stuff_bytes
stuff_bytes-no-end [] = tt
stuff_bytes-no-end (c ∷ cs) =
    All-append (λ b. b ≢ slip_end) (stuff c) (stuff_bytes cs) (stuff-no-end c)
      (stuff_bytes-no-end cs)
