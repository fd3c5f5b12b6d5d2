-- ===== src/Net/Slip.antt =====
-- uts/os/net/slip.c: the SLIP framing module. An M_DATA message is the list of its b_cont blocks,
-- each the bytes from b_rptr to b_wptr. What `allocb` answers is taken from a list of booleans,
-- one for each request that is not above `kmalloc_max`, and a request past its end fails.
pub mod Send
pub mod Receive
pub mod Fragments
pub mod RoundTrip
pub mod Oversize
mod Tests
use kappara.Base.{
  ℕ, ◌+◌, ◌*◌, ◌%◌, Bool, true, false, Option, none, some, List, [], ◌∷◌, ◌++◌, length, flatten,
  ltb, leb, ◌==◌, if◌then◌else◌, inc32, u32_mod,
}

abbrev pub slip_end : ℕ
slip_end = 0xc0

abbrev pub slip_esc : ℕ
slip_esc = 0xdb

abbrev pub slip_esc_end : ℕ
slip_esc_end = 0xdc

abbrev pub slip_esc_esc : ℕ
slip_esc_esc = 0xdd

abbrev pub slip_mtu : ℕ
slip_mtu = 296

-- The largest buffer that `kmalloc`, and so `allocb`, can give.
abbrev pub kmalloc_max : ℕ
kmalloc_max = 2048

-- `struct slip_state`. The frame is `none` where `allocb` failed; it has room for `slip_mtu` bytes.
pub record SlipState : Type 0 where
  pub frame : Option (List ℕ)
  pub in_esc : Bool
  pub rx_frames : ℕ
  pub rx_runts : ℕ
  pub rx_overflow : ℕ
  pub tx_frames : ℕ

-- The module with its surroundings: the answers that `allocb` has still to give, and what
-- `putnext` has handed up and down, oldest first.
pub record Port : Type 0 where
  pub slip : SlipState
  pub answers : List Bool
  pub up : List (List ℕ)
  pub down : List (List ℕ)

abbrev pub next_answer : List Bool → Bool
next_answer [] = false
next_answer (b ∷ bs) = b

abbrev pub rest_answers : List Bool → List Bool
rest_answers [] = []
rest_answers (b ∷ bs) = bs

abbrev pub fresh_frame : Bool → Option (List ℕ)
fresh_frame true = some []
fresh_frame false = none

-- `slip_qopen`: the state of a stream onto which the module is pushed, `none` if it fails.
pub slip_qopen : Bool → Bool → Option SlipState
slip_qopen kmalloc_ok allocb_ok =
    if kmalloc_ok
    then (if allocb_ok
        then some (record {
          frame = some [];
          in_esc = false;
          rx_frames = 0;
          rx_runts = 0;
          rx_overflow = 0;
          tx_frames = 0;
        })
        else none)
    else none

-- `slip_deliver_frame`: a fresh frame is taken first, whatever becomes of the old one.
pub slip_deliver_frame : Port → List ℕ → Port
slip_deliver_frame p bytes =
    let s : SlipState = record p.slip { frame = fresh_frame (next_answer p.answers) } in
    let q : Port = record p { slip = s; answers = rest_answers p.answers } in
    if ltb (length bytes) 20
    then record q { slip = record s { rx_runts = inc32 s.rx_runts } }
    else record q { slip = record s { rx_frames = inc32 s.rx_frames }; up = p.up ++ bytes ∷ [] }

-- `slip_append`, with its tests of `s->frame` and of the room left in it.
pub append_to : SlipState → Option (List ℕ) → ℕ → SlipState
append_to s none c = s
append_to s (some bytes) c =
    if leb slip_mtu (length bytes)
    then record s { rx_overflow = inc32 s.rx_overflow; frame = some [] }
    else record s { frame = some (bytes ++ c ∷ []) }

pub slip_append : SlipState → ℕ → SlipState
unfolding append_to
slip_append s c = append_to s s.frame c

-- What an END does: an empty frame is not delivered.
pub end_frame : Port → Option (List ℕ) → Port
unfolding slip_deliver_frame
end_frame p none = p
end_frame p (some []) = p
end_frame p (some (b ∷ bs)) = slip_deliver_frame p (b ∷ bs)

pub slip_end_frame : Port → Port
unfolding end_frame
slip_end_frame p = end_frame p p.slip.frame

-- The byte that follows an ESC stands for.
abbrev pub unescape : ℕ → ℕ
unescape c = if c == slip_esc_end then slip_end else if c == slip_esc_esc then slip_esc else c

-- The loop body of `slip_rq_putp`.
pub rx_byte : Port → ℕ → Port
unfolding slip_append slip_end_frame
rx_byte p c =
    if p.slip.in_esc
    then record p { slip = record (slip_append p.slip (unescape c)) { in_esc = false } }
    else (if c == slip_end
        then slip_end_frame p
        else (if c == slip_esc
            then record p { slip = record p.slip { in_esc = true } }
            else record p { slip = slip_append p.slip c }))

pub rx_bytes : Port → List ℕ → Port
rx_bytes p [] = p
rx_bytes p (c ∷ cs) = rx_bytes (rx_byte p c) cs

-- `slip_rq_putp` of an M_DATA message; what is not M_DATA is freed and changes nothing.
pub slip_rq_putp : Port → Bool → List (List ℕ) → Port
unfolding rx_bytes
slip_rq_putp p is_data [] = p
slip_rq_putp p is_data (m ∷ ms) = if is_data then slip_rq_putp (rx_bytes p m) is_data ms else p

abbrev pub stuff : ℕ → List ℕ
stuff c =
    if c == slip_end
    then slip_esc ∷ slip_esc_end ∷ []
    else if c == slip_esc
    then slip_esc ∷ slip_esc_esc ∷ []
    else c ∷ []

pub stuff_bytes : List ℕ → List ℕ
stuff_bytes [] = []
stuff_bytes (c ∷ cs) = stuff c ++ stuff_bytes cs

-- The two nested loops of `slip_wq_putp`.
pub stuff_blocks : List (List ℕ) → List ℕ
unfolding stuff_bytes
stuff_blocks [] = []
stuff_blocks (m ∷ ms) = stuff_bytes m ++ stuff_blocks ms

-- The whole framed packet: what is written into the outgoing block.
pub frame_packet : List (List ℕ) → List ℕ
unfolding stuff_blocks
frame_packet ms = slip_end ∷ (stuff_blocks ms ++ slip_end ∷ [])

-- `in_len` and `cap`, computed in `unsigned`.
pub tx_cap : List (List ℕ) → ℕ
tx_cap ms = (2 * (length (flatten ms) % u32_mod) + 2) % u32_mod

-- `slip_wq_putp`, with its return code: `false` stands for -1. What `putnext` returns on success
-- is the lower module's.
pub slip_wq_putp : Port → Bool → List (List ℕ) → Port × Bool
unfolding frame_packet tx_cap
slip_wq_putp p is_data ms =
    if is_data
    then (if leb (tx_cap ms) kmalloc_max
        then (if next_answer p.answers
            then (
              record p {
                answers = rest_answers p.answers;
                slip = record p.slip { tx_frames = inc32 p.slip.tx_frames };
                down = p.down ++ frame_packet ms ∷ [];
              },
              true,
            )
            else (record p { answers = rest_answers p.answers }, false))
        else (p, false))
    else (p, true)
