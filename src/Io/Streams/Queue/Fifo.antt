-- ===== src/Io/Streams/Queue/Fifo.antt =====
-- What a STREAMS queue promises, with no links: the messages in order, the bytes they hold, and the
-- state of the flow control between the two water marks.
use kappara.Base.{
  ℕ, ◌+◌, ◌≡◌, arith, Bool, true, false, Option, none, some, List, [], ◌∷◌, ◌++◌, leb,
  if◌then◌else◌,
}

pub record Fifo : Type 0 where
  pub items : List ℕ
  pub full : Bool

-- Back to the front, with no change of the flow control.
unfoldable pub put_back : Fifo → ℕ → Fifo
put_back f m = record f { items = m ∷ f.items }

module _ (size : ℕ → ℕ) where
  abbrev pub total : List ℕ → ℕ
  total [] = 0
  total (x ∷ xs) = size x + total xs

  pub total-append : (xs ys : List ℕ) → total (xs ++ ys) ≡ total xs + total ys
  total-append [] ys = omega arith
  total-append (x ∷ xs) ys = omega (arith, total-append xs ys)

  -- To the end; the queue is full from the high water mark on.
  unfoldable pub put : ℕ → Fifo → ℕ → Fifo
  put hiwat f m =
      let items' = f.items ++ m ∷ [] in
      record { items = items'; full = if leb hiwat (total items') then true else f.full }

  -- From the front; at the low water mark the queue is no longer full.
  take_first : ℕ → Bool → List ℕ → Option ℕ × Fifo
  take_first lowat full [] = (none, record { items = []; full = full })
  take_first lowat full (m ∷ rest) =
      (some m, record { items = rest; full = if leb (total rest) lowat then false else full })

  unfoldable pub get : ℕ → Fifo → Option ℕ × Fifo
  unfolding take_first
  get lowat f = take_first lowat f.full f.items
