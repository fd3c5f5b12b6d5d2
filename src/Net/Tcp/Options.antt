-- ===== src/Net/Tcp/Options.antt =====
-- tcp.c: the option block of a SYN, as it is written and as it is read.
use kappara.Base.{
  ℕ, zero, suc, ◌+◌, ◌*◌, ◌/◌, ◌%◌, ◌≤◌, ◌<◌, ◌≡◌, refl, Bool, true, false, Option, none, some,
  List, [], ◌∷◌, arith, ltb, leb, ◌==◌, ◌&&◌, ◌||◌, if◌then◌else◌, length, get_elem?,
}

-- `struct tcp_syn_options`: `wscale` is the shift where has_wscale is set.
pub record SynOptions : Type 0 where
  pub mss : ℕ
  pub wscale : Option ℕ

abbrev pub no_options : SynOptions
no_options = record { mss = 0; wscale = none }

-- A byte of the block; the loop reads none past its end.
abbrev pub at : List ℕ → ℕ → ℕ
at opts i = elim (get_elem? opts i) [ none ↦ 0 | some b ↦ b ]

-- One option, of the given kind and length, whose value starts at `i + 2`.
unfoldable pub take_option : List ℕ → ℕ → ℕ → ℕ → SynOptions → SynOptions
take_option opts i kind len o =
    if kind == 2 && len == 4
    then record o { mss = at opts (i + 2) * 256 + at opts (i + 3) }
    else (if kind == 3 && len == 3
        then record o { wscale = some (if ltb 14 (at opts (i + 2)) then 14 else at opts (i + 2)) }
        else o)

-- The loop of `tcp_parse_syn_options` on fuel, from index `i`.
unfoldable pub parse_from : ℕ → List ℕ → ℕ → SynOptions → SynOptions
parse_from zero opts i o = o
parse_from (suc f) opts i o =
    let kind = at opts i in
    let len = at opts (i + 1) in
    let after_nop = parse_from f opts (i + 1) o in
    let after_option = parse_from f opts (i + len) (take_option opts i kind len o) in
    if leb (length opts) i || kind == 0
    then o
    else (if kind == 1
        then after_nop
        else (if leb (length opts) (i + 1) || ltb len 2 || ltb (length opts) (i + len)
            then o
            else after_option))

-- Each round moves on by a byte at least.
unfoldable pub tcp_parse_syn_options : List ℕ → SynOptions
unfolding parse_from take_option
tcp_parse_syn_options opts = parse_from (suc (length opts)) opts 0 no_options

-- The options that `tcp_emit_segment` and `tcp_send_segment` put on a SYN.
unfoldable pub syn_options : ℕ → Bool → List ℕ
syn_options mss ws_active =
    2 ∷ 4 ∷ (mss / 256 % 256) ∷ mss % 256 ∷ (if ws_active then 1 ∷ 3 ∷ 3 ∷ 0 ∷ [] else [])

-- More fuel than the bytes that are left changes nothing: the loop ends by its own tests.
pub parse_from_fuel :
    (f g : ℕ) (opts : List ℕ) (i : ℕ) (o : SynOptions)
    → length opts < f + i
    → length opts < g + i
    → parse_from f opts i o ≡ parse_from g opts i o
unfolding parse_from
parse_from_fuel zero zero opts i o h k = refl
parse_from_fuel zero (suc g) opts i o h k = ground arith
parse_from_fuel (suc f) zero opts i o h k = ground arith
parse_from_fuel (suc f) (suc g) opts i o h k = ground (
  arith,
  parse_from_fuel f g opts (i + 1) o,
  parse_from_fuel f g opts (i + at opts (i + 1))
      (take_option opts i (at opts i) (at opts (i + 1)) o),
)

abbrev pub IsClamped : SynOptions → Type 0
IsClamped o = (w : ℕ) → o.wscale ≡ some w → w ≤ 14

take_option-IsClamped :
    (opts : List ℕ) (i kind len : ℕ) (o : SynOptions)
    → IsClamped o
    → IsClamped (take_option opts i kind len o)
unfolding take_option
take_option-IsClamped opts i kind len o h w = ground (arith, h w)

parse_from-IsClamped :
    (f : ℕ) (opts : List ℕ) (i : ℕ) (o : SynOptions)
    → IsClamped o
    → IsClamped (parse_from f opts i o)
unfolding parse_from
parse_from-IsClamped zero opts i o h w = h w
parse_from-IsClamped (suc f) opts i o h w = ground (
  arith,
  h w,
  parse_from-IsClamped f opts (i + 1) o h w,
  parse_from-IsClamped f opts (i + at opts (i + 1))
      (take_option opts i (at opts i) (at opts (i + 1)) o)
      (take_option-IsClamped opts i (at opts i) (at opts (i + 1)) o h) w,
)

-- Whatever the peer's bytes are, the shift that is read is at most 14, as RFC 7323 asks.
pub tcp_parse_syn_options-IsClamped :
    (opts : List ℕ) (w : ℕ) → (tcp_parse_syn_options opts).wscale ≡ some w → w ≤ 14
unfolding tcp_parse_syn_options
tcp_parse_syn_options-IsClamped opts =
    parse_from-IsClamped (suc (length opts)) opts 0 no_options (λ w e. cc)

-- What one end writes on its SYN the other reads: the segment size, and a shift of 0 exactly where
-- window scaling is offered.
pub parse-syn_options :
    (mss : ℕ) (ws_active : Bool)
    → mss < 65536
    → tcp_parse_syn_options (syn_options mss ws_active)
      ≡ record { mss = mss; wscale = if ws_active then some 0 else none }
unfolding tcp_parse_syn_options syn_options
parse-syn_options mss true h = ground arith
parse-syn_options mss false h = ground arith
