-- ===== src/Core/Pmm/Tests.antt =====
-- pmm.c on concrete ranges.
use kappara.Base.{ℕ, ◌≡◌, refl, inl, [], ◌∷◌, arith, ◌++◌, write}
use kappara.Core.Pmm.{Pmm, pmm_free, pmm_add_range}
use kappara.Core.Pmm.Chain.{HoldsFree}
use kappara.Core.Pmm.Ranges.{WholePages, pages_from, pmm_add_range_refines}
use kappara.Core.Pmm.Owners.{Owners, Step, Reach, IsSound, Reach-IsSound}

abbrev blank : Pmm
blank = record { mem = λ a. 7; freelist = 0; free_count = 0 }

blank-HoldsFree : HoldsFree blank []
blank-HoldsFree = record {
  chain = refl;
  pages = tt;
  distinct = tt;
  count = refl;
  small = omega arith;
}

-- One page, at 0x1000, is free.
abbrev one_page : Pmm
one_page = record { mem = λ a. 0; freelist = 0x1000; free_count = 1 }

one_page-HoldsFree : HoldsFree one_page (0x1000 ∷ [])
one_page-HoldsFree = record {
  chain = (refl, omega arith, refl);
  pages = omega arith;
  distinct = (tt, tt);
  count = refl;
  small = omega arith;
}

enrolled : (pmm_add_range blank 0x1001 0x4fff).freelist ≡ 0x2000
unfolding pmm_add_range pmm_free
enrolled = refl

enrolled_count : (pmm_add_range blank 0x1001 0x4fff).free_count ≡ 2
unfolding pmm_add_range pmm_free
enrolled_count = refl

pmm_add_range_refines_example :
    (lo n : ℕ) × WholePages 0x2001 0x6000 lo n
    × HoldsFree (pmm_add_range one_page 0x2001 0x6000) (pages_from lo n ++ 0x1000 ∷ [])
pmm_add_range_refines_example =
    pmm_add_range_refines one_page 0x2001 0x6000 (0x1000 ∷ []) one_page-HoldsFree (omega arith)
      (omega arith) (omega arith) (inl (omega arith), tt)

abbrev start : Owners
start = record { pmm = one_page; held = 0x3000 ∷ [] }

start-IsSound : IsSound 2 start
start-IsSound = record {
  free_pages = 0x1000 ∷ [];
  free_list = one_page-HoldsFree;
  pages = omega arith;
  distinct = (tt, tt);
  apart = omega arith;
  total = refl;
}

-- A client writes into its page and gives it back.
abbrev written : Owners
written = record start { pmm = record one_page { mem = write (λ a. 0) 0x3008 9 } }

history : Reach start (record { pmm = pmm_free written.pmm 0x3000; held = [] })
history =
    Reach.next (Reach.next Reach.here (Step.store start 0 0x3000 0x3008 9 refl (omega arith)))
      (Step.free written 0 0x3000 refl)

Reach-IsSound_example : IsSound 2 (record { pmm = pmm_free written.pmm 0x3000; held = [] })
Reach-IsSound_example = Reach-IsSound (omega arith) history start-IsSound
