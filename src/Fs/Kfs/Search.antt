-- ===== src/Fs/Kfs/Search.antt =====
-- The search of `kfs_alloc_block_zero` for a run of free blocks.
use kappara.Base.{
  ℕ, zero, suc, ◌+◌, ◌≤◌, ◌<◌, ◌≡◌, refl, sym, ◌∙◌, inl, inr, subst, Option, none, some, true,
  false, arith, ◌==◌, leb, Bool-cases, if_true, if_false,
}
use kappara.Fs.Kfs.{DiskBlock, run_free, find_run}

-- What a search from `start` on finds: the first run that is free, below `total`, or that there is
-- none.
pub data Search (m : DiskBlock) (start count total : ℕ) (r : Option ℕ) : Type 0 where
  found :
      (s : ℕ)
      → r ≡ some s
      → start ≤ s
      → s + count ≤ total
      → run_free m s count ≡ true
      → ((x : ℕ) → start ≤ x → x < s → run_free m x count ≡ false)
      → Search m start count total r
  missing :
      r ≡ none
      → ((x : ℕ) → start ≤ x → x + count ≤ total → run_free m x count ≡ false)
      → Search m start count total r

Search-later :
    (m : DiskBlock) (start count total : ℕ) (r : Option ℕ)
    → run_free m start count ≡ false
    → Search m (start + 1) count total r
    → Search m start count total r
Search-later m start count total r b (found s e lo hi f first) =
    found s e (omega (arith, lo)) hi f (λ x l h. elim (Bool-cases (start == x)) [
      | inl same ↦
          subst (λ z. run_free m z count ≡ false) {x = start} {y = x} (ground (arith, same)) b
      | inr other ↦ first x (ground (arith, l, other)) h
    ])
Search-later m start count total r b (missing e absent) = missing e (λ x l h.
    elim (Bool-cases (start == x)) [
      | inl same ↦
          subst (λ z. run_free m z count ≡ false) {x = start} {y = x} (ground (arith, same)) b
      | inr other ↦ absent x (ground (arith, l, other)) h
    ])

pub find_run-Search :
    (f : ℕ) (m : DiskBlock) (start count total : ℕ)
    → 0 < count
    → total ≤ start + f
    → Search m start count total (find_run f m start count total)
unfolding find_run
find_run-Search zero m start count total pos enough =
    missing refl (λ x l h. absurd (omega (arith, l, h, pos, enough)))
find_run-Search (suc f) m start count total pos enough =
    elim (Bool-cases (leb (start + count) total)) [
      | inr over ↦
          missing (if_false (leb (start + count) total) _ none over)
            (λ x l h. absurd (ground (arith, over, l, h)))
      | inl fits ↦ elim (Bool-cases (run_free m start count)) [
        | inl free ↦
            found start
              (if_true (leb (start + count) total) _ none fits
                ∙ if_true (run_free m start count) (some start) _ free)
              (omega arith) (ground (arith, fits)) free (λ x l h. absurd (omega (arith, l, h)))
        | inr busy ↦
            subst (Search m start count total)
              (sym (
                if_true (leb (start + count) total) _ none fits
                ∙ if_false (run_free m start count) (some start) _ busy))
              (Search-later m start count total _ busy
                (find_run-Search f m (start + 1) count total pos (omega (arith, enough))))
      ]
    ]
