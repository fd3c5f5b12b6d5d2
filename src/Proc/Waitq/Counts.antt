-- ===== src/Proc/Waitq/Counts.antt =====
-- sched.c: how often a thread stands in a queue.
use kappara.Base.{ℕ, ◌+◌, ◌-◌, ◌≡◌, ◌≢◌, refl, List, [], ◌∷◌, ◌==◌, if◌then◌else◌, arith}
use kappara.Proc.Waitq.{unlink}

unfoldable pub count : ℕ → List ℕ → ℕ
count t [] = 0
count t (p ∷ ps) = (if p == t then 1 else 0) + count t ps

pub count-unlink_self : (t : ℕ) (ps : List ℕ) → count t (unlink t ps) ≡ count t ps - 1
unfolding count unlink
count-unlink_self t [] = refl
count-unlink_self t (p ∷ ps) = ground (arith, count-unlink_self t ps)

pub count-unlink_ne : (t u : ℕ) (ps : List ℕ) → t ≢ u → count u (unlink t ps) ≡ count u ps
unfolding count unlink
count-unlink_ne t u [] n = refl
count-unlink_ne t u (p ∷ ps) n = ground (arith, n, count-unlink_ne t u ps n)
