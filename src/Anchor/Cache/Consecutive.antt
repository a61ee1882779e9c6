-- ===== src/Anchor/Cache/Consecutive.antt =====
-- A range of the cache is a row of transactions without a gap.
use mathlib.Core.Path.{subst}
use indy_perf.Base.{
  ℕ, ◌+◌, ◌≡◌, ap, inl, inr, Bool-cases, List, [], ◌∷◌, ◌++◌, map, length, ◌==◌, arith,
}
use indy_perf.Anchor.Ident.{int}
use indy_perf.Anchor.Cache.{until_gap}
use indy_perf.Anchor.Cache.Schema.{Row, TxnInfo, info}

-- The transactions have the numbers from `n` on, one after another.
abbrev pub Consecutive : ℕ → List TxnInfo → Type 0
Consecutive n [] = Unit
Consecutive n (i ∷ l) = (i.ident ≡ int n) × Consecutive (n + 1) l

at_number : (l : List TxnInfo) (m n : ℕ) → m ≡ n → Consecutive m l → Consecutive n l
at_number l m n e = subst (λ k. Consecutive k l) e

pub Consecutive-append :
    (n : ℕ) (l m : List TxnInfo)
    → Consecutive n l
    → Consecutive (n + length l) m
    → Consecutive n (l ++ m)
Consecutive-append n [] m p q = at_number m (n + 0) n (omega arith) q
Consecutive-append n (i ∷ l) m (e, p) q = (
  e,
  Consecutive-append (n + 1) l m p
      (at_number m (n + length (i ∷ l)) (n + 1 + length l) (omega arith) q),
)

pub until_gap-Consecutive : (n : ℕ) (rows : List Row) → Consecutive n (map info (until_gap n rows))
unfolding until_gap
until_gap-Consecutive n [] = tt
until_gap-Consecutive n (r ∷ rows) = elim (Bool-cases (r.seqno == n)) [
  | inl here ↦ rw here (ap int (ground arith), until_gap-Consecutive (n + 1) rows)
  | inr gap ↦ rw gap tt
]
