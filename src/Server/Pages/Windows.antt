-- ===== src/Server/Pages/Windows.antt =====
-- Which page a transaction is on.
use native.Mathlib.Nat.{le-div_iff_mul-le, lt_of_mul-lt-mul_right}
use indy_perf.Base.{ℕ, zero, suc, ◌+◌, ◌-◌, ◌*◌, ◌/◌, ◌≤◌, ◌<◌, ◌≡◌, ap, ◌↔◌, arith}
use indy_perf.Server.Pages.{first_of, last_of}

-- Between two multiples lies one quotient.
quotient : (m p size : ℕ) → 0 < size → p * size ≤ m → m < p * size + size → m / size ≡ p
quotient m p size h lower upper =
    let at_least : p ≤ m / size = (le-div_iff_mul-le h).1 lower in
    let below : m / size * size < suc p * size = omega arith in
    let not_more : m / size < suc p = lt_of_mul-lt-mul_right size below in omega arith

first_suc : (page size : ℕ) → first_of (suc page) size ≡ page * size + 1
first_suc page size = let same : suc page - 1 ≡ page = omega arith in ap (λ x. x * size + 1) same

in_window :
    (n page size : ℕ)
    → 0 < size
    → 0 < n
    → first_of (suc page) size ≤ n
    → n ≤ last_of (suc page) size
    → (n - 1) / size ≡ page
in_window n page size h k lower upper =
    quotient (n - 1) page size h (omega (arith, first_suc page size)) (omega arith)

covers :
    (n page size : ℕ)
    → 0 < size
    → 0 < n
    → page ≡ (n - 1) / size
    → (first_of (suc page) size ≤ n) × (n ≤ last_of (suc page) size)
covers n page size h k e =
    let start : page * size ≡ (n - 1) / size * size = ap (λ x. x * size) e in
    let lower : (n - 1) / size * size ≤ n - 1 = omega arith in
    let upper : n - 1 < (n - 1) / size * size + size = omega arith in
    (omega (arith, first_suc page size, start, lower), omega (arith, start, upper))

-- For a page size that is not 0, transaction `n`, counted from 1, is on the page with the number
-- (n - 1) / size + 1, between the first and the last number of that page, and on no other page.
pub on_one_page :
    (n page size : ℕ)
    → 0 < size
    → 0 < n
    → 0 < page
    → ((first_of page size ≤ n) × (n ≤ last_of page size)) ↔ (page ≡ (n - 1) / size + 1)
on_one_page n zero size h k j = absurd (omega arith)
on_one_page n (suc page) size h k j = (
  λ (lower, upper). omega (arith, in_window n page size h k lower upper),
  λ e. covers n page size h k (omega (arith, e)),
)
