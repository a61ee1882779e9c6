-- ===== src/Timings/Bounds.antt =====
-- The printed extremes are extremes.
use mathlib.Core.Path.{subst}
use indy_perf.Base.{◌≡◌, refl, true, false, inl, inr, Bool-cases, List, [], ◌∷◌, length}
use indy_perf.Exn.{ok}
use indy_perf.Timings.{Floats, Timing, greater, lesser, start, collected, parsed_result}

-- a ≤ b
abbrev pub Le : {F : Type 0} → Floats F → F → F → Type 0
Le n a b = n.lt b a ≡ false

-- `<` of floats that are numbers is a strict order, and its negation is transitive.
pub record IsOrder {F : Type 0} (n : Floats F) : Type 0 where
  pub lt_irrefl : (a : F) → Le n a a
  pub lt_asymm : (a b : F) → n.lt a b ≡ true → Le n a b
  pub le_trans : (a b c : F) → Le n a b → Le n b c → Le n a c

-- All items lie between the least and the greatest.
abbrev pub Between : {F : Type 0} → Floats F → Timing F → List (Timing F) → Type 0
Between n t [] = Unit
Between n t (i ∷ items) = Le n i.longest t.longest × Le n t.shortest i.shortest × Between n t items

module _ {F : Type 0} (n : Floats F) (o : IsOrder n) where
  pub greater-Le : (a b : F) → Le n a (greater n a b) × Le n b (greater n a b)
  unfolding greater
  greater-Le a b = elim (Bool-cases (n.lt a b)) [
    | inl less ↦ rw less (o.lt_asymm a b less, o.lt_irrefl b)
    | inr other ↦ rw other (o.lt_irrefl a, other)
  ]

  pub lesser-Le : (a b : F) → Le n (lesser n a b) a × Le n (lesser n a b) b
  unfolding lesser
  lesser-Le a b = elim (Bool-cases (n.lt b a)) [
    | inl less ↦ rw less (o.lt_asymm b a less, o.lt_irrefl b)
    | inr other ↦ rw other (o.lt_irrefl a, other)
  ]

  -- The loop lets the greatest only rise, and the least only fall.
  collected-Le :
      (items : List (Timing F)) (t : Timing F)
      → Le n t.longest (collected n t items).longest
        × Le n (collected n t items).shortest t.shortest
  unfolding collected
  collected-Le [] t = (o.lt_irrefl t.longest, o.lt_irrefl t.shortest)
  collected-Le (i ∷ items) t =
      let (up, down) = collected-Le items _ in
      (
        o.le_trans _ _ _ (greater-Le t.longest i.longest).0 up,
        o.le_trans _ _ _ down (lesser-Le t.shortest i.shortest).0,
      )

  collected-Between :
      (items : List (Timing F)) (t : Timing F) → Between n (collected n t items) items
  unfolding collected
  collected-Between [] t = tt
  collected-Between (i ∷ items) t =
      let (up, down) = collected-Le items _ in
      (
        o.le_trans _ _ _ (greater-Le t.longest i.longest).1 up,
        o.le_trans _ _ _ down (lesser-Le t.shortest i.shortest).1,
        collected-Between items _,
      )

ok_inj : {A : Type 0} (a b : A) → ok a ≡ ok b → a ≡ b
ok_inj a b e = cc

-- Only the extremes matter.
Between-extremes :
    {F : Type 0} (n : Floats F) (t u : Timing F)
    → u.longest ≡ t.longest
    → u.shortest ≡ t.shortest
    → (items : List (Timing F)) → Between n t items
    → Between n u items
Between-extremes n t u e f [] p = tt
Between-extremes n t u e f (i ∷ items) (p, q, r) =
    (rw e p, rw f q, Between-extremes n t u e f items r)

-- Where the comparison of floats is an order: the greatest time that is printed is at least that of every
-- result file, and the least is at most that of every one.
pub parsed_result-Between :
    {F : Type 0} (n : Floats F)
    → IsOrder n
    → (items : List (Timing F)) (t : Timing F) → parsed_result n items ≡ ok t
    → Between n t items
unfolding parsed_result
parsed_result-Between n o [] t e = tt
parsed_result-Between {F} n o (i ∷ items) t e =
    let u = collected n (start n) (i ∷ items) in
    let mean : Timing F = record u { avg = n.over u.avg (length (i ∷ items)) } in
    subst (λ s. Between n s (i ∷ items)) (ok_inj mean t e)
      (Between-extremes n u mean refl refl (i ∷ items)
        (collected-Between n o (i ∷ items) (start n)))
