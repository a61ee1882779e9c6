-- ===== src/Timings/Files/Sorted.antt =====
-- What the script prints is of the files of each key.
use mathlib.Core.List.{append_assoc, append-nil}
use indy_perf.Base.{
  ◌≡◌, refl, sym, ap, ◌∙◌, Bool, String, true, false, ◌&&◌, inl, inr, Bool-cases, List, [], ◌∷◌,
  ◌++◌, str_eq, eq_iff, arith, if◌then◌else◌,
}
use indy_perf.Exn.{Result, ok, err, zero_division, ◌>>=◌}
use indy_perf.Timings.{Floats, Timing, parsed_result}
use indy_perf.Timings.Files.{
  prefix, is_text_file, test_sizes, Column, Results, ResultFile, empty_column, no_results, appended,
  append_at, items_at, first_item, second_item, read_text_file, read_files, Report, summarised,
  report, parse_result,
}

-- What a chain that gave a result is made of.
bind_ok :
    {A B : Type 0} (r : Result A) (f : A → Result B) (b : B)
    → (r >>= f) ≡ ok b
    → (a : A) × ((r ≡ ok a) × (f a ≡ ok b))
bind_ok (ok a) f b e = (a, (refl, e))
bind_ok (err x) f b e = absurd cc

ok_inj : {A : Type 0} {a b : A} → ok a ≡ ok b → a ≡ b
ok_inj e = cc

other_key : (j p k : String) → str_eq j p ≡ false → str_eq j k ≡ true → str_eq p k ≡ false
other_key j p k n s = ground (arith, eq_iff j p, eq_iff j k, eq_iff p k)

same_key : (j p k : String) → str_eq j p ≡ true → str_eq p k ≡ str_eq j k
same_key j p k s = ground (arith, eq_iff j p, eq_iff j k, eq_iff p k)

both_there :
    {A : Type 0} (a b c : Bool) (x y : A)
    → (if a then (if b then (if c then x else y) else y) else y) ≡ (if a && b && c then x else y)
both_there a b c x y = ground arith

module _ {F : Type 0} where
  abbrev listed : Result (Timing F) → List (Timing F)
  listed (ok i) = i ∷ []
  listed (err e) = []

  -- The items that the text files with a key before the first underscore have at a place, in order.
  unfoldable pub of_key :
      (List (Timing F) → Result (Timing F)) → String → List (ResultFile F) → List (Timing F)
  of_key pick key [] = []
  of_key pick key (f ∷ files) =
      (if is_text_file f.name && str_eq (prefix f.name) key then listed (f.parsed >>= pick) else [])
      ++ of_key pick key files

  appended-append : (l : List (Timing F)) (i : Timing F) → appended l i ≡ l ++ (i ∷ [])
  unfolding appended
  appended-append [] i = refl
  appended-append (j ∷ l) i = rw (appended-append l i) refl

  abbrev added : String → String → List (Timing F) → List (Timing F)
  added p k l = if str_eq p k then l else []

  items_at-here :
      (j p : String) (i : Timing F) (l : List (Timing F)) (c : Column F) (k : String)
      → str_eq j p ≡ true
      → items_at ((j, appended l i) ∷ c) k ≡ items_at ((j, l) ∷ c) k ++ added p k (i ∷ [])
  unfolding items_at
  items_at-here j p i l c k same = elim (Bool-cases (str_eq j k)) [
    | inl s ↦ rw (same_key j p k same, s, appended-append l i) refl
    | inr n ↦ rw (same_key j p k same, n, append-nil (items_at c k)) refl
  ]

  items_at-there :
      (j p k : String) (xs l : List (Timing F)) (c c' : Column F)
      → str_eq j p ≡ false
      → items_at c' k ≡ items_at c k ++ added p k xs
      → items_at ((j, l) ∷ c') k ≡ items_at ((j, l) ∷ c) k ++ added p k xs
  unfolding items_at
  items_at-there j p k xs l c c' n e = elim (Bool-cases (str_eq j k)) [
    | inl s ↦ rw (s, other_key j p k n s, append-nil l) refl
    | inr m ↦ rw (m, e) refl
  ]

  -- The item is put at the end of its key, and every other key is as it was.
  items_at-append_at :
      (p : String) (i : Result (Timing F)) (c c' : Column F)
      → append_at p i c ≡ ok c'
      → (k : String) → items_at c' k ≡ items_at c k ++ added p k (listed i)
  unfolding append_at
  items_at-append_at p i [] c' e k = absurd cc
  items_at-append_at p i ((j, l) ∷ c) c' e k = elim (Bool-cases (str_eq j p)) [
    | inl s ↦
        (let (x, a) = bind_ok i _ c' (rw s at e) in
          rw (sym (ok_inj a.1), a.0) (items_at-here j p x l c k s))
    | inr n ↦
        (let (c'', a) = bind_ok (append_at p i c) _ c' (rw n at e) in
          rw (sym (ok_inj a.1))
            (items_at-there j p k (listed i) l c c'' n (items_at-append_at p i c c'' a.0 k)))
  ]

  -- One file puts an item in both columns.
  items_at-read_text_file :
      (f : ResultFile F) (t t' : Results F)
      → read_text_file f t ≡ ok t'
      → (k : String)
      → (items_at t'.writes k
          ≡ items_at t.writes k ++ added (prefix f.name) k (listed (f.parsed >>= first_item)))
        × (items_at t'.reads k
            ≡ items_at t.reads k ++ added (prefix f.name) k (listed (f.parsed >>= second_item)))
  unfolding read_text_file
  items_at-read_text_file f t t' e k =
      let (parsed, p) = bind_ok f.parsed _ t' e in
      let (writes, w) = bind_ok (append_at (prefix f.name) (first_item parsed) t.writes) _ t' p.1 in
      let (reads, r) = bind_ok (append_at (prefix f.name) (second_item parsed) t.reads) _ t' w.1 in
      rw (sym (ok_inj r.1), p.0)
        (
          items_at-append_at (prefix f.name) (first_item parsed) t.writes writes w.0 k,
          items_at-append_at (prefix f.name) (second_item parsed) t.reads reads r.0 k,
        )

  -- The columns hold the items of the text files of each key.
  record Holds (t t' : Results F) (files : List (ResultFile F)) (k : String) : Type 0 where
    writes : items_at t'.writes k ≡ items_at t.writes k ++ of_key first_item k files
    reads : items_at t'.reads k ≡ items_at t.reads k ++ of_key second_item k files

  Holds-read_files :
      (files : List (ResultFile F)) (t t' : Results F)
      → read_files files t ≡ ok t'
      → (k : String) → Holds t t' files k
  unfolding read_files of_key
  Holds-read_files [] t t' e k = rw (sym (ok_inj e)) (record {
    writes = sym (append-nil (items_at t.writes k));
    reads = sym (append-nil (items_at t.reads k));
  })
  Holds-read_files (f ∷ files) t t' e k =
      let (t1, p) = bind_ok (if is_text_file f.name then read_text_file f t else ok t) _ t' e in
      let h = Holds-read_files files t1 t' p.1 k in
      elim (Bool-cases (is_text_file f.name)) [
        | inl s ↦
            (let (w, r) = items_at-read_text_file f t t1 (rw s at p.0) k in
              record {
                writes = rw s (
                    rw (h.writes, w)
                      (append_assoc (items_at t.writes k)
                        (added (prefix f.name) k (listed (f.parsed >>= first_item)))
                        (of_key first_item k files)));
                reads = rw s (
                    rw (h.reads, r)
                      (append_assoc (items_at t.reads k)
                        (added (prefix f.name) k (listed (f.parsed >>= second_item)))
                        (of_key second_item k files)));
              })
        | inr n ↦
            (let same : (t ≡ t1) = ok_inj (rw n at p.0) in
              record { writes = rw n (rw same h.writes); reads = rw n (rw same h.reads) })
      ]

  items_at-empty_column :
      (keys : List String) (k : String) → items_at (empty_column {F = F} keys) k ≡ []
  unfolding items_at
  items_at-empty_column [] k = refl
  items_at-empty_column (j ∷ keys) k = elim (Bool-cases (str_eq j k)) [
    | inl s ↦ rw s refl
    | inr n ↦ rw n (items_at-empty_column keys k)
  ]

  abbrev not_empty : List (Timing F) → Bool
  not_empty [] = false
  not_empty (i ∷ l) = true

  -- Each key has items.
  abbrev pub covered : List String → (String → List (Timing F)) → (String → List (Timing F)) → Bool
  covered [] writes reads = true
  covered (k ∷ keys) writes reads =
      not_empty (writes k) && not_empty (reads k) && covered keys writes reads

  summarised-ends :
      (n : Floats F) (what : String) (l : List (Timing F)) (rest : Report F)
      → (summarised n what l rest).1 ≡ (if not_empty l then rest.1 else err zero_division)
  unfolding summarised parsed_result
  summarised-ends n what [] rest = refl
  summarised-ends n what (i ∷ l) rest = refl

  report-ends :
      (n : Floats F) (keys : List String) (writes reads : String → List (Timing F))
      → (report n keys writes reads).1
        ≡ (if covered keys writes reads then ok tt else err zero_division)
  unfolding report
  report-ends n [] writes reads = refl
  report-ends n (k ∷ keys) writes reads =
      summarised-ends n "Write" (writes k) _
      ∙ rw
          (
            summarised-ends n "Read" (reads k) (report n keys writes reads),
            report-ends n keys writes reads,
          )
          (both_there (not_empty (writes k)) (not_empty (reads k)) (covered keys writes reads)
            (ok tt) (err zero_division))

  -- Where all files are read, parse_result prints what the report on the items of each key prints, which are
  -- the first and the second items of the text files that have the key before the first underscore of their
  -- names, in the order of the directory. It takes the six keys in their order, and comes to the end if each
  -- has a file; otherwise it ends with a ZeroDivisionError.
  pub parse_result-of_key :
      (n : Floats F) (files : List (ResultFile F)) (t : Results F)
      → read_files files no_results ≡ ok t
      → let writes : (String → List (Timing F)) = λ k. of_key first_item k files in
        let reads : (String → List (Timing F)) = λ k. of_key second_item k files in
        (parse_result n files ≡ report n test_sizes writes reads)
        × ((parse_result n files).1
            ≡ (if covered test_sizes writes reads then ok tt else err zero_division))
  unfolding parse_result
  parse_result-of_key n files t e =
      let h : ((k : String) → Holds no_results t files k) = Holds-read_files files no_results t e in
      let writes : ((k : String) → items_at t.writes k ≡ of_key first_item k files) =
        λ k. rw (items_at-empty_column test_sizes k) at (h k).writes in
      let reads : ((k : String) → items_at t.reads k ≡ of_key second_item k files) =
        λ k. rw (items_at-empty_column test_sizes k) at (h k).reads in
      let first : (String → List (Timing F)) = λ k. of_key first_item k files in
      let second : (String → List (Timing F)) = λ k. of_key second_item k files in
      let same : (parse_result n files ≡ report n test_sizes first second) =
        rw (parse_result, e) (λ i. report n test_sizes (λ k. writes k i) (λ k. reads k i)) in
      (same, ap (λ r. r.1) same ∙ report-ends n test_sizes first second)
