-- ===== src/Tests/Timings.antt =====
-- Timings in whole milliseconds.
use indy_perf.Base.{ℕ, ◌+◌, ◌/◌, ◌≡◌, refl, true, false, List, [], ◌∷◌, ltb, arith}
use indy_perf.Timings.{Floats, Timing, parsed_result}
use indy_perf.Exn.{ok, err, decode_error, zero_division}
use indy_perf.Timings.Files.{
  Results, ResultFile, Column, no_results, test_sizes, first_item, second_item, read_files, report,
  parse_result,
}
use indy_perf.Timings.Files.Sorted.{of_key, parse_result-of_key}
use indy_perf.Timings.Bounds.{IsOrder, Between, parsed_result-Between}

abbrev pub whole : Floats ℕ
whole = record {
  zero_float = 0;
  thousand = 1000;
  plus = λ a b. a + b;
  over = λ a k. a / k;
  lt = ltb;
}

ltb_asymm : (a b : ℕ) → ltb a b ≡ true → ltb b a ≡ false
ltb_asymm a b h = ground arith

ltb_trans : (a b c : ℕ) → ltb b a ≡ false → ltb c b ≡ false → ltb c a ≡ false
ltb_trans a b c h k = ground arith

ltb_irrefl : (a : ℕ) → ltb a a ≡ false
ltb_irrefl a = ground arith

pub whole-IsOrder : IsOrder whole
whole-IsOrder = record { lt_irrefl = ltb_irrefl; lt_asymm = ltb_asymm; le_trans = ltb_trans }

abbrev timings : List (Timing ℕ)
timings =
    record { longest = 40; shortest = 7; avg = 20 }
    ∷ record { longest = 31; shortest = 5; avg = 10 }
    ∷ []

abbrev printed : Timing ℕ
printed = record { longest = 40; shortest = 5; avg = 15 }

parsed_result-Between_example : Between whole printed timings
unfolding parsed_result
parsed_result-Between_example = parsed_result-Between whole whole-IsOrder timings printed refl

abbrev writes_1 : Timing ℕ
writes_1 = record { longest = 40; shortest = 7; avg = 20 }

abbrev writes_50 : Timing ℕ
writes_50 = record { longest = 90; shortest = 9; avg = 30 }

abbrev reads_1 : Timing ℕ
reads_1 = record { longest = 4; shortest = 1; avg = 2 }

abbrev reads_50 : Timing ℕ
reads_50 = record { longest = 8; shortest = 2; avg = 5 }

-- A directory with two result files, and a file that is not a text file and does not parse.
abbrev directory : List (ResultFile ℕ)
directory =
    record { name = "50_a.txt"; parsed = ok (writes_50 ∷ reads_50 ∷ []) }
    ∷ record { name = "parse_result.py"; parsed = err decode_error }
    ∷ record { name = "1_b.txt"; parsed = ok (writes_1 ∷ reads_1 ∷ []) }
    ∷ []

abbrev column : Timing ℕ → Timing ℕ → Column ℕ
column one fifty =
    ("1", one ∷ [])
    ∷ ("50", fifty ∷ [])
    ∷ ("100", [])
    ∷ ("150", [])
    ∷ ("200", [])
    ∷ ("250", [])
    ∷ []

abbrev sorted : Results ℕ
sorted = record { writes = column writes_1 writes_50; reads = column reads_1 reads_50 }

sorted_read : read_files directory no_results ≡ ok sorted
unfolding read_files indy_perf.Timings.Files.is_text_file indy_perf.Timings.Files.prefix
    indy_perf.Timings.Files.append_at indy_perf.Anchor.Seeds.codes
    indy_perf.Anchor.LedgerType.same_codes
sorted_read = refl

parse_result-of_key_example :
    (parse_result whole directory
      ≡ report whole test_sizes
          (λ k. of_key first_item k directory)
          (λ k. of_key second_item k directory))
    × ((parse_result whole directory).1 ≡ err zero_division)
unfolding of_key parse_result report indy_perf.Timings.Files.is_text_file
    indy_perf.Timings.Files.prefix indy_perf.Anchor.Seeds.codes
    indy_perf.Anchor.LedgerType.same_codes
parse_result-of_key_example = parse_result-of_key whole directory sorted sorted_read
