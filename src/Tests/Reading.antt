-- ===== src/Tests/Reading.antt =====
-- BackSlice.cpp and ForwardSlice.cpp, `readInit`: examples.
use programslicer.Common.{ℕ, ◌≡◌, refl, true, false, none, some, [], ◌∷◌}
use programslicer.Slice.Input.{Word, Numeral, fits, Criterion, read_loop}
use programslicer.Slice.Input.Loop.{
  Entry, file, described, read_loop-described, read_loop-last_line, read_loop-unbounded,
  read_loop-out_of_range,
}
use programslicer.Slice.Run.{no_criterion}

abbrev named : ℕ → Word
named n = record { text = n; number = none }

abbrev natural : ℕ → Numeral
natural n = record { spelling = n; negative = false; magnitude = n }

abbrev number : ℕ → Word
number n = record { text = n; number = some (natural n) }

abbrev minus_one : Numeral
minus_one = record { spelling = 0; negative = true; magnitude = 1 }

abbrev first : Entry
first = record { name = named 100; line = natural 3; low = natural 0; high = natural 9 }

abbrev second : Entry
second = record { name = named 101; line = natural 5; low = minus_one; high = natural 2147483647 }

read_loop-described_example :
    (c : Criterion) × (read_loop 3 no_criterion (file true (first ∷ second ∷ [])) ≡ some c)
    × (c.to_slice_list ≡ described (first ∷ second ∷ []) [])
unfolding fits
read_loop-described_example =
    read_loop-described (first ∷ second ∷ []) no_criterion
      ((refl, refl, refl), ((refl, refl, refl), tt))

read_loop-last_line_example :
    (c : Criterion) × (read_loop 2 no_criterion (file false (first ∷ second ∷ [])) ≡ some c)
    × (c.to_slice_list ≡ described (first ∷ []) [])
unfolding fits
read_loop-last_line_example =
    read_loop-last_line (first ∷ []) second no_criterion ((refl, refl, refl), tt) (refl, refl, refl)

read_loop-unbounded_example :
    read_loop 20 no_criterion (record {
      words = named 100 ∷ number 3 ∷ named 101 ∷ number 5 ∷ [];
      ends_in_space = true;
      eof = false;
      fail = false;
    })
    ≡ none
read_loop-unbounded_example =
    read_loop-unbounded 20 (named 100) (number 3) (named 101) (natural 3) (number 5 ∷ []) true
      no_criterion refl refl

read_loop-out_of_range_example :
    read_loop 20 no_criterion (record {
      words = named 100 ∷ number 3000000000 ∷ number 0 ∷ number 1 ∷ [];
      ends_in_space = true;
      eof = false;
      fail = false;
    })
    ≡ none
unfolding fits
read_loop-out_of_range_example =
    read_loop-out_of_range 20 (named 100) (number 3000000000) (number 0) (natural 3000000000)
      (number 1 ∷ []) true no_criterion refl refl
