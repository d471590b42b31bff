-- ===== src/Slice/Input/Loop.antt =====
-- BackSlice.cpp and ForwardSlice.cpp, `readInit`: what the reading loop makes of a file.
use programslicer.Common.{
  ℕ, zero, suc, ◌≡◌, refl, Bool, true, false, none, some, List, [], ◌∷◌, ◌++◌, length, ◌∙◌, arith,
  All,
}
use programslicer.Common.Sets
use programslicer.Common.Maps
use programslicer.Common.Maps.{Map}
use programslicer.Slice.Input.{
  Numeral, Word, Stream, Criterion, fits, int_value, read_word, read_number, read_entry, add_entry,
  read_loop, lines_of,
}

-- A line of the file: a function, the number of an instruction, and two bounds.
pub record Entry : Type 0 where
  pub name : Word
  pub line : Numeral
  pub low : Numeral
  pub high : Numeral

-- Its three numbers are in the range of `int`.
abbrev pub InRange : Entry → Type 0
InRange e = (fits e.line ≡ true) × (fits e.low ≡ true) × (fits e.high ≡ true)

abbrev numeral : Numeral → Word
numeral n = record { text = n.spelling; number = some n }

abbrev pub words_of : List Entry → List Word
words_of [] = []
words_of (e ∷ es) = e.name ∷ numeral e.line ∷ numeral e.low ∷ numeral e.high ∷ words_of es

-- The stream at the start of a file of such lines.
abbrev pub file : Bool → List Entry → Stream
file ends_in_space es = record {
  words = words_of es;
  ends_in_space = ends_in_space;
  eof = false;
  fail = false;
}

-- The map that the lines describe.
abbrev pub described : List Entry → Map (List ℕ) → Map (List ℕ)
described [] m = m
described (e ∷ es) m =
    described es (Maps.set e.name.text (Sets.insert (int_value e.line) (lines_of e.name.text m)) m)

abbrev entered : Entry → Criterion → Criterion
entered e c = record c {
  func_name = e.name.text;
  inst_num = int_value e.line;
  lower = int_value e.low;
  upper = int_value e.high;
  use_range = c.use_range;
}

entry-step :
    (space : Bool) (e d : Entry) (es : List Entry) (c : Criterion) (rounds : ℕ)
    → InRange e
    → read_loop (suc rounds) c (file space (e ∷ d ∷ es))
      ≡ read_loop rounds (add_entry (entered e c)) (file space (d ∷ es))
unfolding read_loop read_entry read_word read_number
entry-step space e d es c rounds (line, low, high) = ground (arith, line, low, high)

-- The last line, with a newline after it.
newline-step :
    (e : Entry) (c : Criterion) (rounds : ℕ)
    → InRange e
    → read_loop (suc rounds) c (file true (e ∷ []))
      ≡ read_loop rounds (add_entry (entered e c)) (file true [])
unfolding read_loop read_entry read_word read_number
newline-step e c rounds (line, low, high) = ground (arith, line, low, high)

-- The last line, with no newline after it.
last_round :
    (e : Entry) (c : Criterion) (rounds : ℕ)
    → InRange e
    → read_loop (suc rounds) c (file false (e ∷ [])) ≡ some (entered e c)
unfolding read_loop read_entry read_word read_number
last_round e c rounds (line, low, high) = ground (arith, line, low, high)

-- A file of lines whose numbers are in the range of `int`, which ends in a newline, is read in one
-- round more than it has lines, and gives exactly the map that its lines describe.
pub read_loop-described :
    (es : List Entry) (c : Criterion)
    → All InRange es
    → (c' : Criterion) × (read_loop (suc (length es)) c (file true es) ≡ some c')
      × (c'.to_slice_list ≡ described es c.to_slice_list)
unfolding read_loop read_entry read_word read_number add_entry
read_loop-described [] c all = (_, refl, refl)
read_loop-described (e ∷ []) c (first, all) = (_, newline-step e c 1 first ∙ refl, refl)
read_loop-described (e ∷ d ∷ es) c (first, all) =
    let (c', runs, same) = read_loop-described (d ∷ es) (add_entry (entered e c)) all in
    (c', entry-step true e d es c (suc (suc (length es))) first ∙ runs, same)

-- A file of lines whose numbers are in the range of `int`, with no newline at its end, is read in as
-- many rounds as it has lines, and gives the map that all its lines but the last describe.
pub read_loop-last_line :
    (es : List Entry) (e : Entry) (c : Criterion)
    → All InRange es
    → InRange e
    → (c' : Criterion) × (read_loop (suc (length es)) c (file false (es ++ e ∷ [])) ≡ some c')
      × (c'.to_slice_list ≡ described es c.to_slice_list)
unfolding add_entry
read_loop-last_line [] e c all last = (entered e c, last_round e c 0 last, refl)
read_loop-last_line (d ∷ []) e c (first, all) last = (
  entered e (add_entry (entered d c)),
  entry-step false d e [] c 1 first ∙ last_round e (add_entry (entered d c)) 0 last,
  refl,
)
read_loop-last_line (d ∷ d' ∷ es) e c (first, all) last =
    let (c', runs, same) = read_loop-last_line (d' ∷ es) e (add_entry (entered d c)) all last in
    (c', entry-step false d d' (es ++ e ∷ []) c (suc (suc (length es))) first ∙ runs, same)

-- The state of the stream once a round has begun with `failbit` set and `eofbit` not.
failed-entry :
    (c : Criterion) (s : Stream)
    → s.fail ≡ true
    → s.eof ≡ false
    → ((read_entry c s).1.fail ≡ true) × ((read_entry c s).1.eof ≡ false)
unfolding read_entry read_word read_number
failed-entry c s f e = ground arith

failed-none :
    (rounds : ℕ) (c : Criterion) (s : Stream)
    → s.fail ≡ true
    → s.eof ≡ false
    → read_loop rounds c s ≡ none
unfolding read_loop
failed-none zero c s f e = refl
failed-none (suc rounds) c s f e =
    let (f', e') = failed-entry c s f e in
    let ends = failed-none rounds (add_entry (read_entry c s).0) (read_entry c s).1 f' e' in
    ground arith

abbrev open_at : List Word → Bool → Stream
open_at words space = record { words = words; ends_in_space = space; eof = false; fail = false }

unbounded-entry :
    (name line next : Word) (n : Numeral) (rest : List Word) (space : Bool) (c : Criterion)
    → line.number ≡ some n
    → next.number ≡ none
    → ((read_entry c (open_at (name ∷ line ∷ next ∷ rest) space)).1.fail ≡ true)
      × ((read_entry c (open_at (name ∷ line ∷ next ∷ rest) space)).1.eof ≡ false)
unfolding read_entry read_word read_number
unbounded-entry name line next n rest space c is_numeral no_numeral = ground arith

-- If a line has no bounds and another line follows whose first word is no numeral, the loop is not
-- left, whatever the number of rounds.
pub read_loop-unbounded :
    (rounds : ℕ) (name line next : Word) (n : Numeral) (rest : List Word) (space : Bool)
    (c : Criterion)
    → line.number ≡ some n
    → next.number ≡ none
    → read_loop rounds c (record {
      words = name ∷ line ∷ next ∷ rest;
      ends_in_space = space;
      eof = false;
      fail = false;
    })
      ≡ none
unfolding read_loop
read_loop-unbounded zero name line next n rest space c is_numeral no_numeral = refl
read_loop-unbounded (suc rounds) name line next n rest space c is_numeral no_numeral =
    let s = open_at (name ∷ line ∷ next ∷ rest) space in
    let (f, e) = unbounded-entry name line next n rest space c is_numeral no_numeral in
    let ends = failed-none rounds (add_entry (read_entry c s).0) (read_entry c s).1 f e in
    ground arith

out_of_range-entry :
    (name line next : Word) (n : Numeral) (rest : List Word) (space : Bool) (c : Criterion)
    → line.number ≡ some n
    → fits n ≡ false
    → ((read_entry c (open_at (name ∷ line ∷ next ∷ rest) space)).1.fail ≡ true)
      × ((read_entry c (open_at (name ∷ line ∷ next ∷ rest) space)).1.eof ≡ false)
unfolding read_entry read_word read_number
out_of_range-entry name line next n rest space c is_numeral beyond = ground arith

-- If the first number of a line is out of the range of `int` and a word follows it, the loop is not
-- left, whatever the number of rounds.
pub read_loop-out_of_range :
    (rounds : ℕ) (name line next : Word) (n : Numeral) (rest : List Word) (space : Bool)
    (c : Criterion)
    → line.number ≡ some n
    → fits n ≡ false
    → read_loop rounds c (record {
      words = name ∷ line ∷ next ∷ rest;
      ends_in_space = space;
      eof = false;
      fail = false;
    })
      ≡ none
unfolding read_loop
read_loop-out_of_range zero name line next n rest space c is_numeral beyond = refl
read_loop-out_of_range (suc rounds) name line next n rest space c is_numeral beyond =
    let s = open_at (name ∷ line ∷ next ∷ rest) space in
    let (f, e) = out_of_range-entry name line next n rest space c is_numeral beyond in
    let ends = failed-none rounds (add_entry (read_entry c s).0) (read_entry c s).1 f e in
    ground arith
