-- ===== src/Slice/Input.antt =====
-- BackSlice.cpp and ForwardSlice.cpp, `readInit`: the slicing criterion. The stream is a list of
-- words, with whitespace after the last one or not; the state of the stream is its bits `eofbit` and
-- `failbit`, as `operator>>` sets them. A word is a decimal numeral as a whole, or does not begin like
-- one. A number is held as that of a `long`, modulo 2^64: the set of the criterion is one of `long`.
pub mod Loop
pub mod Marks
use programslicer.Common.{
  ℕ, zero, suc, ◌+◌, leb, ◌-◌, ◌^◌, ◌%◌, Bool, true, false, not, ◌&&◌, ◌||◌, Option, none, some,
  List, [], ◌∷◌, ◌==◌, if◌then◌else◌,
}
use programslicer.Common.Sets
use programslicer.Common.Maps
use programslicer.Common.Maps.{Map}
use programslicer.Ir.{Instruction, Function, Module}
use programslicer.Sdg.Node.{Placement, inst_node}
use programslicer.Sdg.State.{SdgState, use_inst}
use programslicer.Sdg.Calls.{instructions}

-- A decimal numeral: its text, its sign, and its value without the sign.
pub record Numeral : Type 0 where
  pub spelling : ℕ
  pub negative : Bool
  pub magnitude : ℕ

abbrev pub int_max : ℕ
int_max = 2147483647

-- The numeral is in the range of `int`.
unfoldable pub fits : Numeral → Bool
fits n = leb n.magnitude (if n.negative then int_max + 1 else int_max)

-- The value modulo 2^64, for a numeral in range.
unfoldable pub int_value : Numeral → ℕ
int_value n = (if n.negative then 2 ^ 64 - n.magnitude else n.magnitude) % 2 ^ 64

-- The bound of the range that a numeral out of range is beyond.
unfoldable pub saturated : Numeral → ℕ
saturated n = if n.negative then 2 ^ 64 - (int_max + 1) else int_max

-- The text of a word, as a name, and its number if it is a numeral.
pub record Word : Type 0 where
  pub text : ℕ
  pub number : Option Numeral

pub record Stream : Type 0 where
  pub words : List Word
  pub ends_in_space : Bool
  pub eof : Bool
  pub fail : Bool

-- The stream after its first word was read: the end is met if nothing follows it.
abbrev pub advance : List Word → Stream → Stream
advance [] s = record s { words = []; eof = not s.ends_in_space }
advance (w ∷ ws) s = record s { words = w ∷ ws }

abbrev pub failed : Stream → Stream
failed s = record s { fail = true }

-- `in >> funcName`, into a variable that holds `old`.
unfoldable pub read_word : ℕ → Stream → ℕ × Stream
read_word old s = if s.eof || s.fail then (old, failed s) else elim s.words [
  | [] ↦ (old, record s { eof = true; fail = true })
  | w ∷ ws ↦ (w.text, advance ws s)
]

-- `in >> instNum`: a word that is no numeral stays, and the variable becomes 0; a numeral out of
-- range is taken off, and the variable becomes the bound.
unfoldable pub read_number : ℕ → Stream → ℕ × Stream
unfolding fits int_value saturated
read_number old s = if s.eof || s.fail then (old, failed s) else elim s.words [
  | [] ↦ (old, record s { eof = true; fail = true })
  | w ∷ ws ↦ elim w.number [
    | none ↦ (0, failed s)
    | some n ↦ if fits n then (int_value n, advance ws s) else (saturated n, failed (advance ws s))
  ]
]

-- The variables of `readInit`. ForwardSlice.cpp has no `useRange`, which nothing reads.
pub record Criterion : Type 0 where
  pub func_name : ℕ
  pub inst_num : ℕ
  pub lower : ℕ
  pub upper : ℕ
  pub use_range : Bool
  pub to_slice_list : Map (List ℕ)
  pub line_to_bounds : Map (ℕ × ℕ)

-- `toSliceList[name]`.
abbrev pub lines_of : ℕ → Map (List ℕ) → List ℕ
lines_of name m = elim (Maps.lookup name m) [ none ↦ [] | some lines ↦ lines ]

-- The four reads of a round: `upper` is read only if `lower` was.
unfoldable pub read_entry : Criterion → Stream → Criterion × Stream
unfolding read_word read_number
read_entry c s =
    let (name, s₁) = read_word c.func_name s in
    let (num, s₂) = read_number c.inst_num s₁ in
    let (low, s₃) = read_number c.lower s₂ in
    let (up, s₄) = read_number c.upper s₃ in
    if s₃.fail
    then (record c { func_name = name; inst_num = num; lower = low; use_range = false }, s₃)
    else (
      record c {
        func_name = name;
        inst_num = num;
        lower = low;
        upper = up;
        use_range = c.use_range && not s₄.fail;
      },
      s₄,
    )

unfoldable pub add_entry : Criterion → Criterion
unfolding Maps.set Sets.insert
add_entry c = record c {
  to_slice_list =
      Maps.set c.func_name (Sets.insert c.inst_num (lines_of c.func_name c.to_slice_list))
        c.to_slice_list;
  line_to_bounds = Maps.set c.inst_num (c.lower, c.upper) c.line_to_bounds;
}

-- The `while (true)` loop; `none` if it is not left within the rounds.
unfoldable pub read_loop : ℕ → Criterion → Stream → Option Criterion
unfolding read_entry add_entry
read_loop zero c s = none
read_loop (suc rounds) c s =
    let (c', s') = read_entry c s in
    let rest = read_loop rounds (add_entry c') s' in if s'.eof then some c' else rest

-- What the second loop changes: the marked nodes, the bounds of `boundsMap`, and the state, since
-- `getInstNodeMap()[I]` may make a node. ForwardSlice.cpp keeps no bounds.
pub record Marking : Type 0 where
  pub marked_nodes : List ℕ
  pub bounds_map : Map (ℕ × ℕ)
  pub state : SdgState

module _ (p : Placement) where
  -- What the loop does at the instruction with the number `count`.
  unfoldable pub mark_line : Bool → Criterion → List ℕ → ℕ → Instruction → Marking → Marking
  unfolding Sets.insert Maps.set
  mark_line bounded c lines count i k =
      if Sets.contains count lines
      then record {
        marked_nodes = Sets.insert (p.addr (inst_node i.id)) k.marked_nodes;
        bounds_map =
            if bounded
            then Maps.set (p.addr (inst_node i.id))
                (elim (Maps.lookup c.inst_num c.line_to_bounds) [
                  | none ↦ (0, 0)
                  | some bounds ↦ bounds
                ])
                k.bounds_map
            else k.bounds_map;
        state = use_inst i.id k.state;
      }
      else k

  -- The loop over the instructions of a function, `count` among them.
  unfoldable pub mark_lines : Bool → Criterion → List ℕ → ℕ → List Instruction → Marking → Marking
  unfolding mark_line
  mark_lines bounded c lines count [] k = k
  mark_lines bounded c lines count (i ∷ is) k =
      mark_lines bounded c lines (count + 1) is (mark_line bounded c lines count i k)

  -- The loop over the functions. It skips one without lines, where the inner loop marks nothing.
  unfoldable pub mark_functions : Bool → Criterion → Module → Marking → Marking
  unfolding mark_lines
  mark_functions bounded c [] k = k
  mark_functions bounded c (f ∷ fs) k =
      mark_functions bounded c fs
        (mark_lines bounded c (lines_of f.name c.to_slice_list) 0 (instructions f) k)
