-- ===== src/Sdg/Edge.antt =====
-- SDG.h: `enum EdgeAttr` and `class SDGEdge`. An edge is its attribute, a set of bits in an `int`.
use programslicer.Common.{ℕ, Bool, not, ◌==◌, bit_and}

abbrev pub control : ℕ
control = 1

abbrev pub flow : ℕ
flow = 2

abbrev pub call : ℕ
call = 4

abbrev pub param_in : ℕ
param_in = 8

abbrev pub param_out : ℕ
param_out = 16

-- `attr & mask`, as a `bool`.
unfoldable pub if_mask : ℕ → ℕ → Bool
if_mask attr mask = not (bit_and attr mask == 0)
