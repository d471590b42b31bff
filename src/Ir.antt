-- ===== src/Ir.antt =====
-- The part of an LLVM module that the passes read: a `Value*` is an address (0 is null), tagged by
-- the class that `dyn_cast` finds, a name is a number, and a module lists its functions, blocks and
-- instructions in
-- the order of LLVM's iterators.
use programslicer.Common.{ℕ, Bool, List}

pub data Value : Type 0 where
  instruction : ℕ → Value
  argument : ℕ → Value
  other : ℕ → Value

abbrev pub address : Value → ℕ
address (Value.instruction a) = a
address (Value.argument a) = a
address (Value.other a) = a

-- The called function, null for an indirect call, and the argument operands; the pointer operand
-- of a store, and whether its type is a pointer type.
pub data Opcode : Type 0 where
  ret : Opcode
  call : ℕ → List Value → Opcode
  store : Value → Bool → Opcode
  load : Opcode
  misc : Opcode

pub record Instruction : Type 0 where
  pub id : ℕ
  pub opcode : Opcode
  pub operands : List Value

pub record Block : Type 0 where
  pub id : ℕ
  pub parent : ℕ
  pub instructions : List Instruction
  pub successors : List ℕ

pub record Function : Type 0 where
  pub id : ℕ
  pub name : ℕ
  pub is_declaration : Bool
  pub arguments : List ℕ
  pub blocks : List Block

abbrev pub Module : Type 0
Module = List Function
