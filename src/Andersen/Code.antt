-- ===== src/Andersen/Code.antt =====
-- The part of an LLVM module that andersen/lib/ConstraintCollect.cpp and
-- andersen/lib/ExternalLibrary.cpp read: a pointer to a value is an address, an instruction has its
-- opcode with the operands that are looked at, and lists are in the order of LLVM's iterators.
use Prim.Native.String.{String}
use programslicer.Common.{
  ℕ, zero, suc, Bool, true, false, Option, none, some, List, [], ◌∷◌, ◌==◌, if◌then◌else◌,
}
use programslicer.NodeFactory.{Value, constant, Constant, constant_pointer_null}

-- An operand, and whether its type is a pointer type.
pub record Operand : Type 0 where
  pub value : Value
  pub is_pointer : Bool

-- The operand of an `inttoptr`, by the two patterns that are looked for.
pub data Integer : Type 0 where
  from_pointer : Value → Integer
  from_pointer_with_offset : Value → Integer
  any_integer : Integer

pub data Opcode : Type 0 where
  alloca : Opcode
  call : Option ℕ → List Operand → Opcode
  ret : Option Operand → Opcode
  load : Value → Opcode
  store : Operand → Value → Opcode
  get_element_ptr : Value → Opcode
  phi : List Value → Opcode
  bit_cast : Value → Opcode
  int_to_ptr : Integer → Opcode
  select : Value → Value → Opcode
  va_arg : Opcode
  extract_or_insert_value : Opcode
  exception_or_atomic : Opcode
  other : Opcode

pub record Instruction : Type 0 where
  pub address : ℕ
  pub is_pointer : Bool
  pub opcode : Opcode

pub record Argument : Type 0 where
  pub address : ℕ
  pub is_pointer : Bool

pub record Function : Type 0 where
  pub address : ℕ
  pub name : String
  pub is_declaration : Bool
  pub is_intrinsic : Bool
  pub has_address_taken : Bool
  pub returns_pointer : Bool
  pub is_var_arg : Bool
  pub arguments : List Argument
  pub body : List Instruction

-- A constant that a global variable begins with: of pointer type, of another single-value type, a
-- null value, undefined, or with operands.
mutual
  pub data Initializer : Type 0 where
    pointer : Constant → Initializer
    scalar : Initializer
    null_value : Initializer
    undefined : Initializer
    aggregate : Initializers → Initializer

  pub data Initializers : Type 0 where
    no_operand : Initializers
    operand : Initializer → Initializers → Initializers

-- The initializer is there if it is definitive.
pub record GlobalVariable : Type 0 where
  pub address : ℕ
  pub initializer : Option Initializer

pub record Module : Type 0 where
  pub globals : List GlobalVariable
  pub functions : List Function

-- The call instruction, its function, the called function, which is null for an indirect call, and
-- the arguments.
pub record CallSite : Type 0 where
  pub instruction : Instruction
  pub parent : Function
  pub called : Option ℕ
  pub arguments : List Operand

-- The function that a pointer to it stands for; `none` is a pointer to no function of the module.
abbrev pub function_at : List Function → ℕ → Option Function
function_at [] a = none
function_at (f ∷ fs) a = if f.address == a then some f else function_at fs a

-- `cs.getArgument(n)`, where `none` is out of range.
abbrev pub get_argument : List Operand → ℕ → Option Operand
get_argument [] n = none
get_argument (a ∷ rest) zero = some a
get_argument (a ∷ rest) (suc n) = get_argument rest n

-- `isa<ConstantPointerNull>(v)`
abbrev pub is_null : Value → Bool
is_null (constant constant_pointer_null) = true
is_null _ = false
