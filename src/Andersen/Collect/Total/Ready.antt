-- ===== src/Andersen/Collect/Total/Ready.antt =====
-- andersen/lib/ConstraintCollect.cpp and andersen/lib/ExternalLibrary.cpp: what a module is to have, so
-- that no assertion fails: the operands that are looked up are pointers of the module, and the
-- instructions and calls have the types that are asserted.
use text.Mathlib.Text.{◌==◌ as same_text}
use programslicer.Common.{
  ℕ, ◌==◌, ◌≡◌, ◌⊎◌, ◌+◌, ◌*◌, ◌<◌, Bool, true, false, not, ◌&&◌, ◌||◌, none, some, List,
  if◌then◌else◌, All, Any, length,
}
use programslicer.NodeFactory.{
  Value, constant, plain, Constant, constant_pointer_null, undef_value, global_value,
  get_element_ptr as element_constant, int_to_ptr as int_constant, ptr_to_int,
  bit_cast as cast_constant, not_handled,
}
use programslicer.Andersen.Code.{
  Module, Function, Instruction, Operand, CallSite, function_at, get_argument, Initializer,
  Initializers, pointer, scalar, null_value, undefined, aggregate, no_operand, operand, Integer,
  from_pointer, from_pointer_with_offset, any_integer, Opcode, alloca, call, ret, load, store,
  get_element_ptr, phi, bit_cast, int_to_ptr, select, va_arg, extract_or_insert_value,
  exception_or_atomic, other,
}
use programslicer.Andersen.Collect.Names.{
  noop_funcs, malloc_funcs, realloc_funcs, ret_arg0_funcs, ret_arg1_funcs, ret_arg2_funcs,
  memcpy_funcs, convert_funcs, lookup_name,
}
use programslicer.NodeFactory.{invalid_index}
use programslicer.Andersen.Collect.Total.Addresses.{Distinct, addresses}
use programslicer.Andersen.Collect.Library.{is_null_argument, is_posix_memalign}

abbrev pub is_external : Function → Bool
is_external f = f.is_declaration || f.is_intrinsic

module _ (m : Module) where
  -- The address of a global variable, or of a function whose address is taken.
  abbrev pub Global : ℕ → Type 0
  Global a =
      Any (λ g. g.address ≡ a) m.globals
      ⊎ Any (λ h. (h.has_address_taken ≡ true) × (h.address ≡ a)) m.functions

  -- A constant that has a node.
  abbrev pub KnownConstant : Constant → Type 0
  KnownConstant constant_pointer_null = Unit
  KnownConstant undef_value = Unit
  KnownConstant (global_value g) = Global g
  KnownConstant (element_constant c) = KnownConstant c
  KnownConstant int_constant = Unit
  KnownConstant ptr_to_int = ⊥
  KnownConstant (cast_constant c) = KnownConstant c
  KnownConstant not_handled = ⊥

  -- A constant that points to a node.
  abbrev pub KnownObject : Constant → Type 0
  KnownObject constant_pointer_null = Unit
  KnownObject undef_value = ⊥
  KnownObject (global_value g) = Global g
  KnownObject (element_constant c) = KnownObject c
  KnownObject int_constant = Unit
  KnownObject ptr_to_int = ⊥
  KnownObject (cast_constant c) = KnownObject c
  KnownObject not_handled = ⊥

  -- The pointers of an initializer.
  abbrev mutual
    pub ReadyInitializer : Initializer → Type 0
    ReadyInitializer (pointer c) = KnownObject c
    ReadyInitializer scalar = Unit
    ReadyInitializer null_value = Unit
    ReadyInitializer undefined = Unit
    ReadyInitializer (aggregate cs) = ReadyInitializers cs

    pub ReadyInitializers : Initializers → Type 0
    ReadyInitializers no_operand = Unit
    ReadyInitializers (operand c cs) = ReadyInitializer c × ReadyInitializers cs

  module _ (f : Function) where
    -- A pointer that an instruction of the function `f` can use.
    abbrev pub Known : Value → Type 0
    Known (constant c) = KnownConstant c
    Known (plain a) =
        Any (λ i. (i.is_pointer ≡ true) × (i.address ≡ a)) f.body
        ⊎ Any (λ x. (x.is_pointer ≡ true) × (x.address ≡ a)) f.arguments

    abbrev pub KnownOperands : List Operand → Type 0
    KnownOperands args = All (λ a. a.is_pointer ≡ true → Known a.value) args

    abbrev pub KnownArgument : ℕ → List Operand → Type 0
    KnownArgument n args = (a : Operand) × (get_argument args n ≡ some a) × Known a.value

    -- What a call of a library function that allocates needs; it is excluded for `creates` false.
    abbrev pub ReadyAllocate : Bool → CallSite → Type 0
    ReadyAllocate creates cs =
        (creates ≡ true)
        × ((cs.instruction.is_pointer ≡ true)
            ⊎ ((is_posix_memalign m cs ≡ some true) × KnownArgument 0 cs.arguments))

    abbrev pub ReadyReturn : ℕ → CallSite → Type 0
    ReadyReturn n cs = (cs.instruction.is_pointer ≡ true) × KnownArgument n cs.arguments

    abbrev pub ReadyName : Bool → CallSite → Function → Bool → Type 0
    ReadyName creates cs g null_first =
        if lookup_name malloc_funcs g.name || lookup_name realloc_funcs g.name && not null_first
        then ReadyAllocate creates cs
        else if lookup_name ret_arg0_funcs g.name || lookup_name realloc_funcs g.name && null_first
        then ReadyReturn 0 cs
        else if lookup_name ret_arg1_funcs g.name
        then ReadyReturn 1 cs
        else if lookup_name ret_arg2_funcs g.name
        then ReadyReturn 2 cs
        else if lookup_name memcpy_funcs g.name
        then (creates ≡ true) × KnownArgument 0 cs.arguments × KnownArgument 1 cs.arguments
        else if lookup_name convert_funcs g.name
        then KnownArgument 0 cs.arguments × KnownArgument 1 cs.arguments
        else if same_text g.name "llvm.va_start"
        then KnownArgument 0 cs.arguments × (f.is_var_arg ≡ true)
        else Unit

    -- What a call of a library function needs of its arguments.
    abbrev pub ReadyLibrary : Bool → CallSite → Function → Type 0
    ReadyLibrary creates cs g =
        if lookup_name noop_funcs g.name
        then Unit
        else if lookup_name realloc_funcs g.name
        then ((b : Bool) × (is_null_argument 0 cs ≡ some b) × ReadyName creates cs g b)
        else ReadyName creates cs g false

    -- What a direct call of the function `g` needs.
    abbrev pub ReadyDirect : CallSite → Function → Type 0
    ReadyDirect cs g =
        KnownOperands cs.arguments
        × (if is_external g
            then ReadyLibrary true cs g
            else (cs.instruction.is_pointer ≡ true → g.returns_pointer ≡ true))

    -- What an indirect call needs, if it is one of the function `g`: a library function is to create
    -- no node, and the arguments, all of which may be looked up, are to be pointers.
    abbrev pub ReadyCalled : CallSite → Function → Type 0
    ReadyCalled cs g =
        if is_external g
        then ReadyLibrary false cs g × All (λ a. Known a.value) cs.arguments
        else Unit

    -- And where it may be one, since the number of arguments fits.
    abbrev pub ReadyCandidate : CallSite → Function → Type 0
    ReadyCandidate cs g =
        (not g.is_var_arg && not (length g.arguments == length cs.arguments)) ≡ false
        → ReadyCalled cs g

    abbrev pub ReadyInteger : Integer → Type 0
    ReadyInteger (from_pointer v) = Known v
    ReadyInteger (from_pointer_with_offset v) = Known v
    ReadyInteger any_integer = Unit

    abbrev pub Ready : Instruction → Opcode → Type 0
    Ready inst alloca = inst.is_pointer ≡ true
    Ready inst (call (some a) args) =
        (g : Function) × (function_at m.functions a ≡ some g)
        × ReadyDirect (record { instruction = inst; parent = f; called = some a; arguments = args })
            g
    Ready inst (call none args) =
        KnownOperands args
        × All
            (λ g.
              ReadyCandidate
                (record { instruction = inst; parent = f; called = none; arguments = args }) g)
            m.functions
    Ready inst (ret none) = Unit
    Ready inst (ret (some op)) = op.is_pointer ≡ true → Known op.value × (f.returns_pointer ≡ true)
    Ready inst (load op) = inst.is_pointer ≡ true → Known op
    Ready inst (store op to) = op.is_pointer ≡ true → Known op.value × Known to
    Ready inst (get_element_ptr op) = (inst.is_pointer ≡ true) × Known op
    Ready inst (phi vs) = inst.is_pointer ≡ true → All (λ v. Known v) vs
    Ready inst (bit_cast op) = inst.is_pointer ≡ true → Known op
    Ready inst (int_to_ptr op) = (inst.is_pointer ≡ true) × ReadyInteger op
    Ready inst (select v w) = inst.is_pointer ≡ true → Known v × Known w
    Ready inst va_arg = inst.is_pointer ≡ true → f.is_var_arg ≡ true
    Ready inst extract_or_insert_value = inst.is_pointer ≡ false
    Ready inst exception_or_atomic = ⊥
    Ready inst other = inst.is_pointer ≡ false

-- A module for which no assertion of the phase fails: its values have addresses of
-- their own, there are numbers for four nodes of each, and initializers and instructions have what
-- they need.
pub record WellFormed (m : Module) : Type 0 where
  pub distinct : Distinct (addresses m)
  pub room : 4 + 4 * length (addresses m) < invalid_index
  pub initializers :
      All (λ g. (c : Initializer) → g.initializer ≡ some c → ReadyInitializer m c) m.globals
  pub instructions :
      All (λ f. is_external f ≡ false → All (λ i. Ready m f i i.opcode) f.body) m.functions
