-- ===== src/Andersen/Collect/Total/Addresses.antt =====
-- The addresses of the values of a module, in the order in which andersen/lib/ConstraintCollect.cpp
-- creates their nodes.
use programslicer.Common.{ℕ, ◌≡◌, false, List, [], ◌∷◌, ◌==◌, All}
use programslicer.Andersen.Code.{Module, Function, Argument, Instruction, GlobalVariable}

-- Addresses that are not null, each of which stands once.
abbrev pub Distinct : List ℕ → Type 0
Distinct [] = Unit
Distinct (a ∷ ks) = ((a == 0) ≡ false) × All (λ b. (a == b) ≡ false) ks × Distinct ks

abbrev pub of_globals : List GlobalVariable → List ℕ → List ℕ
of_globals [] rest = rest
of_globals (g ∷ gs) rest = g.address ∷ of_globals gs rest

abbrev pub of_arguments : List Argument → List ℕ → List ℕ
of_arguments [] rest = rest
of_arguments (x ∷ xs) rest = x.address ∷ of_arguments xs rest

-- The functions with their arguments.
abbrev pub of_functions : List Function → List ℕ → List ℕ
of_functions [] rest = rest
of_functions (f ∷ fs) rest = f.address ∷ of_arguments f.arguments (of_functions fs rest)

abbrev pub of_instructions : List Instruction → List ℕ → List ℕ
of_instructions [] rest = rest
of_instructions (i ∷ is) rest = i.address ∷ of_instructions is rest

abbrev pub of_bodies : List Function → List ℕ → List ℕ
of_bodies [] rest = rest
of_bodies (f ∷ fs) rest = of_instructions f.body (of_bodies fs rest)

abbrev pub addresses : Module → List ℕ
addresses m = of_globals m.globals (of_functions m.functions (of_bodies m.functions []))
