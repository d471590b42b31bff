-- ===== src/Andersen/Collect/Keeps/Library.antt =====
-- andersen/lib/ExternalLibrary.cpp: calls of library functions keep the state valid.
use text.Mathlib.Text.{◌==◌ as same_text}
use programslicer.Common.{
  ℕ, ◌<◌, Bool, false, not, ◌&&◌, ◌||◌, Option, some, ◌==◌, if◌then◌else◌, arith, branch, Yields,
  fails, yields, Yields->>=, Yields-any, Yields-if,
}
use programslicer.NodeFactory.{plain, invalid_index}
use programslicer.Andersen.Constraint.{addr_of, copy, load, store}
use programslicer.Andersen.Code.{Module, Function, CallSite, get_argument}
use programslicer.Andersen.Collect.{Collector, add}
use programslicer.Andersen.Collect.Names.{
  noop_funcs, malloc_funcs, realloc_funcs, ret_arg0_funcs, ret_arg1_funcs, ret_arg2_funcs,
  memcpy_funcs, convert_funcs, lookup_name,
}
use programslicer.Andersen.Collect.Library.{
  argument_node, is_null_argument, result_node, is_posix_memalign, allocate, return_argument,
  copy_memory, convert, start_varargs, known, by_name, add_constraint_for_external_library,
}
use programslicer.Andersen.Collect.Valid.{
  size, IsValid, Keeps, Bounded, add-Keeps, value_node-bound, valid-found,
  get_value_node_for-Bounded,
}
use programslicer.Andersen.Collect.Created.{create_value_node-Created, create_object_node-Created}
use programslicer.Andersen.Collect.Keeps.{Keeps-trans, added}

argument_node-bound :
    (n : ℕ) (cs : CallSite) (s : Collector)
    → IsValid s
    → Yields (λ i. i < size s) (argument_node n cs s)
unfolding argument_node
argument_node-bound n cs s v =
    Yields->>= (Yields-any (get_argument cs.arguments n)) (λ arg _. value_node-bound arg.value s v)

result_node-Bounded :
    (cs : CallSite) (s : Collector) → IsValid s → Bounded (size s) (result_node cs s)
unfolding result_node
result_node-Bounded cs s v =
    get_value_node_for-Bounded s.node_factory (size s) v.base (plain cs.instruction.address)
      v.values

module _ (k : Collector) (cs : CallSite) (s : Collector) (keeps : Keeps k s) where
  return_argument-Keeps : (n : ℕ) → Yields (Keeps k) (return_argument n cs s)
  unfolding return_argument
  return_argument-Keeps n =
      Yields->>= (value_node-bound (plain cs.instruction.address) s keeps.0)
        (λ d hd. Yields->>= (argument_node-bound n cs s keeps.0) (λ r hr. added copy keeps hd hr))

  convert-Keeps : Yields (Keeps k) (convert cs s)
  unfolding convert
  convert-Keeps = Yields->>= (Yields-any (is_null_argument 1 cs)) (λ no_end _.
      Yields-if no_end (yields keeps) (
        Yields->>= (argument_node-bound 0 cs s keeps.0) (λ d hd.
          Yields->>= (argument_node-bound 1 cs s keeps.0) (λ r hr. added store keeps hd hr))))

  start_varargs-Keeps : Yields (Keeps k) (start_varargs cs s)
  unfolding start_varargs
  start_varargs-Keeps = Yields->>= (argument_node-bound 0 cs s keeps.0) (λ d hd.
      Yields->>= (valid-found (size s) cs.parent.address s.node_factory.vararg_map keeps.0.varargs)
        (λ r hr. Yields-if cs.parent.is_var_arg (added addr_of keeps hd hr) fails))

  allocate-Keeps : (m : Module) → Yields (Keeps k) (allocate m cs s)
  unfolding allocate
  allocate-Keeps m =
      Yields->>= (create_object_node-Created s keeps.0 cs.instruction.address)
        (λ (obj, f) (in_obj, keeps').
          let s₁ = record s { node_factory = f } in
          let kept = Keeps-trans k s s₁ keeps keeps' in
          Yields->>= (result_node-Bounded cs s₁ kept.0) (λ ptr bounded.
            branch (Yields (Keeps k)) (ptr == invalid_index)
              (λ _. Yields->>= (Yields-any (is_posix_memalign m cs)) (λ is_memalign _.
                Yields->>= (argument_node-bound 0 cs s₁ kept.0)
                  (λ d hd. Yields-if is_memalign (added store kept hd in_obj) fails)))
              (λ there. added addr_of kept (bounded there) in_obj)))

  copy_memory-Keeps : Yields (Keeps k) (copy_memory cs s)
  unfolding copy_memory add
  copy_memory-Keeps = Yields->>= (argument_node-bound 0 cs s keeps.0) (λ d hd.
      Yields->>= (argument_node-bound 1 cs s keeps.0) (λ r hr.
        Yields->>= (create_value_node-Created s keeps.0 0) (λ (temp, f) (in_temp, keeps').
          let s₁ = record s { node_factory = f } in
          let kept = Keeps-trans k s s₁ keeps keeps' in
          let in_d : d < size s₁ = omega (arith, hd, keeps'.1.longer) in
          let in_r : r < size s₁ = omega (arith, hr, keeps'.1.longer) in
          let s₂ = add load temp r s₁ in
          let kept₂ = add-Keeps load temp r k s₁ kept in_temp in_r in
          let s₃ = add store d temp s₂ in
          let kept₃ = add-Keeps store d temp k s₂ kept₂ in_d in_temp in
          Yields->>= (result_node-Bounded cs s₃ kept₃.0) (λ ret bounded. yields (
            branch (Keeps k) (ret == invalid_index) (λ _. kept₃)
              (λ there. add-Keeps copy ret d k s₃ kept₃ (bounded there) in_d))))))

  known-Keeps :
      {m : Option Collector} → Yields (Keeps k) m → Yields (λ (b, s'). Keeps k s') (known m)
  known-Keeps p = Yields->>= p (λ s' q. yields q)

  by_name-Keeps :
      (m : Module) (f : Function) (null_first : Bool)
      → Yields (λ (b, s'). Keeps k s') (by_name m cs f null_first s)
  unfolding by_name
  by_name-Keeps m f null_first =
      let is_realloc_like = lookup_name realloc_funcs f.name in
      Yields-if (lookup_name malloc_funcs f.name || is_realloc_like && not null_first)
        (known-Keeps (allocate-Keeps m))
        (Yields-if (lookup_name ret_arg0_funcs f.name || is_realloc_like && null_first)
          (known-Keeps (return_argument-Keeps 0))
          (Yields-if (lookup_name ret_arg1_funcs f.name) (known-Keeps (return_argument-Keeps 1)) (
            Yields-if (lookup_name ret_arg2_funcs f.name) (known-Keeps (return_argument-Keeps 2)) (
              Yields-if (lookup_name memcpy_funcs f.name) (known-Keeps copy_memory-Keeps) (
                Yields-if (lookup_name convert_funcs f.name) (known-Keeps convert-Keeps) (
                  Yields-if (same_text f.name "llvm.va_start") (known-Keeps start_varargs-Keeps)
                    (yields keeps)))))))

  pub add_constraint_for_external_library-Keeps :
      (m : Module) (f : Function)
      → Yields (λ (b, s'). Keeps k s') (add_constraint_for_external_library m cs f s)
  unfolding add_constraint_for_external_library
  add_constraint_for_external_library-Keeps m f =
      Yields-if (not (f.is_declaration || f.is_intrinsic)) fails (
        Yields-if (lookup_name noop_funcs f.name) (yields keeps) (
          Yields->>=
            (Yields-any
              (if lookup_name realloc_funcs f.name then is_null_argument 0 cs else some false))
            (λ null_first _. by_name-Keeps m f null_first)))
