-- ===== src/Tests/Creating.antt =====
-- andersen/lib/NodeFactory.cpp, the creation of nodes: examples.
use programslicer.Common.{◌≡◌, refl, some, arith}
use programslicer.NodeFactory.{
  AndersNodeFactory, new_factory, create_value_node, create_object_node, create_return_node,
  create_vararg_node, get_value_node_for, get_object_node_for, get_return_node_for,
  get_vararg_node_for, plain,
}
use programslicer.NodeFactory.Create.{
  IsValid, create_value_node-exact, create_object_node-exact, create_return_node-exact,
  create_vararg_node-exact,
}

new_factory-IsValid : IsValid new_factory
new_factory-IsValid = record {
  values = λ v i h. ground arith;
  objects = λ v i h. ground arith;
  returns = λ v i h. ground arith;
  varargs = λ v i h. ground arith;
}

create_value_node-exact_example :
    (f : AndersNodeFactory) × (create_value_node 50 new_factory ≡ some (4, f))
    × IsValid f
    × (get_value_node_for (plain 50) f ≡ some 4)
create_value_node-exact_example = create_value_node-exact 50 new_factory new_factory-IsValid refl

create_object_node-exact_example :
    (f : AndersNodeFactory) × (create_object_node 50 new_factory ≡ some (4, f))
    × IsValid f
    × (get_object_node_for (plain 50) f ≡ some 4)
create_object_node-exact_example = create_object_node-exact 50 new_factory new_factory-IsValid refl

create_return_node-exact_example :
    (f : AndersNodeFactory) × (create_return_node 50 new_factory ≡ some (4, f))
    × IsValid f
    × (get_return_node_for 50 f ≡ 4)
create_return_node-exact_example = create_return_node-exact 50 new_factory new_factory-IsValid refl

create_vararg_node-exact_example :
    (f : AndersNodeFactory) × (create_vararg_node 50 new_factory ≡ some (4, f))
    × IsValid f
    × (get_vararg_node_for 50 f ≡ 4)
create_vararg_node-exact_example = create_vararg_node-exact 50 new_factory new_factory-IsValid refl
