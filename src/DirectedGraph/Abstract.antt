-- ===== src/DirectedGraph/Abstract.antt =====
-- DirectedGraph.h: the graph against its abstract view, a partial function from pairs of nodes to
-- edges and a set of nodes.
use programslicer.Common.{
  ◌∙◌, ℕ, ◌≡◌, refl, Bool, false, ◌&&◌, ◌||◌, Option, none, some, List, [], ◌∷◌, ◌==◌,
  if◌then◌else◌, arith,
}
use programslicer.Common.Sets
use programslicer.Common.Sets.{contains-insert}
use programslicer.DirectedGraph.{
  DirectedGraph, insert, erase, get_succ_set, get_pred_set, succ_edge, pred_edge, empty, IsValid,
}
use programslicer.DirectedGraph.Laws.{
  succ_edge-insert, pred_edge-insert, succ_edge-erase, pred_edge-erase, succ_edge-get_succ_set,
  pred_edge-get_pred_set, empty-IsValid, insert-IsValid, erase-IsValid, get_succ_set-IsValid,
  get_pred_set-IsValid,
}

pub data Call (E : Type 0) : Type 0 where
  insert_call : ℕ → ℕ → Option E → Call E
  erase_call : ℕ → ℕ → Call E
  get_succ_set_call : ℕ → Call E
  get_pred_set_call : ℕ → Call E

pub record View (E : Type 0) : Type 0 where
  pub edge : ℕ → ℕ → Option (Option E)
  pub is_node : ℕ → Bool

module _ {E : Type 0} where
  unfoldable pub step : DirectedGraph E → Call E → DirectedGraph E
  step g (insert_call a b e) = insert a b e g
  step g (erase_call a b) = erase a b g
  step g (get_succ_set_call a) = (get_succ_set a g).1
  step g (get_pred_set_call a) = (get_pred_set a g).1

  unfoldable pub run : DirectedGraph E → List (Call E) → DirectedGraph E
  run g [] = g
  run g (c ∷ cs) = run (step g c) cs

  -- What a call does to the view: an edge that is inserted again is overwritten, an erased edge
  -- leaves its ends in the node set, and a query does nothing.
  unfoldable pub view_step : View E → Call E → View E
  view_step v (insert_call a b e) = record {
    edge = λ x y. if a == x && b == y then some e else v.edge x y;
    is_node = λ x. b == x || (a == x || v.is_node x);
  }
  view_step v (erase_call a b) = record v {
    edge = λ x y. if a == x && b == y then none else v.edge x y;
  }
  view_step v (get_succ_set_call a) = v
  view_step v (get_pred_set_call a) = v

  unfoldable pub view_run : View E → List (Call E) → View E
  view_run v [] = v
  view_run v (c ∷ cs) = view_run (view_step v c) cs

  abbrev pub no_edges : View E
  no_edges = record { edge = λ _ _. none; is_node = λ _. false }

  pub record Refines (g : DirectedGraph E) (v : View E) : Type 0 where
    pub valid : IsValid g
    pub succ : (x y : ℕ) → succ_edge g x y ≡ v.edge x y
    pub pred : (x y : ℕ) → pred_edge g y x ≡ v.edge x y
    pub nodes : (x : ℕ) → Sets.contains x g.node_set ≡ v.is_node x

  step-Refines :
      (c : Call E) (g : DirectedGraph E) (v : View E)
      → Refines g v
      → Refines (step g c) (view_step v c)
  unfolding step view_step insert erase get_succ_set get_pred_set
  step-Refines (insert_call a b e) g v r = record {
    valid = insert-IsValid a b e g r.valid;
    succ = λ x y. ground (arith, succ_edge-insert a b x y e g, r.succ x y);
    pred = λ x y. ground (arith, pred_edge-insert a b x y e g, r.pred x y);
    nodes = λ x. ground (
      arith,
      contains-insert b x (Sets.insert a g.node_set),
      contains-insert a x g.node_set,
      r.nodes x,
    );
  }
  step-Refines (erase_call a b) g v r = record {
    valid = erase-IsValid a b g r.valid;
    succ = λ x y. ground (arith, succ_edge-erase a b x y g, r.succ x y);
    pred = λ x y. ground (arith, pred_edge-erase a b x y g, r.pred x y);
    nodes = r.nodes;
  }
  step-Refines (get_succ_set_call a) g v r = record {
    valid = get_succ_set-IsValid a g r.valid;
    succ = λ x y. succ_edge-get_succ_set a x y g ∙ r.succ x y;
    pred = r.pred;
    nodes = r.nodes;
  }
  step-Refines (get_pred_set_call a) g v r = record {
    valid = get_pred_set-IsValid a g r.valid;
    succ = r.succ;
    pred = λ x y. pred_edge-get_pred_set a x y g ∙ r.pred x y;
    nodes = r.nodes;
  }

  run_from-Refines :
      (cs : List (Call E)) (g : DirectedGraph E) (v : View E)
      → Refines g v
      → Refines (run g cs) (view_run v cs)
  unfolding run view_run
  run_from-Refines [] g v r = r
  run_from-Refines (c ∷ cs) g v r =
      run_from-Refines cs (step g c) (view_step v c) (step-Refines c g v r)

  -- After any sequence of calls on a new graph the two maps hold exactly the edges of the abstract
  -- view, the node set holds exactly its nodes, and the graph is valid.
  pub run-Refines : (cs : List (Call E)) → Refines (run empty cs) (view_run no_edges cs)
  run-Refines cs =
      run_from-Refines cs empty no_edges (record {
        valid = empty-IsValid;
        succ = λ x y. refl;
        pred = λ x y. refl;
        nodes = λ x. refl;
      })
