-- ===== src/ControlFlow/Dominators/Nodes.antt =====
-- The operations of one function, and its entries.
use smart_bench.Prelude.{
  String, ◌≡◌, refl, true, false, ◌&&◌, List, [], ◌∷◌, map, ◌==◌, string_eq, contains,
  contains-filter, filter, arith, Bool-cases, Option, some, none, inl, inr, beq→eq, subst, sym, ap,
  ◌∙◌,
}
use smart_bench.Prelude.Dict.{Dict}
use smart_bench.Prelude.Dict
use smart_bench.Ir.Operations.{SemanticOperation, OperationEdge}
use smart_bench.ControlFlow.Graph.{
  ControlFlowGraph, control_flow_graph, index_operations, same_scope, sources,
}
use smart_bench.ControlFlow.Linked.{
  linked, contains-sources, operations_lem, linked-linked_back, linked_scope,
}
use smart_bench.ControlFlow.Dominators.Loop.{scope_nodes, predecessors_in}

-- Each key is the identifier of its operation, and stands once.
abbrev IsIndex : Dict String SemanticOperation → Type 0
IsIndex [] = Unit
IsIndex ((k, o) ∷ d) = (o.id ≡ k) × (contains k (Dict.keys d) ≡ false) × IsIndex d

keys_after :
    (d : Dict String SemanticOperation) (k j : String) (o : SemanticOperation)
    → contains k (Dict.keys d) ≡ false
    → (j == k) ≡ false
    → contains k (Dict.keys (Dict.insert d j o)) ≡ false
unfolding Dict.insert
keys_after [] k j o h ne = ground (arith, string_eq.same_iff j k, string_eq.same_iff k j)
keys_after ((i, p) ∷ d) k j o h ne = ground (arith, keys_after d k j o, string_eq.same_iff i j)

insert-IsIndex :
    (d : Dict String SemanticOperation) (o : SemanticOperation)
    → IsIndex d
    → IsIndex (Dict.insert d o.id o)
unfolding Dict.insert
insert-IsIndex [] o h = (refl, refl, tt)
insert-IsIndex ((i, p) ∷ d) o (e, n, h) = elim (Bool-cases (i == o.id)) [
  | inl hit ↦ rw hit (sym (beq→eq i o.id hit), n, h)
  | inr miss ↦ rw miss (
    e,
    keys_after d i o.id o n (ground (arith, string_eq.same_iff i o.id, string_eq.same_iff o.id i)),
    insert-IsIndex d o h,
  )
]

index_operations-IsIndex :
    (d : Dict String SemanticOperation) (ops : List SemanticOperation)
    → IsIndex d
    → IsIndex (index_operations d ops)
unfolding index_operations
index_operations-IsIndex d [] h = h
index_operations-IsIndex d (o ∷ os) h =
    index_operations-IsIndex (Dict.insert d o.id o) os (insert-IsIndex d o h)

abbrev node_list : Dict String SemanticOperation → String → List String
node_list d scope = map (λ o. o.id) (filter (λ o. o.scope_id == scope) (Dict.values d))

-- The operation that a dictionary holds for an identifier belongs to the function.
abbrev Belongs : Option SemanticOperation → String → Type 0
Belongs r scope = (o : SemanticOperation) × (r ≡ some o) × (o.scope_id ≡ scope)

node_key :
    (d : Dict String SemanticOperation) (scope n : String)
    → IsIndex d
    → contains n (node_list d scope) ≡ true
    → contains n (Dict.keys d) ≡ true
node_key [] scope n h m = absurd (cc)
node_key ((k, o) ∷ d) scope n (e, f, h) m =
    ground (arith, node_key d scope n h, string_eq.same_iff n k, string_eq.same_iff n o.id)

node-Belongs :
    (d : Dict String SemanticOperation) (scope n : String)
    → IsIndex d
    → contains n (node_list d scope) ≡ true
    → Belongs (Dict.get d n) scope
unfolding Dict.get
node-Belongs [] scope n h m = absurd (cc)
node-Belongs ((k, o) ∷ d) scope n (e, f, h) m = elim (Bool-cases (k == n)) [
  | inl hit ↦ rw hit (
    o,
    refl,
    ground
        (arith, node_key d scope n h, string_eq.same_iff k n, string_eq.same_iff o.scope_id scope),
  )
  | inr miss ↦
      rw miss (
        node-Belongs d scope n h
          (ground (arith, string_eq.same_iff k n, string_eq.same_iff n o.id)))
]

belongs_node :
    (d : Dict String SemanticOperation) (scope n : String) (o : SemanticOperation)
    → IsIndex d
    → Dict.get d n ≡ some o
    → o.scope_id ≡ scope
    → contains n (node_list d scope) ≡ true
unfolding Dict.get
belongs_node [] scope n o h g e = absurd (cc)
belongs_node ((k, p) ∷ d) scope n o (i, f, h) g e = ground (
  arith,
  belongs_node d scope n o h,
  string_eq.same_iff k n,
  string_eq.same_iff n p.id,
  string_eq.same_iff p.scope_id scope,
)

module _ (ops : List SemanticOperation) (es : List OperationEdge) (scope : String) where
  abbrev cfg : ControlFlowGraph
  cfg = control_flow_graph ops es

  abbrev pub nodes : List String
  nodes = scope_nodes cfg scope

  nodes-eq : nodes ≡ node_list (index_operations [] ops) scope
  unfolding scope_nodes
  nodes-eq = ap (λ d. node_list d scope) (operations_lem ops es)

  pub in_scope :
      (n : String) → contains n nodes ≡ true → Belongs (Dict.get (index_operations [] ops) n) scope
  in_scope n m =
      node-Belongs (index_operations [] ops) scope n (index_operations-IsIndex [] ops tt)
        (subst (λ l. contains n l ≡ true) nodes-eq m)

  pub scope_in :
      (n : String) (o : SemanticOperation)
      → Dict.get (index_operations [] ops) n ≡ some o
      → o.scope_id ≡ scope
      → contains n nodes ≡ true
  scope_in n o g e =
      subst (λ l. contains n l ≡ true) (sym nodes-eq)
        (belongs_node (index_operations [] ops) scope n o (index_operations-IsIndex [] ops tt) g e)

  -- An edge does not leave the function.
  pub linked_in :
      (a b : String)
      → contains a nodes ≡ true
      → contains b (linked ops es a) ≡ true
      → contains b nodes ≡ true
  linked_in a b m h =
      let (o, e, p) = in_scope a m in
      other o p (Dict.get (index_operations [] ops) b) refl (
        subst (λ x. same_scope x (Dict.get (index_operations [] ops) b) ≡ true) e
          (linked_scope ops es a b h))
    where
      other :
          (o : SemanticOperation)
          → o.scope_id ≡ scope
          → (r : Option SemanticOperation) → Dict.get (index_operations [] ops) b ≡ r
          → same_scope (some o) r ≡ true
          → contains b nodes ≡ true
      other o p none e k = absurd (cc)
      other o p (some q) e k = scope_in b q e (sym (beq→eq o.scope_id q.scope_id k) ∙ p)

  pub predecessor_iff :
      (a b : String)
      → contains a (predecessors_in cfg nodes b)
        ≡ (contains b (linked ops es a) && contains a nodes)
  unfolding predecessors_in
  predecessor_iff a b = ground (
    arith,
    contains-filter (λ s. contains s nodes) a (sources cfg b),
    contains-sources ops es a b,
    linked-linked_back ops es a b,
  )
