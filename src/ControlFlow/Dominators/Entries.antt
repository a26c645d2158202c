-- ===== src/ControlFlow/Dominators/Entries.antt =====
-- The entries of a function's nodes, for `_dominators` of smartbench/analysis/control_flow.py.
use smart_bench.Prelude.{
  String, ◌≡◌, refl, Bool, true, false, not, List, [], ◌∷◌, string_eq, contains, contains-filter,
  filter, any, all, if◌then◌else◌, arith, beq_refl, beq→eq, subst, sym, str_leb,
}
use smart_bench.ControlFlow.Graph.{ControlFlowGraph, sources}
use smart_bench.ControlFlow.Dominators.Loop.{least, entries_of}
use smart_bench.ControlFlow.Dominators.Sets.{nonempty}

pub least-mem : (m : String) (ns : List String) → contains (least m ns) (m ∷ ns) ≡ true
least-mem m [] = ground (arith, beq_refl m)
least-mem m (n ∷ ns) = pick (str_leb m n) (λ x. least-mem x ns)
  where
    pick :
        (b : Bool)
        → ((x : String) → contains (least x ns) (x ∷ ns) ≡ true)
        → contains (least (if b then m else n) ns) (m ∷ n ∷ ns) ≡ true
    pick true h = ground (arith, h m)
    pick false h = ground (arith, h n)

pub nonempty-filter :
    (p : String → Bool) (xs : List String) → any p xs ≡ true → nonempty (filter p xs) ≡ true
nonempty-filter p [] h = absurd (cc)
nonempty-filter p (x ∷ xs) h = ground (arith, nonempty-filter p xs)

-- A list that is not empty has an element at which a test of all passes.
pub nonempty-all :
    (p : String → Bool) (xs : List String)
    → nonempty xs ≡ true
    → all p xs ≡ true
    → (x : String) × (contains x xs ≡ true) × (p x ≡ true)
nonempty-all p [] h k = absurd (cc)
nonempty-all p (x ∷ xs) h k = (x, ground (arith, beq_refl x), ground arith)

module _ (g : ControlFlowGraph) (ns : List String) where
  abbrev pub rootless : String → Bool
  rootless n = not (any (λ s. contains s ns) (sources g n))

  abbrev pub pick_entries : List String → List String → List String
  pick_entries (e ∷ es) ms = e ∷ es
  pick_entries [] [] = []
  pick_entries [] (m ∷ ms) = least m ms ∷ []

  pub entries-eq : entries_of g ns ≡ pick_entries (filter rootless ns) ns
  unfolding entries_of
  entries-eq = by_case (filter rootless ns) ns
    where
      by_case :
          (fs ms : List String)
          → (elim fs [ e ∷ es ↦ e ∷ es | [] ↦ elim ms [ [] ↦ [] | n ∷ ks ↦ least n ks ∷ [] ] ])
            ≡ pick_entries fs ms
      by_case (e ∷ es) ms = refl
      by_case [] [] = refl
      by_case [] (m ∷ ms) = refl

  -- An entry is an operation of the function.
  pub entry_node : (n : String) → contains n (entries_of g ns) ≡ true → contains n ns ≡ true
  entry_node n h = by_case (filter rootless ns) refl (subst (λ l. contains n l ≡ true) entries-eq h)
    where
      single : (ms : List String) → contains n (pick_entries [] ms) ≡ true → contains n ms ≡ true
      single [] k = k
      single (m ∷ ms) k =
          subst (λ x. contains x (m ∷ ms) ≡ true) (sym (beq→eq n (least m ms) (ground arith)))
            (least-mem m ms)

      by_case :
          (fs : List String)
          → filter rootless ns ≡ fs
          → contains n (pick_entries fs ns) ≡ true
          → contains n ns ≡ true
      by_case (e ∷ es) p k = ground (arith, contains-filter rootless n ns, p)
      by_case [] p k = single ns k

  -- An operation that is no entry has a predecessor in the function.
  pub not_entry :
      (n : String)
      → contains n ns ≡ true
      → contains n (entries_of g ns) ≡ false
      → any (λ s. contains s ns) (sources g n) ≡ true
  not_entry n m h =
      by_case (filter rootless ns) refl (subst (λ l. contains n l ≡ false) entries-eq h)
    where
      by_case :
          (fs : List String)
          → filter rootless ns ≡ fs
          → contains n (pick_entries fs ns) ≡ false
          → any (λ s. contains s ns) (sources g n) ≡ true
      by_case (e ∷ es) p k = ground (arith, contains-filter rootless n ns, p)
      by_case [] p k = ground (arith, contains-filter rootless n ns, p)
