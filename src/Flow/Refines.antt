-- ===== src/Flow/Refines.antt =====
-- The operations of `ScopeManager` (smartbench/flow/scope.py) on the stack of frames.
use smart_bench.Prelude.{
  ℕ, zero, suc, ◌<◌, String, ◌≡◌, refl, sym, ap, ap₂, ◌∙◌, Option, none, some, List, [], ◌∷◌,
  string_eq, length, arith,
}
use smart_bench.Prelude.Dict.{Dict}
use smart_bench.Prelude.Dict
use smart_bench.Flow.Scope.{
  Scope, ScopeManager, ScopeType, scope_at, with_variable, set_at, top, new_scope, enter_scope,
  rest, leave_scope, get, set, set_global, set_top,
}
use smart_bench.Flow.Frames.{
  frames, frames_at, variables_of, find, bind, outer, IsChain, bottom, entered, IsLinked,
  scope_at-snoc, IsChain-append, frames_at-append, top-length, scope_get-find,
}

module _ {ℓ} {V : Type ℓ} where
  -- A write keeps every scope's parent.
  scope_at-set_at :
      (heap : List (Scope V)) (i j : ℕ) (k : String) (v : V) (s : Scope V)
      → scope_at heap j ≡ some s
      → (r : Scope V) × (scope_at (set_at heap i k v) j ≡ some r) × (r.parent ≡ s.parent)
  unfolding scope_at set_at
  scope_at-set_at [] i j k v s e = absurd (cc)
  scope_at-set_at (x ∷ heap) zero zero k v s e =
      (with_variable x k v, refl, ap (λ o. parent_or o x.parent) e)
    where
      parent_or : Option (Scope V) → Option ℕ → Option ℕ
      parent_or none p = p
      parent_or (some y) p = y.parent
  scope_at-set_at (x ∷ heap) zero (suc j) k v s e = (s, e, refl)
  scope_at-set_at (x ∷ heap) (suc i) zero k v s e = (s, e, refl)
  scope_at-set_at (x ∷ heap) (suc i) (suc j) k v s e = scope_at-set_at heap i j k v s e

  scope_at-set_same :
      (heap : List (Scope V)) (i : ℕ) (k : String) (v : V) (s : Scope V)
      → scope_at heap i ≡ some s
      → variables_of (scope_at (set_at heap i k v) i) ≡ Dict.insert s.variables k v
  unfolding scope_at set_at
  scope_at-set_same [] i k v s e = absurd (cc)
  scope_at-set_same (x ∷ heap) zero k v s e = ap (λ o. Dict.insert (variables_of o) k v) e
  scope_at-set_same (x ∷ heap) (suc i) k v s e = scope_at-set_same heap i k v s e

  scope_at-set_below :
      (heap : List (Scope V)) (i j : ℕ) (k : String) (v : V)
      → j < i
      → scope_at (set_at heap i k v) j ≡ scope_at heap j
  unfolding scope_at set_at
  scope_at-set_below [] i j k v l = refl
  scope_at-set_below (x ∷ heap) zero j k v l = absurd (omega (arith, l))
  scope_at-set_below (x ∷ heap) (suc i) zero k v l = refl
  scope_at-set_below (x ∷ heap) (suc i) (suc j) k v l =
      scope_at-set_below heap i j k v (omega (arith, l))

  IsChain-set_at :
      (heap : List (Scope V)) (i : ℕ) (k : String) (v : V) (ns : List ℕ)
      → IsChain heap ns
      → IsChain (set_at heap i k v) ns
  IsChain-set_at heap i k v _ bottom = bottom
  IsChain-set_at heap i k v _ (entered n ns s e p l c) =
      let (r, f, q) = scope_at-set_at heap i n k v s e in
      entered n ns r f (q ∙ p) l (IsChain-set_at heap i k v ns c)

  -- A write to a scope above the stack changes no frame.
  frames_at-set_at :
      (heap : List (Scope V)) (i : ℕ) (k : String) (v : V) (ns : List ℕ)
      → IsChain heap ns
      → ((j : ℕ) → top ns ≡ some j → j < i)
      → frames_at (set_at heap i k v) ns ≡ frames_at heap ns
  frames_at-set_at heap i k v _ bottom b = refl
  frames_at-set_at heap i k v _ (entered n ns s e p l c) b =
      ap₂ (λ d ds. variables_of d ∷ ds) (scope_at-set_below heap i n k v (b n refl))
        (frames_at-set_at heap i k v ns c (λ j t. omega (arith, l j t, b n refl)))

  -- What a stack of frames promises of the operations.
  pub record IsFrameStack (m : ScopeManager V) : Type ℓ where
    pub enters :
        (type : ScopeType) (name : Option String)
        → (frames (enter_scope m type name) ≡ [] ∷ frames m) × IsLinked (enter_scope m type name)
    pub leaves : (frames (leave_scope m) ≡ outer (frames m)) × IsLinked (leave_scope m)
    pub sets :
        (k : String) (v : V) → (frames (set m k v) ≡ bind (frames m) k v) × IsLinked (set m k v)
    pub set_globals : (k : String) (v : V) → IsLinked (set_global m k v)
    pub gets : (k : String) → get m k ≡ find (frames m) k

  frames-set :
      (heap : List (Scope V)) (ns : List ℕ) (k : String) (v : V)
      → IsChain heap ns
      → frames_at (set_top ns heap k v) ns ≡ bind (frames_at heap ns) k v
  frames-set heap _ k v bottom = refl
  frames-set heap _ k v (entered n ns s e p l c) =
      ap₂ (λ d ds. d ∷ ds)
        (scope_at-set_same heap n k v s e ∙ ap (λ o. Dict.insert (variables_of o) k v) (sym e))
        (frames_at-set_at heap n k v ns c l)

  linked-set :
      (heap : List (Scope V)) (ns : List ℕ) (k : String) (v : V)
      → IsChain heap ns
      → IsChain (set_top ns heap k v) ns
  linked-set heap [] k v c = bottom
  linked-set heap (n ∷ ns) k v c = IsChain-set_at heap n k v (n ∷ ns) c

  linked-rest : (heap : List (Scope V)) (ns : List ℕ) → IsChain heap ns → IsChain heap (rest ns)
  linked-rest heap _ bottom = bottom
  linked-rest heap _ (entered n ns s e p l c) = c

  frames-rest :
      (heap : List (Scope V)) (ns : List ℕ) → frames_at heap (rest ns) ≡ outer (frames_at heap ns)
  frames-rest heap [] = refl
  frames-rest heap (n ∷ ns) = refl

  -- In a manager whose scopes' parents are the scopes below them on the stack: entering a scope adds an empty
  -- frame, leaving drops the innermost, setting binds in the innermost, and each keeps the parents so;
  -- `set_global` keeps them; and a variable's value is that of the innermost frame that has it, or
  -- none.
  pub scope_manager-IsFrameStack : (m : ScopeManager V) → IsLinked m → IsFrameStack m
  unfolding enter_scope leave_scope set set_global get
  scope_manager-IsFrameStack m c =
      let heap = m.all_scopes in
      record {
        enters = λ type name.
            let s = new_scope (top m.stack) type name in
            (
              ap₂ (λ d ds. variables_of d ∷ ds) (scope_at-snoc heap s)
                  (frames_at-append heap (s ∷ []) m.stack c),
              entered (length heap) m.stack s (scope_at-snoc heap s) refl
                  (λ j t. top-length heap m.stack j c t) (IsChain-append heap (s ∷ []) m.stack c),
            );
        leaves = (frames-rest heap m.stack, linked-rest heap m.stack c);
        sets = λ k v. (frames-set heap m.stack k v c, linked-set heap m.stack k v c);
        set_globals = λ k v. IsChain-set_at heap 0 k v m.stack c;
        gets = λ k.
            scope_get-find heap m.stack (length heap) k c (λ j t. top-length heap m.stack j c t);
      }
