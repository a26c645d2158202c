-- ===== src/Flow/Frames.antt =====
-- The scopes of smartbench/flow/scope.py seen as a stack of frames.
use smart_bench.Prelude.{
  ℕ, zero, suc, ◌<◌, String, ◌≡◌, refl, sym, ap, ap₂, subst, ◌∙◌, Option, none, some, List, [], ◌∷◌,
  ◌++◌, string_eq, length, arith,
}
use smart_bench.Prelude.Dict.{Dict}
use smart_bench.Prelude.Dict
use smart_bench.Flow.Scope.{Scope, ScopeManager, scope_at, or_parent, scope_get, through, top}

module _ {ℓ} {V : Type ℓ} where
  abbrev pub variables_of : Option (Scope V) → Dict String V
  variables_of none = []
  variables_of (some s) = s.variables

  abbrev pub frames_at : List (Scope V) → List ℕ → List (Dict String V)
  frames_at heap [] = []
  frames_at heap (n ∷ ns) = variables_of (scope_at heap n) ∷ frames_at heap ns

  -- The variables of the entered scopes, innermost first.
  abbrev pub frames : ScopeManager V → List (Dict String V)
  frames m = frames_at m.all_scopes m.stack

  -- The innermost frame that has the variable.
  unfoldable pub find : List (Dict String V) → String → Option V
  find [] k = none
  find (d ∷ ds) k = or_parent (Dict.get d k) (find ds k)

  abbrev pub bind : List (Dict String V) → String → V → List (Dict String V)
  bind [] k v = []
  bind (d ∷ ds) k v = Dict.insert d k v ∷ ds

  abbrev pub outer : List (Dict String V) → List (Dict String V)
  outer [] = []
  outer (d ∷ ds) = ds

  -- A stack in which every scope's parent is the next one, entered earlier.
  pub data IsChain (heap : List (Scope V)) : List ℕ → Type ℓ where
    bottom : IsChain heap []
    entered :
        (n : ℕ) (ns : List ℕ) (s : Scope V)
        → scope_at heap n ≡ some s
        → s.parent ≡ top ns
        → ((j : ℕ) → top ns ≡ some j → j < n)
        → IsChain heap ns
        → IsChain heap (n ∷ ns)

  abbrev pub IsLinked : ScopeManager V → Type ℓ
  IsLinked m = IsChain m.all_scopes m.stack

  pub scope_at-append :
      (heap more : List (Scope V)) (n : ℕ) (s : Scope V)
      → scope_at heap n ≡ some s
      → (scope_at (heap ++ more) n ≡ some s) × (n < length heap)
  unfolding scope_at
  scope_at-append [] more n s e = absurd (cc)
  scope_at-append (x ∷ heap) more zero s e = (e, omega arith)
  scope_at-append (x ∷ heap) more (suc n) s e =
      let (f, l) = scope_at-append heap more n s e in (f, omega (arith, l))

  pub scope_at-snoc :
      (heap : List (Scope V)) (s : Scope V) → scope_at (heap ++ s ∷ []) (length heap) ≡ some s
  unfolding scope_at
  scope_at-snoc [] s = refl
  scope_at-snoc (x ∷ heap) s = scope_at-snoc heap s

  pub IsChain-append :
      (heap more : List (Scope V)) (ns : List ℕ) → IsChain heap ns → IsChain (heap ++ more) ns
  IsChain-append heap more _ bottom = bottom
  IsChain-append heap more _ (entered n ns s e p l c) =
      entered n ns s (scope_at-append heap more n s e).0 p l (IsChain-append heap more ns c)

  pub frames_at-append :
      (heap more : List (Scope V)) (ns : List ℕ)
      → IsChain heap ns
      → frames_at (heap ++ more) ns ≡ frames_at heap ns
  frames_at-append heap more _ bottom = refl
  frames_at-append heap more _ (entered n ns s e p l c) =
      ap₂ (λ d ds. variables_of d ∷ ds) ((scope_at-append heap more n s e).0 ∙ sym e)
        (frames_at-append heap more ns c)

  pub top-length :
      (heap : List (Scope V)) (ns : List ℕ) (j : ℕ)
      → IsChain heap ns
      → top ns ≡ some j
      → j < length heap
  top-length heap _ j bottom t = absurd (cc)
  top-length heap _ j (entered n ns s e p l c) t =
      subst (λ i. i < length heap) (cc) (scope_at-append heap [] n s e).1

  -- Reading through the parents, with fuel above the scope's position.
  pub scope_get-find :
      (heap : List (Scope V)) (ns : List ℕ) (fuel : ℕ) (k : String)
      → IsChain heap ns
      → ((j : ℕ) → top ns ≡ some j → j < fuel)
      → through (top ns) (λ n. scope_get fuel heap n k) ≡ find (frames_at heap ns) k
  unfolding scope_get find
  scope_get-find heap _ fuel k bottom b = refl
  scope_get-find heap _ zero k (entered n ns s e p l c) b = absurd (omega (arith, b n refl))
  scope_get-find heap _ (suc fuel) k (entered n ns s e p l c) b =
      rw (e, p)
        (ap (or_parent (Dict.get s.variables k))
          (scope_get-find heap ns fuel k c (λ j t. omega (arith, l j t, b n refl))))
