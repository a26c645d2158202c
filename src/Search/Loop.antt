-- ===== src/Search/Loop.antt =====
-- The loop, and the relation that it decides.
use smart_bench.Prelude.{
  ℕ, zero, suc, ◌≡◌, true, ◌||◌, Option, none, some, List, [], ◌∷◌, Eq, contains, if◌then◌else◌,
}

-- A sequence of edges, possibly empty.
pub data Reaches {ℓ} {A : Type ℓ} ⦃e : Eq A⦄ (succ : A → List A) : A → A → Type ℓ where
  here : {a : A} → Reaches succ a a
  step : {a b c : A} → contains b (succ a) ≡ true → Reaches succ b c → Reaches succ a c

-- How a loop adds to its queue: `next` gives what it adds on expanding a state, given the visited
-- states, and `join` where.
pub record Strategy {ℓ} (A : Type ℓ) : Type ℓ where
  pub next : List A → A → List A
  pub join : List A → List A → List A

module _ {ℓ} {A : Type ℓ} ⦃e : Eq A⦄ where
  -- What is added are successors, and every successor is added unless it is visited.
  pub record IsFair (succ : A → List A) (s : Strategy A) : Type ℓ where
    pub sound : (v : List A) (x y : A) → contains y (s.next v x) ≡ true → contains y (succ x) ≡ true
    pub complete :
        (v : List A) (x y : A)
        → contains y (succ x) ≡ true
        → (contains y (s.next v x) || contains y v) ≡ true
    pub joins : (q n : List A) (y : A) → contains y (s.join q n) ≡ (contains y q || contains y n)

module _ {ℓ κ} {A : Type ℓ} {W : Type κ} ⦃e : Eq A⦄ (s : Strategy A) (stop : A → Option W) where
  -- A visited state is dropped; any other answers, or is marked and expanded.
  unfoldable pub search : ℕ → List A → List A → Option W
  search fuel visited [] = none
  search zero visited (x ∷ queue) =
      let rest = search zero visited queue in if contains x visited then rest else stop x
  search (suc fuel) visited (x ∷ queue) =
      let rest = search (suc fuel) visited queue in
      let marked = x ∷ visited in
      let deeper = search fuel marked (s.join queue (s.next marked x)) in
      if contains x visited then rest else elim (stop x) [ some w ↦ some w | none ↦ deeper ]
