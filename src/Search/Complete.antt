-- ===== src/Search/Complete.antt =====
-- With enough fuel, a loop without an answer has seen every state that the queue reaches.
use smart_bench.Prelude.{
  ℕ, zero, suc, ◌≡◌, ◌≤◌, true, ◌||◌, Option, none, List, [], ◌∷◌, arith, Eq, contains, beq_refl,
  beq→eq, Option-cases, Bool-cases, inl, inr, or_cases, subst, length,
}
use smart_bench.Search.Loop.{Reaches, here, step, Strategy, IsFair, search}
use smart_bench.Search.Fuel.{remaining, remaining-lt, remaining-le_length}

module _ {ℓ κ} {A : Type ℓ} {W : Type κ} ⦃e : Eq A⦄ {succ : A → List A} (s : Strategy A)
    (fair : IsFair succ s) (stop : A → Option W) where
  abbrev IsSeen : List A → List A → A → Type 0
  IsSeen v q y = (contains y v || contains y q) ≡ true

  -- A visited state has no answer, and its successors are visited or queued.
  record IsClosed (v q : List A) : Type (ℓ ⊔ κ) where
    silent : (x : A) → contains x v ≡ true → stop x ≡ none
    closed : (x y : A) → contains x v ≡ true → contains y (succ x) ≡ true → IsSeen v q y

  drop-IsSeen :
      (v : List A) (x : A) (q : List A) (y : A)
      → contains x v ≡ true
      → IsSeen v (x ∷ q) y
      → IsSeen v q y
  drop-IsSeen v x q y m h = ground (arith, e.same_iff y x)

  drop-IsClosed :
      (v : List A) (x : A) (q : List A) → contains x v ≡ true → IsClosed v (x ∷ q) → IsClosed v q
  drop-IsClosed v x q m c = record {
    silent = c.silent;
    closed = λ a b ha hb. drop-IsSeen v x q b m (c.closed a b ha hb);
  }

  move-IsSeen :
      (v : List A) (x : A) (q : List A) (y : A)
      → IsSeen v (x ∷ q) y
      → IsSeen (x ∷ v) (s.join q (s.next (x ∷ v) x)) y
  move-IsSeen v x q y h = ground (arith, fair.joins q (s.next (x ∷ v) x) y)

  next-IsSeen :
      (v : List A) (x : A) (q : List A) (y : A)
      → contains y (succ x) ≡ true
      → IsSeen (x ∷ v) (s.join q (s.next (x ∷ v) x)) y
  next-IsSeen v x q y h =
      ground (arith, fair.joins q (s.next (x ∷ v) x) y, fair.complete (x ∷ v) x y h)

  expand-IsClosed :
      (v : List A) (x : A) (q : List A)
      → stop x ≡ none
      → IsClosed v (x ∷ q)
      → IsClosed (x ∷ v) (s.join q (s.next (x ∷ v) x))
  expand-IsClosed v x q quiet c = record {
    silent = λ a h. elim (Bool-cases (contains a v)) [
      | inl old ↦ c.silent a old
      | inr new ↦ ground (arith, e.same_iff a x)
    ];
    closed = λ a b ha hb. elim (Bool-cases (contains a v)) [
      | inl old ↦ move-IsSeen v x q b (c.closed a b old hb)
      | inr new ↦
          next-IsSeen v x q b
            (subst (λ z. contains b (succ z) ≡ true) (beq→eq a x (ground arith)) hb)
    ];
  }

  -- Nothing that a visited state reaches has an answer, if the queue is empty.
  closed_silent :
      (v : List A)
      → IsClosed v []
      → {x y : A} → contains x v ≡ true
      → Reaches succ x y
      → stop y ≡ none
  closed_silent v c m here = c.silent _ m
  closed_silent v c m (step h r) = closed_silent v c (ground (arith, c.closed _ _ m h)) r

  module _ (nodes : List A)
      (inside : (x y : A)
        → contains x nodes ≡ true
        → contains y (succ x) ≡ true
        → contains y nodes ≡ true) where
    abbrev Within : List A → Type ℓ
    Within q = (y : A) → contains y q ≡ true → contains y nodes ≡ true

    Within-tail : (x : A) (q : List A) → Within (x ∷ q) → Within q
    Within-tail x q h y m = h y (ground arith)

    Within-next :
        (v : List A) (x : A) (q : List A) → Within (x ∷ q) → Within (s.join q (s.next v x))
    Within-next v x q h y m =
        elim (or_cases (contains y q) (contains y (s.next v x))
          (ground (arith, fair.joins q (s.next v x) y))) [
            | inl old ↦ h y (ground arith)
            | inr new ↦ inside x y (h x (ground (arith, beq_refl x))) (fair.sound v x y new)
          ]

    search_closed :
        (fuel : ℕ) (v q : List A)
        → remaining nodes v ≤ fuel
        → Within q
        → IsClosed v q
        → search s stop fuel v q ≡ none
        → {x y : A} → IsSeen v q x
        → Reaches succ x y
        → stop y ≡ none
    unfolding search
    search_closed fuel v [] f w c h m r = closed_silent v c (ground arith) r
    search_closed zero v (x ∷ q) f w c h m r = elim (Bool-cases (contains x v)) [
      | inl old ↦
          search_closed zero v q f (Within-tail x q w) (drop-IsClosed v x q old c) (ground arith)
            (drop-IsSeen v x q _ old m) r
      | inr new ↦
          absurd (omega (arith, remaining-lt nodes x v (w x (ground (arith, beq_refl x))) new))
    ]
    search_closed (suc fuel) v (x ∷ q) f w c h m r = elim (Bool-cases (contains x v)) [
      | inl old ↦
          search_closed (suc fuel) v q f (Within-tail x q w) (drop-IsClosed v x q old c)
            (ground arith) (drop-IsSeen v x q _ old m) r
      | inr new ↦ elim (Option-cases (stop x)) [
        | inl quiet ↦
            search_closed fuel (x ∷ v) (s.join q (s.next (x ∷ v) x))
              (omega (arith, remaining-lt nodes x v (w x (ground (arith, beq_refl x))) new))
              (Within-next (x ∷ v) x q w) (expand-IsClosed v x q quiet c) (ground arith)
              (move-IsSeen v x q _ m) r
        | inr (u, hit) ↦ absurd (ground arith)
      ]
    ]

    -- From an empty set of visited states.
    pub search_complete :
        (q : List A) (fuel : ℕ)
        → length nodes ≤ fuel
        → Within q
        → search s stop fuel [] q ≡ none
        → (x y : A) → contains x q ≡ true
        → Reaches succ x y
        → stop y ≡ none
    search_complete q fuel f w h x y m r =
        search_closed fuel [] q (omega (arith, remaining-le_length nodes [])) w
          (record { silent = λ a k. absurd (cc); closed = λ a b k l. absurd (cc) }) h m r
