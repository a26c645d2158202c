-- ===== src/Search/Sound.antt =====
-- An answer of the loop is that of a state which the queue reaches.
use smart_bench.Prelude.{
  ℕ, zero, suc, ◌≡◌, true, Option, some, List, [], ◌∷◌, arith, Eq, contains, beq_refl, Option-cases,
  Bool-cases, inl, inr, or_cases,
}
use smart_bench.Search.Loop.{Reaches, here, step, Strategy, IsFair, search}

module _ {ℓ κ} {A : Type ℓ} {W : Type κ} ⦃e : Eq A⦄ {succ : A → List A} (s : Strategy A)
    (fair : IsFair succ s) (stop : A → Option W) where
  -- Some queued state reaches a state whose answer is `w`.
  abbrev pub Found : List A → W → Type (ℓ ⊔ κ)
  Found q w = (x : A) × (y : A) × (contains x q ≡ true) × Reaches succ x y × (stop y ≡ some w)

  skip-Found : (x : A) (q : List A) (w : W) → Found q w → Found (x ∷ q) w
  skip-Found x q w (a, b, m, r, h) = (a, b, ground arith, r, h)

  Found-here : (x : A) (q : List A) (w : W) → stop x ≡ some w → Found (x ∷ q) w
  Found-here x q w h = (x, x, ground (arith, beq_refl x), here, h)

  Found-next :
      (v : List A) (x : A) (q : List A) (w : W) → Found (s.join q (s.next v x)) w → Found (x ∷ q) w
  Found-next v x q w (a, b, m, r, h) =
      elim (or_cases (contains a q) (contains a (s.next v x))
        (ground (arith, fair.joins q (s.next v x) a))) [
          | inl old ↦ (a, b, ground arith, r, h)
          | inr new ↦ (x, b, ground (arith, beq_refl x), step (fair.sound v x a new) r, h)
        ]

  pub search_sound : (fuel : ℕ) (v q : List A) (w : W) → search s stop fuel v q ≡ some w → Found q w
  unfolding search
  search_sound fuel v [] w h = absurd (cc)
  search_sound zero v (x ∷ q) w h = elim (Bool-cases (contains x v)) [
    | inl old ↦ skip-Found x q w (search_sound zero v q w (ground arith))
    | inr new ↦ Found-here x q w (ground arith)
  ]
  search_sound (suc fuel) v (x ∷ q) w h = elim (Bool-cases (contains x v)) [
    | inl old ↦ skip-Found x q w (search_sound (suc fuel) v q w (ground arith))
    | inr new ↦ elim (Option-cases (stop x)) [
      | inl e ↦
          Found-next (x ∷ v) x q w
            (search_sound fuel (x ∷ v) (s.join q (s.next (x ∷ v) x)) w (ground arith))
      | inr (u, e) ↦ Found-here x q w (ground arith)
    ]
  ]
