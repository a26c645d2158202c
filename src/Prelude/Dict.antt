-- ===== src/Prelude/Dict.antt =====
-- A Python dictionary: keys in the order of their first insertion, each with its latest value.
use mathlib.Core.Path.{◌≡◌, refl, sym, ap, ◌∙◌}
use mathlib.Core.Bool.{Bool, true, false}
use mathlib.Core.List.{List, [], ◌∷◌, ◌++◌}
use mathlib.Core.Option.{Option, none, some}
use mathlib.Core.Option
use native.Mathlib.Omega.{arith}
use smart_bench.Prelude.Tests.{if◌then◌else◌}
use smart_bench.Prelude.Classes.{Eq, ◌==◌}
use smart_bench.Prelude.Lists.{contains}

abbrev pub Dict {ℓ κ} : Type ℓ → Type κ → Type (ℓ ⊔ κ)
Dict K V = List (K × V)

abbrev pub or_default {κ} : {V : Type κ} → Option V → V → V
or_default none v = v
or_default (some w) v = w

module _ {ℓ κ} {K : Type ℓ} {V : Type κ} ⦃e : Eq K⦄ where
  unfoldable pub get : Dict K V → K → Option V
  get [] k = none
  get ((j, v) ∷ d) k = if j == k then some v else get d k

  unfoldable pub insert : Dict K V → K → V → Dict K V
  insert [] k v = (k, v) ∷ []
  insert ((j, w) ∷ d) k v = if j == k then (j, v) ∷ d else (j, w) ∷ insert d k v

  unfoldable pub get_or : Dict K V → K → V → V
  get_or d k v = or_default (get d k) v

  unfoldable pub has_key : Dict K V → K → Bool
  has_key [] k = false
  has_key ((j, v) ∷ d) k = if j == k then true else has_key d k

  abbrev pub keys : Dict K V → List K
  keys [] = []
  keys ((j, v) ∷ d) = j ∷ keys d

  abbrev pub values : Dict K V → List V
  values [] = []
  values ((j, v) ∷ d) = v ∷ values d

  -- Reading after a write: the new value at the key, the old dictionary elsewhere.
  pub get-insert :
      (d : Dict K V) (k j : K) (v : V) → get (insert d k v) j ≡ (if k == j then some v else get d j)
  unfolding get insert
  get-insert [] k j v = refl
  get-insert ((i, w) ∷ d) k j v =
      ground (arith, e.same_iff i k, e.same_iff i j, e.same_iff k j, get-insert d k j v)

  pub get_or-insert :
      (d : Dict K V) (k j : K) (v w : V)
      → get_or (insert d k v) j w ≡ (if k == j then v else get_or d j w)
  unfolding get_or
  get_or-insert d k j v w = ground (arith, get-insert d k j v)

  -- A write adds its key at the end, unless the key is there.
  pub keys-insert :
      (d : Dict K V) (k : K) (v : V)
      → keys (insert d k v) ≡ (if has_key d k then keys d else keys d ++ k ∷ [])
  unfolding insert has_key
  keys-insert [] k v = refl
  keys-insert ((i, w) ∷ d) k v = ground (arith, e.same_iff i k, keys-insert d k v)

module _ {ℓ κ μ} {K : Type ℓ} {V : Type κ} {W : Type μ} ⦃e : Eq K⦄ where
  abbrev pub map_values : (V → W) → Dict K V → Dict K W
  map_values f [] = []
  map_values f ((j, v) ∷ d) = (j, f v) ∷ map_values f d

  pub get-map_values :
      (f : V → W) (d : Dict K V) (k : K) → get (map_values f d) k ≡ Option.map f (get d k)
  unfolding get
  get-map_values f [] k = refl
  get-map_values f ((j, v) ∷ d) k = ground (arith, get-map_values f d k)

abbrev pub is_some {κ} : {V : Type κ} → Option V → Bool
is_some none = false
is_some (some v) = true

module _ {ℓ κ} {K : Type ℓ} {V : Type κ} ⦃e : Eq K⦄ where
  -- The keys are those at which reading gives a value.
  pub is_some-get : (d : Dict K V) (k : K) → is_some (get d k) ≡ contains k (keys d)
  unfolding get
  is_some-get [] k = refl
  is_some-get ((j, v) ∷ d) k = ground (arith, e.same_iff j k, e.same_iff k j, is_some-get d k)

  pub has_key-get : (d : Dict K V) (k : K) → has_key d k ≡ is_some (get d k)
  unfolding get has_key
  has_key-get [] k = refl
  has_key-get ((j, v) ∷ d) k = ground (arith, has_key-get d k)

  -- Reading after writing a key that is new in a list of distinct keys.
  pub insert-new :
      (d : Dict K V) (k : K) (v : V) → has_key d k ≡ false → insert d k v ≡ d ++ (k, v) ∷ []
  unfolding insert has_key
  insert-new [] k v h = refl
  insert-new ((j, w) ∷ d) k v h = ground (arith, insert-new d k v)

  pub keys-append : (d f : Dict K V) → keys (d ++ f) ≡ keys d ++ keys f
  keys-append [] f = refl
  keys-append ((j, v) ∷ d) f = ap (λ ks. j ∷ ks) (keys-append d f)

  pub has_key-keys : (d : Dict K V) (k : K) → has_key d k ≡ contains k (keys d)
  has_key-keys d k = has_key-get d k ∙ is_some-get d k

  pub has_key-insert :
      (d : Dict K V) (k j : K) (v : V)
      → has_key (insert d k v) j ≡ (if k == j then true else has_key d j)
  has_key-insert d k j v =
      has_key-get (insert d k v) j ∙ ap is_some (get-insert d k j v) ∙ by_key (k == j)
    where
      by_key :
          (b : Bool) → is_some (if b then some v else get d j) ≡ (if b then true else has_key d j)
      by_key true = refl
      by_key false = sym (has_key-get d j)
