-- ===== src/Prelude/Entries.antt =====
-- The entries of a dictionary whose keys are distinct.
use mathlib.Core.Path.{◌≡◌, refl, sym, ap₂, subst}
use mathlib.Core.Bool.{Bool, true, false}
use mathlib.Core.List.{[], ◌∷◌, map}
use mathlib.Core.Option.{some}
use native.Mathlib.Omega.{arith}
use smart_bench.Prelude.Tests.{if◌then◌else◌}
use smart_bench.Prelude.Classes.{Eq, ◌==◌, beq_refl}
use smart_bench.Prelude.Lists.{contains, unique}
use smart_bench.Prelude.Members.{IsIn, here, there}
use smart_bench.Prelude.Dict.{Dict, get, keys, values}

module _ {ℓ κ} {K : Type ℓ} {V : Type κ} ⦃e : Eq K⦄ where
  contains-IsIn : (d : Dict K V) (k : K) (v : V) → IsIn (k, v) d → contains k (keys d) ≡ true
  contains-IsIn [] k v m = elim m [ ]
  contains-IsIn ((_, _) ∷ d) k v here = rw (beq_refl k) refl
  contains-IsIn ((j, w) ∷ d) k v (there m) = ground (arith, contains-IsIn d k v m)

  -- An entry is read back at its key.
  pub get-IsIn :
      (d : Dict K V) (k : K) (v : V) → unique (keys d) ≡ true → IsIn (k, v) d → get d k ≡ some v
  unfolding get
  get-IsIn [] k v u m = elim m [ ]
  get-IsIn ((_, _) ∷ d) k v u here = rw (beq_refl k) refl
  get-IsIn ((j, w) ∷ d) k v u (there m) =
      ground (arith, get-IsIn d k v, contains-IsIn d k v m, e.same_iff j k, e.same_iff k j)

  -- What is read is a value.
  pub IsIn-get : (d : Dict K V) (k : K) (v : V) → get d k ≡ some v → IsIn v (values d)
  unfolding get
  IsIn-get [] k v h = absurd (cc)
  IsIn-get ((j, w) ∷ d) k v h = by_key (j == k) h (IsIn-get d k v)
    where
      by_key :
          (b : Bool)
          → (if b then some w else get d k) ≡ some v
          → (get d k ≡ some v → IsIn v (values d))
          → IsIn v (w ∷ values d)
      by_key true p f = subst (λ x. IsIn v (x ∷ values d)) (sym (cc)) here
      by_key false p f = there (f p)

  -- A value is an entry's.
  pub IsIn-values : (d : Dict K V) (v : V) → IsIn v (values d) → (k : K) × IsIn (k, v) d
  IsIn-values [] v m = elim m [ ]
  IsIn-values ((k, _) ∷ d) v here = (k, here)
  IsIn-values ((j, w) ∷ d) v (there m) = let (k, i) = IsIn-values d v m in (k, there i)

  -- Where the values tell their keys, the keys are read off them.
  pub map-values :
      (f : V → K) (d : Dict K V)
      → ((k : K) (v : V) → IsIn (k, v) d → f v ≡ k)
      → map f (values d) ≡ keys d
  map-values f [] h = refl
  map-values f ((k, v) ∷ d) h =
      ap₂ (λ x xs. x ∷ xs) (h k v here) (map-values f d (λ j w m. h j w (there m)))
