-- ===== src/Sharding/Plan/Moves.antt =====
-- What a round of the loop that merges groups does to the groups in smartbench/sharding/plan.py.
use smart_bench.Prelude.{
  suc, String, ◌≡◌, refl, Bool, true, false, ◌||◌, List, [], ◌∷◌, ◌++◌, ◌==◌, string_eq, length,
  unique, unique-snoc, arith, ◌∙◌, ap, if◌then◌else◌,
}
use smart_bench.Prelude.Dict
use smart_bench.Prelude.Dict.{Dict}
use smart_bench.Sharding.Plan.Build.{Groups, smallest, remove, extend, carry, misc}

has_key-append :
    (d f : Groups) (k : String) → Dict.has_key (d ++ f) k ≡ (Dict.has_key d k || Dict.has_key f k)
unfolding Dict.has_key
has_key-append [] f k = refl
has_key-append ((j, v) ∷ d) f k = ground (arith, has_key-append d f k)

insert-append :
    (d f : Groups) (k : String) (v : List String)
    → Dict.has_key d k ≡ false
    → Dict.insert (d ++ f) k v ≡ d ++ Dict.insert f k v
unfolding Dict.insert Dict.has_key
insert-append [] f k v h = refl
insert-append ((j, w) ∷ d) f k v h = ground (arith, insert-append d f k v)

get_or-append :
    (d f : Groups) (k : String)
    → Dict.has_key d k ≡ false
    → Dict.get_or (d ++ f) k [] ≡ Dict.get_or f k []
unfolding Dict.get_or Dict.get Dict.has_key
get_or-append [] f k h = refl
get_or-append ((j, w) ∷ d) f k h = ground (arith, get_or-append d f k)

pub length-insert :
    (d : Groups) (k : String) (v : List String)
    → length (Dict.insert d k v) ≡ (if Dict.has_key d k then length d else suc (length d))
unfolding Dict.insert Dict.has_key
length-insert [] k v = refl
length-insert ((j, w) ∷ d) k v = ground (arith, length-insert d k v)

remove-append_left :
    (d f : Groups) (k : String) → Dict.has_key d k ≡ true → remove (d ++ f) k ≡ remove d k ++ f
unfolding remove Dict.has_key
remove-append_left [] f k h = ground arith
remove-append_left ((j, w) ∷ d) f k h = ground (arith, remove-append_left d f k)

remove-append_right :
    (d f : Groups) (k : String) → Dict.has_key d k ≡ false → remove (d ++ f) k ≡ d ++ remove f k
unfolding remove Dict.has_key
remove-append_right [] f k h = refl
remove-append_right ((j, w) ∷ d) f k h = ground (arith, remove-append_right d f k)

pub has_key-remove :
    (d : Groups) (k j : String) → Dict.has_key d j ≡ false → Dict.has_key (remove d k) j ≡ false
unfolding remove Dict.has_key
has_key-remove [] k j h = refl
has_key-remove ((i, w) ∷ d) k j h = ground (arith, has_key-remove d k j)

pub length-remove :
    (d : Groups) (k : String) → Dict.has_key d k ≡ true → suc (length (remove d k)) ≡ length d
unfolding remove Dict.has_key
length-remove [] k h = ground arith
length-remove ((j, w) ∷ d) k h = ground (arith, length-remove d k)

pub unique-remove :
    (d : Groups) (k : String) → unique (Dict.keys d) ≡ true → unique (Dict.keys (remove d k)) ≡ true
unfolding remove
unique-remove [] k h = refl
unique-remove ((j, w) ∷ d) k h = ground (
  arith,
  has_key-remove d k j,
  Dict.has_key-keys d j,
  Dict.has_key-keys (remove d k) j,
  unique-remove d k,
)

pub unique-insert :
    (d : Groups) (k : String) (v : List String)
    → unique (Dict.keys d) ≡ true
    → unique (Dict.keys (Dict.insert d k v)) ≡ true
unique-insert d k v h =
    ap unique (Dict.keys-insert d k v)
    ∙ ground (arith, unique-snoc k (Dict.keys d), Dict.has_key-keys d k)

-- The group taken out is one of the groups.
pub has_key-smallest :
    (g : String × List String) (d : Groups) → Dict.has_key (g ∷ d) (smallest g d) ≡ true
unfolding smallest Dict.has_key
has_key-smallest g [] = ground (arith, string_eq.same_iff g.0 g.0)
has_key-smallest g (h ∷ d) = by_test _ (has_key-smallest g d) (has_key-smallest h d)
  where
    by_test :
        (b : Bool)
        → Dict.has_key (g ∷ d) (smallest g d) ≡ true
        → Dict.has_key (h ∷ d) (smallest h d) ≡ true
        → Dict.has_key (g ∷ h ∷ d) (smallest (if b then h else g) d) ≡ true
    by_test true e f = ground arith
    by_test false e f = ground arith

-- A round with `misc` last, where it takes out `misc`, and where it takes out another group.
pub carry_last :
    (d : Groups) (v : List String)
    → Dict.has_key d misc ≡ false
    → carry (d ++ (misc, v) ∷ []) misc ≡ d ++ (misc, v) ∷ []
unfolding carry extend remove Dict.insert Dict.get_or Dict.get
carry_last d v h =
    let x = d ++ (misc, v) ∷ [] in
    ap (λ r. Dict.insert r misc (Dict.get_or r misc [] ++ Dict.get_or x misc []))
      (remove-append_right d ((misc, v) ∷ []) misc h)
    ∙ (insert-append d [] misc _ h
        ∙ (ap (λ w. d ++ (misc, w ++ Dict.get_or x misc []) ∷ []) (get_or-append d [] misc h)
            ∙ ap (λ w. d ++ (misc, w) ∷ []) (get_or-append d ((misc, v) ∷ []) misc h)))

pub carry_other :
    (d : Groups) (v : List String) (s : String)
    → Dict.has_key d misc ≡ false
    → Dict.has_key d s ≡ true
    → carry (d ++ (misc, v) ∷ []) s
      ≡ remove d s ++ (misc, v ++ Dict.get_or (d ++ (misc, v) ∷ []) s []) ∷ []
unfolding carry extend Dict.insert Dict.get_or Dict.get
carry_other d v s h k =
    let files = Dict.get_or (d ++ (misc, v) ∷ []) s [] in
    let last = has_key-remove d s misc h in
    ap (λ r. Dict.insert r misc (Dict.get_or r misc [] ++ files))
      (remove-append_left d ((misc, v) ∷ []) s k)
    ∙ (insert-append (remove d s) ((misc, v) ∷ []) misc _ last
        ∙ ap (λ w. remove d s ++ (misc, w ++ files) ∷ [])
            (get_or-append (remove d s) ((misc, v) ∷ []) misc last))

-- A round where `misc` is not left puts it last.
pub carry_new :
    (d : Groups) (s : String)
    → Dict.has_key (remove d s) misc ≡ false
    → carry d s ≡ remove d s ++ (misc, Dict.get_or (remove d s) misc [] ++ Dict.get_or d s []) ∷ []
unfolding carry extend
carry_new d s h = Dict.insert-new (remove d s) misc _ h

-- A key of groups with `misc` last that is not `misc`.
pub has_key-other :
    (d : Groups) (v : List String) (s : String)
    → Dict.has_key (d ++ (misc, v) ∷ []) s ≡ true
    → s == misc ≡ false
    → Dict.has_key d s ≡ true
unfolding Dict.has_key
has_key-other d v s h e = ground (
  arith,
  has_key-append d ((misc, v) ∷ []) s,
  string_eq.same_iff misc s,
  string_eq.same_iff s misc,
)
