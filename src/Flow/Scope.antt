-- ===== src/Flow/Scope.antt =====
-- `Scope` and `ScopeManager`. Scopes are shared objects: the stack, the list of all scopes and the parents
-- refer to them. A reference is a position in the list of all scopes, which no operation shortens.
use smart_bench.Prelude.{
  ℕ, zero, suc, String, Option, none, some, List, [], ◌∷◌, ◌++◌, string_eq, length,
}
use smart_bench.Prelude.Dict.{Dict}
use smart_bench.Prelude.Dict

pub data ScopeType : Type 0 where
  module_scope function_scope block_scope class_scope : ScopeType

-- A scope; `location` is left out.
pub record Scope {ℓ} (V : Type ℓ) : Type ℓ where
  pub parent : Option ℕ
  pub variables : Dict String V
  pub scope_type : ScopeType
  pub name : Option String

-- The top of the stack first.
pub record ScopeManager {ℓ} (V : Type ℓ) : Type ℓ where
  pub stack : List ℕ
  pub all_scopes : List (Scope V)

abbrev pub top : List ℕ → Option ℕ
top [] = none
top (n ∷ ns) = some n

abbrev pub rest : List ℕ → List ℕ
rest [] = []
rest (n ∷ ns) = ns

module _ {ℓ} {V : Type ℓ} where
  unfoldable pub scope_at : List (Scope V) → ℕ → Option (Scope V)
  scope_at [] n = none
  scope_at (s ∷ ss) zero = some s
  scope_at (s ∷ ss) (suc n) = scope_at ss n

  -- `Scope.set` on the scope of a reference.
  abbrev pub with_variable : Scope V → String → V → Scope V
  with_variable s k v = record {
    parent = s.parent;
    variables = Dict.insert s.variables k v;
    scope_type = s.scope_type;
    name = s.name;
  }

  unfoldable pub set_at : List (Scope V) → ℕ → String → V → List (Scope V)
  set_at [] n k v = []
  set_at (s ∷ ss) zero k v = with_variable s k v ∷ ss
  set_at (s ∷ ss) (suc n) k v = s ∷ set_at ss n k v

  abbrev pub or_parent : Option V → Option V → Option V
  or_parent none up = up
  or_parent (some v) up = some v

  abbrev pub through : Option ℕ → (ℕ → Option V) → Option V
  through none look = none
  through (some n) look = look n

  abbrev pub read : Option (Scope V) → String → (ℕ → Option V) → Option V
  read none k look = none
  read (some s) k look = or_parent (Dict.get s.variables k) (through s.parent look)

  -- `Scope.get`: the scope's own variables, then its parent's.
  unfoldable pub scope_get : ℕ → List (Scope V) → ℕ → String → Option V
  scope_get zero heap n k = none
  scope_get (suc fuel) heap n k = read (scope_at heap n) k (λ j. scope_get fuel heap j k)

  abbrev pub empty_manager : ScopeManager V
  empty_manager = record { stack = []; all_scopes = [] }

  abbrev pub new_scope : Option ℕ → ScopeType → Option String → Scope V
  new_scope parent type name = record {
    parent = parent;
    variables = [];
    scope_type = type;
    name = name;
  }

  unfoldable pub enter_scope : ScopeManager V → ScopeType → Option String → ScopeManager V
  enter_scope m type name = record {
    stack = length m.all_scopes ∷ m.stack;
    all_scopes = m.all_scopes ++ new_scope (top m.stack) type name ∷ [];
  }

  unfoldable pub leave_scope : ScopeManager V → ScopeManager V
  leave_scope m = record { stack = rest m.stack; all_scopes = m.all_scopes }

  abbrev pub scope_depth : ScopeManager V → ℕ
  scope_depth m = length m.stack

  -- As much fuel as there are scopes.
  unfoldable pub get : ScopeManager V → String → Option V
  unfolding scope_get
  get m k = through (top m.stack) (λ n. scope_get (length m.all_scopes) m.all_scopes n k)

  abbrev pub set_top : List ℕ → List (Scope V) → String → V → List (Scope V)
  set_top [] scopes k v = scopes
  set_top (n ∷ ns) scopes k v = set_at scopes n k v

  -- With no current scope the call is ignored.
  unfoldable pub set : ScopeManager V → String → V → ScopeManager V
  unfolding set_at
  set m k v = record { stack = m.stack; all_scopes = set_top m.stack m.all_scopes k v }

  -- The first scope ever entered; with none the call is ignored.
  unfoldable pub set_global : ScopeManager V → String → V → ScopeManager V
  unfolding set_at
  set_global m k v = record { stack = m.stack; all_scopes = set_at m.all_scopes 0 k v }
