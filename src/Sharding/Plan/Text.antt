-- ===== src/Sharding/Plan/Text.antt =====
-- `_normalize`, `_skipped` and `_group_key`. Python's `str.strip` and the decimal form of a number are parameters.
use Prim.Native.String.{String, ◌++◌, ◌∷◌ as ◌▹◌}
use Prim.Native.Char.{Char, code}
use smart_bench.Prelude.{
  ℕ, Bool, false, ◌&&◌, ◌||◌, List, [], ◌∷◌, any, contains, string_eq, eqb, if◌then◌else◌,
}

pub record PathText : Type 0 where
  pub strip : String → String
  pub decimal : ℕ → String

abbrev is_slash : Char → Bool
is_slash c = eqb (code c) 47

abbrev is_dot : Char → Bool
is_dot c = eqb (code c) 46

-- `text.replace("\\", "/")`
unfoldable pub to_slashes : String → String
to_slashes String.[] = String.[]
to_slashes (c ▹ s) = if eqb (code c) 92 then "/" ++ to_slashes s else c ▹ to_slashes s

-- `while text.startswith("./"): text = text[2:]`
unfoldable pub drop_dots : String → String
drop_dots String.[] = String.[]
drop_dots (c ▹ String.[]) = c ▹ String.[]
drop_dots (c ▹ d ▹ s) = let rest = drop_dots s in if is_dot c && is_slash d then rest else c ▹ d ▹ s

unfoldable pub normalize : PathText → String → String
unfolding to_slashes drop_dots
normalize pt path = drop_dots (pt.strip (to_slashes path))

unfoldable pub has_slash : String → Bool
has_slash String.[] = false
has_slash (c ▹ s) = is_slash c || has_slash s

-- `text.split("/", 1)[0]`
unfoldable pub before_slash : String → String
before_slash String.[] = String.[]
before_slash (c ▹ s) = if is_slash c then String.[] else c ▹ before_slash s

abbrev put_first : Char → List String → List String
put_first c [] = (c ▹ String.[]) ∷ []
put_first c (part ∷ parts) = (c ▹ part) ∷ parts

-- `text.split("/")`
unfoldable pub split_slash : String → List String
split_slash String.[] = String.[] ∷ []
split_slash (c ▹ s) = if is_slash c then String.[] ∷ split_slash s else put_first c (split_slash s)

abbrev pub skip_parts : List String
skip_parts =
    ".git" ∷ ".smartbench" ∷ ".venv" ∷ "venv" ∷ "node_modules" ∷ "__pycache__" ∷ "target" ∷ "build"
    ∷ "dist" ∷ []

unfoldable pub skipped : PathText → String → Bool
unfolding normalize split_slash
skipped pt path = any (λ part. contains part skip_parts) (split_slash (normalize pt path))

unfoldable pub group_key : String → String
unfolding has_slash before_slash
group_key path = if has_slash path then before_slash path else "root"

-- `f"{group}:{index}"`
abbrev pub numbered : PathText → String → ℕ → String
numbered pt group index = group ++ (":" ++ pt.decimal index)
