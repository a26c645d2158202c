-- ===== src/ControlFlow/Reach/Cache.antt =====
-- `_reachability_cache`: the answers given so far, by the pair of operations asked about.
use smart_bench.Prelude.{
  String, ◌≡◌, refl, Bool, none, some, List, [], ◌∷◌, arith, string_eq, pair_eq, Option-cases, inl,
  inr, beq→eq, ◌==◌, Bool-cases, map, ap₂,
}
use smart_bench.Prelude.Dict.{Dict}
use smart_bench.Prelude.Dict
use smart_bench.ControlFlow.Graph.{ControlFlowGraph}
use smart_bench.ControlFlow.Reach.Loop.{reachable}

abbrev pub ReachabilityCache : Type 0
ReachabilityCache = Dict (String × String) Bool

-- `cached = self._reachability_cache.get(key)`, else compute and store.
unfoldable pub cached_reachable :
    ControlFlowGraph → ReachabilityCache → String × String → Bool × ReachabilityCache
cached_reachable g cache key = elim (Dict.get cache key) [
  | some answer ↦ (answer, cache)
  | none ↦ (reachable g key.0 key.1, Dict.insert cache key (reachable g key.0 key.1))
]

-- The answers to a sequence of queries, each with the cache that the earlier ones left.
unfoldable pub ask_all : ControlFlowGraph → ReachabilityCache → List (String × String) → List Bool
unfolding cached_reachable
ask_all g cache [] = []
ask_all g cache (key ∷ keys) =
    (cached_reachable g cache key).0 ∷ ask_all g (cached_reachable g cache key).1 keys

-- Every stored answer is the one that would be computed.
pub record IsSound (g : ControlFlowGraph) (cache : ReachabilityCache) : Type 0 where
  pub at :
      (key : String × String) (answer : Bool)
      → Dict.get cache key ≡ some answer
      → answer ≡ reachable g key.0 key.1

module _ (g : ControlFlowGraph) where
  cached-eq :
      (cache : ReachabilityCache) (key : String × String)
      → IsSound g cache
      → (cached_reachable g cache key).0 ≡ reachable g key.0 key.1
  unfolding cached_reachable
  cached-eq cache key h = elim (Option-cases (Dict.get cache key)) [
    | inl e ↦ rw (e, cached_reachable) refl
    | inr (a, e) ↦ rw (e, cached_reachable) (h.at key a e)
  ]

  cached-IsSound :
      (cache : ReachabilityCache) (key : String × String)
      → IsSound g cache
      → IsSound g (cached_reachable g cache key).1
  unfolding cached_reachable
  cached-IsSound cache key h = elim (Option-cases (Dict.get cache key)) [
    | inl e ↦ rw (e, cached_reachable) (record { at = λ k a p. stored k a p })
    | inr (a, e) ↦ rw (e, cached_reachable) h
  ]
    where
      stored :
          (k : String × String) (a : Bool)
          → Dict.get (Dict.insert cache key (reachable g key.0 key.1)) k ≡ some a
          → a ≡ reachable g k.0 k.1
      stored k a p = ground (
        arith,
        Dict.get-insert cache key k (reachable g key.0 key.1),
        h.at k a,
        beq→eq key k,
        Bool-cases (key == k),
      )

  -- From any sound cache, the empty one for instance, a sequence of queries gets the answers of the
  -- uncached query, in order, whatever pairs repeat.
  pub ask_all-map :
      (cache : ReachabilityCache) (keys : List (String × String))
      → IsSound g cache
      → ask_all g cache keys ≡ map (λ key. reachable g key.0 key.1) keys
  unfolding ask_all
  ask_all-map cache [] h = refl
  ask_all-map cache (key ∷ keys) h =
      ap₂ ◌∷◌ (cached-eq cache key h)
        (ask_all-map (cached_reachable g cache key).1 keys (cached-IsSound cache key h))
