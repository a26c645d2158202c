-- ===== src/Consent/Reached.antt =====
-- Sequences of the operations of smartbench/consent/queue.py, and one staging.
use smart_bench.Prelude.{
  String, ◌≡◌, ◌≢◌, ◌⊎◌, inl, inr, refl, sym, ap, subst, ◌∙◌, Bool, true, false, Option, none, some,
  List, [], ◌∷◌, ◌==◌, string_eq, nat_eq, contains, unique, all, map, if◌then◌else◌, IsIn,
  ne→beq_false, beq_false→ne, beq→eq, and_left, and_right, and_intro,
}
use smart_bench.Prelude.Dict
use smart_bench.Ir.Values.{PyText}
use smart_bench.Consent.Queue.{
  Request, count_slashes, repository_key, is_request_for, new_request, staged, change_or_add,
  value_error, written, stage, Changes, changed, change_first, update_request,
}
use smart_bench.Consent.Staged.{
  unique-add_id, contains-add_id, has_distinct_ids, IsQueue, IsQueue-change_or_add,
  IsIn-change_or_add, others-change_or_add, from-change_or_add,
}

-- Changes that, where they replace the trajectories of a request, name none twice.
abbrev pub AreDistinct : Changes → Type 0
AreDistinct c = (ids : List String) → c.trajectory_ids ≡ some ids → unique ids ≡ true

-- The queues that stagings and such updates make of the empty one.
pub data Reached (py : PyText) : List Request → Type 0 where
  empty : Reached py []
  staging :
      {q q' : List Request} {r : Request} (stamp repository id name : String)
      → stage py stamp repository id name q ≡ written q' r
      → Reached py q
      → Reached py q'
  updating :
      {q q' : List Request} {r : Request} (stamp repository : String) (c : Changes)
      → AreDistinct c
      → update_request py stamp repository c q ≡ some (q', r)
      → Reached py q
      → Reached py q'

module _ (py : PyText) (stamp repository : String) (c : Changes) (d : AreDistinct c) where
  changed-distinct :
      (r : Request) → has_distinct_ids r ≡ true → has_distinct_ids (changed stamp c r) ≡ true
  changed-distinct r = by_ids c.trajectory_ids refl
    where
      by_ids :
          (o : Option (List String))
          → c.trajectory_ids ≡ o
          → has_distinct_ids r ≡ true
          → unique (Dict.or_default o r.trajectory_ids) ≡ true
      by_ids none e h = h
      by_ids (some ids) e h = d ids e

  -- What an update that writes keeps of a list.
  abbrev Keeps : List Request → List Request → Type 0
  Keeps q q' =
      (map (repository_key py) q' ≡ map (repository_key py) q)
      × (all has_distinct_ids q ≡ true → all has_distinct_ids q' ≡ true)

  change_first-Keeps :
      (q : List Request) (p : List Request × Request)
      → change_first (is_request_for py repository) (changed stamp c) q ≡ some p
      → Keeps q p.0
  unfolding change_first
  change_first-Keeps [] p f = absurd (cc)
  change_first-Keeps (r ∷ q) p f =
      by_hit (is_request_for py repository r)
        (change_first (is_request_for py repository) (changed stamp c) q) f
        (λ s e. change_first-Keeps q s e)
    where
      first : Option (List Request × Request) → List Request
      first none = []
      first (some s) = s.0

      list_of : {s : List Request × Request} → some s ≡ some p → s.0 ≡ p.0
      list_of g = ap first g

      by_hit :
          (b : Bool) (rest : Option (List Request × Request))
          → (if b
              then some (changed stamp c r ∷ q, changed stamp c r)
              else elim rest [ none ↦ none | some s ↦ some (r ∷ s.0, s.1) ])
            ≡ some p
          → ((s : List Request × Request) → rest ≡ some s → Keeps q s.0)
          → Keeps (r ∷ q) p.0
      by_hit true rest g h =
          subst (λ t. Keeps (r ∷ q) t) {x = changed stamp c r ∷ q} {y = p.0} (list_of g)
            (
              refl,
              λ a.
                  and_intro (changed-distinct r (and_left _ _ a))
                    (and_right (has_distinct_ids r) _ a),
            )
      by_hit false none g h = absurd (cc)
      by_hit false (some s) g h =
          subst (λ t. Keeps (r ∷ q) t) {x = r ∷ s.0} {y = p.0} (list_of g)
            (
              ap (λ ks. repository_key py r ∷ ks) (h s refl).0,
              λ a. and_intro (and_left _ _ a) ((h s refl).1 (and_right (has_distinct_ids r) _ a)),
            )

module _ (py : PyText) (stamp repository id project_name : String) (q : List Request) where
  abbrev staged_list : List Request × Request
  staged_list =
      change_or_add (is_request_for py (py.strip repository)) (staged stamp id project_name)
        (new_request stamp (py.strip repository) project_name) q

  staged_list-IsQueue : IsQueue py q → IsQueue py staged_list.0
  staged_list-IsQueue h =
      IsQueue-change_or_add py (py.strip repository) (staged stamp id project_name) (λ r. refl)
        (λ r u. unique-add_id id r.trajectory_ids u)
        (new_request stamp (py.strip repository) project_name) q refl refl h

  -- A text with other than one slash is refused.
  stage-cases :
      (b : Bool)
      → (count_slashes (py.strip repository) == 1) ≡ b
      → stage py stamp repository id project_name q
        ≡ (if b then written staged_list.0 staged_list.1 else value_error)
  unfolding stage
  stage-cases b e = rw (e) refl

-- Any sequence of stagings and of updates, where an update that replaces a request's trajectories names none of
-- them twice, keeps one request per repository, whatever the case of its name, and no trajectory twice in a
-- request.
pub Reached-IsQueue : (py : PyText) {q : List Request} → Reached py q → IsQueue py q
unfolding update_request
Reached-IsQueue py empty = record { once = refl; ids = refl }
Reached-IsQueue py (staging {q} {q'} {r} stamp repository id name e h) =
    by_slashes (count_slashes (py.strip repository) == 1)
      (stage-cases py stamp repository id name q _ refl)
      (staged_list-IsQueue py stamp repository id name q (Reached-IsQueue py h))
  where
    by_slashes :
        (b : Bool)
        → stage py stamp repository id name q ≡ (
            if b
            then written
                (staged_list py stamp repository id name q).0
                (staged_list py stamp repository id name q).1
            else value_error)
        → IsQueue py (staged_list py stamp repository id name q).0
        → IsQueue py q'
    by_slashes true f k = subst (IsQueue py) (cc) k
    by_slashes false f k = absurd (cc)
Reached-IsQueue py (updating {q} {q'} {r} stamp repository c d e h) =
    let (keys, ids) = change_first-Keeps py stamp repository c d q (q', r) e in
    let k = Reached-IsQueue py h in record { once = ap unique keys ∙ k.once; ids = ids k.ids }

-- What a staging that is not refused writes.
pub record IsStaged (py : PyText) (name id : String) (q q' : List Request) (r : Request)
    : Type 0 where
  pub member : IsIn r q'
  pub keyed : repository_key py r ≡ py.lower name
  pub recorded : id ≢ "" → contains id r.trajectory_ids ≡ true
  pub others : (x : Request) → IsIn x q → repository_key py x ≢ py.lower name → IsIn x q'

-- A staging is refused exactly where the stripped repository has not one slash; otherwise the queue that it
-- writes has its entry, which is for the repository and has the trajectory's id unless that is
-- empty, and has every request for another repository unchanged.
pub stage-IsStaged :
    (py : PyText) (stamp repository id project_name : String) (q : List Request)
    → ((count_slashes (py.strip repository) ≢ 1)
        × (stage py stamp repository id project_name q ≡ value_error))
      ⊎ ((q' : List Request) × (r : Request) × (count_slashes (py.strip repository) ≡ 1)
          × (stage py stamp repository id project_name q ≡ written q' r)
          × IsStaged py (py.strip repository) id q q' r)
stage-IsStaged py stamp repository id project_name q =
    by_slashes (count_slashes (py.strip repository) == 1) refl
  where
    by_slashes :
        (b : Bool)
        → (count_slashes (py.strip repository) == 1) ≡ b
        → ((count_slashes (py.strip repository) ≢ 1)
            × (stage py stamp repository id project_name q ≡ value_error))
          ⊎ ((q' : List Request) × (r : Request) × (count_slashes (py.strip repository) ≡ 1)
              × (stage py stamp repository id project_name q ≡ written q' r)
              × IsStaged py (py.strip repository) id q q' r)
    by_slashes false e = inl (
      beq_false→ne (count_slashes (py.strip repository)) 1 e,
      stage-cases py stamp repository id project_name q false e,
    )
    by_slashes true e =
        let name = py.strip repository in
        let change = staged stamp id project_name in
        let fresh = new_request stamp name project_name in
        let lists = staged_list py stamp repository id project_name q in
        let (s, from, key) =
          from-change_or_add py name change (λ r. refl) (λ r u. unique-add_id id r.trajectory_ids u)
            fresh q refl in
        inr (
          lists.0,
          lists.1,
          beq→eq (count_slashes name) 1 e,
          stage-cases py stamp repository id project_name q true e,
          record {
            member =
                IsIn-change_or_add py name change (λ r. refl)
                  (λ r u. unique-add_id id r.trajectory_ids u) fresh q;
            keyed = ap (repository_key py) from ∙ key;
            recorded = λ n.
                subst (λ (x : Request). contains id x.trajectory_ids ≡ true) (sym from)
                  (contains-add_id id s.trajectory_ids n);
            others = λ x m n.
                others-change_or_add py name change (λ r. refl)
                  (λ r u. unique-add_id id r.trajectory_ids u) fresh q x m
                  (ne→beq_false (repository_key py x) (py.lower name) n);
          },
        )
