-- ===== src/Consent/Queue.antt =====
-- `stage` and `update_request` on the requests of the queue's document. Reading and writing the file are left out: an
-- operation takes the requests that were read and gives those that are written. The time is a parameter. A request's
-- entry holds the keys that `stage` writes, with values of the types that it writes, and any others.
use Prim.Native.Char.{code}
use Prim.Native.String.{◌∷◌ as ◌▹◌}
use Prim.Native.String as Text
use smart_bench.Prelude.{
  ℕ, suc, String, Bool, not, ◌&&◌, Option, none, some, List, [], ◌∷◌, ◌++◌, ◌==◌, string_eq, nat_eq,
  contains, if◌then◌else◌,
}
use smart_bench.Prelude.Dict.{Dict}
use smart_bench.Prelude.Dict
use smart_bench.Ir.Values.{PyText, Value}

pub record Request : Type 0 where
  pub repository : String
  pub project_name : String
  pub trajectory_ids : List String
  pub status : String
  pub created_at : String
  pub updated_at : String
  pub requested_at : Option String
  pub contact_source : Option String
  pub message_id : Option String
  pub note : String
  pub others : Dict String Value

-- `repository.count("/")`
abbrev pub count_slashes : String → ℕ
count_slashes Text.[] = 0
count_slashes (c ▹ s) = if code c == 47 then suc (count_slashes s) else count_slashes s

-- `str(item.get("repository", "")).lower() == repository.lower()`
abbrev pub repository_key : PyText → Request → String
repository_key py r = py.lower r.repository

abbrev pub is_request_for : PyText → String → Request → Bool
is_request_for py repository r = repository_key py r == py.lower repository

abbrev pub new_request : String → String → String → Request
new_request stamp repository project_name = record {
  repository = repository;
  project_name = project_name;
  trajectory_ids = [];
  status = "staged";
  created_at = stamp;
  updated_at = stamp;
  requested_at = none;
  contact_source = none;
  message_id = none;
  note = "";
  others = [];
}

-- `if trajectory_id and trajectory_id not in ids: ids.append(trajectory_id)`
abbrev pub add_id : String → List String → List String
add_id id ids = if not (id == "") && not (contains id ids) then ids ++ id ∷ [] else ids

-- What `stage` changes of the entry, found or new.
abbrev pub staged : String → String → String → Request → Request
staged stamp id project_name r = record {
  repository = r.repository;
  project_name = if r.project_name == "" then project_name else r.project_name;
  trajectory_ids = add_id id r.trajectory_ids;
  status = r.status;
  created_at = r.created_at;
  updated_at = stamp;
  requested_at = r.requested_at;
  contact_source = r.contact_source;
  message_id = r.message_id;
  note = r.note;
  others = r.others;
}

-- The first request for the repository, else a new one at the end, is changed; with the changed entry.
unfoldable pub change_or_add :
    (Request → Bool) → (Request → Request) → Request → List Request → List Request × Request
change_or_add p change fresh [] = (change fresh ∷ [], change fresh)
change_or_add p change fresh (r ∷ rs) =
    let (qs, q) = change_or_add p change fresh rs in
    if p r then (change r ∷ rs, change r) else (r ∷ qs, q)

pub data Staged : Type 0 where
  value_error : Staged
  written : List Request → Request → Staged

-- `stage` on the requests that were read.
unfoldable pub stage : PyText → String → String → String → String → List Request → Staged
unfolding change_or_add
stage py stamp repository id project_name requests =
    let name = py.strip repository in
    let (qs, q) =
      change_or_add (is_request_for py name) (staged stamp id project_name)
        (new_request stamp name project_name) requests in
    if count_slashes name == 1 then written qs q else value_error

-- `**changes`: a value for any of the keys of an entry but `repository`, which is the name of the first parameter,
-- and for any keys besides.
pub record Changes : Type 0 where
  pub project_name : Option String
  pub trajectory_ids : Option (List String)
  pub status : Option String
  pub created_at : Option String
  pub updated_at : Option String
  pub requested_at : Option (Option String)
  pub contact_source : Option (Option String)
  pub message_id : Option (Option String)
  pub note : Option String
  pub others : Dict String Value

-- `dict.update`
unfoldable pub update_all : Dict String Value → Dict String Value → Dict String Value
update_all d [] = d
update_all d ((k, v) ∷ changes) = update_all (Dict.insert d k v) changes

-- `entry.update(changes)`
abbrev pub with_changes : Changes → Request → Request
with_changes c r = record {
  repository = r.repository;
  project_name = Dict.or_default c.project_name r.project_name;
  trajectory_ids = Dict.or_default c.trajectory_ids r.trajectory_ids;
  status = Dict.or_default c.status r.status;
  created_at = Dict.or_default c.created_at r.created_at;
  updated_at = Dict.or_default c.updated_at r.updated_at;
  requested_at = Dict.or_default c.requested_at r.requested_at;
  contact_source = Dict.or_default c.contact_source r.contact_source;
  message_id = Dict.or_default c.message_id r.message_id;
  note = Dict.or_default c.note r.note;
  others = update_all r.others c.others;
}

-- `entry["updated_at"] = now_iso()`
abbrev pub with_stamp : String → Request → Request
with_stamp stamp r = record {
  repository = r.repository;
  project_name = r.project_name;
  trajectory_ids = r.trajectory_ids;
  status = r.status;
  created_at = r.created_at;
  updated_at = stamp;
  requested_at = r.requested_at;
  contact_source = r.contact_source;
  message_id = r.message_id;
  note = r.note;
  others = r.others;
}

abbrev pub changed : String → Changes → Request → Request
changed stamp c r = with_stamp stamp (with_changes c r)

-- None where no request is for the repository: nothing is written then.
unfoldable pub change_first :
    (Request → Bool) → (Request → Request) → List Request → Option (List Request × Request)
change_first p change [] = none
change_first p change (r ∷ rs) =
    let rest = change_first p change rs in
    if p r
    then some (change r ∷ rs, change r)
    else elim rest [ none ↦ none | some q ↦ some (r ∷ q.0, q.1) ]

unfoldable pub update_request :
    PyText → String → String → Changes → List Request → Option (List Request × Request)
unfolding change_first
update_request py stamp repository changes requests =
    change_first (is_request_for py repository) (changed stamp changes) requests
