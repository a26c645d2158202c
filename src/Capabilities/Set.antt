-- ===== src/Capabilities/Set.antt =====
-- `Capability`, `CapabilityLevel`, `CapabilitySet`. Names are parsed already: `Capability(value)` is the
-- constructor that the text names.
use smart_bench.Prelude.{
  ℕ, String, ◌≡◌, ◌≢◌, ◌↔◌, refl, Bool, true, not, ◌&&◌, List, [], ◌∷◌, Eq, eqb, string_eq,
  contains, filter, leb, ltb, all, map, arith, if◌then◌else◌, ◌∙◌,
}
use smart_bench.Prelude.Dict.{Dict}
use smart_bench.Prelude.Dict

pub data Capability : Type 0 where
  structure source_locations symbols call_graph control_flow data_flow type_info concurrency
        event_model test_mapping :
      Capability

abbrev capability_index : Capability → ℕ
capability_index structure = 0
capability_index source_locations = 1
capability_index symbols = 2
capability_index call_graph = 3
capability_index control_flow = 4
capability_index data_flow = 5
capability_index type_info = 6
capability_index concurrency = 7
capability_index event_model = 8
capability_index test_mapping = 9

abbrev capability_beq : Capability → Capability → Bool
capability_beq a b = eqb (capability_index a) (capability_index b)

pub capability_beq_iff : (a b : Capability) → (capability_beq a b ≡ true) ↔ (a ≡ b)
capability_beq_iff a b = ground arith

instance abbrev pub capability_eq : Eq Capability
capability_eq = record { same = capability_beq; same_iff = capability_beq_iff }

-- The enumeration's values.
abbrev pub capability_value : Capability → String
capability_value structure = "structure"
capability_value source_locations = "source_locations"
capability_value symbols = "symbols"
capability_value call_graph = "call_graph"
capability_value control_flow = "control_flow"
capability_value data_flow = "data_flow"
capability_value type_info = "type_info"
capability_value concurrency = "concurrency"
capability_value event_model = "event_model"
capability_value test_mapping = "test_mapping"

pub data CapabilityLevel : Type 0 where
  unknown unsupported partial full : CapabilityLevel

-- One above the source's rank, which starts at -1.
abbrev pub rank : CapabilityLevel → ℕ
rank unknown = 0
rank unsupported = 1
rank partial = 2
rank full = 3

abbrev pub level_beq : CapabilityLevel → CapabilityLevel → Bool
level_beq a b = eqb (rank a) (rank b)

pub record CapabilitySet : Type 0 where
  pub language : String
  pub supported : List Capability
  pub partial : Dict Capability String

abbrev pub empty_set : String → CapabilitySet
empty_set language = record { language = language; supported = []; partial = [] }

unfoldable pub supports : CapabilitySet → Capability → Bool
supports s c = contains c s.supported

unfoldable pub level : CapabilitySet → Capability → CapabilityLevel
level s c =
    if contains c s.supported
    then full
    else if Dict.has_key s.partial c
    then partial
    else unsupported

unfoldable pub is_partial : CapabilitySet → Capability → Bool
is_partial s c = Dict.has_key s.partial c

unfoldable pub missing : CapabilitySet → List Capability → List String
unfolding supports
missing s required = map capability_value (filter (λ c. not (supports s c)) required)

-- The status of one requirement.
unfoldable pub requirement_status : CapabilityLevel → CapabilityLevel → CapabilityLevel
requirement_status actual minimum =
    if leb (rank minimum) (rank actual) && level_beq actual full
    then full
    else if leb (rank minimum) (rank actual)
    then partial
    else unsupported

pub record CapabilityDetail : Type 0 where
  pub required : CapabilityLevel
  pub actual : CapabilityLevel
  pub status : CapabilityLevel
  pub reason : String

abbrev pub lower_of : CapabilityLevel → CapabilityLevel → CapabilityLevel
lower_of status overall = if ltb (rank status) (rank overall) then status else overall

unfoldable pub detail_of : CapabilitySet → Capability → CapabilityLevel → CapabilityDetail
unfolding level requirement_status
detail_of s c minimum = record {
  required = minimum;
  actual = level s c;
  status = requirement_status (level s c) minimum;
  reason = if level_beq (level s c) partial then Dict.get_or s.partial c "" else "";
}

pub record SetAssessment : Type 0 where
  pub status : CapabilityLevel
  pub capabilities : Dict String CapabilityDetail
  pub reason : String

-- The loop over the requirements.
unfoldable pub assess_loop :
    CapabilitySet
    → CapabilityLevel
    → Dict String CapabilityDetail
    → List (Capability × CapabilityLevel)
    → CapabilityLevel × Dict String CapabilityDetail
unfolding detail_of
assess_loop s overall details [] = (overall, details)
assess_loop s overall details ((c, minimum) ∷ required) =
    assess_loop s (lower_of (requirement_status (level s c) minimum) overall)
      (Dict.insert details (capability_value c) (detail_of s c minimum)) required

unfoldable pub assess : CapabilitySet → List (Capability × CapabilityLevel) → SetAssessment
unfolding assess_loop
assess s [] = record {
  status = unknown;
  capabilities = [];
  reason = "rule declares no semantic capability requirements";
}
assess s (r ∷ required) =
    let p = assess_loop s full [] (r ∷ required) in
    record { status = p.0; capabilities = p.1; reason = "" }

-- The meets-its-minimum test of a requirement.
abbrev pub meets : CapabilitySet → Capability × CapabilityLevel → Bool
meets s r = leb (rank r.1) (rank (level s r.0))

abbrev pub is_full : CapabilitySet → Capability × CapabilityLevel → Bool
is_full s r = level_beq (level s r.0) full

-- What the loop's status is, told from the requirements.
abbrev pub graded : CapabilityLevel → Bool → Bool → CapabilityLevel
graded overall all_met all_full =
    if not all_met
    then lower_of unsupported overall
    else if all_full
    then overall
    else lower_of partial overall

assess_loop_status :
    (s : CapabilitySet) (overall : CapabilityLevel) (details : Dict String CapabilityDetail)
    (required : List (Capability × CapabilityLevel))
    → overall ≢ unknown
    → (assess_loop s overall details required).0
      ≡ graded overall (all (meets s) required) (all (is_full s) required)
unfolding assess_loop requirement_status
assess_loop_status s overall details [] h = refl
assess_loop_status s overall details ((c, minimum) ∷ required) h =
    assess_loop_status s (lower_of (requirement_status (level s c) minimum) overall)
      (Dict.insert details (capability_value c) (detail_of s c minimum)) required (ground arith)
    ∙ step (level s c) (all (meets s) required) (all (is_full s) required)
  where
    step :
        (actual : CapabilityLevel) (met full_rest : Bool)
        → graded (lower_of (requirement_status actual minimum) overall) met full_rest
          ≡ graded overall
              (leb (rank minimum) (rank actual) && met)
              (level_beq actual full && full_rest)
    step actual met full_rest = ground arith

-- The status that a contract deserves.
abbrev pub contract_status : CapabilitySet → List (Capability × CapabilityLevel) → CapabilityLevel
contract_status s [] = unknown
contract_status s (r ∷ required) =
    if not (all (meets s) (r ∷ required))
    then unsupported
    else if all (is_full s) (r ∷ required)
    then full
    else partial

-- The status of a non-empty contract is full where every capability is full, partial where each only meets its
-- minimum, and unsupported where one does not; an empty contract is unknown.
pub assess_status :
    (s : CapabilitySet) (required : List (Capability × CapabilityLevel))
    → (assess s required).status ≡ contract_status s required
unfolding assess
assess_status s [] = refl
assess_status s (r ∷ required) =
    assess_loop_status s full [] (r ∷ required) (ground arith) ∙ ground arith

-- A capability is missing exactly if it is required and its level is not full.
pub missing_level : (s : CapabilitySet) (c : Capability) → supports s c ≡ level_beq (level s c) full
unfolding supports level
missing_level s c = ground arith
