-- ===== src/Debate/Call.antt =====
-- `_safe_call` and `_safe_json_call`: the attempts of one role. What `_invoke_llm` and `_parse_json` come to at
-- each attempt is a parameter.
use smart_bench.Prelude.{
  ℕ, zero, suc, ◌≤◌, String, ◌≡◌, refl, Bool, true, false, not, ◌||◌, Option, none, some, List,
  ◌==◌, string_eq, all, if◌then◌else◌, arith, Bool-cases, max, eqb, ◌⊎◌, inl, inr, subst, ap, ◌∙◌,
}
use smart_bench.Ir.Values.{Value, Fields, null, bool, int, neg_int, str, arr, obj, other, as_list}
use smart_bench.Debate.Gate.{lookup}

-- One attempt: an exception, or a text with what it parses to.
pub data Attempt : Type 0 where
  raises : String → Attempt
  replies : String → Option Fields → Attempt

pub record CallResult : Type 0 where
  pub raw : String
  pub parsed : Option Fields
  pub last_call_error : Option String

abbrev is_object : Value → Bool
is_object (obj fs) = true
is_object null = false
is_object (bool b) = false
is_object (int n) = false
is_object (neg_int n) = false
is_object (str s) = false
is_object (arr xs) = false
is_object (other n) = false

abbrev all_objects : Option (List Value) → Bool
all_objects none = false
all_objects (some vs) = all is_object vs

-- `isinstance(values, list) and all(isinstance(item, dict) ...)`
unfoldable pub has_list : String → Option Fields → Bool
unfolding lookup
has_list required none = false
has_list required (some fs) = all_objects (as_list (lookup fs required))

abbrev empty_response : String
empty_response = "LLM returned an empty response"

-- The loop over the attempts that are left, with the error and the raw text kept so far. The attempt that runs is
-- numbered by what is left after it.
unfoldable pub json_loop : (ℕ → Attempt) → String → String → ℕ → String → Option String → CallResult
unfolding has_list
json_loop invoke required invalid zero last_raw error = record {
  raw = last_raw;
  parsed = none;
  last_call_error = error;
}
json_loop invoke required invalid (suc n) last_raw error = elim (invoke n) [
  | raises message ↦ json_loop invoke required invalid n last_raw (some message)
  | replies response parsed ↦
      let next = json_loop invoke required invalid n response (some invalid) in
      let again = json_loop invoke required invalid n last_raw (some empty_response) in
      if response == ""
      then again
      else if has_list required parsed
      then record { raw = response; parsed = parsed; last_call_error = none }
      else next
]

-- `max_call_attempts = max(1, max_call_attempts)`
unfoldable pub safe_json_call : (ℕ → Attempt) → String → String → ℕ → CallResult
unfolding json_loop
safe_json_call invoke required invalid max_call_attempts =
    json_loop invoke required invalid (max 1 max_call_attempts) "" none

unfoldable pub call_loop : (ℕ → Attempt) → ℕ → Option String → String × Option String
call_loop invoke zero error = ("", error)
call_loop invoke (suc n) error = elim (invoke n) [
  | raises message ↦ call_loop invoke n (some message)
  | replies response parsed ↦
      let again = call_loop invoke n (some empty_response) in
      if response == "" then again else (response, none)
]

unfoldable pub safe_call : (ℕ → Attempt) → ℕ → String
unfolding call_loop
safe_call invoke max_call_attempts = (call_loop invoke (max 1 max_call_attempts) none).0

-- An attempt that the role does not accept.
abbrev pub is_refused : String → Attempt → Bool
is_refused required (raises message) = true
is_refused required (replies response parsed) = (response == "") || not (has_list required parsed)

-- The two ends of a call.
pub data IsAnswered (invoke : ℕ → Attempt) (required : String) (attempts : ℕ) (r : CallResult)
    : Type 0 where
  answered :
      (n : ℕ)
      → suc n ≤ attempts
      → invoke n ≡ replies r.raw r.parsed
      → has_list required r.parsed ≡ true
      → r.last_call_error ≡ none
      → IsAnswered invoke required attempts r
  given_up :
      r.parsed ≡ none
      → ((n : ℕ) → suc n ≤ attempts → is_refused required (invoke n) ≡ true)
      → IsAnswered invoke required attempts r

module _ (invoke : ℕ → Attempt) (required invalid : String) where
  one_more :
      (n : ℕ) (r : CallResult)
      → is_refused required (invoke n) ≡ true
      → IsAnswered invoke required n r
      → IsAnswered invoke required (suc n) r
  one_more n r bad (answered k l i h e) = answered k (omega arith) i h e
  one_more n r bad (given_up p rest) = given_up p (λ k l. by_last k l (Bool-cases (eqb k n)))
    where
      by_last :
          (k : ℕ)
          → suc k ≤ suc n
          → (eqb k n ≡ true) ⊎ (eqb k n ≡ false)
          → is_refused required (invoke k) ≡ true
      by_last k l (inl q) = subst (λ m. is_refused required (invoke m) ≡ true) (ground arith) bad
      by_last k l (inr q) = rest k (ground arith)

  json_loop_answers :
      (n : ℕ) (last_raw : String) (error : Option String)
      → IsAnswered invoke required n (json_loop invoke required invalid n last_raw error)
  unfolding json_loop
  json_loop_answers zero last_raw error = given_up refl (λ n l. absurd (omega arith))
  json_loop_answers (suc n) last_raw error =
      by_attempt (invoke n) refl (λ raw e. json_loop_answers n raw e)
    where
      by_attempt :
          (a : Attempt)
          → invoke n ≡ a
          → ((raw : String) (e : Option String)
              → IsAnswered invoke required n (json_loop invoke required invalid n raw e))
          → IsAnswered invoke required
              (suc n)
              (json_loop invoke required invalid (suc n) last_raw error)
      by_attempt (raises message) i next =
          rw (json_loop, i)
            (one_more n _ (ap (is_refused required) i) (next last_raw (some message)))
      by_attempt (replies response parsed) i next = elim (Bool-cases (response == "")) [
        | inl p ↦
            rw (json_loop, i, p)
              (one_more n _ (ap (is_refused required) i ∙ ground arith)
                (next last_raw (some empty_response)))
        | inr p ↦ elim (Bool-cases (has_list required parsed)) [
          | inl q ↦ rw (json_loop, i, p, q) (answered n (omega arith) i q refl)
          | inr q ↦
              rw (json_loop, i, p, q)
                (one_more n _ (ap (is_refused required) i ∙ ground arith)
                  (next response (some invalid)))
        ]
      ]

  -- A role's call ends after at most its number of attempts: with the reply of one of them, which has the list of
  -- objects that is asked for, and no error, or with nothing parsed after every attempt was refused.
  pub safe_json_call_answers :
      (max_call_attempts : ℕ)
      → IsAnswered invoke required
          (max 1 max_call_attempts)
          (safe_json_call invoke required invalid max_call_attempts)
  unfolding safe_json_call
  safe_json_call_answers max_call_attempts = json_loop_answers (max 1 max_call_attempts) "" none
