-- ===== src/Errors.antt =====
-- app/core/exceptions.py: the exceptions that the modelled code raises or tells apart, each class a
-- constructor, and the computations that may raise one.
use ai_game.Base.{Bool, Option, none, some, if◌then◌else◌, ◌≡◌, refl, ◌⊎◌, inl, inr}

-- A class stands for itself and not for its subclasses, which are constructors of their own. `task_cancelled`
-- is asyncio's `CancelledError`. The last three are exceptions of libraries: SQLAlchemy's two, and whatever
-- else is no `ApplicationError`.
pub data Error : Type 0 where
  campaign_not_found authorization authentication : Error
  llm_response llm_provider llm_provider_unavailable llm_rate_limit llm_timeout : Error
  workflow_limit workflow_execution workflow_not_found workflow_already_active : Error
  workflow_creation_not_allowed invalid_state_transition : Error
  approval_not_allowed approval_already_decided version_conflict : Error
  database_unavailable persistence : Error
  media_attempt_reconciliation media_attempt_lease_lost media_attempt_finalization : Error
  media_attempt_state_conflict media_persistence : Error
  m7_resource_not_found m7_conflict m7_validation : Error
  agent_run_not_found agent_run_already_active agent_execution agent_execution_cancelled : Error
  agent_output_validation agent_iteration_limit agent_llm_call_limit agent_tool_call_limit : Error
  agent_timeout tool_not_found tool_not_allowed tool_input_validation tool_execution : Error
  tool_timeout tool_cancelled invalid_agent_run_transition invalid_tool_call_transition : Error
  agent_context agent_action_proposal_limit : Error
  action_request_not_found action_not_found action_already_decided action_expired : Error
  action_version_conflict action_state_changed action_scope_conflict : Error
  action_not_allowed action_approval_required action_execution_conflict : Error
  action_policy_reevaluation_denied action_policy_approval_required : Error
  controlled_action_execution policy_denied : Error
  job_not_found job_conflict job_lease_lost job_payload job_cancelled retryable_job : Error
  job_non_retryable : Error
  task_cancelled : Error
  operational : Error
  dbapi : Bool → Error
  unexpected : Error

-- A value, or the exception that was raised.
pub data Result {ℓ} (Value : Type ℓ) : Type ℓ where
  ok : (value : Value) → Result Value
  err : (raised : Error) → Result Value

pub Result-cases {ℓ} :
    {Value : Type ℓ} (r : Result Value)
    → ((value : Value) × (r ≡ ok value)) ⊎ ((e : Error) × (r ≡ err e))
Result-cases (ok value) = inl (value, refl)
Result-cases (err e) = inr (e, refl)

-- `if not b: raise e`
abbrev pub ensure : Bool → Error → Result (Unit {0})
ensure b e = if b then ok tt else err e

-- One statement after another, unless the first raises.
module _ {ℓ κ} {Value : Type ℓ} {Next : Type κ} where
  infixl 5 ◌>>=◌
  abbrev pub ◌>>=◌ : Result Value → (Value → Result Next) → Result Next
  err raised >>= next = err raised
  ok value >>= next = next value

module _ {κ} {Next : Type κ} where
  infixl 5 ◌>>◌
  abbrev pub ◌>>◌ : Result (Unit {0}) → Result Next → Result Next
  statement >> next = statement >>= (λ _. next)

-- `if x is None: raise e`
abbrev pub required {ℓ} : {A : Type ℓ} → Option A → Error → Result A
required none e = err e
required (some a) e = ok a

-- A transaction on the database: its value and the tables that it commits, or the exception after which
-- the session is rolled back.
abbrev pub Tx {ℓ κ} : Type ℓ → Type κ → Type (ℓ ⊔ κ)
Tx S A = S → Result (A × S)

abbrev pub settled {ℓ κ} : {S : Type ℓ} {A : Type κ} → S → Result (A × S) → Result A × S
settled s (ok (a, s')) = (ok a, s')
settled s (err e) = (err e, s)

-- The end of a session: what was committed stands, and after an exception the tables are as before.
abbrev pub transact {ℓ κ} : {S : Type ℓ} {A : Type κ} → Tx S A → S → Result A × S
transact t s = settled s (t s)
