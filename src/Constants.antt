-- ===== src/Constants.antt =====
-- app/core/constants.py: the enumerations. A status column holds the text of its enumeration's member and
-- is read back as that member, so a column is modelled by the enumeration.
use ai_game.Base.{ℕ, Bool, true, ◌==◌, ◌≡◌, arith, List, any}

pub data UserRole : Type 0 where
  marketing reviewer manager admin system : UserRole

pub data CampaignStatus : Type 0 where
  received validating needs_clarification analyzing generating reviewing : CampaignStatus
  manual_review_required pending_approval revision_required : CampaignStatus
  approved rejected failed : CampaignStatus

pub data WorkflowStep : Type 0 where
  receive_campaign validate_input analyze_brief generate_content review_content : WorkflowStep
  human_review complete : WorkflowStep

pub data ApprovalDecision : Type 0 where
  approve reject request_revision : ApprovalDecision

-- The members that the modelled code records.
pub data MemoryEventType : Type 0 where
  workflow_retry review_feedback revision_completed : MemoryEventType
  campaign_approval_decided : MemoryEventType

pub data JobStatus : Type 0 where
  pending running succeeded failed cancelled dead_letter : JobStatus

pub data JobAttemptStatus : Type 0 where
  running succeeded failed cancelled : JobAttemptStatus

pub data JobErrorClassification : Type 0 where
  retryable non_retryable : JobErrorClassification

pub data OutboxStatus : Type 0 where
  pending processing processed failed dead_letter : OutboxStatus

pub data LeaseUpdateResult : Type 0 where
  updated not_found invalid_state lease_lost : LeaseUpdateResult

pub data AgentName : Type 0 where
  brief_analyst content_generator content_reviewer : AgentName

pub data AgentRunStatus : Type 0 where
  created running completed failed limit_exceeded : AgentRunStatus

pub data ToolCallStatus : Type 0 where
  requested running completed failed rejected : ToolCallStatus

pub data PolicyDecision : Type 0 where
  safe approval_required forbidden : PolicyDecision

pub data ActionRequestStatus : Type 0 where
  proposed pending_approval approved rejected executing completed failed expired :
      ActionRequestStatus

pub data ActionExecutionStatus : Type 0 where
  created running completed failed cancelled : ActionExecutionStatus

pub data MemoryRecordStatus : Type 0 where
  not_required pending recorded failed : MemoryRecordStatus

pub data MediaAssetStatus : Type 0 where
  requested generating ready_for_review approved rejected failed cancelled : MediaAssetStatus

pub data MediaAttemptStatus : Type 0 where
  started completed failed cancelled : MediaAttemptStatus

pub data MediaAttemptUpdateResult : Type 0 where
  updated not_found invalid_state ownership_lost : MediaAttemptUpdateResult

pub data AppliedTaskStatus : Type 0 where
  pending processing ready_for_review completed failed cancelled : AppliedTaskStatus

abbrev agent_index : AgentName → ℕ
agent_index brief_analyst = 0
agent_index content_generator = 1
agent_index content_reviewer = 2

abbrev pub agent_eq : AgentName → AgentName → Bool
agent_eq a b = agent_index a == agent_index b

-- The position of a member, by which two members are compared.
abbrev pub status_index : CampaignStatus → ℕ
status_index received = 0
status_index validating = 1
status_index needs_clarification = 2
status_index analyzing = 3
status_index generating = 4
status_index reviewing = 5
status_index manual_review_required = 6
status_index pending_approval = 7
status_index revision_required = 8
status_index approved = 9
status_index rejected = 10
status_index CampaignStatus.failed = 11

abbrev pub status_eq : CampaignStatus → CampaignStatus → Bool
status_eq a b = status_index a == status_index b

-- `status in {…}`
abbrev pub status_in : CampaignStatus → List CampaignStatus → Bool
status_in a = any (status_eq a)

pub status_eq→≡ : (a b : CampaignStatus) → status_eq a b ≡ true → a ≡ b
status_eq→≡ a b h = ground arith
