-- ===== src/Workflow/State.antt =====
-- app/workflows/workflow_state.py: which status may follow which.
use ai_game.Base.{Bool, List, [], ◌∷◌}
use ai_game.Errors.{Result, ensure, invalid_state_transition}
use ai_game.Constants.{
  CampaignStatus, received, validating, needs_clarification, analyzing, generating, reviewing,
  manual_review_required, pending_approval, revision_required, approved, rejected, status_in,
}

unfoldable pub get_allowed_transitions : CampaignStatus → List CampaignStatus
get_allowed_transitions received = validating ∷ CampaignStatus.failed ∷ []
get_allowed_transitions validating = analyzing ∷ needs_clarification ∷ CampaignStatus.failed ∷ []
get_allowed_transitions analyzing = generating ∷ needs_clarification ∷ CampaignStatus.failed ∷ []
get_allowed_transitions generating = reviewing ∷ CampaignStatus.failed ∷ []
get_allowed_transitions reviewing =
    generating ∷ manual_review_required ∷ pending_approval ∷ CampaignStatus.failed ∷ []
get_allowed_transitions manual_review_required =
    pending_approval ∷ revision_required ∷ rejected ∷ []
get_allowed_transitions pending_approval = approved ∷ rejected ∷ revision_required ∷ []
get_allowed_transitions revision_required = generating ∷ rejected ∷ []
get_allowed_transitions needs_clarification = validating ∷ rejected ∷ []
get_allowed_transitions approved = []
get_allowed_transitions rejected = []
get_allowed_transitions CampaignStatus.failed = []

unfoldable pub can_transition : CampaignStatus → CampaignStatus → Bool
unfolding get_allowed_transitions
can_transition current_status next_status =
    status_in next_status (get_allowed_transitions current_status)

unfoldable pub ensure_valid_transition : CampaignStatus → CampaignStatus → Result (Unit {0})
unfolding can_transition
ensure_valid_transition current_status next_status =
    ensure (can_transition current_status next_status) invalid_state_transition
