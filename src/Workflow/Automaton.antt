-- ===== src/Workflow/Automaton.antt =====
-- The abstract state machine of an automated run: the status and the retry counter of a workflow, and the
-- moves between them, with the documents, the rows and the specialists left out.
use ai_game.Base.{ℕ, ◌+◌, ◌≤◌, ◌<◌, ◌≡◌, refl, true, false, Bool, arith}
use ai_game.Constants.{
  CampaignStatus, received, validating, analyzing, generating, reviewing, manual_review_required,
  pending_approval, revision_required, approved, rejected,
}
use ai_game.Workflow.State.{can_transition}

-- The moves that keep the retry counter.
pub data AutoEdge : CampaignStatus → CampaignStatus → Type 0 where
  start : AutoEdge received validating
  validate : AutoEdge validating analyzing
  revise : AutoEdge revision_required generating
  analyze : AutoEdge analyzing generating
  generate : AutoEdge generating reviewing
  rewind : AutoEdge reviewing generating
  accept : AutoEdge reviewing pending_approval
  escalate : AutoEdge reviewing manual_review_required
  fail_received : AutoEdge received CampaignStatus.failed
  fail_validating : AutoEdge validating CampaignStatus.failed
  fail_analyzing : AutoEdge analyzing CampaignStatus.failed
  fail_generating : AutoEdge generating CampaignStatus.failed
  fail_reviewing : AutoEdge reviewing CampaignStatus.failed

-- One move from a status and a retry count to others, under a bound on the retries.
pub data AutoStep (max : ℕ) (s : CampaignStatus) (r : ℕ) (s' : CampaignStatus) (r' : ℕ)
    : Type 0 where
  stay : s' ≡ s → r' ≡ r → AutoStep max s r s' r'
  move : (a b : CampaignStatus) → AutoEdge a b → s ≡ a → s' ≡ b → r' ≡ r → AutoStep max s r s' r'
  retry : s ≡ reviewing → s' ≡ generating → r < max → r' ≡ r + 1 → AutoStep max s r s' r'

-- Any number of moves from a start.
pub data AutoRun (max : ℕ) (s : CampaignStatus) (r : ℕ) : CampaignStatus → ℕ → Type 0 where
  here : AutoRun max s r s r
  onward :
      {t u : CampaignStatus} {q k : ℕ}
      → AutoRun max s r t q
      → AutoStep max t q u k
      → AutoRun max s r u k

-- The machine's moves are moves of the campaign state machine.
pub AutoEdge-can_transition : {s t : CampaignStatus} → AutoEdge s t → can_transition s t ≡ true
unfolding can_transition
AutoEdge-can_transition start = refl
AutoEdge-can_transition _ = refl

-- Only a human approves or rejects.
abbrev pub is_decided : CampaignStatus → Bool
is_decided approved = true
is_decided rejected = true
is_decided _ = false

undecided_edge : {s t : CampaignStatus} → AutoEdge s t → is_decided t ≡ false
undecided_edge start = refl
undecided_edge _ = refl

undecided_step :
    (max : ℕ) (s t : CampaignStatus) (r q : ℕ)
    → AutoStep max s r t q
    → is_decided s ≡ false
    → is_decided t ≡ false
undecided_step max s t r q (stay e f) h = ground arith
undecided_step max s t r q (move a b edge e f g) h = ground (arith, undecided_edge edge)
undecided_step max s t r q (retry e f g k) h = ground arith

pub undecided_run :
    {max r : ℕ} {s t : CampaignStatus} {q : ℕ}
    → AutoRun max s r t q
    → is_decided s ≡ false
    → is_decided t ≡ false
undecided_run here h = h
undecided_run (onward run step) h = undecided_step _ _ _ _ _ step (undecided_run run h)

bounded_step : (max : ℕ) (s t : CampaignStatus) (r q : ℕ) → AutoStep max s r t q → r ≤ max → q ≤ max
bounded_step max s t r q (stay e f) h = omega arith
bounded_step max s t r q (move a b edge e f g) h = omega arith
bounded_step max s t r q (retry e f g k) h = omega arith

pub bounded_run :
    {max r : ℕ} {s t : CampaignStatus} {q : ℕ} → AutoRun max s r t q → r ≤ max → q ≤ max
bounded_run here h = h
bounded_run (onward run step) h = bounded_step _ _ _ _ _ step (bounded_run run h)
