-- ===== src/Auth/Tests.antt =====
-- Roles and tokens at concrete actors.
use ai_game.Base.{◌≡◌, ◌≢◌, ◌↔◌, ◌++◌, Option, some, codes}
use ai_game.Errors.{ok}
use ai_game.Constants.{reviewer, manager, brief_analyst}
use ai_game.Auth.Roles.{AuthenticatedActor, agent_text, require_action_approval}
use ai_game.Auth.Tokens.{Claims, IsAuthentic, decode_bearer_token, decode_bearer_token_iff}
use ai_game.Auth.Levels.{MayDecide, require_action_approval_iff}

abbrev ana : AuthenticatedActor
ana = record { actor_id = codes "ana"; role = manager }

-- A token that the library decodes to the claims it stands for.
abbrev decode : Claims → Option Claims
decode claims = some claims

abbrev claims : Claims
claims = record { subject = some (codes "ana"); role = some (codes "manager") }

decode_bearer_token_iff_example :
    (decode_bearer_token decode claims ≡ ok ana) ↔ IsAuthentic ana (decode claims)
decode_bearer_token_iff_example = decode_bearer_token_iff decode claims ana

require_action_approval_iff_example :
    (require_action_approval ana (some reviewer) brief_analyst ≡ ok tt)
    ↔ (MayDecide ana (some reviewer) × (codes "ana" ≢ codes "agent:" ++ agent_text brief_analyst))
require_action_approval_iff_example = require_action_approval_iff ana (some reviewer) brief_analyst
