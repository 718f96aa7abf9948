-- ===== src/Auth/Levels.antt =====
-- What the requirements on a role amount to.
use ai_game.Base.{
  ◌≡◌, refl, ◌≢◌, ◌↔◌, true, Option, arith, codes, ◌++◌, text_eq→≡, text_eq_refl, leb,
}
use ai_game.Errors.{ok}
use ai_game.Constants.{UserRole, reviewer, manager, admin, system, AgentName}
use ai_game.Auth.Roles.{
  role_level, AuthenticatedActor, minimum, agent_text, require_action_approval,
  require_action_execution,
}
use ai_game.Auth.Tokens.{parse_role-role_text}

-- The order of the human roles that decide on actions.
pub data Reaches : UserRole → UserRole → Type 0 where
  same_reviewer : Reaches reviewer reviewer
  same_manager : Reaches manager manager
  same_admin : Reaches admin admin
  over_reviewer : Reaches manager reviewer
  over_manager : Reaches admin manager
  over_both : Reaches admin reviewer

pub reaches : (a r : UserRole) → leb (role_level 99 r) (role_level 0 a) ≡ true → Reaches a r
unfolding role_level
reaches reviewer reviewer h = same_reviewer
reaches manager reviewer h = over_reviewer
reaches admin reviewer h = over_both
reaches manager manager h = same_manager
reaches admin manager h = over_manager
reaches admin admin h = same_admin
reaches _ _ h = ground arith

reached : (a r : UserRole) → Reaches a r → leb (role_level 99 r) (role_level 0 a) ≡ true
unfolding role_level
reached _ _ same_reviewer = refl
reached _ _ same_manager = refl
reached _ _ same_admin = refl
reached _ _ over_reviewer = refl
reached _ _ over_manager = refl
reached _ _ over_both = refl

-- An actor may decide on an action that asks for a role: an administrator's, if it asks for none.
abbrev pub MayDecide : AuthenticatedActor → Option UserRole → Type 0
MayDecide actor required_role = (actor.role ≢ system) × Reaches actor.role (minimum required_role)

execution_allowed :
    (actor : AuthenticatedActor) (q : Option UserRole)
    → require_action_execution actor q ≡ ok tt
    → MayDecide actor q
unfolding require_action_execution
execution_allowed actor q h =
    (λ e. ground (arith, h), reaches _ _ (ground (arith, h, parse_role-role_text actor.role)))

execution_granted :
    (actor : AuthenticatedActor) (q : Option UserRole)
    → MayDecide actor q
    → require_action_execution actor q ≡ ok tt
unfolding require_action_execution
execution_granted actor q (n, r) = ground (arith, n, reached _ _ r, parse_role-role_text actor.role)

-- An actor may execute an action exactly if the actor is not SYSTEM and the actor's role reaches the role
-- that the action asks for, an administrator's if it asks for none.
pub require_action_execution_iff :
    (actor : AuthenticatedActor) (q : Option UserRole)
    → (require_action_execution actor q ≡ ok tt) ↔ MayDecide actor q
require_action_execution_iff actor q = (execution_allowed actor q, execution_granted actor q)

approval_allowed :
    (actor : AuthenticatedActor) (q : Option UserRole) (a : AgentName)
    → require_action_approval actor q a ≡ ok tt
    → MayDecide actor q × (actor.actor_id ≢ codes "agent:" ++ agent_text a)
unfolding require_action_approval
approval_allowed actor q a h = (
  (λ e. ground (arith, h), reaches _ _ (ground (arith, h, parse_role-role_text actor.role))),
  λ e. ground (arith, h, e, text_eq_refl actor.actor_id),
)

approval_granted :
    (actor : AuthenticatedActor) (q : Option UserRole) (a : AgentName)
    → MayDecide actor q × (actor.actor_id ≢ codes "agent:" ++ agent_text a)
    → require_action_approval actor q a ≡ ok tt
unfolding require_action_approval
approval_granted actor q a ((n, r), other) = ground (
  arith,
  n,
  other,
  reached _ _ r,
  parse_role-role_text actor.role,
  text_eq→≡ actor.actor_id (codes "agent:" ++ agent_text a),
)

-- An actor may decide on the request of an agent exactly if the actor is neither SYSTEM nor that agent and
-- the actor's role reaches the role that the request asks for, an administrator's if it asks for none.
pub require_action_approval_iff :
    (actor : AuthenticatedActor) (q : Option UserRole) (a : AgentName)
    → (require_action_approval actor q a ≡ ok tt)
      ↔ (MayDecide actor q × (actor.actor_id ≢ codes "agent:" ++ agent_text a))
require_action_approval_iff actor q a = (approval_allowed actor q a, approval_granted actor q a)
