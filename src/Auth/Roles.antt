-- ===== src/Auth/Roles.antt =====
-- The roles of actors, their text in a token or a column, and the requirements on them.
use ai_game.Base.{
  ℕ, Bool, true, false, ◌||◌, Option, none, some, ◌++◌, leb, is_none, if◌then◌else◌, Text, codes,
  text_eq,
}
use ai_game.Errors.{Result, err, ensure, authorization}
use ai_game.Constants.{
  UserRole, marketing, reviewer, manager, admin, system, AgentName, brief_analyst,
  content_generator, content_reviewer,
}

-- `UserRole.value`
unfoldable pub role_text : UserRole → Text
role_text marketing = codes "marketing"
role_text reviewer = codes "reviewer"
role_text manager = codes "manager"
role_text admin = codes "admin"
role_text system = codes "system"

-- `UserRole(value)`; `none` is its `ValueError`.
unfoldable pub parse_role : Text → Option UserRole
unfolding role_text
parse_role value =
    if text_eq value (role_text marketing)
    then some marketing
    else if text_eq value (role_text reviewer)
    then some reviewer
    else if text_eq value (role_text manager)
    then some manager
    else if text_eq value (role_text admin)
    then some admin
    else if text_eq value (role_text system)
    then some system
    else none

-- `AgentName.value`
unfoldable pub agent_text : AgentName → Text
agent_text brief_analyst = codes "BRIEF_ANALYST"
agent_text content_generator = codes "CONTENT_GENERATOR"
agent_text content_reviewer = codes "CONTENT_REVIEWER"

-- `ACTION_ROLE_LEVELS.get(role, default)`
unfoldable pub role_level : ℕ → UserRole → ℕ
role_level default reviewer = 1
role_level default manager = 2
role_level default admin = 3
role_level default _ = default

abbrev has_level : Option UserRole → UserRole → Bool
unfolding role_level
has_level none required = false
has_level (some actual) required = leb (role_level 99 required) (role_level 0 actual)

unfoldable pub role_satisfies_requirement : Option Text → Option UserRole → Bool
unfolding parse_role has_level
role_satisfies_requirement none required_role = is_none required_role
role_satisfies_requirement (some actual_role) none = true
role_satisfies_requirement (some actual_role) (some required_role) =
    has_level (parse_role actual_role) required_role

-- `AuthenticatedActor`
pub record AuthenticatedActor : Type 0 where
  pub actor_id : Text
  pub role : UserRole

abbrev is_system : UserRole → Bool
is_system system = true
is_system _ = false

-- `UserRole(required_role) if required_role else UserRole.ADMIN`
abbrev pub minimum : Option UserRole → UserRole
minimum none = admin
minimum (some required_role) = required_role

-- `AGENT_RUN_VIEWER_ROLES`
abbrev is_viewer : UserRole → Bool
is_viewer marketing = false
is_viewer _ = true

-- `require_agent_run_read` and `require_action_read`
unfoldable pub require_read : AuthenticatedActor → Result (Unit {0})
require_read actor = ensure (is_viewer actor.role) authorization

unfoldable pub require_action_approval :
    AuthenticatedActor → Option UserRole → AgentName → Result (Unit {0})
unfolding agent_text role_satisfies_requirement
require_action_approval actor required_role agent_name =
    if is_system actor.role || text_eq actor.actor_id (codes "agent:" ++ agent_text agent_name)
    then err authorization
    else ensure
        (role_satisfies_requirement (some (role_text actor.role)) (some (minimum required_role)))
        authorization

unfoldable pub require_action_execution : AuthenticatedActor → Option UserRole → Result (Unit {0})
unfolding role_satisfies_requirement
require_action_execution actor required_role =
    if is_system actor.role
    then err authorization
    else ensure
        (role_satisfies_requirement (some (role_text actor.role)) (some (minimum required_role)))
        authorization

abbrev is_operator : UserRole → Bool
is_operator manager = true
is_operator admin = true
is_operator _ = false

unfoldable pub require_operator : AuthenticatedActor → Result (Unit {0})
require_operator actor = ensure (is_operator actor.role) authorization
