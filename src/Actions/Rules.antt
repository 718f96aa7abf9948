-- ===== src/Actions/Rules.antt =====
-- app/agentic/policies/rules.py: the names that no agent may use, and the arguments that are refused.
-- Text is ASCII here: outside it, `str.lower` and `str.strip` follow the tables of Unicode.
use ai_game.Base.{
  ℕ, ◌+◌, Bool, true, false, ◌&&◌, ◌||◌, List, [], ◌∷◌, map, ◌==◌, leb, if◌then◌else◌, Text, codes,
  text_in, ◌≡◌, refl,
}

unfoldable pub forbidden_actions : List Text
forbidden_actions = map codes (
    "approve_campaign" ∷ "reject_campaign" ∷ "publish_campaign" ∷ "delete_campaign"
    ∷ "delete_workflow_history" ∷ "modify_actor_role" ∷ "modify_roles" ∷ "modify_permissions"
    ∷ "access_secrets" ∷ "execute_sql" ∷ "execute_shell" ∷ "call_arbitrary_url" ∷ "disable_audit"
    ∷ "change_policy_rules" ∷ [])

unfoldable pub generic_actions : List Text
generic_actions = map codes (
    "update_anything" ∷ "modify_record" ∷ "execute_command" ∷ "run_query" ∷ "call_url"
    ∷ "patch_resource" ∷ [])

unfoldable pub dangerous_argument_keys : List Text
dangerous_argument_keys = map codes (
    "action" ∷ "action_name" ∷ "command" ∷ "sql" ∷ "query" ∷ "url" ∷ "authorization" ∷ "api_key"
    ∷ "password" ∷ "secret" ∷ "token" ∷ [])

unfoldable pub between : ℕ → ℕ → ℕ → Bool
between low high c = leb low c && leb c high

-- `str.isspace` on ASCII
unfoldable pub is_space : ℕ → Bool
unfolding between
is_space c = (c == 32) || (between 9 13 c || between 28 31 c)

unfoldable pub lower_code : ℕ → ℕ
unfolding between
lower_code c = if between b'A' b'Z' c then c + 32 else c

-- The class `[a-z0-9]`
unfoldable pub is_word : ℕ → Bool
unfolding between
is_word c = between b'a' b'z' c || between b'0' b'9' c

-- Characters that a test selects are dropped from the front, the back, and both ends (`str.strip`).
abbrev pub drop_front : (ℕ → Bool) → Text → Text
drop_front p [] = []
drop_front p (c ∷ t) = let rest = drop_front p t in if p c then rest else c ∷ t

abbrev pub keep_back : (ℕ → Bool) → ℕ → Text → Text
keep_back p c [] = if p c then [] else c ∷ []
keep_back p c (d ∷ rest) = c ∷ d ∷ rest

abbrev pub drop_back : (ℕ → Bool) → Text → Text
drop_back p [] = []
drop_back p (c ∷ t) = keep_back p c (drop_back p t)

abbrev pub strip : (ℕ → Bool) → Text → Text
strip p t = drop_back p (drop_front p t)

-- `re.sub(r"[^a-z0-9]+", "_", text)`: each run of other characters becomes one underscore. The flag says
-- that the character before belonged to such a run.
unfoldable pub underscored : Bool → Text → Text
unfolding is_word
underscored in_run [] = []
underscored in_run (c ∷ t) =
    let after_word = underscored false t in
    let after_run = underscored true t in
    if is_word c then c ∷ after_word else if in_run then after_run else b'_' ∷ after_run

abbrev pub is_underscore : ℕ → Bool
is_underscore c = c == b'_'

unfoldable pub canonical_action_name : Text → Text
unfolding is_space lower_code underscored
canonical_action_name value =
    strip is_underscore (underscored false (map lower_code (strip is_space value)))

unfoldable pub is_forbidden_alias : Text → Bool
unfolding canonical_action_name
is_forbidden_alias value =
    let canonical = canonical_action_name value in
    text_in canonical forbidden_actions || text_in canonical generic_actions

abbrev pub starts_with : Text → Text → Bool
starts_with [] t = true
starts_with (c ∷ prefix) [] = false
starts_with (c ∷ prefix) (d ∷ t) = (c == d) && starts_with prefix t

-- A JSON value; an object is its fields in their order.
mutual
  pub data Value : Type 0 where
    null : Value
    boolean : Bool → Value
    number : ℕ → Value
    text : Text → Value
    array : Items → Value
    dict : Fields → Value

  pub data Items : Type 0 where
    nil : Items
    item : Value → Items → Items

  pub data Fields : Type 0 where
    end : Fields
    field : (key : Text) → Value → Fields → Fields

-- The two tests on a text.
unfoldable pub is_dangerous_text : Text → Bool
unfolding is_forbidden_alias lower_code
is_dangerous_text value =
    is_forbidden_alias value
    || (starts_with (codes "http://") (map lower_code value)
        || starts_with (codes "https://") (map lower_code value))

unfoldable pub is_dangerous_key : Text → Bool
unfolding canonical_action_name
is_dangerous_key key = text_in (canonical_action_name key) dangerous_argument_keys

unfoldable mutual
  unfolding is_dangerous_text is_dangerous_key

  pub contains_nested_danger : Value → Bool
  contains_nested_danger null = false
  contains_nested_danger (boolean b) = false
  contains_nested_danger (number n) = false
  contains_nested_danger (text t) = is_dangerous_text t
  contains_nested_danger (array items) = any_danger items
  contains_nested_danger (dict fields) = contains_dangerous_field fields

  pub any_danger : Items → Bool
  any_danger nil = false
  any_danger (item value rest) = contains_nested_danger value || any_danger rest

  pub contains_dangerous_field : Fields → Bool
  contains_dangerous_field end = false
  contains_dangerous_field (field key value rest) =
      is_dangerous_key key || (contains_nested_danger value || contains_dangerous_field rest)

spelled : canonical_action_name (codes "  Approve - Campaign! ") ≡ codes "approve_campaign"
unfolding canonical_action_name
spelled = refl
