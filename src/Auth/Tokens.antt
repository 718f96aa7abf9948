-- ===== src/Auth/Tokens.antt =====
-- `AuthService.decode_bearer_token`, and that a role is read back from its text.
use ai_game.Base.{
  ◌≡◌, refl, Option, none, some, [], ◌∷◌, arith, Text, codes, text_eq→≡, ◌↔◌, ◌≢◌, Option-cases,
  inl, inr, ap, ◌∙◌,
}
use ai_game.Errors.{Result, ok, required, ◌>>=◌, authentication}
use ai_game.Constants.{UserRole, marketing, reviewer, manager, admin, system}
use ai_game.Auth.Roles.{role_text, parse_role, AuthenticatedActor}

-- The two claims of the payload that are read.
pub record Claims : Type 0 where
  pub subject : Option Text
  pub role : Option Text

-- `if not claim`: a claim that is missing or empty.
abbrev claimed : Option Text → Option Text
claimed none = none
claimed (some []) = none
claimed (some (c ∷ t)) = some (c ∷ t)

-- `jwt.decode` with the key that it needs, of the library PyJWT, is the argument; `none` stands for its
-- exceptions `InvalidTokenError` and `PyJWKClientError`.
unfoldable pub decode_bearer_token {ℓ} :
    {Token : Type ℓ} → (Token → Option Claims) → Token → Result AuthenticatedActor
decode_bearer_token decode token = do
  payload ← required (decode token) authentication
  subject ← required (claimed payload.subject) authentication
  role ← required (claimed payload.role) authentication
  actor_role ← required (parse_role role) authentication
  ok (record { actor_id = subject; role = actor_role })

pub parse_role-role_text : (r : UserRole) → parse_role (role_text r) ≡ some r
unfolding parse_role
parse_role-role_text marketing = refl
parse_role-role_text reviewer = refl
parse_role-role_text manager = refl
parse_role-role_text admin = refl
parse_role-role_text system = refl

parse_role→≡ : (t : Text) (r : UserRole) → parse_role t ≡ some r → t ≡ role_text r
unfolding parse_role
parse_role→≡ t r h = ground (
  arith,
  h,
  text_eq→≡ t (codes "marketing"),
  text_eq→≡ t (codes "reviewer"),
  text_eq→≡ t (codes "manager"),
  text_eq→≡ t (codes "admin"),
  text_eq→≡ t (codes "system"),
)

-- A text is read as a role exactly if it is that role's text.
pub parse_role_iff : (t : Text) (r : UserRole) → (parse_role t ≡ some r) ↔ (t ≡ role_text r)
parse_role_iff t r = (parse_role→≡ t r, λ e. rw e (parse_role-role_text r))

-- What a payload must say for an actor to be its subject.
abbrev pub IsAuthentic : AuthenticatedActor → Option Claims → Type 0
IsAuthentic actor payload =
    (claims : Claims) × (payload ≡ some claims)
    × (claims.subject ≡ some actor.actor_id)
    × (actor.actor_id ≢ [])
    × (claims.role ≡ some (role_text actor.role))

claimed→≡ : (o : Option Text) (t : Text) → claimed o ≡ some t → (o ≡ some t) × (t ≢ [])
claimed→≡ none t h = ground arith
claimed→≡ (some []) t h = ground arith
claimed→≡ (some (c ∷ x)) t h = ground (arith, h)

claimed-some : (t : Text) → t ≢ [] → claimed (some t) ≡ some t
claimed-some [] n = ground (arith, n)
claimed-some (c ∷ t) n = refl

role_text_nonempty : (r : UserRole) → role_text r ≢ []
unfolding role_text
role_text_nonempty r = ground arith

module _ {ℓ} {Token : Type ℓ} (decode : Token → Option Claims) (token : Token)
    (actor : AuthenticatedActor) where
  decoded :
      (c : Claims) (t u : Text) (v : UserRole)
      → decode token ≡ some c
      → claimed c.subject ≡ some t
      → claimed c.role ≡ some u
      → parse_role u ≡ some v
      → decode_bearer_token decode token ≡ ok (record { actor_id = t; role = v })
  unfolding decode_bearer_token
  decoded c t u v e s r p = rw (decode_bearer_token, e, s, r, p) refl

  accepted : decode_bearer_token decode token ≡ ok actor → IsAuthentic actor (decode token)
  unfolding decode_bearer_token
  accepted h = elim (Option-cases (decode token)) [
    | inl e ↦ ground (arith, h, e)
    | inr (c, e) ↦ elim (Option-cases (claimed c.subject)) [
      | inl s ↦ ground (arith, h, e, s)
      | inr (t, s) ↦ elim (Option-cases (claimed c.role)) [
        | inl r ↦ ground (arith, h, e, s, r)
        | inr (u, r) ↦ elim (Option-cases (parse_role u)) [
          | inl p ↦ ground (arith, h, e, s, r, p)
          | inr (v, p) ↦
              let same : record { actor_id = t; role = v } ≡ actor =
                ground (arith, h, decoded c t u v e s r p) in
              let (has_subject, named) = claimed→≡ c.subject t s in
              let (has_role, _) = claimed→≡ c.role u r in
              (
                c,
                e,
                ground (arith, has_subject, same),
                ground (arith, named, same),
                ground (arith, has_role, same, parse_role→≡ u v p),
              )
        ]
      ]
    ]
  ]

  accepts : IsAuthentic actor (decode token) → decode_bearer_token decode token ≡ ok actor
  accepts (c, e, s, n, r) =
      decoded c actor.actor_id (role_text actor.role) actor.role e
        (ap claimed s ∙ claimed-some actor.actor_id n)
        (ap claimed r ∙ claimed-some (role_text actor.role) (role_text_nonempty actor.role))
        (parse_role-role_text actor.role)

  -- A token is accepted as an actor exactly if the library decodes it to a payload with the actor's
  -- identity, which is not empty, and the text of the actor's role.
  pub decode_bearer_token_iff :
      (decode_bearer_token decode token ≡ ok actor) ↔ IsAuthentic actor (decode token)
  decode_bearer_token_iff = (accepted, accepts)
