-- ===== src/Core/Security/Tokens/Principal.antt =====
-- Which caller a token makes.
use ai_document_ops_system.Prelude.{
  Bool, true, false, Option, none, some, String, List, [], ◌∷◌, str_eq, eq_iff, ◌≡◌, refl,
  if◌then◌else◌, arith, ◌⊎◌, inl, inr, subst, ap,
}
use ai_document_ops_system.Prelude.Text.{is_empty_text, strip}
use ai_document_ops_system.Core.Errors.{ok}
use ai_document_ops_system.Core.Security.Context.{SecurityContext}
use ai_document_ops_system.Core.Security.Tokens.{
  TokenSettings, principals, first_match, compare_digest, authenticate_access_token, or_default,
}

-- The configured token of each role. No other role has one.
unfoldable pub token_of : String → TokenSettings → Option String
token_of role s =
    if str_eq role "admin"
    then some s.admin_token
    else if str_eq role "uploader"
    then some s.uploader_token
    else if str_eq role "reviewer"
    then some s.reviewer_token
    else none

-- What the theorem below says of a caller.
abbrev IsPrincipal : TokenSettings → String → SecurityContext → Type 0
IsPrincipal s token c =
    (token_of c.role s ≡ some token)
    × (is_empty_text token ≡ false)
    × (c.is_admin ≡ str_eq c.role "admin")

first_match-cases :
    (token expected : String) (p c : SecurityContext) (rest : List (String × SecurityContext))
    → first_match token ((expected, p) ∷ rest) ≡ ok c
    → ((p ≡ c) × (expected ≡ token)) ⊎ (first_match token rest ≡ ok c)
unfolding first_match compare_digest
first_match-cases token expected p c rest h = ground (arith, h, eq_iff token expected)

nonempty :
    (token : String) (s : TokenSettings) (c : SecurityContext)
    → authenticate_access_token (some token) s ≡ ok c
    → (is_empty_text token ≡ false) × (first_match token (principals s) ≡ ok c)
unfolding authenticate_access_token
nonempty token s c h = ground (arith, h)

nobody : {A : Type 0} (token : String) (c : SecurityContext) → first_match token [] ≡ ok c → A
unfolding first_match
nobody token c h = cc

abbrev caller : TokenSettings → String → Bool → String → String → SecurityContext
caller s actor is_admin user_id role = record {
  actor = actor;
  is_admin = is_admin;
  workspace_id = or_default (strip s.workspace_id) "default";
  user_id = user_id;
  role = role;
  trace_id = none;
}

abbrev admin : TokenSettings → SecurityContext
admin s = caller s "Administrator" true "admin" "admin"

abbrev uploader : TokenSettings → SecurityContext
uploader s = caller s "Invoice Uploader" false "uploader" "uploader"

abbrev reviewer : TokenSettings → SecurityContext
reviewer s = caller s "Invoice Reviewer" false "reviewer" "reviewer"

abbrev reviewers : TokenSettings → List (String × SecurityContext)
reviewers s = (s.reviewer_token, reviewer s) ∷ []

abbrev uploaders : TokenSettings → List (String × SecurityContext)
uploaders s = (s.uploader_token, uploader s) ∷ reviewers s

-- A caller that a token authenticates has the role for which the settings hold exactly that token,
-- the token is not empty, and the caller is an administrator only under that role.
pub authenticated-principal :
    (token : String) (s : TokenSettings) (c : SecurityContext)
    → authenticate_access_token (some token) s ≡ ok c
    → (token_of c.role s ≡ some token)
      × (is_empty_text token ≡ false)
      × (c.is_admin ≡ str_eq c.role "admin")
unfolding authenticate_access_token principals token_of
authenticated-principal token s c h =
    let given = nonempty token s c h in
    elim (first_match-cases token s.admin_token (admin s) c (uploaders s) (given.1)) [
      | inl (p, t) ↦ subst (IsPrincipal s token) p (ap some t, given.0, refl)
      | inr other ↦
          elim (first_match-cases token s.uploader_token (uploader s) c (reviewers s) other) [
            | inl (p, t) ↦ subst (IsPrincipal s token) p (ap some t, given.0, refl)
            | inr last ↦ elim (first_match-cases token s.reviewer_token (reviewer s) c [] last) [
              | inl (p, t) ↦ subst (IsPrincipal s token) p (ap some t, given.0, refl)
              | inr never ↦ nobody token c never
            ]
          ]
    ]

-- Where the administrator's token is not configured, no token makes an administrator.
no_admin_without_token :
    (provided : Option String) (s : TokenSettings) (c : SecurityContext)
    → is_empty_text s.admin_token ≡ true
    → authenticate_access_token provided s ≡ ok c
    → c.is_admin ≡ false
unfolding authenticate_access_token first_match principals
no_admin_without_token none s c e h = ground (arith, h)
no_admin_without_token (some token) s c e h = ground (arith, h, e)
