-- ===== src/Api/Access.antt =====
-- main.py: `login`, `current_user` and `require_action`.
pub mod Sessions
use evidencedesk.Prelude.{ℕ, ◌*◌, Text, Option, none, some, List, [], ◌∷◌, not, ◌||◌, if◌then◌else◌}
use evidencedesk.Auth.{Action, UserPrincipal, same_role, role_allows}
use evidencedesk.Security.{Codec, create_access_token, decode_access_token, microseconds}
use evidencedesk.Python.Strings.{same}
use evidencedesk.Db.{User, Desk, AuditEvent, AuditAction, AuditResult, Metadata}
use evidencedesk.Db.Rows.{add_audit}
use evidencedesk.Db.Table.{find}
use evidencedesk.Api.Responses.{Detail, Response, reply, refused}

abbrev pub user_key : User → ℕ
user_key u = u.id

-- `select(User).where(User.username == form.username)`
unfoldable pub find_username : Text → List User → Option User
unfolding same
find_username name [] = none
find_username name (u ∷ users) = if same u.username name then some u else find_username name users

module _ (codec : Codec) (secret : Text) (now : ℕ) where
  abbrev pub confirmed : UserPrincipal → Option User → Response UserPrincipal
  confirmed principal none = refused 401 Detail.invalid_token
  confirmed principal (some user) =
      if not user.is_active || not (same_role user.role principal.role)
      then refused 401 Detail.invalid_token
      else reply 200 principal

  abbrev pub authenticated : Desk → Option UserPrincipal → Response UserPrincipal
  authenticated desk none = refused 401 Detail.invalid_token
  authenticated desk (some principal) = confirmed principal (find user_key principal.id desk.users)

  -- `current_user`, with the credentials of the request if there are any
  unfoldable pub current_user : Option Text → Desk → Response UserPrincipal
  unfolding decode_access_token find
  current_user none desk = refused 401 Detail.authentication_required
  current_user (some credentials) desk =
      authenticated desk (decode_access_token codec credentials secret now now)

  abbrev pub login_event : Option ℕ → AuditResult → ℕ → AuditEvent
  login_event actor result correlation_id = record {
    actor_id = actor;
    action = AuditAction.auth_login;
    document_id = none;
    result = result;
    correlation_id = correlation_id;
    metadata_safe = Metadata.nothing;
  }

  abbrev pub principal_of_user : User → UserPrincipal
  principal_of_user user = record { id = user.id; username = user.username; role = user.role }

  abbrev pub login_user : Text → ℕ → ℕ → Option User → Desk → Response Text × Desk
  login_user password access_token_minutes correlation_id none desk = (
    refused 401 Detail.invalid_credentials,
    add_audit (login_event none AuditResult.denied correlation_id) desk,
  )
  login_user password access_token_minutes correlation_id (some user) desk =
      if not user.is_active || not (codec.verify_password password user.password_hash)
      then (
        refused 401 Detail.invalid_credentials,
        add_audit (login_event (some user.id) AuditResult.denied correlation_id) desk,
      )
      else (
        reply 200 (
            create_access_token codec (principal_of_user user) secret now
              (access_token_minutes * 60 * microseconds)),
        add_audit (login_event (some user.id) AuditResult.success correlation_id) desk,
      )

  -- `login`: the token of the response
  unfoldable pub login : Text → Text → ℕ → ℕ → Desk → Response Text × Desk
  unfolding create_access_token find_username
  login username password access_token_minutes correlation_id desk =
      login_user password access_token_minutes correlation_id (find_username username desk.users)
        desk

-- The dependency of `require_action(action)`, once the user is known
unfoldable pub require_action : Action → UserPrincipal → ℕ → Desk → Response UserPrincipal × Desk
unfolding role_allows
require_action action principal correlation_id desk =
    if role_allows principal.role action then (reply 200 principal, desk) else (
      refused 403 Detail.forbidden,
      add_audit
          (record {
            actor_id = some principal.id;
            action = AuditAction.authorization_denied;
            document_id = none;
            result = AuditResult.denied;
            correlation_id = correlation_id;
            metadata_safe = Metadata.requested_action action;
          })
          desk,
    )
