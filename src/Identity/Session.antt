-- ===== src/Identity/Session.antt =====
-- modules/identity/domain/aggregates/auth-session.ts. A token's hash is its text.
use main_acounting_system.Prelude.{Bool, Option, ltb, none, not, some, ◌&&◌}
use main_acounting_system.Identity.{IdentityError, malformed_value, session_already_revoked}
use main_acounting_system.Identity.User.{is_set}
use main_acounting_system.Prelude.Outcome.{Outcome, ok, throw_if, ◌>>◌}
use main_acounting_system.Primitives.EntityId.{EntityId}
use main_acounting_system.Primitives.Text.{Text}
use main_acounting_system.Time.{DateTime}

pub record AuthSession : Type 0 where
  pub id : EntityId
  pub user_id : EntityId
  pub token_hash : Text
  pub expires_at : DateTime
  pub revoked_at : Option DateTime
  pub created_at : DateTime
  pub updated_at : DateTime

-- `AuthSession.create`.
unfoldable pub create_session :
    EntityId → EntityId → Text → DateTime → DateTime → Outcome IdentityError AuthSession
create_session id user hash expires now =
    throw_if (not (ltb now expires)) malformed_value
    >> ok (record {
      id = id;
      user_id = user;
      token_hash = hash;
      expires_at = expires;
      revoked_at = none;
      created_at = now;
      updated_at = now;
    })

unfoldable pub is_revoked : AuthSession → Bool
is_revoked session = is_set session.revoked_at

unfoldable pub is_expired : DateTime → AuthSession → Bool
is_expired now session = not (ltb now session.expires_at)

unfoldable pub is_usable : DateTime → AuthSession → Bool
unfolding is_revoked is_expired
is_usable now session = not (is_revoked session) && not (is_expired now session)

unfoldable pub revoke : DateTime → AuthSession → Outcome IdentityError AuthSession
unfolding is_revoked
revoke now session =
    throw_if (is_revoked session) session_already_revoked
    >> ok (record session { revoked_at = some now; updated_at = now })
