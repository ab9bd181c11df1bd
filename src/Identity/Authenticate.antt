-- ===== src/Identity/Authenticate.antt =====
-- modules/identity/application/use-cases: get-authenticated-session.use-case.ts and sign-out.use-case.ts, with
-- the statements on sessions. The token service's digest is an argument.
pub mod Ends
use main_acounting_system.Prelude.{
  Bool, Option, any, find, if◌then◌else◌, if◌then◌else◌, if◌then◌else◌, ltb, map, none, not, some,
  ℕ, ◌&&◌, ◌+◌, ◌==◌,
}
use main_acounting_system.Identity.{
  account_not_authenticatable, authentication_required, authentication_state_rejected,
  malformed_value, session_expired, session_revoked, stale_write, user_locked_out,
}
use main_acounting_system.Identity.Authorize.{Action}
use main_acounting_system.Identity.Session.{AuthSession, is_expired, is_revoked, revoke}
use main_acounting_system.Identity.SignIn.{max_revision, record_fact, reject}
use main_acounting_system.Identity.Store.{
  Loaded, authentication_ended, authentication_rejected, get_user,
}
use main_acounting_system.Identity.User.{User, is_active_user, is_locked}
use main_acounting_system.Prelude.Outcome.{Outcome, err, ok}
use main_acounting_system.Primitives.EntityId.{EntityId, entity_id_from}
use main_acounting_system.Primitives.Text.{
  InvalidPrimitiveError, Text, is_empty, is_space, text_eq, trim,
}
use main_acounting_system.Time.{DateTime}
use main_acounting_system.Transaction.{
  decline, execute, or_throw, pure, read, throw_work_if, write, ◌>>=◌, ◌>>◌,
}

-- `DrizzleAuthSessionRepository.get` and `findByTokenHash`.
abbrev pub session_is : EntityId → Loaded AuthSession → Bool
session_is id row = row.aggregate.id == id

abbrev pub has_token_hash : Text → Loaded AuthSession → Bool
has_token_hash hash row = text_eq row.aggregate.token_hash hash

abbrev pub swaps_session : AuthSession → ℕ → Loaded AuthSession → Bool
swaps_session session expected row = row.aggregate.id == session.id && row.revision == expected

unfoldable pub swap_session : AuthSession → ℕ → Loaded AuthSession → Loaded AuthSession
swap_session session expected row =
    if swaps_session session expected row
    then record {
      aggregate = record (row.aggregate) {
        revoked_at = session.revoked_at;
        updated_at = session.updated_at;
      };
      revision = expected + 1;
    }
    else row

-- `DrizzleAuthSessionRepository.update`.
unfoldable pub update_session : AuthSession → ℕ → Action (Unit {0})
unfolding swap_session
update_session session expected =
    read (λ db. any (swaps_session session expected) db.sessions) >>= λ affected.
    throw_work_if (not affected) stale_write
    >> write (λ db. record db { sessions = map (swap_session session expected) db.sessions })
    >> throw_work_if (ltb max_revision (expected + 1)) malformed_value

-- `AuthenticatedSessionView`, with the principal named by its identity.
pub record AuthenticatedSessionView : Type 0 where
  pub session_id : EntityId
  pub expires_at : DateTime
  pub principal : EntityId

module _ (now : DateTime) where
  unfoldable pub check_principal :
      AuthSession → Option (Loaded User) → Action AuthenticatedSessionView
  unfolding is_locked
  check_principal session none =
      reject (authentication_rejected authentication_state_rejected (some session.id))
        authentication_state_rejected
  check_principal session (some row) =
      if not (is_active_user row.aggregate.status)
      then reject (authentication_rejected account_not_authenticatable (some session.id))
          account_not_authenticatable
      else (if is_locked now row.aggregate
          then reject (authentication_rejected user_locked_out (some session.id)) user_locked_out
          else pure (record {
            session_id = session.id;
            expires_at = session.expires_at;
            principal = row.aggregate.id;
          }))

  unfoldable pub check_session : Option (Loaded AuthSession) → Action AuthenticatedSessionView
  unfolding is_revoked is_expired check_principal get_user
  check_session none =
      reject (authentication_rejected authentication_state_rejected none)
        authentication_state_rejected
  check_session (some loaded) =
      let session = loaded.aggregate in
      if is_revoked session
      then reject (authentication_rejected session_revoked (some session.id)) session_revoked
      else (if is_expired now session
          then reject (authentication_rejected session_expired (some session.id)) session_expired
          else (read (get_user session.user_id) >>= check_principal session))

  -- `GetAuthenticatedSessionUseCase.execute`, on a token that is a string.
  unfoldable pub get_authenticated_session : (Text → Text) → Text → Action AuthenticatedSessionView
  unfolding check_session trim is_space text_eq
  get_authenticated_session hash token =
      if is_empty (trim token)
      then reject (authentication_rejected authentication_required none) authentication_required
      else (read (λ db. find (has_token_hash (hash token)) db.sessions) >>= check_session)

  -- The unit of work of a sign-out.
  unfoldable pub sign_out_work : Loaded AuthSession → Action EntityId
  unfolding revoke update_session
  sign_out_work loaded = or_throw (revoke now loaded.aggregate) >>= λ session.
      update_session session loaded.revision
      >> record_fact (authentication_ended session.user_id session.id)
      >> pure session.id

  unfoldable pub sign_out_session : Option (Loaded AuthSession) → Action EntityId
  unfolding is_revoked is_expired sign_out_work execute
  sign_out_session none =
      reject (authentication_rejected authentication_state_rejected none)
        authentication_state_rejected
  sign_out_session (some loaded) =
      let session = loaded.aggregate in
      if is_revoked session
      then reject (authentication_rejected session_revoked (some session.id)) session_revoked
      else (if is_expired now session
          then reject (authentication_rejected session_expired (some session.id)) session_expired
          else execute (sign_out_work loaded))

  abbrev sign_out_identity : Outcome InvalidPrimitiveError EntityId → Action EntityId
  unfolding sign_out_session
  sign_out_identity (err e) = decline authentication_state_rejected
  sign_out_identity (ok id) = read (λ db. find (session_is id) db.sessions) >>= sign_out_session

  -- `SignOutUseCase.execute`.
  unfoldable pub sign_out : Text → Action EntityId
  unfolding entity_id_from sign_out_session
  sign_out session_id = sign_out_identity (entity_id_from session_id)
