-- ===== src/Identity/Authenticate/Ends.antt =====
-- A session that ended stays ended.
use main_acounting_system.Prelude.{
  AtMostOne, Bool-cases, List, Option-cases, [], any, ap, arith, false, find, find-map, find_same,
  inl, inr, ltb, map, none, refl, some, subst, true, ℕ, ◌+◌, ◌∙◌, ◌∷◌, ◌≡◌,
}
use main_acounting_system.Identity.{IdentityError, session_revoked}
use main_acounting_system.Identity.Authenticate.{
  check_session, get_authenticated_session, has_token_hash, session_is, sign_out, sign_out_session,
  sign_out_work, swap_session, swaps_session, update_session,
}
use main_acounting_system.Identity.Session.{AuthSession, is_expired, is_revoked, revoke}
use main_acounting_system.Identity.SignIn.{max_revision}
use main_acounting_system.Identity.Store.{Db, Loaded}
use main_acounting_system.Prelude.Outcome.{ok}
use main_acounting_system.Primitives.EntityId.{EntityId, entity_id_from}
use main_acounting_system.Primitives.Text.{Text, is_empty, trim}
use main_acounting_system.Time.{DateTime}
use main_acounting_system.Transaction.{Session, declined, execute, resolved}

-- The session as a sign-out leaves it.
abbrev pub ended : DateTime → AuthSession → AuthSession
ended now session = record session { revoked_at = some now; updated_at = now }

find-swaps :
    (sessions : List (Loaded AuthSession)) (id : EntityId) {row : Loaded AuthSession}
    → find (session_is id) sessions ≡ some row
    → any (swaps_session row.aggregate row.revision) sessions ≡ true
find-swaps [] id h = cc
find-swaps (y ∷ sessions) id {row} h = elim (Bool-cases (session_is id y)) [
  | inl e ↦
      let here : y ≡ row = ground (arith, h, e) in
      subst
        (λ (r : Loaded AuthSession).
          any (swaps_session r.aggregate r.revision) (y ∷ sessions) ≡ true)
        here (ground arith)
  | inr e ↦ ground (arith, find-swaps sessions id {row = row})
]

-- What a sign-out that answers leaves of the sessions.
sign_out_session-sessions :
    (now : DateTime) (row : Loaded AuthSession) (id : EntityId) (s : Session Db IdentityError)
    → s.boundary ≡ none
    → any (swaps_session row.aggregate row.revision) s.store.sessions ≡ true
    → (sign_out_session now (some row) s).0 ≡ resolved id
    → (sign_out_session now (some row) s).1.store.sessions
      ≡ map (swap_session (ended now row.aggregate) row.revision) s.store.sessions
unfolding sign_out_session sign_out_work update_session revoke execute
sign_out_session-sessions now row id s b hit = elim (Bool-cases (is_revoked row.aggregate)) [
  | inl e ↦ rw e (λ h. cc)
  | inr e ↦ elim (Bool-cases (is_expired now row.aggregate)) [
    | inl k ↦ rw (e, k) (λ h. cc)
    | inr k ↦ elim (Bool-cases (ltb max_revision (row.revision + 1))) [
      | inl full ↦ rw (e, k, b, hit, full) (λ h. cc)
      | inr fits ↦ rw (e, k, b, hit, fits) (λ h. refl)
    ]
  ]
]

swap_session-hash :
    (session : AuthSession) (revision : ℕ) (hash : Text) (row : Loaded AuthSession)
    → has_token_hash hash (swap_session session revision row) ≡ has_token_hash hash row
unfolding swap_session
swap_session-hash session revision hash row =
    elim (Bool-cases (swaps_session session revision row)) [ inl e ↦ rw e refl | inr e ↦ rw e refl ]

swap_session-own :
    (now : DateTime) (row : Loaded AuthSession)
    → (swap_session (ended now row.aggregate) row.revision row).aggregate.revoked_at ≡ some now
unfolding swap_session
swap_session-own now row =
    let hit : swaps_session row.aggregate row.revision row ≡ true = ground arith in rw hit refl

-- A revoked session's token is refused.
revoked_token :
    (later : DateTime) (hash : Text → Text) (token : Text) (row : Loaded AuthSession)
    {at : DateTime} (s : Session Db IdentityError)
    → is_empty (trim token) ≡ false
    → find (has_token_hash (hash token)) s.store.sessions ≡ some row
    → row.aggregate.revoked_at ≡ some at
    → (get_authenticated_session later hash token s).0 ≡ declined session_revoked
unfolding get_authenticated_session check_session is_revoked
revoked_token later hash token row s solid found at = rw (solid, found, at) refl

-- After a sign-out that answers, every token of that session is refused as revoked, at any time.
pub sign_out_ends :
    (now later : DateTime) (session_text token : Text) (hash : Text → Text) (id : EntityId)
    (row : Loaded AuthSession) (s : Session Db IdentityError)
    → s.boundary ≡ none
    → entity_id_from session_text ≡ ok id
    → AtMostOne (session_is id) s.store.sessions
    → find (has_token_hash (hash token)) s.store.sessions ≡ some row
    → session_is id row ≡ true
    → is_empty (trim token) ≡ false
    → (sign_out now session_text s).0 ≡ resolved id
    → (get_authenticated_session later hash token (sign_out now session_text s).1).0
      ≡ declined session_revoked
unfolding sign_out
sign_out_ends now later session_text token hash id row s b parsed one found own solid =
    elim (Option-cases (find (session_is id) s.store.sessions)) [
      | inl e ↦ rw (parsed, e) (λ h. cc)
      | inr (loaded, e) ↦
          let same : loaded ≡ row =
            find_same (session_is id) (has_token_hash (hash token)) s.store.sessions one e found
              own in
          rw (parsed, e, same)
            (λ h.
              revoked_token later hash token _ (sign_out_session now (some row) s).1 solid
                (ap (find (has_token_hash (hash token))) (
                    sign_out_session-sessions now row id s b
                      (subst
                        (λ (r : Loaded AuthSession).
                          any (swaps_session r.aggregate r.revision) s.store.sessions ≡ true)
                        same (find-swaps s.store.sessions id e))
                      h)
                  ∙ find-map (has_token_hash (hash token))
                      (swap_session (ended now row.aggregate) row.revision)
                      (swap_session-hash (ended now row.aggregate) row.revision (hash token))
                      s.store.sessions found)
                (swap_session-own now row))
    ]
