-- ===== src/Transaction.antt =====
-- The transaction boundary: shared/transaction/transaction-boundary.ts and the ambient state of
-- transaction-context.ts. Work is a function on a session, which holds what the work sees of the
-- database and the boundary that is on the call stack.
pub mod Atomicity
mod Tests
use main_acounting_system.Prelude.{
  Bool, Option, false, if◌then◌else◌, if◌then◌else◌, if◌then◌else◌, none, some, true,
}
use main_acounting_system.Prelude.Outcome.{Outcome, err, ok}

-- A thrown value: the work's own error, or a `TransactionBoundaryError` with its cause,
-- which may be undefined.
pub data Thrown (F : Type 0) : Type 0 where
  raised : F → Thrown F
  boundary_error : Thrown F → Thrown F
  boundary_error_unknown : Thrown F

-- How a promise settles: with a value, with a failed `Result`, or by a rejection.
pub data Settled (F A : Type 0) : Type 0 where
  resolved : A → Settled F A
  declined : F → Settled F A
  rejected : Thrown F → Settled F A

-- `failed` and the first failure observed.
pub record BoundaryState (F : Type 0) : Type 0 where
  pub failed : Bool
  pub failure : Option (Thrown F)

pub record Session (S F : Type 0) : Type 0 where
  pub store : S
  pub boundary : Option (BoundaryState F)

abbrev pub Work : Type 0 → Type 0 → Type 0 → Type 0
Work S F A = Session S F → Settled F A × Session S F

abbrev pub fresh_boundary : {F : Type 0} → BoundaryState F
fresh_boundary = record { failed = false; failure = none }

abbrev pub first_failure : {F : Type 0} → Option (Thrown F) → Thrown F → Option (Thrown F)
first_failure none e = some e
first_failure (some first) e = some first

pub fail_boundary : {F : Type 0} → BoundaryState F → Thrown F → BoundaryState F
fail_boundary state e = record { failed = true; failure = first_failure state.failure e }

-- `failBoundary` on the boundary of the session.
abbrev mark : {F : Type 0} → Thrown F → Option (BoundaryState F) → Option (BoundaryState F)
unfolding fail_boundary
mark e none = none
mark e (some state) = some (fail_boundary state e)

abbrev report : {F A : Type 0} → Settled F A → Option (BoundaryState F) → Option (BoundaryState F)
unfolding fail_boundary
report (resolved a) b = b
report (declined e) b = mark (raised e) b
report (rejected e) b = mark e b

abbrev boundary_failure : {F : Type 0} → Option (Thrown F) → Thrown F
boundary_failure none = boundary_error_unknown
boundary_failure (some e) = boundary_error e

-- The session in which the outermost work runs.
abbrev pub opened : {S F : Type 0} → Session S F → Session S F
opened s = record { store = s.store; boundary = some fresh_boundary }

module _ {S F A : Type 0} where
  -- A frame inside an open boundary reports its failure and commits nothing itself.
  pub run_within_boundary : Work S F A → Work S F A
  unfolding fail_boundary
  run_within_boundary work s =
      let (r, s') = work s in (r, record s' { boundary = report r s'.boundary })

  -- The runner's callback: what it throws makes the runner restore the store from before it.
  abbrev roll_back : S → Settled F A → Settled F A × Session S F
  roll_back before r = (r, record { store = before; boundary = none })

  abbrev commit : S → Settled F A → Settled F A × Session S F
  commit after r = (r, record { store = after; boundary = none })

  -- The end of the outermost work. A failure that was observed inside refuses the commit.
  close_boundary : S → S → A → Option (BoundaryState F) → Settled F A × Session S F
  close_boundary before after a none = commit after (resolved a)
  close_boundary before after a (some state) =
      if state.failed
      then roll_back before (rejected (boundary_failure state.failure))
      else commit after (resolved a)

  settle : S → Settled F A × Session S F → Settled F A × Session S F
  unfolding close_boundary
  settle before (resolved a, s') = close_boundary before s'.store a s'.boundary
  settle before (declined e, s') = roll_back before (declined e)
  settle before (rejected e, s') = roll_back before (rejected e)

  enter_boundary : Option (BoundaryState F) → Work S F A → Work S F A
  unfolding run_within_boundary settle
  enter_boundary (some joined) work s = run_within_boundary work s
  enter_boundary none work s = settle s.store (work (opened s))

  -- `execute` of `createTransactionBoundary`: joins the boundary on the stack, or opens one.
  unfoldable pub execute : Work S F A → Work S F A
  unfolding enter_boundary
  execute work s = enter_boundary s.boundary work s

module _ {S F A B : Type 0} where
  -- `await` with a handler for every way to settle, so a caller may swallow a failure.
  abbrev pub and_then : Work S F A → (Settled F A → Work S F B) → Work S F B
  and_then work k s = let (r, s') = work s in k r s'

-- The steps of a use case: an `await` whose failure ends the work, as a returned failed `Result` and a
-- thrown error do.
module _ {S F : Type 0} where
  abbrev pub pure : {A : Type 0} → A → Work S F A
  pure a s = (resolved a, s)

  abbrev pub decline : {A : Type 0} → F → Work S F A
  decline e s = (declined e, s)

  abbrev pub throw : {A : Type 0} → F → Work S F A
  throw e s = (rejected (raised e), s)

  abbrev pub read : {A : Type 0} → (S → A) → Work S F A
  read f s = (resolved (f s.store), s)

  abbrev pub write : (S → S) → Work S F (Unit {0})
  write f s = (resolved tt, record s { store = f s.store })

  abbrev pub decline_if : Bool → F → Work S F (Unit {0})
  decline_if true e = decline e
  decline_if false e = pure tt

  abbrev pub throw_work_if : Bool → F → Work S F (Unit {0})
  throw_work_if true e = throw e
  throw_work_if false e = pure tt

  abbrev pub continue : {A B : Type 0} → Settled F A → (A → Work S F B) → Work S F B
  continue (resolved a) k s = k a s
  continue (declined e) k s = (declined e, s)
  continue (rejected e) k s = (rejected e, s)

  -- A failed `Result` that the caller returns, and an error that it lets pass.
  abbrev pub or_decline : {A : Type 0} → Outcome F A → Work S F A
  or_decline (ok a) = pure a
  or_decline (err e) = decline e

  abbrev pub or_throw : {A : Type 0} → Outcome F A → Work S F A
  or_throw (ok a) = pure a
  or_throw (err e) = throw e

infixl 5 ◌>>=◌ ◌>>◌
abbrev pub ◌>>=◌ : {S F A B : Type 0} → Work S F A → (A → Work S F B) → Work S F B
◌>>=◌ m k s = let (r, s') = m s in continue r k s'

abbrev pub ◌>>◌ : {S F B : Type 0} → Work S F (Unit {0}) → Work S F B → Work S F B
m >> k = m >>= λ _. k
