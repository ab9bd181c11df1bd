-- ===== src/Transaction/Atomicity.antt =====
-- One boundary commits all of its work or nothing of it: transaction-boundary.ts, `execute`.
use main_acounting_system.Prelude.{
  Bool, Option, arith, false, if◌then◌else◌, if◌then◌else◌, if◌then◌else◌, none, not, refl, some,
  true, ◌&&◌, ◌∙◌, ◌≡◌,
}
use main_acounting_system.Transaction.{
  BoundaryState, Session, Settled, Work, and_then, declined, execute, fail_boundary, opened,
  rejected, resolved, run_within_boundary,
}

abbrev pub is_resolved : {F A : Type 0} → Settled F A → Bool
is_resolved (resolved a) = true
is_resolved (declined e) = false
is_resolved (rejected e) = false

-- A boundary is on the stack and has observed a failure.
abbrev pub is_marked : {F : Type 0} → Option (BoundaryState F) → Bool
is_marked none = false
is_marked (some state) = state.failed

-- The work answered, and nothing inside it failed.
abbrev pub succeeded : {S F A : Type 0} → Settled F A × Session S F → Bool
succeeded (r, s) = is_resolved r && not (is_marked s.boundary)

module _ {S F A : Type 0} where
  -- Work never takes back a failure that the boundary has observed.
  abbrev pub KeepsFailure : Work S F A → Type 0
  KeepsFailure work =
      (s : Session S F) → is_marked s.boundary ≡ true → is_marked (work s).1.boundary ≡ true

  -- The outermost boundary commits the store of its work exactly when the work succeeded, and
  -- otherwise restores the store from before; it always leaves no boundary open.
  pub execute_all_or_nothing :
      (work : Work S F A) (s : Session S F)
      → s.boundary ≡ none
      → let (r, s') = execute work s in
        let ended = work (opened s) in
        (s'.boundary ≡ none)
        × (is_resolved r ≡ succeeded ended)
        × (s'.store ≡ (if succeeded ended then ended.1.store else s.store))
  unfolding execute
  execute_all_or_nothing work s h = ground arith

  -- A failed `Result` is returned as it is, a thrown error is thrown as it is, and the session is
  -- the one from before.
  pub execute_failure :
      (work : Work S F A) (s : Session S F)
      → s.boundary ≡ none
      → is_resolved (work (opened s)).0 ≡ false
      → execute work s ≡ ((work (opened s)).0, s)
  unfolding execute
  execute_failure work s h f = ground arith

  -- Joining an open boundary neither restores nor closes anything, and a failure marks the boundary.
  pub execute_joined :
      (work : Work S F A) (s : Session S F) {state : BoundaryState F}
      → s.boundary ≡ some state
      → let (r, s') = execute work s in
        let (q, ended) = work s in
        (r ≡ q)
        × (s'.store ≡ ended.store)
        × (is_marked ended.boundary ≡ true → is_marked s'.boundary ≡ true)
  unfolding execute run_within_boundary fail_boundary
  execute_joined work s h = ground arith

  pub execute-KeepsFailure : (work : Work S F A) → KeepsFailure work → KeepsFailure (execute work)
  unfolding execute run_within_boundary fail_boundary
  execute-KeepsFailure work keep s h = ground (arith, keep s h)

  -- Joined work that does not resolve leaves the boundary marked.
  joined_failure_marks :
      (work : Work S F A) (s : Session S F) {state ended : BoundaryState F}
      → s.boundary ≡ some state
      → (work s).1.boundary ≡ some ended
      → is_resolved (work s).0 ≡ false
      → is_marked (execute work s).1.boundary ≡ true
  unfolding execute run_within_boundary fail_boundary
  joined_failure_marks work s h k f = ground arith

  marked_not_succeeded :
      (r : Settled F A) (s : Session S F) → is_marked s.boundary ≡ true → succeeded (r, s) ≡ false
  marked_not_succeeded r s h = ground arith

module _ {S F A B : Type 0} where
  -- An inner operation that fails makes the boundary that it joined fail too, although the caller
  -- catches the failure and goes on with any work that does not clear the mark.
  pub execute_swallowed_failure :
      (inner : Work S F A) (rest : Settled F A → Work S F B) (s : Session S F)
      {ended : BoundaryState F}
      → s.boundary ≡ none
      → (inner (opened s)).1.boundary ≡ some ended
      → is_resolved (inner (opened s)).0 ≡ false
      → ((r : Settled F A) → KeepsFailure (rest r))
      → let (r, s') = execute (and_then (execute inner) rest) s in
        (is_resolved r ≡ false) × (s'.store ≡ s.store) × (s'.boundary ≡ none)
  execute_swallowed_failure inner rest s h k f keep =
      let joined = execute inner (opened s) in
      let marked = keep joined.0 joined.1 (joined_failure_marks inner (opened s) refl k f) in
      let last = rest joined.0 joined.1 in
      let refused : succeeded last ≡ false = marked_not_succeeded last.0 last.1 marked in
      let (closed, answer, stored) = execute_all_or_nothing (and_then (execute inner) rest) s h in
      (answer ∙ refused, rw refused at stored, closed)

module _ {S F A : Type 0} (R : S → S → Type 0) where
  -- The store after the work is related to the one before.
  abbrev pub Relates : Work S F A → Type 0
  Relates work = (s : Session S F) → R s.store (work s).1.store

  -- A boundary relates what its work relates, where the relation allows for no change.
  pub execute-Relates :
      (work : Work S F A) → ((before : S) → R before before) → Relates work → Relates (execute work)
  unfolding execute run_within_boundary
  execute-Relates work same relates s = ground (arith, same s.store, relates s, relates (opened s))
