-- ===== src/Transaction/Tests.antt =====
-- Concrete runs of the transaction boundary.
use main_acounting_system.Prelude.{false, none, refl, true, ℕ, ◌+◌, ◌≡◌}
use main_acounting_system.Transaction.{
  Session, Work, and_then, decline, declined, execute, fresh_boundary, read, write, ◌>>◌,
}
use main_acounting_system.Transaction.Atomicity.{
  execute_all_or_nothing, execute_failure, execute_swallowed_failure, is_resolved,
}

abbrev session : Session ℕ ℕ
session = record { store = 3; boundary = none }

abbrev add_two : Work ℕ ℕ ℕ
add_two = write (λ n. n + 2) >> read (λ n. n)

abbrev add_two_and_fail : Work ℕ ℕ ℕ
add_two_and_fail = write (λ n. n + 2) >> decline 7

execute_all_or_nothing_example :
    let s' = (execute add_two session).1 in
    (s'.boundary ≡ none) × (is_resolved (execute add_two session).0 ≡ true) × (s'.store ≡ 5)
execute_all_or_nothing_example = execute_all_or_nothing add_two session refl

execute_failure_example : execute add_two_and_fail session ≡ (declined 7, session)
execute_failure_example = execute_failure add_two_and_fail session refl refl

execute_swallowed_failure_example :
    let (r, s') = execute (and_then (execute add_two_and_fail) (λ r. add_two)) session in
    (is_resolved r ≡ false) × (s'.store ≡ 3) × (s'.boundary ≡ none)
execute_swallowed_failure_example =
    execute_swallowed_failure add_two_and_fail (λ r. add_two) session {ended = fresh_boundary} refl
      refl refl (λ r s h. h)
