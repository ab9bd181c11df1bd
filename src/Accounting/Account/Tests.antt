-- ===== src/Accounting/Account/Tests.antt =====
-- Concrete accounts.
use main_acounting_system.Prelude.{List, [], arith, false, none, refl, some, true, ◌∷◌, ◌≡◌}
use main_acounting_system.Accounting.Account.{
  Account, CreateAccountInput, admit_child, asset, balance_eq, code_from, create_as_child,
  create_root, debit, set_postable, type_eq, validate_name, validate_system_account,
}
use main_acounting_system.Accounting.Account.Invariant.{
  Call, Frozen, IsSound, SameFrame, add_a_child, create_as_child-inherits,
  create_as_child-run-IsSound, create_root-run-IsSound, run, run_frames, set_postable_to,
}
use main_acounting_system.Accounting.Account.Stored.{
  rehydrate, rehydrate_forgets_children, snapshot,
}
use main_acounting_system.Accounting.Errors.{account_postable_not_leaf}
use main_acounting_system.Prelude.Outcome.{err, ok, ◌>>=◌}
use main_acounting_system.Primitives.Text.{is_space, trim, validate_non_blank}

abbrev an_input : CreateAccountInput
an_input = record {
  id = 1;
  tenant_id = 7;
  code = 49 ∷ [];
  name = 65 ∷ [];
  type = asset;
  normal_balance = debit;
  postable = false;
  active = true;
  system = false;
  now = 5;
}

abbrev a_root : Account
a_root = record {
  id = 1;
  tenant_id = 7;
  code = 49 ∷ [];
  name = 65 ∷ [];
  level = 1;
  parent_id = none;
  type = asset;
  normal_balance = debit;
  postable = false;
  active = true;
  system = false;
  created_at = 5;
  updated_at = 5;
  child_count = 0;
}

abbrev a_child : Account
a_child = record a_root { id = 2; level = 2; parent_id = some 1 }

abbrev calls : List Call
calls = set_postable_to true 6 ∷ add_a_child ∷ []

create_root_test : create_root an_input ≡ ok a_root
unfolding create_root code_from validate_non_blank trim is_space validate_name
    validate_system_account
create_root_test = refl

create_as_child_test : create_as_child a_root (record an_input { id = 2 }) ≡ ok a_child
unfolding create_as_child admit_child type_eq balance_eq code_from validate_non_blank trim is_space
    validate_name validate_system_account
create_as_child_test = refl

create_root-run-IsSound_example : IsSound (run calls a_root)
create_root-run-IsSound_example =
    create_root-run-IsSound an_input {root = a_root} calls create_root_test

create_as_child-run-IsSound_example : IsSound (run calls a_child)
unfolding run
create_as_child-run-IsSound_example =
    create_as_child-run-IsSound a_root (record an_input { id = 2 }) {child = a_child} calls
      (create_root-run-IsSound an_input {root = a_root} [] create_root_test) create_as_child_test

create_as_child-inherits_example :
    (a_child.tenant_id ≡ 7)
    × (a_child.type ≡ asset)
    × (a_child.normal_balance ≡ debit)
    × (a_child.level ≡ 2)
    × (a_child.parent_id ≡ some 1)
    × (a_root.postable ≡ false)
create_as_child-inherits_example =
    create_as_child-inherits a_root (record an_input { id = 2 }) {a = a_child} create_as_child_test

run_frames_example : SameFrame a_root (run calls a_root) × Frozen a_root (run calls a_root)
run_frames_example = run_frames calls a_root

rehydrate_forgets_children_example :
    let parent : Account = record a_root { child_count = 1 } in
    (set_postable true 9 parent ≡ err account_postable_not_leaf)
    × ((rehydrate (snapshot parent) >>= set_postable true 9)
        ≡ ok (record parent { postable = true; updated_at = 9; child_count = 0 }))
unfolding code_from validate_non_blank trim is_space
rehydrate_forgets_children_example =
    rehydrate_forgets_children (record a_root { child_count = 1 }) 9 refl refl (omega arith)
