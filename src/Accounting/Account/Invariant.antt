-- ===== src/Accounting/Account/Invariant.antt =====
-- The rules of the chart of accounts that account.ts enforces.
use main_acounting_system.Prelude.{
  Bool, List, [], arith, false, none, refl, some, subst, sym, true, ◌+◌, ◌∷◌, ◌≡◌, ◌≤◌,
}
use main_acounting_system.Accounting.Account.{
  Account, AccountType, CreateAccountInput, NormalBalance, add_child, admit_child, balance_eq,
  child_account, create_as_child, create_root, rename, set_active, set_postable, type_eq,
  validate_system_account,
}
use main_acounting_system.Accounting.Errors.{DomainError}
use main_acounting_system.Prelude.Outcome.{>>-eq-ok, Outcome, err, ok, ok-injective}
use main_acounting_system.Primitives.Text.{Text}
use main_acounting_system.Time.{DateTime}

-- A postable account is a leaf, and a system account takes no postings and is not active.
pub record IsSound (a : Account) : Type 0 where
  pub leaf : a.postable ≡ true → a.child_count ≡ 0
  pub system_not_postable : a.system ≡ true → a.postable ≡ false
  pub system_not_active : a.system ≡ true → a.active ≡ false
  pub rooted : a.level ≡ 1 → a.parent_id ≡ none
  pub positive : 1 ≤ a.level

-- One method call on an account.
pub data Call : Type 0 where
  add_a_child : Call
  rename_to : Text → DateTime → Call
  set_postable_to set_active_to : Bool → DateTime → Call

unfoldable pub call : Call → Account → Outcome DomainError Account
unfolding add_child rename set_postable set_active
call add_a_child a = add_child a
call (rename_to name now) a = rename name now a
call (set_postable_to flag now) a = set_postable flag now a
call (set_active_to flag now) a = set_active flag now a

-- A caller that catches what a call throws and goes on with the account as it was.
abbrev pub attempt : Outcome DomainError Account → Account → Account
attempt (ok b) a = b
attempt (err e) a = a

unfoldable pub run : List Call → Account → Account
run [] a = a
run (c ∷ cs) a = run cs (attempt (call c a) a)

create_root-IsSound :
    (input : CreateAccountInput) {a : Account} → create_root input ≡ ok a → IsSound a
unfolding create_root
create_root-IsSound input h = ground arith

type_eq_sound : (s t : AccountType) → type_eq s t ≡ true → s ≡ t
unfolding type_eq
type_eq_sound s t h = ground arith

balance_eq_sound : (s t : NormalBalance) → balance_eq s t ≡ true → s ≡ t
unfolding balance_eq
balance_eq_sound s t h = ground arith

-- What the checks of `createAsChild` let through.
admit_child_facts :
    (parent : Account) (input : CreateAccountInput)
    → admit_child parent input ≡ ok tt
    → (parent.type ≡ input.type)
      × (parent.normal_balance ≡ input.normal_balance)
      × (parent.tenant_id ≡ input.tenant_id)
      × (parent.postable ≡ false)
      × (validate_system_account input ≡ ok tt)
unfolding admit_child
admit_child_facts parent input h = ground (
  arith,
  type_eq_sound parent.type input.type,
  balance_eq_sound parent.normal_balance input.normal_balance,
)

system_rules :
    (input : CreateAccountInput)
    → validate_system_account input ≡ ok tt
    → input.system ≡ true
    → (input.postable ≡ false) × (input.active ≡ false)
unfolding validate_system_account
system_rules input h s = ground arith

create_as_child_parts :
    (parent : Account) (input : CreateAccountInput) {a : Account}
    → create_as_child parent input ≡ ok a
    → (admit_child parent input ≡ ok tt) × (child_account parent input ≡ a)
unfolding create_as_child
create_as_child_parts parent input h =
    let (admitted, built) = >>-eq-ok (admit_child parent input) _ h in
    (admitted, ok-injective built)

child_account-IsSound :
    (parent : Account) (input : CreateAccountInput)
    → IsSound parent
    → validate_system_account input ≡ ok tt
    → IsSound (child_account parent input)
child_account-IsSound parent input v h = record {
  leaf = λ _. refl;
  system_not_postable = λ s. (system_rules input h s).0;
  system_not_active = λ s. (system_rules input h s).1;
  rooted = λ e. absurd (omega (arith, v.positive));
  positive = omega arith;
}

create_as_child-IsSound :
    (parent : Account) (input : CreateAccountInput) {a : Account}
    → IsSound parent
    → create_as_child parent input ≡ ok a
    → IsSound a
create_as_child-IsSound parent input v h =
    let (admitted, built) = create_as_child_parts parent input h in
    subst IsSound built
      (child_account-IsSound parent input v (admit_child_facts parent input admitted).4)

attempt-call-IsSound : (c : Call) (a : Account) → IsSound a → IsSound (attempt (call c a) a)
unfolding call
attempt-call-IsSound add_a_child a v = ground arith
attempt-call-IsSound (rename_to name now) a v = ground arith
attempt-call-IsSound (set_postable_to flag now) a v = ground arith
attempt-call-IsSound (set_active_to flag now) a v = ground arith

run-IsSound : (cs : List Call) (a : Account) → IsSound a → IsSound (run cs a)
unfolding run
run-IsSound [] a v = v
run-IsSound (c ∷ cs) a v = run-IsSound cs (attempt (call c a) a) (attempt-call-IsSound c a v)

-- A root account is sound, and stays so through any calls, refused ones included.
pub create_root-run-IsSound :
    (input : CreateAccountInput) {root : Account} (cs : List Call)
    → create_root input ≡ ok root
    → IsSound (run cs root)
create_root-run-IsSound input {root} cs h = run-IsSound cs root (create_root-IsSound input h)

-- A child that is created under a sound account is sound, and stays so through any calls, refused ones
-- included.
pub create_as_child-run-IsSound :
    (parent : Account) (input : CreateAccountInput) {child : Account} (cs : List Call)
    → IsSound parent
    → create_as_child parent input ≡ ok child
    → IsSound (run cs child)
create_as_child-run-IsSound parent input {child} cs v h =
    run-IsSound cs child (create_as_child-IsSound parent input v h)

-- A child is placed under its parent: same company, type and normal balance, one level deeper, and the
-- parent is not postable.
pub create_as_child-inherits :
    (parent : Account) (input : CreateAccountInput) {a : Account}
    → create_as_child parent input ≡ ok a
    → (a.tenant_id ≡ parent.tenant_id)
      × (a.type ≡ parent.type)
      × (a.normal_balance ≡ parent.normal_balance)
      × (a.level ≡ parent.level + 1)
      × (a.parent_id ≡ some parent.id)
      × (parent.postable ≡ false)
create_as_child-inherits parent input h =
    let (admitted, built) = create_as_child_parts parent input h in
    let (types, balances, tenants, postable, _) = admit_child_facts parent input admitted in
    rw (← built) (refl, sym types, sym balances, refl, refl, postable)

-- The facts of an account that no method changes.
abbrev pub SameFrame : Account → Account → Type 0
SameFrame a b =
    (a.id ≡ b.id)
    × (a.tenant_id ≡ b.tenant_id)
    × (a.code ≡ b.code)
    × (a.level ≡ b.level)
    × (a.parent_id ≡ b.parent_id)
    × (a.type ≡ b.type)
    × (a.normal_balance ≡ b.normal_balance)
    × (a.system ≡ b.system)
    × (a.created_at ≡ b.created_at)

abbrev pub Frozen : Account → Account → Type 0
Frozen a b =
    a.system ≡ true
    → (a.name ≡ b.name)
      × (a.postable ≡ b.postable)
      × (a.active ≡ b.active)
      × (a.updated_at ≡ b.updated_at)

attempt-frame : (c : Call) (a : Account) → SameFrame a (attempt (call c a) a)
unfolding call
attempt-frame add_a_child a = ground arith
attempt-frame (rename_to name now) a = ground arith
attempt-frame (set_postable_to flag now) a = ground arith
attempt-frame (set_active_to flag now) a = ground arith

attempt-Frozen : (c : Call) (a : Account) → Frozen a (attempt (call c a) a)
unfolding call
attempt-Frozen add_a_child a = ground arith
attempt-Frozen (rename_to name now) a = ground arith
attempt-Frozen (set_postable_to flag now) a = ground arith
attempt-Frozen (set_active_to flag now) a = ground arith

frames_trans :
    (a b c : Account)
    → SameFrame a b
    → Frozen a b
    → SameFrame b c
    → Frozen b c
    → SameFrame a c × Frozen a c
frames_trans a b c f p g q = ground arith

-- Through any calls an account keeps its identity, company, code, place, type and balance side, and a
-- system account keeps its name and flags too.
pub run_frames : (cs : List Call) (a : Account) → SameFrame a (run cs a) × Frozen a (run cs a)
unfolding run
run_frames [] a = ground arith
run_frames (c ∷ cs) a =
    let b = attempt (call c a) a in
    let ih = run_frames cs b in
    frames_trans a b (run cs b) (attempt-frame c a) (attempt-Frozen c a) ih.0 ih.1
