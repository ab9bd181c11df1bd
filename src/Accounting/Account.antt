-- ===== src/Accounting/Account.antt =====
-- domain/aggregates/account.ts with account-type.ts, account-normal-balance.ts and account-code.ts.
pub mod Invariant
pub mod Stored
mod Tests
use main_acounting_system.Prelude.{
  Bool, Option, false, if◌then◌else◌, if◌then◌else◌, if◌then◌else◌, length, ltb, none, not, some,
  true, ℕ, ◌&&◌, ◌+◌, ◌==◌, ◌||◌,
}
use main_acounting_system.Accounting.Errors.{
  DomainError, account_invalid_parent, account_normal_balance_mismatch, account_postable_not_leaf,
  account_postable_with_children, account_system_protected, account_type_mismatch, lift, malformed,
}
use main_acounting_system.Prelude.Outcome.{Outcome, ok, throw_if, ◌>>=◌, ◌>>◌}
use main_acounting_system.Primitives.EntityId.{EntityId}
use main_acounting_system.Primitives.Text.{Text, is_empty, trim, validate_non_blank}
use main_acounting_system.Time.{DateTime}

pub data AccountType : Type 0 where
  asset liability equity revenue expense : AccountType

pub data NormalBalance : Type 0 where
  debit credit : NormalBalance

abbrev pub default_normal_balance : AccountType → NormalBalance
default_normal_balance asset = debit
default_normal_balance liability = credit
default_normal_balance equity = credit
default_normal_balance revenue = credit
default_normal_balance expense = debit

-- `!==` on the `value` of two types.
unfoldable pub type_eq : AccountType → AccountType → Bool
type_eq asset asset = true
type_eq liability liability = true
type_eq equity equity = true
type_eq revenue revenue = true
type_eq expense expense = true
type_eq _ _ = false

unfoldable pub balance_eq : NormalBalance → NormalBalance → Bool
balance_eq debit debit = true
balance_eq credit credit = true
balance_eq _ _ = false

-- `AccountCode.from`; 32 is `MAX_LENGTH`.
unfoldable pub code_from : Text → Outcome DomainError Text
code_from value = lift (validate_non_blank value) >>= λ trimmed.
    throw_if (ltb 32 (length trimmed)) malformed >> ok trimmed

pub record Account : Type 0 where
  pub id : EntityId
  pub tenant_id : EntityId
  pub code : Text
  pub name : Text
  pub level : ℕ
  pub parent_id : Option EntityId
  pub type : AccountType
  pub normal_balance : NormalBalance
  pub postable : Bool
  pub active : Bool
  pub system : Bool
  pub created_at : DateTime
  pub updated_at : DateTime
  pub child_count : ℕ

-- `CreateRootAccountInput`, and `CreateChildAccountInput` without its parent. The id stands for the
-- given or the generated one.
pub record CreateAccountInput : Type 0 where
  pub id : EntityId
  pub tenant_id : EntityId
  pub code : Text
  pub name : Text
  pub type : AccountType
  pub normal_balance : NormalBalance
  pub postable : Bool
  pub active : Bool
  pub system : Bool
  pub now : DateTime

-- `validateName`.
unfoldable pub validate_name : Text → Outcome DomainError (Unit {0})
validate_name name = throw_if (is_empty name || is_empty (trim name)) malformed

-- `validateSystemAccount`.
unfoldable pub validate_system_account : CreateAccountInput → Outcome DomainError (Unit {0})
validate_system_account input =
    if input.system
    then throw_if input.postable account_system_protected
      >> throw_if input.active account_system_protected
    else ok tt

-- `Account.create`.
unfoldable pub create_root : CreateAccountInput → Outcome DomainError Account
unfolding validate_name validate_system_account
create_root input =
    validate_name input.name
    >> validate_system_account input
    >> ok (record {
      id = input.id;
      tenant_id = input.tenant_id;
      code = input.code;
      name = trim input.name;
      level = 1;
      parent_id = none;
      type = input.type;
      normal_balance = input.normal_balance;
      postable = input.postable;
      active = input.active;
      system = input.system;
      created_at = input.now;
      updated_at = input.now;
      child_count = 0;
    })

-- The checks of `Account.createAsChild`, in its order.
unfoldable pub admit_child : Account → CreateAccountInput → Outcome DomainError (Unit {0})
admit_child parent input =
    validate_name input.name
    >> validate_system_account input
    >> throw_if (not (parent.tenant_id == input.tenant_id)) account_invalid_parent
    >> throw_if (not (type_eq parent.type input.type)) account_type_mismatch
    >> throw_if (not (balance_eq parent.normal_balance input.normal_balance))
        account_normal_balance_mismatch
    >> throw_if parent.postable account_postable_with_children

-- The account that `Account.createAsChild` builds.
abbrev pub child_account : Account → CreateAccountInput → Account
child_account parent input = record {
  id = input.id;
  tenant_id = parent.tenant_id;
  code = input.code;
  name = trim input.name;
  level = parent.level + 1;
  parent_id = some parent.id;
  type = input.type;
  normal_balance = input.normal_balance;
  postable = input.postable;
  active = input.active;
  system = input.system;
  created_at = input.now;
  updated_at = input.now;
  child_count = 0;
}

-- `Account.createAsChild`.
unfoldable pub create_as_child : Account → CreateAccountInput → Outcome DomainError Account
create_as_child parent input = admit_child parent input >> ok (child_account parent input)

-- `addChild`; the child itself is not looked at.
unfoldable pub add_child : Account → Outcome DomainError Account
add_child account =
    throw_if account.postable account_postable_with_children
    >> ok (record account { child_count = account.child_count + 1 })

unfoldable pub rename : Text → DateTime → Account → Outcome DomainError Account
unfolding validate_name
rename name now account =
    throw_if account.system account_system_protected
    >> validate_name name
    >> ok (record account { name = trim name; updated_at = now })

unfoldable pub set_postable : Bool → DateTime → Account → Outcome DomainError Account
set_postable postable now account =
    throw_if account.system account_system_protected
    >> throw_if (postable && ltb 0 account.child_count) account_postable_not_leaf
    >> ok (record account { postable = postable; updated_at = now })

unfoldable pub set_active : Bool → DateTime → Account → Outcome DomainError Account
set_active active now account =
    throw_if account.system account_system_protected
    >> ok (record account { active = active; updated_at = now })
