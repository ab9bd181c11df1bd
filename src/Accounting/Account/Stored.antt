-- ===== src/Accounting/Account/Stored.antt =====
-- `snapshot` and `rehydrate` of an account.
use main_acounting_system.Prelude.{Bool, Option, arith, false, true, ℕ, ◌<◌, ◌≡◌}
use main_acounting_system.Accounting.Account.{
  Account, AccountType, NormalBalance, code_from, set_postable,
}
use main_acounting_system.Accounting.Errors.{DomainError, account_postable_not_leaf}
use main_acounting_system.Prelude.Outcome.{Outcome, err, ok, ◌>>=◌}
use main_acounting_system.Primitives.EntityId.{EntityId}
use main_acounting_system.Primitives.Text.{Text}
use main_acounting_system.Time.{DateTime}

pub record AccountSnapshot : Type 0 where
  pub id : EntityId
  pub tenant_id : EntityId
  pub code : Text
  pub name : Text
  pub level : ℕ
  pub parent_id : Option EntityId
  pub type : AccountType
  pub normal_balance : NormalBalance
  pub postable : Bool
  pub active : Bool
  pub system : Bool
  pub created_at : DateTime
  pub updated_at : DateTime

unfoldable pub snapshot : Account → AccountSnapshot
snapshot a = record {
  id = a.id;
  tenant_id = a.tenant_id;
  code = a.code;
  name = a.name;
  level = a.level;
  parent_id = a.parent_id;
  type = a.type;
  normal_balance = a.normal_balance;
  postable = a.postable;
  active = a.active;
  system = a.system;
  created_at = a.created_at;
  updated_at = a.updated_at;
}

-- A type and a balance side are held as such, so only the code is validated anew. The count of children
-- starts again at 0.
unfoldable pub rehydrate : AccountSnapshot → Outcome DomainError Account
rehydrate row = code_from row.code >>= λ code. ok (record {
  id = row.id;
  tenant_id = row.tenant_id;
  code = code;
  name = row.name;
  level = row.level;
  parent_id = row.parent_id;
  type = row.type;
  normal_balance = row.normal_balance;
  postable = row.postable;
  active = row.active;
  system = row.system;
  created_at = row.created_at;
  updated_at = row.updated_at;
  child_count = 0;
})

-- Storing an account and loading it gives the account with no children counted.
pub rehydrate-snapshot_account :
    (a : Account)
    → code_from a.code ≡ ok a.code
    → rehydrate (snapshot a) ≡ ok (record a { child_count = 0 })
unfolding rehydrate snapshot
rehydrate-snapshot_account a h = rw h

-- An account with children that is not a system account refuses to become postable, but the same account,
-- stored and loaded, accepts it.
pub rehydrate_forgets_children :
    (a : Account) (now : DateTime)
    → code_from a.code ≡ ok a.code
    → a.system ≡ false
    → 0 < a.child_count
    → (set_postable true now a ≡ err account_postable_not_leaf)
      × ((rehydrate (snapshot a) >>= set_postable true now)
          ≡ ok (record a { postable = true; updated_at = now; child_count = 0 }))
unfolding set_postable
rehydrate_forgets_children a now h s c =
    (ground arith, rw (rehydrate-snapshot_account a h) (ground arith))
