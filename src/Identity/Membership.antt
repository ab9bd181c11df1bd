-- ===== src/Identity/Membership.antt =====
-- modules/identity/domain/aggregates/membership.ts and membership-role.ts.
use main_acounting_system.Prelude.{Bool, false, not, true}
use main_acounting_system.Identity.{
  IdentityError, invalid_membership_status_transition, invalid_role_assignment_transition,
}
use main_acounting_system.Prelude.Outcome.{Outcome, ok, throw_if, ◌>>◌}
use main_acounting_system.Primitives.EntityId.{EntityId}
use main_acounting_system.Time.{DateTime}

pub data MembershipStatus : Type 0 where
  member_active member_inactive : MembershipStatus

abbrev pub is_active_membership : MembershipStatus → Bool
is_active_membership member_active = true
is_active_membership member_inactive = false

pub record Membership : Type 0 where
  pub id : EntityId
  pub user_id : EntityId
  pub tenant_id : EntityId
  pub status : MembershipStatus
  pub created_at : DateTime
  pub updated_at : DateTime

-- `Membership.create`.
unfoldable pub create_membership : EntityId → EntityId → EntityId → DateTime → Membership
create_membership id user tenant now = record {
  id = id;
  user_id = user;
  tenant_id = tenant;
  status = member_active;
  created_at = now;
  updated_at = now;
}

unfoldable pub activate_membership : DateTime → Membership → Outcome IdentityError Membership
activate_membership now m =
    throw_if (is_active_membership m.status) invalid_membership_status_transition
    >> ok (record m { status = member_active; updated_at = now })

unfoldable pub deactivate_membership : DateTime → Membership → Outcome IdentityError Membership
deactivate_membership now m =
    throw_if (not (is_active_membership m.status)) invalid_membership_status_transition
    >> ok (record m { status = member_inactive; updated_at = now })

pub data MembershipRoleStatus : Type 0 where
  assignment_active assignment_inactive : MembershipRoleStatus

abbrev pub is_active_assignment : MembershipRoleStatus → Bool
is_active_assignment assignment_active = true
is_active_assignment assignment_inactive = false

pub record MembershipRole : Type 0 where
  pub id : EntityId
  pub tenant_id : EntityId
  pub membership_id : EntityId
  pub role_id : EntityId
  pub status : MembershipRoleStatus
  pub created_at : DateTime
  pub updated_at : DateTime

-- `MembershipRole.assign`, without the optional status.
unfoldable pub assign : EntityId → EntityId → EntityId → EntityId → DateTime → MembershipRole
assign id tenant membership role now = record {
  id = id;
  tenant_id = tenant;
  membership_id = membership;
  role_id = role;
  status = assignment_active;
  created_at = now;
  updated_at = now;
}

unfoldable pub activate_assignment :
    DateTime → MembershipRole → Outcome IdentityError MembershipRole
activate_assignment now a =
    throw_if (is_active_assignment a.status) invalid_role_assignment_transition
    >> ok (record a { status = assignment_active; updated_at = now })

unfoldable pub deactivate_assignment :
    DateTime → MembershipRole → Outcome IdentityError MembershipRole
deactivate_assignment now a =
    throw_if (not (is_active_assignment a.status)) invalid_role_assignment_transition
    >> ok (record a { status = assignment_inactive; updated_at = now })
