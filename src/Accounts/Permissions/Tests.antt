-- ===== src/Accounts/Permissions/Tests.antt =====
-- A role's permission that is revoked for the identity.
use zentora_backend.Prelude.{◌≡◌, refl, true, false, none, [], ◌∷◌}
use zentora_backend.Prelude.Int.{pos}
use zentora_backend.Text.{lit}
use zentora_backend.Accounts.Permissions.{
  Grants, Permission, get_user_permissions, holds, by_role, is_revoked,
  get_user_permissions-by_role,
}

abbrev refund : Permission
refund = record { id = pos 5; name = lit "refund"; is_active = true }

abbrev tables : Grants
tables = record {
  roles = record { id = pos 1; name = lit "clerk"; is_active = true } ∷ [];
  permissions = refund ∷ [];
  identity_roles =
      record { identity_id = pos 7; role_id = pos 1; is_active = true; expires_at = none } ∷ [];
  role_permissions = record { role_id = pos 1; permission_id = pos 5 } ∷ [];
  identity_permissions =
      record { identity_id = pos 7; permission_id = pos 5; is_granted = false; expires_at = none }
      ∷ [];
}

by_clerk : by_role 100 (pos 7) tables refund ≡ true
unfolding by_role
by_clerk = refl

-- The revocation of the refund is there.
withdrawn : is_revoked 100 (pos 7) tables refund ≡ true
unfolding is_revoked
withdrawn = refl

get_user_permissions-by_role_example :
    holds (get_user_permissions 100 (pos 7) tables) (lit "refund") ≡ true
get_user_permissions-by_role_example =
    get_user_permissions-by_role 100 (pos 7) tables [] refund [] refl by_clerk
