-- ===== src/Tenancy/Roles.antt =====
-- The roles and permissions (crates/kernel/src/access.rs) and what a role grants
-- (crates/tenancy/src/domain/mod.rs).
use sintade.Prelude.{◌≡◌, refl, Bool, true, false, List, [], ◌∷◌, Result, ok, ok_or, find}
use sintade.Prelude.Text.{Text, codes, text_eq}

pub data Role : Type 0 where
  owner admin member viewer : Role

pub data Permission : Type 0 where
  view_workspace create_recording edit_recording delete_recording manage_members manage_billing :
      Permission

abbrev pub all_roles : List Role
all_roles = owner ∷ admin ∷ member ∷ viewer ∷ []

unfoldable pub role_name : Role → Text
role_name owner = codes "owner"
role_name admin = codes "admin"
role_name member = codes "member"
role_name viewer = codes "viewer"

-- `Role::from_str`; the error is `UnknownRole`, with the text.
unfoldable pub parse_role : Text → Result Text Role
unfolding role_name
parse_role value = ok_or (find (λ role. text_eq (role_name role) value) all_roles) value

unfoldable pub grants : Role → Permission → Bool
grants owner _ = true
grants admin manage_billing = false
grants admin _ = true
grants member view_workspace = true
grants member create_recording = true
grants member edit_recording = true
grants member delete_recording = true
grants member _ = false
grants viewer view_workspace = true
grants viewer _ = false

pub parse_role-role_name : (role : Role) → parse_role (role_name role) ≡ ok role
unfolding parse_role role_name
parse_role-role_name owner = refl
parse_role-role_name admin = refl
parse_role-role_name member = refl
parse_role-role_name viewer = refl
