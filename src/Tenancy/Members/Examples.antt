-- ===== src/Tenancy/Members/Examples.antt =====
-- Two users and their workspaces.
use sintade.Prelude.{◌≡◌, refl, [], ◌∷◌, ok, err, some, true}
use sintade.Prelude.Text.{codes}
use sintade.Tenancy.Roles.{owner, member, create_recording, manage_billing}
use sintade.Tenancy.Members.{
  Tenants, not_found, create_personal_workspace, authorize, personal_workspace_for,
}
use sintade.Tenancy.Members.Authority.{authorize-create_personal_workspace}

-- User 100 has workspace 7, where user 200 is a member.
abbrev team : Tenants
team = record {
  workspaces = record { id = 7; name = codes "Home"; is_personal = true; created_at = 10 } ∷ [];
  memberships =
      record { workspace_id = 7; user_id = 100; role = codes "owner" }
      ∷ record { workspace_id = 7; user_id = 200; role = codes "member" }
      ∷ [];
}

members_record : authorize team 200 create_recording 7 ≡ ok member
unfolding authorize
members_record = refl

strangers : authorize team 300 create_recording 7 ≡ err not_found
unfolding authorize
strangers = refl

home_of : personal_workspace_for 100 team ≡ some 7
unfolding personal_workspace_for
home_of = refl

authorize-create_personal_workspace_example :
    let after = create_personal_workspace 20 8 200 (codes "Mine") team in
    (authorize after 200 manage_billing 8 ≡ ok owner)
    × (authorize after 200 manage_billing 7 ≡ authorize team 200 manage_billing 7)
authorize-create_personal_workspace_example =
    authorize-create_personal_workspace 20 8 200 (codes "Mine") team manage_billing 7 200 refl refl
