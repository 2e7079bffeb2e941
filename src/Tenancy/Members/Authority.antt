-- ===== src/Tenancy/Members/Authority.antt =====
-- Who passes the tenant check.
use sintade.Prelude.{
  ℕ, ◌≡◌, refl, true, false, ◌&&◌, List, [], ◌∷◌, ◌++◌, ok, find, arith, ◌==◌, any, find-append_new,
}
use sintade.Prelude.Text.{Text}
use sintade.Tenancy.Roles.{owner, Permission, role_name}
use sintade.Tenancy.Members.{
  Member, Tenants, is_member, find_role, authorize, create_personal_workspace, insert_workspace,
  insert_membership,
}

-- The rows of other pairs are found as before, and a new pair finds its own row.
find-other :
    (ws user : ℕ) (rows : List Member) (row : Member)
    → is_member ws user row ≡ false
    → find (is_member ws user) (rows ++ row ∷ []) ≡ find (is_member ws user) rows
find-other ws user [] row h = ground arith
find-other ws user (m ∷ rows) row h = ground (arith, find-other ws user rows row h)

-- What the new workspace leaves alone: every other pair of a user and a workspace.
abbrev pub IsOther : (ws user other_ws other : ℕ) → Type 0
IsOther ws user other_ws other = (ws == other_ws && user == other) ≡ false

-- Whoever gets a new personal workspace has every permission in it, as its owner; for every other
-- pair of a user and a workspace the check answers as before.
pub authorize-create_personal_workspace :
    (now id user : ℕ) (name : Text) (db : Tenants) (permission : Permission) (other_ws other : ℕ)
    → any (is_member id user) db.memberships ≡ false
    → IsOther id user other_ws other
    → let after = create_personal_workspace now id user name db in
      (authorize after user permission id ≡ ok owner)
      × (authorize after other permission other_ws ≡ authorize db other permission other_ws)
unfolding authorize find_role create_personal_workspace insert_workspace insert_membership
authorize-create_personal_workspace now id user name db permission other_ws other fresh differ = (
  rw (find-append_new (is_member id user) db.memberships row fresh itself) refl,
  rw (find-other other_ws other db.memberships row (ground arith)) refl,
)
  where
    row : Member
    row = record { workspace_id = id; user_id = user; role = role_name owner }

    itself : is_member id user row ≡ true
    itself = ground arith
