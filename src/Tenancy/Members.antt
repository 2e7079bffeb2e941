-- ===== src/Tenancy/Members.antt =====
-- The `workspaces` and `memberships` tables and the service on them
-- (crates/tenancy/src/infra/repo.rs and crates/tenancy/src/app/service.rs).
pub mod Authority
mod Examples
use sintade.Prelude.{
  ℕ, suc, ◌+◌, Bool, true, false, ◌&&◌, List, [], ◌∷◌, ◌++◌, Option, none, some, Result, ok, err,
  ok_or, map_err, ◌>>=◌, map, ltb, ◌==◌, if◌then◌else◌, find, filter, filter_map, map_ok, consed,
}
use sintade.Prelude.Sort.{sort_by}
use sintade.Prelude.Text.{Text}
use sintade.Tenancy.Roles.{Role, owner, Permission, role_name, parse_role, grants}

pub record Workspace : Type 0 where
  pub id : ℕ
  pub name : Text
  pub is_personal : Bool
  pub created_at : ℕ

-- The role stands in the row as its text.
pub record Member : Type 0 where
  pub workspace_id : ℕ
  pub user_id : ℕ
  pub role : Text

pub record Tenants : Type 0 where
  pub workspaces : List Workspace
  pub memberships : List Member

pub record Membership : Type 0 where
  pub workspace_id : ℕ
  pub name : Text
  pub role : Role
  pub is_personal : Bool

pub data AuthorizeError : Type 0 where
  not_found : AuthorizeError
  forbidden : Role → Permission → AuthorizeError
  unknown_role : Text → AuthorizeError

unfoldable pub insert_workspace : ℕ → ℕ → Text → Bool → Tenants → Tenants
insert_workspace now id name is_personal db = record db {
  workspaces =
      db.workspaces
      ++ record { id = id; name = name; is_personal = is_personal; created_at = now } ∷ [];
}

unfoldable pub insert_membership : ℕ → ℕ → Role → Tenants → Tenants
unfolding role_name
insert_membership workspace user role db = record db {
  memberships =
      db.memberships
      ++ record { workspace_id = workspace; user_id = user; role = role_name role } ∷ [];
}

abbrev pub is_member : ℕ → ℕ → Member → Bool
is_member workspace user m = m.workspace_id == workspace && m.user_id == user

abbrev pub role_of : Option Member → Option Text
role_of none = none
role_of (some m) = some m.role

unfoldable pub find_role : ℕ → ℕ → Tenants → Option Text
find_role workspace user db = role_of (find (is_member workspace user) db.memberships)

-- The workspaces that a user is a member of, each with its membership: the join of the tables.
abbrev pub joined : List Workspace → Member → Option (Workspace × Member)
joined [] m = none
joined (w ∷ ws) m = if w.id == m.workspace_id then some (w, m) else joined ws m

unfoldable pub workspaces_of : ℕ → Tenants → List (Workspace × Member)
workspaces_of user db =
    filter_map (joined db.workspaces) (filter (λ (m : Member). m.user_id == user) db.memberships)

abbrev pub first_id : Option (Workspace × Member) → Option ℕ
first_id none = none
first_id (some (w, _)) = some w.id

unfoldable pub personal_workspace_for : ℕ → Tenants → Option ℕ
unfolding workspaces_of
personal_workspace_for user db =
    first_id (find (λ (e : Workspace × Member). e.0.is_personal) (workspaces_of user db))

abbrev pub oldest_first : Workspace × Member → Workspace × Member → Bool
oldest_first a b = ltb a.0.created_at b.0.created_at

unfoldable pub parse_all : List (Workspace × Member) → Result AuthorizeError (List Membership)
unfolding parse_role
parse_all [] = ok []
parse_all ((w, m) ∷ rows) = do
  role ← map_err unknown_role (parse_role m.role)
  rest ← parse_all rows
  ok (
      record { workspace_id = w.id; name = w.name; role = role; is_personal = w.is_personal }
      ∷ rest)

unfoldable pub list_memberships : ℕ → Tenants → Result AuthorizeError (List Membership)
unfolding parse_all workspaces_of
list_memberships user db = parse_all (sort_by oldest_first (workspaces_of user db))

unfoldable pub create_personal_workspace : ℕ → ℕ → ℕ → Text → Tenants → Tenants
unfolding insert_workspace insert_membership
create_personal_workspace now id user name db =
    insert_membership id user owner (insert_workspace now id name true db)

-- The single tenant check.
unfoldable pub authorize : Tenants → ℕ → Permission → ℕ → Result AuthorizeError Role
unfolding find_role parse_role grants
authorize db user permission workspace = do
  text ← ok_or (find_role workspace user db) not_found
  role ← map_err unknown_role (parse_role text)
  if grants role permission then ok role else err (forbidden role permission)
