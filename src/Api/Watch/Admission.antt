-- ===== src/Api/Watch/Admission.antt =====
-- Who may watch what a link shows, said apart from the code.
use sintade.Prelude.{ℕ, ◌≡◌, refl, true, Option, some, ok, arith}
use sintade.Prelude.Text.{Text}
use sintade.Catalog.Recordings.{Recording, watch_info}
use sintade.Tenancy.Roles.{Role, view_workspace}
use sintade.Tenancy.Members.{Tenants, authorize}
use sintade.Sharing.Visibility.{Visibility, private, workspace, link, public, Viewer, allow, decide}
use sintade.Sharing.Links.{ShareLink, resolve}
use sintade.Api.Watch.{Site, viewer_of}

-- Why a viewer may watch: the link is for anybody who has it, or the viewer is the owner of the
-- recording, or the link is for its workspace and the viewer may view that.
pub data MayWatch (tenants : Tenants) (l : ShareLink) (info : Recording) (session : Option ℕ)
    : Type 0 where
  by_link : l.visibility ≡ link → MayWatch tenants l info session
  by_public : l.visibility ≡ public → MayWatch tenants l info session
  as_owner : session ≡ some info.owner_id → MayWatch tenants l info session
  as_member :
      (user : ℕ) (role : Role)
      → session ≡ some user
      → l.visibility ≡ workspace
      → authorize tenants user view_workspace l.workspace_id ≡ ok role
      → MayWatch tenants l info session

-- A link that resolves to a recording which can be watched by the viewer.
abbrev pub IsOpen : ℕ → Option ℕ → Text → Site → Type 0
IsOpen clock session slug site =
    (l : ShareLink) × (info : Recording) × (resolve clock slug site.links ≡ some l)
    × (watch_info l.recording_id l.workspace_id site.recordings ≡ some info)
    × MayWatch site.tenants l info session

module _ (tenants : Tenants) (l : ShareLink) (info : Recording) where
  owner_may : (v : Visibility) (viewer : Viewer) → viewer.owner ≡ true → decide v viewer ≡ allow
  unfolding decide
  owner_may link viewer h = refl
  owner_may public viewer h = refl
  owner_may private viewer h = rw h refl
  owner_may workspace viewer h = ground arith

  allowed :
      (session : Option ℕ)
      → MayWatch tenants l info session
      → decide l.visibility (viewer_of session l info tenants) ≡ allow
  unfolding decide viewer_of
  allowed session (by_link e) = rw e refl
  allowed session (by_public e) = rw e refl
  allowed session (as_owner e) = owner_may l.visibility _ (rw e (ground arith))
  allowed session (as_member user role e v member) = rw (e, v, member) refl
