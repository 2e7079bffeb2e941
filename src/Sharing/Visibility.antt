-- ===== src/Sharing/Visibility.antt =====
-- Who may open a share link (crates/sharing/src/domain/visibility.rs and access.rs).
use sintade.Prelude.{◌≡◌, refl, Bool, false, ◌||◌, Option, none, some, if◌then◌else◌}
use sintade.Prelude.Text.{Text, codes, text_eq}

pub data Visibility : Type 0 where
  private workspace link public : Visibility

unfoldable pub as_str : Visibility → Text
as_str private = codes "private"
as_str workspace = codes "workspace"
as_str link = codes "link"
as_str public = codes "public"

unfoldable pub parse_visibility : Text → Option Visibility
parse_visibility raw =
    if text_eq raw (codes "private")
    then some private
    else if text_eq raw (codes "workspace")
    then some workspace
    else if text_eq raw (codes "link")
    then some link
    else if text_eq raw (codes "public")
    then some public
    else none

-- Who is opening a link.
pub record Viewer : Type 0 where
  pub signed_in : Bool
  pub workspace_member : Bool
  pub owner : Bool

abbrev pub anonymous : Viewer
anonymous = record { signed_in = false; workspace_member = false; owner = false }

pub data Decision : Type 0 where
  allow login_required hidden : Decision

unfoldable pub decide : Visibility → Viewer → Decision
decide link viewer = allow
decide public viewer = allow
decide workspace viewer =
    if viewer.workspace_member || viewer.owner
    then allow
    else if viewer.signed_in
    then hidden
    else login_required
decide private viewer = if viewer.owner then allow else hidden

pub parse_visibility-as_str : (v : Visibility) → parse_visibility (as_str v) ≡ some v
unfolding parse_visibility as_str
parse_visibility-as_str private = refl
parse_visibility-as_str workspace = refl
parse_visibility-as_str link = refl
parse_visibility-as_str public = refl
