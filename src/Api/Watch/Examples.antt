-- ===== src/Api/Watch/Examples.antt =====
-- A recording of workspace 7 behind a link for the workspace, and four people who open it.
use sintade.Prelude.{ℕ, ◌≡◌, refl, true, false, List, [], ◌∷◌, ◌++◌, none, some, ok, err}
use sintade.Prelude.Text.{Text, codes}
use sintade.Catalog.Recordings.{Recording, ready, watch_info}
use sintade.Catalog.Titles.{Chapter}
use sintade.Sharing.Visibility.{Visibility, workspace, hidden, decide}
use sintade.Sharing.Links.{ShareLink, resolve}
use sintade.Media.Renditions.{Rendition, mp4, default}
use sintade.Api.Watch.{
  not_found, forbidden, Site, Resolved, resolve_link, resolved_as, watch, playback, download_link,
  login_page,
}
use sintade.Api.Watch.Secrecy.{without_links, hidden-without_links}

abbrev demo : Recording
demo = record {
  id = 1;
  workspace_id = 7;
  owner_id = 100;
  title = codes "Demo";
  state = ready;
  duration_ms = some 9000;
  width = some 640;
  height = some 360;
  size_bytes = some 90;
  current_take = 11;
  trashed_at = none;
  created_at = 10;
  updated_at = 10;
}

abbrev name : Text
name = codes "0123456789ab"

abbrev link_for : Visibility → ShareLink
link_for visibility = record {
  id = 31;
  workspace_id = 7;
  recording_id = 1;
  slug = name;
  visibility = visibility;
  allow_download = false;
  expires_at = none;
  revoked_at = none;
  created_at = 20;
}

abbrev stored_mp4 : Rendition
stored_mp4 = record {
  workspace_id = 7;
  recording_id = 1;
  take_id = 11;
  kind = mp4;
  variant = default;
  storage_key = codes "base/mp4/default.mp4";
  size_bytes = 90;
  duration_ms = some 9000;
  content_type = none;
  created_at = 15;
}

-- User 100 owns the workspace, user 200 is a member, user 300 is neither.
abbrev site_with : Visibility → Site
site_with visibility = record {
  links = link_for visibility ∷ [];
  recordings = demo ∷ [];
  tenants = record {
    workspaces = [];
    memberships =
        record { workspace_id = 7; user_id = 100; role = codes "owner" }
        ∷ record { workspace_id = 7; user_id = 200; role = codes "member" }
        ∷ [];
  };
  shelf = record { renditions = stored_mp4 ∷ []; media_jobs = []; jobs = [] };
}

abbrev site : Site
site = site_with workspace

abbrev presign : Text → ℕ → Text
presign key ttl = codes "https://s/" ++ key

abbrev presign_download : Text → ℕ → Text → Text
presign_download key ttl file = codes "https://s/" ++ key

abbrev payload : ℕ → ℕ → ℕ
payload take_id ws = take_id

abbrev no_chapters : ℕ → ℕ → List Chapter
no_chapters ws rec = []

abbrev file_name : Text → Text
file_name title = title ++ codes ".mp4"

signed_out : watch presign payload no_chapters 50 61 none name site ≡ ok login_page
unfolding watch resolve_link resolve watch_info decide
signed_out = refl

strangers : watch presign payload no_chapters 50 61 (some 300) name site ≡ err not_found
unfolding watch resolve_link resolve watch_info decide
strangers = refl

not_for_members :
    download_link presign_download file_name 50 (some 200) name site
    ≡ err (forbidden (codes "downloads are turned off for this link"))
unfolding download_link resolve watch_info decide
not_for_members = refl

abbrev stranger : Resolved
stranger =
    resolved_as (link_for workspace) demo
      (record { signed_in = true; workspace_member = false; owner = false })

stranger_found : resolve_link 50 (some 300) name site ≡ ok stranger
unfolding resolve_link resolve watch_info
stranger_found = refl

stranger_out : stranger.decision ≡ hidden
unfolding decide
stranger_out = refl

hidden-without_links_example :
    (watch presign payload no_chapters 50 61 (some 300) name site
      ≡ watch presign payload no_chapters 50 61 (some 300) name (without_links site))
    × (playback presign payload no_chapters 50 61 (some 300) name site
        ≡ playback presign payload no_chapters 50 61 (some 300) name (without_links site))
    × (download_link presign_download file_name 50 (some 300) name site
        ≡ download_link presign_download file_name 50 (some 300) name (without_links site))
hidden-without_links_example =
    hidden-without_links presign payload no_chapters presign_download file_name 50 61 (some 300)
      name site stranger stranger_found stranger_out
