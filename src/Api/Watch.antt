-- ===== src/Api/Watch.antt =====
-- Opening a share link (bin/api/src/routes/watch.rs): the handlers over the sharing, catalog,
-- tenancy and delivery services. A session is the user it is of, or none. What delivery takes as
-- arguments is an argument here, and so are the chapters of a recording. A handler gives its
-- answer; the jobs that a grant queues on the way are those of Delivery/Grants.
pub mod Secrecy
pub mod Admission
mod Examples
use sintade.Prelude.{
  ℕ, ◌+◌, ◌^◌, Bool, true, false, not, ◌&&◌, ◌||◌, List, [], ◌∷◌, ◌++◌, Option, none, some, Result,
  ok, err, ok_or, fail_if, ◌>>=◌, ◌>>◌, leb, ◌==◌, if◌then◌else◌,
}
use sintade.Prelude.Text.{Text, codes}
use sintade.Catalog.Recordings.{
  State, processing, ready, failed, Recording, Recordings, watch_info, is_none,
}
use sintade.Catalog.Titles.{Chapter}
use sintade.Tenancy.Roles.{Role, view_workspace}
use sintade.Tenancy.Members.{Tenants, AuthorizeError, authorize}
use sintade.Sharing.Visibility.{Viewer, anonymous, Decision, allow, login_required, hidden, decide}
use sintade.Sharing.Links.{ShareLink, Links, resolve}
use sintade.Media.Renditions.{Renditions, hls_prefix, sprite_vtt_key}
use sintade.Delivery.Grants.{
  PlaybackKind, PlaybackGrant, DownloadGrant, Shelf, is_mp4, grant, poster, download,
}

-- `AppError` of crates/kernel/src/error.rs.
pub data ApiError : Type 0 where
  not_found : ApiError
  validation : Text → ApiError
  bad_request : Text → ApiError
  unauthorized : Text → ApiError
  forbidden : Text → ApiError
  limit_reached : Text → ApiError
  conflict : Text → ApiError
  rate_limited : ApiError
  internal : Text → ApiError

-- What the services read.
pub record Site : Type 0 where
  pub links : Links
  pub recordings : Recordings
  pub tenants : Tenants
  pub shelf : Shelf

pub data Requirement : Type 0 where
  no_requirement login : Requirement

pub data WatchState : Type 0 where
  still_processing is_ready has_failed : WatchState

pub record WatchPage : Type 0 where
  pub requirement : Requirement
  pub title : Option Text
  pub state : Option WatchState
  pub duration_ms : Option ℕ
  pub width : Option ℕ
  pub height : Option ℕ
  pub created_at : Option ℕ
  pub allow_download : Option Bool
  pub can_download : Option Bool
  pub poster_url : Option Text
  pub chapters : List Chapter

pub record Playback : Type 0 where
  pub kind : PlaybackKind
  pub url : Text
  pub content_type : Text
  pub poster_url : Option Text
  pub hls_url : Option Text
  pub sprite_url : Option Text
  pub expires_in_s : ℕ
  pub duration_ms : Option ℕ

-- A viewer's link, recording and rights.
pub record Resolved : Type 0 where
  pub link : ShareLink
  pub info : Recording
  pub decision : Decision
  pub is_owner : Bool

abbrev pub is_ok : Result AuthorizeError Role → Bool
is_ok (ok _) = true
is_ok (err _) = false

unfoldable pub viewer_of : Option ℕ → ShareLink → Recording → Tenants → Viewer
unfolding authorize
viewer_of none link info tenants = anonymous
viewer_of (some user) link info tenants = record {
  signed_in = true;
  workspace_member = is_ok (authorize tenants user view_workspace link.workspace_id);
  owner = user == info.owner_id;
}

abbrev pub resolved_as : ShareLink → Recording → Viewer → Resolved
resolved_as link info viewer = record {
  link = link;
  info = info;
  decision = decide link.visibility viewer;
  is_owner = viewer.owner;
}

unfoldable pub resolve_link : ℕ → Option ℕ → Text → Site → Result ApiError Resolved
unfolding viewer_of
resolve_link clock session slug site = do
  link ← ok_or (resolve clock slug site.links) not_found
  info ← ok_or (watch_info link.recording_id link.workspace_id site.recordings) not_found
  ok (resolved_as link info (viewer_of session link info site.tenants))

-- What a decision makes of a viewer who is let in, or has to sign in first.
abbrev pub on_decision {ℓ} :
    {A : Type ℓ} → Decision → Result ApiError A → Result ApiError A → Result ApiError A
on_decision allow entered outside = entered
on_decision login_required entered outside = outside
on_decision hidden entered outside = err not_found

abbrev pub watch_state : State → Option WatchState
watch_state processing = some still_processing
watch_state ready = some is_ready
watch_state failed = some has_failed
watch_state _ = none

abbrev pub login_page : WatchPage
login_page = record {
  requirement = login;
  title = none;
  state = none;
  duration_ms = none;
  width = none;
  height = none;
  created_at = none;
  allow_download = none;
  can_download = none;
  poster_url = none;
  chapters = [];
}

abbrev pub is_playable : State → Bool
is_playable ready = true
is_playable processing = true
is_playable _ = false

abbrev pub sign_in : Text
sign_in = codes "sign in to watch this recording"

abbrev pub in_progress : Text
in_progress = codes "this recording is still being processed"

-- The resolved link of a viewer who may watch.
unfoldable pub admitted : ℕ → Option ℕ → Text → Site → Result ApiError Resolved
unfolding resolve_link
admitted clock session slug site = do
  resolved ← resolve_link clock session slug site
  on_decision resolved.decision (ok resolved) (err (unauthorized sign_in))

module _ (presign : Text → ℕ → Text) (payload : ℕ → ℕ → ℕ)
    (chapters_of : ℕ → ℕ → List Chapter) where
  abbrev pub poster_for : (clock job : ℕ) → Resolved → Shelf → WatchState → Option Text
  poster_for clock job resolved shelf is_ready =
      (poster presign payload clock job resolved.link.workspace_id resolved.link.recording_id
        shelf).0
  poster_for clock job resolved shelf _ = none

  abbrev pub watch_page : (clock job : ℕ) → Resolved → Shelf → WatchState → WatchPage
  watch_page clock job resolved shelf state = record {
    requirement = no_requirement;
    title = some resolved.info.title;
    state = some state;
    duration_ms = resolved.info.duration_ms;
    width = resolved.info.width;
    height = resolved.info.height;
    created_at = some resolved.info.created_at;
    allow_download = some resolved.link.allow_download;
    can_download = some (resolved.link.allow_download || resolved.is_owner);
    poster_url = poster_for clock job resolved shelf state;
    chapters = chapters_of resolved.link.workspace_id resolved.link.recording_id;
  }

  abbrev pub shown_page : (clock job : ℕ) → Resolved → Shelf → Result ApiError WatchPage
  shown_page clock job resolved shelf = do
    state ← ok_or (watch_state resolved.info.state) not_found
    ok (watch_page clock job resolved shelf state)

  unfoldable pub watch : (clock job : ℕ) → Option ℕ → Text → Site → Result ApiError WatchPage
  unfolding resolve_link poster
  watch clock job session slug site = do
    resolved ← resolve_link clock session slug site
    on_decision resolved.decision (shown_page clock job resolved site.shelf) (ok login_page)

  abbrev pub has_key : Option Text → Bool
  has_key none = false
  has_key (some _) = true

  abbrev pub under_slug : Text → Text → Bool → Option Text
  under_slug slug file true = some (codes "/api/v1/s/" ++ (slug ++ file))
  under_slug slug file false = none

  abbrev pub playback_of : Text → Resolved → Shelf → PlaybackGrant → Playback
  playback_of slug resolved shelf g = record {
    kind = g.kind;
    url = g.url;
    content_type = g.content_type;
    poster_url = g.poster_url;
    hls_url = under_slug slug (codes "/hls/master.m3u8") (
        is_mp4 g.kind
        && has_key
            (hls_prefix resolved.link.workspace_id resolved.link.recording_id shelf.renditions));
    sprite_url = under_slug slug (codes "/sprite.vtt") (
        has_key
          (sprite_vtt_key resolved.link.workspace_id resolved.link.recording_id shelf.renditions));
    expires_in_s = g.expires_in_s;
    duration_ms = resolved.info.duration_ms;
  }

  unfoldable pub playback : (clock job : ℕ) → Option ℕ → Text → Site → Result ApiError Playback
  unfolding admitted grant
  playback clock job session slug site = do
    resolved ← admitted clock session slug site
    fail_if (not (is_playable resolved.info.state)) (conflict in_progress)
    g ←
        ok_or
          (grant presign payload clock job resolved.link.workspace_id resolved.link.recording_id
            true site.shelf).0
          (conflict in_progress)
    ok (playback_of slug resolved site.shelf g)

abbrev pub is_ready_state : State → Bool
is_ready_state ready = true
is_ready_state _ = false

module _ (presign_download : Text → ℕ → Text → Text) (download_filename : Text → Text) where
  unfoldable pub download_link : ℕ → Option ℕ → Text → Site → Result ApiError DownloadGrant
  unfolding resolve_link download
  download_link clock session slug site = do
    resolved ← resolve_link clock session slug site
    on_decision resolved.decision (ok tt)
        (err (unauthorized (codes "sign in to download this recording")))
    fail_if (not (resolved.link.allow_download || resolved.is_owner))
        (forbidden (codes "downloads are turned off for this link"))
    ok_or
        (if is_ready_state resolved.info.state
          then download presign_download download_filename resolved.link.workspace_id
              resolved.link.recording_id resolved.info.title site.shelf.renditions
          else none)
        (conflict in_progress)
