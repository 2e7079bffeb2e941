-- ===== src/Sharing/Links.antt =====
-- The `share_links` table and the service on it (crates/sharing/src/infra/repo.rs and
-- crates/sharing/src/app/service.rs). `clock` is the time of the service's clock and `now` the
-- database's `now()`; the identifier of a new link and the slugs that are drawn are arguments.
pub mod Revoked
pub mod Created
mod Examples
use sintade.Prelude.{
  ℕ, zero, suc, ◌+◌, Bool, true, false, not, ◌&&◌, ◌||◌, List, [], ◌∷◌, ◌++◌, Option, none, some,
  Result, ok, err, fail_if, ok_or, ◌>>◌, ◌>>=◌, ltb, leb, ◌==◌, if◌then◌else◌, any, filter, find,
  take, update_where,
}
use sintade.Prelude.Sort.{sort_by}
use sintade.Prelude.Text.{Text, text_eq}
use sintade.Catalog.Recordings.{Recordings, exists_in_workspace, is_none, coalesce}
use sintade.Sharing.Visibility.{Visibility}
use sintade.Sharing.Slugs.{parse_slug}

pub record ShareLink : Type 0 where
  pub id : ℕ
  pub workspace_id : ℕ
  pub recording_id : ℕ
  pub slug : Text
  pub visibility : Visibility
  pub allow_download : Bool
  pub expires_at : Option ℕ
  pub revoked_at : Option ℕ
  pub created_at : ℕ

abbrev pub Links : Type 0
Links = List ShareLink

abbrev pub is_unexpired : ℕ → Option ℕ → Bool
is_unexpired now none = true
is_unexpired now (some expires) = ltb now expires

-- Whether a link still resolves at `now`.
unfoldable pub is_active : ℕ → ShareLink → Bool
is_active now link = is_none link.revoked_at && is_unexpired now link.expires_at

pub record NewLink : Type 0 where
  pub visibility : Visibility
  pub allow_download : Bool
  pub expires_at : Option ℕ

-- A partial update; `expires_at = some none` clears the expiry.
pub record LinkPatch : Type 0 where
  pub visibility : Option Visibility
  pub allow_download : Option Bool
  pub expires_at : Option (Option ℕ)

pub data SharingError : Type 0 where
  not_found expiry_in_past slug_exhausted : SharingError

-- `LinkCreated`, the event.
pub record LinkCreated : Type 0 where
  pub link_id : ℕ
  pub recording_id : ℕ
  pub workspace_id : ℕ
  pub created_by : ℕ
  pub visibility : Visibility

-- What the service changes: the table, and the outbox in the same transaction.
pub record Store : Type 0 where
  pub links : Links
  pub outbox : List LinkCreated

abbrev pub has_slug : Text → ShareLink → Bool
has_slug slug link = text_eq link.slug slug

abbrev pub is_link : ℕ → ℕ → ℕ → ShareLink → Bool
is_link workspace recording id link =
    link.id == id && link.workspace_id == workspace && link.recording_id == recording

abbrev pub new_row : ℕ → ℕ → ℕ → ℕ → Text → NewLink → ShareLink
new_row now id workspace recording slug new = record {
  id = id;
  workspace_id = workspace;
  recording_id = recording;
  slug = slug;
  visibility = new.visibility;
  allow_download = new.allow_download;
  expires_at = new.expires_at;
  revoked_at = none;
  created_at = now;
}

-- `ON CONFLICT (slug) DO NOTHING`: false if the slug is taken.
unfoldable pub insert_link : ShareLink → Links → Links × Bool
insert_link row links =
    if any (has_slug row.slug) links then (links, false) else (links ++ row ∷ [], true)

abbrev pub newest_first : ShareLink → ShareLink → Bool
newest_first a b = ltb b.created_at a.created_at || b.created_at == a.created_at && ltb b.id a.id

unfoldable pub list_for_recording : ℕ → ℕ → Links → Links
list_for_recording workspace recording links =
    sort_by newest_first
      (filter (λ link. link.workspace_id == workspace && link.recording_id == recording) links)

abbrev pub given {ℓ} : {A : Type ℓ} → Option A → A → A
given none old = old
given (some new) old = new

abbrev pub patched : LinkPatch → ShareLink → ShareLink
patched patch link = record link {
  visibility = given patch.visibility link.visibility;
  allow_download = given patch.allow_download link.allow_download;
  expires_at = given patch.expires_at link.expires_at;
}

abbrev pub is_changeable : ℕ → ℕ → ℕ → ShareLink → Bool
is_changeable workspace recording id link =
    is_link workspace recording id link && is_none link.revoked_at

unfoldable pub update_link : ℕ → ℕ → ℕ → LinkPatch → Links → Links × Option ShareLink
update_link workspace recording id patch links =
    let after = update_where (is_changeable workspace recording id) (patched patch) links in
    (after, find (is_changeable workspace recording id) after)

abbrev pub withdrawn : ℕ → ShareLink → ShareLink
withdrawn now link = record link { revoked_at = some (coalesce link.revoked_at now) }

unfoldable pub revoke_link : ℕ → ℕ → ℕ → ℕ → Links → Links × Bool
revoke_link now workspace recording id links = (
  update_where (is_link workspace recording id) (withdrawn now) links,
  any (is_link workspace recording id) links,
)

unfoldable pub find_by_slug : Text → Links → Option ShareLink
find_by_slug slug = find (has_slug slug)

abbrev pub is_past : ℕ → Option ℕ → Bool
is_past clock none = false
is_past clock (some at) = leb at clock

abbrev pub check_expiry : ℕ → Option ℕ → Result SharingError (Unit {0})
check_expiry clock expires_at = fail_if (is_past clock expires_at) expiry_in_past

abbrev pub slug_attempts : ℕ
slug_attempts = 5

-- The loop over the drawn slugs: the first one that is not taken.
unfoldable pub insert_drawn :
    (Text → ShareLink) → List Text → Links → Result SharingError (Links × Text)
unfolding insert_link
insert_drawn row [] links = err slug_exhausted
insert_drawn row (candidate ∷ others) links =
    let (after, inserted) = insert_link (row candidate) links in
    let rest = insert_drawn row others links in if inserted then ok (after, candidate) else rest

abbrev pub link_created : ℕ → ℕ → ℕ → ℕ → NewLink → LinkCreated
link_created actor id workspace recording new = record {
  link_id = id;
  recording_id = recording;
  workspace_id = workspace;
  created_by = actor;
  visibility = new.visibility;
}

unfoldable pub create_link :
    (clock now actor id : ℕ) (drawn : List Text) (recordings : Recordings)
    → (workspace recording : ℕ) → NewLink
    → Store
    → Result SharingError (Store × ShareLink)
unfolding insert_drawn exists_in_workspace list_for_recording
create_link clock now actor id drawn recordings workspace recording new store = do
  check_expiry clock new.expires_at
  fail_if (not (exists_in_workspace recording workspace recordings)) not_found
  inserted ←
      insert_drawn (λ slug. new_row now id workspace recording slug new) (take slug_attempts drawn)
        store.links
  link ←
      ok_or (find (λ link. link.id == id) (list_for_recording workspace recording inserted.0))
        not_found
  ok (
    record {
      links = inserted.0;
      outbox = store.outbox ++ link_created actor id workspace recording new ∷ [];
    },
    link,
  )

unfoldable pub list_links : Recordings → ℕ → ℕ → Store → Result SharingError Links
unfolding exists_in_workspace list_for_recording
list_links recordings workspace recording store = do
  fail_if (not (exists_in_workspace recording workspace recordings)) not_found
  ok (list_for_recording workspace recording store.links)

abbrev pub given_expiry : Option (Option ℕ) → Option ℕ
given_expiry none = none
given_expiry (some expires_at) = expires_at

unfoldable pub update_policy :
    (clock workspace recording id : ℕ) → LinkPatch → Store → Result SharingError (Store × ShareLink)
unfolding update_link
update_policy clock workspace recording id patch store = do
  check_expiry clock (given_expiry patch.expires_at)
  let (after, row) = update_link workspace recording id patch store.links
  link ← ok_or row not_found
  ok (record store { links = after }, link)

unfoldable pub revoke : (now workspace recording id : ℕ) → Store → Result SharingError Store
unfolding revoke_link
revoke now workspace recording id store = do
  let (after, found) = revoke_link now workspace recording id store.links
  fail_if (not found) not_found
  ok (record store { links = after })

abbrev pub kept_if {ℓ} : {A : Type ℓ} → (A → Bool) → Option A → Option A
kept_if p none = none
kept_if p (some x) = if p x then some x else none

abbrev pub lookup_parsed : Option Text → Links → Option ShareLink
lookup_parsed none links = none
lookup_parsed (some slug) links = find_by_slug slug links

-- The live link behind a public slug.
unfoldable pub resolve : ℕ → Text → Links → Option ShareLink
unfolding parse_slug find_by_slug is_active
resolve clock slug links = kept_if (is_active clock) (lookup_parsed (parse_slug slug) links)
