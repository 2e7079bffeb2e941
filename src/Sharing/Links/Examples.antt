-- ===== src/Sharing/Links/Examples.antt =====
-- Links of one recording: two are created, one is revoked, and what their slugs resolve to.
use sintade.Prelude.{◌≡◌, refl, List, [], ◌∷◌, true, some, none, ok, err, All}
use sintade.Prelude.Text.{Text, codes}
use sintade.Prelude.Sort.{sort_by}
use sintade.Catalog.Recordings.{Recordings, insert_recording, exists_in_workspace}
use sintade.Sharing.Slugs.{parse_slug}
use sintade.Sharing.Visibility.{public, workspace}
use sintade.Sharing.Links.{
  ShareLink, NewLink, LinkPatch, Store, slug_exhausted, expiry_in_past, create_link, revoke,
  resolve, find_by_slug, new_row,
}
use sintade.Sharing.Links.Created.{IsSlug, IsCreated, create_link-IsCreated}
use sintade.Sharing.Links.Revoked.{Call, creates, patches, run, resolve-revoke}

abbrev table : Recordings
table = unfold insert_recording in insert_recording 10 1 7 100 (codes "Demo") 11 []

abbrev first_slug : Text
first_slug = codes "0123456789ab"

abbrev second_slug : Text
second_slug = codes "ABCDEFGHIJKL"

abbrev for_all : NewLink
for_all = record { visibility = public; allow_download = true; expires_at = some 500 }

abbrev for_members : LinkPatch
for_members = record { visibility = some workspace; allow_download = none; expires_at = some none }

abbrev first_link : ShareLink
first_link = new_row 20 31 7 1 first_slug for_all

abbrev shared : Store
shared = record { links = first_link ∷ []; outbox = [] }

abbrev drawn : List Text
drawn = first_slug ∷ second_slug ∷ []

-- The first slug that is drawn is taken.
second_link :
    find_by_slug second_slug (run shared (creates 30 30 100 32 drawn table 7 1 for_all ∷ [])).links
    ≡ some (new_row 30 32 7 1 second_slug for_all)
unfolding run create_link exists_in_workspace insert_recording find_by_slug sort_by
second_link = refl

all_taken :
    create_link 30 30 100 32 (first_slug ∷ first_slug ∷ []) table 7 1 for_all shared
    ≡ err slug_exhausted
unfolding create_link exists_in_workspace insert_recording
all_taken = refl

too_late : create_link 500 500 100 32 drawn table 7 1 for_all shared ≡ err expiry_in_past
unfolding create_link
too_late = refl

until_expiry : resolve 499 first_slug shared.links ≡ some first_link
unfolding resolve parse_slug
until_expiry = refl

from_expiry : resolve 500 first_slug shared.links ≡ none
unfolding resolve parse_slug
from_expiry = refl

here : exists_in_workspace 1 7 table ≡ true
unfolding exists_in_workspace insert_recording
here = refl

well_formed : All IsSlug drawn
unfolding parse_slug
well_formed = (refl, (refl, tt))

create_link-IsCreated_example :
    (slug : Text) × (next : Store) × (create_link 30 30 100 32 drawn table 7 1 for_all shared
      ≡ ok (next, new_row 30 32 7 1 slug for_all))
    × IsCreated 30 100 32 7 1 499 for_all shared slug next
create_link-IsCreated_example =
    create_link-IsCreated 30 30 100 32 drawn table 7 1 for_all shared 499 refl here (refl, tt)
      well_formed refl

abbrev revoked : Store
revoked = record { links = record first_link { revoked_at = some 40 } ∷ []; outbox = [] }

found : find_by_slug first_slug shared.links ≡ some first_link
unfolding find_by_slug
found = refl

revoke_first : revoke 40 7 1 31 shared ≡ ok revoked
unfolding revoke
revoke_first = refl

abbrev later_calls : List Call
later_calls = patches 50 7 1 31 for_members ∷ creates 60 60 100 33 drawn table 7 1 for_all ∷ []

resolve-revoke_example : resolve 70 first_slug (run revoked later_calls).links ≡ none
resolve-revoke_example =
    resolve-revoke 40 70 first_link shared revoked later_calls found revoke_first
