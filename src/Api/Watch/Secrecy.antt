-- ===== src/Api/Watch/Secrecy.antt =====
-- A link that is not for a viewer looks like one that does not exist.
use sintade.Prelude.{ℕ, ◌≡◌, refl, List, [], Option, none, ok, err, Option-cases, inl, inr}
use sintade.Prelude.Text.{Text}
use sintade.Catalog.Titles.{Chapter}
use sintade.Sharing.Visibility.{hidden}
use sintade.Sharing.Slugs.{parse_slug}
use sintade.Sharing.Links.{resolve, find_by_slug}
use sintade.Api.Watch.{
  not_found, Site, Resolved, resolve_link, admitted, watch, playback, download_link,
}

-- The same site with no link at all.
abbrev pub without_links : Site → Site
without_links site = record site { links = [] }

resolve-no_links : (clock : ℕ) (slug : Text) → resolve clock slug [] ≡ none
unfolding resolve find_by_slug
resolve-no_links clock slug = elim (Option-cases (parse_slug slug)) [
  | inl e ↦ rw e refl
  | inr (s, e) ↦ rw e refl
]

resolve_link-without_links :
    (clock : ℕ) (session : Option ℕ) (slug : Text) (site : Site)
    → resolve_link clock session slug (without_links site) ≡ err not_found
unfolding resolve_link
resolve_link-without_links clock session slug site = rw (resolve-no_links clock slug) refl

module _ (presign : Text → ℕ → Text) (payload : ℕ → ℕ → ℕ) (chapters_of : ℕ → ℕ → List Chapter)
    (presign_download : Text → ℕ → Text → Text) (download_filename : Text → Text) where
  -- Where a live link is hidden from a viewer, the page, the playback and the download answer as
  -- they would if there were no link at all.
  pub hidden-without_links :
      (clock job : ℕ) (session : Option ℕ) (slug : Text) (site : Site) (r : Resolved)
      → resolve_link clock session slug site ≡ ok r
      → r.decision ≡ hidden
      → (watch presign payload chapters_of clock job session slug site
          ≡ watch presign payload chapters_of clock job session slug (without_links site))
        × (playback presign payload chapters_of clock job session slug site
            ≡ playback presign payload chapters_of clock job session slug (without_links site))
        × (download_link presign_download download_filename clock session slug site
            ≡ download_link presign_download download_filename clock session slug
                (without_links site))
  unfolding watch playback admitted download_link
  hidden-without_links clock job session slug site r found is_hidden =
      let nothing = resolve_link-without_links clock session slug site in
      (
        rw (found, is_hidden, nothing) refl,
        rw (found, is_hidden, nothing) refl,
        rw (found, is_hidden, nothing) refl,
      )
