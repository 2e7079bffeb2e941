-- ===== src/Sharing/Links/Revoked.antt =====
-- Once a link is revoked, its slug never resolves again.
use sintade.Prelude.{
  ℕ, ◌≡◌, refl, ap, Bool, true, false, ◌&&◌, List, [], ◌∷◌, ◌++◌, none, some, Result, ok, err, any,
  find, update_where, find-update_where, Bool-cases, Option-cases, inl, inr, arith, Result-cases,
  take, subst, sym, ok-injective, all, find-append, ◌==◌, if◌then◌else◌,
}
use sintade.Prelude.Text.{Text, text_eq, byte_len}
use sintade.Catalog.Recordings.{Recordings, is_none, exists_in_workspace}
use sintade.Sharing.Slugs.{parse_slug, slug_len, is_ascii_alphanumeric}
use sintade.Sharing.Links.{
  ShareLink, Links, NewLink, LinkPatch, SharingError, Store, not_found, has_slug, is_link,
  is_changeable, patched, withdrawn, insert_drawn, update_link, revoke_link, create_link,
  update_policy, revoke, resolve, find_by_slug, is_active, is_past, given_expiry, new_row,
  slug_attempts, list_for_recording,
}
use sintade.Sharing.Links.Created.{insert_drawn-Inserted}

-- The calls that change the store.
pub data Call : Type 0 where
  creates : (clock now actor id : ℕ) → List Text → Recordings → ℕ → ℕ → NewLink → Call
  patches : (clock workspace recording id : ℕ) → LinkPatch → Call
  revokes : (now workspace recording id : ℕ) → Call

-- The store after a call; a call that fails is rolled back.
abbrev pub after {ℓ} : {A : Type ℓ} → Store → Result SharingError (Store × A) → Store
after store (ok (next, _)) = next
after store (err _) = store

abbrev pub after_revoke : Store → Result SharingError Store → Store
after_revoke store (ok next) = next
after_revoke store (err _) = store

unfoldable pub step : Store → Call → Store
unfolding create_link update_policy revoke
step store (creates clock now actor id drawn recordings ws rec new) =
    after store (create_link clock now actor id drawn recordings ws rec new store)
step store (patches clock ws rec id patch) = after store (update_policy clock ws rec id patch store)
step store (revokes now ws rec id) = after_revoke store (revoke now ws rec id store)

unfoldable pub run : Store → List Call → Store
unfolding step
run store [] = store
run store (call ∷ calls) = run (step store call) calls

-- The first link with the slug is revoked.
abbrev pub IsDead : Text → Links → Type 0
IsDead slug links =
    (link : ShareLink) × (find (has_slug slug) links ≡ some link)
    × (is_none link.revoked_at ≡ false)

update-IsDead :
    (slug : Text) (p : ShareLink → Bool) (f : ShareLink → ShareLink) (links : Links)
    → ((l : ShareLink) → (f l).slug ≡ l.slug)
    → ((l : ShareLink) → is_none l.revoked_at ≡ false → is_none (f l).revoked_at ≡ false)
    → IsDead slug links
    → IsDead slug (update_where p f links)
update-IsDead slug p f links same stays (link, found, dead) = (
  (if p link then f link else link),
  rw (find-update_where (has_slug slug) p f links (λ l _. ap (λ s. text_eq s slug) (same l)), found)
      refl,
  elim (Bool-cases (p link)) [ inl e ↦ rw e (stays link dead) | inr e ↦ rw e dead ],
)

append-IsDead : (slug : Text) (links new : Links) → IsDead slug links → IsDead slug (links ++ new)
append-IsDead slug links new (link, found, dead) =
    (link, find-append (has_slug slug) links new link found, dead)

create_link-IsDead :
    (slug : Text) (clock now actor id : ℕ) (drawn : List Text) (recordings : Recordings)
    (ws rec : ℕ) (new : NewLink) (store : Store)
    → IsDead slug store.links
    → IsDead slug
        (after store (create_link clock now actor id drawn recordings ws rec new store)).links
unfolding create_link
create_link-IsDead slug clock now actor id drawn recordings ws rec new store dead =
    elim (Bool-cases (is_past clock new.expires_at)) [
      | inl e ↦ rw e dead
      | inr e ↦ elim (Bool-cases (exists_in_workspace rec ws recordings)) [
        | inr missing ↦ rw (e, missing) dead
        | inl here ↦ elim (Result-cases (insert_drawn row (take slug_attempts drawn) store.links)) [
          | inr (_, failed) ↦ rw (e, here, failed) dead
          | inl (out, inserted) ↦
              let more : IsDead slug out.0 =
                rw
                  (insert_drawn-Inserted row (take slug_attempts drawn) store.links out
                    inserted).appended
                  (append-IsDead slug store.links (row out.1 ∷ []) dead) in
              elim (Option-cases
                (find (λ (l : ShareLink). l.id == id) (list_for_recording ws rec out.0))) [
                  | inl lost ↦ rw (e, here, inserted, lost) dead
                  | inr (_, found) ↦ rw (e, here, inserted, found) more
                ]
        ]
      ]
    ]
  where
    row : Text → ShareLink
    row slug = new_row now id ws rec slug new

update_policy-IsDead :
    (slug : Text) (clock ws rec id : ℕ) (patch : LinkPatch) (store : Store)
    → IsDead slug store.links
    → IsDead slug (after store (update_policy clock ws rec id patch store)).links
unfolding update_policy update_link
update_policy-IsDead slug clock ws rec id patch store dead =
    elim (Bool-cases (is_past clock (given_expiry patch.expires_at))) [
      | inl e ↦ rw e dead
      | inr e ↦ elim (Option-cases (find (is_changeable ws rec id) updated)) [
        | inl lost ↦ rw (e, lost) dead
        | inr (_, found) ↦
            rw (e, found)
              (update-IsDead slug (is_changeable ws rec id) (patched patch) store.links (λ l. refl)
                (λ l d. d) dead)
      ]
    ]
  where
    updated : Links
    updated = update_where (is_changeable ws rec id) (patched patch) store.links

revoke-IsDead :
    (slug : Text) (now ws rec id : ℕ) (store : Store)
    → IsDead slug store.links
    → IsDead slug (after_revoke store (revoke now ws rec id store)).links
unfolding revoke revoke_link
revoke-IsDead slug now ws rec id store dead =
    elim (Bool-cases (any (is_link ws rec id) store.links)) [
      | inr lost ↦ rw lost dead
      | inl found ↦ rw found (
          update-IsDead slug (is_link ws rec id) (withdrawn now) store.links (λ l. refl)
            (λ l d. refl) dead)
    ]

run-IsDead :
    (slug : Text) (calls : List Call) (store : Store)
    → IsDead slug store.links
    → IsDead slug (run store calls).links
unfolding run step
run-IsDead slug [] store dead = dead
run-IsDead slug (creates clock now actor id drawn recordings ws rec new ∷ calls) store dead =
    run-IsDead slug calls _
      (create_link-IsDead slug clock now actor id drawn recordings ws rec new store dead)
run-IsDead slug (patches clock ws rec id patch ∷ calls) store dead =
    run-IsDead slug calls _ (update_policy-IsDead slug clock ws rec id patch store dead)
run-IsDead slug (revokes now ws rec id ∷ calls) store dead =
    run-IsDead slug calls _ (revoke-IsDead slug now ws rec id store dead)

parse_slug_sound : (raw slug : Text) → parse_slug raw ≡ some slug → raw ≡ slug
unfolding parse_slug
parse_slug_sound raw slug h =
    elim (Bool-cases (byte_len raw == slug_len && all is_ascii_alphanumeric raw)) [
      | inl e ↦ cc
      | inr e ↦ cc
    ]

revoke-first :
    (now : ℕ) (link : ShareLink) (store next : Store)
    → find (has_slug link.slug) store.links ≡ some link
    → revoke now link.workspace_id link.recording_id link.id store ≡ ok next
    → IsDead link.slug next.links
unfolding revoke revoke_link
revoke-first now link store next found revoked = elim (Bool-cases (any mine store.links)) [
  | inr lost ↦ absurd (impossible (rw lost at revoked))
  | inl here ↦
      let same : next ≡ record store { links = update_where mine (withdrawn now) store.links } =
        sym (ok-injective (rw here at revoked)) in
      rw same (
        withdrawn now link,
        rw
            (
              find-update_where (has_slug link.slug) mine (withdrawn now) store.links (λ l _. refl),
              found,
              itself,
            )
            refl,
        refl,
      )
]
  where
    mine : ShareLink → Bool
    mine = is_link link.workspace_id link.recording_id link.id

    itself : mine link ≡ true
    itself = ground arith

    impossible : ◌≡◌ {A = Result SharingError Store} (err not_found) (ok next) → ⊥
    impossible h = cc

resolve-IsDead :
    (clock : ℕ) (slug : Text) (links : Links) → IsDead slug links → resolve clock slug links ≡ none
unfolding resolve find_by_slug is_active
resolve-IsDead clock slug links (link, found, dead) = elim (Option-cases (parse_slug slug)) [
  | inl e ↦ rw e refl
  | inr (s, e) ↦
      let seen : find (has_slug s) links ≡ some link =
        subst (λ t. find (has_slug t) links ≡ some link) (parse_slug_sound slug s e) found in
      rw (e, seen, dead) refl
]

-- After a link was revoked, whatever the service is asked to create, change or revoke from then
-- on, the link's slug resolves to nothing, at any time.
pub resolve-revoke :
    (now clock : ℕ) (link : ShareLink) (store next : Store) (calls : List Call)
    → find_by_slug link.slug store.links ≡ some link
    → revoke now link.workspace_id link.recording_id link.id store ≡ ok next
    → resolve clock link.slug (run next calls).links ≡ none
unfolding find_by_slug
resolve-revoke now clock link store next calls found revoked =
    resolve-IsDead clock link.slug (run next calls).links
      (run-IsDead link.slug calls next (revoke-first now link store next found revoked))
