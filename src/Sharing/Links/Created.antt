-- ===== src/Sharing/Links/Created.antt =====
-- What a created link is, and that it resolves.
use sintade.Prelude.{
  ℕ, ◌≡◌, refl, sym, ◌∙◌, Bool, true, false, not, ◌&&◌, List, [], ◌∷◌, ◌++◌, none, some, ok, any,
  find, All, Bool-cases, inl, inr, arith, ◌==◌, if◌then◌else◌, ok-injective, All-append, All-filter,
  All-map, find-only, any-filter_last, find-append_new, take,
}
use sintade.Prelude.Sort.{All-sort_by, any-sort_by}
use sintade.Prelude.Text.{Text, text_eq, text_eq_sound, text_eq_refl}
use sintade.Catalog.Recordings.{Recordings, exists_in_workspace}
use sintade.Sharing.Slugs.{parse_slug}
use sintade.Sharing.Links.{
  ShareLink, Links, NewLink, Store, has_slug, insert_link, insert_drawn, new_row, create_link,
  resolve, find_by_slug, is_active, is_past, slug_attempts, link_created, list_for_recording,
  newest_first,
}

-- The row that a creation adds, under a slug that was drawn and not taken.
pub record Inserted (row : Text → ShareLink) (drawn : List Text) (links : Links)
    (out : Links × Text) : Type 0 where
  pub appended : out.0 ≡ links ++ row out.1 ∷ []
  pub unused : any (has_slug (row out.1).slug) links ≡ false
  pub drawn_before : any (text_eq out.1) drawn ≡ true

pub insert_drawn-Inserted :
    (row : Text → ShareLink) (drawn : List Text) (links : Links) (out : Links × Text)
    → insert_drawn row drawn links ≡ ok out
    → Inserted row drawn links out
unfolding insert_drawn insert_link
insert_drawn-Inserted row [] links out h = cc
insert_drawn-Inserted row (candidate ∷ others) links out h =
    elim (Bool-cases (any (has_slug (row candidate).slug) links)) [
      | inl e ↦
          let later = insert_drawn-Inserted row others links out (rw e at h) in
          record {
            appended = later.appended;
            unused = later.unused;
            drawn_before = ground (arith, later.drawn_before);
          }
      | inr e ↦
          let same : out ≡ (links ++ row candidate ∷ [], candidate) =
            sym (ok-injective (rw e at h)) in
          record {
            appended = rw same refl;
            unused = rw same e;
            drawn_before = rw (same, text_eq_refl candidate) refl;
          }
    ]

abbrev pub is_free : Links → Text → Bool
is_free links slug = not (any (has_slug slug) links)

insert_drawn-free :
    (row : Text → ShareLink) (drawn : List Text) (links : Links)
    → ((s : Text) → (row s).slug ≡ s)
    → any (is_free links) drawn ≡ true
    → (out : Links × Text) × (insert_drawn row drawn links ≡ ok out)
unfolding insert_drawn insert_link
insert_drawn-free row [] links named h = cc
insert_drawn-free row (candidate ∷ others) links named h =
    elim (Bool-cases (any (has_slug (row candidate).slug) links)) [
      | inl e ↦
          let taken : any (has_slug candidate) links ≡ true = rw (named candidate) at e in
          rw e (insert_drawn-free row others links named (rw taken at h))
      | inr e ↦ rw e ((links ++ row candidate ∷ [], candidate), refl)
    ]

module _ (now id ws rec : ℕ) (new : NewLink) where
  abbrev row : Text → ShareLink
  row slug = new_row now id ws rec slug new

  find-list_for_recording :
      (slug : Text) (links : Links)
      → All (λ (l : ShareLink). (l.id == id) ≡ false) links
      → find (λ l. l.id == id) (list_for_recording ws rec (links ++ row slug ∷ []))
        ≡ some (row slug)
  unfolding list_for_recording
  find-list_for_recording slug links fresh =
      find-only (λ (l : ShareLink). l.id == id) _ (row slug)
        (any-sort_by newest_first (λ (l : ShareLink). l.id == id) _
          ∙ any-filter_last (λ (l : ShareLink). l.id == id) mine links (row slug) (ground arith)
              (ground arith))
        (All-sort_by newest_first IsRow _
          (All-filter IsRow mine _ (All-append IsRow links (row slug ∷ []) old ((λ _. refl), tt))))
    where
      IsRow : ShareLink → Type 0
      IsRow y = (y.id == id) ≡ true → y ≡ row slug

      mine : ShareLink → Bool
      mine l = l.workspace_id == ws && l.recording_id == rec

      old : All IsRow links
      old = All-map _ IsRow (λ l e k. absurd (cc)) links fresh

  after_insert : (actor : ℕ) (store : Store) → Links × Text → Store
  after_insert actor store out = record {
    links = out.0;
    outbox = store.outbox ++ link_created actor id ws rec new ∷ [];
  }

-- A drawn slug is well-formed if `parse` accepts it as it is.
abbrev pub IsSlug : Text → Type 0
IsSlug slug = parse_slug slug ≡ some slug

-- The link that `new` asks for, under `slug`, with its row at the end of the table and its event
-- at the end of the outbox; whenever the slug is resolved, this link is what it stands for.
abbrev pub IsCreated : (now actor id ws rec later : ℕ) → NewLink → Store → Text → Store → Type 0
IsCreated now actor id ws rec later new store slug next =
    (next ≡ record {
      links = store.links ++ new_row now id ws rec slug new ∷ [];
      outbox = store.outbox ++ link_created actor id ws rec new ∷ [];
    })
    × (any (has_slug slug) store.links ≡ false)
    × (resolve later slug next.links ≡ (
        if is_active later (new_row now id ws rec slug new)
        then some (new_row now id ws rec slug new)
        else none))

element_of_any :
    (drawn : List Text) (slug : Text)
    → any (text_eq slug) drawn ≡ true
    → All IsSlug drawn
    → IsSlug slug
element_of_any [] slug h k = cc
element_of_any (s ∷ drawn) slug h k = elim (Bool-cases (text_eq slug s)) [
  | inl e ↦ rw (text_eq_sound slug s e) k.0
  | inr e ↦ element_of_any drawn slug (rw e at h) k.1
]

-- A link for a recording of the workspace, with an expiry in the future if any, is created under
-- one of the first five drawn slugs, if one of them is free.
pub create_link-IsCreated :
    (clock now actor id : ℕ) (drawn : List Text) (recordings : Recordings) (ws rec : ℕ)
    (new : NewLink) (store : Store) (later : ℕ)
    → is_past clock new.expires_at ≡ false
    → exists_in_workspace rec ws recordings ≡ true
    → All (λ (l : ShareLink). (l.id == id) ≡ false) store.links
    → All IsSlug (take slug_attempts drawn)
    → any (is_free store.links) (take slug_attempts drawn) ≡ true
    → (slug : Text) × (next : Store) × (create_link clock now actor id drawn recordings ws rec new
          store
        ≡ ok (next, new_row now id ws rec slug new))
      × IsCreated now actor id ws rec later new store slug next
unfolding create_link resolve find_by_slug after_insert
create_link-IsCreated clock now actor id drawn recordings ws rec new store later future here fresh
      parsed free =
    let (out, inserted) =
      insert_drawn-free (row now id ws rec new) (take slug_attempts drawn) store.links (λ s. refl)
        free in
    let i =
      insert_drawn-Inserted (row now id ws rec new) (take slug_attempts drawn) store.links out
        inserted in
    let found : find (λ (l : ShareLink). l.id == id) (list_for_recording ws rec out.0)
        ≡ some (row now id ws rec new out.1) =
      rw i.appended (find-list_for_recording now id ws rec new out.1 store.links fresh) in
    let behind : find (has_slug out.1) (store.links ++ row now id ws rec new out.1 ∷ [])
        ≡ some (row now id ws rec new out.1) =
      find-append_new (has_slug out.1) store.links (row now id ws rec new out.1) i.unused
        (text_eq_refl out.1) in
    (
      out.1,
      after_insert now id ws rec new actor store out,
      rw (future, here, inserted, found) refl,
      (
        rw i.appended refl,
        i.unused,
        rw
            (
              i.appended,
              element_of_any (take slug_attempts drawn) out.1 i.drawn_before parsed,
              behind,
            )
            refl,
      ),
    )
