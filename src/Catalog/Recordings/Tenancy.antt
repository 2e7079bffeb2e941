-- ===== src/Catalog/Recordings/Tenancy.antt =====
-- Every statement on a recording is scoped by its workspace.
use sintade.Prelude.{
  ℕ, ◌≡◌, refl, Bool, true, false, ◌&&◌, update_where, Pointwise, Pointwise-update_where,
}
use sintade.Catalog.Recordings.{
  Recording, Recordings, is_row, is_target, measure, mark_processing, mark_abandoned, mark_ready,
  mark_reprocessing, remeasure, restore_ready, mark_failed, reopen_failed, rename, trash,
  accepts_uploads, is_processing, is_ready, is_failed, is_none,
}
use sintade.Catalog.Recordings.Lifecycle.{
  Op, process, abandon, finish, reprocess, measure_again, restore, give_up, reopen, retitle,
  discard, apply,
}

-- The rows that a call names, each by its id and workspace.
abbrev pub names : Op → Recording → Bool
names (process id ws _) = is_row id ws
names (abandon targets) = is_target targets
names (finish id ws _) = is_row id ws
names (reprocess id ws) = is_row id ws
names (measure_again id ws _) = is_row id ws
names (restore id ws) = is_row id ws
names (give_up id ws) = is_row id ws
names (reopen id ws) = is_row id ws
names (retitle id ws _) = is_row id ws
names (discard id ws) = is_row id ws

-- Only the rows that `p` picks may change.
abbrev pub ChangesOnly : (Recording → Bool) → Recording → Recording → Type 0
ChangesOnly p a b = p a ≡ false → b ≡ a

module _ (p : Recording → Bool) (f : Recording → Recording) where
  update_ChangesOnly :
      (q : Recording → Bool)
      → ((r : Recording) → p r ≡ true → q r ≡ true)
      → (rows : Recordings) → Pointwise (ChangesOnly q) rows (update_where p f rows)
  update_ChangesOnly q h rows =
      Pointwise-update_where (ChangesOnly q) p f (λ r e n. absurd (picked r e n)) (λ r e n. refl)
        rows
    where
      picked : (r : Recording) → p r ≡ true → q r ≡ false → ⊥
      picked r e n = cc (h r e)

left_true : (a b : Bool) → (a && b) ≡ true → a ≡ true
left_true true b h = refl
left_true false b h = cc

-- A statement changes only the rows that it names by id and workspace together: a recording of
-- another workspace is never touched, whatever its id.
pub apply-ChangesOnly :
    (now : ℕ) (op : Op) (rows : Recordings)
    → Pointwise (ChangesOnly (names op)) rows (apply now op rows)
unfolding apply mark_processing mark_abandoned mark_ready mark_reprocessing remeasure restore_ready
    mark_failed reopen_failed rename trash
apply-ChangesOnly now (process id ws _) =
    update_ChangesOnly _ _ (is_row id ws) λ r. left_true (is_row id ws r) (accepts_uploads r.state)
apply-ChangesOnly now (abandon targets) =
    update_ChangesOnly _ _ (is_target targets)
      λ r. left_true (is_target targets r) (accepts_uploads r.state)
apply-ChangesOnly now (finish id ws m) =
    update_ChangesOnly _ _ (is_row id ws) λ r. left_true (is_row id ws r) (is_processing r.state)
apply-ChangesOnly now (reprocess id ws) =
    update_ChangesOnly _ _ (is_row id ws) λ r. left_true (is_row id ws r) (is_ready r.state)
apply-ChangesOnly now (measure_again id ws m) =
    update_ChangesOnly (λ r. is_row id ws r && true) (measure now m) (is_row id ws)
      λ r. left_true (is_row id ws r) true
apply-ChangesOnly now (restore id ws) =
    update_ChangesOnly _ _ (is_row id ws) λ r. left_true (is_row id ws r) (is_processing r.state)
apply-ChangesOnly now (give_up id ws) =
    update_ChangesOnly _ _ (is_row id ws) λ r. left_true (is_row id ws r) (is_processing r.state)
apply-ChangesOnly now (reopen id ws) =
    update_ChangesOnly _ _ (is_row id ws) λ r. left_true (is_row id ws r) (is_failed r.state)
apply-ChangesOnly now (retitle id ws title) =
    update_ChangesOnly _ _ (is_row id ws) λ r. left_true (is_row id ws r) (is_none r.trashed_at)
apply-ChangesOnly now (discard id ws) = update_ChangesOnly _ _ (is_row id ws) λ r e. e
