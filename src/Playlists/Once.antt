-- ===== src/Playlists/Once.antt =====
-- No two edits are made against one revision, whatever is written between them.
use agro.Base.{
  ℕ, ◌<◌, ◌+◌, ap, if◌then◌else◌, ◌≡◌, ◌≢◌, refl, sym, subst, Bool, true, false, ◌&&◌, List, [],
  ◌∷◌, Option, none, some, arith, Text, same, eq_of_same, any, count, ltb, update, Option-cases,
  Bool-cases, inl, inr, All, All-update, All-append, All-delete,
}
use agro.Playlists.{
  Store, Row, has_id, owned, find, get_playlist, bump, bump_revision, create_playlist,
  update_playlist_visibility, update_playlist_edit_access, delete_playlist, follow_playlist,
  unfollow_playlist,
}
use agro.Playlists.Blends.{
  create_blend, leave_blend, update_blend, write_blend, empty_waiting_blend, erase_playlists,
  is_owner,
}
use agro.Playlists.Items.{
  is_in, is_item, add_playlist_item, add_playlist_items, remove_playlist_item,
}
use agro.Playlists.Edits.{PlaylistEdit, ok, apply_playlist_edits}
use agro.Playlists.Revisions.{apply_playlist_edits-revision}
use agro.Playlists.Clamps.{IsKeyed}
use agro.Playlists.Steps.{
  Step, create, visibility, access, erase, follow, unfollow, add_item, add_items, remove_item,
  edits, details, blend, answer, leave, recipe, rewrite, wait, erase_account, befriend, mints,
  Later, at_once, and_then, edits-playlists, details-playlists, set_details, answer-playlists,
}

-- Every row of the id is past a revision.
abbrev IsPast : Text → ℕ → List Row → Type 0
IsPast id base rows = All (λ r. same r.id id ≡ true → base < r.revision) rows

unnamed-IsPast :
    (id : Text) (base : ℕ) (rows : List Row) → any (has_id id) rows ≡ false → IsPast id base rows
unfolding any
unnamed-IsPast id base [] h = tt
unnamed-IsPast id base (r ∷ rows) h =
    ((λ e. ground arith), unnamed-IsPast id base rows (ground arith))

bump_revision-IsPast :
    (id at : Text) (base now : ℕ) (rows : List Row)
    → IsPast id base rows
    → IsPast id base (bump_revision rows at now)
unfolding bump_revision
bump_revision-IsPast id at base now rows h =
    All-update _ (has_id at) (bump now) rows (λ r k e. ground (arith, k e)) h

update-IsPast :
    (id : Text) (base : ℕ) (q : Row → Bool) (f : Row → Row) (rows : List Row)
    → ((r : Row) → (f r).id ≡ r.id)
    → ((r : Row) → (f r).revision ≡ r.revision)
    → IsPast id base rows
    → IsPast id base (update q f rows)
update-IsPast id base q f rows same_id same_revision h =
    All-update _ q f rows
      (λ r k e.
        subst (λ n. base < n) (sym (same_revision r))
          (k (subst (λ t. same t id ≡ true) (same_id r) e)))
      h

found_here :
    (c : Bool) (q r : Row) (o : Option Row) → c ≡ true → (if c then some q else o) ≡ some r → q ≡ r
found_here true q r o e h = ap (λ (x : Option Row). elim x [ none ↦ q | some y ↦ y ]) h
found_here false q r o e h = ground arith

found_later :
    (c : Bool) (q r : Row) (o : Option Row)
    → c ≡ false
    → (if c then some q else o) ≡ some r
    → o ≡ some r
found_later true q r o e h = ground arith
found_later false q r o e h = h

found_at :
    (o : Option Row) (base : ℕ)
    → (elim o [ none ↦ none | some r ↦ some r.revision ]) ≡ some base
    → (r : Row) × (o ≡ some r) × (r.revision ≡ base)
found_at none base h = absurd (ground arith)
found_at (some r) base h =
    (r, refl, ap (λ (x : Option ℕ). elim x [ none ↦ r.revision | some n ↦ n ]) h)

-- The edited playlist is past the revision that it had.
edited-IsPast :
    (id : Text) (base now : ℕ) (rows : List Row) (r : Row)
    → IsKeyed rows
    → find (has_id id) rows ≡ some r
    → r.revision ≡ base
    → IsPast id base (bump_revision rows id now)
unfolding find bump_revision update
edited-IsPast id base now [] r keyed hit at_base = tt
edited-IsPast id base now (q ∷ rows) r keyed hit at_base = elim (Bool-cases (same q.id id)) [
  | inl e ↦ rw e (
    (λ k.
        subst (λ x. base < x.revision + 1)
          (sym (found_here (same q.id id) q r (find (has_id id) rows) e hit)) (ground arith)),
    bump_revision-IsPast id id base now rows (
        unnamed-IsPast id base rows
          (subst (λ t. any (has_id t) rows ≡ false) (eq_of_same q.id id e) keyed.0)),
  )
  | inr e ↦ rw e (
    (λ k. ground arith),
    edited-IsPast id base now rows r keyed.1
        (found_later (same q.id id) q r (find (has_id id) rows) e hit) at_base,
  )
]

-- A step keeps a playlist past a revision, unless it makes one of the same id.
step-IsPast :
    (id : Text) (base : ℕ) {s s' : Store} (st : Step s s')
    → mints id st ≡ false
    → IsPast id base s.playlists
    → IsPast id base s'.playlists
unfolding create_playlist update_playlist_visibility update_playlist_edit_access get_playlist
    delete_playlist follow_playlist unfollow_playlist add_playlist_item add_playlist_items
    remove_playlist_item create_blend leave_blend update_blend write_blend empty_waiting_blend
    erase_playlists
step-IsPast id base {s} (create made user title d level now fresh) m h =
    All-append _ s.playlists _ h ((λ e. ground arith), tt)
step-IsPast id base {s} (visibility at user level now) m h =
    elim (Option-cases (find (owned at user) s.playlists)) [
      | inl miss ↦ rw (miss, update_playlist_visibility) h
      | inr (current, hit) ↦
          rw (hit, update_playlist_visibility)
            (bump_revision-IsPast id at base now _
              (update-IsPast id base (has_id at) _ s.playlists (λ r. refl) (λ r. refl) h))
    ]
step-IsPast id base {s} (access at who e now) m h =
    elim (Option-cases (find (has_id at) s.playlists)) [
      | inl miss ↦ rw (miss, update_playlist_edit_access, get_playlist) h
      | inr (p, hit) ↦
          rw (hit, update_playlist_edit_access, get_playlist)
            (elim (Bool-cases (same p.user_id who)) [
              | inl mine ↦ rw mine (
                  bump_revision-IsPast id at base now _
                    (update-IsPast id base (has_id at) _ s.playlists (λ r. refl) (λ r. refl) h))
              | inr other ↦ rw other h
            ])
    ]
step-IsPast id base {s} (erase at user) m h =
    elim (Bool-cases (ltb 0 (count (owned at user) s.playlists))) [
      | inl e ↦ rw e (All-delete _ (owned at user) s.playlists h)
      | inr e ↦ rw e h
    ]
step-IsPast id base (follow at who now) m h = h
step-IsPast id base (unfollow at who) m h = h
step-IsPast id base {s} (add_item mint at actor t now) m h =
    bump_revision-IsPast id at base now s.playlists h
step-IsPast id base {s} (add_items mint at actor ts now) m h =
    bump_revision-IsPast id at base now s.playlists h
step-IsPast id base {s} (remove_item at item now) m h =
    elim (Bool-cases (ltb 0 (count (λ i. is_in at i && is_item item i) s.playlist_items))) [
      | inl e ↦ rw e (bump_revision-IsPast id at base now s.playlists h)
      | inr e ↦ rw e h
    ]
step-IsPast id base {s} {s'} (edits mint at actor from now n es t e) m h =
    subst (IsPast id base) (sym (edits-playlists s s' mint at actor from now n es e))
      (bump_revision-IsPast id at base now s.playlists h)
step-IsPast id base {s} {s'} (details at who from title d now n t e) m h =
    subst (IsPast id base) (sym (details-playlists s s' at who from title d now n e)) (
      bump_revision-IsPast id at base now _ (
        update-IsPast id base (has_id at) (set_details title d) s.playlists (λ r. refl) (λ r. refl)
          h))
step-IsPast id base {s} (blend made owner title invited settings now fresh) m h =
    All-append _ s.playlists _ h ((λ e. ground arith), tt)
step-IsPast id base {s} (answer at who accept now) m h =
    subst (IsPast id base) (sym (answer-playlists s at who accept now)) h
step-IsPast id base (leave at who) m h = h
step-IsPast id base {s} (recipe at title settings now) m h = bump_revision-IsPast id at base now _ (
    update-IsPast id base (has_id at) (λ r. record r { title = title }) s.playlists (λ r. refl)
      (λ r. refl) h)
step-IsPast id base {s} (rewrite mint at picks now) m h =
    bump_revision-IsPast id at base now s.playlists h
step-IsPast id base {s} (wait at now) m h =
    elim (Bool-cases (ltb 0 (count (is_in at) s.playlist_items))) [
      | inl e ↦ rw e (bump_revision-IsPast id at base now s.playlists h)
      | inr e ↦ rw e h
    ]
step-IsPast id base {s} (erase_account username) m h =
    All-delete _ (is_owner username) s.playlists h
step-IsPast id base (befriend graph) m h = h

Later-IsPast :
    (id : Text) (base : ℕ) {s t : Store}
    → Later id s t
    → IsPast id base s.playlists
    → IsPast id base t.playlists
Later-IsPast id base at_once h = h
Later-IsPast id base (and_then l st m) h = step-IsPast id base st m (Later-IsPast id base l h)

past-find :
    (id : Text) (base : ℕ) (rows : List Row) (r : Row)
    → IsPast id base rows
    → find (has_id id) rows ≡ some r
    → base < r.revision
unfolding find
past-find id base [] r h e = ground arith
past-find id base (q ∷ rows) r h e = elim (Bool-cases (same q.id id)) [
  | inl hit ↦
      subst (λ x. base < x.revision) (found_here (same q.id id) q r (find (has_id id) rows) hit e)
        (h.0 hit)
  | inr miss ↦
      past-find id base rows r h.1 (found_later (same q.id id) q r (find (has_id id) rows) miss e)
]

-- Two edits cannot both be made against one revision: after an edit that succeeds, on a table of
-- unique ids, no edit of the playlist against the same revision succeeds, whoever makes it and
-- whatever it holds. In between, any of the writes to the tables of playlists, items, followers and
-- blends may be made, and the friend graph may change, as long as no playlist of the same id is made.
pub apply_playlist_edits_once :
    (s s' t : Store) (mint mint' : ℕ → Text) (id actor actor' : Text) (base now later next : ℕ)
    (es es' : List PlaylistEdit) (other : ℕ × Store)
    → IsKeyed s.playlists
    → apply_playlist_edits s mint id actor base es now ≡ ok (next, s')
    → Later id s' t
    → apply_playlist_edits t mint' id actor' base es' later ≢ ok other
apply_playlist_edits_once s s' t mint mint' id actor actor' base now later next es es' (n, s'')
      keyed e between f =
    let first = apply_playlist_edits-revision s s' mint id actor base now next es e in
    let second = apply_playlist_edits-revision t s'' mint' id actor' base later n es' f in
    let edited = found_at (find (has_id id) s.playlists) base first.0 in
    let found = found_at (find (has_id id) t.playlists) base second.0 in
    let past = Later-IsPast id base between (
      subst (IsPast id base) (sym (edits-playlists s s' mint id actor base now next es e))
        (edited-IsPast id base now s.playlists edited.0 keyed edited.1 edited.2)) in
    let beyond = past-find id base t.playlists found.0 past found.1 in
    let level = found.2 in ground (arith, beyond, level)
