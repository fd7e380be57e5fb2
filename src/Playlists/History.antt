-- ===== src/Playlists/History.antt =====
-- Histories of the playlist table, and what a deletion leaves.
use agro.Base.{
  ℕ, ◌≡◌, refl, sym, true, false, ◌&&◌, List, arith, Text, same, eq_of_same, delete, update, any,
  count, ltb, All, Bool-cases, inl, inr, select, All-delete, All-update, All-append, ◌∙◌, same_comm,
  ltb-count, any-delete_self,
}
use agro.Playlists.{
  Store, Row, PlaylistItem, has_id, owned, bump_revision, delete_playlist, follow_playlist,
  unfollow_playlist,
}
use agro.Playlists.Access.{from_flags, from_stored, clamped_to}
use agro.Playlists.Blends.{
  BlendSettings, blend_row, create_blend, leave_blend, update_blend, write_blend,
  empty_waiting_blend, erase_playlists, is_owner,
}
use agro.Playlists.Items.{
  is_in, is_item, add_playlist_item, add_playlist_items, remove_playlist_item,
}
use agro.Playlists.Contributors.{select-delete}
use agro.Playlists.Steps.{
  Step, create, visibility, access, erase, follow, unfollow, add_item, add_items, remove_item,
  edits, details, blend, answer, leave, recipe, rewrite, wait, erase_account, befriend, Reach,
  start, one_more, edits-playlists, details-playlists, answer-playlists, set_details,
}
use agro.Playlists.Clamps.{
  IsWellFormed, IsClamped, IsKeyed, create-IsWellFormed, update_playlist_visibility-IsWellFormed,
  update_playlist_edit_access-IsWellFormed, bump_revision-IsClamped, bump_revision-IsKeyed,
  delete-IsKeyed, update-IsKeyed, append-IsKeyed,
}

delete-IsWellFormed :
    (s : Store) (id user_id : Text) → IsWellFormed s → IsWellFormed (delete_playlist s id user_id).0
unfolding delete_playlist
delete-IsWellFormed s id user_id v =
    elim (Bool-cases (ltb 0 (count (owned id user_id) s.playlists))) [
      | inl e ↦ rw e (record {
        keyed = delete-IsKeyed (owned id user_id) s.playlists v.keyed;
        clamped = All-delete IsClamped (owned id user_id) s.playlists v.clamped;
      })
      | inr e ↦ rw e v
    ]

-- A step that leaves the table alone but for a revision.
bumped :
    (s s' : Store) (id : Text) (now : ℕ)
    → IsWellFormed s
    → s'.playlists ≡ bump_revision s.playlists id now
    → IsWellFormed s'
bumped s s' id now v e = record {
  keyed = rw e (bump_revision-IsKeyed s.playlists id now v.keyed);
  clamped = rw e (bump_revision-IsClamped s.playlists id now v.clamped);
}

retitled :
    (s : Store) (id : Text) (f : Row → Row)
    → ((r : Row) → (f r).id ≡ r.id)
    → ((r : Row) → IsClamped r → IsClamped (f r))
    → IsWellFormed s
    → IsWellFormed (record s { playlists = update (has_id id) f s.playlists })
retitled s id f same_id same_flags v = record {
  keyed = update-IsKeyed (has_id id) f same_id s.playlists v.keyed;
  clamped = All-update IsClamped (has_id id) f s.playlists same_flags v.clamped;
}

blend-IsWellFormed :
    (s : Store) (id owner title : Text) (invited : List Text) (settings : BlendSettings) (now : ℕ)
    → any (has_id id) s.playlists ≡ false
    → IsWellFormed s
    → IsWellFormed (create_blend s id owner title invited settings now).0
unfolding create_blend from_stored clamped_to from_flags
blend-IsWellFormed s id owner title invited settings now fresh v = record {
  keyed = append-IsKeyed s.playlists (blend_row id owner title now) v.keyed fresh;
  clamped = All-append IsClamped s.playlists _ v.clamped (refl, tt);
}

wait-IsWellFormed :
    (s : Store) (id : Text) (now : ℕ) → IsWellFormed s → IsWellFormed (empty_waiting_blend s id now)
unfolding empty_waiting_blend
wait-IsWellFormed s id now v = elim (Bool-cases (ltb 0 (count (is_in id) s.playlist_items))) [
  | inl e ↦ rw e (bumped s _ id now v refl)
  | inr e ↦ rw e v
]

step-IsWellFormed : {s s' : Store} → Step s s' → IsWellFormed s → IsWellFormed s'
unfolding follow_playlist unfollow_playlist add_playlist_item add_playlist_items
    remove_playlist_item leave_blend update_blend write_blend erase_playlists
step-IsWellFormed {s} (create id user title d level now fresh) v =
    create-IsWellFormed s id user title d level now fresh v
step-IsWellFormed {s} (visibility id user level now) v =
    update_playlist_visibility-IsWellFormed s id user level now v
step-IsWellFormed {s} (access id who e now) v =
    update_playlist_edit_access-IsWellFormed s id who e now v
step-IsWellFormed {s} (erase id user) v = delete-IsWellFormed s id user v
step-IsWellFormed (follow id who now) v = record { keyed = v.keyed; clamped = v.clamped }
step-IsWellFormed (unfollow id who) v = record { keyed = v.keyed; clamped = v.clamped }
step-IsWellFormed {s} (add_item mint id actor t now) v = bumped s _ id now v refl
step-IsWellFormed {s} (add_items mint id actor ts now) v = bumped s _ id now v refl
step-IsWellFormed {s} (remove_item id item now) v =
    let is_it = λ (i : PlaylistItem). is_in id i && is_item item i in
    elim (Bool-cases (ltb 0 (count is_it s.playlist_items))) [
      | inl e ↦ rw e (bumped s _ id now v refl)
      | inr e ↦ rw e v
    ]
step-IsWellFormed {s} {s'} (edits mint id actor base now n es t e) v =
    bumped s s' id now v (edits-playlists s s' mint id actor base now n es e)
step-IsWellFormed {s} {s'} (details id who base title d now n t e) v =
    bumped _ s' id now (retitled s id (set_details title d) (λ r. refl) (λ r h. h) v)
      (details-playlists s s' id who base title d now n e)
step-IsWellFormed {s} (blend id owner title invited settings now fresh) v =
    blend-IsWellFormed s id owner title invited settings now fresh v
step-IsWellFormed {s} (answer id who accept now) v = record {
  keyed = rw (answer-playlists s id who accept now) v.keyed;
  clamped = rw (answer-playlists s id who accept now) v.clamped;
}
step-IsWellFormed (leave id who) v = record { keyed = v.keyed; clamped = v.clamped }
step-IsWellFormed {s} (recipe id title settings now) v =
    bumped _ _ id now (retitled s id (λ r. record r { title = title }) (λ r. refl) (λ r h. h) v)
      refl
step-IsWellFormed {s} (rewrite mint id picks now) v = bumped s _ id now v refl
step-IsWellFormed {s} (wait id now) v = wait-IsWellFormed s id now v
step-IsWellFormed {s} (erase_account username) v = record {
  keyed = delete-IsKeyed (is_owner username) s.playlists v.keyed;
  clamped = All-delete IsClamped (is_owner username) s.playlists v.clamped;
}
step-IsWellFormed (befriend graph) v = record { keyed = v.keyed; clamped = v.clamped }

Reach-IsWellFormed : {s : Store} → Reach s → IsWellFormed s
Reach-IsWellFormed (start s e) = record { keyed = rw e tt; clamped = rw e tt }
Reach-IsWellFormed (one_more r st) = step-IsWellFormed st (Reach-IsWellFormed r)

-- Over every history that starts from no playlists of the writes to the tables of playlists, items,
-- followers and blends, and of changes of the friend graph: playlist ids are unique, and each stored
-- edit access is one that the stored visibility allows, so that clamping it changes nothing.
pub Reach-IsClamped : (s : Store) → Reach s → IsKeyed s.playlists × All IsClamped s.playlists
Reach-IsClamped s r = let v = Reach-IsWellFormed r in (v.keyed, v.clamped)

-- A playlist that the named account owns is deleted with its items, its followers, its blend and
-- the members of it, and nothing of another playlist goes with it; anyone else's call changes
-- nothing.
pub delete_playlist_lem :
    (s : Store) (id user_id other : Text)
    → same other id ≡ false
    → let (after, deleted) = delete_playlist s id user_id in
      (deleted ≡ any (owned id user_id) s.playlists)
      × ((deleted && any (is_in id) after.playlist_items) ≡ false)
      × ((deleted && any (λ f. same f.playlist_id id) after.playlist_followers) ≡ false)
      × ((deleted && any (λ b. same b.playlist_id id) after.blends) ≡ false)
      × ((deleted && any (λ m. same m.playlist_id id) after.blend_members) ≡ false)
      × (select (has_id other) after.playlists ≡ select (has_id other) s.playlists)
      × (select (is_in other) after.playlist_items ≡ select (is_in other) s.playlist_items)
      × (select (λ f. same f.playlist_id other) after.playlist_followers
          ≡ select (λ f. same f.playlist_id other) s.playlist_followers)
      × (select (λ m. same m.playlist_id other) after.blend_members
          ≡ select (λ m. same m.playlist_id other) s.blend_members)
unfolding delete_playlist
delete_playlist_lem s id user_id other h =
    let changed = ltb-count (owned id user_id) s.playlists in
    elim (Bool-cases (ltb 0 (count (owned id user_id) s.playlists))) [
      | inl e ↦ rw e (
        sym e ∙ changed,
        any-delete_self (is_in id) s.playlist_items,
        any-delete_self (λ f. same f.playlist_id id) s.playlist_followers,
        any-delete_self (λ b. same b.playlist_id id) s.blends,
        any-delete_self (λ m. same m.playlist_id id) s.blend_members,
        apart_rows,
        apart_items,
        apart_followers,
        apart_members,
      )
      | inr e ↦ rw e (sym e ∙ changed, refl, refl, refl, refl, refl, refl, refl, refl)
    ]
  where
    apart : (x : Text) → same x id ≡ true → same x other ≡ false
    apart x e = ground (arith, eq_of_same x id, same_comm id other)

    apart_rows :
        select (has_id other) (delete (owned id user_id) s.playlists)
        ≡ select (has_id other) s.playlists
    apart_rows =
        select-delete (has_id other) (owned id user_id) s.playlists
          (λ r e. apart r.id (ground arith))

    apart_items :
        select (is_in other) (delete (is_in id) s.playlist_items)
        ≡ select (is_in other) s.playlist_items
    apart_items =
        select-delete (is_in other) (is_in id) s.playlist_items (λ i e. apart i.playlist_id e)

    apart_followers :
        select
          (λ f. same f.playlist_id other)
          (delete (λ f. same f.playlist_id id) s.playlist_followers)
        ≡ select (λ f. same f.playlist_id other) s.playlist_followers
    apart_followers = select-delete _ _ s.playlist_followers (λ f e. apart f.playlist_id e)

    apart_members :
        select (λ m. same m.playlist_id other) (delete (λ m. same m.playlist_id id) s.blend_members)
        ≡ select (λ m. same m.playlist_id other) s.blend_members
    apart_members = select-delete _ _ s.blend_members (λ m e. apart m.playlist_id e)
