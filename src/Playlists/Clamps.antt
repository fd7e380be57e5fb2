-- ===== src/Playlists/Clamps.antt =====
-- Nobody may edit what they cannot open: the stored edit access never exceeds the stored
-- visibility, over every history of the writes to the playlist table.
use agro.Base.{
  ℕ, ◌≡◌, refl, Bool, true, false, List, [], ◌∷◌, ◌++◌, Option, some, arith, Text, same, eq_of_same,
  delete, update, any, any-append, All, All-append, All-update, Bool-cases, Option-cases, inl, inr,
  same_refl, subst,
}
use agro.Playlists.{
  Store, Row, has_id, owned, find, get_playlist, bump, bump_revision, create_playlist,
  update_playlist_visibility, update_playlist_edit_access,
}
use agro.Playlists.Access.{
  PlaylistVisibility, EditAccess, flags, from_flags, from_stored, stored, clamped_to, off,
}
use agro.Playlists.Roles.{stored_forms}

-- The access that a row stores is one that its visibility allows.
abbrev pub IsClamped : Row → Type 0
IsClamped r =
    clamped_to (from_stored r.edit_access) (from_flags r.is_public r.friends_only)
    ≡ from_stored r.edit_access

-- `id` is the primary key.
abbrev pub IsKeyed : List Row → Type 0
IsKeyed [] = Unit {0}
IsKeyed (r ∷ rows) = (any (has_id r.id) rows ≡ false) × IsKeyed rows

clamped_to_idem :
    (e : EditAccess) (v : PlaylistVisibility) → clamped_to (clamped_to e v) v ≡ clamped_to e v
unfolding clamped_to
clamped_to_idem e v = ground arith

module _ (q : Row → Bool) (f : Row → Row) (same_id : (r : Row) → (f r).id ≡ r.id) where
  any-has_id-update :
      (id : Text) (rows : List Row) → any (has_id id) (update q f rows) ≡ any (has_id id) rows
  unfolding any update
  any-has_id-update id [] = refl
  any-has_id-update id (r ∷ rows) = ground (arith, same_id r, any-has_id-update id rows)

  pub update-IsKeyed : (rows : List Row) → IsKeyed rows → IsKeyed (update q f rows)
  unfolding update
  update-IsKeyed [] k = tt
  update-IsKeyed (r ∷ rows) k =
      ground (arith, same_id r, any-has_id-update r.id rows, update-IsKeyed rows k.1)

update_of_none :
    (q : Row → Bool) (f : Row → Row) (rows : List Row) → any q rows ≡ false → update q f rows ≡ rows
unfolding any update
update_of_none q f [] h = refl
update_of_none q f (r ∷ rows) h = ground (arith, update_of_none q f rows)

any-delete-false :
    (p q : Row → Bool) (rows : List Row) → any p rows ≡ false → any p (delete q rows) ≡ false
unfolding any delete
any-delete-false p q [] h = refl
any-delete-false p q (r ∷ rows) h = ground (arith, any-delete-false p q rows)

pub delete-IsKeyed : (q : Row → Bool) (rows : List Row) → IsKeyed rows → IsKeyed (delete q rows)
unfolding delete
delete-IsKeyed q [] k = tt
delete-IsKeyed q (r ∷ rows) k =
    ground (arith, any-delete-false (has_id r.id) q rows k.0, delete-IsKeyed q rows k.1)

pub append-IsKeyed :
    (rows : List Row) (r : Row)
    → IsKeyed rows
    → any (has_id r.id) rows ≡ false
    → IsKeyed (rows ++ r ∷ [])
unfolding any
append-IsKeyed [] r k h = (refl, tt)
append-IsKeyed (q ∷ rows) r k h = ground (
  arith,
  any-append (has_id q.id) rows (r ∷ []),
  eq_of_same r.id q.id,
  same_refl r.id,
  append-IsKeyed rows r k.1,
)

-- Where the key finds `r`, an update by key changes that row alone.
update_keyed :
    (id : Text) (f : Row → Row) (rows : List Row) (r : Row)
    → IsKeyed rows
    → All IsClamped rows
    → find (has_id id) rows ≡ some r
    → IsClamped (f r)
    → All IsClamped (update (has_id id) f rows)
unfolding find update
update_keyed id f [] r k c e h = tt
update_keyed id f (q ∷ rows) r k c e h = elim (Bool-cases (same q.id id)) [
  | inl hit ↦
      let key : q.id ≡ id = eq_of_same q.id id hit in
      let alone : update (has_id id) f rows ≡ rows =
        update_of_none (has_id id) f rows (subst (λ t. any (has_id t) rows ≡ false) key k.0) in
      rw (hit, alone) (ground arith)
  | inr miss ↦ rw miss (c.0, update_keyed id f rows r k.1 c.1 (ground arith) h)
]

pub bump_revision-IsClamped :
    (rows : List Row) (id : Text) (now : ℕ)
    → All IsClamped rows
    → All IsClamped (bump_revision rows id now)
unfolding bump_revision
bump_revision-IsClamped rows id now c =
    All-update IsClamped (has_id id) (bump now) rows (λ r h. h) c

pub bump_revision-IsKeyed :
    (rows : List Row) (id : Text) (now : ℕ) → IsKeyed rows → IsKeyed (bump_revision rows id now)
unfolding bump_revision
bump_revision-IsKeyed rows id now k = update-IsKeyed (has_id id) (bump now) (λ r. refl) rows k

pub record IsWellFormed (s : Store) : Type 0 where
  pub keyed : IsKeyed s.playlists
  pub clamped : All IsClamped s.playlists

pub create-IsWellFormed :
    (s : Store) (id user_id title : Text) (description : Option Text) (level : PlaylistVisibility)
    (now : ℕ)
    → any (has_id id) s.playlists ≡ false
    → IsWellFormed s
    → IsWellFormed (create_playlist s id user_id title description level now).0
unfolding create_playlist from_stored clamped_to
create-IsWellFormed s id user_id title description level now fresh v = record {
  keyed = append-IsKeyed s.playlists _ v.keyed fresh;
  clamped =
      All-append IsClamped s.playlists _ v.clamped
        (closed (from_flags (flags level).0 (flags level).1), tt);
}
  where
    closed : (w : PlaylistVisibility) → clamped_to off w ≡ off
    closed PlaylistVisibility.private = refl
    closed PlaylistVisibility.friends = refl
    closed PlaylistVisibility.public = refl

-- The row that a visibility is written to.
visibility_row-IsClamped :
    (r : Row) (e : EditAccess) (level : PlaylistVisibility)
    → IsClamped (record r {
      is_public = (flags level).0;
      friends_only = (flags level).1;
      edit_access = stored (clamped_to e level);
    })
visibility_row-IsClamped r e level =
    let forms = stored_forms level (clamped_to e level) 3 true (omega arith) in
    ground (arith, forms, clamped_to_idem e level)

pub update_playlist_visibility-IsWellFormed :
    (s : Store) (id user_id : Text) (level : PlaylistVisibility) (now : ℕ)
    → IsWellFormed s
    → IsWellFormed (update_playlist_visibility s id user_id level now).0
unfolding update_playlist_visibility
update_playlist_visibility-IsWellFormed s id user_id level now v =
    elim (Option-cases (find (owned id user_id) s.playlists)) [
      | inl miss ↦ rw (miss, update_playlist_visibility) v
      | inr (current, hit) ↦
          let access = clamped_to (from_stored current.edit_access) level in
          let set = λ (r : Row). record r {
            is_public = (flags level).0;
            friends_only = (flags level).1;
            edit_access = stored access;
          } in
          let rows = update (has_id id) set s.playlists in
          rw (hit, update_playlist_visibility)
            (record {
              keyed =
                  bump_revision-IsKeyed rows id now
                    (update-IsKeyed (has_id id) set (λ r. refl) s.playlists v.keyed);
              clamped = bump_revision-IsClamped rows id now (
                  All-update IsClamped (has_id id) set s.playlists
                    (λ r h. visibility_row-IsClamped r (from_stored current.edit_access) level)
                    v.clamped);
            })
    ]

access_row-IsClamped :
    (r : Row) (e : EditAccess)
    → IsClamped
        (record r { edit_access = stored (clamped_to e (from_flags r.is_public r.friends_only)) })
access_row-IsClamped r e =
    let level = from_flags r.is_public r.friends_only in
    let forms = stored_forms level (clamped_to e level) 3 true (omega arith) in
    ground (arith, forms, clamped_to_idem e level)

pub update_playlist_edit_access-IsWellFormed :
    (s : Store) (id who : Text) (access : EditAccess) (now : ℕ)
    → IsWellFormed s
    → IsWellFormed (update_playlist_edit_access s id who access now).0
unfolding update_playlist_edit_access get_playlist
update_playlist_edit_access-IsWellFormed s id who access now v =
    elim (Option-cases (find (has_id id) s.playlists)) [
      | inl miss ↦ rw (miss, update_playlist_edit_access, get_playlist) v
      | inr (p, hit) ↦
          let kept = clamped_to access (from_flags p.is_public p.friends_only) in
          let set = λ (r : Row). record r { edit_access = stored kept } in
          let rows = update (has_id id) set s.playlists in
          let next : IsWellFormed (record s { playlists = bump_revision rows id now }) = record {
            keyed =
                bump_revision-IsKeyed rows id now
                  (update-IsKeyed (has_id id) set (λ r. refl) s.playlists v.keyed);
            clamped = bump_revision-IsClamped rows id now (
                update_keyed id set s.playlists p v.keyed v.clamped hit
                  (access_row-IsClamped p access));
          } in
          rw (hit, update_playlist_edit_access, get_playlist)
            (elim (Bool-cases (same p.user_id who)) [
              | inl mine ↦ rw mine next
              | inr other ↦ rw other v
            ])
    ]
