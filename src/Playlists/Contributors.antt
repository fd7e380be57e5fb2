-- ===== src/Playlists/Contributors.antt =====
-- What an account without the right to rearrange can do to what others added.
use mathlib.Core.List.{append-nil}
use agro.Base.{
  ◌∙◌, ap, ℕ, zero, suc, ◌≡◌, refl, Bool, true, false, ◌&&◌, List, [], ◌∷◌, ◌++◌, map, Option, none,
  some, arith, Text, same, eq_of_same, select, delete, update, if◌then◌else◌, length, All,
  All-delete, Option-cases, inl, inr,
}
use agro.Playlists.Access.{PlaylistRole, can_rearrange}
use agro.Playlists.{
  PlaylistItem, NewPlaylistItem, unplaced, place_at, Store, Playlist, get_playlist, playlist_role,
}
use agro.Playlists.Items.{is_item, insert_item, renumber, renumber_from, item_ids}
use agro.Playlists.Edits.{
  PlaylistEdit, add, remove, move, ok, Draft, insert, place, position, get, is_actor, is_entry,
  apply_add, apply_remove, apply_move, apply_edit, apply_edits, apply_playlist_edits, commit_edits,
  draft_of, Result-cases,
}

module _ {ℓ} {R : Type ℓ} (p : R → Bool) where
  pub select-append : (xs ys : List R) → select p (xs ++ ys) ≡ select p xs ++ select p ys
  unfolding select
  select-append [] ys = refl
  select-append (x ∷ xs) ys = ground (arith, select-append xs ys)

  -- What a DELETE takes away is not selected: the selection stays.
  pub select-delete :
      (q : R → Bool) (xs : List R)
      → ((x : R) → q x ≡ true → p x ≡ false)
      → select p (delete q xs) ≡ select p xs
  unfolding select delete
  select-delete q [] h = refl
  select-delete q (x ∷ xs) h = ground (arith, h x, select-delete q xs h)

select-insert :
    (p : Text → Bool) (n : ℕ) (id : Text) (order : List Text)
    → p id ≡ false
    → select p (insert n id order) ≡ select p order
unfolding select insert
select-insert p zero id order h = ground arith
select-insert p (suc n) id [] h = ground arith
select-insert p (suc n) id (x ∷ order) h = ground (arith, select-insert p n id order h)

module _ (foreign : Text → Bool) (actor : Text) where
  -- The map of adders gives none of the foreign items to the actor.
  abbrev pub NotMine : List (Text × Option Text) → Type 0
  NotMine = All λ e. (foreign e.0 && is_actor actor e.1) ≡ false

  abbrev pub foreign_rows : List PlaylistItem → List PlaylistItem
  foreign_rows = select λ i. foreign i.id

  -- The foreign part of the order and of the rows is that of `d`.
  record Keeps (d d' : Draft) : Type 0 where
    order : select foreign d'.order ≡ select foreign d.order
    items : foreign_rows d'.items ≡ foreign_rows d.items
    mine : NotMine d'.added_by

  not_foreign_of_get :
      (id : Text) (m : List (Text × Option Text)) (adder : Option Text)
      → NotMine m
      → get id m ≡ some adder
      → is_actor actor adder ≡ true
      → foreign id ≡ false
  unfolding get
  not_foreign_of_get id [] adder h e a = ground arith
  not_foreign_of_get id ((k, v) ∷ m) adder h e a =
      ground (arith, eq_of_same k id, not_foreign_of_get id m adder h.1)

  place-Keeps :
      (order : List Text) (id : Text) (after : Option Text) (at_end : Bool) (order' : List Text)
      → foreign id ≡ false
      → place order id after at_end ≡ ok order'
      → select foreign order' ≡ select foreign order
  unfolding place
  place-Keeps order id none at_end order' h e =
      ground (arith, select-insert foreign (if at_end then length order else 0) id order h)
  place-Keeps order id (some anchor) at_end order' h e =
      elim (Option-cases (position anchor order)) [
        | inl miss ↦ ground arith
        | inr (n, hit) ↦ ground (arith, select-insert foreign (suc n) id order h)
      ]

  remove-Keeps :
      (role : PlaylistRole) (d d' : Draft) (id : Text)
      → can_rearrange role ≡ false
      → NotMine d.added_by
      → apply_remove role actor d id ≡ ok d'
      → Keeps d d'
  unfolding apply_remove
  remove-Keeps role d d' id r m e = elim (Option-cases (get id d.added_by)) [
    | inl miss ↦ ground arith
    | inr (adder, hit) ↦
        let gone : is_actor actor adder ≡ true → foreign id ≡ false =
          not_foreign_of_get id d.added_by adder m hit in
        let order : is_actor actor adder ≡ true
            → select foreign (delete (λ it. same it id) d.order) ≡ select foreign d.order =
          λ a.
            select-delete foreign (λ it. same it id) d.order
              (λ x h. ground (arith, eq_of_same x id, gone a)) in
        let items : is_actor actor adder ≡ true
            → foreign_rows (delete (is_item id) d.items) ≡ foreign_rows d.items =
          λ a.
            select-delete (λ i. foreign i.id) (is_item id) d.items
              (λ x h. ground (arith, eq_of_same x.id id, gone a)) in
        let mine : NotMine (delete (is_entry id) d.added_by) =
          All-delete (λ e. (foreign e.0 && is_actor actor e.1) ≡ false) (is_entry id) d.added_by
            m in
        ground (arith, order, items, mine)
  ]

  module _ (mint : ℕ → Text) (playlist_id : Text) (now : ℕ)
      (fresh : (n : ℕ) → foreign (mint n) ≡ false) where
    foreign_rows-insert_item :
        (items : List PlaylistItem) (n : ℕ) (track : NewPlaylistItem)
        → foreign_rows (insert_item items (mint n) playlist_id unplaced actor track now)
          ≡ foreign_rows items
    unfolding insert_item
    foreign_rows-insert_item items n track =
        select-append (λ (i : PlaylistItem). foreign i.id) items _
        ∙ unfold select in rw (fresh n) (append-nil (foreign_rows items))

    add-Keeps :
        (d d' : Draft) (track : NewPlaylistItem) (after : Option Text)
        → NotMine d.added_by
        → apply_add mint playlist_id actor now d track after ≡ ok d'
        → Keeps d d'
    unfolding apply_add
    add-Keeps d d' track after m e =
        elim (Result-cases (place d.order (mint d.minted) after true)) [
          | inl (order, p) ↦ ground (
            arith,
            place-Keeps d.order (mint d.minted) after true order (fresh d.minted),
            fresh d.minted,
            foreign_rows-insert_item d.items d.minted track,
          )
          | inr (error, p) ↦ ground arith
        ]

    apply_edit-Keeps :
        (role : PlaylistRole) (d d' : Draft) (edit : PlaylistEdit)
        → can_rearrange role ≡ false
        → NotMine d.added_by
        → apply_edit mint playlist_id actor now role d edit ≡ ok d'
        → Keeps d d'
    unfolding apply_edit apply_move
    apply_edit-Keeps role d d' (add track after) r m e = add-Keeps d d' track after m e
    apply_edit-Keeps role d d' (remove id) r m e = remove-Keeps role d d' id r m e
    apply_edit-Keeps role d d' (move id after) r m e = ground arith

    apply_edits-Keeps :
        (role : PlaylistRole) (edits : List PlaylistEdit) (d d' : Draft)
        → can_rearrange role ≡ false
        → NotMine d.added_by
        → apply_edits mint playlist_id actor now role d edits ≡ ok d'
        → Keeps d d'
    unfolding apply_edits
    apply_edits-Keeps role [] d d' r m e = ground arith
    apply_edits-Keeps role (edit ∷ edits) d d' r m e =
        elim (Result-cases (apply_edit mint playlist_id actor now role d edit)) [
          | inl (mid, p) ↦
              let k = apply_edit-Keeps role d mid edit r m p in
              ground (arith, k, apply_edits-Keeps role edits mid d' r k.mine)
          | inr (error, p) ↦ ground arith
        ]

-- An item without its position.
abbrev pub content : PlaylistItem → Text × Text × NewPlaylistItem × Option Text
content i = (i.id, i.playlist_id, i.track, i.added_by)

contents-update :
    (foreign : Text → Bool) (n : ℕ) (id : Text) (items : List PlaylistItem)
    → map content (
        select
          (λ i. foreign i.id)
          (update (is_item id) (λ i. record i { position = place_at n }) items))
      ≡ map content (select (λ i. foreign i.id) items)
unfolding select update
contents-update foreign n id [] = refl
contents-update foreign n id (i ∷ items) = ground (arith, contents-update foreign n id items)

contents-renumber_from :
    (foreign : Text → Bool) (n : ℕ) (items : List PlaylistItem) (order : List Text)
    → map content (select (λ i. foreign i.id) (renumber_from n items order))
      ≡ map content (select (λ i. foreign i.id) items)
unfolding renumber_from
contents-renumber_from foreign n items [] = refl
contents-renumber_from foreign n items (id ∷ order) =
    contents-renumber_from foreign (suc n) _ order ∙ contents-update foreign n id items

-- A contributor cannot take apart what others made. Take an edit that succeeds for an account whose
-- role may not rearrange, and any set of item ids that are not among the newly minted ones and of
-- which none, in this playlist, was added by that account. Then the items with these ids are all
-- still there, in the same storage order, each with its playlist, track and adder, and the new
-- order of the playlist, which the rows are numbered by, has the same ones of them in the same
-- order as before.
pub contributor_keeps_others :
    (s s' : Store) (p : Playlist) (mint : ℕ → Text) (playlist_id actor : Text)
    (base now revision : ℕ) (edits : List PlaylistEdit) (foreign : Text → Bool)
    → get_playlist s playlist_id ≡ some p
    → can_rearrange (playlist_role s p actor) ≡ false
    → ((n : ℕ) → foreign (mint n) ≡ false)
    → NotMine foreign actor (draft_of s.playlist_items playlist_id).added_by
    → apply_playlist_edits s mint playlist_id actor base edits now ≡ ok (revision, s')
    → (d : Draft) × (s'.playlist_items ≡ renumber d.items d.order)
      × (select foreign d.order ≡ select foreign (item_ids s.playlist_items playlist_id))
      × (map content (select (λ i. foreign i.id) s'.playlist_items)
          ≡ map content (select (λ i. foreign i.id) s.playlist_items))
unfolding apply_playlist_edits commit_edits
contributor_keeps_others s s' p mint playlist_id actor base now revision edits foreign found r fresh
      m e =
    let start = draft_of s.playlist_items playlist_id in
    let role = playlist_role s p actor in
    elim (Result-cases (apply_edits mint playlist_id actor now role start edits)) [
      | inl (d, h) ↦
          let k =
            apply_edits-Keeps foreign actor mint playlist_id now fresh role edits start d r m h in
          let order : select foreign d.order
              ≡ select foreign (item_ids s.playlist_items playlist_id) =
            unfold draft_of in k.order in
          let items : foreign_rows foreign actor d.items
              ≡ foreign_rows foreign actor s.playlist_items =
            unfold draft_of in k.items in
          let rows : s'.playlist_items ≡ renumber d.items d.order = ground arith in
          (
            d,
            rows,
            order,
            ap (λ (l : List PlaylistItem). map content (select (λ i. foreign i.id) l)) rows
                ∙ contents-renumber_from foreign 0 d.items d.order
                ∙ ap (map content) items,
          )
      | inr (error, h) ↦ ground arith
    ]
