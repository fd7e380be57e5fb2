-- ===== src/Playlists/Edits.antt =====
-- Changing a playlist that more than one account may edit: src/db_playlist_edits.rs. The ids that
-- the source mints with `Uuid::new_v4` are `mint 0`, `mint 1`, … in the order of the added items.
use agro.Base.{
  ℕ, zero, suc, ◌≡◌, ◌⊎◌, inl, inr, refl, Bool, true, false, ◌&&◌, not, List, [], ◌∷◌, map, Option,
  none, some, Text, same, codes, select, delete, update, ltb, ◌==◌, if◌then◌else◌, length,
}
use agro.Playlists.Access.{PlaylistRole, can_add, can_rearrange}
use agro.Playlists.{
  Store, Row, PlaylistItem, NewPlaylistItem, unplaced, has_id, get_playlist, find, playlist_role,
  bump_revision,
}
use agro.Playlists.Items.{is_in, is_item, item_ids, insert_item, renumber}
use agro.Playlists.Roles.{is_none}

pub data PlaylistEdit : Type 0 where
  add : NewPlaylistItem → Option Text → PlaylistEdit
  remove : Text → PlaylistEdit
  move : Text → Option Text → PlaylistEdit

-- `Db(…)` is left out: a database error rolls the transaction back.
pub data EditError : Type 0 where
  not_found : EditError
  stale : ℕ → EditError
  forbidden : Text → EditError
  invalid : Text → EditError

pub data Result {ℓ} (A : Type ℓ) : Type ℓ where
  ok : A → Result A
  err : EditError → Result A

infixl 5 ◌>>=◌
abbrev pub ◌>>=◌ {ℓ κ} : {A : Type ℓ} {B : Type κ} → Result A → (A → Result B) → Result B
ok a >>= f = f a
err e >>= f = err e

pub Result-cases {ℓ} :
    {A : Type ℓ} (r : Result A) → ((a : A) × (r ≡ ok a)) ⊎ ((e : EditError) × (r ≡ err e))
Result-cases (ok a) = inl (a, refl)
Result-cases (err e) = inr (e, refl)

abbrev pub max_edits : ℕ
max_edits = 500

-- `Vec::insert`, `Iterator::position` and `Vec::remove` on the list of ids.
unfoldable pub insert : ℕ → Text → List Text → List Text
insert zero id order = id ∷ order
insert (suc n) id [] = id ∷ []
insert (suc n) id (x ∷ order) = x ∷ insert n id order

abbrev one_more : Option ℕ → Option ℕ
one_more none = none
one_more (some n) = some (suc n)

unfoldable pub position : Text → List Text → Option ℕ
position id [] = none
position id (x ∷ order) =
    let rest = one_more (position id order) in if same x id then some 0 else rest

unfoldable pub remove_at : ℕ → List Text → List Text
remove_at n [] = []
remove_at zero (x ∷ order) = order
remove_at (suc n) (x ∷ order) = x ∷ remove_at n order

abbrev index_after : Text → List Text → Result ℕ
index_after anchor order = elim (position anchor order) [
  | none ↦ err (invalid (codes "no such item to place after"))
  | some n ↦ ok (suc n)
]

unfoldable pub place : List Text → Text → Option Text → Bool → Result (List Text)
place order id (some anchor) at_end = do
  index ← index_after anchor order
  ok (insert index id order)
place order id none at_end = ok (insert (if at_end then length order else 0) id order)

-- What the loop of `apply_playlist_edits` carries: the rows, the order, who added what, and how
-- many ids are minted.
pub record Draft : Type 0 where
  pub items : List PlaylistItem
  pub order : List Text
  pub added_by : List (Text × Option Text)
  pub minted : ℕ

unfoldable pub get : Text → List (Text × Option Text) → Option (Option Text)
get id [] = none
get id ((k, v) ∷ m) = let rest = get id m in if same k id then some v else rest

abbrev pub is_entry : Text → Text × Option Text → Bool
is_entry id e = same e.0 id

abbrev pub is_actor : Text → Option Text → Bool
is_actor actor none = false
is_actor actor (some who) = same who actor

abbrev same_option : Option Text → Text → Bool
same_option none id = false
same_option (some a) id = same a id

unfoldable pub apply_add :
    (ℕ → Text) → Text → Text → ℕ → Draft → NewPlaylistItem → Option Text → Result Draft
apply_add mint playlist_id actor now d track after = do
  let id = mint d.minted
  order ← place d.order id after true
  ok (record {
    items = insert_item d.items id playlist_id unplaced actor track now;
    order = order;
    added_by = (id, some actor) ∷ d.added_by;
    minted = suc d.minted;
  })

abbrev pub removed : Draft → Text → Draft
removed d item_id = record d {
  items = delete (is_item item_id) d.items;
  order = delete (λ it. same it item_id) d.order;
  added_by = delete (is_entry item_id) d.added_by;
}

unfoldable pub apply_remove : PlaylistRole → Text → Draft → Text → Result Draft
apply_remove role actor d item_id = elim (get item_id d.added_by) [
  | none ↦ err (invalid (codes "no such item"))
  | some adder ↦
      if not (can_rearrange role) && not (is_actor actor adder)
      then err (forbidden (codes "you may only remove tracks you added"))
      else ok (removed d item_id)
]

unfoldable pub apply_move : PlaylistRole → Draft → Text → Option Text → Result Draft
apply_move role d item_id after =
    if not (can_rearrange role)
    then err (forbidden (codes "you may not reorder this playlist"))
    else if same_option after item_id
    then err (invalid (codes "an item cannot be placed after itself"))
    else elim (position item_id d.order) [
      | none ↦ err (invalid (codes "no such item"))
      | some from ↦ do
        order ← place (remove_at from d.order) item_id after false
        ok (record d { order = order })
    ]

unfoldable pub apply_edit :
    (ℕ → Text) → Text → Text → ℕ → PlaylistRole → Draft → PlaylistEdit → Result Draft
apply_edit mint playlist_id actor now role d (add track after) =
    apply_add mint playlist_id actor now d track after
apply_edit mint playlist_id actor now role d (remove item_id) = apply_remove role actor d item_id
apply_edit mint playlist_id actor now role d (move item_id after) = apply_move role d item_id after

unfoldable pub apply_edits :
    (ℕ → Text) → Text → Text → ℕ → PlaylistRole → Draft → List PlaylistEdit → Result Draft
apply_edits mint playlist_id actor now role d [] = ok d
apply_edits mint playlist_id actor now role d (e ∷ edits) =
    apply_edit mint playlist_id actor now role d e >>= λ d'.
    apply_edits mint playlist_id actor now role d' edits

unfoldable pub draft_of : List PlaylistItem → Text → Draft
draft_of items playlist_id = record {
  items = items;
  order = item_ids items playlist_id;
  added_by = map (λ i. (i.id, i.added_by)) (select (is_in playlist_id) items);
  minted = 0;
}

abbrev pub revision_of : Option Row → ℕ
revision_of none = 0
revision_of (some r) = r.revision

-- What happens once the role is known: the transaction.
unfoldable pub commit_edits :
    Store → (ℕ → Text) → Text → Text → ℕ → ℕ → PlaylistRole → List PlaylistEdit → Result (ℕ × Store)
commit_edits s mint playlist_id actor base now role edits =
    let current = revision_of (find (has_id playlist_id) s.playlists) in
    let body = do
      d ← apply_edits mint playlist_id actor now role (draft_of s.playlist_items playlist_id) edits
      ok (
        suc current,
        record s {
          playlist_items = renumber d.items d.order;
          playlists = bump_revision s.playlists playlist_id now;
        },
      )
    in if current == base then body else err (stale current)

unfoldable pub apply_playlist_edits :
    Store → (ℕ → Text) → Text → Text → ℕ → List PlaylistEdit → ℕ → Result (ℕ × Store)
apply_playlist_edits s mint playlist_id actor base edits now =
    if length edits == 0
    then err (invalid (codes "no edits given"))
    else if ltb max_edits (length edits)
    then err (invalid (codes "too many edits in one request"))
    else elim (get_playlist s playlist_id) [
      | none ↦ err not_found
      | some p ↦
          let role = playlist_role s p actor in
          if is_none role
          then err not_found
          else if not (can_add role)
          then err (forbidden (codes "this playlist is not open for editing"))
          else commit_edits s mint playlist_id actor base now role edits
    ]

unfoldable pub update_playlist_details :
    Store → Text → Text → ℕ → Text → Option Text → ℕ → Result (ℕ × Store)
update_playlist_details s id who base title description now = elim (find (has_id id) s.playlists) [
  | none ↦ err not_found
  | some r ↦
      let set = λ (q : Row). record q { title = title; description = description } in
      if not (same r.user_id who)
      then err (forbidden (codes "only the owner may rename a playlist"))
      else if not (r.revision == base)
      then err (stale r.revision)
      else ok (
        suc r.revision,
        record s { playlists = bump_revision (update (has_id id) set s.playlists) id now },
      )
]
