-- ===== src/Playlists/Roles.antt =====
-- What a role lets an account do, against who may open the playlist.
use Prim.Native.Nat.{min}
use agro.Base.{
  ℕ, ◌<◌, ◌≡◌, refl, Bool, true, false, ◌&&◌, ◌||◌, not, arith, Text, same, if◌then◌else◌,
}
use agro.Social.{friend_state, are_friends, is_blocked}
use agro.Playlists.Access.{
  PlaylistVisibility, EditAccess, PlaylistRole, flags, from_flags, from_stored, stored, clamped_to,
  off, is_off, is_public_access, can_add, can_rearrange, width, from_public_flag,
}
use agro.Playlists.{Store, Playlist, is_generated, can_view_playlist, playlist_role}

-- The columns that store a visibility or an edit access give it back; a stored number above 2 reads
-- as `off`; and the old public flag reads as public or private.
pub stored_forms :
    (v : PlaylistVisibility) (e : EditAccess) (n : ℕ) (b : Bool)
    → 2 < n
    → (from_flags (flags v).0 (flags v).1 ≡ v)
      × (from_stored (stored e) ≡ e)
      × (from_stored n ≡ off)
      × (from_public_flag b ≡ (if b then PlaylistVisibility.public else PlaylistVisibility.private))
unfolding from_flags flags from_stored stored from_public_flag
stored_forms v e n b h = (level v, access e, ground arith, ground arith)
  where
    level : (w : PlaylistVisibility) → from_flags (flags w).0 (flags w).1 ≡ w
    level PlaylistVisibility.private = refl
    level PlaylistVisibility.friends = refl
    level PlaylistVisibility.public = refl

    access : (a : EditAccess) → from_stored (stored a) ≡ a
    access off = refl
    access EditAccess.friends = refl
    access EditAccess.public = refl

abbrev pub access_width : EditAccess → ℕ
access_width off = 0
access_width EditAccess.friends = 1
access_width EditAccess.public = 2

-- Clamping is the minimum: the access stays what was asked for as far as the visibility reaches,
-- and is cut to the visibility otherwise.
clamped_to-min :
    (e : EditAccess) (v : PlaylistVisibility)
    → access_width (clamped_to e v) ≡ min (access_width e) (width v)
unfolding clamped_to
clamped_to-min off PlaylistVisibility.private = refl
clamped_to-min off PlaylistVisibility.friends = refl
clamped_to-min off PlaylistVisibility.public = refl
clamped_to-min EditAccess.friends PlaylistVisibility.private = refl
clamped_to-min EditAccess.friends PlaylistVisibility.friends = refl
clamped_to-min EditAccess.friends PlaylistVisibility.public = refl
clamped_to-min EditAccess.public PlaylistVisibility.private = refl
clamped_to-min EditAccess.public PlaylistVisibility.friends = refl
clamped_to-min EditAccess.public PlaylistVisibility.public = refl

abbrev pub is_none : PlaylistRole → Bool
is_none PlaylistRole.none = true
is_none _ = false

-- An account has a role other than none exactly when it may open the playlist. Only such an
-- account may add items, nobody may add to a generated playlist, and between an owner and an
-- account of which one has blocked the other, the account may add nothing to a playlist.
pub playlist_role_bounds :
    (s : Store) (p : Playlist) (who : Text)
    → let role = playlist_role s p who in
      (is_none role ≡ not (can_view_playlist s p who))
      × ((can_add role && not (can_view_playlist s p who)) ≡ false)
      × ((can_add role && is_generated p) ≡ false)
      × ((can_add role
            && (not (same p.user_id who) && is_blocked (friend_state s.graph p.user_id who)))
          ≡ false)
unfolding playlist_role can_view_playlist can_add clamped_to from_flags
playlist_role_bounds s p who = ground arith

-- Who may rearrange and who may only add, on a playlist that people write, for an account other
-- than the owner: an editor is an accepted friend where the stored access is not off and the
-- playlist is open to friends or everyone; a contributor is an account that is neither friend nor
-- blocked, where both the stored access and the playlist are public.
pub playlist_role_shared :
    (s : Store) (p : Playlist) (who : Text)
    → is_generated p ≡ false
    → same p.user_id who ≡ false
    → let role = playlist_role s p who in
      (can_rearrange role
        ≡ not (is_off p.edit_access)
          && (are_friends s.graph p.user_id who && (p.is_public || p.friends_only)))
      × ((can_add role && not (can_rearrange role))
          ≡ (is_public_access p.edit_access && p.is_public)
            && (not (are_friends s.graph p.user_id who)
                && not (is_blocked (friend_state s.graph p.user_id who))))
unfolding playlist_role can_view_playlist can_add can_rearrange clamped_to from_flags
playlist_role_shared s p who h k = ground arith
