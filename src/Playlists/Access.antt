-- ===== src/Playlists/Access.antt =====
-- The levels of visibility and edit access and the roles, with their stored forms:
-- src/playlist_visibility.rs and src/playlist_access.rs.
use agro.Base.{ℕ, ◌==◌, Bool, true, false, if◌then◌else◌}

pub data PlaylistVisibility : Type 0 where
  private friends public : PlaylistVisibility

-- The columns (is_public, friends_only).
unfoldable pub flags : PlaylistVisibility → Bool × Bool
flags private = (false, false)
flags friends = (false, true)
flags public = (true, false)

unfoldable pub from_flags : Bool → Bool → PlaylistVisibility
from_flags is_public friends_only =
    if is_public then public else if friends_only then friends else private

unfoldable pub from_public_flag : Bool → PlaylistVisibility
from_public_flag is_public = from_flags is_public false

pub data EditAccess : Type 0 where
  off friends public : EditAccess

unfoldable pub from_stored : ℕ → EditAccess
from_stored value =
    if value == 1 then EditAccess.friends else if value == 2 then EditAccess.public else off

unfoldable pub stored : EditAccess → ℕ
stored off = 0
stored EditAccess.friends = 1
stored EditAccess.public = 2

unfoldable pub clamped_to : EditAccess → PlaylistVisibility → EditAccess
clamped_to access PlaylistVisibility.private = off
clamped_to EditAccess.public PlaylistVisibility.friends = EditAccess.friends
clamped_to off PlaylistVisibility.friends = off
clamped_to EditAccess.friends PlaylistVisibility.friends = EditAccess.friends
clamped_to access PlaylistVisibility.public = access

pub data PlaylistRole : Type 0 where
  owner editor contributor viewer none : PlaylistRole

unfoldable pub can_add : PlaylistRole → Bool
can_add owner = true
can_add editor = true
can_add contributor = true
can_add viewer = false
can_add none = false

unfoldable pub can_rearrange : PlaylistRole → Bool
can_rearrange owner = true
can_rearrange editor = true
can_rearrange contributor = false
can_rearrange viewer = false
can_rearrange none = false

abbrev pub is_off : EditAccess → Bool
is_off off = true
is_off _ = false

abbrev pub is_public_access : EditAccess → Bool
is_public_access EditAccess.public = true
is_public_access _ = false

-- Wider visibility, and wider access, as numbers.
abbrev pub width : PlaylistVisibility → ℕ
width private = 0
width PlaylistVisibility.friends = 1
width PlaylistVisibility.public = 2
