-- ===== src/Live/Table.antt =====
-- The map from accounts to their buffers.
use agro.Base.{
  ◌≡◌, refl, List, [], ◌∷◌, map, Option, none, some, arith, Text, ℕ, same, same_iff, if◌then◌else◌,
}
use mathlib.Core.Option as Option
use agro.Live.{Replay, empty_replay, expire}
use agro.Live.Channels.{UserReplay, entry_or_default, get, get_mut, expire_entry}

abbrev pub or_empty : Option Replay → Replay
or_empty none = empty_replay
or_empty (some r) = r

pub get-entry_or_default :
    (k user : Text) (f : Replay → Replay) (es : List UserReplay)
    → get k (entry_or_default user f es)
      ≡ (if same user k then some (f (or_empty (get user es))) else get k es)
unfolding get entry_or_default
get-entry_or_default k user f [] = refl
get-entry_or_default k user f (e ∷ es) = ground (
  arith,
  same_iff e.user user,
  same_iff e.user k,
  same_iff user k,
  get-entry_or_default k user f es,
)

pub get-get_mut :
    (k user : Text) (f : Replay → Replay) (es : List UserReplay)
    → get k (get_mut user f es) ≡ (if same user k then Option.map f (get k es) else get k es)
unfolding get get_mut
get-get_mut k user f [] = ground arith
get-get_mut k user f (e ∷ es) =
    ground
      (arith, same_iff e.user user, same_iff e.user k, same_iff user k, get-get_mut k user f es)

pub get-expire_entry :
    (k : Text) (now : ℕ) (es : List UserReplay)
    → get k (map (expire_entry now) es) ≡ Option.map (expire now) (get k es)
unfolding get
get-expire_entry k now [] = refl
get-expire_entry k now (e ∷ es) = ground (arith, get-expire_entry k now es)
