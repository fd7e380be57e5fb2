-- ===== src/Social.antt =====
-- The friend graph: src/db_social.rs and src/db_social/friends.rs, with the redemption of a friend
-- code as src/schema_social/friends_mutation.rs composes it. The state is the three tables that
-- these operations read and write. The caller's clock is the argument `now`, and a minted code is
-- an argument of the call that stores it.
pub mod Edges
pub mod Blocks
pub mod Calls
pub mod Codes
pub mod Consent
pub mod Effects
mod Examples
pub mod Redemption
pub mod Soundness
use agro.Base.{
  ℕ, ◌+◌, ◌≡◌, Bool, true, false, ◌&&◌, ◌||◌, not, List, [], ◌∷◌, ◌++◌, map, Option, none, some,
  Text, same, trim, to_lowercase, eq_nocase, select, delete, update, any, count, insert_or_ignore,
  insert_or_replace, ltb, ◌==◌, if◌then◌else◌, head?, codes,
}
use Prim.Native.Nat.{max}

pub data FriendState : Type 0 where
  pending accepted blocked : FriendState

unfoldable pub as_str : FriendState → Text
as_str pending = codes "pending"
as_str accepted = codes "accepted"
as_str blocked = codes "blocked"

unfoldable pub parse : Text → FriendState
parse raw =
    let word = to_lowercase (trim raw) in
    if same word (codes "accepted")
    then accepted
    else if same word (codes "pending")
    then pending
    else blocked

abbrev pub is_state : FriendState → FriendState → Bool
is_state pending pending = true
is_state accepted accepted = true
is_state blocked blocked = true
is_state _ _ = false

-- A row of `friendships`, whose primary key is (user_id, friend_id).
pub record Edge : Type 0 where
  pub user_id : Text
  pub friend_id : Text
  pub state : FriendState
  pub created_at : ℕ

pub record FriendCode : Type 0 where
  pub code : Text
  pub user_id : Text
  pub created_at : ℕ
  pub expires_at : ℕ
  pub used_at : Option ℕ

-- A row of `handoff_presence_ciphertexts`: who it is about, and to whom it is sealed.
pub record Sealed : Type 0 where
  pub user_id : Text
  pub recipient_user_id : Text

pub record Graph : Type 0 where
  pub friendships : List Edge
  pub friend_codes : List FriendCode
  pub presence : List Sealed

abbrev pub empty : Graph
empty = record { friendships = []; friend_codes = []; presence = [] }

-- The row is from the one to the other. The names are those that the statement binds.
abbrev pub goes : Text → Text → Edge → Bool
goes a b e = eq_nocase e.user_id a && eq_nocase e.friend_id b

abbrev pub touches : Text → Text → Edge → Bool
touches a b e = goes a b e || goes b a e

abbrev pub has_key : Text → Text → Edge → Bool
has_key a b e = same e.user_id a && same e.friend_id b

unfoldable pub contains : FriendState → List FriendState → Bool
contains s [] = false
contains s (t ∷ ts) = is_state s t || contains s ts

unfoldable pub friend_state : Graph → Text → Text → Option FriendState
friend_state g viewer subject =
    let states = map (λ e. e.state) (select (touches (trim viewer) (trim subject)) g.friendships) in
    if contains blocked states
    then some blocked
    else if contains accepted states
    then some accepted
    else head? states

abbrev pub is_accepted : Option FriendState → Bool
is_accepted (some accepted) = true
is_accepted _ = false

abbrev pub is_blocked : Option FriendState → Bool
is_blocked (some blocked) = true
is_blocked _ = false

abbrev pub is_some {ℓ} : {A : Type ℓ} → Option A → Bool
is_some (some _) = true
is_some none = false

abbrev pub are_friends : Graph → Text → Text → Bool
are_friends g a b = is_accepted (friend_state g a b)

unfoldable pub send_friend_request : Graph → Text → Text → ℕ → Graph × Bool
send_friend_request g from to now =
    let key = has_key (to_lowercase (trim from)) (to_lowercase (trim to)) in
    let row : Edge = record {
      user_id = to_lowercase (trim from);
      friend_id = to_lowercase (trim to);
      state = pending;
      created_at = now;
    } in
    if eq_nocase (trim from) (trim to)
    then (g, false)
    else if is_some (friend_state g from to)
    then (g, false)
    else (
      record g { friendships = insert_or_ignore key row g.friendships },
      not (any key g.friendships),
    )

abbrev pub is_request : Text → Text → Edge → Bool
is_request from to e = goes from to e && is_state pending e.state

abbrev pub promote : Edge → Edge
promote e = record e { state = accepted }

unfoldable pub accept_friend_request : Graph → Text → Text → ℕ → Graph × Bool
accept_friend_request g to' from' now =
    let to = to_lowercase (trim to') in
    let from = to_lowercase (trim from') in
    let row : Edge = record {
      user_id = to;
      friend_id = from;
      state = accepted;
      created_at = now;
    } in
    let promoted = update (is_request from to) promote g.friendships in
    if count (is_request from to) g.friendships == 0
    then (g, false)
    else (record g { friendships = insert_or_replace (has_key to from) row promoted }, true)

-- `Db::forget_presence_between_in`
unfoldable pub forget_presence_between : Text → Text → List Sealed → List Sealed
forget_presence_between one other = delete λ s.
    (eq_nocase s.user_id (trim one) && eq_nocase s.recipient_user_id (trim other))
    || (eq_nocase s.user_id (trim other) && eq_nocase s.recipient_user_id (trim one))

unfoldable pub remove_friend : Graph → Text → Text → Graph × Bool
remove_friend g a b = (
  record g {
    friendships = delete (touches (trim a) (trim b)) g.friendships;
    presence = forget_presence_between a b g.presence;
  },
  ltb 0 (count (touches (trim a) (trim b)) g.friendships),
)

unfoldable pub block_user : Graph → Text → Text → ℕ → Graph × Bool
block_user g blocker subject now =
    let cleared = (remove_friend g blocker subject).0 in
    let user = to_lowercase (trim blocker) in
    let friend = to_lowercase (trim subject) in
    let row : Edge = record {
      user_id = user;
      friend_id = friend;
      state = blocked;
      created_at = now;
    } in
    if eq_nocase (trim blocker) (trim subject) then (g, false) else (
      record cleared {
        friendships = insert_or_replace (has_key user friend) row cleared.friendships;
      },
      true,
    )

unfoldable pub unblock_user : Graph → Text → Text → Graph × Bool
unblock_user g blocker subject =
    let is_block = λ (e : Edge). goes (trim blocker) (trim subject) e && is_state blocked e.state in
    (record g { friendships = delete is_block g.friendships }, ltb 0 (count is_block g.friendships))
