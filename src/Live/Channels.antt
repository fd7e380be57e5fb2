-- ===== src/Live/Channels.antt =====
-- The channels of src/ws_channels.rs: a buffer and a channel per account, one of each for
-- everyone. The broadcast channels are tokio's: of a channel the state keeps how many receivers it
-- has, and `publish` answers which channel it sent on.
use agro.Base.{
  ℕ, ◌+◌, ◌%◌, ◌^◌, Bool, List, [], ◌∷◌, ◌++◌, map, Option, none, some, Text, same, to_lowercase,
  select, ltb, leb, if◌then◌else◌, order_by,
}
use mathlib.Core.Option as Option
use agro.Live.{WsMessage, Replay, empty_replay, expire, expire_loop, push, after, is_for}

abbrev pub replay_capacity : ℕ
replay_capacity = 512

abbrev pub user_replay_capacity : ℕ
user_replay_capacity = 128

-- `to_ascii_lowercase` of the name.
unfoldable pub key : Text → Text
unfolding to_lowercase
key username = to_lowercase username

pub record UserReplay : Type 0 where
  pub user : Text
  pub replay : Replay

pub record UserChannel : Type 0 where
  pub user : Text
  pub receivers : ℕ

pub record Channels : Type 0 where
  pub users : List UserChannel
  pub global_replay : Replay
  pub user_replay : List UserReplay
  pub next_seq : ℕ

abbrev pub new : Channels
new = record { users = []; global_replay = empty_replay; user_replay = []; next_seq = 1 }

-- `entry(user).or_default()`, and the buffer changed in place.
unfoldable pub entry_or_default : Text → (Replay → Replay) → List UserReplay → List UserReplay
unfolding same
entry_or_default user f [] = record { user = user; replay = f empty_replay } ∷ []
entry_or_default user f (e ∷ es) =
    let rest = entry_or_default user f es in
    if same e.user user then record e { replay = f e.replay } ∷ es else e ∷ rest

unfoldable pub get : Text → List UserReplay → Option Replay
unfolding same
get user [] = none
get user (e ∷ es) = let rest = get user es in if same e.user user then some e.replay else rest

-- `get_mut`, and the buffer changed in place.
unfoldable pub get_mut : Text → (Replay → Replay) → List UserReplay → List UserReplay
unfolding same
get_mut user f [] = []
get_mut user f (e ∷ es) =
    let rest = get_mut user f es in
    if same e.user user then record e { replay = f e.replay } ∷ es else e ∷ rest

-- Where a message went: to everyone, or on the channel of the account when it has one.
pub data Sent : Type 0 where
  to_everyone to_nobody : WsMessage → Sent
  to_account : Text → WsMessage → Sent

abbrev is_channel : Text → UserChannel → Bool
is_channel user c = same c.user user

-- `fetch_add(1)` wraps around.
abbrev pub fetch_add : ℕ → ℕ
fetch_add n = (n + 1) % 2 ^ 64

abbrev pub stamp : Channels → WsMessage → WsMessage
stamp c msg = record msg { seq = some c.next_seq }

unfoldable pub publish_to : Channels → ℕ → WsMessage → Option Text → Channels × Sent
unfolding push entry_or_default select same key
publish_to c now msg none =
    (record c { global_replay = push now msg replay_capacity c.global_replay }, to_everyone msg)
publish_to c now msg (some user_id) =
    let user = key user_id in
    (
      record c {
        user_replay = entry_or_default user (push now msg user_replay_capacity) c.user_replay;
      },
      (elim (select (is_channel user) c.users) [
        | [] ↦ to_nobody msg
        | _ ∷ _ ↦ to_account user msg
      ]),
    )

unfoldable pub publish : Channels → ℕ → WsMessage → Channels × Sent
unfolding publish_to
publish c now msg =
    publish_to (record c { next_seq = fetch_add c.next_seq }) now (stamp c msg) msg.user_id

-- The account's own channel, created on first use, with one more receiver.
unfoldable pub subscribe_user : Text → List UserChannel → List UserChannel
unfolding same key
subscribe_user username [] = record { user = key username; receivers = 1 } ∷ []
subscribe_user username (c ∷ cs) =
    let rest = subscribe_user username cs in
    if same c.user (key username) then record c { receivers = c.receivers + 1 } ∷ cs else c ∷ rest

-- `sort_by_key(|m| m.seq)`: the order of `Option` puts `None` first.
abbrev pub seq_rank : WsMessage → ℕ
seq_rank m = elim m.seq [ none ↦ 0 | some s ↦ s + 1 ]

-- The account's part of a resume, after `found` of everyone's, over the account's buffer: without
-- one nothing was ever sent to the account, so there is nothing to miss.
unfoldable pub extend_found :
    Channels
    → ℕ
    → ℕ
    → Text
    → (WsMessage → Bool)
    → List WsMessage
    → Option Replay
    → Channels × Option (List WsMessage)
unfolding get_mut expire_loop after order_by
extend_found c now after_seq user wanted found none = (c, some (order_by seq_rank found))
extend_found c now after_seq user wanted found (some replay) = (
  record c { user_replay = get_mut user (expire now) c.user_replay },
  Option.map (λ more. order_by seq_rank (found ++ more))
      (after (expire now replay) after_seq wanted),
)

unfoldable pub after_global :
    Channels
    → ℕ
    → ℕ
    → Option Text
    → (WsMessage → Bool)
    → Option (List WsMessage)
    → Channels × Option (List WsMessage)
unfolding extend_found order_by key get
after_global c now after_seq username wanted none = (c, none)
after_global c now after_seq none wanted (some found) = (c, some (order_by seq_rank found))
after_global c now after_seq (some name) wanted (some found) =
    extend_found c now after_seq (key name) wanted found (get (key name) c.user_replay)

unfoldable pub replay_after :
    Channels → ℕ → ℕ → Option Text → (WsMessage → Bool) → Channels × Option (List WsMessage)
unfolding after_global expire_loop after
replay_after c now after_seq username wanted =
    if leb c.next_seq after_seq
    then (c, none)
    else let global = expire now c.global_replay in
      after_global (record c { global_replay = global }) now after_seq username wanted
        (after global after_seq wanted)

-- The hub's `replay_after`, which asks for what the socket sees.
unfoldable pub hub_replay_after :
    Channels → ℕ → ℕ → Option Text → Option Text → Channels × Option (List WsMessage)
unfolding replay_after is_for
hub_replay_after c now after_seq username device =
    replay_after c now after_seq username (λ m. is_for m username device)

abbrev pub expire_entry : ℕ → UserReplay → UserReplay
expire_entry now e = record e { replay = expire now e.replay }

unfoldable pub sweep : Channels → ℕ → Channels
unfolding select expire_loop
sweep c now = record c {
  global_replay = expire now c.global_replay;
  user_replay = map (expire_entry now) c.user_replay;
  users = select (λ u. ltb 0 u.receivers) c.users;
}
