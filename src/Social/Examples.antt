-- ===== src/Social/Examples.antt =====
-- The friend graph at concrete inputs.
use agro.Base.{
  ◌≡◌, refl, true, false, not, List, [], ◌∷◌, arith, Text, same, any, trim, to_lowercase, select,
  delete, update, count, insert_or_ignore, insert_or_replace, is_whitespace, trim_start, trim_end,
  to_ascii_lowercase, codes, if◌then◌else◌, some, none, ◌||◌, ◌&&◌,
}
use agro.Social.{
  FriendState, pending, accepted, blocked, as_str, parse, Graph, empty, contains, friend_state,
  are_friends, is_some, send_friend_request, accept_friend_request, forget_presence_between,
  remove_friend, block_user, unblock_user,
}
use agro.Social.Edges.{name_key, has}
use agro.Social.Effects.{is_pair_either}
use agro.Social.Calls.{Call, send, accept, block, step, run, asked, answered}
use agro.Social.Codes.{
  redeem_friend_code, befriend_owner, owner_of_code, redeem, create_friend_code,
}
use agro.Social.Soundness.{IsSound, run-IsSound}
use agro.Social.Consent.{agreed, run-consent}
use agro.Social.Blocks.{
  step-keeps_block, blocked-friend_state, friend_state-remove_friend, block_undone,
}
use agro.Social.Redemption.{redeem_friend_code_twice, befriend_owner_outcome}

program : Unit {0}
unfolding same any trim to_lowercase select delete update count insert_or_ignore insert_or_replace
    is_whitespace trim_start trim_end to_ascii_lowercase as_str parse contains friend_state
    send_friend_request accept_friend_request forget_presence_between remove_friend block_user
    unblock_user name_key has step run asked answered redeem_friend_code befriend_owner
    owner_of_code redeem create_friend_code
program = tt

abbrev alpha : Text
alpha = codes "alpha"

abbrev beta : Text
beta = codes "beta"

abbrev friends_now : List Call
friends_now = accept beta (codes " Alpha") 2 ∷ send alpha beta 1 ∷ []

abbrev feud : List Call
feud = block alpha beta 3 ∷ friends_now

a_request_alone : are_friends (run empty (send alpha beta 1 ∷ [])) alpha beta ≡ false
unfolding program
a_request_alone = refl

run-IsSound_example : IsSound (run empty feud)
run-IsSound_example = run-IsSound feud

run-consent_example : agreed friends_now (name_key alpha) (name_key beta) ≡ true
unfolding program
run-consent_example = run-consent friends_now alpha beta refl

step-keeps_block_example :
    has blocked
      (step (run empty feud) (send beta alpha 4)).friendships
      (name_key alpha)
      (name_key beta)
    ≡ true
unfolding program
step-keeps_block_example =
    step-keeps_block (run empty feud) (send beta alpha 4) (name_key alpha) (name_key beta)
      (run-IsSound feud) refl refl

blocked-friend_state_example :
    (friend_state (run empty feud) alpha beta ≡ some blocked)
    × (friend_state (run empty feud) beta alpha ≡ some blocked)
    × (are_friends (run empty feud) alpha beta ≡ false)
    × (are_friends (run empty feud) beta alpha ≡ false)
unfolding program
blocked-friend_state_example = blocked-friend_state (run empty feud) alpha beta refl

friend_state-remove_friend_example :
    friend_state (remove_friend (run empty feud) beta alpha).0 alpha beta ≡ (
      if is_pair_either (name_key alpha) (name_key beta) (name_key beta) (name_key alpha)
      then none
      else friend_state (run empty feud) alpha beta)
friend_state-remove_friend_example =
    friend_state-remove_friend (run empty feud) beta alpha alpha beta

block_undone_example :
    (friend_state (block_user (run empty friends_now) alpha beta 5).0 alpha beta ≡ some blocked)
    × (friend_state
          (unblock_user
            (block_user (block_user (run empty friends_now) alpha beta 5).0 beta alpha 6).0
            beta
            alpha).0
          alpha
          beta
        ≡ none)
unfolding program
block_undone_example =
    block_undone (run empty friends_now) alpha beta 5 6 (run-IsSound friends_now) refl

abbrev with_code : Graph
with_code = (create_friend_code empty alpha 5 (codes "s3cret") 10).0

a_code_is_good : (redeem_friend_code with_code (codes "s3cret") 20).1 ≡ some alpha
unfolding program
a_code_is_good = refl

redeem_friend_code_twice_example :
    (redeem_friend_code (redeem_friend_code with_code (codes "s3cret") 20).0 (codes "s3cret") 30).1
    ≡ none
redeem_friend_code_twice_example =
    redeem_friend_code_twice with_code (codes "s3cret") 20 30 (omega arith)

befriend_owner_outcome_example :
    let g = run empty (send alpha beta 1 ∷ []) in
    let free = not (is_some (friend_state g beta alpha)) in
    let asked = has pending g.friendships (name_key alpha) (name_key beta) in
    let result = befriend_owner g beta (some alpha) 9 in
    (result.1 ≡ (
      if same (name_key beta) (name_key alpha)
      then none
      else if free || asked
      then some alpha
      else none))
    × ((is_some result.1 && not (are_friends result.0 beta alpha)) ≡ false)
unfolding program
befriend_owner_outcome_example =
    befriend_owner_outcome (run empty (send alpha beta 1 ∷ [])) beta alpha 9
      (run-IsSound (send alpha beta 1 ∷ [])) refl refl

parse-as_str : (s : FriendState) → parse (as_str s) ≡ s
unfolding program
parse-as_str pending = refl
parse-as_str accepted = refl
parse-as_str blocked = refl
