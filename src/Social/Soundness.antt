-- ===== src/Social/Soundness.antt =====
-- The shape of the friendship table that every call keeps.
use agro.Base.{
  ℕ, ◌≡◌, refl, true, false, List, [], ◌∷◌, arith, Text, same_refl, eq_of_same, trim, All,
  All-insert_or_ignore, All-insert_or_replace, to_lowercase, All-delete, All-update, any,
  insert_or_ignore, insert_or_replace, update,
}
use agro.Social.{
  FriendState, pending, accepted, blocked, is_state, Graph, Edge, empty, is_request, promote,
  has_key, send_friend_request, accept_friend_request, remove_friend, block_user, unblock_user,
  friend_state, is_some,
}
use agro.Social.Edges.{name_key, has, IsStored, stored-IsName, either, friend_state-verdict}
use agro.Social.Effects.{
  has-send_friend_request, has-accept_friend_request, has-remove_friend, has-block_user,
  has-unblock_user, remove_friend-IsStored,
}
use agro.Social.Calls.{Call, send, accept, remove, block, unblock, step, run}

pub send-IsStored :
    (g : Graph) (from to : Text) (now : ℕ)
    → All IsStored g.friendships
    → All IsStored (send_friend_request g from to now).0.friendships
unfolding send_friend_request
send-IsStored g from to now h =
    let F = to_lowercase (trim from) in
    let T = to_lowercase (trim to) in
    let row : Edge = record { user_id = F; friend_id = T; state = pending; created_at = now } in
    let kept : All IsStored (insert_or_ignore (has_key F T) row g.friendships) =
      All-insert_or_ignore IsStored (has_key F T) row g.friendships h
        (stored-IsName from, stored-IsName to) in
    ground arith

accept-IsStored :
    (g : Graph) (to from : Text) (now : ℕ)
    → All IsStored g.friendships
    → All IsStored (accept_friend_request g to from now).0.friendships
unfolding accept_friend_request
accept-IsStored g to from now h =
    let T = to_lowercase (trim to) in
    let F = to_lowercase (trim from) in
    let rows = update (is_request F T) promote g.friendships in
    let row : Edge = record { user_id = T; friend_id = F; state = accepted; created_at = now } in
    let kept : All IsStored (insert_or_replace (has_key T F) row rows) =
      All-insert_or_replace IsStored (has_key T F) row rows
        (All-update IsStored (is_request F T) promote g.friendships (λ e k. k) h)
        (stored-IsName to, stored-IsName from) in
    ground arith

block-IsStored :
    (g : Graph) (blocker subject : Text) (now : ℕ)
    → All IsStored g.friendships
    → All IsStored (block_user g blocker subject now).0.friendships
unfolding block_user
block-IsStored g blocker subject now h =
    let A = to_lowercase (trim blocker) in
    let B = to_lowercase (trim subject) in
    let rows = (remove_friend g blocker subject).0.friendships in
    let row : Edge = record { user_id = A; friend_id = B; state = blocked; created_at = now } in
    let kept : All IsStored (insert_or_replace (has_key A B) row rows) =
      All-insert_or_replace IsStored (has_key A B) row rows
        (remove_friend-IsStored g blocker subject h)
        (stored-IsName blocker, stored-IsName subject) in
    ground arith

step-IsStored :
    (g : Graph) (c : Call) → All IsStored g.friendships → All IsStored (step g c).friendships
unfolding step unblock_user
step-IsStored g (send from to now) h = send-IsStored g from to now h
step-IsStored g (accept to from now) h = accept-IsStored g to from now h
step-IsStored g (remove a b) h = remove_friend-IsStored g a b h
step-IsStored g (block a b now) h = block-IsStored g a b now h
step-IsStored g (unblock a b) h = All-delete IsStored _ g.friendships h

-- Names are stored in lower case and without outer blanks; no account has a row to itself; a friendship stands in both
-- directions; and the rows between two accounts agree on their state.
pub record IsSound (g : Graph) : Type 0 where
  pub stored : All IsStored g.friendships
  pub loopless : (st : FriendState) (x : Text) → has st g.friendships x x ≡ false
  pub mirrored : (x y : Text) → has accepted g.friendships x y ≡ has accepted g.friendships y x
  pub exclusive :
      (s t : FriendState) (x y : Text)
      → either s g.friendships x y ≡ true
      → either t g.friendships x y ≡ true
      → s ≡ t

-- An account that `friend_state` finds no row for has none.
pub has_of_none :
    (g : Graph) (from to : Text) (s : FriendState)
    → is_some (friend_state g from to) ≡ false
    → either s g.friendships (name_key from) (name_key to) ≡ false
has_of_none g from to pending h = ground (arith, friend_state-verdict g from to)
has_of_none g from to accepted h = ground (arith, friend_state-verdict g from to)
has_of_none g from to blocked h = ground (arith, friend_state-verdict g from to)

eq_of_is_pending : (s : FriendState) → is_state s pending ≡ true → s ≡ pending
eq_of_is_pending pending h = refl
eq_of_is_pending accepted h = ground arith
eq_of_is_pending blocked h = ground arith

module _ (g : Graph) (v : IsSound g) where
  pub send-IsSound : (from to : Text) (now : ℕ) → IsSound (step g (send from to now))
  unfolding step
  send-IsSound from to now =
      let F = name_key from in
      let T = name_key to in
      record {
        stored = send-IsStored g from to now v.stored;
        loopless = λ st x. ground (
          arith,
          has-send_friend_request st g x x from to now,
          v.loopless st x,
          eq_of_same x F,
          eq_of_same x T,
          same_refl F,
          same_refl T,
        );
        mirrored = λ x y. ground (
          arith,
          has-send_friend_request accepted g x y from to now,
          has-send_friend_request accepted g y x from to now,
          v.mirrored x y,
        );
        exclusive = λ s t x y p q. ground (
          arith,
          has-send_friend_request s g x y from to now,
          has-send_friend_request s g y x from to now,
          has-send_friend_request t g x y from to now,
          has-send_friend_request t g y x from to now,
          has_of_none g from to s,
          has_of_none g from to t,
          eq_of_is_pending s,
          eq_of_is_pending t,
          eq_of_same x F,
          eq_of_same x T,
          eq_of_same y F,
          eq_of_same y T,
          v.exclusive s t x y,
        );
      }

  remove-IsSound : (a b : Text) → IsSound (step g (remove a b))
  unfolding step
  remove-IsSound a b = record {
    stored = remove_friend-IsStored g a b v.stored;
    loopless = λ st x. ground (arith, has-remove_friend st g x x a b, v.loopless st x);
    mirrored = λ x y. ground (
      arith,
      has-remove_friend accepted g x y a b,
      has-remove_friend accepted g y x a b,
      v.mirrored x y,
    );
    exclusive = λ s t x y p q. ground (
      arith,
      has-remove_friend s g x y a b,
      has-remove_friend s g y x a b,
      has-remove_friend t g x y a b,
      has-remove_friend t g y x a b,
      v.exclusive s t x y,
    );
  }

  unblock-IsSound : (a b : Text) → IsSound (step g (unblock a b))
  unfolding step
  unblock-IsSound a b = record {
    stored = step-IsStored g (unblock a b) v.stored;
    loopless = λ st x. ground (arith, has-unblock_user st g x x a b, v.loopless st x);
    mirrored = λ x y. ground (
      arith,
      has-unblock_user accepted g x y a b,
      has-unblock_user accepted g y x a b,
      v.mirrored x y,
    );
    exclusive = λ s t x y p q. ground (
      arith,
      has-unblock_user s g x y a b,
      has-unblock_user s g y x a b,
      has-unblock_user t g x y a b,
      has-unblock_user t g y x a b,
      v.exclusive s t x y,
    );
  }

  pub block-IsSound : (a b : Text) (now : ℕ) → IsSound (step g (block a b now))
  unfolding step
  block-IsSound a b now =
      let A = name_key a in
      let B = name_key b in
      record {
        stored = block-IsStored g a b now v.stored;
        loopless = λ st x. ground (
          arith,
          has-block_user st g x x a b now v.stored,
          v.loopless st x,
          eq_of_same x A,
          eq_of_same x B,
          same_refl A,
        );
        mirrored = λ x y. ground (
          arith,
          has-block_user accepted g x y a b now v.stored,
          has-block_user accepted g y x a b now v.stored,
          v.mirrored x y,
        );
        exclusive = λ s t x y p q. ground (
          arith,
          has-block_user s g x y a b now v.stored,
          has-block_user s g y x a b now v.stored,
          has-block_user t g x y a b now v.stored,
          has-block_user t g y x a b now v.stored,
          v.exclusive s t x y,
        );
      }

  pub accept-IsSound : (to from : Text) (now : ℕ) → IsSound (step g (accept to from now))
  unfolding step
  accept-IsSound to from now =
      let T = name_key to in
      let F = name_key from in
      record {
        stored = accept-IsStored g to from now v.stored;
        loopless = λ st x. ground (
          arith,
          has-accept_friend_request st g x x to from now v.stored,
          v.loopless st x,
          v.loopless pending x,
          eq_of_same x T,
          eq_of_same x F,
        );
        mirrored = λ x y. ground (
          arith,
          has-accept_friend_request accepted g x y to from now v.stored,
          has-accept_friend_request accepted g y x to from now v.stored,
          v.mirrored x y,
          eq_of_same x T,
          eq_of_same x F,
          eq_of_same y T,
          eq_of_same y F,
        );
        exclusive = λ s t x y p q. ground (
          arith,
          has-accept_friend_request s g x y to from now v.stored,
          has-accept_friend_request s g y x to from now v.stored,
          has-accept_friend_request t g x y to from now v.stored,
          has-accept_friend_request t g y x to from now v.stored,
          v.exclusive s t x y,
          v.exclusive s pending x y,
          v.exclusive t pending x y,
          eq_of_same x T,
          eq_of_same x F,
          eq_of_same y T,
          eq_of_same y F,
        );
      }

step-IsSound : (g : Graph) (c : Call) → IsSound g → IsSound (step g c)
step-IsSound g (send from to now) v = send-IsSound g v from to now
step-IsSound g (accept to from now) v = accept-IsSound g v to from now
step-IsSound g (remove a b) v = remove-IsSound g v a b
step-IsSound g (block a b now) v = block-IsSound g v a b now
step-IsSound g (unblock a b) v = unblock-IsSound g v a b

-- After any history of requests, acceptances, removals, blocks and unblocks that starts from empty
-- tables: stored names are trimmed lower-case ones, no account has a row to itself, an accepted
-- friendship stands in both directions or in neither, and the rows between two accounts all have
-- one state.
pub run-IsSound : (cs : List Call) → IsSound (run empty cs)
unfolding run has any
run-IsSound [] = record {
  stored = tt;
  loopless = λ st x. refl;
  mirrored = λ x y. refl;
  exclusive = λ s t x y p q. ground arith;
}
run-IsSound (c ∷ cs) = step-IsSound (run empty cs) c (run-IsSound cs)
