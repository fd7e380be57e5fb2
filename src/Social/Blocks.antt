-- ===== src/Social/Blocks.antt =====
-- What a block survives, and what lifts it.
use agro.Base.{
  ℕ, ◌≡◌, Bool, true, false, arith, Text, same, same_comm, eq_of_same, same_refl, if◌then◌else◌,
  some, none,
}
use agro.Social.{
  FriendState, pending, accepted, blocked, Graph, are_friends, friend_state, remove_friend,
  block_user, unblock_user,
}
use agro.Social.Edges.{name_key, has, friend_state-verdict}
use agro.Social.Effects.{
  has-send_friend_request, has-accept_friend_request, has-remove_friend, has-block_user,
  has-unblock_user, is_pair_either, is_pair,
}
use agro.Social.Calls.{Call, send, accept, remove, block, unblock, step}
use agro.Social.Soundness.{IsSound, block-IsSound}

-- The calls that can take away the row by which `x` blocks `y`: ending the relation from either
-- side, the other side's own block, and the unblock of `x`.
abbrev pub lifts : Text → Text → Call → Bool
lifts x y (remove a b) = is_pair_either x y (name_key a) (name_key b)
lifts x y (block a b now) = is_pair y x (name_key a) (name_key b)
lifts x y (unblock a b) = is_pair x y (name_key a) (name_key b)
lifts x y _ = false

-- A call that is none of: `remove_friend` of the two accounts, `block_user` of the first by the
-- second, and `unblock_user` of the second by the first, leaves the first account's block of the
-- second in force.
pub step-keeps_block :
    (g : Graph) (c : Call) (x y : Text)
    → IsSound g
    → has blocked g.friendships x y ≡ true
    → lifts x y c ≡ false
    → has blocked (step g c).friendships x y ≡ true
unfolding step
step-keeps_block g (send from to now) x y v h k =
    ground (arith, has-send_friend_request blocked g x y from to now)
step-keeps_block g (accept to from now) x y v h k = ground (
  arith,
  has-accept_friend_request blocked g x y to from now v.stored,
  v.exclusive pending blocked x y,
  eq_of_same x (name_key to),
  eq_of_same y (name_key from),
)
step-keeps_block g (remove a b) x y v h k = ground (arith, has-remove_friend blocked g x y a b)
step-keeps_block g (block a b now) x y v h k =
    ground (arith, has-block_user blocked g x y a b now v.stored)
step-keeps_block g (unblock a b) x y v h k = ground (arith, has-unblock_user blocked g x y a b)

-- While the first account's block of the second is in force, both see the state `blocked` and
-- neither is a friend of the other, whichever way round they are asked for.
pub blocked-friend_state :
    (g : Graph) (a b : Text)
    → has blocked g.friendships (name_key a) (name_key b) ≡ true
    → (friend_state g a b ≡ some blocked)
      × (friend_state g b a ≡ some blocked)
      × (are_friends g a b ≡ false)
      × (are_friends g b a ≡ false)
blocked-friend_state g a b h =
    ground (arith, friend_state-verdict g a b, friend_state-verdict g b a)

-- `remove_friend`, by either of two accounts, leaves no relation between these two, whatever it was
-- and whichever of them blocked the other, and leaves every other pair of accounts as it was.
pub friend_state-remove_friend :
    (g : Graph) (a b c d : Text)
    → friend_state (remove_friend g a b).0 c d ≡ (
        if is_pair_either (name_key c) (name_key d) (name_key a) (name_key b)
        then none
        else friend_state g c d)
friend_state-remove_friend g a b c d =
    let after = (remove_friend g a b).0 in
    let x = name_key c in
    let y = name_key d in
    ground (
      arith,
      friend_state-verdict g c d,
      friend_state-verdict after c d,
      has-remove_friend pending g x y a b,
      has-remove_friend pending g y x a b,
      has-remove_friend accepted g x y a b,
      has-remove_friend accepted g y x a b,
      has-remove_friend blocked g x y a b,
      has-remove_friend blocked g y x a b,
    )

module _ (g : Graph) (a b : Text) (t u : ℕ) (v : IsSound g) where
  abbrev after_feud : Graph
  after_feud = (unblock_user (block_user (block_user g a b t).0 b a u).0 b a).0

  has-after_feud :
      (st : FriendState) (x y : Text)
      → same (name_key a) (name_key b) ≡ false
      → is_pair_either x y (name_key a) (name_key b) ≡ true
      → has st after_feud.friendships x y ≡ false
  has-after_feud st x y h k =
      let first = (block_user g a b t).0 in
      let second = (block_user first b a u).0 in
      let sound = block-IsSound g v a b t in
      ground (
        arith,
        has-unblock_user st second x y b a,
        has-block_user st first x y b a u (unfold step in sound.stored),
        has-block_user st g x y a b t v.stored,
        eq_of_same x (name_key a),
        eq_of_same y (name_key a),
        eq_of_same x (name_key b),
        eq_of_same y (name_key b),
        same_comm (name_key a) (name_key b),
      )

-- A blocked account gets rid of the block by a block of its own that it takes back: where `a`
-- blocks `b`, and `b` then blocks and unblocks `a`, no relation is left between them, so that `b`
-- is no longer refused by the block of `a`.
pub block_undone :
    (g : Graph) (a b : Text) (t u : ℕ)
    → IsSound g
    → same (name_key a) (name_key b) ≡ false
    → (friend_state (block_user g a b t).0 a b ≡ some blocked)
      × (friend_state (unblock_user (block_user (block_user g a b t).0 b a u).0 b a).0 a b ≡ none)
block_undone g a b t u v h =
    let x = name_key a in
    let y = name_key b in
    ground (
      arith,
      friend_state-verdict (block_user g a b t).0 a b,
      has-block_user blocked g x y a b t v.stored,
      friend_state-verdict (after_feud g a b t u v) a b,
      has-after_feud g a b t u v pending x y h,
      has-after_feud g a b t u v pending y x h,
      has-after_feud g a b t u v accepted x y h,
      has-after_feud g a b t u v accepted y x h,
      has-after_feud g a b t u v blocked x y h,
      has-after_feud g a b t u v blocked y x h,
      same_refl x,
      same_refl y,
    )
