-- ===== src/Social/Effects.antt =====
-- What each operation of the friend graph does to the rows, as equations between answers of `has`.
use agro.Base.{
  ℕ, ◌≡◌, refl, ◌∙◌, Bool, true, ◌&&◌, ◌||◌, not, List, [], ◌∷◌, ◌++◌, arith, Text, same, same_refl,
  same_comm, eq_of_same, trim, to_lowercase, to_lowercase_idem, delete, update, any, any-append,
  any-delete, any-update, any-and_const, any-pointwise, any-or, any-le, count-eq-zero_iff, All,
  All-delete, All-update, any-congr_of_All, if◌then◌else◌, insert_or_ignore, insert_or_replace,
}
use mathlib.Core.Path.{ap₂}
use agro.Social.{
  FriendState, pending, accepted, blocked, is_state, Edge, Graph, goes, touches, has_key,
  friend_state, is_request, promote, send_friend_request, accept_friend_request, remove_friend,
  block_user, unblock_user, is_some,
}
use agro.Social.Edges.{name_key, is_at, has, IsStored, friend_state-verdict}

-- The pair (x, y) is the pair (a, b).
abbrev pub is_pair : Text → Text → Text → Text → Bool
is_pair x y a b = same x a && same y b

abbrev pub is_pair_either : Text → Text → Text → Text → Bool
is_pair_either x y a b = is_pair x y a b || is_pair x y b a

eq_of_is_state : (s t : FriendState) → is_state s t ≡ true → s ≡ t
eq_of_is_state pending pending h = refl
eq_of_is_state accepted accepted h = refl
eq_of_is_state blocked blocked h = refl
eq_of_is_state pending accepted h = ground arith
eq_of_is_state pending blocked h = ground arith
eq_of_is_state accepted pending h = ground arith
eq_of_is_state accepted blocked h = ground arith
eq_of_is_state blocked pending h = ground arith
eq_of_is_state blocked accepted h = ground arith

abbrev edge : Text → Text → FriendState → ℕ → Edge
edge a b t now = record { user_id = a; friend_id = b; state = t; created_at = now }

module _ (st : FriendState) (x y : Text) where
  is_at-edge :
      (a b : Text) (t : FriendState) (now : ℕ)
      → to_lowercase a ≡ a
      → to_lowercase b ≡ b
      → is_at st x y (edge a b t now) ≡ is_pair x y a b && is_state st t
  is_at-edge a b t now ha hb = rw (ha, hb, same_comm a x, same_comm b y)

  has-append :
      (rows : List Edge) (e : Edge)
      → has st (rows ++ e ∷ []) x y ≡ has st rows x y || is_at st x y e
  unfolding has any
  has-append rows e = ground (arith, any-append (is_at st x y) rows (e ∷ []))

  -- The replaced row has the key (a, b), which names at most the rows from `a` to `b`.
  has-replace :
      (a b : Text) (t : FriendState) (now : ℕ) (rows : List Edge)
      → to_lowercase a ≡ a
      → to_lowercase b ≡ b
      → All IsStored rows
      → has st (insert_or_replace (has_key a b) (edge a b t now) rows) x y
        ≡ (if is_pair x y a b then is_state st t else has st rows x y)
  unfolding insert_or_replace
  has-replace a b t now rows ha hb stored = ground (
    arith,
    has-append (delete (has_key a b) rows) (edge a b t now),
    is_at-edge a b t now ha hb,
    kept,
  )
    where
      kept : has st (delete (has_key a b) rows) x y ≡ not (is_pair x y a b) && has st rows x y
      kept =
          unfold has in
          any-delete (is_at st x y) (has_key a b) rows
          ∙ any-congr_of_All IsStored (λ e. not (has_key a b e) && is_at st x y e)
              (λ e. not (is_pair x y a b) && is_at st x y e) rows
              (λ e h. ground (
                arith,
                eq_of_same (to_lowercase e.user_id) x,
                eq_of_same (to_lowercase e.friend_id) y,
              ))
              stored
          ∙ any-and_const (not (is_pair x y a b)) (is_at st x y) rows

module _ (st : FriendState) (g : Graph) (x y : Text) where
  pub has-remove_friend :
      (a b : Text)
      → let A = name_key a in
        let B = name_key b in
        has st (remove_friend g a b).0.friendships x y
        ≡ not (is_pair_either x y A B) && has st g.friendships x y
  unfolding remove_friend has name_key
  has-remove_friend a b =
      let A = to_lowercase (trim a) in
      let B = to_lowercase (trim b) in
      any-delete (is_at st x y) (touches (trim a) (trim b)) g.friendships
      ∙ any-pointwise _ (λ e. not (is_pair_either x y A B) && is_at st x y e) g.friendships
          (λ e.
            ground (
              arith,
              eq_of_same (to_lowercase e.user_id) x,
              eq_of_same (to_lowercase e.friend_id) y,
            ))
      ∙ any-and_const (not (is_pair_either x y A B)) (is_at st x y) g.friendships

  pub has-unblock_user :
      (a b : Text)
      → has st (unblock_user g a b).0.friendships x y
        ≡ not (is_pair x y (name_key a) (name_key b) && is_state blocked st)
          && has st g.friendships x y
  unfolding unblock_user has name_key
  has-unblock_user a b =
      let A = to_lowercase (trim a) in
      let B = to_lowercase (trim b) in
      let c = not (is_pair x y A B && is_state blocked st) in
      let is_block = λ (e : Edge). goes (trim a) (trim b) e && is_state blocked e.state in
      any-delete (is_at st x y) is_block g.friendships
      ∙ any-pointwise (λ e. not (is_block e) && is_at st x y e) (λ e. c && is_at st x y e)
          g.friendships
          (λ e. ground (
            arith,
            eq_of_same (to_lowercase e.user_id) x,
            eq_of_same (to_lowercase e.friend_id) y,
            eq_of_is_state st e.state,
          ))
      ∙ any-and_const c (is_at st x y) g.friendships

name_key-IsStored : (a : Text) → to_lowercase (name_key a) ≡ name_key a
unfolding name_key
name_key-IsStored a = to_lowercase_idem (trim a)

pub remove_friend-IsStored :
    (g : Graph) (a b : Text)
    → All IsStored g.friendships
    → All IsStored (remove_friend g a b).0.friendships
unfolding remove_friend
remove_friend-IsStored g a b stored =
    All-delete IsStored (touches (trim a) (trim b)) g.friendships stored

module _ (st : FriendState) (g : Graph) (x y : Text) where
  pub has-block_user :
      (a b : Text) (now : ℕ)
      → All IsStored g.friendships
      → let A = name_key a in
        let B = name_key b in
        has st (block_user g a b now).0.friendships x y ≡ (
          if same A B
          then has st g.friendships x y
          else if is_pair x y A B
          then is_state st blocked
          else not (is_pair x y B A) && has st g.friendships x y)
  unfolding block_user name_key
  has-block_user a b now stored =
      let A = to_lowercase (trim a) in
      let B = to_lowercase (trim b) in
      ground (
        arith,
        has-replace st x y A B blocked now (remove_friend g a b).0.friendships
            (to_lowercase_idem (trim a)) (to_lowercase_idem (trim b))
            (remove_friend-IsStored g a b stored),
        has-remove_friend st g x y a b,
      )

module _ (st : FriendState) (x y : Text) where
  has-promote :
      (a b : Text) (rows : List Edge)
      → to_lowercase a ≡ a
      → to_lowercase b ≡ b
      → has st (update (is_request a b) promote rows) x y
        ≡ (not (is_pair x y a b && is_state pending st) && has st rows x y)
          || ((is_pair x y a b && is_state st accepted) && has pending rows x y)
  unfolding has
  has-promote a b rows ha hb =
      let lost = not (is_pair x y a b && is_state pending st) in
      let gained = is_pair x y a b && is_state st accepted in
      let p = λ (e : Edge). lost && is_at st x y e in
      let q = λ (e : Edge). gained && is_at pending x y e in
      any-update (is_at st x y) (is_request a b) promote rows
      ∙ any-pointwise (λ e. is_at st x y (if is_request a b e then promote e else e))
          (λ e. p e || q e) rows
          (λ e.
            rw (ha, hb)
              (ground (
                arith,
                eq_of_same (to_lowercase e.user_id) x,
                eq_of_same (to_lowercase e.friend_id) y,
              )))
      ∙ any-or p q rows
      ∙ ap₂ ◌||◌ (any-and_const lost (is_at st x y) rows)
          (any-and_const gained (is_at pending x y) rows)

  any-is_request :
      (a b : Text) (rows : List Edge)
      → to_lowercase a ≡ a
      → to_lowercase b ≡ b
      → any (is_request a b) rows ≡ has pending rows a b
  unfolding has
  any-is_request a b rows ha hb =
      any-pointwise (is_request a b) (is_at pending a b) rows (λ e. rw (ha, hb))

  -- The rows after `promote`, and after the mirror row that `accept_friend_request` writes.
  abbrev pub promoted : List Edge → Text → Text → Bool
  promoted rows a b =
      (not (is_pair x y a b && is_state pending st) && has st rows x y)
      || ((is_pair x y a b && is_state st accepted) && has pending rows x y)

module _ (st : FriendState) (g : Graph) (x y : Text) where
  pub has-accept_friend_request :
      (to from : Text) (now : ℕ)
      → All IsStored g.friendships
      → let T = name_key to in
        let F = name_key from in
        has st (accept_friend_request g to from now).0.friendships x y ≡ (
          if has pending g.friendships F T
          then if is_pair x y T F then is_state st accepted else promoted st x y g.friendships F T
          else has st g.friendships x y)
  unfolding accept_friend_request name_key
  has-accept_friend_request to from now stored =
      let T = to_lowercase (trim to) in
      let F = to_lowercase (trim from) in
      let t-low = to_lowercase_idem (trim to) in
      let f-low = to_lowercase_idem (trim from) in
      let rows = update (is_request F T) promote g.friendships in
      ground (
        arith,
        count-eq-zero_iff (is_request F T) g.friendships,
        any-is_request st x y F T g.friendships f-low t-low,
        has-replace st x y T F accepted now rows t-low f-low
            (All-update IsStored (is_request F T) promote g.friendships (λ e h. h) stored),
        has-promote st x y F T g.friendships f-low t-low,
      )

  -- A request is recorded between two accounts that have no row between them.
  abbrev pub sends : Text → Text → Bool
  sends from to = not (same (name_key from) (name_key to)) && not (is_some (friend_state g from to))

  has_key-has :
      (a b : Text) (rows : List Edge)
      → to_lowercase a ≡ a
      → to_lowercase b ≡ b
      → any (has_key a b) rows ≡ true
      → ((has pending rows a b || has accepted rows a b) || has blocked rows a b) ≡ true
  unfolding has
  has_key-has a b rows ha hb h =
      let p = is_at pending a b in
      let q = is_at accepted a b in
      let r = is_at blocked a b in
      let found : any (λ e. (p e || q e) || r e) rows ≡ true =
        any-le (has_key a b) (λ e. (p e || q e) || r e) rows
          (λ e k.
            ground
              (arith, eq_of_same e.user_id a, eq_of_same e.friend_id b, same_refl a, same_refl b))
          h in
      ground (arith, found, any-or (λ e. p e || q e) r rows, any-or p q rows)

  pub has-send_friend_request :
      (from to : Text) (now : ℕ)
      → has st (send_friend_request g from to now).0.friendships x y
        ≡ has st g.friendships x y
          || (sends from to && (is_pair x y (name_key from) (name_key to) && is_state st pending))
  unfolding send_friend_request name_key insert_or_ignore
  has-send_friend_request from to now =
      let F = to_lowercase (trim from) in
      let T = to_lowercase (trim to) in
      ground (
        arith,
        has_key-has F T g.friendships (to_lowercase_idem (trim from)) (to_lowercase_idem (trim to)),
        friend_state-verdict g from to,
        has-append st x y g.friendships (edge F T pending now),
        is_at-edge st x y F T pending now (to_lowercase_idem (trim from))
            (to_lowercase_idem (trim to)),
      )

-- An acceptance succeeds exactly when the request is there.
pub accept-has_pending :
    (g : Graph) (to from : Text) (now : ℕ)
    → (accept_friend_request g to from now).1
      ≡ has pending g.friendships (name_key from) (name_key to)
unfolding accept_friend_request name_key
accept-has_pending g to from now =
    let T = to_lowercase (trim to) in
    let F = to_lowercase (trim from) in
    ground (
      arith,
      count-eq-zero_iff (is_request F T) g.friendships,
      any-is_request pending T F F T g.friendships (to_lowercase_idem (trim from))
          (to_lowercase_idem (trim to)),
    )
