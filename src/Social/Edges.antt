-- ===== src/Social/Edges.antt =====
-- The friendship table seen through one question: is there a row from the one account to the other
-- in this state? Accounts are named by `name_key`, under which every statement compares them.
use agro.Base.{
  to_lowercase_idem, trim_idem, trim-to_lowercase, ap, ◌∙◌, ◌≡◌, refl, Bool, false, ◌&&◌, ◌||◌,
  List, [], ◌∷◌, map, Option, none, some, arith, Text, same, trim, to_lowercase, select, any,
  if◌then◌else◌, head?,
}
use agro.Social.{
  FriendState, pending, accepted, blocked, is_state, Edge, Graph, contains, friend_state,
}

-- The stored form of a name.
unfoldable pub name_key : Text → Text
unfolding trim to_lowercase
name_key x = to_lowercase (trim x)

abbrev pub at : Text → Text → Edge → Bool
at x y e = same (to_lowercase e.user_id) x && same (to_lowercase e.friend_id) y

abbrev pub is_at : FriendState → Text → Text → Edge → Bool
is_at st x y e = at x y e && is_state st e.state

unfoldable pub has : FriendState → List Edge → Text → Text → Bool
unfolding any
has st g x y = any (is_at st x y) g

-- A name in its stored form: in lower case, without outer blanks.
abbrev pub IsName : Text → Type 0
IsName x = (to_lowercase x ≡ x) × (trim x ≡ x)

abbrev pub IsStored : Edge → Type 0
IsStored e = IsName e.user_id × IsName e.friend_id

pub stored-IsName : (x : Text) → IsName (to_lowercase (trim x))
stored-IsName x =
    (to_lowercase_idem (trim x), trim-to_lowercase (trim x) ∙ ap to_lowercase (trim_idem x))

contains-select :
    (st : FriendState) (p : Edge → Bool) (g : List Edge)
    → contains st (map (λ e. e.state) (select p g)) ≡ any (λ e. p e && is_state st e.state) g
unfolding contains select any
contains-select st p [] = refl
contains-select st p (e ∷ g) = ground (arith, contains-select st p g)

any-touches :
    (st : FriendState) (x y : Text) (g : List Edge)
    → any (λ e. (at x y e || at y x e) && is_state st e.state) g ≡ has st g x y || has st g y x
unfolding has any
any-touches st x y [] = refl
any-touches st x y (e ∷ g) = ground (arith, any-touches st x y g)

head-pending :
    (ts : List FriendState)
    → contains blocked ts ≡ false
    → contains accepted ts ≡ false
    → head? ts ≡ (if contains pending ts then some pending else none)
unfolding contains
head-pending [] b a = refl
head-pending (pending ∷ ts) b a = refl
head-pending (accepted ∷ ts) b a = ground arith
head-pending (blocked ∷ ts) b a = ground arith

-- What `friend_state` answers from the three questions.
abbrev pub verdict : Bool → Bool → Bool → Option FriendState
verdict b a p =
    if b then some blocked else if a then some accepted else if p then some pending else none

abbrev pub either : FriendState → List Edge → Text → Text → Bool
either st g x y = has st g x y || has st g y x

pub friend_state-verdict :
    (g : Graph) (a b : Text)
    → let x = name_key a in
      let y = name_key b in
      let e = g.friendships in
      friend_state g a b
      ≡ verdict (either blocked e x y) (either accepted e x y) (either pending e x y)
unfolding friend_state name_key
friend_state-verdict g a b =
    let x = to_lowercase (trim a) in
    let y = to_lowercase (trim b) in
    let p = λ (e : Edge). at x y e || at y x e in
    let ts = map (λ (e : Edge). e.state) (select p g.friendships) in
    ground (
      arith,
      contains-select blocked p g.friendships,
      contains-select accepted p g.friendships,
      contains-select pending p g.friendships,
      any-touches blocked x y g.friendships,
      any-touches accepted x y g.friendships,
      any-touches pending x y g.friendships,
      head-pending ts,
    )
