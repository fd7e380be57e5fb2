-- ===== src/Jam/Single.antt =====
-- Nobody is in two rooms at once: the calls of src/schema_jam/jam_lifecycle.rs by which an account
-- goes into a room or out of it.
use agro.Base.{
  ℕ, ◌≡◌, refl, sym, ap, ◌∙◌, subst, Bool, true, false, ◌&&◌, ◌||◌, not, List, arith, Option, none,
  some, Text, same, same_refl, eq_of_same, trim, to_lowercase, select, any, any-select, any-le,
  any-order_by_desc, none_first, some_first, first_fits, any-delete, eq_nocase, any_none,
  if◌then◌else◌, head?, order_by_desc, Bool-cases, inl, inr,
}
use agro.Jam.{
  Jam, Rooms, is_live_jam, is_open_jam, is_member_row, is_jam_member, join_jam, leave_jam,
  jam_for_member, jam_by_code, friend_jams, delete_jam, members_of,
}
use agro.Jam.Api.{
  after, enter, depart_other, depart, call_join_jam, call_join_friend_jam, call_leave_jam, leaving,
  require, found_or, refused, Refusal, feature_off, no_open_code, no_open_id, not_in_a_jam,
  is_empty,
}
use agro.Jam.Rights.{
  same_name, is_jam_member-delete_jam, is_jam_member-leave_jam, is_jam_member-join_jam,
}

abbrev pub is_in : Rooms → Text → Text → Bool
is_in r jam_id name = any (is_open_jam jam_id) r.jams && is_jam_member r jam_id name

-- No account is in two live rooms.
abbrev pub IsSingle : Rooms → Type 0
IsSingle r = (name a b : Text) → is_in r a name ≡ true → is_in r b name ≡ true → same a b ≡ true

module _ (r : Rooms) (me : Text) where
  abbrev is_mine : Jam → Bool
  is_mine j = is_live_jam j && any (is_member_row j.id me) r.jam_members

  abbrev mine : List Jam
  mine = order_by_desc (λ j. j.created_at) (select is_mine r.jams)

  any-mine : (p : Jam → Bool) → any p mine ≡ any (λ j. is_mine j && p j) r.jams
  any-mine p =
      any-order_by_desc (λ j. j.created_at) p (select is_mine r.jams) ∙ any-select p is_mine r.jams

  room_none : (a : Text) → jam_for_member r me ≡ none → is_in r a me ≡ false
  unfolding jam_for_member is_jam_member
  room_none a h = elim (Bool-cases (is_in r a me)) [
    | inr k ↦ k
    | inl k ↦
        let found : any (λ j. is_mine j && same j.id a) r.jams ≡ true =
          any-le (is_open_jam a) (λ j. is_mine j && same j.id a) r.jams
            (λ j o. open_mine a j (ground arith) o) (ground arith) in
        let nothing = sym (any-mine (λ j. same j.id a)) ∙ none_first (λ j. same j.id a) mine h in
        ground arith
  ]
    where
      open_mine :
          (a : Text) (j : Jam)
          → any (is_member_row a me) r.jam_members ≡ true
          → is_open_jam a j ≡ true
          → is_mine j && same j.id a ≡ true
      open_mine a j m o =
          let has : any (is_member_row j.id me) r.jam_members ≡ true =
            subst (λ x. any (is_member_row x me) r.jam_members ≡ true)
              (sym (eq_of_same j.id a (ground arith))) m in
          ground arith

  room_some : (e : Jam) → jam_for_member r me ≡ some e → is_in r e.id me ≡ true
  unfolding jam_for_member is_jam_member
  room_some e h =
      let e_mine : is_mine e ≡ true =
        first_fits is_mine mine e
          (any-mine (λ j. not (is_mine j))
            ∙ any_none (λ j. is_mine j && not (is_mine j)) r.jams (λ j. ground arith))
          h in
      let listed =
        sym (any-mine (λ j. same j.id e.id))
        ∙ some_first (λ j. same j.id e.id) mine e h (same_refl e.id) in
      let opened : any (is_open_jam e.id) r.jams ≡ true =
        any-le (λ j. is_mine j && same j.id e.id) (is_open_jam e.id) r.jams (λ j o. ground arith)
          listed in
      ground arith

is_jam_member-same_name :
    (r : Rooms) (a name me : Text)
    → same_name name me ≡ true
    → is_jam_member r a name ≡ is_jam_member r a me
unfolding is_jam_member
is_jam_member-same_name r a name me h =
    ap (λ n. any (λ m. same m.jam_id a && same (to_lowercase m.username) n) r.jam_members)
      (eq_of_same (to_lowercase (trim name)) (to_lowercase (trim me)) h)

module _ (r : Rooms) (me : Text) (now : ℕ) (jam : Jam) (single : IsSingle r) where
  abbrev entered : Option Jam → Rooms
  entered existing = join_jam (depart_other r existing jam me) jam.id me now

  jams-entered : (existing : Option Jam) → (entered existing).jams ≡ r.jams
  unfolding depart_other depart join_jam leave_jam
  jams-entered none = refl
  jams-entered (some e) = ground arith

  -- The account itself is then in no live room but this one.
  entered-mine :
      (existing : Option Jam) (a : Text)
      → jam_for_member r me ≡ existing
      → is_in (entered existing) a me ≡ true
      → same a jam.id ≡ true
  unfolding depart_other depart join_jam leave_jam
  entered-mine none a h k =
      ground
        (arith, is_jam_member-join_jam r jam.id me a me now, room_none r me a h, jams-entered none)
  entered-mine (some e) a h k = elim (Bool-cases (same e.id jam.id)) [
    | inl q ↦
        let here =
          subst (λ b. is_in (join_jam (if b then r else left) jam.id me now) a me ≡ true) q k in
        elim (Bool-cases (is_in r a me)) [
          | inl m ↦ rw (eq_of_same a e.id (single me a e.id m (room_some r me e h))) q
          | inr m ↦ ground (arith, is_jam_member-join_jam r jam.id me a me now)
        ]
    | inr q ↦
        let here =
          subst (λ b. is_in (join_jam (if b then r else left) jam.id me now) a me ≡ true) q k in
        elim (Bool-cases (is_in r a me)) [
          | inl m ↦
              let there = single me a e.id m (room_some r me e h) in
              ground (
                arith,
                is_jam_member-join_jam left jam.id me a me now,
                is_jam_member-leave_jam r e.id me a me,
                same_refl (to_lowercase (trim me)),
              )
          | inr m ↦ ground (
            arith,
            is_jam_member-join_jam left jam.id me a me now,
            is_jam_member-leave_jam r e.id me a me,
          )
        ]
  ]
    where
      left : Rooms
      left = (leave_jam r e.id me).0

  entered-other :
      (existing : Option Jam) (a name : Text)
      → same_name name me ≡ false
      → is_in (entered existing) a name ≡ is_in r a name
  unfolding depart_other depart join_jam leave_jam
  entered-other none a name h = ground (arith, is_jam_member-join_jam r jam.id me a name now)
  entered-other (some e) a name h = ground (
    arith,
    is_jam_member-join_jam r jam.id me a name now,
    is_jam_member-join_jam (leave_jam r e.id me).0 jam.id me a name now,
    is_jam_member-leave_jam r e.id me a name,
  )

  entered-IsSingle : IsSingle (entered (jam_for_member r me))
  entered-IsSingle name a b in_a in_b = elim (Bool-cases (same_name name me)) [
    | inl k ↦
        let at_a = entered-mine (jam_for_member r me) a refl (sym (mine_too a k) ∙ in_a) in
        let at_b = entered-mine (jam_for_member r me) b refl (sym (mine_too b k) ∙ in_b) in
        rw (eq_of_same a jam.id at_a, eq_of_same b jam.id at_b) (same_refl jam.id)
    | inr k ↦
        single name a b (sym (entered-other (jam_for_member r me) a name k) ∙ in_a)
          (sym (entered-other (jam_for_member r me) b name k) ∙ in_b)
  ]
    where
      mine_too :
          (a : Text)
          → same_name name me ≡ true
          → is_in (entered (jam_for_member r me)) a name
            ≡ is_in (entered (jam_for_member r me)) a me
      mine_too a k =
          ap (λ m. any (is_open_jam a) (entered (jam_for_member r me)).jams && m)
            (is_jam_member-same_name (entered (jam_for_member r me)) a name me k)

found-IsSingle :
    (r : Rooms) (me : Text) (now : ℕ) (refusal : Refusal) (found : Option Jam)
    → IsSingle r
    → IsSingle (after r (require r (found_or refusal found (enter r me now))))
unfolding after enter
found-IsSingle r me now refusal found single = when_on r.enabled found
  where
    when_on :
        (on : Bool) (found : Option Jam)
        → IsSingle
            (after r (if on then found_or refusal found (enter r me now) else refused feature_off))
    when_on false found = single
    when_on true none = single
    when_on true (some jam) = entered-IsSingle r me now jam single

-- What takes rooms and members away keeps everybody in one room at most.
IsSingle-le :
    (r s : Rooms)
    → ((a name : Text) → is_in s a name ≡ true → is_in r a name ≡ true)
    → IsSingle r
    → IsSingle s
IsSingle-le r s le single name a b in_a in_b = single name a b (le a name in_a) (le b name in_b)

left-IsSingle : (r : Rooms) (me jam_id : Text) → IsSingle r → IsSingle (leave_jam r jam_id me).0
unfolding leave_jam
left-IsSingle r me jam_id single =
    IsSingle-le r (leave_jam r jam_id me).0
      (λ a name h. ground (arith, is_jam_member-leave_jam r jam_id me a name)) single

deleted-IsSingle : (r : Rooms) (jam_id : Text) → IsSingle r → IsSingle (delete_jam r jam_id)
unfolding delete_jam
deleted-IsSingle r jam_id single =
    IsSingle-le r (delete_jam r jam_id)
      (λ a name h.
        let rows = any-delete (is_open_jam a) (λ j. same j.id jam_id) r.jams in
        let still =
          any-le (λ j. not (same j.id jam_id) && is_open_jam a j) (is_open_jam a) r.jams
            (λ j o. ground arith) in
        ground (arith, is_jam_member-delete_jam r jam_id a name))
      single

-- While nobody is in two live rooms, joining one by its code, joining a friend's, and leaving keep
-- it so, whether the call is refused or not.
pub call_join_jam-IsSingle :
    (r : Rooms) (me secret jam_id : Text) (now : ℕ)
    → IsSingle r
    → IsSingle (after r (call_join_jam r me secret now))
      × IsSingle (after r (call_join_friend_jam r me jam_id now))
      × IsSingle (after r (call_leave_jam r me))
unfolding call_join_jam call_join_friend_jam call_leave_jam after depart
call_join_jam-IsSingle r me secret jam_id now single = (
  found-IsSingle r me now no_open_code (jam_by_code r secret) single,
  found-IsSingle r me now no_open_id
      (head? (select (λ jam. same jam.id (trim jam_id)) (friend_jams r me))) single,
  leaving-IsSingle r.enabled (jam_for_member r me),
)
  where
    leaving-IsSingle :
        (on : Bool) (existing : Option Jam)
        → IsSingle (
            after r (
              found_or not_in_a_jam existing
                (λ jam. if on then leaving r me jam else refused feature_off)))
    leaving-IsSingle on none = single
    leaving-IsSingle false (some jam) = single
    leaving-IsSingle true (some jam) =
        let left = left-IsSingle r me jam.id single in
        elim (Bool-cases
          (eq_nocase jam.host me || is_empty (members_of (leave_jam r jam.id me).0 jam.id))) [
            | inl e ↦ rw e (deleted-IsSingle (leave_jam r jam.id me).0 jam.id left)
            | inr e ↦ rw e left
          ]
