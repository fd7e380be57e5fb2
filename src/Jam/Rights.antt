-- ===== src/Jam/Rights.antt =====
-- Who may do what to a room: the calls of src/schema_jam/jam_lifecycle.rs and
-- src/schema_jam/jam_queue.rs.
use agro.Base.{
  ℕ, order_by, insert_by, ltb, ◌≡◌, refl, ap, ◌∙◌, Bool, true, false, ◌&&◌, ◌||◌, not, List, [],
  ◌∷◌, map, arith, Text, same, select, delete, any, if◌then◌else◌, some, Bool-cases, inl, inr, trim,
  to_lowercase, to_lowercase_idem, eq_nocase, same_refl, eq_of_same, same_comm, any-append,
  any-delete, any-pointwise, any-and_const, any-le, insert_or_ignore,
}
use agro.Jam.{
  Jam, Member, Rooms, members_of, is_member_row, is_jam_member, join_jam, leave_jam, delete_jam,
  jam_for_member, jam_by_code,
}
use agro.Jam.Api.{
  refused, after, depart, depart_other, enter, call_join_jam, call_leave_jam, found_or, require,
  not_in_a_jam, feature_off, leaving, is_empty,
}

abbrev pub same_name : Text → Text → Bool
same_name a b = same (to_lowercase (trim a)) (to_lowercase (trim b))

-- A row of the key (a, n) is a row of the key (b, m) when the keys are the same.
row_apart :
    (j a b u n m : Text)
    → not (same j b && same u m) && (same j a && same u n)
      ≡ not (same a b && same n m) && (same j a && same u n)
row_apart j a b u n m = elim (Bool-cases (same j a && same u n)) [
  | inl e ↦ rw (eq_of_same j a (ground arith), eq_of_same u n (ground arith))
  | inr e ↦ ground arith
]

joined_row :
    (j a b u n m : Text)
    → to_lowercase m ≡ m
    → same a b && same n m ≡ true
    → same j b && same u m ≡ true
    → same j a && same (to_lowercase u) n ≡ true
joined_row j a b u n m h k e =
    rw
      (
        eq_of_same j b (ground arith),
        eq_of_same u m (ground arith),
        h,
        eq_of_same a b (ground arith),
        eq_of_same n m (ground arith),
        same_refl b,
        same_refl m,
      )
      refl

module _ (r : Rooms) (jam_id me a name : Text) where
  pub is_jam_member-leave_jam :
      is_jam_member (leave_jam r jam_id me).0 a name
      ≡ not (same a jam_id && same_name name me) && is_jam_member r a name
  unfolding is_jam_member leave_jam
  is_jam_member-leave_jam =
      any-delete (is_member_row a name) (is_member_row jam_id me) r.jam_members
      ∙ any-pointwise (λ m. not (is_member_row jam_id me m) && is_member_row a name m)
          (λ m. not (same a jam_id && same_name name me) && is_member_row a name m) r.jam_members
          (λ m.
            row_apart m.jam_id a jam_id (to_lowercase m.username) (to_lowercase (trim name))
              (to_lowercase (trim me)))
      ∙ any-and_const (not (same a jam_id && same_name name me)) (is_member_row a name)
          r.jam_members

  pub is_jam_member-join_jam :
      (now : ℕ)
      → is_jam_member (join_jam r jam_id me now) a name
        ≡ is_jam_member r a name || (same a jam_id && same_name name me)
  unfolding is_jam_member join_jam insert_or_ignore any
  is_jam_member-join_jam now =
      let row : Member = record {
        jam_id = jam_id;
        username = to_lowercase (trim me);
        joined_at = now;
      } in
      let key = λ (m : Member). same m.jam_id jam_id && same m.username (to_lowercase (trim me)) in
      elim (Bool-cases (any key r.jam_members)) [
        | inl e ↦ rw e (elim (Bool-cases (same a jam_id && same_name name me)) [
          | inl k ↦
              (let has : any (is_member_row a name) r.jam_members ≡ true =
                  any-le key (is_member_row a name) r.jam_members
                    (λ m.
                      joined_row m.jam_id a jam_id m.username (to_lowercase (trim name))
                        (to_lowercase (trim me)) (to_lowercase_idem (trim me)) k)
                    e in
                ground arith)
          | inr k ↦ ground arith
        ])
        | inr e ↦ rw e (
            any-append (is_member_row a name) r.jam_members (row ∷ [])
            ∙ ground (
              arith,
              to_lowercase_idem (trim me),
              same_comm a jam_id,
              same_comm (to_lowercase (trim me)) (to_lowercase (trim name)),
            ))
      ]

-- With jams switched on and an account that is in a room, joining a room by its code takes the
-- account out of the room it is in, when that is another one, and into the new one, and moves
-- nobody else. It ends no room, whoever created the one that is left.
pub call_join_jam_switches :
    (r : Rooms) (me secret : Text) (now : ℕ) (existing jam : Jam)
    → r.enabled ≡ true
    → jam_for_member r me ≡ some existing
    → jam_by_code r secret ≡ some jam
    → (let s = after r (call_join_jam r me secret now) in
        (s.jams ≡ r.jams)
        × (is_jam_member s jam.id me ≡ true)
        × ((a name : Text)
            → is_jam_member s a name ≡ (
                if same_name name me && (same a existing.id || same a jam.id)
                then same a jam.id
                else is_jam_member r a name)))
unfolding call_join_jam enter depart_other depart join_jam leave_jam after is_jam_member jam_by_code
    jam_for_member
call_join_jam_switches r me secret now existing jam on in_existing found =
    elim (Bool-cases (same existing.id jam.id)) [
      | inl e ↦
          rw (on, found, in_existing, e)
            (
              jams-join_jam r,
              is_jam_member-join_jam r jam.id me jam.id me now
                  ∙ ground (arith, same_refl jam.id, same_refl (to_lowercase (trim me))),
              λ a name.
                  is_jam_member-join_jam r jam.id me a name now
                  ∙ ground (arith, eq_of_same existing.id jam.id),
            )
      | inr e ↦
          rw (on, found, in_existing, e)
            (
              jams-join_jam left ∙ jams-leave_jam,
              is_jam_member-join_jam left jam.id me jam.id me now
                  ∙ ground (arith, same_refl jam.id, same_refl (to_lowercase (trim me))),
              λ a name.
                  is_jam_member-join_jam left jam.id me a name now
                  ∙ ap (λ b. b || (same a jam.id && same_name name me))
                      (is_jam_member-leave_jam r existing.id me a name)
                  ∙ ground (arith, eq_of_same a existing.id, same_comm existing.id jam.id),
            )
    ]
  where
    left : Rooms
    left = (leave_jam r existing.id me).0

    jams-leave_jam : left.jams ≡ r.jams
    jams-leave_jam = refl

    jams-join_jam : (s : Rooms) → (join_jam s jam.id me now).jams ≡ s.jams
    jams-join_jam s = refl

is_empty-order_by :
    (p : Member → Bool) (rows : List Member)
    → is_empty (map (λ m. m.username) (order_by (λ m. m.joined_at) (select p rows)))
      ≡ not (any p rows)
unfolding order_by select any insert_by
is_empty-order_by p [] = refl
is_empty-order_by p (m ∷ rows) = elim (Bool-cases (p m)) [
  | inl e ↦ rw e (never_empty m (order_by (λ m. m.joined_at) (select p rows)))
  | inr e ↦ rw e (is_empty-order_by p rows)
]
  where
    never_empty :
        (m : Member) (sorted : List Member)
        → is_empty (map (λ m. m.username) (insert_by (λ m. m.joined_at) m sorted)) ≡ false
    never_empty m [] = refl
    never_empty m (n ∷ sorted) = elim (Bool-cases (ltb n.joined_at m.joined_at)) [
      | inl e ↦ rw e refl
      | inr e ↦ rw e refl
    ]

pub any-delete_key {ℓ} :
    {R : Type ℓ} (key : R → Text) (a b : Text) (rows : List R)
    → any (λ x. same (key x) a) (delete (λ x. same (key x) b) rows)
      ≡ not (same a b) && any (λ x. same (key x) a) rows
any-delete_key key a b rows =
    any-delete (λ x. same (key x) a) (λ x. same (key x) b) rows
    ∙ any-pointwise _ (λ x. not (same a b) && same (key x) a) rows
        (λ x. ground (arith, eq_of_same (key x) a))
    ∙ any-and_const (not (same a b)) (λ x. same (key x) a) rows

pub is_jam_member-delete_jam :
    (r : Rooms) (jam_id a name : Text)
    → is_jam_member (delete_jam r jam_id) a name ≡ not (same a jam_id) && is_jam_member r a name
unfolding is_jam_member delete_jam
is_jam_member-delete_jam r jam_id a name =
    any-delete (is_member_row a name) (λ m. same m.jam_id jam_id) r.jam_members
    ∙ any-pointwise _ (λ m. not (same a jam_id) && is_member_row a name m) r.jam_members
        (λ m. ground (arith, eq_of_same m.jam_id a))
    ∙ any-and_const (not (same a jam_id)) (is_member_row a name) r.jam_members

delete_when {ℓ} :
    {R : Type ℓ} (b : Bool) (p : R → Bool) (rows : List R)
    → (if b then delete p rows else rows) ≡ delete (λ x. b && p x) rows
unfolding delete
delete_when true p rows = refl
delete_when false p [] = refl
delete_when false p (x ∷ rows) = ap (λ rest. x ∷ rest) (delete_when false p rows)

-- The members who go: all of an ending room, or the one who leaves.
delete_members :
    (ends : Bool) (jam_id me : Text) (rows : List Member)
    → (let left = delete (is_member_row jam_id me) rows in
        if ends then delete (λ m. same m.jam_id jam_id) left else left)
      ≡ delete (λ m. same m.jam_id jam_id && (ends || is_member_row jam_id me m)) rows
unfolding delete
delete_members true jam_id me [] = refl
delete_members false jam_id me [] = refl
delete_members true jam_id me (m ∷ rows) = ground (arith, delete_members true jam_id me rows)
delete_members false jam_id me (m ∷ rows) = ground (arith, delete_members false jam_id me rows)

-- With jams switched on, leaving a room, when it is the creator who leaves or the last member,
-- deletes the room with all its members, tracks, votes and skip votes; when somebody else leaves,
-- only that account's membership of the room is deleted. No other row of these tables goes.
pub call_leave_jam_ends :
    (r : Rooms) (me : Text) (jam : Jam)
    → r.enabled ≡ true
    → jam_for_member r me ≡ some jam
    → (let s = after r (call_leave_jam r me) in
        let ends =
          eq_nocase jam.host me
          || not
              (any (λ m. not (is_member_row jam.id me m) && same m.jam_id jam.id) r.jam_members) in
        (s.jams ≡ delete (λ j. ends && same j.id jam.id) r.jams)
        × (s.jam_members
            ≡ delete
                (λ m. same m.jam_id jam.id && (ends || is_member_row jam.id me m))
                r.jam_members)
        × (s.jam_tracks ≡ delete (λ t. ends && same t.jam_id jam.id) r.jam_tracks)
        × (s.jam_votes ≡ delete (λ v. ends && same v.jam_id jam.id) r.jam_votes)
        × (s.jam_skips ≡ delete (λ v. ends && same v.jam_id jam.id) r.jam_skips))
unfolding call_leave_jam depart leave_jam delete_jam after members_of
call_leave_jam_ends r me jam on in_jam = (
  ap (λ x. x.jams) answer
      ∙ field (λ x. x.jams) ends (delete_jam left jam.id) left
      ∙ delete_when ends (λ j. same j.id jam.id) r.jams,
  ap (λ x. x.jam_members) answer
      ∙ field (λ x. x.jam_members) ends (delete_jam left jam.id) left
      ∙ delete_members ends jam.id me r.jam_members,
  ap (λ x. x.jam_tracks) answer
      ∙ field (λ x. x.jam_tracks) ends (delete_jam left jam.id) left
      ∙ delete_when ends (λ t. same t.jam_id jam.id) r.jam_tracks,
  ap (λ x. x.jam_votes) answer
      ∙ field (λ x. x.jam_votes) ends (delete_jam left jam.id) left
      ∙ delete_when ends (λ v. same v.jam_id jam.id) r.jam_votes,
  ap (λ x. x.jam_skips) answer
      ∙ field (λ x. x.jam_skips) ends (delete_jam left jam.id) left
      ∙ delete_when ends (λ v. same v.jam_id jam.id) r.jam_skips,
)
  where
    left : Rooms
    left = (leave_jam r jam.id me).0

    ends : Bool
    ends =
        eq_nocase jam.host me
        || not (any (λ m. not (is_member_row jam.id me m) && same m.jam_id jam.id) r.jam_members)

    nobody :
        is_empty (members_of left jam.id)
        ≡ not (any (λ m. not (is_member_row jam.id me m) && same m.jam_id jam.id) r.jam_members)
    nobody =
        is_empty-order_by (λ m. same m.jam_id jam.id) left.jam_members
        ∙ ap not (any-delete (λ m. same m.jam_id jam.id) (is_member_row jam.id me) r.jam_members)

    ending : Bool → Rooms
    ending b = if eq_nocase jam.host me || b then delete_jam left jam.id else left

    answer : after r (call_leave_jam r me) ≡ (if ends then delete_jam left jam.id else left)
    answer =
        ap (λ o. after r (found_or not_in_a_jam o (λ j. require r (leaving r me j)))) in_jam
        ∙ ap (λ b. after r (if b then leaving r me jam else refused feature_off)) on
        ∙ ap ending nobody

    field :
        {X : Type 0} (f : Rooms → X) (b : Bool) (x y : Rooms)
        → f (if b then x else y) ≡ (if b then f x else f y)
    field f true x y = refl
    field f false x y = refl
