-- ===== src/Jam/Turns.antt =====
-- What the clock does to a room: `advance` of src/jam_clock.rs.
use agro.Base.{
  ℕ, ◌≡◌, ◌≢◌, refl, true, false, List, [], ◌∷◌, map, arith, Text, same, select, update,
  if◌then◌else◌, order_by, head?, Memᴰ, IsEarliest, All_of_Mem, All-select, Mem-select, ◌||◌, ◌*◌,
  ◌↔◌, ap, All-update_where, ◌∙◌, sym, subst, order_by-IsEarliest, All-update_where, ◌∙◌, sym,
  subst, All-map, All, Option, some, none, Bool-cases, inl, inr, same_refl, ltb,
}
use agro.Social.{is_some}
use agro.Jam.{Jam, queued, played, Track, Rooms, members_of}
use agro.Jam.Queue.{JamTrack, seen_by, is_in_state, tracks_in_state, is_track}
use agro.Jam.Playback.{
  JamNowPlaying, jam_now_playing, now_playing_of, on_air, mark_jam_track_played,
  set_jam_now_playing, clear_jam_now_playing,
}
use agro.Jam.Clock.{ends_at, holds, retire, move_on, next_queued, keep_time, advance, advance_for}

-- The queued tracks of a jam.
abbrev pub queue : List Track → Text → List Track
queue tracks jam_id = select (is_in_state jam_id queued) tracks

-- A jam has on air, since `now`, the track of its queue that was added first; or nothing, and the
-- queue is empty.
abbrev pub IsOnTurn : List Track → Text → ℕ → Option Text → Option ℕ → Type 0
IsOnTurn tracks jam_id now none started_at = queue tracks jam_id ≡ []
IsOnTurn tracks jam_id now (some track_id) started_at =
    (t : Track) × (t.id ≡ track_id)
    × (started_at ≡ some now)
    × IsEarliest (λ s. s.added_at) (queue tracks jam_id) (some t)

-- The rows of the jam play what `jam`, which was read before, says.
abbrev pub IsFresh : Rooms → Jam → Type 0
IsFresh r jam = All (λ j. same j.id jam.id ≡ true → j.now_playing_id ≡ jam.now_playing_id) r.jams

eq-none_of_is_some {ℓ} : {A : Type ℓ} (x : Option A) → is_some x ≡ false → x ≡ none
eq-none_of_is_some none h = refl
eq-none_of_is_some (some x) h = ground arith

module _ (jam : Jam) (now : ℕ) where
  abbrev pub Row : List Track → Jam → Type 0
  Row tracks j = same j.id jam.id ≡ true → IsOnTurn tracks jam.id now j.now_playing_id j.started_at

  silent_row :
      (tracks : List Track) (j : Jam)
      → queue tracks jam.id ≡ []
      → j.now_playing_id ≡ none
      → IsOnTurn tracks jam.id now j.now_playing_id j.started_at
  silent_row tracks j h e = subst (λ x. IsOnTurn tracks jam.id now x j.started_at) (sym e) h

  silent :
      (r : Rooms) (members : List Text)
      → IsFresh r jam
      → queue r.jam_tracks jam.id ≡ []
      → All (Row r.jam_tracks) (move_on r jam now members none).0.jams
  unfolding move_on clear_jam_now_playing
  silent r members fresh h = elim (Bool-cases (is_some jam.now_playing_id)) [
    | inl e ↦
        rw e (All-update_where (Row r.jam_tracks) _ _ r.jams (λ j s k. h) (λ j s k. ground arith))
    | inr e ↦ rw e (
        All-map _ (Row r.jam_tracks) r.jams
          (λ j f k. silent_row r.jam_tracks j h (f k ∙ eq-none_of_is_some jam.now_playing_id e))
          fresh)
  ]

  move_on-jam_tracks :
      (r : Rooms) (members : List Text) (next : Option JamTrack)
      → (move_on r jam now members next).0.jam_tracks ≡ r.jam_tracks
  unfolding move_on set_jam_now_playing clear_jam_now_playing
  move_on-jam_tracks r members none = ground arith
  move_on-jam_tracks r members (some t) = refl

  move_on-IsOnTurn :
      (r : Rooms) (members : List Text)
      → IsFresh r jam
      → All (Row r.jam_tracks) (move_on r jam now members (next_queued r jam)).0.jams
  unfolding next_queued tracks_in_state move_on set_jam_now_playing
  move_on-IsOnTurn r members fresh =
      with_first (order_by (λ t. t.added_at) (queue r.jam_tracks jam.id))
        (order_by-IsEarliest (λ t. t.added_at) (queue r.jam_tracks jam.id))
    where
      with_first :
          (sorted : List Track)
          → IsEarliest (λ t. t.added_at) (queue r.jam_tracks jam.id) (head? sorted)
          → All
              (Row r.jam_tracks)
              (move_on r jam now members (head? (map (seen_by r jam.id jam.host) sorted))).0.jams
      with_first [] h = silent r members fresh h
      with_first (t ∷ sorted) h =
          All-update_where (Row r.jam_tracks) _ _ r.jams (λ j s k. (t, refl, refl, h))
            (λ j s k. ground arith)

-- When the track on air is over, or nothing is on air, the clock moves a room with members on,
-- whose row it has read as it stands: it then plays, from now, the track of its queue that was
-- added first, or nothing when the queue is empty.
pub advance-IsOnTurn :
    (r : Rooms) (jam : Jam) (now : ℕ)
    → IsFresh r jam
    → members_of r jam.id ≢ []
    → holds (jam_now_playing r jam now) ≡ false
    → (let after = (advance r jam now).0 in All (Row jam now after.jam_tracks) after.jams)
unfolding advance keep_time retire mark_jam_track_played
advance-IsOnTurn r jam now fresh some_members over = with_members (members_of r jam.id) some_members
  where
    retired : Rooms
    retired = retire r jam (jam_now_playing r jam now)

    retired-IsFresh : (on_air : Option JamNowPlaying) → IsFresh (retire r jam on_air) jam
    retired-IsFresh none = fresh
    retired-IsFresh (some n) = fresh

    with_members :
        (members : List Text)
        → members ≢ []
        → (let after = (advance_for r jam now members).0 in
            All (Row jam now after.jam_tracks) after.jams)
    with_members [] h = elim (h refl) [ ]
    with_members (m ∷ members) h =
        rw (over, move_on-jam_tracks jam now retired (m ∷ members) (next_queued retired jam))
          (move_on-IsOnTurn jam now retired (m ∷ members)
            (retired-IsFresh (jam_now_playing r jam now)))

-- A track that was marked as played is not in the queue.
played-queue :
    (tracks : List Track) (jam_id track_id : Text) (t : Track)
    → Memᴰ t
        (queue (update (is_track jam_id track_id) (λ t. record t { state = played }) tracks) jam_id)
    → same t.id track_id ≡ false
played-queue tracks jam_id track_id t m =
    let marked = update (is_track jam_id track_id) (λ t. record t { state = played }) tracks in
    let fits : is_in_state jam_id queued t ≡ true =
      All_of_Mem (λ s. is_in_state jam_id queued s ≡ true) t (queue marked jam_id)
        (All-select (is_in_state jam_id queued) marked) m in
    let apart =
      All_of_Mem (λ s. is_in_state jam_id queued s ≡ true → same s.id track_id ≡ false) t marked
        (All-update_where _ (is_track jam_id track_id) _ tracks (λ s e. ground arith)
          (λ s e. ground arith))
        (Mem-select (is_in_state jam_id queued) t marked m) in
    apart fits

-- The jam's own row names the track on air.
on_air-track_id :
    (r : Rooms) (now : ℕ) (id : Option Text) (since : Option ℕ) (n : JamNowPlaying)
    → now_playing_of r now id since ≡ some n
    → id ≡ some n.track_id
on_air-track_id r now none since n h = ground arith
on_air-track_id r now (some id) none n h = ground arith
on_air-track_id r now (some id) (some since) n h =
    with_row (head? (select (λ t. same t.id id) r.jam_tracks)) h
  where
    with_row : (row : Option Track) → on_air now id since row ≡ some n → some id ≡ some n.track_id
    with_row none h = ground arith
    with_row (some t) h = ground arith

advance_waits :
    (r : Rooms) (jam : Jam) (now : ℕ)
    → members_of r jam.id ≢ []
    → holds (jam_now_playing r jam now) ≡ true
    → advance r jam now ≡ (r, [])
unfolding advance keep_time
advance_waits r jam now some_members h = with_members (members_of r jam.id) some_members
  where
    with_members : (members : List Text) → members ≢ [] → advance_for r jam now members ≡ (r, [])
    with_members [] k = elim (k refl) [ ]
    with_members (m ∷ members) k = rw h refl

advance-jam_tracks :
    (r : Rooms) (jam : Jam) (now : ℕ)
    → members_of r jam.id ≢ []
    → holds (jam_now_playing r jam now) ≡ false
    → (advance r jam now).0.jam_tracks ≡ (retire r jam (jam_now_playing r jam now)).jam_tracks
unfolding advance keep_time
advance-jam_tracks r jam now some_members over = with_members (members_of r jam.id) some_members
  where
    retired : Rooms
    retired = retire r jam (jam_now_playing r jam now)

    with_members :
        (members : List Text)
        → members ≢ []
        → (advance_for r jam now members).0.jam_tracks ≡ retired.jam_tracks
    with_members [] k = elim (k refl) [ ]
    with_members (m ∷ members) k =
        rw over (move_on-jam_tracks jam now retired (m ∷ members) (next_queued retired jam))

-- What is on turn was not played.
off_turn :
    (tracks : List Track) (jam_id track_id : Text) (now : ℕ) (id : Option Text) (since : Option ℕ)
    → IsOnTurn
        (update (is_track jam_id track_id) (λ t. record t { state = played }) tracks)
        jam_id
        now
        id
        since
    → id ≢ some track_id
off_turn tracks jam_id track_id now none since turn h = ground arith
off_turn tracks jam_id track_id now (some id) since turn h =
    let fresh = played-queue tracks jam_id track_id turn.0 turn.3.0 in
    ground (arith, turn.1, same_refl track_id)

-- A room with members, whose row the clock has read as it stands, still has its track on air
-- after the clock has looked exactly when the track is a broadcast or has not reached its end,
-- which is the lease when its duration is not known.
pub advance_ends_track :
    (r : Rooms) (jam : Jam) (now : ℕ) (n : JamNowPlaying)
    → IsFresh r jam
    → members_of r jam.id ≢ []
    → jam_now_playing r jam now ≡ some n
    → (let ending = if ltb 0 n.duration_ms then n.duration_ms else 12 * 60 * 1000 in
        All
          (λ j.
            same j.id jam.id ≡ true
            → (j.now_playing_id ≡ some n.track_id) ↔ (n.is_live || ltb n.position_ms ending ≡ true))
          (advance r jam now).0.jams)
unfolding holds ends_at jam_now_playing retire mark_jam_track_played
advance_ends_track r jam now n fresh some_members playing_n = elim (Bool-cases (holds (some n))) [
  | inl e ↦
      let still = advance_waits r jam now some_members (ap holds playing_n ∙ e) in
      rw still (All-map _ _ r.jams (λ j f k. (λ _. e, λ _. f k ∙ named)) fresh)
  | inr e ↦
      let over = ap holds playing_n ∙ e in
      let marked =
        advance-jam_tracks r jam now some_members over
        ∙ ap (λ x. (retire r jam x).jam_tracks) playing_n in
      All-map (Row jam now (advance r jam now).0.jam_tracks) _ (advance r jam now).0.jams
        (λ j turn k. (
          λ stays.
              elim (off_turn r.jam_tracks jam.id n.track_id now j.now_playing_id j.started_at
                (subst (λ tracks. IsOnTurn tracks jam.id now j.now_playing_id j.started_at) marked
                  (turn k))
                stays) [ ],
          λ held. ground arith,
        ))
        (advance-IsOnTurn r jam now fresh some_members over)
]
  where
    named : jam.now_playing_id ≡ some n.track_id
    named = on_air-track_id r now jam.now_playing_id jam.started_at n playing_n
