-- ===== src/Jam/Frames.antt =====
-- What the members are told when the clock moves a room on: the frames of `advance` in
-- src/jam_clock.rs.
use agro.Base.{
  ℕ, ◌≡◌, refl, subst, List, [], ◌∷◌, map, Text, same, select, update, head?, All, Option, some,
  none, Bool-cases, inl, inr,
}
use agro.Social.{is_some}
use agro.Jam.{Jam, played, Track, Rooms, members_of}
use agro.Jam.Queue.{JamTrack, is_track}
use agro.Jam.Playback.{
  jam_now_playing, now_playing_of, JamNowPlaying, on_air, mark_jam_track_played,
  set_jam_now_playing,
}
use agro.Jam.Clock.{
  Frame, playing, stopped, holds, retire, holder_of, starting, move_on, next_queued, keep_time,
  advance, advance_for,
}

-- The frame gives these for the account, the device and the file of the track that starts.
abbrev pub Names : Text × (Option Text × Option Text) → Frame → Type 0
Names holder (playing member p) = (p.added_by, (p.device_id, p.content_hash)) ≡ holder
Names holder (stopped member jam_id) = Unit

module _ (now : ℕ) where
  -- Marking tracks as played changes no holder.
  holder-retire :
      (r : Rooms) (jam : Jam) (n : Option JamNowPlaying)
      → holder_of (jam_now_playing (retire r jam n) jam now) ≡ holder_of (jam_now_playing r jam now)
  unfolding jam_now_playing retire mark_jam_track_played select update
  holder-retire r jam none = refl
  holder-retire r jam (some n) = with_ids jam.now_playing_id jam.started_at
    where
      with_tracks :
          (id : Text) (since : ℕ) (tracks : List Track)
          → holder_of (
              on_air now id since (
                head? (
                  select
                    (λ t. same t.id id)
                    (update
                      (is_track jam.id n.track_id)
                      (λ t. record t { state = played })
                      tracks))))
            ≡ holder_of (on_air now id since (head? (select (λ t. same t.id id) tracks)))
      with_tracks id since [] = refl
      with_tracks id since (t ∷ tracks) = elim (Bool-cases (is_track jam.id n.track_id t)) [
        | inl e ↦ elim (Bool-cases (same t.id id)) [
          | inl e' ↦ rw (e, e') refl
          | inr e' ↦ rw (e, e') (with_tracks id since tracks)
        ]
        | inr e ↦ elim (Bool-cases (same t.id id)) [
          | inl e' ↦ rw (e, e') refl
          | inr e' ↦ rw (e, e') (with_tracks id since tracks)
        ]
      ]

      with_ids :
          (id : Option Text) (since : Option ℕ)
          → holder_of (now_playing_of (retire r jam (some n)) now id since)
            ≡ holder_of (now_playing_of r now id since)
      with_ids (some id) (some since) = with_tracks id since r.jam_tracks
      with_ids (some id) none = refl
      with_ids none since = refl

  All-map_frames :
      (jam : Jam) (t : JamTrack) (holder : Text × (Option Text × Option Text)) (members : List Text)
      → All (Names holder) (map (λ member. playing member (starting jam t holder)) members)
  All-map_frames jam t holder [] = tt
  All-map_frames jam t holder (m ∷ members) = (refl, All-map_frames jam t holder members)

  All-map_stopped :
      (holder : Text × (Option Text × Option Text)) (jam_id : Text) (members : List Text)
      → All (Names holder) (map (λ member. stopped member jam_id) members)
  All-map_stopped holder jam_id [] = tt
  All-map_stopped holder jam_id (m ∷ members) = (tt, All-map_stopped holder jam_id members)

  move_on-Names :
      (r : Rooms) (jam : Jam) (members : List Text) (next : Option JamTrack)
      → All (Names (holder_of (jam_now_playing r jam now))) (move_on r jam now members next).1
  unfolding move_on set_jam_now_playing jam_now_playing
  move_on-Names r jam members (some t) = All-map_frames jam t _ members
  move_on-Names r jam members none = elim (Bool-cases (is_some jam.now_playing_id)) [
    | inl e ↦ rw e (All-map_stopped _ jam.id members)
    | inr e ↦ rw e tt
  ]

-- Every frame that starts a track describes the holder of the track that was on air before it, and
-- no holder when nothing was on air.
pub advance-Names_last :
    (r : Rooms) (jam : Jam) (now : ℕ)
    → All (Names (holder_of (jam_now_playing r jam now))) (advance r jam now).1
unfolding advance keep_time
advance-Names_last r jam now = with_members (members_of r jam.id)
  where
    retired : Rooms
    retired = retire r jam (jam_now_playing r jam now)

    with_members :
        (members : List Text)
        → All (Names (holder_of (jam_now_playing r jam now))) (advance_for r jam now members).1
    with_members [] = tt
    with_members (m ∷ members) = elim (Bool-cases (holds (jam_now_playing r jam now))) [
      | inl e ↦ rw e tt
      | inr e ↦ rw e (
          subst
            (λ holder.
              All (Names holder)
                (move_on retired jam now (m ∷ members) (next_queued retired jam)).1)
            (holder-retire now r jam (jam_now_playing r jam now))
            (move_on-Names now retired jam (m ∷ members) (next_queued retired jam)))
    ]
