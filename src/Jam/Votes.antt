-- ===== src/Jam/Votes.antt =====
-- Approvals and skip votes: `approve_jam_track` of src/db_jam/queue.rs and `vote_skip` of
-- src/db_jam/playback.rs.
use agro.Base.{
  ℕ, ◌+◌, ◌*◌, ◌<◌, ◌≡◌, refl, ◌↔◌, Bool, true, ◌&&◌, not, List, [], ◌∷◌, arith, Text, same, trim,
  to_lowercase, eq_nocase, update, any, count, leb, if◌then◌else◌, length, insert_or_ignore,
  same_refl, insert_or_ignore_twice, update_twice, count-append, select, sum_of, ap, ◌∙◌, ◌-◌,
  Bool-cases, inl, inr,
}
use agro.Jam.{JamTrackState, proposed, queued, Track, Vote, Rooms, members_of}
use agro.Jam.Queue.{
  jam_approvals_needed, approvals_in, cast, counts_for, approve_jam_track, is_waiting, enqueue,
}
use agro.Jam.Playback.{jam_skips_needed, skips_on, vote_skip}

-- Who has voted never shows in a row of the queue.
approvals_in-enqueue :
    (jam_id track_id asked : Text) (tracks : List Track) (votes : List Vote)
    → approvals_in (update (is_waiting jam_id track_id) enqueue tracks) votes asked
      ≡ approvals_in tracks votes asked
unfolding approvals_in update
approvals_in-enqueue jam_id track_id asked [] votes = refl
approvals_in-enqueue jam_id track_id asked (t ∷ tracks) votes =
    elim (Bool-cases (is_waiting jam_id track_id t)) [
      | inl e ↦ rw (e, approvals_in-enqueue jam_id track_id asked tracks votes) refl
      | inr e ↦ rw (e, approvals_in-enqueue jam_id track_id asked tracks votes) refl
    ]

module _ (r : Rooms) (jam_id track_id username : Text) where
  abbrev votes : List Vote
  votes = cast jam_id track_id (to_lowercase (trim username)) r.jam_votes

  abbrev approvals : ℕ
  approvals = approvals_in r.jam_tracks votes track_id

  abbrev has_quorum : Bool
  has_quorum = leb (jam_approvals_needed r jam_id) approvals

  cast_again : cast jam_id track_id (to_lowercase (trim username)) votes ≡ votes
  unfolding cast
  cast_again =
      insert_or_ignore_twice _ _ r.jam_votes
        (ground (arith, same_refl track_id, same_refl (to_lowercase (trim username))))

  -- Approving is settled by the first call: the same account approving the same track again finds
  -- and leaves the same rooms, and is given the same answer.
  pub approve_jam_track_twice :
      approve_jam_track (approve_jam_track r jam_id track_id username).0 jam_id track_id username
      ≡ approve_jam_track r jam_id track_id username
  unfolding approve_jam_track jam_approvals_needed members_of
  approve_jam_track_twice = elim (Bool-cases has_quorum) [
    | inl e ↦
        rw
          (
            e,
            cast_again,
            approvals_in-enqueue jam_id track_id track_id r.jam_tracks votes,
            e,
            update_twice (is_waiting jam_id track_id) enqueue r.jam_tracks (λ t. ground arith),
          )
          refl
    | inr e ↦ rw (e, cast_again, e) refl
  ]

-- The approvals of a track that is stored once are those on its row.
approvals_in_unique :
    (tracks : List Track) (votes : List Vote) (track_id : Text)
    → approvals_in tracks votes track_id
      ≡ sum_of (λ t. count (counts_for track_id t) votes) (select (λ t. same t.id track_id) tracks)
unfolding approvals_in select
approvals_in_unique [] votes track_id = refl
approvals_in_unique (t ∷ tracks) votes track_id =
    ground (arith, approvals_in_unique tracks votes track_id)

module _ (r : Rooms) (jam_id track_id username : Text) (t : Track) where
  abbrev voter : Text
  voter = to_lowercase (trim username)

  abbrev approved : Rooms × JamTrackState
  approved = approve_jam_track r jam_id track_id username

  -- The approvals of others than the proposer, as `rs` stores them.
  abbrev others : Rooms → ℕ
  others rs = count (counts_for track_id t) rs.jam_votes

  abbrev adds_one : Bool
  adds_one =
      not (any (λ v. same v.track_id track_id && same v.username voter) r.jam_votes)
      && not (eq_nocase voter t.added_by)

  votes-approved : approved.0.jam_votes ≡ cast jam_id track_id voter r.jam_votes
  unfolding approve_jam_track
  votes-approved = ground arith

  others-cast :
      count (counts_for track_id t) (cast jam_id track_id voter r.jam_votes)
      ≡ others r + (if adds_one then 1 else 0)
  unfolding cast insert_or_ignore count
  others-cast = ground (
    arith,
    count-append (counts_for track_id t) r.jam_votes
        (record { jam_id = jam_id; track_id = track_id; username = voter } ∷ []),
    same_refl track_id,
  )

  -- The track, where it is still a proposal of the jam, is queued; no other row changes.
  rows-approved :
      approved.1 ≡ queued
      → approved.0.jam_tracks
        ≡ update (is_waiting jam_id track_id) (λ q. record q { state = queued }) r.jam_tracks
  unfolding approve_jam_track
  rows-approved q = ground arith

  -- An approval of a track that is stored once is counted when it is the account's first and the
  -- account did not suggest the track. The answer is that the track is queued exactly when the
  -- accounts that have approved it, its proposer left out and whoever has left the jam included,
  -- are more than half of the number of members less one. Then the row of the track is set to
  -- queued where it was still a proposal of the jam, and no other row changes; otherwise no track
  -- changes.
  pub approve_jam_track_majority :
      select (λ t. same t.id track_id) r.jam_tracks ≡ t ∷ []
      → (others approved.0 ≡ others r + (if adds_one then 1 else 0))
        × ((approved.1 ≡ queued) ↔ (length (members_of r jam_id) - 1 < 2 * others approved.0))
        × (approved.1 ≡ queued
            → approved.0.jam_tracks
              ≡ update (is_waiting jam_id track_id) (λ q. record q { state = queued }) r.jam_tracks)
        × (approved.1 ≡ proposed → approved.0.jam_tracks ≡ r.jam_tracks)
  unfolding approve_jam_track jam_approvals_needed
  approve_jam_track_majority h =
      let counted : approvals_in r.jam_tracks (cast jam_id track_id voter r.jam_votes) track_id
          ≡ count (counts_for track_id t) (cast jam_id track_id voter r.jam_votes) + 0 =
        approvals_in_unique r.jam_tracks (cast jam_id track_id voter r.jam_votes) track_id
        ∙ ap (sum_of (λ t. count (counts_for track_id t) (cast jam_id track_id voter r.jam_votes)))
            h in
      let voted = votes-approved in
      (
        ground (arith, voted, others-cast),
        (λ q. ground (arith, voted, counted), λ q. ground (arith, voted, counted)),
        rows-approved,
        (λ q. ground arith),
      )

-- A skip vote is counted once for each account. The vote carries exactly when the accounts that
-- have cast one on the track, whoever has left the jam included, are more than half of the number
-- of members; and the same account voting again changes nothing.
pub vote_skip_majority :
    (r : Rooms) (jam_id track_id username : Text)
    → (let voted = vote_skip r jam_id track_id username in
        let first = not (
          any
            (λ v. same v.track_id track_id && same v.username (to_lowercase (trim username)))
            r.jam_skips) in
        (skips_on voted.0.jam_skips track_id
          ≡ skips_on r.jam_skips track_id + (if first then 1 else 0))
        × ((voted.1 ≡ true)
            ↔ (length (members_of r jam_id) < 2 * skips_on voted.0.jam_skips track_id))
        × (vote_skip voted.0 jam_id track_id username ≡ voted))
unfolding vote_skip cast jam_skips_needed skips_on insert_or_ignore count members_of
vote_skip_majority r jam_id track_id username =
    let name = to_lowercase (trim username) in
    let row : Vote = record { jam_id = jam_id; track_id = track_id; username = name } in
    let again =
      insert_or_ignore_twice (λ v. same v.track_id track_id && same v.username name) row r.jam_skips
        (ground (arith, same_refl track_id, same_refl name)) in
    (
      ground (
        arith,
        count-append (λ v. same v.track_id track_id) r.jam_skips (row ∷ []),
        same_refl track_id,
      ),
      (λ q. ground arith, λ q. ground arith),
      rw again refl,
    )
