-- ===== src/Lib.antt =====
-- Agro: a verification library for the server's core logic.
--
-- The server is one binary over one SQLite file. GraphQL resolvers (src/schema*.rs) check who is
-- asking and call methods of `Db` (src/db*.rs), each of which runs a few SQL statements under one
-- lock. The library models the components below; each file's first lines name the code it is about.
--
--   Base      text (code points, trimming, ASCII case), tables as lists of rows with the statements
--             SELECT, INSERT, UPDATE and DELETE, and the shared tests and lemmas.
--   Social    src/db_social.rs, src/db_social/friends.rs and the redemption of a friend code from
--             src/schema_social/friends_mutation.rs. Operations keep their names; the state is the
--             record `Graph` of the tables friendships, friend_codes and
--             handoff_presence_ciphertexts.
--   Playlists src/db_playlists.rs, src/db_playlist_items.rs, src/db_playlist_edits.rs,
--             src/db_playlist_followers.rs, src/playlist_visibility.rs and src/playlist_access.rs.
--             Blends at rest, src/db_blend.rs with the writes of src/db_blend_refresh.rs, and what src/db/erasure.rs
--             does to playlists are in Playlists/Blends, and every write to these tables is a step of Playlists/Steps.
--             The state is the record `Store`; the transaction of `apply_playlist_edits` is
--             `commit_edits`, its loop `apply_edits` over a `Draft`.
--   Jam       src/db_jam.rs with src/db_jam/lifecycle.rs (Jam), src/db_jam/queue.rs (Jam/Queue) and
--             src/db_jam/playback.rs (Jam/Playback), src/jam_clock.rs (Jam/Clock), and the mutations
--             of src/schema_jam/jam_lifecycle.rs and src/schema_jam/jam_queue.rs (Jam/Api, each
--             named `call_` and its name). The state is the record `Rooms`. The clock's `advance`
--             takes the row that `live_jams` read, and returns the frames it sends.
--   Factor    src/db_identity/totp.rs with `verify` and `hash_recovery_code` of src/totp.rs and
--             `revoke_all_tokens` of src/db_identity/tokens.rs. The state is the record `Accounts`.
--             The authenticator library's check, the opening of a sealed secret and SHA-256 are
--             parameters; the theorems ask nothing of them. `seal` and `unseal` of src/totp.rs are
--             in Factor/Sealing, over the cipher, with the base64 form in Factor/Base64.
--   Relay     src/relay.rs (Relay), src/relay/open.rs (Relay/Open), src/relay/upload.rs and
--             src/relay/download.rs (Relay/Attach). The state is the record `Server`, which holds the
--             rooms of Jam and their friend graph: opening a relay asks both.
--   RateLimit src/rate_limit.rs: `charge` over the list of windows.
--   Live      src/ws_channels.rs (Live, Live/Channels), `replay_after` of src/ws/hub.rs, and the two
--             loops and `is_for` of src/ws/session.rs (Live/Session). The state is the record
--             `Channels`; every operation takes the instant. The locks make each operation one step,
--             publications in the order of their numbers.
--   Storage   src/storage.rs: the configuration and Rust's paths as text (Storage), names made of tags
--             (Storage/Names), and free names (Storage/Unique).
--   Library   src/library/begin.rs (Library/Uploads), src/library/put.rs (Library/Receive),
--             src/library/spool.rs (Library/Spooling, its periodic sweep in Library/Receive),
--             src/library/archive.rs (Library/Archiving), src/library/fetch.rs (Library/Fetch), and
--             the rows of src/db_library/ (Library/Index). The state is the record `Library`: its
--             tables and its files. Archiving shelves a file through Storage.
--   Login     src/login/limiter.rs (Login), src/db_identity/tokens.rs with `token_has_expired` of
--             src/db_identity.rs (Login/Tokens), and src/login/sign_in.rs with `verify_login` of
--             src/db_identity/accounts.rs (Login/SignIn). The state is the record `State`: the
--             accounts of Factor, the limiter and the audit log.
--   Features  src/features.rs (Features/Catalogue, Features), src/db/plugins.rs and the mutation of
--             src/schema/plugins.rs. The state is the table plugins_state.
--
-- Conventions. A call of `Db` is one step: the methods hold the connection's lock, and a multi-step
-- method runs in a transaction. A database error is not modelled; it rolls the transaction back.
-- Clock readings, minted ids and secrets are arguments. Text compared under COLLATE NOCASE or by
-- eq_ignore_ascii_case is compared in ASCII lower case; `to_lowercase` is the ASCII one, which is
-- the Unicode one on the names that src/schema.rs admits (`normalise_username`). Signed numbers that
-- the source clamps at 0 are natural numbers.
--
-- Not modelled: sockets, HTTP and GraphQL plumbing, the pushes to devices that end a mutation,
-- password hashing and other cryptography, the migrations, and the dashboard.
pub mod Base
pub mod Jam
pub mod Library
pub mod Live
pub mod Factor
pub mod Features
pub mod Relay
pub mod RateLimit
pub mod Login
pub mod Playlists
pub mod Social
pub mod Storage
