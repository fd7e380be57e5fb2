-- ===== src/Features/Catalogue.antt =====
-- What the server can switch off: the enum and the descriptions of src/features.rs.
use agro.Base.{Text, codes, List, [], ◌∷◌}

pub data Feature : Type 0 where
  audio_relay library_transfers privacy_proxy share_links friend_presence listen_along jams
        acoustic_search wrapped popular_charts blends cloud_backups :
      Feature

pub record Descriptor : Type 0 where
  pub id : Text
  pub name : Text
  pub description : Text
  pub category : Text
  pub endpoint : Text
  pub cost : Text

abbrev pub all : List Feature
all =
    audio_relay ∷ library_transfers ∷ privacy_proxy ∷ share_links ∷ friend_presence ∷ listen_along
    ∷ jams ∷ acoustic_search ∷ wrapped ∷ popular_charts ∷ blends ∷ cloud_backups ∷ []

unfoldable pub describe : Feature → Descriptor
describe audio_relay = record {
  id = codes "audio-relay";
  name = codes "Audio relay";
  description =
      codes
        "Streams audio between devices through this server when they cannot reach each other directly — listen-along and jams across networks.";
  category = codes "Bandwidth";
  endpoint = codes "/api/v1/relay";
  cost = codes "Every relayed stream passes through the server's uplink in full";
}
describe library_transfers = record {
  id = codes "library-uploads";
  name = codes "Library uploads & transfers";
  description =
      codes
        "Accepts uploaded files for the library or the spool, and serves them back to the account's other devices.";
  category = codes "Bandwidth";
  endpoint = codes "/api/v1/library";
  cost = codes "Disk for the spool and library, and the upload and download traffic";
}
describe privacy_proxy = record {
  id = codes "privacy-relay";
  name = codes "Privacy proxy";
  description =
      codes
        "Fetches metadata and lyrics (Internet Archive, LRCLIB, Nyaa) on the clients' behalf to hide their IP addresses, caching responses for a day.";
  category = codes "Bandwidth";
  endpoint = codes "/api/v1/proxy";
  cost = codes "Outbound requests on behalf of every client";
}
describe share_links = record {
  id = codes "ephemeral-share";
  name = codes "Ephemeral share links";
  description = codes "Self-expiring share URLs served at /share/{token}.";
  category = codes "Sharing";
  endpoint = codes "/share/{token}";
  cost = codes "Small: one row per link";
}
describe friend_presence = record {
  id = codes "friend-presence";
  name = codes "Friends' now playing";
  description =
      codes
        "Pushes each playing session to the friends who may see it, on every heartbeat. Accounts still choose for themselves whether to share.";
  category = codes "Social";
  endpoint = codes "/ws/sync";
  cost = codes "One push per friend per heartbeat — the largest share of CPU on a busy server";
}
describe listen_along = record {
  id = codes "listen-along";
  name = codes "Listen along";
  description =
      codes
        "Follow a friend's playback in real time, with a direct or relayed path to their audio.";
  category = codes "Social";
  endpoint = codes "/ws/sync";
  cost = codes "One push per listener per heartbeat";
}
describe jams = record {
  id = codes "jams";
  name = codes "Jams";
  description =
      codes
        "Shared rooms where friends queue and vote on tracks, kept in step by a server-side clock.";
  category = codes "Social";
  endpoint = codes "/graphql";
  cost = codes "A clock tick every two seconds for each live room";
}
describe acoustic_search = record {
  id = codes "acoustic-search";
  name = codes "Acoustic search";
  description = codes "Finds recordings that sound alike from the vectors clients submit.";
  category = codes "Discovery";
  endpoint = codes "/graphql";
  cost = codes "Vector storage, and a similarity scan per search";
}
describe wrapped = record {
  id = codes "agro-wrapped";
  name = codes "Agro Wrapped";
  description = codes "The year-in-review built from an account's whole listening history.";
  category = codes "Discovery";
  endpoint = codes "/graphql";
  cost = codes "A full pass over the account's history per request";
}
describe popular_charts = record {
  id = codes "popular-charts";
  name = codes "Popular on Agro";
  description =
      codes
        "A server-wide chart of what is being played, counted with no account attached and nothing shown below the exposure floor.";
  category = codes "Discovery";
  endpoint = codes "/api/v1/popular";
  cost = codes "Small: one counter per track per day";
}
describe blends = record {
  id = codes "blends";
  name = codes "Blends";
  description =
      codes
        "Playlists written from several friends' listening, refreshed when a member opens one and it is due.";
  category = codes "Social";
  endpoint = codes "/graphql";
  cost = codes "One aggregate query per member each time a blend is rewritten, at most daily";
}
describe cloud_backups = record {
  id = codes "cloud-backups";
  name = codes "Cloud backups";
  description =
      codes
        "Keeps each account's last three app backups, sealed on the device under a key this server never holds.";
  category = codes "Storage";
  endpoint = codes "/api/v1/vault/backups";
  cost = codes "Disk: up to three backups of at most 8 MiB per account";
}

unfoldable pub id : Feature → Text
unfolding describe
id f = (describe f).id
