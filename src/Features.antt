-- ===== src/Features.antt =====
-- Switching features off: the gate of src/features.rs, the table of src/db/plugins.rs, and the
-- mutation of src/schema/plugins.rs. The state is the table plugins_state.
mod Catalogue
mod Switches
mod Examples
use agro.Base.{
  Bool, true, false, List, [], ◌∷◌, ◌++◌, map, Option, none, some, Text, codes, same, any, select,
  update, head?, if◌then◌else◌,
}
use mathlib.Core.Option as Option
use agro.Features.Catalogue.{Feature, all, describe, id}

pub record PluginState : Type 0 where
  pub plugin_id : Text
  pub is_enabled : Bool

abbrev pub is_row : Text → PluginState → Bool
is_row plugin_id r = same r.plugin_id plugin_id

-- `ON CONFLICT(id) DO UPDATE`
unfoldable pub set_plugin_enabled : List PluginState → Text → Bool → List PluginState
unfolding any update same
set_plugin_enabled rows plugin_id is_enabled =
    if any (is_row plugin_id) rows
    then update (is_row plugin_id) (λ r. record r { is_enabled = is_enabled }) rows
    else rows ++ record { plugin_id = plugin_id; is_enabled = is_enabled } ∷ []

unfoldable pub plugin_state : List PluginState → Text → Option Bool
unfolding select same
plugin_state rows plugin_id =
    Option.map (λ (r : PluginState). r.is_enabled) (head? (select (is_row plugin_id) rows))

unfoldable pub from_id : Text → Option Feature
unfolding id select same
from_id plugin_id = head? (select (λ f. same (id f) plugin_id) all)

abbrev pub or_on : Option Bool → Bool
or_on none = true
or_on (some on) = on

unfoldable pub is_on : List PluginState → Feature → Bool
unfolding plugin_state id
is_on rows f = or_on (plugin_state rows (id f))

-- What a refused call is told.
pub record Refusal : Type 0 where
  pub error : Text
  pub code : Text
  pub feature : Text

abbrev pub disabled_code : Text
disabled_code = codes "FEATURE_DISABLED"

abbrev pub refusal : Feature → Refusal
refusal f = record {
  error = (describe f).name ++ codes " is turned off on this server.";
  code = disabled_code;
  feature = id f;
}

-- `refuse_http`, and `require`, whose error holds the same.
unfoldable pub refuse_http : List PluginState → Feature → Option Refusal
unfolding is_on
refuse_http rows f = if is_on rows f then none else some (refusal f)

pub record ServerFeature : Type 0 where
  pub id : Text
  pub enabled : Bool

unfoldable pub server_features : List PluginState → List ServerFeature
unfolding is_on id
server_features rows = map (λ f. record { id = Catalogue.id f; enabled = is_on rows f }) all

pub data Toggled : Type 0 where
  not_admin not_switchable toggled : Toggled

abbrev pub toggle_known :
    List PluginState → Text → Bool → Option Feature → List PluginState × Toggled
toggle_known rows plugin_id is_enabled none = (rows, not_switchable)
toggle_known rows plugin_id is_enabled (some f) =
    (set_plugin_enabled rows plugin_id is_enabled, toggled)

unfoldable pub toggle_plugin : List PluginState → Bool → Text → Bool → List PluginState × Toggled
unfolding set_plugin_enabled from_id
toggle_plugin rows is_admin plugin_id is_enabled =
    if is_admin
    then toggle_known rows plugin_id is_enabled (from_id plugin_id)
    else (rows, not_admin)
