-- ===== src/Features/Examples.antt =====
-- Switching the charts and a feature that does not exist.
use agro.Base.{
  ◌≡◌, refl, true, false, [], ◌∷◌, List, none, some, same, codes, any, select, update,
  if◌then◌else◌, ◌&&◌,
}
use agro.Features.{
  PluginState, set_plugin_enabled, plugin_state, from_id, is_on, refuse_http, server_features,
  toggle_plugin, not_switchable, refusal,
}
use agro.Features.Catalogue.{id, describe, jams, blends, popular_charts}
use agro.Features.Switches.{is_on-toggle_plugin}

program : Unit {0}
unfolding same any select update describe id set_plugin_enabled plugin_state from_id is_on
    refuse_http server_features toggle_plugin
program = tt

abbrev rows : List PluginState
rows = record { plugin_id = codes "blends"; is_enabled = false } ∷ []

is_on-toggle_plugin_example :
    (is_on (toggle_plugin rows true (codes "jams") false).0 jams
      ≡ (if true && same (codes "jams") (id jams) then false else is_on rows jams))
    × (from_id (id jams) ≡ some jams)
is_on-toggle_plugin_example = is_on-toggle_plugin rows true (codes "jams") false jams

jams_refused :
    refuse_http (toggle_plugin rows true (codes "jams") false).0 jams ≡ some (refusal jams)
unfolding program
jams_refused = refl

charts_served : refuse_http (toggle_plugin rows true (codes "jams") false).0 popular_charts ≡ none
unfolding program
charts_served = refl

blends_back : is_on (toggle_plugin rows true (codes "blends") true).0 blends ≡ true
unfolding program
blends_back = refl

unknown_refused : toggle_plugin rows true (codes "wander-tui") false ≡ (rows, not_switchable)
unfolding program
unknown_refused = refl
