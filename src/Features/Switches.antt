-- ===== src/Features/Switches.antt =====
-- A switch turns its own feature on or off, and no other.
use agro.Base.{
  ◌≡◌, refl, sym, ap, ◌∙◌, Bool, true, false, ◌&&◌, ◌||◌, List, [], ◌∷◌, ◌++◌, Option, none, some,
  Text, same, same_refl, eq_of_same, any, select, update, if◌then◌else◌, Bool-cases, inl, inr,
  arith,
}
use agro.Features.{
  PluginState, is_row, set_plugin_enabled, plugin_state, from_id, or_on, is_on, toggle_known,
  toggle_plugin,
}
use agro.Features.Catalogue.{
  Feature, id, audio_relay, library_transfers, privacy_proxy, share_links, friend_presence,
  listen_along, jams, acoustic_search, wrapped, popular_charts, blends, cloud_backups,
}

from_id-id : (f : Feature) → from_id (id f) ≡ some f
unfolding from_id id same select
from_id-id audio_relay = refl
from_id-id library_transfers = refl
from_id-id privacy_proxy = refl
from_id-id share_links = refl
from_id-id friend_presence = refl
from_id-id listen_along = refl
from_id-id jams = refl
from_id-id acoustic_search = refl
from_id-id wrapped = refl
from_id-id popular_charts = refl
from_id-id blends = refl
from_id-id cloud_backups = refl

none_some : {B : Type 0} (f : Feature) → none ≡ some f → B
none_some f h = ground arith

unknown :
    (plugin_id : Text) (g : Feature) → from_id plugin_id ≡ none → same plugin_id (id g) ≡ false
unknown plugin_id g missing = elim (Bool-cases (same plugin_id (id g))) [
  | inl e ↦ none_some g (sym missing ∙ ap from_id (eq_of_same plugin_id (id g) e) ∙ from_id-id g)
  | inr e ↦ e
]

apart : (a p q : Text) → same p q ≡ false → same a p ≡ true → same a q ≡ false
apart a p q h e = ap (λ t. same t q) (eq_of_same a p e) ∙ h

or_rest : (c b : Bool) → c ≡ false → (c || b) ≡ true → b ≡ true
or_rest c b e h = ground arith

neither : (c b : Bool) → (c || b) ≡ false → (c ≡ false) × (b ≡ false)
neither false b h = (refl, h)
neither true b h = ground arith

update_own :
    (rows : List PluginState) (p : Text) (on : Bool)
    → any (is_row p) rows ≡ true
    → plugin_state (update (is_row p) (λ r. record r { is_enabled = on }) rows) p ≡ some on
unfolding any update select plugin_state
update_own [] p on h = ground arith
update_own (r ∷ rows) p on h = elim (Bool-cases (same r.plugin_id p)) [
  | inl e ↦ rw (e, e) refl
  | inr e ↦
      rw (e, e) (update_own rows p on (or_rest (same r.plugin_id p) (any (is_row p) rows) e h))
]

update_other :
    (rows : List PluginState) (p q : Text) (on : Bool)
    → same p q ≡ false
    → plugin_state (update (is_row p) (λ r. record r { is_enabled = on }) rows) q
      ≡ plugin_state rows q
unfolding update select plugin_state
update_other [] p q on h = refl
update_other (r ∷ rows) p q on h = elim (Bool-cases (same r.plugin_id p)) [
  | inl e ↦ rw (e, apart r.plugin_id p q h e) (update_other rows p q on h)
  | inr e ↦ elim (Bool-cases (same r.plugin_id q)) [
    | inl d ↦ rw (e, d) refl
    | inr d ↦ rw (e, d) (update_other rows p q on h)
  ]
]

append_own :
    (rows : List PluginState) (p : Text) (on : Bool)
    → any (is_row p) rows ≡ false
    → plugin_state (rows ++ record { plugin_id = p; is_enabled = on } ∷ []) p ≡ some on
unfolding any select plugin_state
append_own [] p on h = rw (same_refl p) refl
append_own (r ∷ rows) p on h =
    let absent = neither (same r.plugin_id p) (any (is_row p) rows) h in
    rw (absent.0) (append_own rows p on absent.1)

append_other :
    (rows : List PluginState) (p q : Text) (on : Bool)
    → same p q ≡ false
    → plugin_state (rows ++ record { plugin_id = p; is_enabled = on } ∷ []) q ≡ plugin_state rows q
unfolding select plugin_state
append_other [] p q on h = rw h refl
append_other (r ∷ rows) p q on h = elim (Bool-cases (same r.plugin_id q)) [
  | inl d ↦ rw (d) refl
  | inr d ↦ rw (d) (append_other rows p q on h)
]

set_other :
    (rows : List PluginState) (p q : Text) (on : Bool)
    → same p q ≡ false
    → plugin_state (set_plugin_enabled rows p on) q ≡ plugin_state rows q
unfolding set_plugin_enabled
set_other rows p q on h = elim (Bool-cases (any (is_row p) rows)) [
  | inl e ↦ rw e (update_other rows p q on h)
  | inr e ↦ rw e (append_other rows p q on h)
]

set_own :
    (rows : List PluginState) (p : Text) (on : Bool)
    → plugin_state (set_plugin_enabled rows p on) p ≡ some on
unfolding set_plugin_enabled
set_own rows p on = elim (Bool-cases (any (is_row p) rows)) [
  | inl e ↦ rw e (update_own rows p on e)
  | inr e ↦ rw e (append_own rows p on e)
]

-- The table after a row is written, read at any id.
state-set :
    (rows : List PluginState) (p q : Text) (on : Bool)
    → plugin_state (set_plugin_enabled rows p on) q
      ≡ (if same p q then some on else plugin_state rows q)
state-set rows p q on = elim (Bool-cases (same p q)) [
  | inl e ↦ rw (e, sym (eq_of_same p q e)) (set_own rows p on)
  | inr e ↦ rw e (set_other rows p q on e)
]

or_on_if :
    (c on : Bool) (o : Option Bool) → or_on (if c then some on else o) ≡ (if c then on else or_on o)
or_on_if true on o = refl
or_on_if false on o = refl

known_switch :
    (rows : List PluginState) (p : Text) (on : Bool) (g : Feature) (o : Option Feature)
    → from_id p ≡ o
    → is_on (toggle_known rows p on o).0 g ≡ (if same p (id g) then on else is_on rows g)
unfolding is_on
known_switch rows p on g none found = rw (unknown p g found) refl
known_switch rows p on g (some f) found =
    rw (state-set rows p (id g) on) (or_on_if (same p (id g)) on (plugin_state rows (id g)))

-- A call of the mutation switches the feature of the id it names, for an administrator only, and
-- leaves every other feature as it is: an id of no feature changes none. Each feature is the one
-- that its id is read as.
pub is_on-toggle_plugin :
    (rows : List PluginState) (is_admin : Bool) (plugin_id : Text) (on : Bool) (g : Feature)
    → (is_on (toggle_plugin rows is_admin plugin_id on).0 g
        ≡ (if is_admin && same plugin_id (id g) then on else is_on rows g))
      × (from_id (id g) ≡ some g)
unfolding toggle_plugin
is_on-toggle_plugin rows true plugin_id on g =
    (known_switch rows plugin_id on g (from_id plugin_id) refl, from_id-id g)
is_on-toggle_plugin rows false plugin_id on g = (refl, from_id-id g)
