-- ===== src/Manager/Props.antt =====
-- ManaProperties of include/amarula/dbus/connman/gmanager.hpp and its `update`
-- (src/dbus/gconnman_manager.cpp).
use libcppconnman.Prelude.{String, Bool, false, List, [], ◌∷◌, Result, ok, map_ok, ◌==◌}
use libcppconnman.GVariant.{GVariant}
use libcppconnman.EnumMap.{from_string}
use libcppconnman.Props.{Update, cases}
use libcppconnman.Names.{offlinemode_str, state_str}
use libcppconnman.Manager.Enums.{ManaState, mana_state_map}

pub record ManaProperties : Type 0 where
  pub offline_mode : Bool
  pub state : ManaState

abbrev pub mana_init : ManaProperties
mana_init = record { offline_mode = false; state = ManaState.offline }

module _ {V : Type 0} ⦃g : GVariant V⦄ where
  abbrev pub mana_cases : List (String × (V → ManaProperties → Result ManaProperties))
  mana_cases =
      (offlinemode_str, λ value p. ok (record p { offline_mode = g.get_boolean value == 1 }))
      ∷ (
        state_str,
        λ value p.
            map_ok (λ x. record p { state = x }) (from_string mana_state_map (g.get_string value)),
      )
      ∷ []

  unfoldable pub mana_update : Update V ManaProperties
  mana_update = cases mana_cases
