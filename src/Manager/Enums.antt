-- ===== src/Manager/Enums.antt =====
-- ManaProperties::State (include/amarula/dbus/connman/gmanager.hpp) and its table
-- (src/dbus/gconnman_manager.cpp).
use libcppconnman.Prelude.{ℕ, ◌≡◌, [], ◌∷◌, arith}
use libcppconnman.EnumMap.{Enum, EnumStringMap}

pub data ManaState : Type 0 where
  offline idle ready online : ManaState

unfoldable pub mana_state_to_int : ManaState → ℕ
mana_state_to_int ManaState.offline = 0
mana_state_to_int ManaState.idle = 1
mana_state_to_int ManaState.ready = 2
mana_state_to_int ManaState.online = 3

pub mana_state_to_int_injective :
    (a b : ManaState) → mana_state_to_int a ≡ mana_state_to_int b → a ≡ b
unfolding mana_state_to_int
mana_state_to_int_injective a b h = ground arith

instance abbrev pub mana_state_enum : Enum ManaState
mana_state_enum = record {
  to_int = mana_state_to_int;
  to_int_injective = mana_state_to_int_injective;
}

abbrev pub mana_state_map : EnumStringMap ManaState
mana_state_map =
    (ManaState.offline, "offline")
    ∷ (ManaState.idle, "idle")
    ∷ (ManaState.ready, "ready")
    ∷ (ManaState.online, "online")
    ∷ []
