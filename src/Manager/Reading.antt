-- ===== src/Manager/Reading.antt =====
-- What the properties of the manager hold after a dictionary was read: every field the value of the last entry under its key.
use libcppconnman.Prelude.{◌≡◌, List, none, ok, refl, arith, ◌==◌}
use libcppconnman.GVariant.{GVariant}
use libcppconnman.EnumMap.{from_string}
use libcppconnman.Props.{update_properties}
use libcppconnman.Props.Fields.{IsField, cases-IsField, Holds, last_value, update_properties-last}
use libcppconnman.Names.{offlinemode_str, state_str}
use libcppconnman.Manager.Enums.{mana_state_map}
use libcppconnman.Manager.Props.{ManaProperties, mana_cases, mana_update}

module _ {V : Type 0} ⦃g : GVariant V⦄ where
  pub offline_mode-IsField :
      IsField
        (mana_update {V = V})
        offlinemode_str
        (λ p. p.offline_mode)
        (λ v. ok (g.get_boolean v == 1))
  unfolding mana_update
  offline_mode-IsField =
      cases-IsField offlinemode_str (λ p. p.offline_mode) _ mana_cases (ground arith) refl

  pub state-IsField :
      IsField
        (mana_update {V = V})
        state_str
        (λ p. p.state)
        (λ v. from_string mana_state_map (g.get_string v))
  unfolding mana_update
  state-IsField = cases-IsField state_str (λ p. p.state) _ mana_cases (ground arith) refl

-- What the entries of `props` make of the fields of `p`.
pub record ManaReads {V : Type 0} ⦃g : GVariant V⦄ (props : List V) (p p' : ManaProperties)
    : Type 0 where
  pub offline_mode :
      Holds
        (λ v. ok (g.get_boolean v == 1))
        (last_value offlinemode_str props)
        p.offline_mode
        p'.offline_mode
  pub state :
      Holds
        (λ v. from_string mana_state_map (g.get_string v))
        (last_value state_str props)
        p.state
        p'.state

module _ {V : Type 0} ⦃g : GVariant V⦄ where
  -- When updateProperties of the manager reads a dictionary without an exception, both of its fields
  -- hold what the last entry under their key decodes to, and their old value where no entry has the
  -- key.
  pub update_properties-ManaReads :
      (props : List V) (p p' : ManaProperties)
      → update_properties mana_update props p ≡ (p', none)
      → ManaReads props p p'
  update_properties-ManaReads props p p' h = record {
    offline_mode =
        update_properties-last mana_update offlinemode_str (λ q. q.offline_mode)
          (λ v. ok (g.get_boolean v == 1)) offline_mode-IsField props p p' h;
    state =
        update_properties-last mana_update state_str (λ q. q.state)
          (λ v. from_string mana_state_map (g.get_string v)) state-IsField props p p' h;
  }
