-- ===== src/Technology/Reading.antt =====
-- What the properties of a technology hold after a dictionary was read: every field the value of the last entry under its key.
use libcppconnman.Prelude.{◌≡◌, List, none, ok, refl, arith, ◌==◌}
use libcppconnman.GVariant.{GVariant}
use libcppconnman.EnumMap.{from_string}
use libcppconnman.Props.{update_properties}
use libcppconnman.Props.Fields.{IsField, cases-IsField, Holds, last_value, update_properties-last}
use libcppconnman.Names.{
  name_str, type_str, powered_str, connected_str, tethering_str, tetheringfreq_str,
  tetheringidentifier_str, tetheringpassphrase_str,
}
use libcppconnman.Technology.Enums.{tech_type_map}
use libcppconnman.Technology.Props.{TechProperties, tech_cases, tech_update}

module _ {V : Type 0} ⦃g : GVariant V⦄ where
  pub name-IsField : IsField (tech_update {V = V}) name_str (λ p. p.name) (λ v. ok (g.get_string v))
  unfolding tech_update
  name-IsField = cases-IsField name_str (λ p. p.name) _ tech_cases (ground arith) refl

  pub type-IsField :
      IsField
        (tech_update {V = V})
        type_str
        (λ p. p.type)
        (λ v. from_string tech_type_map (g.get_string v))
  unfolding tech_update
  type-IsField = cases-IsField type_str (λ p. p.type) _ tech_cases (ground arith) refl

  pub powered-IsField :
      IsField (tech_update {V = V}) powered_str (λ p. p.powered) (λ v. ok (g.get_boolean v == 1))
  unfolding tech_update
  powered-IsField = cases-IsField powered_str (λ p. p.powered) _ tech_cases (ground arith) refl

  pub connected-IsField :
      IsField
        (tech_update {V = V})
        connected_str
        (λ p. p.connected)
        (λ v. ok (g.get_boolean v == 1))
  unfolding tech_update
  connected-IsField =
      cases-IsField connected_str (λ p. p.connected) _ tech_cases (ground arith) refl

  pub tethering-IsField :
      IsField
        (tech_update {V = V})
        tethering_str
        (λ p. p.tethering)
        (λ v. ok (g.get_boolean v == 1))
  unfolding tech_update
  tethering-IsField =
      cases-IsField tethering_str (λ p. p.tethering) _ tech_cases (ground arith) refl

  pub tethering_freq-IsField :
      IsField
        (tech_update {V = V})
        tetheringfreq_str
        (λ p. p.tethering_freq)
        (λ v. ok (g.get_int32 v))
  unfolding tech_update
  tethering_freq-IsField =
      cases-IsField tetheringfreq_str (λ p. p.tethering_freq) _ tech_cases (ground arith) refl

  pub tethering_identifier-IsField :
      IsField
        (tech_update {V = V})
        tetheringidentifier_str
        (λ p. p.tethering_identifier)
        (λ v. ok (g.get_string v))
  unfolding tech_update
  tethering_identifier-IsField =
      cases-IsField tetheringidentifier_str (λ p. p.tethering_identifier) _ tech_cases
        (ground arith) refl

  pub tethering_passphrase-IsField :
      IsField
        (tech_update {V = V})
        tetheringpassphrase_str
        (λ p. p.tethering_passphrase)
        (λ v. ok (g.get_string v))
  unfolding tech_update
  tethering_passphrase-IsField =
      cases-IsField tetheringpassphrase_str (λ p. p.tethering_passphrase) _ tech_cases
        (ground arith) refl

-- What the entries of `props` make of the fields of `p`.
pub record TechReads {V : Type 0} ⦃g : GVariant V⦄ (props : List V) (p p' : TechProperties)
    : Type 0 where
  pub name : Holds (λ v. ok (g.get_string v)) (last_value name_str props) p.name p'.name
  pub type :
      Holds
        (λ v. from_string tech_type_map (g.get_string v))
        (last_value type_str props)
        p.type
        p'.type
  pub powered :
      Holds (λ v. ok (g.get_boolean v == 1)) (last_value powered_str props) p.powered p'.powered
  pub connected :
      Holds
        (λ v. ok (g.get_boolean v == 1))
        (last_value connected_str props)
        p.connected
        p'.connected
  pub tethering :
      Holds
        (λ v. ok (g.get_boolean v == 1))
        (last_value tethering_str props)
        p.tethering
        p'.tethering
  pub tethering_freq :
      Holds
        (λ v. ok (g.get_int32 v))
        (last_value tetheringfreq_str props)
        p.tethering_freq
        p'.tethering_freq
  pub tethering_identifier :
      Holds
        (λ v. ok (g.get_string v))
        (last_value tetheringidentifier_str props)
        p.tethering_identifier
        p'.tethering_identifier
  pub tethering_passphrase :
      Holds
        (λ v. ok (g.get_string v))
        (last_value tetheringpassphrase_str props)
        p.tethering_passphrase
        p'.tethering_passphrase

module _ {V : Type 0} ⦃g : GVariant V⦄ where
  -- When updateProperties of a technology reads a dictionary without an exception, each of its eight
  -- fields holds what the last entry under its key decodes to, and its old value where no entry has
  -- the key.
  pub update_properties-TechReads :
      (props : List V) (p p' : TechProperties)
      → update_properties tech_update props p ≡ (p', none)
      → TechReads props p p'
  update_properties-TechReads props p p' h = record {
    name =
        update_properties-last tech_update name_str (λ q. q.name) (λ v. ok (g.get_string v))
          name-IsField props p p' h;
    type =
        update_properties-last tech_update type_str (λ q. q.type)
          (λ v. from_string tech_type_map (g.get_string v)) type-IsField props p p' h;
    powered =
        update_properties-last tech_update powered_str (λ q. q.powered)
          (λ v. ok (g.get_boolean v == 1)) powered-IsField props p p' h;
    connected =
        update_properties-last tech_update connected_str (λ q. q.connected)
          (λ v. ok (g.get_boolean v == 1)) connected-IsField props p p' h;
    tethering =
        update_properties-last tech_update tethering_str (λ q. q.tethering)
          (λ v. ok (g.get_boolean v == 1)) tethering-IsField props p p' h;
    tethering_freq =
        update_properties-last tech_update tetheringfreq_str (λ q. q.tethering_freq)
          (λ v. ok (g.get_int32 v)) tethering_freq-IsField props p p' h;
    tethering_identifier =
        update_properties-last tech_update tetheringidentifier_str (λ q. q.tethering_identifier)
          (λ v. ok (g.get_string v)) tethering_identifier-IsField props p p' h;
    tethering_passphrase =
        update_properties-last tech_update tetheringpassphrase_str (λ q. q.tethering_passphrase)
          (λ v. ok (g.get_string v)) tethering_passphrase-IsField props p p' h;
  }
