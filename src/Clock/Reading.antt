-- ===== src/Clock/Reading.antt =====
-- What the properties of the clock hold after a dictionary was read: every field the value of the last entry under its key.
use libcppconnman.Prelude.{◌≡◌, List, none, ok, refl, arith, ◌==◌}
use libcppconnman.GVariant.{GVariant}
use libcppconnman.GVariant.Vectors.{as_to_vector}
use libcppconnman.EnumMap.{from_string}
use libcppconnman.Props.{update_properties}
use libcppconnman.Props.Fields.{IsField, cases-IsField, Holds, last_value, update_properties-last}
use libcppconnman.Names.{
  time_str, timeupdates_str, timezone_str, timezoneupdates_str, timeservers_str,
  timeserversynced_str,
}
use libcppconnman.Clock.Enums.{time_update_map, time_zone_update_map}
use libcppconnman.Clock.Props.{ClockProperties, clock_cases, clock_update}

module _ {V : Type 0} ⦃g : GVariant V⦄ where
  pub time-IsField :
      IsField (clock_update {V = V}) time_str (λ p. p.time) (λ v. ok (g.get_uint64 v))
  unfolding clock_update
  time-IsField = cases-IsField time_str (λ p. p.time) _ clock_cases (ground arith) refl

  pub time_updates-IsField :
      IsField
        (clock_update {V = V})
        timeupdates_str
        (λ p. p.time_updates)
        (λ v. from_string time_update_map (g.get_string v))
  unfolding clock_update
  time_updates-IsField =
      cases-IsField timeupdates_str (λ p. p.time_updates) _ clock_cases (ground arith) refl

  pub timezone-IsField :
      IsField (clock_update {V = V}) timezone_str (λ p. p.timezone) (λ v. ok (g.get_string v))
  unfolding clock_update
  timezone-IsField = cases-IsField timezone_str (λ p. p.timezone) _ clock_cases (ground arith) refl

  pub timezone_updates-IsField :
      IsField
        (clock_update {V = V})
        timezoneupdates_str
        (λ p. p.timezone_updates)
        (λ v. from_string time_zone_update_map (g.get_string v))
  unfolding clock_update
  timezone_updates-IsField =
      cases-IsField timezoneupdates_str (λ p. p.timezone_updates) _ clock_cases (ground arith) refl

  pub time_servers-IsField :
      IsField
        (clock_update {V = V})
        timeservers_str
        (λ p. p.time_servers)
        (λ v. ok (as_to_vector v))
  unfolding clock_update
  time_servers-IsField =
      cases-IsField timeservers_str (λ p. p.time_servers) _ clock_cases (ground arith) refl

  pub time_server_synced-IsField :
      IsField
        (clock_update {V = V})
        timeserversynced_str
        (λ p. p.time_server_synced)
        (λ v. ok (g.get_boolean v == 1))
  unfolding clock_update
  time_server_synced-IsField =
      cases-IsField timeserversynced_str (λ p. p.time_server_synced) _ clock_cases (ground arith)
        refl

-- What the entries of `props` make of the fields of `p`.
pub record ClockReads {V : Type 0} ⦃g : GVariant V⦄ (props : List V) (p p' : ClockProperties)
    : Type 0 where
  pub time : Holds (λ v. ok (g.get_uint64 v)) (last_value time_str props) p.time p'.time
  pub time_updates :
      Holds
        (λ v. from_string time_update_map (g.get_string v))
        (last_value timeupdates_str props)
        p.time_updates
        p'.time_updates
  pub timezone :
      Holds (λ v. ok (g.get_string v)) (last_value timezone_str props) p.timezone p'.timezone
  pub timezone_updates :
      Holds
        (λ v. from_string time_zone_update_map (g.get_string v))
        (last_value timezoneupdates_str props)
        p.timezone_updates
        p'.timezone_updates
  pub time_servers :
      Holds
        (λ v. ok (as_to_vector v))
        (last_value timeservers_str props)
        p.time_servers
        p'.time_servers
  pub time_server_synced :
      Holds
        (λ v. ok (g.get_boolean v == 1))
        (last_value timeserversynced_str props)
        p.time_server_synced
        p'.time_server_synced

module _ {V : Type 0} ⦃g : GVariant V⦄ where
  -- When updateProperties of the clock reads a dictionary without an exception, each of its six fields
  -- holds what the last entry under its key decodes to, and its old value where no entry has the key.
  pub update_properties-ClockReads :
      (props : List V) (p p' : ClockProperties)
      → update_properties clock_update props p ≡ (p', none)
      → ClockReads props p p'
  update_properties-ClockReads props p p' h = record {
    time =
        update_properties-last clock_update time_str (λ q. q.time) (λ v. ok (g.get_uint64 v))
          time-IsField props p p' h;
    time_updates =
        update_properties-last clock_update timeupdates_str (λ q. q.time_updates)
          (λ v. from_string time_update_map (g.get_string v)) time_updates-IsField props p p' h;
    timezone =
        update_properties-last clock_update timezone_str (λ q. q.timezone)
          (λ v. ok (g.get_string v)) timezone-IsField props p p' h;
    timezone_updates =
        update_properties-last clock_update timezoneupdates_str (λ q. q.timezone_updates)
          (λ v. from_string time_zone_update_map (g.get_string v)) timezone_updates-IsField props p
          p' h;
    time_servers =
        update_properties-last clock_update timeservers_str (λ q. q.time_servers)
          (λ v. ok (as_to_vector v)) time_servers-IsField props p p' h;
    time_server_synced =
        update_properties-last clock_update timeserversynced_str (λ q. q.time_server_synced)
          (λ v. ok (g.get_boolean v == 1)) time_server_synced-IsField props p p' h;
  }
