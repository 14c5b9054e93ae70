-- ===== src/Service/Roaming.antt =====
-- What `update` of a service never writes (src/dbus/gconnman_service.cpp): no key leads to `roaming_`.
use libcppconnman.Prelude.{◌≡◌, String, Bool, List, ok, refl, arith}
use libcppconnman.GVariant.{GVariant}
use libcppconnman.Props.{update_properties}
use libcppconnman.Props.Invariants.{cases-keeps, update_properties-keeps}
use libcppconnman.Service.Props.{ServProperties, serv_cases, serv_update}

module _ {V : Type 0} ⦃g : GVariant V⦄ where
  serv_update-roaming :
      (r : Bool) (k : String) (v : V) (p p' : ServProperties)
      → serv_update k v p ≡ ok p'
      → p.roaming ≡ r
      → p'.roaming ≡ r
  unfolding serv_update
  serv_update-roaming r = cases-keeps (λ p. p.roaming ≡ r) serv_cases (ground arith)

  -- Whatever dictionary a service reads, also one that throws midway, `roaming_` stays what it was.
  update_properties-roaming :
      (props : List V) (p : ServProperties)
      → (update_properties serv_update props p).0.roaming ≡ p.roaming
  update_properties-roaming props p =
      update_properties-keeps (λ q. q.roaming ≡ p.roaming) serv_update
        (serv_update-roaming p.roaming) props p refl
