-- ===== src/Connmanctl/Allowed.antt =====
-- What the requests of the shell may be (examples/connmanctl.cpp).
use Prim.Native.String.{len}
use libcppconnman.Prelude.{
  ℕ, ◌≤◌, ◌<◌, ◌^◌, ◌≡◌, ◌≢◌, refl, ◌⊎◌, inl, inr, String, Bool, true, false, Option, none, some,
  List, [], ◌∷◌, All, All-append, arith, Result, ok, throw, get_elem?, Bool-cases, Option-cases,
}
use libcppconnman.Print.{Output}
use libcppconnman.Manager.Lists.{Object, Store}
use libcppconnman.Manager.Changes.{member}
use libcppconnman.Manager.Defs.{Manager}
use libcppconnman.Service.Props.{ServProperties}
use libcppconnman.Technology.Props.{TechProperties}
use libcppconnman.Connmanctl.Words.{last_segment}
use libcppconnman.Connmanctl.Commands.{tech_map}
use libcppconnman.Connmanctl.Tethering.{min_wifi_passphrase_length}
use libcppconnman.Connmanctl.Services.{is_up}
use libcppconnman.Connmanctl.Actions.{
  Call, Action, Next, Run, say, say_result, one_request, ◌and_then◌, objects, find_if,
  when◌act◌otherwise◌, on_found, on_empty,
}

-- Power is not asked to become what it is, a passphrase is long enough, and a frequency fits an `int`.
abbrev pub TechPermits : TechProperties → Call → Type 0
TechPermits props Call.scan = Unit {0}
TechPermits props (Call.set_powered enable) = props.powered ≢ enable
TechPermits props (Call.set_tethering enable) = Unit {0}
TechPermits props (Call.set_tethering_identifier identifier) = Unit {0}
TechPermits props (Call.set_tethering_passphrase passphrase) =
    min_wifi_passphrase_length ≤ len passphrase
TechPermits props (Call.set_tethering_freq n) = n < 2 ^ 31
TechPermits props call = ⊥

-- A service is connected only while it is down and disconnected only while it is up.
abbrev pub ServPermits : ServProperties → Call → Type 0
ServPermits props Call.connect = is_up props ≡ false
ServPermits props Call.disconnect = is_up props ≡ true
ServPermits props Call.remove = Unit {0}
ServPermits props call = ⊥

-- A request is for an object that the manager lists, that `arg` names, and that permits it.
abbrev pub Allowed : Manager → String → Action → Type 0
Allowed m arg (Action.print out) = Unit {0}
Allowed m arg (Action.tech_call a call report) =
    (o : Object TechProperties) × (member a m.technologies ≡ true)
    × (get_elem? m.technology_store a ≡ some o)
    × (tech_map o.props.type ≡ arg)
    × TechPermits o.props call
Allowed m arg (Action.serv_call a call report) =
    (o : Object ServProperties) × (member a m.services ≡ true)
    × (get_elem? m.service_store a ≡ some o)
    × ((last_segment o.path ≡ arg) ⊎ (o.props.name ≡ arg))
    × ServPermits o.props call
Allowed m arg (Action.register_agent report) = arg ≡ "on"
Allowed m arg (Action.unregister_agent report) = arg ≡ "off"

pub record AllAllowed (m : Manager) (arg : String) (run : Run) : Type 0 where
  pub all : All (Allowed m arg) run.0

module _ {m : Manager} {arg : String} where
  pub say-Allowed : (out : Output) → AllAllowed m arg (say out)
  say-Allowed out = record { all = (tt, tt) }

  pub say_result-Allowed : (r : Result Output) → AllAllowed m arg (say_result r)
  say_result-Allowed (ok out) = record { all = (tt, tt) }
  say_result-Allowed (throw e) = record { all = tt }

  pub none-Allowed : (next : Next) → AllAllowed m arg ([], next)
  none-Allowed next = record { all = tt }

  pub one_request-Allowed :
      (action : Action) → Allowed m arg action → AllAllowed m arg (one_request action)
  one_request-Allowed action a = record { all = (a, tt) }

  pub and_then-Allowed :
      {r s : Run} → AllAllowed m arg r → AllAllowed m arg s → AllAllowed m arg (r and_then s)
  unfolding ◌and_then◌
  and_then-Allowed {r = (first, Next.continue)} {s = (second, next)} a b = record {
    all = All-append _ first second a.all b.all;
  }
  and_then-Allowed {r = (first, Next.leave)} a b = record { all = a.all }
  and_then-Allowed {r = (first, Next.thrown e)} a b = record { all = a.all }

  pub when-Allowed :
      {b : Bool} {r s : Run}
      → ((b ≡ true) → AllAllowed m arg r)
      → ((b ≡ false) → AllAllowed m arg s)
      → AllAllowed m arg (when b act r otherwise s)
  unfolding when◌act◌otherwise◌
  when-Allowed {b = true} p q = p refl
  when-Allowed {b = false} p q = q refl

  pub on_found-Allowed :
      {A : Type 0} {o : Option A} {missing : Run} {found : A → Run}
      → AllAllowed m arg missing
      → ((a : A) → o ≡ some a → AllAllowed m arg (found a))
      → AllAllowed m arg (on_found o missing found)
  unfolding on_found
  on_found-Allowed {o = none} p q = p
  on_found-Allowed {o = some a} p q = q a refl

  pub on_empty-Allowed :
      {A : Type 0} (list : List A) {empty other : Run}
      → AllAllowed m arg empty
      → AllAllowed m arg other
      → AllAllowed m arg (on_empty list empty other)
  unfolding on_empty
  on_empty-Allowed [] p q = p
  on_empty-Allowed (a ∷ list) p q = q

module _ {P : Type 0} (store : Store P) (test : ℕ × Object P → Bool) where
  -- What is found is in the list, in the store, and passes the test.
  pub find_if-objects :
      (list : List ℕ) (a : ℕ) (o : Object P)
      → find_if test (objects store list) ≡ some (a, o)
      → (member a list ≡ true) × (get_elem? store a ≡ some o) × (test (a, o) ≡ true)
  find_if-objects [] a o h = cc
  find_if-objects (b ∷ list) a o h = elim (Option-cases (get_elem? store b)) [
    | inl e ↦
        let (in_list, at, passes) = find_if-objects list a o (rw (e, find_if, objects) at h) in
        (ground (arith, in_list), at, passes)
    | inr (x, e) ↦ elim (Bool-cases (test (b, x))) [
      | inl hit ↦
          let same : ◌≡◌ {A = ℕ × Object P} (b, x) (a, o) = ground (arith, e, hit, h) in
          (ground (arith, same), ground (arith, e, same), ground (arith, hit, same))
      | inr miss ↦
          let (in_list, at, passes) = find_if-objects list a o (ground (arith, e, miss, h)) in
          (ground (arith, in_list), at, passes)
    ]
  ]
