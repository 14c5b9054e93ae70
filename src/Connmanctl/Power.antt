-- ===== src/Connmanctl/Power.antt =====
-- The lines `enable` and `disable` on their way through the library and back: examples/connmanctl.cpp,
-- Technology::setPowered, connman's report and the list of technologies.
use libcppconnman.Prelude.{
  ℕ, ◌≡◌, refl, String, Bool, true, false, Option, none, some, List, [], ◌∷◌, ok, arith,
  if◌then◌else◌, get_elem?, set, ◌∙◌, Bool-cases, inl, inr, Option-cases, ◌==◌, ==_iff, not,
  get_elem?-set_self, get_elem?-set_other,
}
use libcppconnman.GVariant.{GVariant, GVariantLaws, ℤ, pos}
use libcppconnman.Proxy.{System}
use libcppconnman.Proxy.Requests.{MethodCall, echo}
use libcppconnman.Technology.Props.{TechProperties, tech_update}
use libcppconnman.Technology.Calls.{
  set_powered, set_tethering, set_tethering_identifier, set_tethering_passphrase,
  set_tethering_freq, scan, tech_roundtrip,
}
use libcppconnman.Manager.Lists.{Object, Store}
use libcppconnman.Manager.Defs.{Manager}
use libcppconnman.Connmanctl.Words.{Text, chars, trim, next_word}
use libcppconnman.Connmanctl.Messages.{Report}
use libcppconnman.Connmanctl.Actions.{
  Call, Action, ◌and_then◌, when◌act◌otherwise◌, on_found, objects, find_if,
}
use libcppconnman.Connmanctl.Shell.{Shell}
use libcppconnman.Connmanctl.Technologies.{
  match_technology, find_tech, unlisted, power_found, power_command,
}
use libcppconnman.Connmanctl.Loop.{dispatch, run_line}
use libcppconnman.Connmanctl.Allowed.{find_if-objects}
use libcppconnman.Connmanctl.Requests.{arg_of}

-- What the library sends for a request of a technology; none of the others is one for a technology.
abbrev pub tech_request :
    {V : Type 0} ⦃g : GVariant V⦄ → Call → Option ℕ → System TechProperties → Option (MethodCall V)
tech_request Call.scan callback s = some (scan callback s).1
tech_request (Call.set_powered enable) callback s = some (set_powered enable callback s).1
tech_request (Call.set_tethering enable) callback s = some (set_tethering enable callback s).1
tech_request (Call.set_tethering_identifier identifier) callback s =
    some (set_tethering_identifier identifier callback s).1
tech_request (Call.set_tethering_passphrase passphrase) callback s =
    some (set_tethering_passphrase passphrase callback s).1
tech_request (Call.set_tethering_freq frequency) callback s =
    some (set_tethering_freq (pos frequency) callback s).1
tech_request call callback s = none

-- The requests among what a line does.
abbrev pub requests_of : List Action → List Action
requests_of [] = []
requests_of (Action.print out ∷ actions) = requests_of actions
requests_of (action ∷ actions) = action ∷ requests_of actions

abbrev pub power_word : Bool → String
power_word enable = if enable then "enable" else "disable"

-- The manager after a technology's properties were read anew.
abbrev pub with_powered : Bool → ℕ → Object TechProperties → Manager → Manager
with_powered enable a o m = record m {
  technology_store =
      set m.technology_store a (record o { props = record o.props { powered = enable } });
}

module _ {P : Type 0} (store : Store P) (test : ℕ × Object P → Bool) (a : ℕ) (o o' : Object P) where
  -- What is found is found again with what was written there, if that passes the test too.
  pub find_if-set :
      get_elem? store a ≡ some o
      → test (a, o') ≡ true
      → (list : List ℕ) → find_if test (objects store list) ≡ some (a, o)
      → find_if test (objects (set store a o') list) ≡ some (a, o')
  find_if-set at passes [] h = cc
  find_if-set at passes (b ∷ list) h = elim (Bool-cases (b == a)) [
    | inl e ↦
        let same : b ≡ a = (==_iff b a).0 e in
        let written = get_elem?-set_self store a o' at in ground (arith, same, written, passes)
    | inr n ↦
        let kept = get_elem?-set_other store a o' b (λ q. ground (arith, q, n)) in
        elim (Option-cases (get_elem? store b)) [
          | inl e ↦
              let rest = find_if-set at passes list (rw (e, find_if, objects) at h) in
              rw (kept, e, find_if, objects) rest
          | inr (x, e) ↦ elim (Bool-cases (test (b, x))) [
            | inl hit ↦
                let same : ◌≡◌ {A = ℕ × Object P} (b, x) (a, o) = ground (arith, e, hit, h) in
                absurd (ground (arith, same, n))
            | inr miss ↦
                let rest = find_if-set at passes list (ground (arith, e, miss, h)) in
                ground (arith, kept, e, miss, rest)
          ]
        ]
  ]

find_tech-with_powered :
    (m : Manager) (enable : Bool) (arg : String) (a : ℕ) (o : Object TechProperties)
    → find_tech arg m ≡ some (a, o)
    → find_tech arg (with_powered enable a o m)
      ≡ some (a, record o { props = record o.props { powered = enable } })
find_tech-with_powered m enable arg a o found =
    let (listed, at, passes) =
      find_if-objects m.technology_store (match_technology arg) m.technologies a o found in
    find_if-set m.technology_store (match_technology arg) a o _ at passes m.technologies found

power_found-requests :
    (enable : Bool) (a : ℕ) (props : TechProperties)
    → requests_of (power_found enable a props).0 ≡ (
        if props.powered
        then (if enable
            then []
            else Action.tech_call a
                (Call.set_powered false)
                (some (Report.powered props.name false))
              ∷ [])
        else (if enable
            then Action.tech_call a (Call.set_powered true) (some (Report.powered props.name true))
              ∷ []
            else []))
unfolding power_found when◌act◌otherwise◌ ◌and_then◌
power_found-requests enable a props = ground arith

power_command-requests :
    (container : List String) (m : Manager) (enable : Bool) (arg : String) (a : ℕ)
    (o : Object TechProperties)
    → unlisted container arg ≡ false
    → find_tech arg m ≡ some (a, o)
    → requests_of (power_command container m enable arg).0
      ≡ requests_of (power_found enable a o.props).0
unfolding power_command power_found when◌act◌otherwise◌ ◌and_then◌ on_found
power_command-requests container m enable arg a o u f = rw (u, f, power_command) refl

module _ (number : ℤ → String) (commands_container : List String) where
  dispatch-power :
      (sh : Shell) (m : Manager) (enable : Bool) (arg : String) (iss : Text)
      → dispatch number commands_container sh m (power_word enable) arg iss
        ≡ power_command sh.technologies_container m enable arg
  unfolding dispatch when◌act◌otherwise◌
  dispatch-power sh m true arg iss = refl
  dispatch-power sh m false arg iss = refl

  run_line-power :
      (sh : Shell) (m : Manager) (line : String) (enable : Bool)
      → (next_word (trim (chars line))).0 ≡ power_word enable
      → run_line number commands_container sh m line
        ≡ power_command sh.technologies_container m enable (arg_of line)
  unfolding run_line
  run_line-power sh m line enable h =
      rw h
        (dispatch-power sh m enable (arg_of line) (next_word (next_word (trim (chars line))).1).1)

  -- The line `enable` or `disable` with the word of a technology that is listed and switched the other
  -- way makes exactly one request. The library sends it as a SetProperty; when connman reports a change
  -- with its parameters, the technology is switched as the line says, and no other property of it
  -- changes. Then the same line makes no request any more.
  pub power_line-switches :
      {V : Type 0} ⦃g : GVariant V⦄
      → GVariantLaws g
      → (callback : Option ℕ) (s : System TechProperties) (sh : Shell) (m : Manager) (line : String)
        (enable : Bool) (a : ℕ) (o : Object TechProperties)
      → (next_word (trim (chars line))).0 ≡ power_word enable
      → unlisted sh.technologies_container (arg_of line) ≡ false
      → find_tech (arg_of line) m ≡ some (a, o)
      → o.props.powered ≡ not enable
      → (requests_of (run_line number commands_container sh m line).0
          ≡ Action.tech_call a (Call.set_powered enable) (some (Report.powered o.props.name enable))
            ∷ [])
        × ((call : MethodCall V) × (tech_request (Call.set_powered enable) callback s ≡ some call)
            × (echo tech_update call o.props ≡ ok (record o.props { powered = enable })))
        × (requests_of (run_line number commands_container sh (with_powered enable a o m) line).0
            ≡ [])
  power_line-switches laws callback s sh m line enable a o cmd listed found off =
      let arg = arg_of line in
      let container = sh.technologies_container in
      let again = find_tech-with_powered m enable arg a o found in
      (
        rw (run_line-power sh m line enable cmd) (
            power_command-requests container m enable arg a o listed found
            ∙ (power_found-requests enable a o.props ∙ ground (arith, off))),
        (_, refl, (tech_roundtrip laws callback s o.props enable "" (pos 0)).0),
        rw (run_line-power sh (with_powered enable a o m) line enable cmd) (
            power_command-requests container (with_powered enable a o m) enable arg a _ listed again
            ∙ (power_found-requests enable a (record o.props { powered = enable }) ∙ ground arith)),
      )
