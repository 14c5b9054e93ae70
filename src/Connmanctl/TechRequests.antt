-- ===== src/Connmanctl/TechRequests.antt =====
-- The requests of the commands on technologies (examples/connmanctl.cpp).
use libcppconnman.Prelude.{ℕ, ◌≡◌, String, Bool, Option, some, List, [], ◌∷◌, arith, str_eq, eq_iff}
use libcppconnman.GVariant.{ℤ}
use libcppconnman.Manager.Lists.{Object}
use libcppconnman.Manager.Defs.{Manager}
use libcppconnman.Technology.Props.{TechProperties}
use libcppconnman.Technology.Print.{print_tech}
use libcppconnman.Connmanctl.Words.{Text, chars, next_word, digits_value}
use libcppconnman.Connmanctl.Commands.{tech_map}
use libcppconnman.Connmanctl.Messages.{Report}
use libcppconnman.Connmanctl.Actions.{Call, Action, Run, one_request}
use libcppconnman.Connmanctl.Technologies.{
  techs_of, match_technology, find_tech, show_technologies, technologies_command, scan_command,
  power_found, power_command,
}
use libcppconnman.Connmanctl.Tethering.{
  set_freq, tether_switch, tether_wifi, tether_found, tether_command,
}
use libcppconnman.Connmanctl.Allowed.{
  TechPermits, AllAllowed, and_then-Allowed, when-Allowed, on_found-Allowed, on_empty-Allowed,
  find_if-objects, say-Allowed, say_result-Allowed, none-Allowed, one_request-Allowed,
}

module _ (m : Manager) (arg : String) where
  -- A request for the technology that was found.
  found-Allowed :
      (a : ℕ) (o : Object TechProperties) (call : Call) (report : Option Report)
      → find_tech arg m ≡ some (a, o)
      → TechPermits o.props call
      → AllAllowed m arg (one_request (Action.tech_call a call report))
  found-Allowed a o call report q permits =
      let (listed, at, named) =
        find_if-objects m.technology_store (match_technology arg) m.technologies a o q in
      one_request-Allowed (Action.tech_call a call report)
        (o, listed, at, (eq_iff (tech_map o.props.type) arg).0 named, permits)

  show_technologies-Allowed :
      (number : ℤ → String) (techs : List (ℕ × Object TechProperties))
      → AllAllowed m arg (show_technologies number techs)
  unfolding show_technologies
  show_technologies-Allowed number [] = none-Allowed _
  show_technologies-Allowed number ((a, tech) ∷ techs) = and_then-Allowed (say-Allowed _) (
      and_then-Allowed (say_result-Allowed (print_tech number tech.props))
        (show_technologies-Allowed number techs))

  pub technologies_command-Allowed :
      (number : ℤ → String) → AllAllowed m arg (technologies_command number m)
  unfolding technologies_command
  technologies_command-Allowed number =
      on_empty-Allowed (techs_of m) (say-Allowed _) (show_technologies-Allowed number (techs_of m))

  pub scan_command-Allowed :
      (container : List String) → AllAllowed m arg (scan_command container m arg)
  unfolding scan_command
  scan_command-Allowed container =
      when-Allowed (λ _. say-Allowed _)
        (λ _.
          on_found-Allowed (none-Allowed _)
            (λ (a, o) q. and_then-Allowed (say-Allowed _) (found-Allowed a o Call.scan _ q tt)))

  power_found-Allowed :
      (enable : Bool) (a : ℕ) (o : Object TechProperties)
      → find_tech arg m ≡ some (a, o)
      → AllAllowed m arg (power_found enable a o.props)
  unfolding power_found
  power_found-Allowed enable a o q =
      when-Allowed
        (λ e.
          and_then-Allowed (say-Allowed _)
            (found-Allowed a o (Call.set_powered enable) _ q (λ p. ground (arith, e, p))))
        (λ _. say-Allowed _)

  pub power_command-Allowed :
      (container : List String) (enable : Bool)
      → AllAllowed m arg (power_command container m enable arg)
  unfolding power_command
  power_command-Allowed container enable =
      when-Allowed (λ _. say-Allowed _)
        (λ _.
          and_then-Allowed (say-Allowed _)
            (on_found-Allowed (none-Allowed _) (λ (a, o) q. power_found-Allowed enable a o q)))

  set_freq-Allowed :
      (a : ℕ) (o : Object TechProperties) (arg4 : String)
      → find_tech arg m ≡ some (a, o)
      → AllAllowed m arg (set_freq a arg4)
  unfolding set_freq
  set_freq-Allowed a o arg4 q =
      when-Allowed
        (λ _.
          when-Allowed
            (λ e.
              found-Allowed a o (Call.set_tethering_freq (digits_value (chars arg4))) _ q
                (ground (arith, e)))
            (λ _. none-Allowed _))
        (λ _. none-Allowed _)

  tether_switch-Allowed :
      (a : ℕ) (o : Object TechProperties) (enable : Bool)
      → find_tech arg m ≡ some (a, o)
      → AllAllowed m arg (tether_switch a arg enable)
  unfolding tether_switch
  tether_switch-Allowed a o enable q =
      and_then-Allowed (say-Allowed _) (found-Allowed a o (Call.set_tethering enable) _ q tt)

  tether_wifi-Allowed :
      (a : ℕ) (o : Object TechProperties) (arg2 arg3 arg4 : String) (rest : Run)
      → find_tech arg m ≡ some (a, o)
      → AllAllowed m arg rest
      → AllAllowed m arg (tether_wifi a arg2 arg3 arg4 rest)
  unfolding tether_wifi
  tether_wifi-Allowed a o arg2 arg3 arg4 rest q h =
      let after = and_then-Allowed (set_freq-Allowed a o arg4 q) h in
      and_then-Allowed (found-Allowed a o (Call.set_tethering_identifier arg2) _ q tt) (
        when-Allowed (λ _. after)
          (λ _.
            when-Allowed (λ _. say-Allowed _)
              (λ long.
                and_then-Allowed
                  (found-Allowed a o (Call.set_tethering_passphrase arg3) _ q
                    (ground (arith, long)))
                  after)))

  tether_found-Allowed :
      (a : ℕ) (o : Object TechProperties) (arg1 arg2 : String) (iss : Text)
      → find_tech arg m ≡ some (a, o)
      → AllAllowed m arg (tether_found a arg arg1 arg2 iss)
  unfolding tether_found
  tether_found-Allowed a o arg1 arg2 iss q =
      let rest = tether_switch-Allowed a o (str_eq arg1 "on") q in
      let arg3 = (next_word iss).0 in
      let arg4 = (next_word (next_word iss).1).0 in
      when-Allowed (λ _. tether_wifi-Allowed a o arg2 arg3 arg4 _ q rest) (λ _. rest)

  pub tether_command-Allowed :
      (container : List String) (iss : Text) → AllAllowed m arg (tether_command container m arg iss)
  unfolding tether_command
  tether_command-Allowed container iss =
      let (arg1, iss1) = next_word iss in
      let (arg2, iss2) = next_word iss1 in
      when-Allowed (λ _. say-Allowed _)
        (λ _.
          on_found-Allowed (none-Allowed _) (λ (a, o) q. tether_found-Allowed a o arg1 arg2 iss2 q))
