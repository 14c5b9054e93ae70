-- ===== src/Connmanctl/Requests.antt =====
-- What the shell may ask for, whatever line is typed (examples/connmanctl.cpp).
use libcppconnman.Prelude.{
  ℕ, ◌≡◌, ◌⊎◌, String, Bool, true, false, Option, some, List, arith, eq_iff, if◌then◌else◌,
}
use libcppconnman.GVariant.{ℤ}
use libcppconnman.Manager.Lists.{Object}
use libcppconnman.Manager.Defs.{Manager}
use libcppconnman.Service.Props.{ServProperties}
use libcppconnman.Service.Print.{print_serv}
use libcppconnman.Connmanctl.Words.{chars, trim, next_word, last_segment}
use libcppconnman.Connmanctl.Messages.{Report}
use libcppconnman.Connmanctl.Actions.{Call, Action, one_request}
use libcppconnman.Connmanctl.Shell.{Shell}
use libcppconnman.Connmanctl.Services.{
  servs_of, match_service, find_serv, is_up, show_service, services_command, connect_found,
  connect_command, remove_command,
}
use libcppconnman.Connmanctl.Loop.{agent_command, unknown_command, dispatch, run_line}
use libcppconnman.Connmanctl.Allowed.{
  ServPermits, AllAllowed, when-Allowed, on_found-Allowed, on_empty-Allowed, and_then-Allowed,
  say-Allowed, say_result-Allowed, none-Allowed, one_request-Allowed, find_if-objects,
}
use libcppconnman.Connmanctl.TechRequests.{
  technologies_command-Allowed, scan_command-Allowed, power_command-Allowed, tether_command-Allowed,
}

module _ (m : Manager) (arg : String) where
  match_service-named :
      (a : ℕ) (o : Object ServProperties)
      → match_service arg (a, o) ≡ true
      → (last_segment o.path ≡ arg) ⊎ (o.props.name ≡ arg)
  unfolding match_service
  match_service-named a o h =
      ground (arith, h, eq_iff (last_segment o.path) arg, eq_iff o.props.name arg)

  -- A request for the service that was found.
  found-Allowed :
      (a : ℕ) (o : Object ServProperties) (call : Call) (report : Option Report)
      → find_serv arg m ≡ some (a, o)
      → ServPermits o.props call
      → AllAllowed m arg (one_request (Action.serv_call a call report))
  found-Allowed a o call report q permits =
      let (listed, at, named) =
        find_if-objects m.service_store (match_service arg) m.services a o q in
      one_request-Allowed (Action.serv_call a call report)
        (o, listed, at, match_service-named a o named, permits)

  services_command-Allowed :
      (number : ℤ → String) → AllAllowed m arg (services_command number m arg)
  unfolding services_command show_service
  services_command-Allowed number = on_empty-Allowed (servs_of m) (say-Allowed _) (
      when-Allowed (λ _. say-Allowed _)
        (λ _. on_found-Allowed (say-Allowed _) (λ (a, o) q.
          and_then-Allowed (say-Allowed _) (say_result-Allowed (print_serv number o.props)))))

  connect_permits :
      (connect : Bool) (props : ServProperties)
      → is_up props ≡ (if connect then false else true)
      → ServPermits props (if connect then Call.connect else Call.disconnect)
  connect_permits true props h = h
  connect_permits false props h = h

  connect_found-Allowed :
      (connect : Bool) (a : ℕ) (o : Object ServProperties)
      → find_serv arg m ≡ some (a, o)
      → AllAllowed m arg (connect_found connect a o.props)
  unfolding connect_found
  connect_found-Allowed connect a o q =
      when-Allowed
        (λ e. and_then-Allowed (say-Allowed _) (
          found-Allowed a o (if connect then Call.connect else Call.disconnect) _ q
            (connect_permits connect o.props (ground (arith, e)))))
        (λ _. say-Allowed _)

  connect_command-Allowed : (connect : Bool) → AllAllowed m arg (connect_command m connect arg)
  unfolding connect_command
  connect_command-Allowed connect =
      when-Allowed (λ _. say-Allowed _)
        (λ _. on_found-Allowed (say-Allowed _) (λ (a, o) q. connect_found-Allowed connect a o q))

  remove_command-Allowed : AllAllowed m arg (remove_command m arg)
  unfolding remove_command
  remove_command-Allowed =
      when-Allowed (λ _. say-Allowed _)
        (λ _.
          on_found-Allowed (say-Allowed _)
            (λ (a, o) q. and_then-Allowed (say-Allowed _) (found-Allowed a o Call.remove _ q tt)))

  agent_command-Allowed : AllAllowed m arg (agent_command arg)
  unfolding agent_command
  agent_command-Allowed =
      when-Allowed
        (λ e.
          one_request-Allowed (Action.register_agent (Report.agent arg)) ((eq_iff arg "on").0 e))
        (λ _.
          when-Allowed
            (λ e.
              one_request-Allowed (Action.unregister_agent (Report.agent arg))
                ((eq_iff arg "off").0 e))
            (λ _. say-Allowed _))

  unknown_command-Allowed :
      (commands_container : List String) (cmd : String)
      → AllAllowed m arg (unknown_command commands_container cmd)
  unfolding unknown_command
  unknown_command-Allowed commands_container cmd =
      when-Allowed (λ _. none-Allowed _) (λ _. say-Allowed _)

-- The second word of a line.
abbrev pub arg_of : String → String
arg_of line = (next_word (next_word (trim (chars line))).1).0

-- Whatever line is typed, each request that it causes is for an object that the manager lists and that
-- the line's second word names: a technology by its type, a service by its name or the last segment of
-- its path. Power is only switched to what it is not, no passphrase of less than eight bytes and no
-- frequency beyond an `int` is set, and a service is connected only while it is neither ready nor
-- online and disconnected only while it is one of them. The agent is registered at `on` and
-- unregistered at `off`.
pub run_line-Allowed :
    (number : ℤ → String) (commands_container : List String) (sh : Shell) (m : Manager)
    (line : String)
    → AllAllowed m (arg_of line) (run_line number commands_container sh m line)
unfolding run_line dispatch
run_line-Allowed number commands_container sh m line =
    let arg = arg_of line in
    let iss = (next_word (next_word (trim (chars line))).1).1 in
    let container = sh.technologies_container in
    when-Allowed (λ _. none-Allowed _)
      (λ _.
        when-Allowed (λ _. technologies_command-Allowed m arg number)
          (λ _.
            when-Allowed (λ _. agent_command-Allowed m arg)
              (λ _.
                when-Allowed (λ _. services_command-Allowed m arg number)
                  (λ _.
                    when-Allowed (λ _. scan_command-Allowed m arg container)
                      (λ _.
                        when-Allowed (λ _. power_command-Allowed m arg container _)
                          (λ _.
                            when-Allowed (λ _. tether_command-Allowed m arg container iss)
                              (λ _.
                                when-Allowed (λ _. connect_command-Allowed m arg _)
                                  (λ _.
                                    when-Allowed (λ _. remove_command-Allowed m arg)
                                      (λ _.
                                        unknown_command-Allowed m arg commands_container _)))))))))
