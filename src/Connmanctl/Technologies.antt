-- ===== src/Connmanctl/Technologies.antt =====
-- The commands on technologies: `technologies`, `scan`, `enable`, `disable` and `tether` in `main` of
-- examples/connmanctl.cpp.
use libcppconnman.Prelude.{
  ℕ, String, Bool, ◌&&◌, ◌||◌, not, Option, some, List, [], ◌∷◌, str_eq, if◌then◌else◌,
}
use libcppconnman.GVariant.{ℤ}
use libcppconnman.Manager.Lists.{Object}
use libcppconnman.Manager.Changes.{has_text}
use libcppconnman.Manager.Defs.{Manager}
use libcppconnman.Technology.Props.{TechProperties}
use libcppconnman.Technology.Print.{print_tech}
use libcppconnman.Connmanctl.Commands.{tech_map, print_container}
use libcppconnman.Connmanctl.Messages.{Report}
use libcppconnman.Connmanctl.Actions.{
  Call, Action, Run, say, one_request, nothing, ◌and_then◌, say_result, objects, find_if,
  when◌act◌otherwise◌, on_found, on_empty,
}

abbrev pub techs_of : Manager → List (ℕ × Object TechProperties)
techs_of m = objects m.technology_store m.technologies

abbrev pub match_technology : String → ℕ × Object TechProperties → Bool
match_technology arg tech = str_eq (tech_map tech.1.props.type) arg

abbrev pub find_tech : String → Manager → Option (ℕ × Object TechProperties)
find_tech arg m = find_if (match_technology arg) (techs_of m)

-- `arg` is no technology that was listed by the last change.
abbrev pub unlisted : List String → String → Bool
unlisted container arg = str_eq arg "" || not (has_text arg container)

-- `number` is how the stream writes an integer.
module _ (number : ℤ → String) where
  unfoldable pub show_technologies : List (ℕ × Object TechProperties) → Run
  unfolding print_tech
  show_technologies [] = nothing
  show_technologies ((a, tech) ∷ techs) =
      say ("Technology: " ∷ tech.props.name ∷ " " ∷ tech.path ∷ "\n" ∷ [])
      and_then say_result (print_tech number tech.props)
      and_then show_technologies techs

  unfoldable pub technologies_command : Manager → Run
  unfolding show_technologies
  technologies_command m =
      let techs = techs_of m in
      on_empty techs (say ("No technologies available.\n" ∷ [])) (show_technologies techs)

unfoldable pub scan_command : List String → Manager → String → Run
scan_command container m arg =
    when unlisted container arg
    act say ("Usage: scan <technology>\n" ∷ "Available technologies: " ∷ print_container container)
    otherwise on_found (find_tech arg m) nothing (λ (a, tech).
      say ("Scanning " ∷ tech.props.name ∷ "...\n" ∷ [])
      and_then one_request (Action.tech_call a Call.scan (some (Report.scanned tech.props.name))))

-- What is done with the technology that was found; `enable` says which command it is.
unfoldable pub power_found : Bool → ℕ → TechProperties → Run
power_found enable a props =
    when (not props.powered && enable) || (props.powered && not enable)
    act say ((if enable then "Enabling " else "Disabling ") ∷ props.name ∷ "...\n" ∷ [])
      and_then one_request
          (Action.tech_call a (Call.set_powered enable) (some (Report.powered props.name enable)))
    otherwise say (
        "Technology "
        ∷ props.name
        ∷ " is already "
        ∷ (if enable then "enabled" else "disabled")
        ∷ "\n"
        ∷ [])

unfoldable pub power_command : List String → Manager → Bool → String → Run
unfolding power_found
power_command container m enable arg =
    when unlisted container arg
    act say (
        "Usage: "
        ∷ "enable"
        ∷ "/"
        ∷ "disable"
        ∷ " <technology>\n"
        ∷ "Available technologies:"
        ∷ print_container container)
    otherwise say ((if enable then "Enabling" else "Disabling") ∷ " technology: " ∷ arg ∷ "\n" ∷ [])
      and_then on_found (find_tech arg m) nothing (λ (a, tech). power_found enable a tech.props)
