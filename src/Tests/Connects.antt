-- ===== src/Tests/Connects.antt =====
-- A service that is disconnected and connected by lines of the shell.
use libcppconnman.Prelude.{◌≡◌, refl, true, false, [], ◌∷◌, ok}
use libcppconnman.EnumMap.{from_string}
use libcppconnman.Names.{state_str}
use libcppconnman.Service.Enums.{ServState, serv_state_to_int}
use libcppconnman.Service.Props.{serv_update}
use libcppconnman.Connmanctl.Words.{trim, next_word, last_segment}
use libcppconnman.Connmanctl.Services.{match_service}
use libcppconnman.Connmanctl.Loop.{run_line}
use libcppconnman.Connmanctl.Power.{requests_of}
use libcppconnman.Connmanctl.Connect.{connect_request, with_state, connect_line-connects}
use libcppconnman.Tests.Values.{var, text}
use libcppconnman.Tests.Shell.{number, home, listed, shell}

connect_line-connects_example :
    (requests_of (run_line number [] shell listed "disconnect wifi_1").0
      ≡ connect_request false 0 "home" ∷ [])
    × (serv_update state_str (text "idle") home.props
        ≡ ok (record home.props { state = ServState.idle }))
    × (requests_of
          (run_line number [] shell (with_state ServState.idle 0 home listed) "disconnect wifi_1").0
        ≡ [])
    × (requests_of
          (run_line number [] shell (with_state ServState.idle 0 home listed) " connect  wifi_1").0
        ≡ connect_request true 0 "home" ∷ [])
unfolding next_word trim match_service last_segment serv_state_to_int from_string
connect_line-connects_example =
    connect_line-connects number [] (text "idle") ServState.idle shell listed "disconnect wifi_1"
      " connect  wifi_1" false 0 home refl refl refl refl refl refl refl refl
