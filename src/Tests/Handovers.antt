-- ===== src/Tests/Handovers.antt =====
-- A passphrase handed over by the shell, at a concrete session.
use libcppconnman.Prelude.{◌≡◌, List, [], ◌∷◌, none, some, true}
use libcppconnman.Connmanctl.Shell.{passphrase_answer}
use libcppconnman.Connmanctl.Session.{Event, play}
use libcppconnman.Connmanctl.Handover.{HandedOver, play-HandedOver}
use libcppconnman.Tests.Shell.{number, listed, shell, wifi}

abbrev before : List Event
before = Event.asked "office" ∷ Event.technologies_listed (wifi ∷ []) ∷ []

-- What the session is up to the line ` my pass `.
abbrev asked_home : List Event → List Event
asked_home after =
    Event.asked "home"
    ∷ Event.asked "office"
    ∷ Event.technologies_listed (wifi ∷ [])
    ∷ Event.typed listed " my pass "
    ∷ after

play-HandedOver_example :
    (passphrase_answer (play number [] shell (Event.asked "home" ∷ before)).0 ≡ none)
    × HandedOver " my pass " [] (play number [] shell (asked_home []))
    × (passphrase_answer (play number [] shell (asked_home (Event.typed listed "scan wifi" ∷ []))).0
        ≡ some (true, " my pass "))
    × (passphrase_answer (play number [] shell (asked_home (Event.asked "again" ∷ []))).0 ≡ none)
play-HandedOver_example =
    play-HandedOver number [] "home" shell before listed " my pass "
      (Event.typed listed "scan wifi" ∷ []) "again" (tt, (tt, tt)) (tt, tt)
