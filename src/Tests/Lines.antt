-- ===== src/Tests/Lines.antt =====
-- The words of a line of the shell.
use libcppconnman.Prelude.{◌≡◌, refl, [], ◌∷◌}
use libcppconnman.Connmanctl.Words.{chars, trim}
use libcppconnman.Connmanctl.Trim.{read_words, read_words-spell}

read_words-spell_example : read_words 2 (trim (chars "  scan \t wifi ")) ≡ "scan" ∷ "wifi" ∷ []
read_words-spell_example =
    read_words-spell ((chars "  ", chars "scan") ∷ (chars " \t ", chars "wifi") ∷ []) (chars " ")
      (
        (refl, (refl, tt)),
        ((λ e. cc), (refl, (refl, (refl, (refl, tt))))),
        (λ e. cc),
        ((refl, (refl, (refl, tt))), ((λ e. cc), (refl, (refl, (refl, (refl, tt))))), tt, tt),
      )
      (refl, tt)
