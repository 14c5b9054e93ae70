-- ===== src/Connmanctl/Candidates.antt =====
-- Which words completion offers (examples/connmanctl.cpp).
use text.Mathlib.TextBridge.{of_list}
use libcppconnman.Connmanctl.Words.{Text, chars}
use libcppconnman.Prelude.{
  ◌++◌, ◌↔◌, sym, ◌∙◌, ap, ℕ, zero, suc, ◌≤◌, ◌≡◌, refl, String, true, false, List, [], ◌∷◌, map,
  arith, length, str_eq, eq_iff, if◌then◌else◌, All, Bool-cases, inl, inr,
}
use libcppconnman.Manager.Lists.{Object}
use libcppconnman.Manager.Changes.{has_text}
use libcppconnman.Technology.Enums.{TechType}
use libcppconnman.Technology.Props.{TechProperties}
use libcppconnman.Connmanctl.Commands.{tech_map}
use libcppconnman.Connmanctl.Shell.{Shell, technologies_changed}
use libcppconnman.Connmanctl.Technologies.{unlisted}
use libcppconnman.Connmanctl.Completion.{Mode, container_of, begins_with, take, calls}

-- The words of the container that begin with the text, in their order.
abbrev pub beginning : String → List String → List String
beginning text [] = []
beginning text (cmd ∷ container) =
    let rest = beginning text container in if begins_with text cmd then cmd ∷ rest else rest

calls-miss :
    (n : ℕ) (text cmd : String) (left : List String)
    → begins_with text cmd ≡ false
    → calls n text (cmd ∷ left) ≡ calls n text left
unfolding calls
calls-miss zero text cmd left h = refl
calls-miss (suc n) text cmd left h = ground (arith, h)

calls-hit :
    (n : ℕ) (text cmd : String) (left : List String)
    → begins_with text cmd ≡ true
    → calls (suc n) text (cmd ∷ left) ≡ cmd ∷ calls n text left
unfolding calls
calls-hit n text cmd left h = ground (arith, h)

calls-beginning_exact :
    (n : ℕ) (text : String) (container : List String)
    → length container ≤ n
    → calls n text container ≡ beginning text container
unfolding calls
calls-beginning_exact zero text [] h = refl
calls-beginning_exact (suc n) text [] h = refl
calls-beginning_exact zero text (cmd ∷ left) h = elim h [ ]
calls-beginning_exact (suc n) text (cmd ∷ left) h = elim (Bool-cases (begins_with text cmd)) [
  | inl e ↦
      rw (calls-hit n text cmd left e, calls-beginning_exact n text left (omega arith)) (rw e refl)
  | inr e ↦
      rw (calls-miss (suc n) text cmd left e, calls-beginning_exact (suc n) text left (omega arith))
        (rw e refl)
]

chars-of_list : (s : Text) → chars (of_list s) ≡ s
chars-of_list [] = refl
chars-of_list (c ∷ s) = ap (λ r. c ∷ r) (chars-of_list s)

of_list-chars : (s : String) → of_list (chars s) ≡ s
of_list-chars String.[] = refl
of_list-chars (String.◌∷◌ c s) = ap (λ r. String.◌∷◌ c r) (of_list-chars s)

take-split : (n : ℕ) (s : Text) → (rest : Text) × (take n s ++ rest ≡ s)
take-split zero s = (s, refl)
take-split (suc n) [] = ([], refl)
take-split (suc n) (c ∷ s) = let (rest, q) = take-split n s in (rest, ap (λ r. c ∷ r) q)

take-append : (t rest : Text) → take (length t) (t ++ rest) ≡ t
take-append [] rest = refl
take-append (c ∷ t) rest = ap (λ r. c ∷ r) (take-append t rest)

-- The word is the text with something behind it.
abbrev pub Begins : String → String → Type 0
Begins text cmd = (rest : Text) × (chars text ++ rest ≡ chars cmd)

begins_with-Begins : (text cmd : String) → (begins_with text cmd ≡ true) ↔ Begins text cmd
begins_with-Begins text cmd =
    let front = take (length (chars text)) (chars cmd) in
    let (rest, q) = take-split (length (chars text)) (chars cmd) in
    (
      λ h.
          let same : chars text ≡ front =
            ap chars (sym ((eq_iff (of_list front) text).0 h)) ∙ chars-of_list front in
          (rest, ap (λ t. t ++ rest) same ∙ q),
      λ (after, p). (eq_iff (of_list front) text).1 (
          ap of_list (ap (take (length (chars text))) (sym p) ∙ take-append (chars text) after)
          ∙ of_list-chars text),
    )

-- The calls of command_generator come to an end: as many as the container has words, or more, offer
-- exactly those of its words that pass its test, in their order; and any word passes the test
-- exactly if it is the text with something, or nothing, behind it.
pub calls-beginning :
    (n : ℕ) (text : String) (container : List String) (cmd : String)
    → length container ≤ n
    → (calls n text container ≡ beginning text container)
      × ((begins_with text cmd ≡ true) ↔ Begins text cmd)
calls-beginning n text container cmd h =
    (calls-beginning_exact n text container h, begins_with-Begins text cmd)

All-beginning :
    (P : String → Type 0) (text : String) (container : List String)
    → All P container
    → All P (beginning text container)
All-beginning P text [] a = tt
All-beginning P text (cmd ∷ container) a = elim (Bool-cases (begins_with text cmd)) [
  | inl e ↦ rw e (a.0, All-beginning P text container a.1)
  | inr e ↦ rw e (All-beginning P text container a.1)
]

abbrev names : List (Object TechProperties) → List String
names technologies = map (λ tech. tech_map tech.props.type) technologies

tech_map-ne : (type : TechType) → str_eq (tech_map type) "" ≡ false
tech_map-ne TechType.ethernet = refl
tech_map-ne TechType.wifi = refl
tech_map-ne TechType.cellular = refl
tech_map-ne TechType.bluetooth = refl
tech_map-ne TechType.vpn = refl
tech_map-ne TechType.wired = refl
tech_map-ne TechType.p2p = refl
tech_map-ne TechType.gps = refl
tech_map-ne TechType.gadget = refl

names-listed :
    (technologies : List (Object TechProperties)) (container : List String)
    → ((s : String) → has_text s (names technologies) ≡ true → has_text s container ≡ true)
    → All (λ s. unlisted container s ≡ false) (names technologies)
names-listed [] container h = tt
names-listed (tech ∷ technologies) container h =
    let name = tech_map tech.props.type in
    let here = h name (ground (arith, eq_iff name name)) in
    (
      ground (arith, tech_map-ne tech.props.type, here),
      names-listed technologies container (λ s p. h s (ground (arith, p))),
    )

-- After the technologies were listed, no word that completion offers for one is refused by the commands
-- as unknown.
pub calls-listed :
    (commands_container : List String) (technologies : List (Object TechProperties)) (sh : Shell)
    (text : String) (n : ℕ)
    → length (container_of commands_container (technologies_changed technologies sh) Mode.tech_hash)
      ≤ n
    → All
        (λ s. unlisted (technologies_changed technologies sh).technologies_container s ≡ false)
        (calls n text
          (container_of commands_container (technologies_changed technologies sh) Mode.tech_hash))
unfolding technologies_changed
calls-listed commands_container technologies sh text n h =
    rw (calls-beginning_exact n text (names technologies) h) (
      All-beginning (λ s. unlisted (names technologies) s ≡ false) text (names technologies)
        (names-listed technologies (names technologies) (λ s p. p)))
