-- ===== src/Manager/Classify.antt =====
-- What classify_input depends on: which fields are asked for, in whatever order.
use mathlib.Core.List.{Perm, Permᴰ}
use mathlib.Core.Logic.{∥∥₁_elim}
use libcppconnman.Prelude.{
  ◌≡◌, refl, sym, ap, ap₂, subst, ◌∙◌, ◌↔◌, String, Bool, true, false, ◌&&◌, ◌||◌, not, List, [],
  ◌∷◌, str_eq, arith, if◌then◌else◌,
}
use libcppconnman.Manager.Fields.{
  FieldDescription, InputType, null_eq, Flags, no_flags, set_flags, scan_fields, decide_input,
  classify_input,
}

-- Whether some field passes the test.
abbrev pub any : (FieldDescription → Bool) → List FieldDescription → Bool
any test [] = false
any test (desc ∷ rest) = test desc || any test rest

abbrev pub named : String → FieldDescription → Bool
named text d = str_eq d.field_name text

abbrev pub needs_passphrase : FieldDescription → Bool
needs_passphrase d = str_eq d.field_name "Passphrase" && null_eq d.requirement "mandatory"

abbrev pub needs_response : FieldDescription → Bool
needs_response d = str_eq d.field_name "Passphrase" && null_eq d.type "response"

abbrev with_asked : List FieldDescription → Flags → Flags
with_asked fields f = record {
  passphrase = f.passphrase || any needs_passphrase fields;
  wps = f.wps || any (named "WPS") fields;
  name = f.name || any (named "Name") fields;
  identity = f.identity || any (named "Identity") fields;
  username = f.username || any (named "Username") fields;
  password = f.password || any (named "Password") fields;
  challenge = f.challenge || any needs_response fields;
}

or_step :
    (test before later : Bool)
    → ((if test then true else before) || later) ≡ (before || (test || later))
or_step true before later = ground arith
or_step false before later = refl

scan_fields-asked :
    (fields : List FieldDescription) (f : Flags) → scan_fields fields f ≡ with_asked fields f
unfolding scan_fields
scan_fields-asked [] f = ground arith
scan_fields-asked (d ∷ fields) f = scan_fields-asked fields (set_flags d f) ∙ λ i. record {
  passphrase = or_step (needs_passphrase d) f.passphrase (any needs_passphrase fields) i;
  wps = or_step (named "WPS" d) f.wps (any (named "WPS") fields) i;
  name = or_step (named "Name" d) f.name (any (named "Name") fields) i;
  identity = or_step (named "Identity" d) f.identity (any (named "Identity") fields) i;
  username = or_step (named "Username" d) f.username (any (named "Username") fields) i;
  password = or_step (named "Password" d) f.password (any (named "Password") fields) i;
  challenge = or_step (needs_response d) f.challenge (any needs_response fields) i;
}

-- The fields that are asked for, as flags.
abbrev pub asked : List FieldDescription → Flags
asked fields = with_asked fields no_flags

-- The kinds of request, each with its own condition; no two of them hold together.
abbrev pub describes : InputType → Flags → Bool
describes InputType.input_wpa2_passphrase f = f.passphrase && not f.wps && not f.identity
describes InputType.input_wpa2_passphrase_wps_alternative f = f.passphrase && f.wps
describes InputType.input_hidden_network_name f =
    f.name && not (f.passphrase && (f.wps || not f.identity))
describes InputType.input_challenge_response f =
    f.identity && f.challenge && not f.name && not (f.passphrase && f.wps)
describes InputType.input_wpa_enterprise f =
    f.identity && f.passphrase && not f.wps && not f.name && not f.challenge
describes InputType.input_wispr f =
    f.username && f.password && not f.passphrase && not f.name && not (f.identity && f.challenge)
describes InputType.input_unknown f =
    not f.passphrase
    && not f.name
    && not (f.identity && f.challenge)
    && not (f.username && f.password)

decide_input-describes : (f : Flags) → describes (decide_input f) f ≡ true
unfolding decide_input
decide_input-describes f = ground arith

decide_input_unique : (t : InputType) (f : Flags) → describes t f ≡ true → decide_input f ≡ t
unfolding decide_input
decide_input_unique InputType.input_wpa2_passphrase f h = ground arith
decide_input_unique _ f h = ground arith

-- classify_input answers a kind of request exactly if the condition of that kind holds of the fields
-- that are asked for, wherever they stand in the list.
pub classify_input-describes :
    (fields : List FieldDescription) (t : InputType)
    → (classify_input fields ≡ t) ↔ (describes t (asked fields) ≡ true)
unfolding classify_input
classify_input-describes fields t = (
  λ e.
      let same = sym (ap decide_input (scan_fields-asked fields no_flags)) ∙ e in
      subst (λ k. describes k (asked fields) ≡ true) same (decide_input-describes (asked fields)),
  λ h. ap decide_input (scan_fields-asked fields no_flags) ∙ decide_input_unique t (asked fields) h,
)

any-perm :
    (test : FieldDescription → Bool) {xs ys : List FieldDescription}
    → Permᴰ xs ys
    → any test xs ≡ any test ys
any-perm test Permᴰ.nil = refl
any-perm test (Permᴰ.cons e d) = ap₂ ◌||◌ (ap test e) (any-perm test d)
any-perm test (Permᴰ.swap e k) = ground (arith, ap test e, ap test k)
any-perm test (Permᴰ.trans d k) = any-perm test d ∙ any-perm test k

asked-perm : {xs ys : List FieldDescription} → Permᴰ xs ys → asked xs ≡ asked ys
asked-perm d = λ i. record {
  passphrase = any-perm needs_passphrase d i;
  wps = any-perm (named "WPS") d i;
  name = any-perm (named "Name") d i;
  identity = any-perm (named "Identity") d i;
  username = any-perm (named "Username") d i;
  password = any-perm (named "Password") d i;
  challenge = any-perm needs_response d i;
}

InputType-set : IsSet InputType
InputType-set = hlevel

-- The order of the fields makes no difference.
pub classify_input-perm :
    (xs ys : List FieldDescription) → Perm xs ys → classify_input xs ≡ classify_input ys
classify_input-perm xs ys h = ∥∥₁_elim h (InputType-set _ _) λ d.
    (classify_input-describes xs (classify_input ys)).1 (
      subst (λ f. describes (classify_input ys) f ≡ true) (sym (asked-perm d))
        ((classify_input-describes ys (classify_input ys)).0 refl))
