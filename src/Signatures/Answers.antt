-- ===== src/Signatures/Answers.antt =====
-- The types of an answer to RequestInput against what connman's agent interface reads
-- (src/dbus/gconnman_manager.cpp, src/dbus/gconnman_agent.cpp).
use libcppconnman.Prelude.{
  ℕ, ◌≡◌, refl, String, Bool, true, false, Option, none, some, List, [], ◌∷◌, All, map, Result, ok,
  ◌⊎◌, inl, inr, subst, sym, Option-cases, map_ok-eq-ok,
}
use libcppconnman.GVariant.{GVariant}
use libcppconnman.Service.Props.{ServProperties}
use libcppconnman.Manager.Lists.{Store, find_path}
use libcppconnman.Manager.Fields.{InputType, parse_fields, classify_input}
use libcppconnman.Manager.Input.{
  InputCallbacks, with_callback, key_of_flag, text_or_bytes, input_entries, build_answer,
  request_entries, request_input,
}
use libcppconnman.Signatures.{GVariantTypes, WellTyped}

-- The kinds of request that ask for an identity.
abbrev pub AsksIdentity : InputType → Type 0
AsksIdentity InputType.input_wpa_enterprise = Unit {0}
AsksIdentity InputType.input_challenge_response = Unit {0}
AsksIdentity kind = ⊥

module _ {V : Type 0} ⦃g : GVariant V⦄ where
  -- A member of the type that connman reads it as, or a WPS of bytes beside an identity.
  abbrev pub Member : InputType → String × V → Type 0
  Member kind e = WellTyped e ⊎ ((e.0 ≡ "WPS") × AsksIdentity kind × (g.is_of_type e.1 "ay" ≡ true))

  nothing-All :
      (P : String × V → Type 0) (es : List (String × V))
      → ◌≡◌ {A = Result (List (String × V))} (ok []) (ok es)
      → All P es
  nothing-All P es h = let e : [] ≡ es = cc in subst (All P) e tt

  with_callback-All :
      {A : Type 0} (P : String × V → Type 0) (cb : Option (ℕ → Result A)) (service : ℕ)
      (entries : A → List (String × V)) (es : List (String × V))
      → ((a : A) → All P (entries a))
      → with_callback cb service entries ≡ ok es
      → All P es
  with_callback-All P none service entries es k h = nothing-All P es h
  with_callback-All P (some callback) service entries es k h =
      let (a, q, e) = map_ok-eq-ok entries (callback service) h in subst (All P) e (k a)

module _ {V : Type 0} ⦃g : GVariant V⦄ {is_object_path : String → Bool}
    (types : GVariantTypes is_object_path g) where
  key_typed :
      (flag : Bool) (text : String)
      → WellTyped (key_of_flag flag "Passphrase" "WPS", g.new_string text)
  key_typed true text = ("s", refl, types.string text)
  key_typed false text = ("s", refl, types.string text)

  name_typed :
      (name : Bool × String)
      → WellTyped {V = V} (key_of_flag name.0 "Name" "SSID", text_or_bytes name)
  name_typed (true, text) = ("s", refl, types.string text)
  name_typed (false, text) = ("ay", refl, types.bytes text)

  password_typed :
      (kind : InputType) (password : Bool × String)
      → AsksIdentity kind
      → Member {V = V} kind (key_of_flag password.0 "Passphrase" "WPS", text_or_bytes password)
  password_typed kind (true, text) a = inl ("s", refl, types.string text)
  password_typed kind (false, text) a = inr (refl, a, types.bytes text)

  input_entries-Member :
      (cbs : InputCallbacks) (kind : InputType) (service : ℕ) (es : List (String × V))
      → input_entries cbs kind service ≡ ok es
      → All (Member kind) es
  unfolding input_entries
  input_entries-Member cbs InputType.input_unknown service es h = nothing-All _ es h
  input_entries-Member cbs InputType.input_wpa2_passphrase service es h =
      with_callback-All _ cbs.passphrase service _ es
        (λ answer. (inl ("s", refl, types.string answer.1), tt)) h
  input_entries-Member cbs InputType.input_wpa2_passphrase_wps_alternative service es h =
      with_callback-All _ cbs.passphrase service _ es
        (λ answer. (inl (key_typed answer.0 answer.1), tt)) h
  input_entries-Member cbs InputType.input_hidden_network_name service es h =
      with_callback-All _ cbs.hidden_network_name service _ es
        (λ answer. (inl (name_typed answer), tt)) h
  input_entries-Member cbs InputType.input_wpa_enterprise service es h =
      with_callback-All _ cbs.wpa_enterprise service _ es
        (λ answer. (
          inl ("s", refl, types.string answer.0),
          (password_typed InputType.input_wpa_enterprise answer.1 tt, tt),
        ))
        h
  input_entries-Member cbs InputType.input_challenge_response service es h =
      with_callback-All _ cbs.wpa_enterprise service _ es
        (λ answer. (
          inl ("s", refl, types.string answer.0),
          (password_typed InputType.input_challenge_response answer.1 tt, tt),
        ))
        h
  input_entries-Member cbs InputType.input_wispr service es h =
      with_callback-All _ cbs.wispr_enabled service _ es
        (λ answer.
          (inl ("s", refl, types.string answer.0), (inl ("s", refl, types.string answer.1), tt)))
        h

  request_entries-Member :
      (cbs : InputCallbacks) (store : Store ServProperties) (services : List ℕ)
      (service_path : String) (fields : V) (es : List (String × V))
      → request_entries cbs store services service_path fields ≡ ok es
      → All (Member (classify_input (parse_fields fields))) es
  unfolding request_entries
  request_entries-Member cbs store services service_path fields es h =
      elim (Option-cases (find_path store service_path services)) [
        | inl q ↦ nothing-All _ es (rw (q, request_entries) at h)
        | inr (service, q) ↦
            input_entries-Member cbs (classify_input (parse_fields fields)) service es
              (rw (q, request_entries) at h)
      ]

  entries-typed :
      (es : List (String × V))
      → All (λ v. g.is_of_type v "{sv}" ≡ true) (map (λ entry. g.new_entry entry.0 entry.1) es)
  entries-typed [] = tt
  entries-typed (e ∷ es) = (types.entry e.0 e.1, entries-typed es)

  -- The answer to RequestInput, when no callback throws, is a dictionary of variants, as the one value
  -- of the reply. Each of its members is one that connman reads, with the type that it reads it as; but
  -- the WPS that goes with an identity is made of bytes.
  pub request_input-typed :
      (cbs : InputCallbacks) (store : Store ServProperties) (services : List ℕ)
      (service_path : String) (fields answer : V)
      → request_input cbs store services service_path fields ≡ ok answer
      → (es : List (String × V)) × (answer ≡ build_answer es)
        × (g.is_of_type (g.new_tuple (answer ∷ [])) "(a{sv})" ≡ true)
        × All (Member (classify_input (parse_fields fields))) es
  unfolding request_input build_answer
  request_input-typed cbs store services service_path fields answer h =
      let (es, q, e) =
        map_ok-eq-ok build_answer (request_entries cbs store services service_path fields) h in
      (
        es,
        sym e,
        types.single answer "a{sv}" (
            subst (λ v. g.is_of_type v "a{sv}" ≡ true) e (types.array "{sv}" _ (entries-typed es))),
        request_entries-Member cbs store services service_path fields es q,
      )
