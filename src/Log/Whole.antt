-- ===== src/Log/Whole.antt =====
-- Many threads that log at the same time (include/amarula/log.hpp).
use mathlib.Core.List.Perm
use mathlib.Core.List.{Perm, perm_middle, append_assoc, append-nil}
use libcppconnman.Prelude.{
  ◌≡◌, refl, Bool, Option, none, some, List, [], ◌∷◌, ◌++◌, sym, ap, ◌∙◌, subst, Bool-cases, inl,
  inr, if◌then◌else◌,
}
use libcppconnman.Log.{Log, log_init, enable, format_message, lock_mutex, put, unlock_mutex}

-- The log, the messages for which LCM_LOG was called while it was enabled, and those that got the mutex,
-- in this order.
pub record Logging (A : Type 0) : Type 0 where
  pub log : Log A
  pub asked : List (List A)
  pub taken : List (List A)

abbrev pub joined {ℓ} : {A : Type ℓ} → List (List A) → List A
joined [] = []
joined (message ∷ rest) = message ++ joined rest

abbrev pub logged : {A : Type 0} → Bool → List A → List (List A) → List (List A)
logged enabled message asked = if enabled then asked ++ message ∷ [] else asked

module _ {A : Type 0} where
  pub data LogStep (s : Logging A) : Logging A → Type 0 where
    enables : (b : Bool) → LogStep s (record s { log = enable b s.log })
    formats :
        (message : List A)
        → LogStep s (record s {
          log = format_message message s.log;
          asked = logged s.log.enabled message s.asked;
        })
    locks :
        (pre : List (List A)) (message : List A) (post : List (List A))
        → s.log.locked ≡ none
        → s.log.waiting ≡ pre ++ (message ∷ post)
        → LogStep s (record s {
          log = lock_mutex (pre ++ post) message s.log;
          taken = s.taken ++ message ∷ [];
        })
    puts :
        (c : A) (rest : List A)
        → s.log.locked ≡ some (c ∷ rest)
        → LogStep s (record s { log = put c rest s.log })
    unlocks : s.log.locked ≡ some [] → LogStep s (record s { log = unlock_mutex s.log })

  pub data Reach : Logging A → Type 0 where
    here : Reach (record { log = log_init; asked = []; taken = [] })
    next : {s t : Logging A} → Reach s → LogStep s t → Reach t

  -- What the thread that has the mutex still has to write.
  abbrev pub rest_of : Option (List A) → List A
  rest_of none = []
  rest_of (some rest) = rest

  pub record Inv (s : Logging A) : Type 0 where
    pub whole : s.log.stream ++ rest_of s.log.locked ≡ joined s.taken
    pub kept : Perm s.asked (s.taken ++ s.log.waiting)

  joined-append : (xs : List (List A)) (m : List A) → joined (xs ++ m ∷ []) ≡ joined xs ++ m
  joined-append [] m = append-nil m
  joined-append (x ∷ xs) m =
      ap (λ ys. x ++ ys) (joined-append xs m) ∙ sym (append_assoc x (joined xs) m)

  formats-Inv :
      (s : Logging A) (m : List A)
      → Inv s
      → Inv (record s { log = format_message m s.log; asked = logged s.log.enabled m s.asked })
  unfolding format_message
  formats-Inv s m i = elim (Bool-cases s.log.enabled) [
    | inl e ↦
        rw (e, format_message)
          (record {
            whole = i.whole;
            kept =
                subst (λ t. Perm (s.asked ++ m ∷ []) t)
                  (append_assoc s.taken s.log.waiting (m ∷ [])) (Perm.append_right (m ∷ []) i.kept);
          })
    | inr e ↦ rw (e, format_message) (record { whole = i.whole; kept = i.kept })
  ]

  locks-Inv :
      (s : Logging A) (pre : List (List A)) (m : List A) (post : List (List A))
      → s.log.locked ≡ none
      → s.log.waiting ≡ pre ++ (m ∷ post)
      → Inv s
      → Inv (record s { log = lock_mutex (pre ++ post) m s.log; taken = s.taken ++ m ∷ [] })
  unfolding lock_mutex
  locks-Inv s pre m post q e i = record {
    whole = cc (append-nil s.log.stream, rw q at i.whole, joined-append s.taken m);
    kept =
        rw (append_assoc s.taken (m ∷ []) (pre ++ post))
          (Perm.trans (rw e at i.kept) (Perm.append_left s.taken (perm_middle pre post)));
  }

  Step-Inv : {s t : Logging A} → LogStep s t → Inv s → Inv t
  unfolding put unlock_mutex
  Step-Inv (enables b) i = record { whole = i.whole; kept = i.kept }
  Step-Inv {s} (formats m) i = formats-Inv s m i
  Step-Inv {s} (locks pre m post q e) i = locks-Inv s pre m post q e i
  Step-Inv {s} (puts c rest q) i = record {
    whole = cc (append_assoc s.log.stream (c ∷ []) rest, rw q at i.whole);
    kept = i.kept;
  }
  Step-Inv {s} (unlocks q) i = record { whole = rw q at i.whole; kept = i.kept }

  Reach-Inv : {s : Logging A} → Reach s → Inv s
  Reach-Inv here = record { whole = refl; kept = Perm.refl [] }
  Reach-Inv (next r st) = Step-Inv st (Reach-Inv r)

  -- However many threads log at the same time, and however the flag is switched: the stream, with what
  -- the thread that has the mutex still has to write, is made of whole messages, one after the other in
  -- the order in which they got the mutex; and these and those that wait are exactly the messages of the
  -- calls that were made while the log was enabled, none lost and none twice.
  pub Reach-whole :
      {s : Logging A}
      → Reach s
      → (s.log.stream ++ rest_of s.log.locked ≡ joined s.taken)
        × Perm s.asked (s.taken ++ s.log.waiting)
  Reach-whole r = let i = Reach-Inv r in (i.whole, i.kept)
