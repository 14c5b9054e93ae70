-- ===== src/Connmanctl/Screen.antt =====
-- No message of a callback is lost, shown twice or left behind (examples/connmanctl.cpp).
use mathlib.Core.List.{append_assoc, append-nil}
use libcppconnman.Prelude.{
  ◌≡◌, ◌<◌, refl, sym, ◌∙◌, ap, true, false, [], ◌++◌, ◌⊎◌, inl, inr, arith, Bool-cases,
}
use libcppconnman.Print.{Output}
use libcppconnman.Connmanctl.Messages.{
  Screen, ScreenStep, Seen, written, flagged, exchanged, taken, start, step, written_by,
  write_message, set_flag, exchange_flag, take_message, event_hook_messages, report_text,
}

-- While a text waits, something is on its way to show it.
abbrev Awake : Screen → Type 0
Awake s = (s.message ≡ []) ⊎ ((s.has_message ≡ true) ⊎ ((s.taking ≡ true) ⊎ (0 < s.posting)))

ScreenStep-Awake : (s t : Screen) → ScreenStep s t → Awake s → Awake t
unfolding write_message set_flag exchange_flag take_message
ScreenStep-Awake s _ (written _ report success) a = inr (inr (inr (omega arith)))
ScreenStep-Awake s _ (flagged _ n h) a = inr (inl refl)
ScreenStep-Awake s _ (exchanged _ h) a = ground (arith, a, h)
ScreenStep-Awake s _ (taken _ h) a = inl refl

ScreenStep-text :
    (s t : Screen) (last : ScreenStep s t)
    → t.shown ++ t.message ≡ (s.shown ++ s.message) ++ written_by last
unfolding write_message set_flag exchange_flag take_message
ScreenStep-text s _ (written _ report success) =
    sym (append_assoc s.shown s.message (report_text report success))
ScreenStep-text s _ (flagged _ n h) = sym (append-nil _)
ScreenStep-text s _ (exchanged _ h) = sym (append-nil _)
ScreenStep-text s _ (taken _ h) = refl

Seen-Awake : (all : Output) (s : Screen) → Seen all s → Awake s
Seen-Awake _ _ start = inl refl
Seen-Awake _ _ (step all s t last seen) = ScreenStep-Awake s t last (Seen-Awake all s seen)

-- In whatever order the threads take turns, what was shown and what still waits are together the texts
-- of all callbacks, each once and in the order in which they were written.
pub Seen-text : (all : Output) (s : Screen) → Seen all s → s.shown ++ s.message ≡ all
Seen-text _ _ start = refl
Seen-text _ _ (step all s t last seen) =
    ScreenStep-text s t last ∙ ap (λ u. u ++ written_by last) (Seen-text all s seen)

-- In whatever order the threads took turns: when no callback is halfway and event_hook is not either,
-- its next run leaves every text shown, each once and in order.
pub event_hook_messages-shown :
    (all : Output) (s : Screen)
    → Seen all s
    → s.posting ≡ 0
    → s.taking ≡ false
    → (event_hook_messages s).shown ≡ all
unfolding event_hook_messages exchange_flag take_message
event_hook_messages-shown all s seen p t =
    let text = Seen-text all s seen in
    elim (Bool-cases s.has_message) [
      | inl e ↦ rw e text
      | inr e ↦
          let empty : s.message ≡ [] = ground (arith, Seen-Awake all s seen, e, p, t) in
          rw e (sym (append-nil s.shown) ∙ ap (λ m. s.shown ++ m) (sym empty) ∙ text)
    ]
