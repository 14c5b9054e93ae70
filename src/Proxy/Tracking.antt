-- ===== src/Proxy/Tracking.antt =====
-- The table of callbacks, the calls in flight and the count of the bus agree.
use libcppconnman.Prelude.{
  ℕ, ◌+◌, ◌%◌, ◌<◌, ◌≡◌, refl, Option, none, some, List, [], ◌∷◌, ◌++◌, Bool, false, ◌==◌,
  if◌then◌else◌, arith, length, length-append,
}
use libcppconnman.Bus.{word, on_any_async_start}
use libcppconnman.Proxy.CallbackMap.{find, find-insert}
use libcppconnman.Proxy.{
  Kind, AnyCallback, holding, CallbackData, System, size_max, Calls, issue, issue_all,
}

abbrev pub same : Kind → Kind → ℕ
same Kind.properties_set Kind.properties_set = 1
same Kind.properties Kind.properties = 1
same _ _ = 0

-- 1 if the value is a callback of this kind, 0 otherwise.
abbrev pub holds : Kind → Option AnyCallback → ℕ
holds kind (some (holding k callback)) = same kind k
holds kind _ = 0

abbrev pub is_at : ℕ → Option ℕ → Bool
is_at c none = false
is_at c (some d) = d == c

-- How many of the calls complete as `kind` with the callback at `c`.
unfoldable pub count : Kind → ℕ → List CallbackData → ℕ
count kind c [] = 0
count kind c (f ∷ fs) = (if is_at c f.counter then same kind f.kind else 0) + count kind c fs

pub count-append :
    (kind : Kind) (c : ℕ) (fs gs : List CallbackData)
    → count kind c (fs ++ gs) ≡ count kind c fs + count kind c gs
unfolding count
count-append kind c [] gs = omega arith
count-append kind c (f ∷ fs) gs = omega (arith, count-append kind c fs gs)

-- `extra` are calls that GLib has completed and whose callback is running; `others` is the number of
-- calls of the other proxies of the bus, which `pending_calls_` counts as well.
pub record Tracks {P : Type 0} (others : ℕ) (extra : List CallbackData) (s : System P)
    : Type 0 where
  -- Every stored callback is that of exactly one call, of its kind, and every call with a counter
  -- has its callback stored.
  pub stored :
      (kind : Kind) (c : ℕ)
      → holds kind (find c s.callbacks) ≡ count kind c extra + count kind c s.in_flight
  pub unused : (c : ℕ) → s.callback_counter < c → find c s.callbacks ≡ none
  pub counted : s.bus.pending_calls ≡ others + length extra + length s.in_flight
  pub fits : s.bus.pending_calls < word

-- Room for `n` more calls in the machine's counters.
pub record Room {P : Type 0} (n : ℕ) (s : System P) : Type 0 where
  pub pending : s.bus.pending_calls + n < word
  pub counter : s.callback_counter + n < size_max

module _ {P : Type 0} where
  pub issue-Tracks :
      {others : ℕ} (extra : List CallbackData) (s : System P) (c : Kind × Option ℕ)
      → Room 1 s
      → Tracks others extra s
      → Tracks others extra (issue s c)
  unfolding issue count on_any_async_start
  issue-Tracks extra s (k, none) r t =
      let new : List CallbackData = record { kind = k; counter = none } ∷ [] in
      record {
        stored = λ kind c. ground (arith, t.stored kind c, count-append kind c s.in_flight new);
        unused = λ c h. t.unused c h;
        counted = ground (arith, t.counted, r.pending, length-append s.in_flight new);
        fits = ground (arith, r.pending);
      }
  issue-Tracks extra s (k, some cb) r t =
      let index : ℕ = (s.callback_counter + 1) % size_max in
      let fresh : index ≡ s.callback_counter + 1 = omega arith in
      let new : List CallbackData = record { kind = k; counter = some index } ∷ [] in
      record {
        stored = λ kind c. ground (
          arith,
          t.stored kind c,
          count-append kind c s.in_flight new,
          find-insert index c (holding k cb) s.callbacks,
          t.unused index,
          fresh,
        );
        unused = λ c h.
            ground (arith, find-insert index c (holding k cb) s.callbacks, t.unused c, fresh);
        counted = ground (arith, t.counted, r.pending, length-append s.in_flight new);
        fits = ground (arith, r.pending);
      }

  issue-Room :
      (s : System P) (c : Kind × Option ℕ) (cs : Calls)
      → Room (length (c ∷ cs)) s
      → Room (length cs) (issue s c)
  unfolding issue on_any_async_start
  issue-Room s (k, none) cs r = record {
    pending = omega (arith, r.pending);
    counter = omega (arith, r.counter);
  }
  issue-Room s (k, some cb) cs r = record {
    pending = omega (arith, r.pending);
    counter = omega (arith, r.counter);
  }

  pub issue_all-Tracks :
      {others : ℕ} (extra : List CallbackData) (s : System P) (cs : Calls)
      → Room (length cs) s
      → Tracks others extra s
      → Tracks others extra (issue_all s cs)
  unfolding issue_all
  issue_all-Tracks extra s [] r t = t
  issue_all-Tracks extra s (c ∷ cs) r t =
      let one : Room 1 s = record {
        pending = omega (arith, r.pending);
        counter = omega (arith, r.counter);
      } in
      issue_all-Tracks extra (issue s c) cs (issue-Room s c cs r) (issue-Tracks extra s c one t)

  pub issue_all-events : (s : System P) (cs : Calls) → (issue_all s cs).events ≡ s.events
  unfolding issue_all
  issue_all-events s [] = refl
  issue_all-events s ((k, none) ∷ cs) = issue_all-events (issue s (k, none)) cs
  issue_all-events s ((k, some cb) ∷ cs) = issue_all-events (issue s (k, some cb)) cs

  -- A new call takes no key that is in use.
  issue-find :
      {others : ℕ} (extra : List CallbackData) (s : System P) (c : Kind × Option ℕ) (j : ℕ)
      (x : AnyCallback)
      → Room 1 s
      → Tracks others extra s
      → find j s.callbacks ≡ some x
      → find j (issue s c).callbacks ≡ some x
  unfolding issue
  issue-find extra s (k, none) j x r t h = h
  issue-find extra s (k, some cb) j x r t h =
      let index : ℕ = (s.callback_counter + 1) % size_max in
      let fresh : index ≡ s.callback_counter + 1 = omega (arith, r.counter) in
      ground (arith, find-insert index j (holding k cb) s.callbacks, t.unused index, fresh, h)

  pub issue_all-find :
      {others : ℕ} (extra : List CallbackData) (s : System P) (cs : Calls) (j : ℕ) (x : AnyCallback)
      → Room (length cs) s
      → Tracks others extra s
      → find j s.callbacks ≡ some x
      → find j (issue_all s cs).callbacks ≡ some x
  unfolding issue_all
  issue_all-find extra s [] j x r t h = h
  issue_all-find extra s (c ∷ cs) j x r t h =
      let one : Room 1 s = record {
        pending = omega (arith, r.pending);
        counter = omega (arith, r.counter);
      } in
      issue_all-find extra (issue s c) cs j x (issue-Room s c cs r) (issue-Tracks extra s c one t)
        (issue-find extra s c j x one t h)
