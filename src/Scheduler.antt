-- ===== src/Scheduler.antt =====
-- src/agent/scheduler/auto-run.ts (AutoRunScheduler): `add` and `tick`. The submission and the inbox are functions that act on
-- a world and may throw. The readings of the clock that `tick` makes at an entry are the values of
-- `now` and `later` at its identifier. An entry that the loop writes keeps its place. The interval
-- timer that calls `tick` is left out.
pub mod Tests
use cli_model_gateway.Base.{
  ℕ, zero, suc, ◌+◌, ◌-◌, ◌*◌, ◌/◌, ◌%◌, ◌<◌, ◌≤◌, min, max, ◌≡◌, ◌≢◌, refl, sym, ap, ◌∙◌, subst,
  String, Bool, true, false, not, ◌&&◌, ◌||◌, Option, none, some, [], ◌∷◌, ◌++◌, map, List, arith,
  leb, ltb, ◌==◌, ◌!=◌, ==_iff, ==_refl, if◌then◌else◌, Table, Each, keys, values, get, set, has,
  delete, Outcome, Act, pure, ◌>>=◌, ◌>>◌, returns, throws, after, get-set, get-set_self,
  get-delete, get-has, has-get, length-set, length-delete-le, get-set_cases, get-none-has,
  has-set_lem, has-delete, Each-mono, Each-values, has-Each, IsUnique, set-IsUnique, find-get,
  find-get-none, Each-set, Each-delete, Each-get, Bool-cases, Option-cases, inl, inr, ◌⊎◌, ◌↔◌,
  nat_eq, string_eq, Eq, length, any, all, filter, codes, between, is_upper, is_lower, is_digit,
  Extends, starts, starts-Extends, anywhere, anywhere-append_left, anywhere-Extends, find,
  get_last?, get_elem?, take, drop, All, All-append, All-filter, All-find, length-append,
  length-drop, length-filter-le, find_holds, ltb→lt, leb→le,
}
use cli_model_gateway.Policy.{Action, RiskStep, can_auto_run}

pub record Entry (Other : Type 0) : Type 0 where
  pub spec : RiskStep Other
  pub interval_ms : ℕ
  pub due : ℕ

pub record AutoRunScheduler (Other W : Type 0) : Type 0 where
  pub entries : Table String (Entry Other)
  pub world : W

pub record Parts (Other W : Type 0) : Type 0 where
  pub digest : Action Other → String
  pub submit : RiskStep Other → Act W (Unit {0})
  pub request : RiskStep Other → Act W (Unit {0})

module _ {Other W : Type 0} where
  unfoldable pub add :
      (now : ℕ) (id : String)
      → RiskStep Other
      → (interval_ms : ℕ) → Act (AutoRunScheduler Other W) (Unit {0})
  add now id spec interval_ms s =
      if leb interval_ms 0
      then throws "Invalid recurrence" s
      else returns tt (record s {
        entries =
            set id (record { spec = spec; interval_ms = interval_ms; due = now + interval_ms })
              s.entries;
      })

  abbrev pub in_world :
      AutoRunScheduler Other W
      → Outcome W (Unit {0})
      → Outcome (AutoRunScheduler Other W) (Unit {0})
  in_world s (returns _ w) = returns tt (record s { world = w })
  in_world s (throws e w) = throws e (record s { world = w })

module _ {Other W : Type 0} (parts : Parts Other W) where
  open parts use {digest, submit, request}

  abbrev pub fire : RiskStep Other → Act (AutoRunScheduler Other W) (Unit {0})
  fire spec s =
      in_world s (if can_auto_run digest spec then submit spec s.world else request spec s.world)

  abbrev pub postpone :
      ℕ → String → Entry Other → AutoRunScheduler Other W → AutoRunScheduler Other W
  postpone at id e s = record s {
    entries = set id (record e { due = at + e.interval_ms }) s.entries;
  }

  -- The loop of `tick`.
  unfoldable pub tick_entries :
      (now later : String → ℕ)
      → Table String (Entry Other)
      → Act (AutoRunScheduler Other W) (Unit {0})
  tick_entries now later [] s = returns tt s
  tick_entries now later ((id, e) ∷ es) s =
      let rest = tick_entries now later es in
      if leb e.due (now id)
      then (fire e.spec >>= λ _. rest) (postpone (later id) id e s)
      else rest s

  unfoldable pub tick : (now later : String → ℕ) → Act (AutoRunScheduler Other W) (Unit {0})
  unfolding tick_entries
  tick now later s = tick_entries now later s.entries s

-- What the scheduler asks for, newest first.
pub data Event (Other : Type 0) : Type 0 where
  submitted : RiskStep Other → Event Other
  requested : RiskStep Other → Event Other

module _ {Other : Type 0} (digest : Action Other → String) where
  -- The parts write a trace; `fails` says where they throw.
  abbrev pub traced : (Event Other → List (Event Other) → Bool) → Parts Other (List (Event Other))
  traced fails = record {
    digest = digest;
    submit = λ s w.
        if fails (submitted s) w
        then throws "failed" (submitted s ∷ w)
        else returns tt (submitted s ∷ w);
    request = λ s w.
        if fails (requested s) w
        then throws "failed" (requested s ∷ w)
        else returns tt (requested s ∷ w);
  }

  -- What was submitted may run by itself, and what was brought to the inbox may not.
  abbrev pub AllSorted : List (Event Other) → Type 0
  AllSorted [] = Unit {0}
  AllSorted (submitted s ∷ w) = (can_auto_run digest s ≡ true) × AllSorted w
  AllSorted (requested s ∷ w) = (can_auto_run digest s ≡ false) × AllSorted w

  module _ (fails : Event Other → List (Event Other) → Bool) where
    fire_sorted :
        (spec : RiskStep Other) (s : AutoRunScheduler Other (List (Event Other)))
        → AllSorted s.world
        → AllSorted (after (fire (traced fails) spec s)).world
    fire_sorted spec s k = go (can_auto_run digest spec) refl
      where
        either :
            (e : Event Other) (b : Bool)
            → AllSorted (e ∷ s.world)
            → AllSorted
                (after (
                  in_world s
                    (if b then throws "failed" (e ∷ s.world) else returns tt (e ∷ s.world)))).world
        either e true c = c
        either e false c = c

        go :
            (b : Bool)
            → can_auto_run digest spec ≡ b
            → AllSorted
                (after (
                  in_world s (
                    if b
                    then (traced fails).submit spec s.world
                    else (traced fails).request spec s.world))).world
        go true h = either (submitted spec) (fails (submitted spec) s.world) (h, k)
        go false h = either (requested spec) (fails (requested spec) s.world) (h, k)

    tick_entries_sorted :
        (now later : String → ℕ) (es : Table String (Entry Other))
        (s : AutoRunScheduler Other (List (Event Other)))
        → AllSorted s.world
        → AllSorted (after (tick_entries (traced fails) now later es s)).world
    unfolding tick_entries
    tick_entries_sorted now later [] s k = k
    tick_entries_sorted now later ((id, e) ∷ es) s k =
        go (leb e.due (now id)) (λ t c. tick_entries_sorted now later es t c)
      where
        go :
            (b : Bool)
            → ((t : AutoRunScheduler Other (List (Event Other)))
                → AllSorted t.world
                → AllSorted (after (tick_entries (traced fails) now later es t)).world)
            → AllSorted
                (after (
                  if b
                  then (fire (traced fails) e.spec >>= λ _.
                        tick_entries (traced fails) now later es)
                      (postpone (traced fails) (later id) id e s)
                  else tick_entries (traced fails) now later es s)).world
        go false rest = rest s k
        go true rest =
            next (fire (traced fails) e.spec (postpone (traced fails) (later id) id e s))
              (fire_sorted e.spec (postpone (traced fails) (later id) id e s) k)
          where
            next :
                (o : Outcome (AutoRunScheduler Other (List (Event Other))) (Unit {0}))
                → AllSorted (after o).world
                → AllSorted
                    (after (
                      (◌>>=◌
                          (λ (_ : AutoRunScheduler Other (List (Event Other))). o)
                          (λ _. tick_entries (traced fails) now later es))
                        s)).world
            next (returns _ t) c = rest t c
            next (throws x t) c = c

    -- Whatever the parts answer and wherever they throw, `tick` submits only steps that may run by
    -- themselves and brings only steps that may not to the inbox, if that held of the trace before.
    pub tick-AllSorted :
        (now later : String → ℕ) (s : AutoRunScheduler Other (List (Event Other)))
        → AllSorted s.world
        → AllSorted (after (tick (traced fails) now later s)).world
    unfolding tick
    tick-AllSorted now later s k = tick_entries_sorted now later s.entries s k
