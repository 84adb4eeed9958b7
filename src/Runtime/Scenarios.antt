-- ===== src/Runtime/Scenarios.antt =====
-- A runtime that is retired under its last request.
use nina.Prelude.{◌+◌, ◌≡◌, refl, true, false, arith, str_eq}
use nina.Runtime.{
  Life, fresh, acquire_add, acquire_load, release_served, release_load, retire_store, retire_load,
  add, load, release, leave, retire, look, Reach, begin, next,
}
use nina.Runtime.Draining.{IsSettled, Always, overtaken, closed-after_drain, overtaken-closed}

-- One request is served.
abbrev one_served : Life
one_served = record fresh { refs = 1; serving = 1 }

one_served-Reach : Reach Always one_served
unfolding acquire_add acquire_load
one_served-Reach = next (next begin (add fresh)) (load _ (omega arith))

overtaken-closed_example :
    Reach Always (overtaken one_served)
    × ((overtaken one_served).closed ≡ true)
    × ((overtaken one_served).serving ≡ 1)
    × ((overtaken one_served).expired ≡ one_served.expired)
overtaken-closed_example = overtaken-closed one_served one_served-Reach refl refl refl refl

-- It leaves, and the runtime is retired.
abbrev closed : Life
closed = retire_load (retire_store (release_load (release_served one_served)))

closed-Reach : Reach IsSettled closed
unfolding acquire_add acquire_load release_served release_load retire_store retire_load
closed-Reach =
    next
      (next
        (next
          (next (next (next begin (add fresh)) (load _ (omega arith))) (release _ (omega arith)))
          (leave _ (omega arith)))
        (retire _ refl refl))
      (look _ refl)

closed-after_drain_example :
    (closed.refs ≡ closed.entering + closed.refusing + closed.serving)
    × (closed.retired ≡ true → (acquire_load closed).serving ≡ closed.serving)
    × (closed.closed ≡ true → closed.expired ≡ false → closed.serving ≡ 0)
closed-after_drain_example = closed-after_drain closed-Reach
