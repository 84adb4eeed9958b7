-- ===== src/Runtime/Draining.antt =====
-- When a runtime is closed.
use nina.Prelude.{◌+◌, ◌<◌, ◌≡◌, true, false, arith}
use nina.Runtime.{
  Life, in_use, retiring, draining, acquire_add, acquire_load, release_served, release_refused,
  release_load, retire_store, retire_load, drain_tick, drain_deadline, Step, add, load, release,
  refuse, leave, retire, look, tick, deadline, Reach, begin, next,
}

-- No call of Release is between its count and its look at `retired`.
abbrev pub IsSettled : Life → Type 0
IsSettled l = l.leaving ≡ 0

record IsSafe (l : Life) : Type 0 where
  counted : l.refs ≡ l.entering + l.refusing + l.serving
  unretired : l.retired ≡ false → l.closed ≡ false
  shut : l.closed ≡ true → l.expired ≡ false → l.serving ≡ 0
  last : l.retired ≡ true → 0 < l.leaving → l.expired ≡ false → l.serving ≡ 0
  phased : l.phase ≡ in_use → l.retired ≡ false
  unexpired : l.retired ≡ false → l.expired ≡ false
  retired_after : l.phase ≡ retiring → l.retired ≡ true
  drained : l.phase ≡ draining → l.retired ≡ true

Step-IsSafe : {l m : Life} → Step IsSettled l m → IsSafe l → IsSafe m
unfolding acquire_add acquire_load release_served release_refused release_load retire_store
    retire_load drain_tick drain_deadline
Step-IsSafe (add l) s = ground arith
Step-IsSafe (load l h) s = ground arith
Step-IsSafe (release l h) s = ground arith
Step-IsSafe (refuse l h) s = ground arith
Step-IsSafe (leave l h) s = ground arith
Step-IsSafe (retire l h c) s = ground arith
Step-IsSafe (look l h) s = ground arith
Step-IsSafe (tick l h) s = ground arith
Step-IsSafe (deadline l h) s = ground arith

Reach-IsSafe : {l : Life} → Reach IsSettled l → IsSafe l
Reach-IsSafe begin = ground arith
Reach-IsSafe (next r st) = Step-IsSafe st (Reach-IsSafe r)

-- In every state that is reached, as long as Retire begins while no Release is between its count and
-- its look at `retired`: `refs` counts the requests that have added themselves; once the runtime is
-- retired, a request that enters is refused; and the runtime is not closed while a request holds it,
-- unless the grace period has ended.
pub closed-after_drain :
    {l : Life}
    → Reach IsSettled l
    → (l.refs ≡ l.entering + l.refusing + l.serving)
      × (l.retired ≡ true → (acquire_load l).serving ≡ l.serving)
      × (l.closed ≡ true → l.expired ≡ false → l.serving ≡ 0)
unfolding acquire_load
closed-after_drain r = let s = Reach-IsSafe r in (s.counted, ground arith, s.shut)

abbrev pub Always : Life → Type 0
Always l = Unit

-- The last request counts down, another one is admitted, Retire begins, and then the first looks at
-- `retired`.
abbrev pub overtaken : Life → Life
overtaken l =
    release_load (retire_load (retire_store (acquire_load (acquire_add (release_served l)))))

-- If Retire begins while a Release is between its count and its look at `retired`, the runtime can be
-- closed under a request: from any state that is reached in which one request holds a runtime in use
-- and no other has added itself, the request can leave so that another one holds the runtime while
-- it is closed, with no grace period ended by it.
pub overtaken-closed :
    (l : Life)
    → Reach Always l
    → l.phase ≡ in_use
    → l.retired ≡ false
    → l.refs ≡ 1
    → l.serving ≡ 1
    → Reach Always (overtaken l)
      × ((overtaken l).closed ≡ true)
      × ((overtaken l).serving ≡ 1)
      × ((overtaken l).expired ≡ l.expired)
unfolding acquire_add acquire_load release_served release_load retire_store retire_load
overtaken-closed l r p t one held = (
  next
      (next
        (next
          (next (next (next r (release l (omega (arith, held)))) (add _)) (load _ (omega arith)))
          (retire _ (ground (arith, p, t)) tt))
        (look _ (ground (arith, t))))
      (leave _ (ground (arith, one, t))),
  ground arith,
  ground arith,
  ground arith,
)
