-- ===== src/Db/Tests.antt =====
-- A run of the pool of src/odio/db.cpp.
use osodio.Prelude.{ℕ, ◌≡◌, refl, [], ◌∷◌, none, some, ltb, Option}
use osodio.Db.Pool.{
  Pool, turn, turn_of, take_job, submit, submit_to, stop, start, fresh, notify_one, notify_all,
  wake_first, gone,
}
use osodio.Db.Orderly.{Reached, starts, submits, pins, stops, turns}
use osodio.Db.Draining.{Inevitably, Drained, Reached-drains}
use osodio.Db.Jobs
use osodio.Db.Pinned

-- Two workers; the second one has a job of its own and the first one is in a job at the stop.
abbrev begun : Pool ℕ
begun = submit 1 9 (submit_to 1 8 (submit 0 7 (start 2 fresh)))

abbrev after : ℕ → Pool ℕ → Pool ℕ
after i p = elim (turn i p) [ none ↦ p | some q ↦ q ]

jobs_first : (after 1 (after 0 begun)).ran ≡ (1, 8) ∷ (0, 7) ∷ []
unfolding turn turn_of take_job submit submit_to notify_one notify_all wake_first start
jobs_first = refl

moved : turn 0 begun ≡ some (after 0 begun)
unfolding turn turn_of take_job submit submit_to notify_one notify_all wake_first start
moved = refl

reached : Reached 2 (stop (after 0 begun))
reached = stops (turns 0 moved (submits 1 9 (pins 1 8 (submits 0 7 starts))))

Reached-drains_example : Inevitably Drained (stop (after 0 begun))
Reached-drains_example = Reached-drains 1 (stop (after 0 begun)) reached

-- A worker that sleeps is woken by the stop.
sleeper_woken :
    (after 0 (stop (after 0 (start 1 (fresh {J = ℕ}))))).workers
    ≡ record { pinned = []; doing = gone } ∷ []
unfolding turn turn_of take_job stop notify_all start
sleeper_woken = refl

taken : Jobs.Through 2 (9 ∷ 8 ∷ 7 ∷ []) (stop (after 0 begun))
unfolding turn turn_of take_job submit submit_to notify_one notify_all wake_first start stop
taken =
    Jobs.stops (Jobs.turns 0 refl (Jobs.submits 1 9 (Jobs.pins 1 8 (Jobs.submits 0 7 Jobs.starts))))

Through-tally_example :
    Jobs.tally (λ j. ltb 7 j) (9 ∷ 8 ∷ 7 ∷ [])
    ≡ Jobs.tally_pool (λ j. ltb 7 j) (stop (after 0 begun))
Through-tally_example =
    Jobs.Through-tally (λ j. ltb 7 j) 2 (9 ∷ 8 ∷ 7 ∷ []) (stop (after 0 begun)) taken

-- Worker 1 begins the job that is pinned to it, and worker 0 another one.
abbrev labelled : Pool (Option ℕ × ℕ)
labelled = submit_to 1 (some 1, 8) (submit 0 (none, 7) (start 2 fresh))

abbrev next : ℕ → Pool (Option ℕ × ℕ) → Pool (Option ℕ × ℕ)
next i p = elim (turn i p) [ none ↦ p | some q ↦ q ]

labelling : Pinned.Labelling 2 (next 0 (next 1 labelled))
unfolding turn turn_of take_job submit submit_to notify_one notify_all wake_first start
labelling =
    Pinned.turns 0 refl (Pinned.turns 1 refl (Pinned.pins 1 8 (Pinned.submits 0 7 Pinned.starts)))

Labelling-AtHome_example : Pinned.AtHome (next 0 (next 1 labelled)).ran
Labelling-AtHome_example = Pinned.Labelling-AtHome 2 (next 0 (next 1 labelled)) labelling
