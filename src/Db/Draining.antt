-- ===== src/Db/Draining.antt =====
-- The turns of the workers of src/odio/db.cpp while no more calls come.
use mathlib.Core.Bool.{false≢true}
use mathlib.Core.Path.{subst}
use osodio.Prelude.{
  ℕ, zero, suc, ◌<◌, ◌⊎◌, ◌≡◌, refl, sym, Bool, true, false, List, [], ◌∷◌, some, arith,
  Option-cases, inl, inr,
}
use osodio.Db.Pool.{
  Doing, Worker, Pool, Turn, idle, asleep, busy, gone, take_job, turn_of, get_worker, turn,
}
use osodio.Db.Orderly.{Reached, Reached-IsOrderly}
use osodio.Db.Turns.{IsOver, AllOver, IsAwake, Awake, IsOrderly, load, Moved, turn-Moved, none-some}

module _ {J : Type 0} where
  -- Every sequence of turns comes to a pool where `P` holds; until then some worker has a turn.
  pub data Inevitably (P : Pool J → Type 0) : Pool J → Type 0 where
    now : {p : Pool J} → P p → Inevitably P p
    later :
        {p : Pool J} (i : ℕ) (q : Pool J)
        → turn i p ≡ some q
        → ((j : ℕ) (r : Pool J) → turn j p ≡ some r → Inevitably P r)
        → Inevitably P p

  -- A worker without jobs of its own, at its end if the pool is to stop and asleep if not.
  abbrev pub AtRest : Bool → Worker J → Type 0
  AtRest true w = (w.doing ≡ gone) × (w.pinned ≡ [])
  AtRest false w = (w.doing ≡ asleep) × (w.pinned ≡ [])

  abbrev pub AllAtRest : Bool → List (Worker J) → Type 0
  AllAtRest stopping [] = Unit
  AllAtRest stopping (w ∷ ws) = AtRest stopping w × AllAtRest stopping ws

  -- No job waits or runs, and every thread is at rest.
  abbrev pub Drained : Pool J → Type 0
  Drained p = (p.jobs ≡ []) × AllAtRest p.stopping p.workers

  worker_turns :
      (s : Bool) (js ps : List J) (d : Doing J)
      → IsOver s js ps d
      → ((t : Turn J) × (turn_of s js (record { pinned = ps; doing = d }) ≡ some t))
        ⊎ AtRest s (record { pinned = ps; doing = d })
  unfolding turn_of take_job
  worker_turns true js ps gone (s, e, r) = inr (refl, r)
  worker_turns false js ps gone (s, e, r) = absurd (false≢true s)
  worker_turns true js ps asleep (s, r) = absurd (false≢true (sym s))
  worker_turns false js ps asleep (s, r) = inr (refl, r)
  worker_turns s js ps (busy j) h = inl (_, refl)
  worker_turns s js (p ∷ ps) idle h = inl (_, refl)
  worker_turns s (j ∷ js) [] idle h = inl (_, refl)
  worker_turns true [] [] idle h = inl (_, refl)
  worker_turns false [] [] idle h = inl (_, refl)

  -- A worker has a turn, or all are at rest.
  turns-AllAtRest :
      (s : Bool) (js : List J) (ws : List (Worker J))
      → AllOver s js ws
      → ((i : ℕ) × (w : Worker J) × (t : Turn J) × (get_worker i ws ≡ some w)
          × (turn_of s js w ≡ some t))
        ⊎ AllAtRest s ws
  turns-AllAtRest s js [] h = inr tt
  turns-AllAtRest s js (w ∷ ws) (h, hs) = elim (worker_turns s js w.pinned w.doing h) [
    | inl (t, goes) ↦ inl (0, w, t, refl, goes)
    | inr rests ↦ elim (turns-AllAtRest s js ws hs) [
      | inl (i, v, t, there, goes) ↦ inl (suc i, v, t, there, goes)
      | inr all ↦ inr (rests, all)
    ]
  ]

  rest-asleep : (s : Bool) (w : Worker J) → AtRest s w → IsAwake w.doing → ⊥
  rest-asleep true w (over, left) a = subst IsAwake over a
  rest-asleep false w (over, left) a = subst IsAwake over a

  all_asleep : (s : Bool) (ws : List (Worker J)) → AllAtRest s ws → Awake ws → ⊥
  all_asleep s [] h a = a
  all_asleep s (w ∷ ws) (h, hs) (inl a) = rest-asleep s w h a
  all_asleep s (w ∷ ws) (h, hs) (inr a) = all_asleep s ws hs a

  jobs_done : (p : Pool J) → IsOrderly p → AllAtRest p.stopping p.workers → p.jobs ≡ []
  jobs_done p (h, inl done) rests = done
  jobs_done p (h, inr awake) rests = absurd (all_asleep p.stopping p.workers rests awake)

  drains_within : (bound : ℕ) (p : Pool J) → load p < bound → IsOrderly p → Inevitably Drained p
  unfolding turn
  drains_within zero p lt h = absurd (omega arith)
  drains_within (suc bound) p lt h = elim (turns-AllAtRest p.stopping p.jobs p.workers h.0) [
    | inr all ↦ now (jobs_done p h all, all)
    | inl (i, w, t, there, goes) ↦ elim (Option-cases (turn i p)) [
      | inl none_left ↦ absurd (none-some (sym (rw (turn, there, goes) at none_left)))
      | inr (q, taken) ↦ later i q taken (λ j r e.
          let m : Moved p r = turn-Moved j p r e h in
          drains_within bound r (omega (arith, m.lighter, lt)) m.orderly)
    ]
  ]

  -- At any time, after any calls, turns and wake-ups of a pool with at least one worker: in whatever order
  -- the workers take their turns from then on, some worker has a turn until no job waits or runs, and then
  -- each worker sleeps, or is at its end if the pool is to stop.
  pub Reached-drains : (n : ℕ) (p : Pool J) → Reached (suc n) p → Inevitably Drained p
  Reached-drains n p r = drains_within (suc (load p)) p (omega arith) (Reached-IsOrderly n p r)
