-- ===== src/Db/Jobs.antt =====
-- The jobs that the pool of src/odio/db.cpp takes on, counted by kind.
use osodio.Prelude.{
  ℕ, zero, suc, ◌+◌, ◌≡◌, refl, sym, ◌∙◌, Bool, true, false, ◌&&◌, not, List, [], ◌∷◌, ◌++◌, Option,
  none, some, arith, length, ltb, if◌then◌else◌, replicate, Option-cases, inl, inr,
}
use mathlib.Core.Path.{subst}
use osodio.Db.Pool.{
  Doing, Worker, Pool, Turn, idle, busy, gone, take_job, turn_of, get_worker, set_worker, turn,
  submit, submit_to, stop, start, fresh, pin, begin, asleep, wake, is_asleep, wake_first,
  notify_all, notify_one, wake_up,
}
use osodio.Prelude.{ap, either}
use osodio.Db.Notified.{wake-pinned}
use osodio.Db.Turns.{none-some, injective_of_some}

module _ {J : Type 0} where
  -- A job is taken on until the stop, and a pinned one if there is such a worker; the last one is first.
  abbrev taken_on : Bool → J → List J → List J
  taken_on accepts job given = if accepts then job ∷ given else given

  -- A pool through the calls and the turns, in any order, with the jobs that it took on.
  pub data Through (n : ℕ) : List J → Pool J → Type 0 where
    starts : Through n [] (start n fresh)
    submits :
        {given : List J} {p : Pool J} (choice : ℕ) (job : J)
        → Through n given p
        → Through n (taken_on (not p.stopping) job given) (submit choice job p)
    pins :
        {given : List J} {p : Pool J} (i : ℕ) (job : J)
        → Through n given p
        → Through n
            (taken_on (not p.stopping && ltb i (length p.workers)) job given)
            (submit_to i job p)
    stops : {given : List J} {p : Pool J} → Through n given p → Through n given (stop p)
    wakes :
        {given : List J} {p : Pool J} (i : ℕ) → Through n given p → Through n given (wake_up i p)
    turns :
        {given : List J} {p q : Pool J} (i : ℕ)
        → turn i p ≡ some q
        → Through n given p
        → Through n given q

  beyond : (i : ℕ) (ws : List (Worker J)) → get_worker i ws ≡ none → ltb i (length ws) ≡ false
  beyond i [] e = ground arith
  beyond zero (w ∷ ws) e = cc
  beyond (suc i) (w ∷ ws) e = ground (arith, beyond i ws e)

  in_range :
      (i : ℕ) (ws : List (Worker J)) (w : Worker J)
      → get_worker i ws ≡ some w
      → ltb i (length ws) ≡ true
  in_range i [] w e = cc
  in_range zero (v ∷ ws) w e = ground arith
  in_range (suc i) (v ∷ ws) w e = ground (arith, in_range i ws w e)

  module _ (f : J → Bool) where
    abbrev one : J → ℕ
    one j = if f j then 1 else 0

    -- How many jobs of a kind there are.
    abbrev pub tally : List J → ℕ
    tally [] = 0
    tally (j ∷ js) = one j + tally js

    abbrev pub tally_ran : List (ℕ × J) → ℕ
    tally_ran [] = 0
    tally_ran ((i, j) ∷ ran) = one j + tally_ran ran

    abbrev pub tally_pinned : List (Worker J) → ℕ
    tally_pinned [] = 0
    tally_pinned (w ∷ ws) = tally w.pinned + tally_pinned ws

    abbrev pub tally_pool : Pool J → ℕ
    tally_pool p = tally_ran p.ran + (tally p.jobs + tally_pinned p.workers)

    tally-snoc : (js : List J) (j : J) → tally (js ++ j ∷ []) ≡ one j + tally js
    tally-snoc [] j = refl
    tally-snoc (k ∷ js) j = omega (arith, tally-snoc js j)

    tally_pinned-set_worker :
        (i : ℕ) (v w : Worker J) (ws : List (Worker J))
        → get_worker i ws ≡ some w
        → tally_pinned (set_worker i v ws) + tally w.pinned ≡ tally_pinned ws + tally v.pinned
    tally_pinned-set_worker i v w [] e = cc
    tally_pinned-set_worker zero v w (u ∷ ws) e =
        subst
          (λ x.
            tally v.pinned + tally_pinned ws + tally x.pinned
            ≡ tally u.pinned + tally_pinned ws + tally v.pinned)
          (injective_of_some e) (omega arith)
    tally_pinned-set_worker (suc i) v w (u ∷ ws) e =
        omega (arith, tally_pinned-set_worker i v w ws e)

    wake-tally :
        (ps : List J) (d : Doing J)
        → tally (wake (record { pinned = ps; doing = d })).pinned ≡ tally ps
    wake-tally ps d = ap tally (wake-pinned ps d)

    tally_pinned-notify_all :
        (ws : List (Worker J)) → tally_pinned (notify_all ws) ≡ tally_pinned ws
    unfolding notify_all
    tally_pinned-notify_all [] = refl
    tally_pinned-notify_all (w ∷ ws) =
        omega (arith, wake-tally w.pinned w.doing, tally_pinned-notify_all ws)

    tally_pinned-wake_first :
        (ws : List (Worker J)) → tally_pinned (wake_first ws) ≡ tally_pinned ws
    unfolding wake_first
    tally_pinned-wake_first [] = refl
    tally_pinned-wake_first (w ∷ ws) =
        either (λ (l : List (Worker J)). tally_pinned l ≡ tally w.pinned + tally_pinned ws)
          (is_asleep w) (omega (arith, wake-tally w.pinned w.doing))
          (omega (arith, tally_pinned-wake_first ws))

    tally_pinned-woken :
        (i : ℕ) (w : Worker J) (ws : List (Worker J))
        → get_worker i ws ≡ some w
        → tally_pinned (set_worker i (wake w) ws) ≡ tally_pinned ws
    tally_pinned-woken i w ws e =
        omega (arith, tally_pinned-set_worker i (wake w) w ws e, wake-tally w.pinned w.doing)

    tally_pinned-notify_one :
        (i : ℕ) (ws : List (Worker J)) → tally_pinned (notify_one i ws) ≡ tally_pinned ws
    unfolding notify_one
    tally_pinned-notify_one i ws = elim (Option-cases (get_worker i ws)) [
      | inl nobody ↦ rw (notify_one, nobody) (tally_pinned-wake_first ws)
      | inr (w, there) ↦
          rw (notify_one, there)
            (either (λ (l : List (Worker J)). tally_pinned l ≡ tally_pinned ws) (is_asleep w)
              (tally_pinned-woken i w ws there) (tally_pinned-wake_first ws))
    ]

    wake_up-tally : (i : ℕ) (p : Pool J) → tally_pool (wake_up i p) ≡ tally_pool p
    unfolding wake_up
    wake_up-tally i p = elim (Option-cases (get_worker i p.workers)) [
      | inl nobody ↦ rw (wake_up, nobody) refl
      | inr (w, there) ↦ rw (wake_up, there) (omega (arith, tally_pinned-woken i w p.workers there))
    ]

    tally-start : (n : ℕ) → tally_pinned (replicate n (record { pinned = []; doing = idle })) ≡ 0
    tally-start zero = refl
    tally-start (suc n) = omega (arith, tally-start n)

    -- A turn begins a job, or leaves all where they are.
    abbrev one_begun : Option J → ℕ
    one_begun none = 0
    one_begun (some j) = one j

    tally_ran-begin :
        (i : ℕ) (o : Option J) (ran : List (ℕ × J))
        → tally_ran (begin i o ran) ≡ one_begun o + tally_ran ran
    tally_ran-begin i none ran = omega arith
    tally_ran-begin i (some j) ran = refl

    abbrev Tallies : ℕ → Turn J → Type 0
    Tallies n t = one_begun t.begun + (tally t.left + tally t.worker.pinned) ≡ n

    turn_of-tally :
        (s : Bool) (js ps : List J) (d : Doing J) (t : Turn J)
        → turn_of s js (record { pinned = ps; doing = d }) ≡ some t
        → Tallies (tally js + tally ps) t
    unfolding turn_of take_job
    turn_of-tally s js ps gone t e = absurd (none-some e)
    turn_of-tally s js ps asleep t e = absurd (none-some e)
    turn_of-tally s js ps (busy j) t e = subst (Tallies _) (injective_of_some e) (omega arith)
    turn_of-tally s js (j ∷ ps) idle t e = subst (Tallies _) (injective_of_some e) (omega arith)
    turn_of-tally s (j ∷ js) [] idle t e = subst (Tallies _) (injective_of_some e) (omega arith)
    turn_of-tally true [] [] idle t e = subst (Tallies _) (injective_of_some e) (omega arith)
    turn_of-tally false [] [] idle t e = subst (Tallies _) (injective_of_some e) (omega arith)

    turn-tally : (i : ℕ) (p q : Pool J) → turn i p ≡ some q → tally_pool q ≡ tally_pool p
    unfolding turn
    turn-tally i p q e = elim (Option-cases (get_worker i p.workers)) [
      | inl nobody ↦ absurd (none-some (rw (turn, nobody) at e))
      | inr (w, there) ↦ elim (Option-cases (turn_of p.stopping p.jobs w)) [
        | inl waits ↦ absurd (none-some (rw (turn, there, waits) at e))
        | inr (t, goes) ↦
            subst (λ r. tally_pool r ≡ tally_pool p)
              (injective_of_some (rw (turn, there, goes) at e))
              (omega (
                arith,
                tally_ran-begin i t.begun p.ran,
                tally_pinned-set_worker i t.worker w p.workers there,
                turn_of-tally p.stopping p.jobs w.pinned w.doing t goes,
              ))
      ]
    ]

    module _ (js given : List J) (ws : List (Worker J)) (ran : List (ℕ × J)) where
      abbrev at_stopping : Bool → Pool J
      at_stopping s = record { jobs = js; workers = ws; stopping = s; ran = ran }

      submit-tally :
          (c : ℕ) (j : J) (s : Bool)
          → tally given ≡ tally_pool (at_stopping s)
          → tally (taken_on (not s) j given) ≡ tally_pool (submit c j (at_stopping s))
      unfolding submit
      submit-tally c j true h = h
      submit-tally c j false h = omega (arith, h, tally-snoc js j, tally_pinned-notify_one c ws)

      submit_to-tally :
          (i : ℕ) (j : J) (s : Bool)
          → tally given ≡ tally_pool (at_stopping s)
          → tally (taken_on (not s && ltb i (length ws)) j given)
            ≡ tally_pool (submit_to i j (at_stopping s))
      unfolding submit_to
      submit_to-tally i j true h = h
      submit_to-tally i j false h = elim (Option-cases (get_worker i ws)) [
        | inl nobody ↦ rw (submit_to, nobody, beyond i ws nobody) h
        | inr (w, there) ↦
            rw (submit_to, there, in_range i ws w there)
              (omega (
                arith,
                h,
                tally_pinned-notify_all (set_worker i (pin j w) ws),
                tally_pinned-set_worker i (pin j w) w ws there,
                tally-snoc w.pinned j,
              ))
      ]

      stop-tally :
          (s : Bool)
          → tally given ≡ tally_pool (at_stopping s)
          → tally given ≡ tally_pool (stop (at_stopping s))
      unfolding stop
      stop-tally true h = h
      stop-tally false h = omega (arith, h, tally_pinned-notify_all ws)

    -- At any time, after any calls and turns, of every kind of job as many were taken on as have begun or
    -- wait in a queue.
    pub Through-tally :
        (n : ℕ) (given : List J) (p : Pool J) → Through n given p → tally given ≡ tally_pool p
    unfolding start
    Through-tally n given p starts = omega (arith, tally-start n)
    Through-tally n given p (submits {given = g} {p = o} c job r) =
        submit-tally o.jobs g o.workers o.ran c job o.stopping (Through-tally n g o r)
    Through-tally n given p (pins {given = g} {p = o} i job r) =
        submit_to-tally o.jobs g o.workers o.ran i job o.stopping (Through-tally n g o r)
    Through-tally n given p (stops {given = g} {p = o} r) =
        stop-tally o.jobs g o.workers o.ran o.stopping (Through-tally n g o r)
    Through-tally n given p (wakes {given = g} {p = o} i r) =
        Through-tally n g o r ∙ sym (wake_up-tally i o)
    Through-tally n given p (turns {given = g} {p = o} i e r) =
        Through-tally n g o r ∙ sym (turn-tally i o p e)
