-- ===== src/Db/Orderly.antt =====
-- A pool of src/odio/db.cpp through its calls and turns, in any order.
use mathlib.Core.Bool.{false≢true}
use mathlib.Core.Path.{subst}
use osodio.Prelude.{
  ℕ, zero, suc, ◌≡◌, ◌≢◌, refl, ap, sym, ◌∙◌, Bool, true, false, List, [], ◌∷◌, some, arith, length,
  length-replicate, replicate, Option-cases, inl, inr,
}
use osodio.Db.Pool.{
  Doing, Worker, Pool, idle, asleep, busy, gone, get_worker, set_worker, turn, submit, submit_to,
  stop, start, fresh, wake, wake_up, pin,
}
use osodio.Db.Turns.{
  IsOver, AllOver, AllOver-map, IsAwake, Awake, set_worker-AllOver, get_worker-AllOver, IsOrderly,
  turn-Moved, turn-number, length-set_worker, injective_of_some,
}
use osodio.Db.Notified.{
  AllHere, AllOver-AllHere, notify_all-AllOver, notify_all-Awake, notify_one-AllOver,
  notify_one-Awake, set_worker-AllHere, get_worker-AllHere, length-notify_all, length-notify_one,
}

module _ {J : Type 0} where
  -- A pool through the calls and the turns, in any order, from a start with `n` workers.
  pub data Reached (n : ℕ) : Pool J → Type 0 where
    starts : Reached n (start n fresh)
    submits : {p : Pool J} (choice : ℕ) (j : J) → Reached n p → Reached n (submit choice j p)
    pins : {p : Pool J} (i : ℕ) (j : J) → Reached n p → Reached n (submit_to i j p)
    stops : {p : Pool J} → Reached n p → Reached n (stop p)
    wakes : {p : Pool J} (i : ℕ) → Reached n p → Reached n (wake_up i p)
    turns : {p q : Pool J} (i : ℕ) → turn i p ≡ some q → Reached n p → Reached n q

  replicate-AllOver :
      (s : Bool) (js : List J) (n : ℕ)
      → AllOver s js (replicate n (record { pinned = []; doing = idle }))
  replicate-AllOver s js zero = tt
  replicate-AllOver s js (suc n) = (tt, replicate-AllOver s js n)

  wake-IsOver :
      (s : Bool) (js ps : List J) (d : Doing J)
      → IsOver s js ps d
      → let w = wake (record { pinned = ps; doing = d }) in IsOver s js w.pinned w.doing
  wake-IsOver s js ps idle h = h
  wake-IsOver s js ps (busy j) h = h
  wake-IsOver s js ps asleep h = tt
  wake-IsOver s js ps gone h = h

  wake-IsAwake :
      (ps : List J) (d : Doing J)
      → IsAwake d
      → IsAwake (wake (record { pinned = ps; doing = d })).doing
  wake-IsAwake ps idle h = h
  wake-IsAwake ps (busy j) h = h
  wake-IsAwake ps asleep h = tt
  wake-IsAwake ps gone h = h

  woken-Awake :
      (i : ℕ) (w : Worker J) (ws : List (Worker J))
      → get_worker i ws ≡ some w
      → Awake ws
      → Awake (set_worker i (wake w) ws)
  woken-Awake i w [] e h = absurd h
  woken-Awake zero w (v ∷ ws) e (inl h) =
      inl (
        subst (λ u. IsAwake (wake u).doing) (injective_of_some e) (wake-IsAwake v.pinned v.doing h))
  woken-Awake zero w (v ∷ ws) e (inr h) = inr h
  woken-Awake (suc i) w (v ∷ ws) e (inl h) = inl h
  woken-Awake (suc i) w (v ∷ ws) e (inr h) = inr (woken-Awake i w ws e h)

  wake_up-IsOrderly : (i : ℕ) (p : Pool J) → IsOrderly p → IsOrderly (wake_up i p)
  unfolding wake_up
  wake_up-IsOrderly i p h = elim (Option-cases (get_worker i p.workers)) [
    | inl nobody ↦ rw (wake_up, nobody) h
    | inr (w, there) ↦
        rw (wake_up, there)
          (
            set_worker-AllOver p.stopping p.jobs i (wake w) p.workers
                (wake-IsOver p.stopping p.jobs w.pinned w.doing
                  (get_worker-AllOver p.stopping p.jobs i p.workers w there h.0))
                h.0,
            elim h.1 [
              | inl done ↦ inl done
              | inr awake ↦ inr (woken-Awake i w p.workers there awake)
            ],
          )
  ]

  set_worker-there :
      (i : ℕ) (v : Worker J) (ws : List (Worker J)) → ws ≢ [] → set_worker i v ws ≢ []
  set_worker-there i v [] h = h
  set_worker-there zero v (w ∷ ws) h = λ e. cc
  set_worker-there (suc i) v (w ∷ ws) h = λ e. cc

  module _ (js : List J) (ws : List (Worker J)) (ran : List (ℕ × J)) (some_there : ws ≢ []) where
    abbrev at_stopping : Bool → Pool J
    at_stopping s = record { jobs = js; workers = ws; stopping = s; ran = ran }

    submit-IsOrderly :
        (choice : ℕ) (j : J) (s : Bool)
        → IsOrderly (at_stopping s)
        → IsOrderly (submit choice j (at_stopping s))
    unfolding submit
    submit-IsOrderly choice j true h = h
    submit-IsOrderly choice j false (h, a) =
        let here : AllHere ws = AllOver-AllHere js ws h in
        (
          notify_one-AllOver choice false _ ws here (AllOver-map ws (λ e. absurd (false≢true e)) h),
          inr (notify_one-Awake choice ws some_there here),
        )

    submit_to-IsOrderly :
        (i : ℕ) (j : J) (s : Bool)
        → IsOrderly (at_stopping s)
        → IsOrderly (submit_to i j (at_stopping s))
    unfolding submit_to
    submit_to-IsOrderly i j true h = h
    submit_to-IsOrderly i j false (h, a) = elim (Option-cases (get_worker i ws)) [
      | inl nobody ↦ rw (submit_to, nobody) (h, a)
      | inr (w, there) ↦
          let here : AllHere ws = AllOver-AllHere js ws h in
          let still : AllHere (set_worker i (pin j w) ws) =
            set_worker-AllHere i (pin j w) ws (get_worker-AllHere i ws w there here) here in
          rw (submit_to, there)
            (
              notify_all-AllOver false js _ still,
              inr (notify_all-Awake _ (set_worker-there i (pin j w) ws some_there) still),
            )
    ]

    stop-IsOrderly : (s : Bool) → IsOrderly (at_stopping s) → IsOrderly (stop (at_stopping s))
    unfolding stop
    stop-IsOrderly true h = h
    stop-IsOrderly false (h, a) =
        let here : AllHere ws = AllOver-AllHere js ws h in
        (notify_all-AllOver true js ws here, inr (notify_all-Awake ws some_there here))

  module _ (js : List J) (ws : List (Worker J)) (ran : List (ℕ × J)) where
    submit-number :
        (choice : ℕ) (j : J) (s : Bool)
        → length
            (submit choice j (record { jobs = js; workers = ws; stopping = s; ran = ran })).workers
          ≡ length ws
    unfolding submit
    submit-number choice j true = refl
    submit-number choice j false = length-notify_one choice ws

    submit_to-number :
        (i : ℕ) (j : J) (s : Bool)
        → length
            (submit_to i j (record { jobs = js; workers = ws; stopping = s; ran = ran })).workers
          ≡ length ws
    unfolding submit_to
    submit_to-number i j true = refl
    submit_to-number i j false = elim (Option-cases (get_worker i ws)) [
      | inl nobody ↦ rw (submit_to, nobody) refl
      | inr (w, there) ↦
          rw (submit_to, there)
            (length-notify_all (set_worker i (pin j w) ws) ∙ length-set_worker i (pin j w) ws)
    ]

    stop-number :
        (s : Bool)
        → length (stop (record { jobs = js; workers = ws; stopping = s; ran = ran })).workers
          ≡ length ws
    unfolding stop
    stop-number true = refl
    stop-number false = length-notify_all ws

  wake_up-number : (i : ℕ) (p : Pool J) → length (wake_up i p).workers ≡ length p.workers
  unfolding wake_up
  wake_up-number i p = elim (Option-cases (get_worker i p.workers)) [
    | inl nobody ↦ rw (wake_up, nobody) refl
    | inr (w, there) ↦ rw (wake_up, there) (length-set_worker i (wake w) p.workers)
  ]

  Reached-number : (n : ℕ) (p : Pool J) → Reached n p → length p.workers ≡ n
  unfolding start
  Reached-number n p starts = length-replicate n _
  Reached-number n p (submits {p = o} c j r) =
      submit-number o.jobs o.workers o.ran c j o.stopping ∙ Reached-number n o r
  Reached-number n p (pins {p = o} i j r) =
      submit_to-number o.jobs o.workers o.ran i j o.stopping ∙ Reached-number n o r
  Reached-number n p (stops {p = o} r) =
      stop-number o.jobs o.workers o.ran o.stopping ∙ Reached-number n o r
  Reached-number n p (wakes {p = o} i r) = wake_up-number i o ∙ Reached-number n o r
  Reached-number n p (turns {p = o} i e r) = turn-number i o p e ∙ Reached-number n o r

  Reached-there : (n : ℕ) (p : Pool J) → Reached (suc n) p → p.workers ≢ []
  Reached-there n p r none_there =
      absurd (omega (arith, sym (ap length none_there) ∙ Reached-number (suc n) p r))

  -- A pool with a worker is orderly at any time.
  pub Reached-IsOrderly : (n : ℕ) (p : Pool J) → Reached (suc n) p → IsOrderly p
  unfolding start
  Reached-IsOrderly n p starts = (replicate-AllOver false [] (suc n), inl refl)
  Reached-IsOrderly n p (submits {p = o} c j r) =
      submit-IsOrderly o.jobs o.workers o.ran (Reached-there n o r) c j o.stopping
        (Reached-IsOrderly n o r)
  Reached-IsOrderly n p (pins {p = o} i j r) =
      submit_to-IsOrderly o.jobs o.workers o.ran (Reached-there n o r) i j o.stopping
        (Reached-IsOrderly n o r)
  Reached-IsOrderly n p (stops {p = o} r) =
      stop-IsOrderly o.jobs o.workers o.ran (Reached-there n o r) o.stopping
        (Reached-IsOrderly n o r)
  Reached-IsOrderly n p (wakes {p = o} i r) = wake_up-IsOrderly i o (Reached-IsOrderly n o r)
  Reached-IsOrderly n p (turns {p = o} i e r) =
      (turn-Moved i o p e (Reached-IsOrderly n o r)).orderly
