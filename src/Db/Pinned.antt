-- ===== src/Db/Pinned.antt =====
-- The workers of the pinned jobs of src/odio/db.cpp. A job has a label with the worker it is pinned to.
use mathlib.Core.Path.{subst}
use osodio.Prelude.{
  ℕ, zero, suc, ◌+◌, ◌≡◌, ◌⊎◌, refl, sym, Bool, true, false, List, [], ◌∷◌, ◌++◌, Option, none,
  some, arith, Option-cases, inl, inr, replicate,
}
use osodio.Db.Pool.{
  Doing, Worker, Pool, Turn, idle, busy, gone, take_job, turn_of, get_worker, set_worker, turn,
  submit, submit_to, stop, start, fresh, begin, pin, asleep, wake, is_asleep, wake_first,
  notify_all, notify_one, wake_up,
}
use osodio.Prelude.{either}
use osodio.Db.Notified.{wake-pinned}
use osodio.Db.Turns.{none-some, injective_of_some}

module _ {A : Type 0} where
  abbrev pub Labels : Option ℕ → List (Option ℕ × A) → Type 0
  Labels l [] = Unit
  Labels l (j ∷ js) = (j.0 ≡ l) × Labels l js

  Labels-snoc :
      (l : Option ℕ) (a : A) (js : List (Option ℕ × A)) → Labels l js → Labels l (js ++ (l, a) ∷ [])
  Labels-snoc l a [] h = (refl, tt)
  Labels-snoc l a (j ∷ js) (h, hs) = (h, Labels-snoc l a js hs)

  -- A pool through the calls and the turns, in any order, with a label on every job.
  pub data Labelling (n : ℕ) : Pool (Option ℕ × A) → Type 0 where
    starts : Labelling n (start n fresh)
    submits :
        {p : Pool (Option ℕ × A)} (choice : ℕ) (a : A)
        → Labelling n p
        → Labelling n (submit choice (none, a) p)
    pins :
        {p : Pool (Option ℕ × A)} (i : ℕ) (a : A)
        → Labelling n p
        → Labelling n (submit_to i (some i, a) p)
    stops : {p : Pool (Option ℕ × A)} → Labelling n p → Labelling n (stop p)
    wakes : {p : Pool (Option ℕ × A)} (i : ℕ) → Labelling n p → Labelling n (wake_up i p)
    turns : {p q : Pool (Option ℕ × A)} (i : ℕ) → turn i p ≡ some q → Labelling n p → Labelling n q

  -- A job that was begun is pinned to no worker or to the one that began it.
  abbrev pub AtHome : List (ℕ × (Option ℕ × A)) → Type 0
  AtHome [] = Unit
  AtHome ((i, j) ∷ ran) = ((j.0 ≡ none) ⊎ (j.0 ≡ some i)) × AtHome ran

  abbrev Queues : ℕ → List (Worker (Option ℕ × A)) → Type 0
  Queues k [] = Unit
  Queues k (w ∷ ws) = Labels (some k) w.pinned × Queues (suc k) ws

  get_worker-Queues :
      (k i : ℕ) (ws : List (Worker (Option ℕ × A))) (w : Worker (Option ℕ × A))
      → get_worker i ws ≡ some w
      → Queues k ws
      → Labels (some (k + i)) w.pinned
  get_worker-Queues k i [] w e h = absurd (none-some e)
  get_worker-Queues k zero (v ∷ ws) w e (h, hs) =
      subst (λ m. Labels (some m) w.pinned) (omega arith)
        (subst (λ u. Labels (some k) u.pinned) (injective_of_some e) h)
  get_worker-Queues k (suc i) (v ∷ ws) w e (h, hs) =
      let r : Labels (some (suc k + i)) w.pinned = get_worker-Queues (suc k) i ws w e hs in
      let m : suc k + i ≡ k + suc i = omega arith in subst (λ m. Labels (some m) w.pinned) m r

  set_worker-Queues :
      (k i : ℕ) (v : Worker (Option ℕ × A)) (ws : List (Worker (Option ℕ × A)))
      → Labels (some (k + i)) v.pinned
      → Queues k ws
      → Queues k (set_worker i v ws)
  set_worker-Queues k i v [] h hs = tt
  set_worker-Queues k zero v (w ∷ ws) h (g, gs) =
      let m : k + 0 ≡ k = omega arith in (subst (λ m. Labels (some m) v.pinned) m h, gs)
  set_worker-Queues k (suc i) v (w ∷ ws) h (g, gs) =
      let m : k + suc i ≡ suc k + i = omega arith in
      (g, set_worker-Queues (suc k) i v ws (subst (λ m. Labels (some m) v.pinned) m h) gs)

  -- What a turn of worker `i` does with the labels.
  record Keeps (i : ℕ) (t : Turn (Option ℕ × A)) : Type 0 where
    shared : Labels none t.left
    own : Labels (some i) t.worker.pinned
    home : (ran : List (ℕ × (Option ℕ × A))) → AtHome ran → AtHome (begin i t.begun ran)

  turn_of-Keeps :
      (s : Bool) (i : ℕ) (js ps : List (Option ℕ × A)) (d : Doing (Option ℕ × A))
      (t : Turn (Option ℕ × A))
      → turn_of s js (record { pinned = ps; doing = d }) ≡ some t
      → Labels none js
      → Labels (some i) ps
      → Keeps i t
  unfolding turn_of take_job
  turn_of-Keeps s i js ps gone t e h k = absurd (none-some e)
  turn_of-Keeps s i js ps asleep t e h k = absurd (none-some e)
  turn_of-Keeps s i js ps (busy j) t e h k =
      subst (Keeps i) (injective_of_some e) record { shared = h; own = k; home = λ ran r. r }
  turn_of-Keeps s i js (j ∷ ps) idle t e h (k, ks) =
      subst (Keeps i) (injective_of_some e)
        record { shared = h; own = ks; home = λ ran r. (inr k, r) }
  turn_of-Keeps s i (j ∷ js) [] idle t e (h, hs) k =
      subst (Keeps i) (injective_of_some e)
        record { shared = hs; own = tt; home = λ ran r. (inl h, r) }
  turn_of-Keeps true i [] [] idle t e h k =
      subst (Keeps i) (injective_of_some e) record { shared = tt; own = tt; home = λ ran r. r }
  turn_of-Keeps false i [] [] idle t e h k =
      subst (Keeps i) (injective_of_some e) record { shared = tt; own = tt; home = λ ran r. r }

  record Tidy (p : Pool (Option ℕ × A)) : Type 0 where
    shared : Labels none p.jobs
    own : Queues 0 p.workers
    home : AtHome p.ran

  turn-Tidy : (i : ℕ) (p q : Pool (Option ℕ × A)) → turn i p ≡ some q → Tidy p → Tidy q
  unfolding turn
  turn-Tidy i p q e h = elim (Option-cases (get_worker i p.workers)) [
    | inl nobody ↦ absurd (none-some (rw (turn, nobody) at e))
    | inr (w, there) ↦ elim (Option-cases (turn_of p.stopping p.jobs w)) [
      | inl waits ↦ absurd (none-some (rw (turn, there, waits) at e))
      | inr (t, goes) ↦
          let same : 0 + i ≡ i = omega arith in
          let mine : Labels (some i) w.pinned =
            subst (λ m. Labels (some m) w.pinned) same
              (get_worker-Queues 0 i p.workers w there h.own) in
          let k : Keeps i t =
            turn_of-Keeps p.stopping i p.jobs w.pinned w.doing t goes h.shared mine in
          subst Tidy (injective_of_some (rw (turn, there, goes) at e)) record {
            shared = k.shared;
            own =
                set_worker-Queues 0 i t.worker p.workers
                  (subst (λ m. Labels (some m) t.worker.pinned) (sym same) k.own) h.own;
            home = k.home p.ran h.home;
          }
    ]
  ]

  wake-Labels :
      (l : Option ℕ) (ps : List (Option ℕ × A)) (d : Doing (Option ℕ × A))
      → Labels l ps
      → Labels l (wake (record { pinned = ps; doing = d })).pinned
  wake-Labels l ps d h = subst (Labels l) (sym (wake-pinned ps d)) h

  notify_all-Queues :
      (k : ℕ) (ws : List (Worker (Option ℕ × A))) → Queues k ws → Queues k (notify_all ws)
  unfolding notify_all
  notify_all-Queues k [] h = h
  notify_all-Queues k (w ∷ ws) (h, hs) =
      (wake-Labels (some k) w.pinned w.doing h, notify_all-Queues (suc k) ws hs)

  wake_first-Queues :
      (k : ℕ) (ws : List (Worker (Option ℕ × A))) → Queues k ws → Queues k (wake_first ws)
  unfolding wake_first
  wake_first-Queues k [] h = h
  wake_first-Queues k (w ∷ ws) (h, hs) =
      either (Queues k) (is_asleep w) (wake-Labels (some k) w.pinned w.doing h, hs)
        (h, wake_first-Queues (suc k) ws hs)

  woken-Queues :
      (k i : ℕ) (w : Worker (Option ℕ × A)) (ws : List (Worker (Option ℕ × A)))
      → get_worker i ws ≡ some w
      → Queues k ws
      → Queues k (set_worker i (wake w) ws)
  woken-Queues k i w ws e h =
      set_worker-Queues k i (wake w) ws
        (wake-Labels (some (k + i)) w.pinned w.doing (get_worker-Queues k i ws w e h)) h

  notify_one-Queues :
      (k i : ℕ) (ws : List (Worker (Option ℕ × A))) → Queues k ws → Queues k (notify_one i ws)
  unfolding notify_one
  notify_one-Queues k i ws h = elim (Option-cases (get_worker i ws)) [
    | inl nobody ↦ rw (notify_one, nobody) (wake_first-Queues k ws h)
    | inr (w, there) ↦
        rw (notify_one, there)
          (either (Queues k) (is_asleep w) (woken-Queues k i w ws there h)
            (wake_first-Queues k ws h))
  ]

  wake_up-Tidy : (i : ℕ) (p : Pool (Option ℕ × A)) → Tidy p → Tidy (wake_up i p)
  unfolding wake_up
  wake_up-Tidy i p h = elim (Option-cases (get_worker i p.workers)) [
    | inl nobody ↦ rw (wake_up, nobody) h
    | inr (w, there) ↦
        rw (wake_up, there)
          record {
            shared = h.shared;
            own = woken-Queues 0 i w p.workers there h.own;
            home = h.home;
          }
  ]

  replicate-Queues :
      (d : Doing (Option ℕ × A)) (k n : ℕ)
      → Queues k (replicate n (record { pinned = []; doing = d }))
  replicate-Queues d k zero = tt
  replicate-Queues d k (suc n) = (tt, replicate-Queues d (suc k) n)

  module _ (js : List (Option ℕ × A)) (ws : List (Worker (Option ℕ × A)))
      (ran : List (ℕ × (Option ℕ × A))) where
    abbrev at_stopping : Bool → Pool (Option ℕ × A)
    at_stopping s = record { jobs = js; workers = ws; stopping = s; ran = ran }

    submit-Tidy :
        (c : ℕ) (a : A) (s : Bool)
        → Tidy (at_stopping s)
        → Tidy (submit c (none, a) (at_stopping s))
    unfolding submit
    submit-Tidy c a true h = h
    submit-Tidy c a false h = record {
      shared = Labels-snoc none a js h.shared;
      own = notify_one-Queues 0 c ws h.own;
      home = h.home;
    }

    submit_to-Tidy :
        (i : ℕ) (a : A) (s : Bool)
        → Tidy (at_stopping s)
        → Tidy (submit_to i (some i, a) (at_stopping s))
    unfolding submit_to
    submit_to-Tidy i a true h = h
    submit_to-Tidy i a false h = elim (Option-cases (get_worker i ws)) [
      | inl nobody ↦ rw (submit_to, nobody) h
      | inr (w, there) ↦
          let same : 0 + i ≡ i = omega arith in
          let mine : Labels (some i) w.pinned =
            subst (λ m. Labels (some m) w.pinned) same (get_worker-Queues 0 i ws w there h.own) in
          rw (submit_to, there)
            record {
              shared = h.shared;
              own = notify_all-Queues 0 (set_worker i (pin (some i, a) w) ws) (
                  set_worker-Queues 0 i (pin (some i, a) w) ws
                    (subst (λ m. Labels (some m) (pin (some i, a) w).pinned) (sym same)
                      (Labels-snoc (some i) a w.pinned mine))
                    h.own);
              home = h.home;
            }
    ]

    stop-Tidy : (s : Bool) → Tidy (at_stopping s) → Tidy (stop (at_stopping s))
    unfolding stop
    stop-Tidy true h = h
    stop-Tidy false h = record {
      shared = h.shared;
      own = notify_all-Queues 0 ws h.own;
      home = h.home;
    }

  Labelling-Tidy : (n : ℕ) (p : Pool (Option ℕ × A)) → Labelling n p → Tidy p
  unfolding start
  Labelling-Tidy n p starts = record { shared = tt; own = replicate-Queues idle 0 n; home = tt }
  Labelling-Tidy n p (submits {p = o} c a r) =
      submit-Tidy o.jobs o.workers o.ran c a o.stopping (Labelling-Tidy n o r)
  Labelling-Tidy n p (pins {p = o} i a r) =
      submit_to-Tidy o.jobs o.workers o.ran i a o.stopping (Labelling-Tidy n o r)
  Labelling-Tidy n p (stops {p = o} r) =
      stop-Tidy o.jobs o.workers o.ran o.stopping (Labelling-Tidy n o r)
  Labelling-Tidy n p (wakes {p = o} i r) = wake_up-Tidy i o (Labelling-Tidy n o r)
  Labelling-Tidy n p (turns {p = o} i e r) = turn-Tidy i o p e (Labelling-Tidy n o r)

  -- After any calls and turns, a job that was begun by a worker was pinned to that worker or to none, if
  -- each job has a label with the worker it is pinned to.
  pub Labelling-AtHome : (n : ℕ) (p : Pool (Option ℕ × A)) → Labelling n p → AtHome p.ran
  Labelling-AtHome n p r = (Labelling-Tidy n p r).home
