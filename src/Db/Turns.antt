-- ===== src/Db/Turns.antt =====
-- One turn of a worker of src/odio/db.cpp, and what is left to do before and after it.
use mathlib.Core.Path.{subst}
use osodio.Prelude.{
  ℕ, zero, suc, ◌+◌, ◌*◌, ◌<◌, ◌⊎◌, ◌≡◌, refl, ap, Bool, true, false, List, [], ◌∷◌, none, some,
  arith, length, Option-cases, inl, inr,
}
use osodio.Db.Pool.{
  Doing, Worker, Pool, Turn, idle, asleep, busy, gone, take_job, turn_of, get_worker, set_worker,
  turn,
}

pub injective_of_some {ℓ} : {A : Type ℓ} {a b : A} → some a ≡ some b → a ≡ b
injective_of_some {a = a} e = ap (λ o. elim o [ none ↦ a | some x ↦ x ]) e

pub none-some {ℓ} : {A : Type ℓ} {a : A} → none ≡ some a → ⊥
none-some e = cc

module _ {J : Type 0} where
  -- One that is gone or asleep had nothing to do when it tested.
  abbrev pub IsOver : Bool → List J → List J → Doing J → Type 0
  IsOver stopping jobs pinned gone = (stopping ≡ true) × (jobs ≡ []) × (pinned ≡ [])
  IsOver stopping jobs pinned asleep = (stopping ≡ false) × (pinned ≡ [])
  IsOver stopping jobs pinned idle = Unit
  IsOver stopping jobs pinned (busy j) = Unit

  abbrev pub AllOver : Bool → List J → List (Worker J) → Type 0
  AllOver stopping jobs [] = Unit
  AllOver stopping jobs (w ∷ ws) = IsOver stopping jobs w.pinned w.doing × AllOver stopping jobs ws

  abbrev pub IsAwake : Doing J → Type 0
  IsAwake idle = Unit
  IsAwake (busy j) = Unit
  IsAwake asleep = ⊥
  IsAwake gone = ⊥

  -- Some worker is going to test the queues.
  abbrev pub Awake : List (Worker J) → Type 0
  Awake [] = ⊥
  Awake (w ∷ ws) = IsAwake w.doing ⊎ Awake ws

  abbrev pub IsOrderly : Pool J → Type 0
  IsOrderly p = AllOver p.stopping p.jobs p.workers × ((p.jobs ≡ []) ⊎ Awake p.workers)

  IsOver-map :
      {s : Bool} {js js' : List J} (ps : List J) (d : Doing J)
      → (s ≡ true → js ≡ [] → js' ≡ [])
      → IsOver s js ps d
      → IsOver s js' ps d
  IsOver-map ps idle g h = h
  IsOver-map ps (busy j) g h = h
  IsOver-map ps asleep g h = h
  IsOver-map ps gone g (s, js, p) = (s, g s js, p)

  pub AllOver-map :
      {s : Bool} {js js' : List J} (ws : List (Worker J))
      → (s ≡ true → js ≡ [] → js' ≡ [])
      → AllOver s js ws
      → AllOver s js' ws
  AllOver-map [] g h = h
  AllOver-map (w ∷ ws) g (h, k) = (IsOver-map w.pinned w.doing g h, AllOver-map ws g k)

  pub set_worker-Awake :
      (i : ℕ) (v w : Worker J) (ws : List (Worker J))
      → get_worker i ws ≡ some w
      → IsAwake v.doing
      → Awake (set_worker i v ws)
  set_worker-Awake i v w [] e h = cc
  set_worker-Awake zero v w (u ∷ ws) e h = inl h
  set_worker-Awake (suc i) v w (u ∷ ws) e h = inr (set_worker-Awake i v w ws e h)

  pub set_worker-AllOver :
      (s : Bool) (js : List J) (i : ℕ) (v : Worker J) (ws : List (Worker J))
      → IsOver s js v.pinned v.doing
      → AllOver s js ws
      → AllOver s js (set_worker i v ws)
  set_worker-AllOver s js i v [] h k = k
  set_worker-AllOver s js zero v (w ∷ ws) h (k, ks) = (h, ks)
  set_worker-AllOver s js (suc i) v (w ∷ ws) h (k, ks) = (k, set_worker-AllOver s js i v ws h ks)

  pub get_worker-AllOver :
      (s : Bool) (js : List J) (i : ℕ) (ws : List (Worker J)) (w : Worker J)
      → get_worker i ws ≡ some w
      → AllOver s js ws
      → IsOver s js w.pinned w.doing
  get_worker-AllOver s js i [] w e h = cc
  get_worker-AllOver s js zero (v ∷ ws) w e (h, k) =
      subst (λ u. IsOver s js u.pinned u.doing) (injective_of_some e) h
  get_worker-AllOver s js (suc i) (v ∷ ws) w e (h, k) = get_worker-AllOver s js i ws w e k

  -- What is left to do, for one worker and for the pool.
  abbrev pub weight_of : Doing J → ℕ
  weight_of gone = 0
  weight_of asleep = 0
  weight_of idle = 1
  weight_of (busy j) = 2

  abbrev pub weight : Worker J → ℕ
  weight w = 2 * length w.pinned + weight_of w.doing

  record Turned (s : Bool) (js : List J) (w : Worker J) (t : Turn J) : Type 0 where
    over : IsOver s t.left t.worker.pinned t.worker.doing
    emptied : js ≡ [] → t.left ≡ []
    tests : (t.left ≡ []) ⊎ IsAwake t.worker.doing
    lighter : 2 * length t.left + weight t.worker < 2 * length js + weight w

  turn_of-Turned :
      (s : Bool) (js ps : List J) (d : Doing J) (t : Turn J)
      → turn_of s js (record { pinned = ps; doing = d }) ≡ some t
      → Turned s js (record { pinned = ps; doing = d }) t
  unfolding turn_of take_job
  turn_of-Turned s js ps gone t e = cc
  turn_of-Turned s js ps asleep t e = cc
  turn_of-Turned s js ps (busy j) t e =
      subst (Turned s js _) (injective_of_some e)
        record { over = tt; emptied = λ h. h; tests = inr tt; lighter = omega arith }
  turn_of-Turned s js (j ∷ ps) idle t e =
      subst (Turned s js _) (injective_of_some e)
        record { over = tt; emptied = λ h. h; tests = inr tt; lighter = omega arith }
  turn_of-Turned s (j ∷ js) [] idle t e =
      subst (Turned s (j ∷ js) _) (injective_of_some e)
        record { over = tt; emptied = λ h. cc; tests = inr tt; lighter = omega arith }
  turn_of-Turned true [] [] idle t e = subst (Turned true [] _) (injective_of_some e) record {
    over = (refl, refl, refl);
    emptied = λ h. h;
    tests = inl refl;
    lighter = omega arith;
  }
  turn_of-Turned false [] [] idle t e =
      subst (Turned false [] _) (injective_of_some e)
        record { over = (refl, refl); emptied = λ h. h; tests = inl refl; lighter = omega arith }

  -- What is left to do in the whole pool.
  abbrev weights : List (Worker J) → ℕ
  weights [] = 0
  weights (w ∷ ws) = weight w + weights ws

  abbrev pub load : Pool J → ℕ
  load p = 2 * length p.jobs + weights p.workers

  weights-set_worker :
      (i : ℕ) (v w : Worker J) (ws : List (Worker J))
      → get_worker i ws ≡ some w
      → weights (set_worker i v ws) + weight w ≡ weights ws + weight v
  weights-set_worker i v w [] e = cc
  weights-set_worker zero v w (u ∷ ws) e =
      subst (λ x. weight v + weights ws + weight x ≡ weight u + weights ws + weight v)
        (injective_of_some e) (omega arith)
  weights-set_worker (suc i) v w (u ∷ ws) e = omega (arith, weights-set_worker i v w ws e)

  pub length-set_worker :
      (i : ℕ) (v : Worker J) (ws : List (Worker J)) → length (set_worker i v ws) ≡ length ws
  length-set_worker i v [] = refl
  length-set_worker zero v (w ∷ ws) = refl
  length-set_worker (suc i) v (w ∷ ws) = ap suc (length-set_worker i v ws)

  pub record Moved (p q : Pool J) : Type 0 where
    pub orderly : IsOrderly q
    pub lighter : load q < load p
    pub same_end : q.stopping ≡ p.stopping

  set-Moved :
      (i : ℕ) (p : Pool J) (w : Worker J) (t : Turn J) (log : List (ℕ × J))
      → get_worker i p.workers ≡ some w
      → Turned p.stopping p.jobs w t
      → IsOrderly p
      → Moved p (record p { jobs = t.left; workers = set_worker i t.worker p.workers; ran = log })
  set-Moved i p w t log there k h = record {
    orderly = (
      set_worker-AllOver p.stopping t.left i t.worker p.workers k.over
          (AllOver-map p.workers (λ e. k.emptied) h.0),
      elim k.tests [
        | inl done ↦ inl done
        | inr awake ↦ inr (set_worker-Awake i t.worker w p.workers there awake)
      ],
    );
    lighter = omega (arith, weights-set_worker i t.worker w p.workers there, k.lighter);
    same_end = refl;
  }

  -- A turn leaves less to do.
  pub turn-Moved : (i : ℕ) (p q : Pool J) → turn i p ≡ some q → IsOrderly p → Moved p q
  unfolding turn
  turn-Moved i p q e h = elim (Option-cases (get_worker i p.workers)) [
    | inl nobody ↦ absurd (none-some (rw (turn, nobody) at e))
    | inr (w, there) ↦ elim (Option-cases (turn_of p.stopping p.jobs w)) [
      | inl waits ↦ absurd (none-some (rw (turn, there, waits) at e))
      | inr (t, goes) ↦
          let k : Turned p.stopping p.jobs w t =
            turn_of-Turned p.stopping p.jobs w.pinned w.doing t goes in
          subst (Moved p) (injective_of_some (rw (turn, there, goes) at e))
            (set-Moved i p w t _ there k h)
    ]
  ]

  pub turn-number : (i : ℕ) (p q : Pool J) → turn i p ≡ some q → length q.workers ≡ length p.workers
  unfolding turn
  turn-number i p q e = elim (Option-cases (get_worker i p.workers)) [
    | inl nobody ↦ absurd (none-some (rw (turn, nobody) at e))
    | inr (w, there) ↦ elim (Option-cases (turn_of p.stopping p.jobs w)) [
      | inl waits ↦ absurd (none-some (rw (turn, there, waits) at e))
      | inr (t, goes) ↦
          subst (λ r. length r.workers ≡ length p.workers)
            (injective_of_some (rw (turn, there, goes) at e))
            (length-set_worker i t.worker p.workers)
    ]
  ]
