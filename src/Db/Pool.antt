-- ===== src/Db/Pool.antt =====
-- `DbPool` of src/odio/db.cpp: the threads as workers that take turns in any order.
use osodio.Prelude.{
  ℕ, zero, suc, Bool, true, false, List, [], ◌∷◌, ◌++◌, Option, none, some, if◌then◌else◌,
  replicate,
}

module _ (J : Type 0) where
  -- Where the thread of a worker is: before its test at the lock, asleep in `cv_.wait`, in a job, or at
  -- its end.
  pub data Doing : Type 0 where
    idle asleep gone : Doing
    busy : J → Doing

  -- A worker, with the jobs that only it may take.
  pub record Worker : Type 0 where
    pub pinned : List J
    pub doing : Doing

  -- The jobs that were begun are in `ran` with their worker, the last one first.
  pub record Pool : Type 0 where
    pub jobs : List J
    pub workers : List Worker
    pub stopping : Bool
    pub ran : List (ℕ × J)

  pub record Turn : Type 0 where
    pub worker : Worker
    pub left : List J
    pub begun : Option J

module _ {J : Type 0} where
  abbrev pub is_empty : List J → Bool
  is_empty [] = true
  is_empty (j ∷ js) = false

  -- A worker tests at the lock: its own jobs come first, and with nothing to do it sleeps.
  unfoldable pub take_job : Bool → List J → List J → Option (Turn J)
  take_job stopping jobs (j ∷ ps) =
      some (record { worker = record { pinned = ps; doing = busy j }; left = jobs; begun = some j })
  take_job stopping (j ∷ js) [] =
      some (record { worker = record { pinned = []; doing = busy j }; left = js; begun = some j })
  take_job true [] [] =
      some (record { worker = record { pinned = []; doing = gone }; left = []; begun = none })
  take_job false [] [] =
      some (record { worker = record { pinned = []; doing = asleep }; left = []; begun = none })

  unfoldable pub turn_of : Bool → List J → Worker J → Option (Turn J)
  turn_of stopping jobs w = elim w.doing [
    | idle ↦ take_job stopping jobs w.pinned
    | busy j ↦ some (record { worker = record w { doing = idle }; left = jobs; begun = none })
    | asleep ↦ none
    | gone ↦ none
  ]

  abbrev pub begin : ℕ → Option J → List (ℕ × J) → List (ℕ × J)
  begin i none ran = ran
  begin i (some j) ran = (i, j) ∷ ran

  abbrev pub get_worker : ℕ → List (Worker J) → Option (Worker J)
  get_worker i [] = none
  get_worker zero (w ∷ ws) = some w
  get_worker (suc i) (w ∷ ws) = get_worker i ws

  abbrev pub set_worker : ℕ → Worker J → List (Worker J) → List (Worker J)
  set_worker i v [] = []
  set_worker zero v (w ∷ ws) = v ∷ ws
  set_worker (suc i) v (w ∷ ws) = w ∷ set_worker i v ws

  -- The next thing that worker `i` does, if it is not asleep and not at its end.
  unfoldable pub turn : ℕ → Pool J → Option (Pool J)
  turn i p = elim (get_worker i p.workers) [
    | none ↦ none
    | some w ↦ elim (turn_of p.stopping p.jobs w) [
      | none ↦ none
      | some t ↦ some (record p {
        jobs = t.left;
        workers = set_worker i t.worker p.workers;
        ran = begin i t.begun p.ran;
      })
    ]
  ]

  -- One that sleeps goes back to its test.
  abbrev pub wake : Worker J → Worker J
  wake w = elim w.doing [ idle ↦ w | asleep ↦ record w { doing = idle } | busy j ↦ w | gone ↦ w ]

  abbrev pub is_asleep : Worker J → Bool
  is_asleep w = elim w.doing [ idle ↦ false | asleep ↦ true | busy j ↦ false | gone ↦ false ]

  unfoldable pub notify_all : List (Worker J) → List (Worker J)
  notify_all [] = []
  notify_all (w ∷ ws) = wake w ∷ notify_all ws

  unfoldable pub wake_first : List (Worker J) → List (Worker J)
  wake_first [] = []
  wake_first (w ∷ ws) = if is_asleep w then wake w ∷ ws else w ∷ wake_first ws

  -- The system chooses one that sleeps: number `choice`, or else the first.
  unfoldable pub notify_one : ℕ → List (Worker J) → List (Worker J)
  notify_one choice ws = elim (get_worker choice ws) [
    | none ↦ wake_first ws
    | some w ↦ if is_asleep w then set_worker choice (wake w) ws else wake_first ws
  ]

  -- `cv_.wait` may also come back by itself.
  unfoldable pub wake_up : ℕ → Pool J → Pool J
  wake_up i p = elim (get_worker i p.workers) [
    | none ↦ p
    | some w ↦ record p { workers = set_worker i (wake w) p.workers }
  ]

  unfoldable pub submit : ℕ → J → Pool J → Pool J
  submit choice job p =
      if p.stopping
      then p
      else record p { jobs = p.jobs ++ job ∷ []; workers = notify_one choice p.workers }

  abbrev pub pin : J → Worker J → Worker J
  pin job w = record w { pinned = w.pinned ++ job ∷ [] }

  unfoldable pub submit_to : ℕ → J → Pool J → Pool J
  submit_to worker job p = if p.stopping then p else elim (get_worker worker p.workers) [
    | none ↦ p
    | some w ↦ record p { workers = notify_all (set_worker worker (pin job w) p.workers) }
  ]

  -- What `stop` does before it waits for the threads.
  unfoldable pub stop : Pool J → Pool J
  stop p = if p.stopping then p else record p { stopping = true; workers = notify_all p.workers }

  -- A pool that is made and not started.
  abbrev pub fresh : Pool J
  fresh = record { jobs = []; workers = []; stopping = false; ran = [] }

  unfoldable pub start : ℕ → Pool J → Pool J
  start workers p = elim p.workers [
    | [] ↦ record p { workers = replicate workers (record { pinned = []; doing = idle }) }
    | w ∷ ws ↦ p
  ]
