-- ===== src/Db/Notified.antt =====
-- What `notify_one` and `notify_all` of src/odio/db.cpp do to the workers that sleep.
use mathlib.Core.Bool.{false≢true}
use osodio.Prelude.{
  ℕ, zero, suc, ◌≡◌, ◌≢◌, refl, ap, sym, Bool, true, false, List, [], ◌∷◌, some, length, Bool-cases,
  Option-cases, inl, inr,
}
use osodio.Db.Pool.{
  Doing, Worker, idle, asleep, busy, gone, get_worker, set_worker, wake, is_asleep, notify_all,
  notify_one, wake_first,
}
use osodio.Prelude.{either}
use mathlib.Core.Path.{subst}
use osodio.Db.Turns.{
  injective_of_some, IsOver, AllOver, IsAwake, Awake, set_worker-AllOver, set_worker-Awake,
  length-set_worker,
}

module _ {J : Type 0} where
  -- A worker that is not at its end.
  abbrev pub IsHere : Doing J → Type 0
  IsHere idle = Unit
  IsHere (busy j) = Unit
  IsHere asleep = Unit
  IsHere gone = ⊥

  abbrev pub AllHere : List (Worker J) → Type 0
  AllHere [] = Unit
  AllHere (w ∷ ws) = IsHere w.doing × AllHere ws

  AllOver-IsHere : (js ps : List J) (d : Doing J) → IsOver false js ps d → IsHere d
  AllOver-IsHere js ps idle h = tt
  AllOver-IsHere js ps (busy j) h = tt
  AllOver-IsHere js ps asleep h = tt
  AllOver-IsHere js ps gone (s, e, r) = absurd (false≢true s)

  pub AllOver-AllHere : (js : List J) (ws : List (Worker J)) → AllOver false js ws → AllHere ws
  AllOver-AllHere js [] h = tt
  AllOver-AllHere js (w ∷ ws) (h, hs) =
      (AllOver-IsHere js w.pinned w.doing h, AllOver-AllHere js ws hs)

  -- Who is here and was woken is awake, and nothing is asked of him.
  wake-IsOver :
      (s : Bool) (js ps : List J) (d : Doing J)
      → IsHere d
      → let w = wake (record { pinned = ps; doing = d }) in
        IsOver s js w.pinned w.doing × IsAwake w.doing
  wake-IsOver s js ps idle h = (tt, tt)
  wake-IsOver s js ps (busy j) h = (tt, tt)
  wake-IsOver s js ps asleep h = (tt, tt)
  wake-IsOver s js ps gone h = absurd h

  pub notify_all-AllOver :
      (s : Bool) (js : List J) (ws : List (Worker J)) → AllHere ws → AllOver s js (notify_all ws)
  unfolding notify_all
  notify_all-AllOver s js [] h = tt
  notify_all-AllOver s js (w ∷ ws) (h, hs) =
      ((wake-IsOver s js w.pinned w.doing h).0, notify_all-AllOver s js ws hs)

  pub notify_all-Awake : (ws : List (Worker J)) → ws ≢ [] → AllHere ws → Awake (notify_all ws)
  unfolding notify_all
  notify_all-Awake [] there h = absurd (there refl)
  notify_all-Awake (w ∷ ws) there (h, hs) = inl (wake-IsOver true [] w.pinned w.doing h).1

  pub set_worker-AllHere :
      (i : ℕ) (v : Worker J) (ws : List (Worker J))
      → IsHere v.doing
      → AllHere ws
      → AllHere (set_worker i v ws)
  set_worker-AllHere i v [] h k = k
  set_worker-AllHere zero v (w ∷ ws) h (k, ks) = (h, ks)
  set_worker-AllHere (suc i) v (w ∷ ws) h (k, ks) = (k, set_worker-AllHere i v ws h ks)

  pub get_worker-AllHere :
      (i : ℕ) (ws : List (Worker J)) (w : Worker J)
      → get_worker i ws ≡ some w
      → AllHere ws
      → IsHere w.doing
  get_worker-AllHere i [] w e h = cc
  get_worker-AllHere zero (v ∷ ws) w e (h, k) = subst (λ u. IsHere u.doing) (injective_of_some e) h
  get_worker-AllHere (suc i) (v ∷ ws) w e (h, k) = get_worker-AllHere i ws w e k

  -- Of workers that are here, one is awake after `notify_one`.
  IsAwake-or_asleep :
      (ps : List J) (d : Doing J)
      → IsHere d
      → is_asleep (record { pinned = ps; doing = d }) ≡ false
      → IsAwake d
  IsAwake-or_asleep ps idle h e = tt
  IsAwake-or_asleep ps (busy j) h e = tt
  IsAwake-or_asleep ps asleep h e = absurd (false≢true (sym e))
  IsAwake-or_asleep ps gone h e = absurd h

  wake_first-Awake : (ws : List (Worker J)) → ws ≢ [] → AllHere ws → Awake (wake_first ws)
  unfolding wake_first
  wake_first-Awake [] there h = absurd (there refl)
  wake_first-Awake (w ∷ ws) there (h, hs) = elim (Bool-cases (is_asleep w)) [
    | inl sleeps ↦ rw (wake_first, sleeps) (inl (wake-IsOver true [] w.pinned w.doing h).1)
    | inr up ↦ rw (wake_first, up) (inl (IsAwake-or_asleep w.pinned w.doing h up))
  ]

  wake_first-AllOver :
      (s : Bool) (js : List J) (ws : List (Worker J))
      → AllHere ws
      → AllOver s js ws
      → AllOver s js (wake_first ws)
  unfolding wake_first
  wake_first-AllOver s js [] k h = tt
  wake_first-AllOver s js (w ∷ ws) (k, ks) (h, hs) =
      either (AllOver s js) (is_asleep w) ((wake-IsOver s js w.pinned w.doing k).0, hs)
        (h, wake_first-AllOver s js ws ks hs)

  pub notify_one-Awake :
      (i : ℕ) (ws : List (Worker J)) → ws ≢ [] → AllHere ws → Awake (notify_one i ws)
  unfolding notify_one
  notify_one-Awake i ws there h = elim (Option-cases (get_worker i ws)) [
    | inl nobody ↦ rw (notify_one, nobody) (wake_first-Awake ws there h)
    | inr (w, found) ↦
        rw (notify_one, found)
          (either Awake (is_asleep w)
            (set_worker-Awake i (wake w) w ws found
              (wake-IsOver true [] w.pinned w.doing (get_worker-AllHere i ws w found h)).1)
            (wake_first-Awake ws there h))
  ]

  pub notify_one-AllOver :
      (i : ℕ) (s : Bool) (js : List J) (ws : List (Worker J))
      → AllHere ws
      → AllOver s js ws
      → AllOver s js (notify_one i ws)
  unfolding notify_one
  notify_one-AllOver i s js ws k h = elim (Option-cases (get_worker i ws)) [
    | inl nobody ↦ rw (notify_one, nobody) (wake_first-AllOver s js ws k h)
    | inr (w, found) ↦
        rw (notify_one, found)
          (either (AllOver s js) (is_asleep w)
            (set_worker-AllOver s js i (wake w) ws
              (wake-IsOver s js w.pinned w.doing (get_worker-AllHere i ws w found k)).0 h)
            (wake_first-AllOver s js ws k h))
  ]

  -- The number of workers stays.
  pub length-notify_all : (ws : List (Worker J)) → length (notify_all ws) ≡ length ws
  unfolding notify_all
  length-notify_all [] = refl
  length-notify_all (w ∷ ws) = ap suc (length-notify_all ws)

  length-wake_first : (ws : List (Worker J)) → length (wake_first ws) ≡ length ws
  unfolding wake_first
  length-wake_first [] = refl
  length-wake_first (w ∷ ws) =
      either (λ (l : List (Worker J)). length l ≡ suc (length ws)) (is_asleep w) refl
        (ap suc (length-wake_first ws))

  pub length-notify_one : (i : ℕ) (ws : List (Worker J)) → length (notify_one i ws) ≡ length ws
  unfolding notify_one
  length-notify_one i ws = elim (Option-cases (get_worker i ws)) [
    | inl nobody ↦ rw (notify_one, nobody) (length-wake_first ws)
    | inr (w, found) ↦
        rw (notify_one, found)
          (either (λ (l : List (Worker J)). length l ≡ length ws) (is_asleep w)
            (length-set_worker i (wake w) ws) (length-wake_first ws))
  ]

  -- No queue changes.
  pub wake-pinned :
      (ps : List J) (d : Doing J) → (wake (record { pinned = ps; doing = d })).pinned ≡ ps
  wake-pinned ps idle = refl
  wake-pinned ps (busy j) = refl
  wake-pinned ps asleep = refl
  wake-pinned ps gone = refl
