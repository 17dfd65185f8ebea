-- ===== src/Controller/Create/Poll.antt =====
-- The wait for a new file to be seen by the Anvil ends.
use csi_plugin.Base.{
  ℕ, zero, suc, ◌+◌, ◌-◌, ◌*◌, ◌≤◌, String, Bool, true, false, Option, none, some, ◌∷◌, ltb, arith,
  inl, inr, Bool-cases, ltb→lt,
}
use csi_plugin.Driver.{
  World, Driver, Event, History, Op, does_file_exist, sleep, pure, continue, ◌>>=◌,
}
use csi_plugin.Grpc.{Error, Result, ok, err}
use csi_plugin.Controller.Create.File.{
  Visible, found, timed_out, gave_up, poll_milliseconds, elapsed, answer_of, look_for_file,
  after_look, wait_for_file,
}

-- The wait ended by an answer or by its deadline.
abbrev pub Decided : Result Visible → Type 0
Decided (ok found) = Unit
Decided (ok (timed_out e)) = Unit
Decided (ok gave_up) = ⊥
Decided (err e) = ⊥

abbrev IsAnswer : Result (Result Bool) → Type 0
IsAnswer (ok r) = Unit
IsAnswer (err e) = ⊥

-- The clock does not go back, and a wait of the back-off takes 100 ms at least.
pub record Ticks (w : World) : Type 0 where
  pub onward : (e : Event) (h : History) → w.clock h ≤ w.clock (e ∷ h)
  pub waits : (h : History) → w.clock h + 100 ≤ w.clock (sleep "backoff" ∷ h)

module _ (w : World) (ticks : Ticks w) (path : String) where
  answered-clock :
      (r : Result Bool) (d : Driver) (n : ℕ)
      → n ≤ w.clock d.history
      → n ≤ w.clock (answer_of w r d).1.history
  unfolding answer_of ◌>>=◌
  answered-clock (ok b) d n h = h
  answered-clock (err e) d n h = omega (arith, ticks.onward (sleep "1s") d.history)

  -- After a look, 100 ms have passed.
  look-clock : (d : Driver) → w.clock d.history + 100 ≤ w.clock (look_for_file w path d).1.history
  unfolding look_for_file ◌>>=◌
  look-clock d =
      answered-clock (w.does_file_exist (sleep "backoff" ∷ d.history) path)
        (record d { history = does_file_exist path ∷ sleep "backoff" ∷ d.history })
        (w.clock d.history + 100)
        (omega (
          arith,
          ticks.waits d.history,
          ticks.onward (does_file_exist path) (sleep "backoff" ∷ d.history),
        ))

  answer_of-IsAnswer : (r : Result Bool) (d : Driver) → IsAnswer (answer_of w r d).0
  unfolding answer_of ◌>>=◌
  answer_of-IsAnswer (ok b) d = tt
  answer_of-IsAnswer (err e) d = tt

  look-IsAnswer : (d : Driver) → IsAnswer (look_for_file w path d).0
  unfolding look_for_file ◌>>=◌
  look-IsAnswer d =
      answer_of-IsAnswer (w.does_file_exist (sleep "backoff" ∷ d.history) path)
        (record d { history = does_file_exist path ∷ sleep "backoff" ∷ d.history })

  -- After an answer, the wait is over or goes on.
  next-Decided :
      (r : Result (Result Bool)) (again : Option Error → Op Visible) (d : Driver)
      → IsAnswer r
      → ((e : Option Error) → Decided (again e d).0)
      → Decided (continue r (λ looked. after_look w looked (pure found) again) d).0
  next-Decided (ok (ok true)) again d h k = tt
  next-Decided (ok (ok false)) again d h k = k none
  next-Decided (ok (err e)) again d h k = k (some e)
  next-Decided (err e) again d h k = absurd h

  -- From `start` on, the rounds after the first one suffice if they make up for the time that is left.
  rounds-Decided :
      (fuel start : ℕ) (last : Option Error) (d : Driver)
      → start ≤ w.clock d.history
      → poll_milliseconds ≤ (w.clock d.history - start) + 100 * fuel
      → Decided (wait_for_file w (suc fuel) start path last d).0
  unfolding wait_for_file elapsed ◌>>=◌
  rounds-Decided zero start last d hs hf =
      elim (Bool-cases (ltb (w.clock d.history - start) poll_milliseconds)) [
        | inr late ↦ rw late tt
        | inl early ↦ absurd (omega (arith, ltb→lt _ _ early))
      ]
  rounds-Decided (suc fuel) start last d hs hf =
      elim (Bool-cases (ltb (w.clock d.history - start) poll_milliseconds)) [
        | inr late ↦ rw late tt
        | inl early ↦ rw early (
            next-Decided (look_for_file w path d).0 (λ e. wait_for_file w (suc fuel) start path e)
              (look_for_file w path d).1 (look-IsAnswer d)
              λ e.
                rounds-Decided fuel start e (look_for_file w path d).1 (omega (arith, look-clock d))
                  (omega (arith, look-clock d)))
      ]

  -- The wait for a new file to be visible ends, by an answer or by its deadline of ten minutes: if the
  -- clock does not go back, and each wait of the back-off takes its 100 ms at least, the 6001 rounds
  -- that it has here are never used up.
  pub wait_for_file-Decided :
      (d : Driver) → Decided (wait_for_file w 6001 (w.clock d.history) path none d).0
  wait_for_file-Decided d =
      rounds-Decided 6000 (w.clock d.history) none d (omega arith) (omega arith)
