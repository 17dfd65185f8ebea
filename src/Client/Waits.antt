-- ===== src/Client/Waits.antt =====
-- Every wait for a task ends: WaitForTaskCompletionResult of pkg/client/hsclient.go.
use csi_plugin.Base.{
  ℕ, zero, suc, ◌+◌, ◌-◌, ◌*◌, ◌≤◌, String, ◌<>◌, Bool, not, Option, none, some, ◌∷◌, ltb, ltb→lt,
  eqb, arith, inl, inr, Bool-cases,
}
use csi_plugin.Client.{
  Http, Client, Request, Response, Exchange, Exchanges, sent, sent_again, login, slept, transmit,
  or_login, do_request, expect, pause, guard, unexpected, continue, pure, ◌>>=◌,
}
use csi_plugin.Client.Tasks.{
  Look, over, not_yet, after, passed_since, interval, judge, look_at_task, task_poll_milliseconds,
  wait_for_task,
}
use csi_plugin.Grpc.{Result, ok, err}
use csi_plugin.Client.Laws.{asks_for_login, settled-exchanges}

-- The wait ended by what was seen, by an error or by its limit.
abbrev pub Ended : Result (Option Bool) → Type 0
Ended (ok (some b)) = Unit
Ended (ok none) = ⊥
Ended (err e) = Unit

-- The clock does not go back, and a sleep takes its time.
pub record Ticks (h : Http) : Type 0 where
  pub onward : (e : Exchange) (l : Exchanges) → h.clock l ≤ h.clock (e ∷ l)
  pub sleeps : (ms : ℕ) (l : Exchanges) → h.clock l + ms ≤ h.clock (slept ms ∷ l)

module _ (h : Http) (ticks : Ticks h) (id : String) where
  at_least :
      (n : ℕ) (r : Result Response) (verb path body : String) (c : Client)
      → n ≤ h.clock c.exchanges
      → n ≤ h.clock (continue r (λ a. or_login h verb path body a) c).1.exchanges
  at_least n r verb path body c k =
      rw (settled-exchanges h verb path body r c) (elim (Bool-cases (asks_for_login r)) [
        | inr e ↦ rw e k
        | inl e ↦ rw e (
            omega (
              arith,
              ticks.onward login c.exchanges,
              ticks.onward (sent_again verb path body) (login ∷ c.exchanges),
            ))
      ])

  do_request-clock :
      (n : ℕ) (verb path body : String) (c : Client)
      → n ≤ h.clock c.exchanges
      → n ≤ h.clock (do_request h verb path body c).1.exchanges
  unfolding do_request transmit ◌>>=◌
  do_request-clock n verb path body c k =
      at_least n (h.answer c.exchanges verb path body) verb path body
        (record c { exchanges = sent verb path body ∷ c.exchanges })
        (omega (arith, ticks.onward (sent verb path body) c.exchanges))

  expected :
      (n : ℕ) (code : ℕ) (r : Result Response) (c : Client)
      → n ≤ h.clock c.exchanges
      → n
        ≤ h.clock
            (continue r
              (λ a. guard (not (eqb a.status_code code)) unexpected >>= λ _. pure a)
              c).1.exchanges
  unfolding ◌>>=◌
  expected n code (err e) c k = k
  expected n code (ok r) c k = elim (Bool-cases (eqb r.status_code code)) [
    | inl e ↦ rw e k
    | inr e ↦ rw e k
  ]

  expect-clock :
      (n code : ℕ) (verb path : String) (c : Client)
      → n ≤ h.clock c.exchanges
      → n ≤ h.clock (expect h code verb path c).1.exchanges
  unfolding expect ◌>>=◌
  expect-clock n code verb path c k =
      expected n code (do_request h verb path "" c).0 (do_request h verb path "" c).1
        (do_request-clock n verb path "" c k)

  judged :
      (n : ℕ) (r : Result Response) (c : Client)
      → n ≤ h.clock c.exchanges
      → n ≤ h.clock (continue r (λ a. pure (judge h (h.parse_task a.body))) c).1.exchanges
  judged n (ok r) c k = k
  judged n (err e) c k = k

  look-clock :
      (n : ℕ) (c : Client) → n ≤ h.clock c.exchanges → n ≤ h.clock (look_at_task h id c).1.exchanges
  unfolding look_at_task ◌>>=◌
  look-clock n c k =
      judged n (expect h 200 "GET" ("/tasks/" <> id) c).0 (expect h 200 "GET" ("/tasks/" <> id) c).1
        (expect-clock n 200 "GET" ("/tasks/" <> id) c k)

  next-Ended :
      (r : Result Look) (again : Request (Option Bool)) (c : Client)
      → Ended (again c).0
      → Ended (continue r (λ seen. after h seen again) c).0
  next-Ended (ok (over b)) again c k = tt
  next-Ended (ok not_yet) again c k = k
  next-Ended (err e) again c k = tt

  abbrev slept_once : ℕ → Client → Client
  slept_once start c = record c {
    exchanges = slept (interval (h.clock c.exchanges - start)) ∷ c.exchanges;
  }

  interval-le : (passed : ℕ) → 2000 ≤ interval passed
  interval-le passed = ground arith

  round-clock :
      (start : ℕ) (c : Client)
      → h.clock c.exchanges + 2000 ≤ h.clock (look_at_task h id (slept_once start c)).1.exchanges
  round-clock start c = look-clock (h.clock c.exchanges + 2000) (slept_once start c) (
      omega (
        arith,
        ticks.sleeps (interval (h.clock c.exchanges - start)) c.exchanges,
        interval-le (h.clock c.exchanges - start),
      ))

  rounds-Ended :
      (fuel start : ℕ) (c : Client)
      → start ≤ h.clock c.exchanges
      → task_poll_milliseconds ≤ (h.clock c.exchanges - start) + 2000 * fuel
      → Ended (wait_for_task h (suc fuel) start id c).0
  unfolding wait_for_task passed_since pause ◌>>=◌
  rounds-Ended zero start c hs hf =
      elim (Bool-cases (ltb (h.clock c.exchanges - start) task_poll_milliseconds)) [
        | inr late ↦ rw late tt
        | inl early ↦ absurd (omega (arith, ltb→lt _ _ early))
      ]
  rounds-Ended (suc fuel) start c hs hf =
      elim (Bool-cases (ltb (h.clock c.exchanges - start) task_poll_milliseconds)) [
        | inr late ↦ rw late tt
        | inl early ↦ rw early (
            next-Ended (look_at_task h id (slept_once start c)).0
              (wait_for_task h (suc fuel) start id) (look_at_task h id (slept_once start c)).1
              (rounds-Ended fuel start (look_at_task h id (slept_once start c)).1
                (omega (arith, round-clock start c)) (omega (arith, round-clock start c))))
      ]

  -- The wait for a task of the Anvil ends, by the task's end, an error or the limit of an hour: if the
  -- clock does not go back and a sleep takes its time, the 1801 looks that it has here are never
  -- used up.
  pub wait_for_task-Ended : (c : Client) → Ended (wait_for_task h 1801 (h.clock c.exchanges) id c).0
  wait_for_task-Ended c = rounds-Ended 1800 (h.clock c.exchanges) c (omega arith) (omega arith)
