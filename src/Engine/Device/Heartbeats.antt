-- ===== src/Engine/Device/Heartbeats.antt =====
-- About src/lib.rs, `notify_network_change` and `spawn_heartbeats`: how they interleave.
use aria_mobile_core.Base.{
  ℕ, zero, suc, ◌+◌, ◌-◌, ◌≤◌, ◌≡◌, ◌==◌, refl, ap, All, if◌then◌else◌, true, false, none, some,
  List, [], ◌∷◌, ◌++◌, arith, String, Bool-cases, Option-cases, inl, inr, ◌∙◌,
}
use aria_mobile_core.Types.{Result}
use aria_mobile_core.Engine.State.{Await, Engine, Task}
use aria_mobile_core.Engine.Calls.{report_auth_rejected}
use aria_mobile_core.Engine.Device.{notify_network_change, heartbeat_round}

-- How many tasks of `spawn_heartbeats` have been started.
abbrev pub heartbeat_tasks : List Task → ℕ
heartbeat_tasks [] = 0
heartbeat_tasks (Task.heartbeats ∷ l) = suc (heartbeat_tasks l)
heartbeat_tasks (t ∷ l) = heartbeat_tasks l

abbrev pub started : Engine → ℕ
started e = heartbeat_tasks e.tasks

-- So many network changes, one after the other.
abbrev pub changes : ℕ → Engine → Engine
changes zero e = e
changes (suc n) e = changes n (notify_network_change e)

-- So many of them while the answer to a heartbeat is awaited, behind what else happens.
abbrev pub with_changes : ℕ → Await (Result (Unit {0})) → Await (Result (Unit {0}))
with_changes n reply = record {
  meanwhile = λ e. changes n (reply.meanwhile e);
  answer = reply.answer;
}

-- A network change, or a round of a heartbeat task, with the gateway's answer and the changes while it
-- is awaited.
pub data Op : Type 0 where
  change : Op
  round : ℕ → Await (Result (Unit {0})) → Op

-- What else happens while a heartbeat is awaited leaves the coalescing state alone.
abbrev pub IsQuiet : Op → Type 0
IsQuiet change = Unit
IsQuiet (round n reply) =
    (e : Engine)
    → ((reply.meanwhile e).heartbeat ≡ e.heartbeat) × (started (reply.meanwhile e) ≡ started e)

-- The engine with the number of heartbeat tasks that are running.
pub record Sys : Type 0 where
  pub engine : Engine
  pub running_tasks : ℕ

-- The tasks that were started count from then on; a round runs only where there is a task, and the
-- task is over where the round says so.
unfoldable pub step : Sys → Op → Sys
step s change =
    let e = notify_network_change s.engine in
    record { engine = e; running_tasks = s.running_tasks + (started e - started s.engine) }
step s (round n reply) =
    let r = heartbeat_round s.engine (with_changes n reply) in
    if s.running_tasks == 0 then s else record {
      engine = r.0;
      running_tasks =
          (if r.1 then s.running_tasks else s.running_tasks - 1)
          + (started (r.0) - started s.engine);
    }

unfoldable pub run : Sys → List Op → Sys
run s [] = s
run s (op ∷ ops) = run (step s op) ops

pub record Coalesced (s : Sys) : Type 0 where
  pub counted : s.running_tasks ≡ (if s.engine.heartbeat.running then 1 else 0)
  pub served : s.engine.heartbeat.requested ≡ true → s.engine.heartbeat.running ≡ true

started-append :
    (l : List Task) → heartbeat_tasks (l ++ Task.heartbeats ∷ []) ≡ suc (heartbeat_tasks l)
started-append [] = refl
started-append (t ∷ l) = ground (arith, started-append l)

notify-started :
    (e : Engine)
    → started (notify_network_change e) ≡ started e + (if e.heartbeat.running then 0 else 1)
unfolding notify_network_change
notify-started e = elim (Bool-cases e.heartbeat.running) [
  | inl t ↦ rw t (omega arith)
  | inr t ↦ rw t (omega (arith, started-append e.tasks))
]

notify-heartbeat :
    (e : Engine)
    → ((notify_network_change e).heartbeat.running ≡ true)
      × ((notify_network_change e).heartbeat.requested ≡ true)
      × ((notify_network_change e).device_id ≡ e.device_id)
unfolding notify_network_change
notify-heartbeat e = (ground arith, ground arith, ground arith)

-- Changes while a task runs start none, and ask it for one more heartbeat.
changes-running :
    (n : ℕ) (e : Engine)
    → e.heartbeat.running ≡ true
    → ((changes n e).heartbeat.running ≡ true)
      × ((changes n e).heartbeat.requested ≡ (if n == 0 then e.heartbeat.requested else true))
      × (started (changes n e) ≡ started e)
changes-running zero e h = (h, refl, refl)
changes-running (suc n) e h =
    let (a, b, d) = notify-heartbeat e in
    let (x, y, z) = changes-running n (notify_network_change e) a in
    (x, ground arith, ground (arith, z, notify-started e))

-- What the round clears before it sends.
abbrev cleared : Engine → Engine
cleared e = record e { heartbeat = record (e.heartbeat) { requested = false } }

-- A round that finds nothing asked for ends its task; one without a device sends nothing and goes on.
round-unsent :
    (e : Engine) (reply : Await (Result (Unit {0})))
    → (heartbeat_round e reply).2 ≡ none
    → ((heartbeat_round e reply).1 ≡ e.heartbeat.requested)
      × ((heartbeat_round e reply).0.heartbeat.requested ≡ false)
      × ((heartbeat_round e reply).0.heartbeat.running
          ≡ (if e.heartbeat.requested then e.heartbeat.running else false))
      × (started (heartbeat_round e reply).0 ≡ started e)
unfolding heartbeat_round report_auth_rejected
round-unsent e reply h = (ground arith, ground arith, ground arith, ground arith)

-- The state after a round that sends is that after the wait.
round-sent :
    (e : Engine) (reply : Await (Result (Unit {0}))) (did : String)
    → (heartbeat_round e reply).2 ≡ some did
    → ((heartbeat_round e reply).1 ≡ true)
      × (e.heartbeat.requested ≡ true)
      × ((heartbeat_round e reply).0.heartbeat.requested
          ≡ (reply.meanwhile (cleared e)).heartbeat.requested)
      × ((heartbeat_round e reply).0.heartbeat.running
          ≡ (reply.meanwhile (cleared e)).heartbeat.running)
      × (started (heartbeat_round e reply).0 ≡ started (reply.meanwhile (cleared e)))
unfolding heartbeat_round report_auth_rejected
round-sent e reply did h = (ground arith, ground arith, ground arith, ground arith, ground arith)

-- Behind a wait with changes, while a task runs.
wait-changes :
    (n : ℕ) (e : Engine) (reply : Await (Result (Unit {0})))
    → IsQuiet (round n reply)
    → e.heartbeat.running ≡ true
    → (((with_changes n reply).meanwhile (cleared e)).heartbeat.running ≡ true)
      × (((with_changes n reply).meanwhile (cleared e)).heartbeat.requested
          ≡ (if n == 0 then false else true))
      × (started ((with_changes n reply).meanwhile (cleared e)) ≡ started e)
wait-changes n e reply q h =
    let (a, b) = q (cleared e) in
    let (x, y, z) = changes-running n (reply.meanwhile (cleared e)) (ap (λ k. k.running) a ∙ h) in
    (x, y ∙ rw a refl, z ∙ b)

step-Coalesced : (s : Sys) (op : Op) → IsQuiet op → Coalesced s → Coalesced (step s op)
unfolding step
step-Coalesced s change q c =
    let (a, b, d) = notify-heartbeat s.engine in
    record { counted = ground (arith, notify-started s.engine, c.counted, a); served = λ h. a }
step-Coalesced s (round n reply) q c = elim (Bool-cases s.engine.heartbeat.running) [
  | inr t ↦ let stopped : (s.running_tasks == 0) ≡ true = ground arith in rw stopped c
  | inl t ↦
      let one : (s.running_tasks == 0) ≡ false = ground arith in
      elim (Option-cases (heartbeat_round s.engine (with_changes n reply)).2) [
        | inl u ↦
            let (goes_on, quiet, running, same) = round-unsent s.engine (with_changes n reply) u in
            rw one (record {
              counted = ground (arith, goes_on, running, same);
              served = λ h. ground (arith, quiet, h);
            })
        | inr (did, u) ↦
            let (goes_on, asked, requested, running, same) =
              round-sent s.engine (with_changes n reply) did u in
            let (running', requested', same') = wait-changes n s.engine reply q t in
            rw one (record {
              counted = ground (arith, goes_on, running, running', same, same');
              served = λ h. running ∙ running';
            })
      ]
]

pub run-Coalesced :
    (s : Sys) (ops : List Op) → All IsQuiet ops → Coalesced s → Coalesced (run s ops)
unfolding run
run-Coalesced s [] q c = c
run-Coalesced s (op ∷ ops) q c = run-Coalesced (step s op) ops q.1 (step-Coalesced s op q.0 c)

-- A network change, or a round of the task that sends a heartbeat with a change while it waits.
abbrev pub IsChange : Sys → Op → Type 0
IsChange s change = Unit
IsChange s (round n reply) =
    (1 ≤ n)
    × (s.running_tasks ≡ 1)
    × ((did : String) × ((heartbeat_round s.engine (with_changes n reply)).2 ≡ some did))

-- After a change one heartbeat is asked for, and a task runs for it.
step-asked :
    (s : Sys) (op : Op)
    → IsQuiet op
    → Coalesced s
    → IsChange s op
    → ((step s op).running_tasks ≡ 1) × ((step s op).engine.heartbeat.requested ≡ true)
unfolding step
step-asked s change q c h =
    let (a, b, d) = notify-heartbeat s.engine in
    (ground (arith, notify-started s.engine, c.counted, a), b)
step-asked s (round n reply) q c (more, one, (did, u)) =
    let some_task : (s.running_tasks == 0) ≡ false = ground arith in
    let t : s.engine.heartbeat.running ≡ true = ground (arith, c.counted) in
    let (goes_on, asked, requested, running, same) =
      round-sent s.engine (with_changes n reply) did u in
    let (running', requested', same') = wait-changes n s.engine reply q t in
    rw some_task
      (ground (arith, goes_on, same, same', one), ground (arith, requested, requested', more))

next_sends :
    (e : Engine) (reply : Await (Result (Unit {0}))) (device : String)
    → e.heartbeat.requested ≡ true
    → e.device_id ≡ some device
    → (heartbeat_round e reply).2 ≡ some device
unfolding heartbeat_round
next_sends e reply device h d = ground arith

-- From a coalesced state, however network changes and heartbeats interleave, with any number of changes
-- while a heartbeat is awaited, at most one heartbeat task runs; and after one more change, also one
-- while a heartbeat that is sent is awaited, there is one, whose next round sends a heartbeat for the
-- device that is registered then. What else happens while a heartbeat is awaited leaves the
-- coalescing state alone.
pub run_change_sent :
    (s : Sys) (ops : List Op) (op : Op) (device : String) (reply : Await (Result (Unit {0})))
    → All IsQuiet ops
    → IsQuiet op
    → Coalesced s
    → IsChange (run s ops) op
    → (step (run s ops) op).engine.device_id ≡ some device
    → ((run s ops).running_tasks ≤ 1)
      × ((step (run s ops) op).running_tasks ≡ 1)
      × ((heartbeat_round (step (run s ops) op).engine reply).2 ≡ some device)
run_change_sent s ops op device reply q p c h d =
    let k = run-Coalesced s ops q c in
    let (one, asked) = step-asked (run s ops) op p k h in
    (ground (arith, k.counted), one, next_sends (step (run s ops) op).engine reply device asked d)
