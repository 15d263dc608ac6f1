-- ===== src/Tests/Transfers.antt =====
-- The theorems on polling and transfers, at concrete inputs.
use aria_mobile_core.Base.{
  suc, ◌*◌, ◌≤◌, ◌≡◌, ◌⊎◌, ◌↔◌, refl, true, false, String, some, is_some, List, [], ◌∷◌, arith,
}
use aria_mobile_core.Types.{MobileError, ok, err, CallState}
use aria_mobile_core.Auth.{new_auth, token, current}
use aria_mobile_core.Engine.State.{Engine, new_engine}
use aria_mobile_core.Engine.Polls.{is_gone}
use aria_mobile_core.Engine.Polls.Gone.{gone_at, unknown_run, gone_at_iff}
use aria_mobile_core.Engine.Device.{heartbeat_round, notify_network_change}
use aria_mobile_core.Engine.Device.Heartbeats.{Op, Sys, change, round, step, run, run_change_sent}
use aria_mobile_core.Engine.Transfer.{
  Leg, Rounds, end_all, legs_turn, leg_turn, transfer_rounds, await_transfer_outcome, new_leg,
}
use aria_mobile_core.Engine.Transfer.Loop.{await_transfer_outcome-returns}
use aria_mobile_core.Engine.Transfer.Outcome.{AllGone}
use aria_mobile_core.Engine.Transfer.Success.{await_transfer_outcome-AllGone}
use aria_mobile_core.Tests.Data.{engine_0, engine_1, info_of, quiet, route_a, status_of}

abbrev unknown : String
unknown = "unknown"

gone_at_iff_example :
    (gone_at "unknown" ("unknown" ∷ "unknown" ∷ []) ≡ true)
    ↔ ((unknown ≡ "ended") ⊎ (3 ≤ unknown_run ("unknown" ∷ "unknown" ∷ "unknown" ∷ [])))
gone_at_iff_example =
    gone_at_iff "unknown" ("unknown" ∷ "unknown" ∷ []) ((λ h. absurd cc), ((λ h. absurd cc), tt))
      (omega arith)

-- A round per second, in which the gateway says that the call is active and its transfer over.
abbrev succeeding : Rounds
succeeding = record {
  sleep = λ n e. e;
  reply = λ n m. quiet (ok (status_of "active"));
  now = λ n. 1000 * suc n;
}

abbrev leg_a : List Leg
leg_a = new_leg "incoming-a" "a" route_a ∷ []

await_transfer_outcome-returns_example :
    is_some (await_transfer_outcome 40002 succeeding 0 engine_1 leg_a) ≡ true
await_transfer_outcome-returns_example =
    await_transfer_outcome-returns succeeding 0 engine_1 leg_a (omega arith) (λ n. omega arith)

abbrev engine_after : Engine
engine_after = end_all engine_1 leg_a

await_transfer_outcome-AllGone_example : AllGone engine_after leg_a
unfolding await_transfer_outcome transfer_rounds legs_turn leg_turn is_gone token current new_auth
    new_engine
await_transfer_outcome-AllGone_example =
    await_transfer_outcome-AllGone 1 succeeding 0 engine_1 engine_after leg_a (λ n e id h. h)
      (λ n m e id h. h) ((λ h. absurd cc), tt) refl

-- An offered call that is watched, and taken on another device.
abbrev engine_p : Engine
engine_p = record engine_0 {
  pending_incoming =
      (
        "t",
        record {
          stop = 9;
          route = route_a;
          info = info_of "incoming-t" CallState.incoming;
          events = 8;
          accepting = false;
          abandoned = false;
          rejected = false;
        },
      )
      ∷ [];
}

abbrev sys_0 : Sys
sys_0 = record { engine = record engine_0 { device_id = some "phone" }; running_tasks = 0 }

-- A change with its heartbeat, and one more; then a heartbeat with two changes while it is awaited.
abbrev ops : List Op
ops = change ∷ round 0 (quiet (ok tt)) ∷ change ∷ []

run_change_sent_example :
    ((run sys_0 ops).running_tasks ≤ 1)
    × ((step (run sys_0 ops) (round 2 (quiet (ok tt)))).running_tasks ≡ 1)
    × ((heartbeat_round
          (step (run sys_0 ops) (round 2 (quiet (ok tt)))).engine
          (quiet (err MobileError.timeout))).2
        ≡ some "phone")
unfolding new_engine run step heartbeat_round notify_network_change
run_change_sent_example =
    run_change_sent sys_0 ops (round 2 (quiet (ok tt))) "phone" (quiet (err MobileError.timeout))
      (tt, ((λ e. (refl, refl)), (tt, tt))) (λ e. (refl, refl))
      (record { counted = refl; served = λ h. h }) (omega arith, refl, ("phone", refl)) refl
