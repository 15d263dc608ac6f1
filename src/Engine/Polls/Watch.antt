-- ===== src/Engine/Polls/Watch.antt =====
-- About src/lib.rs, `watch_incoming`: when the watch of an offered call goes on.
use aria_mobile_core.Base.{
  ◌≡◌, ℕ, Bool, true, false, String, eq_refl, is_some, none, some, inl, inr, arith, Option-cases,
}
use aria_mobile_core.Base.Dict.{get, get-remove, get-modify}
use aria_mobile_core.Types.{CallStatusResponse}
use aria_mobile_core.Engine.State.{Engine, PendingIncoming}
use aria_mobile_core.Engine.Polls.{
  PollAction, continue, stop, reject, hang_up, drop_pending, watch_entry, watch_status,
}

abbrev pub goes_on : PollAction → Bool
goes_on continue = true
goes_on reject = true
goes_on stop = false
goes_on hang_up = false

drop_pending-gone :
    (e : Engine) (token : String) → get token (drop_pending e token).pending_incoming ≡ none
drop_pending-gone e token = rw (get-remove token token e.pending_incoming, eq_refl token)

watch_entry-goes_on :
    (e : Engine) (streak : ℕ) (token : String) (status : CallStatusResponse) (p : PendingIncoming)
    → get token e.pending_incoming ≡ some p
    → let r = watch_entry e streak token status p in
      is_some (get token r.0.pending_incoming) ≡ goes_on r.2
watch_entry-goes_on e streak token status p n = ground (
  arith,
  drop_pending-gone e token,
  get-modify token token (λ p. record p { rejected = true }) e.pending_incoming,
  eq_refl token,
)

-- An answer of the gateway to a watch makes it go on where, and only where, the offered call stays in
-- the map of offered calls.
pub watch_status-goes_on :
    (e : Engine) (streak : ℕ) (token : String) (status : CallStatusResponse)
    → let r = watch_status e streak token status in
      is_some (get token r.0.pending_incoming) ≡ goes_on r.2
unfolding watch_status
watch_status-goes_on e streak token status = elim (Option-cases (get token e.pending_incoming)) [
  | inl n ↦ rw (n, watch_status) (rw n)
  | inr (p, n) ↦ rw (n, watch_status) (watch_entry-goes_on e streak token status p n)
]
