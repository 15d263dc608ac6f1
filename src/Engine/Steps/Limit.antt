-- ===== src/Engine/Steps/Limit.antt =====
-- About src/lib.rs: `MAX_LIVE_CALLS` bounds the live calls of all threads together.
use aria_mobile_core.Base.{
  Option, ℕ, suc, ◌+◌, ◌<◌, ◌≤◌, ◌≡◌, refl, ap, Bool, true, false, String, str_eq, List, [], ◌∷◌,
  ◌++◌, length, inl, inr, arith, Bool-cases,
}
use aria_mobile_core.Base.Dict.{Dict}
use aria_mobile_core.Types.{
  GatewayConfig, EndReason, MobileError, Result, Result-cases, ok, err, CallOffer,
}
use aria_mobile_core.Gateway.Routes.{Route}
use aria_mobile_core.Media.{MobileMediaSession}
use aria_mobile_core.Engine.State.{
  ActiveCallState, Engine, PendingOutgoing, new_engine, max_live_calls,
}
use aria_mobile_core.Engine.Controls.{set_gateway_token}
use aria_mobile_core.Engine.Outgoing.{contains, reserve_outgoing}
use aria_mobile_core.Engine.Outgoing.Reserve.{live, reserve_outgoing-live}
use aria_mobile_core.Engine.Accept.{
  reserve_accept, release_accept, without_token, after_accept, connect_incoming, abandon_answer,
  refuse_answer,
}
use aria_mobile_core.Engine.Accept.Reserve.{reserve_accept-live}
use aria_mobile_core.Engine.Steps.{Step, Reach}
use aria_mobile_core.Engine.Steps.Numbers.{Part, numbers}
use aria_mobile_core.Engine.Steps.Numbered.{seqs, ringing_seq_of}
use aria_mobile_core.Engine.Steps.Counted.{Fewer, all_seqs}
use aria_mobile_core.Engine.Steps.Connected.{
  connect_incoming-Counted, abandon_answer-Fewer, refuse_answer-Fewer,
}
use aria_mobile_core.Engine.Steps.Minted.{Step-Fewer, absurd_bool}
use aria_mobile_core.Engine.Steps.Accepting

length-Part : {l m : List ℕ} → Part l m → length l ≤ length m
length-Part (Part.same l) = omega arith
length-Part (Part.keep x p) = omega (arith, length-Part p)
length-Part (Part.skip x p) = omega (arith, length-Part p)
length-Part (Part.swap x y l) = omega arith
length-Part (Part.then_ p q) = omega (arith, length-Part p, length-Part q)

length-numbers : {V : Type 0} (number : V → ℕ) (m : Dict V) → length (numbers number m) ≡ length m
length-numbers number [] = refl
length-numbers number ((k, v) ∷ m) = ap suc (length-numbers number m)

length-seqs :
    (calls : Dict ActiveCallState) (ringing : Dict PendingOutgoing)
    → length (seqs calls ++ numbers ringing_seq_of ringing) ≡ length calls + length ringing
length-seqs [] ringing = omega (arith, length-numbers ringing_seq_of ringing)
length-seqs ((id, c) ∷ calls) ringing = omega (arith, length-seqs calls ringing)

live-seqs : (e : Engine) → live e ≡ length (all_seqs e) + length e.accepting
live-seqs e = omega (arith, length-seqs e.calls e.outgoing.ringing)

Fewer-live :
    (e e' : Engine) → Fewer e e' → length e'.accepting ≤ length e.accepting → live e' ≤ live e
Fewer-live e e' (p, n) a = omega (arith, live-seqs e, live-seqs e', length-Part p, a)

without_token-length : (t : String) (l : List String) → length (without_token t l) ≤ length l
without_token-length t [] = omega arith
without_token-length t (s ∷ l) = elim (Bool-cases (str_eq s t)) [
  | inl h ↦ ground (arith, without_token-length t l)
  | inr h ↦ ground (arith, without_token-length t l)
]

without_token-held :
    (t : String) (l : List String) → contains l t ≡ true → length (without_token t l) < length l
without_token-held t [] h = ground arith
without_token-held t (s ∷ l) h = elim (Bool-cases (str_eq s t)) [
  | inl k ↦ ground (arith, without_token-length t l)
  | inr k ↦ ground (arith, without_token-held t l)
]

-- The accept whose answer this is still has its reservation.
abbrev pub KeepsReservation : {e e' : Engine} → Step e e' → Type 0
KeepsReservation (Step.answered e o r m cell reply f u) = contains e.accepting o.call_token ≡ true
KeepsReservation s = Unit

-- Every accept in these steps has it when its answer comes.
abbrev pub KeepReservations : {e e' : Engine} → Reach e e' → Type 0
KeepReservations (Reach.here e) = Unit
KeepReservations (Reach.next s r) = KeepsReservation s × KeepReservations r

-- The steps that may add a live call.
abbrev adds : {e e' : Engine} → Step e e' → Bool
adds (Step.reserving e id uri) = true
adds (Step.accepting e t) = true
adds (Step.answered e o r m cell reply f u) = true
adds s = false

same-length : {l m : List String} → l ≡ m → length l ≤ length m
same-length {l} {m} p = rw p (omega arith)

Step-accepting :
    (e e' : Engine) (s : Step e e') → adds s ≡ false → length e'.accepting ≤ length e.accepting
unfolding set_gateway_token release_accept
Step-accepting _ _ (Step.reserving e id uri) q = absurd_bool q
Step-accepting _ _ (Step.accepting e t) q = absurd_bool q
Step-accepting _ _ (Step.answered e o r m cell reply f u) q = absurd_bool q
Step-accepting _ _ (Step.muting e id b) q = same-length (Accepting.set_mute-accepting e id b)
Step-accepting _ _ (Step.holding e id b) q = same-length (Accepting.set_hold-accepting e id b)
Step-accepting _ _ (Step.swapping e a b) q = same-length (Accepting.swap_calls-accepting e a b)
Step-accepting _ _ (Step.hanging_up e id) q = same-length (Accepting.hangup-accepting e id)
Step-accepting _ _ (Step.sending e id) q = omega arith
Step-accepting _ _ (Step.trying e dial r) q = omega arith
Step-accepting _ _ (Step.dialed lib e id r m request i f u) q =
    same-length (Accepting.finish_dial-accepting lib e id r m request)
Step-accepting _ _ (Step.not_dialed e id x) q =
    same-length (Accepting.fail_ringing-accepting e id x)
Step-accepting _ _ (Step.answering e t) q = same-length (Accepting.begin_answer-accepting e t)
Step-accepting _ _ (Step.accepted e t) q = without_token-length t e.accepting
Step-accepting _ _ (Step.polled e streak id s) q =
    same-length (Accepting.call_status-accepting e streak id s)
Step-accepting _ _ (Step.watched e streak t s) q =
    same-length (Accepting.watch_status-accepting e streak t s)
Step-accepting _ _ (Step.pushed e o r b) q =
    same-length (Accepting.watch_incoming-accepting e o r b)
Step-accepting _ _ (Step.rejected e t) q = same-length (Accepting.end_rejected-accepting e t)
Step-accepting _ _ (Step.transferred e id) q =
    same-length (Accepting.end_call_locally-accepting e id EndReason.transferred)
Step-accepting _ _ (Step.left_up e leg) q =
    same-length (Accepting.end_transferred_leg-accepting e leg)
Step-accepting _ _ (Step.unauthorized e g) q =
    same-length (Accepting.report_auth_rejected-accepting e g)
Step-accepting _ _ (Step.checking e) q = same-length (Accepting.check_remote_hangup-accepting e)
Step-accepting _ _ (Step.signing_in e t) q = omega arith

reserve_outgoing-bound :
    (e : Engine) (id uri : String)
    → live e ≤ max_live_calls
    → live (reserve_outgoing e id uri).0 ≤ max_live_calls
reserve_outgoing-bound e id uri h = elim (Result-cases (reserve_outgoing e id uri).1) [
  | inl (x, a) ↦ omega (arith, h, Accepting.reserve_outgoing-refused e id uri x a)
  | inr (r, a) ↦ let (b, c) = reserve_outgoing-live e id uri r a in omega (arith, b, c)
]

reserve_accept-bound :
    (e : Engine) (t : String)
    → live e ≤ max_live_calls
    → live (reserve_accept e t).0 ≤ max_live_calls
reserve_accept-bound e t h = elim (reserve_accept-live e t) [
  | inl (a, b, c, d, l) ↦ omega (arith, b, l)
  | inr a ↦ rw a h
]

after_accept-bound :
    (e : Engine) (o : CallOffer) (r : Route) (m : Option MobileMediaSession) (cell : ℕ)
    (reply : Result (Unit {0}))
    → contains e.accepting o.call_token ≡ true
    → live (after_accept e o r m cell reply).0 ≤ live e
after_accept-bound e o r m cell (ok _) k =
    let e' = (connect_incoming e o r m cell).0 in
    let less = without_token-held o.call_token e.accepting k in
    let same = ap length (Accepting.connect_incoming-accepting e o r m cell) in
    elim (connect_incoming-Counted e o r m cell) [
      | inl (p, n) ↦ omega (arith, live-seqs e, live-seqs e', length-Part p, less, same)
      | inr (p, n) ↦ omega (arith, live-seqs e, live-seqs e', length-Part p, less, same)
    ]
after_accept-bound e o r m cell (err MobileError.timeout) k =
    Fewer-live e (abandon_answer e o r m cell MobileError.timeout).0
      (abandon_answer-Fewer e o r m cell MobileError.timeout)
      (same-length (Accepting.abandon_answer-accepting e o r m cell MobileError.timeout))
after_accept-bound e o r m cell (err MobileError.network_error) k =
    Fewer-live e (abandon_answer e o r m cell MobileError.network_error).0
      (abandon_answer-Fewer e o r m cell MobileError.network_error)
      (same-length (Accepting.abandon_answer-accepting e o r m cell MobileError.network_error))
after_accept-bound e o r m cell (err x) k =
    Fewer-live e (refuse_answer e o m x).0 (refuse_answer-Fewer e o m x)
      (same-length (Accepting.refuse_answer-accepting e o m x))

Step-live :
    (e e' : Engine) (s : Step e e')
    → KeepsReservation s
    → live e ≤ max_live_calls
    → live e' ≤ max_live_calls
Step-live _ _ (Step.reserving e id uri) k h = reserve_outgoing-bound e id uri h
Step-live _ _ (Step.accepting e t) k h = reserve_accept-bound e t h
Step-live _ _ (Step.answered e o r m cell reply f u) k h =
    omega (arith, h, after_accept-bound e o r m cell reply k)
Step-live e e' s k h =
    omega (arith, h, Fewer-live e e' (Step-Fewer e e' s refl) (Step-accepting e e' s refl))

Reach-live :
    (e e' : Engine) (r : Reach e e')
    → KeepReservations r
    → live e ≤ max_live_calls
    → live e' ≤ max_live_calls
Reach-live _ _ (Reach.here e) k h = h
Reach-live _ _ (Reach.next {e} {e1} {e2} s r) k h = Reach-live e1 e2 r k.1 (Step-live e e1 s k.0 h)

-- In every engine that is reached from a new one, by steps of any threads in any order, at most two
-- calls are live, connected, held, ringing or being accepted, if every accept still has its
-- reservation when its answer comes.
pub new_engine-live :
    (config : GatewayConfig) (http : ℕ) (e : Engine) (r : Reach (new_engine config http) e)
    → KeepReservations r
    → live e ≤ max_live_calls
unfolding new_engine
new_engine-live config http e r k = Reach-live (new_engine config http) e r k (omega arith)
