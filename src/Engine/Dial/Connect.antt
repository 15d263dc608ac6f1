-- ===== src/Engine/Dial/Connect.antt =====
-- About src/lib.rs, `dial`: the hold states and the media of the calls around it.
use aria_mobile_core.Base.{
  ◌≡◌, refl, sym, true, false, String, str_eq, eq_iff, Option, none, some, inl, inr, arith,
  Bool-cases, Option-cases,
}
use aria_mobile_core.Base.Dict.{Dict, get, insert, get-insert}
use aria_mobile_core.Types.{CallInfo, CallState, MobileError, ok, Result-cases}
use aria_mobile_core.Media
use aria_mobile_core.Media.Sdp.{parse_sdp_remote}
use aria_mobile_core.Media.{MobileMediaSession, MediaLib}
use aria_mobile_core.Gateway.Routes.{Route}
use aria_mobile_core.Engine.State.{ActiveCallState, Engine}
use aria_mobile_core.Engine.Calls.{hold_others, start_media, start_with}
use aria_mobile_core.Engine.Controls.Active.{
  Agrees, OneActive, OnlyActive, OnlyActive-OneActive, hold_others-OnlyActive,
}
use aria_mobile_core.Engine.Outgoing.{ReservedOutgoing, reserve_outgoing}
use aria_mobile_core.Engine.Dial.{
  Select, Offer, MakeCallAnswer, is_cancelled, mark_dialing, outgoing_call, connect_media,
  connect_ringing, connect_outgoing, fail_ringing, finish_dial, send_call, dial_reserved, dial,
}

pub start_media-calls :
    (e : Engine) (m : Option MobileMediaSession) (id : String)
    → (start_media e m id).calls ≡ e.calls
unfolding start_media
start_media-calls e none id = refl
start_media-calls e (some m) id = elim (Option-cases e.audio_bridge) [
  | inl n ↦ rw (n, start_with)
  | inr (b, n) ↦ rw (n, start_with)
]

-- A new call that agrees, put in after the others were held.
pub insert-OneActive :
    (id : String) (calls : Dict ActiveCallState) (c : ActiveCallState)
    → Agrees c
    → OnlyActive id calls
    → OneActive (insert id c calls)
insert-OneActive id calls c a h = OnlyActive-OneActive id (insert id c calls) (λ j d p.
    elim (Bool-cases (str_eq id j)) [
      | inl t ↦
          let same : c ≡ d = ground (arith, get-insert id j c calls) in
          rw (← same) (a, λ s. sym ((eq_iff id j).0 t))
      | inr t ↦ h j d (ground (arith, get-insert id j c calls))
    ])

-- A session as it is opened, with what the answer sets on it: neither held nor muted, and running.
abbrev pub IsFreshMedia : Option MobileMediaSession → Type 0
IsFreshMedia none = Unit
IsFreshMedia (some m) = (m.on_hold ≡ false) × (m.muted ≡ false) × (m.running ≡ true)

with_keys-IsFreshMedia :
    (lib : MediaLib) (m : MobileMediaSession) (a b : Option String)
    → IsFreshMedia (some m)
    → IsFreshMedia (some (Media.with_keys lib m a b).0)
unfolding Media.set_srtp_keys
with_keys-IsFreshMedia lib m none b h = h
with_keys-IsFreshMedia lib m (some r) none h = h
with_keys-IsFreshMedia lib m (some r) (some l) h = (ground arith, ground arith, ground arith)

connect_media-IsFreshMedia :
    (lib : MediaLib) (m : Option MobileMediaSession) (sdp : String)
    → IsFreshMedia m
    → IsFreshMedia (connect_media lib m sdp)
unfolding Media.apply_remote_sdp Media.update_remote
connect_media-IsFreshMedia lib none sdp h = tt
connect_media-IsFreshMedia lib (some m) sdp h =
    elim (Option-cases (parse_sdp_remote lib.parse_addr sdp)) [
      | inl n ↦ rw n (with_keys-IsFreshMedia lib m (lib.parse_sdp_crypto sdp) m.offered_srtp_key h)
      | inr (p, n) ↦ rw n (
          with_keys-IsFreshMedia lib (Media.update_remote m p.0) (lib.parse_sdp_crypto sdp)
            m.offered_srtp_key h)
    ]

-- What `dial` carries along is as `reserve_outgoing` made it.
abbrev pub IsFreshInfo : CallInfo → Type 0
IsFreshInfo i = (i.on_hold ≡ false) × (i.muted ≡ false)

pub fresh-Agrees :
    (c : ActiveCallState)
    → c.info.state ≡ CallState.connected
    → IsFreshInfo c.info
    → IsFreshMedia c.media
    → Agrees c
fresh-Agrees c s i f = (ground arith, λ m e. by_media c.media f e)
  where
    by_media :
        (o : Option MobileMediaSession) {m : MobileMediaSession}
        → IsFreshMedia o
        → o ≡ some m
        → (m.on_hold ≡ c.info.on_hold) × (m.muted ≡ c.info.muted) × (m.running ≡ true)
    by_media none f e = cc
    by_media (some n) f e = (ground arith, ground arith, ground arith)

pub hold_and_insert-OneActive :
    (e : Engine) (id : String) (c : ActiveCallState)
    → Agrees c
    → OneActive e.calls
    → OneActive (insert id c (hold_others e id).calls)
hold_and_insert-OneActive e id c a v =
    insert-OneActive id (hold_others e id).calls c a (hold_others-OnlyActive e id v)

connected-OneActive :
    (e : Engine) (id : String) (m : Option MobileMediaSession) (c : ActiveCallState)
    → Agrees c
    → OneActive e.calls
    → OneActive (insert id c (start_media (hold_others e id) m id).calls)
connected-OneActive e id m c a v =
    rw (start_media-calls (hold_others e id) m id) (hold_and_insert-OneActive e id c a v)

connect_outgoing-OneActive :
    (e : Engine) (id : String) (r : ReservedOutgoing) (m : Option MobileMediaSession)
    (token : String) (route : Route)
    → IsFreshInfo r.info
    → IsFreshMedia m
    → OneActive e.calls
    → OneActive (connect_outgoing e id r m token route).0.calls
unfolding connect_outgoing
connect_outgoing-OneActive e id r m token route i f v =
    elim (Option-cases (get id e.outgoing.ringing)) [
      | inl n ↦ rw (n, connect_ringing) v
      | inr (p, n) ↦
          rw (n, connect_ringing)
            (connected-OneActive _ id m (outgoing_call r p m token route e.fresh)
              (fresh-Agrees (outgoing_call r p m token route e.fresh) refl i f) v)
    ]

pub fail_ringing-calls :
    (e : Engine) (id : String) (x : MobileError) → (fail_ringing e id x).0.calls ≡ e.calls
unfolding fail_ringing
fail_ringing-calls e id x = elim (Option-cases (get id e.outgoing.ringing)) [
  | inl n ↦ rw n
  | inr (p, n) ↦ rw n
]

-- What other threads do keeps it so.
abbrev pub Keeps : (Engine → Engine) → Type 0
Keeps f = (e : Engine) → OneActive e.calls → OneActive (f e).calls

pub finish_dial-OneActive :
    (lib : MediaLib) (e : Engine) (id : String) (r : ReservedOutgoing)
    (m : Option MobileMediaSession) (request : Select MakeCallAnswer)
    → IsFreshInfo r.info
    → IsFreshMedia m
    → OneActive e.calls
    → OneActive (finish_dial lib e id r m request).0.calls
unfolding finish_dial
finish_dial-OneActive lib e id r m request i f v =
    elim (Bool-cases (is_cancelled e r.dial request)) [
      | inl t ↦ rw t v
      | inr t ↦ rw t (elim (Result-cases request.answer) [
        | inl (x, a) ↦ rw a (rw (fail_ringing-calls _ id x) v)
        | inr (p, a) ↦ rw a (
            connect_outgoing-OneActive _ id r (connect_media lib m p.1) p.0 p.2 i
              (connect_media-IsFreshMedia lib m p.1 f) v)
      ])
    ]

send_call-OneActive :
    (lib : MediaLib) (e : Engine) (id : String) (r : ReservedOutgoing)
    (m : Option MobileMediaSession) (request : Select MakeCallAnswer)
    → IsFreshInfo r.info
    → IsFreshMedia m
    → Keeps request.meanwhile
    → OneActive e.calls
    → OneActive (send_call lib e id r m request).0.calls
unfolding send_call
send_call-OneActive lib e id r m request i f k v = elim (Option-cases (get id e.outgoing.ringing)) [
  | inl n ↦ rw (n, send_call) v
  | inr (p, n) ↦
      rw (n, send_call) (finish_dial-OneActive lib _ id r m request i f (k (mark_dialing e id) v))
]

pub reserve_outgoing-info :
    (e : Engine) (id uri : String) (r : ReservedOutgoing)
    → (reserve_outgoing e id uri).1 ≡ ok r
    → IsFreshInfo r.info
unfolding reserve_outgoing
reserve_outgoing-info e id uri r h = (ground arith, ground arith)

pub reserve_outgoing-calls :
    (e : Engine) (id uri : String) → (reserve_outgoing e id uri).0.calls ≡ e.calls
unfolding reserve_outgoing
reserve_outgoing-calls e id uri = ground arith

dial_reserved-OneActive :
    (lib : MediaLib) (e : Engine) (id : String) (r : ReservedOutgoing) (offer : Select Offer)
    (request : Select MakeCallAnswer)
    → IsFreshInfo r.info
    → ((m : Option MobileMediaSession) (sdp : String) → offer.answer ≡ ok (m, sdp) → IsFreshMedia m)
    → Keeps request.meanwhile
    → OneActive e.calls
    → OneActive (dial_reserved lib e id r offer request).0.calls
unfolding dial_reserved
dial_reserved-OneActive lib e id r offer request i f k v =
    elim (Bool-cases (is_cancelled e r.dial offer)) [
      | inl t ↦ rw t v
      | inr t ↦ rw t (elim (Result-cases offer.answer) [
        | inl (x, a) ↦ rw a (rw (fail_ringing-calls e id x) v)
        | inr (p, a) ↦ rw a (send_call-OneActive lib e id r p.0 request i (f p.0 p.1 a) k v)
      ])
    ]

-- If at most one call is off hold, and every call's session is held and muted as reported, then so
-- it is after dialing, whatever becomes of the call, provided that the session that dialing opens
-- is running and neither held nor muted and that what other threads do during the two waits keeps
-- this.
pub dial-OneActive :
    (lib : MediaLib) (e : Engine) (id uri : String) (offer : Select Offer)
    (request : Select MakeCallAnswer)
    → ((m : Option MobileMediaSession) (sdp : String) → offer.answer ≡ ok (m, sdp) → IsFreshMedia m)
    → Keeps offer.meanwhile
    → Keeps request.meanwhile
    → OneActive e.calls
    → OneActive (dial lib e id uri offer request).0.calls
unfolding dial
dial-OneActive lib e id uri offer request f ko kr v =
    elim (Result-cases (reserve_outgoing e id uri).1) [
      | inl (x, a) ↦ rw (a, dial) (rw (reserve_outgoing-calls e id uri) v)
      | inr (r, a) ↦
          rw (a, dial)
            (dial_reserved-OneActive lib _ id r offer request (reserve_outgoing-info e id uri r a) f
              kr (ko _ (rw (reserve_outgoing-calls e id uri) v)))
    ]
