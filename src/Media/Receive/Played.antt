-- ===== src/Media/Receive/Played.antt =====
-- About src/media.rs, the receive thread: what reaches the speaker and the AI tap.
use aria_mobile_core.Base.{
  ℕ, ◌≡◌, refl, ap, subst, ◌∙◌, ltb, ◌==◌, true, Option, none, some, List, [], ◌∷◌, length, All,
  inl, inr, Bool-cases, Option-cases,
}
use aria_mobile_core.Media.{SocketAddr}
use aria_mobile_core.Media.Receive.{
  Rx, RxLib, RxTurn, RxStep, same_addr, receive_packet, receive_turn, receive_loop,
}

module _ {Ctx Decoder : Type 0} (lib : RxLib Ctx Decoder) where
  -- Nothing was decoded, played or tapped.
  abbrev pub IsSilent : Rx Ctx Decoder → Option (Rx Ctx Decoder) → Type 0
  IsSilent s none = ⊥
  IsSilent s (some s') =
      (s'.played ≡ s.played)
      × (s'.tapped ≡ s.tapped)
      × (s'.decoder ≡ s.decoder)
      × (s'.srtp_in ≡ s.srtp_in)

  receive_packet-IsSilent :
      (s : Rx Ctx Decoder) (buf : List ℕ) (src : SocketAddr)
      → IsSilent s (receive_packet lib s true buf src)
  unfolding receive_packet
  receive_packet-IsSilent s buf src = elim (Bool-cases (ltb (length buf) 12)) [
    | inl t ↦ rw (t, IsSilent) (refl, refl, refl, refl)
    | inr t ↦ elim (Bool-cases (s.remote_addr.port == 0)) [
      | inl u ↦ rw (t, IsSilent, u) (refl, refl, refl, refl)
      | inr u ↦ elim (Bool-cases (same_addr s.remote_addr src)) [
        | inl v ↦ rw (t, IsSilent, u, v) (refl, refl, refl, refl)
        | inr v ↦ rw (t, IsSilent, u, v) (refl, refl, refl, refl)
      ]
    ]
  ]

  receive_turn-IsSilent :
      (s : Rx Ctx Decoder) (turn : RxTurn)
      → turn.on_hold ≡ true
      → IsSilent s (receive_turn lib s turn)
  unfolding receive_turn
  receive_turn-IsSilent s turn h = by_received turn.received
    where
      by_received :
          (r : Option (List ℕ × SocketAddr))
          → IsSilent s (receive_turn lib s (record turn { received = r }))
      by_received none = (refl, refl, refl, refl)
      by_received (some (buf, src)) = rw h (receive_packet-IsSilent s buf src)

  -- The SRTP context that other threads leave.
  abbrev pub keyed_by : Option Ctx → List (RxStep Ctx) → Option Ctx
  keyed_by c [] = c
  keyed_by c (RxStep.set_keys ctx ∷ steps) = keyed_by (some ctx) steps
  keyed_by c (step ∷ steps) = keyed_by c steps

  -- The call is on hold where the turn reads it.
  abbrev pub IsHeld : RxStep Ctx → Type 0
  IsHeld (RxStep.one_turn t) = t.on_hold ≡ true
  IsHeld step = Unit

  -- Nothing was decoded, played or tapped, and the SRTP context is the one that was set.
  abbrev pub StaysSilent : Rx Ctx Decoder → List (RxStep Ctx) → Option (Rx Ctx Decoder) → Type 0
  StaysSilent s steps none = ⊥
  StaysSilent s steps (some s') =
      (s'.played ≡ s.played)
      × (s'.tapped ≡ s.tapped)
      × (s'.decoder ≡ s.decoder)
      × (s'.srtp_in ≡ keyed_by s.srtp_in steps)

  -- While the call is on hold the thread goes on whatever arrives and whatever other threads set, and
  -- hands nothing to the decoder, the speaker or the AI tap; nor does it open a packet.
  pub receive_loop-StaysSilent :
      (s : Rx Ctx Decoder) (steps : List (RxStep Ctx))
      → All IsHeld steps
      → StaysSilent s steps (receive_loop lib s steps)
  unfolding receive_loop
  receive_loop-StaysSilent s [] h = (refl, refl, refl, refl)
  receive_loop-StaysSilent s (RxStep.one_turn t ∷ steps) h =
      elim (Option-cases (receive_turn lib s t)) [
        | inl n ↦ absurd (subst (λ o. IsSilent s o) n (receive_turn-IsSilent s t h.0))
        | inr (s', n) ↦
            let one = subst (λ o. IsSilent s o) n (receive_turn-IsSilent s t h.0) in
            rw (n, receive_loop)
              (after s s' (receive_loop lib s' steps) one (receive_loop-StaysSilent s' steps h.1))
      ]
    where
      after :
          (s s' : Rx Ctx Decoder) (o : Option (Rx Ctx Decoder))
          → IsSilent s (some s')
          → StaysSilent s' steps o
          → StaysSilent s (RxStep.one_turn t ∷ steps) o
      after s s' none a b = b
      after s s' (some s2) (p, t, d, c) (p', t', d', c') =
          (p' ∙ p, t' ∙ t, d' ∙ d, c' ∙ ap (λ k. keyed_by k steps) c)
  receive_loop-StaysSilent s (RxStep.set_keys ctx ∷ steps) h =
      receive_loop-StaysSilent (record s { srtp_in = some ctx }) steps h.1
  receive_loop-StaysSilent s (RxStep.set_tap b ∷ steps) h =
      receive_loop-StaysSilent (record s { has_tap = b }) steps h.1
  receive_loop-StaysSilent s (RxStep.set_remote addr ∷ steps) h =
      receive_loop-StaysSilent (record s { remote_addr = addr }) steps h.1
