-- ===== src/Media/Transmit/Microphone.antt =====
-- About src/media.rs, the send thread: when the microphone is asked, and what becomes of its sound.
use aria_mobile_core.Base.{
  ℕ, ◌+◌, ◌≡◌, refl, ◌∙◌, ◌==◌, if◌then◌else◌, Bool, true, false, not, ◌||◌, ◌&&◌, Option, none,
  some, List, [], ◌∷◌, length, map, inl, inr, arith, Bool-cases,
}
use aria_mobile_core.Types.{AudioCodec}
use aria_mobile_core.Media.Transmit.{
  Tx, TxLib, TxTurn, rekey, hear, capture, count_sent, send_packet, send_sealed, protect_packet,
  packet_of, encode_frame, transmit_turn, transmit_loop,
}

-- The turn with a dead microphone, while the call is muted or held.
abbrev pub unplug : {Ctx : Type 0} → TxTurn Ctx → TxTurn Ctx
unplug turn = record turn { captured = if turn.muted || turn.on_hold then [] else turn.captured }

-- The turns on which the bridge has to be asked.
abbrev pub asking : {Ctx : Type 0} → List (TxTurn Ctx) → List (TxTurn Ctx)
asking [] = []
asking (turn ∷ turns) =
    let rest = asking turns in
    if not (turn.remote.port == 0) && not (turn.muted || turn.on_hold) then turn ∷ rest else rest

module _ {Ctx Encoder : Type 0} (lib : TxLib Ctx Encoder) (codec : AudioCodec) (ssrc : ℕ) where
  transmit_turn-unplug :
      (s : Tx Ctx Encoder) (turn : TxTurn Ctx)
      → transmit_turn lib codec ssrc s (unplug turn) ≡ transmit_turn lib codec ssrc s turn
  unfolding transmit_turn
  transmit_turn-unplug s turn = elim (Bool-cases (turn.muted || turn.on_hold)) [
    | inl t ↦ rw (t, capture) refl
    | inr t ↦ rw t refl
  ]

  send_packet-captures :
      (s : Tx Ctx Encoder) (packet : List ℕ) (turn : TxTurn Ctx)
      → (send_packet lib codec ssrc s packet turn).0.captures ≡ s.captures
  send_packet-captures s packet turn = by_ok turn.send_ok
    where
      by_ok : (b : Bool) → (count_sent lib codec ssrc s packet b).captures ≡ s.captures
      by_ok true = refl
      by_ok false = refl

  protect_packet-captures :
      (s : Tx Ctx Encoder) (packet : List ℕ) (turn : TxTurn Ctx) (c : Option Ctx)
      → (protect_packet lib codec ssrc s packet turn c).0.captures ≡ s.captures
  protect_packet-captures s packet turn none = send_packet-captures s packet turn
  protect_packet-captures s packet turn (some ctx) = by_sealed (lib.protect_rtp ctx packet)
    where
      by_sealed :
          (r : Ctx × Option (List ℕ))
          → (send_sealed lib codec ssrc s turn r).0.captures ≡ s.captures
      by_sealed (c, none) = refl
      by_sealed (c, some secret) = send_packet-captures (record s { srtp_out = some c }) secret turn

  hear-captures :
      (s : Tx Ctx Encoder) (pcm : List ℕ) → (hear lib codec ssrc s pcm).0.captures ≡ s.captures
  hear-captures s [] = refl
  hear-captures s (x ∷ xs) = refl

  rekey-captures :
      (s : Tx Ctx Encoder) (c : Option Ctx) → (rekey lib codec ssrc s c).captures ≡ s.captures
  rekey-captures s none = refl
  rekey-captures s (some c) = refl

  encode_frame-captures :
      (p : Tx Ctx Encoder × List ℕ) (turn : TxTurn Ctx)
      → (encode_frame lib codec ssrc p turn).0.captures ≡ p.0.captures
  unfolding encode_frame
  encode_frame-captures (s, pcm) turn =
      protect_packet-captures (record s { encoder = (lib.encode s.encoder pcm).0 })
        (packet_of lib codec ssrc s (lib.encode s.encoder pcm).1) turn s.srtp_out

  transmit_turn-captures :
      (s : Tx Ctx Encoder) (turn : TxTurn Ctx) (turns : List (TxTurn Ctx))
      → (transmit_turn lib codec ssrc s turn).0.captures + length (asking turns)
        ≡ s.captures + length (asking (turn ∷ turns))
  unfolding transmit_turn
  transmit_turn-captures s turn turns =
      let before = rekey-captures s turn.new_keys in
      let s' = rekey lib codec ssrc s turn.new_keys in
      let after = encode_frame-captures (capture lib codec ssrc s' turn) turn in
      let heard = hear-captures (record s' { captures = s'.captures + 1 }) turn.captured in
      elim (Bool-cases (turn.remote.port == 0)) [
        | inl u ↦ rw u (omega arith)
        | inr u ↦ elim (Bool-cases (turn.muted || turn.on_hold)) [
          | inl t ↦ rw (u, after, t) (omega arith)
          | inr t ↦ rw (u, after, t, heard) (omega arith)
        ]
      ]

  transmit_loop-captures :
      (s : Tx Ctx Encoder) (turns : List (TxTurn Ctx))
      → (transmit_loop lib codec ssrc s turns).0.captures ≡ s.captures + length (asking turns)
  unfolding transmit_loop
  transmit_loop-captures s [] = omega arith
  transmit_loop-captures s (turn ∷ turns) =
      let s' = (transmit_turn lib codec ssrc s turn).0 in
      transmit_loop-captures s' turns ∙ transmit_turn-captures s turn turns

  -- The bridge is asked for sound exactly once on each turn on which the peer's address is known and
  -- the call is neither muted nor held. What the microphone would give on the other turns has no effect
  -- on anything: not on the datagrams, the AI tap, the level or the counters.
  pub transmit_loop-unplug :
      (s : Tx Ctx Encoder) (turns : List (TxTurn Ctx))
      → ((transmit_loop lib codec ssrc s turns).0.captures ≡ s.captures + length (asking turns))
        × (transmit_loop lib codec ssrc s turns ≡ transmit_loop lib codec ssrc s (map unplug turns))
  unfolding transmit_loop
  transmit_loop-unplug s turns = (transmit_loop-captures s turns, same s turns)
    where
      same :
          (s : Tx Ctx Encoder) (turns : List (TxTurn Ctx))
          → transmit_loop lib codec ssrc s turns ≡ transmit_loop lib codec ssrc s (map unplug turns)
      same s [] = refl
      same s (turn ∷ turns) =
          let s' = (transmit_turn lib codec ssrc s turn).0 in
          rw (transmit_turn-unplug s turn, same s' turns)
