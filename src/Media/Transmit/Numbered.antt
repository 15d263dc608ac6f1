-- ===== src/Media/Transmit/Numbered.antt =====
-- About src/media.rs, the send thread: the numbers of its packets and their encryption.
use aria_mobile_core.Base.{
  ℕ, ◌+◌, ◌*◌, ◌<◌, ◌≡◌, refl, ◌==◌, u16, u32, Bool, true, false, ◌||◌, Option, none, some, List,
  [], ◌∷◌, ◌++◌, length, inl, inr, arith, Bool-cases,
}
use aria_mobile_core.Types.{AudioCodec, payload_type}
use aria_mobile_core.Media.Transmit.{
  Tx, TxLib, TxTurn, Datagram, frame_samples, rekey, hear, capture, count_sent, send_packet,
  send_sealed, protect_packet, packet_of, encode_frame, transmit_turn, onto, transmit_loop,
}

module _ {Ctx Encoder : Type 0} (lib : TxLib Ctx Encoder) (codec : AudioCodec) (ssrc : ℕ) where
  -- What a context makes of a packet with this sequence number and timestamp.
  abbrev pub IsSealed : ℕ → ℕ → Datagram → Type 0
  IsSealed seq timestamp d =
      (ctx : Ctx) × (body : List ℕ) × ((lib.protect_rtp ctx
          (lib.header_bytes (payload_type codec) seq timestamp ssrc ++ body)).1
        ≡ some d.bytes)

  -- Numbered from the `k`-th on.
  abbrev pub IsNumbered : ℕ → ℕ → ℕ → List Datagram → Type 0
  IsNumbered seq timestamp k [] = Unit
  IsNumbered seq timestamp k (d ∷ ds) =
      IsSealed (u16 (seq + k)) (u32 (timestamp + k * frame_samples codec)) d
      × IsNumbered seq timestamp (k + 1) ds

  -- After the turns so far, `k` datagrams have been sent.
  abbrev HasSent : ℕ → ℕ → ℕ → Tx Ctx Encoder → Type 0
  HasSent seq timestamp k s =
      ((ctx : Ctx) × (s.srtp_out ≡ some ctx))
      × (s.seq ≡ u16 (seq + k))
      × (s.timestamp ≡ u32 (timestamp + k * frame_samples codec))

  abbrev Sends : ℕ → ℕ → ℕ → Tx Ctx Encoder × Option Datagram → Type 0
  Sends seq timestamp k (s, none) = HasSent seq timestamp k s
  Sends seq timestamp k (s, some d) =
      IsSealed (u16 (seq + k)) (u32 (timestamp + k * frame_samples codec)) d
      × HasSent seq timestamp (k + 1) s

  send_packet-HasSent :
      (seq timestamp k : ℕ) (s : Tx Ctx Encoder) (packet : List ℕ) (turn : TxTurn Ctx)
      → HasSent seq timestamp k s
      → HasSent seq timestamp (k + 1) (send_packet lib codec ssrc s packet turn).0
  send_packet-HasSent seq timestamp k s packet turn (c, n, t) =
      (by_ok turn.send_ok, omega (arith, n), omega (arith, t))
    where
      by_ok :
          (b : Bool) → (ctx : Ctx) × ((count_sent lib codec ssrc s packet b).srtp_out ≡ some ctx)
      by_ok true = c
      by_ok false = c

  protect_packet-Sends :
      (seq timestamp k : ℕ) (s : Tx Ctx Encoder) (body : List ℕ) (turn : TxTurn Ctx) (ctx : Ctx)
      → HasSent seq timestamp k s
      → Sends seq timestamp k
          (protect_packet lib codec ssrc s (packet_of lib codec ssrc s body) turn (some ctx))
  protect_packet-Sends seq timestamp k s body turn ctx (c, n, t) =
      by_sealed (lib.protect_rtp ctx (packet_of lib codec ssrc s body)) refl
    where
      by_sealed :
          (r : Ctx × Option (List ℕ))
          → (lib.protect_rtp ctx (packet_of lib codec ssrc s body)).1 ≡ r.1
          → Sends seq timestamp k (send_sealed lib codec ssrc s turn r)
      by_sealed (c', none) e = ((c', refl), n, t)
      by_sealed (c', some secret) e = (
        (ctx, body, rw (← n, ← t) e),
        send_packet-HasSent seq timestamp k (record s { srtp_out = some c' }) secret turn
            ((c', refl), n, t),
      )

  encode_frame-Sends :
      (seq timestamp k : ℕ) (p : Tx Ctx Encoder × List ℕ) (turn : TxTurn Ctx)
      → HasSent seq timestamp k p.0
      → Sends seq timestamp k (encode_frame lib codec ssrc p turn)
  unfolding encode_frame
  encode_frame-Sends seq timestamp k (s, pcm) turn ((ctx, c), n, t) =
      let encoded = lib.encode s.encoder pcm in
      rw c (
        protect_packet-Sends seq timestamp k (record s { encoder = encoded.0 }) encoded.1 turn ctx
          ((ctx, c), n, t))

  capture-HasSent :
      (seq timestamp k : ℕ) (s : Tx Ctx Encoder) (turn : TxTurn Ctx)
      → HasSent seq timestamp k s
      → HasSent seq timestamp k (capture lib codec ssrc s turn).0
  capture-HasSent seq timestamp k s turn h = elim (Bool-cases (turn.muted || turn.on_hold)) [
    | inl t ↦ rw t h
    | inr t ↦ rw t (by_pcm turn.captured)
  ]
    where
      by_pcm :
          (pcm : List ℕ)
          → HasSent seq timestamp k
              (hear lib codec ssrc (record s { captures = s.captures + 1 }) pcm).0
      by_pcm [] = h
      by_pcm (x ∷ xs) = h

  rekey-HasSent :
      (seq timestamp k : ℕ) (s : Tx Ctx Encoder) (keys : Option Ctx)
      → HasSent seq timestamp k s
      → HasSent seq timestamp k (rekey lib codec ssrc s keys)
  rekey-HasSent seq timestamp k s none h = h
  rekey-HasSent seq timestamp k s (some ctx) (c, n, t) = ((ctx, refl), n, t)

  transmit_turn-Sends :
      (seq timestamp k : ℕ) (s : Tx Ctx Encoder) (turn : TxTurn Ctx)
      → HasSent seq timestamp k s
      → Sends seq timestamp k (transmit_turn lib codec ssrc s turn)
  unfolding transmit_turn
  transmit_turn-Sends seq timestamp k s turn h =
      let s' = rekey lib codec ssrc s turn.new_keys in
      let h' = rekey-HasSent seq timestamp k s turn.new_keys h in
      elim (Bool-cases (turn.remote.port == 0)) [
        | inl u ↦ rw u h'
        | inr u ↦ rw u (
            encode_frame-Sends seq timestamp k (capture lib codec ssrc s' turn) turn
              (capture-HasSent seq timestamp k s' turn h'))
      ]

  -- A run that starts after `k` datagrams, and what its turns hand to the socket.
  abbrev GoesOn : ℕ → ℕ → ℕ → Tx Ctx Encoder × List Datagram → Type 0
  GoesOn seq timestamp k (s, ds) =
      IsNumbered seq timestamp k ds × (s.seq ≡ u16 (seq + (k + length ds)))

  onto-GoesOn :
      (seq timestamp k : ℕ) (p : Tx Ctx Encoder × Option Datagram) (turns : List (TxTurn Ctx))
      → ((k' : ℕ)
          → HasSent seq timestamp k' p.0
          → GoesOn seq timestamp k' (transmit_loop lib codec ssrc p.0 turns))
      → Sends seq timestamp k p
      → GoesOn seq timestamp k (
        (transmit_loop lib codec ssrc p.0 turns).0,
        onto lib codec ssrc p.1 (transmit_loop lib codec ssrc p.0 turns).1,
      )
  onto-GoesOn seq timestamp k (s, none) turns rest h = rest k h
  onto-GoesOn seq timestamp k (s, some d) turns rest (sealed, h) =
      let (ds, last) = rest (k + 1) h in ((sealed, ds), omega (arith, last))

  transmit_loop-GoesOn :
      (seq timestamp : ℕ) (s : Tx Ctx Encoder) (turns : List (TxTurn Ctx)) (k : ℕ)
      → HasSent seq timestamp k s
      → GoesOn seq timestamp k (transmit_loop lib codec ssrc s turns)
  unfolding transmit_loop
  transmit_loop-GoesOn seq timestamp s [] k (c, n, t) = (tt, omega (arith, n))
  transmit_loop-GoesOn seq timestamp s (turn ∷ turns) k h =
      let one = transmit_turn lib codec ssrc s turn in
      onto-GoesOn seq timestamp k one turns
        (λ k' h'. transmit_loop-GoesOn seq timestamp one.0 turns k' h')
        (transmit_turn-Sends seq timestamp k s turn h)

  -- Of the datagrams of the send thread, which carry the microphone's audio (keypad digits are sent
  -- elsewhere, by `send_dtmf`), once the call is encrypted, whatever the other threads do and whether
  -- or not the socket takes a datagram: each is what an SRTP context made of a packet, none is a packet in the clear;
  -- the sequence number goes up by one from each to the next, modulo 2^16, and the timestamp by the
  -- samples of a frame, modulo 2^32, with no number left out for a frame that was dropped.
  pub transmit_loop-IsNumbered :
      (s : Tx Ctx Encoder) (turns : List (TxTurn Ctx)) (ctx : Ctx)
      → s.srtp_out ≡ some ctx
      → s.seq < 65536
      → s.timestamp < 4294967296
      → IsNumbered s.seq s.timestamp 0 (transmit_loop lib codec ssrc s turns).1
        × ((transmit_loop lib codec ssrc s turns).0.seq
            ≡ u16 (s.seq + length (transmit_loop lib codec ssrc s turns).1))
  transmit_loop-IsNumbered s turns ctx c n t =
      let (ds, last) =
        transmit_loop-GoesOn s.seq s.timestamp s turns 0 ((ctx, c), omega arith, omega arith) in
      (ds, omega (arith, last))
