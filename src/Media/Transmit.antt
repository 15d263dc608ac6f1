-- ===== src/Media/Transmit.antt =====
-- src/media.rs, the send thread of `start_with_bridge`: from the microphone to a datagram.
pub mod Numbered
pub mod Microphone
use aria_mobile_core.Base.{
  ℕ, zero, suc, ◌+◌, ◌==◌, u16, u32, u64, if◌then◌else◌, Bool, ◌||◌, Option, none, some, List, [],
  ◌∷◌, ◌++◌, length,
}
use aria_mobile_core.Types.{AudioCodec, opus, payload_type}
use aria_mobile_core.Media.{SocketAddr}

-- rtp-engine: `RtpHeader::new(pt, seq, timestamp, ssrc).to_bytes()`, what the codec's encoder appends
-- to a packet, the SRTP contexts; and the RMS level, which is in floating point. Bytes and samples are
-- numbers. A context that refuses a packet may still have changed.
pub record TxLib (Ctx Encoder : Type 0) : Type 0 where
  pub header_bytes : ℕ → ℕ → ℕ → ℕ → List ℕ
  pub encode : Encoder → List ℕ → Encoder × List ℕ
  pub protect_rtp : Ctx → List ℕ → Ctx × Option (List ℕ)
  pub level : List ℕ → ℕ

-- `captures` counts the calls of `on_capture_audio`; `tapped` is what the AI tap was handed, oldest
-- first.
pub record Tx (Ctx Encoder : Type 0) : Type 0 where
  pub seq : ℕ
  pub timestamp : ℕ
  pub packets_sent : ℕ
  pub bytes_sent : ℕ
  pub tx_level : ℕ
  pub srtp_out : Option Ctx
  pub encoder : Encoder
  pub captures : ℕ
  pub has_tap : Bool
  pub tapped : List (List ℕ)

-- One turn of the loop: what the other threads have set by then (a context that `set_srtp_keys` has
-- just put in place, the peer's address, the flags), what the bridge captures if it is asked, and
-- whether the socket takes the datagram.
pub record TxTurn (Ctx : Type 0) : Type 0 where
  pub new_keys : Option Ctx
  pub remote : SocketAddr
  pub muted : Bool
  pub on_hold : Bool
  pub captured : List ℕ
  pub send_ok : Bool

pub record Datagram : Type 0 where
  pub bytes : List ℕ
  pub to : SocketAddr

abbrev pub frame_samples : AudioCodec → ℕ
frame_samples AudioCodec.opus = 960
frame_samples _ = 160

abbrev pub silence : ℕ → List ℕ
silence zero = []
silence (suc n) = 0 ∷ silence n

module _ {Ctx Encoder : Type 0} (lib : TxLib Ctx Encoder) (codec : AudioCodec) (ssrc : ℕ) where
  abbrev pub rekey : Tx Ctx Encoder → Option Ctx → Tx Ctx Encoder
  rekey s none = s
  rekey s (some ctx) = record s { srtp_out = some ctx }

  abbrev pub hear : Tx Ctx Encoder → List ℕ → Tx Ctx Encoder × List ℕ
  hear s [] = (s, silence (frame_samples codec))
  hear s (x ∷ xs) = (
    record s {
      tx_level = lib.level (x ∷ xs);
      tapped = if s.has_tap then s.tapped ++ (x ∷ xs) ∷ [] else s.tapped;
    },
    x ∷ xs,
  )

  abbrev pub capture : Tx Ctx Encoder → TxTurn Ctx → Tx Ctx Encoder × List ℕ
  capture s turn =
      if turn.muted || turn.on_hold
      then (s, silence (frame_samples codec))
      else hear (record s { captures = s.captures + 1 }) turn.captured

  abbrev pub count_sent : Tx Ctx Encoder → List ℕ → Bool → Tx Ctx Encoder
  count_sent s packet send_ok =
      if send_ok
      then record s {
        packets_sent = u64 (s.packets_sent + 1);
        bytes_sent = u64 (s.bytes_sent + length packet);
      }
      else s

  abbrev pub send_packet : Tx Ctx Encoder → List ℕ → TxTurn Ctx → Tx Ctx Encoder × Option Datagram
  send_packet s packet turn = (
    record (count_sent s packet turn.send_ok) {
      seq = u16 (s.seq + 1);
      timestamp = u32 (s.timestamp + frame_samples codec);
    },
    some (record { bytes = packet; to = turn.remote }),
  )

  -- A frame that cannot be protected is dropped; the numbers stay.
  abbrev pub send_sealed :
      Tx Ctx Encoder → TxTurn Ctx → Ctx × Option (List ℕ) → Tx Ctx Encoder × Option Datagram
  send_sealed s turn (ctx, none) = (record s { srtp_out = some ctx }, none)
  send_sealed s turn (ctx, some secret) = send_packet (record s { srtp_out = some ctx }) secret turn

  abbrev pub protect_packet :
      Tx Ctx Encoder → List ℕ → TxTurn Ctx → Option Ctx → Tx Ctx Encoder × Option Datagram
  protect_packet s packet turn none = send_packet s packet turn
  protect_packet s packet turn (some ctx) = send_sealed s turn (lib.protect_rtp ctx packet)

  -- The packet as it is before encryption.
  abbrev pub packet_of : Tx Ctx Encoder → List ℕ → List ℕ
  packet_of s body = lib.header_bytes (payload_type codec) s.seq s.timestamp ssrc ++ body

  unfoldable pub encode_frame :
      Tx Ctx Encoder × List ℕ → TxTurn Ctx → Tx Ctx Encoder × Option Datagram
  encode_frame (s, pcm) turn =
      let encoded = lib.encode s.encoder pcm in
      protect_packet (record s { encoder = encoded.0 }) (packet_of s (encoded.1)) turn s.srtp_out

  -- Without a known address there is nothing to do.
  unfoldable pub transmit_turn : Tx Ctx Encoder → TxTurn Ctx → Tx Ctx Encoder × Option Datagram
  unfolding encode_frame
  transmit_turn s turn =
      let s' = rekey s turn.new_keys in
      if turn.remote.port == 0 then (s', none) else encode_frame (capture s' turn) turn

  abbrev pub onto : Option Datagram → List Datagram → List Datagram
  onto none l = l
  onto (some d) l = d ∷ l

  -- The loop, as long as `running` is set, with the datagrams that it hands to the socket.
  unfoldable pub transmit_loop : Tx Ctx Encoder → List (TxTurn Ctx) → Tx Ctx Encoder × List Datagram
  unfolding transmit_turn
  transmit_loop s [] = (s, [])
  transmit_loop s (turn ∷ turns) =
      let one = transmit_turn s turn in
      let rest = transmit_loop (one.0) turns in (rest.0, onto (one.1) (rest.1))
