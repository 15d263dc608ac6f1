-- ===== src/Media/Receive.antt =====
-- src/media.rs, the receive thread of `start_with_bridge`: from a datagram to the speaker.
pub mod Peer
pub mod Played
use aria_mobile_core.Base.{
  ℕ, ◌+◌, ltb, leb, ◌==◌, u64, if◌then◌else◌, Bool, not, ◌&&◌, str_eq, Option, none, some, List, [],
  ◌∷◌, ◌++◌, length, drop,
}
use aria_mobile_core.Media.{SocketAddr}

-- What the loop reads of an `RtpHeader`.
pub record RtpHeader : Type 0 where
  pub payload_type : ℕ
  pub header_length : ℕ

abbrev pub same_addr : SocketAddr → SocketAddr → Bool
same_addr a b = str_eq a.ip b.ip && a.port == b.port

-- rtp-engine, on its SRTP contexts and decoders, and the RMS level, which is in floating point.
-- Bytes and samples are numbers. A context that refuses a packet may still have changed.
pub record RxLib (Ctx Decoder : Type 0) : Type 0 where
  pub unprotect_rtp : Ctx → List ℕ → Ctx × Option (List ℕ)
  pub parse : List ℕ → Option RtpHeader
  pub decode : Decoder → List ℕ → Decoder × List ℕ
  pub level : List ℕ → ℕ

-- `tapped` and `played` are what the AI tap and the audio bridge were handed, oldest first; the tap is
-- read only where there is one.
pub record Rx (Ctx Decoder : Type 0) : Type 0 where
  pub remote_addr : SocketAddr
  pub packets_received : ℕ
  pub bytes_received : ℕ
  pub rx_level : ℕ
  pub srtp_in : Option Ctx
  pub decoder : Decoder
  pub has_tap : Bool
  pub tapped : List (List ℕ)
  pub played : List (List ℕ)

-- One turn of the loop: the hold flag that it reads, and what `recv_from` gave in its 100 ms.
pub record RxTurn : Type 0 where
  pub on_hold : Bool
  pub received : Option (List ℕ × SocketAddr)

-- What the thread's state goes through: a turn of the loop, or what another thread does to the session
-- between two of them, `set_srtp_keys`, `set_ai_tap` and `update_remote`.
pub data RxStep (Ctx : Type 0) : Type 0 where
  one_turn : RxTurn → RxStep Ctx
  set_keys : Ctx → RxStep Ctx
  set_tap : Bool → RxStep Ctx
  set_remote : SocketAddr → RxStep Ctx

module _ {Ctx Decoder : Type 0} (lib : RxLib Ctx Decoder) where
  abbrev pub play : Rx Ctx Decoder → Decoder × List ℕ → Rx Ctx Decoder
  play s (d, []) = record s { decoder = d }
  play s (d, x ∷ xs) = record s {
    decoder = d;
    rx_level = lib.level (x ∷ xs);
    tapped = if s.has_tap then s.tapped ++ (x ∷ xs) ∷ [] else s.tapped;
    played = s.played ++ (x ∷ xs) ∷ [];
  }

  -- `packet` is what is parsed, `buf` what was received: the payload is cut from `buf`. A header that
  -- is longer than `buf` is an index out of range, which ends the thread: `none`.
  abbrev pub play_packet : Rx Ctx Decoder → List ℕ → List ℕ → Option (Rx Ctx Decoder)
  play_packet s buf packet = elim (lib.parse packet) [
    | none ↦ some s
    | some header ↦
        if header.payload_type == 101
        then some s
        else if ltb (length buf) header.header_length
        then none
        else if length buf == header.header_length
        then some s
        else some (play s (lib.decode s.decoder (drop header.header_length buf)))
  ]

  -- With SRTP, a packet that does not authenticate is dropped.
  abbrev pub open_packet : Rx Ctx Decoder → List ℕ → Option Ctx → Option (Rx Ctx Decoder)
  open_packet s buf none = play_packet s buf buf
  open_packet s buf (some ctx) =
      let opened = lib.unprotect_rtp ctx buf in
      let s' : Rx Ctx Decoder = record s { srtp_in = some (opened.0) } in
      elim (opened.1) [ none ↦ some s' | some plain ↦ play_packet s' buf plain ]

  -- A packet from the peer. On hold it is only counted.
  unfoldable pub accept_packet : Rx Ctx Decoder → Bool → List ℕ → Option (Rx Ctx Decoder)
  accept_packet s on_hold buf =
      let s' : Rx Ctx Decoder = record s {
        packets_received = u64 (s.packets_received + 1);
        bytes_received = u64 (s.bytes_received + length buf);
      } in
      if on_hold then some s' else open_packet s' buf s'.srtp_in

  -- The address is learned from the first packet, while its port is 0; else others are dropped.
  unfoldable pub receive_packet :
      Rx Ctx Decoder → Bool → List ℕ → SocketAddr → Option (Rx Ctx Decoder)
  unfolding accept_packet
  receive_packet s on_hold buf src =
      if ltb (length buf) 12
      then some s
      else if s.remote_addr.port == 0
      then accept_packet (record s { remote_addr = src }) on_hold buf
      else if not (same_addr s.remote_addr src)
      then some s
      else accept_packet s on_hold buf

  unfoldable pub receive_turn : Rx Ctx Decoder → RxTurn → Option (Rx Ctx Decoder)
  unfolding receive_packet
  receive_turn s turn = elim turn.received [
    | none ↦ some s
    | some (buf, src) ↦ receive_packet s turn.on_hold buf src
  ]

  -- The loop, as long as `running` is set.
  unfoldable pub receive_loop : Rx Ctx Decoder → List (RxStep Ctx) → Option (Rx Ctx Decoder)
  unfolding receive_turn
  receive_loop s [] = some s
  receive_loop s (RxStep.one_turn t ∷ steps) = elim (receive_turn s t) [
    | none ↦ none
    | some s' ↦ receive_loop s' steps
  ]
  receive_loop s (RxStep.set_keys ctx ∷ steps) =
      receive_loop (record s { srtp_in = some ctx }) steps
  receive_loop s (RxStep.set_tap b ∷ steps) = receive_loop (record s { has_tap = b }) steps
  receive_loop s (RxStep.set_remote addr ∷ steps) =
      receive_loop (record s { remote_addr = addr }) steps
