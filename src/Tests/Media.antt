-- ===== src/Tests/Media.antt =====
-- The theorems on the two RTP threads and on keypad digits, at concrete inputs.
use aria_mobile_core.Base.{
  ℕ, zero, suc, ◌+◌, ◌≡◌, refl, true, false, Bool, Option, none, some, List, [], ◌∷◌, ◌++◌, length,
  map, u16, u64, arith,
}
use aria_mobile_core.Types.{pcmu}
use aria_mobile_core.Media.{SocketAddr}
use aria_mobile_core.Media.Receive.{Rx, RxLib, RxTurn, RxStep, accept_packet, receive_loop}
use aria_mobile_core.Media.Receive.Peer.{from_peer, packets_from, receive_loop-from_peer}
use aria_mobile_core.Media.Receive.Played.{StaysSilent, receive_loop-StaysSilent}
use aria_mobile_core.Media.Transmit.{Tx, TxLib, TxTurn, transmit_loop}
use aria_mobile_core.Media.Transmit.Numbered.{IsNumbered, transmit_loop-IsNumbered}
use aria_mobile_core.Media.Transmit.Microphone.{asking, unplug, transmit_loop-unplug}
use aria_mobile_core.Media.Dtmf.{
  HeaderBytes, RtpPacket, send_dtmf, hear_press, press, send_dtmf-hear_press,
}

abbrev peer : SocketAddr
peer = record { ip = "10.0.0.2"; port = 4000 }

abbrev stranger : SocketAddr
stranger = record { ip = "10.0.0.9"; port = 4000 }

-- Twelve bytes of header, and a payload of two.
abbrev packet : List ℕ
packet = 128 ∷ 0 ∷ 0 ∷ 1 ∷ 0 ∷ 0 ∷ 0 ∷ 160 ∷ 0 ∷ 0 ∷ 0 ∷ 7 ∷ 33 ∷ 44 ∷ []

-- The key of the context is a number that is written in front; opening takes the first byte off.
abbrev opened : List ℕ → Option (List ℕ)
opened [] = none
opened (b ∷ bs) = some bs

abbrev rx_lib : RxLib ℕ ℕ
rx_lib = record {
  unprotect_rtp = λ key buf. (key, opened buf);
  parse = λ buf. some (record { payload_type = 0; header_length = 12 });
  decode = λ n payload. (n, payload);
  level = λ pcm. length pcm;
}

abbrev receiving : Option ℕ → Rx ℕ ℕ
receiving key = record {
  remote_addr = peer;
  packets_received = 0;
  bytes_received = 0;
  rx_level = 0;
  srtp_in = key;
  decoder = 0;
  has_tap = true;
  tapped = [];
  played = [];
}

abbrev turn_from : Bool → SocketAddr → RxTurn
turn_from on_hold src = record { on_hold = on_hold; received = some (packet, src) }

-- With the tap taken off and put back between two packets.
abbrev arriving : Bool → List (RxStep ℕ)
arriving on_hold =
    RxStep.set_tap false
    ∷ RxStep.one_turn (turn_from on_hold stranger)
    ∷ RxStep.set_tap true
    ∷ RxStep.one_turn (turn_from on_hold peer)
    ∷ []

abbrev heard : Rx ℕ ℕ
heard = record {
  remote_addr = peer;
  packets_received = 1;
  bytes_received = 14;
  rx_level = 2;
  srtp_in = none;
  decoder = 0;
  has_tap = true;
  tapped = (33 ∷ 44 ∷ []) ∷ [];
  played = (33 ∷ 44 ∷ []) ∷ [];
}

loop_heard : receive_loop rx_lib (receiving none) (arriving false) ≡ some heard
unfolding receive_loop
loop_heard = refl

receive_loop-from_peer_example :
    (receive_loop rx_lib (receiving none) (from_peer peer (arriving false)) ≡ some heard)
    × (heard.remote_addr ≡ peer)
    × (heard.packets_received ≡ u64 (0 + packets_from peer (arriving false)))
receive_loop-from_peer_example =
    receive_loop-from_peer rx_lib (receiving none) heard (arriving false) refl
      (tt, (tt, (tt, (tt, tt)))) (omega arith) loop_heard

receive_loop-StaysSilent_example :
    StaysSilent rx_lib
      (receiving none)
      (arriving true)
      (receive_loop rx_lib (receiving none) (arriving true))
receive_loop-StaysSilent_example =
    receive_loop-StaysSilent rx_lib (receiving none) (arriving true) (tt, (refl, (tt, (refl, tt))))

abbrev played_of : Option (Rx ℕ ℕ) → List (List ℕ)
played_of none = []
played_of (some s) = s.played

-- The decrypted packet is one byte shorter; what is played is the payload as it was received.
undecrypted_test :
    played_of (accept_packet rx_lib (receiving (some 5)) false packet) ≡ (33 ∷ 44 ∷ []) ∷ []
unfolding accept_packet
undecrypted_test = refl

abbrev tx_lib : TxLib ℕ ℕ
tx_lib = record {
  header_bytes = λ pt seq ts ssrc. pt ∷ seq ∷ ts ∷ ssrc ∷ [];
  encode = λ n pcm. (n, pcm);
  protect_rtp = λ key packet. (key, some (key ∷ packet));
  level = λ pcm. length pcm;
}

abbrev sending : Tx ℕ ℕ
sending = record {
  seq = 65535;
  timestamp = 4294967200;
  packets_sent = 0;
  bytes_sent = 0;
  tx_level = 0;
  srtp_out = some 5;
  encoder = 0;
  captures = 0;
  has_tap = true;
  tapped = [];
}

abbrev spoken : Bool → TxTurn ℕ
spoken muted = record {
  new_keys = none;
  remote = peer;
  muted = muted;
  on_hold = false;
  captured = 1 ∷ 2 ∷ [];
  send_ok = true;
}

abbrev speaking : List (TxTurn ℕ)
speaking = spoken false ∷ spoken true ∷ []

transmit_loop-IsNumbered_example :
    IsNumbered tx_lib pcmu 9 65535 4294967200 0 (transmit_loop tx_lib pcmu 9 sending speaking).1
    × ((transmit_loop tx_lib pcmu 9 sending speaking).0.seq
        ≡ u16 (65535 + length (transmit_loop tx_lib pcmu 9 sending speaking).1))
transmit_loop-IsNumbered_example =
    transmit_loop-IsNumbered tx_lib pcmu 9 sending speaking 5 refl (omega arith) (omega arith)

transmit_loop-unplug_example :
    ((transmit_loop tx_lib pcmu 9 sending speaking).0.captures ≡ 0 + length (asking speaking))
    × (transmit_loop tx_lib pcmu 9 sending speaking
        ≡ transmit_loop tx_lib pcmu 9 sending (map unplug speaking))
transmit_loop-unplug_example = transmit_loop-unplug tx_lib pcmu 9 sending speaking

abbrev bit : Bool → ℕ
bit true = 1
bit false = 0

abbrev unbit : ℕ → Bool
unbit n = elim n [ zero ↦ false | suc m ↦ true ]

abbrev plain_header : HeaderBytes
plain_header m pt seq ts ssrc = bit m ∷ pt ∷ seq ∷ ts ∷ ssrc ∷ []

abbrev plain_parse : List ℕ → Option RtpPacket
plain_parse (m ∷ pt ∷ seq ∷ ts ∷ ssrc ∷ body) = some (record {
  marker = unbit m;
  payload_type = pt;
  seq = seq;
  timestamp = ts;
  ssrc = ssrc;
  payload = body;
})
plain_parse _ = none

plain_reads :
    (m : Bool) (pt seq ts ssrc : ℕ) (body : List ℕ)
    → plain_parse (plain_header m pt seq ts ssrc ++ body)
      ≡ some (record {
        marker = m;
        payload_type = pt;
        seq = seq;
        timestamp = ts;
        ssrc = ssrc;
        payload = body;
      })
plain_reads true pt seq ts ssrc body = refl
plain_reads false pt seq ts ssrc body = refl

send_dtmf-hear_press_example :
    map (hear_press plain_parse) (send_dtmf plain_header peer 9 1000 65534 "#")
    ≡ press "#" 1000 65534 false 160 0
      ∷ press "#" 1000 65534 false 320 1
      ∷ press "#" 1000 65534 true 480 2
      ∷ press "#" 1000 65534 true 480 2
      ∷ press "#" 1000 65534 true 480 2
      ∷ []
send_dtmf-hear_press_example =
    send_dtmf-hear_press plain_header plain_parse peer 9 1000 65534 11 "#" plain_reads refl refl
