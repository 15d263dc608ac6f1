-- ===== src/Media/Dtmf.antt =====
-- src/media.rs: `send_dtmf`, a keypad digit as RTP telephone events.
use aria_mobile_core.Base.{
  ℕ, ◌+◌, ◌-◌, ◌*◌, ◌/◌, ◌%◌, ◌≡◌, refl, ◌==◌, leb, u16, if◌then◌else◌, Bool, true, false, String,
  str_eq, Option, none, some, List, [], ◌∷◌, ◌++◌, map, eq_iff, Bool-cases, inl, inr,
}
use mathlib.Core.Option.{some-injective}
use aria_mobile_core.Media.{SocketAddr}
use aria_mobile_core.Media.Transmit.{Datagram}

abbrev pub event_of : String → Option ℕ
event_of digit =
    if str_eq digit "0"
    then some 0
    else if str_eq digit "1"
    then some 1
    else if str_eq digit "2"
    then some 2
    else if str_eq digit "3"
    then some 3
    else if str_eq digit "4"
    then some 4
    else if str_eq digit "5"
    then some 5
    else if str_eq digit "6"
    then some 6
    else if str_eq digit "7"
    then some 7
    else if str_eq digit "8"
    then some 8
    else if str_eq digit "9"
    then some 9
    else if str_eq digit "*"
    then some 10
    else if str_eq digit "#"
    then some 11
    else none

-- `RtpHeader::new` with the marker, and `to_bytes`: the marker, the payload type, the sequence number,
-- the timestamp and the SSRC.
abbrev pub HeaderBytes : Type 0
HeaderBytes = Bool → ℕ → ℕ → ℕ → ℕ → List ℕ

-- The event, the end bit with the volume 10, and the two bytes of the duration.
abbrev pub event_payload : ℕ → Bool → ℕ → List ℕ
event_payload event is_end duration =
    event ∷ (if is_end then 138 else 10) ∷ (duration / 256) % 256 ∷ duration % 256 ∷ []

module _ (header_bytes : HeaderBytes) (ssrc timestamp seq_base event : ℕ) where
  abbrev event_packet : ℕ → ℕ → Bool → List ℕ
  event_packet i duration is_end =
      header_bytes (i == 0) 101 (u16 (seq_base + i)) timestamp ssrc
      ++ event_payload event is_end duration

  -- The loop over `durations`, with its index; the last packet goes out three times.
  abbrev event_packets : ℕ → List ℕ → List (List ℕ)
  event_packets i [] = []
  event_packets i (duration ∷ []) =
      let packet = event_packet i duration true in packet ∷ packet ∷ packet ∷ []
  event_packets i (duration ∷ next ∷ more) =
      event_packet i duration false ∷ event_packets (i + 1) (next ∷ more)

abbrev pub send_event : HeaderBytes → SocketAddr → ℕ → ℕ → ℕ → Option ℕ → List Datagram
send_event header_bytes remote ssrc timestamp seq_base none = []
send_event header_bytes remote ssrc timestamp seq_base (some event) =
    if remote.port == 0
    then []
    else map (λ bytes. record { bytes = bytes; to = remote })
        (event_packets header_bytes ssrc timestamp seq_base event 0 (160 ∷ 320 ∷ 480 ∷ []))

-- The timestamp and the first sequence number are the random generator's.
unfoldable pub send_dtmf : HeaderBytes → SocketAddr → ℕ → ℕ → ℕ → String → List Datagram
send_dtmf header_bytes remote ssrc timestamp seq_base digit =
    send_event header_bytes remote ssrc timestamp seq_base (event_of digit)

-- What a receiver reads of a packet of RTP (RFC 3550), and of its payload (RFC 2833).
pub record RtpPacket : Type 0 where
  pub marker : Bool
  pub payload_type : ℕ
  pub seq : ℕ
  pub timestamp : ℕ
  pub ssrc : ℕ
  pub payload : List ℕ

pub record KeyPress : Type 0 where
  pub digit : Option String
  pub is_end : Bool
  pub volume : ℕ
  pub duration : ℕ
  pub seq : ℕ
  pub timestamp : ℕ

abbrev nth_digit : List String → ℕ → Option String
nth_digit [] n = none
nth_digit (d ∷ ds) n = if n == 0 then some d else nth_digit ds (n - 1)

abbrev pub digit_of : ℕ → Option String
digit_of = nth_digit ("0" ∷ "1" ∷ "2" ∷ "3" ∷ "4" ∷ "5" ∷ "6" ∷ "7" ∷ "8" ∷ "9" ∷ "*" ∷ "#" ∷ [])

abbrev pub press_of : RtpPacket → List ℕ → Option KeyPress
press_of p (event ∷ flags ∷ high ∷ low ∷ []) = some (record {
  digit = digit_of event;
  is_end = leb 128 flags;
  volume = flags % 64;
  duration = high * 256 + low;
  seq = p.seq;
  timestamp = p.timestamp;
})
press_of p _ = none

abbrev pub hear_press : (List ℕ → Option RtpPacket) → Datagram → Option KeyPress
hear_press parse d = elim (parse d.bytes) [
  | none ↦ none
  | some p ↦ if p.payload_type == 101 then press_of p p.payload else none
]

-- One test of the chain.
tested :
    (digit d : String) (k e : ℕ) (rest : Option ℕ)
    → digit_of k ≡ some d
    → (rest ≡ some e → digit_of e ≡ some digit)
    → (if str_eq digit d then some k else rest) ≡ some e
    → digit_of e ≡ some digit
tested digit d k e rest named next h = elim (Bool-cases (str_eq digit d)) [
  | inl t ↦
      let same : k ≡ e = some-injective k e (rw t at h) in
      rw (← same, named, (eq_iff digit d).0 t) refl
  | inr t ↦ next (rw t at h)
]

event_of-digit_of : (digit : String) (e : ℕ) → event_of digit ≡ some e → digit_of e ≡ some digit
event_of-digit_of digit e = tested digit "0" 0 e _ refl (
    tested digit "1" 1 e _ refl (
      tested digit "2" 2 e _ refl (
        tested digit "3" 3 e _ refl (
          tested digit "4" 4 e _ refl (
            tested digit "5" 5 e _ refl (
              tested digit "6" 6 e _ refl (
                tested digit "7" 7 e _ refl (
                  tested digit "8" 8 e _ refl (
                    tested digit "9" 9 e _ refl (
                      tested digit "*" 10 e _ refl
                        (tested digit "#" 11 e _ refl (λ h. cc))))))))))))

-- The press of `digit` with the `i`-th sequence number after the first.
abbrev pub press : String → ℕ → ℕ → Bool → ℕ → ℕ → Option KeyPress
press digit timestamp seq_base is_end duration i = some (record {
  digit = some digit;
  is_end = is_end;
  volume = 10;
  duration = duration;
  seq = u16 (seq_base + i);
  timestamp = timestamp;
})

-- A known digit, for a peer with a known address: a receiver that reads RTP hears the digit that was
-- given, in three packets of growing duration and rising sequence numbers (modulo 2^16), all with one
-- timestamp; the last one alone has the end bit, and comes three times.
pub send_dtmf-hear_press :
    (header_bytes : HeaderBytes) (parse : List ℕ → Option RtpPacket) (remote : SocketAddr)
    (ssrc timestamp seq_base event : ℕ) (digit : String)
    → ((m : Bool) (pt seq ts ssrc : ℕ) (body : List ℕ)
        → parse (header_bytes m pt seq ts ssrc ++ body)
          ≡ some (record {
            marker = m;
            payload_type = pt;
            seq = seq;
            timestamp = ts;
            ssrc = ssrc;
            payload = body;
          }))
    → event_of digit ≡ some event
    → (remote.port == 0) ≡ false
    → map (hear_press parse) (send_dtmf header_bytes remote ssrc timestamp seq_base digit)
      ≡ press digit timestamp seq_base false 160 0
        ∷ press digit timestamp seq_base false 320 1
        ∷ press digit timestamp seq_base true 480 2
        ∷ press digit timestamp seq_base true 480 2
        ∷ press digit timestamp seq_base true 480 2
        ∷ []
unfolding send_dtmf
send_dtmf-hear_press header_bytes parse remote ssrc timestamp seq_base event digit reads h p =
    rw (h, send_event, p, hear_press, reads, reads, reads, event_of-digit_of digit event h) refl
