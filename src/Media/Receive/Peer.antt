-- ===== src/Media/Receive/Peer.antt =====
-- About src/media.rs, the receive thread: whose packets count.
use aria_mobile_core.Base.{
  ℕ, suc, All, ◌+◌, ◌<◌, ◌≡◌, refl, sym, subst, ◌∙◌, ltb, ◌==◌, u64, if◌then◌else◌, Bool, true,
  false, not, ◌&&◌, Option, none, some, List, [], ◌∷◌, length, drop, inl, inr, arith, Bool-cases,
  Option-cases,
}
use mathlib.Core.Option.{some-injective}
use aria_mobile_core.Media.{SocketAddr}
use aria_mobile_core.Media.Receive.{
  Rx, RxLib, RxTurn, RxStep, same_addr, play, play_packet, open_packet, accept_packet, receive_turn,
  receive_loop,
}

-- Long enough for RTP, and from this address.
abbrev pub is_from : SocketAddr → Option (List ℕ × SocketAddr) → Bool
is_from peer none = false
is_from peer (some (buf, src)) = not (ltb (length buf) 12) && same_addr peer src

-- Without the turns that brought nothing from the peer.
abbrev pub from_peer : {Ctx : Type 0} → SocketAddr → List (RxStep Ctx) → List (RxStep Ctx)
from_peer peer [] = []
from_peer peer (RxStep.one_turn t ∷ steps) =
    if is_from peer t.received
    then RxStep.one_turn t ∷ from_peer peer steps
    else from_peer peer steps
from_peer peer (step ∷ steps) = step ∷ from_peer peer steps

-- How many packets came from the peer.
abbrev pub packets_from : {Ctx : Type 0} → SocketAddr → List (RxStep Ctx) → ℕ
packets_from peer [] = 0
packets_from peer (RxStep.one_turn t ∷ steps) =
    if is_from peer t.received then suc (packets_from peer steps) else packets_from peer steps
packets_from peer (step ∷ steps) = packets_from peer steps

-- No other thread sets the address anew.
abbrev pub LeavesAddress : {Ctx : Type 0} → RxStep Ctx → Type 0
LeavesAddress (RxStep.set_remote addr) = ⊥
LeavesAddress step = Unit

module _ {Ctx Decoder : Type 0} (lib : RxLib Ctx Decoder) where
  -- What playing leaves as it is, where the thread goes on: the address and the number of packets.
  abbrev Keeps : Rx Ctx Decoder → Option (Rx Ctx Decoder) → Type 0
  Keeps s none = Unit
  Keeps s (some s') = (s'.remote_addr ≡ s.remote_addr) × (s'.packets_received ≡ s.packets_received)

  play-Keeps : (s : Rx Ctx Decoder) (r : Decoder × List ℕ) → Keeps s (some (play lib s r))
  play-Keeps s (d, []) = (refl, refl)
  play-Keeps s (d, x ∷ xs) = (refl, refl)

  play_packet-Keeps :
      (s : Rx Ctx Decoder) (buf packet : List ℕ) → Keeps s (play_packet lib s buf packet)
  play_packet-Keeps s buf packet = elim (Option-cases (lib.parse packet)) [
    | inl n ↦ rw (n, Keeps) (refl, refl)
    | inr (h, n) ↦ elim (Bool-cases (h.payload_type == 101)) [
      | inl t ↦ rw (n, Keeps, t) (refl, refl)
      | inr t ↦ elim (Bool-cases (ltb (length buf) h.header_length)) [
        | inl u ↦ rw (n, Keeps, t, u) tt
        | inr u ↦ elim (Bool-cases (length buf == h.header_length)) [
          | inl v ↦ rw (n, Keeps, t, u, v) (refl, refl)
          | inr v ↦
              rw (n, Keeps, t, u, v)
                (play-Keeps s (lib.decode s.decoder (drop h.header_length buf)))
        ]
      ]
    ]
  ]

  open_packet-Keeps :
      (s : Rx Ctx Decoder) (buf : List ℕ) (c : Option Ctx) → Keeps s (open_packet lib s buf c)
  open_packet-Keeps s buf none = play_packet-Keeps s buf buf
  open_packet-Keeps s buf (some ctx) = elim (Option-cases (lib.unprotect_rtp ctx buf).1) [
    | inl n ↦ rw (n, Keeps) (refl, refl)
    | inr (plain, n) ↦
        rw (n, Keeps)
          (play_packet-Keeps (record s { srtp_in = some (lib.unprotect_rtp ctx buf).0 }) buf plain)
  ]

  -- A packet from the peer is counted, and the address stays.
  abbrev Counts : Rx Ctx Decoder → Option (Rx Ctx Decoder) → Type 0
  Counts s none = Unit
  Counts s (some s') =
      (s'.remote_addr ≡ s.remote_addr) × (s'.packets_received ≡ u64 (s.packets_received + 1))

  accept_packet-Counts :
      (s : Rx Ctx Decoder) (b : Bool) (buf : List ℕ) → Counts s (accept_packet lib s b buf)
  unfolding accept_packet
  accept_packet-Counts s true buf = (refl, refl)
  accept_packet-Counts s false buf =
      open_packet-Keeps
        (record s {
          packets_received = u64 (s.packets_received + 1);
          bytes_received = u64 (s.bytes_received + length buf);
        })
        buf s.srtp_in

  -- A turn that gives nothing from a known peer changes nothing; any other one is a packet.
  turn_is_from :
      (s : Rx Ctx Decoder) (turn : RxTurn)
      → (s.remote_addr.port == 0) ≡ false
      → is_from s.remote_addr turn.received ≡ true
      → Counts s (receive_turn lib s turn)
  unfolding receive_turn
  turn_is_from s turn k h = by_received turn.received h
    where
      by_received :
          (r : Option (List ℕ × SocketAddr))
          → is_from s.remote_addr r ≡ true
          → Counts s (receive_turn lib s (record turn { received = r }))
      by_received none h = cc
      by_received (some (buf, src)) h =
          let long : ltb (length buf) 12 ≡ false = ground arith in
          let same : same_addr s.remote_addr src ≡ true = ground arith in
          rw (long, Counts, k, same) (accept_packet-Counts s turn.on_hold buf)

  turn_not_from :
      (s : Rx Ctx Decoder) (turn : RxTurn)
      → (s.remote_addr.port == 0) ≡ false
      → is_from s.remote_addr turn.received ≡ false
      → receive_turn lib s turn ≡ some s
  unfolding receive_turn
  turn_not_from s turn k h = by_received turn.received h
    where
      by_received :
          (r : Option (List ℕ × SocketAddr))
          → is_from s.remote_addr r ≡ false
          → receive_turn lib s (record turn { received = r }) ≡ some s
      by_received none h = refl
      by_received (some (buf, src)) h = ground (arith, k)

  -- The state after a packet of the peer.
  turn_some :
      (s s' : Rx Ctx Decoder) (turn : RxTurn)
      → (s.remote_addr.port == 0) ≡ false
      → is_from s.remote_addr turn.received ≡ true
      → receive_turn lib s turn ≡ some s'
      → (s'.remote_addr ≡ s.remote_addr) × (s'.packets_received ≡ u64 (s.packets_received + 1))
  turn_some s s' turn k h e = subst (λ o. Counts s o) e (turn_is_from s turn k h)

  receive_loop-filter :
      (peer : SocketAddr) (s : Rx Ctx Decoder) (steps : List (RxStep Ctx))
      → (peer.port == 0) ≡ false
      → s.remote_addr ≡ peer
      → All LeavesAddress steps
      → receive_loop lib s steps ≡ receive_loop lib s (from_peer peer steps)
  unfolding receive_loop
  receive_loop-filter peer s [] k a l = refl
  receive_loop-filter peer s (RxStep.one_turn t ∷ steps) k a l =
      let k' : (s.remote_addr.port == 0) ≡ false = rw a k in
      elim (Bool-cases (is_from peer t.received)) [
        | inr f ↦
            rw (f, receive_loop, turn_not_from s t k' (rw a f))
              (receive_loop-filter peer s steps k a l.1)
        | inl f ↦ elim (Option-cases (receive_turn lib s t)) [
          | inl n ↦ rw (f, receive_loop, n)
          | inr (s', n) ↦
              rw (f, receive_loop, n)
                (receive_loop-filter peer s' steps k ((turn_some s s' t k' (rw a f) n).0 ∙ a) l.1)
        ]
      ]
  receive_loop-filter peer s (RxStep.set_keys ctx ∷ steps) k a l =
      receive_loop-filter peer (record s { srtp_in = some ctx }) steps k a l.1
  receive_loop-filter peer s (RxStep.set_tap b ∷ steps) k a l =
      receive_loop-filter peer (record s { has_tap = b }) steps k a l.1
  receive_loop-filter peer s (RxStep.set_remote addr ∷ steps) k a l = absurd l.0

  receive_loop-some :
      (s s1 : Rx Ctx Decoder) (t : RxTurn) (steps : List (RxStep Ctx))
      → receive_turn lib s t ≡ some s1
      → receive_loop lib s (RxStep.one_turn t ∷ steps) ≡ receive_loop lib s1 steps
  unfolding receive_loop
  receive_loop-some s s1 t steps n = rw (n, receive_loop)

  receive_loop-none :
      (s : Rx Ctx Decoder) (t : RxTurn) (steps : List (RxStep Ctx))
      → receive_turn lib s t ≡ none
      → receive_loop lib s (RxStep.one_turn t ∷ steps) ≡ none
  unfolding receive_loop
  receive_loop-none s t steps n = rw (n, receive_loop)

  receive_loop-counts :
      (peer : SocketAddr) (s s' : Rx Ctx Decoder) (steps : List (RxStep Ctx))
      → (peer.port == 0) ≡ false
      → s.remote_addr ≡ peer
      → All LeavesAddress steps
      → s.packets_received < 18446744073709551616
      → receive_loop lib s steps ≡ some s'
      → (s'.remote_addr ≡ peer)
        × (s'.packets_received ≡ u64 (s.packets_received + packets_from peer steps))
  unfolding receive_loop
  receive_loop-counts peer s s' [] k a l b e =
      let same = some-injective s s' e in rw (← same) (a, omega arith)
  receive_loop-counts peer s s' (RxStep.one_turn t ∷ steps) k a l b e =
      let k' : (s.remote_addr.port == 0) ≡ false = rw a k in
      elim (Bool-cases (is_from peer t.received)) [
        | inr f ↦ rw f (
            receive_loop-counts peer s s' steps k a l.1 b
              (sym (receive_loop-some s s t steps (turn_not_from s t k' (rw a f))) ∙ e))
        | inl f ↦ elim (Option-cases (receive_turn lib s t)) [
          | inl n ↦ let stuck : none ≡ some s' = sym (receive_loop-none s t steps n) ∙ e in cc
          | inr (s1, n) ↦
              let (a1, c1) = turn_some s s1 t k' (rw a f) n in
              let (ar, cr) =
                receive_loop-counts peer s1 s' steps k (a1 ∙ a) l.1 (rw c1 (omega arith))
                  (sym (receive_loop-some s s1 t steps n) ∙ e) in
              rw f (ar, omega (arith, cr, c1))
        ]
      ]
  receive_loop-counts peer s s' (RxStep.set_keys ctx ∷ steps) k a l b e =
      receive_loop-counts peer (record s { srtp_in = some ctx }) s' steps k a l.1 b e
  receive_loop-counts peer s s' (RxStep.set_tap t ∷ steps) k a l b e =
      receive_loop-counts peer (record s { has_tap = t }) s' steps k a l.1 b e
  receive_loop-counts peer s s' (RxStep.set_remote addr ∷ steps) k a l b e = absurd l.0

  -- Where the thread starts with a known peer (its port is not 0), no other thread sets the address
  -- anew, and the thread goes on, it has done what it would have done without the turns that brought
  -- nothing from that address, whenever the keys or the tap are set: packets of others have no effect.
  -- The address is still the peer's, and exactly the packets from it that have the length of an RTP
  -- header have been counted.
  pub receive_loop-from_peer :
      (s s' : Rx Ctx Decoder) (steps : List (RxStep Ctx))
      → (s.remote_addr.port == 0) ≡ false
      → All LeavesAddress steps
      → s.packets_received < 18446744073709551616
      → receive_loop lib s steps ≡ some s'
      → (receive_loop lib s (from_peer s.remote_addr steps) ≡ some s')
        × (s'.remote_addr ≡ s.remote_addr)
        × (s'.packets_received ≡ u64 (s.packets_received + packets_from s.remote_addr steps))
  receive_loop-from_peer s s' steps k l b e =
      let counted = receive_loop-counts s.remote_addr s s' steps k refl l b e in
      (sym (receive_loop-filter s.remote_addr s steps k refl l) ∙ e, counted.0, counted.1)
