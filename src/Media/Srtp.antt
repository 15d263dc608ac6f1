-- ===== src/Media/Srtp.antt =====
-- About src/media.rs, `apply_remote_sdp`: the SRTP keys of a session.
use aria_mobile_core.Base.{◌≡◌, ◌⊎◌, refl, true, String, Option, none, some, inl, inr, Bool-cases}
use aria_mobile_core.Types.{MobileError, ok, err}
use aria_mobile_core.Media.{
  MediaLib, MobileMediaSession, with_keys, set_srtp_keys, apply_remote_sdp,
}

-- Both keys of the session are `local_key` and `remote_key`, which the SRTP library takes.
abbrev pub IsKeyed : MediaLib → MobileMediaSession → String → String → Type 0
IsKeyed lib m local_key remote_key =
    (m.srtp_out ≡ some local_key)
    × (m.srtp_in ≡ some remote_key)
    × (lib.accepts local_key ≡ true)
    × (lib.accepts remote_key ≡ true)

set_srtp_keys-IsKeyed :
    (lib : MediaLib) (m : MobileMediaSession) (local_key remote_key : String)
    → let r = set_srtp_keys lib m local_key remote_key in
      (IsKeyed lib r.0 local_key remote_key × (r.1 ≡ ok tt))
      ⊎ ((r.0 ≡ m) × (r.1 ≡ err MobileError.media_error))
unfolding set_srtp_keys
set_srtp_keys-IsKeyed lib m local_key remote_key = elim (Bool-cases (lib.accepts local_key)) [
  | inr a ↦ inr (rw a, rw a)
  | inl a ↦ elim (Bool-cases (lib.accepts remote_key)) [
    | inr b ↦ inr (rw (a, b), rw (a, b))
    | inl b ↦ inl ((rw (a, b), rw (a, b), a, b), rw (a, b))
  ]
]

with_keys-IsKeyed :
    (lib : MediaLib) (m : MobileMediaSession) (a b : Option String)
    → let r = with_keys lib m a b in
      ((local_key remote_key : String) × (b ≡ some local_key)
        × (a ≡ some remote_key)
        × ((IsKeyed lib r.0 local_key remote_key × (r.1 ≡ ok tt))
            ⊎ ((r.0 ≡ m) × (r.1 ≡ err MobileError.media_error))))
      ⊎ (((b ≡ none) ⊎ (a ≡ none)) × (r ≡ (m, ok tt)))
with_keys-IsKeyed lib m none b = inr (inr refl, refl)
with_keys-IsKeyed lib m (some remote_key) none = inr (inl refl, refl)
with_keys-IsKeyed lib m (some remote_key) (some local_key) =
    inl (local_key, remote_key, refl, refl, set_srtp_keys-IsKeyed lib m local_key remote_key)

-- Applying a remote description that offers a key to a session that offered one puts both keys in
-- place, each taken by the SRTP library, or fails with `media_error` and leaves the session as it
-- was; where one side offers no key it succeeds and leaves the session as it was.
pub apply_remote_sdp-IsKeyed :
    (lib : MediaLib) (m : MobileMediaSession) (sdp : String)
    → let r = apply_remote_sdp lib m sdp in
      ((local_key remote_key : String) × (m.offered_srtp_key ≡ some local_key)
        × (lib.parse_sdp_crypto sdp ≡ some remote_key)
        × ((IsKeyed lib r.0 local_key remote_key × (r.1 ≡ ok tt))
            ⊎ ((r.0 ≡ m) × (r.1 ≡ err MobileError.media_error))))
      ⊎ (((m.offered_srtp_key ≡ none) ⊎ (lib.parse_sdp_crypto sdp ≡ none)) × (r ≡ (m, ok tt)))
unfolding apply_remote_sdp
apply_remote_sdp-IsKeyed lib m sdp =
    with_keys-IsKeyed lib m (lib.parse_sdp_crypto sdp) m.offered_srtp_key
