-- ===== src/Media/Sdp/Decimal.antt =====
-- About src/media.rs, `parse_sdp_remote`: the digits of a port.
use Prim.Native.String.{String}
use text.Mathlib.TextLemmas.{cons-append, nil-append}
use aria_mobile_core.Base.{
  ℕ, zero, suc, ◌+◌, ◌-◌, ◌*◌, ◌/◌, ◌%◌, ◌<◌, ◌≤◌, ◌≡◌, refl, ap, ◌==◌, ltb, Bool, true, false,
  codes, concat, digit, decimal, all, some, List, length, length-append, [], ◌∷◌, ◌++◌, inl, inr,
  arith, if◌then◌else◌, Bool-cases,
}
use aria_mobile_core.Media.Sdp.{is_digit, digits_value, parse_u16}

pub codes-concat : (s t : String) → codes (concat s t) ≡ codes s ++ codes t
codes-concat String.[] t = ap codes (nil-append t)
codes-concat (String.◌∷◌ c s) t = rw (cons-append c s t, codes-concat s t) refl

-- One test of the chain.
tested :
    (d k : ℕ) (s rest : String)
    → codes s ≡ (48 + k) ∷ []
    → k ≤ d
    → (k < d → codes rest ≡ (48 + d) ∷ [])
    → codes (if d == k then s else rest) ≡ (48 + d) ∷ []
tested d k s rest c h next = elim (Bool-cases (d == k)) [
  | inl t ↦ let e : d ≡ k = ground arith in rw (t, e) c
  | inr t ↦ rw t (next (ground arith))
]

codes-digit : (d : ℕ) → d < 10 → codes (digit d) ≡ (48 + d) ∷ []
codes-digit d h = tested d 0 _ _ refl (omega arith) (λ h1.
    tested d 1 _ _ refl (omega (arith, h1)) (λ h2. tested d 2 _ _ refl (omega (arith, h2)) (λ h3.
      tested d 3 _ _ refl (omega (arith, h3)) (λ h4. tested d 4 _ _ refl (omega (arith, h4)) (λ h5.
        tested d 5 _ _ refl (omega (arith, h5)) (λ h6.
          tested d 6 _ _ refl (omega (arith, h6)) (λ h7.
            tested d 7 _ _ refl (omega (arith, h7)) (λ h8.
              tested d 8 _ _ refl (omega (arith, h8))
                (λ h9. let e : d ≡ 9 = omega (arith, h, h9) in rw e refl)))))))))

digits_value-append :
    (acc : ℕ) (xs ys : List ℕ) → digits_value acc (xs ++ ys) ≡ digits_value (digits_value acc xs) ys
digits_value-append acc [] ys = refl
digits_value-append acc (x ∷ xs) ys = digits_value-append (acc * 10 + (x - b'0')) xs ys

pub all-append :
    (p : ℕ → Bool) (xs ys : List ℕ) → all p xs ≡ true → all p ys ≡ true → all p (xs ++ ys) ≡ true
all-append p [] ys hx hy = hy
all-append p (x ∷ xs) ys hx hy = ground (arith, all-append p xs ys)

abbrev pub pow10 : ℕ → ℕ
pow10 zero = 1
pow10 (suc k) = 10 * pow10 k

abbrev pub IsNumeral : ℕ → List ℕ → Type 0
IsNumeral n l = (all is_digit l ≡ true) × (digits_value 0 l ≡ n)

pub decimal-IsNumeral : (fuel n : ℕ) → n < pow10 fuel → IsNumeral n (codes (decimal fuel n))
unfolding decimal
decimal-IsNumeral zero n h = (refl, omega (arith, h))
decimal-IsNumeral (suc fuel) n h =
    let d = codes-digit (n % 10) (omega arith) in
    elim (Bool-cases (ltb n 10)) [
      | inl t ↦ rw (t, codes-concat "" (digit (n % 10)), d) (ground arith, ground arith)
      | inr t ↦
          let (ds, v) = decimal-IsNumeral fuel (n / 10) (omega (arith, h)) in
          let front = codes (decimal fuel (n / 10)) in
          rw (t, codes-concat (decimal fuel (n / 10)) (digit (n % 10)), d)
            (
              all-append is_digit front ((48 + n % 10) ∷ []) ds (ground arith),
              rw (digits_value-append 0 front ((48 + n % 10) ∷ []), v) (ground arith),
            )
    ]

pub decimal-length : (fuel n : ℕ) → ltb 0 (length (codes (decimal (suc fuel) n))) ≡ true
unfolding decimal
decimal-length fuel n =
    let front = if ltb n 10 then "" else decimal fuel (n / 10) in
    rw
      (
        codes-concat front (digit (n % 10)),
        codes-digit (n % 10) (omega arith),
        length-append (codes front) ((48 + n % 10) ∷ []),
      )
      (ground arith)

-- A port is read back from its digits.
pub decimal-parse_u16 : (port : ℕ) → port < 65536 → parse_u16 (codes (decimal 5 port)) ≡ some port
decimal-parse_u16 port h =
    let (ds, v) = decimal-IsNumeral 5 port (omega (arith, h)) in
    by_codes (codes (decimal 5 port)) (decimal-length 4 port) ds v
  where
    by_codes :
        (l : List ℕ)
        → ltb 0 (length l) ≡ true
        → all is_digit l ≡ true
        → digits_value 0 l ≡ port
        → parse_u16 l ≡ some port
    by_codes [] n ds v = cc
    by_codes (c ∷ l) n ds v =
        let plain : (c == b'+') ≡ false = ground arith in rw (plain, ds, v) (ground arith)
