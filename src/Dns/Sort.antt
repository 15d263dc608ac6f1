-- ===== src/Dns/Sort.antt =====
-- src/dns.rs: `sort_by`, the standard library's stable sort, for an order given as a test.
use aria_mobile_core.Base.{
  ◌≡◌, Bool, true, false, if◌then◌else◌, List, [], ◌∷◌, inl, inr, Bool-cases,
}
use mathlib.Core.List.{Perm}
use mathlib.Core.List.Perm

module _ {ℓ} {A : Type ℓ} (before : A → A → Bool) where
  -- In front of those that do not go before it.
  abbrev pub insert_by : A → List A → List A
  insert_by x [] = x ∷ []
  insert_by x (y ∷ ys) = let rest = insert_by x ys in if before y x then y ∷ rest else x ∷ y ∷ ys

  abbrev pub sort_by : List A → List A
  sort_by [] = []
  sort_by (x ∷ xs) = insert_by x (sort_by xs)

  -- No neighbours are the wrong way round.
  abbrev pub IsOrdered : List A → Type 0
  IsOrdered [] = Unit
  IsOrdered (x ∷ []) = Unit
  IsOrdered (x ∷ y ∷ ys) = (before y x ≡ false) × IsOrdered (y ∷ ys)

  insert_by-Perm : (x : A) (xs : List A) → Perm (insert_by x xs) (x ∷ xs)
  insert_by-Perm x [] = Perm.refl (x ∷ [])
  insert_by-Perm x (y ∷ ys) = elim (Bool-cases (before y x)) [
    | inl t ↦ rw t (Perm.trans (Perm.cons y (insert_by-Perm x ys)) (Perm.swap x y ys))
    | inr t ↦ rw t (Perm.refl (x ∷ y ∷ ys))
  ]

  pub sort_by-Perm : (xs : List A) → Perm (sort_by xs) xs
  sort_by-Perm [] = Perm.refl []
  sort_by-Perm (x ∷ xs) = Perm.trans (insert_by-Perm x (sort_by xs)) (Perm.cons x (sort_by-Perm xs))

module _ {ℓ} {A : Type ℓ} (before : A → A → Bool)
    (asym : (x y : A) → before x y ≡ true → before y x ≡ false) where
  insert_behind :
      (y x : A) (ys : List A)
      → IsOrdered before (y ∷ ys)
      → before x y ≡ false
      → IsOrdered before (y ∷ insert_by before x ys)
  insert_behind y x [] h b = (b, tt)
  insert_behind y x (z ∷ zs) h b = elim (Bool-cases (before z x)) [
    | inl t ↦ rw t (h.0, insert_behind z x zs h.1 (asym z x t))
    | inr t ↦ rw t (b, (t, h.1))
  ]

  insert_by-IsOrdered :
      (x : A) (xs : List A) → IsOrdered before xs → IsOrdered before (insert_by before x xs)
  insert_by-IsOrdered x [] h = tt
  insert_by-IsOrdered x (y ∷ ys) h = elim (Bool-cases (before y x)) [
    | inl t ↦ rw t (insert_behind y x ys h (asym y x t))
    | inr t ↦ rw t (t, h)
  ]

  pub sort_by-IsOrdered : (xs : List A) → IsOrdered before (sort_by before xs)
  sort_by-IsOrdered [] = tt
  sort_by-IsOrdered (x ∷ xs) = insert_by-IsOrdered x (sort_by before xs) (sort_by-IsOrdered xs)
