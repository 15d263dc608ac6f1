-- ===== src/Engine/Steps/Numbers.antt =====
-- About src/lib.rs: the numbers of the calls, `seq`, in the two maps that the steps change.
use aria_mobile_core.Base.{
  ℕ, ◌≡◌, ◌≢◌, refl, sym, String, str_eq, some, List, [], ◌∷◌, ◌++◌, All, Bool-cases, inl, inr,
}
use mathlib.Core.Option.{some-injective}
use aria_mobile_core.Base.Dict.{Dict, get, insert, modify, remove}

-- The first list, in some order, is part of the second one.
pub data Part : List ℕ → List ℕ → Type 0 where
  same : (l : List ℕ) → Part l l
  keep : (x : ℕ) {l m : List ℕ} → Part l m → Part (x ∷ l) (x ∷ m)
  skip : (x : ℕ) {l m : List ℕ} → Part l m → Part l (x ∷ m)
  swap : (x y : ℕ) (l : List ℕ) → Part (x ∷ y ∷ l) (y ∷ x ∷ l)
  then_ : {l m n : List ℕ} → Part l m → Part m n → Part l n

abbrev pub Distinct : List ℕ → Type 0
Distinct [] = Unit
Distinct (x ∷ l) = All (λ y. x ≢ y) l × Distinct l

pub All-Part : (P : ℕ → Type 0) {l m : List ℕ} → Part l m → All P m → All P l
All-Part P (Part.same l) h = h
All-Part P (Part.keep x p) h = (h.0, All-Part P p h.1)
All-Part P (Part.skip x p) h = All-Part P p h.1
All-Part P (Part.swap x y l) h = (h.1.0, (h.0, h.1.1))
All-Part P (Part.then_ p q) h = All-Part P p (All-Part P q h)

pub Distinct-Part : {l m : List ℕ} → Part l m → Distinct m → Distinct l
Distinct-Part (Part.same l) h = h
Distinct-Part (Part.keep x p) h = (All-Part (λ y. x ≢ y) p h.0, Distinct-Part p h.1)
Distinct-Part (Part.skip x p) h = Distinct-Part p h.1
Distinct-Part (Part.swap x y l) h = ((λ e. h.0.0 (sym e), h.1.0), (h.0.1, h.1.1))
Distinct-Part (Part.then_ p q) h = Distinct-Part p (Distinct-Part q h)

pub Part-append_left : (front : List ℕ) {l m : List ℕ} → Part l m → Part (front ++ l) (front ++ m)
Part-append_left [] p = p
Part-append_left (x ∷ front) p = Part.keep x (Part-append_left front p)

pub Part-append_right : (rest : List ℕ) {l m : List ℕ} → Part l m → Part (l ++ rest) (m ++ rest)
Part-append_right rest (Part.same l) = Part.same (l ++ rest)
Part-append_right rest (Part.keep x p) = Part.keep x (Part-append_right rest p)
Part-append_right rest (Part.skip x p) = Part.skip x (Part-append_right rest p)
Part-append_right rest (Part.swap x y l) = Part.swap x y (l ++ rest)
Part-append_right rest (Part.then_ p q) =
    Part.then_ (Part-append_right rest p) (Part-append_right rest q)

pub Part-middle : (x : ℕ) (l m : List ℕ) → Part (x ∷ l ++ m) (l ++ (x ∷ m))
Part-middle x [] m = Part.same (x ∷ m)
Part-middle x (y ∷ l) m = Part.then_ (Part.swap x y (l ++ m)) (Part.keep y (Part-middle x l m))

pub Part-middle_back : (x : ℕ) (l m : List ℕ) → Part (l ++ (x ∷ m)) (x ∷ l ++ m)
Part-middle_back x [] m = Part.same (x ∷ m)
Part-middle_back x (y ∷ l) m =
    Part.then_ (Part.keep y (Part-middle_back x l m)) (Part.swap y x (l ++ m))

module _ {V : Type 0} (number : V → ℕ) where
  abbrev pub numbers : Dict V → List ℕ
  numbers [] = []
  numbers ((k, v) ∷ m) = number v ∷ numbers m

  pub numbers-remove : (k : String) (m : Dict V) → Part (numbers (remove k m)) (numbers m)
  unfolding remove
  numbers-remove k [] = Part.same []
  numbers-remove k ((j, w) ∷ m) = elim (Bool-cases (str_eq j k)) [
    | inl t ↦ rw t (Part.skip (number w) (numbers-remove k m))
    | inr t ↦ rw t (Part.keep (number w) (numbers-remove k m))
  ]

  pub numbers-modify :
      (k : String) (f : V → V) (m : Dict V)
      → ((v : V) → number (f v) ≡ number v)
      → numbers (modify k f m) ≡ numbers m
  unfolding modify
  numbers-modify k f [] h = refl
  numbers-modify k f ((j, w) ∷ m) h = elim (Bool-cases (str_eq j k)) [
    | inl t ↦ rw (t, h w) refl
    | inr t ↦ rw (t, numbers-modify k f m h) refl
  ]

  pub numbers-insert :
      (k : String) (v : V) (m : Dict V) → Part (numbers (insert k v m)) (number v ∷ numbers m)
  unfolding insert
  numbers-insert k v [] = Part.same (number v ∷ [])
  numbers-insert k v ((j, w) ∷ m) = elim (Bool-cases (str_eq j k)) [
    | inl t ↦ rw t (Part.keep (number v) (Part.skip (number w) (Part.same (numbers m))))
    | inr t ↦ rw t (
        Part.then_ (Part.keep (number w) (numbers-insert k v m))
          (Part.swap (number w) (number v) (numbers m)))
  ]

  -- A write that keeps the number of the entry.
  pub numbers-put :
      (k : String) (v w : V) (m : Dict V)
      → get k m ≡ some w
      → number v ≡ number w
      → numbers (insert k v m) ≡ numbers m
  unfolding insert get
  numbers-put k v w [] e h = cc
  numbers-put k v w ((j, u) ∷ m) e h = elim (Bool-cases (str_eq j k)) [
    | inl t ↦ let same : u ≡ w = some-injective u w (rw t at e) in rw (t, same, h) refl
    | inr t ↦ rw (t, numbers-put k v w m (rw t at e) h) refl
  ]

  pub numbers-taken :
      (k : String) (w : V) (m : Dict V)
      → get k m ≡ some w
      → Part (number w ∷ numbers (remove k m)) (numbers m)
  unfolding remove get
  numbers-taken k w [] e = cc
  numbers-taken k w ((j, u) ∷ m) e = elim (Bool-cases (str_eq j k)) [
    | inl t ↦
        let same : u ≡ w = some-injective u w (rw t at e) in
        rw (t, same) (Part.keep (number w) (numbers-remove k m))
    | inr t ↦ rw t (
        Part.then_ (Part.swap (number w) (number u) (numbers (remove k m)))
          (Part.keep (number u) (numbers-taken k w m (rw t at e))))
  ]
