-- ===== src/Base/Dict.antt =====
-- The std `HashMap<String, V>` as an association list. The order in which a `HashMap` is iterated is
-- not specified; here it is that of the list, and the theorems hold for every list.
use Prim.Native.String.{String}
use Prim.Native.Nat.{◌+◌, ◌≤◌}
use text.Mathlib.TextEquality.{eq_iff}
use mathlib.Core.Logic.{inl, inr}
use mathlib.Core.Path.{◌≡◌, refl, sym, subst}
use mathlib.Core.Bool.{Bool}
use mathlib.Core.Option
use mathlib.Core.Option.{Option, none, some, some-injective}
use mathlib.Core.List.{List, [], ◌∷◌}
use native.Mathlib.Omega.{arith}
use aria_mobile_core.Base.Tests.{if◌then◌else◌, is_some, Bool-cases}
use aria_mobile_core.Base.Text.{str_eq}
use aria_mobile_core.Base.Lists.{length}

abbrev pub Dict {ℓ} : Type ℓ → Type ℓ
Dict V = List (String × V)

module _ {ℓ} {V : Type ℓ} where
  unfoldable pub get : String → Dict V → Option V
  get k [] = none
  get k ((j, v) ∷ m) = if str_eq j k then some v else get k m

  unfoldable pub contains_key : String → Dict V → Bool
  unfolding get
  contains_key k m = is_some (get k m)

  -- Replaces the value of a key that is present, as `HashMap::insert` does.
  unfoldable pub insert : String → V → Dict V → Dict V
  insert k v [] = (k, v) ∷ []
  insert k v ((j, w) ∷ m) = if str_eq j k then (k, v) ∷ m else (j, w) ∷ insert k v m

  unfoldable pub remove : String → Dict V → Dict V
  remove k [] = []
  remove k ((j, w) ∷ m) = if str_eq j k then remove k m else (j, w) ∷ remove k m

  -- A write through `get_mut`: nothing happens where the key is missing.
  unfoldable pub modify : String → (V → V) → Dict V → Dict V
  modify k f [] = []
  modify k f ((j, w) ∷ m) = if str_eq j k then (j, f w) ∷ m else (j, w) ∷ modify k f m

  pub get-insert :
      (k j : String) (v : V) (m : Dict V)
      → get j (insert k v m) ≡ (if str_eq k j then some v else get j m)
  unfolding get insert
  get-insert k j v [] = refl
  get-insert k j v ((i, w) ∷ m) =
      ground (arith, eq_iff k j, eq_iff i k, eq_iff i j, get-insert k j v m)

  pub get-remove :
      (k j : String) (m : Dict V) → get j (remove k m) ≡ (if str_eq k j then none else get j m)
  unfolding get remove
  get-remove k j [] = ground arith
  get-remove k j ((i, w) ∷ m) = ground (arith, eq_iff k j, eq_iff i k, eq_iff i j, get-remove k j m)

  pub get-modify :
      (k j : String) (f : V → V) (m : Dict V)
      → get j (modify k f m) ≡ (if str_eq k j then Option.map f (get j m) else get j m)
  unfolding get modify
  get-modify k j f [] = ground arith
  get-modify k j f ((i, w) ∷ m) =
      ground (arith, eq_iff k j, eq_iff i k, eq_iff i j, get-modify k j f m)

  pub remove_missing : (k : String) (m : Dict V) → get k m ≡ none → remove k m ≡ m
  unfolding get remove
  remove_missing k [] h = refl
  remove_missing k ((i, w) ∷ m) h = ground (arith, remove_missing k m)

  pub length-remove : (k : String) (m : Dict V) → length (remove k m) ≤ length m
  unfolding remove
  length-remove k [] = omega arith
  length-remove k ((i, w) ∷ m) = ground (arith, length-remove k m)

  pub length-insert_new :
      (k : String) (v : V) (m : Dict V) → get k m ≡ none → length (insert k v m) ≡ length m + 1
  unfolding get insert
  length-insert_new k v [] h = omega arith
  length-insert_new k v ((i, w) ∷ m) h = ground (arith, length-insert_new k v m)

  pub length-modify : (k : String) (f : V → V) (m : Dict V) → length (modify k f m) ≡ length m
  unfolding modify
  length-modify k f [] = refl
  length-modify k f ((i, w) ∷ m) = ground (arith, length-modify k f m)

  pub length-insert : (k : String) (v : V) (m : Dict V) → length (insert k v m) ≤ length m + 1
  unfolding insert
  length-insert k v [] = omega arith
  length-insert k v ((i, w) ∷ m) = ground (arith, length-insert k v m)

-- A predicate on every entry.
abbrev pub Every {ℓ κ} : {V : Type ℓ} → (String → V → Type κ) → Dict V → Type κ
Every P [] = Unit
Every P ((k, v) ∷ m) = P k v × Every P m

module _ {ℓ κ} {V : Type ℓ} (P : String → V → Type κ) where
  pub Every-remove : (k : String) (m : Dict V) → Every P m → Every P (remove k m)
  unfolding remove
  Every-remove k [] h = tt
  Every-remove k ((j, w) ∷ m) h = elim (Bool-cases (str_eq j k)) [
    | inl e ↦ rw e (Every-remove k m h.1)
    | inr e ↦ rw e (h.0, Every-remove k m h.1)
  ]

  pub Every-insert : (k : String) (v : V) (m : Dict V) → P k v → Every P m → Every P (insert k v m)
  unfolding insert
  Every-insert k v [] p h = (p, tt)
  Every-insert k v ((j, w) ∷ m) p h = elim (Bool-cases (str_eq j k)) [
    | inl e ↦ rw e (p, h.1)
    | inr e ↦ rw e (h.0, Every-insert k v m p h.1)
  ]

  pub Every-modify :
      (k : String) (f : V → V) (m : Dict V)
      → ((v : V) → P k v → P k (f v))
      → Every P m
      → Every P (modify k f m)
  unfolding modify
  Every-modify k f [] g h = tt
  Every-modify k f ((j, w) ∷ m) g h = elim (Bool-cases (str_eq j k)) [
    | inl e ↦ rw e (
      subst (λ i. P i (f w)) (sym ((eq_iff j k).0 e))
          (g w (subst (λ i. P i w) ((eq_iff j k).0 e) h.0)),
      h.1,
    )
    | inr e ↦ rw e (h.0, Every-modify k f m g h.1)
  ]

  pub Every-get : (k : String) (m : Dict V) {v : V} → get k m ≡ some v → Every P m → P k v
  unfolding get
  Every-get k [] e h = cc
  Every-get k ((j, w) ∷ m) {v} e h = elim (Bool-cases (str_eq j k)) [
    | inl t ↦
        subst (P k) (some-injective w v (rw t at e)) (subst (λ i. P i w) ((eq_iff j k).0 t) h.0)
    | inr t ↦ Every-get k m (rw t at e) h.1
  ]
