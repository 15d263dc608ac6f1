-- ===== src/Engine/Ids/Used.antt =====
-- About src/lib.rs, `OutgoingCalls::mark_used`: how long an outgoing id is remembered.
use aria_mobile_core.Base.{
  ℕ, suc, ◌+◌, ◌≤◌, ◌<◌, ◌≡◌, refl, Bool, true, ltb, String, eq_refl, is_some, List, [], ◌∷◌, ◌++◌,
  length, drop, length-append, append_assoc, arith, Bool-cases, inl, inr, ap,
}
use aria_mobile_core.Engine.State.{OutgoingCalls, used_outgoing_ids}
use aria_mobile_core.Engine.Ids.{used, mark_used}

length-drop_one : (l : List (String × Bool)) → length l ≤ length (drop 1 l) + 1
length-drop_one [] = omega arith
length-drop_one (x ∷ l) = omega arith

length-drop_one_lt : (l : List (String × Bool)) → 0 < length l → length (drop 1 l) + 1 ≤ length l
length-drop_one_lt [] h = omega arith
length-drop_one_lt (x ∷ l) h = omega arith

-- The memory of used ids keeps its bound.
pub mark_used-length :
    (o : OutgoingCalls) (id : String) (p : Bool)
    → length o.used ≤ used_outgoing_ids
    → length (mark_used o id p).used ≤ used_outgoing_ids
unfolding mark_used
mark_used-length o id p h =
    ground (arith, length-append o.used ((id, p) ∷ []), length-drop_one_lt (o.used ++ (id, p) ∷ []))

-- An entry of the id with at most `n` younger ones.
abbrev pub Recent : ℕ → String → List (String × Bool) → Type 0
Recent n id l =
    (front back : List (String × Bool)) × (p : Bool) × (l ≡ front ++ (id, p) ∷ back)
    × (length back ≤ n)

used-append_some :
    (id : String) (xs ys : List (String × Bool))
    → is_some (used id ys) ≡ true
    → is_some (used id (xs ++ ys)) ≡ true
unfolding used
used-append_some id [] ys h = h
used-append_some id ((j, q) ∷ xs) ys h = ground (arith, used-append_some id xs ys)

used-Recent :
    (n : ℕ) (id : String) (l : List (String × Bool)) → Recent n id l → is_some (used id l) ≡ true
unfolding used
used-Recent n id l (front, back, p, e, b) =
    rw e (used-append_some id front ((id, p) ∷ back) (rw (eq_refl id)))

drop_one-Recent :
    (n : ℕ) (id : String) (l : List (String × Bool))
    → n + 1 < length l
    → Recent n id l
    → Recent n id (drop 1 l)
drop_one-Recent n id l h ([], back, p, e, b) = absurd (omega (arith, ap length e))
drop_one-Recent n id l h (x ∷ front, back, p, e, b) = (front, back, p, rw e, b)

mark_used-Recent :
    (n : ℕ) (o : OutgoingCalls) (id j : String) (q : Bool)
    → n + 1 < used_outgoing_ids
    → Recent n id o.used
    → Recent (suc n) id (mark_used o j q).used
unfolding mark_used
mark_used-Recent n o id j q h (front, back, p, e, b) =
    elim (Bool-cases (ltb used_outgoing_ids (length (o.used ++ (j, q) ∷ [])))) [
      | inr t ↦ rw t longer
      | inl t ↦ rw t (drop_one-Recent (suc n) id (o.used ++ (j, q) ∷ []) (ground arith) longer)
    ]
  where
    longer : Recent (suc n) id (o.used ++ (j, q) ∷ [])
    longer = (
      front,
      back ++ (j, q) ∷ [],
      p,
      rw e (append_assoc front _ _),
      omega (arith, length-append back ((j, q) ∷ [])),
    )

-- The ids that are marked in turn, whatever their flags.
pub marks : OutgoingCalls → List (String × Bool) → OutgoingCalls
marks o [] = o
marks o ((id, p) ∷ l) = marks (mark_used o id p) l

marks-Recent :
    (n : ℕ) (o : OutgoingCalls) (id : String) (l : List (String × Bool))
    → n + length l < used_outgoing_ids
    → Recent n id o.used
    → is_some (used id (marks o l).used) ≡ true
unfolding marks
marks-Recent n o id [] h r = used-Recent n id o.used r
marks-Recent n o id ((j, q) ∷ l) h r =
    marks-Recent (suc n) (mark_used o j q) id l (omega arith)
      (mark_used-Recent n o id j q (omega arith) r)

mark_used-Recent_self :
    (o : OutgoingCalls) (id : String) (p : Bool) → Recent 0 id (mark_used o id p).used
unfolding mark_used
mark_used-Recent_self o id p =
    elim (Bool-cases (ltb used_outgoing_ids (length (o.used ++ (id, p) ∷ [])))) [
      | inr t ↦ rw t (o.used, [], p, refl, omega arith)
      | inl t ↦ rw t (
          drop_one-Recent 0 id (o.used ++ (id, p) ∷ []) (ground arith)
            (o.used, [], p, refl, omega arith))
    ]

-- An id that was marked used is known for as long as fewer than 256 marks have followed, and a
-- memory of at most 256 ids still has at most 256 after the mark.
pub used-marks :
    (o : OutgoingCalls) (id : String) (p : Bool) (l : List (String × Bool))
    → length l < used_outgoing_ids
    → length o.used ≤ used_outgoing_ids
    → (is_some (used id (marks (mark_used o id p) l).used) ≡ true)
      × (length (mark_used o id p).used ≤ used_outgoing_ids)
used-marks o id p l h k = (
  marks-Recent 0 (mark_used o id p) id l (omega arith) (mark_used-Recent_self o id p),
  mark_used-length o id p k,
)
