-- ===== src/Engine/Calls/Listed.antt =====
-- About src/lib.rs, `get_calls`: what the app is shown does not depend on how a `HashMap` is iterated.
use aria_mobile_core.Base.{
  ℕ, ◌≤◌, ◌≡◌, ◌≢◌, refl, sym, ap, ◌∙◌, leb, All-imp, Bool-cases, inl, inr, List, [], ◌∷◌, ◌++◌,
  map, All, arith,
}
use aria_mobile_core.Base.Dict.{Dict}
use aria_mobile_core.Types.{CallInfo}
use aria_mobile_core.Engine.State.{ActiveCallState, Engine, PendingOutgoing}
use aria_mobile_core.Engine.Calls.{
  connected_infos, ringing_infos, insert_by_seq, sort_by_seq, live_calls,
}
use aria_mobile_core.Engine.Controls.{get_calls}

-- The same entries in another order.
pub data Reordered {ℓ} {A : Type ℓ} : List A → List A → Type ℓ where
  same : (l : List A) → Reordered l l
  keep : (x : A) {l m : List A} → Reordered l m → Reordered (x ∷ l) (x ∷ m)
  swap : (x y : A) (l : List A) → Reordered (x ∷ y ∷ l) (y ∷ x ∷ l)
  then_ : {l m n : List A} → Reordered l m → Reordered m n → Reordered l n

connected_infos-Reordered :
    {m m' : Dict ActiveCallState}
    → Reordered m m'
    → Reordered (connected_infos m) (connected_infos m')
connected_infos-Reordered (Reordered.same l) = Reordered.same (connected_infos l)
connected_infos-Reordered (Reordered.keep (id, c) p) =
    Reordered.keep (c.seq, c.info) (connected_infos-Reordered p)
connected_infos-Reordered (Reordered.swap (id, c) (id', c') l) =
    Reordered.swap (c.seq, c.info) (c'.seq, c'.info) (connected_infos l)
connected_infos-Reordered (Reordered.then_ p q) =
    Reordered.then_ (connected_infos-Reordered p) (connected_infos-Reordered q)

ringing_infos-Reordered :
    {m m' : Dict PendingOutgoing} → Reordered m m' → Reordered (ringing_infos m) (ringing_infos m')
ringing_infos-Reordered (Reordered.same l) = Reordered.same (ringing_infos l)
ringing_infos-Reordered (Reordered.keep (id, c) p) =
    Reordered.keep (c.seq, c.info) (ringing_infos-Reordered p)
ringing_infos-Reordered (Reordered.swap (id, c) (id', c') l) =
    Reordered.swap (c.seq, c.info) (c'.seq, c'.info) (ringing_infos l)
ringing_infos-Reordered (Reordered.then_ p q) =
    Reordered.then_ (ringing_infos-Reordered p) (ringing_infos-Reordered q)

module _ {ℓ} {A : Type ℓ} where
  append-Reordered_left :
      (front : List A) {l m : List A} → Reordered l m → Reordered (front ++ l) (front ++ m)
  append-Reordered_left [] p = p
  append-Reordered_left (x ∷ front) p = Reordered.keep x (append-Reordered_left front p)

  append-Reordered_right :
      (rest : List A) {l m : List A} → Reordered l m → Reordered (l ++ rest) (m ++ rest)
  append-Reordered_right rest (Reordered.same l) = Reordered.same (l ++ rest)
  append-Reordered_right rest (Reordered.keep x p) =
      Reordered.keep x (append-Reordered_right rest p)
  append-Reordered_right rest (Reordered.swap x y l) = Reordered.swap x y (l ++ rest)
  append-Reordered_right rest (Reordered.then_ p q) =
      Reordered.then_ (append-Reordered_right rest p) (append-Reordered_right rest q)

  All-Reordered : (P : A → Type 0) {l m : List A} → Reordered l m → All P l → All P m
  All-Reordered P (Reordered.same l) h = h
  All-Reordered P (Reordered.keep x p) h = (h.0, All-Reordered P p h.1)
  All-Reordered P (Reordered.swap x y l) h = (h.1.0, (h.0, h.1.1))
  All-Reordered P (Reordered.then_ p q) h = All-Reordered P q (All-Reordered P p h)

-- No two calls have the same number.
abbrev pub Distinct : List (ℕ × CallInfo) → Type 0
Distinct [] = Unit
Distinct (x ∷ l) = All (λ (y : ℕ × CallInfo). x.0 ≢ y.0) l × Distinct l

Distinct-Reordered : {l m : List (ℕ × CallInfo)} → Reordered l m → Distinct l → Distinct m
Distinct-Reordered (Reordered.same l) h = h
Distinct-Reordered (Reordered.keep x p) h =
    (All-Reordered (λ (y : ℕ × CallInfo). x.0 ≢ y.0) p h.0, Distinct-Reordered p h.1)
Distinct-Reordered (Reordered.swap x y l) h = ((λ e. h.0.0 (sym e), h.1.0), (h.0.1, h.1.1))
Distinct-Reordered (Reordered.then_ p q) h = Distinct-Reordered q (Distinct-Reordered p h)

insert_by_seq_comm :
    (x y : ℕ × CallInfo) (l : List (ℕ × CallInfo))
    → x.0 ≢ y.0
    → insert_by_seq x (insert_by_seq y l) ≡ insert_by_seq y (insert_by_seq x l)
unfolding insert_by_seq
insert_by_seq_comm x y [] h = ground arith
insert_by_seq_comm x y (z ∷ l) h = ground (arith, insert_by_seq_comm x y l h)

sort_by_seq-Reordered :
    {l m : List (ℕ × CallInfo)} → Reordered l m → Distinct l → sort_by_seq l ≡ sort_by_seq m
unfolding sort_by_seq
sort_by_seq-Reordered (Reordered.same l) h = refl
sort_by_seq-Reordered (Reordered.keep x p) h = ap (insert_by_seq x) (sort_by_seq-Reordered p h.1)
sort_by_seq-Reordered (Reordered.swap x y l) h = insert_by_seq_comm x y (sort_by_seq l) h.0.0
sort_by_seq-Reordered (Reordered.then_ p q) h =
    sort_by_seq-Reordered p h ∙ sort_by_seq-Reordered q (Distinct-Reordered p h)

insert_by_seq-Reordered :
    (x : ℕ × CallInfo) (l : List (ℕ × CallInfo)) → Reordered (x ∷ l) (insert_by_seq x l)
unfolding insert_by_seq
insert_by_seq-Reordered x [] = Reordered.same (x ∷ [])
insert_by_seq-Reordered x (y ∷ l) = elim (Bool-cases (leb x.0 y.0)) [
  | inl t ↦ rw t (Reordered.same (x ∷ y ∷ l))
  | inr t ↦
      rw t (Reordered.then_ (Reordered.swap x y l) (Reordered.keep y (insert_by_seq-Reordered x l)))
]

sort_by_seq_reorders : (l : List (ℕ × CallInfo)) → Reordered l (sort_by_seq l)
unfolding sort_by_seq
sort_by_seq_reorders [] = Reordered.same []
sort_by_seq_reorders (x ∷ l) =
    Reordered.then_ (Reordered.keep x (sort_by_seq_reorders l))
      (insert_by_seq-Reordered x (sort_by_seq l))

-- Each is at least as old as those behind it.
abbrev pub OldestFirst : List (ℕ × CallInfo) → Type 0
OldestFirst [] = Unit
OldestFirst (x ∷ l) = All (λ (y : ℕ × CallInfo). x.0 ≤ y.0) l × OldestFirst l

insert_by_seq-OldestFirst :
    (x : ℕ × CallInfo) (l : List (ℕ × CallInfo)) → OldestFirst l → OldestFirst (insert_by_seq x l)
unfolding insert_by_seq
insert_by_seq-OldestFirst x [] h = (tt, tt)
insert_by_seq-OldestFirst x (y ∷ l) h = elim (Bool-cases (leb x.0 y.0)) [
  | inl t ↦
      let older : x.0 ≤ y.0 = ground arith in
      rw t (
        (
          older,
          All-imp (λ (z : ℕ × CallInfo). y.0 ≤ z.0) (λ (z : ℕ × CallInfo). x.0 ≤ z.0) l
              (λ z p. omega arith) h.0,
        ),
        h,
      )
  | inr t ↦
      let older : y.0 ≤ x.0 = ground arith in
      rw t (
        All-Reordered (λ (z : ℕ × CallInfo). y.0 ≤ z.0) (insert_by_seq-Reordered x l) (older, h.0),
        insert_by_seq-OldestFirst x l h.1,
      )
]

sort_by_seq-OldestFirst : (l : List (ℕ × CallInfo)) → OldestFirst (sort_by_seq l)
unfolding sort_by_seq
sort_by_seq-OldestFirst [] = tt
sort_by_seq-OldestFirst (x ∷ l) =
    insert_by_seq-OldestFirst x (sort_by_seq l) (sort_by_seq-OldestFirst l)

-- Every entry of the two maps, with its number: the connected, held and ringing calls.
abbrev pub entries : Engine → List (ℕ × CallInfo)
entries e =
    map (λ p. ((p.1).seq, (p.1).info)) e.calls
    ++ map (λ p. ((p.1).seq, (p.1).info)) e.outgoing.ringing

connected_infos-map :
    (m : Dict ActiveCallState) → connected_infos m ≡ map (λ p. ((p.1).seq, (p.1).info)) m
connected_infos-map [] = refl
connected_infos-map ((id, c) ∷ m) = ap (λ l. (c.seq, c.info) ∷ l) (connected_infos-map m)

ringing_infos-map :
    (m : Dict PendingOutgoing) → ringing_infos m ≡ map (λ p. ((p.1).seq, (p.1).info)) m
ringing_infos-map [] = refl
ringing_infos-map ((id, c) ∷ m) = ap (λ l. (c.seq, c.info) ∷ l) (ringing_infos-map m)

entries_lem : (e : Engine) → connected_infos e.calls ++ ringing_infos e.outgoing.ringing ≡ entries e
entries_lem e = rw (connected_infos-map e.calls, ringing_infos-map e.outgoing.ringing) refl

-- What is shown are these entries, the oldest first.
abbrev pub ShowsAll : Engine → Type 0
ShowsAll e =
    (shown : List (ℕ × CallInfo)) × (get_calls e ≡ map (λ x. x.1) shown)
    × Reordered (entries e) shown
    × OldestFirst shown

-- The engine with the entries of its two maps in another order.
abbrev pub with_maps : Engine → Dict ActiveCallState → Dict PendingOutgoing → Engine
with_maps e calls ringing = record e {
  calls = calls;
  outgoing = record (e.outgoing) { ringing = ringing };
}

-- The app is shown every connected, held or ringing call once, the oldest first; and in whichever
-- order the two maps of calls are iterated, it is shown the same list, if no two calls have the same
-- number.
pub get_calls-Reordered :
    (e : Engine) (calls : Dict ActiveCallState) (ringing : Dict PendingOutgoing)
    → Reordered e.calls calls
    → Reordered e.outgoing.ringing ringing
    → Distinct (entries e)
    → ShowsAll e × (get_calls (with_maps e calls ringing) ≡ get_calls e)
unfolding get_calls live_calls
get_calls-Reordered e calls ringing p q h = (
  (
    sort_by_seq (entries e),
    rw (entries_lem e) refl,
    sort_by_seq_reorders (entries e),
    sort_by_seq-OldestFirst (entries e),
  ),
  ap (map (λ x. x.1)) (sym (sort_by_seq-Reordered both (rw (entries_lem e) h))),
)
  where
    both : Reordered (entries e) (connected_infos calls ++ ringing_infos ringing)
    both =
        Reordered.then_
          (append-Reordered_right (ringing_infos e.outgoing.ringing) (connected_infos-Reordered p))
          (append-Reordered_left (connected_infos calls) (ringing_infos-Reordered q))
