-- ===== src/Events/Once.antt =====
-- About src/events.rs, `CallEvents`: what the queue holds of the reports of one call.
use aria_mobile_core.Base.{
  ℕ, ◌==◌, ◌≡◌, refl, sym, ap, ◌∙◌, ◌⊎◌, inl, inr, if◌then◌else◌, true, false, String, str_eq, none,
  List, [], ◌∷◌, ◌++◌, append-nil, append_assoc, All, arith, Bool-cases,
}
use aria_mobile_core.Types.{CallInfo, is_ended}
use aria_mobile_core.Events.{Event, call_state, Outbox, queued, emit}

-- Any number of reporters, in the order in which they get the locks.
pub emits : Outbox → List (ℕ × CallInfo) → Outbox
emits o [] = o
emits o ((c, info) ∷ ops) = emits (emit o c info).0 ops

-- The call states among the events of a queue that are about this call, in order.
abbrev pub states_of : String → List Event → List CallInfo
states_of id [] = []
states_of id (call_state info ∷ es) =
    if str_eq info.call_id id then info ∷ states_of id es else states_of id es
states_of id (e ∷ es) = states_of id es

-- The queue of the dispatch thread, of this call.
abbrev pub pending_of : String → Outbox → List CallInfo
pending_of id o = states_of id o.dispatcher.pending

-- The reports of the cell `c` are those of the call `id`.
abbrev pub IsCellOf : ℕ → String → List (ℕ × CallInfo) → Type 0
IsCellOf c id ops = All (λ (op : ℕ × CallInfo). str_eq ((op.1).call_id) id ≡ (op.0 == c)) ops

-- What is reported for the call `id`.
abbrev pub ours : String → List (ℕ × CallInfo) → List CallInfo
ours id [] = []
ours id ((c, info) ∷ ops) = if str_eq info.call_id id then info ∷ ours id ops else ours id ops

-- The reports up to and with the first `Ended`, those before it without a reason.
abbrev pub until_ended : List CallInfo → List CallInfo
until_ended [] = []
until_ended (i ∷ is) =
    if is_ended i.state then i ∷ [] else record i { end_reason = none } ∷ until_ended is

states_of-append :
    (id : String) (l m : List Event) → states_of id (l ++ m) ≡ states_of id l ++ states_of id m
states_of-append id [] m = refl
states_of-append id (call_state info ∷ l) m = elim (Bool-cases (str_eq info.call_id id)) [
  | inl t ↦ rw (t, states_of-append id l m) refl
  | inr t ↦ rw (t, states_of-append id l m) refl
]
states_of-append id (Event.incoming o ∷ l) m = states_of-append id l m
states_of-append id (Event.registration a b x ∷ l) m = states_of-append id l m
states_of-append id (Event.auth_required ∷ l) m = states_of-append id l m
states_of-append id (Event.error a b ∷ l) m = states_of-append id l m

-- A report on a cell that has not ended is queued last, where it is of this call.
emit-open :
    (id : String) (o : Outbox) (d : ℕ) (info : CallInfo)
    → o.ended d ≡ false
    → pending_of id (emit o d info).0
      ≡ pending_of id o ++ (if str_eq info.call_id id then queued info ∷ [] else [])
unfolding emit
emit-open id o d info h = elim (Bool-cases (is_ended info.state)) [
  | inl t ↦
      rw (h, emit, t, queued) (states_of-append id o.dispatcher.pending (call_state info ∷ []))
  | inr t ↦
      rw (h, emit, t, queued)
        (states_of-append id o.dispatcher.pending
          (call_state (record info { end_reason = none }) ∷ []))
]

emit-closed : (o : Outbox) (d : ℕ) (info : CallInfo) → o.ended d ≡ true → (emit o d info).0 ≡ o
unfolding emit
emit-closed o d info h = rw (emit, h) refl

-- What a report does to the mark of a cell, its own one and another one.
emit-ended :
    (c : ℕ) (o : Outbox) (d : ℕ) (info : CallInfo)
    → ((d == c) ≡ true → o.ended c ≡ false → (emit o d info).0.ended c ≡ is_ended info.state)
      × ((d == c) ≡ false → (emit o d info).0.ended c ≡ o.ended c)
unfolding emit
emit-ended c o d info = (ground arith, ground arith)

emit-other :
    (id : String) (o : Outbox) (d : ℕ) (info : CallInfo)
    → str_eq info.call_id id ≡ false
    → pending_of id (emit o d info).0 ≡ pending_of id o
emit-other id o d info h = elim (Bool-cases (o.ended d)) [
  | inl t ↦ ap (pending_of id) (emit-closed o d info t)
  | inr t ↦ emit-open id o d info t ∙ rw h (append-nil (pending_of id o))
]

queued_open :
    (info : CallInfo)
    → is_ended info.state ≡ false
    → queued info ≡ record info { end_reason = none }
queued_open info h = rw (h, queued) refl

queued_ended : (info : CallInfo) → is_ended info.state ≡ true → queued info ≡ info
queued_ended info h = rw (h, queued) refl

emits-ended :
    (c : ℕ) (id : String) (o : Outbox) (ops : List (ℕ × CallInfo))
    → IsCellOf c id ops
    → o.ended c ≡ true
    → pending_of id (emits o ops) ≡ pending_of id o
unfolding emits
emits-ended c id o [] own h = refl
emits-ended c id o ((d, info) ∷ ops) own h = elim (Bool-cases (d == c)) [
  | inl t ↦
      let same : d ≡ c = ground arith in
      let closed = emit-closed o d info (ap o.ended same ∙ h) in
      rw (emits, closed) (emits-ended c id o ops own.1 h)
  | inr t ↦
      emits-ended c id (emit o d info).0 ops own.1 ((emit-ended c o d info).1 t ∙ h)
      ∙ emit-other id o d info (own.0 ∙ t)
]

-- The queue holds, behind what it held before, exactly the reports of a call that has not ended up to
-- and with its first `Ended`, in order and once each, those before it without a reason, whatever is
-- reported for other calls in between. All reports of the call are on one cell, and none of another
-- call is.
pub emits-until_ended :
    (c : ℕ) (id : String) (o : Outbox) (ops : List (ℕ × CallInfo))
    → IsCellOf c id ops
    → o.ended c ≡ false
    → pending_of id (emits o ops) ≡ pending_of id o ++ until_ended (ours id ops)
unfolding emits
emits-until_ended c id o [] own h = sym (append-nil (pending_of id o))
emits-until_ended c id o ((d, info) ∷ ops) own h = elim (Bool-cases (d == c)) [
  | inr t ↦
      let other : str_eq info.call_id id ≡ false = own.0 ∙ t in
      rw other (
        emits-until_ended c id (emit o d info).0 ops own.1 ((emit-ended c o d info).1 t ∙ h)
        ∙ ap (λ l. l ++ until_ended (ours id ops)) (emit-other id o d info other))
  | inl t ↦
      let our : str_eq info.call_id id ≡ true = own.0 ∙ t in
      let same : d ≡ c = ground arith in
      let added : pending_of id (emit o d info).0 ≡ pending_of id o ++ queued info ∷ [] =
        emit-open id o d info (ap o.ended same ∙ h) ∙ rw our refl in
      let mark = (emit-ended c o d info).0 t h in
      rw our (elim (Bool-cases (is_ended info.state)) [
        | inl e ↦ rw e (
            emits-ended c id (emit o d info).0 ops own.1 (mark ∙ e)
            ∙ added
            ∙ ap (λ i. pending_of id o ++ i ∷ []) (queued_ended info e))
        | inr e ↦ rw e (
            emits-until_ended c id (emit o d info).0 ops own.1 (mark ∙ e)
            ∙ ap (λ l. l ++ until_ended (ours id ops))
                (added ∙ ap (λ i. pending_of id o ++ i ∷ []) (queued_open info e))
            ∙ append_assoc (pending_of id o) (record info { end_reason = none } ∷ [])
                (until_ended (ours id ops)))
      ])
]

-- Only the last may be an `Ended`, and only an `Ended` has a reason.
abbrev pub EndsOnce : List CallInfo → Type 0
EndsOnce [] = Unit
EndsOnce (i ∷ is) =
    ((is_ended i.state ≡ true) × (is ≡ []))
    ⊎ ((is_ended i.state ≡ false) × (i.end_reason ≡ none) × EndsOnce is)

until_ended-EndsOnce : (l : List CallInfo) → EndsOnce (until_ended l)
until_ended-EndsOnce [] = tt
until_ended-EndsOnce (i ∷ is) = elim (Bool-cases (is_ended i.state)) [
  | inl e ↦ rw (e, EndsOnce) (inl (e, refl))
  | inr e ↦ rw (e, EndsOnce) (inr (e, refl, until_ended-EndsOnce is))
]

-- Where the queue held nothing of a call, what it holds of it after any reports has at most one `Ended`,
-- the last, which alone carries a reason, however the reporters of the call and of other calls
-- interleave. All reports of the call are on one cell, and none of another call is.
pub emits-EndsOnce :
    (c : ℕ) (id : String) (o : Outbox) (ops : List (ℕ × CallInfo))
    → IsCellOf c id ops
    → pending_of id o ≡ []
    → EndsOnce (pending_of id (emits o ops))
emits-EndsOnce c id o ops own n = elim (Bool-cases (o.ended c)) [
  | inl t ↦ rw (emits-ended c id o ops own t, n) tt
  | inr t ↦ rw (emits-until_ended c id o ops own t, n) (until_ended-EndsOnce (ours id ops))
]
