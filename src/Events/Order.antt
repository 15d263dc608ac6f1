-- ===== src/Events/Order.antt =====
-- About src/events.rs, the dispatch thread: the order of delivery.
use aria_mobile_core.Base.{
  ℕ, zero, suc, ◌≡◌, refl, ◌∙◌, some, List, [], ◌∷◌, ◌++◌, map, append_assoc, arith,
}
use aria_mobile_core.Events.{Dispatcher, Event, Callback, callback, dispatch_next}

pub turns : ℕ → Dispatcher → Dispatcher
turns zero d = d
turns (suc n) d = turns n (dispatch_next d)

abbrev pub calls_of : ℕ → List Event → List (ℕ × Callback)
calls_of h = map λ e. (h, callback e)

dispatch_next_kept :
    (h : ℕ) (d : Dispatcher) (waiting : List Event)
    → d.pending ≡ waiting
    → d.handler ≡ some h
    → ((dispatch_next d).handler ≡ some h)
      × ((dispatch_next d).delivered ++ calls_of h (dispatch_next d).pending
          ≡ d.delivered ++ calls_of h waiting)
unfolding dispatch_next
dispatch_next_kept h d [] e k = ground arith
dispatch_next_kept h d (x ∷ rest) e k = rw (e, k) (refl, append_assoc d.delivered _ _)

-- While one handler is installed, every event is delivered to it once and in order: what has been
-- delivered, followed by what waits, stays the same however far the dispatch thread has come.
pub turns-delivered :
    (h : ℕ) (n : ℕ) (d : Dispatcher)
    → d.handler ≡ some h
    → (turns n d).delivered ++ calls_of h (turns n d).pending ≡ d.delivered ++ calls_of h d.pending
unfolding turns
turns-delivered h zero d k = refl
turns-delivered h (suc n) d k =
    let (k', e) = dispatch_next_kept h d d.pending refl k in
    turns-delivered h n (dispatch_next d) k' ∙ e
