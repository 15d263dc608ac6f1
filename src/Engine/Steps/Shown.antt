-- ===== src/Engine/Steps/Shown.antt =====
-- About src/lib.rs: no two live calls have one number, so what `get_calls` shows is in one order.
use aria_mobile_core.Base.{ℕ, suc, ◌+◌, ◌<◌, ◌≤◌, ◌≡◌, ◌≢◌, All-imp, All, inl, inr, arith}
use aria_mobile_core.Base.Dict.{Dict}
use aria_mobile_core.Types.{GatewayConfig}
use aria_mobile_core.Engine.State.{Engine, new_engine}
use aria_mobile_core.Engine.Calls.Listed
use aria_mobile_core.Engine.Steps.{Reach}
use aria_mobile_core.Engine.Steps.Minted.{Step-Counted}
use aria_mobile_core.Engine.Steps.Numbers.{Distinct, All-Part, Distinct-Part}
use aria_mobile_core.Engine.Steps.Counted.{Counted, all_seqs}

-- The live calls have numbers of their own, all given out already.
abbrev IsNumbered : Engine → Type 0
IsNumbered e = Distinct (all_seqs e) × All (λ n. n < e.next_seq) (all_seqs e)

Counted-IsNumbered :
    (e e' : Engine)
    → Counted e e'
    → e.next_seq + 1 < 18446744073709551616
    → IsNumbered e
    → IsNumbered e' × (e'.next_seq ≤ e.next_seq + 1)
Counted-IsNumbered e e' (inl (p, n)) b (d, l) =
    ((Distinct-Part p d, rw n (All-Part (λ k. k < e.next_seq) p l)), omega (arith, n))
Counted-IsNumbered e e' (inr (p, n)) b (d, l) =
    let up : e'.next_seq ≡ e.next_seq + 1 = omega (arith, n, b) in
    let others = All-imp (λ k. k < e.next_seq) (λ k. e.next_seq ≢ k) (all_seqs e) apart l in
    let below =
      All-imp (λ k. k < e.next_seq) (λ k. k < e.next_seq + 1) (all_seqs e) (λ k h. omega (arith, h))
        l in
    (
      (
        Distinct-Part p (others, d),
        rw up (All-Part (λ k. k < e.next_seq + 1) p (omega arith, below)),
      ),
      omega (arith, up),
    )
  where
    apart : (k : ℕ) → k < e.next_seq → e.next_seq ≢ k
    apart k h q = omega (arith, h, q)

-- How many steps there are.
abbrev pub steps : {e e' : Engine} → Reach e e' → ℕ
steps (Reach.here e) = 0
steps (Reach.next s r) = suc (steps r)

Reach-IsNumbered :
    (e e' : Engine) (r : Reach e e')
    → e.next_seq + steps r < 18446744073709551616
    → IsNumbered e
    → IsNumbered e'
Reach-IsNumbered _ _ (Reach.here e) b h = h
Reach-IsNumbered _ _ (Reach.next {e} {e1} {e2} s r) b h =
    let (h', n) = Counted-IsNumbered e e1 (Step-Counted e e1 s) (omega (arith, b)) h in
    Reach-IsNumbered e1 e2 r (omega (arith, b, n)) h'

-- In every engine that is reached from a new one by fewer than 2^64 steps, of any threads in any order,
-- no two live calls, connected, held or ringing, have the same number, and all have one below the
-- counter.
pub new_engine-IsNumbered :
    (config : GatewayConfig) (http : ℕ) (e : Engine) (r : Reach (new_engine config http) e)
    → steps r < 18446744073709551616
    → IsNumbered e
unfolding new_engine
new_engine-IsNumbered config http e r b =
    Reach-IsNumbered (new_engine config http) e r (omega (arith, b)) (tt, tt)
