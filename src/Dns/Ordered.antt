-- ===== src/Dns/Ordered.antt =====
-- About src/dns.rs: the order of the targets, and which targets there are.
use aria_mobile_core.Base.{
  ℕ, ◌≡◌, subst, true, false, String, Option, none, some, List, [], ◌∷◌, inl, inr, arith,
  Bool-cases,
}
use mathlib.Core.List.{Perm}
use mathlib.Core.List.Perm
use aria_mobile_core.Gateway.Routes.{trim_end_char}
use aria_mobile_core.Dns.Sort.{insert_by, sort_by, IsOrdered, sort_by-Perm, sort_by-IsOrdered}
use aria_mobile_core.Dns.{
  SrvTarget, SrvRecord, Network, goes_before, record_before, target_before, push_target,
  resolve_records, lookup_srv,
}

goes_before_asym : (p w p' w' : ℕ) → goes_before p w p' w' ≡ true → goes_before p' w' p w ≡ false
goes_before_asym p w p' w' h = ground arith

push_target-Perm :
    (r : SrvRecord) (host : String) (o : Option (List String)) {xs ys : List SrvTarget}
    → Perm xs ys
    → Perm (push_target r host o xs) (push_target r host o ys)
push_target-Perm r host none p = p
push_target-Perm r host (some []) p = p
push_target-Perm r host (some (ip ∷ ips)) p = Perm.cons _ p

push_target_swap :
    (r r' : SrvRecord) (host host' : String) (o o' : Option (List String)) (xs : List SrvTarget)
    → Perm
        (push_target r host o (push_target r' host' o' xs))
        (push_target r' host' o' (push_target r host o xs))
push_target_swap r r' host host' none o' xs = Perm.refl _
push_target_swap r r' host host' (some []) o' xs = Perm.refl _
push_target_swap r r' host host' (some (ip ∷ ips)) none xs = Perm.refl _
push_target_swap r r' host host' (some (ip ∷ ips)) (some []) xs = Perm.refl _
push_target_swap r r' host host' (some (ip ∷ ips)) (some (jp ∷ jps)) xs = Perm.swap _ _ xs

module _ (lookup_ip : String → Option (List String)) where
  resolve_records-insert_by :
      (r : SrvRecord) (rs : List SrvRecord)
      → Perm
          (resolve_records lookup_ip (insert_by record_before r rs))
          (resolve_records lookup_ip (r ∷ rs))
  resolve_records-insert_by r [] = Perm.refl _
  resolve_records-insert_by r (s ∷ rs) = elim (Bool-cases (record_before s r)) [
    | inr t ↦ rw t (Perm.refl _)
    | inl t ↦
        let host = trim_end_char b'.' r.target in
        let host' = trim_end_char b'.' s.target in
        rw t (
          Perm.trans (push_target-Perm s host' (lookup_ip host') (resolve_records-insert_by r rs)) (
            push_target_swap s r host' host (lookup_ip host') (lookup_ip host)
              (resolve_records lookup_ip rs)))
  ]

  resolve_records-sort_by :
      (rs : List SrvRecord)
      → Perm (resolve_records lookup_ip (sort_by record_before rs)) (resolve_records lookup_ip rs)
  resolve_records-sort_by [] = Perm.refl []
  resolve_records-sort_by (r ∷ rs) =
      let host = trim_end_char b'.' r.target in
      Perm.trans (resolve_records-insert_by r (sort_by record_before rs))
        (push_target-Perm r host (lookup_ip host) (resolve_records-sort_by rs))

abbrev AreTargets : Network → List SrvRecord → Option (List SrvTarget) → Type 0
AreTargets net records none = ⊥
AreTargets net records (some ts) =
    IsOrdered target_before ts × Perm ts (resolve_records net.lookup_ip records)

lookup_srv-AreTargets :
    (net : Network) (name : String) (records : List SrvRecord)
    → net.srv_lookup name ≡ some records
    → AreTargets net records (lookup_srv net name)
unfolding lookup_srv
lookup_srv-AreTargets net name records h =
    let targets = resolve_records net.lookup_ip (sort_by record_before records) in
    rw (h, AreTargets)
      (
        sort_by-IsOrdered target_before
            (λ a b t. goes_before_asym a.priority a.weight b.priority b.weight t) targets,
        Perm.trans (sort_by-Perm target_before targets)
            (resolve_records-sort_by net.lookup_ip records),
      )

pub lookup_srv-IsOrdered :
    (net : Network) (name : String) (records : List SrvRecord) (ts : List SrvTarget)
    → net.srv_lookup name ≡ some records
    → lookup_srv net name ≡ some ts
    → IsOrdered target_before ts × Perm ts (resolve_records net.lookup_ip records)
lookup_srv-IsOrdered net name records ts h e =
    subst (AreTargets net records) e (lookup_srv-AreTargets net name records h)
