-- ===== src/Scheduler/Gang/Laws.antt =====
-- internal/scheduler/gang.go: the gangs and the standalone pods that Collect gives out.
use gpu_scheduler.Common.{
  append-snoc, append-nil, ◌≡◌, refl, inl, inr, Bool, Option, some, List, [], ◌∷◌, ◌++◌, String,
  eq_str, eq_iff, ℤ, pos, ◌≤ℤ◌, ◌-ℤ◌, ltb_ℤ, sym, ◌∙◌, leb_ℤ, leb_ℤ-true, length, keep, All,
  All-append, Bool-cases, Option-cases,
}
use gpu_scheduler.Common.Dict.{Dict, lookup, insert, AllValues}
use gpu_scheduler.Scheduler.Pod.{Pod, get_gang_id_from_pod, get_gang_size_from_pod}
use gpu_scheduler.Scheduler.Gang.{GangState, new_gang, join, group, sort_out, collect}

module _ {Q : Type 0} (atoi : String → Option ℤ) where
  -- All pods of a gang carry its id.
  abbrev pub SameGang : GangState Q → Type 0
  SameGang g = All (λ p. get_gang_id_from_pod p ≡ g.gang_id) g.pods

  -- The size is what the first pod of the gang asks for.
  abbrev pub AsksFor : ℤ → List (Pod Q) → Type 0
  AsksFor size [] = ⊥
  AsksFor size (p ∷ ps) = size ≡ get_gang_size_from_pod atoi p

  abbrev pub IsGang : GangState Q → Type 0
  IsGang g = SameGang g × AsksFor g.size g.pods

  abbrev pub IsReady : GangState Q → Type 0
  IsReady g = IsGang g × (g.size ≤ℤ pos (length g.pods))

  AsksFor-append : (size : ℤ) (ps qs : List (Pod Q)) → AsksFor size ps → AsksFor size (ps ++ qs)
  AsksFor-append size [] qs h = absurd h
  AsksFor-append size (p ∷ ps) qs h = h

  sort_out-IsReady :
      (timeout now : ℤ) (gangs : Dict (GangState Q))
      → AllValues IsGang gangs
      → All IsReady (sort_out atoi timeout now gangs).0
  unfolding sort_out
  sort_out-IsReady timeout now [] h = tt
  sort_out-IsReady timeout now ((id, g) ∷ gangs) h =
      let later = sort_out-IsReady timeout now gangs h.1 in
      elim (Bool-cases (leb_ℤ g.size (pos (length g.pods)))) [
        | inl e ↦ rw (e, sort_out) ((h.0, leb_ℤ-true g.size (pos (length g.pods)) e), later)
        | inr e ↦ elim (Bool-cases (ltb_ℤ timeout (now -ℤ g.created_at))) [
          | inl f ↦ rw (e, f, sort_out) later
          | inr f ↦ rw (e, f, sort_out) later
        ]
      ]

  abbrev pub has_no_gang : Pod Q → Bool
  has_no_gang p = eq_str (get_gang_id_from_pod p) ""

  group-alone :
      (pods : List (Pod Q)) (gangs : Dict (GangState Q)) (alone : List (Pod Q))
      → (group atoi pods gangs alone).1 ≡ alone ++ keep has_no_gang pods
  unfolding group
  group-alone [] gangs alone = sym (append-nil alone)
  group-alone (pod ∷ pods) gangs alone = elim (Bool-cases (has_no_gang pod)) [
    | inl e ↦
        rw (e, group)
          (group-alone pods gangs (alone ++ pod ∷ [])
            ∙ append-snoc alone (keep has_no_gang pods) pod)
    | inr e ↦ rw (e, group) (group-alone pods _ alone)
  ]

  -- The state a pod joins is of its own gang.
  abbrev InGang : String → GangState Q → Type 0
  InGang id g = (g.gang_id ≡ id) × IsGang g

  abbrev AllInGang : Dict (GangState Q) → Type 0
  AllInGang [] = Unit
  AllInGang ((id, g) ∷ gangs) = InGang id g × AllInGang gangs

  AllInGang-lookup :
      (id : String) (gangs : Dict (GangState Q)) (g : GangState Q)
      → AllInGang gangs
      → lookup id gangs ≡ some g
      → InGang id g
  unfolding lookup
  AllInGang-lookup id [] g h e = absurd (cc e)
  AllInGang-lookup id ((k, x) ∷ gangs) g h e = elim (Bool-cases (eq_str k id)) [
    | inl t ↦
        let same : k ≡ id = (eq_iff k id).0 t in
        let hit : x ≡ g = cc (rw t at e) in rw (← same) (rw (← hit) h.0)
    | inr t ↦ AllInGang-lookup id gangs g h.1 (rw t at e)
  ]

  AllInGang-insert :
      (id : String) (g : GangState Q) (gangs : Dict (GangState Q))
      → InGang id g
      → AllInGang gangs
      → AllInGang (insert id g gangs)
  unfolding insert
  AllInGang-insert id g [] p h = (p, tt)
  AllInGang-insert id g ((k, x) ∷ gangs) p h = elim (Bool-cases (eq_str k id)) [
    | inl t ↦ let same : k ≡ id = (eq_iff k id).0 t in rw t ((rw same p.0, p.1), h.1)
    | inr t ↦ rw t (h.0, AllInGang-insert id g gangs p h.1)
  ]

  join-InGang :
      (pod : Pod Q) (g : GangState Q)
      → InGang (get_gang_id_from_pod pod) g
      → InGang (get_gang_id_from_pod pod) (join atoi pod g)
  unfolding join
  join-InGang pod g (k, (same, size)) = (
    k,
    (
      All-append (λ p. get_gang_id_from_pod p ≡ g.gang_id) g.pods (pod ∷ []) same (sym k, tt),
      AsksFor-append g.size g.pods (pod ∷ []) size,
    ),
  )

  new-InGang :
      (pod : Pod Q)
      → InGang
          (get_gang_id_from_pod pod)
          (join atoi pod (new_gang atoi (get_gang_id_from_pod pod) pod))
  unfolding join new_gang
  new-InGang pod = (refl, ((refl, tt), refl))

  group-AllInGang :
      (pods : List (Pod Q)) (gangs : Dict (GangState Q)) (alone : List (Pod Q))
      → AllInGang gangs
      → AllInGang (group atoi pods gangs alone).0
  unfolding group new_gang
  group-AllInGang [] gangs alone h = h
  group-AllInGang (pod ∷ pods) gangs alone h =
      let id = get_gang_id_from_pod pod in
      elim (Bool-cases (has_no_gang pod)) [
        | inl e ↦ rw (e, group) (group-AllInGang pods gangs (alone ++ pod ∷ []) h)
        | inr e ↦ elim (Option-cases (lookup id gangs)) [
          | inl n ↦
              rw (e, n, group)
                (group-AllInGang pods (insert id (join atoi pod (new_gang atoi id pod)) gangs) alone
                  (AllInGang-insert id _ gangs (new-InGang pod) h))
          | inr (g, n) ↦
              rw (e, n, group)
                (group-AllInGang pods (insert id (join atoi pod g) gangs) alone (
                  AllInGang-insert id _ gangs (join-InGang pod g (AllInGang-lookup id gangs g h n))
                    h))
        ]
      ]

  of_InGang : (gangs : Dict (GangState Q)) → AllInGang gangs → AllValues IsGang gangs
  of_InGang [] h = tt
  of_InGang ((id, g) ∷ gangs) h = (h.0.1, of_InGang gangs h.1)

  -- Collecting any pods at any time: every gang that is given out as ready holds only pods with its
  -- id, its size is what the annotation of the first of them asks for, and it holds at least that
  -- many; and the standalone pods are those with no gang id, in their order.
  pub collect-IsReady :
      (timeout now : ℤ) (pods : List (Pod Q))
      → All IsReady (collect atoi timeout now pods).ready_gangs
        × ((collect atoi timeout now pods).standalone_pods ≡ keep has_no_gang pods)
  unfolding collect
  collect-IsReady timeout now pods = (
    sort_out-IsReady timeout now (group atoi pods [] []).0
        (of_InGang (group atoi pods [] []).0 (group-AllInGang pods [] [] tt)),
    group-alone pods [] [],
  )
