-- ===== src/Scheduler/Preemption/Laws.antt =====
-- internal/scheduler/preemption.go: SelectVictims and the priority of a resumed pod.
use gpu_scheduler.Common.{
  ◌≢◌, eq_str, eq_iff, false, Memᴰ, keep-Memᴰ, All-map, keep-nil, All-of_forall, All-Memᴰ,
  append-snoc, append-nil, List-cases, Outcome-map, ◌≡◌, refl, sym, ap, ◌∙◌, subst, ◌⊎◌, inl, inr,
  true, Option, List, [], ◌∷◌, ◌++◌, String, ℤ, pos, ◌+ℤ◌, ◌≤ℤ◌, ◌<ℤ◌, leb_ℤ, int_laws, leb_ℤ-true,
  leb_ℤ-false, parts_of_eq, eq_of_parts, arith, Permᴰ, All, All-Permᴰ, All-append_left, keep,
  keep-passes, Bool-cases, Outcome, IsStrictWeak, Ordered, SortSlice, length-Permᴰ,
}
use mathlib.Core.List.Permᴰ
use gpu_scheduler.Scheduler.Preemption.{
  workflow_evict_order, PreemptionCandidate, PreemptionError, no_candidates, not_enough,
  PreemptionConfig, may_evict, evict_before, pick, select_victims, resume_priority,
}
use gpu_scheduler.Scheduler.Pod.{Pod}

rank_training : (w : String) → eq_str w "training" ≡ true → workflow_evict_order w ≡ pos 0
unfolding workflow_evict_order
rank_training w h = rw h refl

rank_other : (w : String) → eq_str w "training" ≡ false → pos 1 ≤ℤ workflow_evict_order w
unfolding workflow_evict_order
rank_other w h = ground (arith, h)

rank_inference : (w : String) → eq_str w "inference" ≡ true → workflow_evict_order w ≤ℤ pos 1
unfolding workflow_evict_order
rank_inference w h = ground (arith, h)

rank_last :
    (w : String)
    → eq_str w "training" ≡ false
    → eq_str w "inference" ≡ false
    → pos 2 ≤ℤ workflow_evict_order w
unfolding workflow_evict_order
rank_last w h k = ground (arith, h, k)

differ : (s t : String) → eq_str s t ≡ false → s ≢ t
differ s t h e = cc ((eq_iff s t).1 e, h)

module _ {Q : Type 0} where
  -- The memory that a list of candidates frees.
  abbrev pub total : List (PreemptionCandidate Q) → ℤ
  total [] = pos 0
  total (c ∷ cs) = c.memory_mb +ℤ total cs

  total-snoc :
      (cs : List (PreemptionCandidate Q)) (c : PreemptionCandidate Q)
      → total (cs ++ c ∷ []) ≡ total cs +ℤ c.memory_mb
  total-snoc [] c = eq_of_parts _ _ (omega int_laws)
  total-snoc (x ∷ cs) c = eq_of_parts _ _ (omega (int_laws, parts_of_eq (total-snoc cs c)))

  evict_before-IsStrictWeak : IsStrictWeak (evict_before {Q = Q})
  unfolding evict_before
  evict_before-IsStrictWeak = record {
    asymm = λ a b h. ground (arith, h);
    split = λ a b c h. ground (arith, h);
  }

  -- The victims are the shortest prefix of the order, of at least one candidate, that frees enough.
  pub record IsShortest (need : ℤ) (order victims : List (PreemptionCandidate Q)) : Type 0 where
    pub before : List (PreemptionCandidate Q)
    pub last : PreemptionCandidate Q
    pub spared : List (PreemptionCandidate Q)
    pub split : order ≡ victims ++ spared
    pub chosen : victims ≡ before ++ last ∷ []
    pub enough : need ≤ℤ total victims
    pub shortest : (before ≡ []) ⊎ (total before <ℤ need)

  pick_lem :
      (need : ℤ) (acc : List (PreemptionCandidate Q)) (freed : ℤ)
      (cs : List (PreemptionCandidate Q))
      → freed ≡ total acc
      → (acc ≡ []) ⊎ (total acc <ℤ need)
      → Outcome
          (IsShortest need (acc ++ cs))
          (λ e.
            (e ≡ not_enough need (total (acc ++ cs)))
            × ((acc ++ cs ≡ []) ⊎ (total (acc ++ cs) <ℤ need)))
          (pick need acc freed cs)
  unfolding pick
  pick_lem need acc freed [] f m = rw (append-nil acc) (ap (not_enough need) f, m)
  pick_lem need acc freed (c ∷ cs) f m =
      let more : freed +ℤ c.memory_mb ≡ total (acc ++ c ∷ []) =
        eq_of_parts _ _ (omega (int_laws, parts_of_eq f, parts_of_eq (total-snoc acc c))) in
      elim (Bool-cases (leb_ℤ need (freed +ℤ c.memory_mb))) [
        | inl e ↦
            rw (e, pick)
              (record {
                before = acc;
                last = c;
                spared = cs;
                split = sym (append-snoc acc cs c);
                chosen = refl;
                enough = subst (λ x. need ≤ℤ x) more (leb_ℤ-true need (freed +ℤ c.memory_mb) e);
                shortest = m;
              })
        | inr e ↦
            rw (e, pick)
              (rw (← append-snoc acc cs c) (
                pick_lem need (acc ++ c ∷ []) (freed +ℤ c.memory_mb) cs more
                  (inr (subst (λ x. x <ℤ need) more (leb_ℤ-false need (freed +ℤ c.memory_mb) e)))))
      ]

  total-Permᴰ : {xs ys : List (PreemptionCandidate Q)} → Permᴰ xs ys → total xs ≡ total ys
  total-Permᴰ Permᴰ.nil = refl
  total-Permᴰ (Permᴰ.cons e p) =
      eq_of_parts _ _
        (omega (int_laws, parts_of_eq (ap (λ c. c.memory_mb) e), parts_of_eq (total-Permᴰ p)))
  total-Permᴰ (Permᴰ.swap e f) = eq_of_parts _ _ (
      omega
        (int_laws, parts_of_eq (ap (λ c. c.memory_mb) e), parts_of_eq (ap (λ c. c.memory_mb) f)))
  total-Permᴰ (Permᴰ.trans p q) = total-Permᴰ p ∙ total-Permᴰ q

  -- The candidates that may be evicted for a priority.
  abbrev eligible : ℤ → List (PreemptionCandidate Q) → List (PreemptionCandidate Q)
  eligible priority candidates = keep (may_evict priority) candidates

  -- The victims, by the code's own filter and order.
  record AreChosen (priority need : ℤ) (candidates victims : List (PreemptionCandidate Q))
      : Type 0 where
    pub order : List (PreemptionCandidate Q)
    pub is_order : Permᴰ (eligible priority candidates) order
    pub ordered : Ordered evict_before order
    pub may : All (λ v. may_evict priority v ≡ true) victims
    pub is_shortest : IsShortest need order victims

  of_order :
      (priority need : ℤ) (candidates order : List (PreemptionCandidate Q))
      → Permᴰ (eligible priority candidates) order
      → Ordered evict_before order
      → (victims : List (PreemptionCandidate Q)) → IsShortest need order victims
      → AreChosen priority need candidates victims
  of_order priority need candidates order p o victims s =
      let passes : All (λ v. may_evict priority v ≡ true) order =
        All-Permᴰ (λ v. may_evict priority v ≡ true) p
          (keep-passes (may_evict priority) candidates) in
      record {
        order = order;
        is_order = p;
        ordered = o;
        may =
            All-append_left (λ v. may_evict priority v ≡ true) victims s.spared
              (subst (λ l. All (λ v. may_evict priority v ≡ true) l) s.split passes);
        is_shortest = s;
      }

  too_few :
      (need : ℤ) (xs order : List (PreemptionCandidate Q)) (e : PreemptionError)
      (x : PreemptionCandidate Q) (ys : List (PreemptionCandidate Q))
      → xs ≡ x ∷ ys
      → Permᴰ xs order
      → (e ≡ not_enough need (total order)) × ((order ≡ []) ⊎ (total order <ℤ need))
      → (e ≡ not_enough need (total xs)) × (total xs <ℤ need)
  too_few need xs order e x ys h p (k, inl n) = absurd (cc (h, n, length-Permᴰ p))
  too_few need xs order e x ys h p (k, inr l) =
      let same = total-Permᴰ p in
      (k ∙ ap (not_enough need) (sym same), subst (λ t. t <ℤ need) (sym same) l)

  chosen_lem :
      (sorter : SortSlice) (priority need : ℤ) (candidates : List (PreemptionCandidate Q))
      → Outcome
          (AreChosen priority need candidates)
          (λ e.
            ((e ≡ no_candidates priority) × (eligible priority candidates ≡ []))
            ⊎ ((e ≡ not_enough need (total (eligible priority candidates)))
                × (total (eligible priority candidates) <ℤ need)))
          (select_victims sorter priority need candidates)
  unfolding select_victims
  chosen_lem sorter priority need candidates = elim (List-cases (eligible priority candidates)) [
    | inl n ↦ rw (n, select_victims) (inl (refl, refl))
    | inr (c, cs, n) ↦
        let order = sorter.sort_slice (PreemptionCandidate Q) evict_before (c ∷ cs) in
        let p : Permᴰ (eligible priority candidates) order =
          rw n (sorter.sort_slice-Permᴰ (PreemptionCandidate Q) evict_before (c ∷ cs)) in
        let o =
          sorter.sort_slice-Ordered (PreemptionCandidate Q) evict_before (c ∷ cs)
            evict_before-IsStrictWeak in
        let found : select_victims sorter priority need candidates ≡ pick need [] (pos 0) order =
          rw (n, select_victims) refl in
        subst (Outcome (AreChosen priority need candidates) _) (sym found) (
          Outcome-map (IsShortest need order) (AreChosen priority need candidates) _ _
            (pick need [] (pos 0) order) (of_order priority need candidates order p o)
            (λ e t. inr (too_few need (eligible priority candidates) order e c cs n p t))
            (pick_lem need [] (pos 0) order refl (inl refl)))
  ]

  -- A candidate that is preemptible and of strictly lower priority.
  abbrev pub MayEvict : ℤ → PreemptionCandidate Q → Type 0
  MayEvict priority c = (c.preemptible ≡ true) × (c.priority <ℤ priority)

  -- Candidates that may be evicted, and no others.
  abbrev pub AreEligible : ℤ → List (PreemptionCandidate Q) → List (PreemptionCandidate Q) → Type 0
  AreEligible priority candidates chosen =
      All (λ c. Memᴰ c candidates × MayEvict priority c) chosen
      × All (λ c. (¬ MayEvict priority c) ⊎ Memᴰ c chosen) candidates

  -- `a` rightly goes before `b`: training first, then inference, then the rest, and in one workflow
  -- the lower priority.
  abbrev pub GoesBefore : PreemptionCandidate Q → PreemptionCandidate Q → Type 0
  GoesBefore a b =
      ((b.workflow ≢ "training") ⊎ (a.workflow ≡ "training"))
      × ((b.workflow ≢ "inference") ⊎ (a.workflow ≡ "training") ⊎ (a.workflow ≡ "inference"))
      × ((a.workflow ≢ b.workflow) ⊎ (a.priority ≤ℤ b.priority))

  abbrev pub InOrder : List (PreemptionCandidate Q) → Type 0
  InOrder [] = Unit
  InOrder (c ∷ cs) = All (GoesBefore c) cs × InOrder cs

  may_lem :
      (priority : ℤ) (c : PreemptionCandidate Q) → may_evict priority c ≡ true → MayEvict priority c
  unfolding may_evict
  may_lem priority c h = (ground (arith, h), ground (arith, h))

  may_not_lem :
      (priority : ℤ) (c : PreemptionCandidate Q)
      → may_evict priority c ≡ false
      → ¬ MayEvict priority c
  unfolding may_evict
  may_not_lem priority c h (p, l) = ground (arith, h, p, l)

  rank_lem :
      (a b : PreemptionCandidate Q)
      → evict_before b a ≡ false
      → (workflow_evict_order a.workflow ≤ℤ workflow_evict_order b.workflow)
        × (workflow_evict_order a.workflow ≡ workflow_evict_order b.workflow
            → a.priority ≤ℤ b.priority)
  unfolding evict_before
  rank_lem a b h = (ground (arith, h), λ e. ground (arith, h, parts_of_eq e))

  before_lem : (a b : PreemptionCandidate Q) → evict_before b a ≡ false → GoesBefore a b
  before_lem a b h =
      let (le, same_rank) = rank_lem a b h in
      (
        elim (Bool-cases (eq_str b.workflow "training")) [
          | inr nb ↦ inl (differ b.workflow "training" nb)
          | inl tb ↦ elim (Bool-cases (eq_str a.workflow "training")) [
            | inl ta ↦ inr ((eq_iff a.workflow "training").0 ta)
            | inr na ↦ absurd (
                omega (
                  int_laws,
                  le,
                  parts_of_eq (rank_training b.workflow tb),
                  rank_other a.workflow na,
                ))
          ]
        ],
        elim (Bool-cases (eq_str b.workflow "inference")) [
          | inr nb ↦ inl (differ b.workflow "inference" nb)
          | inl ib ↦ elim (Bool-cases (eq_str a.workflow "training")) [
            | inl ta ↦ inr (inl ((eq_iff a.workflow "training").0 ta))
            | inr na ↦ elim (Bool-cases (eq_str a.workflow "inference")) [
              | inl ia ↦ inr (inr ((eq_iff a.workflow "inference").0 ia))
              | inr ni ↦
                  absurd
                    (omega (int_laws, le, rank_inference b.workflow ib, rank_last a.workflow na ni))
            ]
          ]
        ],
        elim (Bool-cases (eq_str a.workflow b.workflow)) [
          | inr n ↦ inl (differ a.workflow b.workflow n)
          | inl e ↦ inr (same_rank (ap workflow_evict_order ((eq_iff a.workflow b.workflow).0 e)))
        ],
      )

  ordered_lem : (cs : List (PreemptionCandidate Q)) → Ordered evict_before cs → InOrder cs
  ordered_lem [] o = tt
  ordered_lem (c ∷ cs) o = (
    All-map (λ y. evict_before y c ≡ false) (GoesBefore c) cs (λ y h. before_lem c y h) o.0,
    ordered_lem cs o.1,
  )

  -- A candidate is filtered out or kept.
  kept_or_not :
      (priority : ℤ) (cs : List (PreemptionCandidate Q)) (c : PreemptionCandidate Q)
      → Memᴰ c cs
      → (may_evict priority c ≡ false) ⊎ Memᴰ c (eligible priority cs)
  kept_or_not priority [] c m = elim m [ ]
  kept_or_not priority (d ∷ ds) c (Memᴰ.head e) = elim (Bool-cases (may_evict priority d)) [
    | inl t ↦ inr (rw t (Memᴰ.head e))
    | inr f ↦ inl (subst (λ x. may_evict priority x ≡ false) (sym e) f)
  ]
  kept_or_not priority (d ∷ ds) c (Memᴰ.tail m) = elim (kept_or_not priority ds c m) [
    | inl n ↦ inl n
    | inr k ↦
        inr
          (elim (Bool-cases (may_evict priority d)) [ inl t ↦ rw t (Memᴰ.tail k) | inr f ↦ rw f k ])
  ]

  eligible-AreEligible :
      (priority : ℤ) (cs order : List (PreemptionCandidate Q))
      → Permᴰ (eligible priority cs) order
      → AreEligible priority cs order
  eligible-AreEligible priority cs order p = (
    All-Permᴰ (λ c. Memᴰ c cs × MayEvict priority c) p
        (All-of_forall _ (eligible priority cs) (λ c m. (
          All-Memᴰ (λ c. Memᴰ c cs) (eligible priority cs) (keep-Memᴰ (may_evict priority) cs) m,
          may_lem priority c (
              All-Memᴰ (λ c. may_evict priority c ≡ true) (eligible priority cs)
                (keep-passes (may_evict priority) cs) m),
        ))),
    All-of_forall (λ c. (¬ MayEvict priority c) ⊎ Memᴰ c order) cs
        (λ c m. elim (kept_or_not priority cs c m) [
          | inl n ↦ inl (may_not_lem priority c n)
          | inr k ↦ inr (moved c k)
        ]),
  )
    where
      moved : (c : PreemptionCandidate Q) → Memᴰ c (eligible priority cs) → Memᴰ c order
      moved c m =
          All-Memᴰ (λ x. Memᴰ x order) (eligible priority cs)
            (All-Permᴰ (λ x. Memᴰ x order) (Permᴰ.symm p)
              (All-of_forall (λ x. Memᴰ x order) order (λ x k. k)))
            m

  -- The victims of a preemption: the shortest prefix that frees enough of the candidates that may
  -- be evicted, in the order of eviction.
  pub record AreVictims (priority need : ℤ) (candidates victims : List (PreemptionCandidate Q))
      : Type 0 where
    pub order : List (PreemptionCandidate Q)
    pub all_eligible : AreEligible priority candidates order
    pub in_order : InOrder order
    pub is_shortest : IsShortest need order victims

  -- Choosing victims, with any sort. On success they are the shortest prefix that frees enough of
  -- the preemptible candidates of strictly lower priority, in an order with training first, then
  -- inference, and the lower priority first in one workflow. It fails only if no candidate is
  -- preemptible and of lower priority, with the priority, or if all that are do not free enough,
  -- with what they would free.
  pub select_victims_lem :
      (sorter : SortSlice) (priority need : ℤ) (candidates : List (PreemptionCandidate Q))
      → Outcome
          (AreVictims priority need candidates)
          (λ e.
            ((e ≡ no_candidates priority) × All (λ c. ¬ MayEvict priority c) candidates)
            ⊎ ((chosen : List (PreemptionCandidate Q)) × AreEligible priority candidates chosen
                × (e ≡ not_enough need (total chosen))
                × (total chosen <ℤ need)))
          (select_victims sorter priority need candidates)
  select_victims_lem sorter priority need candidates =
      Outcome-map _ _ _ _ (select_victims sorter priority need candidates)
        (λ victims v. record {
          order = v.order;
          all_eligible = eligible-AreEligible priority candidates v.order v.is_order;
          in_order = ordered_lem v.order v.ordered;
          is_shortest = v.is_shortest;
        })
        (λ e h. elim h [
          | inl n ↦ inl (
            n.0,
            All-map (λ c. may_evict priority c ≡ false) (λ c. ¬ MayEvict priority c) candidates
                (may_not_lem priority) (keep-nil (may_evict priority) candidates n.1),
          )
          | inr few ↦ inr (
            eligible priority candidates,
            eligible-AreEligible priority candidates (eligible priority candidates)
                (Permᴰ.refl (eligible priority candidates)),
            few.0,
            few.1,
          )
        ])
        (chosen_lem sorter priority need candidates)

module _ {Q W : Type 0} (atoi : String → Option ℤ) (itoa : ℤ → String)
    (base_name : String → String) where
  -- A victim comes back with a priority of at most 100.
  resume_priority-bound :
      (cfg : PreemptionConfig Q W) (pod : Pod Q) (count : ℤ)
      → resume_priority atoi itoa base_name cfg pod count ≤ℤ pos 100
  unfolding resume_priority
  resume_priority-bound cfg pod count = ground arith
