-- ===== src/Proxy/Router/Serving.antt =====
-- internal/proxy/router.go: FindRequestWorker, by what a worker that can serve is like.
use gpu_scheduler.Common.{
  ◌≡◌, ◌≢◌, refl, ap, eq_str, eq_iff, Option-cases, All-map, All-Memᴰ, keep-passes, keep-nil,
  keep-Memᴰ, Outcome-map, ◌⊎◌, inl, inr, Bool, true, false, some, List, [], ◌∷◌, String, Memᴰ, All,
  keep, Bool-cases, Outcome, arith,
}
use gpu_scheduler.Common.Dict.{Dict, lookup}
use gpu_scheduler.ControlPlane.{
  WorkerInfo, WorkerStat, PressureReport, PressureState, normal, prefill_hot, decode_hot,
  other_pressure, WorkerState, starting, ready, draining, removed, other_state,
}
use gpu_scheduler.Types.{InferenceRole, prefill, decode, unified, unknown}
use gpu_scheduler.Proxy.Router.{
  is_ready, is_open, is_hot, unified_role, prefill_role, decode_role, RouterError, RequestWorker,
  unified_worker, disagg_workers, err_no_capacity, serves_unified, serves_prefill, serves_decode,
  is_hot_group, find_request_worker,
}
use gpu_scheduler.Proxy.Router.Laws.{IsLeast, IsBest, Answers, route_lem}

module _ {F : Type 0} (less : F → F → Bool) where
  -- A ready worker of the group that is routable and has an endpoint, in a role.
  abbrev pub CanServe : InferenceRole → String → WorkerInfo → Type 0
  CanServe role group w =
      (w.model_group ≡ group)
      × (w.state ≡ ready)
      × (w.routable ≡ true)
      × (w.endpoint ≢ "")
      × (w.role ≡ role)

  -- A prefill or decode worker also has to be ready for transfers between GPUs.
  abbrev pub CanPair : InferenceRole → String → WorkerInfo → Type 0
  CanPair role group w = CanServe role group w × (w.gpu2gpu_ready ≡ true)

  -- The report of the group is of one of the two hot states.
  abbrev pub IsHot : String → Dict (PressureReport F) → Type 0
  IsHot group reports =
      (r : PressureReport F) × (lookup group reports ≡ some r)
      × ((r.pressure_state ≡ prefill_hot) ⊎ (r.pressure_state ≡ decode_hot))

  hot_lem : (p : PressureState) → is_hot p ≡ true → (p ≡ prefill_hot) ⊎ (p ≡ decode_hot)
  hot_lem normal h = absurd (cc h)
  hot_lem prefill_hot h = inl refl
  hot_lem decode_hot h = inr refl
  hot_lem (other_pressure p) h = absurd (cc h)

  cool_lem : (p : PressureState) → is_hot p ≡ false → ¬ ((p ≡ prefill_hot) ⊎ (p ≡ decode_hot))
  cool_lem p h (inl e) = cc (rw e at h)
  cool_lem p h (inr e) = cc (rw e at h)

  group-IsHot :
      (group : String) (reports : Dict (PressureReport F))
      → is_hot_group less group reports ≡ true
      → IsHot group reports
  unfolding is_hot_group
  group-IsHot group reports h = elim (Option-cases (lookup group reports)) [
    | inl n ↦ absurd (cc (rw (n, is_hot_group) at h))
    | inr (r, e) ↦ (r, e, hot_lem r.pressure_state (rw (e, is_hot_group) at h))
  ]

  group-not-IsHot :
      (group : String) (reports : Dict (PressureReport F))
      → is_hot_group less group reports ≡ false
      → ¬ IsHot group reports
  unfolding is_hot_group
  group-not-IsHot group reports h (r, e, p) =
      cool_lem r.pressure_state (rw (e, is_hot_group) at h) p

  ready_lem : (s : WorkerState) → is_ready s ≡ true → s ≡ ready
  ready_lem starting h = absurd (cc h)
  ready_lem ready h = refl
  ready_lem draining h = absurd (cc h)
  ready_lem removed h = absurd (cc h)
  ready_lem (other_state s) h = absurd (cc h)

  open_lem :
      (group : String) (w : WorkerInfo)
      → is_open group w ≡ true
      → (w.model_group ≡ group) × (w.state ≡ ready) × (w.routable ≡ true) × (w.endpoint ≢ "")
  unfolding is_open
  open_lem group w h = (
    (eq_iff w.model_group group).0 (ground (arith, h)),
    ready_lem w.state (ground (arith, h)),
    ground (arith, h),
    λ e. ground (arith, h, (eq_iff w.endpoint "").1 e),
  )

  of_open :
      (group : String) (w : WorkerInfo)
      → w.model_group ≡ group
      → w.state ≡ ready
      → w.routable ≡ true
      → w.endpoint ≢ ""
      → is_open group w ≡ true
  unfolding is_open
  of_open group w g s r e =
      let named = (eq_iff w.model_group group).1 g in
      let is_up : is_ready w.state ≡ true = ap is_ready s in
      let reached : eq_str w.endpoint "" ≡ false = elim (Bool-cases (eq_str w.endpoint "")) [
        | inl t ↦ absurd (e ((eq_iff w.endpoint "").0 t))
        | inr t ↦ t
      ] in
      ground (arith, named, is_up, r, reached)

  unified_role_lem : (role : InferenceRole) → unified_role role ≡ true → role ≡ unified
  unified_role_lem unified h = refl
  unified_role_lem prefill h = absurd (cc h)
  unified_role_lem decode h = absurd (cc h)
  unified_role_lem unknown h = absurd (cc h)

  prefill_role_lem : (role : InferenceRole) → prefill_role role ≡ true → role ≡ prefill
  prefill_role_lem unified h = absurd (cc h)
  prefill_role_lem prefill h = refl
  prefill_role_lem decode h = absurd (cc h)
  prefill_role_lem unknown h = absurd (cc h)

  decode_role_lem : (role : InferenceRole) → decode_role role ≡ true → role ≡ decode
  decode_role_lem unified h = absurd (cc h)
  decode_role_lem prefill h = absurd (cc h)
  decode_role_lem decode h = refl
  decode_role_lem unknown h = absurd (cc h)

  unified_sound :
      (group : String) (w : WorkerInfo) → serves_unified group w ≡ true → CanServe unified group w
  unfolding serves_unified
  unified_sound group w h =
      let (g, s, r, e) = open_lem group w (ground (arith, h)) in
      (g, s, r, e, unified_role_lem w.role (ground (arith, h)))

  unified_complete :
      (group : String) (w : WorkerInfo)
      → serves_unified group w ≡ false
      → ¬ CanServe unified group w
  unfolding serves_unified
  unified_complete group w h (g, s, r, e, role) =
      let is_role : unified_role w.role ≡ true = ap unified_role role in
      ground (arith, h, of_open group w g s r e, is_role)

  prefill_sound :
      (group : String) (w : WorkerInfo) → serves_prefill group w ≡ true → CanPair prefill group w
  unfolding serves_prefill
  prefill_sound group w h =
      let (g, s, r, e) = open_lem group w (ground (arith, h)) in
      ((g, s, r, e, prefill_role_lem w.role (ground (arith, h))), ground (arith, h))

  prefill_complete :
      (group : String) (w : WorkerInfo) → serves_prefill group w ≡ false → ¬ CanPair prefill group w
  unfolding serves_prefill
  prefill_complete group w h ((g, s, r, e, role), paired) =
      let is_role : prefill_role w.role ≡ true = ap prefill_role role in
      ground (arith, h, of_open group w g s r e, is_role, paired)

  decode_sound :
      (group : String) (w : WorkerInfo) → serves_decode group w ≡ true → CanPair decode group w
  unfolding serves_decode
  decode_sound group w h =
      let (g, s, r, e) = open_lem group w (ground (arith, h)) in
      ((g, s, r, e, decode_role_lem w.role (ground (arith, h))), ground (arith, h))

  decode_complete :
      (group : String) (w : WorkerInfo) → serves_decode group w ≡ false → ¬ CanPair decode group w
  unfolding serves_decode
  decode_complete group w h ((g, s, r, e, role), paired) =
      let is_role : decode_role w.role ≡ true = ap decode_role role in
      ground (arith, h, of_open group w g s r e, is_role, paired)

  -- One of the workers that can serve, and none of them has stats with fewer requests in flight.
  abbrev pub BestOf :
      (WorkerInfo → Type 0) → Dict (WorkerStat F) → List WorkerInfo → WorkerInfo → Type 0
  BestOf P stats workers best =
      Memᴰ best workers × P best × All (λ w. (¬ P w) ⊎ IsLeast less stats best w) workers

  abbrev pub NoneOf : (WorkerInfo → Type 0) → List WorkerInfo → Type 0
  NoneOf P workers = All (λ w. ¬ P w) workers

  module _ (P : WorkerInfo → Type 0) (p : WorkerInfo → Bool)
      (sound : (w : WorkerInfo) → p w ≡ true → P w)
      (complete : (w : WorkerInfo) → p w ≡ false → ¬ P w) where
    others :
        (R : WorkerInfo → Type 0) (ws : List WorkerInfo)
        → All R (keep p ws)
        → All (λ w. (¬ P w) ⊎ R w) ws
    others R [] h = tt
    others R (w ∷ ws) h = elim (Bool-cases (p w)) [
      | inl e ↦ let kept = rw e at h in (inr kept.0, others R ws kept.1)
      | inr e ↦ (inl (complete w e), others R ws (rw e at h))
    ]

    keep_best :
        (stats : Dict (WorkerStat F)) (ws : List WorkerInfo) (b : WorkerInfo)
        → IsBest less stats (keep p ws) b
        → BestOf P stats ws b
    keep_best stats ws b (m, least) = (
      All-Memᴰ (λ w. Memᴰ w ws) (keep p ws) (keep-Memᴰ p ws) m,
      sound b (All-Memᴰ (λ w. p w ≡ true) (keep p ws) (keep-passes p ws) m),
      others (IsLeast less stats b) ws least,
    )

    keep_none : (ws : List WorkerInfo) → keep p ws ≡ [] → NoneOf P ws
    keep_none ws h = All-map (λ w. p w ≡ false) (λ w. ¬ P w) ws complete (keep-nil p ws h)

  -- What the answer to a request promises.
  abbrev pub RightAnswer :
      String
      → Dict (WorkerStat F)
      → Dict (PressureReport F)
      → List WorkerInfo
      → RequestWorker
      → Type 0
  RightAnswer group stats reports ws (unified_worker u) =
      BestOf (CanServe unified group) stats ws u
      × ((¬ IsHot group reports)
          ⊎ NoneOf (CanPair prefill group) ws
          ⊎ NoneOf (CanPair decode group) ws)
  RightAnswer group stats reports ws (disagg_workers p d) =
      BestOf (CanPair prefill group) stats ws p
      × BestOf (CanPair decode group) stats ws d
      × (IsHot group reports ⊎ NoneOf (CanServe unified group) ws)

  request_lem :
      (group : String) (workers : List WorkerInfo) (stats : Dict (WorkerStat F))
      (reports : Dict (PressureReport F))
      → let us = keep (serves_unified group) workers in
        let ps = keep (serves_prefill group) workers in
        let ds = keep (serves_decode group) workers in
        Outcome
          (Answers less (is_hot_group less group reports) stats us ps ds)
          (λ e. (e ≡ err_no_capacity) × (us ≡ []) × ((ps ≡ []) ⊎ (ds ≡ [])))
          (find_request_worker less group workers stats reports)
  unfolding find_request_worker
  request_lem group workers stats reports =
      route_lem less (is_hot_group less group reports) stats (keep (serves_unified group) workers)
        (keep (serves_prefill group) workers) (keep (serves_decode group) workers)

  -- A request for any group, among any workers, stats and reports. A worker can serve the group in
  -- a role if it is ready, routable and has an endpoint, and for a pair is ready for transfers. The
  -- answer is a unified worker that can serve, if the group's report is not of a hot state or no
  -- worker can be one of the pair; or a pair that can, if the report is of a hot state or no unified
  -- worker can. A chosen worker has stats, if any that can serve in its role has, and none of those
  -- has fewer requests in flight. The only error is "no capacity", if no unified worker and no pair
  -- can serve the group.
  pub find_request_worker_lem :
      (group : String) (workers : List WorkerInfo) (stats : Dict (WorkerStat F))
      (reports : Dict (PressureReport F))
      → Outcome
          (RightAnswer group stats reports workers)
          (λ e.
            (e ≡ err_no_capacity)
            × NoneOf (CanServe unified group) workers
            × (NoneOf (CanPair prefill group) workers ⊎ NoneOf (CanPair decode group) workers))
          (find_request_worker less group workers stats reports)
  find_request_worker_lem group workers stats reports =
      Outcome-map _ _ _ _ (find_request_worker less group workers stats reports) right refused
        (request_lem group workers stats reports)
    where
      right :
          (x : RequestWorker)
          → Answers less
              (is_hot_group less group reports)
              stats
              (keep (serves_unified group) workers)
              (keep (serves_prefill group) workers)
              (keep (serves_decode group) workers)
              x
          → RightAnswer group stats reports workers x
      right (unified_worker u) (best, why) = (
        keep_best (CanServe unified group) (serves_unified group) (unified_sound group)
            (unified_complete group) stats workers u best,
        elim why [
          | inl cool ↦ inl (group-not-IsHot group reports cool)
          | inr (inl no_p) ↦ inr (
              inl (
                keep_none (CanPair prefill group) (serves_prefill group) (prefill_sound group)
                  (prefill_complete group) workers no_p))
          | inr (inr no_d) ↦ inr (
              inr (
                keep_none (CanPair decode group) (serves_decode group) (decode_sound group)
                  (decode_complete group) workers no_d))
        ],
      )
      right (disagg_workers p d) (best_p, best_d, why) = (
        keep_best (CanPair prefill group) (serves_prefill group) (prefill_sound group)
            (prefill_complete group) stats workers p best_p,
        keep_best (CanPair decode group) (serves_decode group) (decode_sound group)
            (decode_complete group) stats workers d best_d,
        elim why [
          | inl hot ↦ inl (group-IsHot group reports hot)
          | inr no_u ↦ inr (
              keep_none (CanServe unified group) (serves_unified group) (unified_sound group)
                (unified_complete group) workers no_u)
        ],
      )

      refused :
          (e : RouterError)
          → (e ≡ err_no_capacity)
            × (keep (serves_unified group) workers ≡ [])
            × ((keep (serves_prefill group) workers ≡ [])
                ⊎ (keep (serves_decode group) workers ≡ []))
          → (e ≡ err_no_capacity)
            × NoneOf (CanServe unified group) workers
            × (NoneOf (CanPair prefill group) workers ⊎ NoneOf (CanPair decode group) workers)
      refused e (k, no_u, no_pair) = (
        k,
        keep_none (CanServe unified group) (serves_unified group) (unified_sound group)
            (unified_complete group) workers no_u,
        elim no_pair [
          | inl no_p ↦ inl (
              keep_none (CanPair prefill group) (serves_prefill group) (prefill_sound group)
                (prefill_complete group) workers no_p)
          | inr no_d ↦ inr (
              keep_none (CanPair decode group) (serves_decode group) (decode_sound group)
                (decode_complete group) workers no_d)
        ],
      )
