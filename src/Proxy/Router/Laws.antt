-- ===== src/Proxy/Router/Laws.antt =====
-- internal/proxy/router.go: the choice of the best worker, and of the kind of the answer.
use gpu_scheduler.Common.{
  ◌≡◌, refl, ◌⊎◌, inl, inr, Bool, true, false, Option, none, some, List, [], ◌∷◌, ltb_ℤ, ◌≤ℤ◌,
  ltb_ℤ-true, ltb_ℤ-false, Memᴰ, All, All-of_forall, Bool-cases, Outcome, arith, if◌then◌else◌,
}
use gpu_scheduler.Common.Dict.{Dict, lookup}
use gpu_scheduler.ControlPlane.{WorkerInfo, WorkerStat}
use gpu_scheduler.Proxy.Router.{
  RequestWorker, unified_worker, disagg_workers, err_no_capacity, should_replace, best_of,
  find_best, find_best_prefill_worker, find_best_decode_worker, find_best_unified_worker,
  match_disagg, match_unified, route,
}

module _ {F : Type 0} (less : F → F → Bool) where
  best_of-Memᴰ :
      (metric : WorkerStat F → F) (stats : Dict (WorkerStat F)) (b : WorkerInfo)
      (ws all : List WorkerInfo)
      → Memᴰ b all
      → All (λ w. Memᴰ w all) ws
      → Memᴰ (best_of less metric stats b ws) all
  unfolding best_of
  best_of-Memᴰ metric stats b [] all m h = m
  best_of-Memᴰ metric stats b (w ∷ ws) all m h =
      elim (Bool-cases (should_replace less metric (lookup b.id stats) (lookup w.id stats))) [
        | inl e ↦ rw e (best_of-Memᴰ metric stats w ws all h.0 h.1)
        | inr e ↦ rw e (best_of-Memᴰ metric stats b ws all m h.1)
      ]

  -- Stats that are at least as good: none are better than none, and any better than none.
  abbrev pub NoWorse : Option (WorkerStat F) → Option (WorkerStat F) → Type 0
  NoWorse best none = Unit
  NoWorse none (some s) = ⊥
  NoWorse (some t) (some s) = t.inflight ≤ℤ s.inflight

  NoWorse-refl : (a : Option (WorkerStat F)) → NoWorse a a
  NoWorse-refl none = tt
  NoWorse-refl (some s) = omega arith

  NoWorse-trans : (a b c : Option (WorkerStat F)) → NoWorse a b → NoWorse b c → NoWorse a c
  NoWorse-trans a b none h k = tt
  NoWorse-trans a none (some z) h k = absurd k
  NoWorse-trans none (some y) (some z) h k = absurd h
  NoWorse-trans (some x) (some y) (some z) h k = omega (arith, h, k)

  replace-NoWorse :
      (metric : WorkerStat F → F) (a b : Option (WorkerStat F))
      → (if should_replace less metric a b then NoWorse b a else NoWorse a b)
  unfolding should_replace
  replace-NoWorse metric a none = tt
  replace-NoWorse metric none (some y) = tt
  replace-NoWorse metric (some x) (some y) = elim (Bool-cases (ltb_ℤ y.inflight x.inflight)) [
    | inl e ↦ rw e (omega (arith, ltb_ℤ-true y.inflight x.inflight e))
    | inr e ↦ elim (Bool-cases (ltb_ℤ x.inflight y.inflight)) [
      | inl f ↦ rw (e, f) (omega (arith, ltb_ℤ-true x.inflight y.inflight f))
      | inr f ↦ elim (Bool-cases (less (metric y) (metric x))) [
        | inl g ↦ rw (e, f, g) (omega (arith, ltb_ℤ-false x.inflight y.inflight f))
        | inr g ↦ rw (e, f, g) (omega (arith, ltb_ℤ-false y.inflight x.inflight e))
      ]
    ]
  ]

  abbrev pub IsLeast : Dict (WorkerStat F) → WorkerInfo → WorkerInfo → Type 0
  IsLeast stats best w = NoWorse (lookup best.id stats) (lookup w.id stats)

  -- Of two workers, the one that the loop goes on with.
  next_lem :
      (metric : WorkerStat F → F) (stats : Dict (WorkerStat F)) (b w : WorkerInfo)
      → let n =
          if should_replace less metric (lookup b.id stats) (lookup w.id stats) then w else b in
        IsLeast stats n b × IsLeast stats n w
  next_lem metric stats b w =
      let step = replace-NoWorse metric (lookup b.id stats) (lookup w.id stats) in
      elim (Bool-cases (should_replace less metric (lookup b.id stats) (lookup w.id stats))) [
        | inl e ↦ rw e (rw e at step, NoWorse-refl (lookup w.id stats))
        | inr e ↦ rw e (NoWorse-refl (lookup b.id stats), rw e at step)
      ]

  best_of-IsLeast :
      (metric : WorkerStat F → F) (stats : Dict (WorkerStat F)) (b : WorkerInfo)
      (ws : List WorkerInfo)
      → IsLeast stats (best_of less metric stats b ws) b
        × All (IsLeast stats (best_of less metric stats b ws)) ws
  unfolding best_of
  best_of-IsLeast metric stats b [] = (NoWorse-refl (lookup b.id stats), tt)
  best_of-IsLeast metric stats b (w ∷ ws) =
      let n = if should_replace less metric (lookup b.id stats) (lookup w.id stats) then w else b in
      let (over_b, over_w) = next_lem metric stats b w in
      let (h, k) = best_of-IsLeast metric stats n ws in
      (
        NoWorse-trans _ (lookup n.id stats) (lookup b.id stats) h over_b,
        (NoWorse-trans _ (lookup n.id stats) (lookup w.id stats) h over_w, k),
      )

  -- One of the workers, and none of them has stats with fewer requests in flight.
  abbrev pub IsBest : Dict (WorkerStat F) → List WorkerInfo → WorkerInfo → Type 0
  IsBest stats ws best = Memᴰ best ws × All (IsLeast stats best) ws

  find_best_lem :
      (metric : WorkerStat F → F) (stats : Dict (WorkerStat F)) (w : WorkerInfo)
      (ws : List WorkerInfo)
      → IsBest stats (w ∷ ws) (best_of less metric stats w (w ∷ ws))
  find_best_lem metric stats w ws = (
    best_of-Memᴰ metric stats w (w ∷ ws) (w ∷ ws) (Memᴰ.head refl)
        (All-of_forall (λ x. Memᴰ x (w ∷ ws)) (w ∷ ws) (λ x m. m)),
    (best_of-IsLeast metric stats w (w ∷ ws)).1,
  )

  -- What the answer to a request promises, by the workers of the three roles that can serve it.
  abbrev pub Answers :
      Bool
      → Dict (WorkerStat F)
      → List WorkerInfo
      → List WorkerInfo
      → List WorkerInfo
      → RequestWorker
      → Type 0
  Answers hot stats us ps ds (unified_worker u) =
      IsBest stats us u × ((hot ≡ false) ⊎ (ps ≡ []) ⊎ (ds ≡ []))
  Answers hot stats us ps ds (disagg_workers p d) =
      IsBest stats ps p × IsBest stats ds d × ((hot ≡ true) ⊎ (us ≡ []))

  pub route_lem :
      (hot : Bool) (stats : Dict (WorkerStat F)) (us ps ds : List WorkerInfo)
      → Outcome
          (Answers hot stats us ps ds)
          (λ e. (e ≡ err_no_capacity) × (us ≡ []) × ((ps ≡ []) ⊎ (ds ≡ [])))
          (route less hot stats us ps ds)
  unfolding route match_disagg match_unified find_best find_best_prefill_worker
      find_best_decode_worker find_best_unified_worker
  route_lem hot stats [] [] ds = (refl, refl, inl refl)
  route_lem hot stats [] (p ∷ ps) [] = (refl, refl, inr refl)
  route_lem hot stats [] (p ∷ ps) (d ∷ ds) = (
    find_best_lem (λ s. s.ttft_p95) stats p ps,
    find_best_lem (λ s. s.itl_p95) stats d ds,
    inr refl,
  )
  route_lem hot stats (u ∷ us) [] ds = (find_best_lem (λ s. s.itl_p95) stats u us, inr (inl refl))
  route_lem hot stats (u ∷ us) (p ∷ ps) [] =
      (find_best_lem (λ s. s.itl_p95) stats u us, inr (inr refl))
  route_lem true stats (u ∷ us) (p ∷ ps) (d ∷ ds) = (
    find_best_lem (λ s. s.ttft_p95) stats p ps,
    find_best_lem (λ s. s.itl_p95) stats d ds,
    inl refl,
  )
  route_lem false stats (u ∷ us) (p ∷ ps) (d ∷ ds) =
      (find_best_lem (λ s. s.itl_p95) stats u us, inl refl)
