-- ===== src/Scheduler/Watcher/Order.antt =====
-- internal/scheduler/watcher.go: the order of the pending pods, and the wait for evicted ones.
use gpu_scheduler.Common.{
  ◌≡◌, refl, sym, ap, ◌∙◌, subst, ℤ, pos, ◌≤ℤ◌, ◌+ℤ◌, true, false, some, List, [], ◌∷◌, String,
  eq_str, eq_iff, Memᴰ, All, keep, Bool-cases, List-cases, arith, inl, inr,
}
use gpu_scheduler.Common.Dict.{Dict, lookup, erase, lookup-erase_ne}
use gpu_scheduler.Registry.{pod_key}
use gpu_scheduler.Scheduler.Pod.{get_priority_from_pod}
use gpu_scheduler.Scheduler.Disagg.{ClusterPod}
use gpu_scheduler.Scheduler.Watcher.{Env, Watcher}
use gpu_scheduler.Scheduler.Watcher.Loop.{
  PodWithPriority, still_exists, clear_evictions, is_waiting, process_pods,
}

module _ {Q : Type 0} where
  -- A pod of a list is in the cluster under its key.
  found :
      (key : String) (p : ClusterPod Q) (pods : List (ClusterPod Q))
      → Memᴰ p pods
      → pod_key p.pod.namespace p.pod.name ≡ key
      → still_exists key pods ≡ true
  unfolding still_exists
  found key p [] m e = elim m [ ]
  found key p (q ∷ pods) (Memᴰ.head same) e =
      rw
        ((eq_iff (pod_key q.pod.namespace q.pod.name) key).1
          (subst (λ (x : ClusterPod Q). pod_key x.pod.namespace x.pod.name ≡ key) same e))
        refl
  found key p (q ∷ pods) (Memᴰ.tail m) e = ground (arith, found key p pods m e)

  -- An eviction in flight whose pod still exists is met by the loop, and stays.
  clear_met :
      (key : String) (at : ℤ) (rest : Dict ℤ) (pods : List (ClusterPod Q)) (all : Dict ℤ)
      → still_exists key pods ≡ true
      → Memᴰ (key, at) rest
      → ((clear_evictions rest pods all).0 ≡ true)
        × (lookup key (clear_evictions rest pods all).1 ≡ lookup key all)
  unfolding clear_evictions
  clear_met key at [] pods all h m = elim m [ ]
  clear_met key at ((k, t) ∷ rest) pods all h m = elim (Bool-cases (still_exists k pods)) [
    | inl e ↦ rw e (refl, refl)
    | inr e ↦
        let (met, same) = clear_met key at rest pods (erase k all) h (later m (apart e)) in
        rw e (met, same ∙ lookup-erase_ne k key all (apart e))
  ]
    where
      apart : still_exists k pods ≡ false → eq_str k key ≡ false
      apart e = elim (Bool-cases (eq_str k key)) [
        | inl q ↦
            let gone : still_exists key pods ≡ false =
              subst (λ (x : String). still_exists x pods ≡ false) ((eq_iff k key).0 q) e in
            cc (h, gone)
        | inr q ↦ q
      ]

      later : Memᴰ (key, at) ((k, t) ∷ rest) → eq_str k key ≡ false → Memᴰ (key, at) rest
      later (Memᴰ.head same) q =
          let hit : eq_str k key ≡ true =
            (eq_iff k key).1 (sym (ap (λ (x : String × ℤ). x.0) same)) in
          absurd (cc (q, hit))
      later (Memᴰ.tail n) q = n

-- What the round of the watcher has to wait for: an eviction in flight whose pod is still in the
-- cluster.
pub record IsEvicting {Q W : Type 0} (w : Watcher W) (pods : List (ClusterPod Q)) (key : String)
    : Type 0 where
  pub at : ℤ
  pub tracked : Memᴰ (key, at) w.pending_evictions
  pub pod : ClusterPod Q
  pub known : Memᴰ pod pods
  pub named : pod_key pod.pod.namespace pod.pod.name ≡ key

module _ {Q : Type 0} where
  -- `y` is rightly after `x`: its priority is no higher, and where it is equal, its place is later.
  abbrev pub IsAfter : PodWithPriority Q → PodWithPriority Q → Type 0
  IsAfter x y = (y.priority ≤ℤ x.priority) × (y.priority ≡ x.priority → x.index ≤ℤ y.index)

  abbrev pub ByPriority : List (PodWithPriority Q) → Type 0
  ByPriority [] = Unit
  ByPriority (x ∷ xs) = All (IsAfter x) xs × ByPriority xs

module _ {Q W : Type 0} (env : Env Q W) where
  -- A round with an evicted pod that is still in the cluster, whatever pods are pending: it does
  -- not panic, it reserves nothing, releases nothing and calls nothing of the cluster, and the
  -- eviction stays tracked as it was, so the next round waits too.
  pub process_pods-deferred :
      (w : Watcher W) (pods : List (ClusterPod Q)) (now : ℤ) (key : String)
      → IsEvicting w pods key
      → (w' : Watcher W) × (process_pods env pods now w ≡ some w')
        × (w'.registry ≡ w.registry)
        × (w'.cluster ≡ w.cluster)
        × (lookup key w'.pending_evictions ≡ lookup key w.pending_evictions)
  unfolding process_pods
  process_pods-deferred w pods now key v =
      let (met, same) =
        clear_met key v.at w.pending_evictions pods w.pending_evictions
          (found key v.pod pods v.known v.named) v.tracked in
      elim (List-cases (keep (is_waiting env.scheduler_name) pods)) [
        | inl e ↦ (w, rw (e, process_pods) refl, refl, refl, refl)
        | inr (p, ps, e) ↦ (
          record w {
            pending_evictions = (clear_evictions w.pending_evictions pods w.pending_evictions).1;
          },
          rw (e, process_pods) (rw met refl),
          refl,
          refl,
          same,
        )
      ]

  -- The pending pods in the order of the list, each with its priority and its position.
  abbrev pub ListedFrom : ℤ → List (ClusterPod Q) → List (PodWithPriority Q) → Type 0
  ListedFrom i [] [] = Unit
  ListedFrom i [] (x ∷ xs) = ⊥
  ListedFrom i (p ∷ ps) [] = ⊥
  ListedFrom i (p ∷ ps) (x ∷ xs) =
      (x.pod ≡ p.pod)
      × (x.priority ≡ get_priority_from_pod env.atoi p.pod env.workflow_cfg)
      × (x.index ≡ i)
      × ListedFrom (i +ℤ pos 1) ps xs
