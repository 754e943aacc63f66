-- ===== src/Scheduler/Gang.antt =====
-- internal/scheduler/gang.go: pods with the same gang id are collected until all are there. The
-- map of gangs is a list in the order in which a `range` over it runs.
pub mod Laws
use gpu_scheduler.Common.{
  Bool, Option, none, some, List, [], ◌∷◌, ◌++◌, String, eq_str, ℤ, pos, ◌-ℤ◌, ltb_ℤ, leb_ℤ, length,
  if◌then◌else◌,
}
use gpu_scheduler.Common.Dict.{Dict, lookup, insert}
use gpu_scheduler.Scheduler.Pod.{Pod, get_gang_id_from_pod, get_gang_size_from_pod}

pub record GangState (Q : Type 0) : Type 0 where
  pub gang_id : String
  pub size : ℤ
  pub pods : List (Pod Q)
  pub created_at : ℤ

pub record Collected (Q : Type 0) : Type 0 where
  pub ready_gangs : List (GangState Q)
  pub standalone_pods : List (Pod Q)
  pub timed_out_gang_ids : List String

module _ {Q : Type 0} (atoi : String → Option ℤ) where
  -- A gang seen for the first time.
  unfoldable pub new_gang : String → Pod Q → GangState Q
  new_gang id pod = record {
    gang_id = id;
    size = get_gang_size_from_pod atoi pod;
    pods = [];
    created_at = pod.created_at;
  }

  unfoldable pub join : Pod Q → GangState Q → GangState Q
  join pod g = record g {
    pods = g.pods ++ pod ∷ [];
    created_at = if ltb_ℤ pod.created_at g.created_at then pod.created_at else g.created_at;
  }

  -- The loop over the pods: the gangs, and the pods with no gang id.
  unfoldable pub group :
      List (Pod Q) → Dict (GangState Q) → List (Pod Q) → Dict (GangState Q) × List (Pod Q)
  group [] gangs alone = (gangs, alone)
  group (pod ∷ pods) gangs alone =
      let id = get_gang_id_from_pod pod in
      let state : GangState Q = elim (lookup id gangs) [ some g ↦ g | none ↦ new_gang id pod ] in
      let single = group pods gangs (alone ++ pod ∷ []) in
      let member = group pods (insert id (join pod state) gangs) alone in
      if eq_str id "" then single else member

  -- The loop over the gangs.
  unfoldable pub sort_out : ℤ → ℤ → Dict (GangState Q) → List (GangState Q) × List String
  sort_out timeout now [] = ([], [])
  sort_out timeout now ((id, g) ∷ gangs) =
      let (ready, late) = sort_out timeout now gangs in
      if leb_ℤ g.size (pos (length g.pods))
      then (g ∷ ready, late)
      else if ltb_ℤ timeout (now -ℤ g.created_at)
      then (ready, g.gang_id ∷ late)
      else (ready, late)

  unfoldable pub collect : ℤ → ℤ → List (Pod Q) → Collected Q
  collect timeout now pods =
      let (gangs, alone) = group pods [] [] in
      let (ready, late) = sort_out timeout now gangs in
      record { ready_gangs = ready; standalone_pods = alone; timed_out_gang_ids = late }
