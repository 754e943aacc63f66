-- ===== src/Manager/Refresh.antt =====
-- internal/gpu/manager.go: RefreshAll. `refresh` stands for the discoverer's Refresh, which writes
-- the GPU and can fail, with the text of its error; `S` is whatever the discoverer reads.
use gpu_scheduler.Common.{
  ◌≡◌, ◌≢◌, ◌⊎◌, Option, none, some, List, [], ◌∷◌, String, length, keep, pos, All,
}
use gpu_scheduler.Common.Dict.{Dict}
use gpu_scheduler.Types.{Gpu, NodeInfo}
use gpu_scheduler.Manager.{Manager, ManagerError, refresh_failed, healthy_gpus}

-- What the discoverer reads, what was refreshed, and nil or the error.
abbrev pub Refreshed : Type 0 → Type 0 → Type 0
Refreshed S A = S × A × Option ManagerError

module _ {S : Type 0} where
  -- One GPU is refreshed; with an error the rest of the node stays as it is.
  unfoldable pub after_gpu :
      S → Gpu → List Gpu → Option String → Refreshed S (List Gpu) → Refreshed S (List Gpu)
  after_gpu s g gs (some e) later = (s, g ∷ gs, some (refresh_failed g.id e))
  after_gpu s g gs none (s', rest, e) = (s', g ∷ rest, e)

  -- The GPUs of one node are refreshed; with no error its healthy ones are counted, and the other
  -- nodes follow.
  unfoldable pub after_node :
      String
      → NodeInfo
      → Dict NodeInfo
      → Refreshed S (List Gpu)
      → Refreshed S (Dict NodeInfo)
      → Refreshed S (Dict NodeInfo)
  after_node name n nodes (s, gpus, some e) later =
      (s, (name, record n { gpus = gpus }) ∷ nodes, some e)
  after_node name n nodes (s, gpus, none) (s', rest, e) =
      (s', (name, record n { gpus = gpus; available_gpus = healthy_gpus gpus }) ∷ rest, e)

  module _ (refresh : S → Gpu → S × Gpu × Option String) where
    unfoldable pub refresh_gpus : S → List Gpu → Refreshed S (List Gpu)
    refresh_gpus s [] = (s, [], none)
    refresh_gpus s (g ∷ gs) =
        let (s', g', e) = refresh s g in after_gpu s' g' gs e (refresh_gpus s' gs)

    unfoldable pub refresh_nodes : S → Dict NodeInfo → Refreshed S (Dict NodeInfo)
    refresh_nodes s [] = (s, [], none)
    refresh_nodes s ((name, n) ∷ nodes) =
        let here = refresh_gpus s n.gpus in
        after_node name n nodes here (refresh_nodes (here.0) nodes)

    unfoldable pub refresh_all : S → Manager → Refreshed S Manager
    refresh_all s m =
        let (s', nodes, e) = refresh_nodes s m.nodes in (s', record m { nodes = nodes }, e)

-- The same nodes, with as many GPUs.
abbrev pub SameShape : Dict NodeInfo → Dict NodeInfo → Type 0
SameShape [] [] = Unit
SameShape [] (x ∷ xs) = ⊥
SameShape (x ∷ xs) [] = ⊥
SameShape ((a, n) ∷ xs) ((b, k) ∷ ys) =
    (a ≡ b) × ((n.name ≡ k.name) × ((length n.gpus ≡ length k.gpus) × SameShape xs ys))

abbrev pub Counted : Dict NodeInfo → Type 0
Counted nodes =
    All (λ x. x.1.available_gpus ≡ pos (length (keep (λ g. g.is_healthy) x.1.gpus))) nodes

module _ {S : Type 0} where
  abbrev pub IsRefreshed : Dict NodeInfo → Refreshed S (Dict NodeInfo) → Type 0
  IsRefreshed nodes x = SameShape nodes x.1 × ((x.2 ≢ none) ⊎ Counted x.1)
