-- ===== src/Allocator/BinPack/Group.antt =====
-- internal/allocator/binpack.go: the group of GPUs that findGangCandidates offers for one node.
use mathlib.Core.List.Permᴰ
use mathlib.Core.List.{map-append}
use gpu_scheduler.Common.{
  ℕ, zero, suc, ◌≤◌, ◌<◌, ◌≡◌, refl, ap, ap₂, ◌∙◌, sym, subst, subst₂, ◌⊎◌, inl, inr, Bool, false,
  none, some, List, [], ◌∷◌, ◌++◌, map, Permᴰ, arith, ℤ, pos, ◌≤ℤ◌, ◌+ℤ◌, ltb_ℤ, length, take, drop,
  take-append-drop, length-take, length-map, length-keep-le, length-Permᴰ, All, All-take, All-Permᴰ,
  Bool-cases, Ordered, IsStrictWeak, SortSlice,
}
use gpu_scheduler.Types.{Gpu, NodeInfo}
use gpu_scheduler.Allocator.Eligible.{has_room, eligible}
use gpu_scheduler.Allocator.BinPack.{
  GangCandidate, EligibleGpu, waste, eligible_gpus, total_waste, less_waste, gang_candidate,
}
use gpu_scheduler.Allocator.BinPack.Prefix.{sum_ℤ, least_prefix}

map-take {ℓ κ} :
    {A : Type ℓ} {B : Type κ} (f : A → B) (n : ℕ) (xs : List A)
    → map f (take n xs) ≡ take n (map f xs)
map-take f zero xs = refl
map-take f (suc n) [] = refl
map-take f (suc n) (x ∷ xs) = ap (◌∷◌ (f x)) (map-take f n xs)

All-map_list {ℓ κ μ} :
    {A : Type ℓ} {B : Type κ} (P : B → Type μ) (f : A → B) (xs : List A)
    → All (λ x. P (f x)) xs
    → All P (map f xs)
All-map_list P f [] h = tt
All-map_list P f (x ∷ xs) h = (h.0, All-map_list P f xs h.1)

abbrev keys : List EligibleGpu → List ℤ
keys = map (λ e. e.waste)

abbrev devices : List EligibleGpu → List Gpu
devices = map (λ e. e.gpu)

Ordered-keys : (es : List EligibleGpu) → Ordered less_waste es → Ordered ltb_ℤ (keys es)
Ordered-keys [] o = tt
Ordered-keys (e ∷ es) o =
    (All-map_list (λ y. ltb_ℤ y e.waste ≡ false) (λ x. x.waste) es o.0, Ordered-keys es o.1)

less_waste-IsStrictWeak : IsStrictWeak less_waste
less_waste-IsStrictWeak = record { asymm = λ a b. ground arith; split = λ a b c. ground arith }

total_waste-keys : (es : List EligibleGpu) → total_waste es ≡ sum_ℤ (keys es)
total_waste-keys [] = refl
total_waste-keys (e ∷ es) = ap (◌+ℤ◌ e.waste) (total_waste-keys es)

module _ (shared : Bool) (need : ℤ) where
  abbrev mk : Gpu → EligibleGpu
  mk g = record { gpu = g; waste = waste need g }

  -- The memory that a selection of GPUs wastes.
  abbrev pub total : List Gpu → ℤ
  total gs = sum_ℤ (map (waste need) gs)

  eligible_gpus-map :
      (gs : List Gpu) → eligible_gpus shared need gs ≡ map mk (eligible shared need gs)
  unfolding eligible_gpus
  eligible_gpus-map [] = refl
  eligible_gpus-map (g ∷ gs) = elim (Bool-cases (has_room shared need g)) [
    | inl e ↦ rw e (ap (◌∷◌ (mk g)) (eligible_gpus-map gs))
    | inr e ↦ rw e (eligible_gpus-map gs)
  ]

  devices-mk : (gs : List Gpu) → devices (map mk gs) ≡ gs
  devices-mk [] = refl
  devices-mk (g ∷ gs) = ap (◌∷◌ g) (devices-mk gs)

  keys-mk : (gs : List Gpu) → keys (map mk gs) ≡ map (waste need) gs
  keys-mk [] = refl
  keys-mk (g ∷ gs) = ap (◌∷◌ (waste need g)) (keys-mk gs)

  abbrev IsExact : EligibleGpu → Type 0
  IsExact e = e.waste ≡ waste need e.gpu

  mk-IsExact : (gs : List Gpu) → All IsExact (map mk gs)
  mk-IsExact [] = tt
  mk-IsExact (g ∷ gs) = (refl, mk-IsExact gs)

  keys-devices : (es : List EligibleGpu) → All IsExact es → keys es ≡ map (waste need) (devices es)
  keys-devices [] h = refl
  keys-devices (e ∷ es) h = ap₂ ◌∷◌ h.0 (keys-devices es h.1)

  -- A node's offer for `suc m` GPUs.
  pub record IsGroup (m : ℕ) (node : NodeInfo) (c : GangCandidate) : Type 0 where
    pub named : c.node_name ≡ node.name
    pub rest : List Gpu
    pub split : Permᴰ (eligible shared need node.gpus) (c.gpus ++ rest)
    pub size : length c.gpus ≡ suc m
    pub exact : c.total_waste ≡ total c.gpus
    pub least :
        (sel others : List Gpu)
        → Permᴰ (eligible shared need node.gpus) (sel ++ others)
        → length sel ≡ suc m
        → c.total_waste ≤ℤ total sel

  module _ (sorter : SortSlice) (m : ℕ) (node : NodeInfo) where
    abbrev found : List EligibleGpu
    found = eligible_gpus shared need node.gpus

    abbrev sorted : List EligibleGpu
    sorted = sorter.sort_slice EligibleGpu less_waste found

    abbrev group : GangCandidate
    group = record {
      node_name = node.name;
      gpus = devices (take (suc m) sorted);
      total_waste = total_waste (take (suc m) sorted);
    }

    sorted-perm : Permᴰ found sorted
    sorted-perm = sorter.sort_slice-Permᴰ EligibleGpu less_waste found

    devices-split :
        Permᴰ (eligible shared need node.gpus) (group.gpus ++ devices (drop (suc m) sorted))
    devices-split =
        let moved = Permᴰ.map (λ (e : EligibleGpu). e.gpu) sorted-perm in
        let from : devices found ≡ eligible shared need node.gpus =
          ap devices (eligible_gpus-map node.gpus) ∙ devices-mk (eligible shared need node.gpus) in
        let to : devices sorted ≡ group.gpus ++ devices (drop (suc m) sorted) =
          sym (ap devices (take-append-drop (suc m) sorted))
          ∙ map-append (λ (e : EligibleGpu). e.gpu) (take (suc m) sorted) (drop (suc m) sorted) in
        subst₂ Permᴰ from to moved

    sorted-IsExact : All IsExact sorted
    sorted-IsExact = All-Permᴰ IsExact sorted-perm (
        subst (All IsExact) (sym (eligible_gpus-map node.gpus))
          (mk-IsExact (eligible shared need node.gpus)))

    found-length : length found ≡ length (eligible shared need node.gpus)
    found-length =
        ap length (eligible_gpus-map node.gpus) ∙ length-map (eligible shared need node.gpus) mk

    group-exact : group.total_waste ≡ total group.gpus
    group-exact =
        total_waste-keys (take (suc m) sorted)
        ∙ ap sum_ℤ
            (keys-devices (take (suc m) sorted) (All-take IsExact (suc m) sorted sorted-IsExact))

    group-least :
        (sel others : List Gpu)
        → Permᴰ (eligible shared need node.gpus) (sel ++ others)
        → length sel ≡ suc m
        → group.total_waste ≤ℤ total sel
    group-least sel others p size =
        let moved = Permᴰ.map (waste need) p in
        let from : map (waste need) (eligible shared need node.gpus) ≡ keys found =
          sym (ap keys (eligible_gpus-map node.gpus) ∙ keys-mk (eligible shared need node.gpus)) in
        let whole = subst₂ Permᴰ from (map-append (waste need) sel others) moved in
        let least =
          least_prefix (keys sorted) (keys found) (map (waste need) sel) (map (waste need) others) m
            (Ordered-keys sorted
              (sorter.sort_slice-Ordered EligibleGpu less_waste found less_waste-IsStrictWeak))
            (Permᴰ.map (λ (e : EligibleGpu). e.waste) sorted-perm) whole
            (length-map sel (waste need) ∙ size) in
        let same : group.total_waste ≡ sum_ℤ (take (suc m) (keys sorted)) =
          total_waste-keys (take (suc m) sorted)
          ∙ ap sum_ℤ (map-take (λ (e : EligibleGpu). e.waste) (suc m) sorted) in
        subst (λ z. z ≤ℤ total sel) (sym same) least

    -- The offer of a node with enough eligible GPUs is its cheapest selection.
    group-IsGroup : suc m ≤ length (eligible shared need node.gpus) → IsGroup m node group
    group-IsGroup h = record {
      named = refl;
      rest = devices (drop (suc m) sorted);
      split = devices-split;
      size =
          length-map (take (suc m) sorted) (λ (e : EligibleGpu). e.gpu)
          ∙ omega (arith, length-take {0} (suc m) sorted, length-Permᴰ sorted-perm, found-length);
      exact = group-exact;
      least = group-least;
    }

    -- A node makes an offer exactly if it has enough eligible GPUs.
    pub gang_candidate_cases :
        ((gang_candidate sorter (pos (suc m)) need shared node ≡ none)
          × (length (eligible shared need node.gpus) < suc m))
        ⊎ ((c : GangCandidate) × (gang_candidate sorter (pos (suc m)) need shared node ≡ some c)
            × IsGroup m node c)
    unfolding gang_candidate
    gang_candidate_cases = elim (Bool-cases (ltb_ℤ (pos (length node.gpus)) (pos (suc m)))) [
      | inl few ↦ inl (rw few, ground (arith, length-keep-le (has_room shared need) node.gpus))
      | inr many ↦ elim (Bool-cases (ltb_ℤ (pos (length found)) (pos (suc m)))) [
        | inl few ↦ inl (rw (many, few), ground (arith, found-length))
        | inr enough ↦ inr (group, rw (many, enough), group-IsGroup (ground (arith, found-length)))
      ]
    ]
