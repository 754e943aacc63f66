-- ===== src/Allocator/BinPack/Prefix.antt =====
-- internal/allocator/binpack.go, the sort and the prefix of findGangCandidates: sums of selections and
-- prefixes of a sorted list of integers.
use gpu_scheduler.Common.{
  ℕ, zero, suc, ◌+◌, ◌-◌, ◌≤◌, ◌<◌, ◌≡◌, refl, ap, ◌∙◌, sym, List, [], ◌∷◌, ◌++◌, Permᴰ, false,
  arith, ℤ, pos, ◌+ℤ◌, ◌≤ℤ◌, ltb_ℤ, pos_part, neg_part, length, length-Permᴰ, length-append, take,
  drop, length-take, subst, take-append-drop, All, All-map, Ordered, int_laws,
}

abbrev pub sum_ℤ : List ℤ → ℤ
sum_ℤ [] = pos 0
sum_ℤ (x ∷ xs) = x +ℤ sum_ℤ xs

-- How far an element lies below `t`; 0 if it does not.
abbrev gap : ℤ → ℤ → ℕ
gap t x = (pos_part t + neg_part x) - (pos_part x + neg_part t)

gaps : ℤ → List ℤ → ℕ
gaps t [] = 0
gaps t (x ∷ xs) = gap t x + gaps t xs

times : ℕ → ℤ → ℤ
times zero t = pos 0
times (suc n) t = t +ℤ times n t

gaps-append : (t : ℤ) (xs ys : List ℤ) → gaps t (xs ++ ys) ≡ gaps t xs + gaps t ys
unfolding gaps
gaps-append t [] ys = omega arith
gaps-append t (x ∷ xs) ys = omega (arith, gaps-append t xs ys)

gaps-Permᴰ : (t : ℤ) {xs ys : List ℤ} → Permᴰ xs ys → gaps t xs ≡ gaps t ys
unfolding gaps
gaps-Permᴰ t Permᴰ.nil = refl
gaps-Permᴰ t (Permᴰ.cons e p) = omega (arith, ap (gap t) e, gaps-Permᴰ t p)
gaps-Permᴰ t (Permᴰ.swap e f) = omega (arith, ap (gap t) e, ap (gap t) f)
gaps-Permᴰ t (Permᴰ.trans p q) = gaps-Permᴰ t p ∙ gaps-Permᴰ t q

gaps_above : (t : ℤ) (xs : List ℤ) → All (λ x. t ≤ℤ x) xs → gaps t xs ≡ 0
unfolding gaps
gaps_above t [] h = refl
gaps_above t (x ∷ xs) h = omega (arith, gaps_above t xs h.1)

-- Below `t` the gaps make up the difference to `t`; in general they make up at least that.
gaps_below :
    (t : ℤ) (xs : List ℤ)
    → All (λ x. x ≤ℤ t) xs
    → sum_ℤ xs +ℤ pos (gaps t xs) ≤ℤ times (length xs) t
unfolding gaps times
gaps_below t [] h = omega int_laws
gaps_below t (x ∷ xs) h = omega (int_laws, gaps_below t xs h.1)

gaps_cover : (t : ℤ) (xs : List ℤ) → times (length xs) t ≤ℤ sum_ℤ xs +ℤ pos (gaps t xs)
unfolding gaps times
gaps_cover t [] = omega int_laws
gaps_cover t (x ∷ xs) = omega (int_laws, gaps_cover t xs)

-- A value between the prefix and the rest of a sorted list.
Ordered-threshold :
    (m : ℕ) (xs : List ℤ)
    → Ordered ltb_ℤ xs
    → m < length xs
    → (t : ℤ) × All (λ x. x ≤ℤ t) (take (suc m) xs) × All (λ x. t ≤ℤ x) (drop (suc m) xs)
Ordered-threshold m [] o h = absurd (omega arith)
Ordered-threshold zero (x ∷ xs) o h = (
  x,
  (omega arith, tt),
  All-map (λ y. ltb_ℤ y x ≡ false) (λ y. x ≤ℤ y) xs (λ y e. ground arith) o.0,
)
Ordered-threshold (suc m) (x ∷ []) o h = absurd (omega arith)
Ordered-threshold (suc m) (x ∷ y ∷ ys) o h =
    let (t, below, above) = Ordered-threshold m (y ∷ ys) o.1 (omega arith) in
    (t, (ground (arith, o.0.0, below.0), below), above)

-- Elements at most `t` sum up to no more than as many others whose gaps are no larger.
sum_of_gaps :
    (t : ℤ) (front sel : List ℤ)
    → length front ≡ length sel
    → All (λ x. x ≤ℤ t) front
    → gaps t sel ≤ gaps t front
    → sum_ℤ front ≤ℤ sum_ℤ sel
sum_of_gaps t front sel size below h =
    let covered : times (length front) t ≤ℤ sum_ℤ sel +ℤ pos (gaps t sel) =
      subst (λ n. times n t ≤ℤ sum_ℤ sel +ℤ pos (gaps t sel)) (sym size) (gaps_cover t sel) in
    omega (int_laws, covered, gaps_below t front below)

gaps_split :
    (t : ℤ) (xs ys sel others : List ℤ) (n : ℕ)
    → Permᴰ ys xs
    → Permᴰ ys (sel ++ others)
    → gaps t (take n xs) + gaps t (drop n xs) ≡ gaps t sel + gaps t others
gaps_split t xs ys sel others n p q =
    sym (gaps-append t (take n xs) (drop n xs))
    ∙ ap (gaps t) (take-append-drop n xs)
    ∙ sym (gaps-Permᴰ t p)
    ∙ gaps-Permᴰ t q
    ∙ gaps-append t sel others

-- The prefix of a sorted list has the least sum of all selections of its size.
pub least_prefix :
    (xs ys sel others : List ℤ) (m : ℕ)
    → Ordered ltb_ℤ xs
    → Permᴰ ys xs
    → Permᴰ ys (sel ++ others)
    → length sel ≡ suc m
    → sum_ℤ (take (suc m) xs) ≤ℤ sum_ℤ sel
least_prefix xs ys sel others m o p q size = go (Ordered-threshold m xs o long)
  where
    long : m < length xs
    long = omega (arith, length-Permᴰ p, length-Permᴰ q, length-append {0} sel others)

    go :
        (t : ℤ) × All (λ x. x ≤ℤ t) (take (suc m) xs) × All (λ x. t ≤ℤ x) (drop (suc m) xs)
        → sum_ℤ (take (suc m) xs) ≤ℤ sum_ℤ sel
    go (t, below, above) =
        sum_of_gaps t (take (suc m) xs) sel (omega (arith, size, length-take {0} (suc m) xs, long))
          below
          (omega (
            arith,
            gaps_above t (drop (suc m) xs) above,
            gaps_split t xs ys sel others (suc m) p q,
          ))
