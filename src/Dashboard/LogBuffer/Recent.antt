-- ===== src/Dashboard/LogBuffer/Recent.antt =====
-- internal/dashboard/logbuffer.go: what GetRecent reads back from the ring.
use gpu_scheduler.Common.{
  ◌≡◌, refl, sym, ap, ap₂, subst, ◌∙◌, ℕ, zero, suc, ◌+◌, ◌-◌, ◌%◌, ◌≤◌, ◌<◌, min, leb, ℤ, pos,
  negsuc, leb_ℤ, Bool, true, false, not, ◌&&◌, ◌||◌, Option, none, some, List, [], ◌∷◌, ◌++◌,
  String, eq_str, length, take, drop, keep, get_elem?, drop-cons, drop-all, length-append,
  append-nil, append-snoc, Bool-cases, arith, inl, inr,
}
use mathlib.Core.List.{append_assoc}
use native.Mathlib.Nat.{mod-add-mod, add-mod_right}
use gpu_scheduler.Dashboard.LogBuffer.{
  LogEntry, LogBuffer, Texts, new_log_buffer, write, start_slot, recent_from, get_recent,
}
use gpu_scheduler.Dashboard.LogBuffer.Ring.{IsLogOf, entries_of, new-IsLogOf, write_lines-IsLogOf}

-- Whether an entry is asked for: any, or one of the category.
abbrev pub matches : String → LogEntry → Bool
matches category e = eq_str category "" || eq_str e.category category

-- The number of entries at most: the limit, and one where the limit is less.
abbrev pub room : ℤ → ℕ
room (pos zero) = 1
room (pos (suc n)) = suc n
room (negsuc n) = 1

room-full : (limit : ℤ) (k : ℕ) → leb_ℤ limit (pos (suc k)) ≡ true → room limit ≤ suc k
room-full (pos zero) k h = omega arith
room-full (pos (suc n)) k h = ground arith
room-full (negsuc n) k h = omega arith

room-left : (limit : ℤ) (k : ℕ) → leb_ℤ limit (pos (suc k)) ≡ false → suc k < room limit
room-left (pos zero) k h = absurd (ground arith)
room-left (pos (suc n)) k h = ground arith
room-left (negsuc n) k h = absurd (ground arith)

room-pos : (limit : ℤ) → 0 < room limit
room-pos (pos zero) = omega arith
room-pos (pos (suc n)) = omega arith
room-pos (negsuc n) = omega arith

take-nil : (n : ℕ) → take {A = LogEntry} n [] ≡ []
take-nil zero = refl
take-nil (suc n) = refl

-- What GetRecent is to answer: of the last `size` entries of the log, oldest first, those that match,
-- up to the limit.
abbrev pub recent : List LogEntry → ℕ → ℤ → String → List LogEntry
recent log size limit category =
    take (room limit) (keep (matches category) (drop (length log - size) log))

module _ (lb : LogBuffer) (log : List LogEntry) (limit : ℤ) (category : String) (off : ℕ)
    (slots : (j : ℕ)
      → off + j < length log
      → get_elem? lb.entries ((start_slot lb + j) % lb.size) ≡ get_elem? log (off + j)) where
  -- The answer of the loop from an entry on.
  abbrev Goes : ℕ → ℕ → List LogEntry → Type 0
  Goes todo i taken =
      recent_from lb limit category todo i taken
      ≡ some
          (taken ++ take (room limit - length taken) (keep (matches category) (drop (off + i) log)))

  skips :
      (x : LogEntry)
      → (not (eq_str category "") && not (eq_str x.category category)) ≡ not (matches category x)
  skips x = elim (Bool-cases (eq_str category "")) [ inl e ↦ rw e refl | inr e ↦ rw e refl ]

  len_test :
      {b : Bool} (taken : List LogEntry) (x : LogEntry)
      → leb_ℤ limit (pos (length (taken ++ x ∷ []))) ≡ b
      → leb_ℤ limit (pos (suc (length taken))) ≡ b
  len_test taken x h =
      let len : suc (length taken) ≡ length (taken ++ x ∷ []) =
        omega (arith, length-append taken (x ∷ [])) in
      ap (λ n. leb_ℤ limit (pos n)) len ∙ h

  recent_step :
      (todo i : ℕ) (taken : List LogEntry) (x : LogEntry)
      → get_elem? lb.entries ((start_slot lb + i) % lb.size) ≡ some x
      → drop (off + i) log ≡ x ∷ drop (off + (i + 1)) log
      → length taken < room limit
      → Goes todo (i + 1) taken
      → (length (taken ++ x ∷ []) < room limit → Goes todo (i + 1) (taken ++ x ∷ []))
      → Goes (suc todo) i taken
  unfolding recent_from
  recent_step todo i taken x at split few passed more =
      let rest = drop (off + (i + 1)) log in
      let len : length (taken ++ x ∷ []) ≡ suc (length taken) =
        omega (arith, length-append taken (x ∷ [])) in
      rw (at, split, recent_from)
        (elim (Bool-cases (matches category x)) [
          | inr no_match ↦ rw (skips x, no_match) passed
          | inl match ↦ elim (Bool-cases (leb_ℤ limit (pos (length (taken ++ x ∷ []))))) [
            | inl full ↦
                let one : room limit - length taken ≡ 1 =
                  omega (arith, few, len, room-full limit (length taken) (len_test taken x full)) in
                rw (skips x, match, full, one) refl
            | inr left ↦
                let fits : length (taken ++ x ∷ []) < room limit =
                  omega (arith, len, room-left limit (length taken) (len_test taken x left)) in
                let more_room : suc (room limit - length (taken ++ x ∷ []))
                    ≡ room limit - length taken =
                  omega (arith, fits, len) in
                rw (skips x, match, left)
                  (more fits
                    ∙ ap some (
                        append-snoc taken _ x
                        ∙ ap (λ n. taken ++ take n (x ∷ keep (matches category) rest)) more_room))
          ]
        ])

  recent-Goes :
      (todo i : ℕ) (taken : List LogEntry)
      → off + i + todo ≡ length log
      → length taken < room limit
      → Goes todo i taken
  unfolding recent_from
  recent-Goes zero i taken e few =
      rw (drop-all log (off + i) (omega (arith, e)))
        (sym (ap some (ap (◌++◌ taken) (take-nil (room limit - length taken)) ∙ append-nil taken)))
  recent-Goes (suc todo) i taken e few =
      let (x, at, split) = drop-cons log (off + i) (omega (arith, e)) in
      let next : suc (off + i) ≡ off + (i + 1) = omega arith in
      recent_step todo i taken x (slots i (omega (arith, e)) ∙ at)
        (split ∙ ap (λ n. x ∷ drop n log) next) few
        (recent-Goes todo (i + 1) taken (omega (arith, e)) few)
        (recent-Goes todo (i + 1) (taken ++ x ∷ []) (omega (arith, e)))

start-slots :
    (size : ℕ) (lb : LogBuffer) (log : List LogEntry)
    → IsLogOf size lb log
    → (j : ℕ) → length log - lb.size + j < length log
    → get_elem? lb.entries ((start_slot lb + j) % lb.size)
      ≡ get_elem? log (length log - lb.size + j)
unfolding start_slot
start-slots size lb log v j h = elim (Bool-cases (leb lb.count lb.size)) [
  | inl e ↦
      let small : length log ≤ lb.size = ground (arith, v.counted) in
      let off : length log - lb.size + j ≡ j = omega (arith, small) in
      let zero_j : 0 + j ≡ j = omega arith in
      rw e (
        ap (λ m. get_elem? lb.entries (m % lb.size)) zero_j
        ∙ v.kept j (omega (arith, off, h)) (omega arith)
        ∙ ap (get_elem? log) (sym off))
  | inr e ↦
      let large : lb.size < length log = ground (arith, v.counted) in
      let i = length log - lb.size + j in
      let slot : (lb.at % lb.size + j) % lb.size ≡ i % lb.size =
        mod-add-mod lb.at lb.size j
        ∙ ap (λ m. m % lb.size) (omega (arith, v.placed, large))
        ∙ add-mod_right i lb.size in
      rw e (ap (get_elem? lb.entries) slot ∙ v.kept i h (omega arith))
]

-- A buffer that shows a log answers with the right entries.
get_recent-recent :
    (size : ℕ) (lb : LogBuffer) (log : List LogEntry) (limit : ℤ) (category : String)
    → IsLogOf size lb log
    → get_recent lb limit category ≡ some (recent log size limit category)
unfolding get_recent
get_recent-recent size lb log limit category v =
    let off = length log - lb.size in
    let start : off + 0 ≡ length log - size = omega (arith, v.is_size) in
    let all_room : room limit - 0 ≡ room limit = omega arith in
    recent-Goes lb log limit category off (start-slots size lb log v) (min lb.count lb.size) 0 []
      (omega (arith, v.counted)) (room-pos limit)
    ∙ ap₂ (λ m n. some (take m (keep (matches category) (drop n log)))) all_room start

-- Writes one after another.
unfoldable pub write_all : Texts → LogBuffer → List String → Option LogBuffer
write_all tx lb [] = some lb
write_all tx lb (p ∷ ps) = elim (write tx lb p) [ none ↦ none | some lb' ↦ write_all tx lb' ps ]

-- The log of all writes.
abbrev pub log_of : Texts → List String → List LogEntry
log_of tx [] = []
log_of tx (p ∷ ps) = entries_of tx (tx.split_lines p) ++ log_of tx ps

write-IsLogOf :
    (size : ℕ) (tx : Texts) (p : String) (lb : LogBuffer) (log : List LogEntry)
    → IsLogOf size lb log
    → (lb' : LogBuffer) × (write tx lb p ≡ some lb')
      × IsLogOf size lb' (log ++ entries_of tx (tx.split_lines p))
unfolding write
write-IsLogOf size tx p lb log v = write_lines-IsLogOf size tx (tx.split_lines p) lb log v

write_all-IsLogOf :
    (size : ℕ) (tx : Texts) (ps : List String) (lb : LogBuffer) (log : List LogEntry)
    → IsLogOf size lb log
    → (lb' : LogBuffer) × (write_all tx lb ps ≡ some lb') × IsLogOf size lb' (log ++ log_of tx ps)
unfolding write_all
write_all-IsLogOf size tx [] lb log v = (lb, refl, subst (IsLogOf size lb) (sym (append-nil log)) v)
write_all-IsLogOf size tx (p ∷ ps) lb log v =
    let here = entries_of tx (tx.split_lines p) in
    let (lb', e, v') = write-IsLogOf size tx p lb log v in
    let (lb'', e', v'') = write_all-IsLogOf size tx ps lb' (log ++ here) v' in
    (
      lb'',
      rw (e, write_all) e',
      subst (IsLogOf size lb'') (append_assoc log here (log_of tx ps)) v'',
    )

-- A buffer of at least one slot, after any writes: no write panics, and GetRecent does not either.
-- It answers, of the last `suc n` lines written that were not empty, oldest first, with those of
-- the category (any, if it is empty), up to the limit, and up to one where the limit is less.
pub write_all-get_recent :
    (tx : Texts) (n : ℕ) (ps : List String) (limit : ℤ) (category : String)
    → (lb : LogBuffer) × (write_all tx (new_log_buffer (suc n)) ps ≡ some lb)
      × (get_recent lb limit category ≡ some (recent (log_of tx ps) (suc n) limit category))
write_all-get_recent tx n ps limit category =
    let (lb, e, v) = write_all-IsLogOf (suc n) tx ps (new_log_buffer (suc n)) [] (new-IsLogOf n) in
    (lb, e, get_recent-recent (suc n) lb (log_of tx ps) limit category v)
