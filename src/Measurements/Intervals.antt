-- ===== src/Measurements/Intervals.antt =====
-- `CircularIntervalBuffer` of src/measurements.rs: the most recent intervals. A `VecDeque` is a list,
-- oldest first.
use rperf3_rs.Base.{
  ℕ, zero, suc, ◌-◌, ◌≤◌, ◌≡◌, refl, sym, ap, ◌∙◌, List, [], ◌∷◌, ◌++◌, append-nil, append_assoc,
  arith, dec_lt, false, leb, if◌then◌else◌, length, drop, length-append, length-drop,
}

-- `MAX_INTERVALS` outside unit tests: a day of seconds
abbrev pub max_intervals : ℕ
max_intervals = 86400

-- `pop_front`, whose result is dropped
abbrev pub pop_front {ℓ} : {A : Type ℓ} → List A → List A
pop_front [] = []
pop_front (x ∷ xs) = xs

module _ {ℓ} {A : Type ℓ} where
  unfoldable pub push_back : List A → A → List A
  push_back intervals item =
      if leb max_intervals (length intervals)
      then pop_front intervals ++ (item ∷ [])
      else intervals ++ (item ∷ [])

  -- The buffer after a sequence of intervals.
  unfoldable pub push_all : List A → List A → List A
  push_all buffer [] = buffer
  push_all buffer (x ∷ xs) = push_all (push_back buffer x) xs

  drop_more : (n : ℕ) (xs : List A) → pop_front (drop n xs) ≡ drop (suc n) xs
  drop_more zero [] = refl
  drop_more zero (x ∷ xs) = refl
  drop_more (suc n) [] = refl
  drop_more (suc n) (x ∷ xs) = drop_more n xs

  drop_front : (n : ℕ) (xs ys : List A) → n ≤ length xs → drop n (xs ++ ys) ≡ drop n xs ++ ys
  drop_front zero xs ys h = refl
  drop_front (suc n) [] ys h = absurd (omega arith)
  drop_front (suc n) (x ∷ xs) ys h = drop_front n xs ys (omega arith)

  -- The last intervals of a history.
  abbrev pub recent : List A → List A
  recent history = drop (length history - max_intervals) history

  push_back-recent :
      (history : List A) (x : A) → push_back (recent history) x ≡ recent (history ++ (x ∷ []))
  unfolding push_back
  push_back-recent history x = elim (dec_lt (length history) max_intervals) [
    | yes l ↦
        let e : length history - max_intervals ≡ 0 = omega arith in
        let k : length (history ++ (x ∷ [])) - max_intervals ≡ 0 =
          omega (arith, length-append history (x ∷ [])) in
        let t : leb max_intervals (length history) ≡ false = ground arith in rw (e, k, t)
    | no nl ↦
        let n = length history - max_intervals in
        let l : length (drop n history) ≡ max_intervals = omega (arith, length-drop n history) in
        let k : length (history ++ (x ∷ [])) - max_intervals ≡ suc n =
          omega (arith, length-append history (x ∷ [])) in
        rw (l, k, drop_more n history) (sym (drop_front (suc n) history (x ∷ []) (omega arith)))
  ]

  push_all-recent_from :
      (history xs : List A) → push_all (recent history) xs ≡ recent (history ++ xs)
  unfolding push_all
  push_all-recent_from history [] = ap recent (sym (append-nil history))
  push_all-recent_from history (x ∷ xs) =
      rw (push_back-recent history x) (
        push_all-recent_from (history ++ (x ∷ [])) xs
        ∙ ap recent (append_assoc history (x ∷ []) xs))

  -- The buffer holds exactly the last 86400 intervals of all that were added, oldest first.
  pub push_all-recent : (xs : List A) → push_all [] xs ≡ recent xs
  push_all-recent xs = push_all-recent_from [] xs
