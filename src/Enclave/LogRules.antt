-- ===== src/Enclave/LogRules.antt =====
-- The log buffer of src/relayer/src/enclave.rs as the end of the whole log.
use mathlib.Core.List.{append-nil, append_assoc}
use nautilus_memwal_relayer.Prelude.{
  ℕ, zero, suc, ◌+◌, ◌-◌, ◌≤◌, ◌<◌, ◌≡◌, refl, ap, sym, ◌∙◌, inl, inr, String, Option, List, [],
  ◌∷◌, ◌++◌, length, length-append, length-drop, take, drop, leb, leb→le, leb→gt, min, unwrap_or,
  if◌then◌else◌, Bool-cases, arith,
}
use nautilus_memwal_relayer.Enclave.Logs.{LogBuffer, reverse, new, push, recent, get_logs}

-- The last `n` entries
unfoldable pub last {ℓ} : {A : Type ℓ} → ℕ → List A → List A
last n xs = drop (length xs - n) xs

-- Pushing the lines of a log one after the other
unfoldable pub push_all : LogBuffer → List String → LogBuffer
push_all buf [] = buf
push_all buf (line ∷ log) = push_all (push buf line) log

module _ {ℓ} {A : Type ℓ} where
  drop-append : (k : ℕ) (xs ys : List A) → k ≤ length xs → drop k (xs ++ ys) ≡ drop k xs ++ ys
  drop-append zero xs ys h = refl
  drop-append (suc k) [] ys h = absurd (omega arith)
  drop-append (suc k) (x ∷ xs) ys h = drop-append k xs ys (omega arith)

  drop-nil : (k : ℕ) → drop {A = A} k [] ≡ []
  drop-nil zero = refl
  drop-nil (suc k) = refl

  drop-drop : (j k : ℕ) (xs : List A) → drop j (drop k xs) ≡ drop (k + j) xs
  drop-drop j zero xs = ap (λ n. drop n xs) (omega arith)
  drop-drop j (suc k) [] = drop-nil j ∙ sym (drop-nil (suc k + j))
  drop-drop j (suc k) (x ∷ xs) =
      let e : suc k + j ≡ suc (k + j) = omega arith in rw e (drop-drop j k xs)

  take-append : (n : ℕ) (xs ys : List A) → n ≤ length xs → take n (xs ++ ys) ≡ take n xs
  take-append zero xs ys h = refl
  take-append (suc n) [] ys h = absurd (omega arith)
  take-append (suc n) (x ∷ xs) ys h = ap (◌∷◌ x) (take-append n xs ys (omega arith))

  take-all : (n : ℕ) (xs : List A) → length xs ≤ n → take n xs ≡ xs
  take-all zero [] h = refl
  take-all zero (x ∷ xs) h = absurd (omega arith)
  take-all (suc n) [] h = refl
  take-all (suc n) (x ∷ xs) h = ap (◌∷◌ x) (take-all n xs (omega arith))

  length-reverse : (xs : List A) → length (reverse xs) ≡ length xs
  length-reverse [] = refl
  length-reverse (x ∷ xs) = omega (arith, length-append (reverse xs) (x ∷ []), length-reverse xs)

  reverse-append_one : (xs : List A) (x : A) → reverse (xs ++ x ∷ []) ≡ x ∷ reverse xs
  reverse-append_one [] x = refl
  reverse-append_one (y ∷ xs) x = ap (λ l. l ++ y ∷ []) (reverse-append_one xs x)

  reverse-reverse : (xs : List A) → reverse (reverse xs) ≡ xs
  reverse-reverse [] = refl
  reverse-reverse (x ∷ xs) = reverse-append_one (reverse xs) x ∙ ap (◌∷◌ x) (reverse-reverse xs)

  -- Where the end does not reach the first entry, and where it takes all
  last-cons : (n : ℕ) (x : A) (xs : List A) → n ≤ length xs → last n (x ∷ xs) ≡ last n xs
  unfolding last
  last-cons n x xs h =
      let e : suc (length xs) - n ≡ suc (length xs - n) = omega arith in ap (λ k. drop k (x ∷ xs)) e

  last-all : (n : ℕ) (xs : List A) → length xs ≤ n → last n xs ≡ xs
  unfolding last
  last-all n xs h = let e : length xs - n ≡ 0 = omega arith in ap (λ k. drop k xs) e

  -- The end of a list by two reversals, as the source takes it
  reverse-take-reverse : (n : ℕ) (xs : List A) → reverse (take n (reverse xs)) ≡ last n xs
  reverse-take-reverse n [] =
      ap reverse (take-all n [] (omega arith)) ∙ sym (last-all n [] (omega arith))
  reverse-take-reverse n (x ∷ xs) = elim (Bool-cases (leb n (length xs))) [
    | inl short ↦
        let le : n ≤ length xs = leb→le n (length xs) short in
        ap reverse (take-append n (reverse xs) (x ∷ []) (rw (length-reverse xs) le))
        ∙ reverse-take-reverse n xs
        ∙ sym (last-cons n x xs le)
    | inr long ↦
        let lt : length xs < n = leb→gt n (length xs) long in
        ap reverse (take-all n (reverse (x ∷ xs)) (omega (arith, length-reverse (x ∷ xs), lt)))
        ∙ reverse-reverse (x ∷ xs)
        ∙ sym (last-all n (x ∷ xs) (omega arith))
  ]

  length-last : (n : ℕ) (xs : List A) → length (last n xs) ≡ min n (length xs)
  unfolding last
  length-last n xs = omega (arith, length-drop (length xs - n) xs)

  last-last : (m n : ℕ) (xs : List A) → last m (last n xs) ≡ last (min m n) xs
  unfolding last
  last-last m n xs =
      let shorter = length-drop (length xs - n) xs in
      let e : (length xs - n) + (length (drop (length xs - n) xs) - m) ≡ length xs - min m n =
        omega (arith, shorter) in
      drop-drop (length (drop (length xs - n) xs) - m) (length xs - n) xs ∙ ap (λ k. drop k xs) e

  -- One step of the ring: the end of the log with a new entry
  last-append_one :
      (c : ℕ) (xs : List A) (x : A)
      → 0 < c
      → last c (xs ++ x ∷ [])
        ≡ (if leb c (length (last c xs)) then drop 1 (last c xs) else last c xs) ++ x ∷ []
  unfolding last
  last-append_one c xs x h =
      let shorter = length-drop (length xs - c) xs in
      let more = length-append xs (x ∷ []) in
      elim (Bool-cases (leb c (length (drop (length xs - c) xs)))) [
        | inl full ↦
            let e : length (xs ++ x ∷ []) - c ≡ (length xs - c) + 1 =
              omega (arith, shorter, more, leb→le c _ full) in
            rw (full, e)
              (drop-append ((length xs - c) + 1) xs (x ∷ [])
                  (omega (arith, shorter, leb→le c _ full))
                ∙ ap (λ l. l ++ x ∷ []) (sym (drop-drop 1 (length xs - c) xs)))
        | inr room ↦
            let e : length (xs ++ x ∷ []) - c ≡ length xs - c =
              omega (arith, shorter, more, leb→gt c _ room) in
            rw (room, e) (drop-append (length xs - c) xs (x ∷ []) (omega arith))
      ]

push_all-last :
    (c : ℕ) (before log : List String)
    → 0 < c
    → push_all (record { lines = last c before; capacity = c }) log
      ≡ record { lines = last c (before ++ log); capacity = c }
unfolding push_all push
push_all-last c before [] h = rw (append-nil before) refl
push_all-last c before (line ∷ log) h =
    rw
      (
        ← (last-append_one c before line h),
        push_all-last c (before ++ line ∷ []) log h,
        append_assoc before (line ∷ []) log,
      )
      refl

-- Of a buffer that has at least one place, whatever was pushed, `/logs` answers with the newest
-- lines in their order: as many as were asked for, 100 if none were, but at most 1000, at most the
-- capacity, and at most all; and their number beside them.
pub get_logs-newest :
    (capacity : ℕ) (log : List String) (requested : Option ℕ)
    → 0 < capacity
    → let newest : List String = last (min (min (unwrap_or requested 100) 1000) capacity) log in
      get_logs (push_all (new capacity) log) requested
      ≡ record { lines = newest; count = length newest }
unfolding get_logs recent new
get_logs-newest capacity log requested h =
    let filled : push_all (new capacity) log
        ≡ record { lines = last capacity log; capacity = capacity } =
      ap (λ l. push_all (record { lines = l; capacity = capacity }) log)
        (sym (last-all {A = String} capacity [] (omega arith)))
      ∙ push_all-last capacity [] log h in
    let n : ℕ = min (unwrap_or requested 100) 1000 in
    ap (λ (b : LogBuffer). get_logs b requested) filled
    ∙ ap (λ (l : List String). record { lines = l; count = length l })
        (reverse-take-reverse n (last capacity log) ∙ last-last n capacity log)
