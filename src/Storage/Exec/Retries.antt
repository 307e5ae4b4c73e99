-- ===== src/Storage/Exec/Retries.antt =====
-- Which attempt `retry_on_lock` ends with, and why.
use rustmail.Prelude.{
  ℕ, zero, suc, ◌+◌, ◌≡◌, ◌≤◌, ◌<◌, ◌⊎◌, refl, sym, ap, ◌∙◌, Bool, true, false, not, ◌&&◌, ltb,
  ltb→lt, Bool-cases, inl, inr, arith,
}
use rustmail.Storage.Error.{is_retryable_lock}
use rustmail.Storage.Exec.{
  Result, ok, err, World, Conn, Exec, tick, write_attempts, after_attempt, retry_loop,
  retry_on_lock,
}

module _ {ℓ} {A : Type ℓ} where
  -- The attempt behind so many others, each of which a sleep comes after.
  abbrev pub nth_attempt : ℕ → Exec A → Exec A
  nth_attempt zero op c = op c
  nth_attempt (suc n) op c = nth_attempt n op (tick (op c).1)

  module _ (w : World) where
    -- The database was locked, and the budget of the write was not spent.
    abbrev pub is_contended : ℕ → Result A × Conn → Bool
    is_contended start (ok a, c) = false
    is_contended start (err e, c) = is_retryable_lock e && not (w.late start c.moment)

    -- The result is that of the attempt `last`, at most the fifth; all before it were contended,
    -- and it was not, or was the fifth.
    pub record Settles (start before : ℕ) (op : Exec A) (c : Conn) (r : Result A × Conn)
        : Type ℓ where
      pub last : ℕ
      pub within : before + last < write_attempts
      pub result : r ≡ nth_attempt last op c
      pub contended : (k : ℕ) → k < last → is_contended start (nth_attempt k op c) ≡ true
      pub stopped :
          (is_contended start (nth_attempt last op c) ≡ false)
          ⊎ (before + last + 1 ≡ write_attempts)

    first-Settles :
        (start before : ℕ) (op : Exec A) (c : Conn) (r : Result A × Conn)
        → before < write_attempts
        → op c ≡ r
        → (is_contended start r ≡ false) ⊎ (before + 1 ≡ write_attempts)
        → Settles start before op c r
    first-Settles start before op c r lt e s = record {
      last = 0;
      within = omega (arith, lt);
      result = sym e;
      contended = λ k h. absurd (omega (arith, h));
      stopped = why s;
    }
      where
        why :
            (is_contended start r ≡ false) ⊎ (before + 1 ≡ write_attempts)
            → (is_contended start (op c) ≡ false) ⊎ (before + 0 + 1 ≡ write_attempts)
        why (inl n) = inl (ap (is_contended start) e ∙ n)
        why (inr n) = inr (omega (arith, n))

    again-Settles :
        (start before : ℕ) (op : Exec A) (c : Conn) (r' : Result A × Conn) (r : Result A × Conn)
        → op c ≡ r'
        → is_contended start r' ≡ true
        → Settles start (before + 1) op (tick r'.1) r
        → Settles start before op c r
    again-Settles start before op c r' r e b h = record {
      last = suc h.last;
      within = omega (arith, h.within);
      result = rw e h.result;
      contended = all_before;
      stopped = why h.stopped;
    }
      where
        all_before : (k : ℕ) → k < suc h.last → is_contended start (nth_attempt k op c) ≡ true
        all_before zero lt = ap (is_contended start) e ∙ b
        all_before (suc k) lt = rw e (h.contended k (omega (arith, lt)))

        why :
            (is_contended start (nth_attempt h.last op (tick r'.1)) ≡ false)
              ⊎ (before + 1 + h.last + 1 ≡ write_attempts)
            → (is_contended start (nth_attempt (suc h.last) op c) ≡ false)
              ⊎ (before + suc h.last + 1 ≡ write_attempts)
        why (inl n) = inl (rw e n)
        why (inr n) = inr (omega (arith, n))

    after_attempt-Settles :
        (again : Exec A) (start before : ℕ) (op : Exec A) (c : Conn) (r : Result A × Conn)
        → before < write_attempts
        → op c ≡ r
        → (before + 1 < write_attempts
            → Settles start (before + 1) op (tick r.1) (again (tick r.1)))
        → Settles start before op c (after_attempt w again start before r)
    after_attempt-Settles again start before op c (ok a, c') lt e go =
        first-Settles start before op c (ok a, c') lt e (inl refl)
    after_attempt-Settles again start before op c (err x, c') lt e go =
        elim (Bool-cases (is_retryable_lock x && not (w.late start c'.moment))) [
          | inl locked ↦ elim (Bool-cases (ltb (before + 1) write_attempts)) [
            | inl left ↦ rw (goes_on _ _ _ locked left) (
                again-Settles start before op c (err x, c') _ e locked
                  (go (ltb→lt (before + 1) write_attempts left)))
            | inr spent ↦
                rw (stops_spent (is_retryable_lock x) _ (not (w.late start c'.moment)) spent)
                  (first-Settles start before op c (err x, c') lt e (inr (is_last before lt spent)))
          ]
          | inr free ↦
              rw (stops _ (ltb (before + 1) write_attempts) _ free)
                (first-Settles start before op c (err x, c') lt e (inl free))
        ]
      where
        goes_on : (a b d : Bool) → (a && d) ≡ true → b ≡ true → (a && b && d) ≡ true
        goes_on a b d h k = ground arith

        stops_spent : (a b d : Bool) → b ≡ false → (a && b && d) ≡ false
        stops_spent a b d h = ground arith

        stops : (a b d : Bool) → (a && d) ≡ false → (a && b && d) ≡ false
        stops a b d h = ground arith

        is_last :
            (n : ℕ)
            → n < write_attempts
            → ltb (n + 1) write_attempts ≡ false
            → n + 1 ≡ write_attempts
        is_last n lt h = ground (arith, ltb)

    retry_loop-Settles :
        (fuel start before : ℕ) (op : Exec A) (c : Conn)
        → before < write_attempts
        → write_attempts ≤ fuel + before
        → Settles start before op c (retry_loop w fuel op start before c)
    unfolding retry_loop
    retry_loop-Settles zero start before op c lt h = absurd (omega (arith, h, lt))
    retry_loop-Settles (suc fuel) start before op c lt h =
        after_attempt-Settles (retry_loop w fuel op start (before + 1)) start before op c (op c) lt
          refl (λ left. retry_loop-Settles fuel start (before + 1) op _ left (omega (arith, h)))

    -- `retry_on_lock` gives the result of one of its first five attempts, each from where the one
    -- before it and a sleep left off: every attempt before that one found the database locked while
    -- the budget was not spent, and that one did not, or was the fifth.
    pub retry_on_lock-Settles :
        (op : Exec A) (c : Conn) → Settles c.moment 0 op c (retry_on_lock w op c)
    unfolding retry_on_lock
    retry_on_lock-Settles op c =
        retry_loop-Settles write_attempts c.moment 0 op c (omega arith) (omega arith)
