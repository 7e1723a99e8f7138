-- ===== src/Kernel/Block/Outcomes.antt =====
-- How a blocking call ends.
use pgzero.Base.{
  sym, subst, length-append, ◌++◌, ap, ℕ, zero, suc, ◌<◌, ◌≡◌, refl, Bool, true, false, Option,
  none, some, List, [], ◌∷◌, length, arith, ◌⊎◌, inl, inr, Bool-cases,
}
use pgzero.Kernel.Block.{
  WakeReason, woken, interrupted, timed_out, killed, Select, done, sig_wake, timer, ready, Turn,
  Outcome, returned, waiting, out_of_fuel, selected, block, resume, after_block, after_attempt,
  retry,
}

-- In one of the turns the case c fired and ended the wait: it left the state s and the turns after it.
abbrev pub Fires : {S : Type 0} → Select → List (Turn S) → S → List (Turn S) → Type 0
Fires {S} c ts s left =
    (before : List (Turn S)) × (t : Turn S) × (u : S) × (ts ≡ before ++ t ∷ left)
    × (t.select ≡ c)
    × (s ≡ t.others u)

Fires-cons :
    {S : Type 0} (c : Select) (t : Turn S) (ts : List (Turn S)) (s : S) (left : List (Turn S))
    → Fires c ts s left
    → Fires c (t ∷ ts) s left
Fires-cons c t ts s left (before, f, u, e, x, y) = (t ∷ before, f, u, ap (λ l. t ∷ l) e, x, y)

Fires-shorter :
    {S : Type 0} (c : Select) (ts : List (Turn S)) (s : S) (left : List (Turn S))
    → Fires c ts s left
    → length left < length ts
Fires-shorter c ts s left (before, t, u, e, x, y) =
    rw (e, length-append before (t ∷ left)) (omega arith)

module _ {S : Type 0} (is_cancelled is_interrupted : S → Bool) where
  -- Why a wait ended for each reason: its channel fired; or the process was found interrupted, and not
  -- cancelled; or it was found cancelled, or its context was done; or the timer fired.
  abbrev pub Explains : List (Turn S) → Outcome WakeReason S → Type 0
  Explains ts (returned woken s left) = Fires ready ts s left
  Explains ts (returned interrupted s left) = (is_cancelled s ≡ false) × (is_interrupted s ≡ true)
  Explains ts (returned timed_out s left) = Fires timer ts s left
  Explains ts (returned killed s left) = (is_cancelled s ≡ true) ⊎ Fires done ts s left
  Explains ts (waiting s) = (is_cancelled s ≡ false) × (is_interrupted s ≡ false)
  Explains ts out_of_fuel = ⊥

  Explains-cons :
      (t : Turn S) (ts : List (Turn S)) (o : Outcome WakeReason S)
      → Explains ts o
      → Explains (t ∷ ts) o
  Explains-cons t ts (returned woken s left) h = Fires-cons ready t ts s left h
  Explains-cons t ts (returned interrupted s left) h = h
  Explains-cons t ts (returned timed_out s left) h = Fires-cons timer t ts s left h
  Explains-cons t ts (returned killed s left) (inl c) = inl c
  Explains-cons t ts (returned killed s left) (inr f) = inr (Fires-cons done t ts s left f)
  Explains-cons t ts (waiting s) h = h
  Explains-cons t ts out_of_fuel h = h

  fired :
      (c : Select) (s : S) (t : Turn S) (ts : List (Turn S))
      → t.select ≡ c
      → Fires c (t ∷ ts) (t.others s) ts
  fired c s t ts e = ([], t, s, refl, e, refl)

  selected-Explains :
      (c : Select) (s : S) (t : Turn S) (ts : List (Turn S)) (o : Outcome WakeReason S)
      → t.select ≡ c
      → Explains ts o
      → Explains (t ∷ ts) (selected is_cancelled is_interrupted c (t.others s) ts o)
  unfolding selected
  selected-Explains done s t ts o e h = inr (fired done s t ts e)
  selected-Explains sig_wake s t ts o e h = Explains-cons t ts o h
  selected-Explains timer s t ts o e h = fired timer s t ts e
  selected-Explains ready s t ts o e h = fired ready s t ts e

  -- `block` ends with each reason only where that reason holds, and waits only while the process is
  -- neither cancelled nor interrupted.
  pub block-Explains :
      (s : S) (ts : List (Turn S)) → Explains ts (block is_cancelled is_interrupted s ts)
  unfolding block
  block-Explains s [] = elim (Bool-cases (is_cancelled s)) [
    | inl c ↦ rw c (inl c)
    | inr c ↦
        rw c (elim (Bool-cases (is_interrupted s)) [ inl i ↦ rw i (c, i) | inr i ↦ rw i (c, i) ])
  ]
  block-Explains s (t ∷ ts) = elim (Bool-cases (is_cancelled s)) [
    | inl c ↦ rw c (inl c)
    | inr c ↦ rw c (elim (Bool-cases (is_interrupted s)) [
      | inl i ↦ rw i (c, i)
      | inr i ↦ rw i (
          selected-Explains t.select s t ts (block is_cancelled is_interrupted (t.others s) ts) refl
            (block-Explains (t.others s) ts))
    ])
  ]

  -- The turns that are left when the wait ended for w are a part of those that it began with.
  resumes :
      (ts : List (Turn S)) (w : WakeReason) (s : S) (left : List (Turn S))
      → (w ≡ woken) ⊎ (w ≡ timed_out)
      → Explains ts (returned w s left)
      → (c : Select) × Fires c ts s left
  resumes ts woken s left g h = (ready, h)
  resumes ts timed_out s left g h = (timer, h)
  resumes ts interrupted s left g h = ground arith
  resumes ts killed s left g h = ground arith

  module _ {R : Type 0} (attempt : S → Option R × S) (stop : WakeReason → Option R) where
    -- A result comes from an attempt, which then left the state in which the loop ends, or from a reason
    -- for which the wait ended, with what explains it; the loop waits only while nothing stops the
    -- process.
    abbrev pub Ends : List (Turn S) → Outcome R S → Type 0
    Ends ts (returned r s left) =
        ((t : S) × (attempt t ≡ (some r, s)))
        ⊎ ((w : WakeReason) × (stop w ≡ some r) × Explains ts (returned w s left))
    Ends ts (waiting s) = (is_cancelled s ≡ false) × (is_interrupted s ≡ false)
    Ends ts out_of_fuel = ⊥

    Ends-cons : (t : Turn S) (ts : List (Turn S)) (o : Outcome R S) → Ends ts o → Ends (t ∷ ts) o
    Ends-cons t ts (returned r s left) (inl a) = inl a
    Ends-cons t ts (returned r s left) (inr (w, e, x)) =
        inr (w, e, Explains-cons t ts (returned w s left) x)
    Ends-cons t ts (waiting s) h = h
    Ends-cons t ts out_of_fuel h = h

    Ends-append : (before ts : List (Turn S)) (o : Outcome R S) → Ends ts o → Ends (before ++ ts) o
    Ends-append [] ts o h = h
    Ends-append (t ∷ before) ts o h = Ends-cons t (before ++ ts) o (Ends-append before ts o h)

    resumed-Ends :
        (again : S → List (Turn S) → Outcome R S) (c : Select) (ts : List (Turn S)) (s : S)
        (left : List (Turn S))
        → ((s : S) (left : List (Turn S)) → length left < length ts → Ends left (again s left))
        → Fires c ts s left
        → Ends ts (again s left)
    resumed-Ends again c ts s left ih (before, t, u, e, x, y) =
        subst (λ l. Ends l (again s left)) (sym e)
          (Ends-append before (t ∷ left) (again s left) (
            Ends-cons t left (again s left)
              (ih s left (Fires-shorter c ts s left (before, t, u, e, x, y)))))

    resume-Ends :
        (again : S → List (Turn S) → Outcome R S) (w : WakeReason) (o : Option R)
        (ts : List (Turn S)) (s : S) (left : List (Turn S))
        → stop w ≡ o
        → ((w : WakeReason) → stop w ≡ none → (w ≡ woken) ⊎ (w ≡ timed_out))
        → ((s : S) (left : List (Turn S)) → length left < length ts → Ends left (again s left))
        → Explains ts (returned w s left)
        → Ends ts (resume is_cancelled is_interrupted attempt stop again o s left)
    unfolding resume
    resume-Ends again w (some r) ts s left e g ih h = inr (w, e, h)
    resume-Ends again w none ts s left e g ih h =
        let (c, f) = resumes ts w s left (g w e) h in resumed-Ends again c ts s left ih f

    after_block-Ends :
        (again : S → List (Turn S) → Outcome R S) (ts : List (Turn S)) (o : Outcome WakeReason S)
        → ((w : WakeReason) → stop w ≡ none → (w ≡ woken) ⊎ (w ≡ timed_out))
        → ((s : S) (left : List (Turn S)) → length left < length ts → Ends left (again s left))
        → Explains ts o
        → Ends ts (after_block is_cancelled is_interrupted attempt stop again o)
    unfolding after_block
    after_block-Ends again ts (returned w s left) g ih h =
        resume-Ends again w (stop w) ts s left refl g ih h
    after_block-Ends again ts (waiting s) g ih h = h
    after_block-Ends again ts out_of_fuel g ih h = absurd h

    after_attempt-Ends :
        (again : S → List (Turn S) → Outcome R S) (t : S) (a : Option R × S) (ts : List (Turn S))
        → attempt t ≡ a
        → ((w : WakeReason) → stop w ≡ none → (w ≡ woken) ⊎ (w ≡ timed_out))
        → ((s : S) (left : List (Turn S)) → length left < length ts → Ends left (again s left))
        → Ends ts (after_attempt is_cancelled is_interrupted attempt stop again a ts)
    unfolding after_attempt
    after_attempt-Ends again t (some r, s) ts e g ih = inl (t, e)
    after_attempt-Ends again t (none, s) ts e g ih =
        after_block-Ends again ts (block is_cancelled is_interrupted s ts) g ih
          (block-Explains s ts)

    -- A blocking loop that ends on a signal and on a kill never runs out of fuel above the number of
    -- turns, and ends only as `Ends` says.
    pub retry-Ends :
        (fuel : ℕ) (s : S) (ts : List (Turn S))
        → length ts < fuel
        → ((w : WakeReason) → stop w ≡ none → (w ≡ woken) ⊎ (w ≡ timed_out))
        → Ends ts (retry is_cancelled is_interrupted attempt stop fuel s ts)
    unfolding retry
    retry-Ends zero s ts l g = absurd (omega arith)
    retry-Ends (suc fuel) s ts l g =
        after_attempt-Ends (retry is_cancelled is_interrupted attempt stop fuel) s (attempt s) ts
          refl g (λ s' left h. retry-Ends fuel s' left (omega arith) g)

    -- A loop whose first attempt has a result ends there.
    pub retry_at_once :
        (fuel : ℕ) (s t : S) (ts : List (Turn S)) (r : R)
        → attempt s ≡ (some r, t)
        → retry is_cancelled is_interrupted attempt stop (suc fuel) s ts ≡ returned r t ts
    unfolding retry
    retry_at_once fuel s t ts r h =
        ap
          (λ a.
            after_attempt is_cancelled is_interrupted attempt stop
              (retry is_cancelled is_interrupted attempt stop fuel) a ts)
          h
