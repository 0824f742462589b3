-- ===== src/System/Rules.antt =====
-- What holds of a call that can end the process: a condition on the value and the state that it comes
-- to, and one on the end.
use cloud_backup_system.Common.{arith, is_some, Bool, true, false, Option, none, some, ◌≡◌, refl}
use cloud_backup_system.System.{
  Outcome, returns, exits, Status, failed, ErrorCode, Action, ◌>>=◌, or_exit, some_or_exit, do_call,
}

module _ {W : Type 0} (E : Status → Type 0) where
  abbrev pub Ends : {A : Type 0} → (A → W → Type 0) → Outcome A × W → Type 0
  Ends Q (returns a, w) = Q a w
  Ends Q (exits n, w) = E n

  module _ {A B : Type 0} (Q : A → W → Type 0) (R : B → W → Type 0) where
    Ends-continue :
        (r : Outcome A) (w : W) (f : A → Action W B)
        → Ends Q (r, w)
        → ((a : A) (v : W) → Q a v → Ends R (f a v))
        → Ends R (elim r [ returns a ↦ f a w | exits n ↦ (exits n, w) ])
    Ends-continue (returns a) w f h k = k a w h
    Ends-continue (exits n) w f h k = h

    -- A call and what comes behind it.
    pub Ends-bind :
        (m : Action W A) (f : A → Action W B) (w : W)
        → Ends Q (m w)
        → ((a : A) (v : W) → Q a v → Ends R (f a v))
        → Ends R ((m >>= f) w)
    unfolding ◌>>=◌
    Ends-bind m f w h k = let (r, v) = m w in Ends-continue r v f h k

  worked :
      (e : ErrorCode) (r : Bool × W) (Q : Unit {0} → W → Type 0)
      → E (failed e)
      → ((v : W) → r ≡ (true, v) → Q tt v)
      → Ends Q (elim r.0 [ true ↦ (returns tt, r.1) | false ↦ (exits (failed e), r.1) ])
  worked e (true, v) Q n h = h v refl
  worked e (false, v) Q n h = n

  module _ {A : Type 0} where
    gave :
        (e : ErrorCode) (r : Option A × W) (Q : A → W → Type 0)
        → E (failed e)
        → ((a : A) (v : W) → r ≡ (some a, v) → Q a v)
        → Ends Q (elim r.0 [ some a ↦ (returns a, r.1) | none ↦ (exits (failed e), r.1) ])
    gave e (some a, v) Q n h = h a v refl
    gave e (none, v) Q n h = n

  -- A call that has to work, at the end.
  pub Ends-or_exit_last :
      (R : Unit {0} → W → Type 0) (e : ErrorCode) (f : W → Bool × W) (w : W)
      → E (failed e)
      → ((v : W) → f w ≡ (true, v) → R tt v)
      → Ends R (or_exit e f w)
  unfolding or_exit
  Ends-or_exit_last R e f w = worked e (f w) R

  module _ {B : Type 0} (R : B → W → Type 0) where
    -- A call that has to work, and what comes behind it.
    pub Ends-or_exit :
        (e : ErrorCode) (f : W → Bool × W) (k : Unit {0} → Action W B) (w : W)
        → E (failed e)
        → ((v : W) → f w ≡ (true, v) → Ends R (k tt v))
        → Ends R ((or_exit e f >>= k) w)
    unfolding or_exit
    Ends-or_exit e f k w n h =
        Ends-bind (λ _ v. f w ≡ (true, v)) R (or_exit e f) k w (worked e (f w) _ n λ v g. g)
          (λ _ v. h v)

    -- A call that has to give a value, and what comes behind it.
    pub Ends-some_or_exit :
        {A : Type 0} (e : ErrorCode) (f : W → Option A × W) (k : A → Action W B) (w : W)
        → E (failed e)
        → ((a : A) (v : W) → f w ≡ (some a, v) → Ends R (k a v))
        → Ends R ((some_or_exit e f >>= k) w)
    unfolding some_or_exit
    Ends-some_or_exit e f k w n h =
        Ends-bind (λ a v. f w ≡ (some a, v)) R (some_or_exit e f) k w (gave e (f w) _ n λ a v g. g)
          h

    pub Ends-do_call :
        (f : W → W) (k : Unit {0} → Action W B) (w : W)
        → Ends R (k tt (f w))
        → Ends R ((do_call f >>= k) w)
    unfolding do_call ◌>>=◌
    Ends-do_call f k w h = h

module _ {W : Type 0} where
  -- A call that does not end the process.
  abbrev pub Goes : {A : Type 0} → (A → W → Type 0) → Outcome A × W → Type 0
  Goes Q r = Ends (λ _. ⊥) Q r

  module _ {A : Type 0} (E : Status → Type 0) (Q R : A → W → Type 0) where
    pub Ends-map : (r : Outcome A × W) → ((a : A) (v : W) → Q a v → R a v) → Ends E Q r → Ends E R r
    Ends-map (returns a, w) f h = f a w h
    Ends-map (exits n, w) f h = h

  module _ {A : Type 0} (E : Status → Type 0) (Q : A → W → Type 0) where
    pub Goes-Ends : (r : Outcome A × W) → Ends E Q r → Goes (λ _ _. Unit {0}) r → Goes Q r
    Goes-Ends (returns a, w) h g = h
    Goes-Ends (exits n, w) h g = g

  went :
      (e : ErrorCode) (r : Bool × W)
      → r.0 ≡ true
      → Goes {A = Unit {0}}
          (λ _ v. r ≡ (true, v))
          (elim r.0 [ true ↦ (returns tt, r.1) | false ↦ (exits (failed e), r.1) ])
  went e (true, v) h = refl
  went e (false, v) h = absurd (ground (arith, h))

  went_with :
      {A : Type 0} (e : ErrorCode) (r : Option A × W)
      → is_some r.0 ≡ true
      → Goes {A = A}
          (λ a v. r ≡ (some a, v))
          (elim r.0 [ some a ↦ (returns a, r.1) | none ↦ (exits (failed e), r.1) ])
  went_with e (some a, v) h = refl
  went_with e (none, v) h = absurd (ground (arith, h))

  pub Goes-or_exit_last :
      (e : ErrorCode) (f : W → Bool × W) (w : W)
      → (f w).0 ≡ true
      → Goes (λ _ _. Unit {0}) (or_exit e f w)
  unfolding or_exit
  Goes-or_exit_last e f w h =
      Ends-map (λ _. ⊥) (λ _ v. f w ≡ (true, v)) (λ _ _. Unit {0}) (or_exit e f w) (λ _ _ _. tt)
        (went e (f w) h)

  module _ {B : Type 0} (R : B → W → Type 0) where
    pub Goes-bind :
        {A : Type 0} (m : Action W A) (k : A → Action W B) (w : W)
        → Goes (λ _ _. Unit {0}) (m w)
        → ((a : A) (v : W) → Goes R (k a v))
        → Goes R ((m >>= k) w)
    Goes-bind m k w g h = Ends-bind (λ _. ⊥) (λ _ _. Unit {0}) R m k w g λ a v _. h a v

    pub Goes-or_exit :
        (e : ErrorCode) (f : W → Bool × W) (k : Unit {0} → Action W B) (w : W)
        → (f w).0 ≡ true
        → ((v : W) → f w ≡ (true, v) → Goes R (k tt v))
        → Goes R ((or_exit e f >>= k) w)
    unfolding or_exit
    Goes-or_exit e f k w works h =
        Ends-bind (λ _. ⊥) (λ _ v. f w ≡ (true, v)) R (or_exit e f) k w (went e (f w) works) λ _. h

    pub Goes-some_or_exit :
        {A : Type 0} (e : ErrorCode) (f : W → Option A × W) (k : A → Action W B) (w : W)
        → is_some (f w).0 ≡ true
        → ((a : A) (v : W) → f w ≡ (some a, v) → Goes R (k a v))
        → Goes R ((some_or_exit e f >>= k) w)
    unfolding some_or_exit
    Goes-some_or_exit e f k w works h =
        Ends-bind (λ _. ⊥) (λ a v. f w ≡ (some a, v)) R (some_or_exit e f) k w
          (went_with e (f w) works) h
