-- ===== src/Scheduling/ReduceTargets/Setpoint.antt =====
-- Which set point getLowerSetpoint picks when the set points are configured in ascending order.
use target_exporter.Prelude.{
  ◌≡◌, refl, ◌⊎◌, inl, inr, In, true, false, List, [], ◌∷◌, All, subst, arith, Bool-cases,
}
use target_exporter.Float.{Float64, IsOrdered}
use target_exporter.Scheduling.ReduceTargets.{get_lower_setpoint}

module _ {F : Type 0} ⦃f : Float64 F⦄ where
  abbrev pub IsAscending : List F → Type 0
  IsAscending [] = Unit
  IsAscending (x ∷ xs) = All (λ y. f.lt x y ≡ true) xs × IsAscending xs

  -- The set point `s`, if it lies below `current`, is `r` or lies above `r`.
  abbrev pub AtLeast : F → F → F → Type 0
  AtLeast current r s = f.lt s current ≡ true → (s ≡ r) ⊎ (f.lt r s ≡ true)

  -- The result is the current target or a set point below it.
  pub get_lower_setpoint_cases :
      (setpoints : List F) (current : F)
      → (get_lower_setpoint setpoints current ≡ current)
        ⊎ (f.lt (get_lower_setpoint setpoints current) current ≡ true)
  unfolding get_lower_setpoint
  get_lower_setpoint_cases [] current = inl refl
  get_lower_setpoint_cases (x ∷ xs) current = ground (arith, get_lower_setpoint_cases xs current)

  -- The result is one of the set points and lies below the current target, or it is the current
  -- target and no set point lies below that.
  abbrev pub IsPicked : List F → F → F → Type 0
  IsPicked setpoints current r =
      (In r setpoints × (f.lt r current ≡ true))
      ⊎ ((r ≡ current) × All (λ s. f.lt s current ≡ false) setpoints)

  above-AtLeast :
      (current x : F) (xs : List F) → All (λ y. f.lt x y ≡ true) xs → All (AtLeast current x) xs
  above-AtLeast current x [] h = tt
  above-AtLeast current x (y ∷ ys) h = ((λ _. inr h.0), above-AtLeast current x ys h.1)

  take_first :
      (x : F) (xs : List F) (current : F)
      → f.lt x current ≡ true
      → x ≡ get_lower_setpoint (x ∷ xs) current
  unfolding get_lower_setpoint
  take_first x xs current e = rw e

  skip_first :
      (x : F) (xs : List F) (current : F)
      → f.lt x current ≡ false
      → get_lower_setpoint xs current ≡ get_lower_setpoint (x ∷ xs) current
  unfolding get_lower_setpoint
  skip_first x xs current e = rw e

  get_lower_setpoint-IsPicked :
      (setpoints : List F) (current : F)
      → IsPicked setpoints current (get_lower_setpoint setpoints current)
  unfolding get_lower_setpoint
  get_lower_setpoint-IsPicked [] current = inr (refl, tt)
  get_lower_setpoint-IsPicked (x ∷ xs) current = elim (Bool-cases (f.lt x current)) [
    | inl e ↦ subst (IsPicked (x ∷ xs) current) (take_first x xs current e) (inl (inl refl, e))
    | inr e ↦
        subst (IsPicked (x ∷ xs) current) (skip_first x xs current e)
          (elim (get_lower_setpoint-IsPicked xs current) [
            | inl (at, below) ↦ inl (inr at, below)
            | inr (same, none) ↦ inr (same, (e, none))
          ])
  ]

  module _ (laws : IsOrdered F) where
    none_below :
        (current x : F) (xs : List F) (r : F)
        → All (λ y. f.lt x y ≡ true) xs
        → f.lt x current ≡ false
        → All (AtLeast current r) xs
    none_below current x [] r h e = tt
    none_below current x (y ∷ ys) r h e =
        ((λ b. cc (laws.lt_trans x y current h.0 b)), none_below current x ys r h.1 e)

    lowest_below :
        (setpoints : List F) (current : F)
        → IsAscending setpoints
        → All (AtLeast current (get_lower_setpoint setpoints current)) setpoints
    lowest_below [] current h = tt
    lowest_below (x ∷ xs) current h = elim (Bool-cases (f.lt x current)) [
      | inl e ↦
          subst (λ r. All (AtLeast current r) (x ∷ xs)) (take_first x xs current e)
            ((λ _. inl refl), above-AtLeast current x xs h.0)
      | inr e ↦
          subst (λ r. All (AtLeast current r) (x ∷ xs)) (skip_first x xs current e)
            ((λ b. cc), none_below current x xs (get_lower_setpoint xs current) h.0 e)
    ]

    -- With the set points in ascending order, as config.yaml has them, the result is a set point below
    -- the current target, or the current target where no set point lies below it. It is the lowest
    -- of the set points below the target, and not the one before it: each of these is the result or
    -- lies above it.
    pub get_lower_setpoint-ascending :
        (setpoints : List F) (current : F)
        → IsAscending setpoints
        → IsPicked setpoints current (get_lower_setpoint setpoints current)
          × All (AtLeast current (get_lower_setpoint setpoints current)) setpoints
    get_lower_setpoint-ascending setpoints current h =
        (get_lower_setpoint-IsPicked setpoints current, lowest_below setpoints current h)
