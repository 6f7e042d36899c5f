-- ===== src/Float.antt =====
-- float64 as the program uses it: conversions, arithmetic and comparisons. The arithmetic of IEEE 754
-- is not reproduced: the type and its operations are an argument of every definition that computes
-- with floats, and what a theorem needs of the comparisons is a named law.
use target_exporter.Prelude.{
  ℕ, ◌≡◌, Bool, true, false, Option, none, some, arith, eqb, if◌then◌else◌,
}
use target_exporter.Prelude.Int.{
  ℤ, pos, negsuc, pos_part, ◌+ℤ◌, ◌-ℤ◌, ◌*ℤ◌, div_ℤ, ltb_ℤ, leb_ℤ, eqb_ℤ, sub_ℕ,
}

pub record Float64 (F : Type 0) : Type 0 where
  pub of_int : ℤ → F  -- float64(n)
  pub to_int : F → ℤ  -- int64(x), int(x)
  pub add : F → F → F
  pub sub : F → F → F
  pub mul : F → F → F
  pub div : F → F → F
  pub abs : F → F  -- math.Abs
  pub lt : F → F → Bool
  pub le : F → F → Bool
  pub eq : F → F → Bool

-- What IEEE 754 guarantees of the comparisons, NaN included: every comparison with NaN is false.
pub record IsOrdered (F : Type 0) ⦃f : Float64 F⦄ : Type 0 where
  pub lt_irrefl : (x : F) → f.lt x x ≡ false
  pub lt_trans : (x y z : F) → f.lt x y ≡ true → f.lt y z ≡ true → f.lt x z ≡ true
  pub le_of_lt : (x y : F) → f.lt x y ≡ true → f.le x y ≡ true
  pub lt-le_false : (x y : F) → f.lt x y ≡ true → f.le y x ≡ false

module _ {F : Type 0} ⦃f : Float64 F⦄ where
  -- An integer constant of the source used as a float64.
  abbrev pub num : ℕ → F
  num n = f.of_int (pos n)

  abbrev pub minus : ℕ → F
  minus n = f.of_int (sub_ℕ 0 n)

  abbrev pub gt : F → F → Bool
  gt x y = f.lt y x

  abbrev pub ge : F → F → Bool
  ge x y = f.le y x

-- An instance that shows that the laws can be met and on which examples run: numbers with three
-- decimal places, in thousandths, with `none` for NaN.
abbrev pub Thousandths : Type 0
Thousandths = Option ℤ

abbrev pub on_both : {A : Type 0} → A → (ℤ → ℤ → A) → Thousandths → Thousandths → A
on_both d g (some a) (some b) = g a b
on_both d g _ _ = d

abbrev pub quotient : ℤ → ℤ → Thousandths
quotient a (pos d) = if eqb d 0 then none else some (div_ℤ (a *ℤ pos 1000) d)
quotient a (negsuc d) = some (div_ℤ (pos 0 -ℤ a *ℤ pos 1000) (pos_part (pos 0 -ℤ negsuc d)))

abbrev pub magnitude : Thousandths → Thousandths
magnitude none = none
magnitude (some (pos n)) = some (pos n)
magnitude (some (negsuc n)) = some (pos 0 -ℤ negsuc n)

abbrev pub truncated : Thousandths → ℤ
truncated none = pos 0
truncated (some a) = div_ℤ a 1000

instance abbrev pub thousandths_float : Float64 Thousandths
thousandths_float = record {
  of_int = λ n. some (n *ℤ pos 1000);
  to_int = truncated;
  add = on_both none (λ a b. some (a +ℤ b));
  sub = on_both none (λ a b. some (a -ℤ b));
  mul = on_both none (λ a b. some (div_ℤ (a *ℤ b) 1000));
  div = on_both none quotient;
  abs = magnitude;
  lt = on_both false ltb_ℤ;
  le = on_both false leb_ℤ;
  eq = on_both false eqb_ℤ;
}

pub Thousandths-IsOrdered : IsOrdered Thousandths
Thousandths-IsOrdered = ground arith
