-- ===== src/Prelude/Decimal/Read.antt =====
-- Reading a decimal print back, so that different numbers print differently.
use Prim.Native.Nat.{ℕ, zero, suc, ◌+◌, ◌-◌, ◌*◌, ◌/◌, ◌%◌, ◌<◌}
use Prim.Native.Char.{code}
use Prim.Native.String.append
use Prim.Native.String.{String, ◌++◌}
use mathlib.Core.Bool.{Bool, true, false, ◌&&◌}
use mathlib.Core.Path.{◌≡◌, refl, sym, ap, ◌∙◌}
use native.Mathlib.Omega.{arith}
use young_agent.Prelude.Tests.{ltb, leb, eqb, eqb_iff, split}
use young_agent.Prelude.Decimal.{digit, decimal_in, decimal}

-- The number that digits spell behind `acc`.
abbrev pub value : ℕ → String → ℕ
value acc String.[] = acc
value acc (String.◌∷◌ c s) = value (acc * 10 + (code c - 48)) s

pub value-append : (acc : ℕ) (s t : String) → value acc (s ++ t) ≡ value (value acc s) t
value-append acc String.[] t = ap (value acc) (append.nil t)
value-append acc (String.◌∷◌ c s) t =
    ap (value acc) (append.cons c s t) ∙ value-append (acc * 10 + (code c - 48)) s t

refl_to : (acc d k : ℕ) → eqb d k ≡ true → acc * 10 + k ≡ acc * 10 + d
refl_to acc d k q = ap (λ e. acc * 10 + e) (sym ((eqb_iff d k).0 q))

value-digit : (acc d : ℕ) → d < 10 → value acc (digit d) ≡ acc * 10 + d
value-digit acc d h =
    split (eqb d 0) (λ q. rw q (refl_to acc d 0 q))
      (λ q0. rw q0 (
        split (eqb d 1) (λ q. rw q (refl_to acc d 1 q))
          (λ q1. rw q1 (
            split (eqb d 2) (λ q. rw q (refl_to acc d 2 q))
              (λ q2. rw q2 (
                split (eqb d 3) (λ q. rw q (refl_to acc d 3 q))
                  (λ q3. rw q3 (
                    split (eqb d 4) (λ q. rw q (refl_to acc d 4 q))
                      (λ q4. rw q4 (
                        split (eqb d 5) (λ q. rw q (refl_to acc d 5 q))
                          (λ q5. rw q5 (
                            split (eqb d 6) (λ q. rw q (refl_to acc d 6 q))
                              (λ q6. rw q6 (
                                split (eqb d 7) (λ q. rw q (refl_to acc d 7 q))
                                  (λ q7. rw q7 (
                                    split (eqb d 8) (λ q. rw q (refl_to acc d 8 q))
                                      (λ q8. rw q8 (ground arith))))))))))))))))))

-- The bound of what `fuel` digits and one more can spell.
bound : ℕ → ℕ
bound zero = 10
bound (suc fuel) = 10 * bound fuel

value-decimal_in : (fuel n : ℕ) → n < bound fuel → value 0 (decimal_in fuel n) ≡ n
unfolding decimal_in bound
value-decimal_in zero n h = value-digit 0 (n % 10) (omega arith) ∙ omega arith
value-decimal_in (suc fuel) n h =
    split (ltb n 10) (λ q. rw q (value-digit 0 n (ground arith) ∙ omega arith))
      λ q. rw q (
        value-append 0 (decimal_in fuel (n / 10)) (digit (n % 10))
        ∙ value-digit _ (n % 10) (omega arith)
        ∙ omega (arith, value-decimal_in fuel (n / 10) (omega arith)))

-- The limit up to which prints are read back.
abbrev pub printable : ℕ
printable = 100000000000000000000

pub value-decimal : (n : ℕ) → n < printable → value 0 (decimal n) ≡ n
unfolding decimal bound
value-decimal n h = value-decimal_in 20 n (omega arith)

-- What holds of the ten digits holds of any.
digit_cases :
    (P : String → Type 0)
    → P "0"
    → P "1"
    → P "2"
    → P "3"
    → P "4"
    → P "5"
    → P "6"
    → P "7"
    → P "8"
    → P "9"
    → (d : ℕ) → P (digit d)
digit_cases P a b c d e f g h i j n =
    split (eqb n 0) (λ q. rw q a)
      (λ q. rw q (
        split (eqb n 1) (λ q. rw q b)
          (λ q. rw q (
            split (eqb n 2) (λ q. rw q c)
              (λ q. rw q (
                split (eqb n 3) (λ q. rw q d)
                  (λ q. rw q (
                    split (eqb n 4) (λ q. rw q e)
                      (λ q. rw q (
                        split (eqb n 5) (λ q. rw q f)
                          (λ q. rw q (
                            split (eqb n 6) (λ q. rw q g)
                              (λ q. rw q (
                                split (eqb n 7) (λ q. rw q h)
                                  (λ q.
                                    rw q
                                      (split (eqb n 8) (λ q. rw q i) (λ q. rw q (j))))))))))))))))))

abbrev pub is_digit : ℕ → Bool
is_digit c = leb 48 c && leb c 57

abbrev pub all_digits : String → Bool
all_digits String.[] = true
all_digits (String.◌∷◌ c s) = is_digit (code c) && all_digits s

abbrev pub is_nonempty : String → Bool
is_nonempty String.[] = false
is_nonempty (String.◌∷◌ c s) = true

all_digits-append :
    (s t : String) → all_digits s ≡ true → all_digits t ≡ true → all_digits (s ++ t) ≡ true
all_digits-append String.[] t h k = ap all_digits (append.nil t) ∙ k
all_digits-append (String.◌∷◌ c s) t h k =
    split (is_digit (code c))
      (λ q.
        ap all_digits (append.cons c s t) ∙ rw q (all_digits-append s t (sym (rw q refl) ∙ h) k))
      λ q. absurd (let g : false ≡ true = sym (rw q refl) ∙ h in cc)

is_nonempty-append : (s t : String) → is_nonempty t ≡ true → is_nonempty (s ++ t) ≡ true
is_nonempty-append String.[] t k = ap is_nonempty (append.nil t) ∙ k
is_nonempty-append (String.◌∷◌ c s) t k = ap is_nonempty (append.cons c s t)

all_digits-digit : (d : ℕ) → all_digits (digit d) ≡ true
all_digits-digit =
    digit_cases (λ s. all_digits s ≡ true) refl refl refl refl refl refl refl refl refl refl

is_nonempty-digit : (d : ℕ) → is_nonempty (digit d) ≡ true
is_nonempty-digit =
    digit_cases (λ s. is_nonempty s ≡ true) refl refl refl refl refl refl refl refl refl refl

all_digits-decimal_in :
    (fuel n : ℕ)
    → (all_digits (decimal_in fuel n) ≡ true) × (is_nonempty (decimal_in fuel n) ≡ true)
unfolding decimal_in
all_digits-decimal_in zero n = (all_digits-digit (n % 10), is_nonempty-digit (n % 10))
all_digits-decimal_in (suc fuel) n =
    split (ltb n 10) (λ q. rw q (all_digits-digit n, is_nonempty-digit n))
      λ q. rw q (
        all_digits-append (decimal_in fuel (n / 10)) (digit (n % 10))
            (all_digits-decimal_in fuel (n / 10)).0 (all_digits-digit (n % 10)),
        is_nonempty-append (decimal_in fuel (n / 10)) (digit (n % 10)) (is_nonempty-digit (n % 10)),
      )

-- A number is printed as digits, and at least one.
pub all_digits-decimal :
    (n : ℕ) → (all_digits (decimal n) ≡ true) × (is_nonempty (decimal n) ≡ true)
unfolding decimal
all_digits-decimal n = all_digits-decimal_in 20 n
