-- ===== src/Store/Bytes.antt =====
-- The bytes of a file, their lines, and the place of the last newline in them.
use young_agent.Prelude.{
  ℕ, zero, suc, ◌+◌, ◌-◌, ◌≤◌, ◌<◌, Option-cases, split, inl, inr, ◌≡◌, refl, ap, sym, ◌∙◌, Bool,
  true, false, List, [], ◌∷◌, ◌++◌, Option, none, some, length, drop, eqb, if◌then◌else◌, arith,
}

abbrev pub Bytes : Type 0
Bytes = List ℕ

abbrev pub newline : ℕ
newline = 10

module _ {ℓ} {A : Type ℓ} where
  abbrev pub take : ℕ → List A → List A
  take zero xs = []
  take (suc n) [] = []
  take (suc n) (x ∷ xs) = x ∷ take n xs

  pub length-take : (n : ℕ) (xs : List A) → n ≤ length xs → length (take n xs) ≡ n
  length-take zero xs h = refl
  length-take (suc n) [] h = omega arith
  length-take (suc n) (x ∷ xs) h = ap suc (length-take n xs (omega arith))

  pub length-drop : (n : ℕ) (xs : List A) → length (drop n xs) ≡ length xs - n
  length-drop zero xs = omega arith
  length-drop (suc n) [] = omega arith
  length-drop (suc n) (x ∷ xs) = length-drop n xs ∙ omega arith

  take-nil : (n : ℕ) → take n [] ≡ []
  take-nil zero = refl
  take-nil (suc n) = refl

  pub take-add : (n m : ℕ) (xs : List A) → take (n + m) xs ≡ take n xs ++ take m (drop n xs)
  take-add zero m xs = ap (λ k. take k xs) (omega arith)
  take-add (suc n) m [] = take-nil (suc n + m) ∙ sym (take-nil m)
  take-add (suc n) m (x ∷ xs) =
      let step : suc n + m ≡ suc (n + m) = omega arith in
      ap (λ k. take k (x ∷ xs)) step ∙ ap (λ zs. x ∷ zs) (take-add n m xs)

  pub take-length : (xs ys : List A) → take (length xs) (xs ++ ys) ≡ xs
  take-length [] ys = refl
  take-length (x ∷ xs) ys = ap (λ zs. x ∷ zs) (take-length xs ys)

  pub take-length_self : (xs : List A) → take (length xs) xs ≡ xs
  take-length_self [] = refl
  take-length_self (x ∷ xs) = ap (λ zs. x ∷ zs) (take-length_self xs)

  pub drop-length : (xs ys : List A) → drop (length xs) (xs ++ ys) ≡ ys
  drop-length [] ys = refl
  drop-length (x ∷ xs) ys = drop-length xs ys

-- `rposition(|byte| *byte == b'\n')`
abbrev pub last_newline : Bytes → Option ℕ
last_newline [] = none
last_newline (b ∷ rest) = elim (last_newline rest) [
  | some i ↦ some (suc i)
  | none ↦ if eqb b newline then some 0 else none
]

-- The length of what stands up to the last newline, this one included.
abbrev pub committed : Bytes → ℕ
committed bytes = elim (last_newline bytes) [ some i ↦ suc i | none ↦ 0 ]

pub last_newline-append_some :
    (xs ys : Bytes) (i : ℕ)
    → last_newline ys ≡ some i
    → last_newline (xs ++ ys) ≡ some (length xs + i)
last_newline-append_some [] ys i h = h ∙ ap some (omega arith)
last_newline-append_some (x ∷ xs) ys i h =
    rw (last_newline-append_some xs ys i h) (ap some (omega arith))

pub last_newline-append_none :
    (xs ys : Bytes) → last_newline ys ≡ none → last_newline (xs ++ ys) ≡ last_newline xs
last_newline-append_none [] ys h = h
last_newline-append_none (x ∷ xs) ys h = rw (last_newline-append_none xs ys h)

-- What the reader takes at a time: the bytes before a newline, and whether one ended them.
abbrev pub Line : Type 0
Line = Bytes × Bool

abbrev pub push_byte : ℕ → List Line → List Line
push_byte b [] = (b ∷ [], false) ∷ []
push_byte b ((line, ended) ∷ rest) = (b ∷ line, ended) ∷ rest

-- What `read_until(b'\n')` returns, call by call, until it returns nothing.
abbrev pub lines : Bytes → List Line
lines [] = []
lines (b ∷ bytes) =
    let rest = lines bytes in if eqb b newline then ([], true) ∷ rest else push_byte b rest

-- A line is clean when no newline is in it.
abbrev pub IsClean : Bytes → Type 0
IsClean line = last_newline line ≡ none

-- The bytes of lines that are all ended.
abbrev pub log_of : List Bytes → Bytes
log_of [] = []
log_of (line ∷ rest) = line ++ newline ∷ log_of rest

pub last_newline-lt : (bytes : Bytes) (i : ℕ) → last_newline bytes ≡ some i → i < length bytes
last_newline-lt [] i h = cc
last_newline-lt (b ∷ rest) i h = elim (Option-cases (last_newline rest)) [
  | inr (j, q) ↦
      let g : some (suc j) ≡ some i = sym (rw q refl) ∙ h in
      let k : suc j ≡ i = cc in omega (arith, last_newline-lt rest j q, k)
  | inl q ↦
      split (eqb b newline)
        (λ p.
          let g : some 0 ≡ some i = sym (rw (q, p) refl) ∙ h in
          let k : 0 ≡ i = cc in omega (arith, k))
        λ p. absurd (let g : none ≡ some i = sym (rw (q, p) refl) ∙ h in cc)
]
