-- ===== src/Patch/Lines.antt =====
-- Texts cut into lines, each with its newline.
use Prim.Native.Char.{Char, code}
use Prim.Native.String.append
use young_agent.Prelude.{
  ℕ, zero, suc, ◌+◌, ◌≡◌, refl, sym, ap, ◌∙◌, String, List, [], ◌∷◌, ◌++◌, some, get_elem?, drop,
  eqb, if◌then◌else◌, split, arith,
}
use young_agent.Prelude.Text.{push_str}
use young_agent.Store.Bytes.{take}
use text.Mathlib.TextLemmas.{append-nil, append_assoc}

-- The first character joins the first line.
abbrev pub push_char : Char → List String → List String
push_char c [] = String.◌∷◌ c String.[] ∷ []
push_char c (line ∷ rest) = String.◌∷◌ c line ∷ rest

-- `split_inclusive('\n')`
abbrev pub split_inclusive : String → List String
split_inclusive String.[] = []
split_inclusive (String.◌∷◌ c s) =
    let rest = split_inclusive s in
    if eqb (code c) 10 then String.◌∷◌ c String.[] ∷ rest else push_char c rest

-- The lines one after the other.
abbrev pub join : List String → String
join [] = ""
join (line ∷ rest) = push_str line (join rest)

push_char-join :
    (c : Char) (lines : List String) → join (push_char c lines) ≡ String.◌∷◌ c (join lines)
push_char-join c [] = append-nil (String.◌∷◌ c String.[])
push_char-join c (line ∷ rest) = append.cons c line (join rest)

-- No character is lost in the lines.
pub join-split_inclusive : (s : String) → join (split_inclusive s) ≡ s
join-split_inclusive String.[] = refl
join-split_inclusive (String.◌∷◌ c s) =
    split (eqb (code c) 10)
      (λ q. rw q (
        append.cons c String.[] (join (split_inclusive s))
        ∙ ap (String.◌∷◌ c) (append.nil (join (split_inclusive s)) ∙ join-split_inclusive s)))
      λ q. rw q (push_char-join c (split_inclusive s) ∙ ap (String.◌∷◌ c) (join-split_inclusive s))

pub join-append : (xs ys : List String) → join (xs ++ ys) ≡ push_str (join xs) (join ys)
join-append [] ys = sym (append.nil (join ys))
join-append (x ∷ xs) ys =
    ap (push_str x) (join-append xs ys) ∙ sym (append_assoc x (join xs) (join ys))

module _ {ℓ} {A : Type ℓ} where
  -- A line in range is the first of those that are left.
  pub drop-of_get_elem? :
      (xs : List A) (i : ℕ) {a : A} → get_elem? xs i ≡ some a → drop i xs ≡ a ∷ drop (suc i) xs
  drop-of_get_elem? [] i h = cc
  drop-of_get_elem? (x ∷ xs) zero h = cc
  drop-of_get_elem? (x ∷ xs) (suc i) h = drop-of_get_elem? xs i h

  drop-nil : (n : ℕ) → ◌≡◌ {A = List A} (drop n []) []
  drop-nil zero = refl
  drop-nil (suc n) = refl

  pub take-drop : (n : ℕ) (xs : List A) → take n xs ++ drop n xs ≡ xs
  take-drop zero xs = refl
  take-drop (suc n) [] = refl
  take-drop (suc n) (x ∷ xs) = ap (λ zs. x ∷ zs) (take-drop n xs)

  pub drop-drop : (n m : ℕ) (xs : List A) → drop m (drop n xs) ≡ drop (n + m) xs
  drop-drop zero m xs = let same : m ≡ 0 + m = omega arith in ap (λ k. drop k xs) same
  drop-drop (suc n) m [] = drop-nil m ∙ sym (drop-nil (suc n + m))
  drop-drop (suc n) m (x ∷ xs) =
      let step : suc n + m ≡ suc (n + m) = omega arith in
      drop-drop n m xs ∙ sym (ap (λ k. drop k (x ∷ xs)) step)
