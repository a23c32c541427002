-- ===== src/Store/Lines.antt =====
-- The lines of a log, and where its committed bytes end.
use young_agent.Prelude.{
  ℕ, suc, ◌+◌, ◌≡◌, refl, ap, sym, ◌∙◌, true, false, List, [], ◌∷◌, ◌++◌, map, none, some, length,
  eqb, eqb_iff, subst, arith, split, All, Option-cases, inl, inr, length-append,
}
use mathlib.Core.List.{append_assoc}
use young_agent.Store.Bytes.{
  Bytes, newline, Line, lines, push_byte, IsClean, log_of, last_newline, committed,
  last_newline-append_some,
}

abbrev pub ended : Bytes → Line
ended line = (line, true)

-- A clean line starts with no newline and goes on with a clean line.
pub IsClean-cons :
    (b : ℕ) (line : Bytes) → IsClean (b ∷ line) → (eqb b newline ≡ false) × IsClean line
IsClean-cons b line h = elim (Option-cases (last_newline line)) [
  | inr (i, q) ↦ absurd (let g : some (suc i) ≡ none = sym (rw q refl) ∙ h in cc)
  | inl q ↦
      split (eqb b newline) (λ p. absurd (let g : some 0 ≡ none = sym (rw (q, p) refl) ∙ h in cc))
        λ p. (p, q)
]

lines-append :
    (line rest : Bytes) → IsClean line → lines (line ++ newline ∷ rest) ≡ ended line ∷ lines rest
lines-append [] rest h = refl
lines-append (b ∷ line) rest h =
    let (p, q) = IsClean-cons b line h in rw (p, lines-append line rest q) refl

pub lines-log_of : (ls : List Bytes) → All IsClean ls → lines (log_of ls) ≡ map ended ls
lines-log_of [] h = refl
lines-log_of (line ∷ ls) h =
    lines-append line (log_of ls) h.0 ∙ ap (λ rest. ended line ∷ rest) (lines-log_of ls h.1)

push_byte-ended :
    (b : ℕ) (rest : List Line) (l : Bytes) (ls : List Bytes)
    → push_byte b rest ≡ map ended (l ∷ ls)
    → (l' : Bytes) × (l ≡ b ∷ l') × (rest ≡ map ended (l' ∷ ls))
push_byte-ended b [] l ls h = absurd (cc)
push_byte-ended b ((l', e) ∷ more) l ls h = (l', cc, cc)

push_byte-nonempty : (b : ℕ) (rest : List Line) → push_byte b rest ≡ [] → ⊥
push_byte-nonempty b [] h = cc
push_byte-nonempty b (x ∷ rest) h = cc

pub IsClean-push : (b : ℕ) (l : Bytes) → eqb b newline ≡ false → IsClean l → IsClean (b ∷ l)
IsClean-push b l p q = rw (q, p) refl

-- The lines are those of a log when every line is ended.
pub lines-ended :
    (bytes : Bytes) (ls : List Bytes)
    → lines bytes ≡ map ended ls
    → (bytes ≡ log_of ls) × All IsClean ls
lines-ended [] [] h = (refl, tt)
lines-ended [] (l ∷ ls) h = cc
lines-ended (b ∷ bytes) [] h =
    split (eqb b newline)
      (λ p. absurd (let g : ([], true) ∷ lines bytes ≡ [] = sym (rw p refl) ∙ h in cc))
      λ p. absurd (push_byte-nonempty b (lines bytes) (sym (rw p refl) ∙ h))
lines-ended (b ∷ bytes) (l ∷ ls) h =
    split (eqb b newline)
      (λ p.
        let g : ([], true) ∷ lines bytes ≡ map ended (l ∷ ls) = sym (rw p refl) ∙ h in
        let (q, c) = lines-ended bytes ls (cc) in
        let k : l ≡ [] = cc in (rw (k, q, (eqb_iff b newline).0 p) refl, (rw k refl, c)))
      λ p.
        let (l', e, r) = push_byte-ended b (lines bytes) l ls (sym (rw p refl) ∙ h) in
        let (q, c) = lines-ended bytes (l' ∷ ls) r in
        (rw (e, q) refl, (subst IsClean (sym e) (IsClean-push b l' p c.0), c.1))

pub log_of-append :
    (ls : List Bytes) (line : Bytes)
    → log_of (ls ++ line ∷ []) ≡ log_of ls ++ (line ++ newline ∷ [])
log_of-append [] line = refl
log_of-append (l ∷ ls) line =
    rw (log_of-append ls line) (sym (append_assoc l (newline ∷ log_of ls) (line ++ newline ∷ [])))

pub committed-some : (bytes : Bytes) {i : ℕ} → last_newline bytes ≡ some i → committed bytes ≡ suc i
committed-some bytes h = rw (committed, h) refl

pub committed-none : (bytes : Bytes) → last_newline bytes ≡ none → committed bytes ≡ 0
committed-none bytes h = rw (committed, h) refl

-- A newline commits all before it.
pub committed-newline :
    (xs rest : Bytes) → committed (xs ++ newline ∷ rest) ≡ suc (length xs + committed rest)
committed-newline xs rest = elim (Option-cases (last_newline rest)) [
  | inl q ↦
      committed-some (xs ++ newline ∷ rest)
        (last_newline-append_some xs (newline ∷ rest) 0 (rw q refl))
      ∙ omega (arith, committed-none rest q)
  | inr (i, q) ↦
      committed-some (xs ++ newline ∷ rest)
        (last_newline-append_some xs (newline ∷ rest) (suc i) (rw q refl))
      ∙ omega (arith, committed-some rest q)
]

-- What follows the last line that is ended is not committed.
pub committed-log_of :
    (ls : List Bytes) (tail : Bytes)
    → IsClean tail
    → committed (log_of ls ++ tail) ≡ length (log_of ls)
committed-log_of [] tail h = rw h
committed-log_of (line ∷ ls) tail h =
    ap committed (append_assoc line (newline ∷ log_of ls) tail)
    ∙ committed-newline line (log_of ls ++ tail)
    ∙ omega (arith, committed-log_of ls tail h, length-append line (newline ∷ log_of ls))
