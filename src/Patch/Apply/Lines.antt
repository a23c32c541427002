-- ===== src/Patch/Apply/Lines.antt =====
-- crates/capability-coding/src/patch.rs: the loops over lines when a patch is applied.
use young_agent.Prelude.{
  ℕ, suc, ◌+◌, ◌%◌, ◌≡◌, refl, sym, ap, ◌∙◌, subst, String, Bool, true, false, Option, none, some,
  List, [], ◌∷◌, ◌++◌, string_eq, ◌==◌, eq_iff, eqb, length, drop, get_elem?, if◌then◌else◌, split,
  arith,
}
use young_agent.Prelude.Text.{push_str}
use text.Mathlib.TextLemmas.{append-nil, append_assoc}
use young_agent.Agent.Action.{pure}
use young_agent.Agent.Action.Gives.{Gives, Gives-bind}
use young_agent.Patch.Lines.{join, drop-of_get_elem?}
use young_agent.Patch.Hunk.{PatchLine, PatchError, cancelled, old_side, new_side}
use young_agent.Patch.Apply.{
  Progress, poll, copy_lines, require_line, require_original_line, apply_line, apply_lines,
}

module _ (cancels : ℕ → Bool) (P : PatchError → ℕ → Type 0)
    (bad : (time : ℕ) → cancels time ≡ true → P cancelled (suc time)) where
  pub poll-Gives :
      (Q : Unit {0} → ℕ → Type 0) (time : ℕ) → ((t : ℕ) → Q tt t) → Gives P Q (poll cancels time)
  unfolding poll
  poll-Gives Q time g = split (cancels time) (λ q. rw q (bad time q)) λ q. rw q (g (suc time))

  poll_if-Gives :
      (Q : Unit {0} → ℕ → Type 0) (time : ℕ) (b : Bool)
      → ((t : ℕ) → Q tt t)
      → Gives P Q ((if b then poll cancels else pure tt) time)
  poll_if-Gives Q time true g = poll-Gives Q time g
  poll_if-Gives Q time false g = g time

  pub copy_lines-Gives :
      (lines : List String) (Q : String → ℕ → Type 0) (index : ℕ) (output : String) (time : ℕ)
      → ((t : ℕ) → Q (push_str output (join lines)) t)
      → Gives P Q (copy_lines cancels index lines output time)
  unfolding copy_lines
  copy_lines-Gives [] Q index output time g = subst (λ o. Q o time) (append-nil output) (g time)
  copy_lines-Gives (line ∷ rest) Q index output time g =
      Gives-bind P Q ((if eqb (index % 1024) 0 then poll cancels else pure tt) time) _ (
        poll_if-Gives _ time (eqb (index % 1024) 0) λ t.
          copy_lines-Gives rest Q (suc index) (push_str output line) t
            λ t'. subst (λ o. Q o t') (sym (append_assoc output line (join rest))) (g t'))

push_line :
    (output line more : String)
    → push_str (push_str output (push_str line "")) more ≡ push_str output (push_str line more)
push_line output line more =
    append_assoc output (push_str line "") more
    ∙ ap (λ o. push_str output (push_str o more)) (append-nil line)

-- How far the loop over these lines of a hunk has come.
pub record Passed (original_lines : List String) (lines : List PatchLine) (p p' : Progress)
    : Type 0 where
  pub reads : drop p.cursor original_lines ≡ old_side lines ++ drop p'.cursor original_lines
  pub writes : p'.output ≡ push_str p.output (join (new_side lines))
  pub cursor : p'.cursor ≡ p.cursor + length (old_side lines)
  pub old_seen : p'.old_seen ≡ p.old_seen + length (old_side lines)
  pub new_seen : p'.new_seen ≡ p.new_seen + length (new_side lines)

module _ (cancels : ℕ → Bool) (original_lines : List String) where
  abbrev pub Any : PatchError → ℕ → Type 0
  Any e t = Unit

  require_line_sound :
      (index : ℕ) (expected : String) (o : Option String) (Q : Unit {0} → ℕ → Type 0) (time : ℕ)
      → (o ≡ some expected → Q tt time)
      → Gives Any Q (require_line index expected o time)
  require_line_sound index expected none Q time g = tt
  require_line_sound index expected (some actual) Q time g =
      split (actual == expected) (λ q. rw q (g (ap some ((eq_iff actual expected).0 q))))
        λ q. rw q tt

  next_line :
      (line : String) (n : ℕ)
      → ◌≡◌ {A = List String}
          (line ∷ drop (suc n) original_lines)
          (line ∷ drop (n + 1) original_lines)
  next_line line n =
      let next : suc n ≡ n + 1 = omega arith in ap (λ k. line ∷ drop k original_lines) next

  -- The progress after a line that fits.
  abbrev pub advanced : PatchLine → Progress → Progress
  advanced (PatchLine.context expected) p = record {
    output = push_str p.output expected;
    cursor = p.cursor + 1;
    old_seen = p.old_seen + 1;
    new_seen = p.new_seen + 1;
  }
  advanced (PatchLine.remove expected) p = record p {
    cursor = p.cursor + 1;
    old_seen = p.old_seen + 1;
  }
  advanced (PatchLine.add added) p = record p {
    output = push_str p.output added;
    new_seen = p.new_seen + 1;
  }

  abbrev pub Expects : PatchLine → ℕ → Type 0
  Expects (PatchLine.context expected) n = get_elem? original_lines n ≡ some expected
  Expects (PatchLine.remove expected) n = get_elem? original_lines n ≡ some expected
  Expects (PatchLine.add added) n = Unit

  pub advanced-Passed :
      (line : PatchLine) (p : Progress)
      → Expects line p.cursor
      → Passed original_lines (line ∷ []) p (advanced line p)
  advanced-Passed (PatchLine.context expected) p q = record {
    reads = drop-of_get_elem? original_lines p.cursor q ∙ next_line expected p.cursor;
    writes = ap (push_str p.output) (sym (append-nil expected));
    cursor = refl;
    old_seen = refl;
    new_seen = refl;
  }
  advanced-Passed (PatchLine.remove expected) p q = record {
    reads = drop-of_get_elem? original_lines p.cursor q ∙ next_line expected p.cursor;
    writes = sym (append-nil p.output);
    cursor = refl;
    old_seen = refl;
    new_seen = omega arith;
  }
  advanced-Passed (PatchLine.add added) p q = record {
    reads = refl;
    writes = ap (push_str p.output) (sym (append-nil added));
    cursor = omega arith;
    old_seen = omega arith;
    new_seen = refl;
  }

  apply_line_sound :
      (line : PatchLine) (p : Progress) (Q : Progress → ℕ → Type 0) (time : ℕ)
      → ((p' : Progress) (t : ℕ) → Passed original_lines (line ∷ []) p p' → Q p' t)
      → Gives Any Q (apply_line cancels original_lines line p time)
  unfolding apply_line require_original_line
  apply_line_sound (PatchLine.context expected) p Q time g =
      Gives-bind Any Q (require_line p.cursor expected (get_elem? original_lines p.cursor) time) _ (
        require_line_sound p.cursor expected (get_elem? original_lines p.cursor) _ time
          λ q. g _ time (advanced-Passed (PatchLine.context expected) p q))
  apply_line_sound (PatchLine.remove expected) p Q time g =
      Gives-bind Any Q (require_line p.cursor expected (get_elem? original_lines p.cursor) time) _ (
        require_line_sound p.cursor expected (get_elem? original_lines p.cursor) _ time
          λ q. g _ time (advanced-Passed (PatchLine.remove expected) p q))
  apply_line_sound (PatchLine.add added) p Q time g =
      g _ time (advanced-Passed (PatchLine.add added) p tt)

  -- One line and then the others.
  pub Passed-cons :
      (line : PatchLine) (rest : List PatchLine) (p p' p'' : Progress)
      → Passed original_lines (line ∷ []) p p'
      → Passed original_lines rest p' p''
      → Passed original_lines (line ∷ rest) p p''
  Passed-cons (PatchLine.context e) rest p p' p'' h k = record {
    reads = h.reads ∙ ap (λ zs. e ∷ zs) k.reads;
    writes =
        k.writes
        ∙ ap (λ o. push_str o (join (new_side rest))) h.writes
        ∙ push_line p.output e (join (new_side rest));
    cursor = omega (arith, h.cursor, k.cursor);
    old_seen = omega (arith, h.old_seen, k.old_seen);
    new_seen = omega (arith, h.new_seen, k.new_seen);
  }
  Passed-cons (PatchLine.remove e) rest p p' p'' h k = record {
    reads = h.reads ∙ ap (λ zs. e ∷ zs) k.reads;
    writes =
        k.writes
        ∙ ap (λ o. push_str o (join (new_side rest))) h.writes
        ∙ ap (λ o. push_str o (join (new_side rest))) (append-nil p.output);
    cursor = omega (arith, h.cursor, k.cursor);
    old_seen = omega (arith, h.old_seen, k.old_seen);
    new_seen = omega (arith, h.new_seen, k.new_seen);
  }
  Passed-cons (PatchLine.add e) rest p p' p'' h k = record {
    reads = h.reads ∙ k.reads;
    writes =
        k.writes
        ∙ ap (λ o. push_str o (join (new_side rest))) h.writes
        ∙ push_line p.output e (join (new_side rest));
    cursor = omega (arith, h.cursor, k.cursor);
    old_seen = omega (arith, h.old_seen, k.old_seen);
    new_seen = omega (arith, h.new_seen, k.new_seen);
  }

  pub apply_lines_sound :
      (lines : List PatchLine) (p : Progress) (Q : Progress → ℕ → Type 0) (time : ℕ)
      → ((p' : Progress) (t : ℕ) → Passed original_lines lines p p' → Q p' t)
      → Gives Any Q (apply_lines cancels original_lines lines p time)
  unfolding apply_lines
  apply_lines_sound [] p Q time g = g p time (record {
    reads = refl;
    writes = sym (append-nil p.output);
    cursor = omega arith;
    old_seen = omega arith;
    new_seen = omega arith;
  })
  apply_lines_sound (line ∷ rest) p Q time g = Gives-bind Any Q (poll cancels time) _ (
      poll-Gives cancels Any (λ t q. tt) _ time
        λ t. Gives-bind Any Q (apply_line cancels original_lines line p t) _ (
          apply_line_sound line p _ t λ p' t' h.
            apply_lines_sound rest p' Q t'
              λ p'' t'' k. g p'' t'' (Passed-cons line rest p p' p'' h k)))
