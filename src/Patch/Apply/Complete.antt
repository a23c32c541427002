-- ===== src/Patch/Apply/Complete.antt =====
-- crates/capability-coding/src/patch.rs: a patch whose hunks fit the text is applied.
use Prim.Native.String.append
use young_agent.Prelude.{
  ℕ, suc, ◌+◌, ◌-◌, ◌≤◌, ◌≡◌, refl, sym, ap, ◌∙◌, subst, String, Bool, true, false, List, [], ◌∷◌,
  ◌++◌, ltb, eqb_iff, length, length-append, drop, get_elem?-of_drop, arith, string_refl, string_eq,
}
use young_agent.Prelude.Text.{push_str}
use text.Mathlib.TextLemmas.{append-nil}
use young_agent.Agent.Action.Gives.{Gives, Gives-bind}
use young_agent.Store.Bytes.{take, length-drop, take-length, drop-length}
use young_agent.Patch.Lines.{join, split_inclusive, drop-drop}
use young_agent.Patch.Hunk.{PatchLine, Hunk, PatchError, cancelled, old_side, new_side, start_of}
use young_agent.Patch.Diff.{AllNumbered, Patched, Spliced, kept_all, spliced, Spliced-of_Patched}
use young_agent.Patch.Apply.{
  Progress, poll, copy_lines, require_original_line, apply_line, apply_lines, replace_lines,
  apply_hunk, apply_from, apply_hunks,
}
use young_agent.Patch.Apply.Sound.{Replaced, between, made-Replaced, text_eq}
use young_agent.Patch.Apply.Lines.{
  Passed, Passed-cons, Expects, advanced, advanced-Passed, poll-Gives, copy_lines-Gives,
}

module _ (cancels : ℕ → Bool) (L : List String) (P : PatchError → ℕ → Type 0)
    (bad : (time : ℕ) → cancels time ≡ true → P cancelled (suc time)) where
  expected_line :
      (line : PatchLine) (n : ℕ) (rest : List String)
      → drop n L ≡ old_side (line ∷ []) ++ rest
      → Expects cancels L line n
  expected_line (PatchLine.context e) n rest h = get_elem?-of_drop L n h
  expected_line (PatchLine.remove e) n rest h = get_elem?-of_drop L n h
  expected_line (PatchLine.add e) n rest h = tt

  apply_line_complete :
      (line : PatchLine) (p : Progress) (Q : Progress → ℕ → Type 0) (time : ℕ)
      → Expects cancels L line p.cursor
      → Q (advanced cancels L line p) time
      → Gives P Q (apply_line cancels L line p time)
  unfolding apply_line require_original_line
  apply_line_complete (PatchLine.context e) p Q time q g = rw (q, string_refl e) g
  apply_line_complete (PatchLine.remove e) p Q time q g = rw (q, string_refl e) g
  apply_line_complete (PatchLine.add e) p Q time q g = g

  -- What is expected after the first line.
  after_line :
      (line : PatchLine) (rest : List PatchLine) (tail more lines : List String)
      → lines ≡ old_side (line ∷ rest) ++ tail
      → lines ≡ old_side (line ∷ []) ++ more
      → more ≡ old_side rest ++ tail
  after_line (PatchLine.context e) rest tail more lines h k = cc
  after_line (PatchLine.remove e) rest tail more lines h k = cc
  after_line (PatchLine.add e) rest tail more lines h k = cc

  starts_with :
      (line : PatchLine) (rest : List PatchLine) (tail lines : List String)
      → lines ≡ old_side (line ∷ rest) ++ tail
      → lines ≡ old_side (line ∷ []) ++ (old_side rest ++ tail)
  starts_with (PatchLine.context e) rest tail lines h = h
  starts_with (PatchLine.remove e) rest tail lines h = h
  starts_with (PatchLine.add e) rest tail lines h = h

  apply_lines_complete :
      (lines : List PatchLine) (p : Progress) (tail : List String) (Q : Progress → ℕ → Type 0)
      (time : ℕ)
      → drop p.cursor L ≡ old_side lines ++ tail
      → ((p' : Progress) (t : ℕ) → Passed L lines p p' → Q p' t)
      → Gives P Q (apply_lines cancels L lines p time)
  unfolding apply_lines
  apply_lines_complete [] p tail Q time h g = g p time (record {
    reads = refl;
    writes = sym (append-nil p.output);
    cursor = omega arith;
    old_seen = omega arith;
    new_seen = omega arith;
  })
  apply_lines_complete (line ∷ rest) p tail Q time h g =
      let first =
        expected_line line p.cursor (old_side rest ++ tail)
          (starts_with line rest tail (drop p.cursor L) h) in
      let p' = advanced cancels L line p in
      let passed = advanced-Passed cancels L line p first in
      Gives-bind P Q (poll cancels time) _ (
        poll-Gives cancels P bad _ time λ t. Gives-bind P Q (apply_line cancels L line p t) _ (
          apply_line_complete line p _ t first (
            apply_lines_complete rest p' tail Q t
              (after_line line rest tail (drop p'.cursor L) (drop p.cursor L) h passed.reads)
              λ p'' t'' k. g p'' t'' (Passed-cons cancels L line rest p p' p'' passed k))))

  -- A hunk whose lines stand at its place, behind lines that stay.
  module _ (h : Hunk) (kept rest : List String) (cursor : ℕ)
      (starts : start_of h ≡ cursor + length kept) (olds : h.old_count ≡ length (old_side h.lines))
      (news : h.new_count ≡ length (new_side h.lines))
      (reads : drop cursor L ≡ kept ++ (old_side h.lines ++ rest)) (room : cursor ≤ length L) where
    enough : cursor + length kept + length (old_side h.lines) ≤ length L
    enough =
        let size = sym (length-drop cursor L) ∙ ap length reads in
        omega (
          arith,
          size,
          length-append kept (old_side h.lines ++ rest),
          length-append (old_side h.lines) rest,
        )

    in_order : ltb (start_of h) cursor ≡ false
    in_order = ground (arith, starts)

    inside : ltb (length L) (start_of h) ≡ false
    inside = ground (arith, starts, enough)

    between-kept : between cancels L h "" cursor in_order inside ≡ kept
    between-kept =
        let count : start_of h - cursor ≡ length kept = omega (arith, starts) in
        ap (take (start_of h - cursor)) reads
        ∙ ap (λ n. take n (kept ++ (old_side h.lines ++ rest))) count
        ∙ take-length kept (old_side h.lines ++ rest)

    at_start : drop (start_of h) L ≡ old_side h.lines ++ rest
    at_start =
        ap (λ n. drop n L) starts
        ∙ sym (drop-drop cursor (length kept) L)
        ∙ ap (drop (length kept)) reads
        ∙ drop-length kept (old_side h.lines ++ rest)

    left_over : (c : ℕ) → drop (start_of h) L ≡ old_side h.lines ++ drop c L → drop c L ≡ rest
    left_over c q =
        sym (drop-length (old_side h.lines) (drop c L))
        ∙ ap (drop (length (old_side h.lines))) (sym q ∙ at_start)
        ∙ drop-length (old_side h.lines) rest

    apply_hunk_complete :
        (output : String) (Q : String × ℕ → ℕ → Type 0) (time : ℕ)
        → ((o : String) (c t : ℕ) (k : Replaced cancels L h output cursor o c)
            → k.kept ≡ kept
            → c ≡ cursor + length kept + length (old_side h.lines)
            → drop c L ≡ rest
            → Q (o, c) t)
        → Gives P Q (apply_hunk cancels L h output cursor time)
    unfolding apply_hunk replace_lines
    apply_hunk_complete output Q time g =
        let lines = between cancels L h output cursor in_order inside in
        let p : Progress = record {
          output = push_str output (join lines);
          cursor = start_of h;
          old_seen = 0;
          new_seen = 0;
        } in
        Gives-bind P Q (poll cancels time) _ (
          poll-Gives cancels P bad _ time λ t.
            simp (in_order, inside)
              (Gives-bind P Q (copy_lines cancels 0 lines output t) _ (
                copy_lines-Gives cancels P bad lines _ 0 output t λ t'.
                  Gives-bind P Q (apply_lines cancels L h.lines p t') _ (
                    apply_lines_complete h.lines p rest _ t' at_start λ p' t'' k.
                      let old_eq : p'.old_seen ≡ h.old_count = omega (arith, k.old_seen, olds) in
                      let new_eq : p'.new_seen ≡ h.new_count = omega (arith, k.new_seen, news) in
                      let q = (eqb_iff p'.old_seen h.old_count).1 old_eq in
                      let q' = (eqb_iff p'.new_seen h.new_count).1 new_eq in
                      let r =
                        made-Replaced cancels L h output cursor in_order inside p' k (sym old_eq)
                          (sym new_eq) in
                      simp (q, q')
                        (g p'.output p'.cursor t'' r.0 (r.1 ∙ between-kept)
                          (omega (arith, k.cursor, starts)) (left_over p'.cursor k.reads))))))

  apply_from_complete :
      {at : ℕ} {lines result : List String} {hunks : List Hunk} (output : String) (cursor : ℕ)
      (Q : String → ℕ → Type 0) (time : ℕ)
      → Spliced at lines hunks result
      → cursor ≡ at
      → drop cursor L ≡ lines
      → cursor ≤ length L
      → ((t : ℕ) → Q (push_str output (join result)) t)
      → Gives P Q (apply_from cancels L hunks output cursor time)
  unfolding apply_from
  apply_from_complete output cursor Q time kept_all same reads room g =
      copy_lines-Gives cancels P bad (drop cursor L) Q 0 output time
        λ t. subst (λ zs. Q (push_str output (join zs)) t) (sym reads) (g t)
  apply_from_complete {result} {hunks} output cursor Q time
        (spliced {rest} {result = more} h kept starts olds news p) same reads room g =
      let starts' : start_of h ≡ cursor + length kept = omega (arith, starts, same) in
      Gives-bind P Q (apply_hunk cancels L h output cursor time) _ (
        apply_hunk_complete h kept rest cursor starts' olds news reads room output _ time
          λ o c t k kept_eq end left.
            apply_from_complete o c Q t p (omega (arith, end, same)) left
              (omega (arith, end, enough h kept rest cursor starts' olds news reads room))
              λ t'.
                subst (λ text. Q text t')
                  (ap (λ zs. push_str output (join (zs ++ (new_side h.lines ++ more))))
                      (sym kept_eq)
                    ∙ text_eq cancels L k more)
                  (g t'))

-- A patch whose hunks are numbered, the ones that expect no line with 0, and fit the text as those of a
-- unified diff is applied, with the result that the diff describes, unless the call is cancelled.
pub apply_hunks-of_Patched :
    (cancels : ℕ → Bool) (original : String) (hunks : List Hunk) (result : List String) (time : ℕ)
    → AllNumbered hunks
    → Patched 0 (split_inclusive original) hunks result
    → Gives
        (λ e t. (e ≡ cancelled) × ((n : ℕ) × (cancels n ≡ true)))
        (λ output t. output ≡ join result)
        (apply_hunks cancels original hunks time)
unfolding apply_hunks
apply_hunks-of_Patched cancels original hunks result time numbered p =
    apply_from_complete cancels (split_inclusive original) _ (λ t q. (refl, (t, q))) "" 0 _ time
      (Spliced-of_Patched numbered p) refl refl (omega arith) λ t. append.nil (join result)
