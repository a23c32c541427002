-- ===== src/Patch/Body/RoundTrip.antt =====
-- crates/capability-coding/src/patch.rs: a hunk that is printed as a unified diff prints it is read back.
use young_agent.Prelude.{
  ℕ, ◌+◌, ◌≡◌, refl, sym, ap, ◌∙◌, String, Bool, true, false, not, ◌<◌, ◌||◌, List, [], ◌∷◌, ◌++◌,
  map, ltb, ok, arith,
}
use mathlib.Core.List.{append_assoc, append-nil}
use young_agent.Agent.Action.Gives.{Gives, Gives-bind, Gives-weaken}
use young_agent.Patch.Hunk.{PatchLine, Hunk, PatchError, cancelled}
use young_agent.Patch.Apply.{poll}
use young_agent.Patch.Apply.Lines.{poll-Gives}
use young_agent.Patch.Body.{
  Seen, see_context, see_remove, see_add, push_line, is_incomplete, is_newline_marker, read_lines,
  end_hunk, read_hunk, start, close_hunk,
}
use young_agent.Patch.Body.Counts.{olds, news, IsCounted}

abbrev pub print_line : PatchLine → String
print_line (PatchLine.context line) = String.◌∷◌ " " line
print_line (PatchLine.remove line) = String.◌∷◌ "-" line
print_line (PatchLine.add line) = String.◌∷◌ "+" line

-- No marker tells that the line before it has no end.
abbrev pub has_no_marker : List String → Bool
has_no_marker [] = true
has_no_marker (line ∷ rest) = not (is_newline_marker line)

abbrev see : PatchLine → Seen → Seen
see (PatchLine.context line) = see_context line
see (PatchLine.remove line) = see_remove line
see (PatchLine.add line) = see_add line

push_line-print_line :
    (l : PatchLine) (s : Seen) (t : ℕ) → push_line (print_line l) s t ≡ (ok (see l s), t)
unfolding push_line
push_line-print_line (PatchLine.context line) s t = refl
push_line-print_line (PatchLine.remove line) s t = refl
push_line-print_line (PatchLine.add line) s t = refl

print_line-is_newline_marker : (l : PatchLine) → is_newline_marker (print_line l) ≡ false
print_line-is_newline_marker (PatchLine.context line) = refl
print_line-is_newline_marker (PatchLine.remove line) = refl
print_line-is_newline_marker (PatchLine.add line) = refl

see_lines : (l : PatchLine) (s : Seen) → (see l s).hunk_lines ≡ s.hunk_lines ++ l ∷ []
see_lines (PatchLine.context line) s = refl
see_lines (PatchLine.remove line) s = refl
see_lines (PatchLine.add line) s = refl

see-olds :
    (l : PatchLine) (s : Seen) (todo : List PatchLine)
    → (see l s).old_seen + olds todo ≡ s.old_seen + olds (l ∷ todo)
see-olds (PatchLine.context line) s todo = omega arith
see-olds (PatchLine.remove line) s todo = omega arith
see-olds (PatchLine.add line) s todo = refl

see-news :
    (l : PatchLine) (s : Seen) (todo : List PatchLine)
    → (see l s).new_seen + news todo ≡ s.new_seen + news (l ∷ todo)
see-news (PatchLine.context line) s todo = omega arith
see-news (PatchLine.remove line) s todo = refl
see-news (PatchLine.add line) s todo = omega arith

some_line : (l : PatchLine) (todo : List PatchLine) → 0 < olds (l ∷ todo) + news (l ∷ todo)
some_line (PatchLine.context line) todo = omega arith
some_line (PatchLine.remove line) todo = omega arith
some_line (PatchLine.add line) todo = omega arith

module _ (cancels : ℕ → Bool) where
  abbrev Bad : PatchError → ℕ → Type 0
  Bad e t = (e ≡ cancelled) × ((n : ℕ) × (cancels n ≡ true))

  module _ (old_count new_count : ℕ) where
    -- The lines that are still to be read, and those behind the hunk.
    abbrev Reads : List PatchLine → List String → Seen → Type 0
    Reads todo rest s =
        (time : ℕ)
        → s.old_seen + olds todo ≡ old_count
        → s.new_seen + news todo ≡ new_count
        → Gives Bad (λ p t. (p.0.hunk_lines ≡ s.hunk_lines ++ todo) × (p.1 ≡ rest))
            (read_lines cancels old_count new_count (map print_line todo ++ rest) s time)

    done_reading : (rest : List String) (s : Seen) → Reads [] rest s
    unfolding read_lines
    done_reading [] s time f g =
        let q : is_incomplete old_count new_count s ≡ false = ground arith in
        rw q (sym (append-nil s.hunk_lines), refl)
    done_reading (line ∷ rest) s time f g =
        let q : is_incomplete old_count new_count s ≡ false = ground arith in
        rw q (sym (append-nil s.hunk_lines), refl)

    read_lines-print_line :
        (todo : List PatchLine) (rest : List String) (s : Seen) → Reads todo rest s
    unfolding read_lines
    read_lines-print_line [] rest s time f g = done_reading rest s time f g
    read_lines-print_line (l ∷ todo) rest s time f g =
        let more : is_incomplete old_count new_count s ≡ true =
          let e = some_line l todo in ground arith in
        let olds_left = see-olds l s todo ∙ f in
        let news_left = see-news l s todo ∙ g in
        let fits : (ltb old_count (see l s).old_seen || ltb new_count (see l s).new_seen) ≡ false =
          ground arith in
        let next = read_lines-print_line todo rest (see l s) in
        rw more (
          Gives-bind _ _ (poll cancels time) _ (
            poll-Gives cancels Bad (λ t q. (refl, (t, q))) _ time
              λ t.
                rw (print_line-is_newline_marker l, push_line-print_line l s t, fits)
                  (Gives-weaken _ _ _ _
                    (read_lines cancels old_count new_count (map print_line todo ++ rest) (see l s)
                      t)
                    (λ e u n. n)
                    (λ p u (m, n). (
                      m
                          ∙ ap (λ lines. lines ++ todo) (see_lines l s)
                          ∙ append_assoc s.hunk_lines (l ∷ []) todo,
                      n,
                    ))
                    (next t olds_left news_left))))

  end_hunk-print_line :
      (old_count new_count old_start : ℕ) (s : Seen) (rest : List String) (time : ℕ)
      → has_no_marker rest ≡ true
      → end_hunk cancels old_count new_count old_start s rest time
        ≡ (ok (close_hunk old_count new_count old_start s.hunk_lines, rest), time)
  unfolding end_hunk
  end_hunk-print_line old_count new_count old_start s [] time h = refl
  end_hunk-print_line old_count new_count old_start s (line ∷ rest) time h =
      let q : is_newline_marker line ≡ false = ground arith in rw q refl

  -- A hunk with as many lines on each side as it says, printed line by line as a diff prints it with
  -- no marker behind, is read back, with the lines behind it left, unless the call is cancelled.
  pub read_hunk-print_line :
      (h : Hunk) (rest : List String) (time : ℕ)
      → IsCounted h
      → has_no_marker rest ≡ true
      → Gives
          (λ e t. (e ≡ cancelled) × ((n : ℕ) × (cancels n ≡ true)))
          (λ p t. p ≡ (h, rest))
          (read_hunk cancels h.old_count h.new_count h.old_start
            (map print_line h.lines ++ rest)
            time)
  unfolding read_hunk
  read_hunk-print_line h rest time (f, g) k =
      Gives-bind _ _
        (read_lines cancels h.old_count h.new_count (map print_line h.lines ++ rest) start time) _
        (Gives-weaken _ _ _ _
          (read_lines cancels h.old_count h.new_count (map print_line h.lines ++ rest) start time)
          (λ e t n. n)
          (λ p t (m, n).
            let q : has_no_marker p.1 ≡ true = ap has_no_marker n ∙ k in
            rw (end_hunk-print_line h.old_count h.new_count h.old_start p.0 p.1 t q) (
              ap (λ lines. (close_hunk h.old_count h.new_count h.old_start lines, p.1)) m
              ∙ ap (λ r. (h, r)) n))
          (read_lines-print_line h.old_count h.new_count h.lines rest start time (omega (arith, f))
            (omega (arith, g))))
