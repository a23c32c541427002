-- ===== src/Patch/Body/Counts.antt =====
-- crates/capability-coding/src/patch.rs: a hunk that is read has the counts of its header.
use Prim.Native.Char.{code}
use young_agent.Prelude.{
  ℕ, suc, ◌+◌, ◌≤◌, ◌≡◌, refl, sym, ap, ◌∙◌, Bool, true, false, ◌||◌, ◌&&◌, String, List, [], ◌∷◌,
  ◌++◌, length, ltb, eqb, split, arith,
}
use young_agent.Agent.Action.Gives.{Gives, Gives-bind, Gives-weaken}
use young_agent.Patch.Hunk.{PatchLine, Hunk, old_side, new_side, invalid_patch, hunk_ended}
use young_agent.Patch.Apply.{Patching, poll}
use young_agent.Agent.Action.{fail, ◌>>◌}
use young_agent.Patch.Body.{
  Seen, with_lines, strip_line, strip_end, strip_last_line_ending, push_line, is_incomplete,
  check_counts, is_newline_marker, read_lines, end_hunk, read_hunk, start,
}

-- The line starts with a character of one byte.
abbrev pub is_cut : String → Bool
is_cut String.[] = false
is_cut (String.◌∷◌ c s) = ltb (code c) 128

abbrev pub all_cut : List String → Bool
all_cut [] = true
all_cut (line ∷ rest) = is_cut line && all_cut rest

all_cut-tail :
    (line : String) (rest : List String)
    → all_cut (line ∷ rest) ≡ true
    → (is_cut line ≡ true) × (all_cut rest ≡ true)
all_cut-tail line rest h =
    split (is_cut line) (λ q. (q, sym (rw q refl) ∙ h))
      λ q. absurd (let g : false ≡ true = sym (rw q refl) ∙ h in cc)

abbrev pub olds : List PatchLine → ℕ
olds lines = length (old_side lines)

abbrev pub news : List PatchLine → ℕ
news lines = length (new_side lines)

pub olds-++ : (a b : List PatchLine) → olds (a ++ b) ≡ olds a + olds b
olds-++ [] b = omega arith
olds-++ (PatchLine.context line ∷ a) b = omega (arith, olds-++ a b)
olds-++ (PatchLine.remove line ∷ a) b = omega (arith, olds-++ a b)
olds-++ (PatchLine.add line ∷ a) b = olds-++ a b

pub news-++ : (a b : List PatchLine) → news (a ++ b) ≡ news a + news b
news-++ [] b = omega arith
news-++ (PatchLine.context line ∷ a) b = omega (arith, news-++ a b)
news-++ (PatchLine.remove line ∷ a) b = news-++ a b
news-++ (PatchLine.add line ∷ a) b = omega (arith, news-++ a b)

abbrev Same : List PatchLine → List PatchLine → Type 0
Same a b = (olds a ≡ olds b) × (news a ≡ news b)

-- A longer list by the same line.
Same-cons : (l : PatchLine) (a b : List PatchLine) → Same a b → Same (l ∷ a) (l ∷ b)
Same-cons (PatchLine.context line) a b (p, q) = (ap suc p, ap suc q)
Same-cons (PatchLine.remove line) a b (p, q) = (ap suc p, q)
Same-cons (PatchLine.add line) a b (p, q) = (p, ap suc q)

strip_line-Same : (l : PatchLine) → Same (strip_line l ∷ []) (l ∷ [])
strip_line-Same (PatchLine.context line) = (refl, refl)
strip_line-Same (PatchLine.remove line) = (refl, refl)
strip_line-Same (PatchLine.add line) = (refl, refl)

strip_end-Same : (l : PatchLine) (rest : List PatchLine) → Same (strip_end l rest) (l ∷ rest)
strip_end-Same l [] = strip_line-Same l
strip_end-Same l (m ∷ rest) = Same-cons l (strip_end m rest) (m ∷ rest) (strip_end-Same m rest)

-- A hunk has as many lines on each side as it says.
abbrev pub IsCounted : Hunk → Type 0
IsCounted h = (h.old_count ≡ length (old_side h.lines)) × (h.new_count ≡ length (new_side h.lines))

module _ (old_count new_count : ℕ) where
  -- The hunk has the numbers of its header, and as many lines on each side as it says.
  abbrev pub IsRead : ℕ → Hunk → Type 0
  IsRead old_start h =
      (h.old_start ≡ old_start)
      × (h.old_count ≡ old_count)
      × (h.new_count ≡ new_count)
      × IsCounted h

module _ (cancels : ℕ → Bool) (old_count new_count : ℕ) where
  -- What was seen is what the lines are, and it fits the header.
  abbrev Fits : Seen → Type 0
  Fits s =
      (s.old_seen ≡ olds s.hunk_lines)
      × (s.new_seen ≡ news s.hunk_lines)
      × (s.old_seen ≤ old_count)
      × (s.new_seen ≤ new_count)

  -- The lines are as many as the header says.
  abbrev pub HasCounts : List PatchLine → Type 0
  HasCounts lines = (old_count ≡ length (old_side lines)) × (new_count ≡ length (new_side lines))

  abbrev Any : {A : Type 0} → A → ℕ → Type 0
  Any e time = Unit {0}

  strip_last_line_ending-Same :
      (lines : List PatchLine) (time : ℕ)
      → Gives Any (λ stripped t. Same stripped lines) (strip_last_line_ending lines time)
  strip_last_line_ending-Same [] time = tt
  strip_last_line_ending-Same (l ∷ rest) time = strip_end-Same l rest

  -- One more line is seen where it is added.
  push_line-Fits :
      (line : String) (s : Seen) (time : ℕ)
      → is_cut line ≡ true
      → (s.old_seen ≡ olds s.hunk_lines) × (s.new_seen ≡ news s.hunk_lines)
      → Gives Any
          (λ seen t.
            (seen.old_seen ≡ olds seen.hunk_lines) × (seen.new_seen ≡ news seen.hunk_lines))
          (push_line line s time)
  unfolding push_line
  push_line-Fits String.[] s time c f = absurd (cc)
  push_line-Fits (String.◌∷◌ c content) s time cut (f, g) =
      split (eqb (code c) 32)
        (λ q. rw q (
          omega (arith, olds-++ s.hunk_lines (PatchLine.context content ∷ [])),
          omega (arith, news-++ s.hunk_lines (PatchLine.context content ∷ [])),
        ))
        λ q. rw q (
          split (eqb (code c) 45)
            (λ q. rw q (
              omega (arith, olds-++ s.hunk_lines (PatchLine.remove content ∷ [])),
              omega (arith, news-++ s.hunk_lines (PatchLine.remove content ∷ [])),
            ))
            λ q. rw q (
              split (eqb (code c) 43)
                (λ q. rw q (
                  omega (arith, olds-++ s.hunk_lines (PatchLine.add content ∷ [])),
                  omega (arith, news-++ s.hunk_lines (PatchLine.add content ∷ [])),
                ))
                λ q. rw (q, cut) tt))

  check_counts-Fits :
      (s : Seen) (time : ℕ)
      → (s.old_seen ≡ olds s.hunk_lines) × (s.new_seen ≡ news s.hunk_lines)
      → Gives Any (λ (u : Unit {0}) t. Fits s) (check_counts old_count new_count s time)
  check_counts-Fits s time (f, g) =
      split (ltb old_count s.old_seen || ltb new_count s.new_seen) (λ q. rw q tt)
        λ q. rw q (f, g, ground arith, ground arith)

  complete :
      (s : Seen) → Fits s → is_incomplete old_count new_count s ≡ false → HasCounts s.hunk_lines
  complete s (f, g, h, k) q = (ground arith, ground arith)

  poll_then :
      {A : Type 0} (Q : A → ℕ → Type 0) (time : ℕ) (k : Patching A)
      → ((t : ℕ) → Gives Any Q (k t))
      → Gives Any Q ((poll cancels >> k) time)
  unfolding poll
  poll_then Q time k h = split (cancels time) (λ q. rw q tt) λ q. rw q (h (suc time))

  read_lines-Fits :
      (lines : List String) (s : Seen) (time : ℕ)
      → all_cut lines ≡ true
      → Fits s
      → Gives Any
          (λ p t. HasCounts p.0.hunk_lines)
          (read_lines cancels old_count new_count lines s time)
  unfolding read_lines
  read_lines-Fits [] s time c (f, g, h, k) =
      split (is_incomplete old_count new_count s)
        (λ q. rw q (poll_then _ time (fail (invalid_patch hunk_ended)) λ t. tt))
        λ q. rw q (complete s (f, g, h, k) q)
  read_lines-Fits (line ∷ rest) s time c (f, g, h, k) =
      let (cut, more) = all_cut-tail line rest c in
      split (is_incomplete old_count new_count s)
        (λ q. rw q (
          poll_then _ time _ λ t.
            split (is_newline_marker line)
              (λ q. rw q (
                Gives-bind _ _ (strip_last_line_ending s.hunk_lines t) _ (
                  Gives-weaken _ _ _ _ (strip_last_line_ending s.hunk_lines t) (λ e u n. tt)
                    (λ stripped u (m, n).
                      read_lines-Fits rest (with_lines s stripped) u more
                        (f ∙ sym m, g ∙ sym n, h, k))
                    (strip_last_line_ending-Same s.hunk_lines t))))
              λ q. rw q (
                Gives-bind _ _ (push_line line s t) _ (
                  Gives-weaken _ _ _ _ (push_line line s t) (λ e u n. tt)
                    (λ seen u n. Gives-bind _ _ (check_counts old_count new_count seen u) _ (
                      Gives-weaken _ _ _ _ (check_counts old_count new_count seen u) (λ e v o. tt)
                        (λ _ v fits. read_lines-Fits rest seen v more fits)
                        (check_counts-Fits seen u n)))
                    (push_line-Fits line s t cut (f, g))))))
        λ q. rw q (complete s (f, g, h, k) q)

  end_hunk-IsRead :
      (old_start : ℕ) (s : Seen) (lines : List String) (time : ℕ)
      → HasCounts s.hunk_lines
      → Gives Any
          (λ p t. IsRead old_count new_count old_start p.0)
          (end_hunk cancels old_count new_count old_start s lines time)
  unfolding end_hunk
  end_hunk-IsRead old_start s [] time h = (refl, refl, refl, h)
  end_hunk-IsRead old_start s (line ∷ rest) time h =
      split (is_newline_marker line)
        (λ q. rw q (
          Gives-bind _ _ (strip_last_line_ending s.hunk_lines time) _ (
            Gives-weaken _ _ _ _ (strip_last_line_ending s.hunk_lines time) (λ e u n. tt)
              (λ stripped u (m, n). (refl, refl, refl, (h.0 ∙ sym m, h.1 ∙ sym n)))
              (strip_last_line_ending-Same s.hunk_lines time))))
        λ q. rw q (refl, refl, refl, h)

  -- Where every line starts with a character of one byte, the lines of a hunk are read without a
  -- panic, and a hunk that is read has as many lines on each side as its header says.
  pub read_hunk-IsRead :
      (old_start : ℕ) (lines : List String) (time : ℕ)
      → all_cut lines ≡ true
      → Gives
          (λ e t. Unit {0})
          (λ p t. IsRead old_count new_count old_start p.0)
          (read_hunk cancels old_count new_count old_start lines time)
  unfolding read_hunk
  read_hunk-IsRead old_start lines time c =
      Gives-bind _ _ (read_lines cancels old_count new_count lines start time) _ (
        Gives-weaken _ _ _ _ (read_lines cancels old_count new_count lines start time) (λ e t n. tt)
          (λ p t h. end_hunk-IsRead old_start p.0 p.1 t h)
          (read_lines-Fits lines start time c (refl, refl, omega arith, omega arith)))
