-- ===== src/Patch/Apply/Sound.antt =====
-- crates/capability-coding/src/patch.rs: a patch that is applied replaces what its hunks expect.
use Prim.Native.String.append
use young_agent.Prelude.{
  ℕ, ◌+◌, ◌-◌, ◌≤◌, ◌≡◌, refl, sym, ap, ◌∙◌, subst, String, Bool, false, List, [], ◌∷◌, ◌++◌, ltb,
  eqb, eqb_iff, length, drop, split, arith,
}
use mathlib.Core.List.{append_assoc as list_append_assoc}
use young_agent.Prelude.Text.{push_str}
use text.Mathlib.TextLemmas.{append_assoc}
use young_agent.Agent.Action.Gives.{Gives, Gives-bind}
use young_agent.Store.Bytes.{take, length-take, length-drop}
use young_agent.Patch.Lines.{join, join-append, split_inclusive, take-drop, drop-drop}
use young_agent.Patch.Hunk.{Hunk, old_side, new_side, start_of}
use young_agent.Patch.Diff.{AllNumbered, Patched, Spliced, kept_all, spliced, Patched-of_Spliced}
use young_agent.Patch.Apply.{
  Progress, poll, copy_lines, apply_lines, replace_lines, apply_hunk, apply_from, apply_hunks,
}
use young_agent.Patch.Apply.Lines.{Any, Passed, poll-Gives, copy_lines-Gives, apply_lines_sound}

module _ (cancels : ℕ → Bool) (original_lines : List String) where
  -- What one hunk has done when the cursor went from one line to another.
  pub record Replaced (h : Hunk) (output : String) (cursor : ℕ) (output' : String) (cursor' : ℕ)
      : Type 0 where
    pub kept : List String
    pub starts : start_of h ≡ cursor + length kept
    pub old_counts : h.old_count ≡ length (old_side h.lines)
    pub new_counts : h.new_count ≡ length (new_side h.lines)
    pub reads :
        drop cursor original_lines ≡ kept ++ (old_side h.lines ++ drop cursor' original_lines)
    pub ends : cursor' ≡ cursor + length kept + length (old_side h.lines)
    pub writes : output' ≡ push_str output (join (kept ++ new_side h.lines))

  -- The lines between the cursor and the start of the hunk.
  module _ (h : Hunk) (output : String) (cursor : ℕ) (after : ltb (start_of h) cursor ≡ false)
      (inside : ltb (length original_lines) (start_of h) ≡ false) where
    abbrev pub between : List String
    between = take (start_of h - cursor) (drop cursor original_lines)

    between-length : start_of h ≡ cursor + length between
    between-length =
        let room : start_of h - cursor ≤ length (drop cursor original_lines) =
          ground (arith, length-drop cursor original_lines) in
        ground (arith, length-take (start_of h - cursor) (drop cursor original_lines) room)

    between-drop : drop cursor original_lines ≡ between ++ drop (start_of h) original_lines
    between-drop =
        let there : cursor + (start_of h - cursor) ≡ start_of h = ground arith in
        sym (take-drop (start_of h - cursor) (drop cursor original_lines))
        ∙ ap (λ zs. between ++ zs)
            (drop-drop cursor (start_of h - cursor) original_lines
              ∙ ap (λ n. drop n original_lines) there)

    pub made-Replaced :
        (p : Progress)
        → Passed original_lines h.lines
            (record {
              output = push_str output (join between);
              cursor = start_of h;
              old_seen = 0;
              new_seen = 0;
            })
            p
        → h.old_count ≡ p.old_seen
        → h.new_count ≡ p.new_seen
        → (r : Replaced h output cursor p.output p.cursor) × (r.kept ≡ between)
    made-Replaced p k olds news = (
      record {
        kept = between;
        starts = between-length;
        old_counts = omega (arith, k.old_seen, olds);
        new_counts = omega (arith, k.new_seen, news);
        reads = between-drop ∙ ap (λ zs. between ++ zs) k.reads;
        ends = omega (arith, k.cursor, between-length);
        writes =
            k.writes
            ∙ append_assoc output (join between) (join (new_side h.lines))
            ∙ ap (push_str output) (sym (join-append between (new_side h.lines)));
      },
      refl,
    )

    replace_lines_sound :
        (Q : String × ℕ → ℕ → Type 0) (time : ℕ)
        → ((o : String) (c t : ℕ) → Replaced h output cursor o c → Q (o, c) t)
        → Gives (Any cancels original_lines) Q (
            replace_lines cancels original_lines h
              (start_of h)
              (push_str output (join between))
              time)
    unfolding replace_lines
    replace_lines_sound Q time g =
        Gives-bind (Any cancels original_lines) Q
          (apply_lines cancels original_lines h.lines
            (record {
              output = push_str output (join between);
              cursor = start_of h;
              old_seen = 0;
              new_seen = 0;
            })
            time)
          _
          (apply_lines_sound cancels original_lines h.lines _ _ time λ p t k.
            split (eqb p.old_seen h.old_count)
              (λ q.
                split (eqb p.new_seen h.new_count)
                  (λ q'.
                    simp (q, q')
                      (g p.output p.cursor t
                        (made-Replaced p k (sym ((eqb_iff _ _).0 q)) (sym ((eqb_iff _ _).0 q'))).0))
                  λ q'. simp (q, q') tt)
              λ q. simp (q) tt)

  apply_hunk_sound :
      (h : Hunk) (output : String) (cursor : ℕ) (Q : String × ℕ → ℕ → Type 0) (time : ℕ)
      → ((o : String) (c t : ℕ) → Replaced h output cursor o c → Q (o, c) t)
      → Gives
          (Any cancels original_lines)
          Q
          (apply_hunk cancels original_lines h output cursor time)
  unfolding apply_hunk
  apply_hunk_sound h output cursor Q time g =
      Gives-bind (Any cancels original_lines) Q (poll cancels time) _ (
        poll-Gives cancels (Any cancels original_lines) (λ t q. tt) _ time
          λ t.
            split (ltb (start_of h) cursor) (λ q. simp (q) tt)
              λ q.
                split (ltb (length original_lines) (start_of h)) (λ q'. simp (q, q') tt)
                  λ q'.
                    simp (q, q')
                      (Gives-bind (Any cancels original_lines) Q
                        (copy_lines cancels 0 (between h output cursor q q') output t) _
                        (copy_lines-Gives cancels (Any cancels original_lines) (λ t q. tt)
                          (between h output cursor q q') _ 0 output t
                          λ t'. replace_lines_sound h output cursor q q' Q t' g)))

  pub text_eq :
      {h : Hunk} {output o : String} {cursor c : ℕ} (k : Replaced h output cursor o c)
      (result : List String)
      → push_str output (join (k.kept ++ (new_side h.lines ++ result))) ≡ push_str o (join result)
  text_eq {h} {output} k result =
      let front = k.kept ++ new_side h.lines in
      ap (λ zs. push_str output (join zs))
        (sym (list_append_assoc k.kept (new_side h.lines) result))
      ∙ ap (push_str output) (join-append front result)
      ∙ sym (append_assoc output (join front) (join result))
      ∙ ap (λ text. push_str text (join result)) (sym k.writes)

  Spliced-cons :
      {h : Hunk} {output o : String} {cursor c : ℕ} {rest : List Hunk} {result : List String}
      (k : Replaced h output cursor o c)
      → Spliced c (drop c original_lines) rest result
      → Spliced cursor
          (drop cursor original_lines)
          (h ∷ rest)
          (k.kept ++ (new_side h.lines ++ result))
  Spliced-cons {h} {output} {o} {cursor} {c} {rest} {result} k p =
      subst (λ lines. Spliced cursor lines (h ∷ rest) (k.kept ++ (new_side h.lines ++ result)))
        (sym k.reads)
        (spliced h k.kept k.starts k.old_counts k.new_counts
          (subst (λ n. Spliced n (drop c original_lines) rest result) k.ends p))

  apply_from_sound :
      (hunks : List Hunk) (output : String) (cursor : ℕ) (Q : String → ℕ → Type 0) (time : ℕ)
      → ((result : List String) (t : ℕ)
          → Spliced cursor (drop cursor original_lines) hunks result
          → Q (push_str output (join result)) t)
      → Gives
          (Any cancels original_lines)
          Q
          (apply_from cancels original_lines hunks output cursor time)
  unfolding apply_from
  apply_from_sound [] output cursor Q time g =
      copy_lines-Gives cancels (Any cancels original_lines) (λ t q. tt) (drop cursor original_lines)
        Q 0 output time λ t. g (drop cursor original_lines) t kept_all
  apply_from_sound (h ∷ rest) output cursor Q time g =
      Gives-bind (Any cancels original_lines) Q
        (apply_hunk cancels original_lines h output cursor time) _
        (apply_hunk_sound h output cursor _ time λ o c t k.
          apply_from_sound rest o c Q t λ result t' p.
            subst (λ text. Q text t') (text_eq k result)
              (g (k.kept ++ (new_side h.lines ++ result)) t' (Spliced-cons k p)))

pub apply_hunks-Patched :
    (cancels : ℕ → Bool) (original : String) (hunks : List Hunk) (time : ℕ)
    → AllNumbered hunks
    → Gives
        (λ e t. Unit {0})
        (λ output t.
          (result : List String) × Patched 0 (split_inclusive original) hunks result
          × (output ≡ join result))
        (apply_hunks cancels original hunks time)
unfolding apply_hunks
apply_hunks-Patched cancels original hunks time numbered =
    apply_from_sound cancels (split_inclusive original) hunks "" 0 _ time
      λ result t p. (result, Patched-of_Spliced numbered p, append.nil (join result))
