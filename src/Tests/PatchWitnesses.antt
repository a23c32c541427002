-- ===== src/Tests/PatchWitnesses.antt =====
-- The theorems on crates/capability-coding/src/patch.rs at a hunk that changes the second of three lines.
use young_agent.Prelude.{ℕ, false, true, Bool, List, [], ◌∷◌, ◌≡◌, refl, String, some, ok}
use young_agent.Agent.Action.Gives.{Gives}
use young_agent.Patch.Lines.{join, split_inclusive}
use young_agent.Patch.Hunk.{Hunk, FilePatch, PatchLine, cancelled, target_path}
use young_agent.Patch.Diff.{AllNumbered, Patched, unchanged, replaced}
use young_agent.Patch.Apply.{apply_hunks, prepare_change}
use young_agent.Patch.Apply.Complete.{apply_hunks-of_Patched}
use young_agent.Patch.Apply.Target.{Changes, prepare_change-Changes}
use young_agent.Patch.Body.{read_hunk, read_lines, push_line, end_hunk}
use young_agent.Patch.Apply.{poll}
use young_agent.Patch.Body.Counts.{IsRead, read_hunk-IsRead}
use young_agent.Patch.Body.RoundTrip.{print_line, read_hunk-print_line}
use young_agent.Prelude.{map, ◌++◌, panic}
use young_agent.Patch.Range.{parse_range, parse_range-decimal}
use young_agent.Prelude.Text.{push_str}
use young_agent.Prelude.Decimal.{decimal}
use young_agent.Prelude.{arith, inl}

abbrev never : ℕ → Bool
never n = false

abbrev sample_text : String
sample_text = "one\ntwo\nthree\n"

abbrev sample_hunk : Hunk
sample_hunk = record {
  old_start = 2;
  old_count = 1;
  new_count = 2;
  lines = PatchLine.remove "two\n" ∷ PatchLine.add "2\n" ∷ PatchLine.add "2.5\n" ∷ [];
}

sample_run : (apply_hunks never sample_text (sample_hunk ∷ []) 0).0 ≡ ok "one\n2\n2.5\nthree\n"
unfolding apply_hunks
sample_run = refl

abbrev sample_result : List String
sample_result = "one\n" ∷ "2\n" ∷ "2.5\n" ∷ "three\n" ∷ []

sample_Patched : Patched 0 (split_inclusive sample_text) (sample_hunk ∷ []) sample_result
sample_Patched = replaced sample_hunk ("one\n" ∷ []) (inl (omega arith, refl)) refl refl unchanged

sample_AllNumbered : AllNumbered (sample_hunk ∷ [])
sample_AllNumbered = (((λ h. absurd (omega (arith, h))), λ h. absurd (omega (arith, h))), tt)

-- The old path names the same file in another way.
abbrev sample_patch : FilePatch
sample_patch = record {
  old_path = some "d//./n.txt";
  new_path = some "d/n.txt";
  hunks = sample_hunk ∷ [];
}

apply_hunks-of_Patched_example :
    Gives
      (λ e t. (e ≡ cancelled) × ((n : ℕ) × (never n ≡ true)))
      (λ output t. output ≡ join sample_result)
      (apply_hunks never sample_text (sample_hunk ∷ []) 0)
apply_hunks-of_Patched_example =
    apply_hunks-of_Patched never sample_text (sample_hunk ∷ []) sample_result 0 sample_AllNumbered
      sample_Patched

sample_target : target_path sample_patch ≡ ok "d/n.txt"
unfolding target_path
sample_target = refl

prepare_change-Changes_example :
    Gives
      (λ e t. Unit {0})
      (λ output t. Changes sample_patch (some sample_text) "d/n.txt" output)
      (prepare_change never sample_patch (some sample_text) 0)
prepare_change-Changes_example =
    prepare_change-Changes never sample_patch (some sample_text) 0 "d/n.txt" sample_AllNumbered
      sample_target

-- The insertion behind line 2, as a diff without context prints it, is made before line 2.
abbrev sample_insertion : Hunk
sample_insertion = record {
  old_start = 2;
  old_count = 0;
  new_count = 1;
  lines = PatchLine.add "x\n" ∷ [];
}

sample_inserted_early :
    (apply_hunks never sample_text (sample_insertion ∷ []) 0).0 ≡ ok "one\nx\ntwo\nthree\n"
unfolding apply_hunks
sample_inserted_early = refl

parse_range-decimal_example :
    parse_range (push_str (decimal 12) (push_str "," (decimal 3))) ≡ ok (12, 3)
parse_range-decimal_example = parse_range-decimal 12 3 (omega arith) (omega arith)

-- A count that is left out is one.
sample_short : parse_range "7" ≡ ok (7, 1)
unfolding parse_range
sample_short = refl

-- The lines of a hunk, its last one without an end, and a line behind it.
abbrev sample_lines : List String
sample_lines = " a\n" ∷ "-b\n" ∷ "+c\n" ∷ "\\ No newline at end of file\n" ∷ "--- x\n" ∷ []

sample_read :
    (read_hunk never 2 2 1 sample_lines 0).0
    ≡ ok (
      record {
        old_start = 1;
        old_count = 2;
        new_count = 2;
        lines = PatchLine.context "a\n" ∷ PatchLine.remove "b\n" ∷ PatchLine.add "c" ∷ [];
      },
      "--- x\n" ∷ [],
    )
unfolding read_hunk read_lines poll push_line end_hunk
sample_read = refl

-- A character of two bytes at the start of a line is cut in two.
sample_panic : (read_hunk never 2 2 1 (" a\n" ∷ "éb\n" ∷ []) 0).0 ≡ panic
unfolding read_hunk read_lines poll push_line end_hunk
sample_panic = refl

read_hunk-IsRead_example :
    Gives (λ e t. Unit {0}) (λ p t. IsRead 2 2 1 p.0) (read_hunk never 2 2 1 sample_lines 0)
read_hunk-IsRead_example = read_hunk-IsRead never 2 2 1 sample_lines 0 refl

read_hunk-print_line_example :
    Gives
      (λ e t. (e ≡ cancelled) × ((n : ℕ) × (never n ≡ true)))
      (λ p t. p ≡ (sample_hunk, "--- x\n" ∷ []))
      (read_hunk never 1 2 2 (map print_line sample_hunk.lines ++ "--- x\n" ∷ []) 0)
read_hunk-print_line_example =
    read_hunk-print_line never sample_hunk ("--- x\n" ∷ []) 0 (refl, refl) refl
