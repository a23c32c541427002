-- ===== src/Patch/Apply.antt =====
-- crates/capability-coding/src/patch.rs: applying the hunks of one file patch to the text of the file.
-- Another thread may cancel: `cancels` has what the flag is each time that it is read.
pub mod Lines
pub mod Sound
pub mod Complete
pub mod Target
use young_agent.Prelude.{
  ℕ, zero, suc, ◌+◌, ◌-◌, ◌%◌, String, Bool, true, false, ◌||◌, ◌&&◌, not, Option, none, some, List,
  [], ◌∷◌, ok, err, string_eq, ◌==◌, ltb, eqb, length, drop, get_elem?, if◌then◌else◌,
}
use young_agent.Prelude.Text.{push_str}
use young_agent.Agent.Action.{Action, pure, fail, ◌>>=◌, ◌>>◌}
use young_agent.Store.Bytes.{take}
use young_agent.Patch.Lines.{split_inclusive}
use young_agent.Patch.Hunk.{
  PatchLine, Hunk, FilePatch, PatchError, conflict, invalid_patch, cancelled, out_of_order,
  context_mismatch, file_ended, wrong_counts, target_exists, source_missing, deletion, start_of,
}

-- The variables of the loops.
pub record Progress : Type 0 where
  pub output : String
  pub cursor : ℕ
  pub old_seen : ℕ
  pub new_seen : ℕ

abbrev pub Patching : Type 0 → Type 0
Patching A = Action ℕ PatchError A

-- `original_lines.get(index)`
abbrev pub require_line : ℕ → String → Option String → Patching (Unit {0})
require_line index expected none = fail (PatchError.conflict (file_ended (index + 1)))
require_line index expected (some actual) =
    if actual == expected
    then pure tt
    else fail (PatchError.conflict (context_mismatch (index + 1) expected actual))

module _ (cancels : ℕ → Bool) where
  -- `if cancellation.load(Ordering::Relaxed)`
  unfoldable pub poll : Patching (Unit {0})
  poll time = if cancels time then (err cancelled, suc time) else (ok tt, suc time)

  -- A loop that copies lines.
  unfoldable pub copy_lines : ℕ → List String → String → Patching String
  unfolding poll
  copy_lines index [] output = pure output
  copy_lines index (line ∷ rest) output = do
    (if eqb (index % 1024) 0 then poll else pure tt)
    copy_lines (suc index) rest (push_str output line)

module _ (cancels : ℕ → Bool) (original_lines : List String) where
  unfoldable pub require_original_line : ℕ → String → Patching (Unit {0})
  require_original_line index expected =
      require_line index expected (get_elem? original_lines index)

  -- `match line`
  unfoldable pub apply_line : PatchLine → Progress → Patching Progress
  unfolding require_original_line
  apply_line (PatchLine.context expected) p = do
    require_original_line p.cursor expected
    pure (record {
      output = push_str p.output expected;
      cursor = p.cursor + 1;
      old_seen = p.old_seen + 1;
      new_seen = p.new_seen + 1;
    })
  apply_line (PatchLine.remove expected) p = do
    require_original_line p.cursor expected
    pure (record p { cursor = p.cursor + 1; old_seen = p.old_seen + 1 })
  apply_line (PatchLine.add added) p =
      pure (record p { output = push_str p.output added; new_seen = p.new_seen + 1 })

  unfoldable pub apply_lines : List PatchLine → Progress → Patching Progress
  unfolding poll apply_line
  apply_lines [] p = pure p
  apply_lines (line ∷ rest) p = do poll cancels; p' ← apply_line line p; apply_lines rest p'

  -- What follows the lines that stay.
  unfoldable pub replace_lines : Hunk → ℕ → String → Patching (String × ℕ)
  unfolding apply_lines
  replace_lines hunk start output = do
    p ←
        apply_lines hunk.lines
          (record { output = output; cursor = start; old_seen = 0; new_seen = 0 })
    (if not (eqb p.old_seen hunk.old_count) || not (eqb p.new_seen hunk.new_count)
        then fail (PatchError.invalid_patch wrong_counts)
        else pure (p.output, p.cursor))

  unfoldable pub apply_hunk : Hunk → String → ℕ → Patching (String × ℕ)
  unfolding poll copy_lines replace_lines
  apply_hunk hunk output cursor = do
    poll cancels
    (if ltb (start_of hunk) cursor || ltb (length original_lines) (start_of hunk)
        then fail (PatchError.conflict (out_of_order hunk.old_start))
        else (copy_lines cancels 0 (take (start_of hunk - cursor) (drop cursor original_lines))
              output
            >>= λ copied. replace_lines hunk (start_of hunk) copied))

  -- The loop over the hunks, and the lines after the last of them.
  unfoldable pub apply_from : List Hunk → String → ℕ → Patching String
  unfolding apply_hunk copy_lines
  apply_from [] output cursor = copy_lines cancels 0 (drop cursor original_lines) output
  apply_from (hunk ∷ rest) output cursor = do
    (output', cursor') ← apply_hunk hunk output cursor
    apply_from rest output' cursor'

module _ (cancels : ℕ → Bool) where
  unfoldable pub apply_hunks : String → List Hunk → Patching String
  unfolding apply_from
  apply_hunks original hunks = apply_from cancels (split_inclusive original) hunks "" 0

  unfoldable pub prepare_change : FilePatch → Option String → Patching String
  unfolding apply_hunks
  prepare_change p none = elim p.old_path [
    | some old ↦ fail (PatchError.conflict source_missing)
    | none ↦ apply_hunks "" p.hunks
  ]
  prepare_change p (some original) = elim p.old_path [
    | none ↦ elim p.new_path [
      | some new ↦ fail (PatchError.conflict target_exists)
      | none ↦ apply_hunks original p.hunks
    ]
    | some old ↦ elim p.new_path [
      | none ↦ fail (PatchError.invalid_patch deletion)
      | some new ↦ apply_hunks original p.hunks
    ]
  ]
