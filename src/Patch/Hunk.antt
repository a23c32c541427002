-- ===== src/Patch/Hunk.antt =====
-- crates/capability-coding/src/patch.rs: the data of a parsed patch, and its errors.
use young_agent.Prelude.{
  ℕ, ◌-◌, String, Option, none, some, List, [], ◌∷◌, Outcome, ok, err, string_eq, if◌then◌else◌,
}
use young_agent.Patch.Paths.{same_path}

pub data PatchLine : Type 0 where
  context : String → PatchLine
  remove : String → PatchLine
  add : String → PatchLine

pub record Hunk : Type 0 where
  pub old_start : ℕ
  pub old_count : ℕ
  pub new_count : ℕ
  pub lines : List PatchLine

pub record FilePatch : Type 0 where
  pub old_path : Option String
  pub new_path : Option String
  pub hunks : List Hunk

-- What the text of an error tells, before it is cut and formatted.
pub data Problem : Type 0 where
  out_of_order : ℕ → Problem
  context_mismatch : ℕ → String → String → Problem
  file_ended : ℕ → Problem
  wrong_counts : Problem
  rename : String → String → Problem
  no_path : Problem
  target_exists : Problem
  source_missing : Problem
  deletion : Problem
  range_start : String → Problem
  range_count : String → Problem
  hunk_ended : Problem
  invalid_line : String → Problem
  exceeds_counts : Problem
  no_preceding_line : Problem

-- The variants that tell of files and their limits are left out.
pub data PatchError : Type 0 where
  invalid_patch : Problem → PatchError
  conflict : Problem → PatchError
  cancelled : PatchError

-- The lines that a hunk expects, and those that it leaves.
abbrev pub old_side : List PatchLine → List String
old_side [] = []
old_side (PatchLine.context line ∷ rest) = line ∷ old_side rest
old_side (PatchLine.remove line ∷ rest) = line ∷ old_side rest
old_side (PatchLine.add line ∷ rest) = old_side rest

abbrev pub new_side : List PatchLine → List String
new_side [] = []
new_side (PatchLine.context line ∷ rest) = line ∷ new_side rest
new_side (PatchLine.remove line ∷ rest) = new_side rest
new_side (PatchLine.add line ∷ rest) = line ∷ new_side rest

-- The index of the first line of a hunk, as the code has it.
abbrev pub start_of : Hunk → ℕ
start_of h = h.old_start - 1

unfoldable pub target_path : FilePatch → Outcome PatchError String
target_path p = elim p.old_path [
  | some old ↦ elim p.new_path [
    | some new ↦
        if same_path old new then ok new else err (PatchError.invalid_patch (rename old new))
    | none ↦ ok old
  ]
  | none ↦ elim p.new_path [ some new ↦ ok new | none ↦ err (PatchError.invalid_patch no_path) ]
]
