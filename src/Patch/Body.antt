-- ===== src/Patch/Body.antt =====
-- crates/capability-coding/src/patch.rs: reading the lines of a hunk below its header. A line inside a
-- hunk is cut behind its first byte, which panics where that byte is only a part of a character.
pub mod Counts
pub mod RoundTrip
use Prim.Native.Char.{Char, code}
use young_agent.Prelude.{
  ℕ, suc, ◌+◌, String, Bool, true, false, ◌||◌, ◌&&◌, Option, none, some, List, [], ◌∷◌, ◌++◌, ok,
  panic, ltb, eqb, if◌then◌else◌,
}
use young_agent.Agent.Action.{pure, fail, ◌>>=◌, ◌>>◌}
use young_agent.Patch.Hunk.{
  PatchLine, Hunk, invalid_patch, hunk_ended, invalid_line, exceeds_counts, no_preceding_line,
}
use young_agent.Patch.Apply.{Patching, poll}

abbrev starts_with : String → String → Bool
starts_with String.[] line = true
starts_with (String.◌∷◌ p prefix) String.[] = false
starts_with (String.◌∷◌ p prefix) (String.◌∷◌ c line) =
    eqb (code p) (code c) && starts_with prefix line

abbrev pub is_newline_marker : String → Bool
is_newline_marker line = starts_with "\\ No newline at end of file" line

-- `ends_with(char)` and `pop()`, on the code point of the character.
abbrev ends_with : ℕ → String → Bool
ends_with k String.[] = false
ends_with k (String.◌∷◌ c String.[]) = eqb (code c) k
ends_with k (String.◌∷◌ c (String.◌∷◌ d s)) = ends_with k (String.◌∷◌ d s)

abbrev pop : String → String
pop String.[] = String.[]
pop (String.◌∷◌ c String.[]) = String.[]
pop (String.◌∷◌ c (String.◌∷◌ d s)) = String.◌∷◌ c (pop (String.◌∷◌ d s))

abbrev strip_if : ℕ → String → String
strip_if k s = if ends_with k s then pop s else s

abbrev pub strip_content : String → String
strip_content s = if ends_with 10 s then strip_if 13 (pop s) else s

abbrev pub strip_line : PatchLine → PatchLine
strip_line (PatchLine.context content) = PatchLine.context (strip_content content)
strip_line (PatchLine.remove content) = PatchLine.remove (strip_content content)
strip_line (PatchLine.add content) = PatchLine.add (strip_content content)

-- `lines` is `l ∷ rest`, so that there is a line to change.
abbrev pub strip_end : PatchLine → List PatchLine → List PatchLine
strip_end l [] = strip_line l ∷ []
strip_end l (m ∷ rest) = l ∷ strip_end m rest

abbrev pub strip_last_line_ending : List PatchLine → Patching (List PatchLine)
strip_last_line_ending [] = fail (invalid_patch no_preceding_line)
strip_last_line_ending (l ∷ rest) = pure (strip_end l rest)

-- The variables of the loop.
pub record Seen : Type 0 where
  pub old_seen : ℕ
  pub new_seen : ℕ
  pub hunk_lines : List PatchLine

abbrev pub with_lines : Seen → List PatchLine → Seen
with_lines s hunk_lines = record {
  old_seen = s.old_seen;
  new_seen = s.new_seen;
  hunk_lines = hunk_lines;
}

abbrev pub see_context : String → Seen → Seen
see_context content s = record {
  old_seen = suc s.old_seen;
  new_seen = suc s.new_seen;
  hunk_lines = s.hunk_lines ++ PatchLine.context content ∷ [];
}

abbrev pub see_remove : String → Seen → Seen
see_remove content s = record {
  old_seen = suc s.old_seen;
  new_seen = s.new_seen;
  hunk_lines = s.hunk_lines ++ PatchLine.remove content ∷ [];
}

abbrev pub see_add : String → Seen → Seen
see_add content s = record {
  old_seen = s.old_seen;
  new_seen = suc s.new_seen;
  hunk_lines = s.hunk_lines ++ PatchLine.add content ∷ [];
}

-- `line.split_at(1)` and the match on the prefix.
unfoldable pub push_line : String → Seen → Patching Seen
push_line String.[] s time = (panic, time)
push_line (String.◌∷◌ c content) s time =
    if eqb (code c) 32
    then (ok (see_context content s), time)
    else if eqb (code c) 45
    then (ok (see_remove content s), time)
    else if eqb (code c) 43
    then (ok (see_add content s), time)
    else if ltb (code c) 128
    then fail (invalid_patch (invalid_line (String.◌∷◌ c content))) time
    else (panic, time)

abbrev pub start : Seen
start = record { old_seen = 0; new_seen = 0; hunk_lines = [] }

module _ (old_count new_count : ℕ) where
  abbrev pub is_incomplete : Seen → Bool
  is_incomplete s = ltb s.old_seen old_count || ltb s.new_seen new_count

  abbrev pub check_counts : Seen → Patching (Unit {0})
  check_counts s =
      if ltb old_count s.old_seen || ltb new_count s.new_seen
      then fail (invalid_patch exceeds_counts)
      else pure tt

  abbrev pub close_hunk : ℕ → List PatchLine → Hunk
  close_hunk old_start hunk_lines = record {
    old_start = old_start;
    old_count = old_count;
    new_count = new_count;
    lines = hunk_lines;
  }

module _ (cancels : ℕ → Bool) (old_count new_count : ℕ) where
  -- The loop over the lines of a hunk, with the lines that it leaves.
  unfoldable pub read_lines : List String → Seen → Patching (Seen × List String)
  read_lines [] s =
      if is_incomplete old_count new_count s
      then (poll cancels >> fail (invalid_patch hunk_ended))
      else pure (s, [])
  read_lines (line ∷ rest) s =
      if is_incomplete old_count new_count s
      then (do
        poll cancels
        if is_newline_marker line
            then (strip_last_line_ending s.hunk_lines >>= λ hunk_lines.
                read_lines rest (with_lines s hunk_lines))
            else (push_line line s >>= λ seen.
                check_counts old_count new_count seen >> read_lines rest seen))
      else pure (s, line ∷ rest)

  -- The marker behind the last line of a hunk.
  unfoldable pub end_hunk : ℕ → Seen → List String → Patching (Hunk × List String)
  end_hunk old_start s [] = pure (close_hunk old_count new_count old_start s.hunk_lines, [])
  end_hunk old_start s (line ∷ rest) =
      if is_newline_marker line
      then (do
        hunk_lines ← strip_last_line_ending s.hunk_lines
        pure (close_hunk old_count new_count old_start hunk_lines, rest))
      else pure (close_hunk old_count new_count old_start s.hunk_lines, line ∷ rest)

  -- A hunk below its header, with the lines that follow it.
  unfoldable pub read_hunk : ℕ → List String → Patching (Hunk × List String)
  read_hunk old_start lines = do p ← read_lines lines start; end_hunk old_start (p.0) (p.1)
