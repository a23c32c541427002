-- ===== src/Patch/Diff.antt =====
-- What the hunks of a unified diff make of a text, and where crates/capability-coding/src/patch.rs puts them.
use young_agent.Prelude.{
  ℕ, ◌+◌, ◌<◌, ◌≡◌, ◌⊎◌, ◌↔◌, inl, inr, String, List, [], ◌∷◌, ◌++◌, length, split, eqb, arith,
}
use young_agent.Patch.Hunk.{Hunk, old_side, new_side, start_of}

-- A hunk stands at index `n`: its header has the number of the first line that it expects, and the lines
-- are numbered from 1; if it expects no line, the header has the number of the line that it stands behind.
abbrev pub StandsAt : Hunk → ℕ → Type 0
StandsAt h n = ((0 < h.old_count) × (h.old_start ≡ n + 1)) ⊎ ((h.old_count ≡ 0) × (h.old_start ≡ n))

-- What the hunks make of the lines from index `at` on: the lines before a hunk stay, and those that it
-- expects are replaced.
pub data Patched : ℕ → List String → List Hunk → List String → Type 0 where
  unchanged : {at : ℕ} {lines : List String} → Patched at lines [] lines
  replaced :
      {at : ℕ} {rest result : List String} {hunks : List Hunk} (h : Hunk) (kept : List String)
      → StandsAt h (at + length kept)
      → h.old_count ≡ length (old_side h.lines)
      → h.new_count ≡ length (new_side h.lines)
      → Patched (at + length kept + length (old_side h.lines)) rest hunks result
      → Patched at
          (kept ++ (old_side h.lines ++ rest))
          (h ∷ hunks)
          (kept ++ (new_side h.lines ++ result))

-- A hunk that expects lines has the number of the first one, and one that expects none has the number 0: it
-- stands at the beginning of the file.
abbrev pub IsNumbered : Hunk → Type 0
IsNumbered h = (h.old_count ≡ 0) ↔ (h.old_start ≡ 0)

abbrev pub AllNumbered : List Hunk → Type 0
AllNumbered [] = Unit
AllNumbered (h ∷ rest) = IsNumbered h × AllNumbered rest

-- The same with the places of the code.
pub data Spliced : ℕ → List String → List Hunk → List String → Type 0 where
  kept_all : {at : ℕ} {lines : List String} → Spliced at lines [] lines
  spliced :
      {at : ℕ} {rest result : List String} {hunks : List Hunk} (h : Hunk) (kept : List String)
      → start_of h ≡ at + length kept
      → h.old_count ≡ length (old_side h.lines)
      → h.new_count ≡ length (new_side h.lines)
      → Spliced (at + length kept + length (old_side h.lines)) rest hunks result
      → Spliced at
          (kept ++ (old_side h.lines ++ rest))
          (h ∷ hunks)
          (kept ++ (new_side h.lines ++ result))

start_of-StandsAt : (h : Hunk) (n : ℕ) → IsNumbered h → start_of h ≡ n → StandsAt h n
start_of-StandsAt h n (f, g) q =
    split (eqb h.old_count 0)
      (λ z.
        let none_expected : h.old_count ≡ 0 = ground arith in
        inr (none_expected, omega (arith, f none_expected, q)))
      λ z.
        let some_expected : 0 < h.old_count = ground arith in
        split (eqb h.old_start 0)
          (λ y. absurd (
            let zero_start : h.old_start ≡ 0 = ground arith in
            omega (arith, g zero_start, some_expected)))
          λ y. inl (some_expected, ground arith)

StandsAt-start_of : (h : Hunk) (n : ℕ) → IsNumbered h → StandsAt h n → start_of h ≡ n
StandsAt-start_of h n (f, g) (inl (some_expected, q)) = omega (arith, q)
StandsAt-start_of h n (f, g) (inr (none_expected, q)) = omega (arith, q, f none_expected)

pub Patched-of_Spliced :
    {at : ℕ} {lines result : List String} {hunks : List Hunk}
    → AllNumbered hunks
    → Spliced at lines hunks result
    → Patched at lines hunks result
Patched-of_Spliced n kept_all = unchanged
Patched-of_Spliced n (spliced {at} h kept starts olds news p) =
    replaced h kept (start_of-StandsAt h (at + length kept) n.0 starts) olds news
      (Patched-of_Spliced n.1 p)

pub Spliced-of_Patched :
    {at : ℕ} {lines result : List String} {hunks : List Hunk}
    → AllNumbered hunks
    → Patched at lines hunks result
    → Spliced at lines hunks result
Spliced-of_Patched n unchanged = kept_all
Spliced-of_Patched n (replaced {at} h kept starts olds news p) =
    spliced h kept (StandsAt-start_of h (at + length kept) n.0 starts) olds news
      (Spliced-of_Patched n.1 p)
