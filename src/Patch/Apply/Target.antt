-- ===== src/Patch/Apply/Target.antt =====
-- crates/capability-coding/src/patch.rs: which file a patch changes, and when it may.
use young_agent.Prelude.{
  ℕ, ◌≡◌, ◌↔◌, refl, sym, ap, ◌∙◌, String, Bool, Option, none, some, List, ok, err, string_eq,
  split, ok-injective,
}
use young_agent.Agent.Action.Gives.{Gives, Gives-weaken}
use young_agent.Patch.Lines.{join, split_inclusive}
use young_agent.Patch.Hunk.{Hunk, FilePatch, target_path, rename, invalid_patch}
use young_agent.Patch.Paths.{components, same_path, same_path_iff}
use young_agent.Patch.Diff.{AllNumbered, Patched}
use young_agent.Patch.Apply.{apply_hunks, prepare_change}
use young_agent.Patch.Apply.Sound.{apply_hunks-Patched}

-- A file that is not there counts as an empty one.
abbrev pub text_of : Option String → String
text_of none = ""
text_of (some text) = text

-- The patch changes the file at this path, which it names on both sides or makes new.
abbrev pub Changes : FilePatch → Option String → String → String → Type 0
Changes p original path output =
    (p.new_path ≡ some path)
    × ((original ≡ none) ↔ (p.old_path ≡ none))
    × ((old : String) → p.old_path ≡ some old → components old ≡ components path)
    × ((result : List String) × Patched 0 (split_inclusive (text_of original)) p.hunks result
        × (output ≡ join result))

abbrev patch_of : Option String → Option String → List Hunk → FilePatch
patch_of old new hunks = record { old_path = old; new_path = new; hunks = hunks }

module _ (cancels : ℕ → Bool) (hunks : List Hunk) (time : ℕ) (path : String)
    (numbered : AllNumbered hunks) where
  abbrev Target : Option String → Option String → Option String → Type 0
  Target old new original =
      target_path (patch_of old new hunks) ≡ ok path
      → Gives (λ e t. Unit {0}) (λ output t. Changes (patch_of old new hunks) original path output)
          (prepare_change cancels (patch_of old new hunks) original time)

  change_by : (old new original : Option String) → Target old new original
  unfolding target_path prepare_change
  change_by none none original h = absurd (cc)
  change_by none (some new) (some text) h = tt
  change_by none (some new) none h =
      Gives-weaken _ _ _ _ (apply_hunks cancels "" hunks time) (λ e t k. tt)
        (λ output t k.
          (ap some (ok-injective h), (λ q. refl, λ q. refl), (λ old q. absurd (cc)), k))
        (apply_hunks-Patched cancels "" hunks time numbered)
  change_by (some old) none none h = tt
  change_by (some old) none (some text) h = tt
  change_by (some old) (some new) none h = tt
  change_by (some old) (some new) (some text) h =
      split (same_path old new)
        (λ q.
          let same = (same_path_iff old new).0 q in
          let named : new ≡ path = ok-injective (sym (rw q refl) ∙ h) in
          Gives-weaken _ _ _ _ (apply_hunks cancels text hunks time) (λ e t k. tt)
            (λ output t k. (
              ap some named,
              (λ q. absurd (cc), λ q. absurd (cc)),
              (λ old' q.
                  let is : old ≡ old' = cc in ap components (sym is) ∙ same ∙ ap components named),
              k,
            ))
            (apply_hunks-Patched cancels text hunks time numbered))
        λ q.
          let g : err (invalid_patch (rename old new)) ≡ ok path = sym (rw q refl) ∙ h in
          absurd (cc)

-- Where the target of a patch with numbered hunks is found and its change is made, the patch names that
-- target as its new file and, if it has an old file, this has the components of the target; it has one
-- exactly if the file is there; and the change is what the hunks make of the text as a unified diff.
pub prepare_change-Changes :
    (cancels : ℕ → Bool) (p : FilePatch) (original : Option String) (time : ℕ) (path : String)
    → AllNumbered p.hunks
    → target_path p ≡ ok path
    → Gives
        (λ e t. Unit {0})
        (λ output t. Changes p original path output)
        (prepare_change cancels p original time)
prepare_change-Changes cancels p original time path numbered h =
    change_by cancels p.hunks time path numbered p.old_path p.new_path original h
