-- ===== src/Patch/Paths.antt =====
-- A `PathBuf` as crates/capability-coding/src/patch.rs uses it: a text that is compared by its components, as
-- the documentation of `std::path::Path::components` describes them on Unix.
use Prim.Native.Char.{code}
use young_agent.Prelude.{
  String, Bool, ◌||◌, List, [], ◌∷◌, ◌==◌, string_eq, Eq, false, refl, ◌&&◌, split, eqb,
  if◌then◌else◌, ◌↔◌, ◌≡◌, true,
}
use young_agent.Patch.Lines.{push_char}

-- `==` of two lists.
abbrev list_beq {ℓ} : {A : Type ℓ} ⦃e : Eq A⦄ → List A → List A → Bool
list_beq [] [] = true
list_beq [] (b ∷ ys) = false
list_beq (a ∷ xs) [] = false
list_beq (a ∷ xs) (b ∷ ys) = (a == b) && list_beq xs ys

list_beq_iff {ℓ} : {A : Type ℓ} ⦃e : Eq A⦄ (xs ys : List A) → (list_beq xs ys ≡ true) ↔ (xs ≡ ys)
list_beq_iff [] [] = (λ h. refl, λ h. refl)
list_beq_iff [] (b ∷ ys) = (λ h. cc h, λ h. cc h)
list_beq_iff (a ∷ xs) [] = (λ h. cc h, λ h. cc h)
list_beq_iff ⦃e⦄ (a ∷ xs) (b ∷ ys) =
    split (a == b)
      (λ q.
        let same = (e.beq_iff a b).0 q in
        rw q ((λ h. let rest = (list_beq_iff xs ys).0 h in cc), λ h. (list_beq_iff xs ys).1 (cc)))
      λ q. rw q ((λ h. cc h), λ h. let same = (e.beq_iff a b).1 (cc) in cc)

instance abbrev list_eq {ℓ} : {A : Type ℓ} ⦃e : Eq A⦄ → Eq (List A)
list_eq = record { beq = list_beq; beq_iff = list_beq_iff }

-- The texts between the separators.
abbrev split_separators : String → List String
split_separators String.[] = "" ∷ []
split_separators (String.◌∷◌ c s) =
    let rest = split_separators s in if eqb (code c) 47 then "" ∷ rest else push_char c rest

-- Repeated separators, a separator at the end, and `.` name nothing.
abbrev names : List String → List String
names [] = []
names (name ∷ rest) =
    let more = names rest in if (name == "") || (name == ".") then more else name ∷ more

-- A path that begins with a separator has the root as its first component; a `.` counts at the beginning.
abbrev after_first : String → List String → List String
after_first first [] = if first == "" then [] else first ∷ []
after_first first (name ∷ rest) =
    if first == "" then "/" ∷ names (name ∷ rest) else first ∷ names (name ∷ rest)

abbrev with_first : List String → List String
with_first [] = []
with_first (first ∷ rest) = after_first first rest

-- `Path::components`
abbrev pub components : String → List String
components path = with_first (split_separators path)

-- `==` of two paths.
abbrev pub same_path : String → String → Bool
same_path a b = components a == components b

pub same_path_iff : (a b : String) → (same_path a b ≡ true) ↔ (components a ≡ components b)
same_path_iff a b = list_eq.beq_iff (components a) (components b)
