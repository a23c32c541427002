-- ===== src/Patch/Range.antt =====
-- crates/capability-coding/src/patch.rs: the ranges in the header of a hunk.
use Prim.Native.Char.{Char, code}
use Prim.Native.String.append
use young_agent.Prelude.{
  ℕ, ◌≤◌, ◌≡◌, refl, sym, ap, ◌∙◌, String, true, false, ◌&&◌, Option, none, some, Outcome, ok,
  ok_or, ◌>>=◌, eqb, leb, if◌then◌else◌, split, arith,
}
use young_agent.Prelude.Text.{push_str}
use young_agent.Prelude.Decimal.{decimal}
use young_agent.Prelude.Decimal.Read.{
  value, value-decimal, is_digit, all_digits, is_nonempty, all_digits-decimal,
}
use young_agent.Tool.Prepared.{u64_max}
use young_agent.Patch.Hunk.{PatchError, invalid_patch, range_start, range_count}

-- The digits of a `usize` of 64 bits.
abbrev pub parse_digits : String → Option ℕ
parse_digits s =
    if is_nonempty s && all_digits s && leb (value 0 s) u64_max then some (value 0 s) else none

-- `parse::<usize>()`, which takes one `+` in front.
abbrev pub parse_usize : String → Option ℕ
parse_usize String.[] = none
parse_usize (String.◌∷◌ c s) =
    if eqb (code c) 43 then parse_digits s else parse_digits (String.◌∷◌ c s)

abbrev pub push_front : Char → Option (String × String) → Option (String × String)
push_front c none = none
push_front c (some (front, back)) = some (String.◌∷◌ c front, back)

-- `split_once(',')`
abbrev pub split_comma : String → Option (String × String)
split_comma String.[] = none
split_comma (String.◌∷◌ c s) =
    let rest = split_comma s in if eqb (code c) 44 then some (String.[], s) else push_front c rest

abbrev start_and_count : String → Option (String × String) → String × String
start_and_count range none = (range, "1")
start_and_count range (some parts) = parts

unfoldable pub parse_range : String → Outcome PatchError (ℕ × ℕ)
parse_range range =
    let (start, count) = start_and_count range (split_comma range) in
    ok_or (parse_usize start) (invalid_patch (range_start start)) >>= λ n.
    ok_or (parse_usize count) (invalid_patch (range_count count)) >>= λ k. ok (n, k)

-- A digit is neither a sign nor a comma.
digit_apart : (n : ℕ) → is_digit n ≡ true → (eqb n 43 ≡ false) × (eqb n 44 ≡ false)
digit_apart n h = (ground arith, ground arith)

all_digits-tail :
    (c : Char) (s : String)
    → all_digits (String.◌∷◌ c s) ≡ true
    → (is_digit (code c) ≡ true) × (all_digits s ≡ true)
all_digits-tail c s h =
    split (is_digit (code c)) (λ q. (q, sym (rw q refl) ∙ h))
      λ q. absurd (let g : false ≡ true = sym (rw q refl) ∙ h in cc)

parse_usize-digits :
    (s : String)
    → all_digits s ≡ true
    → is_nonempty s ≡ true
    → value 0 s ≤ u64_max
    → parse_usize s ≡ some (value 0 s)
parse_usize-digits String.[] h k b = absurd (cc)
parse_usize-digits (String.◌∷◌ c s) h k b =
    let (d, e) = all_digits-tail c s h in
    let fits : leb (value 0 (String.◌∷◌ c s)) u64_max ≡ true = ground arith in
    rw ((digit_apart (code c) d).0, d, e, fits) refl

split_comma-digits :
    (s t : String) → all_digits s ≡ true → split_comma (push_str s (push_str "," t)) ≡ some (s, t)
split_comma-digits String.[] t h = ap split_comma (
    append.nil (push_str "," t)
    ∙ append.cons "," String.[] t
    ∙ ap (λ s. String.◌∷◌ "," s) (append.nil t))
split_comma-digits (String.◌∷◌ c s) t h =
    let (d, e) = all_digits-tail c s h in
    ap split_comma (append.cons c s (push_str "," t))
    ∙ rw ((digit_apart (code c) d).1, split_comma-digits s t e) refl

parse_usize-decimal : (n : ℕ) → n ≤ u64_max → parse_usize (decimal n) ≡ some n
parse_usize-decimal n h =
    let v = value-decimal n (omega arith) in
    let (d, e) = all_digits-decimal n in
    parse_usize-digits (decimal n) d e (omega (arith, v)) ∙ ap some v

-- A range that is printed as a diff prints it is read back, for numbers that a `usize` has.
pub parse_range-decimal :
    (start count : ℕ)
    → start ≤ u64_max
    → count ≤ u64_max
    → parse_range (push_str (decimal start) (push_str "," (decimal count))) ≡ ok (start, count)
unfolding parse_range
parse_range-decimal start count h k =
    let left = parse_usize-decimal start h in
    let right = parse_usize-decimal count k in
    rw
      (split_comma-digits (decimal start) (decimal count) (all_digits-decimal start).0, left, right)
      refl
