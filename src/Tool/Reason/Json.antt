-- ===== src/Tool/Reason/Json.antt =====
-- How JSON writes a text, against which the counts of crates/tool-runtime/src/execution.rs are read: a
-- string of RFC 8259, where the quote and the backslash are escaped, the control characters below
-- U+0020 by their short escapes or by four hexadecimal digits, and all else stands as it is.
use Prim.Native.String.len as native_len
use young_agent.Prelude.{
  ℕ, ◌%◌, ◌/◌, String, Bool, true, false, ◌≡◌, refl, ◌∙◌, eqb, ltb, leb, if◌then◌else◌, split,
  arith,
}
use young_agent.Prelude.Text.{Char, code, len_utf8, push_str, len}
use text.Mathlib.TextPositions.{len-append}
use young_agent.Tool.Reason.{is_short_escape, serialized_json_character_bytes}

abbrev hex_digit : ℕ → String
hex_digit n =
    if eqb n 0
    then "0"
    else if eqb n 1
    then "1"
    else if eqb n 2
    then "2"
    else if eqb n 3
    then "3"
    else if eqb n 4
    then "4"
    else if eqb n 5
    then "5"
    else if eqb n 6
    then "6"
    else if eqb n 7
    then "7"
    else if eqb n 8
    then "8"
    else if eqb n 9
    then "9"
    else if eqb n 10
    then "a"
    else if eqb n 11
    then "b"
    else if eqb n 12
    then "c"
    else if eqb n 13
    then "d"
    else if eqb n 14
    then "e"
    else "f"

unfoldable unicode_escape : ℕ → String
unicode_escape n = push_str "\\u00" (push_str (hex_digit (n / 16)) (hex_digit (n % 16)))

unfoldable pub json_character : Char → String
unfolding unicode_escape
json_character c =
    if eqb (code c) 34
    then "\\\""
    else if eqb (code c) 92
    then "\\\\"
    else if eqb (code c) 8
    then "\\b"
    else if eqb (code c) 9
    then "\\t"
    else if eqb (code c) 10
    then "\\n"
    else if eqb (code c) 12
    then "\\f"
    else if eqb (code c) 13
    then "\\r"
    else if ltb (code c) 32
    then unicode_escape (code c)
    else String.◌∷◌ c String.[]

unfoldable pub json_content : String → String
json_content String.[] = ""
json_content (String.◌∷◌ c s) = push_str (json_character c) (json_content s)

unfoldable pub json_string : String → String
json_string s = push_str "\"" (push_str (json_content s) "\"")

-- The bytes of a text as a JSON string, with its quotes.
abbrev pub json_len : String → ℕ
json_len s = len (json_string s)

if_len : (b : Bool) (s t : String) → len s ≡ 1 → len t ≡ 1 → len (if b then s else t) ≡ 1
if_len true s t h k = h
if_len false s t h k = k

hex_digit-len : (n : ℕ) → len (hex_digit n) ≡ 1
hex_digit-len n = if_len (eqb n 0) "0" _ refl (
    if_len (eqb n 1) "1" _ refl (
      if_len (eqb n 2) "2" _ refl (
        if_len (eqb n 3) "3" _ refl (
          if_len (eqb n 4) "4" _ refl (
            if_len (eqb n 5) "5" _ refl (
              if_len (eqb n 6) "6" _ refl (
                if_len (eqb n 7) "7" _ refl (
                  if_len (eqb n 8) "8" _ refl (
                    if_len (eqb n 9) "9" _ refl (
                      if_len (eqb n 10) "a" _ refl (
                        if_len (eqb n 11) "b" _ refl (
                          if_len (eqb n 12) "c" _ refl (
                            if_len (eqb n 13) "d" _ refl
                              (if_len (eqb n 14) "e" _ refl (refl)))))))))))))))

unicode_escape-len : (n : ℕ) → len (unicode_escape n) ≡ 6
unfolding unicode_escape
unicode_escape-len n =
    len-append "\\u00" _
    ∙ rw
        (
          len-append (hex_digit (n / 16)) (hex_digit (n % 16)),
          hex_digit-len (n / 16),
          hex_digit-len (n % 16),
        )
        refl

short_bytes : (c : Char) → is_short_escape (code c) ≡ true → 2 ≡ serialized_json_character_bytes c
unfolding serialized_json_character_bytes
short_bytes c q = rw q refl

long_bytes :
    (c : Char)
    → is_short_escape (code c) ≡ false
    → ltb (code c) 32 ≡ true
    → 6 ≡ serialized_json_character_bytes c
unfolding serialized_json_character_bytes
long_bytes c q h = let low : leb (code c) 31 ≡ true = ground arith in rw (q, low) refl

plain_bytes :
    (c : Char)
    → is_short_escape (code c) ≡ false
    → ltb (code c) 32 ≡ false
    → len_utf8 c ≡ serialized_json_character_bytes c
unfolding serialized_json_character_bytes
plain_bytes c q h = let high : leb (code c) 31 ≡ false = ground arith in rw (q, high) refl

-- What the code counts for a character is the length of what JSON writes for it.
pub json_character-len : (c : Char) → len (json_character c) ≡ serialized_json_character_bytes c
unfolding json_character
json_character-len c =
    split (eqb (code c) 34) (λ q. rw q (short_bytes c (ground arith)))
      λ a. rw a (
        split (eqb (code c) 92) (λ q. rw q (short_bytes c (ground arith)))
          λ b. rw b (
            split (eqb (code c) 8) (λ q. rw q (short_bytes c (ground arith)))
              λ d. rw d (
                split (eqb (code c) 9) (λ q. rw q (short_bytes c (ground arith)))
                  λ e. rw e (
                    split (eqb (code c) 10) (λ q. rw q (short_bytes c (ground arith)))
                      λ f. rw f (
                        split (eqb (code c) 12) (λ q. rw q (short_bytes c (ground arith)))
                          λ g. rw g (
                            split (eqb (code c) 13) (λ q. rw q (short_bytes c (ground arith)))
                              λ h. rw h (
                                split (ltb (code c) 32)
                                  (λ q.
                                    rw q
                                      (unicode_escape-len (code c) ∙ long_bytes c (ground arith) q))
                                  λ q. rw q (
                                    native_len.cons c String.[]
                                    ∙ rw native_len.nil omega arith
                                    ∙ plain_bytes c (ground arith) q))))))))
