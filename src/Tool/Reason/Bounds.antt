-- ===== src/Tool/Reason/Bounds.antt =====
-- Lengths of texts as JSON writes them, and the loop and the saturating sum of
-- crates/tool-runtime/src/execution.rs against them.
use Prim.Native.Char.{len_utf8_def}
use Prim.Native.String.append
use Prim.Native.String.len as native_len
use text.Mathlib.TextPositions.{slice-append_left, len-append}
use young_agent.Prelude.{ℕ, ◌+◌, ◌≤◌, String, ◌≡◌, refl, sym, ap, ◌∙◌, ltb, split, arith}
use young_agent.Prelude.Text.{Char, len_utf8, push_str, len, slice}
use young_agent.Tool.Reason.Json.{
  json_character, json_content, json_string, json_len, json_character-len,
}
use young_agent.Tool.Reason.{
  usize_max, saturating_add, serialized_json_character_bytes, add_content_bytes, end_of_prefix,
}

-- The sum of what the code counts for the characters of a text.
unfoldable pub json_content_len : String → ℕ
json_content_len String.[] = 0
json_content_len (String.◌∷◌ c s) = serialized_json_character_bytes c + json_content_len s

json_content-len : (s : String) → len (json_content s) ≡ json_content_len s
unfolding json_content json_content_len
json_content-len String.[] = refl
json_content-len (String.◌∷◌ c s) =
    len-append (json_character c) (json_content s)
    ∙ omega (arith, json_character-len c, json_content-len s)

pub json_len_lem : (s : String) → json_len s ≡ 2 + json_content_len s
unfolding json_string
json_len_lem s =
    len-append "\"" _ ∙ rw (len-append (json_content s) "\"") omega (arith, json_content-len s)

pub json_content_len-push_str :
    (s t : String) → json_content_len (push_str s t) ≡ json_content_len s + json_content_len t
unfolding json_content_len
json_content_len-push_str String.[] t = rw (append.nil t) omega arith
json_content_len-push_str (String.◌∷◌ c s) t =
    rw (append.cons c s t, json_content_len-push_str s t) omega arith

-- The sum saturates only where the exact length is beyond `usize`.
pub add_content_bytes-eq :
    (bytes : ℕ) (s : String)
    → bytes ≤ usize_max
    → add_content_bytes bytes s ≡ saturating_add bytes (json_content_len s)
unfolding add_content_bytes json_content_len
add_content_bytes-eq bytes String.[] h = ground arith
add_content_bytes-eq bytes (String.◌∷◌ c s) h = ground (
  arith,
  add_content_bytes-eq (saturating_add bytes (serialized_json_character_bytes c)) s (ground arith),
)

len_utf8-le : (c : Char) → len_utf8 c ≤ serialized_json_character_bytes c
unfolding serialized_json_character_bytes
len_utf8-le c = rw (len_utf8_def c) ground arith

pub len-le : (s : String) → len s ≤ json_content_len s
unfolding json_content_len
len-le String.[] = rw native_len.nil omega arith
len-le (String.◌∷◌ c s) = rw (native_len.cons c s) omega (arith, len_utf8-le c, len-le s)

-- Where a loop that has passed `index` bytes of a text stops.
Stops : ℕ → ℕ → ℕ → String → Type 0
Stops budget bytes index s =
    (p rest : String) × (s ≡ push_str p rest)
    × (end_of_prefix budget bytes index index s ≡ index + len p)
    × (bytes + json_content_len p ≤ budget)

end_of_prefix-Stops :
    (budget bytes index : ℕ) (s : String) → bytes ≤ budget → Stops budget bytes index s
unfolding Stops end_of_prefix json_content_len
end_of_prefix-Stops budget bytes index String.[] h =
    (String.[], String.[], sym (append.nil String.[]), rw native_len.nil omega arith, omega arith)
end_of_prefix-Stops budget bytes index (String.◌∷◌ c s) h =
    split (ltb budget (bytes + serialized_json_character_bytes c))
      (λ q. (
        String.[],
        String.◌∷◌ c s,
        sym (append.nil _),
        rw (q, native_len.nil) omega arith,
        omega arith,
      ))
      λ q.
        let (p, rest, e, stop, fits) =
          end_of_prefix-Stops budget (bytes + serialized_json_character_bytes c)
            (index + len_utf8 c) s (ground arith) in
        (
          String.◌∷◌ c p,
          rest,
          (rw e (sym (append.cons c p rest))),
          rw (q, native_len.cons c p) (stop ∙ omega arith),
          omega arith,
        )

slice-len : (p rest s : String) (n : ℕ) → s ≡ push_str p rest → n ≡ 0 + len p → slice s 0 n ≡ p
slice-len p rest s n e stop =
    ap (λ t. slice t 0 n) e
    ∙ ap (slice (push_str p rest) 0) (stop ∙ omega arith)
    ∙ slice-append_left p rest

-- The prefix that the loop leaves is within the budget.
pub end_of_prefix-fits :
    (budget : ℕ) (s : String)
    → (p rest : String) × (s ≡ push_str p rest)
      × (slice s 0 (end_of_prefix budget 0 0 0 s) ≡ p)
      × (json_content_len p ≤ budget)
unfolding Stops
end_of_prefix-fits budget s =
    let (p, rest, e, stop, fits) = end_of_prefix-Stops budget 0 0 s (omega arith) in
    (p, rest, e, slice-len p rest s _ e stop, omega (arith, fits))
