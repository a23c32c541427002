-- ===== src/Tool/Reason.antt =====
-- crates/tool-runtime/src/execution.rs: the bound on approval reasons, with `usize` of 64 bits.
pub mod Json
pub mod Bounds
pub mod Laws
use young_agent.Prelude.{ℕ, ◌+◌, ◌-◌, String, Bool, ◌&&◌, ◌||◌, ltb, leb, eqb, if◌then◌else◌}
use young_agent.Prelude.Text.{Char, code, len_utf8, push_str, len, slice, is_blank}

-- `MAX_APPROVAL_REASON_SERIALIZED_BYTES`
abbrev pub max_serialized_bytes : ℕ
max_serialized_bytes = 8192

-- `APPROVAL_REASON_TRUNCATED_SUFFIX`
abbrev pub truncated_suffix : String
truncated_suffix = "… [truncated]"

abbrev pub usize_max : ℕ
usize_max = 18446744073709551615

-- `usize::saturating_add`
abbrev pub saturating_add : ℕ → ℕ → ℕ
saturating_add a b = if ltb usize_max (a + b) then usize_max else a + b

-- The characters that JSON escapes with two characters: the quote, the backslash and the control
-- characters with a short escape.
abbrev pub is_short_escape : ℕ → Bool
is_short_escape c =
    eqb c 0x22 || eqb c 0x5c || eqb c 0x08 || eqb c 0x0c || eqb c 0x0a || eqb c 0x0d || eqb c 0x09

unfoldable pub serialized_json_character_bytes : Char → ℕ
serialized_json_character_bytes c =
    if is_short_escape (code c) then 2 else if leb (code c) 0x1f then 6 else len_utf8 c

-- The `fold` over the characters, from `bytes` on.
unfoldable pub add_content_bytes : ℕ → String → ℕ
unfolding serialized_json_character_bytes
add_content_bytes bytes String.[] = bytes
add_content_bytes bytes (String.◌∷◌ c s) =
    add_content_bytes (saturating_add bytes (serialized_json_character_bytes c)) s

abbrev pub serialized_json_string_content_bytes : String → ℕ
serialized_json_string_content_bytes s = add_content_bytes 0 s

abbrev pub serialized_json_string_bytes : String → ℕ
serialized_json_string_bytes s = saturating_add 2 (serialized_json_string_content_bytes s)

-- The loop over `char_indices`: where the longest prefix ends whose content is within the budget.
unfoldable pub end_of_prefix : ℕ → ℕ → ℕ → ℕ → String → ℕ
unfolding serialized_json_character_bytes
end_of_prefix budget content_bytes index end String.[] = end
end_of_prefix budget content_bytes index end (String.◌∷◌ c s) =
    let character_bytes = serialized_json_character_bytes c in
    let next = index + len_utf8 c in
    let rest = end_of_prefix budget (content_bytes + character_bytes) next next s in
    if ltb budget (content_bytes + character_bytes) then end else rest

abbrev pub content_budget : ℕ
content_budget = max_serialized_bytes - 2 - serialized_json_string_content_bytes truncated_suffix

unfoldable pub bound_approval_reason : String → String
unfolding add_content_bytes end_of_prefix is_blank
bound_approval_reason reason =
    let prefix = slice reason 0 (end_of_prefix content_budget 0 0 0 reason) in
    if leb (len reason + 2) max_serialized_bytes
      && leb (serialized_json_string_bytes reason) max_serialized_bytes
    then reason
    else if is_blank prefix
    then prefix
    else push_str prefix truncated_suffix
