-- ===== src/Tool/Reason/Laws.antt =====
-- What `bound_approval_reason` of crates/tool-runtime/src/execution.rs promises.
use young_agent.Prelude.{◌+◌, ◌≤◌, String, ◌≡◌, refl, ◌⊎◌, inl, inr, split, ◌&&◌, leb, arith}
use young_agent.Prelude.Text.{len, push_str, slice, is_blank}
use young_agent.Tool.Reason.{
  bound_approval_reason, max_serialized_bytes, truncated_suffix, content_budget, end_of_prefix,
  serialized_json_string_bytes, add_content_bytes, serialized_json_character_bytes,
}
use young_agent.Tool.Reason.Json.{json_len}
use young_agent.Tool.Reason.Bounds.{
  json_len_lem, json_content_len, json_content_len-push_str, add_content_bytes-eq, len-le,
  end_of_prefix-fits,
}

-- The text is kept, or one of its prefixes is, alone or with the suffix that says so.
pub IsCut : String → String → Type 0
IsCut s t =
    (t ≡ s)
    ⊎ ((p rest : String) × (s ≡ push_str p rest) × ((t ≡ p) ⊎ (t ≡ push_str p truncated_suffix)))

suffix-len : json_content_len truncated_suffix ≡ 15
unfolding json_content_len serialized_json_character_bytes
suffix-len = refl

budget-eq : content_budget ≡ 8175
unfolding add_content_bytes
budget-eq = refl

-- The text that is written for the bound on a reason takes at most 8192 bytes as a JSON string,
-- quotes and escapes included, and it is the reason or a prefix of it, with or without the suffix
-- that marks the cut.
pub bound_approval_reason-fits :
    (reason : String)
    → (json_len (bound_approval_reason reason) ≤ max_serialized_bytes)
      × IsCut reason (bound_approval_reason reason)
unfolding IsCut bound_approval_reason
bound_approval_reason-fits reason =
    split
      (leb (len reason + 2) max_serialized_bytes
        && leb (serialized_json_string_bytes reason) max_serialized_bytes)
      (λ q. rw q (
        ground (arith, json_len_lem reason, add_content_bytes-eq 0 reason (omega arith)),
        inl refl,
      ))
      λ q.
        let (p, rest, e, cut, fits) = end_of_prefix-fits content_budget reason in
        split (is_blank (slice reason 0 (end_of_prefix content_budget 0 0 0 reason)))
          (λ b.
            rw (q, b, cut)
              (omega (arith, json_len_lem p, fits, budget-eq), inr (p, rest, e, inl refl)))
          λ b.
            rw (q, b, cut)
              (
                rw
                    (
                      json_len_lem (push_str p truncated_suffix),
                      json_content_len-push_str p truncated_suffix,
                      suffix-len,
                    )
                    omega (arith, fits, budget-eq),
                inr (p, rest, e, inr refl),
              )

-- A reason whose JSON string takes at most 8192 bytes is kept.
pub bound_approval_reason-keeps :
    (reason : String)
    → json_len reason ≤ max_serialized_bytes
    → bound_approval_reason reason ≡ reason
unfolding bound_approval_reason
bound_approval_reason-keeps reason h =
    ground (arith, json_len_lem reason, len-le reason, add_content_bytes-eq 0 reason (omega arith))

-- To bound a reason twice is to bound it once.
pub bound_approval_reason_twice :
    (reason : String)
    → bound_approval_reason (bound_approval_reason reason) ≡ bound_approval_reason reason
bound_approval_reason_twice reason =
    bound_approval_reason-keeps _ (bound_approval_reason-fits reason).0
