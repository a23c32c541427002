-- ===== src/Store/Recovery.antt =====
-- crates/event-store/src/jsonl.rs: a repair after an append that failed, and reading after an append.
use young_agent.Prelude.{
  ℕ, suc, ◌≡◌, ◌⊎◌, refl, sym, ap, ◌∙◌, subst, none, some, List, [], ◌∷◌, ◌++◌, inl, inr, length,
  zero,
}
use mathlib.Core.List.{append-nil}
use young_agent.Agent.Event.{AgentEvent, event_sequence}
use young_agent.Store.Bytes.{
  Bytes, newline, IsClean, log_of, take, committed, take-length, take-length_self,
}
use young_agent.Store.Lines.{log_of-append, committed-log_of, IsClean-cons, IsClean-push}
use young_agent.Store.Disk.{EventStoreError, Codec, System, Disk, bytes_of}
use young_agent.Store.Log.{Fits, expected_after, Lines, Lines-append}
use young_agent.Store.Triples.{Gives, Gives-weaken, Faulty}
use young_agent.Store.Tail.{repair_truncated_tail}
use young_agent.Store.Tail.Repair.{repair_truncated_tail-committed, Repaired}
use young_agent.Store.Guarantees.{IsReady, IsTorn}

take-IsClean : (n : ℕ) (line : Bytes) → IsClean line → IsClean (take n line)
take-IsClean zero line c = refl
take-IsClean (suc n) [] c = refl
take-IsClean (suc n) (b ∷ line) c =
    let (p, q) = IsClean-cons b line c in IsClean-push b (take n line) p (take-IsClean n line q)

take-empty : (n : ℕ) → newline ∷ take n [] ≡ newline ∷ []
take-empty zero = refl
take-empty (suc n) = refl

-- A part of a record is a clean start of its line, or all of it.
take-record :
    (n : ℕ) (line : Bytes)
    → (take n (line ++ newline ∷ []) ≡ take n line)
      ⊎ (((n ≡ 0) → ⊥) × (take n (line ++ newline ∷ []) ≡ line ++ newline ∷ []))
take-record zero line = inl refl
take-record (suc n) [] = inr ((λ k. cc), take-empty n)
take-record (suc n) (b ∷ line) = elim (take-record n line) [
  | inl q ↦ inl (ap (λ zs. b ∷ zs) q)
  | inr (k, q) ↦ inr ((λ e. cc), ap (λ zs. b ∷ zs) q)
]

module _ {V X J : Type 0} (codec : Codec V J) (sys : System X) (es : List (AgentEvent V))
    (e : AgentEvent V) (ls : List Bytes) (line : Bytes) (h : Lines codec ls es) (c : IsClean line)
    (d : codec.from_slice line ≡ inr e) where
  abbrev Recovered : Disk → Type 0
  Recovered s = IsReady codec sys es s ⊎ IsReady codec sys (es ++ e ∷ []) s

  -- The two cases of the part that was written.
  left_by :
      (n : ℕ) (removed : ℕ) (s : Disk)
      → (n ≡ 0) ⊎ Fits (expected_after none es) (event_sequence e)
      → Repaired (log_of ls ++ take n (line ++ newline ∷ [])) removed s
      → Recovered s
  left_by n removed s fitting (q, r, closed) = elim (take-record n line) [
    | inl k ↦
        let clean : IsClean (take n (line ++ newline ∷ [])) =
          subst IsClean (sym k) (take-IsClean n line c) in
        let log_eq : s.log ≡ some (log_of ls) =
          q
          ∙ ap (λ m. some (take m (log_of ls ++ take n (line ++ newline ∷ []))))
              (committed-log_of ls _ clean)
          ∙ ap some (take-length (log_of ls) (take n (line ++ newline ∷ []))) in
        inl (ls, (h, ap bytes_of log_eq, λ f p. absurd (cc)))
    | inr (some_part, k) ↦ elim fitting [
      | inl z ↦ absurd (some_part z)
      | inr fits ↦
          let all = log_of (ls ++ line ∷ []) in
          let bytes_eq : log_of ls ++ take n (line ++ newline ∷ []) ≡ all =
            ap (λ b. log_of ls ++ b) k ∙ sym (log_of-append ls line) in
          let count : committed all ≡ length all =
            sym (ap committed (append-nil all)) ∙ committed-log_of (ls ++ line ∷ []) [] refl in
          let log_eq : s.log ≡ some all =
            q
            ∙ ap (λ b. some (take (committed b) b)) bytes_eq
            ∙ ap (λ m. some (take m all)) count
            ∙ ap some (take-length_self all) in
          inr (
            ls ++ line ∷ [],
            (Lines-append codec ls es line e h c d fits, ap bytes_of log_eq, λ f p. absurd (cc)),
          )
    ]
  ]

-- After a part of a record was written, a repair that succeeds leaves the log ready either without that
-- event or with all of it.
pub repair_truncated_tail-IsReady :
    {V X J : Type 0} (codec : Codec V J) (sys : System X) (es : List (AgentEvent V))
    (e : AgentEvent V) (s : Disk)
    → IsTorn codec sys es e s
    → Gives
        (λ (x : EventStoreError V X J) s'. Faulty sys)
        (λ removed s'. IsReady codec sys es s' ⊎ IsReady codec sys (es ++ e ∷ []) s')
        (repair_truncated_tail sys s)
repair_truncated_tail-IsReady {V} {X} {J} codec sys es e s
      (ls, line, h, c, d, (closed, n, q, fitting)) =
    Gives-weaken _ _ _ _ (repair_truncated_tail sys s) (λ x s' k. k.0)
      (λ removed s' k. left_by codec sys es e ls line h c d n removed s' fitting k)
      (repair_truncated_tail-committed V J sys s _ q)
