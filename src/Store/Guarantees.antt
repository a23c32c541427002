-- ===== src/Store/Guarantees.antt =====
-- crates/event-store/src/jsonl.rs: what the store promises of the events that it was given.
use young_agent.Prelude.{
  ℕ, ◌≡◌, ◌⊎◌, refl, subst, Bool, true, Option, none, some, List, [], ◌∷◌, ◌++◌, inl, inr,
  Option-cases,
}
use young_agent.Agent.Event.{AgentEvent, EventSequence, event_sequence, with_event_sequence}
use young_agent.Agent.Action.{◌>>=◌}
use young_agent.Store.Bytes.{Bytes, newline, IsClean}
use young_agent.Store.Disk.{EventStoreError, encode, invalid_event_sequence, Codec, System, Disk}
use young_agent.Store.Log.{Fits, expected_after, Lines}
use young_agent.Store.Triples.{Gives, Gives-weaken, Faulty}
use young_agent.Store.Read.{lift}
use young_agent.Store.Append.{stamped, or_own, encoded, append_record, append_with_durability}
use young_agent.Store.Append.Written.{IsDurable}
use young_agent.Store.Append.Whole.{Ready, Torn, append_record-Gives, Failed}

-- What `serde_json` writes for this event has no line break, and it is read back as the event. That holds
-- of events whose JSON is not nested deeper than the reader goes, and whose numbers it reads exactly.
abbrev pub ReadsBack : {V J : Type 0} → Codec V J → AgentEvent V → Type 0
ReadsBack codec e =
    (bytes : Bytes) → codec.to_vec e ≡ inr bytes → (codec.from_slice bytes ≡ inr e) × IsClean bytes

module _ {V X J : Type 0} (codec : Codec V J) (sys : System X) where
  -- The file has the log of these events, and an open handle agrees with it.
  abbrev pub IsReady : List (AgentEvent V) → Disk → Type 0
  IsReady es s = (ls : List Bytes) × Ready codec ls es s

  -- The file has the log of these events, and behind it a part of the record of `e`.
  abbrev pub IsTorn : List (AgentEvent V) → AgentEvent V → Disk → Type 0
  IsTorn es e s =
      (ls : List Bytes) × (line : Bytes) × Lines codec ls es
      × IsClean line
      × (codec.from_slice line ≡ inr e)
      × Torn ls (line ++ newline ∷ []) (Fits (expected_after none es) (event_sequence e)) s

  -- Why an append of `e` is refused: the encoder, the number, or a call that fails.
  abbrev pub Refuses : List (AgentEvent V) → AgentEvent V → EventStoreError V X J → Type 0
  Refuses es e x =
      ((source : J) × (codec.to_vec e ≡ inl source) × (x ≡ encode source))
      ⊎ (((line : ℕ) × (expected : Option EventSequence) × (x
              ≡ invalid_event_sequence line expected (event_sequence e))
            × (Fits (expected_after none es) (event_sequence e) → ⊥))
          ⊎ Faulty sys)

  abbrev pub NotAppended :
      List (AgentEvent V) → AgentEvent V → EventStoreError V X J → Disk → Type 0
  NotAppended es e x s = (Refuses es e x × IsReady es s) ⊎ (Faulty sys × IsTorn es e s)

  abbrev pub IsAppended : List (AgentEvent V) → AgentEvent V → Bool → Unit {0} → Disk → Type 0
  IsAppended es e is_durable u s =
      Fits (expected_after none es) (event_sequence e)
      × IsReady (es ++ e ∷ []) s
      × (is_durable ≡ true → IsDurable s)

pub event_sequence-with :
    {V : Type 0} (e : AgentEvent V) (n : ℕ) → event_sequence (with_event_sequence e n) ≡ some n
event_sequence-with (AgentEvent.run_started m) n = refl
event_sequence-with (AgentEvent.turn_started m t) n = refl
event_sequence-with (AgentEvent.model_output m t o) n = refl
event_sequence-with (AgentEvent.tool_call_requested m t i c) n = refl
event_sequence-with (AgentEvent.approval_requested m t r) n = refl
event_sequence-with (AgentEvent.approval_resolved m t i d) n = refl
event_sequence-with (AgentEvent.tool_result m t r) n = refl
event_sequence-with (AgentEvent.error m t x) n = refl
event_sequence-with (AgentEvent.run_finished m s) n = refl

pub event_sequence-stamped :
    {V : Type 0} (o : Option EventSequence) (e : AgentEvent V)
    → event_sequence (stamped (or_own o e) e) ≡ or_own o e
event_sequence-stamped (some n) e = event_sequence-with e n
event_sequence-stamped none e = elim (Option-cases (event_sequence e)) [
  | inl q ↦ rw q q
  | inr (n, q) ↦ rw q (event_sequence-with e n)
]

module _ {V X J : Type 0} (codec : Codec V J) (sys : System X) (es : List (AgentEvent V))
    (e : AgentEvent V) (reads_back : ReadsBack codec e) (is_durable : Bool) (s : Disk)
    (ready : IsReady codec sys es s) where
  fail-NotAppended :
      (ls : List Bytes) (h : Lines codec ls es) (line : Bytes) (c : IsClean line)
      (d : codec.from_slice line ≡ inr e) (x : EventStoreError V X J) (s' : Disk)
      → Failed codec sys ls es h line e c d is_durable x s'
      → NotAppended codec sys es e x s'
  fail-NotAppended ls h line c d x s' (inl (flt, inl r)) = inl (inr (inr flt), (ls, r))
  fail-NotAppended ls h line c d x s' (inl (flt, inr torn)) = inr (flt, (ls, line, h, c, d, torn))
  fail-NotAppended ls h line c d x s' (inr (misfit, r)) = inl (inr (inl misfit), (ls, r))

  -- The two answers of the encoder.
  encoded_by :
      (m : J ⊎ Bytes)
      → codec.to_vec e ≡ m
      → Gives (NotAppended codec sys es e) (IsAppended codec sys es e is_durable) (
          (lift (encoded m) >>= λ bytes.
          append_record codec sys (event_sequence e) bytes is_durable)
            s)
  encoded_by (inl source) q = inl (inl (source, q, refl), ready)
  encoded_by (inr line) q =
      let (ls, r) = ready in
      let (d, c) = reads_back line q in
      Gives-weaken _ _ _ _
        (append_record codec sys (event_sequence e) (line ++ newline ∷ []) is_durable s)
        (fail-NotAppended ls r.0 line c d)
        (λ u s' (fits, r', durable). (fits, (ls ++ line ∷ [], r'), durable))
        (append_record-Gives codec sys ls es r.0 line e c d is_durable s r)

-- For an event that `serde_json` reads back as it wrote it: an append to a log that is ready leaves it ready with the event behind the others, whose number then
-- fits, and durable where that was asked for; or it is refused, by the encoder, for its number or for a
-- call that fails, and the log is ready as it was; or a call fails and a part of the record is behind the log.
pub append_with_durability-IsAppended :
    {V X J : Type 0} (codec : Codec V J) (sys : System X) (es : List (AgentEvent V)) (s : Disk)
    (o : Option EventSequence) (e : AgentEvent V) (is_durable : Bool)
    → ReadsBack codec (stamped (or_own o e) e)
    → IsReady codec sys es s
    → Gives
        (NotAppended codec sys es (stamped (or_own o e) e))
        (IsAppended codec sys es (stamped (or_own o e) e) is_durable)
        (append_with_durability codec sys o e is_durable s)
unfolding append_with_durability
append_with_durability-IsAppended codec sys es s o e is_durable reads_back ready =
    let e' = stamped (or_own o e) e in
    subst
      (λ n. Gives (NotAppended codec sys es e') (IsAppended codec sys es e' is_durable) (
        (lift (encoded (codec.to_vec e')) >>= λ bytes. append_record codec sys n bytes is_durable)
          s))
      (event_sequence-stamped o e)
      (encoded_by codec sys es e' reads_back is_durable s ready (codec.to_vec e') refl)
