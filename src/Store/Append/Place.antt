-- ===== src/Store/Append/Place.antt =====
-- crates/event-store/src/jsonl.rs: the place that an append finds for the next record.
use young_agent.Prelude.{
  ℕ, ◌+◌, ◌-◌, ◌≡◌, ◌⊎◌, refl, sym, ap, ◌∙◌, Option, none, some, List, [], ◌∷◌, ◌++◌, inl, inr,
  length, drop, eqb, eqb_iff, Outcome, ok, err, arith, split, All, length-append, get_last?,
}
use mathlib.Core.List.{append_assoc}
use young_agent.Agent.Event.{AgentEvent, EventSequence, event_sequence}
use young_agent.Store.Bytes.{
  Bytes, newline, take, IsClean, log_of, committed, take-length, drop-length,
}
use young_agent.Store.Lines.{log_of-append, committed-log_of}
use young_agent.Store.Disk.{EventStoreError, invalid_event_sequence, Codec}
use young_agent.Store.Line.{next_expected}
use young_agent.Store.Log.{Fits, expected_after, Records, Lines}
use young_agent.Store.Append.{
  AppendPosition, empty, legacy, sequenced, position_after, check_position,
}

-- The place for a record of which the reader expects `x`.
abbrev pub position_for : Option (Option EventSequence) → AppendPosition
position_for none = empty
position_for (some none) = legacy
position_for (some (some n)) = sequenced n

pub position_after-eq :
    (x : Option EventSequence) → position_after x ≡ position_for (some (next_expected x))
position_after-eq none = refl
position_after-eq (some n) = refl

-- The answer of `validate_append_sequence` at that place: the reader's own condition.
abbrev pub Checked :
    {V X J : Type 0}
    → Option (Option EventSequence)
    → ℕ
    → Option EventSequence
    → Outcome (EventStoreError V X J) (Unit {0})
    → Type 0
Checked x line found o =
    ((o ≡ ok tt) × Fits x found)
    ⊎ ((expected : Option EventSequence) × (o ≡ err (invalid_event_sequence line expected found))
        × (Fits x found → ⊥))

module _ (V X J : Type 0) where
  pub check_position-Checked :
      (x : Option (Option EventSequence)) (line : ℕ) (found : Option EventSequence)
      → Checked {V = V} {X = X} {J = J} x line found (check_position (position_for x) line found)
  check_position-Checked none line none = inl (refl, tt)
  check_position-Checked none line (some n) =
      split (eqb n 1) (λ q. inl (rw q refl, (eqb_iff n 1).0 q))
        λ q. inr (some 1, rw q refl, λ e. let k = (eqb_iff n 1).1 e in absurd (cc))
  check_position-Checked (some none) line none = inl (refl, refl)
  check_position-Checked (some none) line (some n) = inr (none, refl, λ e. cc)
  check_position-Checked (some (some k)) line none = inr (some k, refl, λ e. cc)
  check_position-Checked (some (some k)) line (some n) =
      split (eqb n k) (λ q. inl (rw q refl, ap some ((eqb_iff n k).0 q)))
        λ q. inr (some k, rw q refl, λ e. let p = (eqb_iff n k).1 (cc) in absurd (cc))

-- The last line of a log, and the event in it.
pub record Last {V J : Type 0} (codec : Codec V J) (ls : List Bytes) (es : List (AgentEvent V))
    : Type 0 where
  pub before : List Bytes
  pub line : Bytes
  pub events_before : List (AgentEvent V)
  pub event : AgentEvent V
  pub lines_eq : ls ≡ before ++ line ∷ []
  pub events_eq : es ≡ events_before ++ event ∷ []
  pub clean : IsClean line
  pub decodes : codec.from_slice line ≡ inr event

module _ {V J : Type 0} (codec : Codec V J) where
  pub find_end :
      (x : Option (Option EventSequence)) (l : Bytes) (ls : List Bytes) (e : AgentEvent V)
      (es : List (AgentEvent V))
      → All IsClean (l ∷ ls)
      → Records codec x (l ∷ ls) (e ∷ es)
      → Last codec (l ∷ ls) (e ∷ es)
  find_end x l [] e [] c h = record {
    before = [];
    line = l;
    events_before = [];
    event = e;
    lines_eq = refl;
    events_eq = refl;
    clean = c.0;
    decodes = h.0;
  }
  find_end x l [] e (e' ∷ es) c h = absurd h.2
  find_end x l (l' ∷ ls) e [] c h = absurd h.2
  find_end x l (l' ∷ ls) e (e' ∷ es) c h =
      let k = find_end (some (next_expected (event_sequence e))) l' ls e' es c.1 h.2 in
      record {
        before = l ∷ k.before;
        line = k.line;
        events_before = e ∷ k.events_before;
        event = k.event;
        lines_eq = ap (λ zs. l ∷ zs) k.lines_eq;
        events_eq = ap (λ zs. e ∷ zs) k.events_eq;
        clean = k.clean;
        decodes = k.decodes;
      }

pub expected_after-append :
    {V : Type 0} (x : Option (Option EventSequence)) (es : List (AgentEvent V)) (e : AgentEvent V)
    → expected_after x (es ++ e ∷ []) ≡ some (next_expected (event_sequence e))
expected_after-append x [] e = refl
expected_after-append x (e' ∷ es) e =
    expected_after-append (some (next_expected (event_sequence e'))) es e

pub get_last?-append : {A : Type 0} (xs : List A) (a : A) → get_last? (xs ++ a ∷ []) ≡ some a
get_last?-append [] a = refl
get_last?-append (x ∷ []) a = refl
get_last?-append (x ∷ y ∷ xs) a = get_last?-append (y ∷ xs) a

-- Where the search for the last record of a log ends, and what is read there.
module _ (ls : List Bytes) (l : Bytes) (c : IsClean l) where
  abbrev whole : Bytes
  whole = log_of (ls ++ l ∷ [])

  split_last : whole ≡ log_of ls ++ l ++ newline ∷ []
  split_last = log_of-append ls l ∙ sym (append_assoc (log_of ls) l (newline ∷ []))

  pub length-whole : length whole ≡ length (log_of ls) + length l + 1
  length-whole =
      ap length split_last
      ∙ length-append (log_of ls ++ l) (newline ∷ [])
      ∙ omega (arith, length-append (log_of ls) l)

  pub last_start : committed (take (length whole - 1) whole) ≡ length (log_of ls)
  last_start =
      ap committed (
        ap (λ n. take n whole) (omega (arith, length-whole, length-append (log_of ls) l))
        ∙ ap (take (length (log_of ls ++ l))) split_last
        ∙ take-length (log_of ls ++ l) (newline ∷ []))
      ∙ committed-log_of ls l c

  pub last_record :
      take (length whole - length (log_of ls) - 1) (drop (length (log_of ls)) whole) ≡ l
  last_record =
      ap (λ bytes. take (length whole - length (log_of ls) - 1) bytes)
        (ap (drop (length (log_of ls))) (log_of-append ls l)
          ∙ drop-length (log_of ls) (l ++ newline ∷ []))
      ∙ ap (λ n. take n (l ++ newline ∷ [])) (omega (arith, length-whole))
      ∙ take-length l (newline ∷ [])

  pub last_byte : drop (length whole - 1) whole ≡ newline ∷ []
  last_byte =
      ap (λ n. drop n whole) (omega (arith, length-whole, length-append (log_of ls) l))
      ∙ ap (drop (length (log_of ls ++ l))) split_last
      ∙ drop-length (log_of ls ++ l) (newline ∷ [])

-- A log is empty, or has a last record.
pub Lines-cases :
    {V J : Type 0} (codec : Codec V J) (ls : List Bytes) (es : List (AgentEvent V))
    → Lines codec ls es
    → ((ls ≡ []) × (es ≡ [])) ⊎ Last codec ls es
Lines-cases codec [] [] h = inl (refl, refl)
Lines-cases codec [] (e ∷ es) h = absurd h.1
Lines-cases codec (l ∷ ls) [] h = absurd h.1
Lines-cases codec (l ∷ ls) (e ∷ es) h = inr (find_end codec none l ls e es h.0 h.1)
