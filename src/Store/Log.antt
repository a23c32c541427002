-- ===== src/Store/Log.antt =====
-- What a log is, independently of the code that reads it: lines that decode, with sequence numbers that
-- are all absent or count from one.
use young_agent.Prelude.{
  ◌≡◌, Option, none, some, List, [], ◌∷◌, ◌++◌, map, length, suc, ap, refl, inr, All, All-append,
}
use young_agent.Agent.Event.{AgentEvent, EventSequence, event_sequence}
use young_agent.Store.Bytes.{Bytes, IsClean, log_of}
use young_agent.Store.Disk.{Codec}
use young_agent.Store.Line.{PersistedAgentEvent, next_expected}

-- What may follow when `expected` is known of the next record; `none` before the first one.
abbrev pub Fits : Option (Option EventSequence) → Option EventSequence → Type 0
Fits none none = Unit
Fits none (some n) = n ≡ 1
Fits (some expected) found = found ≡ expected

abbrev pub expected_after :
    {V : Type 0}
    → Option (Option EventSequence)
    → List (AgentEvent V)
    → Option (Option EventSequence)
expected_after x [] = x
expected_after x (e ∷ es) = expected_after (some (next_expected (event_sequence e))) es

abbrev pub persisted : {V : Type 0} → AgentEvent V → PersistedAgentEvent V
persisted event = record { sequence = event_sequence event; event = event }

module _ {V J : Type 0} (codec : Codec V J) where
  abbrev pub Records : Option (Option EventSequence) → List Bytes → List (AgentEvent V) → Type 0
  Records x [] [] = Unit
  Records x [] (e ∷ es) = ⊥
  Records x (l ∷ ls) [] = ⊥
  Records x (l ∷ ls) (e ∷ es) =
      (codec.from_slice l ≡ inr e)
      × Fits x (event_sequence e)
      × Records (some (next_expected (event_sequence e))) ls es

  -- The bytes of a log of these events, line by line.
  abbrev pub Lines : List Bytes → List (AgentEvent V) → Type 0
  Lines ls es = All IsClean ls × Records none ls es

  abbrev pub IsLog : Bytes → List (AgentEvent V) → Type 0
  IsLog bytes es = (ls : List Bytes) × (bytes ≡ log_of ls) × Lines ls es

  pub Records-append :
      (x : Option (Option EventSequence)) (ls : List Bytes) (es : List (AgentEvent V)) (l : Bytes)
      (e : AgentEvent V)
      → Records x ls es
      → codec.from_slice l ≡ inr e
      → Fits (expected_after x es) (event_sequence e)
      → Records x (ls ++ l ∷ []) (es ++ e ∷ [])
  Records-append x [] [] l e h d f = (d, f, tt)
  Records-append x [] (e' ∷ es) l e h d f = absurd h
  Records-append x (l' ∷ ls) [] l e h d f = absurd h
  Records-append x (l' ∷ ls) (e' ∷ es) l e h d f =
      (h.0, h.1, Records-append (some (next_expected (event_sequence e'))) ls es l e h.2 d f)

  -- The reader returns as many records as there are lines.
  pub Records-length :
      (x : Option (Option EventSequence)) (ls : List Bytes) (es : List (AgentEvent V))
      → Records x ls es
      → length (map persisted es) ≡ length ls
  Records-length x [] [] h = refl
  Records-length x [] (e ∷ es) h = absurd h
  Records-length x (l ∷ ls) [] h = absurd h
  Records-length x (l ∷ ls) (e ∷ es) h =
      ap suc (Records-length (some (next_expected (event_sequence e))) ls es h.2)

  pub Lines-append :
      (ls : List Bytes) (es : List (AgentEvent V)) (l : Bytes) (e : AgentEvent V)
      → Lines ls es
      → IsClean l
      → codec.from_slice l ≡ inr e
      → Fits (expected_after none es) (event_sequence e)
      → Lines (ls ++ l ∷ []) (es ++ e ∷ [])
  Lines-append ls es l e h c d f =
      (All-append IsClean ls (l ∷ []) h.0 (c, tt), Records-append none ls es l e h.1 d f)
