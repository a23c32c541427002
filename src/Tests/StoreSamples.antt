-- ===== src/Tests/StoreSamples.antt =====
-- A codec and a file system on which the theorems on the store are tried.
use young_agent.Prelude.{
  ℕ, ◌+◌, ◌-◌, Bool, true, false, Option, none, some, [], ◌∷◌, ◌⊎◌, inl, inr, String, string_eq,
  ◌==◌, ◌≡◌, refl, sym, ap, ◌∙◌, subst, eqb, ltb, if◌then◌else◌, eq_iff, arith,
}
use young_agent.Tool.Call.{Extensions}
use young_agent.Agent.Event.{AgentEvent, run_started}
use young_agent.Store.Bytes.{Bytes, IsClean}
use young_agent.Store.Disk.{Codec, System, Disk}
use young_agent.Store.Guarantees.{ReadsBack}

-- The first event of the run with this number, or with none.
abbrev pub started : Option ℕ → AgentEvent ℕ
started n = run_started (record { run_id = "run"; event_sequence = n; extensions = [] })

-- Only these events are encoded: one byte tells the number.
abbrev start_bytes : Bool → Extensions ℕ → Option ℕ → Unit {0} ⊎ Bytes
start_bytes true [] none = inr (5 ∷ [])
start_bytes true [] (some n) = inr ((n + 11) ∷ [])
start_bytes true (x ∷ xs) n = inl tt
start_bytes false xs n = inl tt

abbrev sample_to_vec : AgentEvent ℕ → Unit {0} ⊎ Bytes
sample_to_vec (run_started m) = start_bytes (m.run_id == "run") m.extensions m.event_sequence
sample_to_vec _ = inl tt

abbrev sample_from_slice : Bytes → Unit {0} ⊎ AgentEvent ℕ
sample_from_slice (b ∷ []) = inr (started (if ltb b 11 then none else some (b - 11)))
sample_from_slice _ = inl tt

abbrev pub sample_codec : Codec ℕ (Unit {0})
sample_codec = record { to_vec = sample_to_vec; from_slice = sample_from_slice }

-- No call fails.
abbrev pub sample_system : System String
sample_system = record {
  fails = λ n. none;
  partly = λ n. 0;
  not_found = "not found";
  already_exists = "already exists";
  unexpected_eof = "unexpected end of file";
}

-- A store without a handle, and its file.
abbrev pub sample_disk : Option Bytes → Disk
sample_disk log = record {
  append_file = none;
  log = log;
  stable = [];
  entry_stable = false;
  clock = 0;
}

start_bytes-inv :
    (b : Bool) (xs : Extensions ℕ) (n : Option ℕ) (bytes : Bytes)
    → start_bytes b xs n ≡ inr bytes
    → (b ≡ true) × (xs ≡ []) × (sample_from_slice bytes ≡ inr (started n)) × IsClean bytes
start_bytes-inv true [] none bytes h =
    let q : 5 ∷ [] ≡ bytes = cc in (refl, refl, rw (sym q) refl, subst IsClean q refl)
start_bytes-inv true [] (some n) bytes h =
    let q : (n + 11) ∷ [] ≡ bytes = cc in
    let far : ltb (n + 11) 11 ≡ false = ground arith in
    let back : n + 11 - 11 ≡ n = omega arith in
    let clean : eqb (n + 11) 10 ≡ false = ground arith in
    (refl, refl, rw (sym q, far, back) refl, subst IsClean q (rw clean refl))
start_bytes-inv true (x ∷ xs) n bytes h = absurd (cc)
start_bytes-inv false xs n bytes h = absurd (cc)

pub sample_codec-ReadsBack : (e : AgentEvent ℕ) → ReadsBack sample_codec e
sample_codec-ReadsBack (run_started m) bytes h =
    let (b, xs, q, c) = start_bytes-inv (m.run_id == "run") m.extensions m.event_sequence bytes h in
    let same : run_started m ≡ started m.event_sequence =
      ap (λ id. run_started (record m { run_id = id })) ((eq_iff m.run_id "run").0 b)
      ∙ ap
          (λ e.
            run_started
              (record { run_id = "run"; event_sequence = m.event_sequence; extensions = e }))
          xs in
    (q ∙ ap inr (sym same), c)
sample_codec-ReadsBack (AgentEvent.turn_started m t) bytes h = absurd (cc)
sample_codec-ReadsBack (AgentEvent.model_output m t o) bytes h = absurd (cc)
sample_codec-ReadsBack (AgentEvent.tool_call_requested m t i c) bytes h = absurd (cc)
sample_codec-ReadsBack (AgentEvent.approval_requested m t r) bytes h = absurd (cc)
sample_codec-ReadsBack (AgentEvent.approval_resolved m t i d) bytes h = absurd (cc)
sample_codec-ReadsBack (AgentEvent.tool_result m t r) bytes h = absurd (cc)
sample_codec-ReadsBack (AgentEvent.error m t x) bytes h = absurd (cc)
sample_codec-ReadsBack (AgentEvent.run_finished m s) bytes h = absurd (cc)
