-- ===== src/Tool/Registration.antt =====
-- crates/tool-runtime/src/registry.rs and execution.rs: what registration keeps, and the identities of
-- dispatchers.
use young_agent.Prelude.{
  ℕ, suc, ◌+◌, ◌≤◌, String, Bool, false, ◌≡◌, refl, sym, ap, subst, ◌∙◌, Option, none, some,
  is_some, List, [], ◌∷◌, Outcome, ok, err, panic, ◌>>=◌, ◌>>◌, reject_if, zero, >>=-eq-ok,
  ok-injective, ◌==◌, nat_eq, string_eq, eq_iff, split, lookup, put, lookup-put, if◌then◌else◌, All,
  Distinct, contains, eqb_iff, All-map_imp, ltb, arith,
}
use young_agent.Tool.Prepared.{ToolDispatcherIdentity, next_dispatcher_identity, fresh, u64_max}
use young_agent.Tool.Registry.{
  ToolDefinition, ToolRegistrationError, ToolHandler, RegisteredTool, ToolRuntime, Checked,
  validate, named, register, new, definition_of, lookup_definition,
}

some-injective : {A : Type 0} {x y : A} → some x ≡ some y → x ≡ y
some-injective h = cc h

named-eq-ok : (name : String) (m : Checked) {x : Unit {0}} → named name m ≡ ok x → m ≡ ok tt
named-eq-ok name (ok tt) h = refl
named-eq-ok name (err e) h = cc h
named-eq-ok name panic h = cc h

reject_if-eq-ok :
    {A B : Type 0} (o : Option A) (x : ToolRegistrationError) (m : Outcome ToolRegistrationError B)
    {b : B}
    → (reject_if (is_some o) x >> m) ≡ ok b
    → (o ≡ none) × (m ≡ ok b)
reject_if-eq-ok none x m h = (refl, h)
reject_if-eq-ok (some a) x m h = cc h

module _ {W V : Type 0} (is_object : V → Bool) where
  abbrev entry : ToolDefinition V → ToolHandler W V → RegisteredTool W V
  entry definition handler = record { definition = definition; handler = handler }

  -- What a registration that succeeds found and left.
  register-inv :
      (runtime after : ToolRuntime W V) (d : ToolDefinition V) (handler : ToolHandler W V)
      → register is_object runtime d handler ≡ ok after
      → (validate is_object d ≡ ok tt)
        × (lookup d.name runtime.tools ≡ none)
        × (after.tools ≡ put d.name (entry d handler) runtime.tools)
  unfolding register
  register-inv runtime after d handler h =
      let (u, valid, more) = >>=-eq-ok (named d.name (validate is_object d)) _ h in
      let (new_name, done) = reject_if-eq-ok (lookup d.name runtime.tools) _ _ more in
      (named-eq-ok d.name _ valid, new_name, ap (λ r. r.tools) (sym (ok-injective done)))

  -- If a registration succeeds, the definition is valid and its name was free; afterwards the name
  -- leads to the definition, and every other name leads where it led before.
  pub register-lookup :
      (runtime after : ToolRuntime W V) (d : ToolDefinition V) (handler : ToolHandler W V)
      → register is_object runtime d handler ≡ ok after
      → (validate is_object d ≡ ok tt)
        × (lookup_definition runtime d.name ≡ none)
        × ((name : String)
            → lookup_definition after name
              ≡ (if name == d.name then some d else lookup_definition runtime name))
  register-lookup runtime after d handler h =
      let (valid, free, tools) = register-inv runtime after d handler h in
      (
        valid,
        ap definition_of free,
        λ name.
            ap (λ tools. definition_of (lookup name tools)) tools
            ∙ ap definition_of (lookup-put name d.name (entry d handler) runtime.tools)
            ∙ split (name == d.name) (λ q. rw q refl) (λ q. rw q refl),
      )

  -- The registries that registrations can lead to.
  pub data Reachable : ToolRuntime W V → Type 0 where
    fresh_one : (identity : ToolDispatcherIdentity) → Reachable (new identity)
    registered :
        {runtime after : ToolRuntime W V} (d : ToolDefinition V) (handler : ToolHandler W V)
        → Reachable runtime
        → register is_object runtime d handler ≡ ok after
        → Reachable after

  -- In every registry that registrations lead to, what a name leads to is a valid definition of that
  -- name.
  pub registry_valid :
      {runtime : ToolRuntime W V} (name : String) (d : ToolDefinition V)
      → Reachable runtime
      → lookup_definition runtime name ≡ some d
      → (d.name ≡ name) × (validate is_object d ≡ ok tt)
  registry_valid name d (fresh_one identity) h = cc h
  registry_valid name d (registered {runtime} {after} d' handler reach step) h =
      let (valid, free, leads) = register-lookup runtime after d' handler step in
      split (name == d'.name)
        (λ q.
          let same : d' ≡ d = some-injective (sym (leads name ∙ rw q refl) ∙ h) in
          (
            sym (ap (λ x. x.name) same) ∙ sym ((eq_iff name d'.name).0 q),
            subst (λ x. validate is_object x ≡ ok tt) same valid,
          ))
        λ q. registry_valid name d reach (sym (leads name ∙ rw q refl) ∙ h)

-- The dispatchers that a process creates, one after the other, from a counter.
unfoldable pub fresh_many : {E : Type 0} → ℕ → ℕ → Outcome E (List ToolDispatcherIdentity)
unfolding fresh
fresh_many zero counter = ok []
fresh_many (suc n) counter = do
  (identity, next) ← fresh counter
  rest ← fresh_many n next
  ok (identity ∷ rest)

fresh-inv :
    {E : Type 0} (counter identity next : ℕ)
    → fresh {E = E} counter ≡ ok (identity, next)
    → (identity ≡ counter) × (next ≡ counter + 1)
unfolding fresh next_dispatcher_identity
fresh-inv {E} counter identity next h =
    split (counter == 0) (λ q. by_panic (sym (rw (fresh, next_dispatcher_identity, q) refl) ∙ h))
      λ q.
        split (ltb counter u64_max)
          (λ l. by_ok (sym (rw (fresh, next_dispatcher_identity, q, l) refl) ∙ h))
          (λ l. by_panic (sym (rw (fresh, next_dispatcher_identity, q, l) refl) ∙ h))
  where
    by_panic :
        ◌≡◌ {A = Outcome E (ℕ × ℕ)} panic (ok (identity, next))
        → (identity ≡ counter) × (next ≡ counter + 1)
    by_panic h = cc h

    by_ok :
        ◌≡◌ {A = Outcome E (ℕ × ℕ)} (ok (counter, counter + 1)) (ok (identity, next))
        → (identity ≡ counter) × (next ≡ counter + 1)
    by_ok h = (sym (ap (λ x. x.0) (ok-injective h)), sym (ap (λ x. x.1) (ok-injective h)))

fresh_many-above :
    {E : Type 0} (n counter : ℕ) (ids : List ToolDispatcherIdentity)
    → fresh_many {E = E} n counter ≡ ok ids
    → All (λ i. counter ≤ i) ids
unfolding fresh_many
fresh_many-above zero counter [] h = tt
fresh_many-above zero counter (i ∷ ids) h = cc h
fresh_many-above (suc n) counter ids h =
    let ((identity, next), one, more) = >>=-eq-ok (fresh counter) _ h in
    let (rest, others, done) = >>=-eq-ok (fresh_many n next) _ more in
    let (first, second) = fresh-inv counter identity next one in
    subst (All (λ i. counter ≤ i)) (ok-injective done) (
      omega (arith, first),
      All-map_imp {P = λ i. next ≤ i} {Q = λ i. counter ≤ i} rest
          (λ i le. omega (arith, le, second)) (fresh_many-above n next rest others),
    )

above-absent : (i : ℕ) (ids : List ℕ) → All (λ j. suc i ≤ j) ids → contains ids i ≡ false
above-absent i [] h = refl
above-absent i (j ∷ ids) h = ground (arith, above-absent i ids h.1, h.0, eqb_iff i j)

-- If a process creates any number of dispatchers without running out of identities, no two of them
-- have the same identity.
pub fresh_many_apart :
    {E : Type 0} (n counter : ℕ) (ids : List ToolDispatcherIdentity)
    → fresh_many {E = E} n counter ≡ ok ids
    → Distinct ids
unfolding fresh_many
fresh_many_apart zero counter [] h = tt
fresh_many_apart zero counter (i ∷ ids) h = cc h
fresh_many_apart (suc n) counter ids h =
    let ((identity, next), one, more) = >>=-eq-ok (fresh counter) _ h in
    let (rest, others, done) = >>=-eq-ok (fresh_many n next) _ more in
    let (first, second) = fresh-inv counter identity next one in
    subst Distinct (ok-injective done) (
      above-absent identity rest (
          All-map_imp {P = λ i. next ≤ i} {Q = λ i. suc identity ≤ i} rest
            (λ i le. omega (arith, le, first, second)) (fresh_many-above n next rest others)),
      fresh_many_apart n next rest others,
    )
