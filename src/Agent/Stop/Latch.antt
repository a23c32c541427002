-- ===== src/Agent/Stop/Latch.antt =====
-- The stop token of crates/agent-runtime/src/runtime.rs under the methods that threads call on it.
use young_agent.Prelude.{
  Bool, true, false, ◌≡◌, refl, sym, ap, ◌∙◌, Option, none, some, Outcome, ok, err, ◌↔◌,
  ok-injective, Option-cases, inl, inr, split,
}
use young_agent.Agent.Event.{RunId, TerminalRunStatus}
use young_agent.Agent.Stop.{RunStopToken, unused, is_stop, bind, resolve_terminal, status}

-- One method call on the token, by any thread.
pub data Step : RunStopToken → RunStopToken → Type 0 where
  bound : {a b : RunStopToken} (id : RunId) → bind id a ≡ ok b → Step a b
  resolved : {a : RunStopToken} (x : TerminalRunStatus) → Step a (resolve_terminal x a).1

-- Any number of them, in any order.
pub data Steps : RunStopToken → RunStopToken → Type 0 where
  done : {a : RunStopToken} → Steps a a
  and_then : {a b c : RunStopToken} → Steps a b → Step b c → Steps a c

-- The flag is up exactly when the settled status is a stop.
abbrev shows : Option TerminalRunStatus → Bool
shows none = false
shows (some x) = is_stop x

IsConsistent : RunStopToken → Type 0
IsConsistent t = t.cancellation ≡ shows t.terminal_status

some-injective : {A : Type 0} {x y : A} → some x ≡ some y → x ≡ y
some-injective h = cc h

bind-inv :
    (id : RunId) (a b : RunStopToken)
    → bind id a ≡ ok b
    → (b.cancellation ≡ a.cancellation) × (b.terminal_status ≡ a.terminal_status)
unfolding bind
bind-inv id a b h = elim (Option-cases a.bound_run_id) [
  | inl q ↦ unbound (sym (rw (bind, q) refl) ∙ h)
  | inr (x, q) ↦ taken x (sym (rw (bind, q) refl) ∙ h)
]
  where
    unbound :
        ◌≡◌ {A = Outcome RunId RunStopToken} (ok (record a { bound_run_id = some id })) (ok b)
        → (b.cancellation ≡ a.cancellation) × (b.terminal_status ≡ a.terminal_status)
    unbound h = (
      sym (ap (λ t. t.cancellation) (ok-injective h)),
      sym (ap (λ t. t.terminal_status) (ok-injective h)),
    )

    taken :
        (x : RunId)
        → ◌≡◌ {A = Outcome RunId RunStopToken} (err x) (ok b)
        → (b.cancellation ≡ a.cancellation) × (b.terminal_status ≡ a.terminal_status)
    taken x h = cc h

-- A settled token answers what it settled on and does not change.
resolve-settled :
    (x y : TerminalRunStatus) (a : RunStopToken)
    → a.terminal_status ≡ some x
    → resolve_terminal y a ≡ (x, a)
unfolding resolve_terminal
resolve-settled x y a q = simp (resolve_terminal, q)

-- The answer is what the token has settled on afterwards.
resolve-settles :
    (x : TerminalRunStatus) (a : RunStopToken)
    → (resolve_terminal x a).1.terminal_status ≡ some (resolve_terminal x a).0
unfolding resolve_terminal
resolve-settles x a = elim (Option-cases a.terminal_status) [
  | inl q ↦ rw (resolve_terminal, q) refl
  | inr (y, q) ↦ rw (resolve-settled y x a q) q
]

Step-settled :
    {a b : RunStopToken} (x : TerminalRunStatus)
    → Step a b
    → a.terminal_status ≡ some x
    → b.terminal_status ≡ some x
Step-settled {a} {b} x (bound id h) q = (bind-inv id a b h).1 ∙ q
Step-settled {a} x (resolved y) q = ap (λ r. r.1.terminal_status) (resolve-settled x y a q) ∙ q

Steps-settled :
    {a b : RunStopToken} (x : TerminalRunStatus)
    → Steps a b
    → a.terminal_status ≡ some x
    → b.terminal_status ≡ some x
Steps-settled x done q = q
Steps-settled x (and_then steps step) q = Step-settled x step (Steps-settled x steps q)

-- Once a terminal status has been resolved, every later resolution by any thread answers with that
-- first status, whatever the methods of the token that ran in between.
pub first_terminal_wins :
    (x y : TerminalRunStatus) (a b : RunStopToken)
    → Steps (resolve_terminal x a).1 b
    → (resolve_terminal y b).0 ≡ (resolve_terminal x a).0
first_terminal_wins x y a b steps =
    ap (λ r. r.0)
      (resolve-settled (resolve_terminal x a).0 y b (Steps-settled _ steps (resolve-settles x a)))

resolve-IsConsistent :
    (x : TerminalRunStatus) (a : RunStopToken)
    → IsConsistent a
    → IsConsistent (resolve_terminal x a).1
unfolding resolve_terminal IsConsistent
resolve-IsConsistent x a h = elim (Option-cases a.terminal_status) [
  | inr (y, q) ↦ rw (resolve-settled y x a q) h
  | inl q ↦
      rw (resolve_terminal, q) (split (is_stop x) (λ s. rw s refl) (λ s. rw s (h ∙ ap shows q)))
]

Step-IsConsistent : {a b : RunStopToken} → Step a b → IsConsistent a → IsConsistent b
unfolding IsConsistent
Step-IsConsistent {a} {b} (bound id h) c =
    let (flag, settled) = bind-inv id a b h in flag ∙ c ∙ ap shows (sym settled)
Step-IsConsistent {a} (resolved x) c = resolve-IsConsistent x a c

Steps-IsConsistent : {a b : RunStopToken} → Steps a b → IsConsistent a → IsConsistent b
Steps-IsConsistent done c = c
Steps-IsConsistent (and_then steps step) c = Step-IsConsistent step (Steps-IsConsistent steps c)

-- On every token that method calls lead to from a new one, `status` answers with a status exactly
-- when the token has settled on it and it is an interruption or a cancellation.
pub status_iff :
    (b : RunStopToken) (x : TerminalRunStatus)
    → Steps unused b
    → (status b ≡ some x) ↔ ((b.terminal_status ≡ some x) × (is_stop x ≡ true))
unfolding status IsConsistent
status_iff b x steps = (there, back)
  where
    flag : b.cancellation ≡ shows b.terminal_status
    flag = Steps-IsConsistent steps refl

    there : status b ≡ some x → (b.terminal_status ≡ some x) × (is_stop x ≡ true)
    there h =
        split b.cancellation
          (λ q.
            let settled : b.terminal_status ≡ some x = sym (rw (status, q) refl) ∙ h in
            (settled, sym (ap shows settled) ∙ sym flag ∙ q))
          λ q. nothing (sym (rw (status, q) refl) ∙ h)
      where
        nothing :
            ◌≡◌ {A = Option TerminalRunStatus} none (some x)
            → (b.terminal_status ≡ some x) × (is_stop x ≡ true)
        nothing h = cc h

    back : (b.terminal_status ≡ some x) × (is_stop x ≡ true) → status b ≡ some x
    back (settled, stops) = rw (status, flag, settled, stops) refl
