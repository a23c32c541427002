-- ===== src/Store/Tail/Search.antt =====
-- crates/event-store/src/jsonl.rs: what the search from the end of the file finds.
use young_agent.Prelude.{
  ℕ, zero, suc, ◌+◌, ◌-◌, ◌≤◌, ◌≡◌, refl, ap, ◌∙◌, subst, none, some, ◌++◌, length, drop, eqb,
  eqb_iff, arith, split, Option-cases, inl, inr,
}
use young_agent.Store.Bytes.{
  Bytes, take, length-take, take-add, last_newline, committed, last_newline-append_some,
  last_newline-append_none,
}
use young_agent.Store.Lines.{committed-some}
use young_agent.Store.Disk.{EventStoreError, System, Disk, bytes_of, read_at}
use young_agent.Store.Triples.{Gives, Gives-bind, at, Faulty, read_at-Gives}
use young_agent.Store.Tail.{search_chunk_size, search_back}

-- The last newline of the first `m + k` bytes, by what the last `k` of them have.
pub committed-chunk_some :
    (bytes : Bytes) (m k i : ℕ)
    → m ≤ length bytes
    → last_newline (take k (drop m bytes)) ≡ some i
    → committed (take (m + k) bytes) ≡ m + i + 1
committed-chunk_some bytes m k i h q =
    ap committed (take-add m k bytes)
    ∙ committed-some (take m bytes ++ take k (drop m bytes))
        (last_newline-append_some (take m bytes) (take k (drop m bytes)) i q)
    ∙ omega (arith, length-take m bytes h)

committed-chunk_none :
    (bytes : Bytes) (m k : ℕ)
    → last_newline (take k (drop m bytes)) ≡ none
    → committed (take (m + k) bytes) ≡ committed (take m bytes)
committed-chunk_none bytes m k q =
    ap committed (take-add m k bytes)
    ∙ rw (committed, last_newline-append_none (take m bytes) (take k (drop m bytes)) q) refl

upto_ap : (bytes : Bytes) (a b : ℕ) → a ≡ b → committed (take a bytes) ≡ committed (take b bytes)
upto_ap bytes a b e = ap (λ n. committed (take n bytes)) e

module _ {V X J : Type 0} (sys : System X) (s : Disk) (P : EventStoreError V X J → Disk → Type 0)
    (bad : (e : EventStoreError V X J) (n : ℕ) → Faulty sys → P e (at n s)) where
  -- With enough fuel the search finds where the committed part of the first `end` bytes ends.
  pub search_back-Gives :
      (wrap : X → EventStoreError V X J) (Q : ℕ → Disk → Type 0) (fuel n end : ℕ)
      → end ≤ fuel
      → end ≤ length (bytes_of s.log)
      → ((m : ℕ) → Q (committed (take end (bytes_of s.log))) (at m s))
      → Gives P Q (search_back sys wrap fuel end (at n s))
  unfolding search_back
  search_back-Gives wrap Q zero n end h k g =
      subst (λ a. Q a (at n s)) (upto_ap (bytes_of s.log) end 0 (omega arith)) (g n)
  search_back-Gives wrap Q (suc fuel) n end h k g =
      split (eqb end 0)
        (λ z.
          rw z (
            subst (λ a. Q a (at n s)) (upto_ap (bytes_of s.log) end 0 ((eqb_iff end 0).0 z)) (g n)))
        λ z.
          let start = end - search_chunk_size in
          let bytes = bytes_of s.log in
          rw z (
            Gives-bind P Q (read_at sys wrap start (end - start) (at n s)) _ (
              read_at-Gives sys s P bad wrap _ n start (end - start) (omega arith) λ m.
                elim (Option-cases (last_newline (take (end - start) (drop start bytes)))) [
                  | inr (i, q) ↦ rw q (
                      subst (λ a. Q a (at m s))
                        (upto_ap bytes end (start + (end - start)) (omega arith)
                          ∙ committed-chunk_some bytes start (end - start) i (omega arith) q)
                        (g m))
                  | inl q ↦ rw q (
                      search_back-Gives wrap Q fuel m start (ground arith) (omega arith) λ m'.
                        subst (λ a. Q a (at m' s))
                          (upto_ap bytes end (start + (end - start)) (omega arith)
                            ∙ committed-chunk_none bytes start (end - start) q)
                          (g m'))
                ]))

-- Fuel of `end` is enough for the search in the first `end` bytes: unless a call of the operating system
-- fails, it returns where their last newline ends, and the log is as it was.
pub search_back-committed :
    {V X J : Type 0} (sys : System X) (s : Disk) (wrap : X → EventStoreError V X J) (fuel end : ℕ)
    → end ≤ fuel
    → end ≤ length (bytes_of s.log)
    → Gives
        (λ e s'. Faulty sys × (s'.log ≡ s.log))
        (λ start s'. (start ≡ committed (take end (bytes_of s.log))) × (s'.log ≡ s.log))
        (search_back sys wrap fuel end s)
search_back-committed sys s wrap fuel end h k =
    search_back-Gives sys s _ (λ e n f. (f, refl)) wrap _ fuel s.clock end h k λ m. (refl, refl)
