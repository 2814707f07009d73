-- ===== src/Rpc/MostVotes.antt =====
-- ProviderWithAgreement.ts: `pickResponseWithMostVotes`.
use mathlib.Core.Path.{subst}
use redstone_oracles_monorep.Prelude.{
  if_cases, ℕ, zero, suc, ◌≤◌, String, Option, none, some, List, [], ◌∷◌, ltb, str_eq, All,
  All-mono, ◌≡◌, refl, sym, ap, ◌∙◌, arith, eq_iff, Bool-cases, inl, inr,
}
use redstone_oracles_monorep.Prelude.Dict.{Dict, get}
use redstone_oracles_monorep.Rpc.Agreement.{
  AgreementConfig, ProviderEvent, execute_with_agreement, max_by_votes,
  pick_response_with_most_votes,
}
use redstone_oracles_monorep.Rpc.Votes.{Unique, as_entry, votes_for, get-results, results-Unique}

module _ (config : AgreementConfig) where
  -- The entries of an object with each key once are what reading their keys gives.
  entries_get : (d : Dict ℕ) → Unique config d → All (λ (k, n). get d k ≡ some n) d
  unfolding get
  entries_get [] unique = tt
  entries_get ((k, n) ∷ d) unique = (
    ground (arith, eq_iff k k),
    All-mono (λ (j, m). get d j ≡ some m)
        (λ (j, m) h. elim (Bool-cases (str_eq k j)) [
          | inl same ↦
              let e : k ≡ j = ground (arith, eq_iff k j) in
              let absent : get d j ≡ none = rw (← e) unique.0 in cc
          | inr differs ↦ rw differs h
        ])
        d (entries_get d unique.1),
  )

  -- What the search for the entry with the most votes keeps true.
  max_by_votes_lem :
      (P : String × ℕ → Type 0) (entries : Dict ℕ) (best : String × ℕ)
      → P best
      → All P entries
      → P (max_by_votes entries best)
        × (best.1 ≤ (max_by_votes entries best).1)
        × All (λ (k, n). n ≤ (max_by_votes entries best).1) entries
  max_by_votes_lem P [] best holds all = (holds, omega arith, tt)
  max_by_votes_lem P ((k, n) ∷ entries) best holds all =
      if_cases
        (λ (next : String × ℕ).
          P (max_by_votes entries next)
          × (best.1 ≤ (max_by_votes entries next).1)
          × All (λ (k, n). n ≤ (max_by_votes entries next).1) ((k, n) ∷ entries))
        (ltb best.1 n) (k, n) best
        (λ more.
          let (found, above, others) = max_by_votes_lem P entries (k, n) all.0 all.1 in
          let less : best.1 ≤ n = ground (arith, more) in
          (found, omega (arith, above, less), (above, others)))
        (λ fewer.
          let (found, above, others) = max_by_votes_lem P entries best holds all.1 in
          let less : n ≤ best.1 = ground (arith, fewer) in
          (found, above, (omega (arith, above, less), others)))

  get-at_most :
      (d : Dict ℕ) (limit : ℕ) (key : String) (n : ℕ)
      → get d key ≡ some n
      → All (λ e. e.1 ≤ limit) d
      → n ≤ limit
  unfolding get
  get-at_most [] limit key n h all = cc
  get-at_most ((k, m) ∷ d) limit key n h all = elim (Bool-cases (str_eq k key)) [
    | inl here ↦
        let e : some m ≡ some n = rw (← h) (rw here refl) in
        let same : m ≡ n = cc in rw (← same) all.0
    | inr there ↦
        let e : get d key ≡ some n = rw (← h) (rw there refl) in get-at_most d limit key n e all.1
  ]

  -- A result with votes that no other result has more of.
  abbrev pub IsMostVoted : List (ProviderEvent config) → String → Type 0
  IsMostVoted events result =
      (1 ≤ votes_for config result events)
      × ((other : String) → votes_for config other events ≤ votes_for config result events)

  as_entry-eq-some : (votes n : ℕ) → as_entry config votes ≡ some n → (votes ≡ n) × (1 ≤ n)
  as_entry-eq-some zero n h = cc
  as_entry-eq-some (suc votes) n h = let e : suc votes ≡ n = cc in (e, omega (arith, e))

  at_most-as_entry :
      (votes limit : ℕ) (o : Option ℕ)
      → o ≡ as_entry config votes
      → ((n : ℕ) → o ≡ some n → n ≤ limit)
      → votes ≤ limit
  at_most-as_entry zero limit o h below = omega arith
  at_most-as_entry (suc votes) limit o h below = below (suc votes) h

  picked :
      (events : List (ProviderEvent config)) (result : String) (d : Dict ℕ)
      → (execute_with_agreement config events).results ≡ d
      → pick_response_with_most_votes d ≡ some result
      → IsMostVoted events result
  unfolding pick_response_with_most_votes
  picked events result [] e h = cc
  picked events result (first ∷ entries) e h =
      let unique : Unique config (first ∷ entries) =
        subst (Unique config) e (results-Unique config events) in
      let reads = entries_get (first ∷ entries) unique in
      let (found, above, others) =
        max_by_votes_lem (λ (k, n). get (first ∷ entries) k ≡ some n) entries first reads.0
          reads.1 in
      let best = (max_by_votes entries first).1 in
      let named : (max_by_votes entries first).0 ≡ result = cc in
      let own : get (execute_with_agreement config events).results result ≡ some best =
        ap (λ d. get d result) e ∙ rw (← named) found in
      let (votes, some_vote) =
        as_entry-eq-some (votes_for config result events) best
          (sym (get-results config events result) ∙ own) in
      (
        omega (arith, votes, some_vote),
        (λ other. rw votes (
            at_most-as_entry (votes_for config other events) best
              (get (execute_with_agreement config events).results other)
              (get-results config events other)
              (λ n k.
                get-at_most (first ∷ entries) best other n (sym (ap (λ d. get d other) e) ∙ k)
                  (above, others)))),
      )

  pub pick_response-IsMostVoted :
      (events : List (ProviderEvent config)) (result : String)
      → pick_response_with_most_votes (execute_with_agreement config events).results ≡ some result
      → IsMostVoted events result
  pick_response-IsMostVoted events result h =
      picked events result (execute_with_agreement config events).results refl h
