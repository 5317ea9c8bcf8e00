-- ===== src/Retry/Limits.antt =====
-- How often a call is made, and when it is given up.
use mathlib.Core.Path.{subst}
use jean_fourche.Base.{
  Bool, false, sym, ◌==◌, ℕ, zero, suc, true, ◌+◌, ◌*◌, ◌-◌, ◌≤◌, ◌<◌, ◌≡◌, refl, ◌∙◌, inl, inr,
  Option, List, [], ◌∷◌, ◌++◌, leb, if◌then◌else◌, arith, Bool-cases,
}
use jean_fourche.Retry.{
  client, throttled, server, recursion_error, other, Outcome, returned, raised, Ended, attempts,
  catch_exception, client_limit, server_limit, client_timeout, server_timeout, retry_timeout,
}

-- The method fails by client errors alone, or answers.
abbrev pub IsClientSide : {A : Type 0} → Outcome A → Type 0
IsClientSide (returned a) = Unit
IsClientSide (raised (client after)) = Unit
IsClientSide (raised (throttled t)) = ⊥
IsClientSide (raised (server after)) = ⊥
IsClientSide (raised recursion_error) = Unit
IsClientSide (raised other) = Unit

abbrev pub IsServerSide : {A : Type 0} → Outcome A → Type 0
IsServerSide (returned a) = Unit
IsServerSide (raised (client after)) = ⊥
IsServerSide (raised (throttled t)) = ⊥
IsServerSide (raised (server after)) = Unit
IsServerSide (raised recursion_error) = Unit
IsServerSide (raised other) = Unit

abbrev pub is_client_error : {A : Type 0} → Outcome A → Bool
is_client_error (raised (client after)) = true
is_client_error _ = false

abbrev pub is_server_error : {A : Type 0} → Outcome A → Bool
is_server_error (raised (server after)) = true
is_server_error _ = false

module _ {A : Type 0} (method : ℕ → Outcome A) where
  -- One call, by what the method answers.
  step-returned :
      (depth n c s : ℕ) (waits : List ℕ) (a : A)
      → method n ≡ returned a
      → attempts method (suc depth) n c s waits
        ≡ record { outcome = returned a; calls = suc n; waits = waits }
  unfolding attempts
  step-returned depth n c s waits a e = rw (e, attempts)

  step-client :
      (depth n c s : ℕ) (waits : List ℕ) (after : Option ℕ)
      → method n ≡ raised (client after)
      → attempts method (suc depth) n c s waits ≡ (
          if leb c client_limit
          then attempts method depth
              (suc n)
              (c + 1)
              1
              (waits ++ retry_timeout after client_timeout c ∷ [])
          else record { outcome = raised (client after); calls = suc n; waits = waits })
  unfolding attempts
  step-client depth n c s waits after e = rw (e, attempts)

  step-server :
      (depth n c s : ℕ) (waits : List ℕ) (after : Option ℕ)
      → method n ≡ raised (server after)
      → attempts method (suc depth) n c s waits ≡ (
          if leb s server_limit
          then attempts method depth
              (suc n)
              1
              (s + 1)
              (waits ++ retry_timeout after server_timeout s ∷ [])
          else record { outcome = raised (server after); calls = suc n; waits = waits })
  unfolding attempts
  step-server depth n c s waits after e = rw (e, attempts)

  step-other :
      (depth n c s : ℕ) (waits : List ℕ)
      → method n ≡ raised other
      → attempts method (suc depth) n c s waits
        ≡ record { outcome = raised other; calls = suc n; waits = waits }
  unfolding attempts
  step-other depth n c s waits e = rw (e, attempts)

  step-throttled :
      (depth n c s : ℕ) (waits : List ℕ) (t : ℕ)
      → method n ≡ raised (throttled t)
      → attempts method (suc depth) n c s waits
        ≡ attempts method depth (suc n) c 1 (waits ++ t ∷ [])
  unfolding attempts
  step-throttled depth n c s waits t e = rw (e, attempts)

  step-recursion :
      (depth n c s : ℕ) (waits : List ℕ)
      → method n ≡ raised recursion_error
      → attempts method (suc depth) n c s waits
        ≡ record { outcome = raised recursion_error; calls = suc n; waits = waits }
  unfolding attempts
  step-recursion depth n c s waits e = rw (e, attempts)

  -- The call is made once and then again as long as it fails in the given way, but not more often
  -- than the limit: the outcome is that of the last call, each call before it failed, and if the
  -- last one failed too, then the limit is reached.
  abbrev pub GivesUp : ℕ → (Outcome A → Bool) → Ended A → Type 0
  GivesUp limit fails r =
      (1 ≤ r.calls)
      × (r.calls ≤ limit)
      × (method (r.calls - 1) ≡ r.outcome)
      × ((i : ℕ) → i < r.calls - 1 → fails (method i) ≡ true)
      × (fails r.outcome ≡ true → r.calls ≡ limit)

  ends_here :
      (limit : ℕ) (fails : Outcome A → Bool) (n : ℕ) (waits : List ℕ) (o : Outcome A)
      {run : Ended A}
      → n < limit
      → method n ≡ o
      → ((i : ℕ) → i < n → fails (method i) ≡ true)
      → (fails o ≡ true → suc n ≡ limit)
      → run ≡ record { outcome = o; calls = suc n; waits = waits }
      → GivesUp limit fails run
  ends_here limit fails n waits o h e before last r =
      subst (GivesUp limit fails) (sym r)
        (omega arith, omega arith, rw back e, (λ i l. before i (omega (arith, l))), last)
    where
      back : suc n - 1 ≡ n
      back = omega arith

  snoc :
      (fails : Outcome A → Bool) (n : ℕ)
      → ((i : ℕ) → i < n → fails (method i) ≡ true)
      → fails (method n) ≡ true
      → (i : ℕ) → i < suc n
      → fails (method i) ≡ true
  snoc fails n before e i l = elim (Bool-cases (i == n)) [
    | inl same ↦ let at : i ≡ n = ground (arith, same) in rw at e
    | inr apart ↦ before i (ground (arith, apart, l))
  ]

  client_ends :
      ((n : ℕ) → IsClientSide (method n))
      → (depth n : ℕ) (waits : List ℕ) → n ≤ client_limit
      → client_limit + 1 ≤ depth + n
      → ((i : ℕ) → i < n → is_client_error (method i) ≡ true)
      → GivesUp (client_limit + 1) is_client_error (attempts method depth n (suc n) 1 waits)
  client_ends h zero n waits small enough before = absurd (omega arith)
  client_ends h (suc depth) n waits small enough before = by_answer (method n) refl (h n) (λ after.
      client_ends h depth (suc n) (waits ++ retry_timeout after client_timeout (suc n) ∷ []))
    where
      by_answer :
          (o : Outcome A)
          → method n ≡ o
          → IsClientSide o
          → ((after : Option ℕ)
              → suc n ≤ client_limit
              → client_limit + 1 ≤ depth + suc n
              → ((i : ℕ) → i < suc n → is_client_error (method i) ≡ true)
              → GivesUp (client_limit + 1) is_client_error (
                  attempts method depth
                    (suc n)
                    (suc (suc n))
                    1
                    (waits ++ retry_timeout after client_timeout (suc n) ∷ [])))
          → GivesUp
              (client_limit + 1)
              is_client_error
              (attempts method (suc depth) n (suc n) 1 waits)
      by_answer (returned a) e side again =
          ends_here (client_limit + 1) is_client_error n waits _ (omega arith) e before
            (λ t. absurd (ground arith)) (step-returned depth n (suc n) 1 waits a e)
      by_answer (raised other) e side again =
          ends_here (client_limit + 1) is_client_error n waits _ (omega arith) e before
            (λ t. absurd (ground arith)) (step-other depth n (suc n) 1 waits e)
      by_answer (raised recursion_error) e side again =
          ends_here (client_limit + 1) is_client_error n waits _ (omega arith) e before
            (λ t. absurd (ground arith)) (step-recursion depth n (suc n) 1 waits e)
      by_answer (raised (throttled _)) e side again = elim side [ ]
      by_answer (raised (server _)) e side again = elim side [ ]
      by_answer (raised (client after)) e side again =
          elim (Bool-cases (leb (suc n) client_limit)) [
            | inl more ↦
                let next : suc n + 1 ≡ suc (suc n) = omega arith in
                rw (step-client depth n (suc n) 1 waits after e) (
                  rw more (
                    rw next (
                      again after (ground arith) (omega arith)
                        (snoc is_client_error n before (rw e refl)))))
            | inr over ↦
                ends_here (client_limit + 1) is_client_error n waits _ (ground arith) e before
                  (λ t. ground arith) (step-client depth n (suc n) 1 waits after e ∙ rw over refl)
          ]

  server_ends :
      ((n : ℕ) → IsServerSide (method n))
      → (depth n : ℕ) (waits : List ℕ) → n ≤ server_limit
      → server_limit + 1 ≤ depth + n
      → ((i : ℕ) → i < n → is_server_error (method i) ≡ true)
      → GivesUp (server_limit + 1) is_server_error (attempts method depth n 1 (suc n) waits)
  server_ends h zero n waits small enough before = absurd (omega arith)
  server_ends h (suc depth) n waits small enough before = by_answer (method n) refl (h n) (λ after.
      server_ends h depth (suc n) (waits ++ retry_timeout after server_timeout (suc n) ∷ []))
    where
      by_answer :
          (o : Outcome A)
          → method n ≡ o
          → IsServerSide o
          → ((after : Option ℕ)
              → suc n ≤ server_limit
              → server_limit + 1 ≤ depth + suc n
              → ((i : ℕ) → i < suc n → is_server_error (method i) ≡ true)
              → GivesUp (server_limit + 1) is_server_error (
                  attempts method depth
                    (suc n)
                    1
                    (suc (suc n))
                    (waits ++ retry_timeout after server_timeout (suc n) ∷ [])))
          → GivesUp
              (server_limit + 1)
              is_server_error
              (attempts method (suc depth) n 1 (suc n) waits)
      by_answer (returned a) e side again =
          ends_here (server_limit + 1) is_server_error n waits _ (omega arith) e before
            (λ t. absurd (ground arith)) (step-returned depth n 1 (suc n) waits a e)
      by_answer (raised other) e side again =
          ends_here (server_limit + 1) is_server_error n waits _ (omega arith) e before
            (λ t. absurd (ground arith)) (step-other depth n 1 (suc n) waits e)
      by_answer (raised recursion_error) e side again =
          ends_here (server_limit + 1) is_server_error n waits _ (omega arith) e before
            (λ t. absurd (ground arith)) (step-recursion depth n 1 (suc n) waits e)
      by_answer (raised (throttled _)) e side again = elim side [ ]
      by_answer (raised (client _)) e side again = elim side [ ]
      by_answer (raised (server after)) e side again =
          elim (Bool-cases (leb (suc n) server_limit)) [
            | inl more ↦
                let next : suc n + 1 ≡ suc (suc n) = omega arith in
                rw (step-server depth n 1 (suc n) waits after e) (
                  rw more (
                    rw next (
                      again after (ground arith) (omega arith)
                        (snoc is_server_error n before (rw e refl)))))
            | inr over ↦
                ends_here (server_limit + 1) is_server_error n waits _ (ground arith) e before
                  (λ t. ground arith) (step-server depth n 1 (suc n) waits after e ∙ rw over refl)
          ]

  -- A method that fails by client errors alone is called again after each of them, nine calls in
  -- all at most: the outcome is that of the last call, each call before it failed by a client
  -- error, and a client error is raised after the ninth call and not before. The stack has room for
  -- nine calls.
  pub client_errors_end :
      (depth : ℕ)
      → 9 ≤ depth
      → ((n : ℕ) → IsClientSide (method n))
      → GivesUp 9 is_client_error (catch_exception method depth)
  unfolding catch_exception
  client_errors_end depth d h =
      client_ends h depth 0 [] (omega arith) (omega arith) (λ i l. absurd (omega arith))

  -- A method that fails by server errors alone is called again after each of them, six calls in all
  -- at most: the outcome is that of the last call, each call before it failed by a server error, and
  -- a server error is raised after the sixth call and not before. The stack has room for six calls.
  pub server_errors_end :
      (depth : ℕ)
      → 6 ≤ depth
      → ((n : ℕ) → IsServerSide (method n))
      → GivesUp 6 is_server_error (catch_exception method depth)
  unfolding catch_exception
  server_errors_end depth d h =
      server_ends h depth 0 [] (omega arith) (omega arith) (λ i l. absurd (omega arith))

  abbrev Exhausts : ℕ → Ended A → Type 0
  Exhausts n r = (r.calls ≡ n) × (r.outcome ≡ raised recursion_error)

  module _
      (alternating_client : (n : ℕ) → (after : Option ℕ) × (method (2 * n) ≡ raised (client after)))
      (alternating_server : (n : ℕ)
        → (after : Option ℕ) × (method (2 * n + 1) ≡ raised (server after))) where
    goes_on :
        (depth k : ℕ)
        → ((c s : ℕ) (waits : List ℕ)
            → c ≤ 1
            → Exhausts (depth + 2 * k) (attempts method depth (2 * k) c s waits))
          × ((c s : ℕ) (waits : List ℕ)
              → s ≤ 1
              → Exhausts (depth + (2 * k + 1)) (attempts method depth (2 * k + 1) c s waits))
    goes_on zero k = (
      (λ c s waits h.
          let start : 2 * k ≡ 0 + 2 * k = omega arith in unfold attempts in (start, refl)),
      (λ c s waits h.
          let start : 2 * k + 1 ≡ 0 + (2 * k + 1) = omega arith in
          unfold attempts in (start, refl)),
    )
    goes_on (suc depth) k = (
      (λ c s waits h.
          let (after, e) = alternating_client k in
          let allowed : leb c client_limit ≡ true = ground arith in
          let next : suc (2 * k) ≡ 2 * k + 1 = omega arith in
          let moved : suc depth + 2 * k ≡ depth + (2 * k + 1) = omega arith in
          rw (step-client depth (2 * k) c s waits after e) (
            rw allowed (
              rw next (
                rw moved (
                  (goes_on depth k).1 (c + 1) 1 (waits ++ retry_timeout after client_timeout c ∷ [])
                    (omega arith)))))),
      (λ c s waits h.
          let (after, e) = alternating_server k in
          let allowed : leb s server_limit ≡ true = ground arith in
          let next : suc (2 * k + 1) ≡ 2 * suc k = omega arith in
          let moved : suc depth + (2 * k + 1) ≡ depth + 2 * suc k = omega arith in
          rw (step-server depth (2 * k + 1) c s waits after e) (
            rw allowed (
              rw next (
                rw moved (
                  (goes_on depth (suc k)).0 1 (s + 1)
                    (waits ++ retry_timeout after server_timeout s ∷ []) (omega arith)))))),
    )

    -- The two limits do not bound the calls: where client errors and server errors take turns,
    -- each sets the other's counter back to 1, and the call is made again until the interpreter's
    -- stack has no more room, whatever its depth is; then RecursionError is raised.
    pub alternating_errors_exhaust_stack :
        (depth : ℕ)
        → ((catch_exception method depth).calls ≡ depth)
          × ((catch_exception method depth).outcome ≡ raised recursion_error)
    unfolding catch_exception
    alternating_errors_exhaust_stack depth =
        let all : depth + 2 * 0 ≡ depth = omega arith in
        subst (λ n. Exhausts n (attempts method depth 0 1 1 [])) all
          ((goes_on depth 0).0 1 1 [] (omega arith))
