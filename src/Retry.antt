-- ===== src/Retry.antt =====
-- `catch_exception` of integration/tools.py: a call of the store's API is made again after an
-- error that may pass. The decorated method is a function of the number of the call, so that it
-- may answer differently each time; what `sleep` waits is kept in `waits`.

pub mod Limits
mod Tests
use jean_fourche.Base.{
  ℕ, zero, suc, ◌+◌, ◌*◌, Option, none, some, List, [], ◌∷◌, ◌++◌, leb, if◌then◌else◌,
}

-- The first clause's errors and `ServerError` may carry a `retry_after`; `recursion_error` is the
-- interpreter's, and `other` is any further error that no clause names.
pub data Failure : Type 0 where
  client : Option ℕ → Failure
  throttled : ℕ → Failure
  server : Option ℕ → Failure
  recursion_error other : Failure

pub data Outcome (A : Type 0) : Type 0 where
  returned : A → Outcome A
  raised : Failure → Outcome A

abbrev pub client_limit : ℕ
client_limit = 8

abbrev pub server_limit : ℕ
server_limit = 5

abbrev pub client_timeout : ℕ
client_timeout = 4

abbrev pub server_timeout : ℕ
server_timeout = 2

-- `retry_after or default_timeout * attempt`: a zero counts as missing.
abbrev pub retry_timeout : Option ℕ → ℕ → ℕ → ℕ
retry_timeout none timeout attempt = timeout * attempt
retry_timeout (some zero) timeout attempt = timeout * attempt
retry_timeout (some (suc n)) timeout attempt = suc n

pub record Ended (A : Type 0) : Type 0 where
  pub outcome : Outcome A
  pub calls : ℕ
  pub waits : List ℕ

module _ {A : Type 0} (method : ℕ → Outcome A) where
  -- `attempts depth n c s waits` is `_catch_exception` with `_client_attempt = c` and
  -- `_server_attempt = s`, before call `n`. A retry is a call of itself, from within the `except`
  -- block: `depth` is how many of them the interpreter's stack still has room for, and the next one
  -- raises RecursionError, which no clause catches. A retry passes on one of the two counters; the
  -- other takes its default, 1.
  unfoldable pub attempts : ℕ → ℕ → ℕ → ℕ → List ℕ → Ended A
  attempts zero n c s waits = record { outcome = raised recursion_error; calls = n; waits = waits }
  attempts (suc depth) n c s waits = elim (method n) [
    | returned a ↦ record { outcome = returned a; calls = suc n; waits = waits }
    | raised e ↦ elim e [
      | client after ↦
          (let again =
              attempts depth (suc n) (c + 1) 1
                (waits ++ retry_timeout after client_timeout c ∷ []) in
            if leb c client_limit
            then again
            else record { outcome = raised (client after); calls = suc n; waits = waits })
      | throttled timeout ↦ attempts depth (suc n) c 1 (waits ++ timeout ∷ [])
      | server after ↦
          (let again =
              attempts depth (suc n) 1 (s + 1)
                (waits ++ retry_timeout after server_timeout s ∷ []) in
            if leb s server_limit
            then again
            else record { outcome = raised (server after); calls = suc n; waits = waits })
      | recursion_error ↦ record { outcome = raised recursion_error; calls = suc n; waits = waits }
      | other ↦ record { outcome = raised other; calls = suc n; waits = waits }
    ]
  ]

  unfoldable pub catch_exception : ℕ → Ended A
  unfolding attempts
  catch_exception depth = attempts depth 0 1 1 []
