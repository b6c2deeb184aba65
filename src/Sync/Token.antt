-- ===== src/Sync/Token.antt =====
-- syncsvc/token.go: the sync tokens.
use podcast_backend.Prelude.{ℕ, ℤ, pos, negsuc, ◌+ℤ◌, ◌≤ℤ◌, ◌<ℤ◌, leb_ℤ, eq_ℤ, arith, if◌then◌else◌}
use podcast_backend.Db.Tx.{Tx, ◌>>=◌, pure, now}

abbrev pub max_int64 : ℤ
max_int64 = pos 9223372036854775807

abbrev pub min_int64 : ℤ
min_int64 = negsuc 9223372036854775807

-- prev + 1 on int64, which wraps at the largest value.
unfoldable pub increment : ℤ → ℤ
increment prev = if eq_ℤ prev max_int64 then min_int64 else prev +ℤ pos 1

-- NextToken, at one reading of the clock.
unfoldable pub next_token : (reading prev : ℤ) → ℤ
unfolding increment
next_token reading prev = if leb_ℤ reading prev then increment prev else reading

-- NextToken reads the clock at each call.
abbrev pub fresh_token : (ℕ → ℤ) → ℤ → Tx ℤ
fresh_token clock prev = do reading ← now clock; pure (next_token reading prev)

-- A new token is past the old one and not behind the clock, and is the least such token, unless
-- the old one is the largest int64.
pub next_token_least :
    (reading prev : ℤ)
    → prev <ℤ max_int64
    → (prev <ℤ next_token reading prev)
      × (reading ≤ℤ next_token reading prev)
      × ((t : ℤ) → prev <ℤ t → reading ≤ℤ t → next_token reading prev ≤ℤ t)
unfolding next_token
next_token_least reading prev h = (ground arith, ground arith, λ t p q. ground arith)
