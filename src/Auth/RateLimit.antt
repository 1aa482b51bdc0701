-- ===== src/Auth/RateLimit.antt =====
-- The limit on logins in `AllowLogin`, server/internal/infrastructure/persistence/postgres/auth.go.
use arran.Prelude.{
  ℕ, ◌+◌, ◌-◌, ◌<◌, ◌≤◌, ◌≡◌, sym, All, String, Bool, true, List, [], ◌∷◌, ◌==◌, if◌then◌else◌,
  arith, keep,
}
use mathlib.Core.Path.{subst}
use arran.World.Monad.{Result, ok}
use arran.Auth.Store.{
  AttemptRow, AuthState, live_attempts, add_attempt, attempts_of, count_attempt, allow_login,
}
use arran.Auth.Transaction.{transaction-cases}

-- The attempts of a key are at least so many, in a window with this end.
unfoldable pub AtLeast : ℕ → ℕ → String → List AttemptRow → Type 0
AtLeast a window key [] = ⊥
AtLeast a window key (row ∷ rows) =
    if row.key == key
    then (a ≤ row.attempts) × (row.window_end ≡ window)
    else AtLeast a window key rows

live_attempts-AtLeast :
    (a window now : ℕ) (key : String) (rows : List AttemptRow)
    → now < window
    → AtLeast a window key rows
    → AtLeast a window key (live_attempts now rows)
unfolding AtLeast live_attempts keep
live_attempts-AtLeast a window now key [] h l = l
live_attempts-AtLeast a window now key (row ∷ rows) h l =
    ground (arith, live_attempts-AtLeast a window now key rows)

add_attempt-AtLeast :
    (a window now : ℕ) (key other : String) (rows : List AttemptRow)
    → AtLeast a window key rows
    → AtLeast a window key (add_attempt other now rows)
unfolding AtLeast add_attempt
add_attempt-AtLeast a window now key other [] l = absurd l
add_attempt-AtLeast a window now key other (row ∷ rows) l =
    ground (arith, add_attempt-AtLeast a window now key other rows)

add_attempt_same-AtLeast :
    (a window now : ℕ) (key : String) (rows : List AttemptRow)
    → AtLeast a window key rows
    → AtLeast (a + 1) window key (add_attempt key now rows)
unfolding AtLeast add_attempt
add_attempt_same-AtLeast a window now key [] l = absurd l
add_attempt_same-AtLeast a window now key (row ∷ rows) l =
    ground (arith, add_attempt_same-AtLeast a window now key rows)

attempts_of-AtLeast :
    (a window : ℕ) (key : String) (rows : List AttemptRow)
    → AtLeast a window key rows
    → a ≤ attempts_of key rows
unfolding AtLeast attempts_of
attempts_of-AtLeast a window key [] l = absurd l
attempts_of-AtLeast a window key (row ∷ rows) l =
    ground (arith, attempts_of-AtLeast a window key rows)

abbrev admitted : Result Bool → ℕ
admitted (ok true) = 1
admitted _ = 0

-- What a call leaves: some more attempts, and an admission only by the fifth.
abbrev Counted : ℕ → ℕ → String → Result Bool × AuthState → Type 0
Counted a window key (r, t) =
    (b : ℕ) × AtLeast b window key t.db.attempts × (admitted r + (5 - b) ≤ 5 - a)

count_attempt-Counted :
    (a window now : ℕ) (ip key : String) (rows : List AttemptRow)
    → now < window
    → AtLeast a window key rows
    → AtLeast (a + 1) window key (count_attempt ip key now rows).1
      × (admitted (ok (count_attempt ip key now rows).0) + (5 - (a + 1)) ≤ 5 - a)
unfolding count_attempt
count_attempt-Counted a window now ip key rows h l =
    let live = live_attempts-AtLeast a window now key rows h l in
    let one = add_attempt ip now (live_attempts now rows) in
    let mine =
      add_attempt_same-AtLeast a window now key one
        (add_attempt-AtLeast a window now key ip (live_attempts now rows) live) in
    (mine, ground (arith, attempts_of-AtLeast (a + 1) window key (add_attempt key now one) mine))

allow_login-Counted :
    (a window : ℕ) (ip key : String) (s : AuthState)
    → s.clock < window
    → AtLeast a window key s.db.attempts
    → Counted a window key (allow_login ip key s)
unfolding allow_login
allow_login-Counted a window ip key s h l =
    transaction-cases (Counted a window key) 4 _ s
      (λ e t d. (a, subst (λ db. AtLeast a window key db.attempts) (sym d) l, omega arith))
      (λ t d c.
        let (kept, bound) =
          count_attempt-Counted a window t.clock ip key t.db.attempts
            (subst (λ now. now < window) (sym c) h)
            (subst (λ db. AtLeast a window key db.attempts) (sym d) l) in
        (a + 1, kept, bound))

-- How many of a sequence of logins for one username are let through to the password check, each
-- at its time and from its address.
unfoldable pub count_allowed : String → List (String × ℕ) → AuthState → ℕ
unfolding allow_login
count_allowed key [] s = 0
count_allowed key ((ip, now) ∷ tries) s =
    let (r, t) = allow_login ip key (record s { clock = now }) in
    admitted r + count_allowed key tries t

-- Where a key has at least so many attempts counted in a window, then of any sequence of logins of
-- that key before the end of the window, from any addresses and with any failures of the database,
-- at most 5 less those are let through.
pub allow_login_bound :
    (a window : ℕ) (key : String) (tries : List (String × ℕ)) (s : AuthState)
    → AtLeast a window key s.db.attempts
    → All (λ try. try.1 < window) tries
    → count_allowed key tries s ≤ 5 - a
unfolding count_allowed
allow_login_bound a window key [] s l h = omega arith
allow_login_bound a window key ((ip, now) ∷ tries) s l h =
    let (b, l2, k) = allow_login-Counted a window ip key (record s { clock = now }) h.0 l in
    let rest =
      allow_login_bound b window key tries (allow_login ip key (record s { clock = now })).1 l2
        h.1 in
    omega (arith, k, rest)
