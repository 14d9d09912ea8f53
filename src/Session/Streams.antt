-- ===== src/Session/Streams.antt =====
-- Lists of sessions and of streams, as sessions come and go.
use scdtr_project.Prelude.{
  ℕ, ◌+◌, ◌<◌, ◌≡◌, refl, subst, ◌∙◌, inl, inr, Bool, true, false, none, some, List, [], ◌∷◌, ◌++◌,
  arith, ◌==◌, ==_iff, Bool-cases, if-both, All, is_in,
}
use scdtr_project.Server.{Client, ActiveStream}
use scdtr_project.Server.Queue.{erase_session, is_client, erase_stream, is_connected}
use scdtr_project.Interpreter.{same_client, toggle}
use scdtr_project.Interpreter.Outcome.{IsChanged}

abbrev pub Connected : List ℕ → List ActiveStream → Type 0
Connected sessions = All (λ a. is_connected a.to_client sessions ≡ true)

abbrev pub Distinct : List ℕ → Type 0
Distinct [] = Unit {0}
Distinct (x ∷ xs) = (is_in x xs ≡ false) × Distinct xs

-- Sessions that come and go.
pub is_in-append_left : (c x : ℕ) (xs : List ℕ) → is_in c xs ≡ true → is_in c (xs ++ x ∷ []) ≡ true
is_in-append_left c x [] h = cc
is_in-append_left c x (y ∷ ys) h = ground (arith, is_in-append_left c x ys)

pub is_in-append_self : (c : ℕ) (xs : List ℕ) → is_in c (xs ++ c ∷ []) ≡ true
is_in-append_self c [] = ground arith
is_in-append_self c (y ∷ ys) = ground (arith, is_in-append_self c ys)

pub fresh : (c : ℕ) (xs : List ℕ) → All (λ x. x < c) xs → is_in c xs ≡ false
fresh c [] h = refl
fresh c (x ∷ xs) h = ground (arith, fresh c xs h.1)

not_in-append :
    (c x : ℕ) (xs : List ℕ) → x < c → is_in x xs ≡ false → is_in x (xs ++ c ∷ []) ≡ false
not_in-append c x [] lt h = ground arith
not_in-append c x (y ∷ ys) lt h = ground (arith, not_in-append c x ys lt)

pub Distinct-append :
    (c : ℕ) (xs : List ℕ) → All (λ x. x < c) xs → Distinct xs → Distinct (xs ++ c ∷ [])
Distinct-append c [] lt h = (refl, tt)
Distinct-append c (x ∷ xs) (lt, lts) (new, h) =
    (not_in-append c x xs lt new, Distinct-append c xs lts h)

pub All-lt_suc : (n : ℕ) (xs : List ℕ) → All (λ x. x < n) xs → All (λ x. x < n + 1) xs
All-lt_suc n [] h = tt
All-lt_suc n (x ∷ xs) (lt, h) = (omega arith, All-lt_suc n xs h)

pub is_in-erase :
    (c x : ℕ) (xs : List ℕ) → (x == c) ≡ false → is_in x (erase_session c xs) ≡ is_in x xs
unfolding erase_session
is_in-erase c x [] ne = refl
is_in-erase c x (y ∷ ys) ne = ground (arith, is_in-erase c x ys)

not_in-erase : (c x : ℕ) (xs : List ℕ) → is_in x xs ≡ false → is_in x (erase_session c xs) ≡ false
unfolding erase_session
not_in-erase c x [] h = refl
not_in-erase c x (y ∷ ys) h = ground (arith, not_in-erase c x ys)

pub Distinct-erase : (c : ℕ) (xs : List ℕ) → Distinct xs → Distinct (erase_session c xs)
unfolding erase_session
Distinct-erase c [] h = tt
Distinct-erase c (x ∷ xs) (new, h) =
    if-both Distinct (x == c) {x = xs} {y = x ∷ erase_session c xs} h
      (not_in-erase c x xs new, Distinct-erase c xs h)

pub gone_from : (c : ℕ) (xs : List ℕ) → Distinct xs → is_in c (erase_session c xs) ≡ false
unfolding erase_session
gone_from c [] h = refl
gone_from c (x ∷ xs) (new, h) = elim (Bool-cases (x == c)) [
  | inl t ↦ rw t (subst (λ y. is_in y xs ≡ false) ((==_iff x c).0 t) new)
  | inr f ↦ rw f (ground (arith, gone_from c xs h))
]

pub All-erase :
    (n c : ℕ) (xs : List ℕ) → All (λ x. x < n) xs → All (λ x. x < n) (erase_session c xs)
unfolding erase_session
All-erase n c [] h = tt
All-erase n c (x ∷ xs) (lt, h) =
    if-both (All (λ x. x < n)) (x == c) {x = xs} {y = x ∷ erase_session c xs} h
      (lt, All-erase n c xs h)

-- Streams of sessions that come and go.
is_connected-append :
    (client : Client) (x : ℕ) (xs : List ℕ)
    → is_connected client xs ≡ true
    → is_connected client (xs ++ x ∷ []) ≡ true
unfolding is_connected
is_connected-append none x xs h = refl
is_connected-append (some c) x xs h = is_in-append_left c x xs h

pub Connected-append :
    (x : ℕ) (xs : List ℕ) (streams : List ActiveStream)
    → Connected xs streams
    → Connected (xs ++ x ∷ []) streams
Connected-append x xs [] h = tt
Connected-append x xs (a ∷ more) (on, h) =
    (is_connected-append a.to_client x xs on, Connected-append x xs more h)

is_connected-erase :
    (c : ℕ) (client : Client) (xs : List ℕ)
    → is_client c client ≡ false
    → is_connected client xs ≡ true
    → is_connected client (erase_session c xs) ≡ true
unfolding is_connected is_client
is_connected-erase c none xs other on = refl
is_connected-erase c (some x) xs other on = is_in-erase c x xs other ∙ on

pub Connected-erase :
    (c : ℕ) (xs : List ℕ) (streams : List ActiveStream)
    → Connected xs streams
    → Connected (erase_session c xs) (erase_stream c streams)
unfolding erase_stream
Connected-erase c xs [] h = tt
Connected-erase c xs (a ∷ more) (on, h) = elim (Bool-cases (is_client c a.to_client)) [
  | inl t ↦ rw t (Connected-erase c xs more h)
  | inr f ↦ rw f (is_connected-erase c a.to_client xs f on, Connected-erase c xs more h)
]

Connected-toggle :
    (client : Client) (pwm : Bool) (xs : List ℕ) (streams : List ActiveStream)
    → is_connected client xs ≡ true
    → Connected xs streams
    → Connected xs (toggle client pwm streams)
unfolding toggle
Connected-toggle client pwm xs [] on h = (on, tt)
Connected-toggle client pwm xs (a ∷ more) on (on', h) =
    elim (Bool-cases (same_client client a.to_client)) [
      | inl t ↦ rw t (on', h)
      | inr f ↦ rw f (on', Connected-toggle client pwm xs more on h)
    ]

pub Connected-changed :
    (client : Client) (xs : List ℕ) (streams streams' : List ActiveStream)
    → is_connected client xs ≡ true
    → IsChanged client streams streams'
    → Connected xs streams
    → Connected xs streams'
Connected-changed client xs streams streams' on (inl same) h = rw same h
Connected-changed client xs streams streams' on (inr (pwm, toggled)) h =
    rw toggled (Connected-toggle client pwm xs streams on h)

-- No stream is left for a session that has gone.
pub erase_stream-gone :
    (c : ℕ) (streams : List ActiveStream)
    → All (λ a. is_client c a.to_client ≡ false) (erase_stream c streams)
unfolding erase_stream
erase_stream-gone c [] = tt
erase_stream-gone c (a ∷ more) = elim (Bool-cases (is_client c a.to_client)) [
  | inl t ↦ rw t (erase_stream-gone c more)
  | inr f ↦ rw f (f, erase_stream-gone c more)
]

pub is_connected-none : (xs : List ℕ) → is_connected none xs ≡ true
unfolding is_connected
is_connected-none xs = refl

pub is_connected-some : (c : ℕ) (xs : List ℕ) → is_in c xs ≡ true → is_connected (some c) xs ≡ true
unfolding is_connected
is_connected-some c xs h = h
