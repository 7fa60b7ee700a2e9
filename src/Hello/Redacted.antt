-- ===== src/Hello/Redacted.antt =====
-- `redacted` of examples/hello/main.go: what the log shows of a connection string.
use mathlib.Core.List.{append_assoc}
use sundial.Base.{
  ℕ, suc, ◌+◌, ◌≡◌, ◌≢◌, refl, ap, sym, ◌∙◌, [], ◌∷◌, ◌++◌, Option, none, some, Text, text,
  if◌then◌else◌, arith, All, length, length-append, take, drop, take_before, drop_before, false,
}
use sundial.Hello.{last_at, at_scheme_end, scheme_length, redacted_at, redacted}

last_at_none :
    (i : ℕ) (at : Option ℕ) (host : Text) → All (λ c. c ≢ 64) host → last_at i at host ≡ at
unfolding last_at
last_at_none i at [] h = refl
last_at_none i at (c ∷ cs) h = ground (arith, h.0, last_at_none (suc i) at cs h.1)

last_at_lem :
    (i : ℕ) (at : Option ℕ) (xs host : Text)
    → All (λ c. c ≢ 64) host
    → last_at i at (xs ++ 64 ∷ host) ≡ some (i + length xs)
unfolding last_at
last_at_lem i at [] host h = last_at_none (suc i) (some i) host h ∙ ap (λ n. some n) (omega arith)
last_at_lem i at (x ∷ xs) host h = last_at_lem (suc i) _ xs host h ∙ ap (λ n. some n) (omega arith)

other_start : (c : ℕ) (cs : Text) → c ≢ 58 → at_scheme_end (c ∷ cs) ≡ false
other_start c [] h = refl
other_start c (a ∷ []) h = refl
other_start c (a ∷ b ∷ cs) h = ground (arith, h)

scheme_length_lem :
    (i : ℕ) (scheme rest : Text)
    → All (λ c. c ≢ 58) scheme
    → scheme_length i (scheme ++ text "://" ++ rest) ≡ i + length scheme + 3
unfolding scheme_length
scheme_length_lem i [] rest h = omega arith
scheme_length_lem i (c ∷ cs) rest h =
    rw (other_start c (cs ++ text "://" ++ rest) h.0, if◌then◌else◌)
      (scheme_length_lem (suc i) cs rest h.1 ∙ omega arith)

-- Of a URL with a scheme and credentials, whatever characters these have, the log shows the scheme
-- and what follows the last '@', and nothing of the credentials.
pub redacted_lem :
    (scheme credentials host : Text)
    → All (λ c. c ≢ 58) scheme
    → All (λ c. c ≢ 64) host
    → redacted (scheme ++ text "://" ++ credentials ++ 64 ∷ host) ≡ scheme ++ text "://***@" ++ host
unfolding redacted
redacted_lem scheme credentials host s h =
    let kept = scheme ++ text "://" in
    let hidden = kept ++ credentials in
    let url = hidden ++ 64 ∷ host in
    let by_scheme : url ≡ kept ++ (credentials ++ 64 ∷ host) =
      append_assoc kept credentials (64 ∷ host) in
    let at : last_at 0 none url ≡ some (length hidden) =
      last_at_lem 0 none hidden host h ∙ ap (λ n. some n) (omega arith) in
    let end : scheme_length 0 url ≡ length kept =
      ap (scheme_length 0) by_scheme
      ∙ scheme_length_lem 0 scheme (credentials ++ 64 ∷ host) s
      ∙ omega (arith, length-append scheme (text "://")) in
    let shown : take (scheme_length 0 url) url ≡ kept =
      ap (λ n. take n url) end ∙ ap (take (length kept)) by_scheme ∙ take_before kept _ in
    ap (redacted_at url) at
    ∙ ap (λ p. p ++ text "***" ++ drop (length hidden) url) shown
    ∙ ap (λ p. kept ++ text "***" ++ p) (drop_before hidden (64 ∷ host))
    ∙ ap (λ p. p ++ 64 ∷ host) (append_assoc scheme (text "://") (text "***"))
    ∙ append_assoc scheme (text "://***") (64 ∷ host)
    ∙ sym (append_assoc scheme (text "://***@") host)
