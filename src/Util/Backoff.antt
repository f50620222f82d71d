-- ===== src/Util/Backoff.antt =====
-- Class `Backoff` (shaka/js/shaka-player.compiled.debug.js), which spaces the attempts of a request.
-- Delays are in whole milliseconds, the backoff factor is a whole number, the fuzz factor and the
-- random number are in thousandths, so that a fuzzed delay is exact in nanoseconds.
use native.Mathlib.Nat.{mul_assoc}
use native.Mathlib.Numerals.{unary_clauses}
use shaka_player_embedded.Base.{
  ℕ, zero, suc, ◌+◌, ◌-◌, ◌*◌, ◌^◌, ◌≤◌, ◌<◌, ◌≡◌, refl, ap, ◌∙◌, inl, inr, ◌==◌, leb, Bool, true,
  false, Option, none, some, List, [], ◌∷◌, if◌then◌else◌, arith, Bool-cases, ℤ, pos, ◌-ℤ◌,
}

-- What the configuration gives; a field that is null takes the default.
pub record Parameters : Type 0 where
  pub max_attempts : Option ℕ
  pub base_delay : Option ℕ
  pub backoff_factor : Option ℕ
  pub fuzz_factor : Option ℕ

pub record Backoff : Type 0 where
  pub max_attempts : ℕ
  pub base_delay : ℕ
  pub backoff_factor : ℕ
  pub fuzz_factor : ℕ
  pub num_attempts : ℕ
  pub next_unfuzzed_delay : ℕ
  pub auto_reset : Bool

abbrev pub or_default : Option ℕ → ℕ → ℕ
or_default none d = d
or_default (some a) d = a

-- The constructor, with `defaultRetryParameters` written out.
unfoldable pub new : Parameters → Bool → Backoff
new p auto_reset = record {
  max_attempts = or_default p.max_attempts 2;
  base_delay = or_default p.base_delay 1000;
  backoff_factor = or_default p.backoff_factor 2;
  fuzz_factor = or_default p.fuzz_factor 500;
  num_attempts = if auto_reset then 1 else 0;
  next_unfuzzed_delay = or_default p.base_delay 1000;
  auto_reset = auto_reset;
}

-- `fuzz_`, where `Math.random()` answers `r` thousandths.
unfoldable pub fuzz : ℕ → ℕ → ℕ → ℤ
fuzz delay factor r = pos (delay * (1000000 + 2 * r * factor)) -ℤ pos (delay * (1000 * factor))

unfoldable pub reset : Backoff → Backoff
reset b = record b { num_attempts = 1; next_unfuzzed_delay = b.base_delay }

-- What the promise of an attempt does: it rejects, or resolves at once or after a delay.
pub data Outcome : Type 0 where
  rejected immediate : Outcome
  after : ℤ → Outcome

abbrev pub proceed : ℕ → Backoff → Outcome × Backoff
proceed r b = if b.num_attempts == 0 then (immediate, record b { num_attempts = 1 }) else (
  after (fuzz b.next_unfuzzed_delay b.fuzz_factor r),
  record b {
    num_attempts = suc b.num_attempts;
    next_unfuzzed_delay = b.next_unfuzzed_delay * b.backoff_factor;
  },
)

-- One `attempt()`, up to the resolution of its promise: the attempts of one object do not overlap.
unfoldable pub attempt : ℕ → Backoff → Outcome × Backoff
attempt r b =
    if leb b.max_attempts b.num_attempts
    then if b.auto_reset then proceed r (reset b) else (rejected, b)
    else proceed r b

unfoldable pub run : List ℕ → Backoff → List Outcome
run [] b = []
run (r ∷ rs) b = (attempt r b).0 ∷ run rs (attempt r b).1

-- What attempt `i`, counted from 0, should do: the first attempts are spaced by the powers of the
-- factor, and those from the maximum on fail.
abbrev pub expected_at : Backoff → ℕ → ℕ → Outcome
expected_at b i r =
    if leb b.max_attempts i
    then rejected
    else if i == 0
    then immediate
    else after (fuzz (b.base_delay * b.backoff_factor ^ (i - 1)) b.fuzz_factor r)

unfoldable pub expected : Backoff → ℕ → List ℕ → List Outcome
expected b i [] = []
expected b i (r ∷ rs) = expected_at b i r ∷ expected b (suc i) rs

power_suc : (a b i : ℕ) → a * b ^ i * b ≡ a * b ^ suc i
power_suc a b i = simp unary_clauses (mul_assoc a (b ^ i) b)

-- The object before attempt `i`.
abbrev at_attempt : Backoff → ℕ → Backoff
at_attempt b i = record b {
  num_attempts = i;
  next_unfuzzed_delay = b.base_delay * b.backoff_factor ^ (i - 1);
}

module _ (r : ℕ) (b : Backoff) where
  attempt_rejected :
      (i : ℕ)
      → b.auto_reset ≡ false
      → b.max_attempts ≤ i
      → attempt r (at_attempt b i) ≡ (rejected, at_attempt b i)
  unfolding attempt
  attempt_rejected i a l = ground arith

  attempt_first : 1 ≤ b.max_attempts → attempt r (at_attempt b 0) ≡ (immediate, at_attempt b 1)
  unfolding attempt
  attempt_first l = ground arith

  attempt_next :
      (i : ℕ)
      → suc i < b.max_attempts
      → attempt r (at_attempt b (suc i)) ≡ (
        after (fuzz (b.base_delay * b.backoff_factor ^ i) b.fuzz_factor r),
        at_attempt b (suc (suc i)),
      )
  unfolding attempt
  attempt_next i l =
      let e : leb b.max_attempts (suc i) ≡ false = ground arith in
      let f : suc i - 1 ≡ i = omega arith in
      let g : suc (suc i) - 1 ≡ suc i = omega arith in
      let h : (suc i == 0) ≡ false = ground arith in
      rw (e, h, f, g, power_suc b.base_delay b.backoff_factor i)

-- The attempts of an object that does not reset itself, once it has none left.
run_exhausted :
    (b : Backoff) (i j : ℕ) (rs : List ℕ)
    → b.auto_reset ≡ false
    → b.max_attempts ≤ i
    → b.max_attempts ≤ j
    → run rs (at_attempt b i) ≡ expected b j rs
unfolding run expected
run_exhausted b i j [] a l m = refl
run_exhausted b i j (r ∷ rs) a l m =
    let f : leb b.max_attempts j ≡ true = ground arith in
    rw (attempt_rejected r b i a l, f)
      (ap (λ os. rejected ∷ os) (run_exhausted b i (suc j) rs a l (omega arith)))

run_step :
    (b : Backoff) (i r : ℕ) (rs : List ℕ)
    → i < b.max_attempts
    → leb b.max_attempts i ≡ false
    → run rs (at_attempt b (suc i)) ≡ expected b (suc i) rs
    → run (r ∷ rs) (at_attempt b i) ≡ expected b i (r ∷ rs)
unfolding run expected
run_step b zero r rs l e k = rw (attempt_first r b (omega arith), e) (ap (λ os. immediate ∷ os) k)
run_step b (suc i) r rs l e k =
    let f : suc i - 1 ≡ i = omega arith in
    let h : (suc i == 0) ≡ false = ground arith in
    rw (attempt_next r b i l, e, h, f)
      (ap (λ os. after (fuzz (b.base_delay * b.backoff_factor ^ i) b.fuzz_factor r) ∷ os) k)

run_left :
    (b : Backoff) (i : ℕ) (rs : List ℕ)
    → b.auto_reset ≡ false
    → i ≤ b.max_attempts
    → run rs (at_attempt b i) ≡ expected b i rs
unfolding run expected
run_left b i [] a l = refl
run_left b i (r ∷ rs) a l = elim (Bool-cases (leb b.max_attempts i)) [
  | inl e ↦ run_exhausted b i i (r ∷ rs) a (ground arith) (ground arith)
  | inr e ↦ run_step b i r rs (ground arith) e (run_left b (suc i) rs a (ground arith))
]

times_one : (a b : ℕ) → a ≡ a * b ^ (0 - 1)
times_one a b = simp unary_clauses (omega arith)

new-at_attempt : (p : Parameters) → new p false ≡ at_attempt (new p false) 0
unfolding new
new-at_attempt p =
    ap (λ d. record (new p false) { next_unfuzzed_delay = d })
      (times_one (new p false).base_delay (new p false).backoff_factor)

new-auto_reset : (p : Parameters) (b : Bool) → (new p b).auto_reset ≡ b
unfolding new
new-auto_reset p b = refl

-- Without a reset the attempts are these: the first at once, each later one after a delay that grows
-- by the factor, fuzzed, and from the maximum on every one is rejected.
pub run-expected :
    (p : Parameters) (rs : List ℕ) → run rs (new p false) ≡ expected (new p false) 0 rs
run-expected p rs =
    ap (run rs) (new-at_attempt p)
    ∙ run_left (new p false) 0 rs (new-auto_reset p false) (omega arith)
