-- ===== src/DotSegments/First.antt =====
-- A ".." behind the first segment of a relative path does not remove it.
use boost_url.Base.{
  ℕ, zero, suc, ◌+◌, ◌≡◌, refl, ap, ◌∙◌, Bool, true, false, none, some, [], ◌∷◌, ◌++◌, arith, ◌==◌,
  if◌then◌else◌, Bytes, codes, length, length-append, All,
}
use boost_url.DotSegments.{
  starts_with, before_last_slash, to_slash, first_segment, rule_a, rule_d, up_at_end, dot_step,
  dot_loop, remove_dot_segments,
}

-- A segment: no '/' in it.
abbrev pub IsPlain : Bytes → Type 0
IsPlain t = All (λ c. (c == b'/') ≡ false) t

before_last_slash-none : (t : Bytes) → IsPlain t → before_last_slash t ≡ none
unfolding before_last_slash
before_last_slash-none [] h = refl
before_last_slash-none (c ∷ t) (k, h) = rw (before_last_slash-none t h, before_last_slash, k) refl

to_slash-whole : (t s : Bytes) → IsPlain t → to_slash (t ++ b'/' ∷ s) ≡ (t, b'/' ∷ s)
unfolding to_slash
to_slash-whole [] s h = refl
to_slash-whole (c ∷ t) s (k, h) = rw k (ap (λ p. (c ∷ p.0, p.1)) (to_slash-whole t s h))

-- A round on a segment that starts with neither '/'; the rounds at its end.
dot_step-segment :
    (rm : Bool) (dest t s : Bytes) (c : ℕ)
    → (c == b'/') ≡ false
    → IsPlain t
    → dot_step rm dest (c ∷ (t ++ b'/' ∷ s)) ≡ (dest ++ (c ∷ t), b'/' ∷ s)
unfolding dot_step starts_with first_segment
dot_step-segment rm dest t s c k h = rw (k, to_slash-whole t s h) refl

-- What stands behind the segment in the end.
abbrev kept_end : Bool → Bytes
kept_end rm = if rm then codes "/" else codes "/.."

up_at_end-first :
    (rm : Bool) (dest : Bytes)
    → IsPlain dest
    → up_at_end rm dest (codes "/..") ≡ dest ++ kept_end rm
unfolding up_at_end
up_at_end-first true dest h = rw (before_last_slash-none dest h, up_at_end) refl
up_at_end-first false dest h = rw (before_last_slash-none dest h, up_at_end) refl

dot_step-up :
    (rm : Bool) (dest : Bytes)
    → dot_step rm dest (codes "/..") ≡ (up_at_end rm dest (codes "/.."), [])
unfolding dot_step starts_with
dot_step-up rm dest = refl

dot_loop-step :
    (fuel : ℕ) (rm : Bool) (dest s out rest : Bytes) (c : ℕ)
    → dot_step rm dest (c ∷ s) ≡ (out, rest)
    → dot_loop (suc fuel) rm dest (c ∷ s) ≡ dot_loop fuel rm out rest
unfolding dot_loop
dot_loop-step fuel rm dest s out rest c e = ap (λ p. dot_loop fuel rm p.0 p.1) e

dot_loop-end : (fuel : ℕ) (rm : Bool) (dest : Bytes) → dot_loop fuel rm dest [] ≡ some dest
unfolding dot_loop
dot_loop-end zero rm dest = refl
dot_loop-end (suc fuel) rm dest = refl

no_up : (c : ℕ) (s : Bytes) → (c == b'.') ≡ false → starts_with (codes "../") (c ∷ s) ≡ false
unfolding starts_with
no_up c s h = rw h refl

no_dot : (c : ℕ) (s : Bytes) → (c == b'.') ≡ false → starts_with (codes "./") (c ∷ s) ≡ false
unfolding starts_with
no_dot c s h = rw h refl

rule_a-other :
    (fuel : ℕ) (rm : Bool) (dest s : Bytes) (c : ℕ)
    → (c == b'.') ≡ false
    → rule_a (suc fuel) rm dest (c ∷ s) ≡ some (dest, c ∷ s)
unfolding rule_a
rule_a-other fuel rm dest s c h = rw (no_up c s h, rule_a, no_dot c s h) refl

rule_d-other :
    (rm : Bool) (dest s : Bytes) (c : ℕ)
    → (c == b'.') ≡ false
    → rule_d rm dest (c ∷ s) ≡ (dest, c ∷ s)
unfolding rule_d
rule_d-other rm dest s c h = rw h refl

remove_dot_segments-other :
    (rm : Bool) (s : Bytes) (c : ℕ)
    → (c == b'.') ≡ false
    → remove_dot_segments (c ∷ s) rm ≡ dot_loop (suc (length s)) rm [] (c ∷ s)
unfolding remove_dot_segments
remove_dot_segments-other rm s c h =
    rw (rule_a-other (length s) rm [] s c h, remove_dot_segments)
      (ap (λ p. dot_loop (suc (length s)) rm p.0 p.1) (rule_d-other rm [] s c h))

two_steps :
    (n : ℕ) (rm : Bool) (t : Bytes) (c : ℕ)
    → (c == b'/') ≡ false
    → IsPlain t
    → dot_loop (suc (suc n)) rm [] (c ∷ (t ++ codes "/..")) ≡ some ((c ∷ t) ++ kept_end rm)
two_steps n rm t c k h =
    dot_loop-step (suc n) rm [] (t ++ codes "/..") (c ∷ t) (codes "/..") c
      (dot_step-segment rm [] t (codes "..") c k h)
    ∙ dot_loop-step n rm (c ∷ t) (codes "..") (up_at_end rm (c ∷ t) (codes "/..")) [] b'/'
        (dot_step-up rm (c ∷ t))
    ∙ dot_loop-end n rm (up_at_end rm (c ∷ t) (codes "/.."))
    ∙ ap some (up_at_end-first rm (c ∷ t) (k, h))

first_kept :
    (rm : Bool) (c : ℕ) (t : Bytes)
    → (c == b'.') ≡ false
    → IsPlain (c ∷ t)
    → remove_dot_segments ((c ∷ t) ++ codes "/..") rm ≡ some ((c ∷ t) ++ kept_end rm)
first_kept rm c t dot (k, h) =
    let size : suc (length (t ++ codes "/..")) ≡ suc (suc (length t + 2)) =
      omega (arith, length-append t (codes "/..")) in
    remove_dot_segments-other rm (t ++ codes "/..") c dot
    ∙ ap (λ n. dot_loop n rm [] (c ∷ (t ++ codes "/.."))) size
    ∙ two_steps (length t + 2) rm t c k h

-- For a path that is one segment and a "..", the segment stays, where RFC 3986 removes it and leaves
-- "/". With `remove_unmatched` true the segment and a '/' are written; with false, as for a path of
-- `normalize_path` that is not absolute, the path is written as it is, ".." and all. The segment starts
-- with no '.' and has no '/'.
pub remove_dot_segments_first :
    (c : ℕ) (t : Bytes)
    → (c == b'.') ≡ false
    → IsPlain (c ∷ t)
    → (remove_dot_segments ((c ∷ t) ++ codes "/..") true ≡ some ((c ∷ t) ++ codes "/"))
      × (remove_dot_segments ((c ∷ t) ++ codes "/..") false ≡ some ((c ∷ t) ++ codes "/.."))
remove_dot_segments_first c t dot h = (first_kept true c t dot h, first_kept false c t dot h)
