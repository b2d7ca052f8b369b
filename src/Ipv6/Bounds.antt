-- ===== src/Ipv6/Bounds.antt =====
-- The loops that print an IPv6 address end, and the text fits into the buffer.
-- A position of a run comes with a length.
use boost_url.Base.{
  ℕ, zero, suc, ◌+◌, ◌-◌, ◌*◌, ◌≤◌, ◌≡◌, refl, ap, inl, inr, Bool, true, false, Option, none, some,
  [], ◌∷◌, ◌++◌, arith, ltb, leb, ◌==◌, if◌then◌else◌, Bool-cases, Bytes, length, take, drop,
  length-append, length-take, length-drop,
}
use boost_url.Ipv4.{from_bytes, to_bytes, write_octet, print_octets, print_impl, Octets}
use boost_url.Ipv6.{
  is_v4_mapped, count_zeroes, print_hex, longest_run, starts_at, colon, print_word, print_loop,
  print_words, print_v4, print_all, print_ipv6, Run,
}
use mathlib.Core.Option

abbrev HasLength : ℕ → Option ℕ → Type 0
HasLength n none = Unit
HasLength n (some _) = 1 ≤ n

abbrev IsRun : Run → Type 0
IsRun run = HasLength run.best_len run.best_pos

starts_at-IsRun :
    (run : Run) (place : ℕ) → IsRun run → starts_at run place ≡ true → 1 ≤ run.best_len
unfolding starts_at
starts_at-IsRun run place = known run.best_pos
  where
    known :
        (p : Option ℕ)
        → HasLength run.best_len p
        → (elim p as (λ _. Bool) [ none ↦ false | some q ↦ place == q ]) ≡ true
        → 1 ≤ run.best_len
    known none h e = cc
    known (some q) h e = h

better :
    (best : Run) (place n : ℕ)
    → IsRun best
    → (n == 0) ≡ false
    → IsRun (if ltb best.best_len n then record { best_pos = some place; best_len = n } else best)
better best place n h k = elim (Bool-cases (ltb best.best_len n)) [
  | inl more ↦ rw more (ground (arith, k))
  | inr less ↦ rw less h
]

longest_run-ends :
    (fuel : ℕ) (best : Run) (place : ℕ) (s : Bytes)
    → IsRun best
    → length s ≤ fuel
    → (run : Run) × (longest_run fuel best place s ≡ some run) × IsRun run
unfolding longest_run
longest_run-ends fuel best place [] h le = (best, refl, h)
longest_run-ends zero best place (c ∷ s) h le = absurd (omega (arith, le))
longest_run-ends (suc fuel) best place (c ∷ s) h le =
    let n = count_zeroes (c ∷ s) in
    elim (Bool-cases (count_zeroes (c ∷ s) == 0)) [
      | inl nothing ↦
          rw (longest_run, nothing)
            (longest_run-ends fuel best (place + 2) (drop 2 (c ∷ s)) h
              (omega (arith, length-drop 1 s)))
      | inr zeroes ↦
          let some_zeroes : 1 ≤ count_zeroes (c ∷ s) = ground (arith, zeroes) in
          rw (longest_run, zeroes)
            (longest_run-ends fuel _ (place + count_zeroes (c ∷ s))
              (drop (count_zeroes (c ∷ s)) (c ∷ s))
              (better best place (count_zeroes (c ∷ s)) h zeroes)
              (omega (arith, some_zeroes, length-drop (count_zeroes (c ∷ s)) (c ∷ s))))
    ]

if-short :
    (b : Bool) (x y : Bytes) (n : ℕ) → length x ≤ n → length y ≤ n → length (if b then x else y) ≤ n
if-short true x y n h k = h
if-short false x y n h k = k

print_hex-short : (v : ℕ) → length (print_hex v) ≤ 4
unfolding print_hex
print_hex-short v = if-short (leb 0x1000 v) _ _ 4 (omega arith) (
    if-short (leb 0x100 v) _ _ 4 (omega arith)
      (if-short (leb 0x10 v) _ _ 4 (omega arith) (omega arith)))

print_word-short : (s : Bytes) → length (print_word s) ≤ 4
unfolding print_word
print_word-short [] = omega arith
print_word-short (c ∷ []) = omega arith
print_word-short (c0 ∷ c1 ∷ s) = print_hex-short (c0 * 256 + c1)

write_octet-short : (v : ℕ) → length (write_octet v) ≤ 3
unfolding write_octet
write_octet-short v = ground arith

print_octets-short : (v : Octets) → length (print_octets v) ≤ 15
unfolding print_octets
print_octets-short v = omega (
  arith,
  length-append (write_octet v.b0)
      (b'.' ∷ (write_octet v.b1 ++ b'.' ∷ (write_octet v.b2 ++ b'.' ∷ write_octet v.b3))),
  length-append (write_octet v.b1) (b'.' ∷ (write_octet v.b2 ++ b'.' ∷ write_octet v.b3)),
  length-append (write_octet v.b2) (b'.' ∷ write_octet v.b3),
  write_octet-short v.b0,
  write_octet-short v.b1,
  write_octet-short v.b2,
  write_octet-short v.b3,
)

print_v4-short : (s : Bytes) → length (print_v4 s) ≤ 16
unfolding print_v4 print_impl
print_v4-short (c0 ∷ c1 ∷ c2 ∷ c3 ∷ s) = omega (
  arith,
  print_octets-short (to_bytes (from_bytes (record { b0 = c0; b1 = c1; b2 = c2; b3 = c3 }))),
)
print_v4-short _ = omega arith

-- A text for `s` of 5 characters for each 2 bytes at most.
abbrev Fits : Bytes → Option Bytes → Type 0
Fits s x = (text : Bytes) × (x ≡ some text) × (2 * length text ≤ 5 * length s)

colon-Fits :
    (n : ℕ) (s : Bytes) (x : Option Bytes)
    → 1 ≤ n
    → 1 ≤ length s
    → Fits (drop n s) x
    → Fits s (Option.map (colon (drop n s)) x)
colon-Fits n s x some_bytes more (text, e, le) = (
  colon (drop n s) text,
  ap (Option.map (colon (drop n s))) e,
  size (drop n s) (length-drop n s) le,
)
  where
    size :
        (rest : Bytes)
        → length rest ≡ length s - n
        → 2 * length text ≤ 5 * length rest
        → 2 * length (colon rest text) ≤ 5 * length s
    size [] k le = omega (arith, k, le, more)
    size (c ∷ rest) k le = omega (arith, k, le, some_bytes, more)

no_word : (c : ℕ) → length (print_word (c ∷ [])) ≡ 0
unfolding print_word
no_word c = refl

print_word-Fits :
    (c : ℕ) (s : Bytes)
    → 2 * (1 + length (print_word (c ∷ s))) + 5 * length (drop 1 s) ≤ 5 * length (c ∷ s)
print_word-Fits c [] = omega (arith, no_word c)
print_word-Fits c (c1 ∷ s) = omega (arith, print_word-short (c ∷ c1 ∷ s))

print_loop-Fits :
    (fuel : ℕ) (run : Run) (place : ℕ) (s : Bytes)
    → IsRun run
    → length s ≤ fuel
    → Fits s (print_loop fuel run place s)
unfolding print_loop
print_loop-Fits fuel run place [] h le = ([], refl, omega arith)
print_loop-Fits zero run place (c ∷ s) h le = absurd (omega (arith, le))
print_loop-Fits (suc fuel) run place (c ∷ s) h le = elim (Bool-cases (starts_at run place)) [
  | inl here ↦
      let n_pos = starts_at-IsRun run place h here in
      rw (print_loop, here)
        (colon-Fits run.best_len (c ∷ s) _ n_pos (omega arith) (
          print_loop-Fits fuel run (place + run.best_len) (drop run.best_len (c ∷ s)) h
            (omega (arith, le, n_pos, length-drop run.best_len (c ∷ s)))))
  | inr other ↦
      let (text, e, short) =
        print_loop-Fits fuel run (place + 2) (drop 2 (c ∷ s)) h
          (omega (arith, le, length-drop 1 s)) in
      (
        b':' ∷ (print_word (c ∷ s) ++ text),
        rw (print_loop, other) (ap (Option.map (λ t. b':' ∷ (print_word (c ∷ s) ++ t))) e),
        omega (arith, short, print_word-Fits c s, length-append (print_word (c ∷ s)) text),
      )
]

print_words-Fits :
    (fuel : ℕ) (run : Run) (s : Bytes)
    → IsRun run
    → length s ≤ fuel
    → 1 ≤ length s
    → Fits s (print_words fuel run s)
unfolding print_words
print_words-Fits fuel run [] h le more = absurd (omega (arith, more))
print_words-Fits fuel run (c ∷ s) h le more = elim (Bool-cases (starts_at run 0)) [
  | inl here ↦
      let n_pos = starts_at-IsRun run 0 h here in
      rw (print_words, here)
        (colon-Fits run.best_len (c ∷ s) _ n_pos more (
          print_loop-Fits fuel run run.best_len (drop run.best_len (c ∷ s)) h
            (omega (arith, le, n_pos, length-drop run.best_len (c ∷ s)))))
  | inr other ↦
      let (text, e, short) =
        print_loop-Fits fuel run 2 (drop 2 (c ∷ s)) h (omega (arith, le, length-drop 1 s)) in
      (
        print_word (c ∷ s) ++ text,
        rw (print_words, other) (ap (Option.map (λ t. print_word (c ∷ s) ++ t)) e),
        omega (arith, short, print_word-Fits c s, length-append (print_word (c ∷ s)) text),
      )
]

print_all-Fits : (fuel : ℕ) (s : Bytes) → length s ≤ fuel → 1 ≤ length s → Fits s (print_all fuel s)
unfolding print_all
print_all-Fits fuel s le more =
    let (run, e, h) = longest_run-ends fuel (record { best_pos = none; best_len = 0 }) 0 s tt le in
    rw (e, print_all) (print_words-Fits fuel run s h le more)

-- An address of 16 bytes is printed: the loops of `print_impl` end, and it writes at most 46
-- characters, so that it stays inside the 49 that `to_buffer` asks for.
pub print_ipv6_bounds :
    (a : Bytes) → length a ≡ 16 → (text : Bytes) × (print_ipv6 a ≡ some text) × (length text ≤ 46)
unfolding print_ipv6
print_ipv6_bounds a size = elim (Bool-cases (is_v4_mapped a)) [
  | inl v4 ↦
      let short = length-take 12 a (omega (arith, size)) in
      let (text, f, le) =
        print_all-Fits (length a) (take 12 a) (omega (arith, short, size)) (omega (arith, short)) in
      (
        text ++ print_v4 (drop 12 a),
        rw (v4, f) refl,
        omega (
          arith,
          le,
          short,
          length-append text (print_v4 (drop 12 a)),
          print_v4-short (drop 12 a),
        ),
      )
  | inr v6 ↦
      let (text, f, le) = print_all-Fits (length a) a (omega (arith, size)) (omega (arith, size)) in
      (text, rw (v6, f) refl, omega (arith, le, size))
]
