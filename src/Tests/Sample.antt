-- ===== src/Tests/Sample.antt =====
-- The URL "http://u@h:80/p?q#f".
-- The sum of the first `i` sizes.
use boost_url.Base.{
  ℕ, zero, suc, ◌+◌, ◌≤◌, ◌≡◌, refl, List, [], ◌∷◌, arith, Bytes, codes, length, Result, err, ok,
}
use boost_url.Scheme.{Scheme}
use boost_url.Url.{id_end, max_size, offset, size, HostType, Url}
use boost_url.Url.Frame.{offset-eq_offset_, IsValid}

unfoldable pub cut : List ℕ → ℕ → ℕ
cut [] i = 0
cut (n ∷ ns) zero = 0
cut (n ∷ ns) (suc i) = n + cut ns i

cut_mono : (ns : List ℕ) (i j : ℕ) → i ≤ j → cut ns i ≤ cut ns j
unfolding cut
cut_mono [] i j h = omega arith
cut_mono (n ∷ ns) zero j h = omega arith
cut_mono (n ∷ ns) (suc i) zero h = absurd (omega arith)
cut_mono (n ∷ ns) (suc i) (suc j) h = omega (arith, cut_mono ns i j (omega arith))

abbrev sizes : List ℕ
sizes = 5 ∷ 3 ∷ 1 ∷ 1 ∷ 3 ∷ 2 ∷ 2 ∷ 2 ∷ []

abbrev pub sample : Url
sample = record {
  chars = codes "http://u@h:80/p?q#f";
  offset_ = cut sizes;
  decoded_ = λ _. 1;
  nseg_ = 1;
  nparam_ = 1;
  ip_addr_ = [];
  port_number_ = 80;
  host_type_ = HostType.name;
  scheme_ = Scheme.http;
}

-- A table of such sums is valid.
cut-ascend :
    (u : Url) (ns : List ℕ)
    → u.offset_ ≡ cut ns
    → (i j : ℕ) → i ≤ j
    → j ≤ id_end
    → offset u i ≤ offset u j
cut-ascend u ns e zero j h k = omega arith
cut-ascend u ns e (suc i) zero h k = absurd (omega arith)
cut-ascend u ns e (suc i) (suc j) h k =
    rw (offset-eq_offset_ u (suc i) (omega arith), offset-eq_offset_ u (suc j) (omega arith), e)
      (cut_mono ns (suc i) (suc j) h)

pub cut-IsValid :
    (u : Url) (ns : List ℕ)
    → u.offset_ ≡ cut ns
    → size u ≡ length u.chars
    → size u ≤ max_size
    → IsValid u
cut-IsValid u ns e full small = record { ascend = cut-ascend u ns e; full = full; small = small }

pub sample-IsValid : IsValid sample
sample-IsValid = cut-IsValid sample sizes refl (unfold cut in refl) (unfold cut in omega arith)

abbrev pub chars_of : Result Url → Bytes
chars_of (ok u) = u.chars
chars_of (err _) = []
