-- ===== src/Rfc/Host/Yields.antt =====
-- The texts that the rules for hosts take.
use boost_url.Base.{
  ℕ, ◌<◌, ◌≡◌, refl, sym, ap, ◌∙◌, ◌⊎◌, inl, inr, true, false, [], ◌∷◌, ◌++◌, append-nil, ◌==◌,
  if◌then◌else◌, Bool-cases, Bytes, length, is_empty, All, Holds, Result, invalid, err, ok,
}
use boost_url.Chars.{CharSet, hexdig_chars, reg_name_chars}
use boost_url.Grammar.{delim_rule, ◌>>=◌, consumed, token_rule}
use boost_url.Grammar.Yields.{
  Taken, Yields, Yields-bind, Yields-map, consumed-append, delim_rule-Yields, token_rule-Yields,
}
use boost_url.Ipv4.{ipv4_address_rule}
use boost_url.Ipv4.Yields.{IsDotted, ipv4_address_rule-Yields}
use boost_url.Pct.Grammar.{done}
use boost_url.Pct.View.{PctEncodedView}
use boost_url.Rfc.Host.{
  minor_chars, ipvfuture_tuple, ipvfuture_rule, ipv6_literal, ipvfuture_literal, ip_literal_inside,
  ip_literal_rule, reg_name_rule, literal_host, ipv4_addr, ipv4_host, name_host, host_rule,
  IpvFuture, IpLiteral, HostValue,
}
use boost_url.Rfc.Ipv6.{ipv6_address_rule}
use boost_url.Rfc.Ipv6.Forms.{IsIpv6}
use boost_url.Rfc.Ipv6.Yields.{ipv6_address_rule-Yields}
use boost_url.Rfc.PctEncoded.{pct_encoded_rule, IsPctEncoded, pct_encoded_rule-Yields}
use boost_url.Url.{HostType}
use boost_url.Url.SchemePart.Laws.{dotted}
use mathlib.Core.Path.{subst}

-- One character of the set, or more.
abbrev pub IsToken : CharSet → Bytes → Type 0
IsToken cs t = (0 < length t) × All (λ c. cs c ≡ true) t

-- "v" 1*HEXDIG "." 1*minor
abbrev pub IsFuture : Bytes → Bytes → Type 0
IsFuture t d =
    (m : Bytes) × (t ≡ b'v' ∷ (d ++ b'.' ∷ m)) × IsToken hexdig_chars d × IsToken minor_chars m

ipvfuture_tuple-Yields : Yields (λ t v. (v.0 ≡ b'v' ∷ []) × IsFuture t v.1) ipvfuture_tuple
unfolding ipvfuture_tuple
ipvfuture_tuple-Yields =
    Yields-bind (λ t _. t ≡ b'v' ∷ []) _ _ (delim_rule b'v') (delim_rule-Yields b'v')
      (λ t0 _ e0.
        Yields-bind _ _ _ (token_rule hexdig_chars) (token_rule-Yields hexdig_chars)
          (λ d v (e, some', all).
            Yields-bind (λ t _. t ≡ b'.' ∷ []) _ _ (delim_rule b'.') (delim_rule-Yields b'.')
              (λ t2 _ e2.
                Yields-bind _ _ _ (token_rule minor_chars) (token_rule-Yields minor_chars)
                  (λ m w (f, some1, all1) rest. (
                    [],
                    refl,
                    (
                      refl,
                      (
                        m,
                        rw (e0, e2, e, append-nil m) refl,
                        subst (IsToken hexdig_chars) (sym e) (some', all),
                        (some1, all1),
                      ),
                    ),
                  )))))

-- The value's string is the text, its `major` is the "v", and its `minor` is the digits in front of
-- the '.'.
pub ipvfuture_rule-Yields :
    Yields (λ t v. (v.str ≡ t) × (v.major ≡ b'v' ∷ []) × IsFuture t v.minor) ipvfuture_rule
unfolding ipvfuture_rule
ipvfuture_rule-Yields s = taken (ipvfuture_tuple s) (ipvfuture_tuple-Yields s)
  where
    taken :
        (x : Result ((Bytes × Bytes) × Bytes))
        → Holds (Taken (λ t v. (v.0 ≡ b'v' ∷ []) × IsFuture t v.1) s) x
        → Holds
            (Taken
              (λ t (v : IpvFuture). (v.str ≡ t) × (v.major ≡ b'v' ∷ []) × IsFuture t v.minor)
              s)
            (elim x [
              | err why ↦ err why
              | ok ((major, minor), rest) ↦
                  if is_empty major
                  then err invalid
                  else if is_empty minor
                  then err invalid
                  else ok (record { str = consumed s rest; major = major; minor = minor }, rest)
            ])
    taken (err why) _ = tt
    taken (ok (([], minor), rest)) _ = tt
    taken (ok ((c ∷ major, []), rest)) _ = tt
    taken (ok ((c ∷ major, d ∷ minor), rest)) (t, e, (f, g)) =
        (t, e, (rw e (consumed-append t rest), f, g))

-- Between the brackets, with the bracket behind.
abbrev pub IsLiteral : Bytes → IpLiteral → Type 0
IsLiteral t v =
    (m : Bytes) × (t ≡ m ++ b']' ∷ [])
    × (((v.is_ipv6 ≡ true) × IsIpv6 m v.ipv6) ⊎ ((d : Bytes) × (v.is_ipv6 ≡ false) × IsFuture m d))

ipv6_literal-Yields : Yields IsLiteral ipv6_literal
unfolding ipv6_literal
ipv6_literal-Yields =
    Yields-bind IsIpv6 IsLiteral _ ipv6_address_rule ipv6_address_rule-Yields (λ m v k.
      Yields-bind (λ t _. t ≡ b']' ∷ []) (λ t1 w. IsLiteral (m ++ t1) w) _ (delim_rule b']')
        (delim_rule-Yields b']') (λ t1 _ e rest. ([], refl, (m, rw e refl, inl (refl, k)))))

ipvfuture_literal-Yields : Yields IsLiteral ipvfuture_literal
unfolding ipvfuture_literal
ipvfuture_literal-Yields =
    Yields-bind _ IsLiteral _ ipvfuture_rule ipvfuture_rule-Yields (λ m v (_, _, k).
      Yields-bind (λ t _. t ≡ b']' ∷ []) (λ t1 w. IsLiteral (m ++ t1) w) _ (delim_rule b']')
        (delim_rule-Yields b']')
        (λ t1 _ e rest. ([], refl, (m, rw e refl, inr (v.minor, refl, k)))))

ip_literal_inside-Yields : Yields IsLiteral ip_literal_inside
unfolding ip_literal_inside
ip_literal_inside-Yields [] = tt
ip_literal_inside-Yields (c ∷ s) = elim (Bool-cases (c == b'v')) [
  | inl future ↦ rw future (ipvfuture_literal-Yields (c ∷ s))
  | inr other ↦ rw other (ipv6_literal-Yields (c ∷ s))
]

ip_literal_rule-Yields :
    Yields (λ t v. (u : Bytes) × (t ≡ b'[' ∷ u) × IsLiteral u v) ip_literal_rule
unfolding ip_literal_rule
ip_literal_rule-Yields =
    Yields-bind (λ t _. t ≡ b'[' ∷ []) _ _ (delim_rule b'[') (delim_rule-Yields b'[')
      (λ t _ e.
        Yields-map IsLiteral _ ip_literal_inside ip_literal_inside-Yields
          (λ u v h. (u, ap (λ x. x ++ u) e, h)))

-- What the host's type says of its text.
abbrev pub HostForm : HostType → Bytes → HostValue → Type 0
HostForm HostType.none t v = ⊥
HostForm HostType.name t v = IsPctEncoded reg_name_chars t v.name
HostForm HostType.ipv4 t v = (address : ℕ) × IsDotted t address × (v.addr ≡ ipv4_addr address)
HostForm HostType.ipv6 t v = (m : Bytes) × (t ≡ b'[' ∷ (m ++ b']' ∷ [])) × IsIpv6 m v.addr
HostForm HostType.ipvfuture t v =
    (m : Bytes) × (d : Bytes) × (t ≡ b'[' ∷ (m ++ b']' ∷ [])) × IsFuture m d

abbrev pub IsHost : Bytes → HostValue → Type 0
IsHost t v = (v.text ≡ t) × (length v.addr ≡ 16) × HostForm v.host_type t v

consumed_text : (s t rest : Bytes) → s ≡ t ++ rest → consumed s rest ≡ t
consumed_text s t rest e = ap (λ x. consumed x rest) e ∙ consumed-append t rest

literal_host-Yields :
    (s t rest : Bytes) (v : IpLiteral)
    → s ≡ t ++ rest
    → (u : Bytes) × (t ≡ b'[' ∷ u) × IsLiteral u v
    → Holds (Taken IsHost s) (literal_host s v rest)
unfolding literal_host
literal_host-Yields s t rest v e (u, f, (m, g, inl (six, k))) =
    rw six ((t, e, (consumed_text s t rest e, k.0, (m, f ∙ ap (◌∷◌ b'[') g, k))))
literal_host-Yields s t rest v e (u, f, (m, g, inr (d, no_six, k))) =
    rw no_six ((t, e, (consumed_text s t rest e, refl, (m, d, f ∙ ap (◌∷◌ b'[') g, k))))

bracket-Yields : (s : Bytes) → Holds (Taken IsHost s) ((ip_literal_rule >>= literal_host s) s)
bracket-Yields s = taken (ip_literal_rule s) (ip_literal_rule-Yields s)
  where
    taken :
        (x : Result (IpLiteral × Bytes))
        → Holds (Taken (λ t v. (u : Bytes) × (t ≡ b'[' ∷ u) × IsLiteral u v) s) x
        → Holds
            (Taken IsHost s)
            (elim x [ err why ↦ err why | ok (value, rest) ↦ literal_host s value rest ])
    taken (err why) _ = tt
    taken (ok (v, rest)) (t, e, k) = literal_host-Yields s t rest v e k

name-Yields : (s : Bytes) → Holds (Taken IsHost s) ((reg_name_rule >>= name_host s) s)
unfolding reg_name_rule name_host
name-Yields s = taken (pct_encoded_rule reg_name_chars s) (pct_encoded_rule-Yields reg_name_chars s)
  where
    taken :
        (x : Result (PctEncodedView × Bytes))
        → Holds (Taken (IsPctEncoded reg_name_chars) s) x
        → Holds
            (Taken IsHost s)
            (elim x [ err why ↦ err why | ok (value, rest) ↦ name_host s value rest ])
    taken (err why) _ = tt
    taken (ok (v, rest)) (t, e, k) = (t, e, (consumed_text s t rest e, refl, k))

-- The host that `host_rule` returns has the text that the rule takes, and 16 address bytes. The text has
-- the form of the host's type: a reg-name, which may be empty; four decimal numbers below 256 with dots
-- between them, whose address is in the bytes; an IPv6 address in brackets, whose bytes are the 16; or
-- an IPvFuture in brackets.
pub host_rule-Yields : (s : Bytes) → Holds (Taken IsHost s) (host_rule s)
unfolding host_rule ipv4_host
host_rule-Yields [] = ([], refl, (refl, refl, (refl, done)))
host_rule-Yields (c ∷ s) = elim (Bool-cases (c == b'[')) [
  | inl bracket ↦ rw bracket (bracket-Yields (c ∷ s))
  | inr other ↦
      rw other
        (taken (ipv4_address_rule (c ∷ s)) (ipv4_address_rule-Yields (c ∷ s)) (name-Yields (c ∷ s)))
]
  where
    taken :
        (x : Result (ℕ × Bytes))
        → Holds (Taken IsDotted (c ∷ s)) x
        → Holds (Taken IsHost (c ∷ s)) ((reg_name_rule >>= name_host (c ∷ s)) (c ∷ s))
        → Holds (Taken IsHost (c ∷ s)) (elim x [
          | ok (address, rest) ↦ ipv4_host (c ∷ s) address rest
          | err _ ↦ (reg_name_rule >>= name_host (c ∷ s)) (c ∷ s)
        ])
    taken (err why) _ k = k
    taken (ok (address, rest)) (t, e, dotted) _ =
        (t, e, (consumed_text (c ∷ s) t rest e, refl, (address, dotted, refl)))
