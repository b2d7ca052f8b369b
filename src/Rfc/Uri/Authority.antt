-- ===== src/Rfc/Uri/Authority.antt =====
-- What `authority_rule` makes of the text that it takes.
use boost_url.Base.{
  ℕ, zero, suc, ◌+◌, ◌≤◌, ◌≡◌, refl, ap, ◌∙◌, ◌⊎◌, inl, inr, Option, none, some, [], ◌∷◌, ◌++◌,
  append_assoc, append-nil, arith, Bytes, length, length-append,
}
use boost_url.Grammar.{delim_rule}
use boost_url.Grammar.Yields.{Yields, Yields-bind, Maybe, optional_rule-Yields, delim_rule-Yields}
use boost_url.Pct.View.{PctEncodedView}
use boost_url.Port.{port_part_rule, PortPart}
use boost_url.Port.Yields.{IsPortPart, port_part_rule-Yields}
use boost_url.Rfc.Host.{host_rule, HostValue}
use boost_url.Rfc.Host.Yields.{IsHost, host_rule-Yields}
use boost_url.Rfc.PctEncoded.{IsPctEncoded}
use boost_url.Rfc.Uri.{userinfo_part_rule, with_userinfo, with_port, authority_parts}
use boost_url.Rfc.Userinfo.{uchars, pwchars, userinfo_rule, UserinfoValue}
use boost_url.Rfc.Userinfo.Yields.{IsUserinfo, userinfo_rule-Yields}
use boost_url.Url.{id_user, id_pass, id_host, id_port, max_size, set_size, set_decoded, Url}
use boost_url.Url.Apply.{new_impl, apply_userinfo, apply_host, apply_port}
use boost_url.Url.Apply.Laid.{Laid, set_size-Laid, empty-Laid}
use boost_url.Url.View.{user}

-- The texts of a user info's two parts, behind the "//": there is none, or a user with a '@', or a user
-- and a ':' with a password and a '@'.
abbrev pub UserText : Bytes → Bytes → Type 0
UserText x y =
    ((x ≡ []) × (y ≡ []))
    ⊎ ((view : PctEncodedView) × IsPctEncoded uchars x view × (y ≡ b'@' ∷ []))
    ⊎ ((view : PctEncodedView) × IsPctEncoded uchars x view
        × ((q : Bytes) × (y ≡ b':' ∷ (q ++ b'@' ∷ []))
            × ((pass : PctEncodedView) × IsPctEncoded pwchars q pass)))

abbrev pub HostText : Bytes → Type 0
HostText h = (v : HostValue) × IsHost h v

abbrev pub PortText : Bytes → Type 0
PortText p = (v : PortPart) × IsPortPart p v

-- The table for the text of an authority, and the texts of its parts.
pub record AuthorityTable (t : Bytes) (u : Url) : Type 0 where
  pub x : Bytes
  pub y : Bytes
  pub h : Bytes
  pub p : Bytes
  pub whole : t ≡ x ++ (y ++ (h ++ p))
  pub laid : Laid u ([] ∷ x ∷ y ∷ h ∷ p ∷ [])
  pub user_text : UserText x y
  pub host_text : HostText h
  pub port_text : PortText p

abbrev IsUserinfoPart : Bytes → Option UserinfoValue → Type 0
IsUserinfoPart = Maybe (λ t v. (u : Bytes) × (t ≡ u ++ b'@' ∷ []) × IsUserinfo u v)

userinfo_part_rule-Yields : Yields IsUserinfoPart userinfo_part_rule
unfolding userinfo_part_rule
userinfo_part_rule-Yields = optional_rule-Yields _ _ (
    Yields-bind IsUserinfo _ _ userinfo_rule userinfo_rule-Yields (λ u v k.
      Yields-bind (λ t _. t ≡ b'@' ∷ []) _ _ (delim_rule b'@') (delim_rule-Yields b'@')
        (λ t _ e rest. ([], refl, (u, rw e refl, k)))))

-- The first three texts.
abbrev UserTable : Bytes → Url → Type 0
UserTable t u = (x : Bytes) × (y : Bytes) × (t ≡ x ++ y) × Laid u ([] ∷ x ∷ y ∷ []) × UserText x y

pub new_impl-Laid : Laid new_impl []
new_impl-Laid zero le = refl
new_impl-Laid (suc i) le = ground arith

no_scheme-Laid : Laid new_impl ([] ∷ [])
no_scheme-Laid = empty-Laid new_impl [] new_impl-Laid

abbrev named : PctEncodedView → Url
named user = set_decoded id_user user.dn_ (set_size id_user (length user.encoded) new_impl)

module _ (user : PctEncodedView) (x : Bytes) (e : user.encoded ≡ x) where
  user_alone :
      length x + 1 ≤ max_size → Laid (apply_userinfo user none new_impl) ([] ∷ x ∷ (b'@' ∷ []) ∷ [])
  unfolding apply_userinfo
  user_alone small =
      set_size-Laid (named user) ([] ∷ x ∷ []) (b'@' ∷ []) id_pass 1
        (set_size-Laid new_impl ([] ∷ []) x id_user (length user.encoded) no_scheme-Laid refl
          (omega arith) (ap length e) (omega (arith, small)))
        refl (omega arith) refl (omega (arith, small, ap length (append-nil x)))

  user_password :
      (pass : PctEncodedView) (q : Bytes)
      → pass.encoded ≡ q
      → length x + (length q + 2) ≤ max_size
      → Laid (apply_userinfo user (some pass) new_impl) ([] ∷ x ∷ (b':' ∷ (q ++ b'@' ∷ [])) ∷ [])
  unfolding apply_userinfo
  user_password pass q f small =
      let size = length-append q (b'@' ∷ []) in
      set_size-Laid (named user) ([] ∷ x ∷ []) (b':' ∷ (q ++ b'@' ∷ [])) id_pass
        (length pass.encoded + 2)
        (set_size-Laid new_impl ([] ∷ []) x id_user (length user.encoded) no_scheme-Laid refl
          (omega arith) (ap length e) (omega (arith, small)))
        refl (omega arith) (omega (arith, size, ap length f))
        (omega (arith, size, small, ap length (append-nil x)))

with_userinfo-Laid :
    (t : Bytes) (v : Option UserinfoValue)
    → length t ≤ max_size
    → IsUserinfoPart t v
    → UserTable t (with_userinfo v new_impl)
unfolding with_userinfo
with_userinfo-Laid t none small e = (
  [],
  [],
  e,
  empty-Laid new_impl ([] ∷ [] ∷ []) (empty-Laid new_impl ([] ∷ []) no_scheme-Laid),
  inl (refl, refl),
)
with_userinfo-Laid t (some v) small (u, e, (x, w, f, g, inl (no_colon, alone))) =
    let whole : t ≡ x ++ b'@' ∷ [] = rw (e, f, no_colon, append-nil x) refl in
    let table =
      user_alone v.user x (g.0)
        (omega (arith, small, ap length whole, length-append x (b'@' ∷ []))) in
    (x, b'@' ∷ [], whole, rw alone table, inr (inl (v.user, g, refl)))
with_userinfo-Laid t (some v) small (u, e, (x, w, f, g, inr (q, colon, has, k))) =
    let whole : t ≡ x ++ b':' ∷ (q ++ b'@' ∷ []) =
      rw (e, f, colon) (append_assoc x (b':' ∷ q) (b'@' ∷ [])) in
    let table = user_password v.user x (g.0) v.password q (k.0) (
      omega (
        arith,
        small,
        ap length whole,
        length-append x (b':' ∷ (q ++ b'@' ∷ [])),
        length-append q (b'@' ∷ []),
      )) in
    (
      x,
      b':' ∷ (q ++ b'@' ∷ []),
      whole,
      rw has table,
      inr (inr (v.user, g, (q, refl, (v.password, k)))),
    )

module _ (u : Url) (x y : Bytes) (laid : Laid u ([] ∷ x ∷ y ∷ [])) where
  apply_host-Laid :
      (v : HostValue) (h : Bytes)
      → v.text ≡ h
      → length x + (length y + length h) ≤ max_size
      → Laid (apply_host v.host_type v.text v.addr v.name u) ([] ∷ x ∷ y ∷ h ∷ [])
  unfolding apply_host
  apply_host-Laid v h e small =
      set_size-Laid (record u { host_type_ = v.host_type }) ([] ∷ x ∷ y ∷ []) h id_host
        (length v.text) laid refl (omega arith) (ap length e)
        (omega (arith, small, length-append x (y ++ []), ap length (append-nil y)))

abbrev number : PortPart → ℕ
number v = elim v.port_number [ none ↦ 0 | some n ↦ n ]

module _ (u : Url) (x y h : Bytes) (laid : Laid u ([] ∷ x ∷ y ∷ h ∷ [])) where
  with_port-Laid :
      (v : PortPart) (p : Bytes)
      → IsPortPart p v
      → length x + (length y + (length h + length p)) ≤ max_size
      → Laid (with_port v u) ([] ∷ x ∷ y ∷ h ∷ p ∷ [])
  unfolding with_port apply_port
  with_port-Laid v p (inl (e, none')) small =
      rw (none', e) (empty-Laid u ([] ∷ x ∷ y ∷ h ∷ []) laid)
  with_port-Laid v p (inr (e, has, _)) small = rw has (
      set_size-Laid (record u { port_number_ = number v }) ([] ∷ x ∷ y ∷ h ∷ []) p id_port
        (1 + length v.port) laid refl (omega arith) (omega (arith, ap length e))
        (omega (
          arith,
          small,
          length-append x (y ++ (h ++ [])),
          length-append y (h ++ []),
          ap length (append-nil h),
        )))

-- The table that `authority_rule` makes of the three parts that it reads.
made_of : Option UserinfoValue → HostValue → PortPart → Url
made_of v hv pv =
    with_port pv (apply_host hv.host_type hv.text hv.addr hv.name (with_userinfo v new_impl))

made_of-AuthorityTable :
    (t h p : Bytes) (v : Option UserinfoValue) (hv : HostValue) (pv : PortPart)
    → IsUserinfoPart t v
    → IsHost h hv
    → IsPortPart p pv
    → length (t ++ (h ++ p)) ≤ max_size
    → AuthorityTable (t ++ (h ++ p)) (made_of v hv pv)
unfolding made_of
made_of-AuthorityTable t h p v hv pv k is_host l small =
    let sizes = length-append t (h ++ p) in
    let sizes' = length-append h p in
    let (x, y, f, laid, texts) = with_userinfo-Laid t v (omega (arith, small, sizes)) k in
    let whole : t ++ (h ++ p) ≡ x ++ (y ++ (h ++ p)) =
      ap (λ z. z ++ (h ++ p)) f ∙ append_assoc x y (h ++ p) in
    let parts = length-append x y in
    let size_t = ap length f in
    let hosted =
      apply_host-Laid (with_userinfo v new_impl) x y laid hv h (is_host.0)
        (omega (arith, small, sizes, sizes', parts, size_t)) in
    record {
      x = x;
      y = y;
      h = h;
      p = p;
      whole = whole;
      laid =
          with_port-Laid _ x y h hosted pv p l (omega (arith, small, sizes, sizes', parts, size_t));
      user_text = texts;
      host_text = (hv, is_host);
      port_text = (pv, l);
    }

pub authority_parts-Yields :
    Yields (λ t u. length t ≤ max_size → AuthorityTable t u) authority_parts
unfolding authority_parts made_of
authority_parts-Yields =
    Yields-bind IsUserinfoPart _ _ userinfo_part_rule userinfo_part_rule-Yields (λ t v k.
      Yields-bind IsHost _ _ host_rule host_rule-Yields (λ h hv k1.
        Yields-bind IsPortPart _ _ port_part_rule port_part_rule-Yields (λ p pv l rest.
          ([], refl, rw (append-nil p) (made_of-AuthorityTable t h p v hv pv k k1 l)))))
