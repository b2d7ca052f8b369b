-- ===== src/Url/View/Laws.antt =====
-- What was set is what the accessors read.
use boost_url.Base.{
  ℕ, ◌+◌, ◌^◌, ◌<◌, ◌≡◌, refl, ◌≢◌, false, some, [], arith, Bytes, length, All, ok,
}
use boost_url.Chars.{fragment_chars}
use boost_url.Pct.Encode.{pct_encode_bytes}
use boost_url.Pct.View.{construct, contents}
use boost_url.Pct.View.RoundTrip.{contents-pct_encode_to_string}
use boost_url.Port.{port_rule}
use boost_url.Port.RoundTrip.{port_rule-make_printed}
use boost_url.Url.{id_user, id_port, id_path, id_frag, id_end, size, get, Url}
use boost_url.Url.Authority.{make_printed, set_port}
use boost_url.Url.Authority.Laws.{set_port_lem}
use boost_url.Url.Fragment.{encode_opts, set_fragment}
use boost_url.Url.Fragment.Laws.{set_fragment_lem}
use boost_url.Url.Frame.{IsValid}
use boost_url.Url.Replace.{Fits}
use boost_url.Url.View.{view_opts, port, port_number, encoded_fragment, fragment}

fragment_chars_no_pct : fragment_chars b'%' ≡ false
unfolding fragment_chars
fragment_chars_no_pct = refl

-- On a valid table and while the result fits, `set_fragment` throws nothing, and afterwards reading
-- `fragment()` gives the bytes of the argument, and its stored size is their number.

pub fragment-set_fragment :
    (s : Bytes) (u : Url)
    → IsValid u
    → All (λ c. c < 256) s
    → Fits u id_frag id_end (pct_encode_bytes fragment_chars encode_opts s + 1)
    → (v : Url) × (set_fragment s u ≡ ok v)
      × (contents (fragment v) ≡ some s)
      × ((fragment v).dn_ ≡ length s)
unfolding fragment encoded_fragment
fragment-set_fragment s u valid bytes fits =
    let (v, e, (ok_v, part, others), size) = set_fragment_lem s u valid fits in
    (
      v,
      e,
      rw part (
          contents-pct_encode_to_string fragment_chars encode_opts (view_opts false)
            fragment_chars_no_pct refl (λ h. absurd (ground arith)) s (v.decoded_ id_frag) bytes),
      unfold construct in size,
    )

-- On a valid table with an authority and while the result fits, `set_port` of a 16-bit number
-- throws nothing; afterwards `port()` is a text that `port_rule` reads as that number to its end,
-- and `port_number()` is the number.
pub port-set_port :
    (n : ℕ) (u : Url)
    → n < 2 ^ 16
    → IsValid u
    → get u id_user ≢ []
    → Fits u id_port id_path (1 + length (make_printed n))
    → (v : Url) × (set_port n u ≡ ok v)
      × (port_rule (port v) ≡ ok (record { str = port v; number = some n }, []))
      × (port_number v ≡ n)
unfolding port port_number
port-set_port n u small valid authority fits =
    let (v, e, (ok_v, part, others), number) = set_port_lem n u valid authority fits in
    (v, e, rw part (port_rule-make_printed n small), number)
