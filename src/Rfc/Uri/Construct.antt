-- ===== src/Rfc/Uri/Construct.antt =====
-- `construct`: from the table of a text's parts to a valid URL.
use boost_url.Base.{
  ℕ, ◌≤◌, ◌<◌, ◌≡◌, refl, sym, ap, ◌∙◌, List, [], ◌∷◌, ◌++◌, append-nil, arith, Bytes, length, take,
  length-append, take-append, Holds, Result, err, ok,
}
use boost_url.Grammar.{Rule}
use boost_url.Grammar.Yields.{Taken, Yields}
use boost_url.Range.{Range}
use boost_url.Rfc.Uri.{made}
use boost_url.Rfc.Uri.Hier.{HierText}
use boost_url.Rfc.Uri.Yields.{QueryText, IsUrl, UrlTable}
use boost_url.Url.{
  id_scheme, id_user, id_pass, id_host, id_port, id_path, id_query, id_frag, id_end, max_size, size,
  get, Url,
}
use boost_url.Url.Apply.Laid.{concat, Laid, Laid-end}
use boost_url.Url.Apply.Parts.{Laid-get, Laid-IsValid}
use mathlib.Core.Path.{subst, transport}

module _ (S : Bytes → Type 0) (F : Bytes → Range → Type 0) (E : Bytes → Type 0) where
  -- `construct`
  table-IsUrl :
      (t rest : Bytes) (u : Url)
      → length t ≤ max_size
      → UrlTable S F E t u
      → IsUrl S F E t (record u { chars = take (size u) (t ++ rest) })
  table-IsUrl t rest u small k =
      let texts : List Bytes = k.s ∷ k.x ∷ k.y ∷ k.h ∷ k.p ∷ k.a ∷ k.q ∷ k.f ∷ [] in
      let whole : t ≡ concat texts =
        k.whole
        ∙ ap (λ z. k.s ++ (k.x ++ (k.y ++ (k.h ++ (k.p ++ (k.a ++ (k.q ++ z)))))))
            (sym (append-nil k.f)) in
      let fits : length (concat texts) ≤ max_size = subst (λ z. length z ≤ max_size) whole small in
      let all : size u ≡ length t =
        Laid-end u texts k.laid id_end (omega arith) (omega arith) ∙ ap length (sym whole) in
      let chars : take (size u) (t ++ rest) ≡ t =
        ap (λ n. take n (t ++ rest)) all ∙ take-append t rest in
      let v : Url = record u { chars = take (size u) (t ++ rest) } in
      let same : v.chars ≡ concat texts = chars ∙ whole in
      let part : (xs : List Bytes) (w : Bytes) (ys : List Bytes) (i : ℕ)
          → texts ≡ xs ++ w ∷ ys
          → length xs ≡ i
          → i < id_end
          → w ≡ get v i =
        λ xs w ys i e at lt. sym (
          Laid-get v xs w ys i (subst (Laid v) e k.laid) at lt
            (subst (λ z. length (concat z) ≤ max_size) e fits)
            (subst (λ z. v.chars ≡ concat z) e same)) in
      let user =
        part (k.s ∷ []) k.x (k.y ∷ k.h ∷ k.p ∷ k.a ∷ k.q ∷ k.f ∷ []) id_user refl refl
          (omega arith) in
      let pass =
        part (k.s ∷ k.x ∷ []) k.y (k.h ∷ k.p ∷ k.a ∷ k.q ∷ k.f ∷ []) id_pass refl refl
          (omega arith) in
      let host =
        part (k.s ∷ k.x ∷ k.y ∷ []) k.h (k.p ∷ k.a ∷ k.q ∷ k.f ∷ []) id_host refl refl
          (omega arith) in
      let port =
        part (k.s ∷ k.x ∷ k.y ∷ k.h ∷ []) k.p (k.a ∷ k.q ∷ k.f ∷ []) id_port refl refl
          (omega arith) in
      let path =
        part (k.s ∷ k.x ∷ k.y ∷ k.h ∷ k.p ∷ []) k.a (k.q ∷ k.f ∷ []) id_path refl refl
          (omega arith) in
      record {
        valid = Laid-IsValid v texts k.laid refl fits same;
        chars_are = chars;
        scheme_text =
            subst S
              (part [] k.s (k.x ∷ k.y ∷ k.h ∷ k.p ∷ k.a ∷ k.q ∷ k.f ∷ []) id_scheme refl refl
                (omega arith))
              k.scheme_text;
        hier_text =
            transport (λ i. HierText F (user i) (pass i) (host i) (port i) (path i)) k.hier_text;
        query_text =
            subst QueryText
              (part (k.s ∷ k.x ∷ k.y ∷ k.h ∷ k.p ∷ k.a ∷ []) k.q (k.f ∷ []) id_query refl refl
                (omega arith))
              k.query_text;
        fragment_text =
            subst E
              (part (k.s ∷ k.x ∷ k.y ∷ k.h ∷ k.p ∷ k.a ∷ k.q ∷ []) k.f [] id_frag refl refl
                (omega arith))
              k.fragment_text;
      }

  pub made-IsUrl :
      (r : Rule Url)
      → Yields (λ t u. length t ≤ max_size → UrlTable S F E t u) r
      → (s : Bytes) → length s ≤ max_size
      → Holds (Taken (IsUrl S F E) s) (made r s)
  made-IsUrl r h s small = taken (r s) (h s)
    where
      taken :
          (x : Result (Url × Bytes))
          → Holds (Taken (λ t u. length t ≤ max_size → UrlTable S F E t u) s) x
          → Holds (Taken (IsUrl S F E) s) (elim x [
            | err why ↦ err why
            | ok (u, rest) ↦ ok (record u { chars = take (size u) s }, rest)
          ])
      taken (err why) _ = tt
      taken (ok (u, rest)) (t, e, k) =
          let fits : length t ≤ max_size =
            omega (arith, small, ap length e, length-append t rest) in
          (
            t,
            e,
            subst (λ z. IsUrl S F E t (record u { chars = take (size u) z })) (sym e)
                (table-IsUrl t rest u fits (k fits)),
          )
