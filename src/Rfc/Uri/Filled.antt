-- ===== src/Rfc/Uri/Filled.antt =====
-- How the rules for URLs fill the table, part by part.
use boost_url.Base.{
  ℕ, ◌+◌, ◌≤◌, ◌≡◌, refl, ap, ◌∙◌, inl, inr, [], ◌∷◌, ◌++◌, append_assoc, arith, Bytes, length,
  length-append,
}
use boost_url.Range.{Range}
use boost_url.Rfc.Uri.{with_hier_part, HierPart}
use boost_url.Rfc.Uri.Hier.{HierText, IsHierPart, PathForm-string}
use boost_url.Url.{id_user, id_pass, id_host, id_port, max_size, len, set_size, set_decoded, Url}
use boost_url.Url.Apply.{apply_authority, apply_path}
use boost_url.Url.Apply.Laid.{concat, Laid, empty-Laid, total, length-concat, lay}
use boost_url.Url.Apply.Parts.{Laid-len}

-- `apply_authority` of a table with the texts x, y, h, p.
module _ (a u : Url) (s x y h p : Bytes) (laid_a : Laid a ([] ∷ x ∷ y ∷ h ∷ p ∷ []))
    (laid : Laid u (s ∷ []))
    (small : length s + (2 + length x + (length y + (length h + length p))) ≤ max_size) where
  small_a : length (concat ([] ∷ x ∷ y ∷ h ∷ p ∷ [])) ≤ max_size
  small_a = omega (arith, small, length-concat ([] ∷ x ∷ y ∷ h ∷ p ∷ []))

  abbrev slashes : Bytes
  slashes = b'/' ∷ b'/' ∷ x

  abbrev with_user : Url
  with_user = set_size id_user (len a id_user + 2) u

  abbrev with_pass : Url
  with_pass = set_size id_pass (len a id_pass) with_user

  abbrev with_decoded : Url
  with_decoded =
      record (set_decoded id_pass (a.decoded_ id_pass)
        (set_decoded id_user (a.decoded_ id_user) with_pass)) {
          host_type_ = a.host_type_;
          port_number_ = a.port_number_;
        }

  abbrev with_host : Url
  with_host = set_size id_host (len a id_host) with_decoded

  user-Laid : Laid with_user (s ∷ slashes ∷ [])
  user-Laid =
      lay u (s ∷ []) slashes (len a id_user + 2) laid (omega arith)
        (omega (
          arith,
          Laid-len a ([] ∷ []) x (y ∷ h ∷ p ∷ []) id_user laid_a refl (omega arith) small_a,
        ))
        (omega (arith, small))

  pass-Laid : Laid with_pass (s ∷ slashes ∷ y ∷ [])
  pass-Laid =
      lay with_user (s ∷ slashes ∷ []) y (len a id_pass) user-Laid (omega arith)
        (Laid-len a ([] ∷ x ∷ []) y (h ∷ p ∷ []) id_pass laid_a refl (omega arith) small_a)
        (omega (arith, small))

  host-Laid : Laid with_host (s ∷ slashes ∷ y ∷ h ∷ [])
  host-Laid =
      lay with_decoded (s ∷ slashes ∷ y ∷ []) h (len a id_host) pass-Laid (omega arith)
        (Laid-len a ([] ∷ x ∷ y ∷ []) h (p ∷ []) id_host laid_a refl (omega arith) small_a)
        (omega (arith, small))

  pub apply_authority-Laid : Laid (apply_authority a u) (s ∷ slashes ∷ y ∷ h ∷ p ∷ [])
  unfolding apply_authority
  apply_authority-Laid =
      lay with_host (s ∷ slashes ∷ y ∷ h ∷ []) p (len a id_port) host-Laid (omega arith)
        (Laid-len a ([] ∷ x ∷ y ∷ h ∷ []) p [] id_port laid_a refl (omega arith) small_a)
        (omega (arith, small))

-- The texts of the first six parts.
pub record HierTable (F : Bytes → Range → Type 0) (s t : Bytes) (u : Url) : Type 0 where
  pub x : Bytes
  pub y : Bytes
  pub h : Bytes
  pub p : Bytes
  pub a : Bytes
  pub whole : t ≡ x ++ (y ++ (h ++ (p ++ a)))
  pub laid : Laid u (s ∷ x ∷ y ∷ h ∷ p ∷ a ∷ [])
  pub texts : HierText F x y h p a

apply_path-Laid :
    (u : Url) (s x y h p a v : Bytes) (n : ℕ)
    → Laid u (s ∷ x ∷ y ∷ h ∷ p ∷ [])
    → v ≡ a
    → total (s ∷ x ∷ y ∷ h ∷ p ∷ []) + length a ≤ max_size
    → Laid (apply_path v n u) (s ∷ x ∷ y ∷ h ∷ p ∷ a ∷ [])
unfolding apply_path
apply_path-Laid u s x y h p a v n laid e small =
    lay u (s ∷ x ∷ y ∷ h ∷ p ∷ []) a (length v) laid (omega arith) (ap length e) small

four_empty : (u : Url) (s : Bytes) → Laid u (s ∷ []) → Laid u (s ∷ [] ∷ [] ∷ [] ∷ [] ∷ [])
four_empty u s laid =
    empty-Laid u (s ∷ [] ∷ [] ∷ [] ∷ [])
      (empty-Laid u (s ∷ [] ∷ [] ∷ []) (empty-Laid u (s ∷ [] ∷ []) (empty-Laid u (s ∷ []) laid)))

pub with_hier_part-Laid :
    (F : Bytes → Range → Type 0) (u : Url) (s t : Bytes) (v : HierPart)
    → ((a : Bytes) (r : Range) → F a r → r.string ≡ a)
    → Laid u (s ∷ [])
    → IsHierPart F t v
    → length s + length t ≤ max_size
    → HierTable F s t (with_hier_part v u)
unfolding with_hier_part
with_hier_part-Laid F u s t v k laid (inl (e, form)) small = record {
  x = [];
  y = [];
  h = [];
  p = [];
  a = t;
  whole = refl;
  laid = rw e (
      apply_path-Laid u s [] [] [] [] t v.path.string v.path.size (four_empty u s laid)
        (PathForm-string F t v.path (k t v.path) form) (omega (arith, small)));
  texts = inl (refl, refl, refl, refl, (v.path, form));
}
with_hier_part-Laid F u s t v k laid (inr (b, e, (z, w, f, g, way))) small =
    let table = g (omega (arith, small, ap length f, length-append z w)) in
    let size_z : length z ≡ length table.x + (length table.y + (length table.h + length table.p)) =
      omega (
        arith,
        ap length table.whole,
        length-append table.x (table.y ++ (table.h ++ table.p)),
        length-append table.y (table.h ++ table.p),
        length-append table.h table.p,
      ) in
    let size_t : length t ≡ 2 + (length z + length w) =
      omega (arith, ap length f, length-append z w) in
    record {
      x = b'/' ∷ b'/' ∷ table.x;
      y = table.y;
      h = table.h;
      p = table.p;
      a = w;
      whole = f ∙ ap (λ k. b'/' ∷ b'/' ∷ (k ++ w)) table.whole ∙ simp append_assoc;
      laid = rw e (
          apply_path-Laid (apply_authority b u) s (b'/' ∷ b'/' ∷ table.x) table.y table.h table.p w
            v.path.string v.path.size
            (apply_authority-Laid b u s table.x table.y table.h table.p table.laid laid
              (omega (arith, small, size_z, size_t)))
            (way.0) (omega (arith, small, size_z, size_t)));
      texts = inr (table.x, refl, table.user_text, table.host_text, table.port_text, (v.path, way));
    }
