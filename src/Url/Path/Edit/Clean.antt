-- ===== src/Url/Path/Edit/Clean.antt =====
-- What `clean_path` leaves of a path, by its prefix.
use boost_url.Base.{◌≡◌, refl, false, ◌&&◌, [], ◌∷◌, arith, ◌==◌, Bytes, codes}
use boost_url.DotSegments.{starts_with}
use boost_url.Url.Path.{path_prefix, clean_path}

pub clean-dot : (s : Bytes) → clean_path (b'.' ∷ b'/' ∷ s) ≡ s
unfolding clean_path path_prefix
clean-dot [] = refl
clean-dot (c ∷ s) = refl

pub clean-slash_dot : (s : Bytes) → clean_path (b'/' ∷ b'.' ∷ b'/' ∷ s) ≡ s
unfolding clean_path path_prefix
clean-slash_dot s = refl

pub clean-slash : (s : Bytes) → starts_with (codes "./") s ≡ false → clean_path (b'/' ∷ s) ≡ s
unfolding clean_path path_prefix starts_with
clean-slash [] e = refl
clean-slash (c ∷ []) e = refl
clean-slash (c ∷ d ∷ s) e =
    let other : (c == b'.' && d == b'/') ≡ false = ground (arith, e) in rw other refl

pub clean-plain :
    (s : Bytes)
    → starts_with (codes "/") s ≡ false
    → starts_with (codes "./") s ≡ false
    → clean_path s ≡ s
unfolding clean_path path_prefix starts_with
clean-plain [] h e = refl
clean-plain (c ∷ []) h e = let other : (c == b'/') ≡ false = ground (arith, h) in rw other refl
clean-plain (c ∷ d ∷ []) h e =
    let other : (c == b'/') ≡ false = ground (arith, h) in
    let undotted : (c == b'.' && d == b'/') ≡ false = ground (arith, e) in rw (other, undotted) refl
clean-plain (c ∷ d ∷ a ∷ s) h e =
    let other : (c == b'/') ≡ false = ground (arith, h) in
    let undotted : (c == b'.' && d == b'/') ≡ false = ground (arith, e) in rw (other, undotted) refl

pub starts_with-two :
    (s : Bytes) → starts_with (codes "/") s ≡ false → starts_with (codes "//") s ≡ false
unfolding starts_with
starts_with-two [] e = refl
starts_with-two (c ∷ s) e = let other : (c == b'/') ≡ false = ground (arith, e) in rw other refl
