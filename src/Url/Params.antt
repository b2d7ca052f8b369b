-- ===== src/Url/Params.antt =====
-- `params_encoded`: params_encoded.hpp, impl/params_encoded.hpp and impl/params_encoded.ipp, for one
-- parameter at a time. An iterator is its index.
use boost_url.Base.{
  ℕ, ◌+◌, ◌-◌, false, Option, none, some, [], ◌∷◌, ◌++◌, ltb, ◌==◌, if◌then◌else◌, Bytes, length,
  ◌>>=◌, Result, undefined, err, ok,
}
use boost_url.Base.Slices.{slice}
use boost_url.Chars.{query_chars}
use boost_url.Pct.Validate.{validate_in_set}
use boost_url.Url.{Url}
use boost_url.Url.Iter.{AnyIter}
use boost_url.Url.Query.{param, enc_query_iter, insert_params}
use boost_url.Url.Userinfo.{decode_opts}

-- `query_param_encoded_view`: `none` stands for `has_value == false`.
pub record QueryParam : Type 0 where
  pub key : Bytes
  pub value : Option Bytes

-- `enc_params_iter` over one parameter.
unfoldable pub enc_params_iter : QueryParam → AnyIter
unfolding validate_in_set
enc_params_iter v = record {
  place = some ([], []);
  next = λ _. none;
  size_of = λ _. (do
    _ ← validate_in_set query_chars decode_opts v.key
    elim v.value [
      | none ↦ ok (length v.key)
      | some value ↦ do
        _ ← validate_in_set query_chars decode_opts value
        ok (length v.key + (1 + length value))
    ]);
  text_of = λ _ _. elim v.value [ none ↦ v.key | some value ↦ v.key ++ b'=' ∷ value ];
}

-- `operator[]`. The characters in front of the key and of the value are not part of them.
unfoldable pub param_at : ℕ → Url → Result QueryParam
unfolding param
param_at i u = do
  r ← param i u
  let key = slice (r.at + 1) (r.nk - 1) u.chars
  let value = slice (r.at + r.nk + 1) (r.nv - 1) u.chars
  ok (record { key = key; value = if ltb 0 r.nv then some value else none })

-- `insert(before, v)`
unfoldable pub insert_param : ℕ → QueryParam → Url → Result Url
unfolding insert_params enc_params_iter
insert_param before v = insert_params 2 before before (enc_params_iter v) false

-- `replace(pos, v)`
unfoldable pub replace_param : ℕ → QueryParam → Url → Result Url
unfolding insert_params enc_params_iter
replace_param at v = insert_params 2 at (at + 1) (enc_params_iter v) false

unfoldable pub remove_value : ℕ → Url → Result Url
unfolding param_at replace_param
remove_value at u = do v ← param_at at u; replace_param at (record { key = v.key; value = none }) u

-- The key is read again.
unfoldable pub replace_value : ℕ → Bytes → Url → Result Url
unfolding param_at replace_param
replace_value at value u = do
  v ← param_at at u
  replace_param at (record { key = v.key; value = some value }) u

-- `erase(first, last)`
unfoldable pub erase_params : ℕ → ℕ → Url → Result Url
unfolding insert_params enc_query_iter
erase_params first last = insert_params 1 first last (enc_query_iter []) false

unfoldable pub clear_params : Url → Result Url
unfolding erase_params
clear_params u = erase_params 0 u.nparam_ u

unfoldable pub push_back_param : QueryParam → Url → Result Url
unfolding insert_param
push_back_param v u = insert_param u.nparam_ v u

-- The source asserts that there is a parameter.
unfoldable pub pop_back_param : Url → Result Url
unfolding erase_params
pop_back_param u =
    if u.nparam_ == 0 then err undefined else erase_params (u.nparam_ - 1) u.nparam_ u
