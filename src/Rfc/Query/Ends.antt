-- ===== src/Rfc/Query/Ends.antt =====
-- `query_rule` takes all the parameters that there are.
use boost_url.Base.{◌<◌, ◌≡◌, ap, [], ◌∷◌, ◌++◌, arith, Bytes, length}
use boost_url.Grammar.{Rule, delim_rule, ◌>>◌}
use boost_url.Grammar.Yields.{Yields, Yields-bind, Yields-map, delim_rule-Yields}
use boost_url.Range.{no_limit, at_least}
use boost_url.Range.Ends.{Yields-Advances, Yields-shorter, Outcome, range_rule-Outcome}
use boost_url.Rfc.Query.{query_param_rule, query_rule, QueryParam}
use boost_url.Rfc.Query.Yields.{IsParam, query_param_rule-Yields, IsNextParam}

abbrev pub next_param_rule : Rule QueryParam
next_param_rule = delim_rule b'&' >> query_param_rule

IsNextParam-Yields : Yields (λ t _. IsNextParam t) next_param_rule
IsNextParam-Yields =
    Yields-bind (λ t _. t ≡ b'&' ∷ []) (λ t _. IsNextParam t) _ (delim_rule b'&')
      (delim_rule-Yields b'&')
      (λ t v e.
        Yields-map IsParam _ query_param_rule query_param_rule-Yields
          (λ t1 w p. (t1, ap (λ x. x ++ t1) e, (w, p))))

-- `query_rule` takes all the parameters that there are: it ends at an input on which a '&' and a
-- parameter cannot be read, or takes none where the first cannot be read.
query_rule-Outcome :
    (s : Bytes)
    → length s < no_limit
    → Outcome query_param_rule next_param_rule (at_least 0 s (0, s)) (query_rule s) s
unfolding query_rule
query_rule-Outcome s =
    range_rule-Outcome query_param_rule next_param_rule
      (Yields-Advances IsNextParam next_param_rule IsNextParam-Yields
        (λ t (u, e, _). omega (arith, ap length e)))
      (Yields-shorter IsParam query_param_rule query_param_rule-Yields) 0 no_limit s (omega arith)
