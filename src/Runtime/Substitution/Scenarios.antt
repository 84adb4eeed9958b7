-- ===== src/Runtime/Substitution/Scenarios.antt =====
-- A parameter whose value holds a slash and a space.
use nina.Prelude.{◌≡◌, refl, List, [], ◌∷◌, lit, split, join, same_str}
use nina.Router.{Param, get_param, param_name}
use nina.Runtime.Substitution.{substitute_params, fill, fill_all, path_escape, escape}
use nina.Runtime.Substitution.Segments.{substitute_params-segments}

abbrev file : List Param
file = record { name = lit "name"; value = lit "a/b c" } ∷ []

substituted : substitute_params (lit "/files/{name}/raw") file ≡ lit "/files/a%2Fb%20c/raw"
unfolding substitute_params lit join fill_all split fill param_name get_param same_str path_escape
    escape
substituted = refl

joined :
    join (lit "/") (fill_all file (split b'/' (lit "/files/{name}/raw")))
    ≡ b'/' ∷ lit "files/a%2Fb%20c/raw"
unfolding fill_all join split lit fill param_name get_param same_str path_escape escape
joined = refl

substitute_params-segments_example :
    split b'/' (substitute_params (lit "/files/{name}/raw") file)
    ≡ fill_all file (split b'/' (lit "/files/{name}/raw"))
substitute_params-segments_example =
    substitute_params-segments (lit "/files/{name}/raw") file joined
