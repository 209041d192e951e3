-- ===== src/Checker/Tests.antt =====
-- Examples of the secret patterns of src/agent/checker/checker.ts.
use cli_model_gateway.Base.{◌≡◌, refl, true, ◌++◌, nat_eq, string_eq, codes, anywhere}
use cli_model_gateway.Checker.Secrets.{has_secret, has_secret-append}

has_secret-append_example :
    has_secret (codes "token " ++ (codes "ghp_0123456789abcdef" ++ codes "!")) ≡ true
unfolding has_secret anywhere
has_secret-append_example =
    has_secret-append (codes "token ") (codes "ghp_0123456789abcdef") (codes "!") refl
