-- ===== src/Resolv/Examples.antt =====
-- Name servers on which the theorems apply.
use omphalos.Base.{ℕ, ◌≡◌, refl, arith, false, List, [], ◌∷◌, some, done}
use omphalos.Dns.Reverse.{inet_pton4, decimal}
use omphalos.Dns.Reverse.Four.{inet_pton4-text}
use omphalos.Resolv.{Resolvers, parse_resolv_conf, isspace, is_known}
use omphalos.Resolv.Conf.{Line, server, comment, AllSolid, texts, parse_resolv_conf-Lines}
use omphalos.Resolv.Servers.{IsValid}

abbrev known : Resolvers
known = record { resolvers = (8 ∷ 8 ∷ 8 ∷ 8 ∷ []) ∷ []; resolvers6 = [] }

-- "9.9.9.9"
abbrev quad9 : List ℕ
quad9 = 57 ∷ 46 ∷ 57 ∷ 46 ∷ 57 ∷ 46 ∷ 57 ∷ []

quad9-AllSolid : AllSolid quad9
unfolding isspace
quad9-AllSolid = (refl, (refl, (refl, (refl, (refl, (refl, (refl, tt)))))))

quad9-address : inet_pton4 quad9 ≡ some (9 ∷ 9 ∷ 9 ∷ 9 ∷ [])
unfolding decimal
quad9-address = inet_pton4-text 9 9 9 9 (omega arith) (omega arith) (omega arith) (omega arith)

abbrev lines : List Line
lines = comment (32 ∷ 10 ∷ []) ∷ server quad9 (9 ∷ 9 ∷ 9 ∷ 9 ∷ []) ∷ []

parse_resolv_conf-Lines_example :
    parse_resolv_conf false (texts lines) known
    ≡ done (record known { resolvers = (9 ∷ 9 ∷ 9 ∷ 9 ∷ []) ∷ [] }, 0)
parse_resolv_conf-Lines_example =
    parse_resolv_conf-Lines lines known (tt, ((quad9-AllSolid, quad9-address), tt))

known-IsValid : IsValid known
unfolding is_known
known-IsValid = ((refl, tt), tt)
