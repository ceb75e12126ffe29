-- ===== src/Iana/Examples.antt =====
-- A file of vendors on which the theorem applies.
use omphalos.Base.{ℕ, ◌≡◌, arith, List, [], ◌∷◌, none}
use omphalos.Iana.{Trie, parse_oui_lines, iana_lookup, init_trie}
use omphalos.Iana.Trie.{listed}
use omphalos.Iana.Load.{entries, after, named, iana_lookup-parse_oui_lines}

-- "00000C Cisco\n"
abbrev cisco : List ℕ
cisco = 48 ∷ 48 ∷ 48 ∷ 48 ∷ 48 ∷ 67 ∷ 32 ∷ 67 ∷ 105 ∷ 115 ∷ 99 ∷ 111 ∷ 10 ∷ []

abbrev loaded_trie : Trie
loaded_trie = init_trie (λ k. none)

iana_lookup-parse_oui_lines_example :
    iana_lookup
      (parse_oui_lines (λ text. text) (cisco ∷ []) loaded_trie)
      (0 ∷ 0 ∷ 12 ∷ 1 ∷ 2 ∷ 3 ∷ [])
    ≡ named
        (0 ∷ 0 ∷ 12 ∷ 1 ∷ 2 ∷ 3 ∷ [])
        (after 12 (listed loaded_trie 12) (entries (λ text. text) (cisco ∷ [])))
iana_lookup-parse_oui_lines_example =
    iana_lookup-parse_oui_lines (λ text. text) (cisco ∷ []) loaded_trie 0 0 12 1 2 3 (omega arith)
      (omega arith) (omega arith)
