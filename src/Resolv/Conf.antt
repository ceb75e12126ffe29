-- ===== src/Resolv/Conf.antt =====
-- The configuration file that src/omphalos/resolv.c reads: the name servers in it, and lines that it
-- cannot take.
use omphalos.Base.{
  ℕ, ◌≡◌, refl, ap, ◌∙◌, arith, Bool, true, false, inl, inr, Bool-cases, ◌==◌, List, [], ◌∷◌, ◌++◌,
  Option, none, some, done, fault,
}
use omphalos.Dns.Reverse.{inet_pton4}
use omphalos.Dns.Reverse.Decimal.{inet_pton4-nil, inet_pton4-bracket, same_text_refl}
use omphalos.Resolv

-- No white space, which a newline is.
abbrev pub AllSolid : List ℕ → Type 0
AllSolid [] = Unit {0}
AllSolid (c ∷ text) = (Resolv.isspace c ≡ false) × AllSolid text

newline-isspace : Resolv.isspace 10 ≡ true
unfolding Resolv.isspace
newline-isspace = refl

cut_newline-solid :
    (text rest : List ℕ) → AllSolid text → Resolv.cut_newline (text ++ 10 ∷ rest) ≡ done text
unfolding Resolv.cut_newline
cut_newline-solid [] rest h = refl
cut_newline-solid (c ∷ text) rest h = elim (Bool-cases (c == 10)) [
  | inl newline ↦ let same : c ≡ 10 = ground arith in absurd (grind (arith, h.0, newline-isspace))
  | inr other ↦ rw (other, cut_newline-solid text rest h.1) refl
]

skip_spaces-solid :
    (c : ℕ) (text : List ℕ) → Resolv.isspace c ≡ false → Resolv.skip_spaces (c ∷ text) ≡ c ∷ text
unfolding Resolv.skip_spaces
skip_spaces-solid c text h = rw h refl

-- A line with a name server, or a comment.
pub data Line : Type 0 where
  server : List ℕ → List ℕ → Line
  comment : List ℕ → Line

abbrev pub line_text : Line → List ℕ
line_text (server text addr) = Resolv.nstoken ++ 0x20 ∷ (text ++ 10 ∷ [])
line_text (comment text) = 0x23 ∷ text

-- The text of an address is without white space, and `inet_pton` takes it for the address.
abbrev pub IsLine : Line → Type 0
IsLine (server text addr) = AllSolid text × (inet_pton4 text ≡ some addr)
IsLine (comment text) = Unit {0}

abbrev pub address_of : Line → Option (List ℕ)
address_of (server text addr) = some addr
address_of (comment text) = none

-- A bracket does not start an IPv4 address.
parse_address-inet :
    (text addr : List ℕ) → inet_pton4 text ≡ some addr → Resolv.parse_address text ≡ some addr
unfolding Resolv.parse_address
parse_address-inet [] addr e = e
parse_address-inet (c ∷ text) addr e = elim (Bool-cases (c == 0x5b)) [
  | inl bracket ↦
      let same : c ≡ 0x5b = ground arith in
      absurd (grind (arith, inet_pton4-bracket text, rw same at e))
  | inr other ↦ rw other e
]

parse_value-server :
    (text addr : List ℕ)
    → AllSolid text
    → inet_pton4 text ≡ some addr
    → Resolv.parse_value (0x20 ∷ (text ++ 10 ∷ [])) ≡ done (some addr)
unfolding Resolv.parse_value Resolv.isspace
parse_value-server [] addr h e = absurd (grind (arith, inet_pton4-nil))
parse_value-server (c ∷ text) addr h e =
    rw
      (
        skip_spaces-solid c (text ++ 10 ∷ []) h.0,
        cut_newline-solid (c ∷ text) [] h,
        parse_address-inet (c ∷ text) addr e,
      )
      refl

parse_line-Line : (l : Line) → IsLine l → Resolv.parse_line (line_text l) ≡ done (address_of l)
unfolding Resolv.parse_line Resolv.skip_spaces Resolv.parse_token Resolv.isspace
parse_line-Line (server text addr) h =
    rw (same_text_refl Resolv.nstoken) (parse_value-server text addr h.0 h.1)
parse_line-Line (comment text) h = refl

abbrev pub AllLines : List Line → Type 0
AllLines [] = Unit {0}
AllLines (l ∷ ls) = IsLine l × AllLines ls

abbrev pub texts : List Line → List (List ℕ)
texts [] = []
texts (l ∷ ls) = line_text l ∷ texts ls

-- The addresses, the last first.
abbrev pub servers_onto : List Line → List (List ℕ) → List (List ℕ)
servers_onto [] revs = revs
servers_onto (l ∷ ls) revs = servers_onto ls (Resolv.push (address_of l) revs)

parse_lines-Lines :
    (ls : List Line) (revs : List (List ℕ))
    → AllLines ls
    → Resolv.parse_lines (texts ls) revs ≡ done (servers_onto ls revs)
unfolding Resolv.parse_lines
parse_lines-Lines [] revs h = refl
parse_lines-Lines (l ∷ ls) revs h =
    rw (parse_line-Line l h.0) (parse_lines-Lines ls (Resolv.push (address_of l) revs) h.1)

-- A file of comments and of lines, each with the token, a space, the text of an IPv4 address and a
-- newline, is read without an error, and its addresses are then the name servers for IPv4, the last in
-- the file first. Those for IPv6 are as they were.
pub parse_resolv_conf-Lines :
    (ls : List Line) (rs : Resolv.Resolvers)
    → AllLines ls
    → Resolv.parse_resolv_conf false (texts ls) rs
      ≡ done (record rs { resolvers = servers_onto ls [] }, 0)
unfolding Resolv.parse_resolv_conf
parse_resolv_conf-Lines ls rs h = rw (parse_lines-Lines ls [] h) refl

cut_newline-none : (text : List ℕ) → AllSolid text → Resolv.cut_newline text ≡ fault
unfolding Resolv.cut_newline
cut_newline-none [] h = refl
cut_newline-none (c ∷ text) h = elim (Bool-cases (c == 10)) [
  | inl newline ↦ let same : c ≡ 10 = ground arith in absurd (grind (arith, h.0, newline-isspace))
  | inr other ↦ rw (other, cut_newline-none text h.1) refl
]

skip_spaces-start : (text : List ℕ) → AllSolid text → Resolv.skip_spaces text ≡ text
unfolding Resolv.skip_spaces
skip_spaces-start [] h = refl
skip_spaces-start (c ∷ text) h = skip_spaces-solid c text h.0

value_faults :
    (line : List ℕ)
    → Resolv.cut_newline (Resolv.skip_spaces line) ≡ fault
    → Resolv.parse_value (0x20 ∷ line) ≡ fault
unfolding Resolv.parse_value Resolv.isspace
value_faults line e = rw e refl

-- A line with a value that cannot be taken ends it all.
conf_faults :
    (value : List ℕ)
    → Resolv.parse_value value ≡ fault
    → (errno : Bool) (lines : List (List ℕ)) (rs : Resolv.Resolvers)
    → Resolv.parse_resolv_conf errno ((Resolv.nstoken ++ value) ∷ lines) rs ≡ fault
unfolding Resolv.parse_resolv_conf Resolv.parse_lines Resolv.parse_line Resolv.parse_token
    Resolv.isspace Resolv.skip_spaces
conf_faults value e errno lines rs = rw (Resolv.parse_lines, same_text_refl Resolv.nstoken, e) refl

-- A line with the token, a space and a text without white space, but no newline behind it, as the last
-- line of a file may be, makes the parser write through the null pointer, whatever the text is and
-- whatever lines follow it. So does the token with a space and a newline alone.
pub parse_resolv_conf_unterminated :
    (errno : Bool) (text : List ℕ) (lines : List (List ℕ)) (rs : Resolv.Resolvers)
    → AllSolid text
    → (Resolv.parse_resolv_conf errno ((Resolv.nstoken ++ 0x20 ∷ text) ∷ lines) rs ≡ fault)
      × (Resolv.parse_resolv_conf errno ((Resolv.nstoken ++ 0x20 ∷ 10 ∷ []) ∷ lines) rs ≡ fault)
unfolding Resolv.cut_newline Resolv.skip_spaces Resolv.isspace
parse_resolv_conf_unterminated errno text lines rs h = (
  conf_faults (0x20 ∷ text)
      (value_faults text
        (ap Resolv.cut_newline (skip_spaces-start text h) ∙ cut_newline-none text h))
      errno lines rs,
  conf_faults (0x20 ∷ 10 ∷ []) (value_faults (10 ∷ []) refl) errno lines rs,
)
