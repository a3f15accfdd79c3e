-- ===== src/SshPool/KnownHosts/Trust.antt =====
-- A host whose key was recorded is verified from then on (src/relay_shell/sshpool.py).
use relay_shell.Prelude.{
  ℕ, ◌≡◌, ◌≢◌, refl, sym, ap, subst, ◌∙◌, Bool, true, false, ◌||◌, List, [], ◌∷◌, ◌++◌, Option,
  none, some, Text, codes, ◌==◌, if◌then◌else◌, is_among, text_eq, text_eq_iff, text_eq_refl,
  split_on_free, words, words_from, words_from-append, flush, is_space, is_break, splitlines,
  splitlines-any_of, splitlines_line, any_of, contains, ends_with, show_nat, show_nat-IsDigits,
  IsDigits, IsFree, All, All-append, Bool-cases, inl, inr, and_parts, arith, append_assoc,
}
use relay_shell.SshPool.{is_host_token, is_host_first, is_host_char, is_alnum, token, all_chars}
use relay_shell.SshPool.KnownHosts.{
  known_host_pattern, is_comment, field_names, line_names, present, text_names, host_is_known,
  host_line, append_known_host, persist_words, persist_host_key, against, known_hosts_arg,
}

-- A character that stands in a host field: no space, no comma, no mark of a comment.
abbrev IsPlain : ℕ → Type 0
IsPlain c = (is_space c ≡ false) × (c ≢ 44)

is_host_char-IsPlain : (c : ℕ) → is_host_char c ≡ true → IsPlain c
unfolding is_host_char is_alnum is_space
is_host_char-IsPlain c h = (ground arith, λ e. ground arith)

all_chars-IsPlain : (s : Text) → all_chars is_host_char s ≡ true → All IsPlain s
unfolding all_chars
all_chars-IsPlain [] h = tt
all_chars-IsPlain (c ∷ s) h =
    let (here, rest) = and_parts (is_host_char c) (all_chars is_host_char s) h in
    (is_host_char-IsPlain c here, all_chars-IsPlain s rest)

token-IsPlain : (s : Text) → is_host_token s ≡ true → All IsPlain s
unfolding is_host_token token is_host_first is_alnum is_space
token-IsPlain [] h = tt
token-IsPlain (c ∷ s) h = ((ground arith, λ e. ground arith), all_chars-IsPlain s (ground arith))

IsDigits-IsPlain : (s : Text) → IsDigits s → All IsPlain s
unfolding is_space
IsDigits-IsPlain [] h = tt
IsDigits-IsPlain (c ∷ s) h = ((ground arith, λ e. ground arith), IsDigits-IsPlain s h.1)

pattern-IsPlain :
    (hostname : Text) (port : ℕ)
    → is_host_token hostname ≡ true
    → All IsPlain (known_host_pattern hostname port)
unfolding known_host_pattern is_space
pattern-IsPlain hostname port h = elim (Bool-cases (port == 0 || port == 22)) [
  | inl plain ↦ rw plain (token-IsPlain hostname h)
  | inr other ↦ rw other (
    (refl, λ e. ground arith),
    All-append IsPlain hostname _ (token-IsPlain hostname h) (
      (refl, λ e. ground arith),
      ((refl, λ e. ground arith), IsDigits-IsPlain (show_nat port) (show_nat-IsDigits port)),
    ),
  )
]

abbrev IsNamed : Text → Type 0
IsNamed s = (is_comment s ≡ false) × (s ≢ [])

pattern-IsNamed :
    (hostname : Text) (port : ℕ)
    → is_host_token hostname ≡ true
    → IsNamed (known_host_pattern hostname port)
unfolding known_host_pattern is_comment is_host_token token is_host_first is_alnum
pattern-IsNamed [] port h = cc
pattern-IsNamed (c ∷ s) port h = elim (Bool-cases (port == 0 || port == 22)) [
  | inl plain ↦ rw plain (ground arith, λ e. cc)
  | inr other ↦ rw other (refl, λ e. cc)
]

plain_parts : (s : Text) → All IsPlain s → All (λ c. is_space c ≡ false) s × IsFree 44 s
plain_parts [] h = (tt, tt)
plain_parts (c ∷ s) h = let (a, b) = plain_parts s h.1 in ((h.0.0, a), (h.0.1, b))

is_space-is_break : (c : ℕ) → is_space c ≡ false → is_break c ≡ false
unfolding is_space is_break
is_space-is_break c h = ground arith

unbroken : (s : Text) → All (λ c. is_space c ≡ false) s → All (λ c. is_break c ≡ false) s
unbroken [] h = tt
unbroken (c ∷ s) h = (is_space-is_break c h.0, unbroken s h.1)

-- The first field of the line that is written is the pattern.
line_names-pattern :
    (pattern rest : Text)
    → All IsPlain pattern
    → IsNamed pattern
    → line_names pattern (pattern ++ 32 ∷ rest) ≡ true
unfolding line_names words field_names flush is_among
line_names-pattern [] rest h n = absurd (n.1 refl)
line_names-pattern (c ∷ s) rest h n =
    let (spaceless, commaless) = plain_parts (c ∷ s) h in
    rw
      (
        words_from-append [] (c ∷ s) rest spaceless,
        split_on_free 44 (c ∷ s) commaless,
        n.0,
        text_eq_refl (c ∷ s),
      )
      refl

abbrev IsSpaceless : Text → Type 0
IsSpaceless s = All (λ c. is_space c ≡ false) s

line_unbroken :
    (pattern algo b64 : Text)
    → All IsPlain pattern
    → IsSpaceless algo
    → IsSpaceless b64
    → All (λ c. is_break c ≡ false) (pattern ++ 32 ∷ (algo ++ 32 ∷ b64))
unfolding is_break
line_unbroken pattern algo b64 h p q =
    let part = λ (c : ℕ). is_break c ≡ false in
    All-append part pattern _ (unbroken pattern (plain_parts pattern h).0)
      (refl, All-append part algo _ (unbroken algo p) (refl, unbroken b64 q))

ends_with_split : (s : Text) → ends_with 10 s ≡ true → (a : Text) × (s ≡ a ++ 10 ∷ [])
unfolding ends_with
ends_with_split [] h = cc
ends_with_split (c ∷ []) h = ([], ground (arith, text_eq_refl []))
ends_with_split (c ∷ d ∷ s) h =
    let (a, e) = ends_with_split (d ∷ s) (ground (arith, text_eq_iff (d ∷ s) [])) in
    (c ∷ a, ap (λ t. c ∷ t) e)

-- Whatever the file ends with, the entry that is appended is a line of its own.
written-any_of :
    (p : Text → Bool) (existing line : Text)
    → All (λ c. is_break c ≡ false) line
    → p line ≡ true
    → any_of p (
        splitlines (
          if text_eq existing [] || ends_with 10 existing
          then existing ++ (line ++ 10 ∷ [])
          else existing ++ 10 ∷ (line ++ 10 ∷ [])))
      ≡ true
unfolding text_eq
written-any_of p [] line h named = splitlines_line p line h named
written-any_of p (c ∷ s) line h named = elim (Bool-cases (ends_with 10 (c ∷ s))) [
  | inl closed ↦
      let (a, e) = ends_with_split (c ∷ s) closed in
      let moved : (c ∷ s) ++ (line ++ 10 ∷ []) ≡ a ++ 10 ∷ (line ++ 10 ∷ []) =
        ap (λ t. t ++ (line ++ 10 ∷ [])) e ∙ append_assoc a (10 ∷ []) (line ++ 10 ∷ []) in
      rw closed (
        subst (λ t. any_of p (splitlines t) ≡ true) (sym moved)
          (splitlines-any_of p a line h named))
  | inr open_line ↦ rw open_line (splitlines-any_of p (c ∷ s) line h named)
]

append_known_host-names :
    (hostname algo b64 : Text) (port : ℕ) (existing : Text)
    → is_host_token hostname ≡ true
    → IsSpaceless algo
    → IsSpaceless b64
    → contains b64 existing ≡ false
    → any_of
        (line_names (known_host_pattern hostname port))
        (splitlines (append_known_host hostname algo b64 port existing))
      ≡ true
append_known_host-names hostname algo b64 port existing h p q new =
    let pattern = known_host_pattern hostname port in
    let plain = pattern-IsPlain hostname port h in
    unfold append_known_host host_line in
    rw new (
      written-any_of (line_names pattern) existing (pattern ++ 32 ∷ (algo ++ 32 ∷ b64))
        (line_unbroken pattern algo b64 plain p q)
        (line_names-pattern pattern (algo ++ 32 ∷ b64) plain (pattern-IsNamed hostname port h)))

words_from-IsSpaceless : (word s : Text) → IsSpaceless word → All IsSpaceless (words_from word s)
unfolding words_from flush
words_from-IsSpaceless [] [] h = tt
words_from-IsSpaceless (c ∷ word) [] h = (h, tt)
words_from-IsSpaceless [] (c ∷ s) h = elim (Bool-cases (is_space c)) [
  | inl gap ↦ rw gap (words_from-IsSpaceless [] s tt)
  | inr inside ↦ rw inside (words_from-IsSpaceless (c ∷ []) s (inside, tt))
]
words_from-IsSpaceless (d ∷ word) (c ∷ s) h = elim (Bool-cases (is_space c)) [
  | inl gap ↦ rw gap (h, words_from-IsSpaceless [] s tt)
  | inr inside ↦ rw inside (
      words_from-IsSpaceless (d ∷ (word ++ c ∷ [])) s
        (All-append (λ x. is_space x ≡ false) (d ∷ word) (c ∷ []) h (inside, tt)))
]

host_is_known-names :
    (matched : Option Bool) (text hostname : Text) (port : ℕ)
    → any_of (line_names (known_host_pattern hostname port)) (splitlines text) ≡ true
    → host_is_known (present matched (some text)) hostname port ≡ true
unfolding host_is_known text_names
host_is_known-names none text hostname port h = refl
host_is_known-names (some true) text hostname port h = refl
host_is_known-names (some false) text hostname port h = h

-- A host whose key `accept-new` recorded is known at the next connection, which is then verified
-- against the file. The host is a token as a caller may pass it, the exported key is its algorithm,
-- its body and more, and the body was not in the file before, for which host it may be.
pub persist_host_key-against :
    (path blob algo b64 hostname existing : Text) (port : ℕ) (rest : List Text)
    (matched : Option Bool)
    → is_host_token hostname ≡ true
    → words blob ≡ algo ∷ b64 ∷ rest
    → contains b64 existing ≡ false
    → let file = present matched (some (persist_host_key blob hostname port existing)) in
      known_hosts_arg path (codes "accept-new") (host_is_known file hostname port) ≡ against path
persist_host_key-against path blob algo b64 hostname existing port rest matched h parts new =
    let spaceless : All IsSpaceless (algo ∷ b64 ∷ rest) =
      unfold words in subst (All IsSpaceless) parts (words_from-IsSpaceless [] blob tt) in
    let text = persist_host_key blob hostname port existing in
    let written : text ≡ append_known_host hostname algo b64 port existing =
      unfold persist_host_key persist_words in rw parts refl in
    let known : host_is_known (present matched (some text)) hostname port ≡ true =
      host_is_known-names matched text hostname port (
        rw written (
          append_known_host-names hostname algo b64 port existing h spaceless.0 spaceless.1.0
            new)) in
    rw known (unfold known_hosts_arg in refl)
