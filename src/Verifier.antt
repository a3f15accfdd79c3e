-- ===== src/Verifier.antt =====
-- The comparison of an installed file with its template (`verify_pair` of
-- src/relay_shell/verifier.py), on what reading the files gives.
use relay_shell.Prelude.{
  ℕ, ◌≡◌, ◌≢◌, ◌⊎◌, inl, inr, refl, true, false, [], ◌∷◌, ◌++◌, Option, none, some, Text, text_eq,
  text_eq_sound, text_eq_refl, starts_with, length, drop, ◌==◌, ==_iff, if◌then◌else◌, Bool-cases,
  arith, ap, ◌∙◌, All,
}

-- What a path holds: no regular file, a file that cannot be opened, bytes that are no UTF-8, text.
pub data File : Type 0 where
  absent unreadable not_utf8 : File
  contents : Text → File

pub data Status : Type 0 where
  ok drift missing absent_template : Status

-- `lstrip("\n")`
unfoldable pub lstrip_newlines : Text → Text
lstrip_newlines [] = []
lstrip_newlines (c ∷ s) = let rest = lstrip_newlines s in if c == 10 then rest else c ∷ s

-- The installed text behind the leader, which counts if it is set and not empty.
unfoldable pub managed_body : Option Text → Text → Text
unfolding lstrip_newlines
managed_body none installed = installed
managed_body (some []) installed = installed
managed_body (some (c ∷ leader)) installed =
    if starts_with (c ∷ leader) installed
    then lstrip_newlines (drop (length (c ∷ leader)) installed)
    else installed

unfoldable pub compare_texts : Option Text → Text → Text → Status
unfolding managed_body
compare_texts leader template installed =
    if text_eq (managed_body leader installed) template then ok else drift

-- The template is looked for and read first.
unfoldable pub verify_pair : Option Text → File → File → Status
unfolding compare_texts
verify_pair leader absent installed = absent_template
verify_pair leader template absent = missing
verify_pair leader unreadable installed = missing
verify_pair leader not_utf8 installed = drift
verify_pair leader (contents template) unreadable = missing
verify_pair leader (contents template) not_utf8 = drift
verify_pair leader (contents template) (contents installed) =
    compare_texts leader template installed

starts_with-append : (p s : Text) → starts_with p s ≡ true → s ≡ p ++ drop (length p) s
unfolding starts_with
starts_with-append [] s h = refl
starts_with-append (c ∷ p) [] h = cc
starts_with-append (c ∷ p) (d ∷ s) h = ground (arith, starts_with-append p s)

-- The newlines that are stripped.
lstrip_newlines-append :
    (s : Text) → (n : Text) × (All (λ c. c ≡ 10) n × (s ≡ n ++ lstrip_newlines s))
unfolding lstrip_newlines
lstrip_newlines-append [] = ([], (tt, refl))
lstrip_newlines-append (c ∷ s) = elim (Bool-cases (c == 10)) [
  | inl e ↦
      let (n, (all, same)) = lstrip_newlines-append s in
      rw e (c ∷ n, (((==_iff c 10).0 e, all), ap (λ t. c ∷ t) same))
  | inr e ↦ rw e ([], (tt, refl))
]

managed_body-cases :
    (leader : Option Text) (installed : Text)
    → (installed ≡ managed_body leader installed)
      ⊎ ((l : Text) × (n : Text) × ((leader ≡ some l)
            × (All (λ c. c ≡ 10) n)
            × (installed ≡ l ++ (n ++ managed_body leader installed))))
unfolding managed_body
managed_body-cases none installed = inl refl
managed_body-cases (some []) installed = inl refl
managed_body-cases (some (c ∷ leader)) installed =
    elim (Bool-cases (starts_with (c ∷ leader) installed)) [
      | inr e ↦ rw e (inl refl)
      | inl e ↦
          let (n, (all, same)) = lstrip_newlines-append (drop (length (c ∷ leader)) installed) in
          rw e (
            inr (
              c ∷ leader,
              n,
              (
                refl,
                all,
                starts_with-append (c ∷ leader) installed e ∙ ap (λ t. (c ∷ leader) ++ t) same,
              ),
            ))
    ]

compare_texts_ok :
    (leader : Option Text) (template installed : Text)
    → compare_texts leader template installed ≡ ok
    → managed_body leader installed ≡ template
unfolding compare_texts
compare_texts_ok leader template installed h =
    elim (Bool-cases (text_eq (managed_body leader installed) template)) [
      | inl e ↦ text_eq_sound _ template e
      | inr e ↦ absurd (let bad : drift ≡ ok = (rw e at h) in cc)
    ]

-- What a pair's files hold where it is reported OK.
pub record Matches (leader : Option Text) (template_file installed_file : File) : Type 0 where
  pub template : Text
  pub installed : Text
  pub template_read : template_file ≡ contents template
  pub installed_read : installed_file ≡ contents installed
  pub same :
      (installed ≡ template)
      ⊎ ((l : Text) × (n : Text) × ((leader ≡ some l)
            × (All (λ c. c ≡ 10) n)
            × (installed ≡ l ++ (n ++ template))))

-- A pair is reported OK only where both files were read as text and the installed text is the
-- template, or the leader line, newlines and the template.
pub verify_pair_sound :
    (leader : Option Text) (template installed : File)
    → verify_pair leader template installed ≡ ok
    → Matches leader template installed
unfolding verify_pair
verify_pair_sound leader absent installed h = cc
verify_pair_sound leader unreadable absent h = cc
verify_pair_sound leader unreadable unreadable h = cc
verify_pair_sound leader unreadable not_utf8 h = cc
verify_pair_sound leader unreadable (contents i) h = cc
verify_pair_sound leader not_utf8 absent h = cc
verify_pair_sound leader not_utf8 unreadable h = cc
verify_pair_sound leader not_utf8 not_utf8 h = cc
verify_pair_sound leader not_utf8 (contents i) h = cc
verify_pair_sound leader (contents t) absent h = cc
verify_pair_sound leader (contents t) unreadable h = cc
verify_pair_sound leader (contents t) not_utf8 h = cc
verify_pair_sound leader (contents t) (contents i) h =
    let e : managed_body leader i ≡ t = compare_texts_ok leader t i h in
    record {
      template = t;
      installed = i;
      template_read = refl;
      installed_read = refl;
      same = rw (← e) (managed_body-cases leader i);
    }

starts_with_self : (p s : Text) → starts_with p (p ++ s) ≡ true
unfolding starts_with
starts_with_self [] s = refl
starts_with_self (c ∷ p) s = ground (arith, starts_with_self p s)

drop_self : (p s : Text) → drop (length p) (p ++ s) ≡ s
drop_self [] s = refl
drop_self (c ∷ p) s = drop_self p s

written_body :
    (first c : ℕ) (leader template : Text)
    → c ≢ 10
    → managed_body (some (first ∷ leader)) ((first ∷ leader) ++ 10 ∷ c ∷ template) ≡ c ∷ template
unfolding managed_body lstrip_newlines
written_body first c leader template text_first =
    let other : (c == 10) ≡ false = ground arith in
    rw
      (
        starts_with_self (first ∷ leader) (10 ∷ c ∷ template),
        drop_self leader (10 ∷ c ∷ template),
        other,
      )
      refl

-- A file that the installer wrote as the leader line and the template is reported OK, for a
-- template that does not start with a newline.
pub verify_pair-written :
    (first c : ℕ) (leader template : Text)
    → c ≢ 10
    → verify_pair
        (some (first ∷ leader))
        (contents (c ∷ template))
        (contents ((first ∷ leader) ++ 10 ∷ c ∷ template))
      ≡ ok
verify_pair-written first c leader template text_first =
    let body : managed_body (some (first ∷ leader)) ((first ∷ leader) ++ 10 ∷ c ∷ template)
        ≡ c ∷ template =
      written_body first c leader template text_first in
    unfold verify_pair compare_texts in rw (body, text_eq_refl (c ∷ template)) refl
