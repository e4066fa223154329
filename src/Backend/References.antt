-- ===== src/Backend/References.antt =====
-- Which texts the parsers of note references (pkg/kritis/metadata/metadata.go), note names
-- (pkg/kritis/util/util.go) and registries (containeranalysis.go) accept.
use kritis.Base.{
  arith, String, ◌≡◌, refl, sym, ap, ◌∙◌, ◌↔◌, inl, inr, true, ◌&&◌, List, [], ◌∷◌, ◌++◌, str_eq,
  str_eq_iff, Bool-cases, All, All-append, All-prefix,
}
use kritis.Base.Split.{split, join, Lacks, split-Lacks, join-split, split-join, unsplit-Lacks}
use kritis.Base.Result.{ok, is_ok}
use kritis.Backend.{
  slash, dot, note_parts, parse_note_reference, is_gcr, is_registry_gcr, note_name_parts,
  check_note_name,
}

abbrev four : String → String → List String
four project_id note_id = "projects" ∷ project_id ∷ "notes" ∷ note_id ∷ []

accepted_parts :
    (ref a b c d p n : String)
    → note_parts ref (a ∷ b ∷ c ∷ d ∷ []) ≡ ok (p, n)
    → a ∷ b ∷ c ∷ d ∷ [] ≡ four p n
accepted_parts ref a b c d p n h = elim (Bool-cases (str_eq a "projects")) [
  | inl e ↦ elim (Bool-cases (str_eq c "notes")) [
    | inl k ↦ cc (rw (e, k) at h, (str_eq_iff a "projects").0 e, (str_eq_iff c "notes").0 k)
    | inr k ↦ absurd (cc (rw (e, k) at h))
  ]
  | inr e ↦ absurd (cc (rw e at h))
]

note_parts-ok :
    (ref : String) (parts : List String) (p n : String)
    → note_parts ref parts ≡ ok (p, n)
    → parts ≡ four p n
note_parts-ok ref [] p n h = absurd (cc h)
note_parts-ok ref (a ∷ []) p n h = absurd (cc h)
note_parts-ok ref (a ∷ b ∷ []) p n h = absurd (cc h)
note_parts-ok ref (a ∷ b ∷ c ∷ []) p n h = absurd (cc h)
note_parts-ok ref (a ∷ b ∷ c ∷ d ∷ []) p n h = accepted_parts ref a b c d p n h
note_parts-ok ref (a ∷ b ∷ c ∷ d ∷ e ∷ rest) p n h = absurd (cc h)

projects_parts : split slash "projects" ≡ "projects" ∷ []
unfolding split
projects_parts = refl

notes_parts : split slash "notes" ≡ "notes" ∷ []
unfolding split
notes_parts = refl

gcr_parts : split dot "gcr" ≡ "gcr" ∷ []
unfolding split
gcr_parts = refl

io_parts : split dot "io" ≡ "io" ∷ []
unfolding split
io_parts = refl

parsed :
    (ref p n : String) (lacking : All (Lacks slash) (split slash ref))
    → split slash ref ≡ four p n
    → (ref ≡ join slash (four p n)) × Lacks slash p × Lacks slash n
parsed ref p n lacking e =
    let all_lack = rw e at lacking in
    (sym (join-split slash ref) ∙ ap (join slash) e, all_lack.1.0, all_lack.1.1.1.0)

split-four :
    (p n : String) → Lacks slash p → Lacks slash n → split slash (join slash (four p n)) ≡ four p n
split-four p n hp hn =
    split-join slash "projects" (p ∷ "notes" ∷ n ∷ [])
      (unsplit-Lacks slash "projects" projects_parts)
      (hp, (unsplit-Lacks slash "notes" notes_parts, (hn, tt)))

-- A reference is parsed into a project and a note exactly when it is `projects/<project>/notes/<note>`
-- and neither of the two has a slash.
pub parse_note_reference_iff :
    (ref p n : String)
    → (parse_note_reference ref ≡ ok (p, n))
      ↔ ((ref ≡ join slash (four p n)) × Lacks slash p × Lacks slash n)
unfolding parse_note_reference
parse_note_reference_iff ref p n = (
  λ h. parsed ref p n (split-Lacks slash ref) (note_parts-ok ref (split slash ref) p n h),
  λ (e, hp, hn). rw (e, split-four p n hp hn) refl,
)

-- A list of parts ends with these two.
abbrev Ends : List String → Type 0
Ends parts = (domain : List String) × (parts ≡ domain ++ ("gcr" ∷ "io" ∷ []))

Ends-cons : (a : String) (parts : List String) → Ends parts → Ends (a ∷ parts)
Ends-cons a parts (domain, e) = (a ∷ domain, ap (λ ps. a ∷ ps) e)

last_pair : (a b : String) → str_eq a "gcr" && str_eq b "io" ≡ true → Ends (a ∷ b ∷ [])
last_pair a b h = ([], grind (arith, str_eq_iff a "gcr", str_eq_iff b "io", h))

is_gcr-Ends : (parts : List String) → is_gcr parts ≡ true → Ends parts
unfolding is_gcr
is_gcr-Ends [] h = absurd (cc h)
is_gcr-Ends (a ∷ []) h = absurd (cc h)
is_gcr-Ends (a ∷ b ∷ []) h = last_pair a b h
is_gcr-Ends (a ∷ b ∷ c ∷ parts) h = Ends-cons a (b ∷ c ∷ parts) (is_gcr-Ends (b ∷ c ∷ parts) h)

is_gcr-append : (domain : List String) → is_gcr (domain ++ ("gcr" ∷ "io" ∷ [])) ≡ true
unfolding is_gcr
is_gcr-append [] = refl
is_gcr-append (a ∷ []) = refl
is_gcr-append (a ∷ b ∷ []) = refl
is_gcr-append (a ∷ b ∷ c ∷ domain) = is_gcr-append (b ∷ c ∷ domain)

split_domain :
    (domain : List String)
    → All (Lacks dot) domain
    → split dot (join dot (domain ++ ("gcr" ∷ "io" ∷ []))) ≡ domain ++ ("gcr" ∷ "io" ∷ [])
split_domain [] h =
    split-join dot "gcr" ("io" ∷ []) (unsplit-Lacks dot "gcr" gcr_parts)
      (unsplit-Lacks dot "io" io_parts, tt)
split_domain (a ∷ domain) (h, hs) = split-join dot a (domain ++ ("gcr" ∷ "io" ∷ [])) h (
    All-append (Lacks dot) domain ("gcr" ∷ "io" ∷ []) hs
      (unsplit-Lacks dot "gcr" gcr_parts, (unsplit-Lacks dot "io" io_parts, tt)))

registry_of :
    (registry : String)
    → All (Lacks dot) (split dot registry)
    → Ends (split dot registry)
    → (domain : List String) × All (Lacks dot) domain
      × (registry ≡ join dot (domain ++ ("gcr" ∷ "io" ∷ [])))
registry_of registry lacking (domain, e) = (
  domain,
  All-prefix (Lacks dot) domain ("gcr" ∷ "io" ∷ []) (rw e at lacking),
  sym (join-split dot registry) ∙ ap (join dot) e,
)

-- A registry is accepted exactly when it is `gcr.io` or a name below that domain.
pub is_registry_gcr_iff :
    (registry : String)
    → (is_registry_gcr registry ≡ true) ↔ (
        (domain : List String) × All (Lacks dot) domain
        × (registry ≡ join dot (domain ++ ("gcr" ∷ "io" ∷ []))))
unfolding is_registry_gcr
is_registry_gcr_iff registry = (
  λ h. registry_of registry (split-Lacks dot registry) (is_gcr-Ends (split dot registry) h),
  λ (domain, hs, e). rw (e, split_domain domain hs) (is_gcr-append domain),
)

same_note_parts :
    (ref : String) (parts : List String)
    → is_ok (note_name_parts ref parts) ≡ is_ok (note_parts ref parts)
same_note_parts ref [] = refl
same_note_parts ref (a ∷ []) = refl
same_note_parts ref (a ∷ b ∷ []) = refl
same_note_parts ref (a ∷ b ∷ c ∷ []) = refl
same_note_parts ref (a ∷ b ∷ c ∷ d ∷ []) =
    elim (Bool-cases (str_eq a "projects" && str_eq c "notes")) [
      | inl e ↦ rw e refl
      | inr e ↦ rw e refl
    ]
same_note_parts ref (a ∷ b ∷ c ∷ d ∷ e ∷ rest) = refl

-- The two checks of a note's name accept the same texts.
pub check_note_name_lem :
    (ref : String) → is_ok (check_note_name ref) ≡ is_ok (parse_note_reference ref)
unfolding check_note_name parse_note_reference
check_note_name_lem ref = same_note_parts ref (split slash ref)
