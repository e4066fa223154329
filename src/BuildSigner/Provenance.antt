-- ===== src/BuildSigner/Provenance.antt =====
-- Which provenance is taken from a build event (pkg/kritis/gcbsigner/gcb_event_parser.go).
use Prim.Native.Char.{code}
use text.Mathlib.TextEquality.{Char-path}
use kritis.Base.{
  String, ◌+++◌, ◌≡◌, ◌≢◌, ◌⊎◌, refl, ap, inl, inr, Bool, true, false, ◌&&◌, not, none, some, List,
  [], ◌∷◌, nat_eq, nat_eq_iff, str_eq, str_eq_iff, if◌then◌else◌, Bool-cases, arith,
}
use kritis.Base.Split.{begins, glue}
use kritis.Base.Returned.{some-injective}
use kritis.Base.Result
use kritis.Base.Result.{Result, ok, err, ok-injective}
use kritis.Metadata.{Bytes}
use kritis.BuildSigner.{BuildProvenance}
use kritis.BuildSigner.Events.{
  BuildSource, BuiltImage, BuildEvent, contains, source_suffix, provenance_of, provenance_from,
  extract_build_provenance_from_event,
}

-- A text has another inside it.
abbrev pub Occurs : String → String → Type 0
Occurs sub s = (before : String) × (behind : String) × (s ≡ glue before (glue sub behind))

both : (a b : Bool) → (a && b) ≡ true → (a ≡ true) × (b ≡ true)
both true b h = (refl, h)
both false b h = absurd (cc h)

begins-prefix : (sub s : String) → begins sub s ≡ true → (behind : String) × (s ≡ glue sub behind)
begins-prefix String.[] s h = (s, refl)
begins-prefix (String.◌∷◌ c sub) String.[] h = absurd (cc h)
begins-prefix (String.◌∷◌ c sub) (String.◌∷◌ d s) h =
    let (same, rest) = both (nat_eq (code c) (code d)) (begins sub s) h in
    let (behind, e) = begins-prefix sub s rest in
    let chars : c ≡ d = Char-path c d ((nat_eq_iff (code c) (code d)).0 same) in
    (behind, rw (chars, e) refl)

begins-glue : (sub behind : String) → begins sub (glue sub behind) ≡ true
begins-glue String.[] behind = refl
begins-glue (String.◌∷◌ c sub) behind =
    rw ((nat_eq_iff (code c) (code c)).1 refl, begins-glue sub behind) refl

contains-Occurs : (s sub : String) → contains s sub ≡ true → Occurs sub s
unfolding contains
contains-Occurs String.[] sub h =
    let (behind, e) = begins-prefix sub String.[] h in (String.[], behind, e)
contains-Occurs (String.◌∷◌ c s) sub h = elim (Bool-cases (begins sub (String.◌∷◌ c s))) [
  | inl e ↦ let (behind, p) = begins-prefix sub (String.◌∷◌ c s) e in (String.[], behind, p)
  | inr e ↦
      let (before, behind, p) = contains-Occurs s sub (rw e at h) in
      (String.◌∷◌ c before, behind, ap (λ t. String.◌∷◌ c t) p)
]

contains-here : (sub s : String) → begins sub s ≡ true → contains s sub ≡ true
unfolding contains
contains-here sub String.[] h = h
contains-here sub (String.◌∷◌ c s) h = rw h refl

contains-glue : (sub before behind : String) → contains (glue before (glue sub behind)) sub ≡ true
unfolding contains
contains-glue sub String.[] behind = contains-here sub (glue sub behind) (begins-glue sub behind)
contains-glue sub (String.◌∷◌ c before) behind = grind (arith, contains-glue sub before behind)

Occurs-contains : (sub s : String) → Occurs sub s → contains s sub ≡ true
Occurs-contains sub s (before, behind, e) = rw e (contains-glue sub before behind)

-- The suffix of a source: its commit, or else its tag, or else its branch.
abbrev pub Suffix : BuildSource → String → Type 0
Suffix source s =
    ((source.commit_sha ≢ "") × (s ≡ "@" +++ source.commit_sha))
    ⊎ ((source.commit_sha ≡ "") × (source.tag_name ≢ "") × (s ≡ ":" +++ source.tag_name))
    ⊎ ((source.commit_sha ≡ "") × (source.tag_name ≡ "") × (s ≡ ":" +++ source.branch_name))

-- The provenance of an image: the build's ID, the image by its digest, and the source with its suffix.
abbrev pub IsProvenance : BuildEvent → BuiltImage → BuildProvenance → Type 0
IsProvenance event image p =
    (p.build_id ≡ event.id)
    × (p.image_ref ≡ image.name +++ ("@" +++ image.digest))
    × ((suffix : String) × Suffix event.source suffix
        × (p.built_from
            ≡ "https://source.developers.google.com/p/"
              +++ (event.source.project_id +++ ("/r/" +++ (event.source.repo_name +++ suffix)))))

-- The provenance of the images whose names do not have ":latest" inside them, in order.
pub data Extracted (event : BuildEvent) : List BuiltImage → List BuildProvenance → Type 0 where
  no_images : Extracted event [] []
  latest :
      (image : BuiltImage) (images : List BuiltImage) (ps : List BuildProvenance)
      → Occurs ":latest" image.name
      → Extracted event images ps
      → Extracted event (image ∷ images) ps
  taken :
      (image : BuiltImage) (images : List BuiltImage) (p : BuildProvenance)
      (ps : List BuildProvenance)
      → (Occurs ":latest" image.name → ⊥)
      → IsProvenance event image p
      → Extracted event images ps
      → Extracted event (image ∷ images) (p ∷ ps)

source_suffix-Suffix : (source : BuildSource) → Suffix source (source_suffix source)
unfolding source_suffix
source_suffix-Suffix source = elim (Bool-cases (str_eq source.commit_sha "")) [
  | inr e ↦ inl (λ h. cc (e, (str_eq_iff source.commit_sha "").1 h), rw e refl)
  | inl e ↦ elim (Bool-cases (str_eq source.tag_name "")) [
    | inr f ↦ inr (
        inl (
          (str_eq_iff source.commit_sha "").0 e,
          λ h. cc (f, (str_eq_iff source.tag_name "").1 h),
          rw (e, f) refl,
        ))
    | inl f ↦ inr (
        inr (
          (str_eq_iff source.commit_sha "").0 e,
          (str_eq_iff source.tag_name "").0 f,
          rw (e, f) refl,
        ))
  ]
]

provenance_of-IsProvenance :
    (event : BuildEvent) (image : BuiltImage) → IsProvenance event image (provenance_of event image)
provenance_of-IsProvenance event image =
    (refl, refl, (source_suffix event.source, source_suffix-Suffix event.source, refl))

tested-Extracted :
    (event : BuildEvent) (image : BuiltImage) (images : List BuiltImage) (ps : List BuildProvenance)
    (is_latest : Bool)
    → contains image.name ":latest" ≡ is_latest
    → Extracted event images ps
    → Extracted event (image ∷ images) (if is_latest then ps else provenance_of event image ∷ ps)
tested-Extracted event image images ps true e h =
    Extracted.latest image images ps (contains-Occurs image.name ":latest" e) h
tested-Extracted event image images ps false e h =
    Extracted.taken image images (provenance_of event image) ps
      (λ occurs. absurd (cc (e, Occurs-contains ":latest" image.name occurs)))
      (provenance_of-IsProvenance event image) h

provenance_from-Extracted :
    (event : BuildEvent) (images : List BuiltImage)
    → Extracted event images (provenance_from event images)
unfolding provenance_from
provenance_from-Extracted event [] = Extracted.no_images
provenance_from-Extracted event (image ∷ images) =
    tested-Extracted event image images (provenance_from event images)
      (contains image.name ":latest") refl (provenance_from-Extracted event images)

of_status :
    (event : BuildEvent) (ps : List BuildProvenance) (succeeded : Bool)
    → str_eq event.status "SUCCESS" ≡ succeeded
    → (if not succeeded then none else some (provenance_from event event.images)) ≡ some ps
    → (event.status ≡ "SUCCESS") × Extracted event event.images ps
of_status event ps true e h = (
  (str_eq_iff event.status "SUCCESS").0 e,
  rw (← some-injective h) (provenance_from-Extracted event event.images),
)
of_status event ps false e h = absurd (cc h)

-- Where provenance is taken from a message, the message is a decoded event with status SUCCESS, and
-- the provenance is, in order, that of its images without ":latest" in their names: the build's ID, the
-- image by its digest, and the source with its commit, or else its tag, or else its branch.
pub extract-provenance_from_event :
    (unmarshal : Bytes → Result BuildEvent) (msg : Bytes) (ps : List BuildProvenance)
    → extract_build_provenance_from_event unmarshal msg ≡ ok (some ps)
    → (event : BuildEvent) × (unmarshal msg ≡ ok event)
      × (event.status ≡ "SUCCESS")
      × Extracted event event.images ps
unfolding extract_build_provenance_from_event
extract-provenance_from_event unmarshal msg ps h =
    let (event, e, k) = Result.>>=-eq-ok (unmarshal msg) _ h in
    let (s, q) = of_status event ps (str_eq event.status "SUCCESS") refl (ok-injective k) in
    (event, e, s, q)
