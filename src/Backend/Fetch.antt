-- ===== src/Backend/Fetch.antt =====
-- What the loops over pages (pkg/kritis/metadata/grafeas/grafeas.go) and iterators
-- (pkg/kritis/metadata/containeranalysis/containeranalysis.go) fetch.
use kritis.Base.{
  ℕ, zero, suc, ◌<◌, ◌≤◌, subst, String, ◌≡◌, refl, sym, ap, inl, inr, ◌≢◌, false, Option, none,
  some, List, [], ◌∷◌, ◌++◌, length, is_empty, str_eq-false, is_empty-append, is_empty-eq-nil,
  if◌then◌else◌, Bool-cases, arith,
}
use mathlib.Core.List.{append-nil, append_assoc}
use kritis.Base.Result.{Result, ok, err, ok-injective, Done}
use kritis.Base.Exec.{Exec, Yields}
use kritis.Base.Run.{Run, then_run, Returns}
use kritis.Occurrences.{Occurrence}
use kritis.Backend.{Page}
use kritis.Backend.Grafeas.{after_page, fetch_pages}
use kritis.Backend.Analysis.{after_next, fetch_all}

-- The occurrences of all the pages.
abbrev pub all_of : List Page → List Occurrence
all_of [] = []
all_of (page ∷ pages) = page.occurrences ++ all_of pages

-- What is seen of the pages: nothing where the first of them is empty.
abbrev pub seen_of : List Page → List Occurrence
seen_of [] = []
seen_of (page ∷ pages) = if is_empty page.occurrences then [] else page.occurrences ++ all_of pages

module _ {W : Type 0} (list : String → Exec W Page) where
  -- The pages that the listing gives from a token on, in any world; the last has no next token.
  abbrev pub Serves : String → List Page → Type 0
  Serves token [] = ⊥
  Serves token (page ∷ []) = Yields (list token) (ok page) × (page.next_page_token ≡ "")
  Serves token (page ∷ next ∷ pages) =
      Yields (list token) (ok page)
      × (page.next_page_token ≢ "")
      × Serves page.next_page_token (next ∷ pages)

  abbrev Gives : {A : Type 0} → A → Option (Result A × W) → Type 0
  Gives a o = Returns (ok a) o

  given-page :
      {A : Type 0} (f : Page → Run W A) (a : A) (page : Page) (r : Result Page) (w : W)
      → r ≡ ok page
      → ((v : W) → Gives a (f page v))
      → Gives a (then_run f (some (r, w)))
  given-page f a page (ok other) w e h = subst (λ p. Gives a (f p w)) (sym (ok-injective e)) (h w)
  given-page f a page (err x) w e h = absurd (cc e)

  -- A last page ends the loop.
  last_page :
      (rest : List Occurrence → String → Run W (List Occurrence)) (occs : List Occurrence)
      (page : Page) (w : W)
      → page.next_page_token ≡ ""
      → Gives (occs ++ page.occurrences) (after_page rest occs page w)
  last_page rest occs page w e = elim (Bool-cases (is_empty (occs ++ page.occurrences))) [
    | inl q ↦ rw q (w, refl)
    | inr q ↦ rw (q, e) (w, refl)
  ]

  -- A page with a next token is followed by the next round where something is fetched.
  next_round :
      (rest : List Occurrence → String → Run W (List Occurrence)) (occs : List Occurrence)
      (page : Page) (w : W)
      → is_empty (occs ++ page.occurrences) ≡ false
      → page.next_page_token ≢ ""
      → after_page rest occs page w ≡ rest (occs ++ page.occurrences) page.next_page_token w
  next_round rest occs page w q n = rw (q, str_eq-false page.next_page_token "" n) refl

  fetch_more :
      (fuel : ℕ) (occs : List Occurrence) (token : String) (pages : List Page) (w : W)
      → Serves token pages
      → length pages ≤ fuel
      → is_empty occs ≡ false
      → Gives (occs ++ all_of pages) (fetch_pages list fuel occs token w)
  unfolding fetch_pages
  fetch_more fuel occs token [] w s h q = absurd s
  fetch_more zero occs token (page ∷ pages) w s h q = absurd (omega (arith, h))
  fetch_more (suc fuel) occs token (page ∷ []) w (y, e) h q =
      given-page (after_page (fetch_pages list fuel) occs) (occs ++ (page.occurrences ++ [])) page
        (list token w).0 (list token w).1 (y w)
        (λ v. rw (append-nil page.occurrences) (last_page (fetch_pages list fuel) occs page v e))
  fetch_more (suc fuel) occs token (page ∷ next ∷ pages) w (y, n, s) h q =
      given-page (after_page (fetch_pages list fuel) occs) (occs ++ all_of (page ∷ next ∷ pages))
        page (list token w).0 (list token w).1 (y w)
        (λ v.
          subst (Gives (occs ++ all_of (page ∷ next ∷ pages)))
            (sym (
              next_round (fetch_pages list fuel) occs page v
                (is_empty-append occs page.occurrences q) n))
            (subst
              (λ os.
                Gives os (fetch_pages list fuel (occs ++ page.occurrences) page.next_page_token v))
              (append_assoc occs page.occurrences (all_of (next ∷ pages)))
              (fetch_more fuel (occs ++ page.occurrences) page.next_page_token (next ∷ pages) v s
                (omega (arith, h)) (is_empty-append occs page.occurrences q))))

  -- The first page: an empty one ends the loop.
  first_page :
      (rest : List Occurrence → String → Run W (List Occurrence)) (page : Page) (pages : List Page)
      (w : W)
      → (is_empty page.occurrences ≡ false
          → Gives (all_of (page ∷ pages)) (after_page rest [] page w))
      → Gives (seen_of (page ∷ pages)) (after_page rest [] page w)
  first_page rest page pages w h = elim (Bool-cases (is_empty page.occurrences)) [
    | inl q ↦ rw (is_empty-eq-nil page.occurrences q) (w, refl)
    | inr q ↦
        subst (λ os. Gives os (after_page rest [] page w))
          (ap (λ b. if b then [] else all_of (page ∷ pages)) (sym q)) (h q)
  ]

  after_first :
      (fuel : ℕ) (page next : Page) (pages : List Page) (w : W)
      → page.next_page_token ≢ ""
      → Serves page.next_page_token (next ∷ pages)
      → length (next ∷ pages) ≤ fuel
      → is_empty page.occurrences ≡ false
      → Gives (all_of (page ∷ next ∷ pages)) (after_page (fetch_pages list fuel) [] page w)
  after_first fuel page next pages w n s h q =
      subst (Gives (all_of (page ∷ next ∷ pages)))
        (sym (next_round (fetch_pages list fuel) [] page w q n))
        (fetch_more fuel page.occurrences page.next_page_token (next ∷ pages) w s h q)

  -- A service with finitely many pages: as many rounds as there are pages are enough, and the loop
  -- returns the occurrences of all of them, in order, except where the first page is empty: then
  -- it returns none, whatever the later pages have.
  pub fetch_pages-Serves :
      (fuel : ℕ) (token : String) (pages : List Page) (w : W)
      → Serves token pages
      → length pages ≤ fuel
      → Gives (seen_of pages) (fetch_pages list fuel [] token w)
  unfolding fetch_pages
  fetch_pages-Serves fuel token [] w s h = absurd s
  fetch_pages-Serves zero token (page ∷ pages) w s h = absurd (omega (arith, h))
  fetch_pages-Serves (suc fuel) token (page ∷ []) w (y, e) h =
      given-page (after_page (fetch_pages list fuel) []) (seen_of (page ∷ [])) page (list token w).0
        (list token w).1 (y w)
        (λ v.
          first_page (fetch_pages list fuel) page [] v
            (λ q. rw (append-nil page.occurrences) (last_page (fetch_pages list fuel) [] page v e)))
  fetch_pages-Serves (suc fuel) token (page ∷ next ∷ pages) w (y, n, s) h =
      given-page (after_page (fetch_pages list fuel) []) (seen_of (page ∷ next ∷ pages)) page
        (list token w).0 (list token w).1 (y w)
        (λ v.
          first_page (fetch_pages list fuel) page (next ∷ pages) v
            (λ q. after_first fuel page next pages v n s (omega (arith, h)) q))

-- What an iteration returns: its occurrences, or the error that ended it.
abbrev pub returned : Result Done → List Occurrence → Result (List Occurrence)
returned (ok done) occs = ok occs
returned (err e) occs = err e

-- What the iterator gives at its end.
abbrev pub at_end : Result Done → Result (Option Occurrence)
at_end (ok done) = ok none
at_end (err e) = err e

module _ {W : Type 0} (next : Exec W (Option Occurrence)) where
  -- From this world the iterator gives these occurrences and then ends so.
  abbrev pub Iterates : Result Done → W → List Occurrence → Type 0
  Iterates end w [] = (next w).0 ≡ at_end end
  Iterates end w (occ ∷ occs) = ((next w).0 ≡ ok (some occ)) × Iterates end (next w).1 occs

  ended :
      (rest : List Occurrence → Run W (List Occurrence)) (occs : List Occurrence)
      (end : Result Done) (r : Result (Option Occurrence)) (w : W)
      → r ≡ at_end end
      → Returns (returned end (occs ++ [])) (then_run (after_next rest occs) (some (r, w)))
  ended rest occs (ok done) r w e = rw (e, append-nil occs) (w, refl)
  ended rest occs (err x) r w e = rw e (w, refl)

  -- One round for each occurrence and one for the end are enough: the loop returns all the occurrences
  -- in order, or the error of the iterator, without the occurrences in front of it.
  pub fetch_from :
      (fuel : ℕ) (got occs : List Occurrence) (end : Result Done) (w : W)
      → Iterates end w occs
      → length occs < fuel
      → Returns (returned end (got ++ occs)) (fetch_all next fuel got w)
  unfolding fetch_all
  fetch_from zero got occs end w s h = absurd (omega (arith, h))
  fetch_from (suc fuel) got [] end w s h =
      ended (fetch_all next fuel) got end (next w).0 (next w).1 s
  fetch_from (suc fuel) got (occ ∷ occs) end w (e, s) h = rw e (
      subst (λ os. Returns (returned end os) (fetch_all next fuel (got ++ (occ ∷ [])) (next w).1))
        (append_assoc got (occ ∷ []) occs)
        (fetch_from fuel (got ++ (occ ∷ [])) occs end (next w).1 s (omega (arith, h))))
